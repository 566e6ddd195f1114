-- ===== src/Pingpong.antt =====
-- `pingpong_server` of main.cpp, a sample service: it listens, and sends back what it receives. Its
-- closures are numbered. The texts of the log, the serialized arguments, the hash of a function's
-- name, and the launch of the client are parameters.
pub mod Echo
pub mod Client
pub mod Farewell
mod Tests
use cpp_sk.Base.{
  ℕ, Bool, true, false, Option, none, some, List, [], ◌∷◌, length, ◌==◌, if◌then◌else◌,
}
use Prim.Native.String.{String}
use cpp_sk.World.{World, handle_of, error}
use cpp_sk.HandleStorage.{handle_namehandle}
use cpp_sk.Message.{Bytes}
use cpp_sk.Service.{
  Closure, Service, own_handle, timeout, listen, start_accept, start_tcp, send_buffer,
}
use cpp_sk.Service
use cpp_sk.Rpc.{request_named}

-- The closures of `init`, and those of the three replies.
abbrev pub ask : Closure
ask = 0

abbrev pub ready : Closure
ready = 1

abbrev pub opened : Closure
opened = 2

abbrev pub echo : Closure
echo = 3

abbrev pub reply_1_2 : Closure
reply_1_2 = 4

abbrev pub reply_0_1 : Closure
reply_0_1 = 5

abbrev pub reply_1_1 : Closure
reply_1_1 = 6

-- This instance of `log`.
abbrev pub data_site : ℕ
data_site = 5

-- What is called at a listening socket: its readiness, and each connection.
unfoldable pub server_call_id : Closure → ℕ → Service → Option Service
server_call_id c id s =
    if c == ready
    then some (start_accept s id opened)
    else if c == opened
    then some (start_tcp s id echo)
    else none

module _ (data_text : ℕ → Bytes → Bytes) (taken : ℕ) where
  -- What is called with the bytes of a connection; `taken` is what the direct write takes of them.
  unfoldable pub server_call_data : Closure → ℕ → Bytes → Service → Option (Service × ℕ)
  server_call_data c id bytes s = elim (c == echo) [
    | false ↦ none
    | true ↦ elim (error s.world data_site 0 (data_text id bytes)) [
      | none ↦ none
      | some w ↦ elim (send_buffer (record s { world = w }) id bytes taken) [
        | none ↦ none
        | some (s', r) ↦ some (s', length bytes)
      ]
    ]
  ]

-- What the timeout calls: three requests, whatever becomes of each.
module _ (args_1_2 args_0_1 args_1_1 : Bytes) (id_1_2 id_0_1 id_1_1 : ℕ) where
  unfoldable pub server_ask : Service → Option Service
  server_ask s = elim (request_named s "pingpong_client" id_1_2 args_1_2 reply_1_2) [
    | none ↦ none
    | some (s1, _) ↦ elim (request_named s1 "pingpong_client" id_0_1 args_0_1 reply_0_1) [
      | none ↦ none
      | some (s2, _) ↦ elim (request_named s2 "pingpong_client" id_1_1 args_1_1 reply_1_1) [
        | none ↦ none
        | some (s3, _) ↦ some s3
      ]
    ]
  ]

-- `init`; `failure` is the text if listening fails, `new_service` the launch of the client.
unfoldable pub server_init : (Service → Option Service) → Service → Option Bytes → Option Service
unfolding Service.init
server_init new_service s failure =
    let s1 = Service.init s in
    let w = s1.world in
    let named = record w {
      storage = (handle_namehandle w.storage (own_handle s1) "pingpong_server").0;
    } in
    elim (timeout (record s1 { world = named }) 50 ask) [
      | none ↦ none
      | some (s2, _) ↦ elim (listen s2 failure ready) [
        | none ↦ none
        | some (s3, _) ↦ new_service s3
      ]
    ]
