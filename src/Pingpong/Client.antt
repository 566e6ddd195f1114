-- ===== src/Pingpong/Client.antt =====
-- `pingpong_client` of main.cpp: it registers functions, connects, sends one text and closes. Its
-- closures are numbered. The texts of the log are parameters, and so are the wrapped functions of the
-- router, whose log lines are those of the functions here.
use cpp_sk.Base.{ℕ, true, false, Option, none, some, [], ◌∷◌, length, ◌==◌, if◌then◌else◌}
use cpp_sk.World.{World, error}
use cpp_sk.HandleStorage.{handle_namehandle}
use cpp_sk.Message.{Bytes}
use cpp_sk.Service.{
  Closure, Service, own_handle, timeout, connect, start_tcp, send_buffer, close_socket,
}
use cpp_sk.Service
use cpp_sk.Rpc.{Router, register_rpc_func}

-- The instances of `log`.
abbrev pub site_1_2 : ℕ
site_1_2 = 7

abbrev pub site_0_1 : ℕ
site_0_1 = 8

abbrev pub site_0_0 : ℕ
site_0_0 = 9

abbrev pub site_0_2 : ℕ
site_0_2 = 10

abbrev pub site_1_1 : ℕ
site_1_1 = 11

abbrev pub received_site : ℕ
received_site = 12

abbrev pub greet_site : ℕ
greet_site = 13

-- What a function that logs `text` and returns `r` comes to.
abbrev pub logged : {R : Type 0} → World → ℕ → Bytes → R → Option (World × R)
logged w site text r = elim (error w site 0 text) [ none ↦ none | some w' ↦ some (w', r) ]

-- "rpc_call_0_0"
abbrev pub text_0_0 : Bytes
text_0_0 = 114 ∷ 112 ∷ 99 ∷ 95 ∷ 99 ∷ 97 ∷ 108 ∷ 108 ∷ 95 ∷ 48 ∷ 95 ∷ 48 ∷ []

unfoldable pub rpc_call_1_2 : (ℕ → Bytes → Bytes) → World → ℕ → Bytes → Option (World × ℕ)
rpc_call_1_2 text w a s = logged w site_1_2 (text a s) 0

unfoldable pub rpc_call_0_1 : (ℕ → Bytes) → World → ℕ → Option World
rpc_call_0_1 text w a = error w site_0_1 0 (text a)

unfoldable pub rpc_call_0_0 : World → Option World
rpc_call_0_0 w = error w site_0_0 0 text_0_0

unfoldable pub rpc_call_0_2 : (ℕ → Bytes → Bytes) → World → ℕ → Bytes → Option World
rpc_call_0_2 text w a b = error w site_0_2 0 (text a b)

unfoldable pub rpc_call_1_0 : World → Option (World × ℕ)
rpc_call_1_0 w = some (w, 1)

unfoldable pub rpc_call_1_1 : (Bytes → Bytes) → World → Bytes → Option (World × ℕ)
rpc_call_1_1 text w s = logged w site_1_1 (text s) 1

-- The closures of `init`.
abbrev pub connected : Closure
connected = 0

abbrev pub received : Closure
received = 1

abbrev pub greet : Closure
greet = 2

abbrev pub hang_up : Closure
hang_up = 3

-- "hello world"
abbrev pub hello : Bytes
hello = 104 ∷ 101 ∷ 108 ∷ 108 ∷ 111 ∷ 32 ∷ 119 ∷ 111 ∷ 114 ∷ 108 ∷ 100 ∷ []

-- "start send buff"
abbrev pub start_text : Bytes
start_text =
    115 ∷ 116 ∷ 97 ∷ 114 ∷ 116 ∷ 32 ∷ 115 ∷ 101 ∷ 110 ∷ 100 ∷ 32 ∷ 98 ∷ 117 ∷ 102 ∷ 102 ∷ []

-- What is called when the connection is established.
unfoldable pub client_call_id : Closure → ℕ → Service → Option Service
client_call_id c id s = if c == connected then some (start_tcp s id received) else none

-- What is called with its bytes: they are logged, and taken.
unfoldable pub client_call_data :
    (ℕ → Bytes → Bytes) → Closure → ℕ → Bytes → Service → Option (Service × ℕ)
client_call_data text c id bytes s = elim (c == received) [
  | false ↦ none
  | true ↦ elim (error s.world received_site 0 (text id bytes)) [
    | none ↦ none
    | some w ↦ some (record s { world = w }, length bytes)
  ]
]

module _ (fd taken : ℕ) where
  -- What the timeouts call, for the identifier that `connect` gave; `taken` is what the direct write
  -- takes of the text. Whether the text is sent and the second timeout is set is not asked.
  unfoldable pub client_call : Closure → Service → Option Service
  client_call c s =
      if c == greet
      then elim (error s.world greet_site 0 start_text) [
        | none ↦ none
        | some w ↦ elim (send_buffer (record s { world = w }) fd hello taken) [
          | none ↦ none
          | some (s', _) ↦ elim (timeout s' 300 hang_up) [ none ↦ none | some (s'', _) ↦ some s'' ]
        ]
      ]
      else if c == hang_up
      then some (close_socket s fd)
      else none

-- The six calls of `register_rpc_func`, with the hash of each name and what runs for it.
module _ (id_1_2 id_0_1 id_0_0 id_0_2 id_1_0 id_1_1 : ℕ)
    (run_1_2 run_0_1 run_0_0 run_0_2 run_1_0 run_1_1 : Bytes → Option Bytes) where
  unfoldable pub client_router : Router
  unfolding register_rpc_func
  client_router = register_rpc_func id_1_1 run_1_1 (
      register_rpc_func id_1_0 run_1_0 (
        register_rpc_func id_0_2 run_0_2 (
          register_rpc_func id_0_0 run_0_0
            (register_rpc_func id_0_1 run_0_1 (register_rpc_func id_1_2 run_1_2 [])))))

-- `init` without the router: the service, and the identifier that the timeouts get.
unfoldable pub client_init : Service → Option (Service × ℕ)
unfolding Service.init
client_init s =
    let s1 = Service.init s in
    let w = s1.world in
    let named = record w {
      storage = (handle_namehandle w.storage (own_handle s1) "pingpong_client").0;
    } in
    elim (connect (record s1 { world = named }) connected) [
      | none ↦ none
      | some (s2, fd) ↦ elim (timeout s2 200 greet) [ none ↦ none | some (s3, _) ↦ some (s3, fd) ]
    ]
