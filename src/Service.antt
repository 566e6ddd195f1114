-- ===== src/Service.antt =====
-- `module_mid_t` of cpp_sk.h, the base class of the services: its maps of callbacks and what it does
-- with each kind of message. A closure is known by a number. What a closure or an overriding method
-- does is a parameter, and so is whether an insertion into `socket_nodes` moves its entries and takes
-- the iterators away. An iterator that is read after a callback finds its entry by the key. `none` is
-- a null pointer, an iterator that is gone, an exception, or what the callees fail with.
pub mod Session
pub mod Stream
pub mod Sockets
pub mod Reading
pub mod Hangup
mod Tests
use cpp_sk.Base.{
  ℕ, ◌+◌, ◌-◌, ◌^◌, ◌<◌, ap, subst, Bool, true, false, not, Option, none, some, List, [], ◌∷◌, ◌++◌,
  map, leb, ◌==◌, if◌then◌else◌, length, set, take, drop,
}
use cpp_sk.World.{World, handle_of, put, error, newsession}
use cpp_sk.Base.Maps.{find, insert, erase}
use cpp_sk.HandleStorage.{Ptr}
use cpp_sk.Message.{
  Bytes, Ptype, Payload, nothing, string, socket_message, SkynetSocketMessage, StringBuf, minus_one,
}
use cpp_sk.Message.{ptr}
use cpp_sk.Message
use cpp_sk.Timer.{Timer}
use cpp_sk.TimerEvents
use cpp_sk.Socket.{Server}
use cpp_sk.SocketServer.{socket_listen, socket_connect}
use cpp_sk.SocketServer.Send.{socket_send}

abbrev pub Closure : Type 0
Closure = ℕ

-- `socket_node_t`
pub record SocketNode : Type 0 where
  pub id : ℕ
  pub connectd : Bool
  pub rbuff : Bytes
  pub cb : Option Closure
  pub on_data : Option Closure

abbrev pub fresh_node : SocketNode
fresh_node = record { id = minus_one; connectd = false; rbuff = []; cb = none; on_data = none }

-- What the socket server's functions post to its thread.
pub data Task : Type 0 where
  listen_task : ℕ → Task
  connect_task : ℕ → Task
  start_task : ℕ → ℕ → Task
  send_task : ℕ → ℕ → Bytes → Task
  close_task : ℕ → Task

-- The service of the context `self`, with the parts of the program that it works on.
pub record Service : Type 0 where
  pub self : Ptr
  pub socket_nodes : List (ℕ × SocketNode)
  pub timeout_nodes : List (ℕ × Closure)
  pub response_cbs : List (ℕ × Closure)
  pub world : World
  pub timer : Timer
  pub server : Server
  pub posted : List Task

abbrev pub own_handle : Service → ℕ
own_handle s = handle_of s.world s.self

abbrev pub post : Service → Task → Service
post s t = record s { posted = s.posted ++ t ∷ [] }

abbrev pub put_node : Service → ℕ → SocketNode → Service
put_node s id n = record s { socket_nodes = insert id n s.socket_nodes }

-- `x < 0` of an `int`.
abbrev pub is_negative : ℕ → Bool
is_negative x = leb (2 ^ 31) x

-- `init`, which every service's own `init` calls.
unfoldable pub init : Service → Service
unfolding put
init s = record s { world = put s.world s.self (record (s.world.contexts s.self) { cb = true }) }

-- `timeout`
unfoldable pub timeout : Service → ℕ → Closure → Option (Service × ℕ)
timeout s ms cb =
    let (c, id) = newsession (s.world.contexts s.self) in
    elim (TimerEvents.timeout (put s.world s.self c) s.timer c.handle ms id) [
      | none ↦ none
      | some (w, t, ret) ↦
          let s' = record s { world = w; timer = t } in
          some (
            if ret == id
            then (record s' { timeout_nodes = insert id cb s.timeout_nodes }, id)
            else (s', minus_one))
    ]

-- `listen`, which passes none of its arguments on: it listens at 0.0.0.0, port 8888. `failure` is the
-- exception's text, if `socket_listen` throws.
unfoldable pub listen : Service → Option Bytes → Closure → Option (Service × ℕ)
listen s failure cb = elim (socket_listen s.world s.server (own_handle s) failure) [
  | none ↦ none
  | some (w, server, id) ↦
      let s' = record s { world = w; server = server } in
      some (
        if is_negative id
        then (s', id)
        else (put_node (post s' (listen_task id)) id (record fresh_node { cb = some cb }), id))
]

-- `connect`
unfoldable pub connect : Service → Closure → Option (Service × ℕ)
connect s cb = elim (socket_connect s.server (own_handle s)) [
  | none ↦ none
  | some (server, id) ↦
      let s' = post (record s { server = server }) (connect_task id) in
      some (
        if is_negative id
        then (s', id)
        else (put_node s' id (record fresh_node { cb = some cb }), id))
]

-- `start_accept`
unfoldable pub start_accept : Service → ℕ → Closure → Service
start_accept s id cb = elim (find id s.socket_nodes) [
  | none ↦ s
  | some n ↦
      if n.connectd
      then post (put_node s id (record n { cb = some cb })) (start_task (own_handle s) id)
      else s
]

-- `start_tcp`
unfoldable pub start_tcp : Service → ℕ → Closure → Service
start_tcp s id cb = elim (find id s.socket_nodes) [
  | none ↦ s
  | some n ↦
      if n.connectd
      then post (put_node s id (record n { on_data = some cb })) (start_task (own_handle s) id)
      else s
]

-- `send_buffer`; `taken` is what `write_some` takes at once.
unfoldable pub send_buffer : Service → ℕ → Bytes → ℕ → Option (Service × ℕ)
send_buffer s id buf taken = elim (find id s.socket_nodes) [
  | none ↦ some (s, minus_one)
  | some n ↦ elim (socket_send s.server id taken) [
    | none ↦ none
    | some (r, none) ↦ some (s, r)
    | some (r, some offset) ↦ some (post s (send_task id offset buf), r)
  ]
]

-- `close_socket`
abbrev pub close_socket : Service → ℕ → Service
close_socket s id = post s (close_task id)

module _ (call : Closure → Service → Option Service)
    (call_text : Closure → Bytes → Service → Option Service) where
  -- `on_response`: a response's callback comes first, then a timeout's. The text of a response is read
  -- through a pointer that is null if the message has none.
  unfoldable pub on_response : Service → ℕ → Payload → Option Service
  on_response s session a = elim (find session s.response_cbs) [
    | some cb ↦
        let s' = record s { response_cbs = erase session s.response_cbs } in
        elim a [ string text ↦ call_text cb text s' | nothing ↦ none | socket_message m ↦ none ]
    | none ↦ elim (find session s.timeout_nodes) [
      | some cb ↦ call cb (record s { timeout_nodes = erase session s.timeout_nodes })
      | none ↦ some s
    ]
  ]

-- The bytes of a buffer; a null pointer stands for none.
unfoldable pub bytes_of : StringBuf → Bytes
unfolding ptr
bytes_of b = elim (ptr b) [ none ↦ [] | some text ↦ text ]

-- `rbuff.substr(sz)` after the callback took `sz` bytes, which throws past the end.
unfoldable pub consume : Service → ℕ → ℕ → Option Service
consume s id sz = elim (find id s.socket_nodes) [
  | none ↦ none
  | some n ↦
      if sz == 0
      then some s
      else if leb sz (length n.rbuff)
      then some (put_node s id (record n { rbuff = drop sz n.rbuff }))
      else none
]

module _ (call_id : Closure → ℕ → Service → Option Service)
    (call_data : Closure → ℕ → Bytes → Service → Option (Service × ℕ))
    (rehashes : List (ℕ × SocketNode) → ℕ → Bool) where
  -- A connection that is established, or a listening socket that is ready.
  unfoldable pub on_connect : Service → ℕ → SocketNode → Option Service
  on_connect s id n = if n.connectd then some s else elim n.cb [
    | none ↦ some (put_node s id (record n { connectd = true }))
    | some cb ↦ call_id cb id (put_node s id (record n { connectd = true; cb = none; id = id }))
  ]

  -- A connection accepted: its node is inserted before the listener's node is read again.
  unfoldable pub on_accept : Service → ℕ → ℕ → Option Service
  on_accept s id newid =
      let s' = put_node s newid (record fresh_node { id = newid; connectd = true }) in
      elim (rehashes s.socket_nodes newid) [
        | true ↦ none
        | false ↦ elim (find id s'.socket_nodes) [
          | none ↦ none
          | some n ↦ elim n.cb [ none ↦ some s' | some cb ↦ call_id cb newid s' ]
        ]
      ]

  -- Bytes received: `text` is what the buffer of the message holds.
  unfoldable pub on_bytes : Service → ℕ → SocketNode → Bytes → Option Service
  unfolding consume
  on_bytes s id n text =
      let n' = record n { rbuff = n.rbuff ++ text } in
      let s' = put_node s id n' in
      elim n.on_data [
        | none ↦ some s'
        | some cb ↦ elim (call_data cb n.id n'.rbuff s') [
          | none ↦ none
          | some (s'', sz) ↦ consume s'' id sz
        ]
      ]

  -- `on_socket`
  unfoldable pub on_socket : Service → SkynetSocketMessage → Option Service
  unfolding on_connect on_accept on_bytes bytes_of
  on_socket s m = elim (find m.id s.socket_nodes) [
    | none ↦ some (close_socket s m.id)
    | some n ↦ elim m.type [
      | Message.connect ↦ on_connect s m.id n
      | Message.close ↦ some (record s { socket_nodes = erase m.id s.socket_nodes })
      | Message.error ↦ some (close_socket s m.id)
      | Message.accept ↦ on_accept s m.id m.ud
      | Message.incoming ↦ on_bytes s m.id n (bytes_of m.buffer)
      | Message.udp ↦ some s
      | Message.warning ↦ some s
    ]
  ]

-- What a service does where the base class leaves it open.
pub record Behaviour : Type 0 where
  pub call : Closure → Service → Option Service
  pub call_text : Closure → Bytes → Service → Option Service
  pub call_id : Closure → ℕ → Service → Option Service
  pub call_data : Closure → ℕ → Bytes → Service → Option (Service × ℕ)
  pub rehashes : List (ℕ × SocketNode) → ℕ → Bool
  pub on_text : ℕ → ℕ → Bytes → Service → Option Service
  pub on_rpc_cpp : ℕ → ℕ → Bytes → Service → Option Service

-- `cb`, the callback of every context: the message goes to the method for its type. Its result is
-- always 0.
unfoldable pub cb : Behaviour → Service → Ptype → ℕ → ℕ → Payload → Option Service
unfolding on_response on_socket
cb b s Ptype.text session source (string text) = b.on_text session source text s
cb b s Ptype.text session source a = none
cb b s Ptype.response session source a = on_response b.call b.call_text s session a
cb b s Ptype.socket session source (socket_message m) =
    on_socket b.call_id b.call_data b.rehashes s m
cb b s Ptype.socket session source a = none
cb b s Ptype.reserved_cpp session source (string text) = b.on_rpc_cpp session source text s
cb b s Ptype.reserved_cpp session source a = some s
cb b s _ session source a = some s
