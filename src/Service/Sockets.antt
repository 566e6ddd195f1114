-- ===== src/Service/Sockets.antt =====
-- A connection's node from `connect` or `accept` to its close.
use cpp_sk.Base.{
  ℕ, ◌≡◌, refl, ◌∙◌, ◌≢◌, Bool, true, false, Option, some, none, List, ==_refl, arith,
}
use cpp_sk.Service.{
  Closure, SocketNode, fresh_node, Service, own_handle, post, start_task, connect_task, close_task,
  put_node, is_negative, connect, start_accept, start_tcp, on_accept, on_socket,
}
use cpp_sk.Service.Stream.{Sets, put_node-Sets}
use cpp_sk.Base.Maps.{find, erase, find-erase}
use cpp_sk.Message.{Bytes, SkynetSocketMessage, SkynetSocketType, empty_buf}
use cpp_sk.Socket.{Server}
use cpp_sk.Message
use cpp_sk.SocketServer.{socket_connect}

-- A node whose connection is not established is not started.
start_tcp_early :
    (s : Service) (id : ℕ) (n : SocketNode) (d : Closure)
    → find id s.socket_nodes ≡ some n
    → n.connectd ≡ false
    → start_tcp s id d ≡ s
unfolding start_tcp
start_tcp_early s id n d there shut = rw (there, shut, start_tcp) refl

start_tcp_ready :
    (s : Service) (id : ℕ) (n : SocketNode) (d : Closure)
    → find id s.socket_nodes ≡ some n
    → n.connectd ≡ true
    → start_tcp s id d
      ≡ post (put_node s id (record n { on_data = some d })) (start_task (own_handle s) id)
unfolding start_tcp
start_tcp_ready s id n d there set = rw (there, set, start_tcp) refl

start_accept_early :
    (s : Service) (id : ℕ) (n : SocketNode) (d : Closure)
    → find id s.socket_nodes ≡ some n
    → n.connectd ≡ false
    → start_accept s id d ≡ s
unfolding start_accept
start_accept_early s id n d there shut = rw (there, shut, start_accept) refl

-- The service after `connect`.
abbrev pub connecting : Service → Server → ℕ → Closure → Service
connecting s server id c =
    put_node (post (record s { server = server }) (connect_task id)) id
      (record fresh_node { cb = some c })

connect_lem :
    (s : Service) (c : Closure) (server : Server) (id : ℕ)
    → socket_connect s.server (own_handle s) ≡ some (server, id)
    → is_negative id ≡ false
    → connect s c ≡ some (connecting s server id c, id)
unfolding connect
connect_lem s c server id e pos = rw (e, pos, connect) refl

abbrev pub message : SkynetSocketType → ℕ → ℕ → SkynetSocketMessage
message type id ud = record { type = type; id = id; ud = ud; buffer = empty_buf }

abbrev pub ready_node : ℕ → SocketNode
ready_node id = record fresh_node { id = id; connectd = true }

module _ (call_id : Closure → ℕ → Service → Option Service)
    (call_data : Closure → ℕ → Bytes → Service → Option (Service × ℕ))
    (rehashes : List (ℕ × SocketNode) → ℕ → Bool) where
  abbrev pub receives : Service → SkynetSocketMessage → Option Service
  receives = on_socket call_id call_data rehashes

  close_life :
      (s : Service) (id ud : ℕ) (n : SocketNode) (type : SkynetSocketType) (d : Closure)
      → find id s.socket_nodes ≡ some n
      → (t : Service) × (receives s (message Message.close id ud) ≡ some t)
        × (find id t.socket_nodes ≡ none)
        × ((k : ℕ) → k ≢ id → find k t.socket_nodes ≡ find k s.socket_nodes)
        × (receives t (message type id ud) ≡ some (post t (close_task id)))
        × (start_tcp t id d ≡ t)
  unfolding on_socket start_tcp
  close_life s id ud n type d there =
      let t = record s { socket_nodes = erase id s.socket_nodes } in
      let gone : find id t.socket_nodes ≡ none =
        find-erase id id s.socket_nodes ∙ rw (==_refl id) refl in
      (
        t,
        rw (there, on_socket) refl,
        gone,
        λ k h. find-erase id k s.socket_nodes ∙ ground (arith, h),
        rw (gone, on_socket) refl,
        rw (gone, start_tcp) refl,
      )

  -- Where the socket server gives a connection its number, `connect` returns it, and `start_tcp` and
  -- `start_accept` do nothing until the message `connect` comes: it calls the callback once, a second
  -- one changes nothing, and in the state that the callback sees `start_tcp` posts the start for the
  -- socket server and sets the callback for its bytes. The message `close` removes the node, and from
  -- then on any message for that number only posts its close to the socket server.
  pub connect_life :
      (s : Service) (c d : Closure) (server : Server) (id ud : ℕ) (type : SkynetSocketType)
      → socket_connect s.server (own_handle s) ≡ some (server, id)
      → is_negative id ≡ false
      → (t u v : Service) × (connect s c ≡ some (t, id))
        × (start_tcp t id d ≡ t)
        × (start_accept t id d ≡ t)
        × (receives t (message Message.connect id ud) ≡ call_id c id u)
        × (receives u (message Message.connect id ud) ≡ some u)
        × (start_tcp u id d
            ≡ post
                (put_node u id (record (ready_node id) { on_data = some d }))
                (start_task (own_handle s) id))
        × (receives u (message Message.close id ud) ≡ some v)
        × (receives v (message type id ud) ≡ some (post v (close_task id)))
  unfolding on_socket
  connect_life s c d server id ud type e pos =
      let t = connecting s server id c in
      let n = record fresh_node { cb = some c } in
      let u = put_node t id (ready_node id) in
      let there : find id t.socket_nodes ≡ some n =
        (put_node-Sets (post (record s { server = server }) (connect_task id)) id n).there in
      let ready : find id u.socket_nodes ≡ some (ready_node id) =
        (put_node-Sets t id (ready_node id)).there in
      let (v, closed, gone, others, shut, still) =
        close_life u id ud (ready_node id) type d ready in
      (
        t,
        u,
        v,
        connect_lem s c server id e pos,
        start_tcp_early t id n d there refl,
        start_accept_early t id n d there refl,
        rw (there, on_socket) refl,
        rw (ready, on_socket) refl,
        start_tcp_ready u id (ready_node id) d ready refl,
        closed,
        shut,
      )

  -- Where the insertion leaves the iterators alone and the number is not the listener's own, the
  -- message `accept` calls the listener's callback with the number of the new connection, in a state
  -- that has its node, ready to start, and the other nodes as before.
  pub accept_life :
      (s : Service) (id newid : ℕ) (l : SocketNode) (c d : Closure)
      → find id s.socket_nodes ≡ some l
      → l.cb ≡ some c
      → id ≢ newid
      → rehashes s.socket_nodes newid ≡ false
      → (u : Service) × (receives s (message Message.accept id newid) ≡ call_id c newid u)
        × Sets s newid (ready_node newid) u
        × (start_tcp u newid d
            ≡ post
                (put_node u newid (record (ready_node newid) { on_data = some d }))
                (start_task (own_handle s) newid))
  unfolding on_socket on_accept
  accept_life s id newid l c d there has other still =
      let u = put_node s newid (ready_node newid) in
      let sets = put_node-Sets s newid (ready_node newid) in
      let kept : find id u.socket_nodes ≡ some l = sets.others id other ∙ there in
      (
        u,
        rw (there, on_socket) (rw (still, kept, has, on_accept) refl),
        sets,
        start_tcp_ready u newid (ready_node newid) d sets.there refl,
      )
