-- ===== src/Service/Hangup.antt =====
-- A connection whose read fails: the `catch` of the read loop, the service that is told, the close it
-- asks for, and the message of the close (sk_socket.cpp, cpp_sk.h).
use cpp_sk.Base.{
  ℕ, ◌<◌, ◌≡◌, ◌≢◌, refl, ap, ◌∙◌, false, none, some, [], ◌∷◌, ◌++◌, arith, ==_refl, ◌==◌,
  if◌then◌else◌,
}
use cpp_sk.Base.Maps.{find, erase, find-erase}
use cpp_sk.World.{World, put_queue}
use cpp_sk.World.Waiting.{Waiting, pop-Waiting}
use cpp_sk.Message.{Bytes, assgin, SkynetSocketMessage, socket_message}
use cpp_sk.Message.Ptype.{socket}
use cpp_sk.Message.SkynetSocketType.{close as close_type, error as error_type}
use cpp_sk.MessageQueue.{mq_pop}
use cpp_sk.MessageQueue.Contents.{contents}
use cpp_sk.Service.{SocketNode, Service, Behaviour, cb, post, close_task, on_socket}
use cpp_sk.Service.Reading.{queue_of, handle, handle_step}
use cpp_sk.Socket.{SocketSlot, get_slot, put_slot, connected, tcp, give_back}
use cpp_sk.SocketServer.{worded, plain}
use cpp_sk.SocketServer.Accept.{read_failed}
use cpp_sk.SocketServer.Close.{close_socket}
use cpp_sk.SocketServer.Connection.Closes.{close_open, half_closed}
use cpp_sk.SocketServer.Reads.{message_of, forward_message-Waiting}

-- A service from whose queue the oldest message is taken.
abbrev popped : Service → Service
popped s = record s { world = put_queue s.world s.self (mq_pop (queue_of s)).1 }

module _ (b : Behaviour) where
  -- The only message in the queue is one of the socket server.
  handle_socket :
      (s s' : Service) (m : SkynetSocketMessage)
      → (mq_pop (queue_of s)).0
        ≡ some (record { source = 0; session = 0; content = socket_message m; t = socket })
      → on_socket b.call_id b.call_data b.rehashes (popped s) m ≡ some s'
      → handle b 1 s ≡ some s'
  unfolding handle cb
  handle_socket s s' m first run =
      handle_step b 0 s s'
        (record { source = 0; session = 0; content = socket_message m; t = socket }) first run

  told_error :
      (s : Service) (m : SkynetSocketMessage) (node : SocketNode)
      → find m.id s.socket_nodes ≡ some node
      → m.type ≡ error_type
      → on_socket b.call_id b.call_data b.rehashes s m ≡ some (post s (close_task m.id))
  unfolding on_socket
  told_error s m node there type = ground (arith, there, type)

  told_close :
      (s : Service) (m : SkynetSocketMessage) (node : SocketNode)
      → find m.id s.socket_nodes ≡ some node
      → m.type ≡ close_type
      → on_socket b.call_id b.call_data b.rehashes s m
        ≡ some (record s { socket_nodes = erase m.id s.socket_nodes })
  unfolding on_socket
  told_close s m node there type = ground (arith, there, type)

  -- A read fails on a connected TCP socket that is not marked to close and has nothing to write,
  -- while its owner has a node for it and an empty queue with room for a message: the owner gets the
  -- error and posts a close and nothing else. Where that runs next, the slot is given back, and the
  -- message of the close, which the owner then gets, takes the node away: the others stay, nothing
  -- more is posted, and the queue is empty again.
  pub close_socket-read_failed :
      (s : Service) (id cells : ℕ) (slot : SocketSlot) (node : SocketNode) (what : Bytes)
      → get_slot s.server id ≡ some slot
      → slot.id ≡ id
      → slot.sock ≡ tcp
      → slot.type ≡ connected
      → slot.close ≡ false
      → slot.wlist ≡ []
      → slot.locked ≡ false
      → Waiting s.self slot.opaque cells [] s.world
      → 1 < cells
      → find id s.socket_nodes ≡ some node
      → (w : World) × (t : Service) × (v : World) × (u : Service) × (read_failed s.world id
            slot.opaque what
          ≡ some w)
        × (handle b 1 (record s { world = w }) ≡ some t)
        × (t.posted ≡ s.posted ++ close_task id ∷ [])
        × (close_socket t.world t.server id ≡ some (v, put_slot s.server id (give_back slot)))
        × (handle b 1 (record t { world = v; server = put_slot s.server id (give_back slot) })
            ≡ some u)
        × (contents (queue_of u) ≡ [])
        × (find id u.socket_nodes ≡ none)
        × ((k : ℕ) → k ≢ id → find k u.socket_nodes ≡ find k s.socket_nodes)
        × (u.posted ≡ t.posted)
  unfolding read_failed assgin
  close_socket-read_failed s id cells slot node what at own stream type unmarked idle free box room
        there =
      let (w, told, marked, box1) =
        forward_message-Waiting s.self cells [] s.world error_type (worded id slot.opaque what) box
          (omega arith) in
      let s1 : Service = record s { world = w } in
      let m1 = message_of error_type (worded id slot.opaque what) in
      let (first, left) = pop-Waiting s.self slot.opaque cells m1 [] w box1 marked in
      let t : Service = post (popped s1) (close_task id) in
      let (v, sent, marked2, box2) =
        forward_message-Waiting s.self cells [] t.world close_type (plain slot.id slot.opaque) left
          (omega arith) in
      let server = put_slot s.server id (give_back slot) in
      let s2 : Service = record t { world = v; server = server } in
      let m2 = message_of close_type (plain slot.id slot.opaque) in
      let (first2, left2) = pop-Waiting s.self slot.opaque cells m2 [] v box2 marked2 in
      let u : Service = record (popped s2) { socket_nodes = erase slot.id s.socket_nodes } in
      let there2 : find slot.id s.socket_nodes ≡ some node =
        ap (λ k. find k s.socket_nodes) own ∙ there in
      (
        w,
        t,
        v,
        u,
        told,
        handle_socket s1 t _ first (told_error (popped s1) _ node there refl),
        refl,
        close_open t.world v s.server id slot at own stream type unmarked (λ f. idle) sent
            ∙ ap
                (λ x.
                  some (v, put_slot s.server id (if x then half_closed slot else give_back slot)))
                free,
        handle_socket s2 u _ first2 (told_close (popped s2) _ node there2 refl),
        left2.waiting,
        find-erase slot.id id s.socket_nodes
            ∙ ap (λ k. if k == id then none else find id s.socket_nodes) own
            ∙ rw (==_refl id) refl,
        λ k n.
            find-erase slot.id k s.socket_nodes
            ∙ ap (λ j. if j == k then none else find k s.socket_nodes) own
            ∙ ground (arith, n),
        refl,
      )
