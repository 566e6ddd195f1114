-- ===== src/Service/Reading.antt =====
-- The bytes of a connection on their way from the read loop of the socket server, through the queue
-- of the service, to the callback for the connection's bytes.
use cpp_sk.Base.{
  ℕ, zero, suc, ◌+◌, ◌<◌, ◌≤◌, ◌≡◌, refl, sym, ap, subst, ◌∙◌, Option, none, some, List, [], ◌∷◌,
  ◌++◌, length, append-nil, arith,
}
use cpp_sk.Base.Maps.{find}
use cpp_sk.World.{World, put_queue}
use cpp_sk.World.Push.{put_queue_self}
use cpp_sk.World.Waiting.{Waiting}
use cpp_sk.Message.{Bytes, SkynetMessage, assgin, ptr, socket_message}
use cpp_sk.Message.Ptype.{socket}
use cpp_sk.MessageQueue.{MessageQueue, mq_pop}
use cpp_sk.MessageQueue.Contents.{IsValid, contents}
use cpp_sk.MessageQueue.Pop.{pop_Pops}
use cpp_sk.Service.{Closure, SocketNode, Service, Behaviour, cb, on_socket, on_bytes, bytes_of}
use cpp_sk.Service.Stream.{quiet, Sets, Sets-trans, taken, taken_step, fed, on_bytes_lem}
use cpp_sk.Socket.{SocketSlot, get_slot, connected}
use cpp_sk.SocketServer.Reads.{
  reads, data_message, data_messages, data_messages-append, length-data_messages, reads-Waiting,
  incoming_of,
}
use cpp_sk.SocketServer.Send.Order.{flatten}

abbrev pub queue_of : Service → MessageQueue
queue_of s = (s.world.contexts s.self).queue

-- As many messages as are asked for, or as wait, taken from the queue of the service and handed to
-- `cb` one after the other.
unfoldable pub handle : Behaviour → ℕ → Service → Option Service
unfolding put_queue cb
handle b zero s = some s
handle b (suc n) s =
    let (m, q) = mq_pop (queue_of s) in
    let s' : Service = record s { world = put_queue s.world s.self q } in
    elim m [
      | none ↦ some s'
      | some msg ↦ elim (cb b s' msg.t msg.session msg.source msg.content) [
        | none ↦ none
        | some s'' ↦ handle b n s''
      ]
    ]

bytes_of-buffer : (id : ℕ) (b : Bytes) → bytes_of (incoming_of id b).buffer ≡ b
unfolding bytes_of ptr assgin
bytes_of-buffer id [] = refl
bytes_of-buffer id (c ∷ b) = refl

-- A service whose callbacks for bytes take a number of those that they see.
abbrev pub reader : Behaviour → (Bytes → ℕ) → Behaviour
reader b take_count = record b { call_data = quiet take_count }

pub handle_step :
    (b : Behaviour) (n : ℕ) (s s' : Service) (m : SkynetMessage)
    → (mq_pop (queue_of s)).0 ≡ some m
    → cb b
        (record s { world = put_queue s.world s.self (mq_pop (queue_of s)).1 })
        m.t
        m.session
        m.source
        m.content
      ≡ some s'
    → handle b (suc n) s ≡ handle b n s'
unfolding handle
handle_step b n s s' m first run = rw (first, run, handle) refl

socket_incoming :
    (b : Behaviour) (s s' : Service) (id : ℕ) (node : SocketNode) (text : Bytes)
    → find id s.socket_nodes ≡ some node
    → on_bytes b.call_id b.call_data b.rehashes s id node text ≡ some s'
    → on_socket b.call_id b.call_data b.rehashes s (incoming_of id text) ≡ some s'
unfolding on_socket
socket_incoming b s s' id node text there run =
    rw (there, on_socket)
      (ap (λ t. on_bytes b.call_id b.call_data b.rehashes s id node t) (bytes_of-buffer id text)
        ∙ run)

cb_incoming :
    (b : Behaviour) (s s' : Service) (id : ℕ) (node : SocketNode) (text : Bytes)
    → find id s.socket_nodes ≡ some node
    → on_bytes b.call_id b.call_data b.rehashes s id node text ≡ some s'
    → cb b s socket 0 0 (socket_message (incoming_of id text)) ≡ some s'
unfolding cb
cb_incoming b s s' id node text there run = socket_incoming b s s' id node text there run

module _ (b : Behaviour) (take_count : Bytes → ℕ)
    (within : (bytes : Bytes) → take_count bytes ≤ length bytes) where
  -- One message of the connection.
  handle_one :
      (n : ℕ) (s : Service) (id : ℕ) (node : SocketNode) (c : Closure) (text : Bytes)
      (rest : List SkynetMessage)
      → IsValid (queue_of s)
      → contents (queue_of s) ≡ data_message id text ∷ rest
      → find id s.socket_nodes ≡ some node
      → node.on_data ≡ some c
      → (s' : Service) × (handle (reader b take_count) (suc n) s
          ≡ handle (reader b take_count) n s')
        × Sets s id (fed take_count b.rehashes b.call_id node text) s'
        × IsValid (queue_of s')
        × (contents (queue_of s') ≡ rest)
  handle_one n s id node c text rest v e there on =
      let p = pop_Pops (queue_of s) (data_message id text) rest v e in
      let q = (mq_pop (queue_of s)).1 in
      let s1 : Service = record s { world = put_queue s.world s.self q } in
      let (s', run, sets, same_world, same_self) =
        on_bytes_lem take_count b.rehashes b.call_id s1 id node c text within on in
      let left : queue_of s' ≡ q =
        ap (λ r. (s'.world.contexts r).queue) same_self
        ∙ ap (λ w. (w.contexts s.self).queue) same_world
        ∙ put_queue_self s.world s.self q in
      (
        s',
        handle_step (reader b take_count) n s s' (data_message id text) p.first
            (cb_incoming (reader b take_count) s1 s' id node text there run),
        record { there = sets.there; others = sets.others; posted = sets.posted },
        subst IsValid (sym left) p.valid,
        ap contents left ∙ p.left,
      )

  handle_lem :
      (s : Service) (id : ℕ) (node : SocketNode) (c : Closure) (bs : List Bytes)
      → IsValid (queue_of s)
      → contents (queue_of s) ≡ data_messages id bs
      → find id s.socket_nodes ≡ some node
      → node.on_data ≡ some c
      → (t : Service) × (rest : Bytes) × (handle (reader b take_count) (length bs) s ≡ some t)
        × (contents (queue_of t) ≡ [])
        × Sets s id (record node { rbuff = rest }) t
        × (taken take_count node.rbuff bs ++ rest ≡ node.rbuff ++ flatten bs)
  unfolding handle taken
  handle_lem s id node c [] v e there on = (
    s,
    node.rbuff,
    refl,
    e,
    record { there = there; others = λ k h. refl; posted = refl },
    sym (append-nil node.rbuff),
  )
  handle_lem s id node c (text ∷ bs) v e there on =
      let (s', step, sets, v', e') =
        handle_one (length bs) s id node c text (data_messages id bs) v e there on in
      let (t, rest, run, empty, sets', all) =
        handle_lem s' id (fed take_count b.rehashes b.call_id node text) c bs v' e' sets.there on in
      (
        t,
        rest,
        step ∙ run,
        empty,
        Sets-trans sets sets',
        taken_step take_count node.rbuff text rest (flatten bs) bs all,
      )

  -- The texts `bs` that the read loop reads on a connected socket, while the messages with the texts
  -- `held` of the connection wait in the queue of the service that owns the socket, which has room
  -- for all of them: the loop puts each into the queue, and as many messages as there are texts
  -- then run the queue empty. Where the callback for the connection's bytes takes at most what it
  -- sees and does nothing else, what it took, followed by what waits in the node, is what waited
  -- before followed by all the texts, in order, and the rest of the node, the other nodes and what
  -- is posted stay.
  pub handle-reads :
      (s : Service) (id cells : ℕ) (slot : SocketSlot) (node : SocketNode) (c : Closure)
      (held bs : List Bytes)
      → get_slot s.server id ≡ some slot
      → slot.id ≡ id
      → slot.type ≡ connected
      → Waiting s.self slot.opaque cells (data_messages id held) s.world
      → length held + length bs < cells
      → find id s.socket_nodes ≡ some node
      → node.on_data ≡ some c
      → (w : World) × (t : Service) × (rest : Bytes) × (reads s.world s.server id bs ≡ some w)
        × (handle (reader b take_count) (length (held ++ bs)) (record s { world = w }) ≡ some t)
        × (contents (queue_of t) ≡ [])
        × Sets s id (record node { rbuff = rest }) t
        × (taken take_count node.rbuff (held ++ bs) ++ rest ≡ node.rbuff ++ flatten (held ++ bs))
  handle-reads s id cells slot node c held bs at own type box room there on =
      let (w, read, box') =
        reads-Waiting s.self cells (data_messages id held) s.world s.server id slot bs at own type
          box (omega (arith, length-data_messages id held)) in
      let (t, rest, run, empty, sets, all) =
        handle_lem (record s { world = w }) id node c (held ++ bs) box'.valid
          (box'.waiting ∙ sym (data_messages-append id held bs)) there on in
      (
        w,
        t,
        rest,
        read,
        run,
        empty,
        record { there = sets.there; others = sets.others; posted = sets.posted },
        all,
      )
