-- ===== src/SocketServer/Reads.antt =====
-- The read loop of `server::start` in sk_socket.cpp over the texts that asio reads, while the slot
-- stays as it is.
use cpp_sk.Base.{
  ℕ, ◌+◌, ◌<◌, ◌≡◌, refl, sym, subst, Option, none, some, List, [], ◌∷◌, ◌++◌, true, append-nil,
  append_assoc, length, length-append, arith,
}
use cpp_sk.World.{World}
use cpp_sk.World.Waiting.{Waiting, context_push-Waiting}
use cpp_sk.HandleStorage.{Ptr}
use cpp_sk.Message.{
  Bytes, StringBuf, empty_buf, assgin, SkynetMessage, SkynetSocketMessage, SkynetSocketType,
  socket_message, incoming,
}
use cpp_sk.Message.Ptype.{socket}
use cpp_sk.Socket.{SocketSlot, Server, get_slot, connected, code}
use cpp_sk.SocketServer.{SocketMessage, forward_message, worded}
use cpp_sk.SocketServer.Accept.{read_begin, read_done}

-- Each round checks the slot before it waits for bytes; a slot that fails the check ends the loop.
pub reads : World → Server → ℕ → List Bytes → Option World
unfolding read_begin read_done
reads w s id [] = some w
reads w s id (b ∷ bs) = elim (read_begin s id) [
  | none ↦ none
  | some none ↦ some w
  | some (some opaque) ↦ elim (read_done w id opaque b) [ none ↦ none | some w' ↦ reads w' s id bs ]
]

abbrev pub buffer_of : Bytes → StringBuf
unfolding assgin
buffer_of b = assgin empty_buf b

-- The message of the bytes `b`.
abbrev pub incoming_of : ℕ → Bytes → SkynetSocketMessage
incoming_of id b = record { type = incoming; id = id; ud = 0; buffer = buffer_of b }

abbrev pub data_message : ℕ → Bytes → SkynetMessage
data_message id b = record {
  source = 0;
  session = 0;
  content = socket_message (incoming_of id b);
  t = socket;
}

abbrev pub data_messages : ℕ → List Bytes → List SkynetMessage
data_messages id [] = []
data_messages id (b ∷ bs) = data_message id b ∷ data_messages id bs

pub data_messages-append :
    (id : ℕ) (xs ys : List Bytes)
    → data_messages id (xs ++ ys) ≡ data_messages id xs ++ data_messages id ys
data_messages-append id [] ys = refl
data_messages-append id (x ∷ xs) ys = cc (data_messages-append id xs ys)

pub length-data_messages : (id : ℕ) (xs : List Bytes) → length (data_messages id xs) ≡ length xs
length-data_messages id [] = refl
length-data_messages id (x ∷ xs) = omega (arith, length-data_messages id xs)

-- The message that `forward_message` makes.
abbrev pub message_of : SkynetSocketType → SocketMessage → SkynetMessage
message_of type result = record {
  source = 0;
  session = 0;
  content =
      socket_message
        (record { type = type; id = result.id; ud = result.ud; buffer = result.buffer });
  t = socket;
}

-- It reaches the queue of the owner, which is in the global list then.
pub forward_message-Waiting :
    (p : Ptr) (cells : ℕ) (ms : List SkynetMessage) (w : World) (type : SkynetSocketType)
    (result : SocketMessage)
    → Waiting p result.opaque cells ms w
    → length ms + 1 < cells
    → (w' : World) × (forward_message w type result ≡ some w')
      × ((w'.contexts p).queue.in_global ≡ true)
      × Waiting p result.opaque cells (ms ++ message_of type result ∷ []) w'
unfolding forward_message
forward_message-Waiting p cells ms w type result box room =
    let (w', done, d, box') =
      context_push-Waiting p result.opaque cells ms w (message_of type result) box room in
    (w', rw (done, forward_message) refl, d.marked, box')

read_done-Waiting :
    (p : Ptr) (h cells : ℕ) (ms : List SkynetMessage) (w : World) (id : ℕ) (b : Bytes)
    → Waiting p h cells ms w
    → length ms + 1 < cells
    → (w' : World) × (read_done w id h b ≡ some w')
      × Waiting p h cells (ms ++ data_message id b ∷ []) w'
unfolding read_done assgin
read_done-Waiting p h cells ms w id b box room =
    let (w', done, _, box') =
      forward_message-Waiting p cells ms w incoming (worded id h b) box room in
    (w', done, box')

-- The slot of a connection that the handle `h` owns passes the check of a round.
read_begin-connected :
    (s : Server) (id : ℕ) (slot : SocketSlot)
    → get_slot s id ≡ some slot
    → slot.id ≡ id
    → slot.type ≡ connected
    → read_begin s id ≡ some (some slot.opaque)
unfolding read_begin code
read_begin-connected s id slot at own type = ground (arith, at, own, type)

reads_step :
    (w w1 w2 : World) (s : Server) (id h : ℕ) (b : Bytes) (bs : List Bytes)
    → read_begin s id ≡ some (some h)
    → read_done w id h b ≡ some w1
    → reads w1 s id bs ≡ some w2
    → reads w s id (b ∷ bs) ≡ some w2
unfolding reads
reads_step w w1 w2 s id h b bs goes e e2 = ground (arith, goes, e, e2)

-- All the texts reach the queue of the owner, in order.
pub reads-Waiting :
    (p : Ptr) (cells : ℕ) (ms : List SkynetMessage) (w : World) (s : Server) (id : ℕ)
    (slot : SocketSlot) (bs : List Bytes)
    → get_slot s id ≡ some slot
    → slot.id ≡ id
    → slot.type ≡ connected
    → Waiting p slot.opaque cells ms w
    → length ms + length bs < cells
    → (w' : World) × (reads w s id bs ≡ some w')
      × Waiting p slot.opaque cells (ms ++ data_messages id bs) w'
unfolding reads
reads-Waiting p cells ms w s id slot [] at own type box room =
    (w, refl, subst (λ k. Waiting p slot.opaque cells k w) (sym (append-nil ms)) box)
reads-Waiting p cells ms w s id slot (b ∷ bs) at own type box room =
    let m = data_message id b in
    let (w1, e, box1) = read_done-Waiting p slot.opaque cells ms w id b box (omega arith) in
    let (w2, e2, box2) =
      reads-Waiting p cells (ms ++ m ∷ []) w1 s id slot bs at own type box1
        (omega (arith, length-append {0} ms (m ∷ []))) in
    (
      w2,
      reads_step w w1 w2 s id slot.opaque b bs (read_begin-connected s id slot at own type) e e2,
      subst (λ k. Waiting p slot.opaque cells k w2) (append_assoc ms (m ∷ []) (data_messages id bs))
          box2,
    )
