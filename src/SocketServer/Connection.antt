-- ===== src/SocketServer/Connection.antt =====
-- A TCP connection of the socket server as a step relation: services send and close while the thread
-- of `poll` runs what they post, in order, and writes. A task that is posted runs up to its next
-- `co_await` as one step, and so does `socket_send` up to its spawn. The read loop leaves the slot as it
-- is, so that its messages are steps of other threads. What goes wrong is a step too, and is noted: a
-- write that fails, a send behind a close, and the loss of the slot to `new_fd`.
pub mod Wire
pub mod Shape
pub mod Closes
pub mod Keep
pub mod Kept
pub mod Sends
pub mod Safety
pub mod Forward
pub mod Progress
pub mod Drain
pub mod Leak
pub mod Overtake
mod Tests
use cpp_sk.Base.{
  ℕ, ◌≤◌, ◌≡◌, ◌≢◌, ◌⊎◌, Bool, true, false, ◌||◌, Option, none, some, List, [], ◌∷◌, ◌++◌, length,
  take,
}
use mathlib.Core.List.{Perm}
use cpp_sk.World.{World}
use cpp_sk.World.Push.{Scheduled}
use cpp_sk.HandleStorage.{Ptr}
use cpp_sk.Message.{Bytes}
use cpp_sk.Socket.{SocketSlot, Server, get_slot, put_slot, connected, tcp}
use cpp_sk.Message.{minus_one}
use cpp_sk.SocketServer.Send.{socket_send, send_begin, send_end}
use cpp_sk.SocketServer.Send.Order.{flatten, rest_of}
use cpp_sk.SocketServer.Close.{close_socket}

-- What waits in `poll`: the coroutine of a send, with the bytes that were written at once, and the
-- task of `close_socket`.
pub data Posted : Type 0 where
  writes : ℕ → Bytes → Posted
  closes : Posted

-- `writing` says whether a coroutine waits for its write; `wire` is what asio has taken, and
-- `accepted` what the callers of `socket_send` have handed over. `failed` notes that a write has
-- failed, `late` that a service has sent behind a close, and `stolen` that `new_fd` has taken the slot.
pub record Connection : Type 0 where
  pub world : World
  pub server : Server
  pub posted : List Posted
  pub writing : Bool
  pub wire : Bytes
  pub accepted : Bytes
  pub failed : Bool
  pub late : Bool
  pub stolen : Bool

-- Nothing has gone wrong so far.
abbrev pub Undisturbed : Connection → Type 0
Undisturbed c = (c.failed ≡ false) × (c.late ≡ false) × (c.stolen ≡ false)

-- The bytes that the waiting coroutines bring.
unfoldable pub rests : List Posted → Bytes
rests [] = []
rests (writes offset buf ∷ ps) = rest_of offset buf ++ rests ps
rests (closes ∷ ps) = rests ps

unfoldable pub is_closing : List Posted → Bool
is_closing [] = false
is_closing (writes offset buf ∷ ps) = is_closing ps
is_closing (closes ∷ ps) = true

-- The global list is in order.
abbrev pub InOrder : World → Type 0
InOrder w = (gs : List Ptr) × Scheduled w gs

-- What the thread of `poll` does for the connection `id`.
pub data Move (id : ℕ) : Connection → Connection → Type 0 where
  begin :
      {c : Connection} {offset : ℕ} {buf : Bytes} {ps : List Posted} {slot : SocketSlot}
      → c.posted ≡ writes offset buf ∷ ps
      → get_slot c.server id ≡ some slot
      → Move id c (record c {
        posted = ps;
        server = put_slot c.server id (send_begin slot id offset buf).0;
        writing = c.writing || (send_begin slot id offset buf).1;
      })
  written :
      {c : Connection} {slot : SocketSlot} {b : Bytes} {bs : List Bytes}
      → c.writing ≡ true
      → get_slot c.server id ≡ some slot
      → slot.wlist ≡ b ∷ bs
      → Move id c (record c {
        server = put_slot c.server id (record slot { wlist = bs });
        wire = c.wire ++ b;
      })
  -- The `async_write` of the first buffer fails after `sent` of its bytes: the loop ends, the buffer
  -- stays, and what follows the loop runs.
  fail :
      {c : Connection} {slot slot' : SocketSlot} {b : Bytes} {bs : List Bytes} {w : World}
      (sent : ℕ)
      → c.writing ≡ true
      → get_slot c.server id ≡ some slot
      → slot.wlist ≡ b ∷ bs
      → sent ≤ length b
      → send_end c.world slot none ≡ some (w, slot')
      → Move id c (record c {
        world = w;
        server = put_slot c.server id slot';
        writing = false;
        wire = c.wire ++ take sent b;
        failed = true;
      })
  finish :
      {c : Connection} {slot slot' : SocketSlot} {w : World}
      → c.writing ≡ true
      → get_slot c.server id ≡ some slot
      → slot.wlist ≡ []
      → send_end c.world slot none ≡ some (w, slot')
      → Move id c (record c { world = w; server = put_slot c.server id slot'; writing = false })
  close_run :
      {c : Connection} {ps : List Posted} {w : World} {s : Server}
      → c.posted ≡ closes ∷ ps
      → close_socket c.world c.server id ≡ some (w, s)
      → Move id c (record c { posted = ps; world = w; server = s })

-- All steps. Where `careful`, a service writes at once only where no coroutine has bytes of its own.
pub data Step (careful : Bool) (id : ℕ) : Connection → Connection → Type 0 where
  move : {c d : Connection} → Move id c d → Step careful id c d
  send :
      {c : Connection} {offset : ℕ} (taken : ℕ) (buf : Bytes)
      → taken ≤ length buf
      → socket_send c.server id taken ≡ some (0, some offset)
      → (careful ≡ true → (offset ≡ 0) ⊎ (rests c.posted ≡ []))
      → Step careful id c (record c {
        posted = c.posted ++ writes offset buf ∷ [];
        wire = c.wire ++ take offset buf;
        accepted = c.accepted ++ buf;
        late = c.late || is_closing c.posted;
      })
  close : {c : Connection} → Step careful id c (record c { posted = c.posted ++ closes ∷ [] })
  -- Other sockets and other threads, which leave the slot to its socket. `socket_start` may give the
  -- connection another handle.
  other :
      {c : Connection} {w : World} {s : Server} {slot : SocketSlot} (h : ℕ)
      → InOrder w
      → get_slot c.server id ≡ some slot
      → get_slot s id ≡ some (record slot { opaque = h })
      → Step careful id c (record c { world = w; server = s })
  -- `new_fd` takes the slot from its socket: it may become anything.
  steal :
      {c : Connection} {w : World} {s : Server} {slot : SocketSlot}
      → InOrder w
      → get_slot s id ≡ some slot
      → Step careful id c (record c { world = w; server = s; stolen = true })
  -- The slot of a connection that is gone may belong to another one.
  reused :
      {c : Connection} {w : World} {s : Server} {slot slot' : SocketSlot}
      → InOrder w
      → get_slot c.server id ≡ some slot
      → slot.id ≢ id
      → get_slot s id ≡ some slot'
      → slot'.id ≢ id
      → Step careful id c (record c { world = w; server = s })

pub data Reach (careful : Bool) (id : ℕ) (c : Connection) : Connection → Type 0 where
  here : Reach careful id c c
  next : {d e : Connection} → Reach careful id c d → Step careful id d e → Reach careful id c e

-- A row of moves.
pub data Moves (id : ℕ) : Connection → Connection → Type 0 where
  stop : {c : Connection} → Moves id c c
  go : {c d e : Connection} → Move id c d → Moves id d e → Moves id c e

-- A connection that has just been established.
pub record Established (id : ℕ) (c : Connection) : Type 0 where
  pub slot : SocketSlot
  pub at : get_slot c.server id ≡ some slot
  pub own : slot.id ≡ id
  pub real : id ≢ minus_one
  pub stream : slot.sock ≡ tcp
  pub type : slot.type ≡ connected
  pub idle : slot.wlist ≡ []
  pub free : slot.locked ≡ false
  pub open_ : slot.close ≡ false
  pub none_posted : c.posted ≡ []
  pub none_writing : c.writing ≡ false
  pub none_sent : c.wire ≡ []
  pub none_accepted : c.accepted ≡ []
  pub undisturbed : Undisturbed c
  pub in_order : InOrder c.world

-- Equal, or equal but for the order.
abbrev pub Match : Bool → Bytes → Bytes → Type 0
Match true xs ys = xs ≡ ys
Match false xs ys = Perm xs ys
