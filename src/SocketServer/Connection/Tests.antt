-- ===== src/SocketServer/Connection/Tests.antt =====
-- The theorems on a connection at a small trace.
use cpp_sk.Base.{ℕ, none, ◌≡◌, refl, inr, true, false, some, [], ◌∷◌, arith}
use cpp_sk.World.{World, grab, context_push}
use cpp_sk.World.Tests.{two, two-Scheduled}
use cpp_sk.Socket.{
  SocketSlot, fresh_slot, Server, get_slot, put_slot, slot_index, check_can_write, code, connected,
  halfclose_read, tcp,
}
use cpp_sk.SocketServer.{forward_message}
use cpp_sk.SocketServer.Send.{socket_send, send_now, send_begin, send_end, enqueue}
use cpp_sk.SocketServer.Close.{close_socket, close_stream}
use cpp_sk.SocketServer.Connection.{
  writes, closes, Connection, rests, is_closing, Undisturbed, begin, fail, close_run, Move, move,
  send, close, Reach, here, next, Established,
}
use cpp_sk.SocketServer.Connection.Overtake.{sends_interleave}
use cpp_sk.SocketServer.Connection.Leak.{failed_write_leaks}
use cpp_sk.Message.{minus_one}
use cpp_sk.HandleStorage.{handle_grab}

abbrev stream : SocketSlot
stream = record fresh_slot { id = 1; opaque = 9; sock = tcp; type = connected }

abbrev server_of : SocketSlot → Server
server_of slot = record { slots = fresh_slot ∷ slot ∷ []; alloc = 2 }

abbrev start : Connection
start = record {
  world = two;
  server = server_of stream;
  posted = [];
  writing = false;
  wire = [];
  accepted = [];
  failed = false;
  late = false;
  stolen = false;
}

start-Established : Established 1 start
unfolding get_slot slot_index
start-Established = record {
  slot = stream;
  at = refl;
  own = refl;
  real = omega arith;
  stream = refl;
  type = refl;
  idle = refl;
  free = refl;
  open_ = refl;
  none_posted = refl;
  none_writing = refl;
  none_sent = refl;
  none_accepted = refl;
  undisturbed = (refl, refl, refl);
  in_order = (_, two-Scheduled);
}

-- Two sends; the second one is written before the rest of the first.
abbrev sent_twice : Connection
sent_twice = record start {
  posted = writes 2 (1 ∷ 2 ∷ 3 ∷ []) ∷ writes 1 (4 ∷ []) ∷ [];
  wire = 1 ∷ 2 ∷ 4 ∷ [];
  accepted = 1 ∷ 2 ∷ 3 ∷ 4 ∷ [];
}

-- A send and a close, which runs while the coroutine writes.
abbrev asked : Connection
asked = record start {
  posted = writes 1 (5 ∷ 6 ∷ []) ∷ closes ∷ [];
  wire = 5 ∷ [];
  accepted = 5 ∷ 6 ∷ [];
}

asks : Reach true 1 start asked
unfolding get_slot slot_index socket_send send_now check_can_write code is_closing rests
asks = next (next here (send 1 (5 ∷ 6 ∷ []) (omega arith) refl (λ f. inr refl))) close

abbrev closed_slot : SocketSlot
closed_slot = fresh_slot

abbrev ended : Connection
ended = record start { server = server_of closed_slot; wire = 5 ∷ 6 ∷ []; accepted = 5 ∷ 6 ∷ [] }

-- A send whose first write fails, then the close that was asked for meanwhile, and another close.
abbrev writes_on : Connection
writes_on = record start {
  server = server_of (record stream { wlist = (6 ∷ []) ∷ []; locked = true });
  posted = closes ∷ [];
  writing = true;
  wire = 5 ∷ [];
  accepted = 5 ∷ 6 ∷ [];
}

begins_writing : Reach true 1 start writes_on
unfolding get_slot slot_index put_slot send_begin enqueue check_can_write code
begins_writing = next asks (move (begin refl refl))

abbrev failed_write : Connection
failed_write = record writes_on {
  server = server_of (record stream { wlist = (6 ∷ []) ∷ [] });
  writing = false;
  failed = true;
}

fails_to_write : Move 1 writes_on failed_write
unfolding get_slot slot_index put_slot send_end code
fails_to_write = fail 0 refl refl refl (omega arith) refl

abbrev leaked : Connection
leaked = record failed_write {
  server = server_of (record stream { type = halfclose_read; wlist = (6 ∷ []) ∷ []; close = true });
  posted = [];
}

leaks : Move 1 failed_write leaked
unfolding get_slot slot_index put_slot close_socket close_stream code forward_message context_push
    grab handle_grab
leaks = close_run refl refl

abbrev asked_again : Connection
asked_again = record leaked { posted = closes ∷ [] }

failed_write_leaks_example :
    (slot' : SocketSlot) × (get_slot asked_again.server 1 ≡ some slot')
    × (slot'.id ≡ 1)
    × (slot'.wlist ≡ (6 ∷ []) ∷ [])
    × (asked_again.writing ≡ false)
    × (asked_again.wire ≡ 5 ∷ [])
    × ((taken : ℕ) → socket_send asked_again.server 1 taken ≡ some (minus_one, none))
    × ((w : World) → close_socket w asked_again.server 1 ≡ some (w, asked_again.server))
unfolding get_slot slot_index
failed_write_leaks_example =
    failed_write_leaks true 1 start-Established begins_writing (refl, refl, refl) refl refl
      fails_to_write refl refl leaks (next here close) refl

-- Of the first two bytes the direct write takes one.
sends_interleave_example :
    (d : Connection) × Reach false 1 start d
    × Undisturbed d
    × (d.posted ≡ [])
    × (d.writing ≡ false)
    × (d.accepted ≡ 1 ∷ 2 ∷ 8 ∷ 9 ∷ [])
    × (d.wire ≡ 1 ∷ 8 ∷ 9 ∷ 2 ∷ [])
sends_interleave_example =
    sends_interleave 1 (1 ∷ 2 ∷ []) (8 ∷ 9 ∷ []) 1 start-Established (omega arith) (omega arith)
      (omega arith)
