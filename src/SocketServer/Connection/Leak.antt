-- ===== src/SocketServer/Connection/Leak.antt =====
-- A write of a connection that fails, in which the loop of `socket_send` (sk_socket.cpp) ends with bytes
-- in `wlist`, and a close that comes next.
use cpp_sk.Base.{
  ℕ, ◌≡◌, refl, sym, ap, subst, ◌∙◌, Bool, true, false, some, none, List, ◌∷◌, ◌++◌, take, arith,
}
use cpp_sk.World.{World}
use cpp_sk.Message.{Bytes, minus_one}
use cpp_sk.Socket.{SocketSlot, Server, get_slot, put_slot, check_can_write, connected, tcp, code}
use cpp_sk.Socket.Slots.{get_slot-put_slot}
use cpp_sk.SocketServer.{forward_message, plain}
use cpp_sk.SocketServer.Send.{socket_send, send_begin, send_end}
use cpp_sk.SocketServer.Close.{close_socket, close_stream}
use cpp_sk.SocketServer.Connection.{
  Posted, closes, Connection, InOrder, Undisturbed, begin, written, fail, finish, close_run, Move,
  Step, move, send, close, other, steal, reused, Reach, here, next, Established,
}
use cpp_sk.SocketServer.Connection.Shape.{Open, Closing, Stage, opened, closing, gone, same_slot}
use cpp_sk.SocketServer.Connection.Closes.{close_marked, half_closed, forward_message-InOrder}
use cpp_sk.SocketServer.Connection.Keep.{end_open}
use cpp_sk.SocketServer.Connection.Safety.{reach-Stage}
use cpp_sk.Message.SkynetSocketType.{close as close_type}

-- The slot is its own, marked to close and with the bytes `queue`, and no coroutine writes.
record Lost (id : ℕ) (wire : Bytes) (queue : List Bytes) (c : Connection) : Type 0 where
  pub slot : SocketSlot
  pub at : get_slot c.server id ≡ some slot
  pub own : slot.id ≡ id
  pub marked : slot.close ≡ true
  pub keeps : slot.wlist ≡ queue
  pub idle : c.writing ≡ false
  pub sent : c.wire ≡ wire

-- A coroutine that comes too late ends at once.
begin_marked :
    (slot : SocketSlot) (id offset : ℕ) (buf : Bytes)
    → slot.close ≡ true
    → send_begin slot id offset buf ≡ (slot, false)
unfolding send_begin check_can_write
begin_marked slot id offset buf marked = ground (arith, marked)

send_marked :
    (s : Server) (id taken : ℕ) (slot : SocketSlot)
    → get_slot s id ≡ some slot
    → slot.close ≡ true
    → socket_send s id taken ≡ some (minus_one, none)
unfolding socket_send check_can_write
send_marked s id taken slot at marked = ground (arith, at, marked)

module _ (careful : Bool) (id : ℕ) (wire : Bytes) (queue : List Bytes) where
  move-Lost : {c d : Connection} → Move id c d → Lost id wire queue c → Lost id wire queue d
  move-Lost (begin {c} {offset} {buf} {ps} {slot} e at) l =
      let same = same_slot c.server id l.at at in
      let marked : slot.close ≡ true = ap SocketSlot.close (sym same) ∙ l.marked in
      rw (begin_marked slot id offset buf marked, l.idle)
        (record {
          slot = slot;
          at = get_slot-put_slot c.server id slot slot at;
          own = ap SocketSlot.id (sym same) ∙ l.own;
          marked = marked;
          keeps = ap SocketSlot.wlist (sym same) ∙ l.keeps;
          idle = refl;
          sent = l.sent;
        })
  move-Lost (written on at e) l = cc (l.idle)
  move-Lost (fail sent on at e le h) l = cc (l.idle)
  move-Lost (finish on at e h) l = cc (l.idle)
  move-Lost (close_run {c} {ps} {w} {s} e h) l =
      let same : s ≡ c.server =
        ground (arith, h, close_marked c.world c.server id l.slot l.at l.marked) in
      rw same (record {
        slot = l.slot;
        at = l.at;
        own = l.own;
        marked = l.marked;
        keeps = l.keeps;
        idle = l.idle;
        sent = l.sent;
      })

  step-Lost :
      {c d : Connection}
      → Step careful id c d
      → d.stolen ≡ false
      → Lost id wire queue c
      → Lost id wire queue d
  step-Lost (move m) kept l = move-Lost m l
  step-Lost {c} (send taken buf le h order) kept l =
      absurd (cc (h, send_marked c.server id taken l.slot l.at l.marked))
  step-Lost close kept l = record {
    slot = l.slot;
    at = l.at;
    own = l.own;
    marked = l.marked;
    keeps = l.keeps;
    idle = l.idle;
    sent = l.sent;
  }
  step-Lost {c} (other {w} {s} {slot} h ord at at') kept l =
      let same = same_slot c.server id l.at at in
      record {
        slot = record slot { opaque = h };
        at = at';
        own = ap SocketSlot.id (sym same) ∙ l.own;
        marked = ap SocketSlot.close (sym same) ∙ l.marked;
        keeps = ap SocketSlot.wlist (sym same) ∙ l.keeps;
        idle = l.idle;
        sent = l.sent;
      }
  step-Lost (steal ord at) kept l = absurd (cc (kept))
  step-Lost {c} (reused {slot} ord at n at' n') kept l =
      absurd (n (ap SocketSlot.id (same_slot c.server id at l.at) ∙ l.own))

  still_kept : {c d : Connection} → Step careful id c d → d.stolen ≡ false → c.stolen ≡ false
  still_kept (move (begin e at)) kept = kept
  still_kept (move (written on at e)) kept = kept
  still_kept (move (fail sent on at e le h)) kept = kept
  still_kept (move (finish on at e h)) kept = kept
  still_kept (move (close_run e h)) kept = kept
  still_kept (send taken buf le h order) kept = kept
  still_kept close kept = kept
  still_kept (other h ord at at') kept = kept
  still_kept (steal ord at) kept = absurd (cc (kept))
  still_kept (reused ord at n at' n') kept = kept

  reach-Lost :
      {c d : Connection}
      → Reach careful id c d
      → d.stolen ≡ false
      → Lost id wire queue c
      → Lost id wire queue d
  reach-Lost here kept l = l
  reach-Lost (next r s) kept l = step-Lost s kept (reach-Lost r (still_kept s kept) l)

close_waiting :
    (w w' : World) (s : Server) (id : ℕ) (slot : SocketSlot) (b : Bytes) (bs : List Bytes)
    → get_slot s id ≡ some slot
    → slot.id ≡ id
    → slot.sock ≡ tcp
    → slot.type ≡ connected
    → slot.close ≡ false
    → slot.wlist ≡ b ∷ bs
    → forward_message w close_type (plain slot.id slot.opaque) ≡ some w'
    → close_socket w s id ≡ some (w', put_slot s id (half_closed slot))
unfolding close_socket close_stream code
close_waiting w w' s id slot b bs at own stream type unmarked waits sent =
    ground (arith, at, own, stream, type, unmarked, waits, sent)

-- A slot with bytes that nobody writes, when the task of a close is the next one.
module _ (id : ℕ) (slot : SocketSlot) (b : Bytes) (bs : List Bytes) (own : slot.id ≡ id)
    (stream : slot.sock ≡ tcp) (type : slot.type ≡ connected) (unmarked : slot.close ≡ false)
    (waits : slot.wlist ≡ b ∷ bs) where
  closed-Lost :
      {d e : Connection} {ps : List Posted}
      → get_slot d.server id ≡ some slot
      → InOrder d.world
      → d.writing ≡ false
      → d.posted ≡ closes ∷ ps
      → Move id d e
      → Lost id d.wire slot.wlist e
  closed-Lost at ord idle next_one (begin e at') = absurd (cc (e, next_one))
  closed-Lost at ord idle next_one (written on at' e) = cc (on, idle)
  closed-Lost at ord idle next_one (fail sent on at' e le h) = cc (on, idle)
  closed-Lost at ord idle next_one (finish on at' e h) = cc (on, idle)
  closed-Lost at ord idle next_one (close_run {c} {ps} {w} {s} e h) =
      let (w', told, _) =
        forward_message-InOrder c.world close_type (plain slot.id slot.opaque) ord in
      let same : s ≡ put_slot c.server id (half_closed slot) = ground (
        arith,
        h,
        close_waiting c.world w' c.server id slot b bs at own stream type unmarked waits told,
      ) in
      rw same (record {
        slot = half_closed slot;
        at = get_slot-put_slot c.server id slot (half_closed slot) at;
        own = own;
        marked = refl;
        keeps = refl;
        idle = idle;
        sent = refl;
      })

module _ (careful : Bool) (id : ℕ) where
  -- A write that fails on an open connection leaves its bytes in an unlocked slot.
  fail-Lost :
      {c e : Connection} {ps : List Posted} {slot slot' : SocketSlot} {b : Bytes} {bs : List Bytes}
      {w : World} (wire : Bytes)
      → Stage careful id c
      → InOrder c.world
      → get_slot c.server id ≡ some slot
      → slot.close ≡ false
      → c.writing ≡ true
      → slot.wlist ≡ b ∷ bs
      → send_end c.world slot none ≡ some (w, slot')
      → c.posted ≡ closes ∷ ps
      → Move id
          (record c {
            world = w;
            server = put_slot c.server id slot';
            writing = false;
            wire = wire;
            failed = true;
          })
          e
      → Lost id wire slot.wlist e
  fail-Lost {c} {slot} {slot'} {b} {bs} {w} wire (opened x seen o) ord at unmarked on waits ended
        next_one m =
      let p = subst (Open careful id c) (same_slot c.server id seen at) o in
      let free : SocketSlot = record slot { locked = false } in
      let end = end_open c.world slot p.unmarked p.type in
      let left : slot' ≡ free = ground (arith, ended, end) in
      let world : w ≡ c.world = ground (arith, ended, end) in
      let there : get_slot (put_slot c.server id slot') id ≡ some free =
        ap (λ t. get_slot (put_slot c.server id t) id) left
        ∙ get_slot-put_slot c.server id slot free at in
      closed-Lost id free b bs p.own p.stream p.type p.unmarked waits there
        (subst InOrder (sym world) ord) refl next_one m
  fail-Lost {c} wire (closing x seen o) ord at unmarked on waits ended next_one m =
      absurd
        (cc (unmarked, (subst (Closing careful id c) (same_slot c.server id seen at) o).marked))
  fail-Lost wire (gone x seen o) ord at unmarked on waits ended next_one m =
      absurd (cc (on, o.idle))

  failed-Lost :
      {c d e : Connection} {ps : List Posted} {slot : SocketSlot}
      → Stage careful id c
      → InOrder c.world
      → get_slot c.server id ≡ some slot
      → slot.close ≡ false
      → c.failed ≡ false
      → Move id c d
      → d.failed ≡ true
      → d.posted ≡ closes ∷ ps
      → Move id d e
      → Lost id d.wire slot.wlist e
  failed-Lost st ord at unmarked well (begin e at') fails next_one m = absurd (cc (well, fails))
  failed-Lost st ord at unmarked well (written on at' e) fails next_one m =
      absurd (cc (well, fails))
  failed-Lost {slot} st ord at unmarked well
        (fail {c} {slot = r} {slot' = r'} {b} {bs} {w} sent on at' e le h) fails next_one m =
      let same : r ≡ slot = same_slot c.server id at' at in
      fail-Lost (c.wire ++ take sent b) st ord at unmarked on (ap SocketSlot.wlist (sym same) ∙ e)
        (subst (λ t. send_end c.world t none ≡ some (w, r')) same h) next_one m
  failed-Lost st ord at unmarked well (finish on at' e h) fails next_one m =
      absurd (cc (well, fails))
  failed-Lost st ord at unmarked well (close_run e h) fails next_one m = absurd (cc (well, fails))

  -- If a write of a connection fails, the first thing that goes wrong and before any close, and the
  -- next task in `poll` is a close, then in every state that follows, until `new_fd` takes the slot,
  -- the slot is still the connection's, though nobody writes for it: the buffers that waited at the
  -- failure stay in it and asio takes no more of them, `socket_send` is refused and `close_socket`
  -- changes nothing, so that the slot is not given back.
  pub failed_write_leaks :
      {a c d e f : Connection} {ps : List Posted} {slot : SocketSlot}
      → Established id a
      → Reach careful id a c
      → Undisturbed c
      → get_slot c.server id ≡ some slot
      → slot.close ≡ false
      → Move id c d
      → d.failed ≡ true
      → d.posted ≡ closes ∷ ps
      → Move id d e
      → Reach careful id e f
      → f.stolen ≡ false
      → (slot' : SocketSlot) × (get_slot f.server id ≡ some slot')
        × (slot'.id ≡ id)
        × (slot'.wlist ≡ slot.wlist)
        × (f.writing ≡ false)
        × (f.wire ≡ d.wire)
        × ((taken : ℕ) → socket_send f.server id taken ≡ some (minus_one, none))
        × ((w : World) → close_socket w f.server id ≡ some (w, f.server))
  failed_write_leaks {d} {f} {slot} new r u at unmarked step fails next_one m r' kept =
      let (st, ord) = reach-Stage careful id new r u in
      let l : Lost id d.wire slot.wlist f =
        reach-Lost careful id d.wire slot.wlist r' kept
          (failed-Lost st ord at unmarked u.0 step fails next_one m) in
      (
        l.slot,
        l.at,
        l.own,
        l.keeps,
        l.idle,
        l.sent,
        λ taken. send_marked f.server id taken l.slot l.at l.marked,
        λ w. close_marked w f.server id l.slot l.at l.marked,
      )
