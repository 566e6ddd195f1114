-- ===== src/SocketServer/Connection/Kept.antt =====
-- Every move of a connection that is not a failed write keeps it in a stage, and the global list in
-- order.
use cpp_sk.Base.{
  ℕ, ◌≡◌, sym, subst, ◌∙◌, ◌≢◌, Bool, true, false, ◌||◌, some, none, List, [], ◌∷◌, ◌++◌, arith,
}
use cpp_sk.World.{World}
use cpp_sk.Message.{Bytes, minus_one}
use cpp_sk.Message.SkynetSocketType.{close as close_type}
use cpp_sk.Socket.{SocketSlot, Server, get_slot, put_slot}
use cpp_sk.SocketServer.{plain}
use cpp_sk.SocketServer.Send.{send_begin, send_end}
use cpp_sk.SocketServer.Close.{close_socket}
use cpp_sk.SocketServer.Connection.{
  Posted, writes, closes, Connection, InOrder, Move, begin, written, fail, finish, close_run,
}
use cpp_sk.SocketServer.Connection.Shape.{
  Open, Closing, Quiet, Stage, opened, closing, gone, same_slot,
}
use cpp_sk.SocketServer.Connection.Closes.{
  closed, forward_message-InOrder, close_open, close_marked, close_foreign,
}
use cpp_sk.SocketServer.Connection.Keep.{
  begin-Stage, written-Stage, finish-Stage, close-Stage, written-closing, finish-closing,
}

-- Where a send coroutine is at work, the connection is not gone.
on_off : {A : Type 0} {b : Bool} → b ≡ true → b ≡ false → A
on_off p q = absurd (ground (arith, p, q))

-- The end of a coroutine sends no message.
send_end_world :
    (w w' : World) (slot slot' : SocketSlot) → send_end w slot none ≡ some (w', slot') → w ≡ w'
unfolding send_end
send_end_world w w' slot slot' h = ground (arith, h)

module _ (careful : Bool) (id : ℕ) (real : id ≢ minus_one) where
  begin-kept :
      (c : Connection) (offset : ℕ) (buf : Bytes) (ps : List Posted) (slot : SocketSlot)
      → Stage careful id c
      → c.posted ≡ writes offset buf ∷ ps
      → get_slot c.server id ≡ some slot
      → Stage careful id (record c {
        posted = ps;
        server = put_slot c.server id (send_begin slot id offset buf).0;
        writing = c.writing || (send_begin slot id offset buf).1;
      })
  begin-kept c offset buf ps slot (opened x at o) e at' =
      begin-Stage careful id c slot at' (subst (Open careful id c) (same_slot c.server id at at') o)
        offset buf ps e
  begin-kept c offset buf ps slot (closing x at o) e at' = absurd (subst Quiet e o.quiet)
  begin-kept c offset buf ps slot (gone x at o) e at' = absurd (subst Quiet e o.quiet)

  written-kept :
      (c : Connection) (slot : SocketSlot) (b : Bytes) (bs : List Bytes)
      → Stage careful id c
      → c.writing ≡ true
      → get_slot c.server id ≡ some slot
      → slot.wlist ≡ b ∷ bs
      → Stage careful id (record c {
        server = put_slot c.server id (record slot { wlist = bs });
        wire = c.wire ++ b;
      })
  written-kept c slot b bs (opened x at o) on at' e =
      written-Stage careful id c slot at'
        (subst (Open careful id c) (same_slot c.server id at at') o) b bs on e
  written-kept c slot b bs (closing x at o) on at' e =
      written-closing careful id c slot at'
        (subst (Closing careful id c) (same_slot c.server id at at') o) b bs e
  written-kept c slot b bs (gone x at o) on at' e = on_off on o.idle

  finish-kept :
      (c : Connection) (slot slot' : SocketSlot) (w : World)
      → Stage careful id c
      → c.writing ≡ true
      → get_slot c.server id ≡ some slot
      → slot.wlist ≡ []
      → send_end c.world slot none ≡ some (w, slot')
      → Stage careful id
          (record c { world = w; server = put_slot c.server id slot'; writing = false })
  finish-kept c slot slot' w (opened x at o) on at' e h =
      finish-Stage careful id c slot at'
        (subst (Open careful id c) (same_slot c.server id at at') o) slot' w e h
  finish-kept c slot slot' w (closing x at o) on at' e h =
      finish-closing careful id c slot at'
        (subst (Closing careful id c) (same_slot c.server id at at') o) slot' w real e h
  finish-kept c slot slot' w (gone x at o) on at' e h = on_off on o.idle

  close-kept :
      (c : Connection) (ps : List Posted) (w : World) (s : Server)
      → Stage careful id c
      → InOrder c.world
      → c.posted ≡ closes ∷ ps
      → close_socket c.world c.server id ≡ some (w, s)
      → Stage careful id (record c { posted = ps; world = w; server = s }) × InOrder w
  close-kept c ps w s (opened slot at o) ord e h =
      let (w', sent, ord') =
        forward_message-InOrder c.world close_type (plain slot.id slot.opaque) ord in
      let run =
        close_open c.world w' c.server id slot at o.own o.stream o.type o.unmarked
          (λ f. o.settled (sym o.held ∙ f)) sent in
      let world : w' ≡ w = ground (arith, h, run) in
      let server : put_slot c.server id (closed slot) ≡ s = ground (arith, h, run) in
      (
        subst (λ x. Stage careful id (record c { posted = ps; world = w; server = x })) server
            (close-Stage careful id c slot at o w ps real e),
        subst InOrder world ord',
      )
  close-kept c ps w s (closing slot at o) ord e h =
      let run = close_marked c.world c.server id slot at o.marked in
      let world : c.world ≡ w = ground (arith, h, run) in
      let server : c.server ≡ s = ground (arith, h, run) in
      (
        subst (λ x. Stage careful id (record c { posted = ps; world = w; server = x })) server
            (closing slot at (record {
              own = o.own;
              stream = o.stream;
              marked = o.marked;
              held = o.held;
              busy = o.busy;
              quiet = subst Quiet e o.quiet;
              bytes = o.bytes;
            })),
        subst InOrder world ord,
      )
  close-kept c ps w s (gone slot at o) ord e h =
      let run = close_foreign c.world c.server id slot at o.foreign in
      let world : c.world ≡ w = ground (arith, h, run) in
      let server : c.server ≡ s = ground (arith, h, run) in
      (
        subst (λ x. Stage careful id (record c { posted = ps; world = w; server = x })) server
            (gone slot at (record {
              foreign = o.foreign;
              idle = o.idle;
              quiet = subst Quiet e o.quiet;
              bytes = o.bytes;
            })),
        subst InOrder world ord,
      )

  pub step_kept :
      {c d : Connection}
      → Move id c d
      → d.failed ≡ false
      → Stage careful id c
      → InOrder c.world
      → Stage careful id d × InOrder d.world
  step_kept {c} (begin {offset} {buf} {ps} {slot} e at) f st ord =
      (begin-kept c offset buf ps slot st e at, ord)
  step_kept {c} (written {slot} {b} {bs} on at e) f st ord =
      (written-kept c slot b bs st on at e, ord)
  step_kept {c} (fail sent on at e le h) f st ord = absurd (cc (f))
  step_kept {c} (finish {slot} {slot'} {w} on at e h) f st ord = (
    finish-kept c slot slot' w st on at e h,
    subst InOrder (send_end_world c.world w slot slot' h) ord,
  )
  step_kept {c} (close_run {ps} {w} {s} e h) f st ord = close-kept c ps w s st ord e h
