-- ===== src/SocketServer/Connection/Safety.antt =====
-- What holds in every state that a connection reaches.
use cpp_sk.Base.{◌||◌, arith, ℕ, ◌≡◌, refl, sym, ap, subst, ◌∙◌, ◌≢◌, Bool, false, some}
use cpp_sk.World.{World}
use cpp_sk.Message.{minus_one}
use cpp_sk.Socket.{SocketSlot, Server, get_slot}
use cpp_sk.SocketServer.Connection.{
  Connection, rests, InOrder, Undisturbed, is_closing, begin, written, fail, finish, close_run,
  Step, move, send, steal, close, other, reused, Reach, here, next, Established,
}
use cpp_sk.SocketServer.Connection.Shape.{
  Open, Closing, Gone, Tidy, Stage, opened, closing, gone, same_slot,
}
use cpp_sk.SocketServer.Connection.Wire.{Match-eq}
use cpp_sk.SocketServer.Connection.Kept.{step_kept}
use cpp_sk.SocketServer.Connection.Sends.{send-Stage, posted_close-Stage}

-- Nothing was late before what is not late now.
not_late : (b e : Bool) → (b || e) ≡ false → (b ≡ false) × (e ≡ false)
not_late b e h = ground (arith, h)

module _ (careful : Bool) (id : ℕ) where
  -- Another handle changes nothing that a stage speaks of.
  other-Stage :
      (c : Connection) (w : World) (s : Server) (slot : SocketSlot) (h : ℕ)
      → get_slot c.server id ≡ some slot
      → get_slot s id ≡ some (record slot { opaque = h })
      → Stage careful id c
      → Stage careful id (record c { world = w; server = s })
  other-Stage c w s slot h at at' (opened x seen o) =
      let p = subst (Open careful id c) (same_slot c.server id seen at) o in
      opened (record slot { opaque = h }) at'
        (record {
          own = p.own;
          stream = p.stream;
          type = p.type;
          unmarked = p.unmarked;
          held = p.held;
          settled = p.settled;
          tidy = p.tidy;
          bytes = p.bytes;
        })
  other-Stage c w s slot h at at' (closing x seen o) =
      let p = subst (Closing careful id c) (same_slot c.server id seen at) o in
      closing (record slot { opaque = h }) at'
        (record {
          own = p.own;
          stream = p.stream;
          marked = p.marked;
          held = p.held;
          busy = p.busy;
          quiet = p.quiet;
          bytes = p.bytes;
        })
  other-Stage c w s slot h at at' (gone x seen o) =
      let p = subst (Gone careful id c) (same_slot c.server id seen at) o in
      gone (record slot { opaque = h }) at'
        (record { foreign = p.foreign; idle = p.idle; quiet = p.quiet; bytes = p.bytes })

  reused-Stage :
      (c : Connection) (w : World) (s : Server) (slot slot' : SocketSlot)
      → get_slot c.server id ≡ some slot
      → slot.id ≢ id
      → get_slot s id ≡ some slot'
      → slot'.id ≢ id
      → Stage careful id c
      → Stage careful id (record c { world = w; server = s })
  reused-Stage c w s slot slot' at n at' n' (opened x seen o) =
      absurd (n (ap SocketSlot.id (same_slot c.server id at seen) ∙ o.own))
  reused-Stage c w s slot slot' at n at' n' (closing x seen o) =
      absurd (n (ap SocketSlot.id (same_slot c.server id at seen) ∙ o.own))
  reused-Stage c w s slot slot' at n at' n' (gone x seen o) =
      gone slot' at' (record { foreign = n'; idle = o.idle; quiet = o.quiet; bytes = o.bytes })

  -- What has gone well after a step had gone well before it.
  step-Undisturbed : {c d : Connection} → Step careful id c d → Undisturbed d → Undisturbed c
  step-Undisturbed (move (begin e at)) u = u
  step-Undisturbed (move (written on at e)) u = u
  step-Undisturbed (move (fail sent on at e le h)) u = absurd (cc (u.0))
  step-Undisturbed (move (finish on at e h)) u = u
  step-Undisturbed (move (close_run e h)) u = u
  step-Undisturbed {c} (send taken buf le h order) u =
      (u.0, (not_late c.late (is_closing c.posted) u.1).0, u.2)
  step-Undisturbed close u = u
  step-Undisturbed (other h ord at at') u = u
  step-Undisturbed (steal ord at) u = absurd (cc (u.2))
  step-Undisturbed (reused ord at n at' n') u = u

  pub step-Stage :
      {c d : Connection}
      → id ≢ minus_one
      → Step careful id c d
      → Undisturbed d
      → Stage careful id c × InOrder c.world
      → Stage careful id d × InOrder d.world
  step-Stage real (move m) u (st, ord) = step_kept careful id real m u.0 st ord
  step-Stage {c} real (send {offset} taken buf le h order) u (st, ord) = (
    send-Stage careful id c offset taken buf (not_late c.late (is_closing c.posted) u.1).1 le h
        order st,
    ord,
  )
  step-Stage {c} real close u (st, ord) = (posted_close-Stage careful id c st, ord)
  step-Stage {c} real (other {w} {s} {slot} h ord at at') u (st, _) =
      (other-Stage c w s slot h at at' st, ord)
  step-Stage {c} real (steal ord at) u (st, _) = absurd (cc (u.2))
  step-Stage {c} real (reused {w} {s} {slot} {slot'} ord at n at' n') u (st, _) =
      (reused-Stage c w s slot slot' at n at' n' st, ord)

  established-Stage : (c : Connection) → Established id c → Stage careful id c
  unfolding rests
  established-Stage c e = opened e.slot e.at (record {
    own = e.own;
    stream = e.stream;
    type = e.type;
    unmarked = e.open_;
    held = e.free ∙ sym e.none_writing;
    settled = λ f. e.idle;
    tidy = subst Tidy (sym e.none_posted) tt;
    bytes = rw (e.none_sent, e.idle, e.none_posted, e.none_accepted) (Match-eq careful _ _ refl);
  })

  pub reach-Stage :
      {c d : Connection}
      → Established id c
      → Reach careful id c d
      → Undisturbed d
      → Stage careful id d × InOrder d.world
  reach-Stage {c} e here u = (established-Stage c e, e.in_order)
  reach-Stage e (next r s) u = step-Stage e.real s u (reach-Stage e r (step-Undisturbed s u))
