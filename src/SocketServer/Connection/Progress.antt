-- ===== src/SocketServer/Connection/Progress.antt =====
-- A move of `poll` that leaves less to do can be made until nothing is left.
use cpp_sk.Base.{
  ℕ, zero, suc, ◌≤◌, ◌≡◌, refl, subst, ◌∙◌, ◌≢◌, ◌⊎◌, inl, inr, Bool, true, false, not, List, [],
  ◌∷◌, arith, Bool-cases,
}
use cpp_sk.Message.{Bytes, minus_one}
use cpp_sk.Message.SkynetSocketType.{close as close_type}
use cpp_sk.Socket.{put_slot, give_back}
use cpp_sk.Socket.Slots.{get_slot-put_slot}
use cpp_sk.SocketServer.{plain}
use cpp_sk.SocketServer.Connection.{
  Posted, writes, closes, Connection, InOrder, Undisturbed, Moves, stop, go,
}
use cpp_sk.SocketServer.Connection.Shape.{Quiet, Stage, opened, closing, gone}
use cpp_sk.SocketServer.Connection.Closes.{
  closed, forward_message-InOrder, close_open, close_foreign,
}
use cpp_sk.SocketServer.Connection.Keep.{begin_open, end_open, end_closing}
use cpp_sk.SocketServer.Connection.Kept.{step_kept}
use cpp_sk.SocketServer.Connection.Forward.{
  Forward, work, is_ending, writing-Forward, begin-Forward, close-Forward,
}

module _ (careful : Bool) (id : ℕ) (real : id ≢ minus_one) where
  -- While a coroutine writes, it goes on.
  writing_progress : (c : Connection) → Stage careful id c → c.writing ≡ true → Forward id c
  unfolding give_back
  writing_progress c (opened slot at o) on =
      writing-Forward id c slot at (record slot { locked = false }) on
        (end_open c.world slot o.unmarked o.type) (omega arith) (λ f. f)
  writing_progress c (closing slot at o) on =
      writing-Forward id c slot at (give_back (record slot { locked = false })) on
        (end_closing c.world slot o.marked) (omega arith) (λ f. ground (arith, real))
  writing_progress c (gone slot at o) on = absurd (ground (arith, on, o.idle))

  -- Otherwise the first of what waits runs.
  begin_progress :
      (c : Connection) (offset : ℕ) (buf : Bytes) (ps : List Posted)
      → Stage careful id c
      → c.writing ≡ false
      → c.posted ≡ writes offset buf ∷ ps
      → Forward id c
  begin_progress c offset buf ps (opened slot at o) off e =
      begin-Forward id c slot at offset buf ps (not slot.locked) e off
        (begin_open slot id offset buf o.own o.unmarked o.type)
  begin_progress c offset buf ps (closing slot at o) off e = absurd (subst Quiet e o.quiet)
  begin_progress c offset buf ps (gone slot at o) off e = absurd (subst Quiet e o.quiet)

  close_progress :
      (c : Connection) (ps : List Posted)
      → Stage careful id c
      → InOrder c.world
      → c.writing ≡ false
      → c.posted ≡ closes ∷ ps
      → Forward id c
  unfolding give_back
  close_progress c ps (opened slot at o) ord off e =
      let (w, sent, _) =
        forward_message-InOrder c.world close_type (plain slot.id slot.opaque) ord in
      let locked : slot.locked ≡ false = o.held ∙ off in
      close-Forward id c slot at ps w (put_slot c.server id (closed slot)) (closed slot) e
        (close_open c.world w c.server id slot at o.own o.stream o.type o.unmarked
          (λ f. o.settled off) sent)
        (get_slot-put_slot c.server id slot (closed slot) at) (ground (arith, locked))
        (ground (arith, locked, real))
  close_progress c ps (closing slot at o) ord off e = absurd (ground (arith, off, o.busy))
  close_progress c ps (gone slot at o) ord off e =
      close-Forward id c slot at ps c.world c.server slot e
        (close_foreign c.world c.server id slot at o.foreign) at (omega arith)
        (ground (arith, o.foreign))

  posted_progress :
      (c : Connection) (ps : List Posted)
      → c.posted ≡ ps
      → Stage careful id c
      → InOrder c.world
      → c.writing ≡ false
      → (c.posted ≡ []) ⊎ Forward id c
  posted_progress c [] e st ord off = inl e
  posted_progress c (writes offset buf ∷ ps) e st ord off =
      inr (begin_progress c offset buf ps st off e)
  posted_progress c (closes ∷ ps) e st ord off = inr (close_progress c ps st ord off e)

  -- Nothing waits, or a move leaves less to do.
  progress :
      (c : Connection)
      → Stage careful id c
      → InOrder c.world
      → ((c.writing ≡ false) × (c.posted ≡ [])) ⊎ Forward id c
  progress c st ord = elim (Bool-cases c.writing) [
    | inl on ↦ inr (writing_progress c st on)
    | inr off ↦ elim (posted_progress c c.posted refl st ord off) [
      | inl e ↦ inl (off, e)
      | inr f ↦ inr f
    ]
  ]

  pub record Drained (c e : Connection) : Type 0 where
    pub row : Moves id c e
    pub off : e.writing ≡ false
    pub none_posted : e.posted ≡ []
    pub same : e.accepted ≡ c.accepted
    pub well : Undisturbed e
    pub stage : Stage careful id e
    pub ending : is_ending id c ≡ true → is_ending id e ≡ true

  drained :
      (c : Connection)
      → c.writing ≡ false
      → c.posted ≡ []
      → Undisturbed c
      → Stage careful id c
      → Drained c c
  drained c off none_posted u st = record {
    row = stop;
    off = off;
    none_posted = none_posted;
    same = refl;
    well = u;
    stage = st;
    ending = λ f. f;
  }

  pub drain :
      (n : ℕ) (c : Connection)
      → work id c ≤ n
      → Undisturbed c
      → Stage careful id c
      → InOrder c.world
      → (e : Connection) × Drained c e
  drain zero c le u st ord = elim (progress c st ord) [
    | inl (off, none_posted) ↦ (c, drained c off none_posted u st)
    | inr f ↦ absurd (omega (arith, f.less))
  ]
  drain (suc n) c le u st ord = elim (progress c st ord) [
    | inl (off, none_posted) ↦ (c, drained c off none_posted u st)
    | inr f ↦
        let (st', ord') = step_kept careful id real f.made (f.well u).0 st ord in
        let (e, d) = drain n f.after (omega (arith, f.less)) (f.well u) st' ord' in
        (
          e,
          record {
            row = go f.made d.row;
            off = d.off;
            none_posted = d.none_posted;
            same = d.same ∙ f.same;
            well = d.well;
            stage = d.stage;
            ending = λ yes_. d.ending (f.ending yes_);
          },
        )
  ]
