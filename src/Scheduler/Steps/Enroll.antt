-- ===== src/Scheduler/Steps/Enroll.antt =====
-- A new context.
use cpp_sk.Base.{
  ℕ, ◌+◌, ◌<◌, ◌≡◌, refl, sym, ap, subst, ◌∙◌, ◌≢◌, inl, inr, true, none, some, arith, Option-cases,
}
use cpp_sk.World.{World, put}
use cpp_sk.World.Push.{bool_clash}
use cpp_sk.Scheduler.{Hand, hold, System}
use cpp_sk.Scheduler.Hands.{hold_self, hold_cases, some_eq, hold_empty}
use cpp_sk.GlobalQueue.Chain.{Fresh, Holds}
use cpp_sk.Scheduler.Invariant.{Owned, Inv}
use cpp_sk.Scheduler.Steps.{update-Marked, hold-some-Owned}
use cpp_sk.HandleStorage.{Ptr, HandleStorage, handle_register, register_fuel}
use cpp_sk.MessageQueue.{MessageQueue}
use cpp_sk.MessageQueue
use cpp_sk.MessageQueue.Contents.{IsValid}
use cpp_sk.MessageQueue.Refine.{new-IsValid}
use cpp_sk.Launch.{new_context, enroll}

-- What the first half of `create` does to the world.
record Enrolls (w w' : World) (p : Ptr) : Type 0 where
  place : p ≡ w.fresh
  fresh : w'.fresh ≡ w.fresh + 1
  global : w'.global ≡ w.global
  others : (r : Ptr) → r ≢ p → (w'.contexts r).queue ≡ (w.contexts r).queue
  handle : ℕ
  queue : (w'.contexts p).queue ≡ MessageQueue.new handle

-- The world after it, for the storage and the handle of the registration.
abbrev enrolled : World → HandleStorage × ℕ → World
enrolled w (storage, handle) =
    put
      (record (put (record w { fresh = w.fresh + 1; total = w.total + 1 }) w.fresh new_context) {
        storage = storage;
      })
      w.fresh (record new_context { handle = handle; queue = MessageQueue.new handle })

enrolled-Enrolls : (w : World) (r : HandleStorage × ℕ) → Enrolls w (enrolled w r) w.fresh
unfolding put
enrolled-Enrolls w (storage, handle) = record {
  place = refl;
  fresh = refl;
  global = refl;
  others = λ r n. ground (arith, n);
  handle = handle;
  queue = ground arith;
}

enroll-Enrolls : (w w' : World) (p : Ptr) → enroll w ≡ some (w', p) → Enrolls w w' p
unfolding enroll put
enroll-Enrolls w w' p e = elim (Option-cases (handle_register register_fuel w.storage w.fresh)) [
  | inl k ↦ absurd (cc (fails k, e))
  | inr (r, k) ↦
      subst (λ x. Enrolls w x.0 x.1) (some_inj (sym (makes r k) ∙ e)) (enrolled-Enrolls w r)
]
  where
    some_inj : {x y : World × Ptr} → some x ≡ some y → x ≡ y
    some_inj e = cc

    fails : handle_register register_fuel w.storage w.fresh ≡ none → enroll w ≡ none
    fails k = rw (k, enroll) refl

    makes :
        (r : HandleStorage × ℕ)
        → handle_register register_fuel w.storage w.fresh ≡ some r
        → enroll w ≡ some (enrolled w r, w.fresh)
    makes r k = rw (k, enroll) refl

new_marked : (h : ℕ) → (MessageQueue.new h).in_global ≡ true
unfolding MessageQueue.new
new_marked h = refl

pub enroll-Inv :
    {s : System} {w : World} {p : Ptr} (a : Hand)
    → Inv s
    → s.held a ≡ none
    → enroll s.world ≡ some (w, p)
    → Inv (record { world = w; held = hold s.held a (some p) })
enroll-Inv {s} {w} {p} a i h e =
    let n = enroll-Enrolls s.world w p e in
    let o = i.owned in
    let grown : (r : Ptr) → r < s.world.fresh → r < w.fresh = λ r l. omega (arith, n.fresh) in
    let outside : Fresh p i.gs = o.unmade p (omega (arith, n.place)) in
    let free : (b : Hand) → s.held b ≢ some p = λ b k. omega (arith, o.made b p k, n.place) in
    let before : Owned w s.held i.gs = record {
      list = subst (λ x. Holds x i.gs) (sym n.global) o.list;
      out = λ r f. ap (λ x. x.next r) n.global ∙ o.out r f;
      unmade = λ r l. o.unmade r (omega (arith, n.fresh));
      made = λ b r k. grown r (o.made b r k);
      apart = o.apart;
      unique = o.unique;
    } in
    let marked : (w.contexts p).queue.in_global ≡ true =
      ap MessageQueue.in_global n.queue ∙ new_marked n.handle in
    record {
      gs = i.gs;
      owned =
          hold-some-Owned w s.held i.gs a p before (omega (arith, n.fresh, n.place))
            (outside, free);
      marked =
          update-Marked s.world w s.held (hold s.held a (some p)) i.gs i.gs p i.marked
            (λ r ne l. omega (arith, n.fresh, n.place, ne)) n.others
            (λ r ne x. (
              x.0,
              λ b k. elim (hold_cases s.held a (some p) b r k) [
                | inl (q, y) ↦ ne (some_eq (sym y))
                | inr (q, y) ↦ x.1 b y
              ],
            ))
            (λ r ne x. elim x [
              | inl l ↦ inl l
              | inr (b, k) ↦ inr (b, hold_empty s.held a b (some p) r h k)
            ])
            (subst IsValid (sym n.queue) (new-IsValid n.handle).0)
            (λ f. bool_clash (sym marked ∙ f)) (λ t. inr (a, hold_self s.held a (some p)));
    }
