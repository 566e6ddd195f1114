-- ===== src/Scheduler/Leave.antt =====
-- What a worker does between two queues.
use cpp_sk.Base.{ℕ, ◌≡◌, ◌≢◌, refl, sym, ap, subst, ◌∙◌, inl, inr, Option, none, some}
use cpp_sk.World.{World}
use cpp_sk.World.Push.{SameHandles}
use cpp_sk.Scheduler.{Hand, Hand-discrete, hold, working, putting, pick, change, give}
use cpp_sk.Scheduler.Hands.{hold_self, hold-ne}
use cpp_sk.Scheduler.Invariant.{Inv}
use cpp_sk.Scheduler.Steps.Take.{take_total}
use cpp_sk.Scheduler.Steps.Give.{give_total}
use cpp_sk.Scheduler.Fit.{Fit, SameHandles-Fit, at, Lands, stay, step-Lands, Lands-trans}
use cpp_sk.Dispatch.{take_queue, next_queue}
use cpp_sk.HandleStorage.{Ptr}
use cpp_sk.GlobalQueue.{GlobalQueue}

-- Two writes to one hand.
pub hold-hold :
    (held : Hand → Option Ptr) (a : Hand) (v u : Option Ptr)
    → hold (hold held a v) a u ≡ hold held a u
unfolding hold
hold-hold held a v u = λ i b. at_hand b i
  where
    at_hand : (b : Hand) → hold (hold held a v) a u b ≡ hold held a u b
    at_hand b = elim (Hand-discrete b a) [
      | yes e ↦
          ap (hold (hold held a v) a u) e
          ∙ hold_self (hold held a v) a u
          ∙ sym (ap (hold held a u) e ∙ hold_self held a u)
      | no n ↦ hold-ne (hold held a v) a u b n ∙ hold-ne held a v b n ∙ sym (hold-ne held a u b n)
    ]

-- A hand that gets what it holds.
hold_back :
    (held : Hand → Option Ptr) (a : Hand) (v : Option Ptr) → held a ≡ v → held ≡ hold held a v
hold_back held a v h = λ i b. at_hand b i
  where
    at_hand : (b : Hand) → held b ≡ hold held a v b
    at_hand b = elim (Hand-discrete b a) [
      | yes e ↦ ap held e ∙ h ∙ sym (ap (hold held a v) e ∙ hold_self held a v)
      | no n ↦ sym (hold-ne held a v b n)
    ]

-- The hands after a queue has changed and the old one is put back.
hold_change :
    (held : Hand → Option Ptr) (a c : Hand) (v u : Option Ptr)
    → a ≢ c
    → held c ≡ none
    → hold (hold (hold (hold held a none) c v) a u) c none ≡ hold held a u
hold_change held a c v u n h = λ i b. at_hand b i
  where
    inner : Hand → Option Ptr
    inner = hold (hold held a none) c v

    at_hand : (b : Hand) → hold (hold inner a u) c none b ≡ hold held a u b
    at_hand b = elim (Hand-discrete b c) [
      | yes e ↦
          ap (hold (hold inner a u) c none) e
          ∙ hold_self (hold inner a u) c none
          ∙ sym h
          ∙ sym (hold-ne held a u c (λ x. n (sym x)))
          ∙ ap (hold held a u) (sym e)
      | no k ↦ hold-ne (hold inner a u) c none b k ∙ elim (Hand-discrete b a) [
        | yes e ↦
            ap (hold inner a u) e
            ∙ hold_self inner a u
            ∙ sym (ap (hold held a u) e ∙ hold_self held a u)
        | no l ↦
            hold-ne inner a u b l
            ∙ hold-ne (hold held a none) c v b k
            ∙ hold-ne held a none b l
            ∙ sym (hold-ne held a u b l)
      ]
    ]

same_handles : (w : World) (g : GlobalQueue) → SameHandles w (record w { global = g })
same_handles w g = record {
  storage = refl;
  fresh = refl;
  handle = λ p. refl;
  queue_handle = λ p. refl;
}

module _ (i : ℕ) (w : World) (held : Hand → Option Ptr) (inv : Inv (at w held)) (fit : Fit w) where
  -- The pop of a worker without a queue.
  pub take_run :
      held (working i) ≡ none
      → (w' : World) × (nq : Option Ptr) × (take_queue w ≡ some (w', nq))
        × Lands w held w' (hold held (working i) nq)
  take_run h = elim (take_total (at w held) inv) [
    | inl (n, t) ↦ (w, none, t, step-Lands (pick i h t) inv fit)
    | inr (x, xs, g, n, p, t, l, c) ↦ (
      record w { global = g },
      some x,
      t,
      step-Lands (pick i h t) inv (SameHandles-Fit (same_handles w g) fit),
    )
  ]

  pub next_run :
      (q : Ptr)
      → held (working i) ≡ some q
      → held (putting i) ≡ none
      → (w' : World) × (nq : Option Ptr) × (next_queue w q ≡ some (w', nq))
        × Lands w held w' (hold held (working i) nq)
  unfolding next_queue
  next_run q h k = elim (take_total (at w held) inv) [
    | inl (n, t) ↦ (
      w,
      some q,
      rw (t, next_queue) refl,
      subst (Lands w held w) (hold_back held (working i) (some q) h) (stay inv fit),
    )
    | inr (x, xs, g, n, p, t, l, c) ↦
        let w1 = record w { global = g } in
        let held1 = hold (hold held (working i) none) (putting i) (some q) in
        let first = step-Lands (change i h k t) inv (SameHandles-Fit (same_handles w g) fit) in
        let there : hold held1 (working i) (some x) (putting i) ≡ some q =
          hold-ne held1 (working i) (some x) (putting i) (λ e. cc)
          ∙ hold_self (hold held (working i) none) (putting i) (some q) in
        let (g', pushed, _) =
          give_total (at w1 (hold held1 (working i) (some x))) first.inv (putting i) q there in
        let second =
          step-Lands (give (putting i) refl there pushed) first.inv
            (SameHandles-Fit (same_handles w1 g') first.fit) in
        (
          record w1 { global = g' },
          some x,
          rw (t, pushed, next_queue) refl,
          subst (Lands w held (record w1 { global = g' }))
              (hold_change held (working i) (putting i) (some q) (some x) (λ e. cc) k)
              (Lands-trans first second),
        )
  ]
