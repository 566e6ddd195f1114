-- ===== src/Scheduler/Steps/Take.antt =====
-- A worker that pops the global list.
use cpp_sk.Base.{
  ℕ, ◌<◌, ◌≡◌, refl, sym, ap, subst, ◌∙◌, ◌≢◌, ◌⊎◌, inl, inr, Option, none, some, List, [], ◌∷◌,
  arith,
}
use native.Mathlib.Decide.{dec_lt, ℕ_discrete}
use cpp_sk.World.{World}
use cpp_sk.Dispatch.{take_queue}
use cpp_sk.Scheduler.{Hand, hold, System, working, putting}
use cpp_sk.Scheduler.Hands.{
  hold_self, hold-ne, hold_cases, some_eq, hold-none-some, hold-none-none, hold_empty,
}
use cpp_sk.GlobalQueue.Chain.{Holds}
use cpp_sk.Scheduler.Invariant.{Owned, Marked, Inv}
use cpp_sk.Scheduler.Steps.{
  move-Marked, hold-none-Owned, hold-some-Owned, hold-none-Somewhere, hold-none-free,
}
use cpp_sk.HandleStorage.{Ptr}
use cpp_sk.GlobalQueue.{GlobalQueue}
use cpp_sk.GlobalQueue
use cpp_sk.GlobalQueue.Laws.{pop_empty, pop-Holds, next-pop}

module _ {s : System} (i : Inv s) (a : Hand) (empty : s.held a ≡ none) where
  -- The list is empty.
  take_nothing :
      Holds s.world.global []
      → i.gs ≡ []
      → Inv (record { world = s.world; held = hold s.held a none })
  take_nothing h e = record {
    gs = i.gs;
    owned = hold-none-Owned s.world s.held i.gs a i.owned;
    marked =
        move-Marked s.world s.world s.held (hold s.held a none) i.gs i.gs i.marked refl (λ r. refl)
          (λ r x. (x.0, hold-none-none s.held a r x.1))
          (λ r x. elim x [
            | inl l ↦ inl l
            | inr (b, k) ↦ inr (b, hold_empty s.held a b none r empty k)
          ]);
  }

  -- The first queue of the list goes to the hand.
  take_first :
      (x : Ptr) (xs : List Ptr) (g : GlobalQueue)
      → Owned s.world s.held (x ∷ xs)
      → Marked s.world s.held (x ∷ xs)
      → GlobalQueue.pop s.world.global ≡ some (some x, g)
      → Holds g xs
      → g.next x ≡ none
      → Inv (record { world = record s.world { global = g }; held = hold s.held a (some x) })
  take_first x xs g o m e h c =
      let w = record s.world { global = g } in
      let made : x < s.world.fresh = elim (dec_lt x s.world.fresh) [
        | yes l ↦ l
        | no n ↦ absurd ((o.unmade x (omega arith)).0 refl)
      ] in
      let free : (b : Hand) → s.held b ≢ some x = λ b k. (o.apart b x k).0 refl in
      let rest : Owned w s.held xs = record {
        list = h;
        out = λ r f. elim (ℕ_discrete r x) [
          | yes q ↦ ap g.next q ∙ c
          | no n ↦ next-pop s.world.global g (some x) x xs r o.list e n ∙ o.out r (n, f)
        ];
        unmade = λ r l. (o.unmade r l).1;
        made = o.made;
        apart = λ b r k. (o.apart b r k).1;
        unique = o.unique;
      } in
      record {
        gs = xs;
        owned = hold-some-Owned w s.held xs a x rest made (o.list.distinct.0, free);
        marked =
            move-Marked s.world w s.held (hold s.held a (some x)) (x ∷ xs) xs m refl (λ r. refl)
              (λ r y. (
                y.0.1,
                λ b k. elim (hold_cases s.held a (some x) b r k) [
                  | inl (q, z) ↦ y.0.0 (some_eq (sym z))
                  | inr (q, z) ↦ y.1 b z
                ],
              ))
              (λ r y. elim y [
                | inl l ↦ elim (ℕ_discrete r x) [
                  | yes q ↦ inr (a, hold_self s.held a (some x) ∙ ap some (sym q))
                  | no n ↦ inl (λ f. l (n, f))
                ]
                | inr (b, k) ↦ inr (b, hold_empty s.held a b (some x) r empty k)
              ]);
      }

-- The pop of the list never fails, and gives a queue exactly when there is one.
pub take_total :
    (s : System) (i : Inv s)
    → ((i.gs ≡ []) × (take_queue s.world ≡ some (s.world, none)))
      ⊎ ((x : Ptr) × (xs : List Ptr) × (g : GlobalQueue) × (i.gs ≡ x ∷ xs)
          × (GlobalQueue.pop s.world.global ≡ some (some x, g))
          × (take_queue s.world ≡ some (record s.world { global = g }, some x))
          × Holds g xs
          × (g.next x ≡ none))
unfolding take_queue
take_total s i = elim (List-cases i.gs) [
  | inl e ↦
      let p = pop_empty s.world.global (subst (Holds s.world.global) e i.owned.list) in
      inl (e, rw (p, take_queue) refl)
  | inr (x, xs, e) ↦
      let (g, p, h, n) =
        pop-Holds s.world.global x xs (subst (Holds s.world.global) e i.owned.list) in
      inr (x, xs, g, e, p, rw (p, take_queue) refl, h, n)
]
  where
    List-cases : (xs : List Ptr) → (xs ≡ []) ⊎ ((y : Ptr) × (ys : List Ptr) × (xs ≡ y ∷ ys))
    List-cases [] = inl refl
    List-cases (y ∷ ys) = inr (y, ys, refl)

pub pick-Inv :
    {s : System} {w : World} {q : Option Ptr} (a : Hand)
    → Inv s
    → s.held a ≡ none
    → take_queue s.world ≡ some (w, q)
    → Inv (record { world = w; held = hold s.held a q })
pick-Inv {s} {w} {q} a i h e = elim (take_total s i) [
  | inl (n, t) ↦
      subst (λ x. Inv (record { world = x.0; held = hold s.held a x.1 })) (some_inj (sym t ∙ e))
        (take_nothing i a h (subst (Holds s.world.global) n i.owned.list) n)
  | inr (x, xs, g, n, p, t, l, c) ↦
      subst (λ x. Inv (record { world = x.0; held = hold s.held a x.1 })) (some_inj (sym t ∙ e))
        (take_first i a h x xs g (subst (Owned s.world s.held) n i.owned)
          (subst (Marked s.world s.held) n i.marked) p l c)
]
  where
    some_inj : {x y : World × Option Ptr} → some x ≡ some y → x ≡ y
    some_inj e = cc

-- A queue that goes from one hand to an empty one.
pass-Inv :
    (s : System) (a b : Hand) (q : Ptr)
    → Inv s
    → s.held a ≡ some q
    → s.held b ≡ none
    → Inv (record s { held = hold (hold s.held a none) b (some q) })
pass-Inv s a b q i h k =
    let o = i.owned in
    let free = hold-none-free s.world s.held i.gs a q o h in
    let open_hand : hold s.held a none b ≡ none =
      hold-ne s.held a none b (λ e. cc (ap s.held e, h, k)) ∙ k in
    record {
      gs = i.gs;
      owned =
          hold-some-Owned s.world (hold s.held a none) i.gs b q
            (hold-none-Owned s.world s.held i.gs a o) (o.made a q h) (o.apart a q h, free);
      marked =
          move-Marked s.world s.world s.held (hold (hold s.held a none) b (some q)) i.gs i.gs
            i.marked refl (λ r. refl)
            (λ r y. (
              y.0,
              λ c l. elim (hold_cases (hold s.held a none) b (some q) c r l) [
                | inl (e, z) ↦ y.1 a (h ∙ z)
                | inr (e, z) ↦ y.1 c (hold-none-some s.held a c r z)
              ],
            ))
            (λ r y. elim (ℕ_discrete r q) [
              | yes e ↦ inr (b, hold_self (hold s.held a none) b (some q) ∙ ap some (sym e))
              | no n ↦ elim (hold-none-Somewhere s.held a q r i.gs h n y) [
                | inl l ↦ inl l
                | inr (c, l) ↦ inr (c, hold_empty (hold s.held a none) b c (some q) r open_hand l)
              ]
            ]);
    }

pub change-Inv :
    {s : System} {w : World} {q nq : Ptr} (j : ℕ)
    → Inv s
    → s.held (working j) ≡ some q
    → s.held (putting j) ≡ none
    → take_queue s.world ≡ some (w, some nq)
    → Inv (record {
      world = w;
      held = hold (hold (hold s.held (working j) none) (putting j) (some q)) (working j) (some nq);
    })
change-Inv {s} {w} {q} {nq} j i h k e =
    let held' = hold (hold s.held (working j) none) (putting j) (some q) in
    let passed = pass-Inv s (working j) (putting j) q i h k in
    let free : held' (working j) ≡ none =
      hold-ne (hold s.held (working j) none) (putting j) (some q) (working j) (λ x. cc)
      ∙ hold_self s.held (working j) none in
    pick-Inv {s = record s { held = held' }} (working j) passed free e
