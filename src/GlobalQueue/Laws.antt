-- ===== src/GlobalQueue/Laws.antt =====
-- The global queue is a FIFO of queues, as long as no queue is pushed that is in it.
use cpp_sk.Base.{
  ℕ, zero, suc, ◌≡◌, refl, sym, ◌∙◌, ◌≢◌, inl, inr, Option, none, some, List, [], ◌∷◌, ◌++◌, arith,
  Option-cases, length,
}
use cpp_sk.GlobalQueue.{Ptr, GlobalQueue, new, assign, push, pop}
use cpp_sk.GlobalQueue.Chain.{
  Chain, Fresh, last?, Holds, Chain-assign, last_ne, Chain-snoc, Distinct-snoc, last_snoc,
  last_cons, Chain-last,
}
use mathlib.Core.Option

pub new-Holds : (next : Ptr → Option Ptr) → Holds (new next) []
unfolding new
new-Holds next = record { chain = refl; last = refl; distinct = tt }

push-empty :
    (g : GlobalQueue) (q : Ptr)
    → g.next q ≡ none
    → g.tail ≡ none
    → push g q ≡ some (record g { head = some q; tail = some q })
unfolding push
push-empty g q e t = rw (e, t, push)

push-tail :
    (g : GlobalQueue) (q t : Ptr)
    → g.next q ≡ none
    → g.tail ≡ some t
    → push g q ≡ some (record g { next = assign g.next t (some q); tail = some q })
unfolding push
push-tail g q t e l = rw (e, l, push)

-- `push` of a queue that is not in the list, and has no next, does not fail and puts it last.
pub push-Holds :
    (g : GlobalQueue) (xs : List Ptr) (q : Ptr)
    → Holds g xs
    → Fresh q xs
    → g.next q ≡ none
    → (g' : GlobalQueue) × (push g q ≡ some g') × Holds g' (xs ++ q ∷ [])
push-Holds g [] q h f e = (
  record g { head = some q; tail = some q },
  push-empty g q e h.last,
  record { chain = (refl, e); last = refl; distinct = (tt, tt) },
)
push-Holds g (x ∷ xs) q h f e =
    let (t, l) = last_cons x xs in
    (
      record g { next = assign g.next t (some q); tail = some q },
      push-tail g q t e (h.last ∙ l),
      record {
        chain = Chain-snoc g.next t q g.head (x ∷ xs) h.chain l h.distinct f e;
        last = sym (last_snoc q (x ∷ xs));
        distinct = Distinct-snoc q (x ∷ xs) h.distinct f;
      },
    )

-- `pop` of an empty list gives null and changes nothing.
pub pop_empty : (g : GlobalQueue) → Holds g [] → pop g ≡ some (none, g)
unfolding pop
pop_empty g h = ground (arith, h)

clear_next :
    (g : GlobalQueue) (x y : Ptr) (xs : List Ptr)
    → Holds g (x ∷ y ∷ xs)
    → Chain (assign g.next x none) (some y) (y ∷ xs)
clear_next g x y xs h =
    Chain-assign g.next x none (some y) (y ∷ xs) h.distinct.0 (refl, h.chain.1.1)

-- `pop` of any other list does not fail, takes the first queue out, and clears its `next`.
pub pop-Holds :
    (g : GlobalQueue) (x : Ptr) (xs : List Ptr)
    → Holds g (x ∷ xs)
    → (g' : GlobalQueue) × (pop g ≡ some (some x, g')) × Holds g' xs × (g'.next x ≡ none)
unfolding pop
pop-Holds g x [] h = (
  record g { head = none; tail = none; next = assign g.next x none },
  ground (arith, h),
  record { chain = refl; last = refl; distinct = tt },
  ground arith,
)
pop-Holds g x (y ∷ xs) h = (
  record g { head = some y; next = assign g.next x none },
  ground (arith, h),
  record { chain = clear_next g x y xs h; last = h.last; distinct = h.distinct.1 },
  ground arith,
)

-- The `assert` of `push` does not see a queue that is pushed again while it is the last one: the
-- queue becomes its own next, and the list has no end.
pub push_twice :
    (g : GlobalQueue) (xs : List Ptr) (t : Ptr)
    → Holds g xs
    → last? xs ≡ some t
    → (g' : GlobalQueue) × (push g t ≡ some g') × (g'.next t ≡ some t) × (g'.tail ≡ some t)
push_twice g xs t h l = (
  record g { next = assign g.next t (some t); tail = some t },
  push-tail g t t (Chain-last g.next g.head xs t h.chain l) (h.last ∙ l),
  ground arith,
  refl,
)

-- `push` writes the `next` of the last queue only.
pub next-push :
    (g g' : GlobalQueue) (xs : List Ptr) (q r : Ptr)
    → Holds g xs
    → Fresh r xs
    → push g q ≡ some g'
    → g'.next r ≡ g.next r
unfolding push
next-push g g' xs q r h f e = elim (Option-cases (g.next q)) [
  | inr (y, n) ↦ ground (arith, n, e)
  | inl n ↦ elim (Option-cases g.tail) [
    | inl t ↦ ground (arith, n, t, e)
    | inr (t, l) ↦ ground (arith, n, l, e, last_ne r t xs f (sym h.last ∙ l))
  ]
]

-- `pop` writes the `next` of the first queue only.
pub next-pop :
    (g g' : GlobalQueue) (q : Option Ptr) (x : Ptr) (xs : List Ptr) (r : Ptr)
    → Holds g (x ∷ xs)
    → pop g ≡ some (q, g')
    → r ≢ x
    → g'.next r ≡ g.next r
unfolding pop
next-pop g g' q x xs r h e n = ground (arith, h.chain.0, e, n)

-- A row of pops, and the queues that they take.
abbrev pub pops : ℕ → GlobalQueue → Option (List Ptr × GlobalQueue)
pops zero g = some ([], g)
pops (suc n) g = elim (pop g) [
  | none ↦ none
  | some (none, g') ↦ none
  | some (some x, g') ↦ Option.map (λ r. (x ∷ r.0, r.1)) (pops n g')
]

-- The queues leave the list in the order in which they stand there: a queue is taken after exactly as
-- many pops as queues stand before it, and no pop fails.
pub pops-Holds :
    (g : GlobalQueue) (xs ys : List Ptr)
    → Holds g (xs ++ ys)
    → (g' : GlobalQueue) × (pops (length xs) g ≡ some (xs, g')) × Holds g' ys
pops-Holds g [] ys h = (g, refl, h)
pops-Holds g (x ∷ xs) ys h =
    let (g1, e, h1, _) = pop-Holds g x (xs ++ ys) h in
    let (g2, r, h2) = pops-Holds g1 xs ys h1 in (g2, ground (arith, e, r), h2)
