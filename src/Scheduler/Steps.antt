-- ===== src/Scheduler/Steps.antt =====
-- How a step changes the invariant: the two rules that each kind of step uses.
pub mod Deliver
pub mod Local
pub mod Take
pub mod Give
pub mod Enroll
use cpp_sk.Base.{
  ℕ, ◌-◌, ◌≤◌, ◌<◌, ◌≡◌, sym, ap, subst, ◌∙◌, ◌≢◌, ◌⊎◌, inl, inr, true, false, not, Option, none,
  some, List, [], arith, take,
}
use native.Mathlib.Decide.{dec_lt, ℕ_discrete}
use cpp_sk.World.{World, context_push}
use cpp_sk.Scheduler.{Hand, hold, change, other, here, next}
use cpp_sk.Scheduler.Hands.{hold_cases, Listed, some_eq, hold-none-some, hold-other}
use cpp_sk.Scheduler.Invariant.{Owned, Marked, Inv}
use cpp_sk.Scheduler.{take}
use cpp_sk.HandleStorage.{Ptr}
use cpp_sk.MessageQueue.{MessageQueue}
use cpp_sk.MessageQueue.Contents.{IsValid, contents}
use cpp_sk.GlobalQueue.Chain.{Fresh, Holds}
use cpp_sk.World.Push.{Scheduled}

-- Where a queue is, and where it is not.
abbrev pub Somewhere : (Hand → Option Ptr) → List Ptr → Ptr → Type 0
Somewhere held gs p = Listed p gs ⊎ ((a : Hand) × (held a ≡ some p))

abbrev pub Nowhere : (Hand → Option Ptr) → List Ptr → Ptr → Type 0
Nowhere held gs p = Fresh p gs × ((a : Hand) → held a ≢ some p)

-- The global list of the invariant is one that `context_push` can work on.
pub Inv-Scheduled :
    (w : World) (held : Hand → Option Ptr) (gs : List Ptr)
    → Owned w held gs
    → Marked w held gs
    → Scheduled w gs
Inv-Scheduled w held gs o m = record {
  holds = o.list;
  idle = λ p i. elim (dec_lt p w.fresh) [
    | yes h ↦ let (f, _, _) = m.idle p h i in (f, o.out p f)
    | no h ↦ let f = o.unmade p (omega arith) in (f, o.out p f)
  ];
}

-- Ownership depends on the global list and the number of contexts only.
pub same-Owned :
    (w w' : World) (held : Hand → Option Ptr) (gs : List Ptr)
    → w'.global ≡ w.global
    → w'.fresh ≡ w.fresh
    → Owned w held gs
    → Owned w' held gs
same-Owned w w' held gs g f o = record {
  list = subst (λ x. Holds x gs) (sym g) o.list;
  out = λ p h. ap (λ x. x.next p) g ∙ o.out p h;
  unmade = λ p h. o.unmade p (subst (λ x. x ≤ p) f h);
  made = λ a p h. subst (λ x. p < x) (sym f) (o.made a p h);
  apart = o.apart;
  unique = o.unique;
}

-- A step that concerns the queue of `q` alone.
pub update-Marked :
    (w w' : World) (held held' : Hand → Option Ptr) (gs gs' : List Ptr) (q : Ptr)
    → Marked w held gs
    → ((r : Ptr) → r ≢ q → r < w'.fresh → r < w.fresh)
    → ((r : Ptr) → r ≢ q → (w'.contexts r).queue ≡ (w.contexts r).queue)
    → ((r : Ptr) → r ≢ q → Nowhere held gs r → Nowhere held' gs' r)
    → ((r : Ptr) → r ≢ q → Somewhere held gs r → Somewhere held' gs' r)
    → IsValid (w'.contexts q).queue
    → ((w'.contexts q).queue.in_global ≡ false
        → Fresh q gs' × ((a : Hand) → held' a ≢ some q) × (contents (w'.contexts q).queue ≡ []))
    → ((w'.contexts q).queue.in_global ≡ true → Somewhere held' gs' q)
    → Marked w' held' gs'
update-Marked w w' held held' gs gs' q m f same none_more all_more v i b = record {
  valid = λ r h. elim (ℕ_discrete r q) [
    | yes e ↦ subst (λ x. IsValid (w'.contexts x).queue) (sym e) v
    | no n ↦ subst IsValid (sym (same r n)) (m.valid r (f r n h))
  ];
  idle = λ r h g. elim (ℕ_discrete r q) [
    | yes e ↦
        let (x, y, z) = i (ap (λ x. (w'.contexts x).queue.in_global) (sym e) ∙ g) in
        (
          subst (λ x. Fresh x gs') (sym e) x,
          λ a k. y a (k ∙ ap some e),
          ap (λ x. contents (w'.contexts x).queue) e ∙ z,
        )
    | no n ↦
        let (x, y, z) = m.idle r (f r n h) (ap MessageQueue.in_global (sym (same r n)) ∙ g) in
        let (x', y') = none_more r n (x, y) in (x', y', ap contents (same r n) ∙ z)
  ];
  busy = λ r h g. elim (ℕ_discrete r q) [
    | yes e ↦
        subst (Somewhere held' gs') (sym e)
          (b (ap (λ x. (w'.contexts x).queue.in_global) (sym e) ∙ g))
    | no n ↦ all_more r n (m.busy r (f r n h) (ap MessageQueue.in_global (sym (same r n)) ∙ g))
  ];
}

pub same_bound : (a b q : ℕ) → a ≡ b → (r : ℕ) → r ≢ q → r < a → r < b
same_bound a b q e r n h = subst (λ x. r < x) e h

-- A step that moves queues between the list and the hands, and changes none.
pub move-Marked :
    (w w' : World) (held held' : Hand → Option Ptr) (gs gs' : List Ptr)
    → Marked w held gs
    → w'.fresh ≡ w.fresh
    → ((r : Ptr) → (w'.contexts r).queue ≡ (w.contexts r).queue)
    → ((r : Ptr) → Nowhere held gs r → Nowhere held' gs' r)
    → ((r : Ptr) → Somewhere held gs r → Somewhere held' gs' r)
    → Marked w' held' gs'
move-Marked w w' held held' gs gs' m f same none_more all_more = record {
  valid = λ p h. subst IsValid (sym (same p)) (m.valid p (subst (λ x. p < x) f h));
  idle = λ p h i.
      let (x, y, z) =
        m.idle p (subst (λ x. p < x) f h) (ap MessageQueue.in_global (sym (same p)) ∙ i) in
      let (x', y') = none_more p (x, y) in (x', y', ap contents (same p) ∙ z);
  busy = λ p h t.
      all_more p (m.busy p (subst (λ x. p < x) f h) (ap MessageQueue.in_global (sym (same p)) ∙ t));
}

-- A hand lets go of what it holds.
pub hold-none-Owned :
    (w : World) (held : Hand → Option Ptr) (gs : List Ptr) (a : Hand)
    → Owned w held gs
    → Owned w (hold held a none) gs
hold-none-Owned w held gs a o = record {
  list = o.list;
  out = o.out;
  unmade = o.unmade;
  made = λ b p h. o.made b p (hold-none-some held a b p h);
  apart = λ b p h. o.apart b p (hold-none-some held a b p h);
  unique = λ b c p h k. o.unique b c p (hold-none-some held a b p h) (hold-none-some held a c p k);
}

-- A hand takes a queue that is in no hand and not in the list.
pub hold-some-Owned :
    (w : World) (held : Hand → Option Ptr) (gs : List Ptr) (a : Hand) (q : Ptr)
    → Owned w held gs
    → q < w.fresh
    → Nowhere held gs q
    → Owned w (hold held a (some q)) gs
hold-some-Owned w held gs a q o lt (f, free) = record {
  list = o.list;
  out = o.out;
  unmade = o.unmade;
  made = λ b p h. elim (hold_cases held a (some q) b p h) [
    | inl (e, k) ↦ subst (λ x. x < w.fresh) (some_eq k) lt
    | inr (n, k) ↦ o.made b p k
  ];
  apart = λ b p h. elim (hold_cases held a (some q) b p h) [
    | inl (e, k) ↦ subst (λ x. Fresh x gs) (some_eq k) f
    | inr (n, k) ↦ o.apart b p k
  ];
  unique = λ b c p h k. elim (hold_cases held a (some q) b p h) [
    | inl (e, x) ↦ elim (hold_cases held a (some q) c p k) [
      | inl (e', y) ↦ e ∙ sym e'
      | inr (n, y) ↦ absurd (free c (y ∙ sym x))
    ]
    | inr (n, x) ↦ elim (hold_cases held a (some q) c p k) [
      | inl (e', y) ↦ absurd (free b (x ∙ sym y))
      | inr (n', y) ↦ o.unique b c p x y
    ]
  ];
}

pub hold-none-Somewhere :
    (held : Hand → Option Ptr) (a : Hand) (q r : Ptr) (gs : List Ptr)
    → held a ≡ some q
    → r ≢ q
    → Somewhere held gs r
    → Somewhere (hold held a none) gs r
hold-none-Somewhere held a q r gs h n x = elim x [
  | inl l ↦ inl l
  | inr (b, k) ↦ inr (b, hold-other held a b none r q h n k)
]

-- A queue that its hand lets go is in no hand.
pub hold-none-free :
    (w : World) (held : Hand → Option Ptr) (gs : List Ptr) (a : Hand) (q : Ptr)
    → Owned w held gs
    → held a ≡ some q
    → (b : Hand) → hold held a none b ≢ some q
hold-none-free w held gs a q o h b k = elim (hold_cases held a none b q k) [
  | inl (e, x) ↦ absurd (cc)
  | inr (n, x) ↦ n (o.unique b a q x h)
]
