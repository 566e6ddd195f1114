-- ===== src/Scheduler/Hands.antt =====
-- Updates of what the threads hold, and membership in a list with one more queue.
use cpp_sk.Base.{
  ◌≡◌, refl, sym, ap, ◌∙◌, ◌≢◌, ◌⊎◌, inl, inr, Option, none, some, List, [], ◌∷◌, ◌++◌,
}
use cpp_sk.Scheduler.{Hand, Hand-discrete, hold}
use cpp_sk.HandleStorage.{Ptr}
use cpp_sk.GlobalQueue.Chain.{Fresh}

pub hold_self : (held : Hand → Option Ptr) (a : Hand) (v : Option Ptr) → hold held a v a ≡ v
unfolding hold
hold_self held a v = elim (Hand-discrete a a) as (λ d. elim d [ yes _ ↦ v | no _ ↦ held a ] ≡ v) [
  | yes _ ↦ refl
  | no n ↦ absurd (n refl)
]

pub hold-ne :
    (held : Hand → Option Ptr) (a : Hand) (v : Option Ptr) (b : Hand)
    → b ≢ a
    → hold held a v b ≡ held b
unfolding hold
hold-ne held a v b n =
    elim (Hand-discrete b a) as (λ d. elim d [ yes _ ↦ v | no _ ↦ held b ] ≡ held b) [
      | yes e ↦ absurd (n e)
      | no _ ↦ refl
    ]

-- Who holds a queue after an update: the hand that was written, or one that held it before.
pub hold_cases :
    (held : Hand → Option Ptr) (a : Hand) (v : Option Ptr) (b : Hand) (p : Ptr)
    → hold held a v b ≡ some p
    → ((b ≡ a) × (v ≡ some p)) ⊎ ((b ≢ a) × (held b ≡ some p))
hold_cases held a v b p h = elim (Hand-discrete b a) [
  | yes e ↦ inl (e, sym (ap (hold held a v) e ∙ hold_self held a v) ∙ h)
  | no n ↦ inr (n, sym (hold-ne held a v b n) ∙ h)
]

-- A queue is in a list, in the form that fits `Fresh`.
abbrev pub Listed : Ptr → List Ptr → Type 0
Listed p gs = ¬ Fresh p gs

pub Fresh-init : (p q : Ptr) (gs : List Ptr) → Fresh p (gs ++ q ∷ []) → Fresh p gs × (p ≢ q)
Fresh-init p q [] f = (tt, f.0)
Fresh-init p q (x ∷ gs) f = let (r, n) = Fresh-init p q gs f.1 in ((f.0, r), n)

pub some_eq : {p q : Ptr} → some p ≡ some q → p ≡ q
some_eq e = cc

pub hold-none-some :
    (held : Hand → Option Ptr) (a b : Hand) (p : Ptr)
    → hold held a none b ≡ some p
    → held b ≡ some p
hold-none-some held a b p h = elim (hold_cases held a none b p h) [
  | inl (e, k) ↦ absurd (cc)
  | inr (n, k) ↦ k
]

-- What no hand holds, no hand holds after one is emptied.
pub hold-none-none :
    (held : Hand → Option Ptr) (a : Hand) (p : Ptr)
    → ((b : Hand) → held b ≢ some p)
    → (b : Hand) → hold held a none b ≢ some p
hold-none-none held a p free b h = free b (hold-none-some held a b p h)

-- A queue in another hand stays there.
pub hold-other :
    (held : Hand → Option Ptr) (a b : Hand) (v : Option Ptr) (p q : Ptr)
    → held a ≡ some q
    → p ≢ q
    → held b ≡ some p
    → hold held a v b ≡ some p
hold-other held a b v p q h n k = hold-ne held a v b (λ e. n (some_eq (sym k ∙ ap held e ∙ h))) ∙ k

pub snoc-Listed : (p q : Ptr) (gs : List Ptr) → Listed p gs → Listed p (gs ++ q ∷ [])
snoc-Listed p q gs l = λ f. l (Fresh-init p q gs f).0

pub snoc-Listed_self : (p : Ptr) (gs : List Ptr) → Listed p (gs ++ p ∷ [])
snoc-Listed_self p gs = λ f. (Fresh-init p p gs f).1 refl

-- An empty hand that takes a queue loses none.
pub hold_empty :
    (held : Hand → Option Ptr) (a b : Hand) (v : Option Ptr) (p : Ptr)
    → held a ≡ none
    → held b ≡ some p
    → hold held a v b ≡ some p
hold_empty held a b v p h k = hold-ne held a v b (λ e. cc (ap held e, h, k)) ∙ k
