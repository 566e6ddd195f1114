-- ===== src/Timer/Nodes.antt =====
-- Predicates over the lists of the wheel, and how many of its nodes pass a test.
use cpp_sk.Base.{
  ℕ, zero, suc, ◌+◌, ◌≤◌, ◌<◌, ◌≡◌, refl, ap, subst, ◌≢◌, Bool, false, List, [], ◌∷◌, ◌++◌, arith,
  if◌then◌else◌, length, get_or, set,
}
use cpp_sk.Timer.{Node, LinkList, Timer}

module _ {ℓ} {A : Type ℓ} where
  abbrev pub All : (A → Type 0) → List A → Type 0
  All P [] = Unit {0}
  All P (x ∷ xs) = P x × All P xs

  -- `P i x` for each element `x`, where `i` counts from `k`.
  abbrev pub AllAt : (ℕ → A → Type 0) → ℕ → List A → Type 0
  AllAt P k [] = Unit {0}
  AllAt P k (x ∷ xs) = P k x × AllAt P (suc k) xs

  pub All-mono : {P Q : A → Type 0} (xs : List A) → ((x : A) → P x → Q x) → All P xs → All Q xs
  All-mono [] f a = tt
  All-mono (x ∷ xs) f a = (f x a.0, All-mono xs f a.1)

  pub All-append : (P : A → Type 0) (xs ys : List A) → All P xs → All P ys → All P (xs ++ ys)
  All-append P [] ys a b = b
  All-append P (x ∷ xs) ys a b = (a.0, All-append P xs ys a.1 b)

  pub AllAt-mono :
      {P Q : ℕ → A → Type 0} (k : ℕ) (xs : List A)
      → ((i : ℕ) (x : A) → k ≤ i → P i x → Q i x)
      → AllAt P k xs
      → AllAt Q k xs
  AllAt-mono k [] f a = tt
  AllAt-mono k (x ∷ xs) f a =
      (f k x (omega arith) a.0, AllAt-mono (suc k) xs (λ i y h. f i y (omega arith)) a.1)

  pub AllAt-get :
      (P : ℕ → A → Type 0) (k : ℕ) (xs : List A) (i : ℕ) (d : A)
      → i < length xs
      → AllAt P k xs
      → P (k + i) (get_or xs i d)
  AllAt-get P k [] i d h a = elim h [ ]
  AllAt-get P k (x ∷ xs) zero d h a = subst (λ j. P j x) {x = k} (omega arith) a.0
  AllAt-get P k (x ∷ xs) (suc i) d h a =
      subst (λ j. P j (get_or xs i d)) {x = suc k + i} (omega arith)
        (AllAt-get P (suc k) xs i d (omega arith) a.1)

  -- One element is written anew, and the others keep what holds of them.
  pub AllAt-set :
      {P Q : ℕ → A → Type 0} (k : ℕ) (xs : List A) (i : ℕ) (v : A)
      → ((j : ℕ) (x : A) → k ≤ j → j ≢ k + i → P j x → Q j x)
      → Q (k + i) v
      → AllAt P k xs
      → AllAt Q k (set xs i v)
  AllAt-set k [] i v f q a = tt
  AllAt-set {P} {Q} k (x ∷ xs) zero v f q a = (
    subst (λ j. Q j v) {x = k + 0} (omega arith) q,
    AllAt-mono (suc k) xs (λ j y h. f j y (omega arith) (omega arith)) a.1,
  )
  AllAt-set {P} {Q} k (x ∷ xs) (suc i) v f q a = (
    f k x (omega arith) (omega arith) a.0,
    AllAt-set {P = P} {Q = Q} (suc k) xs i v
        (λ j y h ne. f j y (omega arith) (λ e. ne (omega (arith, e))))
        (subst (λ j. Q j v) {x = k + suc i} (omega arith) q) a.1,
  )

  -- The same, counted from 0.
  pub AllAt-get_zero :
      (P : ℕ → A → Type 0) (xs : List A) (i : ℕ) (d : A)
      → i < length xs
      → AllAt P 0 xs
      → P i (get_or xs i d)
  AllAt-get_zero P xs i d h a =
      subst (λ j. P j (get_or xs i d)) {x = 0 + i} (omega arith) (AllAt-get P 0 xs i d h a)

  pub AllAt-set_zero :
      {P Q : ℕ → A → Type 0} (xs : List A) (i : ℕ) (v : A)
      → ((j : ℕ) (x : A) → j ≢ i → P j x → Q j x)
      → Q i v
      → AllAt P 0 xs
      → AllAt Q 0 (set xs i v)
  AllAt-set_zero {P} {Q} xs i v f q a =
      AllAt-set {P = P} {Q = Q} 0 xs i v (λ j x _ ne. f j x (λ e. ne (omega (arith, e))))
        (subst (λ j. Q j v) {x = i} (omega arith) q) a

module _ (test : Node → Bool) where
  -- How many nodes pass the test, in a list, in lists, and in the levels.
  abbrev pub tally : List Node → ℕ
  tally [] = 0
  tally (n ∷ ns) = (if test n then 1 else 0) + tally ns

  abbrev pub tally_lists : List LinkList → ℕ
  tally_lists [] = 0
  tally_lists (l ∷ ls) = tally l + tally_lists ls

  abbrev pub tally_levels : List (List LinkList) → ℕ
  tally_levels [] = 0
  tally_levels (l ∷ ls) = tally_lists l + tally_levels ls

  pub tally-append : (xs ys : List Node) → tally (xs ++ ys) ≡ tally xs + tally ys
  tally-append [] ys = omega arith
  tally-append (x ∷ xs) ys = omega (arith, tally-append xs ys)

  pub tally_lists-set :
      (ls : List LinkList) (i : ℕ) (v : LinkList)
      → i < length ls
      → tally_lists (set ls i v) + tally (get_or ls i []) ≡ tally_lists ls + tally v
  tally_lists-set [] i v h = elim h [ ]
  tally_lists-set (l ∷ ls) zero v h = omega arith
  tally_lists-set (l ∷ ls) (suc i) v h = omega (arith, tally_lists-set ls i v (omega arith))

  pub tally_levels-set :
      (ls : List (List LinkList)) (i : ℕ) (v : List LinkList)
      → i < length ls
      → tally_levels (set ls i v) + tally_lists (get_or ls i []) ≡ tally_levels ls + tally_lists v
  tally_levels-set [] i v h = elim h [ ]
  tally_levels-set (l ∷ ls) zero v h = omega arith
  tally_levels-set (l ∷ ls) (suc i) v h = omega (arith, tally_levels-set ls i v (omega arith))

  -- The nodes that wait in a timer.
  unfoldable pub pending : Timer → ℕ
  pending t = tally_lists t.near + tally_levels t.wheel

-- A test that no node of a list passes.
pub tally_none :
    (test : Node → Bool) (ns : List Node) → All (λ n. test n ≡ false) ns → tally test ns ≡ 0
tally_none test [] a = refl
tally_none test (n ∷ ns) a =
    omega (arith, ap {B = ℕ} (λ b. if b then 1 else 0) a.0, tally_none test ns a.1)

pub tally_lists_none :
    (test : Node → Bool) (k : ℕ) (ls : List LinkList)
    → AllAt (λ j l. All (λ n. test n ≡ false) l) k ls
    → tally_lists test ls ≡ 0
tally_lists_none test k [] a = refl
tally_lists_none test k (l ∷ ls) a =
    omega (arith, tally_none test l a.0, tally_lists_none test (suc k) ls a.1)

pub tally_levels_none :
    (test : Node → Bool) (k : ℕ) (ls : List (List LinkList))
    → AllAt (λ i rows. AllAt (λ j l. All (λ n. test n ≡ false) l) 0 rows) k ls
    → tally_levels test ls ≡ 0
tally_levels_none test k [] a = refl
tally_levels_none test k (l ∷ ls) a =
    omega (arith, tally_lists_none test 0 l a.0, tally_levels_none test (suc k) ls a.1)
