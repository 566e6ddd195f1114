-- ===== src/Base/Slices.antt =====
-- `take` and `drop` around a write, as the rings of the program use them.
use Prim.Native.Nat.{ℕ, zero, suc, ◌-◌, ◌≤◌, ◌<◌}
use mathlib.Core.Path.{◌≡◌, refl, ap, ◌∙◌}
use mathlib.Core.List.{List, [], ◌∷◌, ◌++◌}
use mathlib.Core.Option.{some}
use native.Mathlib.Omega.{arith}
use cpp_sk.Base.Lists.{length, get_elem?, set, take, drop}

module _ {ℓ} {A : Type ℓ} where
  pub take-set_ge : (n : ℕ) (xs : List A) (i : ℕ) (v : A) → n ≤ i → take n (set xs i v) ≡ take n xs
  take-set_ge zero xs i v h = refl
  take-set_ge (suc n) [] i v h = refl
  take-set_ge (suc n) (x ∷ xs) zero v h = elim h [ ]
  take-set_ge (suc n) (x ∷ xs) (suc i) v h = ap (◌∷◌ x) (take-set_ge n xs i v (omega arith))

  pub drop-set_lt : (n : ℕ) (xs : List A) (i : ℕ) (v : A) → i < n → drop n (set xs i v) ≡ drop n xs
  drop-set_lt zero xs i v h = elim h [ ]
  drop-set_lt (suc n) [] i v h = refl
  drop-set_lt (suc n) (x ∷ xs) zero v h = refl
  drop-set_lt (suc n) (x ∷ xs) (suc i) v h = drop-set_lt n xs i v (omega arith)

  -- Writing just past a prefix extends it.
  pub take-set-suc :
      (xs : List A) (i : ℕ) (v : A)
      → i < length xs
      → take (suc i) (set xs i v) ≡ take i xs ++ v ∷ []
  take-set-suc [] i v h = elim h [ ]
  take-set-suc (x ∷ xs) zero v h = refl
  take-set-suc (x ∷ xs) (suc i) v h = ap (◌∷◌ x) (take-set-suc xs i v (omega arith))

  pub drop-set_le :
      (n : ℕ) (xs : List A) (i : ℕ) (v : A)
      → n ≤ i
      → drop n (set xs i v) ≡ set (drop n xs) (i - n) v
  drop-set_le zero xs i v h = ap (λ k. set xs k v) (omega arith)
  drop-set_le (suc n) [] i v h = refl
  drop-set_le (suc n) (x ∷ xs) zero v h = elim h [ ]
  drop-set_le (suc n) (x ∷ xs) (suc i) v h =
      drop-set_le n xs i v (omega arith) ∙ ap (λ k. set (drop n xs) k v) (omega arith)

  pub length-drop : (n : ℕ) (xs : List A) → length (drop n xs) ≡ length xs - n
  length-drop zero xs = omega arith
  length-drop (suc n) [] = omega arith
  length-drop (suc n) (x ∷ xs) = omega (arith, length-drop n xs)

  pub length-take : (n : ℕ) (xs : List A) → n ≤ length xs → length (take n xs) ≡ n
  length-take zero xs h = refl
  length-take (suc n) [] h = elim h [ ]
  length-take (suc n) (x ∷ xs) h = ap suc (length-take n xs (omega arith))

  pub take_all : (n : ℕ) (xs : List A) → length xs ≤ n → take n xs ≡ xs
  take_all zero [] h = refl
  take_all zero (x ∷ xs) h = elim h [ ]
  take_all (suc n) [] h = refl
  take_all (suc n) (x ∷ xs) h = ap (◌∷◌ x) (take_all n xs (omega arith))

  pub take-append_left : (n : ℕ) (xs ys : List A) → n ≤ length xs → take n (xs ++ ys) ≡ take n xs
  take-append_left zero xs ys h = refl
  take-append_left (suc n) [] ys h = elim h [ ]
  take-append_left (suc n) (x ∷ xs) ys h = ap (◌∷◌ x) (take-append_left n xs ys (omega arith))

  -- The first element of a suffix.
  pub drop_cons :
      (n : ℕ) (xs : List A)
      → n < length xs
      → (x : A) × (get_elem? xs n ≡ some x) × (drop n xs ≡ x ∷ drop (suc n) xs)
  drop_cons n [] h = elim h [ ]
  drop_cons zero (x ∷ xs) h = (x, refl, refl)
  drop_cons (suc n) (x ∷ xs) h = drop_cons n xs (omega arith)

  pub drop_all : (n : ℕ) (xs : List A) → length xs ≤ n → drop n xs ≡ []
  drop_all zero [] h = refl
  drop_all zero (x ∷ xs) h = elim h [ ]
  drop_all (suc n) [] h = refl
  drop_all (suc n) (x ∷ xs) h = drop_all n xs (omega arith)

  -- Writing the last cell.
  pub set_last :
      (xs : List A) (i : ℕ) (v : A) → length xs ≡ suc i → set xs i v ≡ take i xs ++ v ∷ []
  set_last [] i v h = absurd (omega arith)
  set_last (x ∷ []) zero v h = refl
  set_last (x ∷ y ∷ xs) zero v h = absurd (omega arith)
  set_last (x ∷ xs) (suc i) v h = ap (◌∷◌ x) (set_last xs i v (omega arith))
