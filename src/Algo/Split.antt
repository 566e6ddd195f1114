-- ===== src/Algo/Split.antt =====
-- What `split` and `split_one` do with a separator of one byte.
use cpp_sk.Base.{
  ℕ, zero, suc, ◌+◌, ◌-◌, ◌≤◌, ◌<◌, ◌≡◌, ◌⊎◌, inl, inr, refl, sym, ap, subst, ◌∙◌, true, false,
  none, some, List, [], ◌∷◌, ◌++◌, arith, leb, ◌==◌, length, take, drop, Option-cases, Bool-cases,
}
use cpp_sk.Base.Slices.{length-drop, drop_all}
use cpp_sk.Algo.{starts_with, find, find_from, substr, split_loop, split, split_one}
use cpp_sk.Message.{Bytes}
use cpp_sk.Algo.Pieces.{
  extend, pieces, Absent, AllAbsent, closed, rejoin, rejoin-pieces, AllAbsent-pieces, last_piece,
  Absent-last, last_piece_some, ==→eq,
}

drop-drop : (n m : ℕ) (xs : Bytes) → drop n (drop m xs) ≡ drop (m + n) xs
drop-drop n zero xs = let e : n ≡ 0 + n = omega arith in ap (λ k. drop k xs) e
drop-drop zero (suc m) [] = let e : suc m ≡ suc m + 0 = omega arith in ap (λ k. drop {A = ℕ} k []) e
drop-drop (suc n) (suc m) [] =
    let e : suc (m + suc n) ≡ suc m + suc n = omega arith in ap (λ k. drop {A = ℕ} k []) e
drop-drop n (suc m) (x ∷ xs) =
    let e : suc (m + n) ≡ suc m + n = omega arith in drop-drop n m xs ∙ ap (λ k. drop k (x ∷ xs)) e

find_empty : (c : ℕ) → find (c ∷ []) [] ≡ none
unfolding find starts_with
find_empty c = refl

find_here : (c x : ℕ) (s : Bytes) → (c == x) ≡ true → find (c ∷ []) (x ∷ s) ≡ some 0
unfolding find starts_with
find_here c x s e = ground (arith, e)

find_there :
    (c x : ℕ) (s : Bytes)
    → (c == x) ≡ false
    → find (c ∷ []) (x ∷ s) ≡ elim (find (c ∷ []) s) [ none ↦ none | some k ↦ some (suc k) ]
unfolding find starts_with
find_there c x s e = ground (arith, e)

some_inj : {j k : ℕ} → some j ≡ some k → j ≡ k
some_inj e = cc

pieces-none : (c : ℕ) (s : Bytes) → find (c ∷ []) s ≡ none → pieces c s ≡ last_piece s
unfolding pieces
pieces-none c [] e = refl
pieces-none c (x ∷ s) e = elim (Bool-cases (c == x)) [
  | inl h ↦ absurd (cc (find_here c x s h, e))
  | inr h ↦ elim (Option-cases (find (c ∷ []) s)) [
    | inl n ↦ rw (h, pieces-none c s n, pieces) (joined s)
    | inr (k, n) ↦ absurd (cc (sym (find_there c x s h) ∙ e, n))
  ]
]
  where
    joined : (s : Bytes) → extend x (last_piece s) ≡ (x ∷ s) ∷ []
    joined [] = refl
    joined (y ∷ s) = refl

abbrev Cut : ℕ → Bytes → ℕ → Type 0
Cut c s k =
    (pieces c s ≡ take k s ∷ pieces c (drop (suc k) s))
    × (k < length s)
    × Absent c (take k s)
    × (s ≡ take k s ++ c ∷ drop (suc k) s)

pieces_some : (c : ℕ) (s : Bytes) (k : ℕ) → find (c ∷ []) s ≡ some k → Cut c s k
unfolding pieces
pieces_some c [] k e = absurd (cc (find_empty c, e))
pieces_some c (x ∷ s) k e = elim (Bool-cases (c == x)) [
  | inl h ↦
      subst (Cut c (x ∷ s)) (some_inj (sym (find_here c x s h) ∙ e))
        (rw (h, pieces) refl, omega arith, tt, ap (λ k. k ∷ s) (sym (==→eq c x h)))
  | inr h ↦ elim (Option-cases (find (c ∷ []) s)) [
    | inl n ↦ absurd (cc (find_there c x s h, n, e))
    | inr (j, n) ↦
        let (p, l, a, whole) = pieces_some c s j n in
        let there : find (c ∷ []) (x ∷ s) ≡ some (suc j) = find_there c x s h ∙ rw n refl in
        subst (Cut c (x ∷ s)) (some_inj (sym there ∙ e))
          (rw (h, p, pieces) refl, omega (arith, l), (ground (arith, h), a), ap (λ l. x ∷ l) whole)
  ]
]

-- The loop from a place in the text gives the pieces of what follows.
split_loop_lem :
    (fuel : ℕ) (s : Bytes) (c pos : ℕ)
    → pos ≤ length s
    → length s < pos + fuel
    → split_loop fuel s (c ∷ []) pos ≡ some (pieces c (drop pos s))
unfolding split_loop find_from substr pieces
split_loop_lem zero s c pos le enough = absurd (omega (arith, le, enough))
split_loop_lem (suc fuel) s c pos le enough =
    let fits : leb pos (length s) ≡ true = ground (arith, le) in
    let held = length-drop pos s in
    elim (Option-cases (find (c ∷ []) (drop pos s))) [
      | inl n ↦
          let over : find_from (c ∷ []) s pos ≡ none = rw (fits, n, find_from) refl in
          elim (Bool-cases (pos == length s)) [
            | inl e ↦
                let at_end : drop pos s ≡ [] = drop_all pos s (ground (arith, e)) in
                rw (over, e, split_loop) (ap (λ xs. some (pieces c xs)) (sym at_end))
            | inr e ↦
                let some_left : 0 < length (drop pos s) = ground (arith, le, e, held) in
                rw (over, e, fits, split_loop, substr)
                  (ap some (
                    sym (last_piece_some (drop pos s) some_left)
                    ∙ sym (pieces-none c (drop pos s) n)))
          ]
      | inr (k, n) ↦
          let (p, l, _, _) = pieces_some c (drop pos s) k n in
          let rest =
            split_loop_lem fuel s c (pos + k + 1) (omega (arith, l, held))
              (omega (arith, enough)) in
          let cut : find_from (c ∷ []) s pos ≡ some (pos + k) = rw (fits, n, find_from) refl in
          let width : pos + k - pos ≡ k = omega arith in
          let place : drop (pos + k + 1) s ≡ drop (suc k) (drop pos s) =
            let e : pos + k + 1 ≡ pos + suc k = omega arith in
            ap (λ j. drop j s) e ∙ sym (drop-drop (suc k) pos s) in
          rw (cut, rest, split_loop)
            (ap (λ j. some (take j (drop pos s) ∷ pieces c (drop (pos + k + 1) s))) width
              ∙ ap (λ xs. some (take k (drop pos s) ∷ pieces c xs)) place
              ∙ ap some (sym p))
    ]

find-none : (c : ℕ) (s : Bytes) → find (c ∷ []) s ≡ none → Absent c s
find-none c s n = Absent-last c s (subst (AllAbsent c) (pieces-none c s n) (AllAbsent-pieces c s))

-- With a separator of one byte, `split` throws nothing and gives the pieces in which the separator
-- does not occur and which, each with a separator after it, make up the text; one is added to a text
-- that does not end with it.
pub split-rejoin :
    (s : Bytes) (c : ℕ)
    → (vs : List Bytes) × (split s (c ∷ []) ≡ some vs) × (rejoin c vs ≡ closed c s) × AllAbsent c vs
unfolding split
split-rejoin s c = (
  pieces c s,
  split_loop_lem (length s + 2) s c 0 (omega arith) (omega arith),
  rejoin-pieces c s,
  AllAbsent-pieces c s,
)

-- With a separator of one byte, `split_one` throws nothing: it cuts the text at its first separator,
-- or gives all of it where there is none.
pub split_one-cut :
    (s : Bytes) (c : ℕ)
    → (a b : Bytes) × (split_one s (c ∷ []) ≡ some (a, b))
      × Absent c a
      × ((s ≡ a ++ c ∷ b) ⊎ ((a ≡ s) × (b ≡ [])))
unfolding split_one substr
split_one-cut s c = elim (Option-cases (find (c ∷ []) s)) [
  | inl n ↦ (s, [], rw (n, split_one) refl, find-none c s n, inr (refl, refl))
  | inr (k, n) ↦
      let (p, l, a, whole) = pieces_some c s k n in
      let next : suc k ≡ k + 1 = omega arith in
      let fits : leb (k + 1) (length s) ≡ true = ground (arith, l) in
      (
        take k s,
        drop (k + 1) s,
        rw (n, fits, split_one, substr) refl,
        a,
        inl (whole ∙ ap (λ j. take k s ++ c ∷ drop j s) next),
      )
]
