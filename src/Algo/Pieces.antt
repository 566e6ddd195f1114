-- ===== src/Algo/Pieces.antt =====
-- The pieces of a text between the bytes that are equal to a separator.
use cpp_sk.Base.{
  ℕ, ◌<◌, ◌≡◌, ◌≢◌, inl, inr, refl, sym, ap, subst, ◌∙◌, true, false, List, [], ◌∷◌, ◌++◌, arith,
  ◌==◌, if◌then◌else◌, length, Bool-cases,
}
use cpp_sk.Message.{Bytes}

-- A byte before the first piece.
abbrev pub extend : ℕ → List Bytes → List Bytes
extend x [] = (x ∷ []) ∷ []
extend x (p ∷ ps) = (x ∷ p) ∷ ps

-- The pieces by recursion on the text.
unfoldable pub pieces : ℕ → Bytes → List Bytes
pieces c [] = []
pieces c (x ∷ s) = let rest = pieces c s in if c == x then [] ∷ rest else extend x rest

-- The byte does not occur.
abbrev pub Absent : ℕ → Bytes → Type 0
Absent c [] = Unit
Absent c (x ∷ s) = (c ≢ x) × Absent c s

abbrev pub AllAbsent : ℕ → List Bytes → Type 0
AllAbsent c [] = Unit
AllAbsent c (p ∷ ps) = Absent c p × AllAbsent c ps

-- The last piece, which is left out where it is empty.
abbrev pub last_piece : Bytes → List Bytes
last_piece [] = []
last_piece (x ∷ s) = (x ∷ s) ∷ []

pub last_piece_some : (xs : Bytes) → 0 < length xs → last_piece xs ≡ xs ∷ []
last_piece_some [] h = absurd (omega (arith, h))
last_piece_some (x ∷ xs) h = refl

pub ==→eq : (c x : ℕ) → (c == x) ≡ true → c ≡ x
==→eq c x h = ground (arith, h)

-- The text, with a separator after its last piece if it has none there.
abbrev pub closed : ℕ → Bytes → Bytes
closed c [] = []
closed c (x ∷ []) = if c == x then x ∷ [] else x ∷ c ∷ []
closed c (x ∷ y ∷ s) = x ∷ closed c (y ∷ s)

-- The pieces, each with a separator after it.
abbrev pub rejoin : ℕ → List Bytes → Bytes
rejoin c [] = []
rejoin c (p ∷ ps) = p ++ c ∷ rejoin c ps

pub pieces_here : (c x : ℕ) (s : Bytes) → (c == x) ≡ true → pieces c (x ∷ s) ≡ [] ∷ pieces c s
unfolding pieces
pieces_here c x s h = rw (h, pieces) refl

pub pieces_there :
    (c x : ℕ) (s : Bytes) → (c == x) ≡ false → pieces c (x ∷ s) ≡ extend x (pieces c s)
unfolding pieces
pieces_there c x s h = rw (h, pieces) refl

pub extend_cons :
    (x : ℕ) (ps : List Bytes) → (p : Bytes) × (qs : List Bytes) × (extend x ps ≡ p ∷ qs)
extend_cons x [] = (x ∷ [], [], refl)
extend_cons x (p ∷ ps) = (x ∷ p, ps, refl)

pub pieces_cons :
    (c x : ℕ) (s : Bytes) → (p : Bytes) × (ps : List Bytes) × (pieces c (x ∷ s) ≡ p ∷ ps)
pieces_cons c x s = elim (Bool-cases (c == x)) [
  | inl h ↦ ([], pieces c s, pieces_here c x s h)
  | inr h ↦ let (p, ps, e) = extend_cons x (pieces c s) in (p, ps, pieces_there c x s h ∙ e)
]

pub rejoin-pieces : (c : ℕ) (s : Bytes) → rejoin c (pieces c s) ≡ closed c s
unfolding pieces
rejoin-pieces c [] = refl
rejoin-pieces c (x ∷ []) = ground arith
rejoin-pieces c (x ∷ y ∷ s) = elim (Bool-cases (c == x)) [
  | inl h ↦
      let same : c ≡ x = ground (arith, h) in
      ap (rejoin c) (pieces_here c x (y ∷ s) h)
      ∙ ap (λ l. c ∷ l) (rejoin-pieces c (y ∷ s))
      ∙ ap (λ k. k ∷ closed c (y ∷ s)) same
  | inr h ↦
      let (p, ps, e) = pieces_cons c y s in
      ap (rejoin c) (pieces_there c x (y ∷ s) h ∙ ap (extend x) e)
      ∙ ap (λ l. x ∷ l) (sym (ap (rejoin c) e) ∙ rejoin-pieces c (y ∷ s))
]

pub AllAbsent-extend :
    (c x : ℕ) (ps : List Bytes) → c ≢ x → AllAbsent c ps → AllAbsent c (extend x ps)
AllAbsent-extend c x [] n a = ((n, tt), tt)
AllAbsent-extend c x (p ∷ ps) n a = ((n, a.0), a.1)

pub AllAbsent-pieces : (c : ℕ) (s : Bytes) → AllAbsent c (pieces c s)
unfolding pieces
AllAbsent-pieces c [] = tt
AllAbsent-pieces c (x ∷ s) = elim (Bool-cases (c == x)) [
  | inl h ↦ subst (AllAbsent c) (sym (pieces_here c x s h)) (tt, AllAbsent-pieces c s)
  | inr h ↦
      subst (AllAbsent c) (sym (pieces_there c x s h))
        (AllAbsent-extend c x (pieces c s) (ground (arith, h)) (AllAbsent-pieces c s))
]

pub Absent-last : (c : ℕ) (s : Bytes) → AllAbsent c (last_piece s) → Absent c s
Absent-last c [] a = tt
Absent-last c (x ∷ s) a = a.0
