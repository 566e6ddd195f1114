-- ===== src/Guards.antt =====
-- `shared_mutex_type` of utils.h: data behind a `std::shared_mutex`, reached through guards that lock
-- it as long as they live; and `str_malloc`. A thread has at most one guard.
use cpp_sk.Base.{
  ℕ, ◌≡◌, ◌≢◌, refl, sym, ap, ◌∙◌, inl, inr, Option, none, some, [], ◌∷◌, ◌++◌, ◌==◌, if◌then◌else◌,
  arith, Bool-cases, Option-cases,
}
use cpp_sk.Message.{Bytes}

data Mode : Type 0 where
  reading : Mode
  writing : Mode

-- `std::shared_mutex`: what a thread holds, and the calls that lock and unlock it. `none` is a call
-- that blocks. A lock is given exclusively, or to readers together.
record SharedMutex : Type 1 where
  State : Type 0
  fresh : State
  holds : State → ℕ → Option Mode
  acquire : Mode → ℕ → State → Option State
  release : ℕ → State → State
  fresh_free : (i : ℕ) → holds fresh i ≡ none
  acquired :
      (m : Mode) (i : ℕ) (s s' : State)
      → acquire m i s ≡ some s'
      → (j : ℕ) → holds s' j ≡ (if j == i then some m else holds s j)
  excluded :
      (m k : Mode) (i : ℕ) (s s' : State)
      → acquire m i s ≡ some s'
      → (j : ℕ) → holds s j ≡ some k
      → (m ≡ reading) × (k ≡ reading)
  released :
      (i : ℕ) (s : State) (j : ℕ) → holds (release i s) j ≡ (if j == i then none else holds s j)

module _ (X : SharedMutex) (A : Type 0) where
  open X use {State, fresh, holds, acquire, release, fresh_free, acquired, excluded, released}

  record Guarded : Type 0 where
    smux : State
    content : A

  -- `read` and `write`, whose guards take the lock.
  guard : Mode → ℕ → Guarded → Option Guarded
  guard m i g = elim (acquire m i g.smux) [ none ↦ none | some s ↦ some (record g { smux = s }) ]

  -- A guard that goes out of scope.
  drop_guard : ℕ → Guarded → Guarded
  drop_guard i g = record g { smux = release i g.smux }

  -- A step of the thread `i`: only a `WriteGuard` gives a pointer that is not `const`.
  data Step (i : ℕ) (g : Guarded) : Guarded → Type 0 where
    open_ : (m : Mode) {g' : Guarded} → guard m i g ≡ some g' → Step i g g'
    assign : (a : A) → holds g.smux i ≡ some writing → Step i g (record g { content = a })
    leave : (m : Mode) → holds g.smux i ≡ some m → Step i g (drop_guard i g)

  data Reach (a : A) : Guarded → Type 0 where
    start : Reach a (record { smux = fresh; content = a })
    later : {g g' : Guarded} (i : ℕ) → Reach a g → Step i g g' → Reach a g'

  abbrev Alone : State → Type 0
  Alone s = (i j : ℕ) (m : Mode) → holds s i ≡ some writing → holds s j ≡ some m → i ≡ j

  release-Alone : (i : ℕ) (s : State) → Alone s → Alone (release i s)
  release-Alone i s alone j k m p q =
      let one = released i s j in
      let two = released i s k in
      elim (Bool-cases (j == i)) [
        | inl same ↦ absurd (ground (arith, one, p, same))
        | inr other ↦ elim (Bool-cases (k == i)) [
          | inl same ↦ absurd (ground (arith, two, q, same))
          | inr other2 ↦
              alone j k m (ground (arith, one, p, other)) (ground (arith, two, q, other2))
        ]
      ]

  acquire-Alone : (n : Mode) (i : ℕ) (s s' : State) → acquire n i s ≡ some s' → Alone s → Alone s'
  acquire-Alone n i s s' e alone j k m p q =
      let one = acquired n i s s' e j in
      let two = acquired n i s s' e k in
      elim (Bool-cases (j == i)) [
        | inl same ↦ elim (Bool-cases (k == i)) [
          | inl same2 ↦ ground (arith, same, same2)
          | inr other ↦
              let (r, _) = excluded n m i s s' e k (ground (arith, two, q, other)) in
              absurd (ground (arith, one, p, same, r))
        ]
        | inr other ↦
            let before : holds s j ≡ some writing = ground (arith, one, p, other) in
            elim (Bool-cases (k == i)) [
              | inl same ↦ absurd (cc ((excluded n writing i s s' e j before).1))
              | inr other2 ↦ alone j k m before (ground (arith, two, q, other2))
            ]
      ]

  step-Alone : (i : ℕ) {g g' : Guarded} → Step i g g' → Alone g.smux → Alone g'.smux
  unfolding guard drop_guard
  step-Alone i {g} (open_ m {g'} e) alone = elim (Option-cases (acquire m i g.smux)) [
    | inl blocks ↦ absurd (ground (arith, e, blocks))
    | inr (s, got) ↦
        let same : g' ≡ record g { smux = s } = ground (arith, e, got) in
        rw same (acquire-Alone m i g.smux s got alone)
  ]
  step-Alone i (assign a h) alone = alone
  step-Alone i {g} (leave m h) alone = release-Alone i g.smux alone

  reach-Alone : (a : A) {g : Guarded} → Reach a g → Alone g.smux
  reach-Alone a start = λ j k m p q. absurd (cc (p, fresh_free j))
  reach-Alone a (later i r s) = step-Alone i s (reach-Alone a r)

  -- While a thread has a guard, no step of another one changes the data.
  guarded_stable :
      (a : A) (i j : ℕ) (m : Mode) {g g' : Guarded}
      → Reach a g
      → holds g.smux i ≡ some m
      → Step j g g'
      → i ≢ j
      → g'.content ≡ g.content
  unfolding guard drop_guard
  guarded_stable a i j m {g} r h (open_ k {g'} e) n = elim (Option-cases (acquire k j g.smux)) [
    | inl blocks ↦ absurd (ground (arith, e, blocks))
    | inr (s, got) ↦ ground (arith, e, got)
  ]
  guarded_stable a i j m r h (assign b w) n = absurd (n (sym (reach-Alone a r j i m w h)))
  guarded_stable a i j m r h (leave k w) n = refl

-- `str_malloc`, where `malloc` gives memory: a copy with a zero byte behind it, or the null pointer.
str_malloc : Bytes → Option Bytes
str_malloc [] = none
str_malloc (c ∷ s) = some ((c ∷ s) ++ 0 ∷ [])

-- The text that a C function reads there.
c_string : Bytes → Bytes
c_string [] = []
c_string (c ∷ s) = if c == 0 then [] else c ∷ c_string s

abbrev NoZero : Bytes → Type 0
NoZero [] = Unit {0}
NoZero (c ∷ s) = (c ≢ 0) × NoZero s

c_string-terminated : (s : Bytes) → NoZero s → c_string (s ++ 0 ∷ []) ≡ s
unfolding c_string
c_string-terminated [] h = refl
c_string-terminated (c ∷ s) (p, h) = ground (arith, p, c_string-terminated s h)

-- A text without a zero byte is read back.
c_string-str_malloc : (s t : Bytes) → NoZero s → str_malloc s ≡ some t → c_string t ≡ s
unfolding str_malloc
c_string-str_malloc [] t h e = cc (e)
c_string-str_malloc (c ∷ s) t h e =
    let same : (c ∷ s) ++ 0 ∷ [] ≡ t = cc (e) in
    ap c_string (sym same) ∙ c_string-terminated (c ∷ s) h
