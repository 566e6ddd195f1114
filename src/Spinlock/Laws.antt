-- ===== src/Spinlock/Laws.antt =====
-- One thread at a time.
use cpp_sk.Base.{
  ℕ, ◌≡◌, ◌≢◌, refl, sym, subst, ◌∙◌, inl, inr, Bool, true, false, not, arith, ◌==◌, if◌then◌else◌,
  Bool-cases,
}
use native.Mathlib.Decide.{ℕ_discrete}
use cpp_sk.Spinlock.{
  trylock, lock_round, test_and_set, unlock, Place, outside, spinning, inside, Threads, move, Step,
  lock, spin, attempt, leave, Reach, here, next, unused,
}

-- The lock is free and no thread is inside, or it is taken and exactly one is.
pub data Inv (s : Threads) : Type 0 where
  free : s.flag ≡ false → ((i : ℕ) → s.at i ≢ inside) → Inv s
  taken : (i : ℕ) → s.flag ≡ true → s.at i ≡ inside → ((j : ℕ) → s.at j ≡ inside → j ≡ i) → Inv s

move_self : (at : ℕ → Place) (i : ℕ) (p : Place) → move at i p i ≡ p
move_self at i p = ground arith

-- A thread inside after a move to a place outside was inside before, and is another one.
still_inside :
    (at : ℕ → Place) (i j : ℕ) (p : Place)
    → p ≢ inside
    → move at i p j ≡ inside
    → (at j ≡ inside) × (j ≢ i)
still_inside at i j p n e = elim (Bool-cases (j == i)) [
  | inl same ↦ absurd (n (ground (arith, e, same)))
  | inr differs ↦ (ground (arith, e, differs), λ f. ground (arith, f, differs))
]

-- A thread moves outside the lock.
stay :
    (s : Threads) (i : ℕ) (p : Place)
    → s.at i ≢ inside
    → p ≢ inside
    → Inv s
    → Inv (record s { at = move s.at i p })
stay s i p n m (free f empty) = free f (λ j e. empty j (still_inside s.at i j p m e).0)
stay s i p n m (taken k f here_ only) =
    taken k f
      (elim (Bool-cases (k == i)) [
        | inl same ↦ absurd (n (ground (arith, here_, same)))
        | inr differs ↦ ground (arith, here_, differs)
      ])
      (λ j e. only j (still_inside s.at i j p m e).0)

enter :
    (s : Threads) (i : ℕ)
    → s.flag ≡ false
    → Inv s
    → Inv (record { flag = true; at = move s.at i inside })
enter s i e (free f empty) = taken i refl (move_self s.at i inside) (λ j h. elim (ℕ_discrete j i) [
  | yes same ↦ same
  | no differs ↦ absurd (empty j (ground (arith, h, differs)))
])
enter s i e (taken k f here_ only) = absurd (ground (arith, e, f))

exit :
    (s : Threads) (i : ℕ)
    → s.at i ≡ inside
    → Inv s
    → Inv (record { flag = false; at = move s.at i outside })
exit s i e (free f empty) = absurd (empty i e)
exit s i e (taken k f here_ only) = free refl (λ j h.
    let (before, differs) = still_inside s.at i j outside (λ c. cc) h in
    differs (only j before ∙ sym (only i e)))

-- A test of the lock by a thread that is outside: it enters where the lock was free.
test-Inv :
    (s : Threads) (i : ℕ) (p : Place)
    → s.at i ≢ inside
    → p ≢ inside
    → Inv s
    → Inv (record { flag = true; at = move s.at i (if not s.flag then inside else p) })
test-Inv s i p n m inv =
    let after =
      λ (b : Bool). Inv (record { flag = true; at = move s.at i (if not b then inside else p) }) in
    elim (Bool-cases s.flag) [
      | inl on ↦
          subst after (sym on)
            (subst (λ f. Inv (record { flag = f; at = move s.at i p })) on (stay s i p n m inv))
      | inr off ↦ subst after (sym off) (enter s i off inv)
    ]

step-Inv : {s t : Threads} → Step s t → Inv s → Inv t
unfolding lock_round trylock test_and_set unlock
step-Inv {s} (lock i e) inv = stay s i spinning (λ c. cc) (λ c. cc) inv
step-Inv {s} (spin i e) inv = test-Inv s i spinning (λ c. cc) (λ c. cc) inv
step-Inv {s} (attempt i e) inv = test-Inv s i outside (λ c. cc) (λ c. cc) inv
step-Inv {s} (leave i e) inv = exit s i e inv

reach-Inv : {s : Threads} → Reach unused s → Inv s
reach-Inv here = free refl (λ i c. cc)
reach-Inv (next r s) = step-Inv s (reach-Inv r)

same_owner : {s : Threads} (i j : ℕ) → Inv s → s.at i ≡ inside → s.at j ≡ inside → i ≡ j
same_owner i j (free f empty) a b = absurd (empty i a)
same_owner i j (taken k f here_ only) a b = only i a ∙ sym (only j b)

-- However the threads take and leave a new lock, by `lock` or `trylock`, two that are inside at the
-- same time are the same one.
pub exclusive : {s : Threads} (i j : ℕ) → Reach unused s → s.at i ≡ inside → s.at j ≡ inside → i ≡ j
exclusive i j r a b = same_owner i j (reach-Inv r) a b
