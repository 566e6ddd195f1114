-- ===== src/Spinlock.antt =====
-- `spinlock_mutex` of utils.h, and threads that use it. A `test_and_set` is one step of a thread; the
-- loop of `lock` takes any number of them.
pub mod Laws
mod Tests
use cpp_sk.Base.{ℕ, ◌≡◌, Bool, true, false, not, ◌==◌, if◌then◌else◌}

-- `flag`
abbrev pub Flag : Type 0
Flag = Bool

-- `test_and_set`: the old value and the new one.
unfoldable pub test_and_set : Flag → Bool × Flag
test_and_set flag = (flag, true)

-- `trylock`: whether the lock is taken now.
unfoldable pub trylock : Flag → Bool × Flag
unfolding test_and_set
trylock flag = let (old, flag') = test_and_set flag in (not old, flag')

-- One round of `lock`: whether the loop ends.
unfoldable pub lock_round : Flag → Bool × Flag
unfolding test_and_set
lock_round flag = let (old, flag') = test_and_set flag in (not old, flag')

unfoldable pub unlock : Flag → Flag
unlock flag = false

-- Where a thread is.
pub data Place : Type 0 where
  outside : Place
  spinning : Place
  inside : Place

pub record Threads : Type 0 where
  pub flag : Flag
  pub at : ℕ → Place

abbrev pub move : (ℕ → Place) → ℕ → Place → ℕ → Place
move at i p j = if j == i then p else at j

pub data Step : Threads → Threads → Type 0 where
  lock : {s : Threads} (i : ℕ) → s.at i ≡ outside → Step s (record s { at = move s.at i spinning })
  spin :
      {s : Threads} (i : ℕ)
      → s.at i ≡ spinning
      → Step s (record {
        flag = (lock_round s.flag).1;
        at = move s.at i (if (lock_round s.flag).0 then inside else spinning);
      })
  attempt :
      {s : Threads} (i : ℕ)
      → s.at i ≡ outside
      → Step s (record {
        flag = (trylock s.flag).1;
        at = move s.at i (if (trylock s.flag).0 then inside else outside);
      })
  leave :
      {s : Threads} (i : ℕ)
      → s.at i ≡ inside
      → Step s (record { flag = unlock s.flag; at = move s.at i outside })

pub data Reach (s : Threads) : Threads → Type 0 where
  here : Reach s s
  next : {t u : Threads} → Reach s t → Step t u → Reach s u

-- A new lock.
abbrev pub unused : Threads
unused = record { flag = false; at = λ i. outside }
