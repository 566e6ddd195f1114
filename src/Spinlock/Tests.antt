-- ===== src/Spinlock/Tests.antt =====
-- Two threads; the first one gets the lock.
use cpp_sk.Base.{ℕ, ◌≡◌, refl, true}
use cpp_sk.Spinlock.{
  lock_round, test_and_set, outside, spinning, inside, Threads, move, lock, spin, Reach, here, next,
  unused,
}
use cpp_sk.Spinlock.Laws.{exclusive}

abbrev busy : Threads
busy = record {
  flag = true;
  at = move (move (move (move (λ i. outside) 1 spinning) 2 spinning) 1 inside) 2 spinning;
}

contend : Reach unused busy
unfolding lock_round test_and_set
contend = next (next (next (next here (lock 1 refl)) (lock 2 refl)) (spin 1 refl)) (spin 2 refl)

exclusive_example : ◌≡◌ {A = ℕ} 1 1
exclusive_example = exclusive 1 1 contend refl refl
