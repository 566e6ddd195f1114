-- ===== src/Threads/Boot.antt =====
-- The state in which `start` begins.
use cpp_sk.Base.{ℕ, ◌%◌, ◌≡◌, refl, some, arith}
use cpp_sk.Threads.{boot}
use cpp_sk.World.{World, grab}
use cpp_sk.Launch.{enroll}
use cpp_sk.Launch.Enroll.{grab-enroll}
use cpp_sk.MessageQueue
use cpp_sk.Scheduler.Safety.{Starts}
use cpp_sk.HandleStorage
use cpp_sk.HandleStorage.Slots.{IsValid}
use cpp_sk.GlobalQueue
use cpp_sk.Handle.Laws.{storage_harbor_lem}

boot-Starts : (harbor : ℕ) → Starts (boot harbor)
unfolding boot GlobalQueue.new
boot-Starts harbor = record {
  none_made = refl;
  empty = record { chain = refl; last = refl; distinct = tt };
  out = λ p. refl;
}

pub boot-IsValid : (harbor : ℕ) → IsValid (boot harbor).storage
unfolding boot HandleStorage.new
boot-IsValid harbor = record {
  bits = 2;
  size = refl;
  bits_le = omega arith;
  index_pos = omega arith;
  index_le = omega arith;
  node = harbor % 256;
  node_lt = omega arith;
  high = storage_harbor_lem harbor;
}

-- The world in which `start` begins meets the conditions of the theorems on the threads and on the
-- handle storage, whatever the harbor: so the first context gets the pointer 0, and its handle leads
-- to it.
pub boot_lem :
    (harbor : ℕ)
    → Starts (boot harbor)
      × IsValid (boot harbor).storage
      × ((w : World) × (enroll (boot harbor) ≡ some (w, 0))
          × (grab w (w.contexts 0).handle ≡ some 0)
          × ((w.contexts 0).queue ≡ MessageQueue.new (w.contexts 0).handle))
unfolding boot HandleStorage.new
boot_lem harbor = (
  boot-Starts harbor,
  boot-IsValid harbor,
  grab-enroll (boot harbor) (boot-IsValid harbor) (omega arith),
)
