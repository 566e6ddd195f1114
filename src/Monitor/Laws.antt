-- ===== src/Monitor/Laws.antt =====
-- When `check` reports a service.
-- A worker's monitor after a row of messages: what it serves, and then nothing.
use cpp_sk.Base.{ℕ, ◌+◌, ◌%◌, ◌^◌, ◌≤◌, ◌<◌, ◌≡◌, some, List, [], ◌∷◌, arith, length}
use cpp_sk.World.{World}
use cpp_sk.Monitor.{SkynetMonitor, trigger, check}
use cpp_sk.Message.{Bytes}

abbrev pub triggers : SkynetMonitor → List (ℕ × ℕ) → SkynetMonitor
triggers m [] = m
triggers m ((source, destination) ∷ l) = triggers (trigger m source destination) l

version-triggers :
    (m : SkynetMonitor) (l : List (ℕ × ℕ))
    → m.version < 2 ^ 32
    → ((triggers m l).version ≡ (m.version + length l) % 2 ^ 32)
      × ((triggers m l).check_version ≡ m.check_version)
unfolding trigger
version-triggers m [] h = ground (arith, h)
version-triggers m ((s, d) ∷ l) h =
    let (v, c) = version-triggers (trigger m s d) l (omega arith) in (omega (arith, v), c)

-- After a check, fewer than 2^32 calls of `trigger`, and at least one, keep the next check quiet: it
-- reports nothing and notes the new version.
pub check-triggers :
    (endless_text : ℕ → ℕ → ℕ → Bytes) (w : World) (m : SkynetMonitor) (l : List (ℕ × ℕ))
    → m.check_version ≡ m.version
    → m.version < 2 ^ 32
    → 1 ≤ length l
    → length l < 2 ^ 32
    → check endless_text w (triggers m l)
      ≡ some (w, record (triggers m l) { check_version = (triggers m l).version })
unfolding check
check-triggers endless_text w m l same small some_calls few =
    let (v, c) = version-triggers m l small in ground (arith, v, c, same, small, some_calls, few)
