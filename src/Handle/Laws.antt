-- ===== src/Handle/Laws.antt =====
-- Ranges of the handle arithmetic of cpp_sk.h, and how a handle splits into harbor and number.
use cpp_sk.Base.{◌==◌, not, ◌&&◌, ℕ, ◌+◌, ◌*◌, ◌/◌, ◌%◌, ◌^◌, ◌≤◌, ◌<◌, ◌≡◌, some, arith, bit_and}
use cpp_sk.Base.Bits.{bit_and-mask, bit_or-high, bit_and-high}
use cpp_sk.Handle.{
  handle_mask, check_range, incr, or_harbor, storage_harbor, harbor_init, message_isremote,
}

abbrev pub IsLocal : ℕ → Type 0
IsLocal h = (1 ≤ h) × (h ≤ handle_mask)

pub storage_harbor_lem : (harbor : ℕ) → storage_harbor harbor ≡ harbor % 256 * 2 ^ 24
unfolding storage_harbor
storage_harbor_lem harbor = omega (arith, bit_and-mask 8 harbor)

-- The harbor lands in the high bits and leaves the number alone.
pub or_harbor_lem :
    (h harbor : ℕ)
    → h ≤ handle_mask
    → or_harbor h (storage_harbor harbor) ≡ h + harbor % 256 * 2 ^ 24
unfolding or_harbor
or_harbor_lem h harbor p = rw storage_harbor_lem (bit_or-high 24 h (harbor % 256) (omega arith))

-- Both increments stay in the range of local handles, and skip 0.
pub incr-IsLocal : (h : ℕ) → IsLocal h → IsLocal (incr h)
unfolding incr check_range
incr-IsLocal h v = ground arith

pub incr_lt : (h : ℕ) → h < handle_mask → incr h ≡ h + 1
unfolding incr check_range
incr_lt h v = ground arith

pub check_range_local : (h : ℕ) → h ≤ handle_mask → check_range h ≡ h
unfolding check_range
check_range_local h v = ground arith

harbor_part : (h : ℕ) → bit_and h 0xff000000 ≡ h / 2 ^ 24 % 2 ^ 8 * 2 ^ 24
harbor_part h = bit_and-high 24 8 h

-- For a node with harbor number `own`, a handle that the storage of harbor `other` gave out (its
-- number `h` in the low 24 bits) is remote exactly when `other` is neither `own` nor 0.
pub message_isremote_lem :
    (own other h : ℕ)
    → own < 256
    → other < 256
    → h ≤ handle_mask
    → message_isremote (harbor_init own) (or_harbor h (storage_harbor other))
      ≡ some (not (other == own) && not (other == 0))
unfolding message_isremote harbor_init
message_isremote_lem own other h p q r =
    rw (or_harbor_lem h other r, harbor_part (h + other % 256 * 2 ^ 24)) (ground arith)
