-- ===== src/Timer/Level.antt =====
-- Where a node stands in the wheel while the time is below 2^14, the end of the first level.
use cpp_sk.Base.{
  ℕ, zero, suc, ◌+◌, ◌-◌, ◌*◌, ◌/◌, ◌%◌, ◌^◌, ◌≤◌, ◌<◌, bit_and, bit_or, ◌≡◌, refl, ◌∙◌, ◌≢◌, true,
  false, List, arith, ◌==◌, ==_iff, length,
}
use native.Mathlib.Decide.{ℕ_discrete}
use cpp_sk.Base.Bits.{bit_and-mask, bit_or-mask_eq_iff}
use cpp_sk.Timer.{
  time_near, time_level_shift, time_near_mask, time_level_mask, Node, LinkList, Timer, find_level,
}
use cpp_sk.Timer.Nodes.{All, AllAt}
use cpp_sk.Handle.{u32_mod}

abbrev pub horizon : ℕ
horizon = 2 ^ 14

-- In `near_[j]`: the nodes of the current block of 256 ticks, by their last byte.
abbrev pub InNear : ℕ → ℕ → Node → Type 0
InNear now j n = (n.expire / 256 ≡ now / 256) × (n.expire % 256 ≡ j) × (now ≤ n.expire)

-- In `t_[0][j]`: the nodes of a later block; in the levels above: what expires past the horizon.
abbrev pub InLevel : ℕ → ℕ → ℕ → Node → Type 0
InLevel now zero j n = (n.expire / 256 ≡ j) × (now / 256 < j) × (j < 64)
InLevel now (suc i) j n = (horizon ≤ n.expire) × (n.expire < u32_mod)

abbrev pub NearAt : ℕ → ℕ → LinkList → Type 0
NearAt now j l = All (InNear now j) l

abbrev pub RowsAt : ℕ → ℕ → List LinkList → Type 0
RowsAt now i rows = (length rows ≡ 64) × AllAt (λ j l. All (InLevel now i j) l) 0 rows

-- The wheel at a time below the horizon.
pub record IsValid (t : Timer) : Type 0 where
  pub low : t.time < horizon
  pub near_length : length t.near ≡ 256
  pub wheel_length : length t.wheel ≡ 4
  pub near_at : AllAt (NearAt t.time) 0 t.near
  pub wheel_at : AllAt (RowsAt t.time) 0 t.wheel

-- Nothing that waits near has expired: so it is between two calls of `timer_update`.
abbrev pub Settled : Timer → Type 0
Settled t = AllAt (λ j l. All (λ n. t.time < n.expire) l) 0 t.near

pub near_index : (x : ℕ) → bit_and x time_near_mask ≡ x % 256
near_index x = bit_and-mask 8 x

pub level_index : (x : ℕ) → bit_and x time_level_mask ≡ x % 64
level_index x = bit_and-mask 6 x

-- A comparison under a mask, as a decision about the numbers above the mask.
pub mask_eq :
    (k a b : ℕ) → a / 2 ^ k ≡ b / 2 ^ k → (bit_or a (2 ^ k - 1) == bit_or b (2 ^ k - 1)) ≡ true
mask_eq k a b h = (==_iff _ _).1 ((bit_or-mask_eq_iff k a b).1 h)

pub mask_ne :
    (k a b : ℕ) → a / 2 ^ k ≢ b / 2 ^ k → (bit_or a (2 ^ k - 1) == bit_or b (2 ^ k - 1)) ≡ false
mask_ne k a b h =
    let ne : bit_or a (2 ^ k - 1) ≢ bit_or b (2 ^ k - 1) =
      λ e. h ((bit_or-mask_eq_iff k a b).0 e) in
    ground (arith, ne)

-- One round of the loop of `add_node`.
level_hit :
    (rounds i k time current : ℕ)
    → time / 2 ^ k ≡ current / 2 ^ k
    → find_level (suc rounds) i (2 ^ k) time current ≡ i
unfolding find_level
level_hit rounds i k time current e = rw (mask_eq k time current e, find_level)

level_miss :
    (rounds i k time current : ℕ)
    → time / 2 ^ k ≢ current / 2 ^ k
    → find_level (suc rounds) i (2 ^ k) time current
      ≡ find_level rounds (i + 1) (2 ^ k * 2 ^ time_level_shift % u32_mod) time current
unfolding find_level
level_miss rounds i k time current ne = rw (mask_ne k time current ne, find_level)

pub find_level_low :
    (time current : ℕ)
    → time < horizon
    → current < horizon
    → find_level 3 0 (time_near * 2 ^ time_level_shift) time current ≡ 0
find_level_low time current h k = level_hit 2 0 14 time current (omega arith)

pub find_level_high :
    (time current : ℕ)
    → horizon ≤ time
    → current < horizon
    → (i : ℕ) × (i < 3) × (find_level 3 0 (time_near * 2 ^ time_level_shift) time current ≡ suc i)
find_level_high time current h k =
    let first = level_miss 2 0 14 time current (omega arith) in
    elim (ℕ_discrete (time / 2 ^ 20) (current / 2 ^ 20)) [
      | yes e ↦ (0, omega arith, first ∙ level_hit 1 1 20 time current e)
      | no ne ↦
          let second = first ∙ level_miss 1 1 20 time current ne in
          elim (ℕ_discrete (time / 2 ^ 26) (current / 2 ^ 26)) [
            | yes e ↦ (1, omega arith, second ∙ level_hit 0 2 26 time current e)
            | no ne' ↦ (2, omega arith, second ∙ level_miss 0 2 26 time current ne' ∙ last)
          ]
    ]
  where
    last : find_level 0 3 (2 ^ 26 * 2 ^ time_level_shift % u32_mod) time current ≡ 3
    last = unfold find_level in refl
