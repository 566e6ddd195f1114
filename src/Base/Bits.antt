-- ===== src/Base/Bits.antt =====
-- Masks: `x & (2 ^ k - 1)`, `x | (2 ^ k - 1)` and `x | (y << k)`, for every width.
use Prim.Native.Nat.{
  ℕ, zero, suc, ◌+◌, ◌*◌, ◌-◌, ◌/◌, ◌%◌, ◌^◌, ◌≤◌, ◌<◌, min, max, bitwise, bit_and, bit_or, digits,
  bit_and-bitwise, bit_or-bitwise,
}
use mathlib.Core.Path.{◌≡◌, refl, ap, sym, ◌∙◌}
use mathlib.Core.Logic.{◌↔◌}
use native.Mathlib.Nat.{
  pow-suc, mul_assoc, add-mul-mod_self_right, add-zero, add-suc, mod-eq_of_lt, mod-add-mod,
}
use native.Mathlib.Omega.{arith}

-- Both operations go through the binary digits of the first number, on fuel. `rest` is what is left
-- at its end, `bit` works on one digit of each.
module _ (rest : ℕ → ℕ) (bit : ℕ → ℕ → ℕ) where
  one_more : (x y n : ℕ) → x ≤ n → digits rest bit (suc n) x y ≡ digits rest bit n x y
  one_more zero y zero h = refl
  one_more zero y (suc n) h = refl
  one_more (suc x) y zero h = absurd (omega arith)
  one_more (suc x) y (suc n) h = omega (arith, one_more (suc x / 2) (y / 2) n (omega arith))

  spare_fuel : (k n x y : ℕ) → n ≡ k + x → digits rest bit n x y ≡ digits rest bit x x y
  spare_fuel zero n x y h = let e : n ≡ x = omega (arith, h) in rw e
  spare_fuel (suc k) zero x y h = absurd (omega (arith, h))
  spare_fuel (suc k) (suc n) x y h =
      one_more x y n (omega (arith, h)) ∙ spare_fuel k n x y (omega (arith, h))

  half_fuel : (x y : ℕ) → digits rest bit x (suc x / 2) y ≡ bitwise rest bit (suc x / 2) y
  half_fuel x y = spare_fuel (x - suc x / 2) x (suc x / 2) y (omega arith)

pub bit_and_step : (a b : ℕ) → bit_and a b ≡ bit_and (a / 2) (b / 2) * 2 + min (a % 2) (b % 2)
bit_and_step zero b = omega (arith, bit_and-bitwise 0 b, bit_and-bitwise 0 (b / 2))
bit_and_step (suc a) b =
    let tail = half_fuel (λ _. 0) min a (b / 2) in
    omega (arith, tail, bit_and-bitwise (suc a) b, bit_and-bitwise (suc a / 2) (b / 2))

pub bit_or_step : (a b : ℕ) → bit_or a b ≡ bit_or (a / 2) (b / 2) * 2 + max (a % 2) (b % 2)
bit_or_step zero b = omega (arith, bit_or-bitwise 0 b, bit_or-bitwise 0 (b / 2))
bit_or_step (suc a) b =
    let tail = half_fuel (λ y. y) max a (b / 2) in
    omega (arith, tail, bit_or-bitwise (suc a) b, bit_or-bitwise (suc a / 2) (b / 2))

-- Zero as the second number, for every number up to a bound.
zero_right : (n x : ℕ) → x ≤ n → (bit_and x 0 ≡ 0) × (bit_or x 0 ≡ x)
zero_right n zero h = (refl, refl)
zero_right zero (suc x) h = absurd (omega arith)
zero_right (suc n) (suc x) h =
    let (l, r) = zero_right n (suc x / 2) (omega arith) in
    (omega (arith, l, bit_and_step (suc x) 0), omega (arith, r, bit_or_step (suc x) 0))

pub pow-pos : (k : ℕ) → 0 < 2 ^ k
pow-pos zero = omega arith
pow-pos (suc k) = omega (arith, pow-suc 2 k, pow-pos k)

pub pow-add : (a b : ℕ) → 2 ^ (a + b) ≡ 2 ^ a * 2 ^ b
pow-add a zero = ap (λ t. 2 ^ t) (add-zero a) ∙ omega arith
pow-add a (suc b) =
    ap (λ t. 2 ^ t) (add-suc a b)
    ∙ pow-suc 2 (a + b)
    ∙ omega (arith, pow-suc 2 b, pow-add a b, ap (λ t. 2 ^ a * t) (pow-suc 2 b))

-- The last digit splits off a remainder by an even number.
mod_double : (a p : ℕ) → 0 < p → a % (2 * p) ≡ a / 2 % p * 2 + a % 2
mod_double a p h = grind (arith)

div_double : (a p : ℕ) → 0 < p → a / (2 * p) ≡ a / 2 / p
div_double a p h = grind arith

-- `x & (2 ^ k - 1)` is the remainder by `2 ^ k`.
pub bit_and-mask : (k a : ℕ) → bit_and a (2 ^ k - 1) ≡ a % 2 ^ k
bit_and-mask zero a = omega (arith, (zero_right a a (omega arith)).0)
bit_and-mask (suc k) a =
    let e : (2 ^ suc k - 1) / 2 ≡ 2 ^ k - 1 = omega (arith, pow-suc 2 k, pow-pos k) in
    let d : (2 ^ suc k - 1) % 2 ≡ 1 = omega (arith, pow-suc 2 k, pow-pos k) in
    let q : a % 2 ^ suc k ≡ a % (2 * 2 ^ k) = ap (λ m. a % m) (omega (arith, pow-suc 2 k)) in
    rw (bit_and_step a (2 ^ suc k - 1), e, d, bit_and-mask k (a / 2), q)
      (omega (arith, mod_double a (2 ^ k) (pow-pos k)))

-- `x | (2 ^ k - 1)` keeps the part above the mask and sets all below it.
pub bit_or-mask : (k a : ℕ) → bit_or a (2 ^ k - 1) ≡ a / 2 ^ k * 2 ^ k + (2 ^ k - 1)
bit_or-mask zero a = omega (arith, (zero_right a a (omega arith)).1)
bit_or-mask (suc k) a =
    let e : (2 ^ suc k - 1) / 2 ≡ 2 ^ k - 1 = omega (arith, pow-suc 2 k, pow-pos k) in
    let d : (2 ^ suc k - 1) % 2 ≡ 1 = omega (arith, pow-suc 2 k, pow-pos k) in
    let q : a / 2 ^ suc k ≡ a / 2 / 2 ^ k =
      ap (λ m. a / m) (omega (arith, pow-suc 2 k)) ∙ div_double a (2 ^ k) (pow-pos k) in
    rw (bit_or_step a (2 ^ suc k - 1), e, d, bit_or-mask k (a / 2), q)
      (omega (arith, pow-suc 2 k, pow-pos k, ap (λ t. a / 2 / 2 ^ k * t) (pow-suc 2 k)))

-- Two numbers are equal above a mask exactly when they are equal in `x | mask`.
pub bit_or-mask_eq_iff :
    (k a b : ℕ) → (bit_or a (2 ^ k - 1) ≡ bit_or b (2 ^ k - 1)) ↔ (a / 2 ^ k ≡ b / 2 ^ k)
bit_or-mask_eq_iff k a b = (
  λ h.
      mul_cancel (a / 2 ^ k) (b / 2 ^ k) (2 ^ k) (pow-pos k)
        (omega (arith, h, bit_or-mask k a, bit_or-mask k b)),
  λ h. rw (bit_or-mask k a, bit_or-mask k b, h),
)
  where
    mul_cancel : (x y m : ℕ) → 0 < m → x * m ≡ y * m → x ≡ y
    mul_cancel x y m h e = grind arith

-- A number below `2 ^ k` and a multiple of `2 ^ k` share no bit.
pub bit_or-high : (k a b : ℕ) → a < 2 ^ k → bit_or a (b * 2 ^ k) ≡ a + b * 2 ^ k
bit_or-high zero zero b h = omega (arith, bit_or-bitwise 0 (b * 2 ^ 0))
bit_or-high zero (suc a) b h = absurd (omega arith)
bit_or-high (suc k) a b h =
    let e : b * 2 ^ suc k / 2 ≡ b * 2 ^ k = halve b (2 ^ k) (pow-suc 2 k) in
    let d : b * 2 ^ suc k % 2 ≡ 0 = even b (2 ^ k) (pow-suc 2 k) in
    rw (bit_or_step a (b * 2 ^ suc k), e, d, bit_or-high k (a / 2) b (omega (arith, pow-suc 2 k)))
      (omega (arith, ap (λ t. b * t) (pow-suc 2 k)))
  where
    halve : (b p : ℕ) {q : ℕ} → q ≡ p * 2 → b * q / 2 ≡ b * p
    halve b p h = omega (arith, ap (λ t. b * t) h)

    even : (b p : ℕ) {q : ℕ} → q ≡ p * 2 → b * q % 2 ≡ 0
    even b p h = omega (arith, ap (λ t. b * t) h)

-- `x & ((2 ^ m - 1) << k)` keeps the field of `m` bits above the low `k`.
pub bit_and-high : (k m a : ℕ) → bit_and a ((2 ^ m - 1) * 2 ^ k) ≡ a / 2 ^ k % 2 ^ m * 2 ^ k
bit_and-high zero m a = rw (bit_and-mask_one m a) (omega (arith, ap (λ t. t % 2 ^ m) (div_one a)))
  where
    div_one : (a : ℕ) → a / 2 ^ 0 ≡ a
    div_one a = omega arith

    bit_and-mask_one : (m a : ℕ) → bit_and a ((2 ^ m - 1) * 2 ^ 0) ≡ a % 2 ^ m
    bit_and-mask_one m a =
        let e : (2 ^ m - 1) * 2 ^ 0 ≡ 2 ^ m - 1 = omega arith in rw e (bit_and-mask m a)
bit_and-high (suc k) m a =
    let w = 2 ^ m - 1 in
    let e : w * 2 ^ suc k / 2 ≡ w * 2 ^ k = omega (arith, ap (λ t. w * t) (pow-suc 2 k)) in
    let d : w * 2 ^ suc k % 2 ≡ 0 = omega (arith, ap (λ t. w * t) (pow-suc 2 k)) in
    let q : a / 2 ^ suc k ≡ a / 2 / 2 ^ k =
      ap (λ t. a / t) (omega (arith, pow-suc 2 k)) ∙ div_double a (2 ^ k) (pow-pos k) in
    rw (bit_and_step a (w * 2 ^ suc k), e, d, bit_and-high k m (a / 2), q)
      (omega (arith, ap (λ t. a / 2 / 2 ^ k % 2 ^ m * t) (pow-suc 2 k)))

pub split_24 : (k : ℕ) → k ≤ 24 → 2 ^ 24 ≡ 2 ^ (24 - k) * 2 ^ k
split_24 k h = let e : 24 ≡ 24 - k + k = omega arith in ap (λ t. 2 ^ t) e ∙ pow-add (24 - k) k

pub suc-mod : (a m : ℕ) → a % m + 1 < m → (a + 1) % m ≡ a % m + 1
suc-mod a m h = sym (mod-add-mod a m 1) ∙ mod-eq_of_lt h

-- The largest handle ends in ones.
pub ones-mod : (k : ℕ) → k ≤ 24 → 0xffffff % 2 ^ k ≡ 2 ^ k - 1
ones-mod k h = last (2 ^ (24 - k)) (2 ^ k) (split_24 k h)
  where
    last : (q m : ℕ) → 0x1000000 ≡ q * m → 0xffffff % m ≡ m - 1
    last zero m e = absurd (omega arith)
    last (suc q) zero e = absurd (omega arith)
    last (suc q) (suc m) e =
        let s : 0xffffff ≡ m + q * suc m = omega arith in
        rw s (
          add-mul-mod_self_right m q (suc m)
          ∙ mod-eq_of_lt {n = m} {m = suc m} (omega arith)
          ∙ omega arith)

-- A multiple of `2 ^ 24` does not show in a remainder by a smaller power of two.
pub mod-pow_high : (k a b : ℕ) → k ≤ 24 → (a + b * 2 ^ 24) % 2 ^ k ≡ a % 2 ^ k
mod-pow_high k a b h =
    let e : 2 ^ 24 ≡ 2 ^ (24 - k) * 2 ^ k = split_24 k h in
    ap (λ t. (a + t) % 2 ^ k) (ap (λ t. b * t) e ∙ sym (mul_assoc b (2 ^ (24 - k)) (2 ^ k)))
    ∙ add-mul-mod_self_right a (b * 2 ^ (24 - k)) (2 ^ k)
