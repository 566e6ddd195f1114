-- ===== src/HandleStorage/Slots.antt =====
-- The slot array of `handle_storage_t`: its size is a power of two, so that the masked hash is a
-- remainder, and the harbor bits of a handle do not show in it.
use cpp_sk.Base.{
  suc, ℕ, ◌+◌, ◌*◌, ◌%◌, ◌^◌, ◌≤◌, ◌<◌, ◌-◌, ◌≡◌, ◌≢◌, ap, sym, ◌∙◌, arith, Option, none, some,
  List, length, set, bit_and, length-set,
}
use cpp_sk.Base.Bits.{bit_and-mask, mod-pow_high, pow-pos}
use cpp_sk.Handle.{handle_mask}
use cpp_sk.HandleStorage.{HandleStorage, Ptr, hash, holds}

-- Between two operations: the array has `2 ^ bits` slots, and `harbor` only high bits.
pub record IsValid (s : HandleStorage) : Type 0 where
  pub bits : ℕ
  pub size : length s.slot ≡ 2 ^ bits
  pub bits_le : bits ≤ 24
  pub index_pos : 1 ≤ s.handle_index
  pub index_le : s.handle_index ≤ suc handle_mask
  pub node : ℕ
  pub node_lt : node < 256
  pub high : s.harbor ≡ node * 2 ^ 24

abbrev pub Slots : Type 0
Slots = List (Option Ptr)

-- A size that the masked hash works with.
abbrev pub IsPow : Slots → Type 0
IsPow slot = (k : ℕ) × (length slot ≡ 2 ^ k) × (k ≤ 24)

pub hash_lem : (slot : Slots) (h : ℕ) → IsPow slot → hash slot h ≡ h % length slot
hash_lem slot h (k, e, le) = rw e (bit_and-mask k h)

pub hash-lt : (slot : Slots) (h : ℕ) → IsPow slot → hash slot h < length slot
hash-lt slot h (k, e, le) = omega (arith, hash_lem slot h (k, e, le), e, pow-pos k)

pub hash-high : (slot : Slots) (h n : ℕ) → IsPow slot → hash slot (h + n * 2 ^ 24) ≡ hash slot h
hash-high slot h n p =
    hash_lem slot (h + n * 2 ^ 24) p ∙ rw p.1 (mod-pow_high p.0 h n p.2) ∙ sym (hash_lem slot h p)

-- The hash reads only the length.
pub hash-set : (slot : Slots) (i : ℕ) (v : Option Ptr) (h : ℕ) → hash (set slot i v) h ≡ hash slot h
hash-set slot i v h = ap (λ n. bit_and h (n - 1)) (length-set slot i v)

module _ (handle_of : Ptr → ℕ) where
  -- What `holds` answers, taken apart.
  pub holds-eq_some :
      (h : ℕ) (o : Option (Option Ptr)) (p : Ptr)
      → holds handle_of h o ≡ some p
      → (o ≡ some (some p)) × (handle_of p ≡ h)
  unfolding holds
  holds-eq_some h none p e = cc
  holds-eq_some h (some none) p e = cc
  holds-eq_some h (some (some q)) p e = ground arith

  pub holds_self : (h : ℕ) (p : Ptr) → handle_of p ≡ h → holds handle_of h (some (some p)) ≡ some p
  unfolding holds
  holds_self h p e = ground arith

  pub holds_other : (h : ℕ) (p : Ptr) → handle_of p ≢ h → holds handle_of h (some (some p)) ≡ none
  unfolding holds
  holds_other h p e = ground arith
