-- ===== src/HandleStorage.antt =====
-- `handle_storage_t` of cpp_sk.h and cpp_sk.cpp. A context is the number of its `shared_ptr`, and
-- `handle_of` reads the field `handle` of a context; a method returns the new storage.
-- `none` is a failed `assert`, a read out of range, or the end of the fuel.
pub mod Slots
pub mod Register
pub mod Grab
pub mod Retire
pub mod Names
mod Tests
use Prim.Native.String.{String}
use text.Mathlib.Text.{◌==◌ as str_eq}
use cpp_sk.Base.{
  ℕ, zero, suc, ◌+◌, ◌-◌, ◌*◌, Bool, true, false, Option, none, some, List, [], ◌∷◌, ◌++◌, bit_and,
  ltb, leb, ◌==◌, if◌then◌else◌, length, get_elem?, set, replicate,
}
use cpp_sk.Handle.{handle_mask, check_range, incr, or_harbor, storage_harbor}

abbrev pub Ptr : Type 0
Ptr = ℕ

-- `name` holds the entries of the `unordered_map` in the order in which it iterates.
pub record HandleStorage : Type 0 where
  pub harbor : ℕ
  pub handle_index : ℕ
  pub slot : List (Option Ptr)
  pub name : List (String × ℕ)

-- The constructor; `slot(4)`.
unfoldable pub new : ℕ → HandleStorage
new harbor = record {
  harbor = storage_harbor harbor;
  handle_index = 1;
  slot = replicate 4 none;
  name = [];
}

-- `init`, with its static flag: only the first call makes the storage.
unfoldable pub init : ℕ → Bool × Option HandleStorage → Bool × Option HandleStorage
unfolding new
init harbor (flag, storage) = if flag then (flag, storage) else (true, some (new harbor))

-- `handle & (slot.size() - 1)`
abbrev pub hash : List (Option Ptr) → ℕ → ℕ
hash slot h = bit_and h (length slot - 1)

-- The inner `for` of `handle_register`, `n` rounds before its end: the first handle from `h` on
-- whose slot is free.
unfoldable pub scan : List (Option Ptr) → ℕ → ℕ → Option ℕ
scan slot zero h = none
scan slot (suc n) h =
    let h' = check_range h in
    elim (get_elem? slot (hash slot h')) [ some none ↦ some h' | _ ↦ scan slot n (incr h') ]

-- `slot.resize(slot.size() * 2)`: the new slots are null, and nothing moves.
unfoldable pub resize : HandleStorage → HandleStorage
resize s = record s { slot = s.slot ++ replicate (length s.slot) none }

-- What the inner loop does at the free slot of `h`. `handle_index = handle + 1` is the `uint32_t`
-- addition, which cannot wrap at a handle in range.
unfoldable pub claim : HandleStorage → Ptr → ℕ → HandleStorage × ℕ
claim s ctx h = (
  record s { slot = set s.slot (hash s.slot h) (some ctx); handle_index = h + 1 },
  or_harbor h s.harbor,
)

-- `handle_register`, with fuel for the outer `for (;;)`.
unfoldable pub handle_register : ℕ → HandleStorage → Ptr → Option (HandleStorage × ℕ)
handle_register zero s ctx = none
handle_register (suc fuel) s ctx = elim (scan s.slot (length s.slot) s.handle_index) [
  | some h ↦ some (claim s ctx h)
  | none ↦ elim (leb (length s.slot * 2 - 1) handle_mask) [
    | true ↦ handle_register fuel (resize s) ctx
    | false ↦ none
  ]
]

-- The outer loop resizes at most once.
abbrev pub register_fuel : ℕ
register_fuel = 2

-- Erase the first entry with the handle, as the loop with `break` does.
unfoldable pub erase_name : ℕ → List (String × ℕ) → List (String × ℕ)
erase_name h [] = []
erase_name h ((k, v) ∷ m) = if v == h then m else (k, v) ∷ erase_name h m

-- A slot holds a context whose `handle` field is `h`.
unfoldable pub holds : (Ptr → ℕ) → ℕ → Option (Option Ptr) → Option Ptr
holds handle_of h (some (some p)) = if handle_of p == h then some p else none
holds handle_of h (some none) = none
holds handle_of h none = none

-- `handle_grab`
unfoldable pub handle_grab : (Ptr → ℕ) → HandleStorage → ℕ → Option Ptr
unfolding holds
handle_grab handle_of s h = holds handle_of h (get_elem? s.slot (hash s.slot h))

-- `handle_retire`
unfoldable pub handle_retire : (Ptr → ℕ) → HandleStorage → ℕ → HandleStorage × Bool
unfolding handle_grab
handle_retire handle_of s h = elim (holds handle_of h (get_elem? s.slot (hash s.slot h))) [
  | some p ↦ (record s { slot = set s.slot (hash s.slot h) none; name = erase_name h s.name }, true)
  | none ↦ (s, false)
]

-- One pass of `handle_retireall` over the slots: the slots after it, and `n`.
unfoldable pub retire_pass : List (Option Ptr) → List (Option Ptr) × ℕ
retire_pass [] = ([], 0)
retire_pass (some p ∷ slots) = let (rest, n) = retire_pass slots in (none ∷ rest, suc n)
retire_pass (none ∷ slots) = let (rest, n) = retire_pass slots in (none ∷ rest, n)

-- `handle_retireall`, with fuel for `for (;;)`.
unfoldable pub handle_retireall : ℕ → HandleStorage → Option HandleStorage
handle_retireall zero s = none
handle_retireall (suc fuel) s =
    let (slots, n) = retire_pass s.slot in
    let next = record s { slot = slots } in
    elim (n == 0) [ true ↦ some next | false ↦ handle_retireall fuel next ]

unfoldable pub lookup_name : String → List (String × ℕ) → Option ℕ
lookup_name k [] = none
lookup_name k ((j, v) ∷ m) = if str_eq j k then some v else lookup_name k m

-- `handle_finename`
unfoldable pub handle_finename : HandleStorage → String → ℕ
unfolding lookup_name
handle_finename s k = elim (lookup_name k s.name) [ some h ↦ h | none ↦ 0 ]

-- `handle_namehandle`, whose `try_emplace` keeps an entry that is there.
unfoldable pub handle_namehandle : HandleStorage → ℕ → String → HandleStorage × Bool
unfolding lookup_name
handle_namehandle s h k = elim (lookup_name k s.name) [
  | some _ ↦ (s, false)
  | none ↦ (record s { name = s.name ++ (k, h) ∷ [] }, true)
]
