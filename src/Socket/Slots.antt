-- ===== src/Socket/Slots.antt =====
-- What `new_fd` takes.
-- The server after `alloc` moved on.
use cpp_sk.Base.{
  ℕ, suc, ◌+◌, ◌-◌, ◌%◌, ◌^◌, ◌≤◌, ◌<◌, ◌≡◌, sym, ap, subst, ◌∙◌, ◌≢◌, true, false, some, List,
  arith, leb, ==_refl, length, get_elem?, set, length-set, get_elem?-set_self, get_elem?-set_ne,
  get_elem?_out,
}
use native.Mathlib.Decide.{dec_lt}
use cpp_sk.Socket.{
  SocketType, code, is_type, SocketSlot, Server, find_fd, new_fd, slot_index, get_slot, put_slot,
  invalid, reserve,
}

abbrev skip : Server → Server
skip s = record s { alloc = (s.alloc + 1) % 2 ^ 64 }

-- The server after the next slot was taken.
abbrev taken : Server → SocketSlot → Server
taken s slot = record (skip s) {
  slots = set s.slots (s.alloc % length s.slots) (record slot { type = reserve });
}

find_fd_take :
    (n : ℕ) (s : Server) (t : SocketType) (slot : SocketSlot)
    → s.alloc ≢ 0
    → get_elem? s.slots (s.alloc % length s.slots) ≡ some slot
    → is_type slot.type t ≡ true
    → find_fd (suc n) s t ≡ some (taken s slot, s.alloc % 2 ^ 32)
unfolding find_fd
find_fd_take n s t slot nz at same = ground (arith, nz, at, same)

find_fd-skip :
    (n : ℕ) (s : Server) (t : SocketType) (slot : SocketSlot)
    → s.alloc ≢ 0
    → get_elem? s.slots (s.alloc % length s.slots) ≡ some slot
    → is_type slot.type t ≡ false
    → find_fd (suc n) s t ≡ find_fd n (skip s) slot.type
unfolding find_fd
find_fd-skip n s t slot nz at other = ground (arith, nz, at, other)

in_range : {A : Type 0} (xs : List A) (i : ℕ) (x : A) → get_elem? xs i ≡ some x → i < length xs
in_range xs i x e = elim (dec_lt i (length xs)) [
  | yes h ↦ h
  | no n ↦ absurd (ground (arith, e, get_elem?_out xs i (omega arith)))
]

-- The identifier of the taken slot leads to it.
get_slot-taken :
    (s : Server) (slot : SocketSlot)
    → s.alloc < 2 ^ 31
    → get_elem? s.slots (s.alloc % length s.slots) ≡ some slot
    → get_slot (taken s slot) s.alloc ≡ some (record slot { type = reserve })
unfolding get_slot slot_index
get_slot-taken s slot small at =
    let k = s.alloc % length s.slots in
    let len = length-set s.slots k (record slot { type = reserve }) in
    let small' : leb (2 ^ 31) s.alloc ≡ false = ground (arith, small) in
    rw (small', len)
      (get_elem?-set_self s.slots k (record slot { type = reserve }) (in_range s.slots k slot at))

-- Where the next slot is free, and before the identifiers reach 2^31, `new_fd` takes it: the slot is reserved, no other changes, and the
-- identifier leads `get_slot` to it.

pub new_fd_free :
    (s : Server) (slot : SocketSlot)
    → 1 ≤ s.alloc
    → s.alloc < 2 ^ 31
    → get_elem? s.slots (s.alloc % length s.slots) ≡ some slot
    → slot.type ≡ invalid
    → (s' : Server) × (new_fd s ≡ some (s', s.alloc))
      × (get_slot s' s.alloc ≡ some (record slot { type = reserve }))
      × ((i : ℕ) → i ≢ s.alloc % length s.slots → get_elem? s'.slots i ≡ get_elem? s.slots i)
      × (s'.alloc ≡ s.alloc + 1)
unfolding new_fd find_fd get_slot slot_index code
new_fd_free s slot pos small at free =
    let k = s.alloc % length s.slots in
    let inside = in_range s.slots k slot at in
    let count : length s.slots ≡ suc (length s.slots - 1) = omega arith in
    let whole : s.alloc % 2 ^ 32 ≡ s.alloc = omega arith in
    let found =
      find_fd_take (length s.slots - 1) s invalid slot (λ e. omega arith) at
        (ground (arith, free)) in
    (
      taken s slot,
      ap (λ n. find_fd n s invalid) count ∙ found ∙ ap (λ id. some (taken s slot, id)) whole,
      get_slot-taken s slot small at,
      λ i n. get_elem?-set_ne s.slots (record slot { type = reserve }) (λ e. n (sym e)),
      omega arith,
    )

-- Of two slots or more, where the next one is in use and the one after it has the same type, and
-- before the identifiers reach 2^31, `new_fd` takes that second slot away from its socket.
pub new_fd_steals :
    (s : Server) (first second : SocketSlot)
    → 1 ≤ s.alloc
    → s.alloc < 2 ^ 31 - 1
    → get_elem? s.slots (s.alloc % length s.slots) ≡ some first
    → get_elem? s.slots ((s.alloc + 1) % length s.slots) ≡ some second
    → first.type ≢ invalid
    → second.type ≡ first.type
    → 2 ≤ length s.slots
    → (s' : Server) × (new_fd s ≡ some (s', s.alloc + 1))
      × (get_slot s' (s.alloc + 1) ≡ some (record second { type = reserve }))
unfolding new_fd find_fd get_slot slot_index code
new_fd_steals s first second pos small at next used same two =
    let count : length s.slots ≡ suc (suc (length s.slots - 2)) = omega arith in
    let move : (s.alloc + 1) % 2 ^ 64 ≡ s.alloc + 1 = omega arith in
    let whole : (skip s).alloc % 2 ^ 32 ≡ s.alloc + 1 = omega arith in
    let at' : get_elem? s.slots ((skip s).alloc % length s.slots) ≡ some second = rw move next in
    let passed =
      find_fd-skip (suc (length s.slots - 2)) s invalid first (λ e. omega arith) at
        (ground (arith, used)) in
    let found =
      find_fd_take (length s.slots - 2) (skip s) first.type second (λ e. omega arith) at'
        (rw same (==_refl (code first.type))) in
    (
      taken (skip s) second,
      ap (λ n. find_fd n s invalid) count
          ∙ passed
          ∙ found
          ∙ ap (λ id. some (taken (skip s) second, id)) whole,
      subst (λ id. get_slot (taken (skip s) second) id ≡ some (record second { type = reserve }))
          move (get_slot-taken (skip s) second (omega arith) at'),
    )

-- A slot that is written through its reference is read back, and no other slot changes.
pub get_slot-put_slot :
    (s : Server) (id : ℕ) (old slot : SocketSlot)
    → get_slot s id ≡ some old
    → get_slot (put_slot s id slot) id ≡ some slot
unfolding get_slot put_slot slot_index
get_slot-put_slot s id old slot at =
    let k = slot_index s id in
    rw (length-set s.slots k slot) (get_elem?-set_self s.slots k slot (in_range s.slots k old at))
