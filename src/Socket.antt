-- ===== src/Socket.antt =====
-- The slots of the socket server in sk_socket.h and sk_socket.cpp: `socket_type`, `socket_t` and
-- `server`, with `new_fd` and `get_slot`. A socket of asio is known by its kind alone. An `int` is its
-- 32-bit pattern, and `none` is a failed `assert` or an index out of range.
pub mod Slots
mod Tests
use cpp_sk.Base.{
  ℕ, zero, suc, ◌+◌, ◌-◌, ◌%◌, ◌^◌, Bool, true, false, not, ◌||◌, Option, none, some, List, [], leb,
  ◌==◌, if◌then◌else◌, length, get_elem?, set, take, replicate,
}
use cpp_sk.Message.{Bytes, minus_one}

pub data SocketType : Type 0 where
  invalid : SocketType
  reserve : SocketType
  plisten : SocketType
  listen : SocketType
  connecting : SocketType
  connected : SocketType
  halfclose_read : SocketType
  halfclose_write : SocketType
  paccept : SocketType
  bind : SocketType

-- The value of a constructor.
unfoldable pub code : SocketType → ℕ
code invalid = 0
code reserve = 1
code plisten = 2
code listen = 3
code connecting = 4
code connected = 5
code halfclose_read = 6
code halfclose_write = 7
code paccept = 8
code bind = 9

abbrev pub is_type : SocketType → SocketType → Bool
is_type a b = code a == code b

-- The `std::variant` of a slot.
pub data Sock : Type 0 where
  monostate : Sock
  tcp : Sock
  acceptor : Sock
  udp : Sock

-- `socket_t` without the endpoint `ep`, which the code does not read. `locked` is `wlist_lock`.
pub record SocketSlot : Type 0 where
  pub opaque : ℕ
  pub id : ℕ
  pub sock : Sock
  pub type : SocketType
  pub wlist : List Bytes
  pub locked : Bool
  pub close : Bool

-- A slot as the vector makes it.
abbrev pub fresh_slot : SocketSlot
fresh_slot = record {
  opaque = 0;
  id = minus_one;
  sock = monostate;
  type = invalid;
  wlist = [];
  locked = false;
  close = false;
}

-- `socket_t::clear`, which leaves `type` and the lock.
unfoldable pub clear : SocketSlot → SocketSlot
clear s = record s { wlist = []; opaque = 0; id = minus_one; close = false; sock = monostate }

-- `clear` and `type.store(invalid)`, which always go together.
unfoldable pub give_back : SocketSlot → SocketSlot
unfolding clear
give_back s = record (clear s) { type = invalid }

-- The part that the three checks share.
abbrev pub is_open : SocketSlot → ℕ → Bool
is_open s id = if s.id == id then not s.close else false

unfoldable pub check_pstart : SocketSlot → ℕ → Bool
unfolding code
check_pstart s id =
    if is_open s id
    then is_type s.type paccept || is_type s.type plisten || is_type s.type connected
    else false

unfoldable pub check_can_start : SocketSlot → ℕ → Bool
unfolding code
check_can_start s id =
    if is_open s id
    then is_type s.type connected || is_type s.type halfclose_write || is_type s.type listen
    else false

unfoldable pub check_can_write : SocketSlot → ℕ → Bool
unfolding code
check_can_write s id =
    if is_open s id then is_type s.type connected || is_type s.type halfclose_read else false

pub record Server : Type 0 where
  pub slots : List SocketSlot
  pub alloc : ℕ

-- The constructor.
unfoldable pub new : Server
new = record { slots = replicate 65535 fresh_slot; alloc = 1 }

-- The loop of `new_fd` with `n` rounds left. A failed `compare_exchange_strong` writes the type that
-- it found to `t`.
unfoldable pub find_fd : ℕ → Server → SocketType → Option (Server × ℕ)
unfolding code
find_fd zero s t = none
find_fd (suc n) s t =
    let id = s.alloc in
    let s' = record s { alloc = (id + 1) % 2 ^ 64 } in
    elim (id == 0) [
      | true ↦ find_fd n s' t
      | false ↦ elim (get_elem? s.slots (id % length s.slots)) [
        | none ↦ none
        | some slot ↦ elim (is_type slot.type t) [
          | true ↦ some (
            record s' {
              slots = set s.slots (id % length s.slots) (record slot { type = reserve });
            },
            id % 2 ^ 32,
          )
          | false ↦ find_fd n s' slot.type
        ]
      ]
    ]

-- `new_fd`
unfoldable pub new_fd : Server → Option (Server × ℕ)
unfolding find_fd
new_fd s = find_fd (length s.slots) s invalid

-- The index that `get_slot` takes: the `int` becomes a `size_t`.
unfoldable pub slot_index : Server → ℕ → ℕ
slot_index s id = (if leb (2 ^ 31) id then id + (2 ^ 64 - 2 ^ 32) else id) % length s.slots

-- `get_slot`
unfoldable pub get_slot : Server → ℕ → Option SocketSlot
unfolding slot_index
get_slot s id = get_elem? s.slots (slot_index s id)

-- A write through the reference that `get_slot` gives.
unfoldable pub put_slot : Server → ℕ → SocketSlot → Server
unfolding slot_index
put_slot s id slot = record s { slots = set s.slots (slot_index s id) slot }
