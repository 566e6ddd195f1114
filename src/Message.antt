-- ===== src/Message.antt =====
-- The messages of cpp_sk.h and sk_socket.h: `PTYPE`, `skynet_message`, `string_buf`,
-- `skynet_socket_message`. An `int` is the 32-bit pattern of its two's complement; a string is the
-- list of its bytes.
use cpp_sk.Base.{ℕ, ◌-◌, ◌^◌, Bool, List, [], ◌∷◌, Option, none, some, length, leb, ◌||◌, ◌==◌}

abbrev pub Bytes : Type 0
Bytes = List ℕ

-- -1 as an `int`.
abbrev pub minus_one : ℕ
minus_one = 2 ^ 32 - 1

-- `x <= 0` of an `int`.
abbrev pub is_nonpos : ℕ → Bool
is_nonpos x = x == 0 || leb (2 ^ 31) x

pub data Ptype : Type 0 where
  text : Ptype
  response : Ptype
  multicast : Ptype
  client : Ptype
  system : Ptype
  harbor : Ptype
  socket : Ptype
  error : Ptype
  reserved_queue : Ptype
  reserved_debug : Ptype
  reserved_lua : Ptype
  reserved_snax : Ptype
  reserved_cpp : Ptype
  dontcopy : Ptype
  allocsession : Ptype

-- `skynet_socket_type`; `incoming` is `data`.
pub data SkynetSocketType : Type 0 where
  incoming : SkynetSocketType
  connect : SkynetSocketType
  close : SkynetSocketType
  accept : SkynetSocketType
  error : SkynetSocketType
  udp : SkynetSocketType
  warning : SkynetSocketType

pub record StringBuf : Type 0 where
  pub str : Bytes
  pub str_view : Bytes

abbrev pub empty_buf : StringBuf
empty_buf = record { str = []; str_view = [] }

-- `const_assgin` and `assgin`: each sets one field and leaves the other.
unfoldable pub const_assgin : StringBuf → Bytes → StringBuf
const_assgin b s = record b { str_view = s }

unfoldable pub assgin : StringBuf → Bytes → StringBuf
assgin b s = record b { str = s }

-- What `ptr()` points at, which `size()` measures: `none` is the null pointer.
unfoldable pub ptr : StringBuf → Option Bytes
ptr b = elim b.str [
  | c ∷ s ↦ some (c ∷ s)
  | [] ↦ elim b.str_view [ c ∷ s ↦ some (c ∷ s) | [] ↦ none ]
]

unfoldable pub size : StringBuf → ℕ
size b = elim b.str [
  | c ∷ s ↦ length (c ∷ s)
  | [] ↦ elim b.str_view [ c ∷ s ↦ length (c ∷ s) | [] ↦ 0 ]
]

pub record SkynetSocketMessage : Type 0 where
  pub type : SkynetSocketType
  pub id : ℕ
  pub ud : ℕ
  pub buffer : StringBuf

-- `std::any data`: empty, a `std::string` or a `skynet_socket_message`.
pub data Payload : Type 0 where
  nothing : Payload
  string : Bytes → Payload
  socket_message : SkynetSocketMessage → Payload

pub record SkynetMessage : Type 0 where
  pub source : ℕ
  pub session : ℕ
  pub content : Payload
  pub t : Ptype

-- A value-initialised element of the deque.
abbrev pub blank : SkynetMessage
blank = record { source = 0; session = 0; content = nothing; t = text }

-- `reserved_data`
unfoldable pub reserved_data : SkynetMessage → SkynetMessage
reserved_data m = record m { t = text }
