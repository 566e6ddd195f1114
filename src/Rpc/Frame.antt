-- ===== src/Rpc/Frame.antt =====
-- The frame of a call.
use cpp_sk.Base.{
  ℕ, ◌-◌, ◌/◌, ◌%◌, ◌^◌, ◌<◌, ◌≡◌, refl, ap, ◌∙◌, none, some, ◌∷◌, arith, ltb, if◌then◌else◌,
  length,
}
use cpp_sk.Rpc.{magic_num, RpcHeader, word, from_bytes, read_header, rpc_decode_header}
use cpp_sk.Message.{Bytes}

pub from_bytes-word :
    (n : ℕ)
    → n < 2 ^ 32
    → from_bytes (n % 256) (n / 256 % 256) (n / 65536 % 256) (n / 16777216 % 256) ≡ n
from_bytes-word n h = omega arith

-- The header that `rpc_encode` writes.
abbrev pub header_of : ℕ → Bytes → RpcHeader
header_of id args = record {
  magic = magic_num;
  type = 0;
  reserved = 0;
  funcid = id;
  len = length args;
}

read_header-encode :
    (id : ℕ) (args rest : Bytes)
    → id < 2 ^ 32
    → length args < 2 ^ 32
    → read_header (magic_num ∷ 0 ∷ 0 ∷ 0 ∷ word id (word (length args) rest))
      ≡ some (header_of id args)
unfolding read_header
read_header-encode id args rest h l = rw (from_bytes-word id h, from_bytes-word (length args) l)

decode-read_header :
    (out : Bytes) (h : RpcHeader)
    → read_header out ≡ some h
    → h.magic ≡ magic_num
    → rpc_decode_header out ≡ (if ltb h.len (length out - 12) then none else some h)
unfolding rpc_decode_header
decode-read_header out h e m = ground (arith, e, m)

-- Of a frame, with its sizes below 2^32 and with the arguments replaced by other bytes, the header is read back as long as there are
-- no more bytes than arguments, and refused when there are more. So a frame that is cut after its
-- header is read like a whole one.
pub decode-encode :
    (id : ℕ) (args rest : Bytes)
    → id < 2 ^ 32
    → length args < 2 ^ 32
    → rpc_decode_header (magic_num ∷ 0 ∷ 0 ∷ 0 ∷ word id (word (length args) rest))
      ≡ (if ltb (length args) (length rest) then none else some (header_of id args))
decode-encode id args rest h l =
    let out = magic_num ∷ 0 ∷ 0 ∷ 0 ∷ word id (word (length args) rest) in
    let k : length out - 12 ≡ length rest = omega arith in
    decode-read_header out (header_of id args) (read_header-encode id args rest h l) refl
    ∙ ap (λ n. if ltb (length args) n then none else some (header_of id args)) k
