-- ===== src/Rpc.antt =====
-- The remote calls of cpp_rpc.h. A text is a list of bytes, and the structs that the code lays over
-- it are little-endian. The serializer and the called function are parameters, as is the hash that
-- makes a function's identifier of its name. A `char` is its 8-bit pattern.
pub mod Frame
pub mod Call
pub mod Exchange
pub mod Typed
mod Tests
use cpp_sk.Base.{
  ℕ, ◌+◌, ◌-◌, ◌*◌, ◌/◌, ◌%◌, ◌^◌, Bool, true, false, not, Option, none, some, List, [], ◌∷◌, ltb,
  ◌==◌, if◌then◌else◌, length, drop,
}
use cpp_sk.World.{World, put, grab, context_push, error, newsession}
use cpp_sk.HandleStorage.{Ptr, handle_finename}
use cpp_sk.Service.{Closure, Service}
use cpp_sk.Base.Maps.{insert}
use Prim.Native.String.{String}
use cpp_sk.Message.{Bytes, SkynetMessage, string}
use cpp_sk.Message.Ptype.{response, reserved_cpp}

abbrev pub magic_num : ℕ
magic_num = 0x25

-- `rpc_header_t`
pub record RpcHeader : Type 0 where
  pub magic : ℕ
  pub type : ℕ
  pub reserved : ℕ
  pub funcid : ℕ
  pub len : ℕ

-- A `uint32_t` in memory, and back.
abbrev pub word : ℕ → Bytes → Bytes
word n rest = n % 256 ∷ n / 256 % 256 ∷ n / 65536 % 256 ∷ n / 16777216 % 256 ∷ rest

abbrev pub from_bytes : ℕ → ℕ → ℕ → ℕ → ℕ
from_bytes a b c d = a + b * 256 + c * 65536 + d * 16777216

-- `rpc_encode`: `args` is what the serializer makes of the arguments.
unfoldable pub rpc_encode : ℕ → Bytes → Bytes
rpc_encode id args = magic_num ∷ 0 ∷ 0 ∷ 0 ∷ word id (word (length args) args)

-- The twelve bytes of the header.
unfoldable pub read_header : Bytes → Option RpcHeader
read_header (m ∷ t ∷ r0 ∷ r1 ∷ f0 ∷ f1 ∷ f2 ∷ f3 ∷ l0 ∷ l1 ∷ l2 ∷ l3 ∷ rest) = some (record {
  magic = m;
  type = t;
  reserved = r0 + r1 * 256;
  funcid = from_bytes f0 f1 f2 f3;
  len = from_bytes l0 l1 l2 l3;
})
read_header _ = none

-- `rpc_decode_header`
unfoldable pub rpc_decode_header : Bytes → Option RpcHeader
unfolding read_header
rpc_decode_header out = elim (read_header out) [
  | none ↦ none
  | some h ↦
      if h.magic == magic_num then (if ltb h.len (length out - 12) then none else some h) else none
]

-- `rpc_result_t` and the bytes after it.
unfoldable pub put_result : ℕ → Bytes → Bytes
put_result status rest = status ∷ 0 ∷ 0 ∷ 0 ∷ word (length rest) rest

-- `rpc_result::result`: the status and the length.
unfoldable pub result : Bytes → Option (ℕ × ℕ)
result (s ∷ r0 ∷ r1 ∷ r2 ∷ l0 ∷ l1 ∷ l2 ∷ l3 ∷ rest) = some (s, from_bytes l0 l1 l2 l3)
result _ = none

unfoldable pub has_error : Bytes → Bool
unfolding result
has_error s = elim (result s) [ none ↦ true | some (status, len) ↦ not (status == 0) ]

unfoldable pub has_value : Bytes → Bool
unfolding result
has_value s = elim (result s) [ none ↦ false | some (status, len) ↦ ltb 0 len ]

-- `rpc_call_func`: `run` reads the arguments, which may fail, calls the function, and writes what it
-- returns, nothing for `void`.
unfoldable pub rpc_call_func : (Bytes → Option Bytes) → Bytes → Bytes
unfolding put_result
rpc_call_func run s = elim (run (drop 12 s)) [
  | none ↦ put_result (2 ^ 8 - 3) []
  | some ret ↦ put_result 0 ret
]

-- `rpc_result::as`: `deserialize` reads a value; `none` is an exception.
unfoldable pub as_value : {R : Type 0} → (Bytes → Option R) → Bytes → Option R
unfolding has_value
as_value deserialize s = if has_value s then deserialize (drop 8 s) else none

-- `cpp_rpc_router`, and `register_rpc_func` for the function whose name hashes to `id`.
abbrev pub Router : Type 0
Router = List (ℕ × (Bytes → Option Bytes))

unfoldable pub register_rpc_func : ℕ → (Bytes → Option Bytes) → Router → Router
register_rpc_func id run router = insert id run router

-- `on_rpc_call`, with the router.
unfoldable pub on_rpc_call : (ℕ → Option (Bytes → Option Bytes)) → Bytes → Bytes
unfolding rpc_decode_header rpc_call_func
on_rpc_call router s = elim (rpc_decode_header s) [
  | none ↦ []
  | some h ↦ elim (router h.funcid) [
    | none ↦ put_result (2 ^ 8 - 2) []
    | some run ↦ rpc_call_func run s
  ]
]

-- `send_request` of the context `self` to a handle: the result, and the session that gets a callback.
unfoldable pub send_request : World → Ptr → ℕ → ℕ → Bytes → Option (World × Option ℕ × Bool)
unfolding rpc_encode
send_request w self handle id args = elim (grab w handle) [
  | none ↦ some (w, none, false)
  | some _ ↦
      let (c, session) = newsession (w.contexts self) in
      elim (context_push (put w self c) handle (record {
        source = c.handle;
        session = session;
        content = string (rpc_encode id args);
        t = reserved_cpp;
      })) [ none ↦ none | some (w', ok) ↦ some (w', some session, ok) ]
]

-- The same for a service, whose closure `cb` waits for the reply.
unfoldable pub request : Service → ℕ → ℕ → Bytes → Closure → Option (Service × Bool)
unfolding send_request
request s handle id args cb = elim (send_request s.world s.self handle id args) [
  | none ↦ none
  | some (w, none, ok) ↦ some (record s { world = w }, ok)
  | some (w, some session, ok) ↦
      some (record s { world = w; response_cbs = insert session cb s.response_cbs }, ok)
]

-- And to a name; an unknown one has the handle 0.
unfoldable pub request_named : Service → String → ℕ → Bytes → Closure → Option (Service × Bool)
unfolding request
request_named s name id args cb = request s (handle_finename s.world.storage name) id args cb

-- `on_rpc_cpp` of the context `self`.
unfoldable pub on_rpc_cpp :
    (ℕ → Option (Bytes → Option Bytes)) → World → Ptr → ℕ → ℕ → Bytes → Option World
unfolding on_rpc_call
on_rpc_cpp router w self session source s =
    elim (context_push w source (record {
      source = (w.contexts self).handle;
      session = session;
      content = string (on_rpc_call router s);
      t = response;
    })) [ none ↦ none | some (w', ok) ↦ some w' ]
