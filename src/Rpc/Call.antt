-- ===== src/Rpc/Call.antt =====
-- What a caller sees of a call.
use cpp_sk.Base.{
  ℕ, ◌^◌, ◌<◌, ◌≡◌, refl, ap, ◌∙◌, ◌↔◌, inl, inr, false, Option, none, some, arith, ltb,
  if◌then◌else◌, Option-cases, length, drop,
}
use cpp_sk.Rpc.{
  RpcHeader, rpc_encode, rpc_decode_header, put_result, result, has_error, has_value, rpc_call_func,
  on_rpc_call,
}
use cpp_sk.Rpc.Frame.{from_bytes-word, header_of, decode-encode}
use cpp_sk.Message.{Bytes}

put_result-read :
    (status : ℕ) (ret : Bytes)
    → length ret < 2 ^ 32
    → result (put_result status ret) ≡ some (status, length ret)
unfolding result put_result
put_result-read status ret h = rw (from_bytes-word (length ret) h)

decode_whole :
    (id : ℕ) (args : Bytes)
    → id < 2 ^ 32
    → length args < 2 ^ 32
    → rpc_decode_header (rpc_encode id args) ≡ some (header_of id args)
unfolding rpc_encode
decode_whole id args h l =
    let same : ltb (length args) (length args) ≡ false = ground arith in
    decode-encode id args args h l ∙ ap (λ b. if b then none else some (header_of id args)) same

drop_header : (id : ℕ) (args : Bytes) → drop 12 (rpc_encode id args) ≡ args
unfolding rpc_encode
drop_header id args = refl

drop_result : (status : ℕ) (ret : Bytes) → drop 8 (put_result status ret) ≡ ret
unfolding put_result
drop_result status ret = refl

pub answer :
    (router : ℕ → Option (Bytes → Option Bytes)) (run : Bytes → Option Bytes) (id : ℕ)
    (args ret : Bytes)
    → id < 2 ^ 32
    → length args < 2 ^ 32
    → router id ≡ some run
    → run args ≡ some ret
    → on_rpc_call router (rpc_encode id args) ≡ put_result 0 ret
unfolding on_rpc_call rpc_call_func
answer router run id args ret h l known runs =
    let rest : drop 12 (rpc_encode id args) ≡ args = drop_header id args in
    rw (decode_whole id args h l, known, on_rpc_call) (ground (arith, rest, runs))

-- A request for a function that is registered, and that reads its arguments, where the number of the
-- function and both sizes are below 2^32, comes back without an
-- error and with what the function wrote, and has a value exactly when it wrote something.
pub on_rpc_call-encode :
    (router : ℕ → Option (Bytes → Option Bytes)) (run : Bytes → Option Bytes) (id : ℕ)
    (args ret : Bytes)
    → id < 2 ^ 32
    → length args < 2 ^ 32
    → length ret < 2 ^ 32
    → router id ≡ some run
    → run args ≡ some ret
    → (drop 8 (on_rpc_call router (rpc_encode id args)) ≡ ret)
      × (has_error (on_rpc_call router (rpc_encode id args)) ≡ false)
      × (has_value (on_rpc_call router (rpc_encode id args)) ≡ ltb 0 (length ret))
unfolding has_error has_value
on_rpc_call-encode router run id args ret h l r known runs =
    let e = answer router run id args ret h l known runs in
    let seen = put_result-read 0 ret r in
    (rw e (drop_result 0 ret), rw (e, has_error, seen) refl, rw (e, has_value, seen) refl)

-- The call that a text asks for: the header, the function and what it wrote.
pub record Answered (router : ℕ → Option (Bytes → Option Bytes)) (s : Bytes) : Type 0 where
  pub header : RpcHeader
  pub run : Bytes → Option Bytes
  pub ret : Bytes
  pub decoded : rpc_decode_header s ≡ some header
  pub known : router header.funcid ≡ some run
  pub returned : run (drop 12 s) ≡ some ret

-- Whatever bytes arrive, the reply is without an error exactly when they decode, name a registered
-- function, and are arguments that it reads.
pub has_error-on_rpc_call :
    (router : ℕ → Option (Bytes → Option Bytes)) (s : Bytes)
    → (has_error (on_rpc_call router s) ≡ false) ↔ Answered router s
unfolding has_error result on_rpc_call rpc_call_func put_result
has_error-on_rpc_call router s = elim (Option-cases (rpc_decode_header s)) [
  | inl d ↦ (λ e. absurd (ground (arith, d, e)), λ a. absurd (ground (arith, d, a.decoded)))
  | inr (h, d) ↦ elim (Option-cases (router h.funcid)) [
    | inl k ↦ (
      λ e. absurd (ground (arith, d, k, e)),
      λ a. absurd (ground (arith, d, k, a.decoded, a.known)),
    )
    | inr (run, k) ↦ elim (Option-cases (run (drop 12 s))) [
      | inl r ↦ (
        λ e. absurd (ground (arith, d, k, r, e)),
        λ a. absurd (ground (arith, d, k, r, a.decoded, a.known, a.returned)),
      )
      | inr (ret, r) ↦ (
        λ e. record { header = h; run = run; ret = ret; decoded = d; known = k; returned = r },
        λ a. ground (arith, d, k, r),
      )
    ]
  ]
]
