-- ===== src/Rpc/Typed.antt =====
-- A call of a registered function, with values in place of bytes.
use cpp_sk.Base.{
  ℕ, ◌^◌, ◌≤◌, ◌<◌, ◌≡◌, ◌∙◌, false, true, Option, none, some, arith, ltb, length, drop,
}
use cpp_sk.Base.Maps.{find, find-insert}
use cpp_sk.Rpc.{rpc_encode, has_error, has_value, on_rpc_call, as_value, Router, register_rpc_func}
use cpp_sk.Rpc.Call.{on_rpc_call-encode}
use cpp_sk.Message.{Bytes}

-- The function of a router.
abbrev pub routed : Router → ℕ → Option (Bytes → Option Bytes)
routed router id = find id router

-- What `rpc_call_func` runs for the function `f`, between the serializer's two halves.
abbrev pub wrapped :
    {A R : Type 0} → (Bytes → Option A) → (R → Bytes) → (A → R) → Bytes → Option Bytes
wrapped read write f bytes = elim (read bytes) [ none ↦ none | some a ↦ some (write (f a)) ]

registered_here :
    (id : ℕ) (run : Bytes → Option Bytes) (router : Router)
    → routed (register_rpc_func id run router) id ≡ some run
unfolding register_rpc_func
registered_here id run router = ground (arith, find-insert id id run router)

read_value :
    {R : Type 0} (read : Bytes → Option R) (s rest : Bytes) (r : R)
    → has_value s ≡ true
    → drop 8 s ≡ rest
    → read rest ≡ some r
    → as_value read s ≡ some r
unfolding as_value
read_value read s rest r has e back = rw (has, e, as_value) back

module _ {A R : Type 0} (write_args : A → Bytes) (read_args : Bytes → Option A) (write : R → Bytes)
    (read : Bytes → Option R) (args_back : (a : A) → read_args (write_args a) ≡ some a)
    (value_back : (r : R) → read (write r) ≡ some r) where
  -- Where the serializer reads back what it wrote, and writes at least one byte of a result: a request
  -- for a function that was registered last, with arguments and a result of less than 2^32 bytes, comes
  -- back without an error and, read as the function's type, with the function's value.
  pub call_value :
      (f : A → R) (a : A) (id : ℕ) (router : Router)
      → id < 2 ^ 32
      → length (write_args a) < 2 ^ 32
      → length (write (f a)) < 2 ^ 32
      → 1 ≤ length (write (f a))
      → (has_error (
            on_rpc_call
              (routed (register_rpc_func id (wrapped read_args write f) router))
              (rpc_encode id (write_args a)))
          ≡ false)
        × (as_value read (
              on_rpc_call
                (routed (register_rpc_func id (wrapped read_args write f) router))
                (rpc_encode id (write_args a)))
            ≡ some (f a))
  call_value f a id router small args_small ret_small some_ret =
      let run = wrapped read_args write f in
      let known = registered_here id run router in
      let runs : run (write_args a) ≡ some (write (f a)) = ground (arith, args_back a) in
      let (bytes, error, value) =
        on_rpc_call-encode (routed (register_rpc_func id run router)) run id (write_args a)
          (write (f a)) small args_small ret_small known runs in
      let some_value : ltb 0 (length (write (f a))) ≡ true = ground (arith, some_ret) in
      (
        error,
        read_value read
            (on_rpc_call (routed (register_rpc_func id run router)) (rpc_encode id (write_args a)))
            (write (f a)) (f a) (value ∙ some_value) bytes (value_back (f a)),
      )
