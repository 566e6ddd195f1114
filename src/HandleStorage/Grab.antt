-- ===== src/HandleStorage/Grab.antt =====
-- `handle_register` against `handle_grab`: what a client may rely on after a registration.
use cpp_sk.Base.{
  ℕ, zero, suc, ◌+◌, ◌-◌, ◌*◌, ◌/◌, ◌%◌, ◌≤◌, ◌<◌, bit_or, ◌≡◌, sym, ap, ◌∙◌, ◌≢◌, Option, none,
  some, ◌++◌, append-nil, arith, length, get_elem?, replicate, length-append, length-set,
  length-replicate, get_elem?-set_self, get_elem?-set_ne, get_elem?-append_right,
  get_elem?-replicate,
}
use native.Mathlib.Decide.{ℕ_discrete}
use native.Mathlib.Nat.{mod-eq_of_lt}
use cpp_sk.Base.Bits.{bit_or-high}
use cpp_sk.HandleStorage.{Ptr, HandleStorage, hash, claim, handle_register, holds, handle_grab}
use cpp_sk.Handle.{or_harbor}
use cpp_sk.Handle.Laws.{IsLocal}
use cpp_sk.HandleStorage.Slots.{
  IsValid, IsPow, hash_lem, hash-lt, hash-high, hash-set, holds-eq_some, holds_self, holds_other,
}
use cpp_sk.HandleStorage.Register.{Claims, register-Claims}
use native.Mathlib.Nat.{div-add-mod, mod-lt, add-mul-mod_self_right, zero-div, div-zero}

-- The handle of a claim reads back the slot that it took.
hash-claim :
    (t : HandleStorage) (h : ℕ)
    → IsValid t
    → IsLocal h
    → hash t.slot (or_harbor h t.harbor) ≡ hash t.slot h
unfolding or_harbor
hash-claim t h v range =
    ap (hash t.slot) (ap (bit_or h) v.high ∙ bit_or-high 24 h v.node (omega arith))
    ∙ hash-high t.slot h v.node (v.bits, v.size, v.bits_le)

handle-claim :
    (t : HandleStorage) (p : Ptr) (h : ℕ)
    → IsValid t
    → IsLocal h
    → hash t.slot (claim t p h).1 ≡ hash t.slot h
unfolding claim
handle-claim t p h v range = hash-claim t h v range

length-claim : (t : HandleStorage) (p : Ptr) (h : ℕ) → length (claim t p h).0.slot ≡ length t.slot
unfolding claim
length-claim t p h = length-set t.slot (hash t.slot h) (some p)

regroup : (k m q r p : ℕ) → k ≡ m * q + r → q ≡ 2 * p + 1 → k ≡ (m + r) + p * (m + m)
regroup k m q r p e f = omega (arith, ap (λ t. m * t) f)

upper_half : (k n : ℕ) → k / n % 2 ≡ 1 → n ≤ k % (n + n)
upper_half zero n h = absurd (omega (arith, zero-div n))
upper_half (suc k) zero h = absurd (omega (arith, div-zero (suc k)))
upper_half (suc k) (suc n) h =
    let m = suc n in
    let split : suc k ≡ (m + suc k % m) + suc k / m / 2 * (m + m) =
      regroup (suc k) m (suc k / m) (suc k % m) (suc k / m / 2) (sym (div-add-mod (suc k) m))
        (omega (arith, h)) in
    let low : (m + suc k % m) % (m + m) ≡ m + suc k % m =
      mod-eq_of_lt (omega (arith, mod-lt (suc k) {m = m} (omega arith))) in
    let e : suc k % (m + m) ≡ m + suc k % m =
      ap (λ t. t % (m + m)) split
      ∙ add-mul-mod_self_right (m + suc k % m) (suc k / m / 2) (m + m)
      ∙ low in
    omega (arith, e)

module _ (handle_of : Ptr → ℕ) where
  -- Grabbing the handle that a claim returns.
  grab-claim :
      (t : HandleStorage) (p : Ptr) (h : ℕ)
      → IsValid t
      → IsLocal h
      → handle_of p ≡ (claim t p h).1
      → handle_grab handle_of (claim t p h).0 (claim t p h).1 ≡ some p
  unfolding handle_grab claim
  grab-claim t p h v range e =
      let pow : IsPow t.slot = (v.bits, v.size, v.bits_le) in
      let i = hash t.slot h in
      rw
        (
          hash-set t.slot i (some p) (or_harbor h t.harbor),
          hash-claim t h v range,
          get_elem?-set_self t.slot i (some p) (hash-lt t.slot h pow),
        )
        (holds_self handle_of (or_harbor h t.harbor) p e)

  -- The handle that `handle_register` returns finds the context, once the caller has stored it in
  -- the context's field `handle`; this holds on every path, also where the array grew.
  pub grab-register :
      (n : ℕ) (s : HandleStorage) (p : Ptr) {r : HandleStorage × ℕ}
      → IsValid s
      → handle_register n s p ≡ some r
      → handle_of p ≡ r.1
      → handle_grab handle_of r.0 r.1 ≡ some p
  grab-register n s p {r} v e same =
      let c = register-Claims n s p {r = r} v e in
      rw c.result (
        grab-claim c.storage p c.handle c.valid c.range
          (same ∙ ap (λ (x : HandleStorage × ℕ). x.1) c.result))

  -- Where the slot of a handle is free, nothing is grabbed under the handle.
  grab_free :
      (t : HandleStorage) (h : ℕ)
      → get_elem? t.slot (hash t.slot h) ≡ some none
      → handle_grab handle_of t h ≡ none
  unfolding handle_grab holds
  grab_free t h e = rw e

  -- Another context stays where it is under a claim.
  grab-claim_other :
      (t : HandleStorage) (p q : Ptr) (h k : ℕ)
      → get_elem? t.slot (hash t.slot h) ≡ some none
      → handle_grab handle_of t k ≡ some q
      → handle_grab handle_of (claim t p h).0 k ≡ some q
  unfolding handle_grab claim
  grab-claim_other t p q h k free e =
      let (at, same) = holds-eq_some handle_of k (get_elem? t.slot (hash t.slot k)) q e in
      let ne : hash t.slot h ≢ hash t.slot k = λ eq. cc (ap (get_elem? t.slot) eq) in
      rw (hash-set t.slot (hash t.slot h) (some p) k, get_elem?-set_ne t.slot (some p) ne, at)
        (holds_self handle_of k q same)

  -- Only the slots matter.
  grab_congr :
      (s t : HandleStorage) (k : ℕ)
      → s.slot ≡ t.slot
      → handle_grab handle_of s k ≡ handle_grab handle_of t k
  unfolding handle_grab
  grab_congr s t k e = ap (λ slots. holds handle_of k (get_elem? slots (hash slots k))) e

  -- A claim leaves a free slot free, or puts a context there that has another handle.
  grab-claim-none :
      (t : HandleStorage) (p : Ptr) (h k : ℕ)
      → hash t.slot k < length t.slot
      → get_elem? t.slot (hash t.slot k) ≡ some none
      → handle_of p ≢ k
      → handle_grab handle_of (claim t p h).0 k ≡ none
  unfolding handle_grab claim
  grab-claim-none t p h k inside e ne = elim (ℕ_discrete (hash t.slot h) (hash t.slot k)) [
    | yes eq ↦
        rw
          (
            hash-set t.slot (hash t.slot h) (some p) k,
            eq,
            get_elem?-set_self t.slot (hash t.slot k) (some p) inside,
          )
          (holds_other handle_of k p ne)
    | no ne' ↦
        rw (
          hash-set t.slot (hash t.slot h) (some p) k,
          get_elem?-set_ne t.slot (some p) ne',
          e,
          holds,
        )
  ]

  module _ (n : ℕ) (s : HandleStorage) (p : Ptr) {r : HandleStorage × ℕ} (v : IsValid s)
      (run : handle_register n s p ≡ some r) where
    claims : Claims s p r
    claims = register-Claims n s p {r = r} v run

    -- The array of the result is as long as the one that the claim found.
    length-result : length r.0.slot ≡ length s.slot + claims.extra
    length-result =
        let c = claims in
        ap (λ (x : HandleStorage × ℕ). length x.0.slot) c.result
        ∙ length-claim c.storage p c.handle
        ∙ ap length c.grown
        ∙ length-append s.slot (replicate c.extra none)
        ∙ ap (λ t. length s.slot + t) (length-replicate {A = Option Ptr} c.extra none)

    same_slots : length r.0.slot ≡ length s.slot → s.slot ≡ claims.storage.slot
    same_slots len =
        let c = claims in
        let e : c.extra ≡ 0 = omega (arith, length-result) in
        sym (c.grown ∙ ap (λ k. s.slot ++ replicate k none) e ∙ append-nil s.slot)

    -- Where the array did not grow, the new handle was free before, and what was found under a
    -- handle is still found.
    pub grab-register_keeps :
        length r.0.slot ≡ length s.slot
        → (handle_grab handle_of s r.1 ≡ none)
          × ((k : ℕ) (q : Ptr)
              → handle_grab handle_of s k ≡ some q
              → handle_grab handle_of r.0 k ≡ some q)
    grab-register_keeps len =
        let c = claims in
        (
          grab_congr s c.storage r.1 (same_slots len)
              ∙ grab_free c.storage r.1 (
                  rw (ap (λ (x : HandleStorage × ℕ). x.1) c.result) (
                    ap (get_elem? c.storage.slot)
                      (handle-claim c.storage p c.handle c.valid c.range)
                    ∙ c.free)),
          λ k q e.
              ap (λ (x : HandleStorage × ℕ). handle_grab handle_of x.0 k) c.result
              ∙ grab-claim_other c.storage p q c.handle k c.free
                  (sym (grab_congr s c.storage k (same_slots len)) ∙ e),
        )

    -- Where the array doubled, a context is lost if the bit of its handle that the larger mask
    -- adds is set: it stands at its old index, and is looked for at another.
    pub grab-register_loses :
        (k : ℕ) (q : Ptr)
        → length r.0.slot ≡ length s.slot + length s.slot
        → handle_grab handle_of s k ≡ some q
        → k / length s.slot % 2 ≡ 1
        → handle_of p ≢ k
        → handle_grab handle_of r.0 k ≡ none
    grab-register_loses k q len found bit ne =
        let c = claims in
        let w = c.valid in
        let t = c.storage in
        let wide : length t.slot ≡ length s.slot + length s.slot =
          sym (length-claim t p c.handle)
          ∙ sym (ap (λ (x : HandleStorage × ℕ). length x.0.slot) c.result)
          ∙ len in
        let extra : c.extra ≡ length s.slot = omega (arith, length-result) in
        let pow : IsPow t.slot = (w.bits, w.size, w.bits_le) in
        let at : hash t.slot k ≡ k % (length s.slot + length s.slot) =
          hash_lem t.slot k pow ∙ ap (λ m. k % m) wide in
        let upper : length s.slot ≤ hash t.slot k = rw at (upper_half k (length s.slot) bit) in
        ap (λ (x : HandleStorage × ℕ). handle_grab handle_of x.0 k) c.result
        ∙ grab-claim-none t p c.handle k (hash-lt t.slot k pow)
            (ap (λ sl. get_elem? sl (hash t.slot k)) c.grown
              ∙ get_elem?-append_right s.slot (replicate c.extra none) (hash t.slot k) upper
              ∙ get_elem?-replicate c.extra none (hash t.slot k - length s.slot)
                  (omega (arith, hash-lt t.slot k pow)))
            ne
