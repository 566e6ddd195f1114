-- ===== src/HandleStorage/Register.antt =====
-- `handle_register`: it ends, hands out a fresh handle under which the context is found, and keeps
-- what was registered before if the array did not grow.
use cpp_sk.Base.{
  ℕ, zero, suc, ◌+◌, ◌-◌, ◌*◌, ◌%◌, ◌^◌, ◌≤◌, ◌<◌, ◌≡◌, refl, sym, ap, ◌∙◌, ◌⊎◌, inl, inr, true,
  Option, none, some, ◌∷◌, ◌++◌, append-nil, append_assoc, arith, leb, leb→le, Bool-cases,
  Option-cases, length, get_elem?, replicate, length-append, length-replicate, get_elem?_in,
  get_elem?-append_right, get_elem?-replicate,
}
use native.Mathlib.Decide.{dec_lt, ℕ_discrete}
use native.Mathlib.Nat.{pow-suc}
use cpp_sk.Base.Bits.{pow-pos, ones-mod, suc-mod}
use cpp_sk.HandleStorage.{
  Ptr, HandleStorage, hash, scan, resize, claim, handle_register, register_fuel,
}
use cpp_sk.Handle.{handle_mask, check_range, incr}
use cpp_sk.Handle.Laws.{IsLocal, incr-IsLocal, incr_lt, check_range_local}
use cpp_sk.HandleStorage.Slots.{IsValid, Slots, hash_lem, hash-lt}

check_range-IsLocal : (h : ℕ) → 1 ≤ h → IsLocal (check_range h)
unfolding check_range
check_range-IsLocal h p = ground arith

-- The loop stops only at a free slot, with a handle in range.
pub scan_free :
    (slot : Slots) (n h h' : ℕ)
    → 1 ≤ h
    → scan slot n h ≡ some h'
    → (get_elem? slot (hash slot h') ≡ some none) × IsLocal h'
unfolding scan
scan_free slot zero h h' p e = cc
scan_free slot (suc n) h h' p e =
    let v = check_range-IsLocal h p in
    ground (arith, v, scan_free slot n (incr (check_range h)) h' (incr-IsLocal (check_range h) v).0)

-- Below the upper half the next handle has the next index: the wrap of a handle is elsewhere.
scan_next :
    (slot : Slots) (half k h : ℕ)
    → length slot ≡ 2 ^ k
    → k ≤ 24
    → length slot ≡ half + half
    → IsLocal h
    → h % length slot < half
    → IsLocal (incr h) × (check_range (incr h) % length slot ≡ h % length slot + 1)
scan_next slot half k h e le two v down =
    let top : handle_mask % length slot ≡ length slot - 1 = rw e (ones-mod k le) in
    let below : h < handle_mask = elim (dec_lt h handle_mask) [
      | yes p ↦ p
      | no p ↦
          let eq : h ≡ handle_mask = omega arith in
          absurd (omega (arith, top, ap (λ t. t % length slot) eq, pow-pos k))
    ] in
    let up : check_range (incr h) ≡ h + 1 =
      rw (incr_lt h below) (check_range_local (h + 1) (omega arith)) in
    (incr-IsLocal h v, rw up (suc-mod h (length slot) (omega arith)))

slot_cases : (o : Option Ptr) → (o ≡ none) ⊎ ((p : Ptr) × (o ≡ some p))
slot_cases o = Option-cases o

-- Where the upper half of the array is free, the loop finds a slot.
scan_found :
    (slot : Slots) (half : ℕ) (k n h : ℕ)
    → length slot ≡ 2 ^ k
    → k ≤ 24
    → length slot ≡ half + half
    → ((i : ℕ) → half ≤ i → i < length slot → get_elem? slot i ≡ some none)
    → 1 ≤ h
    → 0 < n
    → half < n + check_range h % length slot
    → (h' : ℕ) × (scan slot n h ≡ some h')
unfolding scan
scan_found slot half k zero h e le two free one pos far = absurd (omega arith)
scan_found slot half k (suc n) h e le two free one pos far =
    let h' = check_range h in
    let v = check_range-IsLocal h one in
    let at = hash_lem slot h' (k, e, le) in
    let filled : 0 < length slot = omega (arith, pow-pos k) in
    elim (dec_lt (h' % length slot) half) [
      | no up ↦
          let e' : get_elem? slot (hash slot h') ≡ some none =
            rw at (free (h' % length slot) (omega arith) (omega arith)) in
          (h', rw (e', scan))
      | yes down ↦
          let here = get_elem?_in slot (hash slot h') (hash-lt slot h' (k, e, le)) in
          let on = scan_next slot half k h' e le two v down in
          let rest =
            scan_found slot half k n (incr h') e le two free (omega arith) (omega (arith, on.1))
              (omega (arith, on.1)) in
          elim (slot_cases here.0) [
            | inl null ↦ (h', rw (here.1, null, scan))
            | inr (p, used) ↦ (rest.0, rw (here.1, used, scan) rest.1)
          ]
    ]

-- The array doubles only while it stays within the handles' 24 bits.
resize-IsValid :
    (s : HandleStorage) → IsValid s → length s.slot * 2 - 1 ≤ handle_mask → IsValid (resize s)
unfolding resize
resize-IsValid s v fits = record {
  bits = suc v.bits;
  size =
      length-append s.slot (replicate (length s.slot) none)
      ∙ omega
          (arith, length-replicate {A = Option Ptr} (length s.slot) none, v.size, pow-suc 2 v.bits);
  bits_le = narrow v.bits v.bits_le (omega (arith, v.size));
  index_pos = v.index_pos;
  index_le = v.index_le;
  node = v.node;
  node_lt = v.node_lt;
  high = v.high;
}
  where
    narrow : (k : ℕ) → k ≤ 24 → 2 ^ k * 2 - 1 ≤ handle_mask → suc k ≤ 24
    narrow k le h = elim (ℕ_discrete k 24) [
      | no ne ↦ omega arith
      | yes e ↦ absurd (omega (arith, ap (λ t. 2 ^ t) e))
    ]

harbor-resize : (s : HandleStorage) → (resize s).harbor ≡ s.harbor
unfolding resize
harbor-resize s = refl

name-resize : (s : HandleStorage) → (resize s).name ≡ s.name
unfolding resize
name-resize s = refl

replicate_add {ℓ} :
    {A : Type ℓ} (m n : ℕ) (a : A) → replicate m a ++ replicate n a ≡ replicate (m + n) a
replicate_add zero n a = ap (λ k. replicate k a) (omega arith)
replicate_add (suc m) n a =
    ap (◌∷◌ a) (replicate_add m n a) ∙ ap (λ k. replicate k a) {x = suc (m + n)} (omega arith)

slot-resize :
    (s : HandleStorage) (n : ℕ)
    → (resize s).slot ++ replicate n none ≡ s.slot ++ replicate (length s.slot + n) none
unfolding resize
slot-resize s n =
    append_assoc s.slot (replicate (length s.slot) none) (replicate n none)
    ∙ ap (◌++◌ s.slot) (replicate_add (length s.slot) n none)

scan-resize :
    (s : HandleStorage)
    → IsValid s
    → length s.slot ≤ 2 ^ 23
    → (h : ℕ) × (scan (resize s).slot (length (resize s).slot) (resize s).handle_index ≡ some h)
unfolding resize
scan-resize s v small =
    let old = length s.slot in
    let wide : length (resize s).slot ≡ old + old =
      length-append s.slot (replicate old none)
      ∙ omega (arith, length-replicate {A = Option Ptr} old none) in
    let w = resize-IsValid s v (omega arith) in
    scan_found (resize s).slot old w.bits (length (resize s).slot) s.handle_index w.size w.bits_le
      wide
      (λ i lo hi.
        get_elem?-append_right s.slot (replicate old none) i lo
        ∙ get_elem?-replicate old none (i - old) (omega (arith, wide)))
      v.index_pos (omega (arith, wide, v.size, pow-pos v.bits))
      (omega (arith, wide, v.size, pow-pos v.bits))

-- What `handle_register` returns: the claim of a free slot, in the storage as it was or grown.
pub record Claims (s : HandleStorage) (p : Ptr) (r : HandleStorage × ℕ) : Type 0 where
  pub storage : HandleStorage
  pub handle : ℕ
  pub extra : ℕ
  pub valid : IsValid storage
  pub free : get_elem? storage.slot (hash storage.slot handle) ≡ some none
  pub range : IsLocal handle
  pub harbor : storage.harbor ≡ s.harbor
  pub name : storage.name ≡ s.name
  pub grown : storage.slot ≡ s.slot ++ replicate extra none
  pub result : r ≡ claim storage p handle

pub register-Claims :
    (n : ℕ) (s : HandleStorage) (p : Ptr) {r : HandleStorage × ℕ}
    → IsValid s
    → handle_register n s p ≡ some r
    → Claims s p r
unfolding handle_register
register-Claims zero s p v e = cc
register-Claims (suc n) s p {r} v e =
    elim (Option-cases (scan s.slot (length s.slot) s.handle_index)) [
      | inr (h, found) ↦
          let (free, range) = scan_free s.slot (length s.slot) s.handle_index h v.index_pos found in
          record {
            storage = s;
            handle = h;
            extra = 0;
            valid = v;
            free = free;
            range = range;
            harbor = refl;
            name = refl;
            grown = sym (append-nil s.slot);
            result = ground arith;
          }
      | inl full ↦ elim (Bool-cases (leb (length s.slot * 2 - 1) handle_mask)) [
        | inr big ↦ absurd (ground arith)
        | inl fits ↦
            let c =
              register-Claims n (resize s) p {r = r} (resize-IsValid s v (leb→le _ _ fits))
                (ground arith) in
            record {
              storage = c.storage;
              handle = c.handle;
              extra = length s.slot + c.extra;
              valid = c.valid;
              free = c.free;
              range = c.range;
              harbor = c.harbor ∙ harbor-resize s;
              name = c.name ∙ name-resize s;
              grown = c.grown ∙ slot-resize s c.extra;
              result = c.result;
            }
      ]
    ]

-- It ends: the outer loop makes at most two rounds, and the array is never too large.
pub register_total :
    (s : HandleStorage) (p : Ptr)
    → IsValid s
    → length s.slot ≤ 2 ^ 23
    → (r : HandleStorage × ℕ) × (handle_register register_fuel s p ≡ some r)
unfolding handle_register
register_total s p v small = elim (Option-cases (scan s.slot (length s.slot) s.handle_index)) [
  | inr (h, found) ↦ (claim s p h, rw (found, handle_register))
  | inl full ↦
      let fits : leb (length s.slot * 2 - 1) handle_mask ≡ true = ground arith in
      let found = scan-resize s v small in (claim (resize s) p found.0, ground (arith, found.1))
]
