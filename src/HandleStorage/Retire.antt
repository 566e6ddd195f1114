-- ===== src/HandleStorage/Retire.antt =====
-- `handle_retire` and `handle_retireall`.
use cpp_sk.Base.{
  ℕ, zero, suc, ◌≡◌, refl, sym, ◌∙◌, ◌≢◌, ◌↔◌, inl, inr, true, false, Option, none, some, [], ◌∷◌,
  arith, ◌==◌, if◌then◌else◌, Option-cases, length, get_elem?, set, replicate, length-set,
  length-replicate, get_elem?-set_self, get_elem?-set_ne,
}
use native.Mathlib.Decide.{ℕ_discrete}
use cpp_sk.HandleStorage.{
  Ptr, HandleStorage, hash, erase_name, holds, handle_grab, handle_retire, retire_pass,
  handle_retireall,
}
use cpp_sk.HandleStorage.Slots.{
  IsValid, Slots, IsPow, hash-lt, hash-set, holds-eq_some, holds_other,
}

module _ (handle_of : Ptr → ℕ) (s : HandleStorage) (v : IsValid s) where
  pow : IsPow s.slot
  pow = (v.bits, v.size, v.bits_le)

  -- The two ways that `handle_retire` goes, by what `handle_grab` finds.
  retire-grab_none :
      (h : ℕ) → handle_grab handle_of s h ≡ none → handle_retire handle_of s h ≡ (s, false)
  unfolding handle_retire
  retire-grab_none h e = rw (e, handle_retire)

  retire-grab_some :
      (h : ℕ) (p : Ptr)
      → handle_grab handle_of s h ≡ some p
      → handle_retire handle_of s h
        ≡ (record s { slot = set s.slot (hash s.slot h) none; name = erase_name h s.name }, true)
  unfolding handle_retire
  retire-grab_some h p e = rw (e, handle_retire)

  -- `handle_retire` succeeds exactly when `handle_grab` finds the context.
  pub retire_found :
      (h : ℕ)
      → ((handle_retire handle_of s h).1 ≡ true)
        ↔ ((p : Ptr) × (handle_grab handle_of s h ≡ some p))
  retire_found h = elim (Option-cases (handle_grab handle_of s h)) [
    | inl e ↦ (λ t. cc (retire-grab_none h e), λ t. cc (t.1))
    | inr (p, e) ↦ (λ t. (p, e), λ t. rw (retire-grab_some h p e))
  ]

  grab-clear :
      (t : HandleStorage) (h k : ℕ) (p : Ptr)
      → t.slot ≡ set s.slot (hash s.slot h) none
      → handle_grab handle_of s h ≡ some p
      → k ≢ h
      → handle_grab handle_of t k ≡ handle_grab handle_of s k
  unfolding handle_grab
  grab-clear t h k p e found ne =
      let (at, same) = holds-eq_some handle_of h (get_elem? s.slot (hash s.slot h)) p found in
      rw (e, hash-set s.slot (hash s.slot h) none k)
        (elim (ℕ_discrete (hash s.slot h) (hash s.slot k)) [
          | no other ↦ rw (get_elem?-set_ne s.slot none other)
          | yes eq ↦
              rw (← eq, get_elem?-set_self s.slot (hash s.slot h) none (hash-lt s.slot h pow), at)
                (rw (holds_other handle_of k p (λ f. ne (sym f ∙ same)), holds) refl)
        ])

  grab-clear_self :
      (t : HandleStorage) (h : ℕ)
      → t.slot ≡ set s.slot (hash s.slot h) none
      → handle_grab handle_of t h ≡ none
  unfolding handle_grab holds
  grab-clear_self t h e = rw (
    e,
    hash-set s.slot (hash s.slot h) none h,
    get_elem?-set_self s.slot (hash s.slot h) none (hash-lt s.slot h pow),
  )

  -- After `handle_retire h`, `h` finds nothing, and every other handle what it found before; this
  -- holds whether it succeeds or not.
  pub grab-retire :
      (h k : ℕ)
      → handle_grab handle_of (handle_retire handle_of s h).0 k
        ≡ (if k == h then none else handle_grab handle_of s k)
  grab-retire h k = elim (Option-cases (handle_grab handle_of s h)) [
    | inl e ↦
        rw (retire-grab_none h e)
          (elim (ℕ_discrete k h) [ yes eq ↦ ground (arith, eq, e) | no ne ↦ ground (arith, ne) ])
    | inr (p, e) ↦
        let t = record s { slot = set s.slot (hash s.slot h) none; name = erase_name h s.name } in
        rw (retire-grab_some h p e) (elim (ℕ_discrete k h) [
          | yes eq ↦ rw eq (grab-clear_self t h refl ∙ ground arith)
          | no ne ↦ grab-clear t h k p refl e ne ∙ ground (arith, ne)
        ])
  ]

  -- Retiring keeps the storage in order.
  pub retire-IsValid : (h : ℕ) → IsValid (handle_retire handle_of s h).0
  retire-IsValid h = elim (Option-cases (handle_grab handle_of s h)) [
    | inl e ↦ rw (retire-grab_none h e) v
    | inr (p, e) ↦ rw (retire-grab_some h p e) (record {
      bits = v.bits;
      size = length-set s.slot (hash s.slot h) none ∙ v.size;
      bits_le = v.bits_le;
      index_pos = v.index_pos;
      index_le = v.index_le;
      node = v.node;
      node_lt = v.node_lt;
      high = v.high;
    })
  ]

-- The contexts in an array.
pub count_used : Slots → ℕ
count_used [] = 0
count_used (some p ∷ slots) = suc (count_used slots)
count_used (none ∷ slots) = count_used slots

retire_pass_lem :
    (slots : Slots) → retire_pass slots ≡ (replicate (length slots) none, count_used slots)
unfolding retire_pass count_used
retire_pass_lem [] = refl
retire_pass_lem (some p ∷ slots) = rw (retire_pass_lem slots)
retire_pass_lem (none ∷ slots) = rw (retire_pass_lem slots)

count_used-replicate : (n : ℕ) → count_used (replicate n none) ≡ 0
unfolding count_used
count_used-replicate zero = refl
count_used-replicate (suc n) = count_used-replicate n

-- Two passes of `handle_retireall` are enough: they leave as many slots as before, all null, and
-- nothing else changed (the names stay).
pub retireall_lem :
    (s : HandleStorage) (n : ℕ)
    → handle_retireall (suc (suc n)) s ≡ some (record s { slot = replicate (length s.slot) none })
unfolding handle_retireall
retireall_lem s n =
    let l = length s.slot in
    ground (
      arith,
      retire_pass_lem s.slot,
      retire_pass_lem (replicate l none),
      length-replicate {A = Option Ptr} l none,
      count_used-replicate l,
    )
