-- ===== src/SocketServer/Connection/Wire.antt =====
-- The bytes of a connection: those on the wire, those queued, and those that coroutines bring.
use cpp_sk.Base.{
  ℕ, zero, suc, ◌≤◌, ◌≡◌, refl, sym, ap, subst, ◌∙◌, ◌⊎◌, inl, inr, Bool, true, false, some, List,
  [], ◌∷◌, ◌++◌, arith, append-nil, append_assoc, length, take, drop, Bool-cases, ◌==◌, ltb,
}
use mathlib.Core.List.{Perm, perm_append_comm}
use mathlib.Core.List.Perm
use cpp_sk.Message.{Bytes}
use cpp_sk.Socket.{SocketSlot}
use cpp_sk.SocketServer.Send.{send_now, enqueue}
use cpp_sk.SocketServer.Send.Order.{
  flatten, rest_of, flatten-snoc, enqueue_part, send_now-le, send_now-waiting, List-cases,
}
use cpp_sk.SocketServer.Connection.{Posted, writes, closes, rests, Match}

pub Match-eq : (careful : Bool) (xs ys : Bytes) → xs ≡ ys → Match careful xs ys
Match-eq true xs ys e = e
Match-eq false xs ys e = subst (Perm xs) e (Perm.refl xs)

pub Match-trans :
    (careful : Bool) (xs ys zs : Bytes)
    → Match careful xs ys
    → Match careful ys zs
    → Match careful xs zs
Match-trans true xs ys zs a b = a ∙ b
Match-trans false xs ys zs a b = Perm.trans a b

pub Match-append :
    (careful : Bool) (xs ys zs : Bytes) → Match careful xs ys → Match careful (xs ++ zs) (ys ++ zs)
Match-append true xs ys zs a = ap (λ l. l ++ zs) a
Match-append false xs ys zs a = Perm.append_right zs a

pub rests-append : (ps qs : List Posted) → rests (ps ++ qs) ≡ rests ps ++ rests qs
unfolding rests
rests-append [] qs = refl
rests-append (writes offset buf ∷ ps) qs =
    ap (λ l. rest_of offset buf ++ l) (rests-append ps qs)
    ∙ sym (append_assoc (rest_of offset buf) (rests ps) (rests qs))
rests-append (closes ∷ ps) qs = rests-append ps qs

pub flatten-enqueue :
    (ws : List Bytes) (offset : ℕ) (buf : Bytes)
    → flatten (enqueue ws offset buf) ≡ flatten ws ++ rest_of offset buf
unfolding enqueue
flatten-enqueue ws offset buf = elim (Bool-cases (offset == 0)) [
  | inl z ↦ rw z (flatten-snoc ws buf ∙ ap (λ l. flatten ws ++ l) (sym (append-nil buf)))
  | inr z ↦ elim (Bool-cases (ltb offset (length buf))) [
    | inl l ↦
        rw (z, l)
          (flatten-snoc ws (drop offset buf)
            ∙ ap (λ l. flatten ws ++ l) (sym (append-nil (drop offset buf))))
    | inr l ↦ rw (z, l) (sym (append-nil (flatten ws)))
  ]
]

-- A direct write before bytes that wait.
overtake : (wire rest t r : Bytes) → Perm ((wire ++ t) ++ (rest ++ r)) ((wire ++ rest) ++ (t ++ r))
overtake wire rest t r =
    let moved : Perm (wire ++ ((t ++ rest) ++ r)) (wire ++ ((rest ++ t) ++ r)) =
      Perm.append_left wire (Perm.append_right r (perm_append_comm t rest)) in
    let before : (wire ++ t) ++ (rest ++ r) ≡ wire ++ ((t ++ rest) ++ r) = simp (append_assoc) in
    let after : wire ++ ((rest ++ t) ++ r) ≡ (wire ++ rest) ++ (t ++ r) = simp (append_assoc) in
    rw before (subst (Perm (wire ++ ((t ++ rest) ++ r))) after moved)

beside :
    (careful : Bool) (wire rest t r : Bytes)
    → (careful ≡ true → rest ≡ [])
    → Match careful ((wire ++ t) ++ (rest ++ r)) ((wire ++ rest) ++ (t ++ r))
beside true wire rest t r f = rw (f refl) (simp (append-nil, append_assoc))
beside false wire rest t r f = overtake wire rest t r

-- A send: what is written at once and what its coroutine brings are its buffer, after all else.
pub send-Match :
    (careful : Bool) (slot : SocketSlot) (id taken offset : ℕ) (buf wire rest : Bytes)
    → taken ≤ length buf
    → send_now slot id taken ≡ some offset
    → (careful ≡ true → (offset ≡ 0) ⊎ (rest ≡ []))
    → Match careful
        ((wire ++ take offset buf) ++ (flatten slot.wlist ++ (rest ++ rest_of offset buf)))
        ((wire ++ (flatten slot.wlist ++ rest)) ++ buf)
unfolding enqueue
send-Match careful slot id taken zero buf wire rest le now order =
    Match-eq careful _ _ (simp (append-nil, append_assoc))
send-Match careful slot id taken (suc offset) buf wire rest le now order =
    let le' : suc offset ≤ length buf = omega (arith, send_now-le slot id taken (suc offset) now) in
    let whole : take (suc offset) buf ++ rest_of (suc offset) buf ≡ buf =
      enqueue_part (suc offset) buf (omega arith) le' in
    elim (List-cases slot.wlist) [
      | inr (b, bs, e) ↦
          absurd (omega (arith, send_now-waiting slot id taken (suc offset) b bs e now))
      | inl e ↦ rw e (
          subst
            (λ b.
              Match careful ((wire ++ take (suc offset) buf) ++ (rest ++ rest_of (suc offset) buf))
                ((wire ++ rest) ++ b))
            whole
            (beside careful wire rest (take (suc offset) buf) (rest_of (suc offset) buf)
              (λ yes_. elim (order yes_) [ inl z ↦ absurd (omega arith) | inr f ↦ f ])))
    ]
