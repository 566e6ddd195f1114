-- ===== src/SocketServer/Send/Order.antt =====
-- The order of the bytes that a socket sends, and failed writes.
use cpp_sk.Base.{
  ℕ, zero, suc, ◌≤◌, ◌≡◌, refl, sym, ap, ◌∙◌, ◌⊎◌, inl, inr, Bool, true, false, some, List, [], ◌∷◌,
  ◌++◌, append-nil, append_assoc, arith, length, take, drop, take-append-drop,
}
use cpp_sk.Base.Slices.{take_all}
use native.Mathlib.Decide.{dec_lt}
use cpp_sk.World.{World}
use cpp_sk.Socket.{code, SocketSlot, connected}
use cpp_sk.SocketServer.Send.{send_now, enqueue, send_end, send_loop}
use cpp_sk.Message.{Bytes}

-- The bytes of the buffers, first to last.
abbrev pub flatten : List Bytes → Bytes
flatten [] = []
flatten (b ∷ bs) = b ++ flatten bs

-- The bytes that the coroutine of a send brings.
abbrev pub rest_of : ℕ → Bytes → Bytes
rest_of offset buf = flatten (enqueue [] offset buf)

pub flatten-append : (xs ys : List Bytes) → flatten (xs ++ ys) ≡ flatten xs ++ flatten ys
flatten-append [] ys = refl
flatten-append (b ∷ xs) ys =
    ap (λ l. b ++ l) (flatten-append xs ys) ∙ sym (append_assoc b (flatten xs) (flatten ys))

pub flatten-snoc : (xs : List Bytes) (b : Bytes) → flatten (xs ++ b ∷ []) ≡ flatten xs ++ b
flatten-snoc xs b = flatten-append xs (b ∷ []) ∙ ap (λ l. flatten xs ++ l) (append-nil b)

pub List-cases : (xs : List Bytes) → (xs ≡ []) ⊎ ((b : Bytes) × (bs : List Bytes) × (xs ≡ b ∷ bs))
List-cases [] = inl refl
List-cases (b ∷ bs) = inr (b, bs, refl)

-- A direct write happens only where no buffer waits.
pub send_now-waiting :
    (slot : SocketSlot) (id taken offset : ℕ) (b : Bytes) (bs : List Bytes)
    → slot.wlist ≡ b ∷ bs
    → send_now slot id taken ≡ some offset
    → offset ≡ 0
unfolding send_now
send_now-waiting slot id taken offset b bs e h = ground (arith, e, h)

pub send_now-le :
    (slot : SocketSlot) (id taken offset : ℕ)
    → send_now slot id taken ≡ some offset
    → offset ≤ taken
unfolding send_now
send_now-le slot id taken offset h = ground (arith, h)

pub enqueue_part :
    (offset : ℕ) (buf : Bytes)
    → 1 ≤ offset
    → offset ≤ length buf
    → take offset buf ++ flatten (enqueue [] offset buf) ≡ buf
unfolding enqueue
enqueue_part offset buf pos le = elim (dec_lt offset (length buf)) [
  | yes lt ↦
      let e : enqueue [] offset buf ≡ drop offset buf ∷ [] = ground (arith, pos, lt) in
      rw (e, append-nil (drop offset buf)) (take-append-drop offset buf)
  | no ge ↦
      let e : enqueue [] offset buf ≡ [] = ground (arith, pos, ge) in
      rw (e, append-nil (take offset buf)) (take_all offset buf (omega arith))
]

-- What `write_some` took of a buffer, at most all of it, with what the coroutine queues of it, is the buffer after all
-- that waited before, with no byte lost, doubled or moved, where no other send comes in between.
pub enqueue-send_now :
    (slot : SocketSlot) (id taken offset : ℕ) (buf : Bytes)
    → taken ≤ length buf
    → send_now slot id taken ≡ some offset
    → take offset buf ++ flatten (enqueue slot.wlist offset buf) ≡ flatten slot.wlist ++ buf
unfolding enqueue
enqueue-send_now slot id taken zero buf le h = flatten-snoc slot.wlist buf
enqueue-send_now slot id taken (suc offset) buf le h =
    let le' : suc offset ≤ length buf = omega (arith, send_now-le slot id taken (suc offset) h) in
    elim (List-cases slot.wlist) [
      | inl e ↦ rw e (enqueue_part (suc offset) buf (omega arith) le')
      | inr (b, bs, e) ↦
          absurd (omega (arith, send_now-waiting slot id taken (suc offset) b bs e h))
    ]

-- A write of a connected socket, not marked to close, that fails tells nobody: the socket stays
-- connected, with all its buffers, only its lock is given back, and no message is sent.
send_loop_failed :
    (w : World) (slot : SocketSlot) (b : Bytes) (bs : List Bytes) (outcomes : List Bool)
    → slot.wlist ≡ b ∷ bs
    → slot.type ≡ connected
    → slot.close ≡ false
    → send_loop w slot (true ∷ outcomes) ≡ some (w, record slot { locked = false })
unfolding send_loop send_end code
send_loop_failed w slot b bs outcomes e t c = ground (arith, e, t, c)
