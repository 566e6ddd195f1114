-- ===== src/MessageQueue/Contents.antt =====
-- The messages that a `message_queue` holds, oldest first, and its invariant.
use cpp_sk.Base.{
  ℕ, suc, ◌+◌, ◌-◌, ◌≤◌, ◌<◌, ◌≡◌, sym, ap, ◌∙◌, ◌≢◌, inl, inr, some, List, [], ◌∷◌, ◌++◌,
  append-nil, append_assoc, arith, leb, if◌then◌else◌, Bool-cases, length, get_elem?, set, take,
  drop, length-append,
}
use cpp_sk.Base.Slices.{
  drop-set_lt, take-set-suc, drop-set_le, length-drop, length-take, drop_cons, drop_all, set_last,
}
use native.Mathlib.Decide.{dec_lt}
use cpp_sk.Message.{SkynetMessage}
use cpp_sk.MessageQueue.{MessageQueue, mq_length, wrap}

pub record IsValid (q : MessageQueue) : Type 0 where
  pub head_in : q.head < length q.queue
  pub tail_in : q.tail < length q.queue
  pub threshold : 1 ≤ q.overload_threshold

-- From `head` up to `tail`, round the end of the deque.
unfoldable pub ring : ℕ → ℕ → List SkynetMessage → List SkynetMessage
ring head tail xs =
    if leb head tail then take (tail - head) (drop head xs) else drop head xs ++ take tail xs

unfoldable pub contents : MessageQueue → List SkynetMessage
contents q = ring q.head q.tail q.queue

pub length-ring :
    (head tail : ℕ) (xs : List SkynetMessage)
    → head < length xs
    → tail < length xs
    → length (ring head tail xs) ≡ (if leb head tail then tail - head else tail + length xs - head)
unfolding ring
length-ring head tail xs h t = elim (Bool-cases (leb head tail)) [
  | inl le ↦
      rw (le, length-take (tail - head) (drop head xs) (ground (arith, le, length-drop head xs)))
  | inr gt ↦
      rw
        (
          gt,
          length-append (drop head xs) (take tail xs),
          length-drop head xs,
          length-take tail xs (omega arith),
        )
        (omega arith)
]

-- `length` counts the messages.
pub length-contents : (q : MessageQueue) → IsValid q → length (contents q) ≡ mq_length q
unfolding contents mq_length
length-contents q v = length-ring q.head q.tail q.queue v.head_in v.tail_in

ring_le :
    (head tail : ℕ) (xs : List SkynetMessage)
    → head ≤ tail
    → ring head tail xs ≡ take (tail - head) (drop head xs)
unfolding ring
ring_le head tail xs h = ground (arith, h)

ring_gt :
    (head tail : ℕ) (xs : List SkynetMessage)
    → tail < head
    → ring head tail xs ≡ drop head xs ++ take tail xs
unfolding ring
ring_gt head tail xs h = ground (arith, h)

pub ring_zero : (tail : ℕ) (xs : List SkynetMessage) → ring 0 tail xs ≡ take tail xs
ring_zero tail xs = ring_le 0 tail xs (omega arith) ∙ ap (λ k. take k xs) (omega arith)

pub wrap_lt : (i cap : ℕ) → i + 1 < cap → wrap (i + 1) cap ≡ suc i
unfolding wrap
wrap_lt i cap h = ground (arith, h)

pub wrap_ge : (i cap : ℕ) → cap ≤ i + 1 → wrap (i + 1) cap ≡ 0
unfolding wrap
wrap_ge i cap h = ground (arith, h)

-- Taking the oldest message.
pub ring_cons :
    (head tail : ℕ) (xs : List SkynetMessage)
    → head < length xs
    → tail < length xs
    → head ≢ tail
    → (m : SkynetMessage) × (get_elem? xs head ≡ some m)
      × (ring head tail xs ≡ m ∷ ring (wrap (head + 1) (length xs)) tail xs)
ring_cons head tail xs h t ne =
    let (m, at, split) = drop_cons head xs h in
    (
      m,
      at,
      elim (dec_lt head tail) [
        | yes lt ↦
            let e : tail - head ≡ suc (tail - suc head) = omega arith in
            rw (
              wrap_lt head (length xs) (omega arith),
              ring_le head tail xs (omega arith),
              ring_le (suc head) tail xs lt,
              split,
              e,
            )
        | no ge ↦
            ring_gt head tail xs (omega arith)
            ∙ ap (λ ys. ys ++ take tail xs) split
            ∙ ap (◌∷◌ m) (sym (round (omega arith) (dec_lt (head + 1) (length xs))))
      ],
    )
  where
    round :
        tail < head
        → Dec (head + 1 < length xs)
        → ring (wrap (head + 1) (length xs)) tail xs ≡ drop (suc head) xs ++ take tail xs
    round gt (yes p) = rw (wrap_lt head (length xs) p) (ring_gt (suc head) tail xs (omega arith))
    round gt (no p) =
        rw (wrap_ge head (length xs) (omega arith), drop_all (suc head) xs (omega arith))
          (ring_zero tail xs)

-- Writing at `tail`, where a cell is left after it.
pub ring-set :
    (head tail : ℕ) (xs : List SkynetMessage) (m : SkynetMessage)
    → head < length xs
    → tail < length xs
    → wrap (tail + 1) (length xs) ≢ head
    → ring head (wrap (tail + 1) (length xs)) (set xs tail m) ≡ ring head tail xs ++ m ∷ []
ring-set head tail xs m h t ne =
    let cap = length xs in
    let dl = length-drop head xs in
    elim (dec_lt tail head) [
      | yes lt ↦
          let w = wrap_lt tail cap (omega arith) in
          let apart : suc tail < head = omega (arith, ne, w) in
          rw
            (
              w,
              ring_gt head (suc tail) (set xs tail m) apart,
              ring_gt head tail xs lt,
              drop-set_lt head xs tail m lt,
              take-set-suc xs tail m t,
            )
            (sym (append_assoc (drop head xs) (take tail xs) (m ∷ [])))
      | no ge ↦
          let le : head ≤ tail = omega arith in
          let inner = drop-set_le head xs tail m le in
          rw (ring_le head tail xs le) (elim (dec_lt (tail + 1) cap) [
            | yes p ↦
                let e : suc tail - head ≡ suc (tail - head) = omega arith in
                rw (
                  wrap_lt tail cap p,
                  ring_le head (suc tail) (set xs tail m) (omega arith),
                  inner,
                  e,
                  take-set-suc (drop head xs) (tail - head) m (omega (arith, dl)),
                )
            | no p ↦
                let w = wrap_ge tail cap (omega arith) in
                rw
                  (
                    w,
                    ring_gt head 0 (set xs tail m) (omega (arith, ne, w)),
                    inner,
                    append-nil (set (drop head xs) (tail - head) m),
                  )
                  (set_last (drop head xs) (tail - head) m (omega (arith, dl)))
          ])
    ]

-- Writing at `tail` where that fills the deque: the messages begin at `head` and go on from 0.
pub ring-set_full :
    (head tail : ℕ) (xs : List SkynetMessage) (m : SkynetMessage)
    → head < length xs
    → tail < length xs
    → wrap (tail + 1) (length xs) ≡ head
    → ring head tail xs ++ m ∷ [] ≡ drop head (set xs tail m) ++ take head (set xs tail m)
ring-set_full head tail xs m h t e = elim (dec_lt (tail + 1) (length xs)) [
  | yes p ↦
      let at : suc tail ≡ head = sym (wrap_lt tail (length xs) p) ∙ e in
      rw
        (
          ring_gt head tail xs (omega arith),
          ← at,
          drop-set_lt (suc tail) xs tail m (omega arith),
          take-set-suc xs tail m t,
        )
        (append_assoc (drop (suc tail) xs) (take tail xs) (m ∷ []))
  | no p ↦
      let at : 0 ≡ head = sym (wrap_ge tail (length xs) (omega arith)) ∙ e in
      rw (← at, ring_zero tail xs, append-nil (set xs tail m))
        (sym (set_last xs tail m (omega arith)))
]
