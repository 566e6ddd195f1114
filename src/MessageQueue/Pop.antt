-- ===== src/MessageQueue/Pop.antt =====
-- `mq_pop`: the oldest message, and the overload mark.
use cpp_sk.Base.{
  ℕ, zero, suc, ◌+◌, ◌*◌, ◌≤◌, ◌<◌, ◌≡◌, refl, ap, ◌∙◌, ◌≢◌, inl, inr, false, Option, none, some,
  List, [], ◌∷◌, arith, ltb, if◌then◌else◌, Bool-cases, length, get_elem?,
}
use cpp_sk.Message.{SkynetMessage}
use cpp_sk.MessageQueue.{
  mq_overload_limit, MessageQueue, mq_length, wrap, raise, note_overload, mq_pop,
}
use cpp_sk.MessageQueue.Contents.{IsValid, contents, length-contents, ring_cons}

-- The loop over the threshold ends by its test, with fuel for each message.
raise_lem :
    (fuel n overload threshold : ℕ)
    → 1 ≤ threshold
    → n < threshold + fuel
    → let r = raise fuel n overload threshold in
      (n ≤ r.1)
      × (threshold ≤ r.1)
      × (r.0 ≡ (if ltb threshold n then n else overload))
      × (n ≤ threshold → r.1 ≡ threshold)
      × (threshold < n → r.1 < 2 * n)
unfolding raise
raise_lem zero n overload threshold p h = ground arith
raise_lem (suc fuel) n overload threshold p h = elim (Bool-cases (ltb threshold n)) [
  | inr done ↦ rw (done, raise) (ground (arith, done))
  | inl more ↦ rw (more, raise) (ground (arith, more, raise_lem fuel n n (threshold * 2)))
]

-- An empty queue gives nothing, leaves the global queue, and forgets its raised threshold.
pub pop_empty :
    (q : MessageQueue)
    → IsValid q
    → contents q ≡ []
    → mq_pop q ≡ (none, record q { overload_threshold = mq_overload_limit; in_global = false })
unfolding mq_pop mq_length
pop_empty q v e = ground (arith, length-contents q v, ap length e, v)

pub mq_pop_handle : (q : MessageQueue) → (mq_pop q).1.handle ≡ q.handle
unfolding mq_pop note_overload
mq_pop_handle q = ground arith

-- A queue with messages gives the oldest and keeps the others in order, its invariant and its place
-- in the global queue. With `n` messages left it sets `overload` to `n` exactly when `n` exceeds the
-- threshold, and then raises the threshold to at least `n`.
pub record Pops (q : MessageQueue) (m : SkynetMessage) (rest : List SkynetMessage)
    (r : Option SkynetMessage × MessageQueue) : Type 0 where
  pub first : r.0 ≡ some m
  pub left : contents r.1 ≡ rest
  pub valid : IsValid r.1
  pub in_global : r.1.in_global ≡ q.in_global
  pub cells : length r.1.queue ≡ length q.queue
  pub overload :
      r.1.overload ≡ (if ltb q.overload_threshold (length rest) then length rest else q.overload)
  pub threshold : length rest ≤ r.1.overload_threshold
  pub kept : length rest ≤ q.overload_threshold → r.1.overload_threshold ≡ q.overload_threshold

-- The queue before the overload is noted.
advance : MessageQueue → MessageQueue
advance q = record q { head = wrap (q.head + 1) (length q.queue) }

advance-IsValid : (q : MessageQueue) → IsValid q → IsValid (advance q)
unfolding advance wrap
advance-IsValid q v = ground (arith, v)

pop-advance :
    (q : MessageQueue)
    → q.head ≢ q.tail
    → mq_pop q ≡ (get_elem? q.queue q.head, note_overload (advance q))
unfolding mq_pop advance
pop-advance q ne = ground (arith, ne)

contents-note : (q : MessageQueue) → contents (note_overload q) ≡ contents q
unfolding contents note_overload
contents-note q = refl

-- What `note_overload` sets, in terms of the messages left.
record Notes (q r : MessageQueue) : Type 0 where
  valid : IsValid r
  in_global : r.in_global ≡ q.in_global
  cells : length r.queue ≡ length q.queue
  overload :
      r.overload
      ≡ (if ltb q.overload_threshold (length (contents q)) then length (contents q) else q.overload)
  threshold : length (contents q) ≤ r.overload_threshold
  kept : length (contents q) ≤ q.overload_threshold → r.overload_threshold ≡ q.overload_threshold

note-Notes : (q : MessageQueue) → IsValid q → Notes q (note_overload q)
unfolding note_overload
note-Notes q v =
    let n = mq_length q in
    let e = length-contents q v in
    let r = raise_lem n n q.overload q.overload_threshold v.threshold (omega (arith, v)) in
    record {
      valid = record { head_in = v.head_in; tail_in = v.tail_in; threshold = omega (arith, r, v) };
      in_global = refl;
      cells = refl;
      overload = rw e (r.2);
      threshold = rw e (r.0);
      kept = rw e (r.3);
    }

head-ne-tail : (q : MessageQueue) → IsValid q → contents q ≢ [] → q.head ≢ q.tail
unfolding mq_length
head-ne-tail q v ne e = ne (no_messages (contents q) (ground (arith, length-contents q v, e)))
  where
    no_messages : (xs : List SkynetMessage) → length xs ≡ 0 → xs ≡ []
    no_messages [] h = refl
    no_messages (x ∷ xs) h = absurd (omega arith)

pub pop_Pops :
    (q : MessageQueue) (m : SkynetMessage) (rest : List SkynetMessage)
    → IsValid q
    → contents q ≡ m ∷ rest
    → Pops q m rest (mq_pop q)
unfolding contents advance
pop_Pops q m rest v e =
    let ne = head-ne-tail q v (λ h. cc) in
    let (x, at, split) = ring_cons q.head q.tail q.queue v.head_in v.tail_in ne in
    let w = note-Notes (advance q) (advance-IsValid q v) in
    let left : contents (advance q) ≡ rest = cc in
    let shape = pop-advance q ne in
    rw shape (record {
      first = cc;
      left = contents-note (advance q) ∙ left;
      valid = w.valid;
      in_global = w.in_global;
      cells = w.cells;
      overload = rw (← left) (w.overload);
      threshold = rw (← left) (w.threshold);
      kept = rw (← left) (w.kept);
    })
