-- ===== src/MessageQueue/Push.antt =====
-- `mq_push`: the invariant, the order of the messages, and the report to the global queue.
use cpp_sk.Base.{
  ◌+◌, ◌<◌, ◌≡◌, sym, ap, subst, ◌∙◌, ◌≢◌, ◌↔◌, true, not, List, [], ◌∷◌, ◌++◌, arith, length, set,
  take, drop, replicate, length-append, length-set, length-replicate, take-append-drop,
}
use cpp_sk.Base.Slices.{length-take, take_all, take-append_left}
use native.Mathlib.Decide.{dec_lt}
use cpp_sk.Message.{SkynetMessage, blank}
use cpp_sk.MessageQueue.{MessageQueue, mq_length, wrap, store, grow, mq_push}
use cpp_sk.MessageQueue.Contents.{
  IsValid, ring, contents, length-contents, ring_zero, ring-set, ring-set_full,
}
use mathlib.Core.List.{Perm, perm_append_comm}
use mathlib.Core.List.Perm

push-store :
    (q : MessageQueue) (m : SkynetMessage)
    → (store q m).head ≢ (store q m).tail
    → contents (mq_push q m).0 ≡ contents (store q m)
unfolding mq_push contents store
push-store q m ne = ground (arith, ne)

push-grow :
    (q : MessageQueue) (m : SkynetMessage)
    → (store q m).head ≡ (store q m).tail
    → contents (mq_push q m).0 ≡ contents (grow (store q m))
unfolding mq_push contents store
push-grow q m e = ground (arith, e)

-- The deque is full exactly when the write brings `tail` to `head`.
full_iff :
    (q : MessageQueue)
    → IsValid q
    → (length (contents q) + 1 ≡ length q.queue) ↔ (wrap (q.tail + 1) (length q.queue) ≡ q.head)
unfolding mq_length wrap
full_iff q v =
    let e = length-contents q v in (λ h. ground (arith, e, h, v), λ h. ground (arith, e, h, v))

-- Where the deque has room for the message and one cell more, `mq_push` adds it at the end.
pub contents-push :
    (q : MessageQueue) (m : SkynetMessage)
    → IsValid q
    → length (contents q) + 1 < length q.queue
    → contents (mq_push q m).0 ≡ contents q ++ m ∷ []
unfolding contents store
contents-push q m v room =
    let ne : wrap (q.tail + 1) (length q.queue) ≢ q.head = λ e. omega (arith, (full_iff q v).1 e) in
    let len = length-set q.queue q.tail m in
    push-store q m (λ e. ne (sym (e ∙ ap (wrap (q.tail + 1)) len)))
    ∙ ap (λ n. ring q.head (wrap (q.tail + 1) n) (set q.queue q.tail m)) len
    ∙ ring-set q.head q.tail q.queue m v.head_in v.tail_in ne

-- Where the message takes the last cell, the deque doubles and keeps the messages in the order of
-- their cells: the ones that stood before `head` come first, though they are the newer ones.
pub contents-push_full :
    (q : MessageQueue) (m : SkynetMessage)
    → IsValid q
    → length (contents q) + 1 ≡ length q.queue
    → (older newer : List SkynetMessage) × (contents q ++ m ∷ [] ≡ older ++ newer)
      × (contents (mq_push q m).0 ≡ newer ++ older)
      × (length newer ≡ q.head)
unfolding contents store grow
contents-push_full q m v full =
    let ys = set q.queue q.tail m in
    let len = length-set q.queue q.tail m in
    let e = (full_iff q v).0 full in
    (
      drop q.head ys,
      take q.head ys,
      ring-set_full q.head q.tail q.queue m v.head_in v.tail_in e,
      push-grow q m (sym (ap (wrap (q.tail + 1)) len ∙ e))
          ∙ ring_zero (length ys) (ys ++ replicate (length ys) blank)
          ∙ take-append_left (length ys) ys (replicate (length ys) blank) (omega arith)
          ∙ take_all (length ys) ys (omega arith)
          ∙ sym (take-append-drop q.head ys),
      length-take q.head ys (omega (arith, len, v)),
    )

-- One cell stays empty between two operations.
pub length-contents_lt : (q : MessageQueue) → IsValid q → length (contents q) < length q.queue
unfolding mq_length
length-contents_lt q v = ground (arith, length-contents q v, v)

-- No message is lost, made up or doubled, whether the deque grows or not.
pub push-perm :
    (q : MessageQueue) (m : SkynetMessage)
    → IsValid q
    → Perm (contents (mq_push q m).0) (contents q ++ m ∷ [])
push-perm q m v = elim (dec_lt (length (contents q) + 1) (length q.queue)) [
  | yes room ↦
      subst (λ xs. Perm (contents (mq_push q m).0) xs) (contents-push q m v room) (Perm.refl _)
  | no tight ↦
      let (older, newer, before, after, _) =
        contents-push_full q m v (omega (arith, length-contents_lt q v)) in
      rw (before, after) (perm_append_comm newer older)
]

-- The invariant, and what the queue reports: it pushes itself to the global queue exactly when it
-- was not marked as being there, and is marked afterwards.
pub push-IsValid : (q : MessageQueue) (m : SkynetMessage) → IsValid q → IsValid (mq_push q m).0
unfolding mq_push store grow wrap
push-IsValid q m v =
    let ys = set q.queue q.tail m in
    ground (
      arith,
      length-set q.queue q.tail m,
      length-append ys (replicate (length ys) blank),
      length-replicate (length ys) blank,
    )

pub push_reports :
    (q : MessageQueue) (m : SkynetMessage)
    → ((mq_push q m).1 ≡ not q.in_global)
      × ((mq_push q m).0.in_global ≡ true)
      × ((mq_push q m).0.handle ≡ q.handle)
      × ((mq_push q m).0.release ≡ q.release)
      × ((mq_push q m).0.overload ≡ q.overload)
unfolding mq_push store grow
push_reports q m = ground arith

-- The deque keeps its size where it has room.
pub cells-push :
    (q : MessageQueue) (m : SkynetMessage)
    → IsValid q
    → length (contents q) + 1 < length q.queue
    → length (mq_push q m).0.queue ≡ length q.queue
unfolding mq_push store
cells-push q m v room =
    let ne : wrap (q.tail + 1) (length q.queue) ≢ q.head = λ e. omega (arith, (full_iff q v).1 e) in
    ground (arith, length-set q.queue q.tail m, ne)
