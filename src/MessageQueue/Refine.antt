-- ===== src/MessageQueue/Refine.antt =====
-- The queue as a client sees it: a FIFO, as long as the deque does not fill up.
use cpp_sk.Base.{
  ℕ, suc, ◌+◌, ◌<◌, ◌≡◌, refl, ap, ap₂, ◌∙◌, false, Option, none, some, List, [], ◌∷◌, ◌++◌, arith,
  length,
}
use cpp_sk.Message.{SkynetMessage}
use cpp_sk.MessageQueue.{mq_overload_limit, MessageQueue, new, mq_push, mq_pop, drop_queue}
use cpp_sk.MessageQueue.Contents.{IsValid, ring, contents}
use cpp_sk.MessageQueue.Push.{contents-push, push-IsValid, cells-push}
use cpp_sk.MessageQueue.Pop.{pop_empty, pop_Pops}

pub data Op : Type 0 where
  push : SkynetMessage → Op
  pop : Op

-- The calls of `mq_push` and `mq_pop` in order, with what the pops return.
unfoldable pub run : MessageQueue → List Op → List (Option SkynetMessage)
run q [] = []
run q (push m ∷ ops) = run (mq_push q m).0 ops
run q (pop ∷ ops) = let (m, q') = mq_pop q in m ∷ run q' ops

-- The same calls on a list, oldest message first.
unfoldable pub run_fifo : List SkynetMessage → List Op → List (Option SkynetMessage)
run_fifo xs [] = []
run_fifo xs (push m ∷ ops) = run_fifo (xs ++ m ∷ []) ops
run_fifo [] (pop ∷ ops) = none ∷ run_fifo [] ops
run_fifo (x ∷ xs) (pop ∷ ops) = some x ∷ run_fifo xs ops

-- The calls never bring the list to `cap` messages.
abbrev pub Fits : ℕ → List SkynetMessage → List Op → Type 0
Fits cap xs [] = Unit {0}
Fits cap xs (push m ∷ ops) = (length xs + 1 < cap) × Fits cap (xs ++ m ∷ []) ops
Fits cap [] (pop ∷ ops) = Fits cap [] ops
Fits cap (x ∷ xs) (pop ∷ ops) = Fits cap xs ops

emptied : MessageQueue → MessageQueue
emptied q = record q { overload_threshold = mq_overload_limit; in_global = false }

emptied-IsValid : (q : MessageQueue) → IsValid q → IsValid (emptied q)
unfolding emptied
emptied-IsValid q v = record { head_in = v.head_in; tail_in = v.tail_in; threshold = omega arith }

emptied-contents : (q : MessageQueue) → contents q ≡ [] → contents (emptied q) ≡ []
unfolding emptied contents
emptied-contents q e = e

-- No sequence of calls that keeps below the capacity of the deque tells the queue from a FIFO list.
pub run_refines :
    (ops : List Op) (q : MessageQueue) (xs : List SkynetMessage)
    → IsValid q
    → contents q ≡ xs
    → Fits (length q.queue) xs ops
    → run q ops ≡ run_fifo xs ops
unfolding run run_fifo emptied
run_refines [] q xs v e f = refl
run_refines (push m ∷ ops) q xs v e (room, f) =
    let len = cells-push q m v (rw e room) in
    run_refines ops (mq_push q m).0 (xs ++ m ∷ []) (push-IsValid q m v)
      (contents-push q m v (rw e room) ∙ ap (λ ys. ys ++ m ∷ []) e) (rw len f)
run_refines (pop ∷ ops) q [] v e f =
    rw (pop_empty q v e)
      (ap (◌∷◌ none) (run_refines ops _ [] (emptied-IsValid q v) (emptied-contents q e) f))
run_refines (pop ∷ ops) q (x ∷ xs) v e f =
    let w = pop_Pops q x xs v e in
    ap₂ ◌∷◌ w.first (run_refines ops (mq_pop q).1 xs w.valid w.left (rw w.cells f))

-- `_drop_queue` hands on every message, oldest first, and leaves the queue empty; fuel for each
-- message and one round more is enough.
pub drop_queue_lem :
    (xs : List SkynetMessage) (q : MessageQueue)
    → IsValid q
    → contents q ≡ xs
    → (r : MessageQueue) × (drop_queue (suc (length xs)) q ≡ some (xs, r))
      × (contents r ≡ [])
      × (r.in_global ≡ false)
unfolding drop_queue emptied
drop_queue_lem [] q v e = (emptied q, ground (arith, pop_empty q v e), emptied-contents q e, refl)
drop_queue_lem (x ∷ xs) q v e =
    let w = pop_Pops q x xs v e in
    let (r, run, empty, out) = drop_queue_lem xs (mq_pop q).1 w.valid w.left in
    (r, ground (arith, w.first, run), empty, out)

-- `new` is empty and valid.
pub new-IsValid : (h : ℕ) → IsValid (new h) × (contents (new h) ≡ [])
unfolding new contents ring
new-IsValid h = (omega arith, refl)
