-- ===== src/MessageQueue.antt =====
-- `message_queue` of cpp_sk.h and cpp_sk.cpp: a ring of messages that doubles when it is full. Each
-- method runs under the queue's lock and is one step here. The pointer `next` belongs to the global
-- queue. Sizes stay below 2^30, so that no `int` of the queue overflows.
pub mod Contents
pub mod Push
pub mod Pop
pub mod Refine
mod Tests
use cpp_sk.Base.{
  ℕ, zero, suc, ◌+◌, ◌-◌, ◌*◌, Bool, true, false, Option, none, some, List, [], ◌∷◌, ◌++◌, ltb, leb,
  ◌==◌, if◌then◌else◌, length, get_elem?, set, replicate,
}
use cpp_sk.Message.{SkynetMessage, blank}

abbrev pub default_queue_size : ℕ
default_queue_size = 64

abbrev pub mq_overload_limit : ℕ
mq_overload_limit = 1024

pub record MessageQueue : Type 0 where
  pub handle : ℕ
  pub head : ℕ
  pub tail : ℕ
  pub release : Bool
  pub in_global : Bool
  pub overload : ℕ
  pub overload_threshold : ℕ
  pub queue : List SkynetMessage

-- The constructor.
unfoldable pub new : ℕ → MessageQueue
new handle = record {
  handle = handle;
  head = 0;
  tail = 0;
  release = false;
  in_global = true;
  overload = 0;
  overload_threshold = mq_overload_limit;
  queue = replicate default_queue_size blank;
}

-- `length`
unfoldable pub mq_length : MessageQueue → ℕ
mq_length q = if leb q.head q.tail then q.tail - q.head else q.tail + length q.queue - q.head

-- `mq_overload`: the value and the queue with it reset.
unfoldable pub mq_overload : MessageQueue → ℕ × MessageQueue
mq_overload q = (q.overload, record q { overload = 0 })

-- An index after its increment.
unfoldable pub wrap : ℕ → ℕ → ℕ
wrap i cap = if leb cap i then 0 else i

-- The first half of `mq_push`.
unfoldable pub store : MessageQueue → SkynetMessage → MessageQueue
unfolding wrap
store q m = record q {
  queue = set q.queue q.tail m;
  tail = wrap (q.tail + 1) (length (set q.queue q.tail m));
}

-- `queue.resize(queue.size() * 2)`, with `head` and `tail` set.
unfoldable pub grow : MessageQueue → MessageQueue
grow q = record q {
  queue = q.queue ++ replicate (length q.queue) blank;
  head = 0;
  tail = length q.queue;
}

-- `mq_push`: the queue, and whether it pushes itself to the global queue.
unfoldable pub mq_push : MessageQueue → SkynetMessage → MessageQueue × Bool
mq_push q m =
    let s = store q m in
    let g = if s.head == s.tail then grow s else s in
    if g.in_global then (g, false) else (record g { in_global = true }, true)

-- `while (length > overload_threshold)`, with fuel: `overload` and `overload_threshold`.
unfoldable pub raise : ℕ → ℕ → ℕ → ℕ → ℕ × ℕ
raise zero length overload threshold = (overload, threshold)
raise (suc fuel) length overload threshold = elim (ltb threshold length) [
  | true ↦ raise fuel length length (threshold * 2)
  | false ↦ (overload, threshold)
]

-- What `mq_pop` does after it has moved `head`. With `overload_threshold` at least 1 the loop makes
-- fewer rounds than there are messages.
unfoldable pub note_overload : MessageQueue → MessageQueue
unfolding mq_length
note_overload q =
    let n = mq_length q in
    let (overload, threshold) = raise n n q.overload q.overload_threshold in
    record q { overload = overload; overload_threshold = threshold }

-- `mq_pop`. Under the lock `tail - head`, plus the size if that is negative, is `mq_length`.
unfoldable pub mq_pop : MessageQueue → Option SkynetMessage × MessageQueue
unfolding wrap
mq_pop q =
    if q.head == q.tail
    then (none, record q { overload_threshold = mq_overload_limit; in_global = false })
    else (
      get_elem? q.queue q.head,
      note_overload (record q { head = wrap (q.head + 1) (length q.queue) }),
    )

-- `mark_release`: the queue, and whether it pushes itself; `none` is the failed `assert`.
unfoldable pub mark_release : MessageQueue → Option (MessageQueue × Bool)
mark_release q =
    if q.release
    then none
    else some (record q { release = true }, if q.in_global then false else true)

-- `_drop_queue`, with fuel: the messages that it hands to `f`, oldest first. `f` leaves this queue
-- alone.
unfoldable pub drop_queue : ℕ → MessageQueue → Option (List SkynetMessage × MessageQueue)
drop_queue zero q = none
drop_queue (suc fuel) q =
    let (m, q') = mq_pop q in
    elim m [
      | none ↦ some ([], q')
      | some m ↦ elim (drop_queue fuel q') [ none ↦ none | some (ms, r) ↦ some (m ∷ ms, r) ]
    ]

-- `mq_release`: the messages dropped, the queue, and whether it pushes itself to the global queue.
unfoldable pub mq_release : ℕ → MessageQueue → Option (List SkynetMessage × MessageQueue × Bool)
mq_release fuel q =
    if q.release
    then (elim (drop_queue fuel q) [ none ↦ none | some (ms, r) ↦ some (ms, r, false) ])
    else some ([], q, true)
