-- ===== src/GlobalQueue.antt =====
-- `global_queue` of cpp_sk.h and cpp_sk.cpp: an intrusive list of message queues. A queue is known
-- by a pointer, and `next` reads its field `next`; `none` is the null pointer. Each method runs under
-- the list's lock and is one step here.
pub mod Chain
pub mod Laws
use cpp_sk.Base.{ℕ, Bool, true, false, Option, none, some, ◌==◌, if◌then◌else◌}

abbrev pub Ptr : Type 0
Ptr = ℕ

pub record GlobalQueue : Type 0 where
  pub head : Option Ptr
  pub tail : Option Ptr
  pub next : Ptr → Option Ptr

-- The constructor, over the fields `next` as they are.
unfoldable pub new : (Ptr → Option Ptr) → GlobalQueue
new next = record { head = none; tail = none; next = next }

-- `p->next = q`
abbrev pub assign : (Ptr → Option Ptr) → Ptr → Option Ptr → Ptr → Option Ptr
assign next p q r = if r == p then q else next r

abbrev pub is_null : Option Ptr → Bool
is_null none = true
is_null (some p) = false

-- `push`; the result is `none` where the `assert` fails.
unfoldable pub push : GlobalQueue → Ptr → Option GlobalQueue
push g q = elim (g.next q) [
  | some _ ↦ none
  | none ↦ elim g.tail [
    | some t ↦ some (record g { next = assign g.next t (some q); tail = some q })
    | none ↦ some (record g { head = some q; tail = some q })
  ]
]

-- `mq == tail`
abbrev pub is_same : Ptr → Option Ptr → Bool
is_same p none = false
is_same p (some q) = p == q

-- `pop`: the queue taken and the list after it; `none` is the failed `assert`.
unfoldable pub pop : GlobalQueue → Option (Option Ptr × GlobalQueue)
pop g = elim g.head [
  | none ↦ some (none, g)
  | some mq ↦ elim (g.next mq) [
    | some rest ↦ some (some mq, record g { head = some rest; next = assign g.next mq none })
    | none ↦
        if is_same mq g.tail
        then some (some mq, record g { head = none; tail = none; next = assign g.next mq none })
        else none
  ]
]
