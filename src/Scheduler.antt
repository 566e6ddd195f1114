-- ===== src/Scheduler.antt =====
-- The threads of cpp_sk.cpp as a step relation: workers (`start_worker`, `context_message_dispatch`)
-- take queues from the global list and put them back, while any thread pushes messages, and services
-- launch others. A step is one operation under a lock, so that any interleaving is a row of steps.
-- What a callback does to the world is a row of steps too. Contexts are not retired here: what a
-- worker does with a queue whose context is gone is in Dispatch.
pub mod Hands
pub mod Invariant
pub mod Steps
pub mod Safety
pub mod Fit
pub mod Leave
pub mod Round
pub mod Worker
mod Tests
use cpp_sk.Base.{ℕ, ◌-◌, ◌<◌, ◌≡◌, Bool, true, false, not, Option, none, some, [], take}
use native.Mathlib.Decide.{ℕ_discrete}
use cpp_sk.World.{Context, World, put, put_queue, grab, context_push}
use cpp_sk.Dispatch.{take_queue, leave, dispatch, loop, context_message_dispatch}
use cpp_sk.HandleStorage.{Ptr}
use cpp_sk.Message.{SkynetMessage}
use cpp_sk.MessageQueue.{MessageQueue, mq_pop, mq_overload}
use cpp_sk.GlobalQueue.{GlobalQueue}
use cpp_sk.GlobalQueue
use cpp_sk.Launch.{enroll}

-- Where a thread keeps a queue: the variable `q` of worker `i`; the queue that worker `i` is about to
-- put back after it has popped another one; the context that thread `i` launches.
pub data Hand : Type 0 where
  working : ℕ → Hand
  putting : ℕ → Hand
  launching : ℕ → Hand

abbrev pub is_working : Hand → Bool
is_working (working i) = true
is_working (putting i) = false
is_working (launching i) = false

pub Hand-discrete : Discrete Hand
unfolding ℕ_discrete
Hand-discrete = hlevel ℕ_discrete

-- `held a = v`
unfoldable pub hold : (Hand → Option Ptr) → Hand → Option Ptr → Hand → Option Ptr
hold held a v b = elim (Hand-discrete b a) [ yes _ ↦ v | no _ ↦ held b ]

pub record System : Type 0 where
  pub world : World
  pub held : Hand → Option Ptr

abbrev pub queue_of : System → Ptr → MessageQueue
queue_of s p = (s.world.contexts p).queue

-- A change that leaves the queues, the global list and the contexts made alone.
pub record SameQueues (w w' : World) : Type 0 where
  pub same_global : w'.global ≡ w.global
  pub same_fresh : w'.fresh ≡ w.fresh
  pub same_queue : (p : Ptr) → (w'.contexts p).queue ≡ (w.contexts p).queue

pub data Step : System → System → Type 0 where
  -- `context_push` by any thread, to a context that has been made.
  deliver :
      {s : System} {w : World} (h : ℕ) (p : Ptr) (m : SkynetMessage)
      → grab s.world h ≡ some p
      → p < s.world.fresh
      → context_push s.world h m ≡ some (w, true)
      → Step s (record s { world = w })
  -- A worker without a queue pops the global list.
  pick :
      {s : System} {w : World} {q : Option Ptr} (i : ℕ)
      → s.held (working i) ≡ none
      → take_queue s.world ≡ some (w, q)
      → Step s (record { world = w; held = hold s.held (working i) q })
  -- A round of the loop: the message goes to the callback, whose effects are steps of their own.
  serve :
      {s : System} {q : Ptr} {msg : SkynetMessage} {mq : MessageQueue} (i : ℕ)
      → s.held (working i) ≡ some q
      → mq_pop (queue_of s q) ≡ (some msg, mq)
      → Step s (record s { world = put_queue s.world q mq })
  -- The round that finds the queue empty, after which the worker pops the global list.
  finish :
      {s : System} {q : Ptr} {mq : MessageQueue} (i : ℕ)
      → s.held (working i) ≡ some q
      → mq_pop (queue_of s q) ≡ (none, mq)
      → Step s (record { world = put_queue s.world q mq; held = hold s.held (working i) none })
  -- `mq_overload` of a worker's queue.
  overload :
      {s : System} {q : Ptr} (i : ℕ)
      → s.held (working i) ≡ some q
      → Step s (record s { world = put_queue s.world q (mq_overload (queue_of s q)).1 })
  -- After the loop: the worker pops another queue. Where the list is empty it keeps its own.
  change :
      {s : System} {w : World} {q nq : Ptr} (i : ℕ)
      → s.held (working i) ≡ some q
      → s.held (putting i) ≡ none
      → take_queue s.world ≡ some (w, some nq)
      → Step s (record {
        world = w;
        held =
            hold (hold (hold s.held (working i) none) (putting i) (some q)) (working i) (some nq);
      })
  -- The push that puts a queue back, or makes a launched one known.
  give :
      {s : System} {q : Ptr} {g : GlobalQueue} (a : Hand)
      → is_working a ≡ false
      → s.held a ≡ some q
      → GlobalQueue.push s.world.global q ≡ some g
      → Step s (record { world = record s.world { global = g }; held = hold s.held a none })
  -- The first half of `context_t::create`.
  enroll_step :
      {s : System} {w : World} {p : Ptr} (i : ℕ)
      → s.held (launching i) ≡ none
      → enroll s.world ≡ some (w, p)
      → Step s (record { world = w; held = hold s.held (launching i) (some p) })
  -- All else.
  other : {s : System} {w : World} → SameQueues s.world w → Step s (record s { world = w })

pub data Reach (s : System) : System → Type 0 where
  here : Reach s s
  next : {t u : System} → Reach s t → Step t u → Reach s u

-- No context yet, and no thread with a queue.
abbrev pub at_rest : World → System
at_rest w = record { world = w; held = λ a. none }
