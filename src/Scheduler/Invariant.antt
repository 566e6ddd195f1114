-- ===== src/Scheduler/Invariant.antt =====
-- What holds of the threads, the global list and the queues between two steps.
use cpp_sk.Base.{◌≤◌, ◌<◌, ◌≡◌, ◌≢◌, ◌⊎◌, true, false, Option, none, some, List, []}
use cpp_sk.World.{World}
use cpp_sk.Scheduler.{Hand, System}
use cpp_sk.Scheduler.Hands.{Listed}
use cpp_sk.HandleStorage.{Ptr}
use cpp_sk.MessageQueue.Contents.{IsValid, contents}
use cpp_sk.GlobalQueue.Chain.{Fresh, Holds}

-- The global list and the hands keep each queue at most once.
pub record Owned (w : World) (held : Hand → Option Ptr) (gs : List Ptr) : Type 0 where
  pub list : Holds w.global gs
  pub out : (p : Ptr) → Fresh p gs → w.global.next p ≡ none
  pub unmade : (p : Ptr) → w.fresh ≤ p → Fresh p gs
  pub made : (a : Hand) (p : Ptr) → held a ≡ some p → p < w.fresh
  pub apart : (a : Hand) (p : Ptr) → held a ≡ some p → Fresh p gs
  pub unique : (a b : Hand) (p : Ptr) → held a ≡ some p → held b ≡ some p → a ≡ b

-- A queue that is not marked is nowhere and empty; a marked one is in the list or in a hand.
pub record Marked (w : World) (held : Hand → Option Ptr) (gs : List Ptr) : Type 0 where
  pub valid : (p : Ptr) → p < w.fresh → IsValid (w.contexts p).queue
  pub idle :
      (p : Ptr)
      → p < w.fresh
      → (w.contexts p).queue.in_global ≡ false
      → Fresh p gs × ((a : Hand) → held a ≢ some p) × (contents (w.contexts p).queue ≡ [])
  pub busy :
      (p : Ptr)
      → p < w.fresh
      → (w.contexts p).queue.in_global ≡ true
      → Listed p gs ⊎ ((a : Hand) × (held a ≡ some p))

pub record Inv (s : System) : Type 0 where
  pub gs : List Ptr
  pub owned : Owned s.world s.held gs
  pub marked : Marked s.world s.held gs
