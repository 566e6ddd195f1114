-- ===== src/Dispatch/Tests.antt =====
-- The theorems on monitors and workers at concrete inputs.
use cpp_sk.Base.{ℕ, ◌≤◌, ◌⊎◌, ◌≡◌, refl, true, false, Option, none, some, [], ◌∷◌, arith}
use cpp_sk.World.{Context, World, grab}
use cpp_sk.Dispatch.{context_message_dispatch}
use cpp_sk.Monitor.{SkynetMonitor}
use cpp_sk.Dispatch.Count.{Counted}
use cpp_sk.Dispatch.Batch.{RanEmpty, dispatch_batch}
use cpp_sk.Dispatch.Orphan.{serve_orphan}
use cpp_sk.HandleStorage.{Ptr, handle_grab}
use cpp_sk.Message.{SkynetMessage, blank}
use cpp_sk.MessageQueue.{MessageQueue, mq_pop, mq_overload, mq_length, note_overload, raise}
use cpp_sk.GlobalQueue
use cpp_sk.MessageQueue.Contents.{contents, ring}

-- Context 1 is retired, and its queue holds one message.
abbrev left_queue : MessageQueue
left_queue = record {
  handle = 1;
  head = 0;
  tail = 1;
  release = false;
  in_global = true;
  overload = 0;
  overload_threshold = 1024;
  queue = blank ∷ blank ∷ blank ∷ blank ∷ [];
}

abbrev left_context : Context
left_context = record {
  cb = true;
  queue = left_queue;
  handle = 1;
  session_id = 0;
  message_count = 0;
  init = true;
  endless = false;
}

abbrev left_world : World
left_world = record {
  storage = record { harbor = 0; handle_index = 2; slot = none ∷ none ∷ []; name = [] };
  contexts = λ p. left_context;
  global = record { head = none; tail = none; next = λ p. none };
  loggers = λ s. 0;
  total = 1;
  fresh = 2;
}

abbrev idle_monitor : SkynetMonitor
idle_monitor = record { version = 7; check_version = 7; source = 0; destination = 0 }

abbrev returns : Ptr → SkynetMessage → World → Option (World × ℕ)
returns p msg w = some (w, 0)

serve_orphan_example :
    context_message_dispatch returns (λ n. []) left_world idle_monitor (some 1) (some 0) ≡ none
unfolding grab handle_grab contents ring
serve_orphan_example =
    serve_orphan returns (λ n. []) left_world idle_monitor 1 (some 0) blank [] refl refl
      (omega arith) refl

-- Context 1 with three messages; its worker has the weight 0.
abbrev busy_world : World
busy_world = record left_world {
  storage = record { harbor = 0; handle_index = 2; slot = none ∷ some 1 ∷ []; name = [] };
  contexts = λ p. record left_context { queue = record left_queue { tail = 3 } };
}

abbrev outcome : World × SkynetMonitor × Option Ptr
outcome =
    elim (context_message_dispatch returns (λ n. []) busy_world idle_monitor (some 1) (some 0)) [
      | none ↦ (busy_world, idle_monitor, none)
      | some r ↦ r
    ]

served :
    context_message_dispatch returns (λ n. []) busy_world idle_monitor (some 1) (some 0)
    ≡ some (outcome.0, outcome.1, outcome.2)
unfolding context_message_dispatch grab handle_grab mq_pop mq_overload note_overload raise
    GlobalQueue.pop
served = refl

dispatch_batch_example :
    (k : ℕ) × (1 ≤ k)
    × (k ≤ 2)
    × Counted 1 k busy_world outcome.0
    × ((k ≡ 2) ⊎ RanEmpty 1 outcome.0)
unfolding grab handle_grab mq_pop mq_length note_overload
dispatch_batch_example =
    dispatch_batch returns (λ n. []) 1 (λ r msg w w' reserve e. ground (arith, e)) busy_world
      outcome.0 idle_monitor outcome.1 1 (some 0) outcome.2 refl refl (omega arith) (λ e. cc) served
