-- ===== src/World/Tests.antt =====
-- A world with two contexts, and the theorems of the world there.
use cpp_sk.Base.{◌-◌, ◌^◌, ◌≡◌, refl, true, false, none, some, List, [], ◌∷◌, arith, ◌==◌}
use cpp_sk.World.{Context, World, grab, context_push}
use cpp_sk.World.Push.{Scheduled, Delivers, context_push-Delivers}
use cpp_sk.Timer.{Timer, Node}
use cpp_sk.HandleStorage.{Ptr, handle_grab}
use cpp_sk.GlobalQueue.Chain.{Holds}
use cpp_sk.Message.{blank}
use cpp_sk.MessageQueue.{MessageQueue}

abbrev pub queue_of : Ptr → MessageQueue
queue_of p = record {
  handle = p;
  head = 0;
  tail = 0;
  release = false;
  in_global = p == 1;
  overload = 0;
  overload_threshold = 1024;
  queue = blank ∷ blank ∷ blank ∷ blank ∷ [];
}

abbrev pub context_of : Ptr → Context
context_of p = record {
  cb = true;
  queue = queue_of p;
  handle = p;
  session_id = 2 ^ 31 - 1;
  message_count = 0;
  init = true;
  endless = false;
}

-- The queue of context 1 is in the global list, that of context 2 is not.
abbrev pub two : World
two = record {
  storage = record {
    harbor = 0;
    handle_index = 3;
    slot = none ∷ some 1 ∷ some 2 ∷ none ∷ [];
    name = ("logger", 2) ∷ [];
  };
  contexts = context_of;
  global = record { head = some 1; tail = some 1; next = λ p. none };
  loggers = λ s. 0;
  total = 2;
  fresh = 3;
}

two-Holds : Holds two.global (1 ∷ [])
two-Holds = record { chain = (refl, refl); last = refl; distinct = omega arith }

pub two-Scheduled : Scheduled two (1 ∷ [])
two-Scheduled = record {
  holds = two-Holds;
  idle = λ p i. ((λ e. absurd (ground (arith, e, i)), tt), refl);
}

context_push-Delivers_example :
    (w : World) × (context_push two 2 blank ≡ some (w, true)) × Delivers two 2 blank (1 ∷ []) w
unfolding grab handle_grab
context_push-Delivers_example = context_push-Delivers two (1 ∷ []) 2 2 blank two-Scheduled refl

abbrev wheel_at_zero : Timer
wheel_at_zero = record {
  near = [];
  wheel = [];
  time = 0;
  starttime = 0;
  current = 0;
  current_point = 0;
}

abbrev two_nodes : List Node
two_nodes =
    record { expire = 5; handle = 2; session = 1 }
    ∷ record { expire = 5; handle = 9; session = 2 }
    ∷ []
