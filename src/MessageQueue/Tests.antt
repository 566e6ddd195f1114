-- ===== src/MessageQueue/Tests.antt =====
-- Runs of the message queue on a deque of four cells, and its theorems there.
use cpp_sk.Base.{ℕ, ◌≡◌, refl, true, false, none, some, List, [], ◌∷◌, ◌++◌, map, arith, length}
use cpp_sk.Message.{SkynetMessage, blank}
use cpp_sk.MessageQueue.{MessageQueue, wrap, store, grow, mq_push}
use cpp_sk.MessageQueue.Contents.{IsValid, ring, contents}
use cpp_sk.MessageQueue.Push.{contents-push_full}
use cpp_sk.MessageQueue.Refine.{Op, run, run_fifo, run_refines, push, pop}

abbrev message : ℕ → SkynetMessage
message n = record blank { session = n }

-- Cells 2 and 3 hold messages 1 and 2, cell 0 holds message 3.
abbrev turned : MessageQueue
turned = record {
  handle = 1;
  head = 2;
  tail = 1;
  release = false;
  in_global = true;
  overload = 0;
  overload_threshold = 1024;
  queue = message 3 ∷ blank ∷ message 1 ∷ message 2 ∷ [];
}

abbrev sessions : List SkynetMessage → List ℕ
sessions = map (λ m. m.session)

turned-IsValid : IsValid turned
turned-IsValid = omega arith

turned-contents : contents turned ≡ message 1 ∷ message 2 ∷ message 3 ∷ []
unfolding contents ring
turned-contents = refl

-- The fourth message fills the deque: the order turns to 3, 4, 1, 2.
disorder : sessions (contents (mq_push turned (message 4)).0) ≡ 3 ∷ 4 ∷ 1 ∷ 2 ∷ []
unfolding contents ring mq_push store wrap grow
disorder = refl

contents-push_full_example :
    (older newer : List SkynetMessage) × (contents turned ++ message 4 ∷ [] ≡ older ++ newer)
    × (contents (mq_push turned (message 4)).0 ≡ newer ++ older)
    × (length newer ≡ 2)
unfolding contents ring
contents-push_full_example = contents-push_full turned (message 4) turned-IsValid (omega arith)

abbrev roomy : MessageQueue
roomy = record turned { queue = message 3 ∷ blank ∷ message 1 ∷ message 2 ∷ []; head = 3 }

roomy-IsValid : IsValid roomy
roomy-IsValid = omega arith

abbrev calls : List Op
calls = pop ∷ push (message 4) ∷ pop ∷ pop ∷ pop ∷ pop ∷ []

run_refines_example :
    run turned calls
    ≡ some (message 1) ∷ some (message 2) ∷ some (message 3) ∷ some (message 4) ∷ none ∷ []
unfolding run_fifo
run_refines_example =
    run_refines calls turned (message 1 ∷ message 2 ∷ message 3 ∷ []) turned-IsValid turned-contents
      (omega arith)
