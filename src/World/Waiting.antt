-- ===== src/World/Waiting.antt =====
-- A context that a handle leads to, and the messages that wait in its queue.
use cpp_sk.Base.{ℕ, ◌+◌, ◌<◌, ◌≡◌, sym, ap, subst, ◌∙◌, true, some, List, [], ◌∷◌, ◌++◌, length}
use cpp_sk.World.{World, put_queue, grab, context_push}
use cpp_sk.World.Push.{
  Scheduled, Delivers, grab-SameHandles, context_push-Delivers, put_queue_self,
  put_queue-SameHandles, put_queue-Scheduled,
}
use cpp_sk.HandleStorage.{Ptr}
use cpp_sk.Message.{SkynetMessage}
use cpp_sk.MessageQueue.{mq_pop}
use cpp_sk.MessageQueue.Pop.{pop_Pops, mq_pop_handle}
use cpp_sk.MessageQueue.Contents.{IsValid, contents}
use cpp_sk.MessageQueue.Push.{contents-push, push-IsValid, cells-push}

-- The handle `h` leads to the context `p`, and `ms` wait in its queue, whose deque has `cells`
-- places.
pub record Waiting (p : Ptr) (h cells : ℕ) (ms : List SkynetMessage) (w : World) : Type 0 where
  pub found : grab w h ≡ some p
  pub gs : List Ptr
  pub scheduled : Scheduled w gs
  pub valid : IsValid (w.contexts p).queue
  pub cells_are : length (w.contexts p).queue.queue ≡ cells
  pub waiting : contents (w.contexts p).queue ≡ ms

-- One more message, where there is room in the deque.
pub context_push-Waiting :
    (p : Ptr) (h cells : ℕ) (ms : List SkynetMessage) (w : World) (m : SkynetMessage)
    → (b : Waiting p h cells ms w) → length ms + 1 < cells
    → (w' : World) × (context_push w h m ≡ some (w', true))
      × Delivers w p m b.gs w'
      × Waiting p h cells (ms ++ m ∷ []) w'
context_push-Waiting p h cells ms w m b room =
    let (w', done, d) = context_push-Delivers w b.gs h p m b.scheduled b.found in
    let room' : length (contents (w.contexts p).queue) + 1 < length (w.contexts p).queue.queue =
      rw (b.waiting, b.cells_are) room in
    (
      w',
      done,
      d,
      record {
        found = grab-SameHandles d.same_handles h ∙ b.found;
        gs = _;
        scheduled = d.scheduled;
        valid = subst IsValid (sym d.queue) (push-IsValid (w.contexts p).queue m b.valid);
        cells_are =
            ap (λ q. length q.queue) d.queue
            ∙ cells-push (w.contexts p).queue m b.valid room'
            ∙ b.cells_are;
        waiting =
            ap contents d.queue
            ∙ contents-push (w.contexts p).queue m b.valid room'
            ∙ ap (λ xs. xs ++ m ∷ []) b.waiting;
      },
    )

-- The oldest message is taken out of a queue that is marked `in_global`.
pub pop-Waiting :
    (p : Ptr) (h cells : ℕ) (m : SkynetMessage) (ms : List SkynetMessage) (w : World)
    → Waiting p h cells (m ∷ ms) w
    → (w.contexts p).queue.in_global ≡ true
    → ((mq_pop (w.contexts p).queue).0 ≡ some m)
      × Waiting p h cells ms (put_queue w p (mq_pop (w.contexts p).queue).1)
unfolding put_queue
pop-Waiting p h cells m ms w b marked =
    let q = (mq_pop (w.contexts p).queue).1 in
    let r = pop_Pops (w.contexts p).queue m ms b.valid b.waiting in
    let here = put_queue_self w p q in
    (
      r.first,
      record {
        found =
            grab-SameHandles (put_queue-SameHandles w p q (mq_pop_handle (w.contexts p).queue)) h
            ∙ b.found;
        gs = b.gs;
        scheduled =
            put_queue-Scheduled w p q w.global b.gs b.gs b.scheduled (r.in_global ∙ marked)
              b.scheduled.holds (λ x n i. i);
        valid = subst IsValid (sym here) r.valid;
        cells_are = ap (λ q. length q.queue) here ∙ r.cells ∙ b.cells_are;
        waiting = ap contents here ∙ r.left;
      },
    )
