-- ===== src/Dispatch/Orphan.antt =====
-- Queues whose context is gone.
use cpp_sk.Base.{
  ℕ, ◌≡◌, refl, ap, ◌∙◌, inl, inr, false, Option, none, some, List, ◌∷◌, arith, Option-cases,
}
use cpp_sk.World.{World, put, put_queue, grab, publish}
use cpp_sk.Dispatch.{
  release_queue, leave, report_overload, serve, loop, serve_queue, context_message_dispatch,
}
use cpp_sk.Monitor.{SkynetMonitor}
use cpp_sk.Dispatch.{SkynetMonitor}
use cpp_sk.HandleStorage.{Ptr}
use cpp_sk.Message.{Bytes, SkynetMessage}
use cpp_sk.MessageQueue.{mq_pop, mq_release}
use cpp_sk.GlobalQueue
use cpp_sk.MessageQueue.Contents.{IsValid, contents}
use cpp_sk.MessageQueue.Pop.{pop_Pops}

module _ (callback : Ptr → SkynetMessage → World → Option (World × ℕ))
    (overload_text : ℕ → Bytes) where
  -- Without a context a message cannot be served.
  serve-none :
      (w : World) (m : SkynetMonitor) (q : Ptr) (h : ℕ) (msg : SkynetMessage)
      → serve callback overload_text w m q h none msg ≡ none
  unfolding serve
  serve-none w m q h msg = elim (Option-cases (report_overload overload_text w q none)) [
    | inl e ↦ ground (arith, e)
    | inr (w', e) ↦ ground (arith, e)
  ]

  loop-none :
      (weight : Option ℕ) (w : World) (m : SkynetMonitor) (q : Ptr) (h : ℕ) (msg : SkynetMessage)
      → (mq_pop (w.contexts q).queue).0 ≡ some msg
      → loop callback overload_text weight w m q h none ≡ none
  unfolding loop
  loop-none weight w m q h msg e =
      let w' = put_queue w q (mq_pop (w.contexts q).queue).1 in
      ground (arith, e, serve-none w' m q h msg)

  -- The queue that `mq_release` puts back in the global list keeps its messages.
  release_unmarked :
      (w w' : World) (q : Ptr) (h : ℕ)
      → (w.contexts q).queue.release ≡ false
      → release_queue w q h ≡ some w'
      → (w'.contexts q).queue ≡ (w.contexts q).queue
  unfolding release_queue publish mq_release put_queue put
  release_unmarked w w' q h r e =
      let g = GlobalQueue.push w.global q in
      elim (Option-cases g) [
        | inl n ↦ ground (arith, r, e, n)
        | inr (x, n) ↦ ground (arith, r, e, n)
      ]

  -- A worker that takes a valid queue with messages, whose context is gone and which `mark_release` has
  -- not marked, does not get through: an `assert` fails or it reads a null context.
  pub serve_orphan :
      (w : World) (m : SkynetMonitor) (q : Ptr) (weight : Option ℕ) (msg : SkynetMessage)
      (rest : List SkynetMessage)
      → grab w (w.contexts q).queue.handle ≡ none
      → (w.contexts q).queue.release ≡ false
      → IsValid (w.contexts q).queue
      → contents (w.contexts q).queue ≡ msg ∷ rest
      → context_message_dispatch callback overload_text w m (some q) weight ≡ none
  unfolding context_message_dispatch serve_queue leave
  serve_orphan w m q weight msg rest gone unmarked valid full =
      let h = (w.contexts q).queue.handle in
      elim (Option-cases (release_queue w q h)) [
        | inl e ↦ rw (gone, e, context_message_dispatch, serve_queue) refl
        | inr (w', e) ↦
            let same = release_unmarked w w' q h unmarked e in
            let first = ap (λ x. (mq_pop x).0) same ∙ (pop_Pops _ msg rest valid full).first in
            rw (gone, e, loop-none weight w' m q h msg first, context_message_dispatch, serve_queue)
              refl
      ]
