-- ===== src/Scheduler/Tests/Call.antt =====
-- Worker 0 of the first service calls `context_message_dispatch`.
use cpp_sk.Scheduler.Tests.{
  first_world, first-Starts, launching1, world3, waiting3, waiting3-Reach, made3,
}
use cpp_sk.Base.{ℕ, ◌<◌, ◌≡◌, refl, ◌∙◌, Option, none, some, [], ◌∷◌, arith}
use cpp_sk.Scheduler.{Hand, hold, Reach, at_rest, working, launching}
use cpp_sk.Scheduler.Hands.{hold-ne}
use cpp_sk.Handle.{check_range, or_harbor}
use cpp_sk.World.{World, put, grab, context_push}
use cpp_sk.HandleStorage.{Ptr, handle_grab, handle_register, scan, claim}
use cpp_sk.MessageQueue
use cpp_sk.MessageQueue.{mq_push, store}
use cpp_sk.MessageQueue.Contents.{contents, ring}
use cpp_sk.GlobalQueue.{GlobalQueue}
use cpp_sk.GlobalQueue
use cpp_sk.Launch.{enroll}
use cpp_sk.Scheduler.Fit.{Fit, at, Lands, stay}
use cpp_sk.Scheduler.Worker.{dispatch-Reach}
use cpp_sk.Scheduler.Invariant.{Inv}
use cpp_sk.Scheduler.{putting}
use cpp_sk.Dispatch.{context_message_dispatch}
use cpp_sk.Monitor.{SkynetMonitor}
use cpp_sk.Message.{Bytes, SkynetMessage}
use cpp_sk.HandleStorage.{holds, hash}
use cpp_sk.World.{handle_of}
use cpp_sk.Base.{get_elem?, subst, sym, zero, suc}
use cpp_sk.Dispatch.{take_queue}

first_slots : world3.storage.slot ≡ none ∷ some 0 ∷ none ∷ none ∷ []
unfolding enroll handle_register scan claim or_harbor put check_range MessageQueue.new
    GlobalQueue.push grab handle_grab context_push mq_push store take_queue GlobalQueue.pop contents
    ring
first_slots = refl

only_first :
    (f : Ptr → ℕ) (h k : ℕ) (p : Ptr)
    → holds f h (get_elem? (none ∷ some 0 ∷ none ∷ none ∷ []) k) ≡ some p
    → p ≡ 0
unfolding holds
only_first f h zero p e = absurd (cc (e))
only_first f h (suc zero) p e = ground (arith, e)
only_first f h (suc (suc zero)) p e = absurd (cc (e))
only_first f h (suc (suc (suc zero))) p e = absurd (cc (e))
only_first f h (suc (suc (suc (suc k)))) p e = absurd (cc (e))

live0 : grab world3 (world3.contexts 0).queue.handle ≡ some 0
unfolding enroll handle_register scan claim or_harbor put check_range MessageQueue.new
    GlobalQueue.push grab handle_grab context_push mq_push store take_queue GlobalQueue.pop contents
    ring
live0 = refl

fresh3 : world3.fresh ≡ 1
unfolding enroll handle_register scan claim or_harbor put check_range MessageQueue.new
    GlobalQueue.push grab handle_grab context_push mq_push store take_queue GlobalQueue.pop contents
    ring
fresh3 = refl

world3-Fit : Fit world3
unfolding grab handle_grab
world3-Fit = record {
  made = λ h p e.
      let only = only_first (handle_of world3) h (hash world3.storage.slot h) p (
        subst
          (λ xs. holds (handle_of world3) h (get_elem? xs (hash world3.storage.slot h)) ≡ some p)
          first_slots e) in
      subst (λ x. x < world3.fresh) (sym only) made3;
  live = λ p l.
      let only : 0 ≡ p = omega (arith, l, fresh3) in
      subst (λ x. grab world3 (world3.contexts x).queue.handle ≡ some x) only live0;
}

-- A callback that does nothing.
silent : Ptr → SkynetMessage → World → Option (World × ℕ)
silent p msg w = some (w, 0)

abbrev no_text : ℕ → Bytes
no_text n = []

abbrev idle_monitor : SkynetMonitor
idle_monitor = record { version = 0; check_version = 0; source = 0; destination = 0 }

putting3 : waiting3.held (putting 0) ≡ none
putting3 =
    hold-ne launching1.held (launching 0) none (putting 0) (λ e. cc)
    ∙ hold-ne (λ a. none) (launching 0) (some 0) (putting 0) (λ e. cc)

silent_acts :
    (p : Ptr) (msg : SkynetMessage) (w : World) (held : Hand → Option Ptr)
    → held (working 0) ≡ some p
    → Inv (at w held)
    → Fit w
    → (w' : World) × (r : ℕ) × (silent p msg w ≡ some (w', r)) × Lands w held w' held
unfolding silent
silent_acts p msg w held h i f = (w, 0, refl, stay i f)

dispatch-Reach_example :
    (w' : World) × (m' : SkynetMonitor) × (nq : Option Ptr) × (context_message_dispatch silent
        no_text world3 idle_monitor
        (waiting3.held (working 0))
        none
      ≡ some (w', m', nq))
    × Reach (at_rest first_world) (at w' (hold waiting3.held (working 0) nq))
    × Fit w'
dispatch-Reach_example =
    dispatch-Reach silent no_text 0 silent_acts none first_world world3 waiting3.held idle_monitor
      first-Starts waiting3-Reach putting3 world3-Fit
