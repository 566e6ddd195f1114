-- ===== src/Scheduler/Worker.antt =====
-- A call of `context_message_dispatch` is a row of steps of its worker.
use cpp_sk.Base.{
  ℕ, ◌≡◌, refl, subst, ◌∙◌, inl, inr, Option, none, some, Bool, true, false, Option-cases, ==_refl,
}
use cpp_sk.World.{World}
use cpp_sk.Scheduler.{Hand, hold, Reach, working, putting}
use cpp_sk.Scheduler.Hands.{hold_self, hold-ne}
use cpp_sk.Scheduler.Invariant.{Inv}
use cpp_sk.Scheduler.Fit.{Fit, at, Lands, Lands-trans}
use cpp_sk.Dispatch.{leave, serve_queue, context_message_dispatch}
use cpp_sk.Scheduler.Round.{after, loop_run}
use cpp_sk.Scheduler.{at_rest}
use cpp_sk.Scheduler.Leave.{hold-hold, take_run, next_run}
use cpp_sk.Scheduler.Safety.{Starts, Reach-Inv}
use cpp_sk.Scheduler.Fit.{Reach_trans}
use cpp_sk.Monitor.{SkynetMonitor}
use cpp_sk.HandleStorage.{Ptr}
use cpp_sk.Message.{Bytes, SkynetMessage}

module _ (callback : Ptr → SkynetMessage → World → Option (World × ℕ)) (overload_text : ℕ → Bytes)
    (i : ℕ)
    (acts : (p : Ptr) (msg : SkynetMessage) (w : World) (held : Hand → Option Ptr)
      → held (working i) ≡ some p
      → Inv (at w held)
      → Fit w
      → (w' : World) × (r : ℕ) × (callback p msg w ≡ some (w', r)) × Lands w held w' held) where
  -- What follows the loop.
  leave_run :
      (drained : Bool) (w : World) (held : Hand → Option Ptr) (m : SkynetMonitor) (q : Ptr)
      → held (working i) ≡ some q
      → held (putting i) ≡ none
      → Inv (at w (after i drained held))
      → Fit w
      → (w' : World) × (nq : Option Ptr) × (leave q (some q) (some (w, m, drained))
          ≡ some (w', m, nq))
        × Lands w (after i drained held) w' (hold held (working i) nq)
  unfolding leave
  leave_run true w held m q h k inv fit =
      let (w', nq, done, l) =
        take_run i w (hold held (working i) none) inv fit (hold_self held (working i) none) in
      (
        w',
        nq,
        rw (done, leave) refl,
        subst (Lands w (hold held (working i) none) w') (hold-hold held (working i) none nq) l,
      )
  leave_run false w held m q h k inv fit =
      let (w', nq, done, l) = next_run i w held inv fit q h k in
      (w', nq, rw (==_refl q, done, leave) refl, l)

  serve_queue_run :
      (weight : Option ℕ) (w : World) (held : Hand → Option Ptr) (m : SkynetMonitor) (q : Ptr)
      → held (working i) ≡ some q
      → held (putting i) ≡ none
      → Inv (at w held)
      → Fit w
      → (w' : World) × (m' : SkynetMonitor) × (nq : Option Ptr) × (serve_queue callback
            overload_text w m q weight
          ≡ some (w', m', nq))
        × Lands w held w' (hold held (working i) nq)
  unfolding serve_queue
  serve_queue_run weight w held m q h k inv fit =
      let found = fit.live q (inv.owned.made (working i) q h) in
      let handle = (w.contexts q).queue.handle in
      let (w1, m1, drained, looped, l) =
        loop_run callback overload_text i acts weight w held m q handle h inv fit in
      let (w', nq, left, l') = leave_run drained w1 held m1 q h k l.inv l.fit in
      (w', m1, nq, rw (found, looped, serve_queue) left, Lands-trans l l')

  dispatch_call :
      (weight : Option ℕ) (w : World) (held : Hand → Option Ptr) (m : SkynetMonitor)
      (q : Option Ptr)
      → held (working i) ≡ q
      → held (putting i) ≡ none
      → Inv (at w held)
      → Fit w
      → (w' : World) × (m' : SkynetMonitor) × (nq : Option Ptr) × (context_message_dispatch callback
            overload_text w m q weight
          ≡ some (w', m', nq))
        × Lands w held w' (hold held (working i) nq)
  unfolding context_message_dispatch
  dispatch_call weight w held m (some q) h k inv fit = serve_queue_run weight w held m q h k inv fit
  dispatch_call weight w held m none h k inv fit =
      let (w1, taken, done, l) = take_run i w held inv fit h in
      elim (Option-cases taken) [
        | inl e ↦ (
          w1,
          m,
          none,
          rw (done, e, context_message_dispatch) refl,
          subst (λ x. Lands w held w1 (hold held (working i) x)) e l,
        )
        | inr (q, e) ↦
            let held1 = hold held (working i) (some q) in
            let got = subst (λ x. Lands w held w1 (hold held (working i) x)) e l in
            let (w2, m2, nq, served, l') =
              serve_queue_run weight w1 held1 m q (hold_self held (working i) (some q))
                (hold-ne held (working i) (some q) (putting i) (λ x. cc) ∙ k) got.inv got.fit in
            (
              w2,
              m2,
              nq,
              rw (done, e, context_message_dispatch) served,
              subst (Lands w held w2) (hold-hold held (working i) (some q) nq) (Lands-trans got l'),
            )
      ]

  -- A worker of a reachable state, between two calls, where each context made is found by its handle,
  -- and callbacks return, do steps and keep that condition: its call of `context_message_dispatch`
  -- with the queue that it holds, or none, fails no assert and returns; the state that it leaves, in
  -- which the worker holds the queue returned and the other hands are as before, is reached by steps,
  -- and in it each context made is still found.
  pub dispatch-Reach :
      (weight : Option ℕ) (start w : World) (held : Hand → Option Ptr) (m : SkynetMonitor)
      → Starts start
      → Reach (at_rest start) (at w held)
      → held (putting i) ≡ none
      → Fit w
      → (w' : World) × (m' : SkynetMonitor) × (nq : Option Ptr) × (context_message_dispatch callback
            overload_text w m
            (held (working i))
            weight
          ≡ some (w', m', nq))
        × Reach (at_rest start) (at w' (hold held (working i) nq))
        × Fit w'
  dispatch-Reach weight start w held m s r k fit =
      let (w', m', nq, done, l) =
        dispatch_call weight w held m (held (working i)) refl k (Reach-Inv s r) fit in
      (w', m', nq, done, Reach_trans r l.run, l.fit)
