-- ===== src/Scheduler/Round.antt =====
-- The rounds of a worker's loop as steps.
use cpp_sk.Base.{
  ℕ, zero, suc, ◌+◌, ◌-◌, ◌%◌, ◌^◌, ◌≡◌, refl, ap, inl, inr, Option, none, some, Bool, true, false,
  arith, Bool-cases, Option-cases, ◌==◌, if◌then◌else◌,
}
use cpp_sk.World.{World, handle_of, put, put_queue}
use cpp_sk.World.Push.{SameHandles, put_queue-SameHandles}
use cpp_sk.Scheduler.{Hand, hold, SameQueues, working, serve, finish, overload, other}
use cpp_sk.Scheduler.Invariant.{Inv}
use cpp_sk.Scheduler.Fit.{Fit, SameHandles-Fit, at, Lands, stay, step-Lands, Lands-trans, error_run}
use cpp_sk.Dispatch.{
  overload_site, report_overload, dispatch, rounds, loop, batch, take_queue, next_queue, leave,
  serve_queue, context_message_dispatch,
}
use cpp_sk.Dispatch
use cpp_sk.Monitor.{SkynetMonitor, trigger}
use cpp_sk.HandleStorage.{Ptr}
use cpp_sk.Message.{Bytes, SkynetMessage, reserved_data}
use cpp_sk.MessageQueue.Pop.{mq_pop_handle}
use cpp_sk.MessageQueue.{MessageQueue, mq_pop, mq_overload}

mq_overload_handle : (q : MessageQueue) → (mq_overload q).1.handle ≡ q.handle
unfolding mq_overload
mq_overload_handle q = refl

counted :
    (w : World) (p : Ptr) (n : ℕ)
    → SameHandles w (put w p (record (w.contexts p) { message_count = n }))
unfolding put
counted w p n = record {
  storage = refl;
  fresh = refl;
  handle = λ r. ground arith;
  queue_handle = λ r. ground arith;
}

counted_queues :
    (w : World) (p : Ptr) (n : ℕ)
    → SameQueues w (put w p (record (w.contexts p) { message_count = n }))
unfolding put
counted_queues w p n = record {
  same_global = refl;
  same_fresh = refl;
  same_queue = λ r. ground arith;
}

pair_eq :
    (q : MessageQueue) (m : Option SkynetMessage) → (mq_pop q).0 ≡ m → mq_pop q ≡ (m, (mq_pop q).1)
pair_eq q m e = ap (λ x. (x, (mq_pop q).1)) e

module _ (overload_text : ℕ → Bytes) (i : ℕ) where
  -- The report of an overload of the worker's queue.
  report_run :
      (w : World) (held : Hand → Option Ptr) (q : Ptr)
      → held (working i) ≡ some q
      → Inv (at w held)
      → Fit w
      → (w' : World) × (report_overload overload_text w q (some q) ≡ some w') × Lands w held w' held
  unfolding report_overload
  report_run w held q h inv fit =
      let n = (mq_overload (w.contexts q).queue).0 in
      let mq = (mq_overload (w.contexts q).queue).1 in
      let w1 = put_queue w q mq in
      let first = step-Lands (overload i h) inv (
        SameHandles-Fit (put_queue-SameHandles w q mq (mq_overload_handle (w.contexts q).queue))
          fit) in
      elim (Bool-cases (n == 0)) [
        | inl e ↦ (w1, rw (e, report_overload) refl, first)
        | inr e ↦
            let (w', done, l) =
              error_run w1 held overload_site (handle_of w1 q) (overload_text n) first.inv
                first.fit in
            (w', rw (e, report_overload) done, Lands-trans first l)
      ]

-- The hands of worker `i` after the loop.
abbrev pub after : ℕ → Bool → (Hand → Option Ptr) → Hand → Option Ptr
after i drained held = if drained then hold held (working i) none else held

module _ (callback : Ptr → SkynetMessage → World → Option (World × ℕ)) (overload_text : ℕ → Bytes)
    (i : ℕ)
    (acts : (p : Ptr) (msg : SkynetMessage) (w : World) (held : Hand → Option Ptr)
      → held (working i) ≡ some p
      → Inv (at w held)
      → Fit w
      → (w' : World) × (r : ℕ) × (callback p msg w ≡ some (w', r)) × Lands w held w' held) where
  dispatch_run :
      (w : World) (held : Hand → Option Ptr) (p : Ptr) (msg : SkynetMessage)
      → held (working i) ≡ some p
      → Inv (at w held)
      → Fit w
      → (w' : World) × (m' : SkynetMessage) × (dispatch callback overload_text w p msg
          ≡ some (w', m'))
        × Lands w held w' held
  unfolding dispatch
  dispatch_run w held p msg h inv fit =
      let n = ((w.contexts p).message_count + 1) % 2 ^ 64 in
      let w1 = put w p (record (w.contexts p) { message_count = n }) in
      let first =
        step-Lands (other (counted_queues w p n)) inv (SameHandles-Fit (counted w p n) fit) in
      let (w', r, done, l) = acts p msg w1 held h first.inv first.fit in
      (
        w',
        (if r == 0 then msg else reserved_data msg),
        rw (done, dispatch) refl,
        Lands-trans first l,
      )

  serve_run :
      (w : World) (held : Hand → Option Ptr) (m : SkynetMonitor) (q : Ptr) (handle : ℕ)
      (msg : SkynetMessage)
      → held (working i) ≡ some q
      → Inv (at w held)
      → Fit w
      → (w' : World) × (m' : SkynetMonitor) × (Dispatch.serve callback overload_text w m q handle
            (some q)
            msg
          ≡ some (w', m'))
        × Lands w held w' held
  unfolding Dispatch.serve
  serve_run w held m q handle msg h inv fit =
      let (w1, told, first) = report_run overload_text i w held q h inv fit in
      let m' = trigger (trigger m msg.source handle) 0 0 in
      elim (Bool-cases (w1.contexts q).cb) [
        | inl e ↦
            let (w2, _, done, l) = dispatch_run w1 held q msg h first.inv first.fit in
            (w2, m', rw (told, e, done, Dispatch.serve) refl, Lands-trans first l)
        | inr e ↦ (w1, m', rw (told, e, Dispatch.serve) refl, first)
      ]

  rounds_run :
      (n : ℕ) (w : World) (held : Hand → Option Ptr) (m : SkynetMonitor) (q : Ptr) (handle : ℕ)
      → held (working i) ≡ some q
      → Inv (at w held)
      → Fit w
      → (w' : World) × (m' : SkynetMonitor) × (drained : Bool) × (rounds callback overload_text n w
            m q handle
            (some q)
          ≡ some (w', m', drained))
        × Lands w held w' (after i drained held)
  unfolding rounds
  rounds_run zero w held m q handle h inv fit = (w, m, false, refl, stay inv fit)
  rounds_run (suc n) w held m q handle h inv fit =
      let mq = (mq_pop (w.contexts q).queue).1 in
      let w1 = put_queue w q mq in
      let fit1 =
        SameHandles-Fit (put_queue-SameHandles w q mq (mq_pop_handle (w.contexts q).queue)) fit in
      elim (Option-cases (mq_pop (w.contexts q).queue).0) [
        | inl e ↦
            let l = step-Lands (finish i h (pair_eq _ _ e)) inv fit1 in
            (w1, m, true, rw (e, rounds) refl, l)
        | inr (msg, e) ↦
            let first = step-Lands (serve i h (pair_eq _ _ e)) inv fit1 in
            let (w2, m2, done, l) = serve_run w1 held m q handle msg h first.inv first.fit in
            let (w3, m3, drained, rest, l') = rounds_run n w2 held m2 q handle h l.inv l.fit in
            (w3, m3, drained, rw (e, done, rounds) rest, Lands-trans first (Lands-trans l l'))
      ]

  pub loop_run :
      (weight : Option ℕ) (w : World) (held : Hand → Option Ptr) (m : SkynetMonitor) (q : Ptr)
      (handle : ℕ)
      → held (working i) ≡ some q
      → Inv (at w held)
      → Fit w
      → (w' : World) × (m' : SkynetMonitor) × (drained : Bool) × (loop callback overload_text weight
            w m q handle
            (some q)
          ≡ some (w', m', drained))
        × Lands w held w' (after i drained held)
  unfolding loop
  loop_run weight w held m q handle h inv fit =
      let mq = (mq_pop (w.contexts q).queue).1 in
      let w1 = put_queue w q mq in
      let fit1 =
        SameHandles-Fit (put_queue-SameHandles w q mq (mq_pop_handle (w.contexts q).queue)) fit in
      elim (Option-cases (mq_pop (w.contexts q).queue).0) [
        | inl e ↦
            let l = step-Lands (finish i h (pair_eq _ _ e)) inv fit1 in
            (w1, m, true, rw (e, loop) refl, l)
        | inr (msg, e) ↦
            let first = step-Lands (serve i h (pair_eq _ _ e)) inv fit1 in
            let (w2, m2, done, l) = serve_run w1 held m q handle msg h first.inv first.fit in
            let (w3, m3, drained, rest, l') =
              rounds_run (batch weight mq - 1) w2 held m2 q handle h l.inv l.fit in
            (w3, m3, drained, rw (e, done, loop) rest, Lands-trans first (Lands-trans l l'))
      ]
