-- ===== src/Threads/Rounds.antt =====
-- A round of the timer's thread.
use cpp_sk.Base.{
  ℕ, ◌+◌, ◌-◌, ◌/◌, ◌%◌, ◌^◌, ◌<◌, ◌≡◌, refl, Bool, true, Option, none, some, List, [], ◌∷◌, arith,
  inl, inr, Bool-cases, Option-cases, ltb, ◌==◌, if◌then◌else◌, get_or, ltb→lt,
}
use cpp_sk.Threads.{Monitor, wakeup, dispatch_all, timer_round, log_back, time_site}
use cpp_sk.World.{World, grab, error, find_logger}
use cpp_sk.World.Log.{line_message}
use cpp_sk.Message.{Bytes}
use cpp_sk.World.Push.{Scheduled, context_push-none, context_push-Delivers}
use cpp_sk.TimerEvents.Laws.{dispatch_total}
use cpp_sk.Timer.{Timer, Node, centisecond, update}
use cpp_sk.Timer.Nodes.{tally, pending}
use cpp_sk.Timer.Level.{horizon}
use cpp_sk.Timer.Tick.Exact.{IsReady, due_at, ticks_exact}
use cpp_sk.HandleStorage.{Ptr}

-- `count` cancels out: a worker is notified exactly where one sleeps.
wakeup_lem :
    (m : Monitor)
    → m.count < 2 ^ 32
    → m.sleep < 2 ^ 31
    → wakeup m ((m.count + (2 ^ 32 - 1)) % 2 ^ 32) ≡ ltb 0 m.sleep
unfolding wakeup
wakeup_lem m c s = ground (arith, c, s)

dispatch_all_total :
    (w : World) (gs : List Ptr) (fired : List (List Node))
    → Scheduled w gs
    → (w' : World) × (gs' : List Ptr) × (dispatch_all w fired ≡ some w') × Scheduled w' gs'
unfolding dispatch_all
dispatch_all_total w gs [] s = (w, gs, refl, s)
dispatch_all_total w gs (ns ∷ rest) s =
    let (w1, gs1, sent, s1) = dispatch_total w gs ns s in
    let (w2, gs2, done, s2) = dispatch_all_total w1 gs1 rest s1 in
    (w2, gs2, rw (sent, done, dispatch_all) refl, s2)

retimed :
    (t : Timer) (point current : ℕ)
    → IsReady t
    → IsReady (record t { current_point = point; current = current })
retimed t point current r =
    let v = r.valid in
    record {
      valid = record {
        low = v.low;
        near_length = v.near_length;
        wheel_length = v.wheel_length;
        near_at = v.near_at;
        wheel_at = v.wheel_at;
      };
      settled = r.settled;
    }

-- The whole centiseconds from the last refresh to `now`.
abbrev pub passed : Timer → ℕ → ℕ
passed t now = (now - t.current_point) / centisecond

-- What `update` leaves, the nodes that it hands out, and what it logs: where the clock went back the two
-- times, and else nothing.
pub record Updates (t : Timer) (now : ℕ) (fired : List (List Node)) (t' : Timer)
    (back : Option (ℕ × ℕ)) : Type 0 where
  pub logged : back ≡ (if ltb now t.current_point then some (now, t.current_point) else none)
  pub ready : IsReady t'
  pub time : t'.time ≡ t.time + passed t now
  pub exact :
      (p : Node → Bool) (i : ℕ)
      → i < passed t now
      → tally p (get_or fired i []) ≡ pending (due_at p (t.time + 1 + i)) t

update_run :
    (t : Timer) (now : ℕ)
    → IsReady t
    → t.time + passed t now < horizon
    → (fired : List (List Node)) × (t' : Timer) × (back : Option (ℕ × ℕ)) × (update now t
        ≡ some (fired, t', back))
      × Updates t now fired t' back
unfolding update pending
update_run t now r low =
    let d = passed t now in
    elim (Bool-cases (ltb now t.current_point)) [
      | inl back ↦
          let zero_d : d ≡ 0 = omega (arith, ltb→lt _ _ back) in
          (
            [],
            record t { current_point = now },
            some (now, t.current_point),
            rw (back, update) refl,
            record {
              logged = rw back refl;
              ready = retimed t now t.current r;
              time = omega (arith, zero_d);
              exact = λ p i h. absurd (omega (arith, zero_d, h));
            },
          )
      | inr on ↦ elim (Bool-cases (ltb 0 d)) [
        | inr none_passed ↦
            let zero_d : d ≡ 0 = ground (arith, none_passed) in
            (
              [],
              t,
              none,
              rw (on, none_passed, update) refl,
              record {
                logged = rw on refl;
                ready = r;
                time = omega (arith, zero_d);
                exact = λ p i h. absurd (omega (arith, zero_d, h));
              },
            )
        | inl some_passed ↦
            let t1 = record t { current_point = now; current = t.current + d } in
            let (fired, t2, run, ready, time, exact) =
              ticks_exact d t1 (retimed t now (t.current + d) r) low in
            (
              fired,
              t2,
              none,
              rw (on, some_passed, update, run) refl,
              record { logged = rw on refl; ready = ready; time = time; exact = exact },
            )
      ]
    ]

-- The log keeps the global list in order.
error_total :
    (w : World) (gs : List Ptr) (site source : ℕ) (msg : Bytes)
    → Scheduled w gs
    → (w' : World) × (gs' : List Ptr) × (error w site source msg ≡ some w') × Scheduled w' gs'
unfolding error
error_total w gs site source msg s =
    let logger = find_logger w site in
    let w1 = record w { loggers = λ k. if k == site then logger else w.loggers k } in
    let s1 : Scheduled w1 gs = record { holds = s.holds; idle = s.idle } in
    elim (Bool-cases (logger == 0)) [
      | inl unnamed ↦ (w1, gs, rw (unnamed, error) refl, s1)
      | inr named ↦ elim (Option-cases (grab w1 logger)) [
        | inl e ↦ (
          w1,
          gs,
          rw (named, context_push-none w1 logger (line_message source msg) e, error) refl,
          s1,
        )
        | inr (p, e) ↦
            let (w', done, d) =
              context_push-Delivers w1 gs logger p (line_message source msg) s1 e in
            (w', _, rw (named, done, error) refl, d.scheduled)
      ]
    ]

module _ (time_text : ℕ → ℕ → Bytes) where
  log_back_total :
      (w : World) (gs : List Ptr) (back : Option (ℕ × ℕ))
      → Scheduled w gs
      → (w' : World) × (gs' : List Ptr) × (log_back time_text w back ≡ some w') × Scheduled w' gs'
  unfolding log_back
  log_back_total w gs none s = (w, gs, refl, s)
  log_back_total w gs (some (now, before)) s = error_total w gs time_site 0 (time_text now before) s

  -- From a ready wheel that stays below 2^14, a world whose global list is in order, a word `count` and
  -- a `sleep` below 2^31, a round of the timer's thread goes through. It logs a line exactly where the
  -- clock went back. The nodes handed out at each centisecond that has passed are exactly those that
  -- waited for it, their messages are then sent without a failed assert, the wheel is ready and the
  -- list in order afterwards. Where no context is left the thread ends the workers; else it notifies
  -- one exactly if one sleeps.
  pub timer_round_lem :
      (w : World) (gs : List Ptr) (t : Timer) (m : Monitor) (now : ℕ)
      → Scheduled w gs
      → IsReady t
      → t.time + passed t now < horizon
      → m.count < 2 ^ 32
      → m.sleep < 2 ^ 31
      → (fired : List (List Node)) × (t' : Timer) × (back : Option (ℕ × ℕ)) × (w0 : World)
        × (w' : World) × (gs' : List Ptr) × (timer_round time_text w t m now
            ≡ some (
                if w'.total == 0
                then (w', t', record m { quit = true }, true)
                else (w', t', m, ltb 0 m.sleep)))
        × Updates t now fired t' back
        × (log_back time_text w back ≡ some w0)
        × (dispatch_all w0 fired ≡ some w')
        × Scheduled w' gs'
  unfolding timer_round
  timer_round_lem w gs t m now s r low c z =
      let (fired, t', back, run, u) = update_run t now r low in
      let (w0, gs0, told, s0) = log_back_total w gs back s in
      let (w', gs', sent, s') = dispatch_all_total w0 gs0 fired s0 in
      (
        fired,
        t',
        back,
        w0,
        w',
        gs',
        rw (run, told, sent, wakeup_lem m c z, timer_round) refl,
        u,
        told,
        sent,
        s',
      )
