-- ===== src/Service/Session.antt =====
-- Timeouts and responses: each callback is called once, by the message with its session.
use cpp_sk.Base.Maps.{find, insert, erase, find-insert, find-erase}
use cpp_sk.Message.{Bytes, Payload, is_nonpos}
use cpp_sk.Base.{
  ℕ, ◌+◌, ◌-◌, ◌^◌, ◌<◌, ◌≡◌, refl, ◌∙◌, ◌≢◌, false, Option, none, some, arith, ◌==◌, ==_refl,
}
use cpp_sk.World.{handle_of, put, newsession}
use cpp_sk.Service.{Closure, Service, timeout, on_response}
use cpp_sk.Timer.{timer_add}
use cpp_sk.TimerEvents

-- No callback waits for a session that is still to come, up to the end of the `int`.
pub record Ahead (s : Service) : Type 0 where
  pub small : (s.world.contexts s.self).session_id < 2 ^ 31 - 1
  pub no_timeout :
      (k : ℕ) → (s.world.contexts s.self).session_id < k → find k s.timeout_nodes ≡ none
  pub no_response :
      (k : ℕ) → (s.world.contexts s.self).session_id < k → find k s.response_cbs ≡ none

-- The service after a timeout that is set for later.
abbrev pub armed : Service → ℕ → Closure → Service
armed s ms c =
    let ctx = s.world.contexts s.self in
    let id = ctx.session_id + 1 in
    record s {
      world = put s.world s.self (record ctx { session_id = id });
      timer = timer_add s.timer ctx.handle id ms;
      timeout_nodes = insert id c s.timeout_nodes;
    }

pub timeout-armed :
    (s : Service) (ms : ℕ) (c : Closure)
    → (s.world.contexts s.self).session_id < 2 ^ 31 - 1
    → is_nonpos ms ≡ false
    → timeout s ms c ≡ some (armed s ms c, (s.world.contexts s.self).session_id + 1)
unfolding timeout newsession TimerEvents.timeout
timeout-armed s ms c small later = ground (arith, small, later)

-- The service when the callback of a session is called.
abbrev pub fired : Service → ℕ → Service
fired s id = record s { timeout_nodes = erase id s.timeout_nodes }

armed_session :
    (s : Service) (ms : ℕ) (c : Closure)
    → ((armed s ms c).world.contexts s.self).session_id ≡ (s.world.contexts s.self).session_id + 1
unfolding put
armed_session s ms c = ground arith

-- The numbers of new timeouts stay new.
armed-Ahead :
    (s : Service) (ms : ℕ) (c : Closure)
    → Ahead s
    → (s.world.contexts s.self).session_id + 1 < 2 ^ 31 - 1
    → Ahead (armed s ms c)
armed-Ahead s ms c a small =
    let e = armed_session s ms c in
    let id = (s.world.contexts s.self).session_id + 1 in
    record {
      small = omega (arith, e);
      no_timeout = λ k h.
          let old = a.no_timeout k (omega (arith, e)) in
          let other : (id == k) ≡ false = ground (arith, e, h) in
          find-insert id k c s.timeout_nodes ∙ rw other old;
      no_response = λ k h. a.no_response k (omega (arith, e));
    }

module _ (call : Closure → Service → Option Service)
    (call_text : Closure → Bytes → Service → Option Service) where
  -- Where no callback waits under a session above the last one given out, and the numbers are not
  -- within two of the largest `int`: a timeout of a positive time gets the next number and arms the
  -- timer with it, the first response with that session calls its callback and nothing else, a second
  -- one does nothing, the other timeouts keep their callbacks, and no callback waits under a session
  -- above the new one.
  pub timeout_once :
      (s : Service) (ms : ℕ) (c : Closure) (a : Payload)
      → Ahead s
      → (s.world.contexts s.self).session_id + 1 < 2 ^ 31 - 1
      → is_nonpos ms ≡ false
      → (t : Service) × (id : ℕ) × (timeout s ms c ≡ some (t, id))
        × (on_response call call_text t id a ≡ call c (fired t id))
        × (on_response call call_text (fired t id) id a ≡ some (fired t id))
        × ((k : ℕ) → k ≢ id → find k t.timeout_nodes ≡ find k s.timeout_nodes)
        × Ahead t
        × (id ≡ (s.world.contexts s.self).session_id + 1)
        × (t.timer ≡ timer_add s.timer (handle_of s.world s.self) id ms)
  unfolding on_response
  timeout_once s ms c a ahead small later =
      let id = (s.world.contexts s.self).session_id + 1 in
      let t = armed s ms c in
      let free : find id s.response_cbs ≡ none = ahead.no_response id (omega arith) in
      let there : find id t.timeout_nodes ≡ some c =
        find-insert id id c s.timeout_nodes ∙ rw (==_refl id) refl in
      let gone : find id (erase id t.timeout_nodes) ≡ none =
        find-erase id id t.timeout_nodes ∙ rw (==_refl id) refl in
      (
        t,
        id,
        timeout-armed s ms c ahead.small later,
        rw (free, there, on_response) refl,
        rw (free, gone, on_response) refl,
        λ k n. find-insert id k c s.timeout_nodes ∙ ground (arith, n),
        armed-Ahead s ms c ahead small,
        refl,
        refl,
      )
