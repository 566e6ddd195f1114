-- ===== src/Timer/Tick/Exact.antt =====
-- Below the horizon every node expires at its tick, once, and at no other.
use cpp_sk.Base.{
  ℕ, zero, suc, ◌+◌, ◌≤◌, ◌<◌, ◌≡◌, refl, ap, ◌∙◌, ◌≢◌, Bool, false, ◌&&◌, some, List, [], ◌∷◌,
  arith, ◌==◌, if◌then◌else◌, get_or,
}
use native.Mathlib.Nat.{mod-eq_of_lt}
use cpp_sk.Timer.{Node, Timer, add_node, timer_add, timer_execute, timer_update, ticks}
use cpp_sk.Timer.Nodes.{
  All, All-mono, AllAt-mono, tally, pending, tally_none, tally_lists_none, tally_levels_none,
}
use cpp_sk.Handle.{u32_mod}
use cpp_sk.Timer.Level.{horizon, InLevel, RowsAt, IsValid, Settled}
use cpp_sk.Timer.Add.{add_lem}
use cpp_sk.Timer.Tick.Execute.{execute-Settled, execute_lem}
use cpp_sk.Timer.Tick.Shift.{shift_lem}

-- The test `p`, for the nodes that expire at the tick `k`.
abbrev pub due_at : (Node → Bool) → ℕ → Node → Bool
due_at p k n = p n && n.expire == k

-- A wheel between two ticks.
pub record IsReady (t : Timer) : Type 0 where
  pub valid : IsValid t
  pub settled : Settled t

-- Nothing that waits in a settled wheel was due by now.
nothing_due :
    (t : Timer) (p : Node → Bool) (k : ℕ) → IsReady t → k ≤ t.time → pending (due_at p k) t ≡ 0
unfolding pending
nothing_due t p k r past =
    let v = r.valid in
    omega (
      arith,
      tally_lists_none (due_at p k) 0 t.near (
          AllAt-mono {P = λ j l. All (λ n. t.time < n.expire) l} 0 t.near
            (λ j l _ a. All-mono l (λ n h. not_due p k n (omega (arith, h))) a) r.settled),
      tally_levels_none (due_at p k) 0 t.wheel (
          AllAt-mono {P = RowsAt t.time} 0 t.wheel
            (λ i rows _ a.
              AllAt-mono {P = λ j l. All (InLevel t.time i j) l} 0 rows
                (λ j l _ b.
                  All-mono {P = InLevel t.time i j} l (λ n h. not_due p k n (later i j n h)) b)
                a.1)
            v.wheel_at),
    )
  where
    not_due : (p : Node → Bool) (k : ℕ) (n : Node) → k < n.expire → due_at p k n ≡ false
    not_due p k n h = ground (arith, h)

    later : (i j : ℕ) (n : Node) → InLevel t.time i j n → k < n.expire
    later zero j n h = omega (arith, h.0, h.1)
    later (suc i) j n h = omega (arith, h.0, r.valid.low)

-- One call of `timer_update`.
pub record Ticks (t : Timer) (fired : List Node) (t' : Timer) : Type 0 where
  pub ready : IsReady t'
  pub time : t'.time ≡ t.time + 1
  pub due : All (λ n. n.expire ≡ t.time + 1) fired
  pub counts : (test : Node → Bool) → pending test t' + tally test fired ≡ pending test t

-- `timer_update` on a ready wheel goes through, hands out only nodes that expire at the new tick,
-- and keeps all others.
pub update_lem :
    (t : Timer)
    → IsReady t
    → t.time + 1 < horizon
    → (fired : List Node) × (t' : Timer) × (timer_update t ≡ some (fired, t')) × Ticks t fired t'
unfolding timer_update
update_lem t r low =
    let (s, shifted, m) = shift_lem t r.valid r.settled low in
    let w = execute_lem s m.valid in
    let now = m.time in
    (
      (timer_execute s).0,
      (timer_execute s).1,
      ground (arith, execute-Settled t r.valid r.settled, shifted),
      record {
        ready = record { valid = w.valid; settled = w.settled };
        time = w.time ∙ now;
        due = All-mono (timer_execute s).0 (λ n e. e ∙ now) w.due;
        counts = λ test. omega (arith, w.counts test, m.counts test);
      },
    )

tally_due :
    (p : Node → Bool) (k : ℕ) (ns : List Node)
    → All (λ n. n.expire ≡ k) ns
    → tally (due_at p k) ns ≡ tally p ns
tally_due p k [] a = refl
tally_due p k (n ∷ ns) a =
    let e : due_at p k n ≡ p n = ground (arith, a.0) in
    omega (arith, tally_due p k ns a.1, ap {B = ℕ} (λ b. if b then 1 else 0) e)

tally_not_due :
    (p : Node → Bool) (k j : ℕ) (ns : List Node)
    → k ≢ j
    → All (λ n. n.expire ≡ j) ns
    → tally (due_at p k) ns ≡ 0
tally_not_due p k j ns ne a =
    tally_none (due_at p k) ns (All-mono ns (λ n e. ground (arith, e, ne)) a)

exact_cons :
    (t t1 : Timer) (fired : List Node) (rest : List (List Node)) (count : ℕ)
    → Ticks t fired t1
    → ((p : Node → Bool) (i : ℕ)
        → i < count
        → tally p (get_or rest i []) ≡ pending (due_at p (t1.time + 1 + i)) t1)
    → (p : Node → Bool) (i : ℕ) → i < suc count
    → tally p (get_or (fired ∷ rest) i []) ≡ pending (due_at p (t.time + 1 + i)) t
exact_cons t t1 fired rest count w exact p zero h =
    let k = t.time + 1 in
    let at : t.time + 1 + 0 ≡ k = omega arith in
    rw at (
      omega (
        arith,
        w.counts (due_at p k),
        nothing_due t1 p k w.ready (omega (arith, w.time)),
        tally_due p k fired w.due,
      ))
exact_cons t t1 fired rest count w exact p (suc i) h =
    let k = t.time + 1 + suc i in
    let at : t1.time + 1 + i ≡ k = omega (arith, w.time) in
    omega (
      arith,
      exact p i (omega arith),
      ap (λ j. pending (due_at p j) t1) at,
      w.counts (due_at p k),
      tally_not_due p k (t.time + 1) fired (omega arith) w.due,
    )

-- After `count` ticks from a ready wheel, all below the horizon, the list handed out by each tick
-- holds exactly the nodes that were waiting for that tick: for every test, as many pass it as
-- waiting nodes with that tick as their time do.
pub ticks_exact :
    (count : ℕ) (t : Timer)
    → IsReady t
    → t.time + count < horizon
    → (fired : List (List Node)) × (t' : Timer) × (ticks count t ≡ some (fired, t'))
      × IsReady t'
      × (t'.time ≡ t.time + count)
      × ((p : Node → Bool) (i : ℕ)
          → i < count
          → tally p (get_or fired i []) ≡ pending (due_at p (t.time + 1 + i)) t)
unfolding ticks
ticks_exact zero t r low = ([], t, refl, r, omega arith, λ p i h. elim h [ ])
ticks_exact (suc count) t r low =
    let (fired, t1, run, w) = update_lem t r (omega arith) in
    let at = w.time in
    let (rest, t2, runs, r2, end, exact) = ticks_exact count t1 w.ready (omega (arith, at)) in
    (
      fired ∷ rest,
      t2,
      ground (arith, run, runs),
      r2,
      omega (arith, end, at),
      exact_cons t t1 fired rest count w exact,
    )

timer_add_lem :
    (t : Timer) (handle session timeout : ℕ)
    → t.time + timeout < u32_mod
    → timer_add t handle session timeout
      ≡ add_node t (record { expire = t.time + timeout; handle = handle; session = session })
unfolding timer_add
timer_add_lem t handle session timeout h =
    ap (λ e. add_node t (record { expire = e; handle = handle; session = session }))
      (mod-eq_of_lt h)

same_tick :
    (p : Node → Bool) (n : Node) (now i timeout : ℕ)
    → n.expire ≡ now + timeout
    → due_at p (now + 1 + i) n ≡ (p n && suc i == timeout)
same_tick p n now i timeout e = ground (arith, e)

-- A timeout of `timeout` ticks that `timer_add` takes at a ready wheel is handed out by the tick
-- `timeout` from then, and by no earlier or later one; the other nodes keep their ticks.
pub timeout_exact :
    (t : Timer) (handle session timeout count : ℕ)
    → IsReady t
    → 0 < timeout
    → t.time + timeout < horizon
    → t.time + count < horizon
    → let node : Node = record { expire = t.time + timeout; handle = handle; session = session } in
      (fired : List (List Node)) × (t' : Timer) × (ticks count (timer_add t handle session timeout)
        ≡ some (fired, t'))
      × ((p : Node → Bool) (i : ℕ)
          → i < count
          → tally p (get_or fired i [])
            ≡ pending (due_at p (t.time + 1 + i)) t + (if p node && suc i == timeout then 1 else 0))
timeout_exact t handle session timeout count r pos low far =
    let node : Node = record { expire = t.time + timeout; handle = handle; session = session } in
    let w = add_lem t node r.valid (omega arith) (omega arith) in
    let at = w.time in
    let ready : IsReady (add_node t node) = record {
      valid = w.valid;
      settled = w.settled r.settled (omega arith);
    } in
    let (fired, t', run, _, _, exact) =
      ticks_exact count (add_node t node) ready (omega (arith, at)) in
    (
      fired,
      t',
      ap (ticks count) (timer_add_lem t handle session timeout (omega arith)) ∙ run,
      λ p i h.
          exact p i h
          ∙ ap (λ j. pending (due_at p (j + 1 + i)) (add_node t node)) at
          ∙ w.counts (due_at p (t.time + 1 + i))
          ∙ ap (λ b. pending (due_at p (t.time + 1 + i)) t + (if b then 1 else 0))
              (same_tick p node t.time i timeout refl),
    )
