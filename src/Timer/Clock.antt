-- ===== src/Timer/Clock.antt =====
-- `update` against the system clock: how far a call moves the timer on.
use cpp_sk.Base.{
  ℕ, zero, suc, ◌+◌, ◌-◌, ◌*◌, ◌/◌, ◌%◌, ◌^◌, ◌<◌, bit_and, ◌≡◌, refl, ap, subst, ◌∙◌, inl, inr,
  ◌&&◌, Option, none, some, List, [], ◌∷◌, arith, ltb, leb, ◌==◌, if◌then◌else◌, ltb→lt, Bool-cases,
  Option-cases, length, get_elem?, set,
}
use cpp_sk.Timer.{
  time_near_shift, time_near, time_near_mask, Node, Timer, centisecond, add_node, add_nodes,
  move_list, shift_loop, shift_fuel, timer_shift, execute_loop, timer_execute, timer_update, ticks,
  update,
}
use cpp_sk.Handle.{u32_mod}

-- What no tick touches, and how the time moves.
pub record Keeps (n : ℕ) (t t' : Timer) : Type 0 where
  pub time : t'.time ≡ (t.time + n) % u32_mod
  pub starttime : t'.starttime ≡ t.starttime
  pub current : t'.current ≡ t.current
  pub current_point : t'.current_point ≡ t.current_point

-- The same fields, with the time as it was.
record Stays (t t' : Timer) : Type 0 where
  time : t'.time ≡ t.time
  starttime : t'.starttime ≡ t.starttime
  current : t'.current ≡ t.current
  current_point : t'.current_point ≡ t.current_point

Stays-refl : (t : Timer) → Stays t t
Stays-refl t = record { time = refl; starttime = refl; current = refl; current_point = refl }

Stays-trans : {s t u : Timer} → Stays s t → Stays t u → Stays s u
Stays-trans a b = record {
  time = b.time ∙ a.time;
  starttime = b.starttime ∙ a.starttime;
  current = b.current ∙ a.current;
  current_point = b.current_point ∙ a.current_point;
}

add-Stays : (t : Timer) (n : Node) → Stays t (add_node t n)
unfolding add_node
add-Stays t n = ground arith

add_nodes-Stays : (ns : List Node) (t : Timer) → Stays t (add_nodes t ns)
unfolding add_nodes
add_nodes-Stays [] t = Stays-refl t
add_nodes-Stays (n ∷ ns) t = Stays-trans (add-Stays t n) (add_nodes-Stays ns (add_node t n))

move-Stays : (t : Timer) (level idx : ℕ) {t' : Timer} → move_list t level idx ≡ some t' → Stays t t'
unfolding move_list
move-Stays t level idx {t'} e = elim (Option-cases (get_elem? t.wheel level)) [
  | inl out ↦ absurd (ground (arith, out, e))
  | inr (lists, at) ↦ elim (Option-cases (get_elem? lists idx)) [
    | inl out ↦ absurd (ground (arith, at, out, e))
    | inr (nodes, here) ↦
        let s = record t { wheel = set t.wheel level (set lists idx []) } in
        let r : Stays t (add_nodes s nodes) =
          Stays-trans
            (record { time = refl; starttime = refl; current = refl; current_point = refl })
            (add_nodes-Stays nodes s) in
        let same : some (add_nodes s nodes) ≡ some t' = ground (arith, at, here, e) in
        subst (Stays t) (some_eq same) r
  ]
]
  where
    some_eq : {a b : Timer} → some a ≡ some b → a ≡ b
    some_eq p = cc

loop-Stays :
    (fuel : ℕ) (t : Timer) (ct mask time i : ℕ) {t' : Timer}
    → shift_loop fuel t ct mask time i ≡ some t'
    → Stays t t'
unfolding shift_loop
loop-Stays zero t ct mask time i e = cc
loop-Stays (suc fuel) t ct mask time i {t'} e =
    elim (Bool-cases (bit_and ct ((mask + u32_mod - 1) % u32_mod) == 0)) [
      | inr done ↦ subst (Stays t) (ground (arith, done, e)) (Stays-refl t)
      | inl more ↦ elim (Bool-cases (bit_and time time_near_mask == 0)) [
        | inr found ↦
            move-Stays t i (bit_and time time_near_mask) {t' = t'} (ground (arith, more, found, e))
        | inl none_here ↦
            loop-Stays fuel t ct (mask * 2 ^ time_near_shift % u32_mod) (time / 2 ^ time_near_shift)
              (i + 1) {t' = t'} (ground (arith, more, none_here, e))
      ]
    ]

shift-Keeps : (t : Timer) {t' : Timer} → timer_shift t ≡ some t' → Keeps 1 t t'
unfolding timer_shift
shift-Keeps t {t'} e =
    let s = record t { time = (t.time + 1) % u32_mod } in
    let r : Stays s t' = elim (Bool-cases ((t.time + 1) % u32_mod == 0)) [
      | inl over ↦ move-Stays s 3 0 {t' = t'} (ground (arith, over, e))
      | inr on ↦
          loop-Stays shift_fuel s ((t.time + 1) % u32_mod) time_near
            ((t.time + 1) % u32_mod / 2 ^ time_near_shift) 0 {t' = t'} (ground (arith, on, e))
    ] in
    record {
      time = r.time;
      starttime = r.starttime;
      current = r.current;
      current_point = r.current_point;
    }

execute-Stays : (fuel : ℕ) (t : Timer) → Stays t (execute_loop fuel t).1
unfolding execute_loop
execute-Stays zero t = Stays-refl t
execute-Stays (suc fuel) t =
    let i = bit_and t.time time_near_mask in
    ground (arith, execute-Stays fuel (record t { near = set t.near i [] }))

update-Keeps : (t : Timer) {r : List Node × Timer} → timer_update t ≡ some r → Keeps 1 t r.1
unfolding timer_update timer_execute
update-Keeps t {r} e =
    let a = execute-Stays 2 t in
    let t1 = (execute_loop 2 t).1 in
    elim (Option-cases (timer_shift t1)) [
      | inl out ↦ absurd (ground (arith, out, e))
      | inr (t2, run) ↦
          let b = shift-Keeps t1 {t' = t2} run in
          let c = execute-Stays 2 t2 in
          let last : r.1 ≡ (execute_loop 2 t2).1 = ground (arith, run, e) in
          rw last (record {
            time = c.time ∙ b.time ∙ ap (λ x. (x + 1) % u32_mod) a.time;
            starttime = c.starttime ∙ b.starttime ∙ a.starttime;
            current = c.current ∙ b.current ∙ a.current;
            current_point = c.current_point ∙ b.current_point ∙ a.current_point;
          })
    ]

-- `n` ticks, where they go through, move the wheel on by `n` and leave the clock alone; each of
-- them hands out one list.
pub ticks-Keeps :
    (n : ℕ) (t : Timer) {r : List (List Node) × Timer}
    → t.time < u32_mod
    → ticks n t ≡ some r
    → Keeps n t r.1 × (length r.0 ≡ n)
unfolding ticks
ticks-Keeps zero t {r} word e =
    let same : r ≡ ([], t) = ground (arith, e) in
    rw same
      (record { time = omega arith; starttime = refl; current = refl; current_point = refl }, refl)
ticks-Keeps (suc n) t {r} word e = elim (Option-cases (timer_update t)) [
  | inl out ↦ absurd (ground (arith, out, e))
  | inr ((fired, t1), run) ↦ elim (Option-cases (ticks n t1)) [
    | inl out ↦ absurd (ground (arith, run, out, e))
    | inr ((rest, t2), runs) ↦
        let a = update-Keeps t {r = (fired, t1)} run in
        let (b, len) = ticks-Keeps n t1 {r = (rest, t2)} (omega (arith, a.time)) runs in
        let same : r ≡ (fired ∷ rest, t2) = ground (arith, run, runs, e) in
        rw same (
          record {
            time = omega (arith, b.time, a.time);
            starttime = b.starttime ∙ a.starttime;
            current = b.current ∙ a.current;
            current_point = b.current_point ∙ a.current_point;
          },
          ap suc len,
        )
  ]
]

-- What a call of `update` at the time `now` that goes through does. With `d` centiseconds passed
-- since the last refresh it makes `d` ticks and adds `d` to `current`; with none it does nothing;
-- and a clock that ran backwards makes no tick and sets the refresh time: only then is there a line for
-- the log.
pub update_clock :
    (now : ℕ) (t : Timer) {r : List (List Node) × Timer × Option (ℕ × ℕ)}
    → t.time < u32_mod
    → update now t ≡ some r
    → let d = (now - t.current_point) / centisecond in
      (length r.0 ≡ d)
      × (r.1.time ≡ (t.time + d) % u32_mod)
      × (r.1.current ≡ t.current + d)
      × (r.1.current_point ≡ (if leb t.current_point now && d == 0 then t.current_point else now))
      × (r.1.starttime ≡ t.starttime)
      × (r.2 ≡ (if ltb now t.current_point then some (now, t.current_point) else none))
unfolding update
update_clock now t {r} word e =
    let d = (now - t.current_point) / centisecond in
    elim (Bool-cases (ltb now t.current_point)) [
      | inl back ↦
          let same : r ≡ ([], record t { current_point = now }, some (now, t.current_point)) =
            ground (arith, back, e) in
          let zero_d : d ≡ 0 = omega (arith, ltb→lt _ _ back) in
          ground (arith, same, zero_d, back, word)
      | inr on ↦ elim (Bool-cases (ltb 0 d)) [
        | inr still ↦
            let same : r ≡ ([], t, none) = ground (arith, on, still, e) in
            ground (arith, same, still, on, word)
        | inl moved ↦
            let s = record t { current_point = now; current = t.current + d } in
            elim (Option-cases (ticks d s)) [
              | inl out ↦ absurd (ground (arith, on, moved, out, e))
              | inr ((fired, t1), run) ↦
                  let same : r ≡ (fired, t1, none) = ground (arith, on, moved, run, e) in
                  let (k, len) = ticks-Keeps d s {r = (fired, t1)} word run in
                  rw same (
                    len,
                    k.time,
                    k.current,
                    k.current_point ∙ ground (arith, moved),
                    k.starttime,
                    ground (arith, on),
                  )
            ]
      ]
    ]

-- The calls of `update` at the given times.
unfoldable pub updates : List ℕ → Timer → Option Timer
updates [] t = some t
updates (now ∷ times) t = elim (update now t) [
  | none ↦ none
  | some (fired, t', _) ↦ updates times t'
]

-- `n` times, `gap` nanoseconds apart.
abbrev pub every : ℕ → ℕ → ℕ → List ℕ
every zero gap start = []
every (suc n) gap start = (start + gap) ∷ every n gap (start + gap)

-- From any timer whose time is a 32-bit word, `n` calls of `update` that go through, `gap` apart
-- with `gap` at least a centisecond, move the timer on by `n` times the whole centiseconds of `gap`,
-- whatever `n * gap` is: the part of a centisecond that is left over is lost at each call.
pub updates_drift :
    (n gap : ℕ) (t : Timer) {t' : Timer}
    → t.time < u32_mod
    → 0 < gap / centisecond
    → updates (every n gap t.current_point) t ≡ some t'
    → t'.current ≡ t.current + n * (gap / centisecond)
unfolding updates
updates_drift zero gap t {t'} word whole e =
    let same : t' ≡ t = ground (arith, e) in rw same (omega arith)
updates_drift (suc n) gap t {t'} word whole e =
    let start = t.current_point in
    elim (Option-cases (update (start + gap) t)) [
      | inl out ↦ absurd (ground (arith, out, e))
      | inr ((fired, s, back), run) ↦
          let (len, time, current, point, _, _) =
            update_clock (start + gap) t {r = (fired, s, back)} word run in
          let d : (start + gap - start) / centisecond ≡ gap / centisecond = omega arith in
          let at : s.current_point ≡ start + gap = point ∙ ground (arith, d, whole) in
          let rest : updates (every n gap s.current_point) s ≡ some t' =
            rw at (ground (arith, run, e)) in
          let ih = updates_drift n gap s {t' = t'} (omega (arith, time)) whole rest in
          omega (arith, ih, current, d)
    ]
