-- ===== src/Timer.antt =====
-- `timer` of cpp_sk.h and cpp_sk.cpp: the timing wheel. A `link_list` is the list of its nodes;
-- `link` adds at the end, and `clear` takes all. Times are `uint32_t`. `none` is an index out of the
-- range of `t_`, which C++ leaves undefined, or the end of the fuel. `timer_update` is one step: in
-- the model nobody adds a node while its lock is released for `dispatch`.
pub mod Clock
pub mod Nodes
pub mod Level
pub mod Add
pub mod Tick
pub mod Range
mod Tests
use cpp_sk.Base.{
  ℕ, zero, suc, ◌+◌, ◌-◌, ◌*◌, ◌/◌, ◌%◌, ◌^◌, Bool, true, false, Option, none, some, List, [], ◌∷◌,
  ◌++◌, bit_and, bit_or, ltb, leb, ◌==◌, if◌then◌else◌, length, get_elem?, get_or, set, replicate,
}
use cpp_sk.Handle.{u32_mod}

abbrev pub time_near_shift : ℕ
time_near_shift = 8

abbrev pub time_near : ℕ
time_near = 256

abbrev pub time_level_shift : ℕ
time_level_shift = 6

abbrev pub time_level : ℕ
time_level = 64

abbrev pub time_near_mask : ℕ
time_near_mask = 255

abbrev pub time_level_mask : ℕ
time_level_mask = 63

-- `timer_node_event`
pub record Node : Type 0 where
  pub expire : ℕ
  pub handle : ℕ
  pub session : ℕ

abbrev pub LinkList : Type 0
LinkList = List Node

-- `near_` and `t_` are `near` and `wheel`; `current_point_` counts nanoseconds since the epoch.
pub record Timer : Type 0 where
  pub near : List LinkList
  pub wheel : List (List LinkList)
  pub time : ℕ
  pub starttime : ℕ
  pub current : ℕ
  pub current_point : ℕ

-- Nanoseconds in a second and in a centisecond.
abbrev pub second : ℕ
second = 1_000_000_000

abbrev pub centisecond : ℕ
centisecond = 10_000_000

-- The constructor, at the time `now` of the system clock.
unfoldable pub new : ℕ → Timer
new now = record {
  near = replicate time_near [];
  wheel = replicate 4 (replicate time_level []);
  time = 0;
  starttime = now / second % u32_mod;
  current = (now - now / second % u32_mod * second) / centisecond;
  current_point = now;
}

-- `lists[i].link(node)`
unfoldable pub link : List LinkList → ℕ → Node → List LinkList
link lists i n = set lists i (get_or lists i [] ++ n ∷ [])

-- The `for` of `add_node`, `rounds` before its end: the level at which it breaks.
unfoldable pub find_level : ℕ → ℕ → ℕ → ℕ → ℕ → ℕ
find_level zero i mask time current = i
find_level (suc rounds) i mask time current =
    elim (bit_or time (mask - 1) == bit_or current (mask - 1)) [
      | true ↦ i
      | false ↦ find_level rounds (i + 1) (mask * 2 ^ time_level_shift % u32_mod) time current
    ]

-- `add_node`
unfoldable pub add_node : Timer → Node → Timer
unfolding link
add_node t n =
    if bit_or n.expire time_near_mask == bit_or t.time time_near_mask
    then record t { near = link t.near (bit_and n.expire time_near_mask) n }
    else (let i = find_level 3 0 (time_near * 2 ^ time_level_shift) n.expire t.time in
        let idx =
          bit_and (n.expire / 2 ^ (time_near_shift + i * time_level_shift)) time_level_mask in
        record t { wheel = set t.wheel i (link (get_or t.wheel i []) idx n) })

-- `timer_add`; `timeout` is an `int32_t`.
unfoldable pub timer_add : Timer → ℕ → ℕ → ℕ → Timer
timer_add t handle session timeout =
    add_node t
      (record { expire = (t.time + timeout) % u32_mod; handle = handle; session = session })

-- The `while` of `move_list`.
unfoldable pub add_nodes : Timer → List Node → Timer
add_nodes t [] = t
add_nodes t (n ∷ ns) = add_nodes (add_node t n) ns

-- `move_list`
unfoldable pub move_list : Timer → ℕ → ℕ → Option Timer
move_list t level idx = elim (get_elem? t.wheel level) [
  | none ↦ none
  | some lists ↦ elim (get_elem? lists idx) [
    | none ↦ none
    | some nodes ↦
        some (add_nodes (record t { wheel = set t.wheel level (set lists idx []) }) nodes)
  ]
]

-- The `while` of `timer_shift`, with fuel. `mask` is an `int`: after three rounds it is 0, and
-- `mask - 1` is then all ones.
unfoldable pub shift_loop : ℕ → Timer → ℕ → ℕ → ℕ → ℕ → Option Timer
shift_loop zero t ct mask time i = none
shift_loop (suc fuel) t ct mask time i = elim (bit_and ct ((mask + u32_mod - 1) % u32_mod) == 0) [
  | false ↦ some t
  | true ↦ elim (bit_and time time_near_mask == 0) [
    | false ↦ move_list t i (bit_and time time_near_mask)
    | true ↦
        shift_loop fuel t ct (mask * 2 ^ time_near_shift % u32_mod) (time / 2 ^ time_near_shift)
          (i + 1)
  ]
]

abbrev pub shift_fuel : ℕ
shift_fuel = 4

-- `timer_shift`
unfoldable pub timer_shift : Timer → Option Timer
timer_shift t =
    let ct = (t.time + 1) % u32_mod in
    let t' = record t { time = ct } in
    elim (ct == 0) [
      | true ↦ move_list t' 3 0
      | false ↦ shift_loop shift_fuel t' ct time_near (ct / 2 ^ time_near_shift) 0
    ]

-- `timer_execute`, with fuel for its `while`: the nodes handed to `dispatch`, in order.
unfoldable pub execute_loop : ℕ → Timer → List Node × Timer
execute_loop zero t = ([], t)
execute_loop (suc fuel) t = elim (get_or t.near (bit_and t.time time_near_mask) []) [
  | [] ↦ ([], t)
  | n ∷ ns ↦
      let (more, t') =
        execute_loop fuel (record t { near = set t.near (bit_and t.time time_near_mask) [] }) in
      ((n ∷ ns) ++ more, t')
]

-- The list is empty after one round.
unfoldable pub timer_execute : Timer → List Node × Timer
unfolding execute_loop
timer_execute t = execute_loop 2 t

-- `timer_update`: the nodes that expire, and the timer.
unfoldable pub timer_update : Timer → Option (List Node × Timer)
timer_update t =
    let (early, t1) = timer_execute t in
    elim (timer_shift t1) [
      | none ↦ none
      | some t2 ↦ let (late, t3) = timer_execute t2 in some (early ++ late, t3)
    ]

-- The `for` of `update`: `n` calls of `timer_update`, with what expires in each.
unfoldable pub ticks : ℕ → Timer → Option (List (List Node) × Timer)
ticks zero t = some ([], t)
ticks (suc n) t = elim (timer_update t) [
  | none ↦ none
  | some (fired, t') ↦ elim (ticks n t') [
    | none ↦ none
    | some (rest, t'') ↦ some (fired ∷ rest, t'')
  ]
]

-- `update`, at the time `now`, with the two times of the line that it logs where the clock went back.
unfoldable pub update : ℕ → Timer → Option (List (List Node) × Timer × Option (ℕ × ℕ))
update now t =
    let diff = (now - t.current_point) / centisecond in
    if ltb now t.current_point
    then some ([], record t { current_point = now }, some (now, t.current_point))
    else (elim (ltb 0 diff) [
      | false ↦ some ([], t, none)
      | true ↦ elim (ticks diff (record t { current_point = now; current = t.current + diff })) [
        | none ↦ none
        | some (fired, t') ↦ some (fired, t', none)
      ]
    ])

-- `ctime`
unfoldable pub ctime : Timer → ℕ
ctime t = t.starttime + t.current / 100
