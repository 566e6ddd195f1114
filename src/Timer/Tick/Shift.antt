-- ===== src/Timer/Tick/Shift.antt =====
-- `timer_shift` moves the time on by one tick, and brings the nodes of the block that begins near.
use cpp_sk.Base.{
  ℕ, zero, suc, ◌+◌, ◌/◌, ◌%◌, ◌^◌, ◌≤◌, ◌<◌, bit_and, ◌≡◌, refl, ◌∙◌, ◌≢◌, Bool, some, List, [],
  ◌∷◌, arith, length, get_or, set, length-set, get_elem?-get_or,
}
use native.Mathlib.Decide.{ℕ_discrete}
use cpp_sk.Timer.{
  time_near_shift, time_near_mask, Node, LinkList, Timer, add_node, add_nodes, move_list,
  shift_loop, timer_shift,
}
use cpp_sk.Timer.Nodes.{
  All, AllAt, All-mono, AllAt-mono, AllAt-get_zero, AllAt-set_zero, tally, tally_lists-set,
  tally_levels-set, pending,
}
use cpp_sk.Handle.{u32_mod}
use cpp_sk.Timer.Level.{horizon, InNear, InLevel, NearAt, RowsAt, IsValid, Settled, near_index}
use cpp_sk.Timer.Add.{add_lem}

shift_plain :
    (t : Timer)
    → t.time < horizon
    → (t.time + 1) % 256 ≢ 0
    → timer_shift t ≡ some (record t { time = t.time + 1 })
unfolding timer_shift shift_loop
shift_plain t low ne =
    let ct : (t.time + 1) % u32_mod ≡ t.time + 1 = omega arith in
    ground (arith, ct, near_index (t.time + 1), ne)

shift_block :
    (t : Timer)
    → t.time + 1 < horizon
    → (t.time + 1) % 256 ≡ 0
    → timer_shift t ≡ move_list (record t { time = t.time + 1 }) 0 ((t.time + 1) / 256)
unfolding timer_shift shift_loop
shift_block t low e =
    let ct : (t.time + 1) % u32_mod ≡ t.time + 1 = omega arith in
    let idx : bit_and ((t.time + 1) / 2 ^ time_near_shift) time_near_mask ≡ (t.time + 1) / 256 =
      near_index ((t.time + 1) / 256) ∙ omega arith in
    ground (arith, ct, near_index (t.time + 1), e, idx)

move_shape :
    (t : Timer) (idx : ℕ)
    → 0 < length t.wheel
    → idx < length (get_or t.wheel 0 [])
    → let rows = get_or t.wheel 0 [] in
      move_list t 0 idx
      ≡ some (add_nodes (record t { wheel = set t.wheel 0 (set rows idx []) }) (get_or rows idx []))
unfolding move_list
move_shape t idx outer inner =
    let rows = get_or t.wheel 0 [] in
    ground (arith, get_elem?-get_or t.wheel 0 [] outer, get_elem?-get_or rows idx [] inner)

-- What a run of additions, or a shift, does to a valid wheel: the time it ends at, and the count of
-- the nodes that come with it.
pub record Moves (t : Timer) (now : ℕ) (ns : List Node) (t' : Timer) : Type 0 where
  pub valid : IsValid t'
  pub time : t'.time ≡ now
  pub counts : (test : Node → Bool) → pending test t' ≡ pending test t + tally test ns

pub add_nodes_lem :
    (ns : List Node) (t : Timer)
    → IsValid t
    → All (λ n. (t.time ≤ n.expire) × (n.expire < u32_mod)) ns
    → Moves t t.time ns (add_nodes t ns)
unfolding add_nodes
add_nodes_lem [] t v a = record { valid = v; time = refl; counts = λ test. omega arith }
add_nodes_lem (n ∷ ns) t v a =
    let w = add_lem t n v a.0.0 a.0.1 in
    let same = w.time in
    let r =
      add_nodes_lem ns (add_node t n) w.valid
        (All-mono ns (λ m p. (omega (arith, p.0, same), p.1)) a.1) in
    record {
      valid = r.valid;
      time = r.time ∙ same;
      counts = λ test. omega (arith, r.counts test, w.counts test);
    }

-- The wheel with the block that begins taken out of it, at the new time.
opened : Timer → Timer
opened t =
    let now = t.time + 1 in
    record t { time = now; wheel = set t.wheel 0 (set (get_or t.wheel 0 []) (now / 256) []) }

-- What waits near for a later tick is near still: at the end of a block there is nothing.
near_next : (now j : ℕ) (n : Node) → InNear now j n → now < n.expire → InNear (now + 1) j n
near_next now j n p h = omega (arith, p.0, p.1, p.2)

near_list :
    (now j : ℕ) (l : LinkList) → NearAt now j l → All (λ n. now < n.expire) l → NearAt (now + 1) j l
near_list now j [] a s = tt
near_list now j (n ∷ ns) a s = (near_next now j n a.0 s.0, near_list now j ns a.1 s.1)

near_lists :
    (now k : ℕ) (ls : List LinkList)
    → AllAt (NearAt now) k ls
    → AllAt (λ j l. All (λ n. now < n.expire) l) k ls
    → AllAt (NearAt (now + 1)) k ls
near_lists now k [] a s = tt
near_lists now k (l ∷ ls) a s = (near_list now k l a.0 s.0, near_lists now (suc k) ls a.1 s.1)

-- Within a block the levels do not change.
same_block :
    (now i : ℕ) (rows : List LinkList)
    → (now + 1) % 256 ≢ 0
    → RowsAt now i rows
    → RowsAt (now + 1) i rows
same_block now zero rows ne a = (
  a.0,
  AllAt-mono {P = λ j l. All (InLevel now 0 j) l} 0 rows
      (λ j l _ b. All-mono {P = InLevel now 0 j} l (λ n p. (p.0, omega (arith, p.1, ne), p.2)) b)
      a.1,
)
same_block now (suc i) rows ne a = a

-- The rows of the first level but the one taken out are of later blocks still.
later_row :
    (now j : ℕ) (l : LinkList)
    → (now + 1) % 256 ≡ 0
    → j ≢ (now + 1) / 256
    → All (InLevel now 0 j) l
    → All (InLevel (now + 1) 0 j) l
later_row now j l e ne a =
    All-mono {P = InLevel now 0 j} l (λ n p. (p.0, omega (arith, p.1, ne, e), p.2)) a

upper_rows :
    (now i : ℕ) (rows : List LinkList) → i ≢ 0 → RowsAt now i rows → RowsAt (now + 1) i rows
upper_rows now zero rows ne a = absurd (ne refl)
upper_rows now (suc i) rows ne a = a

opened-IsValid :
    (t : Timer)
    → IsValid t
    → Settled t
    → t.time + 1 < horizon
    → (t.time + 1) % 256 ≡ 0
    → IsValid (opened t)
unfolding opened
opened-IsValid t v s low e =
    let now = t.time + 1 in
    let idx = now / 256 in
    let rows = get_or t.wheel 0 [] in
    let outer : 0 < length t.wheel = omega (arith, v.wheel_length) in
    let at = AllAt-get_zero (RowsAt t.time) t.wheel 0 [] outer v.wheel_at in
    record {
      low = low;
      near_length = v.near_length;
      wheel_length = length-set t.wheel 0 (set rows idx []) ∙ v.wheel_length;
      near_at = near_lists t.time 0 t.near v.near_at s;
      wheel_at =
          AllAt-set_zero {P = RowsAt t.time} {Q = RowsAt now} t.wheel 0 (set rows idx [])
            (λ i r ne a. upper_rows t.time i r ne a)
            (
              length-set rows idx [] ∙ at.0,
              AllAt-set_zero {P = λ j l. All (InLevel t.time 0 j) l} rows idx []
                  (λ j l ne a. later_row t.time j l e ne a) tt at.1,
            )
            v.wheel_at;
    }

-- The nodes of the block that begins are not past.
block_nodes :
    (now : ℕ) (l : LinkList)
    → (now + 1) % 256 ≡ 0
    → All (InLevel now 0 ((now + 1) / 256)) l
    → All (λ n. (now + 1 ≤ n.expire) × (n.expire < u32_mod)) l
block_nodes now l e a =
    All-mono {P = InLevel now 0 ((now + 1) / 256)} l
      (λ n p. (omega (arith, p.0, e), omega (arith, p.0, p.2))) a

block_lem :
    (t : Timer)
    → IsValid t
    → Settled t
    → t.time + 1 < horizon
    → (t.time + 1) % 256 ≡ 0
    → (t' : Timer) × (timer_shift t ≡ some t') × Moves t (t.time + 1) [] t'
unfolding opened pending
block_lem t v s low e =
    let idx = (t.time + 1) / 256 in
    let rows = get_or t.wheel 0 [] in
    let nodes = get_or rows idx [] in
    let outer : 0 < length t.wheel = omega (arith, v.wheel_length) in
    let at = AllAt-get_zero (RowsAt t.time) t.wheel 0 [] outer v.wheel_at in
    let inner : idx < length rows = omega (arith, at.0) in
    let here = AllAt-get_zero (λ j l. All (InLevel t.time 0 j) l) rows idx [] inner at.1 in
    let r =
      add_nodes_lem nodes (opened t) (opened-IsValid t v s low e)
        (block_nodes t.time nodes e here) in
    (
      add_nodes (opened t) nodes,
      shift_block t low e ∙ move_shape (record t { time = t.time + 1 }) idx outer inner,
      record {
        valid = r.valid;
        time = r.time;
        counts = λ test. omega (
          arith,
          r.counts test,
          tally_levels-set test t.wheel 0 (set rows idx []) outer,
          tally_lists-set test rows idx [] inner,
        );
      },
    )

-- `timer_shift` on a valid and settled wheel, with the next tick below the horizon: it does not go
-- out of range, moves the time on by one, keeps the invariant, and loses or makes up no node.
pub shift_lem :
    (t : Timer)
    → IsValid t
    → Settled t
    → t.time + 1 < horizon
    → (t' : Timer) × (timer_shift t ≡ some t') × Moves t (t.time + 1) [] t'
unfolding pending
shift_lem t v s low = elim (ℕ_discrete ((t.time + 1) % 256) 0) [
  | no ne ↦ (
    record t { time = t.time + 1 },
    shift_plain t v.low ne,
    record {
      valid = record {
        low = low;
        near_length = v.near_length;
        wheel_length = v.wheel_length;
        near_at = near_lists t.time 0 t.near v.near_at s;
        wheel_at =
            AllAt-mono {P = RowsAt t.time} 0 t.wheel (λ i r _ a. same_block t.time i r ne a)
              v.wheel_at;
      };
      time = refl;
      counts = λ test. omega arith;
    },
  )
  | yes e ↦ block_lem t v s low e
]
