-- ===== src/Timer/Add.antt =====
-- `add_node` puts a node where the invariant wants it, and adds nothing else.
use cpp_sk.Base.{
  ℕ, suc, ◌+◌, ◌*◌, ◌/◌, ◌%◌, ◌^◌, ◌≤◌, ◌<◌, ◌≡◌, refl, ◌∙◌, ◌≢◌, Bool, List, [], ◌∷◌, ◌++◌, arith,
  if◌then◌else◌, length, get_or, set, length-set,
}
use native.Mathlib.Decide.{dec_lt, ℕ_discrete}
use cpp_sk.Timer.{
  time_near_shift, time_near, time_level_shift, Node, LinkList, Timer, link, find_level, add_node,
}
use cpp_sk.Timer.Nodes.{
  All, AllAt, All-append, AllAt-get_zero, AllAt-set_zero, tally_lists, tally-append,
  tally_lists-set, tally_levels-set, pending,
}
use cpp_sk.Handle.{u32_mod}
use cpp_sk.Timer.Level.{
  horizon, InNear, InLevel, RowsAt, IsValid, Settled, near_index, level_index, mask_eq, mask_ne,
  find_level_low, find_level_high,
}
use native.Mathlib.Nat.{mod-lt}

-- The two branches of `add_node`.
add-near :
    (t : Timer) (n : Node)
    → n.expire / 256 ≡ t.time / 256
    → add_node t n ≡ record t { near = link t.near (n.expire % 256) n }
unfolding add_node
add-near t n e = rw (mask_eq 8 n.expire t.time e, near_index n.expire)

add-level :
    (t : Timer) (n : Node) (i : ℕ)
    → n.expire / 256 ≢ t.time / 256
    → find_level 3 0 (time_near * 2 ^ time_level_shift) n.expire t.time ≡ i
    → add_node t n ≡ record t {
      wheel = set t.wheel i (
          link
            (get_or t.wheel i [])
            (n.expire / 2 ^ (time_near_shift + i * time_level_shift) % 64)
            n);
    }
unfolding add_node
add-level t n i ne e = rw (
  mask_ne 8 n.expire t.time ne,
  e,
  level_index (n.expire / 2 ^ (time_near_shift + i * time_level_shift)),
)

-- A node in one list.
link_at :
    (P : ℕ → Node → Type 0) (ls : List LinkList) (i : ℕ) (n : Node)
    → i < length ls
    → P i n
    → AllAt (λ j l. All (P j) l) 0 ls
    → AllAt (λ j l. All (P j) l) 0 (link ls i n)
unfolding link
link_at P ls i n h p a =
    AllAt-set_zero {P = λ j l. All (P j) l} ls i (get_or ls i [] ++ n ∷ []) (λ j l _ q. q)
      (All-append (P i) (get_or ls i []) (n ∷ []) (AllAt-get_zero (λ j l. All (P j) l) ls i [] h a)
        (p, tt))
      a

length-link : (ls : List LinkList) (i : ℕ) (n : Node) → length (link ls i n) ≡ length ls
unfolding link
length-link ls i n = length-set ls i (get_or ls i [] ++ n ∷ [])

tally-link :
    (test : Node → Bool) (ls : List LinkList) (i : ℕ) (n : Node)
    → i < length ls
    → tally_lists test (link ls i n) ≡ tally_lists test ls + (if test n then 1 else 0)
unfolding link
tally-link test ls i n h = omega (
  arith,
  tally_lists-set test ls i (get_or ls i [] ++ n ∷ []) h,
  tally-append test (get_or ls i []) (n ∷ []),
)

-- What `add_node` does to a valid wheel.
pub record Adds (t : Timer) (n : Node) (t' : Timer) : Type 0 where
  pub valid : IsValid t'
  pub time : t'.time ≡ t.time
  pub settled : Settled t → t.time < n.expire → Settled t'
  pub counts : (test : Node → Bool) → pending test t' ≡ pending test t + (if test n then 1 else 0)

Adds-near :
    (t : Timer) (n : Node)
    → IsValid t
    → t.time ≤ n.expire
    → n.expire / 256 ≡ t.time / 256
    → Adds t n (record t { near = link t.near (n.expire % 256) n })
unfolding pending
Adds-near t n v late e =
    let inside : n.expire % 256 < length t.near = omega (arith, v.near_length) in
    record {
      valid = record {
        low = v.low;
        near_length = length-link t.near (n.expire % 256) n ∙ v.near_length;
        wheel_length = v.wheel_length;
        near_at =
            link_at (InNear t.time) t.near (n.expire % 256) n inside (e, refl, late) v.near_at;
        wheel_at = v.wheel_at;
      };
      time = refl;
      settled = λ s h. link_at (λ j m. t.time < m.expire) t.near (n.expire % 256) n inside h s;
      counts = λ test. omega (arith, tally-link test t.near (n.expire % 256) n inside);
    }

Adds-level :
    (t : Timer) (n : Node) (i idx : ℕ)
    → IsValid t
    → i < 4
    → idx < 64
    → InLevel t.time i idx n
    → Adds t n (record t { wheel = set t.wheel i (link (get_or t.wheel i []) idx n) })
unfolding pending
Adds-level t n i idx v h k p =
    let inside : i < length t.wheel = omega (arith, v.wheel_length) in
    let rows = get_or t.wheel i [] in
    let at = AllAt-get_zero (RowsAt t.time) t.wheel i [] inside v.wheel_at in
    let inner : idx < length rows = omega (arith, at.0) in
    record {
      valid = record {
        low = v.low;
        near_length = v.near_length;
        wheel_length = length-set t.wheel i (link rows idx n) ∙ v.wheel_length;
        near_at = v.near_at;
        wheel_at =
            AllAt-set_zero {P = RowsAt t.time} t.wheel i (link rows idx n) (λ j l _ q. q)
              (length-link rows idx n ∙ at.0, link_at (InLevel t.time i) rows idx n inner p at.1)
              v.wheel_at;
      };
      time = refl;
      settled = λ s h. s;
      counts = λ test. omega (
        arith,
        tally_levels-set test t.wheel i (link rows idx n) inside,
        tally-link test rows idx n inner,
      );
    }

-- On a valid wheel `add_node` keeps the invariant and the time, and adds the node once, for any
-- node that is not past.
pub add_lem :
    (t : Timer) (n : Node)
    → IsValid t
    → t.time ≤ n.expire
    → n.expire < u32_mod
    → Adds t n (add_node t n)
add_lem t n v late word = elim (ℕ_discrete (n.expire / 256) (t.time / 256)) [
  | yes e ↦ rw (add-near t n e) (Adds-near t n v late e)
  | no ne ↦ elim (dec_lt n.expire horizon) [
    | yes low ↦ rw (add-level t n 0 ne (find_level_low n.expire t.time low v.low)) (
        Adds-level t n 0 (n.expire / 2 ^ 8 % 64) v (omega arith) (omega arith)
          (omega arith, omega arith, omega arith))
    | no high ↦
        let (i, small, e) = find_level_high n.expire t.time (omega arith) v.low in
        let idx = n.expire / 2 ^ (time_near_shift + suc i * time_level_shift) % 64 in
        rw (add-level t n (suc i) ne e)
          (Adds-level t n (suc i) idx v (omega arith) (mod-lt _ (omega arith)) (omega arith, word))
  ]
]
