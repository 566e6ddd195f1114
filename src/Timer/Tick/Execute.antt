-- ===== src/Timer/Tick/Execute.antt =====
-- `timer_execute` hands out the nodes that expire at the present time, and no other.
use cpp_sk.Base.{
  ℕ, ◌+◌, ◌%◌, ◌<◌, bit_and, ◌≡◌, refl, sym, ap, ◌∙◌, ◌≢◌, Bool, List, [], ◌∷◌, append-nil, arith,
  length, get_or, set, length-set, get_or-set_self, set-get_or,
}
use cpp_sk.Timer.{time_near_mask, Node, LinkList, Timer, execute_loop, timer_execute}
use cpp_sk.Timer.Nodes.{
  All, AllAt, All-mono, AllAt-get_zero, AllAt-set_zero, tally, tally_lists-set, pending,
}
use cpp_sk.Timer.Level.{InNear, NearAt, IsValid, Settled, near_index}

execute_empty :
    (t : Timer) → get_or t.near (bit_and t.time time_near_mask) [] ≡ [] → timer_execute t ≡ ([], t)
unfolding timer_execute
execute_empty t e = rw (e, timer_execute, execute_loop)

execute_cons :
    (t : Timer) (n : Node) (ns : List Node)
    → bit_and t.time time_near_mask < length t.near
    → get_or t.near (bit_and t.time time_near_mask) [] ≡ n ∷ ns
    → timer_execute t ≡ (n ∷ ns, record t { near = set t.near (bit_and t.time time_near_mask) [] })
unfolding timer_execute
execute_cons t n ns h e =
    let cleared = get_or-set_self t.near (bit_and t.time time_near_mask) [] [] h in
    ground (arith, e, cleared, append-nil ns)

-- What `timer_execute` does on a valid wheel.
pub record Fires (t : Timer) (r : List Node × Timer) : Type 0 where
  pub valid : IsValid r.1
  pub settled : Settled r.1
  pub time : r.1.time ≡ t.time
  pub due : All (λ n. n.expire ≡ t.time) r.0
  pub counts : (test : Node → Bool) → pending test r.1 + tally test r.0 ≡ pending test t

settle :
    (now : ℕ) (j : ℕ) (l : LinkList) → j ≢ now % 256 → NearAt now j l → All (λ n. now < n.expire) l
settle now j l ne a = All-mono {P = InNear now j} l (λ n p. omega (arith, p.0, p.1, p.2, ne)) a

-- A list in which everything is due now and nothing is due now is empty.
due_settled :
    (now : ℕ) (l : LinkList) → NearAt now (now % 256) l → All (λ n. now < n.expire) l → l ≡ []
due_settled now [] a s = refl
due_settled now (n ∷ ns) a s = absurd (omega (arith, a.0, s.0))

-- On a settled wheel it does nothing.
pub execute-Settled : (t : Timer) → IsValid t → Settled t → timer_execute t ≡ ([], t)
execute-Settled t v s =
    let i = t.time % 256 in
    let inside : i < length t.near = omega (arith, v.near_length) in
    execute_empty t (
      rw (near_index t.time) (
        due_settled t.time (get_or t.near i [])
          (AllAt-get_zero (NearAt t.time) t.near i [] inside v.near_at)
          (AllAt-get_zero (λ j l. All (λ n. t.time < n.expire) l) t.near i [] inside s)))

-- With the present list taken out, a valid wheel is settled.
cleared_settled :
    (t : Timer)
    → IsValid t
    → AllAt (λ j l. All (λ n. t.time < n.expire) l) 0 (set t.near (t.time % 256) [])
cleared_settled t v =
    AllAt-set_zero {P = NearAt t.time} t.near (t.time % 256) [] (settle t.time) tt v.near_at

cleared-Fires :
    (t : Timer)
    → IsValid t
    → Fires t (get_or t.near (t.time % 256) [], record t { near = set t.near (t.time % 256) [] })
unfolding pending
cleared-Fires t v =
    let i = t.time % 256 in
    let inside : i < length t.near = omega (arith, v.near_length) in
    record {
      valid = record {
        low = v.low;
        near_length = length-set t.near i [] ∙ v.near_length;
        wheel_length = v.wheel_length;
        near_at = AllAt-set_zero {P = NearAt t.time} t.near i [] (λ j l _ q. q) tt v.near_at;
        wheel_at = v.wheel_at;
      };
      settled = cleared_settled t v;
      time = refl;
      due =
          All-mono {P = InNear t.time i} (get_or t.near i []) (λ n p. omega (arith, p.0, p.1))
            (AllAt-get_zero (NearAt t.time) t.near i [] inside v.near_at);
      counts = λ test. omega (arith, tally_lists-set test t.near i [] inside);
    }

-- `timer_execute` hands out the list of the present tick and clears it.
execute_shape :
    (t : Timer)
    → IsValid t
    → timer_execute t
      ≡ (get_or t.near (t.time % 256) [], record t { near = set t.near (t.time % 256) [] })
execute_shape t v = go (get_or t.near (t.time % 256) []) refl
  where
    inside : t.time % 256 < length t.near
    inside = omega (arith, v.near_length)

    go :
        (l : LinkList)
        → get_or t.near (t.time % 256) [] ≡ l
        → timer_execute t ≡ (l, record t { near = set t.near (t.time % 256) [] })
    go [] e =
        execute_empty t (rw (near_index t.time) e)
        ∙ ap (λ ls. ([], record t { near = ls }))
            (sym
              (ap (set t.near (t.time % 256)) (sym e) ∙ set-get_or t.near (t.time % 256) [] inside))
    go (n ∷ ns) e =
        execute_cons t n ns (rw (near_index t.time) inside) (rw (near_index t.time) e)
        ∙ ap (λ i. (n ∷ ns, record t { near = set t.near i [] })) (near_index t.time)

pub execute_lem : (t : Timer) → IsValid t → Fires t (timer_execute t)
execute_lem t v = rw (execute_shape t v) (cleared-Fires t v)
