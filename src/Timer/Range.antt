-- ===== src/Timer/Range.antt =====
-- The wheel at the end of its first level: `timer_shift` masks the block number with
-- `TIME_NEAR_MASK`, and so goes past the 64 lists of `t_[0]`.
use cpp_sk.Base.{
  ℕ, zero, suc, ◌+◌, ◌*◌, ◌/◌, ◌%◌, ◌^◌, ◌≤◌, ◌<◌, bit_and, ◌≡◌, ◌∙◌, none, List, [], arith, length,
  get_or, replicate, length-replicate, get_elem?-get_or, get_elem?_out,
}
use cpp_sk.Timer.{
  time_near_shift, time_near_mask, Node, LinkList, Timer, new, move_list, shift_loop, timer_shift,
  timer_update,
}
use cpp_sk.Timer.Nodes.{All, AllAt, AllAt-get_zero}
use cpp_sk.Handle.{u32_mod}
use cpp_sk.Timer.Level.{horizon, InLevel, NearAt, RowsAt, near_index}
use cpp_sk.Timer.Tick.Execute.{execute-Settled}
use cpp_sk.Timer.Tick.Exact.{IsReady}

pub AllAt-replicate {ℓ} :
    {A : Type ℓ} (P : ℕ → A → Type 0) (k n : ℕ) (a : A)
    → ((i : ℕ) → P i a)
    → AllAt P k (replicate n a)
AllAt-replicate P k zero a h = tt
AllAt-replicate P k (suc n) a h = (h k, AllAt-replicate P (suc k) n a h)

-- A timer as constructed is ready for its first tick.
pub new-IsReady : (now : ℕ) → IsReady (new now)
unfolding new
new-IsReady now = record {
  valid = record {
    low = omega arith;
    near_length = length-replicate {A = LinkList} 256 [];
    wheel_length = length-replicate {A = List LinkList} 4 (replicate 64 []);
    near_at = AllAt-replicate (NearAt 0) 0 256 [] (λ j. tt);
    wheel_at = AllAt-replicate (RowsAt 0) 0 4 (replicate 64 []) (λ i. (
      length-replicate {A = LinkList} 64 [],
      AllAt-replicate (λ j l. All (InLevel 0 i j) l) 0 64 [] (λ j. tt),
    ));
  };
  settled =
      AllAt-replicate {A = LinkList} (λ j l. All {A = Node} (λ n. 0 < n.expire) l) 0 256 []
        (λ j. tt);
}

shift_past :
    (t : Timer) (b : ℕ)
    → b < 256
    → 0 < b
    → t.time + 1 ≡ 256 * b
    → timer_shift t ≡ move_list (record t { time = t.time + 1 }) 0 b
unfolding timer_shift shift_loop
shift_past t b h pos e =
    let ct : (t.time + 1) % u32_mod ≡ t.time + 1 = omega arith in
    let idx : bit_and ((t.time + 1) / 2 ^ time_near_shift) time_near_mask ≡ b =
      near_index ((t.time + 1) / 256) ∙ omega arith in
    ground (arith, ct, near_index (t.time + 1), e, idx)

move_past :
    (t : Timer) (b : ℕ)
    → length t.wheel ≡ 4
    → length (get_or t.wheel 0 []) ≡ 64
    → 64 ≤ b
    → move_list t 0 b ≡ none
unfolding move_list
move_past t b four rows h = ground (
  arith,
  get_elem?-get_or t.wheel 0 [] (omega arith),
  get_elem?_out (get_or t.wheel 0 []) b (omega arith),
)

-- Whenever the new time begins a block whose number is 64 to 255, `timer_shift` reads `t_[0]` past
-- its end.
pub shift_out_of_range :
    (t : Timer) (block : ℕ)
    → length t.wheel ≡ 4
    → length (get_or t.wheel 0 []) ≡ 64
    → 64 ≤ block
    → block < 256
    → t.time + 1 ≡ 256 * block
    → timer_shift t ≡ none
shift_out_of_range t b four rows lo hi e =
    shift_past t b hi (omega arith) e ∙ move_past (record t { time = t.time + 1 }) b four rows lo

-- So the tick that brings a ready wheel to the horizon is not completed.
pub update_at_horizon : (t : Timer) → IsReady t → t.time + 1 ≡ horizon → timer_update t ≡ none
unfolding timer_update
update_at_horizon t r e =
    let v = r.valid in
    let rows =
      AllAt-get_zero (RowsAt t.time) t.wheel 0 [] (omega (arith, v.wheel_length)) v.wheel_at in
    ground (
      arith,
      execute-Settled t v r.settled,
      shift_out_of_range t 64 v.wheel_length rows.0 (omega arith) (omega arith) (omega arith),
    )
