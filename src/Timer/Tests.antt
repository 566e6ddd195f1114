-- ===== src/Timer/Tests.antt =====
-- Runs of the timer, and its theorems at concrete inputs.
use cpp_sk.Base.{
  ℕ, suc, ◌+◌, ◌-◌, ◌*◌, ◌/◌, ◌<◌, ◌≡◌, refl, subst, Bool, ◌&&◌, Option, none, some, List, [], ◌∷◌,
  map, arith, ◌==◌, if◌then◌else◌, get_or, replicate, length-replicate,
}
use cpp_sk.Timer.{
  Node, LinkList, Timer, centisecond, new, link, find_level, add_node, timer_add, shift_loop,
  timer_shift, timer_execute, timer_update, ticks, update,
}
use cpp_sk.Timer.Clock.{updates, every, updates_drift}
use cpp_sk.Timer.Nodes.{All, tally, pending}
use cpp_sk.Timer.Range.{AllAt-replicate, new-IsReady, update_at_horizon}
use cpp_sk.Timer.Level.{InLevel, NearAt, RowsAt}
use cpp_sk.Timer.Tick.Exact.{due_at, IsReady, ticks_exact, timeout_exact}

abbrev epoch : ℕ
epoch = 1_700_000_000_000_000_000

abbrev fresh : Timer
fresh = record {
  near = replicate 256 [];
  wheel = replicate 4 (replicate 64 []);
  time = 0;
  starttime = 1_700_000_000;
  current = 0;
  current_point = epoch;
}

-- Three timeouts: two near, one in the next block.
abbrev armed : Timer
armed = timer_add (timer_add (timer_add fresh 1 7 3) 2 8 3) 3 9 300

sessions : Option (List (List Node) × Timer) → List (List ℕ)
sessions none = []
sessions (some (fired, t)) = map (map (λ n. n.session)) fired

fires_in_order : sessions (ticks 4 armed) ≡ [] ∷ [] ∷ (7 ∷ 8 ∷ []) ∷ [] ∷ []
unfolding sessions ticks timer_add add_node link find_level timer_update timer_execute timer_shift
    shift_loop
fires_in_order = refl

new-fresh : new epoch ≡ fresh
unfolding new
new-fresh = refl

fresh-IsReady : IsReady fresh
fresh-IsReady = subst IsReady new-fresh (new-IsReady epoch)

-- Any wheel of the right shape with nothing in it is ready below the horizon.
late : Timer
late = record fresh { time = 0x3fff }

late-IsReady : IsReady late
unfolding late
late-IsReady = record {
  valid = record {
    low = omega arith;
    near_length = length-replicate {A = LinkList} 256 [];
    wheel_length = length-replicate {A = List LinkList} 4 (replicate 64 []);
    near_at = AllAt-replicate (NearAt 0x3fff) 0 256 [] (λ j. tt);
    wheel_at = AllAt-replicate (RowsAt 0x3fff) 0 4 (replicate 64 []) (λ i. (
      length-replicate {A = LinkList} 64 [],
      AllAt-replicate (λ j l. All (InLevel 0x3fff i j) l) 0 64 [] (λ j. tt),
    ));
  };
  settled =
      AllAt-replicate {A = LinkList} (λ j l. All {A = Node} (λ n. 0x3fff < n.expire) l) 0 256 []
        (λ j. tt);
}

timeout_exact_example :
    (fired : List (List Node)) × (t' : Timer) × (ticks 400 (timer_add fresh 3 9 300)
      ≡ some (fired, t'))
    × ((p : Node → Bool) (i : ℕ)
        → i < 400
        → tally p (get_or fired i [])
          ≡ pending (due_at p (0 + 1 + i)) fresh
            + (if p (record { expire = 0 + 300; handle = 3; session = 9 }) && suc i == 300
                then 1
                else 0))
timeout_exact_example =
    timeout_exact fresh 3 9 300 400 fresh-IsReady (omega arith) (omega arith) (omega arith)

ticks_exact_example :
    (fired : List (List Node)) × (t' : Timer) × (ticks 1000 fresh ≡ some (fired, t'))
    × IsReady t'
    × (t'.time ≡ 0 + 1000)
    × ((p : Node → Bool) (i : ℕ)
        → i < 1000
        → tally p (get_or fired i []) ≡ pending (due_at p (0 + 1 + i)) fresh)
ticks_exact_example = ticks_exact 1000 fresh fresh-IsReady (omega arith)

update_at_horizon_example : timer_update late ≡ none
update_at_horizon_example = update_at_horizon late late-IsReady (unfold late in refl)

-- A refresh 15 milliseconds after the last.
abbrev refreshed : Timer
refreshed = record fresh { time = 1; current = 1; current_point = epoch + 15_000_000 }

refresh : update (epoch + 15_000_000) fresh ≡ some ([] ∷ [], refreshed, none)
unfolding update ticks timer_update timer_execute timer_shift shift_loop
refresh = refl

-- A refresh after the clock went back by five nanoseconds.
went_back :
    update (epoch - 5) fresh
    ≡ some ([], record fresh { current_point = epoch - 5 }, some (epoch - 5, epoch))
unfolding update
went_back = refl

-- Four refreshes, 15 milliseconds apart: 60 milliseconds pass, and the timer counts 4 ticks.
four_refreshes :
    updates (every 4 15_000_000 epoch) fresh
    ≡ some (record fresh { time = 4; current = 4; current_point = epoch + 60_000_000 })
unfolding updates update ticks timer_update timer_execute timer_shift shift_loop
four_refreshes = refl

updates_drift_example : ◌≡◌ {A = ℕ} 4 (0 + 4 * (15_000_000 / centisecond))
updates_drift_example = updates_drift 4 15_000_000 fresh (omega arith) (omega arith) four_refreshes
