-- ===== src/Scheduler/Tests.antt =====
-- A first service: it is launched, gets a message, and worker 0 takes its queue.
mod Call
use cpp_sk.Base.{
  ℕ, ◌*◌, ◌^◌, ◌<◌, ◌≡◌, refl, ◌∙◌, ◌≢◌, inl, inr, true, false, Option, none, some, List, [], ◌∷◌,
  arith,
}
use cpp_sk.Scheduler.{
  Hand, hold, System, queue_of, Step, Reach, at_rest, working, launching, deliver, pick, give,
  enroll_step, here, next,
}
use cpp_sk.Scheduler.Hands.{hold_self, hold-ne, hold_cases}
use cpp_sk.Scheduler.Steps.{Somewhere}
use cpp_sk.Scheduler.Safety.{Starts, one_holder, not_stranded, no_deadlock, asserts_hold}
use cpp_sk.Handle.{check_range, or_harbor}
use cpp_sk.World.{World, put, grab, context_push}
use cpp_sk.HandleStorage.{Ptr, handle_grab, handle_register, scan, claim}
use cpp_sk.Message.{blank}
use cpp_sk.MessageQueue
use cpp_sk.MessageQueue.{mq_push, store}
use cpp_sk.MessageQueue.Contents.{contents, ring}
use cpp_sk.GlobalQueue.{GlobalQueue}
use cpp_sk.GlobalQueue
use cpp_sk.GlobalQueue.Chain.{Fresh, Holds}
use cpp_sk.Launch.{enroll}
use cpp_sk.Scheduler.Fit.{Fit, at, Lands, stay}
use cpp_sk.Scheduler.Worker.{dispatch-Reach}
use cpp_sk.Scheduler.Invariant.{Inv}
use cpp_sk.Scheduler.{putting}
use cpp_sk.Dispatch.{context_message_dispatch}
use cpp_sk.Monitor.{SkynetMonitor}
use cpp_sk.Message.{Bytes, SkynetMessage}
use cpp_sk.HandleStorage.{holds, hash}
use cpp_sk.World.{handle_of}
use cpp_sk.Base.{get_elem?, subst, sym, zero, suc}
use cpp_sk.Dispatch.{take_queue}

abbrev first_world : World
first_world = record {
  storage = record {
    harbor = 1 * 2 ^ 24;
    handle_index = 1;
    slot = none ∷ none ∷ none ∷ none ∷ [];
    name = [];
  };
  contexts = λ p. record {
    cb = false;
    queue = record {
      handle = 0;
      head = 0;
      tail = 0;
      release = false;
      in_global = true;
      overload = 0;
      overload_threshold = 1024;
      queue = [];
    };
    handle = 0;
    session_id = 0;
    message_count = 0;
    init = false;
    endless = false;
  };
  global = record { head = none; tail = none; next = λ p. none };
  loggers = λ s. 0;
  total = 0;
  fresh = 0;
}

first-Starts : Starts first_world
first-Starts = record {
  none_made = refl;
  empty = record { chain = refl; last = refl; distinct = tt };
  out = λ p. refl;
}

-- What a step that gives a result leaves.
abbrev or_stay : {A : Type 0} → A → Option A → A
or_stay a none = a
or_stay a (some b) = b

abbrev world1 : World
world1 = (or_stay (first_world, 0) (enroll first_world)).0

enrolled1 : enroll first_world ≡ some (world1, 0)
unfolding enroll handle_register scan put check_range
enrolled1 = refl

abbrev launching1 : System
launching1 = record { world = world1; held = hold (λ a. none) (launching 0) (some 0) }

abbrev global2 : GlobalQueue
global2 = or_stay world1.global (GlobalQueue.push world1.global 0)

pushed2 : GlobalQueue.push world1.global 0 ≡ some global2
unfolding enroll handle_register scan put check_range GlobalQueue.push
pushed2 = refl

abbrev launched2 : System
launched2 = record {
  world = record world1 { global = global2 };
  held = hold launching1.held (launching 0) none;
}

abbrev world3 : World
world3 = (or_stay (launched2.world, false) (context_push launched2.world 0x1000001 blank)).0

grabbed3 : grab launched2.world 0x1000001 ≡ some 0
unfolding enroll handle_register scan claim or_harbor put check_range MessageQueue.new
    GlobalQueue.push grab handle_grab context_push mq_push store take_queue GlobalQueue.pop contents
    ring
grabbed3 = refl

delivered3 : context_push launched2.world 0x1000001 blank ≡ some (world3, true)
unfolding enroll handle_register scan claim or_harbor put check_range MessageQueue.new
    GlobalQueue.push grab handle_grab context_push mq_push store take_queue GlobalQueue.pop contents
    ring
delivered3 = refl

abbrev waiting3 : System
waiting3 = record launched2 { world = world3 }

abbrev world4 : World
world4 = (or_stay (world3, none) (take_queue world3)).0

taken4 : take_queue world3 ≡ some (world4, some 0)
unfolding enroll handle_register scan claim or_harbor put check_range MessageQueue.new
    GlobalQueue.push grab handle_grab context_push mq_push store take_queue GlobalQueue.pop contents
    ring
taken4 = refl

abbrev busy4 : System
busy4 = record { world = world4; held = hold waiting3.held (working 0) (some 0) }

waiting3-Reach : Reach (at_rest first_world) waiting3
unfolding hold enroll handle_register scan put check_range
waiting3-Reach =
    next
      (next (next here (enroll_step 0 refl enrolled1))
        (give (launching 0) refl (hold_self (λ a. none) (launching 0) (some 0)) pushed2))
      (deliver 0x1000001 0 blank grabbed3 (omega arith) delivered3)

idle3 : (i : ℕ) → waiting3.held (working i) ≡ none
idle3 i =
    hold-ne launching1.held (launching 0) none (working i) (λ e. cc)
    ∙ hold-ne (λ a. none) (launching 0) (some 0) (working i) (λ e. cc)

busy4-Reach : Reach (at_rest first_world) busy4
busy4-Reach = next waiting3-Reach (pick 0 (idle3 0) taken4)

made3 : 0 < waiting3.world.fresh
unfolding enroll handle_register scan claim or_harbor put check_range MessageQueue.new
    GlobalQueue.push grab handle_grab context_push mq_push store take_queue GlobalQueue.pop contents
    ring
made3 = omega arith

waits3 : contents (queue_of waiting3 0) ≡ blank ∷ []
unfolding enroll handle_register scan claim or_harbor put check_range MessageQueue.new
    GlobalQueue.push grab handle_grab context_push mq_push store take_queue GlobalQueue.pop contents
    ring
waits3 = refl

free3 : (a : Hand) → waiting3.held a ≢ some 0
free3 a h = elim (hold_cases launching1.held (launching 0) none a 0 h) [
  | inl (e, k) ↦ cc
  | inr (n, k) ↦ elim (hold_cases (λ b. none) (launching 0) (some 0) a 0 k) [
    | inl (e, x) ↦ n e
    | inr (e, x) ↦ cc
  ]
]

busy4_held : busy4.held (working 0) ≡ some 0
busy4_held = hold_self waiting3.held (working 0) (some 0)

one_holder_example :
    ◌≡◌ {A = Hand} (working 0) (working 0) × ((gs : List Ptr) × Holds world4.global gs × Fresh 0 gs)
one_holder_example =
    one_holder (working 0) (working 0) 0 first-Starts busy4-Reach busy4_held busy4_held

not_stranded_example : (gs : List Ptr) × Holds world3.global gs × Somewhere waiting3.held gs 0
not_stranded_example =
    not_stranded {s = waiting3} 0 blank [] first-Starts waiting3-Reach made3 waits3

no_deadlock_example :
    (q : Ptr) × (v : World) × Step waiting3
      (record { world = v; held = hold waiting3.held (working 0) (some q) })
no_deadlock_example =
    no_deadlock {s = waiting3} 0 0 blank [] first-Starts waiting3-Reach made3 waits3 free3 (idle3 0)
