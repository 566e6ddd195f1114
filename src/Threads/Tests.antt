-- ===== src/Threads/Tests.antt =====
-- The start at harbor 1, and a round of the timer's thread with nothing to send.
use cpp_sk.Base.{
  ℕ, ◌+◌, ◌<◌, ◌≡◌, refl, true, false, some, Option, List, [], arith, ltb, ◌==◌, if◌then◌else◌,
}
use cpp_sk.Threads.{Monitor, dispatch_all, timer_round, log_back, boot}
use cpp_sk.Threads.Rounds.{Updates, passed, timer_round_lem}
use cpp_sk.World.{World}
use cpp_sk.World.Push.{Scheduled}
use cpp_sk.HandleStorage.{Ptr}
use cpp_sk.Timer.{Timer, Node}
use cpp_sk.Timer
use cpp_sk.Timer.Level.{horizon}
use cpp_sk.Timer.Range.{new-IsReady}
use cpp_sk.GlobalQueue
use cpp_sk.Message.{Bytes}

abbrev one_world : World
one_world = record (boot 1) { total = 1 }

one-Scheduled : Scheduled one_world []
unfolding boot GlobalQueue.new
one-Scheduled = record {
  holds = record { chain = refl; last = refl; distinct = tt };
  idle = λ p i. (tt, refl);
}

-- Two workers sleep.
abbrev sleepers : Monitor
sleepers = record { m = []; count = 0; sleep = 2; quit = false }

-- Three centiseconds and a half after the start.
abbrev later : ℕ
later = 35_000_000

early : (Timer.new 0).time + passed (Timer.new 0) later < horizon
unfolding Timer.new
early = omega arith

no_text : ℕ → ℕ → Bytes
no_text now before = []

timer_round_lem_example :
    (fired : List (List Node)) × (t' : Timer) × (back : Option (ℕ × ℕ)) × (w0 : World)
    × (w' : World) × (gs' : List Ptr) × (timer_round no_text one_world (Timer.new 0) sleepers later
        ≡ some (
            if w'.total == 0
            then (w', t', record sleepers { quit = true }, true)
            else (w', t', sleepers, ltb 0 2)))
    × Updates (Timer.new 0) later fired t' back
    × (log_back no_text one_world back ≡ some w0)
    × (dispatch_all w0 fired ≡ some w')
    × Scheduled w' gs'
timer_round_lem_example =
    timer_round_lem no_text one_world [] (Timer.new 0) sleepers later one-Scheduled (new-IsReady 0)
      early (omega arith) (omega arith)
