-- ===== src/Threads.antt =====
-- The threads of cpp_sk.cpp and `skynet_app::start` of cpp_sk.h: `monitor`, one round of the timer's
-- and the monitor's thread, how a worker sleeps, and what is launched first. A sleep is a pause
-- between two rounds. The clock, the texts, and what modules do are parameters; `none` is a failed
-- `assert`, a null pointer, or `std::terminate`.
pub mod Rounds
pub mod Boot
mod Tests
use cpp_sk.Base.{
  ℕ, ◌+◌, ◌-◌, ◌*◌, ◌%◌, ◌^◌, Bool, true, false, not, Option, none, some, List, [], ◌∷◌, ltb, leb,
  ◌==◌, if◌then◌else◌, get_elem?,
}
use Prim.Native.String.{String}
use cpp_sk.World.{World, handle_of, error}
use cpp_sk.Monitor.{SkynetMonitor, check}
use cpp_sk.Timer.{Timer, Node, update}
use cpp_sk.TimerEvents
use cpp_sk.HandleStorage.{Ptr, handle_namehandle}
use cpp_sk.HandleStorage
use cpp_sk.GlobalQueue
use cpp_sk.Launch.{create, new_context}
use cpp_sk.Algo.{split_one}
use cpp_sk.Message.{Bytes}

-- `monitor`; `count` is set nowhere.
pub record Monitor : Type 0 where
  pub m : List SkynetMonitor
  pub count : ℕ
  pub sleep : ℕ
  pub quit : Bool

-- `a >= b` of two `int`s.
abbrev pub int_ge : ℕ → ℕ → Bool
int_ge a b = leb ((b + 2 ^ 31) % 2 ^ 32) ((a + 2 ^ 31) % 2 ^ 32)

-- `wakeup`: whether it notifies a thread.
unfoldable pub wakeup : Monitor → ℕ → Bool
wakeup m busy = int_ge m.sleep ((m.count + (2 ^ 32 - busy)) % 2 ^ 32)

-- A worker that has no queue, up to its wait: the Boolean says whether it waits.
unfoldable pub sleep_begin : Monitor → Monitor × Bool
sleep_begin m = (record m { sleep = (m.sleep + 1) % 2 ^ 32 }, not m.quit)

-- And after it.
unfoldable pub sleep_end : Monitor → Monitor
sleep_end m = record m { sleep = (m.sleep + (2 ^ 32 - 1)) % 2 ^ 32 }

-- What `timer_execute` hands to `dispatch`, list after list.
unfoldable pub dispatch_all : World → List (List Node) → Option World
dispatch_all w [] = some w
dispatch_all w (ns ∷ rest) = elim (TimerEvents.dispatch w ns) [
  | none ↦ none
  | some w' ↦ dispatch_all w' rest
]

-- The call of `error` in `timer::update`.
abbrev pub time_site : ℕ
time_site = 20

-- The text of a clock that went back is a parameter, since it shows the two times in a time zone.
module _ (time_text : ℕ → ℕ → Bytes) where
  -- What `update` logs, to the world.
  unfoldable pub log_back : World → Option (ℕ × ℕ) → Option World
  log_back w none = some w
  log_back w (some (now, before)) = error w time_site 0 (time_text now before)

  -- A round of the timer's thread at the time `now`: the Boolean says whether it notifies a worker.
  -- Without a context the thread leaves its loop and ends the workers.
  unfoldable pub timer_round : World → Timer → Monitor → ℕ → Option (World × Timer × Monitor × Bool)
  unfolding dispatch_all wakeup log_back
  timer_round w t m now = elim (update now t) [
    | none ↦ none
    | some (fired, t', back) ↦ elim (log_back w back) [
      | none ↦ none
      | some w0 ↦ elim (dispatch_all w0 fired) [
        | none ↦ none
        | some w' ↦ some (
            if w'.total == 0
            then (w', t', record m { quit = true }, true)
            else (w', t', m, wakeup m ((m.count + (2 ^ 32 - 1)) % 2 ^ 32)))
      ]
    ]
  ]

-- A round of the monitor's thread; without a context it checks nothing and ends.
module _ (endless_text : ℕ → ℕ → ℕ → Bytes) where
  unfoldable pub check_all : World → List SkynetMonitor → Option (World × List SkynetMonitor)
  check_all w [] = some (w, [])
  check_all w (m ∷ ms) = elim (check endless_text w m) [
    | none ↦ none
    | some (w', m') ↦ elim (check_all w' ms) [
      | none ↦ none
      | some (w'', ms') ↦ some (w'', m' ∷ ms')
    ]
  ]

  unfoldable pub monitor_round : World → Monitor → Option (World × Monitor)
  unfolding check_all
  monitor_round w m =
      if w.total == 0
      then some (w, m)
      else elim (check_all w m.m) [ none ↦ none | some (w', ms) ↦ some (w', record m { m = ms }) ]

-- The table of `start`; `none` is -1.
abbrev pub weight : List (Option ℕ)
weight =
    none
    ∷ none
    ∷ none
    ∷ none
    ∷ some 0
    ∷ some 0
    ∷ some 0
    ∷ some 0
    ∷ some 1
    ∷ some 1
    ∷ some 1
    ∷ some 1
    ∷ some 1
    ∷ some 1
    ∷ some 1
    ∷ some 1
    ∷ some 2
    ∷ some 2
    ∷ some 2
    ∷ some 2
    ∷ some 2
    ∷ some 2
    ∷ some 2
    ∷ some 2
    ∷ some 3
    ∷ some 3
    ∷ some 3
    ∷ some 3
    ∷ some 3
    ∷ some 3
    ∷ some 3
    ∷ some 3
    ∷ []

-- The weight of worker `i`.
unfoldable pub weight_of : ℕ → Option ℕ
weight_of i = elim (get_elem? weight i) [ none ↦ some 0 | some w ↦ w ]

-- The world before the first context.
unfoldable pub boot : ℕ → World
boot harbor = record {
  storage = HandleStorage.new harbor;
  contexts = λ p. new_context;
  global = GlobalQueue.new (λ p. none);
  loggers = λ s. 0;
  total = 0;
  fresh = 0;
}

module _ (has_creator : String → Bool) (init : String → Ptr → Bytes → World → Option (World × Bool))
    (use_count : World → Ptr → ℕ) (launch_text : String → Bytes → Bytes)
    (failed_text : String → Bytes) (name_of : Bytes → String) where
  -- The services that `start` launches: the logger, which gets its name, and the bootstrap service.
  unfoldable pub start_services : ℕ → String → Bytes → Bytes → Option World
  unfolding boot
  start_services harbor logservice logger bootstrap =
      elim (create has_creator init use_count launch_text failed_text (boot harbor) logservice
        logger) [
          | none ↦ none
          | some (w, p) ↦
              let w' = record w {
                storage = (handle_namehandle w.storage (handle_of w p) "logger").0;
              } in
              elim bootstrap [
                | [] ↦ some w'
                | c ∷ cs ↦ elim (split_one (c ∷ cs) (32 ∷ [])) [
                  | none ↦ none
                  | some (name, param) ↦
                      elim (create has_creator init use_count launch_text failed_text w'
                        (name_of name) param) [ none ↦ none | some (w'', _) ↦ some w'' ]
                ]
              ]
        ]
