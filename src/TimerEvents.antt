-- ===== src/TimerEvents.antt =====
-- The messages of the timer in cpp_sk.cpp: `timer::timeout` and `timer::dispatch`.
pub mod Laws
use cpp_sk.Base.{ℕ, ◌-◌, true, false, not, Option, none, some, List, [], ◌∷◌}
use cpp_sk.World.{World, context_push}
use cpp_sk.Message.{SkynetMessage, nothing, response, is_nonpos, minus_one}
use cpp_sk.Timer.{Timer, Node, timer_add}

-- The message at the end of a timeout.
abbrev pub timeout_message : ℕ → SkynetMessage
timeout_message session = record { source = 0; session = session; content = nothing; t = response }

-- `timer::timeout`; `ms` is its argument `timeout`, the pattern of an `int32_t`.
unfoldable pub timeout : World → Timer → ℕ → ℕ → ℕ → Option (World × Timer × ℕ)
timeout w t handle ms session = elim (is_nonpos ms) [
  | true ↦ elim (context_push w handle (timeout_message session)) [
    | none ↦ none
    | some (w', true) ↦ some (w', t, session)
    | some (w', false) ↦ some (w', t, minus_one)
  ]
  | false ↦ some (w, timer_add t handle session ms, session)
]

-- `timer::dispatch` on a list of nodes.
unfoldable pub dispatch : World → List Node → Option World
dispatch w [] = some w
dispatch w (n ∷ ns) = elim (context_push w n.handle (timeout_message n.session)) [
  | none ↦ none
  | some (w', ok) ↦ dispatch w' ns
]
