-- ===== src/Monitor.antt =====
-- `skynet_monitor` of cpp_sk.h and cpp_sk.cpp, which looks for services that do not come to an end.
-- The text that `std::vformat` makes is a parameter.
pub mod Laws
use cpp_sk.Base.{ℕ, ◌+◌, ◌-◌, ◌%◌, ◌^◌, true, false, not, Option, none, some, [], ◌==◌}
use cpp_sk.World.{World, context_endless, error}
use cpp_sk.Message.{Bytes}

-- `skynet_monitor`; `version` is atomic, and each access to it is one step here.
pub record SkynetMonitor : Type 0 where
  pub version : ℕ
  pub check_version : ℕ
  pub source : ℕ
  pub destination : ℕ

unfoldable pub trigger : SkynetMonitor → ℕ → ℕ → SkynetMonitor
trigger m source destination = record m {
  source = source;
  destination = destination;
  version = (m.version + 1) % 2 ^ 32;
}

-- This instance of the template `error`.
abbrev pub endless_site : ℕ
endless_site = 1

module _ (endless_text : ℕ → ℕ → ℕ → Bytes) where
  unfoldable pub check : World → SkynetMonitor → Option (World × SkynetMonitor)
  check w m = elim (m.version == m.check_version) [
    | false ↦ some (w, record m { check_version = m.version })
    | true ↦ elim (m.destination == 0) [
      | true ↦ some (w, m)
      | false ↦
          elim (error (context_endless w m.destination) endless_site 0
            (endless_text m.source m.destination m.version)) [
              | none ↦ none
              | some w' ↦ some (w', m)
            ]
    ]
  ]
