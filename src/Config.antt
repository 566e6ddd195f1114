-- ===== src/Config.antt =====
-- `config_t` of cpp_sk.h. The reader of the file is a parameter: what it makes of the object, and the
-- text of the exception where it throws. `thread` is not negative.
use cpp_sk.Base.{ℕ, Bool, true, Option, none, some, [], if◌then◌else◌}
use Prim.Native.String.{String}
use text.Mathlib.Text.{◌==◌ as str_eq}
use cpp_sk.Message.{Bytes}

pub record Config : Type 0 where
  pub thread : ℕ
  pub harbor : ℕ
  pub profile : Bool
  pub daemon : Bytes
  pub module_path : Bytes
  pub bootstrap : Bytes
  pub logger : Bytes
  pub logservice : String

-- A new object, on a machine of `cores` cores.
unfoldable pub new : ℕ → Config
new cores = record {
  thread = cores;
  harbor = 1;
  profile = true;
  daemon = [];
  module_path = [];
  bootstrap = [];
  logger = [];
  logservice = "";
}

-- `read`: the object, and what is written to `cerr`.
unfoldable pub read :
    (String → Config → Config × Option Bytes) → String → Config → Config × Option Bytes
read from_json_file path c =
    let (c', failure) = from_json_file path c in
    elim failure [
      | some what ↦ (c', some what)
      | none ↦ (if str_eq c'.logservice "" then record c' { logservice = "logger" } else c', none)
    ]
