-- ===== src/Harbor.antt =====
-- The state of `harbor_t` of cpp_sk.h; its arithmetic is in Handle.
use cpp_sk.Base.{ℕ, Bool, true, false, Option, none, some}
use cpp_sk.Handle.{harbor_init, harbor_unset}
use cpp_sk.HandleStorage.{Ptr}
use cpp_sk.Message.{Ptype}

pub record Harbor : Type 0 where
  pub harbor : ℕ
  pub remote : Option Ptr

unfoldable pub new : Harbor
new = record { harbor = harbor_unset; remote = none }

-- `init`
unfoldable pub init : ℕ → Harbor → Harbor
init harbor h = record h { harbor = harbor_init harbor }

-- `start`
unfoldable pub start : Ptr → Harbor → Harbor
start ctx h = record h { remote = some ctx }

-- `exit`
unfoldable pub exit : Harbor → Harbor
exit h = record h { remote = none }

-- `invalid_type`
unfoldable pub invalid_type : Ptype → Bool
invalid_type Ptype.system = false
invalid_type Ptype.harbor = false
invalid_type _ = true
