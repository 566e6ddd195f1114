-- ===== src/Modules.antt =====
-- `module_t` of cpp_sk.h and cpp_sk.cpp: the map from names to the creators of services. A creator is
-- known by the class that it makes.
use cpp_sk.Base.{Option, none, some, List, [], ◌∷◌, if◌then◌else◌}
use Prim.Native.String.{String}
use text.Mathlib.Text.{◌==◌ as str_eq}

-- The classes of logger.h and main.cpp.
pub data ServiceClass : Type 0 where
  logger : ServiceClass
  pingpong_server : ServiceClass
  pingpong_client : ServiceClass

-- `gMap`
abbrev pub ModuleMap : Type 0
ModuleMap = List (String × ServiceClass)

-- `register_module_func`: `gMap[name] = creator`.
unfoldable pub register_module_func : String → ServiceClass → ModuleMap → ModuleMap
register_module_func k c [] = (k, c) ∷ []
register_module_func k c ((j, d) ∷ m) =
    if str_eq j k then (k, c) ∷ m else (j, d) ∷ register_module_func k c m

-- `create`; `none` is the null pointer.
unfoldable pub create : String → ModuleMap → Option ServiceClass
create k [] = none
create k ((j, c) ∷ m) = if str_eq j k then some c else create k m
