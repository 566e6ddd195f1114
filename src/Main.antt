-- ===== src/Main.antt =====
-- `main` of main.cpp with `skynet_app::start` of cpp_sk.h, up to the joins of the threads. Parameters
-- are the reader of the configuration, the number of cores, what the services' own `init` do, and the
-- texts of the log. `none` is a null pointer, a failed `assert`, or `std::terminate`.
pub mod First
pub mod Named
pub mod Start
pub mod Written
mod Tests
use cpp_sk.Base.{
  ℕ, zero, suc, ◌+◌, ◌-◌, Bool, true, false, Option, none, some, List, [], ◌∷◌, ◌++◌, map, ◌==◌,
}
use Prim.Native.String.{String}
use cpp_sk.World.{World, put, error}
use cpp_sk.HandleStorage.{Ptr}
use cpp_sk.Message.{Bytes}
use cpp_sk.Modules.{
  ServiceClass, logger, pingpong_server, pingpong_client, ModuleMap, register_module_func,
}
use cpp_sk.Modules
use cpp_sk.Config.{Config}
use cpp_sk.Config
use cpp_sk.Threads.{weight_of, start_services}

-- The three calls of `register_module_func`.
unfoldable pub modules : ModuleMap
unfolding register_module_func
modules = register_module_func "pingpong_client" pingpong_client (
    register_module_func "pingpong_server" pingpong_server
      (register_module_func "logger" logger []))

-- The arguments after the program's name: one of them names the file.
unfoldable pub config_path : List String → String
config_path (path ∷ []) = path
config_path _ = "config.json"

-- The weights of the workers from `i` on.
unfoldable pub weights : ℕ → ℕ → List (Option ℕ)
weights zero i = []
weights (suc n) i = weight_of i ∷ weights n (i + 1)

abbrev pub wait_site : ℕ
wait_site = 6

-- "wait stop"
abbrev pub wait_stop : Bytes
wait_stop = 119 ∷ 97 ∷ 105 ∷ 116 ∷ 32 ∷ 115 ∷ 116 ∷ 111 ∷ 112 ∷ []

unfoldable pub is_registered : String → Bool
unfolding modules Modules.create
is_registered name = elim (Modules.create name modules) [ none ↦ false | some c ↦ true ]

-- What `logger::init` does to the world: `module_mid_t::init` sets the callback.
unfoldable pub logger_world : Ptr → World → World
unfolding put
logger_world p w = put w p (record (w.contexts p) { cb = true })

module _ (server_init client_init : Ptr → Bytes → World → Option (World × Bool))
    (use_count : World → Ptr → ℕ) (launch_text : String → Bytes → Bytes)
    (failed_text : String → Bytes) (name_of : Bytes → String) where
  -- The `init` of an instance that `module_t::create` made.
  unfoldable pub init_of : String → Ptr → Bytes → World → Option (World × Bool)
  unfolding modules Modules.create logger_world
  init_of name p param w = elim (Modules.create name modules) [
    | none ↦ none
    | some c ↦ elim c [
      | logger ↦ some (logger_world p w, true)
      | pingpong_server ↦ server_init p param w
      | pingpong_client ↦ client_init p param w
    ]
  ]

  -- `start`: the services, then a worker's weight for each thread, and a line of the log.
  unfoldable pub start : Config → Option (World × List (Option ℕ))
  unfolding is_registered init_of weights
  start c =
      elim (start_services is_registered init_of use_count launch_text failed_text name_of c.harbor
        c.logservice c.logger c.bootstrap) [
          | none ↦ none
          | some w ↦ elim (error w wait_site 0 wait_stop) [
            | none ↦ none
            | some w' ↦ some (w', weights c.thread 0)
          ]
        ]

  unfoldable pub main :
      (String → Config → Config × Option Bytes) → ℕ → List String → Option (World × List (Option ℕ))
  unfolding start config_path
  main from_json_file cores args =
      start (Config.read from_json_file (config_path args) (Config.new cores)).0
