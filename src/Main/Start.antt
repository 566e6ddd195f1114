-- ===== src/Main/Start.antt =====
-- What `main` comes to.
use cpp_sk.Base.{
  ℕ, ◌≡◌, refl, ap, ◌∙◌, ◌⊎◌, inl, inr, Bool, false, Option, none, some, List, [], ◌∷◌, arith,
  if◌then◌else◌, Option-cases,
}
use Prim.Native.String.{String}
use package.text.Mathlib.Text.{◌==◌ as str_eq}
use cpp_sk.World.{World}
use cpp_sk.HandleStorage.{Ptr}
use cpp_sk.Message.{Bytes, text}
use cpp_sk.MessageQueue.{default_queue_size}
use cpp_sk.Launch.{create, enroll}
use cpp_sk.Threads.{boot, start_services}
use cpp_sk.Config.{Config}
use cpp_sk.Config
use cpp_sk.Modules
use cpp_sk.Main.First.{create_first}
use cpp_sk.Main.Named.{named_world, named-Logging}
use cpp_sk.World.Log.{Logging, line_message, error_logged}
use cpp_sk.Main.{
  main, start, config_path, weights, init_of, is_registered, wait_stop, wait_site, modules,
}

no_module : is_registered "" ≡ false
unfolding is_registered modules Modules.create
no_module = refl

-- A name without a creator gives nothing.
create_fails :
    (has_creator : String → Bool) (init : String → Ptr → Bytes → World → Option (World × Bool))
    (use_count : World → Ptr → ℕ) (launch_text : String → Bytes → Bytes)
    (failed_text : String → Bytes) (w : World) (name : String) (param : Bytes)
    → has_creator name ≡ false
    → create has_creator init use_count launch_text failed_text w name param ≡ none
unfolding create
create_fails has_creator init use_count launch_text failed_text w name param e =
    elim (Option-cases (enroll w)) [ inl n ↦ ground (arith, n) | inr (x, n) ↦ ground (arith, n, e) ]

-- The object after `read`, on both outcomes.
read_failed :
    (f : String → Config → Config × Option Bytes) (path : String) (c c' : Config) (what : Bytes)
    → f path c ≡ (c', some what)
    → Config.read f path c ≡ (c', some what)
unfolding Config.read
read_failed f path c c' what e = ground (arith, e)

read_done :
    (f : String → Config → Config × Option Bytes) (path : String) (c c' : Config)
    → f path c ≡ (c', none)
    → Config.read f path c
      ≡ (if str_eq c'.logservice "" then record c' { logservice = "logger" } else c', none)
unfolding Config.read
read_done f path c c' e = ground (arith, e)

-- The object that `start` gets.
configured :
    (c : Config)
    → (c.logservice ≡ "") ⊎ (c.logservice ≡ "logger")
    → (d : Config) × ((if str_eq c.logservice "" then record c { logservice = "logger" } else c)
        ≡ d)
      × (d.logservice ≡ "logger")
      × (d.bootstrap ≡ c.bootstrap)
      × (d.thread ≡ c.thread)
configured c service = elim service [
  | inl e ↦ (
    record c { logservice = "logger" },
    ground (arith, ap (λ t. str_eq t "") e),
    refl,
    refl,
    refl,
  )
  | inr e ↦ (c, ground (arith, ap (λ t. str_eq t "") e), e, refl, refl)
]

module _ (server_init client_init : Ptr → Bytes → World → Option (World × Bool))
    (use_count : World → Ptr → ℕ) (launch_text : String → Bytes → Bytes)
    (failed_text : String → Bytes) (name_of : Bytes → String) where
  abbrev launch : World → String → Bytes → Option (World × Ptr)
  launch =
      create is_registered
        (init_of server_init client_init use_count launch_text failed_text name_of) use_count
        launch_text failed_text

  start_fails :
      (c : Config)
      → c.logservice ≡ ""
      → start server_init client_init use_count launch_text failed_text name_of c ≡ none
  unfolding start start_services
  start_fails c empty =
      let missing : is_registered c.logservice ≡ false = rw empty no_module in
      let refused : launch (boot c.harbor) c.logservice c.logger ≡ none =
        create_fails is_registered
          (init_of server_init client_init use_count launch_text failed_text name_of) use_count
          launch_text failed_text (boot c.harbor) c.logservice c.logger missing in
      rw (refused, start, start_services) refl

  -- Where the file cannot be read and the object keeps its empty `logservice`, `main` goes on, and
  -- the first service is made of a null pointer.
  main_unread :
      (from_json_file : String → Config → Config × Option Bytes) (cores : ℕ) (args : List String)
      (c : Config) (what : Bytes)
      → from_json_file (config_path args) (Config.new cores) ≡ (c, some what)
      → c.logservice ≡ ""
      → main server_init client_init use_count launch_text failed_text name_of from_json_file cores
          args
        ≡ none
  unfolding main
  main_unread from_json_file cores args c what e empty =
      ap (λ r. start server_init client_init use_count launch_text failed_text name_of r.0)
        (read_failed from_json_file (config_path args) (Config.new cores) c what e)
      ∙ start_fails c empty

  start_lem :
      (c : Config)
      → c.logservice ≡ "logger"
      → c.bootstrap ≡ []
      → (w : World) × (start server_init client_init use_count launch_text failed_text name_of c
          ≡ some (w, weights c.thread 0))
        × Logging 0 default_queue_size (line_message 0 wait_stop ∷ []) w
  unfolding start start_services
  start_lem c service alone =
      let (w, made, l) =
        create_first server_init client_init use_count launch_text failed_text name_of c.harbor
          c.logger in
      let (w', logs, ready) =
        error_logged 0 default_queue_size [] (named_world w) wait_site 0 wait_stop
          (named-Logging c.harbor w l) (omega arith) in
      (w', ground (arith, service, alone, made, logs), ready)

  -- Where the file is read and names no bootstrap service, and the logger or no service for the log,
  -- `main` starts: no step fails, each thread has its weight, and the logger is the context that the
  -- name "logger" leads to, with "wait stop" as the one line in its queue.
  pub main_logs :
      (from_json_file : String → Config → Config × Option Bytes) (cores : ℕ) (args : List String)
      (c : Config)
      → from_json_file (config_path args) (Config.new cores) ≡ (c, none)
      → (c.logservice ≡ "") ⊎ (c.logservice ≡ "logger")
      → c.bootstrap ≡ []
      → (w : World) × (main server_init client_init use_count launch_text failed_text name_of
            from_json_file cores args
          ≡ some (w, weights c.thread 0))
        × Logging 0 default_queue_size (line_message 0 wait_stop ∷ []) w
  unfolding main
  main_logs from_json_file cores args c e service alone =
      let (d, same, logger, still, threads) = configured c service in
      let (w, runs, ready) = start_lem d logger (still ∙ alone) in
      let at : (Config.read from_json_file (config_path args) (Config.new cores)).0 ≡ d =
        ap (λ (r : Config × Option Bytes). r.0)
          (read_done from_json_file (config_path args) (Config.new cores) c e)
        ∙ same in
      (
        w,
        ap (start server_init client_init use_count launch_text failed_text name_of) at
            ∙ runs
            ∙ ap (λ n. some (w, weights n 0)) threads,
        ready,
      )
