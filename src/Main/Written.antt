-- ===== src/Main/Written.antt =====
-- From `main` to the lines in the file of the log.
use cpp_sk.Base.{ℕ, ◌+◌, ◌<◌, ◌≡◌, ◌⊎◌, Bool, Option, none, some, List, [], ◌∷◌, arith, length}
use Prim.Native.String.{String}
use cpp_sk.World.{World}
use cpp_sk.World.Log.{Line, log_all}
use cpp_sk.HandleStorage.{Ptr}
use cpp_sk.Message.{Bytes}
use cpp_sk.MessageQueue.{MessageQueue, default_queue_size}
use cpp_sk.MessageQueue.Contents.{contents}
use cpp_sk.Service.{Behaviour}
use cpp_sk.Logger.{Logger, rounds}
use cpp_sk.Logger.Lines.{written, with_lines, logged-written}
use cpp_sk.Config.{Config}
use cpp_sk.Config
use cpp_sk.Main.{main, config_path, weights, wait_site, wait_stop}
use cpp_sk.Main.Start.{main_logs}

-- The line that `start` logs.
abbrev pub wait_line : Line
wait_line = record { site = wait_site; source = 0; msg = wait_stop }

module _ (server_init client_init : Ptr → Bytes → World → Option (World × Bool))
    (use_count : World → Ptr → ℕ) (launch_text : String → Bytes → Bytes)
    (failed_text : String → Bytes) (name_of : Bytes → String) where
  -- Where the file is read and names no bootstrap service, and the logger or no service for the log,
  -- `main` starts: no step fails, and each thread has its weight. Fewer than 63 lines that are logged
  -- then all reach the logger: as many messages of its queue as there are lines, and one more, make it
  -- append "wait stop" and these lines, in order, to `stdout`, and to its file where it has one.
  pub main-written :
      (from_json_file : String → Config → Config × Option Bytes) (cores : ℕ) (args : List String)
      (c : Config) (zoned : ℕ → Bytes) (b : Behaviour) (xs : List Line) (times : List ℕ)
      (l : Logger)
      → from_json_file (config_path args) (Config.new cores) ≡ (c, none)
      → (c.logservice ≡ "") ⊎ (c.logservice ≡ "logger")
      → c.bootstrap ≡ []
      → length xs < 63
      → length times ≡ length xs + 1
      → (w w' : World) × (q' : MessageQueue) × (main server_init client_init use_count launch_text
            failed_text name_of from_json_file cores args
          ≡ some (w, weights c.thread 0))
        × (log_all w xs ≡ some w')
        × (rounds zoned b times (w'.contexts 0).queue l
            ≡ some (q', with_lines zoned (written zoned times (wait_line ∷ xs)) l))
        × (contents q' ≡ [])
  main-written from_json_file cores args c zoned b xs times l e service alone few n =
      let (w, runs, ready) =
        main_logs server_init client_init use_count launch_text failed_text name_of from_json_file
          cores args c e service alone in
      let (w', q', logs, writes, empty) =
        logged-written zoned b 0 default_queue_size w (wait_line ∷ []) xs times l ready
          (omega (arith, few)) (omega (arith, n)) in
      (w, w', q', runs, logs, writes, empty)
