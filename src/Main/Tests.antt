-- ===== src/Main/Tests.antt =====
-- `main` with a file that is not there, and with one that names a file for the log.
use cpp_sk.Base.{ℕ, ◌≡◌, refl, inl, Bool, true, Option, none, some, [], ◌∷◌}
use Prim.Native.String.{String}
use cpp_sk.World.{World}
use cpp_sk.HandleStorage.{Ptr}
use cpp_sk.Message.{Bytes}
use cpp_sk.Config.{Config}
use cpp_sk.Config
use cpp_sk.Main.{main, weights}
use cpp_sk.Main.Written.{wait_line, main-written}
use cpp_sk.Logger.{rounds}
use cpp_sk.Logger.Lines.{written, with_lines}
use cpp_sk.Logger.Tests.{stamp, plain, console, two_lines}
use cpp_sk.World.Log.{log_all}
use cpp_sk.MessageQueue.{MessageQueue}
use cpp_sk.MessageQueue.Contents.{contents}
use cpp_sk.Base.{arith}

abbrev ready : Ptr → Bytes → World → Option (World × Bool)
ready p param w = some (w, true)

abbrev twice : World → Ptr → ℕ
twice w p = 2

abbrev no_text : String → Bytes → Bytes
no_text name param = []

abbrev no_name : String → Bytes
no_name name = []

abbrev pingpong : Bytes → String
pingpong name = "pingpong_server"

abbrev missing_file : String → Config → Config × Option Bytes
missing_file path c = (c, some (110 ∷ 111 ∷ []))

abbrev small_file : String → Config → Config × Option Bytes
small_file path c = (record c { thread = 2; logger = 97 ∷ [] }, none)

main-written_example :
    (w w' : World) × (q' : MessageQueue) × (main ready ready twice no_text no_name pingpong
        small_file 8
        ("my.json" ∷ [])
      ≡ some (w, weights 2 0))
    × (log_all w two_lines ≡ some w')
    × (rounds stamp plain (1 ∷ 2 ∷ 3 ∷ []) (w'.contexts 0).queue console
        ≡ some
            (q', with_lines stamp (written stamp (1 ∷ 2 ∷ 3 ∷ []) (wait_line ∷ two_lines)) console))
    × (contents q' ≡ [])
unfolding Config.new
main-written_example =
    main-written ready ready twice no_text no_name pingpong small_file 8 ("my.json" ∷ [])
      (record (Config.new 8) { thread = 2; logger = 97 ∷ [] }) stamp plain two_lines
      (1 ∷ 2 ∷ 3 ∷ []) console refl (inl refl) refl (omega arith) (omega arith)
