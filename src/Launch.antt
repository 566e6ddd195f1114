-- ===== src/Launch.antt =====
-- `context_t::create` and `module_t` of cpp_sk.cpp.
-- The modules are parameters: whether the map has a creator of a name, and what
-- the `init` of an instance does to the world. So are the count of the references to a context and
-- the texts of the log.
pub mod Enroll
mod Tests
use cpp_sk.Base.{ℕ, ◌+◌, Bool, true, false, Option, none, some, ◌==◌, if◌then◌else◌}
use cpp_sk.World.{Context, World, handle_of, put, error}
use cpp_sk.Dispatch.{release_queue}
use Prim.Native.String.{String}
use cpp_sk.HandleStorage.{Ptr, handle_register, handle_retire, register_fuel}
use cpp_sk.Message.{Bytes}
use cpp_sk.MessageQueue
use cpp_sk.GlobalQueue

-- A context as `create` fills it before it registers.
unfoldable pub new_context : Context
new_context = record {
  cb = false;
  queue = MessageQueue.new 0;
  handle = 0;
  session_id = 0;
  message_count = 0;
  init = false;
  endless = false;
}

abbrev pub launch_site : ℕ
launch_site = 2

abbrev pub failed_site : ℕ
failed_site = 3

-- The first half of `create`: the context made and registered, with its queue.
unfoldable pub enroll : World → Option (World × Ptr)
unfolding new_context
enroll w =
    let p = w.fresh in
    let w' = put (record w { fresh = p + 1; total = w.total + 1 }) p new_context in
    elim (handle_register register_fuel w'.storage p) [
      | none ↦ none
      | some (storage, handle) ↦ some (
        put (record w' { storage = storage }) p
            (record new_context { handle = handle; queue = MessageQueue.new handle }),
        p,
      )
    ]

module _ (has_creator : String → Bool) (init : String → Ptr → Bytes → World → Option (World × Bool))
    (use_count : World → Ptr → ℕ) (launch_text : String → Bytes → Bytes)
    (failed_text : String → Bytes) where
  -- After an `init` that went well.
  unfoldable pub launched : World → Ptr → String → Bytes → Option World
  launched w p name param =
      let w' = put w p (record (w.contexts p) { init = true }) in
      elim (GlobalQueue.push w'.global p) [
        | none ↦ none
        | some g ↦
            let w'' = record w' { global = g } in
            elim (use_count w'' p == 1) [
              | true ↦ some w''
              | false ↦ error w'' launch_site (handle_of w'' p) (launch_text name param)
            ]
      ]

  -- After an `init` that failed.
  unfoldable pub failed : World → Ptr → String → Option World
  failed w p name = elim (error w failed_site (handle_of w p) (failed_text name)) [
    | none ↦ none
    | some w' ↦
        let (storage, ok) = handle_retire (handle_of w') w'.storage (handle_of w' p) in
        release_queue (record w' { storage = storage }) p (handle_of w' p)
  ]

  -- `context_t::create`. An unknown name gives a null instance, whose `init` is called.
  unfoldable pub create : World → String → Bytes → Option (World × Ptr)
  unfolding enroll launched failed
  create w name param = elim (enroll w) [
    | none ↦ none
    | some (w1, p) ↦ elim (has_creator name) [
      | false ↦ none
      | true ↦ elim (init name p param w1) [
        | none ↦ none
        | some (w2, ok) ↦ elim (if ok then launched w2 p name param else failed w2 p name) [
          | none ↦ none
          | some w3 ↦ some (w3, p)
        ]
      ]
    ]
  ]
