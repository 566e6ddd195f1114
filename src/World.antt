-- ===== src/World.antt =====
-- The contexts of cpp_sk.h and cpp_sk.cpp and what they share: `context_t`, `context_push`,
-- `context_endless`, `error` and `newsession`. A context is known by a pointer, which is the pointer
-- of its message queue too, since the context owns the queue. An `int` is its 32-bit pattern. `none`
-- is a failed `assert` or a null pointer. A context stays in memory while a queue names it.
pub mod Push
pub mod Session
pub mod Waiting
pub mod Log
pub mod Tests
use cpp_sk.Base.{
  ℕ, ◌+◌, ◌-◌, ◌*◌, ◌%◌, ◌^◌, ap, Bool, true, false, Option, none, some, [], ◌==◌, if◌then◌else◌,
  set,
}
use cpp_sk.GlobalQueue.{GlobalQueue}
use cpp_sk.GlobalQueue
use cpp_sk.HandleStorage.{Ptr, HandleStorage, handle_grab, handle_finename}
use cpp_sk.MessageQueue.{MessageQueue, mq_push}
use cpp_sk.Message.{Bytes, SkynetMessage, string, text, is_nonpos}

-- `context_t`: `cb` says whether a callback is set.
pub record Context : Type 0 where
  pub cb : Bool
  pub queue : MessageQueue
  pub handle : ℕ
  pub session_id : ℕ
  pub message_count : ℕ
  pub init : Bool
  pub endless : Bool

-- `loggers` holds the variable `static logger` of each instance of the template `error`, and `total`
-- is the number of contexts. `fresh` is the pointer of the next context made.
pub record World : Type 0 where
  pub storage : HandleStorage
  pub contexts : Ptr → Context
  pub global : GlobalQueue
  pub loggers : ℕ → ℕ
  pub total : ℕ
  pub fresh : Ptr

abbrev pub handle_of : World → Ptr → ℕ
handle_of w p = (w.contexts p).handle

-- The destructor of a context, whose instance is gone before the count.
unfoldable pub destroyed : World → World
destroyed w = record w { total = (w.total + (2 ^ 32 - 1)) % 2 ^ 32 }

-- `*p = c`
unfoldable pub put : World → Ptr → Context → World
put w p c = record w { contexts = λ r. if r == p then c else w.contexts r }

-- `ctx->queue = q`
unfoldable pub put_queue : World → Ptr → MessageQueue → World
unfolding put
put_queue w p q = put w p (record (w.contexts p) { queue = q })

-- `handle_grab` on the contexts of the world.
unfoldable pub grab : World → ℕ → Option Ptr
grab w h = handle_grab (handle_of w) w.storage h

-- The queue of `p`, and the global list with the queue put in if it asks for it.
unfoldable pub publish : World → Ptr → MessageQueue × Bool → Option World
unfolding put_queue
publish w p (q, wanted) =
    let w' = put_queue w p q in
    elim wanted [
      | false ↦ some w'
      | true ↦ elim (GlobalQueue.push w'.global p) [
        | none ↦ none
        | some g ↦ some (record w' { global = g })
      ]
    ]

-- `skynet_app::context_push`
unfoldable pub context_push : World → ℕ → SkynetMessage → Option (World × Bool)
unfolding grab publish
context_push w h msg = elim (grab w h) [
  | none ↦ some (w, false)
  | some p ↦ elim (publish w p (mq_push (w.contexts p).queue msg)) [
    | none ↦ none
    | some w' ↦ some (w', true)
  ]
]

-- `skynet_app::context_endless`
unfoldable pub context_endless : World → ℕ → World
unfolding grab put
context_endless w h = elim (grab w h) [
  | none ↦ w
  | some p ↦ put w p (record (w.contexts p) { endless = true })
]

-- The handle that the instance `site` of `error` logs to: it asks for the name until it has one.
unfoldable pub find_logger : World → ℕ → ℕ
find_logger w site =
    if w.loggers site == 0 then handle_finename w.storage "logger" else w.loggers site

-- `skynet_app::error`: `source` is the handle of the context or 0, `msg` the text that `std::vformat`
-- made.
unfoldable pub error : World → ℕ → ℕ → Bytes → Option World
unfolding find_logger context_push
error w site source msg =
    let logger = find_logger w site in
    let w' = record w { loggers = λ s. if s == site then logger else w.loggers s } in
    elim (logger == 0) [
      | true ↦ some w'
      | false ↦
          elim (context_push w' logger
            (record { source = source; session = 0; content = string msg; t = text })) [
              | none ↦ none
              | some (w'', ok) ↦ some w''
            ]
    ]

-- `context_t::newsession`
unfoldable pub newsession : Context → Context × ℕ
newsession c =
    let session = (c.session_id + 1) % 2 ^ 32 in
    elim (is_nonpos session) [
      | true ↦ (record c { session_id = 1 }, 1)
      | false ↦ (record c { session_id = session }, session)
    ]
