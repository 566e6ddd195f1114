-- ===== src/Dispatch.antt =====
-- What a worker does in cpp_sk.cpp: `context_t::dispatch` and
-- `context_message_dispatch`. The callback of a service, and the texts that `std::vformat` makes, are
-- parameters. `none` is a failed `assert`, a null pointer, or a callback that does not return.
pub mod Orphan
pub mod Count
pub mod Batch
mod Tests
use cpp_sk.Base.{
  ℕ, zero, suc, ◌+◌, ◌-◌, ◌/◌, ◌%◌, ◌^◌, ap, Bool, true, false, not, Option, none, some, List, [],
  ◌∷◌, ◌==◌, if◌then◌else◌, length, set, take, drop,
}
use cpp_sk.World.{World, handle_of, put, put_queue, grab, publish, context_push, error}
use cpp_sk.Monitor.{SkynetMonitor, trigger}
use cpp_sk.HandleStorage.{Ptr}
use cpp_sk.Message.{Bytes, SkynetMessage, Payload, nothing, reserved_data, Ptype}
use cpp_sk.Message.Ptype.{error as error_type}
use cpp_sk.MessageQueue.{MessageQueue, mq_length, mq_overload, mq_pop, mq_release}
use cpp_sk.GlobalQueue

-- `n` of the loop after its first `mq_pop`: a weight `none` is a negative one.
unfoldable pub batch : Option ℕ → MessageQueue → ℕ
batch none q = 1
batch (some weight) q = mq_length q / 2 ^ weight

-- The function that `mq_release` calls for each message of a queue without a context: it sends an
-- error to `source`, which is the handle of the queue itself.
unfoldable pub drop_message : World → ℕ → SkynetMessage → Option World
drop_message w source msg = elim (source == 0) [
  | true ↦ none
  | false ↦
      elim (context_push w source
        (record { source = source; session = msg.session; content = nothing; t = error_type })) [
          | none ↦ none
          | some (w', _) ↦ some w'
        ]
]

unfoldable pub drop_messages : World → ℕ → List SkynetMessage → Option World
unfolding drop_message
drop_messages w source [] = some w
drop_messages w source (msg ∷ msgs) = elim (drop_message w source msg) [
  | none ↦ none
  | some w' ↦ drop_messages w' source msgs
]

-- `q->mq_release` with this function. The fuel is one more than the number of messages.
unfoldable pub release_queue : World → Ptr → ℕ → Option World
unfolding drop_messages publish
release_queue w q source =
    elim (mq_release (suc (mq_length (w.contexts q).queue)) (w.contexts q).queue) [
      | none ↦ none
      | some (msgs, mq, wanted) ↦ elim (publish w q (mq, wanted)) [
        | none ↦ none
        | some w' ↦ drop_messages w' source msgs
      ]
    ]

-- The pop of the global queue in the world.
unfoldable pub take_queue : World → Option (World × Option Ptr)
take_queue w = elim (GlobalQueue.pop w.global) [
  | none ↦ none
  | some (q, g) ↦ some (record w { global = g }, q)
]

-- After the loop: the next queue of the global list, with `q` put back, or `q` again.
unfoldable pub next_queue : World → Ptr → Option (World × Option Ptr)
unfolding take_queue
next_queue w q = elim (take_queue w) [
  | none ↦ none
  | some (w', none) ↦ some (w', some q)
  | some (w', some nq) ↦ elim (GlobalQueue.push w'.global q) [
    | none ↦ none
    | some g ↦ some (record w' { global = g }, some nq)
  ]
]

-- What follows the loop: its result says whether the queue ran empty.
unfoldable pub leave :
    Ptr
    → Option Ptr
    → Option (World × SkynetMonitor × Bool)
    → Option (World × SkynetMonitor × Option Ptr)
unfolding next_queue
leave q ctx none = none
leave q ctx (some (w, m, true)) = elim (take_queue w) [
  | none ↦ none
  | some (w', nq) ↦ some (w', m, nq)
]
leave q ctx (some (w, m, false)) = elim ctx [
  | none ↦ none
  | some p ↦ elim (q == p) [
    | false ↦ none
    | true ↦ elim (next_queue w q) [ none ↦ none | some (w', nq) ↦ some (w', m, nq) ]
  ]
]

-- This instance of the template `error`.
abbrev pub overload_site : ℕ
overload_site = 0

module _ (overload_text : ℕ → Bytes) where
  -- The report of an overload of the queue of `q`, where `mq_overload` gives one.
  unfoldable pub report_overload : World → Ptr → Option Ptr → Option World
  report_overload w q ctx =
      let (overload, mq) = mq_overload (w.contexts q).queue in
      let w' = put_queue w q mq in
      elim (overload == 0) [
        | true ↦ some w'
        | false ↦
            error w' overload_site (elim ctx [ none ↦ 0 | some p ↦ handle_of w' p ])
              (overload_text overload)
      ]

module _ (callback : Ptr → SkynetMessage → World → Option (World × ℕ))
    (overload_text : ℕ → Bytes) where
  -- `context_t::dispatch`: the world and the message after it.
  unfoldable pub dispatch : World → Ptr → SkynetMessage → Option (World × SkynetMessage)
  dispatch w p msg =
      let c = w.contexts p in
      let w' = put w p (record c { message_count = (c.message_count + 1) % 2 ^ 64 }) in
      elim (callback p msg w') [
        | none ↦ none
        | some (w'', reserve_msg) ↦ some (w'', if reserve_msg == 0 then msg else reserved_data msg)
      ]

  -- The body of the loop after `mq_pop`, for the queue of `q`: `ctx->cb` needs a context, and a
  -- callback that is not set is skipped.
  unfoldable pub serve :
      World → SkynetMonitor → Ptr → ℕ → Option Ptr → SkynetMessage → Option (World × SkynetMonitor)
  unfolding report_overload dispatch
  serve w m q handle ctx msg = elim (report_overload overload_text w q ctx) [
    | none ↦ none
    | some w1 ↦
        let m' = trigger (trigger m msg.source handle) 0 0 in
        elim ctx [
          | none ↦ none
          | some p ↦ elim (w1.contexts p).cb [
            | false ↦ some (w1, m')
            | true ↦ elim (dispatch w1 p msg) [ none ↦ none | some (w2, _) ↦ some (w2, m') ]
          ]
        ]
  ]

  -- The rounds of the loop that are left; the Boolean says whether the queue ran empty.
  unfoldable pub rounds :
      ℕ → World → SkynetMonitor → Ptr → ℕ → Option Ptr → Option (World × SkynetMonitor × Bool)
  rounds zero w m q handle ctx = some (w, m, false)
  rounds (suc n) w m q handle ctx =
      let (msg, mq) = mq_pop (w.contexts q).queue in
      let w' = put_queue w q mq in
      elim msg [
        | none ↦ some (w', m, true)
        | some msg ↦ elim (serve w' m q handle ctx msg) [
          | none ↦ none
          | some (w'', m') ↦ rounds n w'' m' q handle ctx
        ]
      ]

  -- The whole loop. The first round takes place whatever `n` becomes.
  unfoldable pub loop :
      Option ℕ
      → World
      → SkynetMonitor
      → Ptr
      → ℕ
      → Option Ptr
      → Option (World × SkynetMonitor × Bool)
  unfolding serve rounds batch
  loop weight w m q handle ctx =
      let (msg, mq) = mq_pop (w.contexts q).queue in
      let w' = put_queue w q mq in
      elim msg [
        | none ↦ some (w', m, true)
        | some msg ↦ elim (serve w' m q handle ctx msg) [
          | none ↦ none
          | some (w'', m') ↦ rounds (batch weight mq - 1) w'' m' q handle ctx
        ]
      ]

  -- The function on a queue that is not null.
  unfoldable pub serve_queue :
      World → SkynetMonitor → Ptr → Option ℕ → Option (World × SkynetMonitor × Option Ptr)
  unfolding release_queue loop leave
  serve_queue w m q weight =
      let handle = (w.contexts q).queue.handle in
      elim (grab w handle) [
        | some p ↦ leave q (some p) (loop weight w m q handle (some p))
        | none ↦ elim (release_queue w q handle) [
          | none ↦ none
          | some w' ↦ leave q none (loop weight w' m q handle none)
        ]
      ]

  -- `skynet_app::context_message_dispatch`
  unfoldable pub context_message_dispatch :
      World → SkynetMonitor → Option Ptr → Option ℕ → Option (World × SkynetMonitor × Option Ptr)
  unfolding serve_queue
  context_message_dispatch w m (some q) weight = serve_queue w m q weight
  context_message_dispatch w m none weight = elim (take_queue w) [
    | none ↦ none
    | some (w', none) ↦ some (w', m, none)
    | some (w', some q) ↦ serve_queue w' m q weight
  ]
