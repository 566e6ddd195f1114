-- ===== src/Rpc/Tests.antt =====
-- A function that gives its arguments back, under the number 5, and the theorems there.
use cpp_sk.World.{World, grab}
use cpp_sk.World.Tests.{two, two-Scheduled}
use cpp_sk.Service.{Closure, Service, on_response}
use cpp_sk.Base.Maps.{erase}
use cpp_sk.Rpc.{put_result, request, on_rpc_cpp}
use cpp_sk.Rpc.Exchange.{next_session, request_message, reply_message, exchange}
use cpp_sk.HandleStorage.{handle_grab}
use cpp_sk.MessageQueue.{mq_push}
use cpp_sk.Message.{string}
use cpp_sk.Base.{
  ℕ, ◌≡◌, refl, ◌↔◌, true, false, Option, none, some, [], ◌∷◌, arith, ◌==◌, if◌then◌else◌,
}
use cpp_sk.Rpc.Typed.{routed, wrapped, call_value}
use cpp_sk.Rpc.{as_value, register_rpc_func, rpc_encode, has_error, on_rpc_call}
use cpp_sk.Rpc.Call.{Answered, has_error-on_rpc_call}
use cpp_sk.Message.{Bytes}

abbrev echo : Bytes → Option Bytes
echo s = some s

abbrev router : ℕ → Option (Bytes → Option Bytes)
router id = if id == 5 then some echo else none

-- The serializer that changes nothing, and a function that puts a byte before its text.
abbrev same : Bytes → Bytes
same bytes = bytes

abbrev prefix : Bytes → Bytes
prefix bytes = 1 ∷ bytes

call_value_example :
    (has_error (
        on_rpc_call
          (routed (register_rpc_func 5 (wrapped echo same prefix) []))
          (rpc_encode 5 (7 ∷ [])))
      ≡ false)
    × (as_value echo (
          on_rpc_call
            (routed (register_rpc_func 5 (wrapped echo same prefix) []))
            (rpc_encode 5 (7 ∷ [])))
        ≡ some (1 ∷ 7 ∷ []))
call_value_example =
    call_value same echo same echo (λ a. refl) (λ r. refl) prefix (7 ∷ []) 5 [] (omega arith)
      (omega arith) (omega arith) (omega arith)

has_error-on_rpc_call_example :
    (has_error (on_rpc_call router (1 ∷ 2 ∷ [])) ≡ false) ↔ Answered router (1 ∷ 2 ∷ [])
has_error-on_rpc_call_example = has_error-on_rpc_call router (1 ∷ 2 ∷ [])

-- The service of context 1 asks the function 5 of context 2.
abbrev caller : Service
caller = record {
  self = 1;
  socket_nodes = [];
  timeout_nodes = [];
  response_cbs = [];
  world = two;
  timer = record { near = []; wheel = []; time = 0; starttime = 0; current = 0; current_point = 0 };
  server = record { slots = []; alloc = 1 };
  posted = [];
}

ignore : Closure → Service → Option Service
ignore c s = some s

ignore_text : Closure → Bytes → Service → Option Service
ignore_text c t s = some s

callee : grab two 2 ≡ some 2
unfolding grab handle_grab
callee = refl

back : grab two 1 ≡ some 1
unfolding grab handle_grab
back = refl

exchange_example :
    (t : Service) × (w : World) × (request caller 2 5 (7 ∷ []) 9 ≡ some (t, true))
    × ((t.world.contexts 2).queue
        ≡ (mq_push (two.contexts 2).queue (request_message caller 5 (7 ∷ []))).0)
    × (on_rpc_cpp router two 2 (next_session caller) 1 (rpc_encode 5 (7 ∷ [])) ≡ some w)
    × ((w.contexts 1).queue ≡ (mq_push (two.contexts 1).queue (reply_message caller 2 (7 ∷ []))).0)
    × (on_response ignore ignore_text
          (record t { world = two })
          (next_session caller)
          (string (put_result 0 (7 ∷ [])))
        ≡ ignore_text 9
            (put_result 0 (7 ∷ []))
            (record t { world = two; response_cbs = erase (next_session caller) t.response_cbs }))
exchange_example =
    exchange ignore ignore_text router caller (1 ∷ []) 2 2 5 (7 ∷ []) (7 ∷ []) 9 echo two (1 ∷ [])
      two two-Scheduled callee (omega arith) (omega arith) refl refl two-Scheduled back
