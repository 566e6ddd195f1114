-- ===== src/Rpc/Exchange.antt =====
-- A remote call from the request to the callback of its reply.
use cpp_sk.Base.{
  ℕ, ◌^◌, ◌<◌, ◌≡◌, refl, sym, ap, ◌∙◌, true, Option, some, List, arith, length, ==_refl,
}
use cpp_sk.World.{World, Context, handle_of, put, grab, newsession}
use cpp_sk.World.Push.{Scheduled, SameHandles, grab-SameHandles, context_push-Delivers}
use cpp_sk.Rpc.{rpc_encode, put_result, send_request, request, on_rpc_cpp}
use cpp_sk.Rpc.Call.{answer}
use cpp_sk.Service.{Closure, Service, on_response}
use cpp_sk.Base.Maps.{find, insert, erase, find-insert}
use cpp_sk.HandleStorage.{Ptr}
use cpp_sk.MessageQueue.{MessageQueue, mq_push}
use cpp_sk.Message.{Bytes, SkynetMessage, string}
use cpp_sk.Message.Ptype.{response, reserved_cpp}

-- The world after a new session: the queues and the handles stay.
abbrev sessioned : World → Ptr → World
sessioned w p = put w p (newsession (w.contexts p)).0

sessioned_queue :
    (w : World) (p r : Ptr) → ((sessioned w p).contexts r).queue ≡ (w.contexts r).queue
unfolding put newsession
sessioned_queue w p r = ground arith

sessioned-SameHandles : (w : World) (p : Ptr) → SameHandles w (sessioned w p)
unfolding put newsession
sessioned-SameHandles w p = record {
  storage = refl;
  fresh = refl;
  handle = λ r. ground arith;
  queue_handle = λ r. ground arith;
}

sessioned-Scheduled :
    (w : World) (p : Ptr) (gs : List Ptr) → Scheduled w gs → Scheduled (sessioned w p) gs
unfolding put
sessioned-Scheduled w p gs s = record {
  holds = s.holds;
  idle = λ r i. s.idle r (ap MessageQueue.in_global (sym (sessioned_queue w p r)) ∙ i);
}

newsession_handle : (c : Context) → (newsession c).0.handle ≡ c.handle
unfolding newsession
newsession_handle c = ground arith

-- The session that the next request of a service gets.
abbrev pub next_session : Service → ℕ
next_session s = (newsession (s.world.contexts s.self)).1

-- The request for the function `id`, and the reply with what it wrote.
abbrev pub request_message : Service → ℕ → Bytes → SkynetMessage
request_message s id args = record {
  source = handle_of s.world s.self;
  session = next_session s;
  content = string (rpc_encode id args);
  t = reserved_cpp;
}

abbrev pub reply_message : Service → ℕ → Bytes → SkynetMessage
reply_message s source ret = record {
  source = source;
  session = next_session s;
  content = string (put_result 0 ret);
  t = response;
}

request_run :
    (s : Service) (gs : List Ptr) (q : Ptr) (h id : ℕ) (args : Bytes) (cb : Closure)
    → Scheduled s.world gs
    → grab s.world h ≡ some q
    → (t : Service) × (request s h id args cb ≡ some (t, true))
      × ((t.world.contexts q).queue
          ≡ (mq_push (s.world.contexts q).queue (request_message s id args)).0)
      × (t.response_cbs ≡ insert (next_session s) cb s.response_cbs)
unfolding request send_request
request_run s gs q h id args cb sch found =
    let w1 = sessioned s.world s.self in
    let there = grab-SameHandles (sessioned-SameHandles s.world s.self) h ∙ found in
    let c = (newsession (s.world.contexts s.self)).0 in
    let named = newsession_handle (s.world.contexts s.self) in
    let msg = record (request_message s id args) { source = c.handle } in
    let (w2, done, d) =
      context_push-Delivers w1 gs h q msg (sessioned-Scheduled s.world s.self gs sch) there in
    (
      record s { world = w2; response_cbs = insert (next_session s) cb s.response_cbs },
      rw (found, done, request, send_request) refl,
      d.queue
          ∙ ap (λ x. (mq_push x msg).0) (sessioned_queue s.world s.self q)
          ∙ ap
              (λ k.
                (mq_push (s.world.contexts q).queue
                  (record (request_message s id args) { source = k })).0)
              named,
      refl,
    )

module _ (call : Closure → Service → Option Service)
    (call_text : Closure → Bytes → Service → Option Service)
    (router : ℕ → Option (Bytes → Option Bytes)) where
  -- A request to a handle with a context, in a world whose global list is in order, puts its message
  -- into that context's queue. Where the function is registered there and reads its arguments, and its
  -- number and the size of the arguments are below 2^32, then in any later world whose list is in order
  -- and in which the caller's handle leads to it, the handling of the message puts the reply, with the
  -- caller's session and what the function wrote, into the caller's queue; and the handling of the
  -- reply, with the callbacks that the request left, takes out the closure of the request and calls it,
  -- whatever the world is by then.
  pub exchange :
      (s : Service) (gs : List Ptr) (q : Ptr) (h id : ℕ) (args ret : Bytes) (cb : Closure)
      (run : Bytes → Option Bytes) (later : World) (gs' : List Ptr) (last : World)
      → Scheduled s.world gs
      → grab s.world h ≡ some q
      → id < 2 ^ 32
      → length args < 2 ^ 32
      → router id ≡ some run
      → run args ≡ some ret
      → Scheduled later gs'
      → grab later (handle_of s.world s.self) ≡ some s.self
      → (t : Service) × (w : World) × (request s h id args cb ≡ some (t, true))
        × ((t.world.contexts q).queue
            ≡ (mq_push (s.world.contexts q).queue (request_message s id args)).0)
        × (on_rpc_cpp router later q
              (next_session s)
              (handle_of s.world s.self)
              (rpc_encode id args)
            ≡ some w)
        × ((w.contexts s.self).queue
            ≡ (mq_push (later.contexts s.self).queue (reply_message s (handle_of later q) ret)).0)
        × (on_response call call_text
              (record t { world = last })
              (next_session s)
              (string (put_result 0 ret))
            ≡ call_text cb
                (put_result 0 ret)
                (record t { world = last; response_cbs = erase (next_session s) t.response_cbs }))
  unfolding on_rpc_cpp on_response
  exchange s gs q h id args ret cb run later gs' last sch found small short known runs sch' back =
      let (t, sent, queued, waits) = request_run s gs q h id args cb sch found in
      let reply = answer router run id args ret small short known runs in
      let (w, done, d) =
        context_push-Delivers later gs' (handle_of s.world s.self) s.self
          (reply_message s (handle_of later q) ret) sch' back in
      let there : find (next_session s) t.response_cbs ≡ some cb =
        ap (find (next_session s)) waits
        ∙ find-insert (next_session s) (next_session s) cb s.response_cbs
        ∙ rw (==_refl (next_session s)) refl in
      (t, w, sent, queued, rw (reply, done, on_rpc_cpp) refl, d.queue, rw (there, on_response) refl)
