-- ===== src/Dispatch/Count.antt =====
-- The count of messages that `context_t::dispatch` keeps (cpp_sk.cpp).
use cpp_sk.Base.{
  ℕ, ◌+◌, ◌%◌, ◌^◌, ◌≡◌, inl, inr, refl, ◌∙◌, Bool, true, false, Option, none, some, arith,
  Option-cases, Bool-cases, ◌==◌, if◌then◌else◌,
}
use cpp_sk.World.{World, handle_of, find_logger, put, put_queue, grab, publish, context_push, error}
use cpp_sk.Dispatch.{take_queue, next_queue, leave, report_overload, overload_site, dispatch, serve}
use cpp_sk.Monitor.{SkynetMonitor}
use cpp_sk.HandleStorage.{Ptr}
use cpp_sk.Message.{Bytes, SkynetMessage, string, text}
use cpp_sk.MessageQueue.{MessageQueue, mq_push, mq_overload}

-- The context `p` still has a callback, and `k` messages more were handed to it.
pub record Counted (p : Ptr) (k : ℕ) (w w' : World) : Type 0 where
  pub count : (w'.contexts p).message_count ≡ ((w.contexts p).message_count + k) % 2 ^ 64
  pub set : (w'.contexts p).cb ≡ true

-- The count and the callback of `p` are the same.
pub record Keeps (p : Ptr) (w w' : World) : Type 0 where
  pub count : (w'.contexts p).message_count ≡ (w.contexts p).message_count
  pub set : (w'.contexts p).cb ≡ (w.contexts p).cb

Keeps-trans : {p : Ptr} {u v w : World} → Keeps p u v → Keeps p v w → Keeps p u w
Keeps-trans a b = record { count = b.count ∙ a.count; set = b.set ∙ a.set }

pub put_queue-Keeps : (p q : Ptr) (w : World) (mq : MessageQueue) → Keeps p w (put_queue w q mq)
unfolding put_queue put
put_queue-Keeps p q w mq = record { count = ground arith; set = ground arith }

publish-Keeps :
    (p q : Ptr) (w w' : World) (r : MessageQueue × Bool) → publish w q r ≡ some w' → Keeps p w w'
unfolding publish
publish-Keeps p q w w' r e =
    let k = put_queue-Keeps p q w r.0 in
    record { count = ground (arith, e, k.count); set = ground (arith, e, k.set) }

push-Keeps :
    (p : Ptr) (w w' : World) (h : ℕ) (m : SkynetMessage) (ok : Bool)
    → context_push w h m ≡ some (w', ok)
    → Keeps p w w'
unfolding context_push
push-Keeps p w w' h m ok e = elim (Option-cases (grab w h)) [
  | inl gone ↦
      let same : w' ≡ w = ground (arith, e, gone) in rw same (record { count = refl; set = refl })
  | inr (q, found) ↦ elim (Option-cases (publish w q (mq_push (w.contexts q).queue m))) [
    | inl fails ↦ absurd (ground (arith, e, found, fails))
    | inr (v, done) ↦
        let same : w' ≡ v = ground (arith, e, found, done) in
        rw same (publish-Keeps p q w v (mq_push (w.contexts q).queue m) done)
  ]
]

error-Keeps :
    (p : Ptr) (w w' : World) (site source : ℕ) (msg : Bytes)
    → error w site source msg ≡ some w'
    → Keeps p w w'
unfolding error
error-Keeps p w w' site source msg e =
    let logger = find_logger w site in
    let w0 : World = record w { loggers = λ s. if s == site then logger else w.loggers s } in
    let m : SkynetMessage = record {
      source = source;
      session = 0;
      content = string msg;
      t = text;
    } in
    let start : Keeps p w w0 = record { count = refl; set = refl } in
    elim (Bool-cases (logger == 0)) [
      | inl nobody ↦ let same : w' ≡ w0 = ground (arith, e, nobody) in rw same start
      | inr named ↦ elim (Option-cases (context_push w0 logger m)) [
        | inl fails ↦ absurd (ground (arith, e, named, fails))
        | inr ((v, ok), done) ↦
            let same : w' ≡ v = ground (arith, e, named, done) in
            rw same (Keeps-trans start (push-Keeps p w0 v logger m ok done))
      ]
    ]

-- The report of an overload.
report-Keeps :
    (overload_text : ℕ → Bytes) (p q : Ptr) (ctx : Option Ptr) (w w' : World)
    → report_overload overload_text w q ctx ≡ some w'
    → Keeps p w w'
unfolding report_overload
report-Keeps overload_text p q ctx w w' e =
    let (overload, mq) = mq_overload (w.contexts q).queue in
    let w0 = put_queue w q mq in
    elim (Bool-cases (overload == 0)) [
      | inl none_ ↦
          let same : w' ≡ w0 = ground (arith, e, none_) in rw same (put_queue-Keeps p q w mq)
      | inr some_ ↦
          let source = elim ctx as (λ x. ℕ) [ none ↦ 0 | some p ↦ handle_of w0 p ] in
          let run : error w0 overload_site source (overload_text overload) ≡ some w' =
            ground (arith, e, some_) in
          Keeps-trans (put_queue-Keeps p q w mq)
            (error-Keeps p w0 w' overload_site source (overload_text overload) run)
    ]

-- What follows the loop changes the global list alone.
take_queue-contexts :
    (w w' : World) (nq : Option Ptr) → take_queue w ≡ some (w', nq) → w'.contexts ≡ w.contexts
unfolding take_queue
take_queue-contexts w w' nq e = ground (arith, e)

next_queue-contexts :
    (w w' : World) (q : Ptr) (nq : Option Ptr)
    → next_queue w q ≡ some (w', nq)
    → w'.contexts ≡ w.contexts
unfolding next_queue
next_queue-contexts w w' q nq e = elim (Option-cases (take_queue w)) [
  | inl fails ↦ absurd (ground (arith, e, fails))
  | inr ((v, none), done) ↦ ground (arith, e, done, take_queue-contexts w v none done)
  | inr ((v, some r), done) ↦ ground (arith, e, done, take_queue-contexts w v (some r) done)
]

pub leave-contexts :
    (w w' : World) (m m' : SkynetMonitor) (q p : Ptr) (empty : Bool) (nq : Option Ptr)
    → leave q (some p) (some (w, m, empty)) ≡ some (w', m', nq)
    → w'.contexts ≡ w.contexts
unfolding leave
leave-contexts w w' m m' q p true nq e = elim (Option-cases (take_queue w)) [
  | inl fails ↦ absurd (ground (arith, e, fails))
  | inr ((v, r), done) ↦ ground (arith, e, done, take_queue-contexts w v r done)
]
leave-contexts w w' m m' q p false nq e = elim (Option-cases (next_queue w q)) [
  | inl fails ↦ absurd (ground (arith, e, fails))
  | inr ((v, r), done) ↦ ground (arith, e, done, next_queue-contexts w v q r done)
]

module _ (callback : Ptr → SkynetMessage → World → Option (World × ℕ)) (overload_text : ℕ → Bytes)
    (p : Ptr)
    (keeps : (r : Ptr) (msg : SkynetMessage) (w w' : World) (reserve : ℕ)
      → callback r msg w ≡ some (w', reserve)
      → ((w'.contexts p).message_count ≡ (w.contexts p).message_count)
        × ((w'.contexts p).cb ≡ (w.contexts p).cb)) where
  dispatch-Counted :
      (w w' : World) (msg msg' : SkynetMessage)
      → (w.contexts p).cb ≡ true
      → dispatch callback overload_text w p msg ≡ some (w', msg')
      → Counted p 1 w w'
  unfolding dispatch put
  dispatch-Counted w w' msg msg' on e =
      let c = w.contexts p in
      let w1 = put w p (record c { message_count = (c.message_count + 1) % 2 ^ 64 }) in
      elim (Option-cases (callback p msg w1)) [
        | inl fails ↦ absurd (ground (arith, e, fails))
        | inr ((v, reserve), done) ↦
            let same : w' ≡ v = ground (arith, e, done) in
            let (count, set) = keeps p msg w1 v reserve done in
            rw same (record { count = ground (arith, count); set = ground (arith, set, on) })
      ]

  pub serve-Counted :
      (w w' : World) (m m' : SkynetMonitor) (q : Ptr) (handle : ℕ) (msg : SkynetMessage)
      → (w.contexts p).cb ≡ true
      → serve callback overload_text w m q handle (some p) msg ≡ some (w', m')
      → Counted p 1 w w'
  unfolding serve
  serve-Counted w w' m m' q handle msg on e =
      elim (Option-cases (report_overload overload_text w q (some p))) [
        | inl fails ↦ absurd (ground (arith, e, fails))
        | inr (w1, told) ↦
            let k = report-Keeps overload_text p q (some p) w w1 told in
            let on1 : (w1.contexts p).cb ≡ true = k.set ∙ on in
            elim (Option-cases (dispatch callback overload_text w1 p msg)) [
              | inl fails ↦ absurd (ground (arith, e, told, on1, fails))
              | inr ((v, msg'), done) ↦
                  let same : w' ≡ v = ground (arith, e, told, on1, done) in
                  let d = dispatch-Counted w1 v msg msg' on1 done in
                  rw same (record { count = ground (arith, d.count, k.count); set = d.set })
            ]
      ]
