-- ===== src/Dispatch/Batch.antt =====
-- How many messages one call of `context_message_dispatch` hands to the context of a queue.
use cpp_sk.Base.{
  ℕ, zero, suc, ◌+◌, ◌-◌, ◌/◌, ◌^◌, ◌≤◌, ◌<◌, ◌≡◌, ◌≢◌, ◌⊎◌, inl, inr, refl, sym, ap, ◌∙◌, Bool,
  true, false, Option, none, some, arith, Option-cases, Bool-cases, ◌==◌, if◌then◌else◌,
}
use cpp_sk.World.{World, put_queue, grab}
use cpp_sk.World.Push.{put_queue_self}
use cpp_sk.Dispatch.Count.{Counted, put_queue-Keeps, leave-contexts, serve-Counted}
use cpp_sk.Dispatch.{batch, leave, serve, rounds, loop, serve_queue, context_message_dispatch}
use cpp_sk.Monitor.{SkynetMonitor}
use cpp_sk.HandleStorage.{Ptr}
use cpp_sk.Message.{Bytes, SkynetMessage}
use cpp_sk.MessageQueue.{MessageQueue, mq_pop, mq_length}

Counted-trans :
    {p : Ptr} {u v w : World} (j k : ℕ) → Counted p j u v → Counted p k v w → Counted p (j + k) u w
Counted-trans j k a b = record { count = omega (arith, a.count, b.count); set = b.set }

-- The queue of `q` is as a pop that finds nothing leaves it.
abbrev pub RanEmpty : Ptr → World → Type 0
RanEmpty q w = (mq : MessageQueue) × ((mq_pop mq).0 ≡ none) × ((w.contexts q).queue ≡ (mq_pop mq).1)

-- The most messages for a weight, where the queue has the length `n` after the first pop.
abbrev pub limit : Option ℕ → ℕ → ℕ
limit none n = 1
limit (some weight) n = if n / 2 ^ weight == 0 then 1 else n / 2 ^ weight

limit-batch :
    (weight : Option ℕ) (mq : MessageQueue)
    → suc (batch weight mq - 1) ≡ limit weight (mq_length mq)
unfolding batch
limit-batch none mq = refl
limit-batch (some weight) mq = ground arith

-- At most `n` messages of the queue of `q` were handed to `p`: all `n`, or the queue ran empty.
record Ran (p q : Ptr) (n : ℕ) (w w' : World) (empty : Bool) : Type 0 where
  k : ℕ
  le : k ≤ n
  counted : Counted p k w w'
  rest : empty ≡ false → k ≡ n
  found : empty ≡ true → RanEmpty q w'
  one : 1 ≤ n → (mq_pop (w.contexts q).queue).0 ≢ none → 1 ≤ k

-- No message is handed over where the queue is empty.
Ran-stop :
    (p q : Ptr) (n : ℕ) (w w' : World) (empty : Bool)
    → (w.contexts p).cb ≡ true
    → (w.contexts p).message_count < 2 ^ 64
    → (mq_pop (w.contexts q).queue).0 ≡ none
    → w' ≡ put_queue w q (mq_pop (w.contexts q).queue).1
    → empty ≡ true
    → Ran p q n w w' empty
Ran-stop p q n w w' empty on small none_ same e =
    let mq = (w.contexts q).queue in
    let kept = put_queue-Keeps p q w (mq_pop mq).1 in
    rw same (record {
      k = 0;
      le = omega arith;
      counted = record { count = omega (arith, kept.count, small); set = kept.set ∙ on };
      rest = λ f. absurd (cc (f, e));
      found = λ t. (mq, none_, put_queue_self w q (mq_pop mq).1);
      one = λ h f. absurd (f none_);
    })

Ran-more :
    (p q : Ptr) (n : ℕ) (w v w' : World) (empty : Bool)
    → Counted p 1 w v
    → Ran p q n v w' empty
    → Ran p q (suc n) w w' empty
Ran-more p q n w v w' empty first r = record {
  k = 1 + r.k;
  le = omega (arith, r.le);
  counted = Counted-trans 1 r.k first r.counted;
  rest = λ f. omega (arith, r.rest f);
  found = r.found;
  one = λ h f. omega arith;
}

-- What the rounds did is still to be seen after the change of the global list.
batch_left :
    (p q : Ptr) (w w' v : World) (weight : Option ℕ) (empty : Bool)
    → Ran p q (suc (batch weight (mq_pop (w.contexts q).queue).1 - 1)) w v empty
    → (mq_pop (w.contexts q).queue).0 ≢ none
    → w'.contexts ≡ v.contexts
    → (let most = limit weight (mq_length (mq_pop (w.contexts q).queue).1) in
        (k : ℕ) × (1 ≤ k) × (k ≤ most) × Counted p k w w' × ((k ≡ most) ⊎ RanEmpty q w'))
batch_left p q w w' v weight empty r gives same =
    let most = limit-batch weight (mq_pop (w.contexts q).queue).1 in
    let context = ap (λ f. f p) same in
    let queue : (w'.contexts q).queue ≡ (v.contexts q).queue = ap (λ f. (f q).queue) same in
    (
      r.k,
      r.one (omega arith) gives,
      omega (arith, most, r.le),
      record {
        count = ap (λ c. c.message_count) context ∙ r.counted.count;
        set = ap (λ c. c.cb) context ∙ r.counted.set;
      },
      elim (Bool-cases empty) [
        | inl ran ↦ let (mq, gone, at) = r.found ran in inr (mq, gone, queue ∙ at)
        | inr more ↦ inl (r.rest more ∙ most)
      ],
    )

module _ (callback : Ptr → SkynetMessage → World → Option (World × ℕ)) (overload_text : ℕ → Bytes)
    (p : Ptr)
    (keeps : (r : Ptr) (msg : SkynetMessage) (w w' : World) (reserve : ℕ)
      → callback r msg w ≡ some (w', reserve)
      → ((w'.contexts p).message_count ≡ (w.contexts p).message_count)
        × ((w'.contexts p).cb ≡ (w.contexts p).cb)) where
  rounds-Ran :
      (n : ℕ) (w w' : World) (m m' : SkynetMonitor) (q : Ptr) (handle : ℕ) (empty : Bool)
      → (w.contexts p).cb ≡ true
      → (w.contexts p).message_count < 2 ^ 64
      → rounds callback overload_text n w m q handle (some p) ≡ some (w', m', empty)
      → Ran p q n w w' empty
  unfolding rounds
  rounds-Ran zero w w' m m' q handle empty on small e =
      let same : w' ≡ w = ground (arith, e) in
      let full : empty ≡ false = ground (arith, e) in
      rw (same, full)
        (record {
          k = 0;
          le = omega arith;
          counted = record { count = omega (arith, small); set = on };
          rest = λ f. refl;
          found = λ t. absurd (cc (t));
          one = λ h f. absurd (omega arith);
        })
  rounds-Ran (suc n) w w' m m' q handle empty on small e =
      let mq = (w.contexts q).queue in
      let w0 = put_queue w q (mq_pop mq).1 in
      let kept = put_queue-Keeps p q w (mq_pop mq).1 in
      elim (Option-cases (mq_pop mq).0) [
        | inl none_ ↦
            let same : w' ≡ w0 = ground (arith, e, none_) in
            let full : empty ≡ true = ground (arith, e, none_) in
            Ran-stop p q (suc n) w w' empty on small none_ same full
        | inr (msg, some_) ↦
            elim (Option-cases (serve callback overload_text w0 m q handle (some p) msg)) [
              | inl fails ↦ absurd (ground (arith, e, some_, fails))
              | inr ((v, mv), done) ↦
                  let run : rounds callback overload_text n v mv q handle (some p)
                      ≡ some (w', m', empty) =
                    ground (arith, e, some_, done) in
                  let one =
                    serve-Counted callback overload_text p keeps w0 v m mv q handle msg
                      (kept.set ∙ on) done in
                  let r =
                    rounds-Ran n v w' mv m' q handle empty one.set (omega (arith, one.count)) run in
                  let first : Counted p 1 w v = record {
                    count = ground (arith, one.count, kept.count);
                    set = one.set;
                  } in
                  Ran-more p q n w v w' empty first r
            ]
      ]

  -- The loop is that of `rounds`, with a first round in any case.
  loop-rounds :
      (weight : Option ℕ) (w : World) (m : SkynetMonitor) (q : Ptr) (handle : ℕ) (ctx : Option Ptr)
      → loop callback overload_text weight w m q handle ctx
        ≡ rounds callback overload_text
            (suc (batch weight (mq_pop (w.contexts q).queue).1 - 1))
            w
            m
            q
            handle
            ctx
  unfolding loop rounds
  loop-rounds weight w m q handle ctx = refl

  -- The call, for a queue whose context is there.
  dispatched :
      (w : World) (m : SkynetMonitor) (q : Ptr) (weight : Option ℕ)
      → grab w (w.contexts q).queue.handle ≡ some p
      → context_message_dispatch callback overload_text w m (some q) weight
        ≡ leave q
            (some p)
            (loop callback overload_text weight w m q (w.contexts q).queue.handle (some p))
  unfolding context_message_dispatch serve_queue
  dispatched w m q weight found = rw (found, context_message_dispatch, serve_queue) refl

  leave-none : (q : Ptr) → leave q (some p) none ≡ none
  unfolding leave
  leave-none q = refl

  -- A call of `context_message_dispatch` that returns, for a queue which gives a message and whose
  -- context has a callback, where callbacks leave the count of messages and the callback of that
  -- context alone, hands the context at least one message: at most one for a negative weight, and
  -- for another one at most as many as the queue is long after the first pop, shifted by the weight,
  -- or one where that is none. It hands over just as many, or a pop finds the queue empty.
  pub dispatch_batch :
      (w w' : World) (m m' : SkynetMonitor) (q : Ptr) (weight : Option ℕ) (nq : Option Ptr)
      → grab w (w.contexts q).queue.handle ≡ some p
      → (w.contexts p).cb ≡ true
      → (w.contexts p).message_count < 2 ^ 64
      → (mq_pop (w.contexts q).queue).0 ≢ none
      → context_message_dispatch callback overload_text w m (some q) weight ≡ some (w', m', nq)
      → (let most = limit weight (mq_length (mq_pop (w.contexts q).queue).1) in
          (k : ℕ) × (1 ≤ k) × (k ≤ most) × Counted p k w w' × ((k ≡ most) ⊎ RanEmpty q w'))
  dispatch_batch w w' m m' q weight nq found on small gives e =
      let handle = (w.contexts q).queue.handle in
      let mq = (mq_pop (w.contexts q).queue).1 in
      let run = sym (dispatched w m q weight found) ∙ e in
      elim (Option-cases (loop callback overload_text weight w m q handle (some p))) [
        | inl fails ↦ absurd (cc (run, ap (leave q (some p)) fails, leave-none q))
        | inr ((v, mv, empty), done) ↦
            let left : leave q (some p) (some (v, mv, empty)) ≡ some (w', m', nq) =
              sym (ap (leave q (some p)) done) ∙ run in
            batch_left p q w w' v weight empty
              (rounds-Ran (suc (batch weight mq - 1)) w v m mv q handle empty on small
                (sym (loop-rounds weight w m q handle (some p)) ∙ done))
              gives (leave-contexts v w' mv m' q p empty nq left)
      ]
