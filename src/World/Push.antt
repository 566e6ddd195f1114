-- ===== src/World/Push.antt =====
-- `context_push` and the global list: a queue is in the list at most once, and one that is not
-- marked `in_global` is not in it.
use cpp_sk.Base.{
  ℕ, ◌≡◌, refl, sym, ap, subst, ◌∙◌, ◌≢◌, inl, inr, Bool, true, false, none, some, List, [], ◌∷◌,
  ◌++◌, arith, if◌then◌else◌, Bool-cases,
}
use native.Mathlib.Decide.{ℕ_discrete}
use cpp_sk.World.{Context, World, handle_of, put, put_queue, grab, publish, context_push}
use cpp_sk.MessageQueue.{MessageQueue, store, grow, mq_push}
use cpp_sk.MessageQueue.Push.{push_reports}
use cpp_sk.GlobalQueue.Chain.{Fresh, Holds, Fresh-snoc}
use cpp_sk.GlobalQueue.Laws.{push-Holds, next-push}
use cpp_sk.GlobalQueue.{GlobalQueue}
use cpp_sk.Message.{SkynetMessage}
use cpp_sk.HandleStorage.{Ptr, handle_grab}

pub record Scheduled (w : World) (gs : List Ptr) : Type 0 where
  pub holds : Holds w.global gs
  pub idle :
      (p : Ptr) → (w.contexts p).queue.in_global ≡ false → Fresh p gs × (w.global.next p ≡ none)

-- The handles lead to the same contexts.
pub record SameHandles (w w' : World) : Type 0 where
  pub storage : w'.storage ≡ w.storage
  pub fresh : w'.fresh ≡ w.fresh
  pub handle : (r : Ptr) → handle_of w' r ≡ handle_of w r
  pub queue_handle : (r : Ptr) → (w'.contexts r).queue.handle ≡ (w.contexts r).queue.handle

pub grab-SameHandles : {w w' : World} → SameHandles w w' → (h : ℕ) → grab w' h ≡ grab w h
unfolding grab
grab-SameHandles {w} {w'} s h =
    ap (λ st. handle_grab (handle_of w') st h) s.storage
    ∙ ap (λ f. handle_grab f w.storage h) (λ i p. s.handle p i)

-- What a delivery to `p` leaves.
pub record Delivers (w : World) (p : Ptr) (m : SkynetMessage) (gs : List Ptr) (w' : World)
    : Type 0 where
  pub queue : (w'.contexts p).queue ≡ (mq_push (w.contexts p).queue m).0
  pub marked : (w'.contexts p).queue.in_global ≡ true
  pub others : (r : Ptr) → r ≢ p → w'.contexts r ≡ w.contexts r
  pub same_storage : w'.storage ≡ w.storage
  pub same_fresh : w'.fresh ≡ w.fresh
  pub same_next : (r : Ptr) → Fresh r gs → w'.global.next r ≡ w.global.next r
  pub same_handles : SameHandles w w'
  pub scheduled : Scheduled w' (if (w.contexts p).queue.in_global then gs else gs ++ p ∷ [])

-- A push to a handle without a context changes nothing and says so.
pub context_push-none :
    (w : World) (h : ℕ) (m : SkynetMessage) → grab w h ≡ none → context_push w h m ≡ some (w, false)
unfolding context_push
context_push-none w h m e = rw (e, context_push)

pub put_self : (w : World) (p : Ptr) (c : Context) → (put w p c).contexts p ≡ c
unfolding put
put_self w p c = ground arith

pub put-ne : (w : World) (p r : Ptr) (c : Context) → r ≢ p → (put w p c).contexts r ≡ w.contexts r
unfolding put
put-ne w p r c n = ground (arith, n)

mq_push_marks : (q : MessageQueue) (m : SkynetMessage) → (mq_push q m).0.in_global ≡ true
unfolding mq_push store grow
mq_push_marks q m = ground arith

-- The other contexts stay as they are.
pub put_queue-others :
    (w : World) (p : Ptr) (q : MessageQueue) (r : Ptr)
    → r ≢ p
    → (put_queue w p q).contexts r ≡ w.contexts r
unfolding put_queue
put_queue-others w p q r n = put-ne w p r (record (w.contexts p) { queue = q }) n

pub put_queue_self :
    (w : World) (p : Ptr) (q : MessageQueue) → ((put_queue w p q).contexts p).queue ≡ q
unfolding put_queue put
put_queue_self w p q = ground arith

pub bool_clash : {A : Type 0} → true ≡ false → A
bool_clash e = absurd (ground (arith, e))

if_true : {b : Bool} (gs gs' : List Ptr) → b ≡ true → gs ≡ (if b then gs else gs')
if_true gs gs' e = rw e

if_false : {b : Bool} (gs gs' : List Ptr) → b ≡ false → gs' ≡ (if b then gs else gs')
if_false gs gs' e = rw e

-- A marked queue at `p`, over a global list that leaves the idle queues alone.
pub put_queue-Scheduled :
    (w : World) (p : Ptr) (q : MessageQueue) (g : GlobalQueue) (gs gs' : List Ptr)
    → Scheduled w gs
    → q.in_global ≡ true
    → Holds g gs'
    → ((r : Ptr) → r ≢ p → Fresh r gs × (w.global.next r ≡ none) → Fresh r gs' × (g.next r ≡ none))
    → Scheduled (record (put_queue w p q) { global = g }) gs'
put_queue-Scheduled w p q g gs gs' s e h frame = record {
  holds = h;
  idle = λ r i. elim (ℕ_discrete r p) [
    | yes same ↦ bool_clash (
        sym e
        ∙ ap MessageQueue.in_global (sym (put_queue_self w p q))
        ∙ ap (λ x. ((put_queue w p q).contexts x).queue.in_global) (sym same)
        ∙ i)
    | no n ↦
        frame r n (s.idle r (sym (ap (λ c. c.queue.in_global) (put_queue-others w p q r n)) ∙ i))
  ];
}

put_queue-storage : (w : World) (p : Ptr) (q : MessageQueue) → (put_queue w p q).storage ≡ w.storage
unfolding put_queue put
put_queue-storage w p q = refl

pub put_queue-fresh : (w : World) (p : Ptr) (q : MessageQueue) → (put_queue w p q).fresh ≡ w.fresh
unfolding put_queue put
put_queue-fresh w p q = refl

pub put_queue-global :
    (w : World) (p : Ptr) (q : MessageQueue) → (put_queue w p q).global ≡ w.global
unfolding put_queue put
put_queue-global w p q = refl

put_queue-next :
    (w : World) (p : Ptr) (q : MessageQueue) (r : Ptr)
    → (put_queue w p q).global.next r ≡ w.global.next r
unfolding put_queue put
put_queue-next w p q r = refl

-- A queue that keeps its handle.
pub put_queue-SameHandles :
    (w : World) (p : Ptr) (q : MessageQueue)
    → q.handle ≡ (w.contexts p).queue.handle
    → SameHandles w (put_queue w p q)
unfolding put_queue put
put_queue-SameHandles w p q e = record {
  storage = refl;
  fresh = refl;
  handle = λ r. ground arith;
  queue_handle = λ r. ground (arith, e);
}

mq_push_handle : (q : MessageQueue) (m : SkynetMessage) → (mq_push q m).0.handle ≡ q.handle
unfolding mq_push store grow
mq_push_handle q m = ground arith

push-listed :
    (w : World) (p : Ptr) (m : SkynetMessage) (gs : List Ptr)
    → Scheduled w gs
    → (w.contexts p).queue.in_global ≡ true
    → (w' : World) × (publish w p (mq_push (w.contexts p).queue m) ≡ some w') × Delivers w p m gs w'
unfolding publish
push-listed w p m gs s e =
    let q = (w.contexts p).queue in
    let (wants, marks, _, _, _) = push_reports q m in
    let here = put_queue_self w p (mq_push q m).0 in
    (
      put_queue w p (mq_push q m).0,
      ground (arith, wants, e),
      record {
        queue = here;
        marked = ap MessageQueue.in_global here ∙ marks;
        others = put_queue-others w p (mq_push q m).0;
        same_storage = put_queue-storage w p (mq_push q m).0;
        same_fresh = put_queue-fresh w p (mq_push q m).0;
        same_next = λ r f. put_queue-next w p (mq_push q m).0 r;
        same_handles =
            put_queue-SameHandles w p (mq_push q m).0 (mq_push_handle (w.contexts p).queue m);
        scheduled =
            subst (Scheduled (put_queue w p (mq_push q m).0)) (if_true gs (gs ++ p ∷ []) e)
              (put_queue-Scheduled w p (mq_push q m).0 w.global gs gs s marks s.holds (λ r n i. i));
      },
    )

push-idle :
    (w : World) (p : Ptr) (m : SkynetMessage) (gs : List Ptr)
    → Scheduled w gs
    → (w.contexts p).queue.in_global ≡ false
    → (w' : World) × (publish w p (mq_push (w.contexts p).queue m) ≡ some w') × Delivers w p m gs w'
unfolding publish
push-idle w p m gs s e =
    let q = (w.contexts p).queue in
    let (wants, marks, _, _, _) = push_reports q m in
    let here = put_queue_self w p (mq_push q m).0 in
    let (fresh, next) = s.idle p e in
    let (g, pushed, held) = push-Holds w.global gs p s.holds fresh next in
    (
      record (put_queue w p (mq_push q m).0) { global = g },
      ground (arith, wants, e, pushed),
      record {
        queue = here;
        marked = ap MessageQueue.in_global here ∙ marks;
        others = put_queue-others w p (mq_push q m).0;
        same_storage = put_queue-storage w p (mq_push q m).0;
        same_fresh = put_queue-fresh w p (mq_push q m).0;
        same_next = λ r f. next-push w.global g gs p r s.holds f pushed;
        same_handles =
            let h =
              put_queue-SameHandles w p (mq_push q m).0 (mq_push_handle (w.contexts p).queue m) in
            record {
              storage = h.storage;
              fresh = h.fresh;
              handle = h.handle;
              queue_handle = h.queue_handle;
            };
        scheduled =
            subst (Scheduled (record (put_queue w p (mq_push q m).0) { global = g }))
              (if_false gs (gs ++ p ∷ []) e)
              (put_queue-Scheduled w p (mq_push q m).0 g gs (gs ++ p ∷ []) s marks held (λ r n i.
                (Fresh-snoc r p gs i.0 n, next-push w.global g gs p r s.holds i.0 pushed ∙ i.1)));
      },
    )

-- Over a world whose global list is in order, and for a handle that has a context, `context_push` does
-- not fail: the message goes into the queue of that context by `mq_push`, the queue goes to the end of
-- the list if it was not marked `in_global` and is marked afterwards, the list stays in order, and the
-- other contexts, the handle storage and the `next` of every queue outside the list stay as they are.
pub context_push-Delivers :
    (w : World) (gs : List Ptr) (h : ℕ) (p : Ptr) (m : SkynetMessage)
    → Scheduled w gs
    → grab w h ≡ some p
    → (w' : World) × (context_push w h m ≡ some (w', true)) × Delivers w p m gs w'
unfolding context_push
context_push-Delivers w gs h p m s found =
    let q = (w.contexts p).queue in
    elim (Bool-cases q.in_global) [
      | inl e ↦
          let (w', done, d) = push-listed w p m gs s e in
          (w', rw (found, done, context_push) refl, d)
      | inr e ↦
          let (w', done, d) = push-idle w p m gs s e in (w', rw (found, done, context_push) refl, d)
    ]
