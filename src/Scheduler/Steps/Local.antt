-- ===== src/Scheduler/Steps/Local.antt =====
-- What a worker does with the queue that it holds, and what leaves the queues alone.
use cpp_sk.Base.{
  ◌≡◌, refl, sym, ap, subst, ◌∙◌, ◌⊎◌, inl, inr, true, false, none, some, List, [], ◌∷◌, arith,
  Bool-cases,
}
use cpp_sk.World.{Context, World, put_queue}
use cpp_sk.World.Push.{
  put_queue-others, put_queue_self, bool_clash, put_queue-fresh, put_queue-global,
}
use cpp_sk.Scheduler.{Hand, hold, System, queue_of, SameQueues}
use cpp_sk.Scheduler.Hands.{hold-none-none}
use cpp_sk.Scheduler.Invariant.{Inv}
use cpp_sk.Scheduler.Steps.{
  same-Owned, update-Marked, same_bound, move-Marked, hold-none-Owned, hold-none-Somewhere,
  hold-none-free,
}
use cpp_sk.HandleStorage.{Ptr}
use cpp_sk.Message.{SkynetMessage}
use cpp_sk.MessageQueue.{MessageQueue, mq_pop, mq_overload, mq_overload_limit}
use cpp_sk.MessageQueue.Contents.{IsValid, contents}
use cpp_sk.MessageQueue.Pop.{pop_empty, pop_Pops}

List-cases :
    (xs : List SkynetMessage)
    → (xs ≡ []) ⊎ ((m : SkynetMessage) × (rest : List SkynetMessage) × (xs ≡ m ∷ rest))
List-cases [] = inl refl
List-cases (m ∷ rest) = inr (m, rest, refl)

-- An `mq_pop` that gives nothing finds the queue empty and takes its mark away.
pop_none :
    (q mq : MessageQueue)
    → IsValid q
    → mq_pop q ≡ (none, mq)
    → IsValid mq × (mq.in_global ≡ false) × (contents mq ≡ [])
unfolding contents
pop_none q mq v e = elim (List-cases (contents q)) [
  | inl c ↦
      let same : record q { overload_threshold = mq_overload_limit; in_global = false } ≡ mq =
        ap (λ x. x.1) (sym (pop_empty q v c) ∙ e) in
      (
        subst IsValid same (omega (arith, v)),
        ap MessageQueue.in_global (sym same),
        ap contents (sym same) ∙ c,
      )
  | inr (m, rest, c) ↦ absurd (cc ((pop_Pops q m rest v c).first, ap (λ x. x.0) e))
]

-- An `mq_pop` that gives a message leaves the mark.
pop_some :
    (q mq : MessageQueue) (msg : SkynetMessage)
    → IsValid q
    → mq_pop q ≡ (some msg, mq)
    → IsValid mq × (mq.in_global ≡ q.in_global)
pop_some q mq msg v e = elim (List-cases (contents q)) [
  | inl c ↦ absurd (cc (ap (λ x. x.0) (pop_empty q v c), ap (λ x. x.0) e))
  | inr (m, rest, c) ↦
      let p = pop_Pops q m rest v c in
      let same = ap (λ x. x.1) e in
      (subst IsValid same p.valid, ap MessageQueue.in_global (sym same) ∙ p.in_global)
]

-- A held queue is marked.
pub held_marked :
    (s : System) (i : Inv s) (a : Hand) (q : Ptr)
    → s.held a ≡ some q
    → (queue_of s q).in_global ≡ true
held_marked s i a q h = elim (Bool-cases (queue_of s q).in_global) [
  | inl t ↦ t
  | inr f ↦ let (x, y, z) = i.marked.idle q (i.owned.made a q h) f in absurd (y a h)
]

-- A held queue that changes and stays marked.
pub put_queue-Inv :
    (s : System) (i : Inv s) (a : Hand) (q : Ptr) (mq : MessageQueue)
    → s.held a ≡ some q
    → IsValid mq
    → mq.in_global ≡ (queue_of s q).in_global
    → Inv (record s { world = put_queue s.world q mq })
put_queue-Inv s i a q mq h v g =
    let w = s.world in
    let w' = put_queue w q mq in
    let here : (w'.contexts q).queue ≡ mq = put_queue_self w q mq in
    let marked = ap MessageQueue.in_global here ∙ g ∙ held_marked s i a q h in
    record {
      gs = i.gs;
      owned =
          same-Owned w w' s.held i.gs (put_queue-global w q mq) (put_queue-fresh w q mq) i.owned;
      marked =
          update-Marked w w' s.held s.held i.gs i.gs q i.marked
            (same_bound w'.fresh w.fresh q (put_queue-fresh w q mq))
            (λ r n. ap Context.queue (put_queue-others w q mq r n)) (λ r n x. x) (λ r n x. x)
            (subst IsValid (sym here) v) (λ f. bool_clash (sym marked ∙ f)) (λ t. inr (a, h));
    }

-- The queue that ran empty is let go.
pub drop-Inv :
    {s : System} {q : Ptr} {mq : MessageQueue} (a : Hand)
    → Inv s
    → s.held a ≡ some q
    → mq_pop (queue_of s q) ≡ (none, mq)
    → Inv (record { world = put_queue s.world q mq; held = hold s.held a none })
drop-Inv {s} {q} {mq} a i h e =
    let w = s.world in
    let w' = put_queue w q mq in
    let here : (w'.contexts q).queue ≡ mq = put_queue_self w q mq in
    let v = i.marked.valid q (i.owned.made a q h) in
    let (still, unmarked, empty) = pop_none (queue_of s q) mq v e in
    record {
      gs = i.gs;
      owned =
          same-Owned w w' (hold s.held a none) i.gs (put_queue-global w q mq)
            (put_queue-fresh w q mq) (hold-none-Owned w s.held i.gs a i.owned);
      marked =
          update-Marked w w' s.held (hold s.held a none) i.gs i.gs q i.marked
            (same_bound w'.fresh w.fresh q (put_queue-fresh w q mq))
            (λ r n. ap Context.queue (put_queue-others w q mq r n))
            (λ r n x. (x.0, hold-none-none s.held a r x.1))
            (λ r n x. hold-none-Somewhere s.held a q r i.gs h n x) (subst IsValid (sym here) still)
            (λ f. (
              i.owned.apart a q h,
              hold-none-free w s.held i.gs a q i.owned h,
              ap contents here ∙ empty,
            ))
            (λ t. bool_clash (sym t ∙ ap MessageQueue.in_global here ∙ unmarked));
    }

pub serve-Inv :
    {s : System} {q : Ptr} {msg : SkynetMessage} {mq : MessageQueue} (a : Hand)
    → Inv s
    → s.held a ≡ some q
    → mq_pop (queue_of s q) ≡ (some msg, mq)
    → Inv (record s { world = put_queue s.world q mq })
serve-Inv {s} {q} {msg} {mq} a i h e =
    let (v, g) = pop_some (queue_of s q) mq msg (i.marked.valid q (i.owned.made a q h)) e in
    put_queue-Inv s i a q mq h v g

pub overload-Inv :
    {s : System} {q : Ptr} (a : Hand)
    → Inv s
    → s.held a ≡ some q
    → Inv (record s { world = put_queue s.world q (mq_overload (queue_of s q)).1 })
unfolding mq_overload
overload-Inv {s} {q} a i h =
    let v = i.marked.valid q (i.owned.made a q h) in
    put_queue-Inv s i a q (mq_overload (queue_of s q)).1 h (omega (arith, v)) refl

pub other-Inv :
    {s : System} {w : World} → Inv s → SameQueues s.world w → Inv (record s { world = w })
other-Inv {s} {w} i c = record {
  gs = i.gs;
  owned = same-Owned s.world w s.held i.gs c.same_global c.same_fresh i.owned;
  marked =
      move-Marked s.world w s.held s.held i.gs i.gs i.marked c.same_fresh c.same_queue (λ r x. x)
        (λ r x. x);
}
