-- ===== src/Scheduler/Steps/Deliver.antt =====
-- A delivered message.
use cpp_sk.Base.{
  ℕ, ◌≤◌, ◌<◌, ◌≡◌, sym, ap, subst, ◌∙◌, inl, inr, Bool, true, false, some, List, [], ◌∷◌, ◌++◌,
  arith, if◌then◌else◌, Bool-cases,
}
use cpp_sk.World.{Context, World, grab, context_push}
use cpp_sk.World.Push.{Scheduled, Delivers, bool_clash, context_push-Delivers}
use cpp_sk.Scheduler.{System, queue_of}
use cpp_sk.Scheduler.Hands.{Fresh-init, snoc-Listed, snoc-Listed_self}
use cpp_sk.Scheduler.Invariant.{Owned, Marked, Inv}
use cpp_sk.Scheduler.Steps.{Inv-Scheduled, update-Marked, same_bound}
use cpp_sk.HandleStorage.{Ptr}
use cpp_sk.Message.{SkynetMessage}
use cpp_sk.MessageQueue.Contents.{IsValid}
use cpp_sk.MessageQueue.Push.{push-IsValid}
use cpp_sk.GlobalQueue.Chain.{Fresh-snoc}

module _ (s : System) (w : World) (gs : List Ptr) (o : Owned s.world s.held gs)
    (m : Marked s.world s.held gs) (p : Ptr) (msg : SkynetMessage) (made : p < s.world.fresh)
    (d : Delivers s.world p msg gs w) where
  -- The queue stays where it is.
  deliver-listed : (queue_of s p).in_global ≡ true → Inv (record s { world = w })
  deliver-listed e =
      let now : Scheduled w gs =
        subst (Scheduled w) (ap (λ b. if b then gs else gs ++ p ∷ []) e) d.scheduled in
      record {
        gs = gs;
        owned = record {
          list = now.holds;
          out = λ r f. d.same_next r f ∙ o.out r f;
          unmade = λ r h. o.unmade r (subst (λ x. x ≤ r) d.same_fresh h);
          made = λ a r h. subst (λ x. r < x) (sym d.same_fresh) (o.made a r h);
          apart = o.apart;
          unique = o.unique;
        };
        marked =
            update-Marked s.world w s.held s.held gs gs p m
              (same_bound w.fresh s.world.fresh p d.same_fresh)
              (λ r n. ap Context.queue (d.others r n)) (λ r n x. x) (λ r n x. x)
              (subst IsValid (sym d.queue) (push-IsValid (queue_of s p) msg (m.valid p made)))
              (λ f. bool_clash (sym d.marked ∙ f)) (λ t. m.busy p made e);
      }

  -- The queue goes into the list.
  deliver-idle : (queue_of s p).in_global ≡ false → Inv (record s { world = w })
  deliver-idle e =
      let now : Scheduled w (gs ++ p ∷ []) =
        subst (Scheduled w) (ap (λ b. if b then gs else gs ++ p ∷ []) e) d.scheduled in
      let (fresh, free, _) = m.idle p made e in
      record {
        gs = gs ++ p ∷ [];
        owned = record {
          list = now.holds;
          out = λ r f. let (g, n) = Fresh-init r p gs f in d.same_next r g ∙ o.out r g;
          unmade = λ r h.
              let h' : s.world.fresh ≤ r = subst (λ x. x ≤ r) d.same_fresh h in
              Fresh-snoc r p gs (o.unmade r h') (λ q. omega arith);
          made = λ a r h. subst (λ x. r < x) (sym d.same_fresh) (o.made a r h);
          apart = λ a r h. Fresh-snoc r p gs (o.apart a r h) (λ q. free a (h ∙ ap some q));
          unique = o.unique;
        };
        marked =
            update-Marked s.world w s.held s.held gs (gs ++ p ∷ []) p m
              (same_bound w.fresh s.world.fresh p d.same_fresh)
              (λ r n. ap Context.queue (d.others r n)) (λ r n x. (Fresh-snoc r p gs x.0 n, x.1))
              (λ r n x. elim x [ inl l ↦ inl (snoc-Listed r p gs l) | inr h ↦ inr h ])
              (subst IsValid (sym d.queue) (push-IsValid (queue_of s p) msg (m.valid p made)))
              (λ f. bool_clash (sym d.marked ∙ f)) (λ t. inl (snoc-Listed_self p gs));
      }

pub deliver-Inv :
    {s : System} {w : World} (h : ℕ) (p : Ptr) (msg : SkynetMessage)
    → Inv s
    → grab s.world h ≡ some p
    → p < s.world.fresh
    → context_push s.world h msg ≡ some (w, true)
    → Inv (record s { world = w })
deliver-Inv {s} {w} h p msg inv found made done =
    let sch = Inv-Scheduled s.world s.held inv.gs inv.owned inv.marked in
    let (w', done', d') = context_push-Delivers s.world inv.gs h p msg sch found in
    let same : w' ≡ w = ap (λ x. x.0) (some_inj (sym done' ∙ done)) in
    let d : Delivers s.world p msg inv.gs w = subst (Delivers s.world p msg inv.gs) same d' in
    elim (Bool-cases (queue_of s p).in_global) [
      | inl e ↦ deliver-listed s w inv.gs inv.owned inv.marked p msg made d e
      | inr e ↦ deliver-idle s w inv.gs inv.owned inv.marked p msg made d e
    ]
  where
    some_inj : {x y : World × Bool} → some x ≡ some y → x ≡ y
    some_inj e = cc
