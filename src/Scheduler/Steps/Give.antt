-- ===== src/Scheduler/Steps/Give.antt =====
-- A queue that goes into the global list.
use cpp_sk.Base.{◌≡◌, refl, sym, ap, subst, ◌∙◌, inl, inr, none, some, [], ◌∷◌, ◌++◌, arith}
use cpp_sk.World.Push.{bool_clash}
use cpp_sk.Scheduler.{Hand, hold, System}
use cpp_sk.Scheduler.Hands.{Fresh-init, hold-none-none, snoc-Listed, snoc-Listed_self}
use cpp_sk.GlobalQueue.Chain.{Holds, Fresh-snoc}
use cpp_sk.Scheduler.Invariant.{Inv}
use cpp_sk.Scheduler.Steps.{update-Marked, hold-none-Owned, hold-none-Somewhere, hold-none-free}
use cpp_sk.Scheduler.Steps.Local.{held_marked}
use cpp_sk.HandleStorage.{Ptr}
use cpp_sk.GlobalQueue.{GlobalQueue}
use cpp_sk.GlobalQueue
use cpp_sk.GlobalQueue.Laws.{push-Holds, next-push}

-- A held queue can always be pushed.
pub give_total :
    (s : System) (i : Inv s) (a : Hand) (q : Ptr)
    → s.held a ≡ some q
    → (g : GlobalQueue) × (GlobalQueue.push s.world.global q ≡ some g) × Holds g (i.gs ++ q ∷ [])
give_total s i a q h =
    let f = i.owned.apart a q h in push-Holds s.world.global i.gs q i.owned.list f (i.owned.out q f)

pub give-Inv :
    {s : System} {q : Ptr} {g : GlobalQueue} (a : Hand)
    → Inv s
    → s.held a ≡ some q
    → GlobalQueue.push s.world.global q ≡ some g
    → Inv (record { world = record s.world { global = g }; held = hold s.held a none })
give-Inv {s} {q} {g} a i h e =
    let o = i.owned in
    let (g', e', list) = give_total s i a q h in
    let same : g' ≡ g = some_inj (sym e' ∙ e) in
    let free = hold-none-free s.world s.held i.gs a q o h in
    let rest = hold-none-Owned s.world s.held i.gs a o in
    record {
      gs = i.gs ++ q ∷ [];
      owned = record {
        list = subst (λ x. Holds x (i.gs ++ q ∷ [])) same list;
        out = λ r f.
            let (f', n) = Fresh-init r q i.gs f in
            next-push s.world.global g i.gs q r o.list f' e ∙ o.out r f';
        unmade = λ r l. Fresh-snoc r q i.gs (o.unmade r l) (λ x. omega (arith, o.made a q h));
        made = rest.made;
        apart = λ b r k. Fresh-snoc r q i.gs (rest.apart b r k) (λ x. free b (k ∙ ap some x));
        unique = rest.unique;
      };
      marked =
          update-Marked s.world (record s.world { global = g }) s.held (hold s.held a none) i.gs
            (i.gs ++ q ∷ []) q i.marked (λ r n l. l) (λ r n. refl)
            (λ r n x. (Fresh-snoc r q i.gs x.0 n, hold-none-none s.held a r x.1))
            (λ r n x. elim (hold-none-Somewhere s.held a q r i.gs h n x) [
              | inl l ↦ inl (snoc-Listed r q i.gs l)
              | inr k ↦ inr k
            ])
            (i.marked.valid q (o.made a q h)) (λ f. bool_clash (sym (held_marked s i a q h) ∙ f))
            (λ t. inl (snoc-Listed_self q i.gs));
    }
  where
    some_inj : {x y : GlobalQueue} → some x ≡ some y → x ≡ y
    some_inj e = cc
