-- ===== src/Scheduler/Safety.antt =====
-- What holds in every state that the threads reach.
use cpp_sk.Base.{
  ℕ, ◌<◌, ◌≡◌, sym, subst, ◌≢◌, inl, inr, Option, none, some, List, [], ◌∷◌, arith, Bool-cases,
}
use cpp_sk.World.{World}
use cpp_sk.Scheduler.{
  Hand, hold, System, queue_of, Step, Reach, at_rest, working, launching, deliver, pick, serve,
  finish, overload, change, give, enroll_step, other, here, next,
}
use cpp_sk.Scheduler.Invariant.{Inv}
use cpp_sk.Scheduler.Steps.{Somewhere}
use cpp_sk.Dispatch.{take_queue}
use cpp_sk.HandleStorage.{Ptr}
use cpp_sk.Message.{SkynetMessage}
use cpp_sk.MessageQueue.Contents.{contents}
use cpp_sk.GlobalQueue.{GlobalQueue}
use cpp_sk.GlobalQueue
use cpp_sk.GlobalQueue.Chain.{Fresh, Holds}
use cpp_sk.Scheduler.Steps.Deliver.{deliver-Inv}
use cpp_sk.Scheduler.Steps.Local.{serve-Inv, drop-Inv, overload-Inv, other-Inv}
use cpp_sk.Scheduler.Steps.Take.{pick-Inv, change-Inv, take_total}
use cpp_sk.Scheduler.Steps.Give.{give-Inv, give_total}
use cpp_sk.Scheduler.Steps.Enroll.{enroll-Inv}

pub Step-Inv : {s t : System} → Step s t → Inv s → Inv t
Step-Inv (deliver h p m found made done) i = deliver-Inv h p m i found made done
Step-Inv (pick j empty done) i = pick-Inv (working j) i empty done
Step-Inv (serve j h e) i = serve-Inv (working j) i h e
Step-Inv (finish j h e) i = drop-Inv (working j) i h e
Step-Inv (overload j h) i = overload-Inv (working j) i h
Step-Inv (change j h k e) i = change-Inv j i h k e
Step-Inv (give a _ h e) i = give-Inv a i h e
Step-Inv (enroll_step j h e) i = enroll-Inv (launching j) i h e
Step-Inv (other c) i = other-Inv i c

pub Run-Inv : {s t : System} → Reach s t → Inv s → Inv t
Run-Inv here i = i
Run-Inv (next r st) i = Step-Inv st (Run-Inv r i)

-- Before the first context is made.
pub record Starts (w : World) : Type 0 where
  pub none_made : w.fresh ≡ 0
  pub empty : Holds w.global []
  pub out : (p : Ptr) → w.global.next p ≡ none

pub start-Inv : (w : World) → Starts w → Inv (at_rest w)
start-Inv w s = record {
  gs = [];
  owned = record {
    list = s.empty;
    out = λ p f. s.out p;
    unmade = λ p h. tt;
    made = λ a p h. absurd (cc);
    apart = λ a p h. tt;
    unique = λ a b p h k. absurd (cc);
  };
  marked = record {
    valid = λ p h. absurd (omega (arith, s.none_made));
    idle = λ p h. absurd (omega (arith, s.none_made));
    busy = λ p h. absurd (omega (arith, s.none_made));
  };
}

pub Reach-Inv : {w : World} {t : System} → Starts w → Reach (at_rest w) t → Inv t
Reach-Inv {w} s r = Run-Inv r (start-Inv w s)

-- In every reachable state, no two threads hold the same queue, and a queue that a thread holds is not
-- in the global list: so no two workers serve one context, however their steps interleave.
pub one_holder :
    {w : World} {s : System} (a b : Hand) (p : Ptr)
    → Starts w
    → Reach (at_rest w) s
    → s.held a ≡ some p
    → s.held b ≡ some p
    → (a ≡ b) × ((gs : List Ptr) × Holds s.world.global gs × Fresh p gs)
one_holder a b p start r h k =
    let i = Reach-Inv start r in
    (i.owned.unique a b p h k, (i.gs, i.owned.list, i.owned.apart a p h))

-- In every reachable state, the queue of a context with a message that waits is in the global list or
-- held by a thread: no message is left behind.
pub not_stranded :
    {w : World} {s : System} (p : Ptr) (m : SkynetMessage) (rest : List SkynetMessage)
    → Starts w
    → Reach (at_rest w) s
    → p < s.world.fresh
    → contents (queue_of s p) ≡ m ∷ rest
    → (gs : List Ptr) × Holds s.world.global gs × Somewhere s.held gs p
not_stranded {w} {s} p m rest start r made waits =
    let i = Reach-Inv start r in
    elim (Bool-cases (queue_of s p).in_global) [
      | inl t ↦ (i.gs, i.owned.list, i.marked.busy p made t)
      | inr f ↦ let (x, y, z) = i.marked.idle p made f in absurd (cc (z, waits))
    ]

-- In every reachable state, while a message waits for a context that no thread holds, a pop of the
-- global list gives a queue, and that step is open to any worker without one.
pub no_deadlock :
    {w : World} {s : System} (j : ℕ) (p : Ptr) (m : SkynetMessage) (rest : List SkynetMessage)
    → Starts w
    → Reach (at_rest w) s
    → p < s.world.fresh
    → contents (queue_of s p) ≡ m ∷ rest
    → ((a : Hand) → s.held a ≢ some p)
    → s.held (working j) ≡ none
    → (q : Ptr) × (v : World) × Step s
        (record { world = v; held = hold s.held (working j) (some q) })
no_deadlock {w} {s} j p m rest start r made waits free idle =
    let i = Reach-Inv start r in
    elim (take_total s i) [
      | inr (x, xs, g, n, e, t, l, c) ↦ (x, record s.world { global = g }, pick j idle t)
      | inl (n, t) ↦ elim (Bool-cases (queue_of s p).in_global) [
        | inl marked ↦ elim (i.marked.busy p made marked) [
          | inl l ↦ absurd (l (subst (Fresh p) (sym n) tt))
          | inr (a, h) ↦ absurd (free a h)
        ]
        | inr f ↦ let (x, y, z) = i.marked.idle p made f in absurd (cc (z, waits))
      ]
    ]

-- In every reachable state the asserts of `push` and `pop` hold: a queue in any hand can be pushed, and
-- the global list can be popped.
pub asserts_hold :
    {w : World} {s : System}
    → Starts w
    → Reach (at_rest w) s
    → ((a : Hand) (q : Ptr)
        → s.held a ≡ some q
        → (g : GlobalQueue) × (GlobalQueue.push s.world.global q ≡ some g))
      × ((r : World × Option Ptr) × (take_queue s.world ≡ some r))
asserts_hold {w} {s} start r =
    let i = Reach-Inv start r in
    (
      λ a q h. let (g, e, _) = give_total s i a q h in (g, e),
      elim (take_total s i) [
        | inl (n, t) ↦ ((s.world, none), t)
        | inr (x, xs, g, n, e, t, l, c) ↦ ((record s.world { global = g }, some x), t)
      ],
    )
