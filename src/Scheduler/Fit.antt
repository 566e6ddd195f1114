-- ===== src/Scheduler/Fit.antt =====
-- Worlds in which the handles lead to the contexts, and the steps of a push and of the log.
use cpp_sk.Base.{
  ℕ, ◌<◌, ◌≡◌, refl, sym, ap, subst, ◌∙◌, inl, inr, Option, some, Bool, true, false, Bool-cases,
  Option-cases, ◌==◌, if◌then◌else◌,
}
use cpp_sk.World.{World, grab, context_push, error, find_logger}
use cpp_sk.World.Push.{SameHandles, grab-SameHandles, context_push-none, context_push-Delivers}
use cpp_sk.Scheduler.{Hand, System, SameQueues, Step, Reach, deliver, other, here, next}
use cpp_sk.Scheduler.Invariant.{Inv}
use cpp_sk.Scheduler.Steps.{Inv-Scheduled}
use cpp_sk.Scheduler.Safety.{Step-Inv}
use cpp_sk.HandleStorage.{Ptr}
use cpp_sk.Message.{Bytes, SkynetMessage, string, text}

-- Every context made is found by the handle of its queue, and only contexts made are found.
pub record Fit (w : World) : Type 0 where
  pub made : (h : ℕ) (p : Ptr) → grab w h ≡ some p → p < w.fresh
  pub live : (p : Ptr) → p < w.fresh → grab w (w.contexts p).queue.handle ≡ some p

pub SameHandles-Fit : {w w' : World} → SameHandles w w' → Fit w → Fit w'
SameHandles-Fit {w} {w'} s f = record {
  made = λ h p e. subst (λ x. p < x) (sym s.fresh) (f.made h p (sym (grab-SameHandles s h) ∙ e));
  live = λ p l.
      grab-SameHandles s (w'.contexts p).queue.handle
      ∙ ap (grab w) (s.queue_handle p)
      ∙ f.live p (subst (λ x. p < x) s.fresh l);
}

pub Reach_trans : {s t u : System} → Reach s t → Reach t u → Reach s u
Reach_trans r here = r
Reach_trans r (next q st) = next (Reach_trans r q) st

abbrev pub at : World → (Hand → Option Ptr) → System
at w held = record { world = w; held = held }

-- What a piece of a worker's call does: its world is reached, with `held'` in the hands.
pub record Lands (w : World) (held : Hand → Option Ptr) (w' : World) (held' : Hand → Option Ptr)
    : Type 0 where
  pub run : Reach (at w held) (at w' held')
  pub inv : Inv (at w' held')
  pub fit : Fit w'

pub stay : {w : World} {held : Hand → Option Ptr} → Inv (at w held) → Fit w → Lands w held w held
stay i f = record { run = here; inv = i; fit = f }

pub step-Lands :
    {w w' : World} {held held' : Hand → Option Ptr}
    → Step (at w held) (at w' held')
    → Inv (at w held)
    → Fit w'
    → Lands w held w' held'
step-Lands st i f = record { run = next here st; inv = Step-Inv st i; fit = f }

pub Lands-trans :
    {w w' w'' : World} {held held' held'' : Hand → Option Ptr}
    → Lands w held w' held'
    → Lands w' held' w'' held''
    → Lands w held w'' held''
Lands-trans a b = record { run = Reach_trans a.run b.run; inv = b.inv; fit = b.fit }

push_run :
    (w : World) (held : Hand → Option Ptr) (h : ℕ) (m : SkynetMessage)
    → Inv (at w held)
    → Fit w
    → (w' : World) × (ok : Bool) × (context_push w h m ≡ some (w', ok)) × Lands w held w' held
push_run w held h m i f = elim (Option-cases (grab w h)) [
  | inl e ↦ (w, false, context_push-none w h m e, stay i f)
  | inr (p, e) ↦
      let (w', done, d) =
        context_push-Delivers w i.gs h p m (Inv-Scheduled w held i.gs i.owned i.marked) e in
      (
        w',
        true,
        done,
        step-Lands (deliver h p m e (f.made h p e) done) i (SameHandles-Fit d.same_handles f),
      )
]

-- The log never fails an assert.
pub error_run :
    (w : World) (held : Hand → Option Ptr) (site source : ℕ) (msg : Bytes)
    → Inv (at w held)
    → Fit w
    → (w' : World) × (error w site source msg ≡ some w') × Lands w held w' held
unfolding error
error_run w held site source msg i f =
    let logger = find_logger w site in
    let w1 = record w { loggers = λ s. if s == site then logger else w.loggers s } in
    let same : SameQueues w w1 = record {
      same_global = refl;
      same_fresh = refl;
      same_queue = λ p. refl;
    } in
    let handles : SameHandles w w1 = record {
      storage = refl;
      fresh = refl;
      handle = λ p. refl;
      queue_handle = λ p. refl;
    } in
    let first = step-Lands (other same) i (SameHandles-Fit handles f) in
    elim (Bool-cases (logger == 0)) [
      | inl e ↦ (w1, rw (e, error) refl, first)
      | inr e ↦
          let (w', ok, done, l) =
            push_run w1 held logger
              (record { source = source; session = 0; content = string msg; t = text }) first.inv
              first.fit in
          (w', rw (e, done, error) refl, Lands-trans first l)
    ]
