-- ===== src/TimerEvents/Laws.antt =====
-- What the timer's messages do to the world.
use cpp_sk.Base.{
  ℕ, ◌≡◌, refl, ◌⊎◌, inl, inr, true, none, some, List, [], ◌∷◌, ◌++◌, arith, if◌then◌else◌,
  Option-cases,
}
use cpp_sk.World.{World, grab}
use cpp_sk.World.Push.{Scheduled, Delivers, context_push-none, context_push-Delivers}
use cpp_sk.TimerEvents.{timeout_message, timeout, dispatch}
use cpp_sk.HandleStorage.{Ptr}
use cpp_sk.Message.{is_nonpos, minus_one}
use cpp_sk.Timer.{Timer, Node}

-- Over a world whose global list is in order, a timeout that is not positive goes into the queue of its context at once and leaves the timer
-- alone; without a context the result is -1 and nothing changes.
pub timeout_at_once :
    (w : World) (gs : List Ptr) (t : Timer) (handle ms session : ℕ)
    → Scheduled w gs
    → is_nonpos ms ≡ true
    → ((grab w handle ≡ none) × (timeout w t handle ms session ≡ some (w, t, minus_one)))
      ⊎ ((p : Ptr) × (w' : World) × (timeout w t handle ms session ≡ some (w', t, session))
          × Delivers w p (timeout_message session) gs w')
unfolding timeout
timeout_at_once w gs t handle ms session s now = elim (Option-cases (grab w handle)) [
  | inl e ↦ inl (e, rw (now, context_push-none w handle (timeout_message session) e, timeout) refl)
  | inr (p, e) ↦
      let (w', done, d) = context_push-Delivers w gs handle p (timeout_message session) s e in
      inr (p, w', rw (now, done, timeout) refl, d)
]

-- Over a world whose global list is in order, the messages of any nodes are sent without a failed
-- `assert`, and the list is in order afterwards.
pub dispatch_total :
    (w : World) (gs : List Ptr) (ns : List Node)
    → Scheduled w gs
    → (w' : World) × (gs' : List Ptr) × (dispatch w ns ≡ some w') × Scheduled w' gs'
unfolding dispatch
dispatch_total w gs [] s = (w, gs, refl, s)
dispatch_total w gs (n ∷ ns) s = elim (Option-cases (grab w n.handle)) [
  | inl e ↦
      let (w', gs', done, t) = dispatch_total w gs ns s in
      (w', gs', ground (arith, context_push-none w n.handle (timeout_message n.session) e, done), t)
  | inr (p, e) ↦
      let (w1, sent, d) = context_push-Delivers w gs n.handle p (timeout_message n.session) s e in
      let (w', gs', done, t) =
        dispatch_total w1 (if (w.contexts p).queue.in_global then gs else gs ++ p ∷ []) ns
          d.scheduled in
      (w', gs', ground (arith, sent, done), t)
]
