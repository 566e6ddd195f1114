-- ===== src/Main/Named.antt =====
-- The world of the logger alone, after it got its name.
use cpp_sk.Base.{ℕ, length, ◌≡◌, refl, sym, ap, subst, ◌∙◌, inl, true, [], ◌∷◌, arith}
use cpp_sk.World.{Context, World, handle_of, grab}
use cpp_sk.HandleStorage.{
  Ptr, register_fuel, handle_finename, handle_namehandle, lookup_name, handle_grab,
}
use cpp_sk.HandleStorage.Grab.{grab-register}
use cpp_sk.MessageQueue.{default_queue_size}
use cpp_sk.MessageQueue.Contents.{contents, ring, IsValid}
use cpp_sk.MessageQueue
use cpp_sk.MessageQueue.Refine.{new-IsValid}
use cpp_sk.GlobalQueue.Chain.{Holds}
use cpp_sk.Launch.{new_context}
use cpp_sk.Threads.{boot}
use cpp_sk.Threads.Boot.{boot-IsValid}
use cpp_sk.Main.First.{first_handle, first_handle_pos, registered, Launched}
use cpp_sk.World.Log.{Logging}
use native.Mathlib.Decide.{ℕ_discrete}

abbrev pub named_world : World → World
named_world w = record w { storage = (handle_namehandle w.storage (handle_of w 0) "logger").0 }

only_queues :
    (harbor : ℕ) (w : World) → Launched harbor w → (p : Ptr) → (w.contexts p).queue.in_global ≡ true
unfolding new_context MessageQueue.new
only_queues harbor w l p = elim (ℕ_discrete p 0) [
  | yes e ↦ rw (e, l.context) refl
  | no n ↦ rw (l.others p n) refl
]

pub named-Logging :
    (harbor : ℕ) (w : World) → Launched harbor w → Logging 0 default_queue_size [] (named_world w)
unfolding handle_namehandle handle_finename lookup_name grab handle_grab MessageQueue.new contents
    ring
named-Logging harbor w l =
    let own : handle_of w 0 ≡ first_handle harbor = ap Context.handle l.context in
    let queue : (w.contexts 0).queue ≡ MessageQueue.new (first_handle harbor) =
      ap Context.queue l.context in
    record {
      handle = first_handle harbor;
      own = own;
      named =
          ap (λ st. handle_finename (handle_namehandle st (handle_of w 0) "logger").0 "logger")
            l.storage
          ∙ own;
      real = first_handle_pos harbor;
      known = λ site. inl (l.silent site);
      box = record {
        found =
            ap
              (λ st.
                handle_grab (handle_of w) (handle_namehandle st (handle_of w 0) "logger").0
                  (first_handle harbor))
              l.storage
            ∙ grab-register (handle_of w) register_fuel (boot harbor).storage 0
                (boot-IsValid harbor) (registered harbor) own;
        gs = 0 ∷ [];
        scheduled = record {
          holds =
              subst (λ g. Holds g (0 ∷ [])) (sym l.list)
                (record { chain = (refl, refl); last = refl; distinct = (tt, tt) });
          idle = λ p e. absurd (ground (arith, e, only_queues harbor w l p));
        };
        valid = subst IsValid (sym queue) (new-IsValid (first_handle harbor)).0;
        cells_are = ap (λ q. length q.queue) queue;
        waiting = ap contents queue ∙ (new-IsValid (first_handle harbor)).1;
      };
    }
