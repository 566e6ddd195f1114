-- ===== src/Launch/Enroll.antt =====
-- A context that `create` makes can be found.
use cpp_sk.Base.{◌+◌, ◌^◌, ◌≤◌, ◌≡◌, refl, sym, ap, ◌∙◌, some, length}
use cpp_sk.World.{Context, World, handle_of, put, grab}
use cpp_sk.World.Push.{put_self}
use cpp_sk.Launch.{new_context, enroll}
use cpp_sk.HandleStorage.{handle_grab, register_fuel}
use cpp_sk.HandleStorage.Slots.{IsValid}
use cpp_sk.HandleStorage.Register.{register_total}
use cpp_sk.HandleStorage.Grab.{grab-register}
use cpp_sk.MessageQueue

-- On a valid storage of at most 2^23 slots, the first half of `create` ends, and the handle that the
-- new context gets leads to it; its queue carries the same handle and is empty.
pub grab-enroll :
    (w : World)
    → IsValid w.storage
    → length w.storage.slot ≤ 2 ^ 23
    → (w' : World) × (enroll w ≡ some (w', w.fresh))
      × (grab w' (w'.contexts w.fresh).handle ≡ some w.fresh)
      × ((w'.contexts w.fresh).queue ≡ MessageQueue.new (w'.contexts w.fresh).handle)
unfolding enroll put grab
grab-enroll w v small =
    let (r, e) = register_total w.storage w.fresh v small in
    let c : Context = record new_context { handle = r.1; queue = MessageQueue.new r.1 } in
    let first : World =
      record (put (record w { fresh = w.fresh + 1; total = w.total + 1 }) w.fresh new_context) {
        storage = r.0;
      } in
    let last = put first w.fresh c in
    let there : last.contexts w.fresh ≡ c = put_self first w.fresh c in
    let named : handle_of last w.fresh ≡ r.1 = ap Context.handle there in
    (
      last,
      rw (e, enroll) refl,
      ap (handle_grab (handle_of last) r.0) named
          ∙ grab-register (handle_of last) register_fuel w.storage w.fresh v e named,
      ap Context.queue there ∙ ap MessageQueue.new (sym named),
    )
