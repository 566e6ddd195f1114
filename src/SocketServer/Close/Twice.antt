-- ===== src/SocketServer/Close/Twice.antt =====
-- An acceptor whose loop has thrown, and what runs for it later.
use cpp_sk.Base.{ℕ, ◌≡◌, refl, ap, ◌∙◌, inl, inr, Bool, true, false, some, arith, Option-cases}
use cpp_sk.World.{World}
use cpp_sk.Socket.{SocketSlot, Server, get_slot, put_slot, check_pstart}
use cpp_sk.Socket.Slots.{get_slot-put_slot}
use cpp_sk.SocketServer.{forward_message, worded, refused, socket_start}
use cpp_sk.SocketServer.Connection.Closes.{close_marked}
use cpp_sk.SocketServer.Close.{close_socket}
use cpp_sk.SocketServer.Accept.{accept_failed}
use cpp_sk.Message.{Bytes}
use cpp_sk.Message.SkynetSocketType.{error as error_type}

-- What runs later for the socket `id`: a close, a start, and steps that leave its slot as it is.
pub data Later (id : ℕ) : World → Server → World → Server → Type 0 where
  close_run :
      {w w' : World} {s s' : Server} → close_socket w s id ≡ some (w', s') → Later id w s w' s'
  start_run :
      {w w' : World} {s s' : Server} {spawns : Bool} (handle : ℕ)
      → socket_start w s handle id ≡ some (w', s', spawns)
      → Later id w s w' s'
  others : {w w' : World} {s s' : Server} → get_slot s' id ≡ get_slot s id → Later id w s w' s'

pub data Row (id : ℕ) (w : World) (s : Server) : World → Server → Type 0 where
  none_yet : Row id w s w s
  and_then :
      {w' w'' : World} {s' s'' : Server}
      → Row id w s w' s'
      → Later id w' s' w'' s''
      → Row id w s w'' s''

start_marked :
    (w w' : World) (s s' : Server) (handle id : ℕ) (slot : SocketSlot) (spawns : Bool)
    → get_slot s id ≡ some slot
    → slot.close ≡ true
    → socket_start w s handle id ≡ some (w', s', spawns)
    → s' ≡ s
unfolding socket_start check_pstart
start_marked w w' s s' handle id slot spawns at marked h =
    elim (Option-cases (forward_message w error_type (refused id handle))) [
      | inl e ↦ absurd (ground (arith, at, marked, h, e))
      | inr (x, e) ↦ ground (arith, at, marked, h, e)
    ]

mark_stays :
    (id : ℕ) (slot : SocketSlot) {w : World} {s : Server} {w' : World} {s' : Server}
    → get_slot s id ≡ some slot
    → slot.close ≡ true
    → Later id w s w' s'
    → get_slot s' id ≡ some slot
mark_stays id slot at marked (close_run {w} {w'} {s} {s'} h) =
    let same : s' ≡ s = ground (arith, h, close_marked w s id slot at marked) in rw same at
mark_stays id slot at marked (start_run {w} {w'} {s} {s'} {spawns} handle h) =
    rw (start_marked w w' s s' handle id slot spawns at marked h) at
mark_stays id slot at marked (others e) = e ∙ at

mark_lasts :
    (id : ℕ) (slot : SocketSlot) {w : World} {s : Server} {w' : World} {s' : Server}
    → get_slot s id ≡ some slot
    → slot.close ≡ true
    → Row id w s w' s'
    → get_slot s' id ≡ some slot
mark_lasts id slot at marked none_yet = at
mark_lasts id slot at marked (and_then r l) =
    mark_stays id slot (mark_lasts id slot at marked r) marked l

-- The accept loop of a socket that is not marked to close throws: after any row of closes and starts
-- of that socket, and of steps that leave its slot as it is, the slot is the same one with its mark,
-- and `close_socket` does nothing, so that the slot is not given back.
pub close-accept_failed :
    (w w' : World) (s s' : Server) (id : ℕ) (slot : SocketSlot) (what : Bytes) {v : World}
    {r : Server}
    → get_slot s id ≡ some slot
    → slot.close ≡ false
    → accept_failed w s id what ≡ some (w', s')
    → Row id w' s' v r
    → (get_slot r id ≡ some (record slot { close = true }))
      × ((u : World) → close_socket u r id ≡ some (u, r))
unfolding accept_failed
close-accept_failed w w' s s' id slot what {v} {r} at unset h row =
    elim (Option-cases (forward_message w error_type (worded id slot.opaque what))) [
      | inl e ↦ absurd (ground (arith, at, unset, h, e))
      | inr (x, e) ↦
          let next = record slot { close = true } in
          let same : s' ≡ put_slot s id next = ground (arith, at, unset, h, e) in
          let there : get_slot s' id ≡ some next =
            ap (λ r. get_slot r id) same ∙ get_slot-put_slot s id slot next at in
          let still = mark_lasts id next there refl row in
          (still, λ u. close_marked u r id next still refl)
    ]
