-- ===== src/SocketServer/Connection/Closes.antt =====
-- What `close_socket` does in each stage of a connection.
use cpp_sk.Base.{
  ℕ, ◌≡◌, refl, ◌≢◌, inl, inr, Bool, true, false, some, [], arith, Option-cases, if◌then◌else◌,
}
use cpp_sk.World.{World, context_push, grab}
use cpp_sk.World.Push.{context_push-Delivers, context_push-none}
use cpp_sk.Message.{SkynetMessage, SkynetSocketType, socket_message}
use cpp_sk.Message.Ptype.{socket}
use cpp_sk.Message.SkynetSocketType.{close as close_type}
use cpp_sk.Socket.{
  SocketSlot, Server, get_slot, put_slot, connected, halfclose_read, tcp, code, give_back,
}
use cpp_sk.SocketServer.{SocketMessage, forward_message, plain}
use cpp_sk.SocketServer.Close.{close_socket, close_stream}
use cpp_sk.SocketServer.Connection.{InOrder}

push-InOrder :
    (w : World) (h : ℕ) (m : SkynetMessage)
    → InOrder w
    → (w' : World) × (ok : Bool) × (context_push w h m ≡ some (w', ok)) × InOrder w'
push-InOrder w h m (gs, sch) = elim (Option-cases (grab w h)) [
  | inl e ↦ (w, false, context_push-none w h m e, (gs, sch))
  | inr (p, e) ↦
      let (w', done, d) = context_push-Delivers w gs h p m sch e in
      (w', true, done, (_, d.scheduled))
]

-- A message of the socket server always finds its way, and the list stays in order.
pub forward_message-InOrder :
    (w : World) (type : SkynetSocketType) (result : SocketMessage)
    → InOrder w
    → (w' : World) × (forward_message w type result ≡ some w') × InOrder w'
unfolding forward_message
forward_message-InOrder w type result o =
    let m : SkynetMessage = record {
      source = 0;
      session = 0;
      content =
          socket_message
            (record { type = type; id = result.id; ud = result.ud; buffer = result.buffer });
      t = socket;
    } in
    let (w', ok, done, o') = push-InOrder w result.opaque m o in
    (w', rw (done, forward_message) refl, o')

-- The slot that a close leaves open: halfway, and marked.
abbrev pub half_closed : SocketSlot → SocketSlot
half_closed slot = record slot { type = halfclose_read; close = true }

-- What a close makes of a slot.
abbrev pub closed : SocketSlot → SocketSlot
closed slot = if slot.locked then half_closed slot else give_back slot

pub close_open :
    (w w' : World) (s : Server) (id : ℕ) (slot : SocketSlot)
    → get_slot s id ≡ some slot
    → slot.id ≡ id
    → slot.sock ≡ tcp
    → slot.type ≡ connected
    → slot.close ≡ false
    → (slot.locked ≡ false → slot.wlist ≡ [])
    → forward_message w close_type (plain slot.id slot.opaque) ≡ some w'
    → close_socket w s id ≡ some (w', put_slot s id (closed slot))
unfolding close_socket close_stream code give_back
close_open w w' s id slot at own stream type unmarked settled sent =
    ground (arith, at, own, stream, type, unmarked, settled, sent)

pub close_marked :
    (w : World) (s : Server) (id : ℕ) (slot : SocketSlot)
    → get_slot s id ≡ some slot
    → slot.close ≡ true
    → close_socket w s id ≡ some (w, s)
unfolding close_socket
close_marked w s id slot at marked = ground (arith, at, marked)

pub close_foreign :
    (w : World) (s : Server) (id : ℕ) (slot : SocketSlot)
    → get_slot s id ≡ some slot
    → slot.id ≢ id
    → close_socket w s id ≡ some (w, s)
unfolding close_socket
close_foreign w s id slot at foreign = ground (arith, at, foreign)
