-- ===== src/SocketServer/Accept.antt =====
-- The coroutine `server::start` of sk_socket.cpp: the accept loop and the read loop. Each round is a
-- check before the `co_await` and a step after it.
use cpp_sk.Base.{ℕ, true, false, ◌&&◌, ◌||◌, Option, none, some, ◌==◌, if◌then◌else◌}
use cpp_sk.World.{World}
use cpp_sk.Socket.{
  is_type, give_back, Server, get_slot, put_slot, listen, connected, halfclose_write, paccept, tcp,
}
use cpp_sk.SocketServer.{forward_message, plain, worded, refused, occupy}
use cpp_sk.Message.{Bytes}
use cpp_sk.Message.SkynetSocketType.{accept, incoming, error as error_type}

-- The check of the accept loop: the world, and the handle it goes on with. `opaque` is the handle in
-- the coroutine's message, 0 before the first round.
unfoldable pub accept_begin : World → Server → ℕ → ℕ → Option (World × Option ℕ)
unfolding forward_message
accept_begin w s id opaque = elim (get_slot s id) [
  | none ↦ none
  | some slot ↦ elim (slot.id == id && is_type slot.type listen) [
    | true ↦ some (w, some slot.opaque)
    | false ↦ elim (forward_message w error_type (refused id opaque)) [
      | none ↦ none
      | some w' ↦ some (w', none)
    ]
  ]
]

-- A connection accepted, with the handle `opaque` of the round's check.
unfoldable pub accepted : World → Server → ℕ → ℕ → Option (World × Server × ℕ)
unfolding forward_message occupy
accepted w s id opaque = elim (get_slot s id) [
  | none ↦ none
  | some slot ↦ elim (occupy s tcp paccept slot.opaque) [
    | none ↦ none
    | some (s', newid) ↦ elim (forward_message w accept (record (plain id opaque) { ud = newid })) [
      | none ↦ none
      | some w' ↦ some (w', s', newid)
    ]
  ]
]

-- The `catch` of the accept loop.
unfoldable pub accept_failed : World → Server → ℕ → Bytes → Option (World × Server)
unfolding forward_message give_back
accept_failed w s id what = elim (get_slot s id) [
  | none ↦ none
  | some slot ↦ elim slot.close [
    | true ↦ some (w, put_slot s id (give_back slot))
    | false ↦ elim (forward_message w error_type (worded id slot.opaque what)) [
      | none ↦ none
      | some w' ↦ some (w', put_slot s id (record slot { close = true }))
    ]
  ]
]

-- The check of the read loop: the handle it goes on with.
unfoldable pub read_begin : Server → ℕ → Option (Option ℕ)
read_begin s id = elim (get_slot s id) [
  | none ↦ none
  | some slot ↦ some (
      if slot.id == id && (is_type slot.type connected || is_type slot.type halfclose_write)
      then some slot.opaque
      else none)
]

-- Bytes read, and the `catch` of the read loop, which leaves the slot as it is.
unfoldable pub read_done : World → ℕ → ℕ → Bytes → Option World
unfolding forward_message
read_done w id opaque bytes = forward_message w incoming (worded id opaque bytes)

unfoldable pub read_failed : World → ℕ → ℕ → Bytes → Option World
unfolding forward_message
read_failed w id opaque what = forward_message w error_type (worded id opaque what)
