-- ===== src/SocketServer/Close.antt =====
-- `close_socket` of sk_socket.cpp, the task that it posts.
pub mod Twice
use cpp_sk.Base.{
  ℕ, ◌-◌, true, false, not, ◌||◌, Option, none, some, [], ◌∷◌, ◌==◌, if◌then◌else◌, set,
}
use cpp_sk.World.{World, put}
use cpp_sk.Socket.{
  SocketType, is_type, Sock, SocketSlot, give_back, Server, get_slot, put_slot, invalid, listen,
  halfclose_read, monostate, tcp, acceptor, udp,
}
use cpp_sk.SocketServer.{forward_message, plain}
use cpp_sk.Message.SkynetSocketType.{close as close_type}

-- The close of a TCP or UDP socket.
unfoldable pub close_stream : World → SocketSlot → Option (World × SocketSlot)
unfolding forward_message give_back
close_stream w slot =
    let wide = is_type slot.type halfclose_read in
    let slot1 : SocketSlot = if wide then slot else record slot { type = halfclose_read } in
    let slot2 : SocketSlot = elim slot.wlist [
      | _ ∷ _ ↦ record slot1 { close = true }
      | [] ↦ if slot.locked then record slot1 { close = true } else give_back slot1
    ] in
    elim wide [
      | true ↦ some (w, slot2)
      | false ↦ elim (forward_message w close_type (plain slot.id slot.opaque)) [
        | none ↦ none
        | some w' ↦ some (w', slot2)
      ]
    ]

-- The close of an acceptor: `compare_exchange_strong` sets `close` where it was not set.
unfoldable pub close_acceptor : SocketSlot → SocketSlot
unfolding give_back
close_acceptor slot =
    if slot.close
    then give_back slot
    else if is_type slot.type listen
    then give_back (record slot { close = true })
    else record slot { close = true }

-- `close_socket`
unfoldable pub close_socket : World → Server → ℕ → Option (World × Server)
unfolding close_stream close_acceptor
close_socket w s id = elim (get_slot s id) [
  | none ↦ none
  | some slot ↦ elim (not (slot.id == id) || is_type slot.type invalid || slot.close) [
    | true ↦ some (w, s)
    | false ↦ elim slot.sock [
      | monostate ↦ none
      | acceptor ↦ some (w, put_slot s id (close_acceptor slot))
      | tcp ↦ elim (close_stream w slot) [
        | none ↦ none
        | some (w', slot') ↦ some (w', put_slot s id slot')
      ]
      | udp ↦ elim (close_stream w slot) [
        | none ↦ none
        | some (w', slot') ↦ some (w', put_slot s id slot')
      ]
    ]
  ]
]
