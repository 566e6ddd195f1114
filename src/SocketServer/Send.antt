-- ===== src/SocketServer/Send.antt =====
-- `socket_send` of sk_socket.cpp. What asio writes is an argument: the number of bytes that
-- `write_some` takes, and the outcome of each `async_write`.
pub mod Order
use cpp_sk.Base.{
  ℕ, ◌+◌, ◌-◌, Bool, true, false, not, ◌||◌, Option, none, some, List, [], ◌∷◌, ◌++◌, ltb, ◌==◌,
  if◌then◌else◌, length, set, take, drop,
}
use cpp_sk.World.{World, put, error}
use cpp_sk.Socket.{
  SocketType, is_type, Sock, SocketSlot, give_back, check_can_write, Server, get_slot,
  halfclose_read, halfclose_write, monostate, tcp, acceptor, udp,
}
use cpp_sk.SocketServer.{forward_message, worded}
use cpp_sk.Message.SkynetSocketType.{error as error_type}
use cpp_sk.Message.{Bytes, minus_one}

-- The write in the caller's thread, under `wlist_lock`: the bytes that are sent, of those that
-- `write_some` would take.
unfoldable pub send_now : SocketSlot → ℕ → ℕ → Option ℕ
send_now slot id taken =
    if slot.locked || not (check_can_write slot id) then some 0 else elim slot.wlist [
      | _ ∷ _ ↦ some 0
      | [] ↦ elim slot.sock [
        | tcp ↦ some taken
        | udp ↦ some taken
        | acceptor ↦ none
        | monostate ↦ none
      ]
    ]

-- `socket_send` up to the spawn: its result, and the offset for the coroutine where it spawns it.
unfoldable pub socket_send : Server → ℕ → ℕ → Option (ℕ × Option ℕ)
unfolding send_now
socket_send s id taken = elim (get_slot s id) [
  | none ↦ none
  | some slot ↦ elim (check_can_write slot id) [
    | false ↦ some (minus_one, none)
    | true ↦ elim (send_now slot id taken) [ none ↦ none | some offset ↦ some (0, some offset) ]
  ]
]

-- The rest of a buffer after the direct write, put at the end of `wlist`.
unfoldable pub enqueue : List Bytes → ℕ → Bytes → List Bytes
enqueue wlist offset buf =
    if offset == 0
    then wlist ++ buf ∷ []
    else if ltb offset (length buf)
    then wlist ++ drop offset buf ∷ []
    else wlist

-- The coroutine up to its first `async_write`; the Boolean says whether it has the lock and writes.
unfoldable pub send_begin : SocketSlot → ℕ → ℕ → Bytes → SocketSlot × Bool
unfolding enqueue
send_begin slot id offset buf =
    if check_can_write slot id
    then (if slot.locked
        then (record slot { wlist = enqueue slot.wlist offset buf }, false)
        else (record slot { wlist = enqueue slot.wlist offset buf; locked = true }, true))
    else (slot, false)

-- What follows the loop. The `ec` tested here is the outer one, which the loop's own `ec` hides and
-- nothing sets, so that the branch for a failed write is never taken: the parameter `ec` is its value.
unfoldable pub send_end : World → SocketSlot → Option Bytes → Option (World × SocketSlot)
unfolding forward_message
send_end w slot ec =
    let slot' = record slot { locked = false } in
    elim (is_type slot.type halfclose_read || slot.close) [
      | true ↦ some (w, give_back slot')
      | false ↦ elim ec [
        | none ↦ some (w, slot')
        | some what ↦ elim (forward_message w error_type (worded slot.id slot.opaque what)) [
          | none ↦ none
          | some w' ↦ some (w', record slot' { type = halfclose_write })
        ]
      ]
    ]

-- The loop of the coroutine and what follows it, where nothing else runs between its writes: each
-- outcome says whether the `async_write` of the first buffer failed. The result is `none` where the
-- outcomes end before the loop does.
unfoldable pub send_loop : World → SocketSlot → List Bool → Option (World × SocketSlot)
unfolding send_end
send_loop w slot [] = elim slot.wlist [ [] ↦ send_end w slot none | _ ∷ _ ↦ none ]
send_loop w slot (failed ∷ outcomes) = elim slot.wlist [
  | [] ↦ send_end w slot none
  | _ ∷ rest ↦
      let next = send_loop w (record slot { wlist = rest }) outcomes in
      elim failed [ true ↦ send_end w slot none | false ↦ next ]
]
