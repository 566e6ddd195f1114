-- ===== src/SocketServer.antt =====
-- The operations of `server` in sk_socket.cpp on the slots and the world. What asio reports (an
-- endpoint, a written size, an exception) is an argument; each task that runs in `poll` is a
-- function, and each piece of a coroutine between two `co_await`. `none` is a failed `assert`.
pub mod Send
pub mod Close
pub mod Accept
pub mod Reads
pub mod Connection
mod Tests
use cpp_sk.Base.{
  ℕ, ◌-◌, ◌⊎◌, inl, inr, Bool, true, false, not, ◌&&◌, Option, none, some, [], ◌∷◌, ◌==◌,
  if◌then◌else◌,
}
use cpp_sk.World.{World, put, context_push, error}
use cpp_sk.Socket.{
  SocketType, is_type, Sock, check_pstart, Server, new, new_fd, get_slot, put_slot, invalid,
  plisten, listen, connecting, connected, bind, tcp, acceptor,
}
use cpp_sk.Message.{
  Bytes, StringBuf, empty_buf, const_assgin, assgin, SkynetSocketType, SkynetMessage,
  socket_message, minus_one,
}
use cpp_sk.Message.Ptype.{socket}
use cpp_sk.Message.SkynetSocketType.{
  connect, accept, error as error_type, incoming, close as close_type,
}

-- `socket_message`
pub record SocketMessage : Type 0 where
  pub id : ℕ
  pub opaque : ℕ
  pub ud : ℕ
  pub buffer : StringBuf

-- "invalid socket"
abbrev pub invalid_socket : Bytes
invalid_socket = 105 ∷ 110 ∷ 118 ∷ 97 ∷ 108 ∷ 105 ∷ 100 ∷ 32 ∷ 115 ∷ 111 ∷ 99 ∷ 107 ∷ 101 ∷ 116 ∷ []

-- `forward_message`
unfoldable pub forward_message : World → SkynetSocketType → SocketMessage → Option World
forward_message w type result =
    elim (context_push w result.opaque (record {
      source = 0;
      session = 0;
      content =
          socket_message
            (record { type = type; id = result.id; ud = result.ud; buffer = result.buffer });
      t = socket;
    })) [ none ↦ none | some (w', ok) ↦ some w' ]

-- A message without and with a text.
abbrev pub plain : ℕ → ℕ → SocketMessage
plain id opaque = record { id = id; opaque = opaque; ud = 0; buffer = empty_buf }

abbrev pub worded : ℕ → ℕ → Bytes → SocketMessage
unfolding assgin
worded id opaque s = record { id = id; opaque = opaque; ud = 0; buffer = assgin empty_buf s }

abbrev pub refused : ℕ → ℕ → SocketMessage
unfolding const_assgin
refused id opaque = record {
  id = id;
  opaque = opaque;
  ud = 0;
  buffer = const_assgin empty_buf invalid_socket;
}

-- A new identifier with its slot filled in: what `socket_listen`, `socket_connect` and the accept
-- loop do after `new_fd`.
unfoldable pub occupy : Server → Sock → SocketType → ℕ → Option (Server × ℕ)
occupy s sock type opaque = elim (new_fd s) [
  | none ↦ none
  | some (s', id) ↦ elim (get_slot s' id) [
    | none ↦ none
    | some slot ↦
        some
          (put_slot s' id (record slot { id = id; opaque = opaque; sock = sock; type = type }), id)
  ]
]

abbrev pub listen_site : ℕ
listen_site = 4

-- `socket_listen`: `failure` is the text of the log where opening, binding or listening throws.
unfoldable pub socket_listen : World → Server → ℕ → Option Bytes → Option (World × Server × ℕ)
unfolding occupy
socket_listen w s handle failure = elim failure [
  | some what ↦ elim (error w listen_site 0 what) [
    | none ↦ none
    | some w' ↦ some (w', s, minus_one)
  ]
  | none ↦ elim (occupy s acceptor plisten handle) [
    | none ↦ none
    | some (s', id) ↦ some (w, s', id)
  ]
]

-- The task that `socket_listen` posts.
unfoldable pub listen_posted : World → Server → ℕ → Option World
unfolding forward_message
listen_posted w s id = elim (get_slot s id) [
  | none ↦ none
  | some slot ↦ forward_message w connect (plain id slot.opaque)
]

-- `socket_connect`, which throws nothing after it has the identifier.
unfoldable pub socket_connect : Server → ℕ → Option (Server × ℕ)
unfolding occupy
socket_connect s handle = occupy s tcp connecting handle

-- The first piece of its coroutine: the handle to answer to, where it goes on.
unfoldable pub connect_begin : Server → ℕ → Option (Option ℕ)
connect_begin s id = elim (get_slot s id) [
  | none ↦ none
  | some slot ↦
      some (if is_type slot.type connecting && slot.id == id then some slot.opaque else none)
]

-- Its last piece, for the handle `opaque` that the first one read: an address, or an exception.
unfoldable pub connect_end : World → Server → ℕ → ℕ → (Bytes ⊎ Bytes) → Option (World × Server)
unfolding forward_message
connect_end w s id opaque outcome = elim (get_slot s id) [
  | none ↦ none
  | some slot ↦ elim outcome [
    | inl address ↦ elim (forward_message w connect (worded id opaque address)) [
      | none ↦ none
      | some w' ↦ some (w', put_slot s id (record slot { type = connected }))
    ]
    | inr what ↦ elim (forward_message w error_type (worded id opaque what)) [
      | none ↦ none
      | some w' ↦ some (w', s)
    ]
  ]
]

-- The task that `socket_start` posts; the Boolean says whether it spawns `start`.
unfoldable pub socket_start : World → Server → ℕ → ℕ → Option (World × Server × Bool)
unfolding forward_message
socket_start w s handle id = elim (get_slot s id) [
  | none ↦ none
  | some slot ↦ elim (check_pstart slot id) [
    | false ↦ elim (forward_message w error_type (refused id handle)) [
      | none ↦ none
      | some w' ↦ some (w', s, false)
    ]
    | true ↦
        let type = if is_type slot.type plisten then listen else connected in
        elim (forward_message w connect (plain id handle)) [
          | none ↦ none
          | some w' ↦ some (w', put_slot s id (record slot { type = type; opaque = handle }), true)
        ]
  ]
]
