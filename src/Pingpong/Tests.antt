-- ===== src/Pingpong/Tests.antt =====
-- The server with one connection, on which two bytes come in.
use cpp_sk.Base.{
  ℕ, ◌≡◌, refl, Bool, true, false, none, some, List, [], ◌∷◌, ◌++◌, ◌==◌, if◌then◌else◌,
}
use cpp_sk.World.{World, error, find_logger, handle_of}
use cpp_sk.Timer.{timer_add}
use cpp_sk.World.Tests.{context_of}
use cpp_sk.HandleStorage.{handle_finename, lookup_name}
use cpp_sk.Message.{Bytes, StringBuf, incoming}
use cpp_sk.Service.{SocketNode, fresh_node, Service, post, send_task, on_socket, bytes_of}
use cpp_sk.Service.Stream.{Sets}
use cpp_sk.Socket.{
  SocketSlot, fresh_slot, connected, tcp, get_slot, slot_index, check_can_write, code,
}
use cpp_sk.SocketServer.Send.{socket_send, send_now}
use cpp_sk.Base.Maps.{find}
use cpp_sk.Pingpong.{echo, data_site, server_call_id, server_call_data}
use cpp_sk.Pingpong.Echo.{on_socket-echo}
use cpp_sk.Pingpong.Client.{client_call, greet, greet_site, start_text, hello}
use cpp_sk.Pingpong.Farewell.{farewell}
use cpp_sk.Service.Session.{Ahead, fired}
use cpp_sk.Service.{Closure, close_task, on_response}
use cpp_sk.Message.{nothing}
use cpp_sk.Base.{arith, Option}

abbrev quiet_world : World
quiet_world = record {
  storage = record { harbor = 0; handle_index = 1; slot = none ∷ []; name = [] };
  contexts = context_of;
  global = record { head = none; tail = none; next = λ p. none };
  loggers = λ s. 0;
  total = 1;
  fresh = 1;
}

abbrev connection : SocketNode
connection = record fresh_node { id = 1; connectd = true; on_data = some echo }

abbrev writable : SocketSlot
writable = record fresh_slot { id = 1; opaque = 9; sock = tcp; type = connected }

abbrev pingpong : Service
pingpong = record {
  self = 0;
  socket_nodes = (1, connection) ∷ [];
  timeout_nodes = [];
  response_cbs = [];
  world = quiet_world;
  timer = record { near = []; wheel = []; time = 0; starttime = 0; current = 0; current_point = 0 };
  server = record { slots = fresh_slot ∷ writable ∷ []; alloc = 2 };
  posted = [];
}

data_text : ℕ → Bytes → Bytes
data_text id bytes = bytes

stays : List (ℕ × SocketNode) → ℕ → Bool
stays nodes id = false

abbrev two_bytes : StringBuf
two_bytes = record { str = 7 ∷ 8 ∷ []; str_view = [] }

abbrev logged : World
logged = record quiet_world { loggers = λ s. if s == data_site then 0 else 0 }

logs : error quiet_world data_site 0 (data_text 1 ([] ++ bytes_of two_bytes)) ≡ some logged
unfolding error find_logger handle_finename lookup_name
logs = refl

sends : socket_send pingpong.server 1 1 ≡ some (0, some 1)
unfolding socket_send send_now get_slot slot_index check_can_write code
sends = refl

found : find 1 pingpong.socket_nodes ≡ some connection
unfolding find
found = refl

on_socket-echo_example :
    (t : Service) × (on_socket server_call_id
        (server_call_data data_text 1)
        stays
        pingpong
        (record { type = incoming; id = 1; ud = 2; buffer = two_bytes })
      ≡ some t)
    × Sets
        (post pingpong (send_task 1 1 ([] ++ bytes_of two_bytes)))
        1
        (record connection { rbuff = [] })
        t
on_socket-echo_example =
    on_socket-echo data_text 1 stays pingpong 1 2 connection two_bytes logged 0 1 found refl refl
      logs sends

-- The client on the same connection: its greeting and its farewell.
abbrev early_world : World
early_world = record quiet_world { contexts = λ p. record (context_of p) { session_id = 0 } }

abbrev early : Service
early = record pingpong { world = early_world }

abbrev early_greeted : World
early_greeted = record early_world { loggers = λ s. if s == greet_site then 0 else 0 }

early_greets : error early_world greet_site 0 start_text ≡ some early_greeted
unfolding error find_logger handle_finename lookup_name
early_greets = refl

sends_five : socket_send pingpong.server 1 5 ≡ some (0, some 5)
unfolding socket_send send_now get_slot slot_index check_can_write code
sends_five = refl

early-Ahead : Ahead (record early { world = early_greeted })
unfolding find
early-Ahead = record { small = omega arith; no_timeout = λ k h. refl; no_response = λ k h. refl }

no_reply : Closure → Bytes → Service → Option Service
no_reply c text s = some s

farewell_example :
    (t : Service) × (id : ℕ) × (client_call 1 5 greet early ≡ some t)
    × (t.posted ≡ early.posted ++ send_task 1 5 hello ∷ [])
    × (id ≡ 1)
    × (t.timer ≡ timer_add pingpong.timer (handle_of early_greeted 0) id 300)
    × (on_response (client_call 1 5) no_reply t id nothing
        ≡ some (post (fired t id) (close_task 1)))
    × (on_response (client_call 1 5) no_reply (fired t id) id nothing ≡ some (fired t id))
farewell_example =
    farewell 1 5 no_reply early connection early_greeted 0 5 nothing found early_greets sends_five
      early-Ahead (omega arith)
