-- ===== src/Service/Tests.antt =====
-- A service with one connection at concrete messages.
use cpp_sk.Base.{
  ℕ, ◌≡◌, refl, ◌≢◌, Bool, true, false, Option, none, some, List, [], ◌∷◌, ◌++◌, arith, length,
  replicate,
}
use cpp_sk.Service.{
  Closure, SocketNode, fresh_node, Service, Behaviour, post, start_task, close_task, put_node,
  timeout, connect, start_accept, start_tcp, on_response, on_socket,
}
use cpp_sk.Service.Session.{Ahead, fired, timeout_once}
use cpp_sk.Service.Stream.{Sets, quiet, taken}
use cpp_sk.Service.Reading.{queue_of, handle, reader, handle-reads}
use cpp_sk.SocketServer.Reads.{reads}
use cpp_sk.SocketServer.Accept.{read_failed}
use cpp_sk.SocketServer
use cpp_sk.Service.Hangup.{close_socket-read_failed}
use cpp_sk.World.Tests.{two, two-Scheduled}
use cpp_sk.World.Waiting.{Waiting}
use cpp_sk.MessageQueue.Contents.{contents, ring}
use cpp_sk.HandleStorage.{handle_grab}
use cpp_sk.Service.Sockets.{message, ready_node, connect_life}
use cpp_sk.Base.Maps.{find}
use cpp_sk.World.{World, grab}
use cpp_sk.Message.{Bytes, StringBuf, nothing, incoming, ptr, empty_buf}
use cpp_sk.Message
use cpp_sk.Timer.{Timer, timer_add}
use cpp_sk.Socket.{
  SocketType, SocketSlot, tcp, Server, fresh_slot, find_fd, new_fd, get_slot, put_slot, slot_index,
  code, give_back,
}
use cpp_sk.SocketServer.{socket_connect, occupy}

abbrev small_world : World
small_world = record {
  storage = record { harbor = 0; handle_index = 1; slot = none ∷ []; name = [] };
  contexts = λ p. record {
    cb = true;
    queue = record {
      handle = 0;
      head = 0;
      tail = 0;
      release = false;
      in_global = true;
      overload = 0;
      overload_threshold = 1024;
      queue = [];
    };
    handle = 0;
    session_id = 4;
    message_count = 0;
    init = true;
    endless = false;
  };
  global = record { head = none; tail = none; next = λ p. none };
  loggers = λ s. 0;
  total = 1;
  fresh = 1;
}

abbrev small_timer : Timer
small_timer = record {
  near = replicate 256 [];
  wheel = replicate 4 (replicate 64 []);
  time = 0;
  starttime = 0;
  current = 0;
  current_point = 0;
}

-- Connection 7 has a callback for its bytes, listener 3 one for its connections.
abbrev stream_node : SocketNode
stream_node = record fresh_node { id = 7; connectd = true; rbuff = 9 ∷ []; on_data = some 5 }

abbrev listen_node : SocketNode
listen_node = record fresh_node { id = 3; connectd = true; cb = some 6 }

abbrev small_service : Service
small_service = record {
  self = 0;
  socket_nodes = (7, stream_node) ∷ (3, listen_node) ∷ [];
  timeout_nodes = (4, 1) ∷ [];
  response_cbs = [];
  world = small_world;
  timer = small_timer;
  server = record { slots = fresh_slot ∷ fresh_slot ∷ fresh_slot ∷ []; alloc = 1 };
  posted = [];
}

ignore : Closure → Service → Option Service
ignore c s = some s

ignore_text : Closure → Bytes → Service → Option Service
ignore_text c t s = some s

ignore_id : Closure → ℕ → Service → Option Service
ignore_id c id s = some s

stays : List (ℕ × SocketNode) → ℕ → Bool
stays nodes id = false

-- The callback takes all that it sees.
abbrev take_all : Bytes → ℕ
take_all b = length b

small-Ahead : Ahead small_service
unfolding find
small-Ahead = record {
  small = omega arith;
  no_timeout = λ k h. ground (arith, h);
  no_response = λ k h. refl;
}

timeout_once_example :
    (t : Service) × (id : ℕ) × (timeout small_service 50 2 ≡ some (t, id))
    × (on_response ignore ignore_text t id nothing ≡ ignore 2 (fired t id))
    × (on_response ignore ignore_text (fired t id) id nothing ≡ some (fired t id))
    × ((k : ℕ) → k ≢ id → find k t.timeout_nodes ≡ find k small_service.timeout_nodes)
    × Ahead t
    × (id ≡ 5)
    × (t.timer ≡ timer_add small_timer 0 id 50)
timeout_once_example =
    timeout_once ignore ignore_text small_service 50 2 nothing small-Ahead (omega arith) refl

stream_found : find 7 small_service.socket_nodes ≡ some stream_node
unfolding find
stream_found = refl

listen_found : find 3 small_service.socket_nodes ≡ some listen_node
unfolding find
listen_found = refl

-- The service of the context 2, which owns the socket 1; its queue has room for three messages.
abbrev reading_node : SocketNode
reading_node = record fresh_node { id = 1; connectd = true; rbuff = 9 ∷ []; on_data = some 5 }

abbrev reading_slot : SocketSlot
reading_slot = record fresh_slot { opaque = 2; id = 1; sock = tcp; type = SocketType.connected }

abbrev reading_service : Service
reading_service = record small_service {
  self = 2;
  socket_nodes = (1, reading_node) ∷ [];
  world = two;
  server = record { slots = fresh_slot ∷ reading_slot ∷ []; alloc = 2 };
}

abbrev idle_behaviour : Behaviour
idle_behaviour = record {
  call = ignore;
  call_text = ignore_text;
  call_id = ignore_id;
  call_data = quiet take_all;
  rehashes = stays;
  on_text = λ session source str s. some s;
  on_rpc_cpp = λ session source str s. some s;
}

reading_slot_at : get_slot reading_service.server 1 ≡ some reading_slot
unfolding get_slot slot_index
reading_slot_at = refl

reading_node_at : find 1 reading_service.socket_nodes ≡ some reading_node
unfolding find
reading_node_at = refl

two-Waiting : Waiting 2 2 4 [] two
unfolding grab handle_grab contents ring
two-Waiting = record {
  found = refl;
  gs = _;
  scheduled = two-Scheduled;
  valid = omega arith;
  cells_are = refl;
  waiting = refl;
}

abbrev two_texts : List Bytes
two_texts = (1 ∷ 2 ∷ []) ∷ (3 ∷ []) ∷ []

handle-reads_example :
    (w : World) × (t : Service) × (rest : Bytes) × (reads two reading_service.server 1 two_texts
      ≡ some w)
    × (handle (reader idle_behaviour take_all) 2 (record reading_service { world = w }) ≡ some t)
    × (contents (queue_of t) ≡ [])
    × Sets reading_service 1 (record reading_node { rbuff = rest }) t
    × (taken take_all (9 ∷ []) two_texts ++ rest ≡ 9 ∷ 1 ∷ 2 ∷ 3 ∷ [])
handle-reads_example =
    handle-reads idle_behaviour take_all (λ b. omega arith) reading_service 1 4 reading_slot
      reading_node 5 [] two_texts reading_slot_at refl refl two-Waiting (omega arith)
      reading_node_at refl

abbrev connecting_server : Server
connecting_server = record {
  slots =
      fresh_slot
      ∷ record fresh_slot { id = 1; opaque = 0; sock = tcp; type = SocketType.connecting }
      ∷ fresh_slot
      ∷ [];
  alloc = 2;
}

connects : socket_connect small_service.server 0 ≡ some (connecting_server, 1)
unfolding socket_connect occupy new_fd find_fd get_slot put_slot slot_index code
connects = refl

-- The socket 1 is read no further: its service hangs up.
close_socket-read_failed_example :
    (w : World) × (t : Service) × (v : World) × (u : Service) × (read_failed two 1 2 (7 ∷ [])
      ≡ some w)
    × (handle idle_behaviour 1 (record reading_service { world = w }) ≡ some t)
    × (t.posted ≡ close_task 1 ∷ [])
    × (SocketServer.Close.close_socket t.world t.server 1
        ≡ some (v, put_slot reading_service.server 1 (give_back reading_slot)))
    × (handle idle_behaviour 1 (record t {
      world = v;
      server = put_slot reading_service.server 1 (give_back reading_slot);
    })
        ≡ some u)
    × (contents (queue_of u) ≡ [])
    × (find 1 u.socket_nodes ≡ none)
    × ((k : ℕ) → k ≢ 1 → find k u.socket_nodes ≡ find k reading_service.socket_nodes)
    × (u.posted ≡ t.posted)
close_socket-read_failed_example =
    close_socket-read_failed idle_behaviour reading_service 1 4 reading_slot reading_node (7 ∷ [])
      reading_slot_at refl refl refl refl refl refl two-Waiting (omega arith) reading_node_at

connect_life_example :
    (t u v : Service) × (connect small_service 2 ≡ some (t, 1))
    × (start_tcp t 1 5 ≡ t)
    × (start_accept t 1 5 ≡ t)
    × (on_socket ignore_id (quiet take_all) stays t (message Message.connect 1 0) ≡ ignore_id 2 1 u)
    × (on_socket ignore_id (quiet take_all) stays u (message Message.connect 1 0) ≡ some u)
    × (start_tcp u 1 5
        ≡ post (put_node u 1 (record (ready_node 1) { on_data = some 5 })) (start_task 0 1))
    × (on_socket ignore_id (quiet take_all) stays u (message Message.close 1 0) ≡ some v)
    × (on_socket ignore_id (quiet take_all) stays v (message Message.incoming 1 0)
        ≡ some (post v (close_task 1)))
connect_life_example =
    connect_life ignore_id (quiet take_all) stays small_service 2 5 connecting_server 1 0
      Message.incoming connects refl
