-- ===== src/SocketServer/Tests.antt =====
-- The theorems on the socket server at concrete slots.
use cpp_sk.Base.{◌≡◌, refl, true, false, none, some, [], ◌∷◌}
use cpp_sk.World.{World, grab, context_push}
use cpp_sk.Socket.{
  SocketSlot, fresh_slot, Server, slot_index, get_slot, put_slot, listen, connected, tcp, acceptor,
}
use cpp_sk.SocketServer.{forward_message}
use cpp_sk.SocketServer.Close.{close_socket}
use cpp_sk.SocketServer.Accept.{accept_failed}
use cpp_sk.SocketServer.Close.Twice.{close_run, others, none_yet, and_then, close-accept_failed}
use cpp_sk.SocketServer.Connection.Closes.{close_marked}
use cpp_sk.HandleStorage.{handle_grab}
use cpp_sk.SocketServer.{worded}

abbrev empty_world : World
empty_world = record {
  storage = record { harbor = 0; handle_index = 1; slot = none ∷ []; name = [] };
  contexts = λ p. record {
    cb = false;
    queue = record {
      handle = 0;
      head = 0;
      tail = 0;
      release = false;
      in_global = true;
      overload = 0;
      overload_threshold = 1024;
      queue = [];
    };
    handle = 0;
    session_id = 0;
    message_count = 0;
    init = false;
    endless = false;
  };
  global = record { head = none; tail = none; next = λ p. none };
  loggers = λ s. 0;
  total = 0;
  fresh = 1;
}

abbrev stream : SocketSlot
stream = record fresh_slot { id = 1; opaque = 9; sock = tcp; type = connected }

abbrev listener : SocketSlot
listener = record fresh_slot { id = 1; opaque = 9; sock = acceptor; type = listen }

abbrev listening : Server
listening = record { slots = fresh_slot ∷ listener ∷ []; alloc = 2 }

abbrev crashed : Server
crashed = record { slots = fresh_slot ∷ record listener { close = true } ∷ []; alloc = 2 }

crash : accept_failed empty_world listening 1 (33 ∷ []) ≡ some (empty_world, crashed)
unfolding accept_failed forward_message context_push grab handle_grab get_slot put_slot slot_index
    worded
crash = refl

-- A close runs, and then a step that leaves the slots as they are.
close-accept_failed_example :
    (get_slot crashed 1 ≡ some (record listener { close = true }))
    × ((u : World) → close_socket u crashed 1 ≡ some (u, crashed))
unfolding get_slot slot_index
close-accept_failed_example =
    close-accept_failed empty_world empty_world listening crashed 1 listener (33 ∷ []) refl refl
      crash
      (and_then
        (and_then none_yet (
          close_run
            (close_marked empty_world crashed 1 (record listener { close = true }) refl refl)))
        (others {w = empty_world} {w' = empty_world} {s = crashed} {s' = crashed} refl))

abbrev busy : SocketSlot
busy = record stream { wlist = (1 ∷ []) ∷ []; locked = true }
