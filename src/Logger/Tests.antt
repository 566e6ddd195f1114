-- ===== src/Logger/Tests.antt =====
-- Two lines of the log, from two instances of `error`.
use cpp_sk.Base.{ℕ, ◌≡◌, refl, inl, true, false, some, List, [], ◌∷◌, arith}
use cpp_sk.World.{World, grab}
use cpp_sk.World.Tests.{two, two-Scheduled}
use cpp_sk.World.Log.{Logging, Line, log_all}
use cpp_sk.HandleStorage.{handle_grab, handle_finename, lookup_name}
use cpp_sk.Message.{Bytes}
use cpp_sk.MessageQueue.{MessageQueue}
use cpp_sk.MessageQueue.Contents.{contents, ring}
use cpp_sk.Service.{Behaviour}
use cpp_sk.Timer
use cpp_sk.Logger.{Logger, rounds, output, hex}
use cpp_sk.Logger.Lines.{written, with_lines, logged-written}

abbrev pub stamp : ℕ → Bytes
stamp now = now ∷ []

abbrev pub plain : Behaviour
plain = record {
  call = λ c s. some s;
  call_text = λ c t s. some s;
  call_id = λ c id s. some s;
  call_data = λ c id t s. some (s, 0);
  rehashes = λ m k. false;
  on_text = λ e r t s. some s;
  on_rpc_cpp = λ e r t s. some s;
}

abbrev pub console : Logger
console = record {
  service = record {
    self = 2;
    socket_nodes = [];
    timeout_nodes = [];
    response_cbs = [];
    world = two;
    timer = Timer.new 0;
    server = record { slots = []; alloc = 1 };
    posted = [];
  };
  fp = true;
  file = 7 ∷ [];
  out = [];
}

abbrev pub two_lines : List Line
two_lines =
    record { site = 0; source = 1; msg = 97 ∷ [] }
    ∷ record { site = 5; source = 0; msg = 98 ∷ [] }
    ∷ []

two-Logging : Logging 2 4 [] two
unfolding handle_finename lookup_name grab handle_grab contents ring
two-Logging = record {
  handle = 2;
  own = refl;
  named = refl;
  real = omega arith;
  known = λ site. inl refl;
  box = record {
    found = refl;
    gs = _;
    scheduled = two-Scheduled;
    valid = omega arith;
    cells_are = refl;
    waiting = refl;
  };
}

a_line :
    output stamp 3 0xab (104 ∷ [])
    ≡ 91 ∷ 3 ∷ 93 ∷ 91 ∷ 48 ∷ 48 ∷ 48 ∷ 48 ∷ 48 ∷ 48 ∷ 97 ∷ 98 ∷ 93 ∷ 104 ∷ 10 ∷ []
unfolding output hex
a_line = refl

logged-written_example :
    (w' : World) × (q' : MessageQueue) × (log_all two two_lines ≡ some w')
    × (rounds stamp plain (3 ∷ 4 ∷ []) (w'.contexts 2).queue console
        ≡ some (q', with_lines stamp (written stamp (3 ∷ 4 ∷ []) two_lines) console))
    × (contents q' ≡ [])
logged-written_example =
    logged-written stamp plain 2 4 two [] two_lines (3 ∷ 4 ∷ []) console two-Logging (omega arith)
      (omega arith)
