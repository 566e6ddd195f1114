-- ===== src/Launch/Tests.antt =====
-- The launch of a first context.
use cpp_sk.Base.{◌*◌, ◌^◌, ◌≡◌, refl, true, false, none, some, [], ◌∷◌, arith}
use cpp_sk.World.{World, grab}
use cpp_sk.Launch.{enroll}
use cpp_sk.Launch.Enroll.{grab-enroll}
use cpp_sk.HandleStorage.Slots.{IsValid}
use cpp_sk.MessageQueue

abbrev first_world : World
first_world = record {
  storage = record {
    harbor = 1 * 2 ^ 24;
    handle_index = 1;
    slot = none ∷ none ∷ none ∷ none ∷ [];
    name = [];
  };
  contexts = λ p. record {
    cb = false;
    queue = record {
      handle = 0;
      head = 0;
      tail = 0;
      release = false;
      in_global = true;
      overload = 0;
      overload_threshold = 1024;
      queue = [];
    };
    handle = 0;
    session_id = 0;
    message_count = 0;
    init = false;
    endless = false;
  };
  global = record { head = none; tail = none; next = λ p. none };
  loggers = λ s. 0;
  total = 0;
  fresh = 1;
}

first-IsValid : IsValid first_world.storage
first-IsValid = record {
  bits = 2;
  size = refl;
  bits_le = omega arith;
  index_pos = omega arith;
  index_le = omega arith;
  node = 1;
  node_lt = omega arith;
  high = refl;
}

grab-enroll_example :
    (w : World) × (enroll first_world ≡ some (w, 1))
    × (grab w (w.contexts 1).handle ≡ some 1)
    × ((w.contexts 1).queue ≡ MessageQueue.new (w.contexts 1).handle)
grab-enroll_example = grab-enroll first_world first-IsValid (omega arith)
