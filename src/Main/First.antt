-- ===== src/Main/First.antt =====
-- The first context of the program: the logger's.
use cpp_sk.Base.{
  ℕ, ◌+◌, ◌≡◌, ◌≢◌, refl, inl, inr, Bool, true, Option, none, some, [], ◌∷◌, ◌==◌, arith,
  if◌then◌else◌, Bool-cases,
}
use Prim.Native.String.{String}
use cpp_sk.World.{Context, World, handle_of, put, error, find_logger}
use cpp_sk.HandleStorage.{
  Ptr, HandleStorage, handle_register, register_fuel, handle_finename, handle_namehandle,
  lookup_name, handle_grab, claim, scan,
}
use cpp_sk.HandleStorage
use cpp_sk.Handle.{or_harbor, storage_harbor, check_range}
use cpp_sk.Handle.Laws.{or_harbor_lem}
use cpp_sk.Message.{Bytes}
use cpp_sk.MessageQueue
use cpp_sk.GlobalQueue
use cpp_sk.Launch.{create, enroll, launched, new_context, launch_site}
use cpp_sk.Threads.{boot}
use cpp_sk.Modules
use cpp_sk.Main.{init_of, is_registered, logger_world, modules}

-- Its handle, and the storage that holds it.
abbrev pub first_handle : ℕ → ℕ
first_handle harbor = or_harbor 1 (storage_harbor harbor)

abbrev pub first_storage : ℕ → HandleStorage
first_storage harbor = record {
  harbor = storage_harbor harbor;
  handle_index = 2;
  slot = none ∷ some 0 ∷ none ∷ none ∷ [];
  name = [];
}

pub first_handle_pos : (harbor : ℕ) → first_handle harbor ≢ 0
first_handle_pos harbor e = omega (arith, or_harbor_lem 1 harbor (omega arith), e)

pub registered :
    (harbor : ℕ)
    → handle_register register_fuel (boot harbor).storage 0
      ≡ some (first_storage harbor, first_handle harbor)
unfolding boot HandleStorage.new handle_register scan check_range claim
registered harbor = refl

-- The context before its `init`.
abbrev pub bare : ℕ → Context
bare harbor = record new_context {
  handle = first_handle harbor;
  queue = MessageQueue.new (first_handle harbor);
}

abbrev pub ready : ℕ → Context
ready harbor = record (bare harbor) { cb = true; init = true }

-- What its launch leaves.
pub record Launched (harbor : ℕ) (w : World) : Type 0 where
  pub storage : w.storage ≡ first_storage harbor
  pub context : w.contexts 0 ≡ ready harbor
  pub others : (r : Ptr) → r ≢ 0 → w.contexts r ≡ new_context
  pub list : w.global ≡ record { head = some 0; tail = some 0; next = λ p. none }
  pub silent : (site : ℕ) → w.loggers site ≡ 0

abbrev enrolled : ℕ → World
enrolled harbor =
    put
      (record (put (record (boot harbor) { fresh = 0 + 1; total = (boot harbor).total + 1 }) 0
        new_context) { storage = first_storage harbor })
      0 (bare harbor)

enroll_first : (harbor : ℕ) → enroll (boot harbor) ≡ some (enrolled harbor, 0)
unfolding enroll boot put
enroll_first harbor = rw (registered harbor, enroll) refl

abbrev started : ℕ → World
started harbor = logger_world 0 (enrolled harbor)

abbrev marked : ℕ → World
marked harbor = put (started harbor) 0 (record ((started harbor).contexts 0) { init = true })

abbrev listed : ℕ → World
listed harbor = record (marked harbor) {
  global = record { head = some 0; tail = some 0; next = λ p. none };
}

listed-Launched : (harbor : ℕ) → Launched harbor (listed harbor)
unfolding put logger_world boot new_context
listed-Launched harbor = record {
  storage = refl;
  context = refl;
  others = λ r n. ground (arith, n);
  list = refl;
  silent = λ site. refl;
}

-- Without a name there is no logger, and a line of the log goes nowhere.
unnamed :
    (harbor : ℕ) (w : World) (site source : ℕ) (msg : Bytes)
    → Launched harbor w
    → (w' : World) × (error w site source msg ≡ some w') × Launched harbor w'
unfolding error find_logger handle_finename lookup_name
unnamed harbor w site source msg l =
    let none_found : find_logger w site ≡ 0 = rw (l.storage, l.silent site, find_logger) refl in
    (
      record w { loggers = λ s. if s == site then find_logger w site else w.loggers s },
      ground (arith, none_found),
      record {
        storage = l.storage;
        context = l.context;
        others = l.others;
        list = l.list;
        silent = λ s. ground (arith, none_found, l.silent s);
      },
    )

push_first : (harbor : ℕ) → GlobalQueue.push (marked harbor).global 0 ≡ some (listed harbor).global
unfolding GlobalQueue.push boot GlobalQueue.new put logger_world
push_first harbor = refl

module _ (server_init client_init : Ptr → Bytes → World → Option (World × Bool))
    (use_count : World → Ptr → ℕ) (launch_text : String → Bytes → Bytes)
    (failed_text : String → Bytes) (name_of : Bytes → String) where
  abbrev pub init_all : String → Ptr → Bytes → World → Option (World × Bool)
  init_all = init_of server_init client_init use_count launch_text failed_text name_of

  init_first :
      (param : Bytes) (w : World) → init_all "logger" 0 param w ≡ some (logger_world 0 w, true)
  unfolding init_of modules Modules.create
  init_first param w = refl

  launched_first :
      (harbor : ℕ) (param : Bytes)
      → (w : World) × (launched is_registered init_all use_count launch_text failed_text
            (started harbor)
            0
            "logger"
            param
          ≡ some w)
        × Launched harbor w
  unfolding launched
  launched_first harbor param = elim (Bool-cases (use_count (listed harbor) 0 == 1)) [
    | inl one ↦ (listed harbor, ground (arith, push_first harbor, one), listed-Launched harbor)
    | inr more ↦
        let (w, e, l) =
          unnamed harbor (listed harbor) launch_site (handle_of (listed harbor) 0)
            (launch_text "logger" param) (listed-Launched harbor) in
        (w, ground (arith, push_first harbor, more, e), l)
  ]

  -- The launch of the logger as the first context.
  pub create_first :
      (harbor : ℕ) (param : Bytes)
      → (w : World) × (create is_registered init_all use_count launch_text failed_text
            (boot harbor)
            "logger"
            param
          ≡ some (w, 0))
        × Launched harbor w
  unfolding create is_registered modules Modules.create
  create_first harbor param =
      let (w, e, l) = launched_first harbor param in
      (w, ground (arith, enroll_first harbor, init_first param (enrolled harbor), e), l)
