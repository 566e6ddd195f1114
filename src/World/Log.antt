-- ===== src/World/Log.antt =====
-- `error` where a context is named "logger": its lines wait in that context's queue, in order.
use cpp_sk.Base.{
  ℕ, ◌+◌, ◌<◌, ◌≡◌, ◌≢◌, refl, sym, ap, subst, ◌∙◌, ◌⊎◌, inl, inr, Bool, true, Option, none, some,
  List, [], ◌∷◌, ◌++◌, ◌==◌, length, arith, if◌then◌else◌, Bool-cases, append_assoc, append-nil,
  length-append,
}
use cpp_sk.World.{World, handle_of, grab, find_logger, context_push, publish, put_queue, put, error}
use cpp_sk.World.Waiting.{Waiting, context_push-Waiting}
use cpp_sk.HandleStorage.{Ptr, handle_finename}
use cpp_sk.Message.{Bytes, SkynetMessage, string, text}

-- The message of a line.
abbrev pub line_message : ℕ → Bytes → SkynetMessage
line_message source msg = record { source = source; session = 0; content = string msg; t = text }

-- The context `p` is the logger, and `ms` wait in its queue, whose deque has `cells` places.
pub record Logging (p : Ptr) (cells : ℕ) (ms : List SkynetMessage) (w : World) : Type 0 where
  pub handle : ℕ
  pub own : handle_of w p ≡ handle
  pub named : handle_finename w.storage "logger" ≡ handle
  pub real : handle ≢ 0
  pub known : (site : ℕ) → (w.loggers site ≡ 0) ⊎ (w.loggers site ≡ handle)
  pub box : Waiting p handle cells ms w

push_loggers :
    (w w' : World) (h : ℕ) (m : SkynetMessage) (ok : Bool)
    → context_push w h m ≡ some (w', ok)
    → w'.loggers ≡ w.loggers
unfolding context_push publish put_queue put
push_loggers w w' h m ok e = ground (arith, e)

finds :
    (p : Ptr) (cells : ℕ) (ms : List SkynetMessage) (w : World) (site : ℕ)
    → (l : Logging p cells ms w) → find_logger w site ≡ l.handle
unfolding find_logger
finds p cells ms w site l = elim (l.known site) [
  | inl e ↦ ground (arith, e, l.named)
  | inr e ↦ ground (arith, e, l.named)
]

-- The static variable of an instance does not matter to a push.
abbrev remembered : World → ℕ → ℕ → World
remembered w site logger = record w { loggers = λ s. if s == site then logger else w.loggers s }

-- A line of the log, where there is room in the deque.
pub error_logged :
    (p : Ptr) (cells : ℕ) (ms : List SkynetMessage) (w : World) (site source : ℕ) (msg : Bytes)
    → Logging p cells ms w
    → length ms + 1 < cells
    → (w' : World) × (error w site source msg ≡ some w')
      × Logging p cells (ms ++ line_message source msg ∷ []) w'
unfolding error grab
error_logged p cells ms w site source msg l room =
    let m = line_message source msg in
    let w0 = remembered w site l.handle in
    let b : Waiting p l.handle cells ms w0 = record {
      found = l.box.found;
      gs = l.box.gs;
      scheduled = record { holds = l.box.scheduled.holds; idle = l.box.scheduled.idle };
      valid = l.box.valid;
      cells_are = l.box.cells_are;
      waiting = l.box.waiting;
    } in
    let (w', done, d, b') = context_push-Waiting p l.handle cells ms w0 m b room in
    let found = finds p cells ms w site l in
    (
      w',
      ground (arith, found, l.real, done),
      record {
        handle = l.handle;
        own = d.same_handles.handle p ∙ l.own;
        named = ap (λ st. handle_finename st "logger") d.same_storage ∙ l.named;
        real = l.real;
        known = λ s.
            let now : w'.loggers s ≡ (if s == site then l.handle else w.loggers s) =
              ap (λ f. f s) (push_loggers w0 w' l.handle m true done) in
            elim (Bool-cases (s == site)) [
              | inl same ↦ inr (ground (arith, now, same))
              | inr differs ↦
                  let before : w'.loggers s ≡ w.loggers s = ground (arith, now, differs) in
                  elim (l.known s) [ inl e ↦ inl (before ∙ e) | inr e ↦ inr (before ∙ e) ]
            ];
        box = b';
      },
    )

-- A line of the log as its caller gives it: the instance of `error`, the source, and the text.
pub record Line : Type 0 where
  pub site : ℕ
  pub source : ℕ
  pub msg : Bytes

abbrev pub messages : List Line → List SkynetMessage
messages [] = []
messages (x ∷ xs) = line_message x.source x.msg ∷ messages xs

pub messages-append : (xs ys : List Line) → messages (xs ++ ys) ≡ messages xs ++ messages ys
messages-append [] ys = refl
messages-append (x ∷ xs) ys = ap (λ ms. line_message x.source x.msg ∷ ms) (messages-append xs ys)

pub length-messages : (xs : List Line) → length (messages xs) ≡ length xs
length-messages [] = refl
length-messages (x ∷ xs) = omega (arith, length-messages xs)

-- Lines one after the other, from any thread.
unfoldable pub log_all : World → List Line → Option World
log_all w [] = some w
log_all w (x ∷ xs) = elim (error w x.site x.source x.msg) [ none ↦ none | some w' ↦ log_all w' xs ]

log_all_step :
    (w w1 w2 : World) (x : Line) (xs : List Line)
    → error w x.site x.source x.msg ≡ some w1
    → log_all w1 xs ≡ some w2
    → log_all w (x ∷ xs) ≡ some w2
unfolding log_all
log_all_step w w1 w2 x xs e e2 = ground (arith, e, e2)

pub log_all_lem :
    (p : Ptr) (cells : ℕ) (ms : List SkynetMessage) (w : World) (xs : List Line)
    → Logging p cells ms w
    → length ms + length xs < cells
    → (w' : World) × (log_all w xs ≡ some w') × Logging p cells (ms ++ messages xs) w'
unfolding log_all
log_all_lem p cells ms w [] l room =
    (w, refl, subst (λ k. Logging p cells k w) (sym (append-nil ms)) l)
log_all_lem p cells ms w (x ∷ xs) l room =
    let m = line_message x.source x.msg in
    let (w1, e, l1) = error_logged p cells ms w x.site x.source x.msg l (omega arith) in
    let (w2, e2, l2) =
      log_all_lem p cells (ms ++ m ∷ []) w1 xs l1 (omega (arith, length-append {0} ms (m ∷ []))) in
    (
      w2,
      log_all_step w w1 w2 x xs e e2,
      subst (λ k. Logging p cells k w2) (append_assoc ms (m ∷ []) (messages xs)) l2,
    )
