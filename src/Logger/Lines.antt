-- ===== src/Logger/Lines.antt =====
-- A line of the log from the call of `error` to the file.
use cpp_sk.Base.{
  ℕ, ◌+◌, ◌<◌, ◌≡◌, refl, sym, ap, ◌∙◌, some, List, [], ◌∷◌, ◌++◌, arith, if◌then◌else◌, length,
  length-append, append_assoc, append-nil,
}
use cpp_sk.World.{World}
use cpp_sk.World.Log.{
  Logging, Line, line_message, messages, messages-append, length-messages, log_all, log_all_lem,
}
use cpp_sk.HandleStorage.{Ptr}
use cpp_sk.Message.{Bytes, SkynetMessage}
use cpp_sk.MessageQueue.{MessageQueue, mq_pop}
use cpp_sk.MessageQueue.Contents.{IsValid, contents}
use cpp_sk.MessageQueue.Pop.{Pops, pop_Pops}
use cpp_sk.Service.{Behaviour}
use cpp_sk.Logger.{Logger, output, on_text, cb, rounds}

module _ (zoned : ℕ → Bytes) where
  -- The lines as they stand in the file, each with its time.
  abbrev pub written : List ℕ → List Line → Bytes
  written (now ∷ times) (x ∷ xs) = output zoned now x.source x.msg ++ written times xs
  written _ _ = []

  -- What the lines make of the logger.
  abbrev pub with_lines : Bytes → Logger → Logger
  with_lines text l = record l {
    file = if l.fp then l.file ++ text else l.file;
    out = l.out ++ text;
  }

  rounds_step :
      (b : Behaviour) (now : ℕ) (times : List ℕ) (q : MessageQueue) (l : Logger) (x : Line)
      (rest : List SkynetMessage)
      → Pops q (line_message x.source x.msg) rest (mq_pop q)
      → rounds zoned b (now ∷ times) q l
        ≡ rounds zoned b times (mq_pop q).1 (with_lines (output zoned now x.source x.msg) l)
  unfolding rounds cb on_text
  rounds_step b now times q l x rest p = rw (p.first, rounds) refl

  with_both : (a c : Bytes) (l : Logger) → with_lines c (with_lines a l) ≡ with_lines (a ++ c) l
  with_both a c l = ground (arith, append_assoc l.out a c, append_assoc l.file a c)

  with_none : (l : Logger) → with_lines [] l ≡ l
  with_none l = ground (arith, append-nil l.out, append-nil l.file)

  rounds_lem :
      (b : Behaviour) (times : List ℕ) (xs : List Line) (q : MessageQueue) (l : Logger)
      → IsValid q
      → contents q ≡ messages xs
      → length times ≡ length xs
      → (q' : MessageQueue) × (rounds zoned b times q l
          ≡ some (q', with_lines (written times xs) l))
        × (contents q' ≡ [])
  unfolding rounds
  rounds_lem b [] [] q l v e n = (q, sym (ap (λ k. some (q, k)) (with_none l)), e)
  rounds_lem b [] (x ∷ xs) q l v e n = absurd (omega (arith, n))
  rounds_lem b (now ∷ times) [] q l v e n = absurd (omega (arith, n))
  rounds_lem b (now ∷ times) (x ∷ xs) q l v e n =
      let p = pop_Pops q (line_message x.source x.msg) (messages xs) v e in
      let l' = with_lines (output zoned now x.source x.msg) l in
      let (q', run, empty) =
        rounds_lem b times xs (mq_pop q).1 l' p.valid p.left (omega (arith, n)) in
      (
        q',
        rounds_step b now times q l x (messages xs) p
            ∙ run
            ∙ ap (λ k. some (q', k))
                (with_both (output zoned now x.source x.msg) (written times xs) l),
        empty,
      )

  -- Lines that any threads log one after the other, while the lines `ys` wait in the queue of the
  -- logger, which has room for all of them and is the one that its name leads to: each call of `error`
  -- succeeds, and as many messages as there are lines then hand the logger exactly these, in order,
  -- which it appends to `stdout`, and to its file where it has one, each with its time and its source.
  pub logged-written :
      (b : Behaviour) (p : Ptr) (cells : ℕ) (w : World) (ys xs : List Line) (times : List ℕ)
      (l : Logger)
      → Logging p cells (messages ys) w
      → length ys + length xs < cells
      → length times ≡ length ys + length xs
      → (w' : World) × (q' : MessageQueue) × (log_all w xs ≡ some w')
        × (rounds zoned b times (w'.contexts p).queue l
            ≡ some (q', with_lines (written times (ys ++ xs)) l))
        × (contents q' ≡ [])
  logged-written b p cells w ys xs times l ready room n =
      let sizes = length-messages ys in
      let (w', run, left) = log_all_lem p cells (messages ys) w xs ready (omega (arith, sizes)) in
      let (q', writes, empty) =
        rounds_lem b times (ys ++ xs) (w'.contexts p).queue l left.box.valid
          (left.box.waiting ∙ sym (messages-append ys xs))
          (omega (arith, n, length-append {0} ys xs)) in
      (w', q', run, writes, empty)
