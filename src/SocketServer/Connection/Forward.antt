-- ===== src/SocketServer/Connection/Forward.antt =====
-- Moves of `poll` that leave less to do.
use cpp_sk.Base.{
  ℕ, ◌+◌, ◌≤◌, ◌<◌, ◌≡◌, refl, sym, ap, ◌∙◌, inl, inr, Bool, true, false, not, ◌||◌, Option, some,
  none, List, [], ◌∷◌, ◌++◌, length, drop, arith, if◌then◌else◌, length-append, ◌==◌,
}
use cpp_sk.World.{World}
use cpp_sk.Message.{Bytes}
use cpp_sk.Socket.{SocketSlot, Server, get_slot, put_slot}
use cpp_sk.Socket.Slots.{get_slot-put_slot}
use cpp_sk.SocketServer.Send.{send_begin, send_end, enqueue}
use cpp_sk.SocketServer.Send.Order.{List-cases}
use cpp_sk.SocketServer.Close.{close_socket}
use cpp_sk.SocketServer.Connection.{
  Posted, writes, closes, Connection, Undisturbed, is_closing, Move, begin, written, finish,
  close_run,
}

-- What is left to do: a send is one more buffer and one more coroutine.
abbrev pub backlog : List Posted → ℕ
backlog [] = 0
backlog (writes offset buf ∷ ps) = backlog ps + 3
backlog (closes ∷ ps) = backlog ps + 1

abbrev pub buffers : Option SocketSlot → ℕ
buffers none = 0
buffers (some slot) = length slot.wlist

abbrev pub work : ℕ → Connection → ℕ
work id c = backlog c.posted + buffers (get_slot c.server id) + (if c.writing then 1 else 0)

-- The slot is marked to close, or is no longer this connection's.
abbrev pub is_over : ℕ → Option SocketSlot → Bool
is_over id none = false
is_over id (some slot) = slot.close || not (slot.id == id)

-- A close waits, or has come.
abbrev pub is_ending : ℕ → Connection → Bool
is_ending id c = is_closing c.posted || is_over id (get_slot c.server id)

-- A move that leaves less to do, and no close undone.
pub record Forward (id : ℕ) (c : Connection) : Type 0 where
  pub after : Connection
  pub made : Move id c after
  pub less : work id after < work id c
  pub same : after.accepted ≡ c.accepted
  pub well : Undisturbed c → Undisturbed after
  pub ending : is_ending id c ≡ true → is_ending id after ≡ true

length-enqueue :
    (ws : List Bytes) (offset : ℕ) (buf : Bytes) → length (enqueue ws offset buf) ≤ length ws + 1
unfolding enqueue
length-enqueue ws offset buf =
    ground (arith, length-append {0} ws (buf ∷ []), length-append {0} ws (drop offset buf ∷ []))

-- What is left to do, from a slot that is at hand.
work_at :
    (id : ℕ) (c : Connection) (slot : SocketSlot)
    → get_slot c.server id ≡ some slot
    → work id c ≡ backlog c.posted + length slot.wlist + (if c.writing then 1 else 0)
work_at id c slot at = ap (λ o. backlog c.posted + buffers o + (if c.writing then 1 else 0)) at

is_ending_at :
    (id : ℕ) (c : Connection) (slot : SocketSlot)
    → get_slot c.server id ≡ some slot
    → is_ending id c ≡ is_closing c.posted || is_over id (some slot)
is_ending_at id c slot at = ap (λ o. is_closing c.posted || is_over id o) at

module _ (id : ℕ) (c : Connection) (slot : SocketSlot) (at : get_slot c.server id ≡ some slot) where
  -- A coroutine that writes.
  pub writing-Forward :
      (slot' : SocketSlot)
      → c.writing ≡ true
      → send_end c.world slot none ≡ some (c.world, slot')
      → length slot'.wlist ≤ length slot.wlist
      → (is_over id (some slot) ≡ true → is_over id (some slot') ≡ true)
      → Forward id c
  writing-Forward slot' on ends le over = elim (List-cases slot.wlist) [
    | inl e ↦
        let d : Connection = record c { server = put_slot c.server id slot'; writing = false } in
        record {
          after = d;
          made = finish on at e ends;
          less =
              let before = work_at id c slot at in
              let now = work_at id d slot' (get_slot-put_slot c.server id slot slot' at) in
              ground (arith, before, now, on, le);
          same = refl;
          well = λ u. u;
          ending = λ yes_.
              let before = is_ending_at id c slot at in
              let now = is_ending_at id d slot' (get_slot-put_slot c.server id slot slot' at) in
              ground (arith, before, now, yes_, over);
        }
    | inr (b, bs, e) ↦
        let next : SocketSlot = record slot { wlist = bs } in
        let d : Connection = record c { server = put_slot c.server id next; wire = c.wire ++ b } in
        record {
          after = d;
          made = written on at e;
          less =
              let before = work_at id c slot at in
              let now = work_at id d next (get_slot-put_slot c.server id slot next at) in
              let shorter = ap length e in omega (arith, before, now, shorter);
          same = refl;
          well = λ u. u;
          ending = λ yes_.
              is_ending_at id d next (get_slot-put_slot c.server id slot next at)
              ∙ sym (is_ending_at id c slot at)
              ∙ yes_;
        }
  ]

  -- A coroutine that starts.
  pub begin-Forward :
      (offset : ℕ) (buf : Bytes) (ps : List Posted) (b : Bool)
      → c.posted ≡ writes offset buf ∷ ps
      → c.writing ≡ false
      → send_begin slot id offset buf
        ≡ (record slot { wlist = enqueue slot.wlist offset buf; locked = true }, b)
      → Forward id c
  unfolding is_closing
  begin-Forward offset buf ps b e off run =
      let next : SocketSlot = (send_begin slot id offset buf).0 in
      let d : Connection = record c {
        posted = ps;
        server = put_slot c.server id next;
        writing = c.writing || (send_begin slot id offset buf).1;
      } in
      record {
        after = d;
        made = begin e at;
        less =
            let before = work_at id c slot at in
            let now = work_at id d next (get_slot-put_slot c.server id slot next at) in
            let longer : length next.wlist ≤ length slot.wlist + 1 =
              rw run (length-enqueue slot.wlist offset buf) in
            let fewer = ap backlog e in ground (arith, before, now, longer, fewer, off);
        same = refl;
        well = λ u. u;
        ending = λ yes_.
            let before = is_ending_at id c slot at in
            let now = is_ending_at id d next (get_slot-put_slot c.server id slot next at) in
            ground (arith, before, now, ap is_closing e, yes_, run);
      }

  -- A close.
  pub close-Forward :
      (ps : List Posted) (w : World) (s : Server) (slot' : SocketSlot)
      → c.posted ≡ closes ∷ ps
      → close_socket c.world c.server id ≡ some (w, s)
      → get_slot s id ≡ some slot'
      → length slot'.wlist ≤ length slot.wlist
      → is_over id (some slot') ≡ true
      → Forward id c
  close-Forward ps w s slot' e run at' le over =
      let d : Connection = record c { posted = ps; world = w; server = s } in
      record {
        after = d;
        made = close_run e run;
        less =
            let before = work_at id c slot at in
            let now = work_at id d slot' at' in
            let fewer = ap backlog e in omega (arith, before, now, fewer, le);
        same = refl;
        well = λ u. u;
        ending = λ yes_. let now = is_ending_at id d slot' at' in ground (arith, now, over);
      }
