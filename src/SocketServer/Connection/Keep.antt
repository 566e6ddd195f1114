-- ===== src/SocketServer/Connection/Keep.antt =====
-- Every move keeps the stage.
use cpp_sk.Base.{
  ℕ, ◌≡◌, refl, sym, ap, subst, ◌∙◌, ◌≢◌, inl, inr, Bool, true, false, not, ◌||◌, some, none, List,
  [], ◌∷◌, ◌++◌, arith, append_assoc, append-nil, Bool-cases,
}
use cpp_sk.World.{World}
use cpp_sk.Message.{Bytes, minus_one}
use cpp_sk.Socket.{SocketSlot, get_slot, put_slot, connected, check_can_write, code, give_back}
use cpp_sk.Socket.Slots.{get_slot-put_slot}
use cpp_sk.SocketServer.Send.{send_begin, send_end, enqueue}
use cpp_sk.SocketServer.Send.Order.{flatten, rest_of}
use cpp_sk.SocketServer.Connection.{Posted, writes, closes, Connection, rests, Match}
use cpp_sk.SocketServer.Connection.Shape.{
  Open, Closing, Stage, opened, closing, gone, Tidy, Quiet, rests-Quiet,
}
use cpp_sk.SocketServer.Connection.Closes.{half_closed, closed}
use cpp_sk.SocketServer.Connection.Wire.{Match-eq, Match-trans, flatten-enqueue}

-- A coroutine that starts on an open connection queues its bytes, and the lock is held after it.
pub begin_open :
    (slot : SocketSlot) (id offset : ℕ) (buf : Bytes)
    → slot.id ≡ id
    → slot.close ≡ false
    → slot.type ≡ connected
    → send_begin slot id offset buf
      ≡ (record slot { wlist = enqueue slot.wlist offset buf; locked = true }, not slot.locked)
unfolding send_begin check_can_write code
begin_open slot id offset buf own unmarked type = ground (arith, own, unmarked, type)

-- The loop's end on a socket that is open.
pub end_open :
    (w : World) (slot : SocketSlot)
    → slot.close ≡ false
    → slot.type ≡ connected
    → send_end w slot none ≡ some (w, record slot { locked = false })
unfolding send_end code
end_open w slot unmarked type = ground (arith, unmarked, type)

pub end_closing :
    (w : World) (slot : SocketSlot)
    → slot.close ≡ true
    → send_end w slot none ≡ some (w, give_back (record slot { locked = false }))
unfolding send_end code
end_closing w slot marked = ground (arith, marked)

-- A row of bytes that moves from one part to the next.
pub Match-move :
    (careful : Bool) (xs ys c : Bytes) → xs ≡ ys → Match careful ys c → Match careful xs c
Match-move careful xs ys c e m = Match-trans careful xs ys c (Match-eq careful xs ys e) m

module _ (careful : Bool) (id : ℕ) (c : Connection) (slot : SocketSlot)
    (at : get_slot c.server id ≡ some slot) (o : Open careful id c slot) where
  pub begin-Stage :
      (offset : ℕ) (buf : Bytes) (ps : List Posted)
      → c.posted ≡ writes offset buf ∷ ps
      → Stage careful id (record c {
        posted = ps;
        server = put_slot c.server id (send_begin slot id offset buf).0;
        writing = c.writing || (send_begin slot id offset buf).1;
      })
  unfolding rests
  begin-Stage offset buf ps e =
      let next : SocketSlot = record slot {
        wlist = enqueue slot.wlist offset buf;
        locked = true;
      } in
      let started = begin_open slot id offset buf o.own o.unmarked o.type in
      rw started (
        opened next (get_slot-put_slot c.server id slot next at) (record {
          own = o.own;
          stream = o.stream;
          type = o.type;
          unmarked = o.unmarked;
          held = ground (arith, o.held);
          settled = λ f. ground (arith, o.held, f);
          tidy = subst Tidy e o.tidy;
          bytes =
              Match-move careful _ _ c.accepted
                (ap (λ l. c.wire ++ (l ++ rests ps)) (flatten-enqueue slot.wlist offset buf)
                  ∙ ap (λ l. c.wire ++ l)
                      (append_assoc (flatten slot.wlist) (rest_of offset buf) (rests ps)))
                (subst (λ l. Match careful (c.wire ++ (flatten slot.wlist ++ rests l)) c.accepted) e
                  o.bytes);
        }))

  pub written-Stage :
      (b : Bytes) (bs : List Bytes)
      → c.writing ≡ true
      → slot.wlist ≡ b ∷ bs
      → Stage careful id (record c {
        server = put_slot c.server id (record slot { wlist = bs });
        wire = c.wire ++ b;
      })
  written-Stage b bs on e =
      let next : SocketSlot = record slot { wlist = bs } in
      opened next (get_slot-put_slot c.server id slot next at) (record {
        own = o.own;
        stream = o.stream;
        type = o.type;
        unmarked = o.unmarked;
        held = o.held;
        settled = λ f. cc;
        tidy = o.tidy;
        bytes = Match-move careful _ _ c.accepted (simp (append_assoc)) (
            subst (λ l. Match careful (c.wire ++ (flatten l ++ rests c.posted)) c.accepted) e
              o.bytes);
      })

  pub finish-Stage :
      (slot' : SocketSlot) (w : World)
      → slot.wlist ≡ []
      → send_end c.world slot none ≡ some (w, slot')
      → Stage careful id
          (record c { world = w; server = put_slot c.server id slot'; writing = false })
  finish-Stage slot' w e h =
      let next : SocketSlot = record slot { locked = false } in
      let same : slot' ≡ next = ground (arith, h, end_open c.world slot o.unmarked o.type) in
      rw same (
        opened next (get_slot-put_slot c.server id slot next at) (record {
          own = o.own;
          stream = o.stream;
          type = o.type;
          unmarked = o.unmarked;
          held = refl;
          settled = λ f. e;
          tidy = o.tidy;
          bytes = o.bytes;
        }))

  -- The stage after a close: the slot is marked while a coroutine writes, and given back otherwise.
  pub close-Stage :
      (w : World) (ps : List Posted)
      → id ≢ minus_one
      → c.posted ≡ closes ∷ ps
      → Stage careful id
          (record c { posted = ps; world = w; server = put_slot c.server id (closed slot) })
  unfolding give_back rests
  close-Stage w ps real e =
      let q : Quiet ps = subst Tidy e o.tidy in
      let none_left : rests c.posted ≡ [] = rw e (rests-Quiet ps q) in
      let m : Match careful (c.wire ++ flatten slot.wlist) c.accepted =
        Match-move careful _ _ c.accepted
          (ap (λ l. c.wire ++ l)
            (sym (ap (λ l. flatten slot.wlist ++ l) none_left ∙ append-nil (flatten slot.wlist))))
          o.bytes in
      let becomes = λ (x : SocketSlot).
        Stage careful id (record c { posted = ps; world = w; server = put_slot c.server id x }) in
      elim (Bool-cases c.writing) [
        | inl on ↦
            let locked : slot.locked ≡ true = o.held ∙ on in
            let becomes_true : closed slot ≡ half_closed slot = ground (arith, locked) in
            subst becomes (sym becomes_true) (
              closing (half_closed slot) (get_slot-put_slot c.server id slot (half_closed slot) at)
                (record {
                  own = o.own;
                  stream = o.stream;
                  marked = refl;
                  held = locked;
                  busy = on;
                  quiet = q;
                  bytes = m;
                }))
        | inr off ↦
            let locked : slot.locked ≡ false = o.held ∙ off in
            let empty : slot.wlist ≡ [] = o.settled off in
            let becomes_false : closed slot ≡ give_back slot = ground (arith, locked) in
            subst becomes (sym becomes_false) (
              gone (give_back slot) (get_slot-put_slot c.server id slot (give_back slot) at)
                (record {
                  foreign = λ f. real (sym f);
                  idle = off;
                  quiet = q;
                  bytes =
                      Match-move careful _ _ c.accepted
                        (sym (ap (λ l. c.wire ++ flatten l) empty ∙ append-nil c.wire)) m;
                }))
      ]

module _ (careful : Bool) (id : ℕ) (c : Connection) (slot : SocketSlot)
    (at : get_slot c.server id ≡ some slot) (o : Closing careful id c slot) where
  pub written-closing :
      (b : Bytes) (bs : List Bytes)
      → slot.wlist ≡ b ∷ bs
      → Stage careful id (record c {
        server = put_slot c.server id (record slot { wlist = bs });
        wire = c.wire ++ b;
      })
  written-closing b bs e =
      let next : SocketSlot = record slot { wlist = bs } in
      closing next (get_slot-put_slot c.server id slot next at) (record {
        own = o.own;
        stream = o.stream;
        marked = o.marked;
        held = o.held;
        busy = o.busy;
        quiet = o.quiet;
        bytes =
            Match-move careful _ _ c.accepted (simp (append_assoc))
              (subst (λ l. Match careful (c.wire ++ flatten l) c.accepted) e o.bytes);
      })

  pub finish-closing :
      (slot' : SocketSlot) (w : World)
      → id ≢ minus_one
      → slot.wlist ≡ []
      → send_end c.world slot none ≡ some (w, slot')
      → Stage careful id
          (record c { world = w; server = put_slot c.server id slot'; writing = false })
  unfolding give_back
  finish-closing slot' w real e h =
      let next : SocketSlot = give_back (record slot { locked = false }) in
      let same : slot' ≡ next = ground (arith, h, end_closing c.world slot o.marked) in
      rw same (
        gone next (get_slot-put_slot c.server id slot next at) (record {
          foreign = λ f. real (sym f);
          idle = refl;
          quiet = o.quiet;
          bytes =
              Match-move careful _ _ c.accepted
                (sym (ap (λ l. c.wire ++ flatten l) e ∙ append-nil c.wire)) o.bytes;
        }))
