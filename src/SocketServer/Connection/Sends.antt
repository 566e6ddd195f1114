-- ===== src/SocketServer/Connection/Sends.antt =====
-- What a service does with a connection keeps it in a stage.
use cpp_sk.Base.{
  ℕ, ◌≤◌, ◌≡◌, ap, ◌∙◌, ◌≢◌, ◌⊎◌, Bool, true, false, ◌||◌, some, [], ◌∷◌, ◌++◌, length, take, arith,
  append-nil,
}
use cpp_sk.Message.{Bytes}
use cpp_sk.Socket.{SocketSlot, Server, get_slot, check_can_write}
use cpp_sk.SocketServer.Send.{send_now, socket_send}
use cpp_sk.SocketServer.Send.Order.{flatten, rest_of}
use cpp_sk.SocketServer.Connection.{writes, closes, Connection, rests, is_closing}
use cpp_sk.SocketServer.Connection.Shape.{
  Stage, opened, closing, gone, append-Tidy, append-Quiet, append_writes-Tidy,
}
use cpp_sk.SocketServer.Connection.Wire.{send-Match, rests-append, Match-trans, Match-append}
use cpp_sk.SocketServer.Connection.Keep.{Match-move}

-- A send that succeeds, up to its coroutine.
sent_now :
    (s : Server) (id taken offset : ℕ) (slot : SocketSlot)
    → get_slot s id ≡ some slot
    → socket_send s id taken ≡ some (0, some offset)
    → (check_can_write slot id ≡ true) × (send_now slot id taken ≡ some offset)
unfolding socket_send
sent_now s id taken offset slot at h = ground (arith, at, h)

cannot_write_closing :
    (slot : SocketSlot) (id : ℕ) → slot.close ≡ true → check_can_write slot id ≡ false
unfolding check_can_write
cannot_write_closing slot id e = ground (arith, e)

cannot_write_foreign : (slot : SocketSlot) (id : ℕ) → slot.id ≢ id → check_can_write slot id ≡ false
unfolding check_can_write
cannot_write_foreign slot id e = ground (arith, e)

module _ (careful : Bool) (id : ℕ) where
  pub send-Stage :
      (c : Connection) (offset taken : ℕ) (buf : Bytes)
      → is_closing c.posted ≡ false
      → taken ≤ length buf
      → socket_send c.server id taken ≡ some (0, some offset)
      → (careful ≡ true → (offset ≡ 0) ⊎ (rests c.posted ≡ []))
      → Stage careful id c
      → Stage careful id (record c {
        posted = c.posted ++ writes offset buf ∷ [];
        wire = c.wire ++ take offset buf;
        accepted = c.accepted ++ buf;
        late = c.late || is_closing c.posted;
      })
  unfolding rests
  send-Stage c offset taken buf before le h order (opened slot at o) =
      let (may, now) = sent_now c.server id taken offset slot at h in
      let sum : rests (c.posted ++ writes offset buf ∷ []) ≡ rests c.posted ++ rest_of offset buf =
        rests-append c.posted (writes offset buf ∷ [])
        ∙ ap (λ l. rests c.posted ++ l) (append-nil (rest_of offset buf)) in
      opened slot at (record {
        own = o.own;
        stream = o.stream;
        type = o.type;
        unmarked = o.unmarked;
        held = o.held;
        settled = o.settled;
        tidy = append_writes-Tidy c.posted offset buf before o.tidy;
        bytes =
            Match-move careful _ _ (c.accepted ++ buf)
              (ap (λ l. (c.wire ++ take offset buf) ++ (flatten slot.wlist ++ l)) sum)
              (Match-trans careful _ _ _
                (send-Match careful slot id taken offset buf c.wire (rests c.posted) le now order)
                (Match-append careful _ _ buf o.bytes));
      })
  send-Stage c offset taken buf before le h order (closing slot at o) =
      let (may, now) = sent_now c.server id taken offset slot at h in
      absurd (ground (arith, may, cannot_write_closing slot id o.marked))
  send-Stage c offset taken buf before le h order (gone slot at o) =
      let (may, now) = sent_now c.server id taken offset slot at h in
      absurd (ground (arith, may, cannot_write_foreign slot id o.foreign))

  pub posted_close-Stage :
      (c : Connection)
      → Stage careful id c
      → Stage careful id (record c { posted = c.posted ++ closes ∷ [] })
  unfolding rests
  posted_close-Stage c (opened slot at o) = opened slot at (record {
    own = o.own;
    stream = o.stream;
    type = o.type;
    unmarked = o.unmarked;
    held = o.held;
    settled = o.settled;
    tidy = append-Tidy c.posted o.tidy;
    bytes =
        Match-move careful _ _ c.accepted
          (ap (λ l. c.wire ++ (flatten slot.wlist ++ l))
            (rests-append c.posted (closes ∷ []) ∙ append-nil (rests c.posted)))
          o.bytes;
  })
  posted_close-Stage c (closing slot at o) = closing slot at (record {
    own = o.own;
    stream = o.stream;
    marked = o.marked;
    held = o.held;
    busy = o.busy;
    quiet = append-Quiet c.posted o.quiet;
    bytes = o.bytes;
  })
  posted_close-Stage c (gone slot at o) = gone slot at (record {
    foreign = o.foreign;
    idle = o.idle;
    quiet = append-Quiet c.posted o.quiet;
    bytes = o.bytes;
  })
