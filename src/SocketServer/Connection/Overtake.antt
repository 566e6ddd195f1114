-- ===== src/SocketServer/Connection/Overtake.antt =====
-- Two sends of services that do not wait for one another.
use cpp_sk.Base.{
  ℕ, ◌≤◌, ◌<◌, ◌≡◌, refl, ap, ◌∙◌, true, false, ◌||◌, some, [], ◌∷◌, ◌++◌, length, take, drop,
  arith, append_assoc,
}
use cpp_sk.Base.Slices.{take_all}
use cpp_sk.Message.{Bytes}
use cpp_sk.Socket.{SocketSlot, Server, get_slot, put_slot, check_can_write, connected, tcp, code}
use cpp_sk.Socket.Slots.{get_slot-put_slot}
use cpp_sk.SocketServer.Send.{socket_send, send_now, send_begin, enqueue}
use cpp_sk.SocketServer.Connection.{
  writes, Connection, Undisturbed, is_closing, begin, written, finish, move, send, Reach, here,
  next, Established,
}
use cpp_sk.SocketServer.Connection.Keep.{begin_open, end_open}

-- A send while nothing waits writes at once.
send_at_once :
    (s : Server) (id taken : ℕ) (slot : SocketSlot)
    → get_slot s id ≡ some slot
    → slot.id ≡ id
    → slot.sock ≡ tcp
    → slot.type ≡ connected
    → slot.wlist ≡ []
    → slot.locked ≡ false
    → slot.close ≡ false
    → socket_send s id taken ≡ some (0, some taken)
unfolding socket_send send_now check_can_write code
send_at_once s id taken slot at own stream type idle free open_ =
    ground (arith, at, own, stream, type, idle, free, open_)

first_queued :
    (slot : SocketSlot) (id k : ℕ) (a : Bytes)
    → slot.id ≡ id
    → slot.type ≡ connected
    → slot.wlist ≡ []
    → slot.locked ≡ false
    → slot.close ≡ false
    → 1 ≤ k
    → k < length a
    → send_begin slot id k a ≡ (record slot { wlist = drop k a ∷ []; locked = true }, true)
unfolding enqueue
first_queued slot id k a own type idle free open_ pos lt =
    ground (arith, begin_open slot id k a own open_ type, idle, free, pos, lt)

second_queued :
    (slot : SocketSlot) (id : ℕ) (b : Bytes)
    → slot.id ≡ id
    → slot.type ≡ connected
    → slot.locked ≡ true
    → slot.close ≡ false
    → 1 ≤ length b
    → send_begin slot id (length b) b ≡ (slot, false)
unfolding enqueue
second_queued slot id b own type held open_ some_b =
    ground (arith, begin_open slot id (length b) b own open_ type, held, some_b)

-- Both services have sent, and no coroutine has run.
abbrev both_sent : Connection → ℕ → Bytes → Bytes → Connection
both_sent c k a b = record c {
  posted = (c.posted ++ writes k a ∷ []) ++ writes (length b) b ∷ [];
  wire = (c.wire ++ take k a) ++ take (length b) b;
  accepted = (c.accepted ++ a) ++ b;
  late = (c.late || is_closing c.posted) || is_closing (c.posted ++ writes k a ∷ []);
}

module _ (id : ℕ) where
  both_sent-Reach :
      {c : Connection} (a b : Bytes) (k : ℕ)
      → Established id c
      → k < length a
      → Reach false id c (both_sent c k a b)
  both_sent-Reach {c} a b k e lt =
      let at_once : (n : ℕ) → socket_send c.server id n ≡ some (0, some n) =
        λ n. send_at_once c.server id n e.slot e.at e.own e.stream e.type e.idle e.free e.open_ in
      let le : k ≤ length a = omega arith in
      let whole : length b ≤ length b = omega arith in
      next (next here (send k a le (at_once k) (λ f. cc)))
        (send (length b) b whole (at_once (length b)) (λ f. cc))

  both_sent-not_late :
      {c : Connection} (a b : Bytes) (k : ℕ) → Established id c → (both_sent c k a b).late ≡ false
  unfolding is_closing
  both_sent-not_late {c} a b k e =
      ap (λ l. (c.late || is_closing l) || is_closing (l ++ writes k a ∷ [])) e.none_posted
      ∙ ground (arith, e.undisturbed.1)

  both_sent-wire :
      {c : Connection} (a b : Bytes) (k : ℕ)
      → Established id c
      → (both_sent c k a b).wire ++ drop k a ≡ take k a ++ (b ++ drop k a)
  both_sent-wire a b k e =
      let whole : take (length b) b ≡ b = take_all (length b) b (omega arith) in
      ap (λ l. ((l ++ take k a) ++ take (length b) b) ++ drop k a) e.none_sent
      ∙ ap (λ l. (take k a ++ l) ++ drop k a) whole
      ∙ append_assoc (take k a) b (drop k a)

  -- On a new connection a service sends `a`, of which the direct write takes only the first `k` bytes,
  -- at least one, and then one sends `b`, which is not empty and is written at once as a whole, before
  -- the coroutine of the first send runs: the connection reaches a state in which nothing has gone
  -- wrong and nothing is left to do, and what was left of `a` comes last on the wire.
  pub sends_interleave :
      {c : Connection} (a b : Bytes) (k : ℕ)
      → Established id c
      → 1 ≤ k
      → k < length a
      → 1 ≤ length b
      → (d : Connection) × Reach false id c d
        × Undisturbed d
        × (d.posted ≡ [])
        × (d.writing ≡ false)
        × (d.accepted ≡ a ++ b)
        × (d.wire ≡ take k a ++ (b ++ drop k a))
  sends_interleave {c} a b k e pos lt some_b =
      let s0 = e.slot in
      let s1 = (send_begin s0 id k a).0 in
      let q1 = first_queued s0 id k a e.own e.type e.idle e.free e.open_ pos lt in
      let p1 : s1 ≡ record s0 { wlist = drop k a ∷ []; locked = true } = ap (λ r. r.0) q1 in
      let s2 = (send_begin s1 id (length b) b).0 in
      let q2 =
        second_queued s1 id b (ap SocketSlot.id p1 ∙ e.own) (ap SocketSlot.type p1 ∙ e.type)
          (ap SocketSlot.locked p1) (ap SocketSlot.close p1 ∙ e.open_) some_b in
      let p2 : s2 ≡ record s0 { wlist = drop k a ∷ []; locked = true } = ap (λ r. r.0) q2 ∙ p1 in
      let s3 : SocketSlot = record s2 { wlist = [] } in
      let at1 = get_slot-put_slot c.server id s0 s1 e.at in
      let at2 = get_slot-put_slot (put_slot c.server id s1) id s1 s2 at1 in
      let at3 = get_slot-put_slot (put_slot (put_slot c.server id s1) id s2) id s2 s3 at2 in
      let on : (c.writing || (send_begin s0 id k a).1) || (send_begin s1 id (length b) b).1 ≡ true =
        ground (arith, q1, q2) in
      let ends =
        end_open c.world s3 (ap SocketSlot.close p2 ∙ e.open_) (ap SocketSlot.type p2 ∙ e.type) in
      let first : (both_sent c k a b).posted ≡ writes k a ∷ writes (length b) b ∷ [] =
        ap (λ l. (l ++ writes k a ∷ []) ++ writes (length b) b ∷ []) e.none_posted in
      let begun1 = next (both_sent-Reach a b k e lt) (move (begin first e.at)) in
      let begun2 = next begun1 (move (begin refl at1)) in
      let gone = next begun2 (move (written on at2 (ap SocketSlot.wlist p2))) in
      (
        _,
        next gone (move (finish on at3 refl ends)),
        (e.undisturbed.0, both_sent-not_late a b k e, e.undisturbed.2),
        refl,
        refl,
        ap (λ l. (l ++ a) ++ b) e.none_accepted,
        both_sent-wire a b k e,
      )
