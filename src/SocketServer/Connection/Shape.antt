-- ===== src/SocketServer/Connection/Shape.antt =====
-- The three stages of a connection, and what waits in `poll` in each.
use cpp_sk.Base.{ℕ, ◌≡◌, refl, ◌≢◌, Bool, true, false, some, List, [], ◌∷◌, ◌++◌}
use cpp_sk.Socket.{SocketSlot, Server, get_slot, connected, tcp}
use cpp_sk.SocketServer.Send.Order.{flatten}
use cpp_sk.SocketServer.Connection.{Posted, writes, closes, Connection, rests, is_closing, Match}

-- No send waits.
abbrev pub Quiet : List Posted → Type 0
Quiet [] = Unit {0}
Quiet (writes offset buf ∷ ps) = ⊥
Quiet (closes ∷ ps) = Quiet ps

-- No send waits behind a close.
abbrev pub Tidy : List Posted → Type 0
Tidy [] = Unit {0}
Tidy (writes offset buf ∷ ps) = Tidy ps
Tidy (closes ∷ ps) = Quiet ps

pub record Open (careful : Bool) (id : ℕ) (c : Connection) (slot : SocketSlot) : Type 0 where
  pub own : slot.id ≡ id
  pub stream : slot.sock ≡ tcp
  pub type : slot.type ≡ connected
  pub unmarked : slot.close ≡ false
  pub held : slot.locked ≡ c.writing
  pub settled : c.writing ≡ false → slot.wlist ≡ []
  pub tidy : Tidy c.posted
  pub bytes : Match careful (c.wire ++ (flatten slot.wlist ++ rests c.posted)) c.accepted

-- Closed, with bytes to write.
pub record Closing (careful : Bool) (id : ℕ) (c : Connection) (slot : SocketSlot) : Type 0 where
  pub own : slot.id ≡ id
  pub stream : slot.sock ≡ tcp
  pub marked : slot.close ≡ true
  pub held : slot.locked ≡ true
  pub busy : c.writing ≡ true
  pub quiet : Quiet c.posted
  pub bytes : Match careful (c.wire ++ flatten slot.wlist) c.accepted

pub record Gone (careful : Bool) (id : ℕ) (c : Connection) (slot : SocketSlot) : Type 0 where
  pub foreign : slot.id ≢ id
  pub idle : c.writing ≡ false
  pub quiet : Quiet c.posted
  pub bytes : Match careful c.wire c.accepted

pub data Stage (careful : Bool) (id : ℕ) (c : Connection) : Type 0 where
  opened :
      (slot : SocketSlot)
      → get_slot c.server id ≡ some slot
      → Open careful id c slot
      → Stage careful id c
  closing :
      (slot : SocketSlot)
      → get_slot c.server id ≡ some slot
      → Closing careful id c slot
      → Stage careful id c
  gone :
      (slot : SocketSlot)
      → get_slot c.server id ≡ some slot
      → Gone careful id c slot
      → Stage careful id c

pub rests-Quiet : (ps : List Posted) → Quiet ps → rests ps ≡ []
unfolding rests
rests-Quiet [] q = refl
rests-Quiet (writes offset buf ∷ ps) q = absurd q
rests-Quiet (closes ∷ ps) q = rests-Quiet ps q

pub append-Quiet : (ps : List Posted) → Quiet ps → Quiet (ps ++ closes ∷ [])
append-Quiet [] q = tt
append-Quiet (writes offset buf ∷ ps) q = absurd q
append-Quiet (closes ∷ ps) q = append-Quiet ps q

pub append-Tidy : (ps : List Posted) → Tidy ps → Tidy (ps ++ closes ∷ [])
append-Tidy [] q = tt
append-Tidy (writes offset buf ∷ ps) q = append-Tidy ps q
append-Tidy (closes ∷ ps) q = append-Quiet ps q

-- A send before any close.
pub append_writes-Tidy :
    (ps : List Posted) (offset : ℕ) (buf : List ℕ)
    → is_closing ps ≡ false
    → Tidy ps
    → Tidy (ps ++ writes offset buf ∷ [])
unfolding is_closing
append_writes-Tidy [] offset buf e q = tt
append_writes-Tidy (writes o b ∷ ps) offset buf e q = append_writes-Tidy ps offset buf e q
append_writes-Tidy (closes ∷ ps) offset buf e q = cc

pub same_slot :
    (s : Server) (id : ℕ) {a b : SocketSlot}
    → get_slot s id ≡ some a
    → get_slot s id ≡ some b
    → a ≡ b
same_slot s id p q = cc
