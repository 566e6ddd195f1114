-- ===== src/Socket/Tests.antt =====
-- `new_fd` on three slots.
use cpp_sk.Base.{◌≡◌, refl, some, [], ◌∷◌, arith}
use cpp_sk.Socket.{SocketSlot, fresh_slot, Server, new_fd, get_slot, reserve, connected}
use cpp_sk.Socket.Slots.{new_fd_steals}

abbrev in_use : SocketSlot
in_use = record fresh_slot { type = connected; id = 7 }

abbrev three_slots : Server
three_slots = record { slots = in_use ∷ in_use ∷ fresh_slot ∷ []; alloc = 5 }

abbrev two_used : Server
two_used = record three_slots { alloc = 6 }

new_fd_steals_example :
    (s : Server) × (new_fd two_used ≡ some (s, 7))
    × (get_slot s 7 ≡ some (record in_use { type = reserve }))
new_fd_steals_example =
    new_fd_steals two_used in_use in_use (omega arith) (omega arith) refl refl
      (λ e. ground (arith, e)) refl (omega arith)
