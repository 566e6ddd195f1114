-- ===== src/HandleStorage/Tests.antt =====
-- Runs of the handle storage, and its theorems at concrete inputs.
use cpp_sk.Base.{ℕ, ◌+◌, ◌≡◌, refl, none, some, [], ◌∷◌, arith}
use cpp_sk.HandleStorage.{
  Ptr, HandleStorage, scan, resize, claim, handle_register, register_fuel, handle_grab,
}
use cpp_sk.Handle.{check_range, incr, or_harbor}
use cpp_sk.HandleStorage.Slots.{IsValid}
use cpp_sk.HandleStorage.Register.{register_total}
use cpp_sk.HandleStorage.Grab.{grab-register, grab-register_keeps, grab-register_loses}

-- Contexts 1 to 4 take the four slots; each has the handle that it got.
abbrev handle_of : Ptr → ℕ
handle_of p = 0x1000000 + p

abbrev full : HandleStorage
full = record {
  harbor = 0x1000000;
  handle_index = 5;
  slot = some 4 ∷ some 1 ∷ some 2 ∷ some 3 ∷ [];
  name = ("logger", 0x1000001) ∷ [];
}

abbrev grown : HandleStorage
grown = record full {
  handle_index = 6;
  slot = some 4 ∷ some 1 ∷ some 2 ∷ some 3 ∷ none ∷ some 5 ∷ none ∷ none ∷ [];
}

fill :
    handle_register register_fuel
      (record full { handle_index = 4; slot = none ∷ some 1 ∷ some 2 ∷ some 3 ∷ [] })
      4
    ≡ some (full, 0x1000004)
unfolding handle_register scan claim check_range or_harbor
fill = refl

full-IsValid : IsValid full
full-IsValid = record {
  bits = 2;
  size = refl;
  bits_le = omega arith;
  index_pos = omega arith;
  index_le = omega arith;
  node = 1;
  node_lt = omega arith;
  high = refl;
}

grow : handle_register register_fuel full 5 ≡ some (grown, 0x1000005)
unfolding handle_register scan claim check_range or_harbor incr resize
grow = refl

found_before : handle_grab handle_of full 0x1000004 ≡ some 4
unfolding handle_grab
found_before = refl

register_total_example : (r : HandleStorage × ℕ) × (handle_register register_fuel full 5 ≡ some r)
register_total_example = register_total full 5 full-IsValid (omega arith)

grab-register_example : handle_grab handle_of grown 0x1000005 ≡ some 5
grab-register_example = grab-register handle_of register_fuel full 5 full-IsValid grow refl

abbrev spare : HandleStorage
spare = record full { handle_index = 4; slot = none ∷ some 1 ∷ some 2 ∷ some 3 ∷ [] }

spare-IsValid : IsValid spare
spare-IsValid = record {
  bits = 2;
  size = refl;
  bits_le = omega arith;
  index_pos = omega arith;
  index_le = omega arith;
  node = 1;
  node_lt = omega arith;
  high = refl;
}

grab-register_keeps_example :
    (handle_grab handle_of spare 0x1000004 ≡ none)
    × ((k : ℕ) (q : Ptr)
        → handle_grab handle_of spare k ≡ some q
        → handle_grab handle_of full k ≡ some q)
grab-register_keeps_example =
    grab-register_keeps handle_of register_fuel spare 4 spare-IsValid fill refl

grab-register_loses_example : handle_grab handle_of grown 0x1000004 ≡ none
grab-register_loses_example =
    grab-register_loses handle_of register_fuel full 5 full-IsValid grow 0x1000004 4 refl
      found_before refl (omega arith)
