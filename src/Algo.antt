-- ===== src/Algo.antt =====
-- `algo` of utils.h: how a text is split. A text is a list of bytes, shorter than 2^31, since the
-- loop keeps its place in an `int`. `none` is the exception of `substr` past the end.
pub mod Pieces
pub mod Split
mod Tests
use cpp_sk.Base.{
  ℕ, zero, suc, ◌+◌, ◌-◌, Bool, true, false, ◌&&◌, Option, none, some, List, [], ◌∷◌, ltb, leb,
  ◌==◌, if◌then◌else◌, length, take, drop,
}
use cpp_sk.Message.{Bytes}

unfoldable pub starts_with : Bytes → Bytes → Bool
starts_with [] s = true
starts_with (c ∷ div) [] = false
starts_with (c ∷ div) (x ∷ s) = (c == x) && starts_with div s

-- `s.find(div)`
unfoldable pub find : Bytes → Bytes → Option ℕ
unfolding starts_with
find div [] = if starts_with div [] then some 0 else none
find div (x ∷ s) =
    let rest = find div s in
    if starts_with div (x ∷ s) then some 0 else elim rest [ none ↦ none | some k ↦ some (suc k) ]

-- `s.find(div, pos)`
unfoldable pub find_from : Bytes → Bytes → ℕ → Option ℕ
unfolding find
find_from div s pos =
    if leb pos (length s)
    then elim (find div (drop pos s)) [ none ↦ none | some k ↦ some (pos + k) ]
    else none

-- `s.substr(pos)`
unfoldable pub substr : Bytes → ℕ → Option Bytes
substr s pos = if leb pos (length s) then some (drop pos s) else none

-- The loop of `split` from `pos` on, with fuel: the pieces that it adds.
unfoldable pub split_loop : ℕ → Bytes → Bytes → ℕ → Option (List Bytes)
unfolding find_from substr
split_loop zero s div pos = none
split_loop (suc fuel) s div pos = elim (find_from div s pos) [
  | none ↦
      if pos == length s
      then some []
      else elim (substr s pos) [ none ↦ none | some rest ↦ some (rest ∷ []) ]
  | some d ↦ elim (split_loop fuel s div (d + 1)) [
    | none ↦ none
    | some vs ↦ some (take (d - pos) (drop pos s) ∷ vs)
  ]
]

-- `split`. A round moves `pos` on, so that there are no more rounds than places in the text.
unfoldable pub split : Bytes → Bytes → Option (List Bytes)
unfolding split_loop
split s div = split_loop (length s + 2) s div 0

-- `split_one`
unfoldable pub split_one : Bytes → Bytes → Option (Bytes × Bytes)
unfolding find substr
split_one s div = elim (find div s) [
  | none ↦ some (s, [])
  | some pos ↦ elim (substr s (pos + 1)) [ none ↦ none | some rest ↦ some (take pos s, rest) ]
]
