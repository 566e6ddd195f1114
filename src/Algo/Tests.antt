-- ===== src/Algo/Tests.antt =====
-- Texts that are split at a space.
use cpp_sk.Base.{◌≡◌, refl, some, [], ◌∷◌}
use cpp_sk.Algo.{starts_with, find, find_from, substr, split_loop, split}
use cpp_sk.Message.{Bytes}

-- " ab c "
abbrev spaced : Bytes
spaced = 32 ∷ 97 ∷ 98 ∷ 32 ∷ 99 ∷ 32 ∷ []

split-spaced : split spaced (32 ∷ []) ≡ some ([] ∷ (97 ∷ 98 ∷ []) ∷ (99 ∷ []) ∷ [])
unfolding split split_loop find_from find starts_with substr
split-spaced = refl

-- After a separator of two bytes its second byte is left in the text: "a::b" at "::".
split_long : split (97 ∷ 58 ∷ 58 ∷ 98 ∷ []) (58 ∷ 58 ∷ []) ≡ some ((97 ∷ []) ∷ (58 ∷ 98 ∷ []) ∷ [])
unfolding split split_loop find_from find starts_with substr
split_long = refl
