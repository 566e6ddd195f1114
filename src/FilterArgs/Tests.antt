-- ===== src/FilterArgs/Tests.antt =====
-- Two bytes of type 3, with a new session.
use cpp_sk.Base.{◌/◌, ◌%◌, ◌^◌, ◌≡◌, refl, some, [], ◌∷◌, arith}
use cpp_sk.World.Tests.{context_of}
use cpp_sk.FilterArgs.{Arguments, filter_args}
use cpp_sk.FilterArgs.Laws.{filtered, filter_args-filtered}

abbrev two_bytes : Arguments
two_bytes = record { session = 0; contents = some (8 ∷ 9 ∷ []); sz = 2 }

filter_args-filtered_example :
    (filter_args (context_of 1) 0x20003 two_bytes
      ≡ some (filtered (context_of 1) 0x20003 two_bytes))
    × ((filtered (context_of 1) 0x20003 two_bytes).1.sz % 2 ^ 56 ≡ 2)
    × ((filtered (context_of 1) 0x20003 two_bytes).1.sz / 2 ^ 56 ≡ 0x20003 % 2 ^ 8)
filter_args-filtered_example =
    filter_args-filtered (context_of 1) 0x20003 two_bytes (omega arith)
      (λ bytes e. ground (arith, e)) (λ f. refl)
