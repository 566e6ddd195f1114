-- ===== src/FilterArgs/Laws.antt =====
-- What `_filter_args` leaves.
use cpp_sk.Base.{
  ℕ, ◌+◌, ◌*◌, ◌/◌, ◌%◌, ◌^◌, ◌<◌, ◌≡◌, refl, ap, ◌∙◌, inl, inr, Bool, true, false, not, none, some,
  [], ◌∷◌, ◌++◌, bit_and, bit_or, arith, ◌==◌, if◌then◌else◌, length, Option-cases,
}
use cpp_sk.Base.Bits.{bit_and-mask, bit_and-high, bit_or-high}
use cpp_sk.Base.Slices.{take_all}
use cpp_sk.World.{Context, newsession}
use cpp_sk.Message.{Bytes}
use cpp_sk.FilterArgs.{
  Arguments, copy, alloc_session, filter_args, ptype_tag_dontcopy, ptype_tag_allocsession,
}

-- Bit `k` of a number.
abbrev pub has_bit : ℕ → ℕ → Bool
has_bit k x = x / 2 ^ k % 2 == 1

dontcopy_flag : (type : ℕ) → (bit_and type ptype_tag_dontcopy == 0) ≡ not (has_bit 16 type)
dontcopy_flag type = ground (arith, bit_and-high 16 1 type)

allocsession_flag : (type : ℕ) → not (bit_and type ptype_tag_allocsession == 0) ≡ has_bit 17 type
allocsession_flag type = ground (arith, bit_and-high 17 1 type)

packed :
    (sz type : ℕ)
    → sz < 2 ^ 56
    → bit_or sz (bit_and type 0xff * 2 ^ 56) ≡ sz + type % 2 ^ 8 * 2 ^ 56
packed sz type lt =
    bit_or-high 56 sz (bit_and type 0xff) lt ∙ ap (λ (t : ℕ). sz + t * 2 ^ 56) (bit_and-mask 8 type)

copy_lem : (bytes : Bytes) (sz : ℕ) → length bytes ≡ sz → copy bytes sz ≡ some (bytes ++ 0 ∷ [])
unfolding copy
copy_lem bytes sz e = ground (arith, e, take_all sz bytes (omega arith))

alloc_session_lem :
    (c : Context) (wanted : Bool) (session : ℕ)
    → (wanted ≡ true → session ≡ 0)
    → alloc_session c wanted session ≡ some (if wanted then newsession c else (c, session))
unfolding alloc_session
alloc_session_lem c true session zero = ground (arith, zero refl)
alloc_session_lem c false session zero = refl

-- What the caller gets: the session, the data, and the size with the type in its high byte.
abbrev pub filtered : Context → ℕ → Arguments → Context × Arguments
filtered c type a =
    let (c', session) = if has_bit 17 type then newsession c else (c, a.session) in
    (
      c',
      record {
        session = session;
        contents = elim a.contents [
          | none ↦ none
          | some bytes ↦ some (if has_bit 16 type then bytes else bytes ++ 0 ∷ [])
        ];
        sz = a.sz + type % 2 ^ 8 * 2 ^ 56;
      },
    )

-- Of arguments with as many bytes as their size says, below 2^56, and no session where a new one is
-- wanted, `_filter_args` makes what `filtered` says, from which the size and the low byte of the type
-- can be read back: a session of its own where bit 17 of the type is set, and a copy with a zero byte
-- at its end of data, if there are any, where bit 16 is not.
pub filter_args-filtered :
    (c : Context) (type : ℕ) (a : Arguments)
    → a.sz < 2 ^ 56
    → ((bytes : Bytes) → a.contents ≡ some bytes → length bytes ≡ a.sz)
    → (has_bit 17 type ≡ true → a.session ≡ 0)
    → (filter_args c type a ≡ some (filtered c type a))
      × ((filtered c type a).1.sz % 2 ^ 56 ≡ a.sz)
      × ((filtered c type a).1.sz / 2 ^ 56 ≡ type % 2 ^ 8)
unfolding filter_args
filter_args-filtered c type a lt fits zero = (made, omega (arith, lt), omega (arith, lt))
  where
    made : filter_args c type a ≡ some (filtered c type a)
    made =
        let p = packed a.sz type lt in
        let s : alloc_session c (not (bit_and type ptype_tag_allocsession == 0)) a.session
            ≡ some (if has_bit 17 type then newsession c else (c, a.session)) =
          ap (λ b. alloc_session c b a.session) (allocsession_flag type)
          ∙ alloc_session_lem c (has_bit 17 type) a.session zero in
        elim (Option-cases a.contents) [
          | inl n ↦ ground (arith, n, s, p)
          | inr (bytes, e) ↦
              ground (arith, e, s, p, dontcopy_flag type, copy_lem bytes a.sz (fits bytes e))
        ]
