-- ===== src/FilterArgs.antt =====
-- `_filter_args` of cpp_sk.cpp, with the constants of cpp_sk.h: the arguments of a message as a caller
-- gives them. `int type` and `size_t` are bit patterns of 32 and 64 bits. `malloc` gives memory; `none`
-- is a failed `assert`, or a read past the end of the data.
pub mod Laws
mod Tests
use cpp_sk.Base.{
  ℕ, ◌+◌, ◌-◌, ◌*◌, ◌/◌, ◌%◌, ◌^◌, Bool, true, false, not, ◌&&◌, Option, none, some, List, [], ◌∷◌,
  ◌++◌, bit_and, bit_or, ltb, ◌==◌, if◌then◌else◌, length, take,
}
use cpp_sk.World.{Context, newsession}
use cpp_sk.Message.{Bytes}

abbrev pub ptype_tag_dontcopy : ℕ
ptype_tag_dontcopy = 0x10000

abbrev pub ptype_tag_allocsession : ℕ
ptype_tag_allocsession = 0x20000

abbrev pub message_type_shift : ℕ
message_type_shift = 56

-- `session`, `data` and `sz`; no data is the null pointer.
pub record Arguments : Type 0 where
  pub session : ℕ
  pub contents : Option Bytes
  pub sz : ℕ

-- The copy of the data, with a zero byte at its end.
unfoldable pub copy : Bytes → ℕ → Option Bytes
copy bytes sz = if ltb (length bytes) sz then none else some (take sz bytes ++ 0 ∷ [])

-- The session, where the caller wants a new one.
unfoldable pub alloc_session : Context → Bool → ℕ → Option (Context × ℕ)
alloc_session c wanted session = elim wanted [
  | false ↦ some (c, session)
  | true ↦ elim (session == 0) [ false ↦ none | true ↦ some (newsession c) ]
]

-- `_filter_args`
unfoldable pub filter_args : Context → ℕ → Arguments → Option (Context × Arguments)
unfolding copy alloc_session
filter_args c type a =
    let needcopy = bit_and type ptype_tag_dontcopy == 0 in
    let allocsession = not (bit_and type ptype_tag_allocsession == 0) in
    let sz = bit_or a.sz (bit_and type 0xff * 2 ^ message_type_shift) in
    elim (alloc_session c allocsession a.session) [
      | none ↦ none
      | some (c', session) ↦ elim a.contents [
        | none ↦ some (c', record { session = session; contents = none; sz = sz })
        | some bytes ↦ elim needcopy [
          | false ↦ some (c', record { session = session; contents = some bytes; sz = sz })
          | true ↦ elim (copy bytes a.sz) [
            | none ↦ none
            | some copied ↦ some (c', record { session = session; contents = some copied; sz = sz })
          ]
        ]
      ]
    ]
