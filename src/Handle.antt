-- ===== src/Handle.antt =====
-- `handle_t` and `harbor_t` of cpp_sk.h. A handle is a `uint32_t`: the low 24 bits number a
-- context, the high 8 bits are its harbor.
pub mod Laws
use cpp_sk.Base.{
  ℕ, ◌+◌, ◌-◌, ◌*◌, ◌%◌, ◌^◌, Bool, true, not, ◌&&◌, Option, none, some, bit_and, bit_or, ltb, ◌==◌,
  if◌then◌else◌,
}

abbrev pub u32_mod : ℕ
u32_mod = 2 ^ 32

abbrev pub handle_mask : ℕ
handle_mask = 0xffffff

abbrev pub handle_remote_shift : ℕ
handle_remote_shift = 24

-- `check_range`
unfoldable pub check_range : ℕ → ℕ
check_range h = if ltb handle_mask h then 1 else h

-- `operator++()`: the new handle, which is also the result.
unfoldable pub incr : ℕ → ℕ
incr h = check_range ((h + 1) % u32_mod)

-- `operator++(int)`: the result and the new handle.
unfoldable pub post_incr : ℕ → ℕ × ℕ
unfolding incr
post_incr h = (h, incr h)

-- `operator|=`
unfoldable pub or_harbor : ℕ → ℕ → ℕ
or_harbor h harbor = bit_or h harbor

-- The shift that the constructor of `handle_storage_t` makes: `(uint32_t)(harbor & 0xff) << 24`.
unfoldable pub storage_harbor : ℕ → ℕ
storage_harbor harbor = bit_and harbor 0xff * 2 ^ handle_remote_shift % u32_mod

-- The shift of `harbor_t::init`, which masks nothing: `(unsigned int)harbor << 24`.
unfoldable pub harbor_init : ℕ → ℕ
harbor_init harbor = harbor * 2 ^ handle_remote_shift % u32_mod

-- `harbor_t::harbor` before `init`: `~0`, as a 32-bit pattern.
abbrev pub harbor_unset : ℕ
harbor_unset = u32_mod - 1

-- `message_isremote`; `none` is the failed `assert`. `~HANDLE_MASK` is `0xff000000`.
unfoldable pub message_isremote : ℕ → ℕ → Option Bool
message_isremote harbor handle =
    if harbor == harbor_unset
    then none
    else some (not (bit_and handle 0xff000000 == harbor) && not (bit_and handle 0xff000000 == 0))
