-- ===== src/Words.antt =====
-- The C integer types of the monitor on x86-64. Every register, pointer and `size_t` is a number
-- below 2 ^ 64, and a signed value is its two's complement pattern.
pub mod Bytes
use aurora_mvee.Base.{ℕ, ◌+◌, ◌-◌, ◌%◌, ◌^◌, ltb, if◌then◌else◌}

abbrev pub u32_mod : ℕ
u32_mod = 2 ^ 32

abbrev pub u64_mod : ℕ
u64_mod = 2 ^ 64

-- The 64-bit pattern of -1.
abbrev pub minus_one : ℕ
minus_one = 2 ^ 64 - 1

-- `sizeof(long)`.
abbrev pub word_size : ℕ
word_size = 8

-- `(socklen_t) x`, widened again to 64 bits: the upper half is lost.
unfoldable pub to_u32 : ℕ → ℕ
to_u32 x = x % u32_mod

-- `(int) x`, widened again to 64 bits: the lower half with its sign bit copied upwards.
unfoldable pub to_int : ℕ → ℕ
to_int x = let low = x % u32_mod in if ltb low (2 ^ 31) then low else low + (u64_mod - u32_mod)

-- Pointer arithmetic, and a product of `size_t`.
unfoldable pub wrap : ℕ → ℕ
wrap x = x % u64_mod
