-- ===== src/Device/Words.antt =====
-- htons, htonl and the casts to unsigned types (src/device.cpp), on a little-endian host.
use ldcp_sdk.Prelude.{ℕ, ◌+◌, ◌-◌, ◌*◌, ◌/◌, ◌%◌, ◌^◌, ◌<◌, ◌≡◌, arith}
use ldcp_sdk.Prelude.Int.{ℤ, pos, negsuc}

-- (uint16_t) of an int, and (uint32_t) of an int64_t
unfoldable pub wrap_16 : ℤ → ℕ
wrap_16 (pos n) = n % 2 ^ 16
wrap_16 (negsuc n) = 2 ^ 16 - 1 - n % 2 ^ 16

unfoldable pub wrap_32 : ℤ → ℕ
wrap_32 (pos n) = n % 2 ^ 32
wrap_32 (negsuc n) = 2 ^ 32 - 1 - n % 2 ^ 32

-- htons and ntohs
unfoldable pub swap_16 : ℕ → ℕ
swap_16 x = x % 2 ^ 8 * 2 ^ 8 + x / 2 ^ 8 % 2 ^ 8

-- htonl and ntohl
unfoldable pub swap_32 : ℕ → ℕ
swap_32 x =
    x % 2 ^ 8 * 2 ^ 24
    + x / 2 ^ 8 % 2 ^ 8 * 2 ^ 16
    + x / 2 ^ 16 % 2 ^ 8 * 2 ^ 8
    + x / 2 ^ 24 % 2 ^ 8

pub swap_16-lt : (x : ℕ) → swap_16 x < 2 ^ 16
unfolding swap_16
swap_16-lt x = omega arith

pub swap_16_twice : (x : ℕ) → x < 2 ^ 16 → swap_16 (swap_16 x) ≡ x
unfolding swap_16
swap_16_twice x h = omega arith

pub swap_32_twice : (x : ℕ) → x < 2 ^ 32 → swap_32 (swap_32 x) ≡ x
unfolding swap_32
swap_32_twice x h = omega arith

pub swap_32-lt : (x : ℕ) → swap_32 x < 2 ^ 32
unfolding swap_32
swap_32-lt x = omega arith
