-- ===== src/Libc/Word.antt =====
-- `repeat_byte` and `has_zero_byte` of libc/src/string.c, on 64-bit words.
pub mod Laws
use rhkernel.Prelude.{ℕ, ◌+◌, ◌-◌, ◌*◌, ◌/◌, ◌%◌, ◌^◌, bit_and, Bool, not, ◌==◌}

abbrev pub ones : ℕ
ones = (2 ^ 64 - 1) / 0xff

-- The byte in each of the eight places.
unfoldable pub repeat_byte : ℕ → ℕ
repeat_byte c = ones * c % 2 ^ 64

-- `((x - ones) & ~x & highs) != 0`
unfoldable pub has_zero_byte : ℕ → Bool
has_zero_byte x =
    let highs = ones * 2 ^ 7 % 2 ^ 64 in
    not (bit_and (bit_and ((x + 2 ^ 64 - ones) % 2 ^ 64) (2 ^ 64 - 1 - x)) highs == 0)
