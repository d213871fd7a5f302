-- ===== src/Libc/Build.antt =====
-- The string copies of libc/src/string.c: `strcpy`, `strncpy`, `strcat` and `strncat`, on the plain memory.
pub mod Laws
use rhkernel.Prelude.{ℕ, zero, suc, ◌+◌, ◌-◌, Bool, true, false, ltb, ◌==◌, if◌then◌else◌}
use rhkernel.Libc.Memory.{Memory, move, fill}
use rhkernel.Libc.Fill.{memset}
use rhkernel.Libc.Text.{strlen}

-- `while ((*d++ = *src++)) {}`, for at most `fuel` rounds.
unfoldable pub copy_to_zero : ℕ → ℕ → ℕ → Memory → Memory
copy_to_zero zero d s m = m
copy_to_zero (suc fuel) d s m = elim (m s == 0) [
  | true ↦ move 1 d s m
  | false ↦ copy_to_zero fuel (d + 1) (s + 1) (move 1 d s m)
]

unfoldable pub strcpy : ℕ → ℕ → ℕ → Memory → ℕ × Memory
strcpy fuel dst src m = (dst, copy_to_zero fuel dst src m)

-- `for (; i < n && src[i]; i++) d[i] = src[i]`, with the rounds that are left for `i`.
unfoldable pub copy_at_most : ℕ → ℕ → ℕ → ℕ → Memory → ℕ × Memory
copy_at_most zero d s i m = (i, m)
copy_at_most (suc left) d s i m = elim (m (s + i) == 0) [
  | true ↦ (i, m)
  | false ↦ copy_at_most left d s (i + 1) (move 1 (d + i) (s + i) m)
]

-- `if (i < n) memset(dst + i, 0, n - i)`
unfoldable pub pad : ℕ → ℕ → ℕ → ℕ × Memory → Memory
pad features dst n (i, m) = if ltb i n then (memset features (dst + i) 0 (n - i) m).1 else m

unfoldable pub strncpy : ℕ → ℕ → ℕ → ℕ → Memory → ℕ × Memory
strncpy features dst src n m = (dst, pad features dst n (copy_at_most n dst src 0 m))

unfoldable pub strcat : ℕ → ℕ → ℕ → ℕ → Memory → ℕ × Memory
strcat fuel features dst src m = (dst, (strcpy fuel (dst + strlen fuel features dst m) src m).1)

-- `d[i] = 0`
unfoldable pub end_text : ℕ → ℕ × Memory → Memory
end_text d (i, m) = fill 1 (d + i) 0 m

unfoldable pub strncat : ℕ → ℕ → ℕ → ℕ → ℕ → Memory → ℕ × Memory
strncat fuel features dst src n m =
    let d = dst + strlen fuel features dst m in (dst, end_text d (copy_at_most n d src 0 m))
