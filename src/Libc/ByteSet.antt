-- ===== src/Libc/ByteSet.antt =====
-- The sets of bytes of libc/src/string.c: `byte_set`, `byte_set_has`, `strspn`, `strcspn` and `strpbrk`.
pub mod Bits
pub mod Laws
pub mod Spans
use rhkernel.Prelude.{
  ℕ, zero, suc, ◌+◌, ◌/◌, ◌%◌, ◌^◌, bit_and, bit_or, Bool, true, false, not, ◌&&◌, ◌==◌,
  if◌then◌else◌, Option, none, some, while,
}
use rhkernel.Libc.Memory.{Memory}

-- `set[c >> 3] |= (unsigned char)(1u << (c & 7))`, with the array as a function from its indices.
unfoldable pub add_byte : ℕ → Memory → Memory
add_byte c set i = if i == c / 8 then bit_or (set i) (2 ^ (c % 8)) % 256 else set i

-- `while (*s)`, for at most `fuel` rounds.
unfoldable pub add_bytes : ℕ → Memory → ℕ → Memory → Memory
add_bytes zero m s set = set
add_bytes (suc fuel) m s set = elim (m s == 0) [
  | true ↦ set
  | false ↦ add_bytes fuel m (s + 1) (add_byte (m s) set)
]

unfoldable pub byte_set : ℕ → Memory → ℕ → Memory
byte_set fuel m s = add_bytes fuel m s (λ i. 0)

unfoldable pub byte_set_has : Memory → ℕ → Bool
byte_set_has set c = not (bit_and (set (c / 8)) (2 ^ (c % 8)) == 0)

unfoldable pub strspn : ℕ → ℕ → ℕ → Memory → ℕ
strspn fuel s accept m =
    let set = byte_set fuel m accept in
    while fuel (λ n. not (m (s + n) == 0) && byte_set_has set (m (s + n))) (λ n. n + 1) 0

unfoldable pub strcspn : ℕ → ℕ → ℕ → Memory → ℕ
strcspn fuel s reject m =
    let set = byte_set fuel m reject in
    while fuel (λ n. not (m (s + n) == 0) && not (byte_set_has set (m (s + n)))) (λ n. n + 1) 0

-- `none` is the null pointer.
unfoldable pub find_in_set : ℕ → Memory → Memory → ℕ → Option ℕ
find_in_set zero set m s = none
find_in_set (suc fuel) set m s = elim (m s == 0) [
  | true ↦ none
  | false ↦ elim (byte_set_has set (m s)) [ true ↦ some s | false ↦ find_in_set fuel set m (s + 1) ]
]

unfoldable pub strpbrk : ℕ → ℕ → ℕ → Memory → Option ℕ
strpbrk fuel s accept m = find_in_set fuel (byte_set fuel m accept) m s
