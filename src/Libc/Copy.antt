-- ===== src/Libc/Copy.antt =====
-- `memcpy`, `memmove` and the routines under them, libc/src/string.c. `features` is what `cpu_features` returns.
-- A load and store of a vector or a word is one `move`; the prefix, main and rest loops stand as in the source.
pub mod Loops
pub mod Laws
use rhkernel.Prelude.{
  ℕ, zero, suc, ◌+◌, ◌-◌, ◌*◌, ◌%◌, ◌^◌, bit_and, bit_xor, Bool, true, false, not, ◌&&◌, ◌||◌, leb,
  ltb, ◌==◌, if◌then◌else◌, while,
}
use rhkernel.Libc.Memory.{Memory, move}
use rhkernel.Libc.Cpu.{simd_has, cpu_sse2, cpu_avx}

abbrev pub word_bytes : ℕ
word_bytes = 8

abbrev pub sse_bytes : ℕ
sse_bytes = 16

abbrev pub avx_bytes : ℕ
avx_bytes = 32

abbrev pub sse_copy_threshold : ℕ
sse_copy_threshold = 128

abbrev pub avx_copy_threshold : ℕ
avx_copy_threshold = 512

-- The variables d, s and n of a copy loop, and the memory.
pub record Copying : Type 0 where
  pub dst : ℕ
  pub src : ℕ
  pub left : ℕ
  pub memory : Memory

-- The word-aligned test `(uintptr_t)p & WORD_MASK`.
unfoldable pub unaligned : ℕ → ℕ → Bool
unaligned width p = not (bit_and p (width - 1) == 0)

unfoldable pub same_alignment : ℕ → ℕ → Bool
same_alignment a b = bit_and (bit_xor a b) (word_bytes - 1) == 0

-- `count` moves of `width` bytes, lane 0 first.
unfoldable pub lanes_up : ℕ → ℕ → ℕ → ℕ → Memory → Memory
lanes_up zero width d s m = m
lanes_up (suc count) width d s m = lanes_up count width (d + width) (s + width) (move width d s m)

-- The same with lane 0 last.
unfoldable pub lanes_down : ℕ → ℕ → ℕ → ℕ → Memory → Memory
lanes_down zero width d s m = m
lanes_down (suc count) width d s m =
    move width d s (lanes_down count width (d + width) (s + width) m)

-- The body of a forward loop: the lanes, then the pointers go up.
unfoldable pub copy_up : ℕ → ℕ → Copying → Copying
unfolding lanes_up
copy_up count width c = record {
  dst = c.dst + count * width;
  src = c.src + count * width;
  left = c.left - count * width;
  memory = lanes_up count width c.dst c.src c.memory;
}

-- The body of a backward loop: the pointers go down, then the lanes.
unfoldable pub copy_down : ℕ → ℕ → Copying → Copying
unfolding lanes_down
copy_down count width c = record {
  dst = c.dst - count * width;
  src = c.src - count * width;
  left = c.left - count * width;
  memory = lanes_down count width (c.dst - count * width) (c.src - count * width) c.memory;
}

-- `while (n >= count * width)` round such a body.
unfoldable pub blocks_up : ℕ → ℕ → Copying → Copying
unfolding copy_up while
blocks_up count width c =
    while (suc c.left) (λ x. leb (count * width) x.left) (copy_up count width) c

unfoldable pub blocks_down : ℕ → ℕ → Copying → Copying
unfolding copy_down while
blocks_down count width c =
    while (suc c.left) (λ x. leb (count * width) x.left) (copy_down count width) c

-- `while (n && ((uintptr_t)d & WORD_MASK))`, a byte at a time.
unfoldable pub align_up_to_word : Copying → Copying
unfolding copy_up while unaligned
align_up_to_word c =
    while (suc c.left) (λ x. leb 1 x.left && unaligned word_bytes x.dst) (copy_up 1 1) c

unfoldable pub align_down_to_word : Copying → Copying
unfolding copy_down while unaligned
align_down_to_word c =
    while (suc c.left) (λ x. leb 1 x.left && unaligned word_bytes x.dst) (copy_down 1 1) c

unfoldable pub memcpy_forward_sse2 : ℕ → ℕ → ℕ → Memory → Memory
unfolding blocks_up
memcpy_forward_sse2 dst src n m =
    (blocks_up 1 1 (
      blocks_up 1 sse_bytes
        (blocks_up 8 sse_bytes (record { dst = dst; src = src; left = n; memory = m })))).memory

unfoldable pub memcpy_forward_avx : ℕ → ℕ → ℕ → Memory → Memory
unfolding blocks_up
memcpy_forward_avx dst src n m =
    (blocks_up 1 1 (
      blocks_up 1 avx_bytes
        (blocks_up 8 avx_bytes (record { dst = dst; src = src; left = n; memory = m })))).memory

-- `d` and `s` are moved to the ends of the regions first.
unfoldable pub memmove_backward_sse2 : ℕ → ℕ → ℕ → Memory → Memory
unfolding blocks_down
memmove_backward_sse2 d s n m =
    (blocks_down 1 1 (
      blocks_down 1 sse_bytes (
        blocks_down 8 sse_bytes
          (record { dst = d + n; src = s + n; left = n; memory = m })))).memory

unfoldable pub memmove_backward_avx : ℕ → ℕ → ℕ → Memory → Memory
unfolding blocks_down
memmove_backward_avx d s n m =
    (blocks_down 1 1 (
      blocks_down 1 avx_bytes (
        blocks_down 8 avx_bytes
          (record { dst = d + n; src = s + n; left = n; memory = m })))).memory

-- The part of `memcpy_forward` below the vector routines.
unfoldable pub copy_words_up : Copying → Copying
unfolding blocks_up align_up_to_word same_alignment
copy_words_up c = blocks_up 1 1 (
    if leb word_bytes c.left && same_alignment c.dst c.src
    then blocks_up 1 word_bytes (blocks_up 4 word_bytes (align_up_to_word c))
    else c)

-- The part of `memmove` below the vector routines; the pointers are at the ends.
unfoldable pub copy_words_down : Copying → Copying
unfolding blocks_down align_down_to_word same_alignment
copy_words_down c = blocks_down 1 1 (
    if leb word_bytes c.left && same_alignment c.dst c.src
    then blocks_down 1 word_bytes (blocks_down 4 word_bytes (align_down_to_word c))
    else c)

-- The returned pointer, and the memory afterwards.
unfoldable pub memcpy_forward : ℕ → ℕ → ℕ → ℕ → Memory → ℕ × Memory
memcpy_forward features dst src n m = (
  dst,
  if leb avx_copy_threshold n && simd_has features cpu_avx
      then memcpy_forward_avx dst src n m
      else if leb sse_copy_threshold n && simd_has features cpu_sse2
      then memcpy_forward_sse2 dst src n m
      else (copy_words_up (record { dst = dst; src = src; left = n; memory = m })).memory,
)

unfoldable pub memcpy : ℕ → ℕ → ℕ → ℕ → Memory → ℕ × Memory
memcpy features dst src n m = memcpy_forward features dst src n m

-- The part of `memmove` below the test of the distance.
unfoldable pub memmove_backward : ℕ → ℕ → ℕ → ℕ → Memory → ℕ × Memory
memmove_backward features d s n m = (
  d,
  if leb avx_copy_threshold n && simd_has features cpu_avx
      then memmove_backward_avx d s n m
      else if leb sse_copy_threshold n && simd_has features cpu_sse2
      then memmove_backward_sse2 d s n m
      else (copy_words_down (record { dst = d + n; src = s + n; left = n; memory = m })).memory,
)

unfoldable pub memmove : ℕ → ℕ → ℕ → ℕ → Memory → ℕ × Memory
memmove features d s n m =
    if d == s || n == 0
    then (d, m)
    else if leb n ((d + 2 ^ 64 - s) % 2 ^ 64)
    then memcpy_forward features d s n m
    else memmove_backward features d s n m
