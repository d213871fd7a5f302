-- ===== src/Libc/Fill.antt =====
-- `memset` and the routines under it, libc/src/string.c. `features` is what `cpu_features` returns, and `value` the
-- bit pattern of the `int` argument. A vector store is its 64-bit lanes in order, each the word `w`.
pub mod Laws
use rhkernel.Prelude.{
  ℕ, zero, suc, ◌+◌, ◌-◌, ◌*◌, ◌/◌, ◌%◌, ◌^◌, Bool, ◌&&◌, leb, if◌then◌else◌, while,
}
use rhkernel.Libc.Memory.{Memory, fill, store_word}
use rhkernel.Libc.Word.{repeat_byte}
use rhkernel.Libc.Cpu.{simd_has, cpu_sse2, cpu_avx}
use rhkernel.Libc.Copy.{word_bytes, sse_copy_threshold, avx_copy_threshold, unaligned}

-- The variables d and n of a filling loop, and the memory.
pub record Filling : Type 0 where
  pub dst : ℕ
  pub left : ℕ
  pub memory : Memory

-- `count` words of eight bytes each, from `d` on.
unfoldable pub store_words : ℕ → ℕ → ℕ → Memory → Memory
store_words zero w d m = m
store_words (suc count) w d m = store_words count w (d + 8) (store_word d w m)

unfoldable pub fill_words : ℕ → ℕ → Filling → Filling
unfolding store_words
fill_words w count f = record {
  dst = f.dst + count * 8;
  left = f.left - count * 8;
  memory = store_words count w f.dst f.memory;
}

unfoldable pub fill_byte : ℕ → Filling → Filling
fill_byte c f = record { dst = f.dst + 1; left = f.left - 1; memory = fill 1 f.dst c f.memory }

-- `while (n >= count * 8)` round stores of `count` words.
unfoldable pub fill_blocks : ℕ → ℕ → Filling → Filling
unfolding fill_words while
fill_blocks w count f = while (suc f.left) (λ x. leb (count * 8) x.left) (fill_words w count) f

-- `while (n--) *d++ = c`
unfoldable pub fill_bytes : ℕ → Filling → Filling
unfolding fill_byte while
fill_bytes c f = while (suc f.left) (λ x. leb 1 x.left) (fill_byte c) f

-- `while (n && ((uintptr_t)d & WORD_MASK))`
unfoldable pub fill_to_word : ℕ → Filling → Filling
unfolding fill_byte while unaligned
fill_to_word c f =
    while (suc f.left) (λ x. leb 1 x.left && unaligned word_bytes x.dst) (fill_byte c) f

-- Eight vectors of two words, one vector, and bytes.
unfoldable pub memset_sse2 : ℕ → ℕ → ℕ → Memory → Memory
unfolding fill_blocks fill_bytes
memset_sse2 dst value n m =
    let c = value % 256 in
    let w = (2 ^ 64 - 1) / 0xff * c % 2 ^ 64 in
    (fill_bytes c
      (fill_blocks w 2 (fill_blocks w 16 (record { dst = dst; left = n; memory = m })))).memory

-- The same with vectors of four words.
unfoldable pub memset_avx : ℕ → ℕ → ℕ → Memory → Memory
unfolding fill_blocks fill_bytes
memset_avx dst value n m =
    let c = value % 256 in
    let w = (2 ^ 64 - 1) / 0xff * c % 2 ^ 64 in
    (fill_bytes c
      (fill_blocks w 4 (fill_blocks w 32 (record { dst = dst; left = n; memory = m })))).memory

-- The part of `memset` below the vector routines.
unfoldable pub fill_by_words : ℕ → Filling → Filling
unfolding fill_blocks fill_bytes fill_to_word repeat_byte
fill_by_words c f = fill_bytes c (
    if leb word_bytes f.left
    then fill_blocks (repeat_byte c) 1 (fill_blocks (repeat_byte c) 4 (fill_to_word c f))
    else f)

unfoldable pub memset : ℕ → ℕ → ℕ → ℕ → Memory → ℕ × Memory
memset features dst value n m = (
  dst,
  if leb avx_copy_threshold n && simd_has features cpu_avx
      then memset_avx dst value n m
      else if leb sse_copy_threshold n && simd_has features cpu_sse2
      then memset_sse2 dst value n m
      else (fill_by_words (value % 256) (record { dst = dst; left = n; memory = m })).memory,
)
