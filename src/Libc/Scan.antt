-- ===== src/Libc/Scan.antt =====
-- `memchr`, `strnlen`, `strlen` and the routines under them, libc/src/string.c. `features` is what `cpu_features`
-- returns. `test` says which addresses hold the byte that is looked for.
pub mod Span
pub mod Rounds
pub mod Laws
use rhkernel.Prelude.{
  ℕ, zero, suc, ◌+◌, ◌-◌, ◌*◌, ◌/◌, ◌%◌, ◌^◌, bit_xor, Bool, true, not, ◌&&◌, leb, ◌==◌,
  if◌then◌else◌, Option, none, some, while, Round, next, leave, return_while, and_then, then_loop,
}
use rhkernel.Libc.Memory.{Memory, load_bytes}
use rhkernel.Libc.Cpu.{simd_has, cpu_sse2, cpu_avx2}
use rhkernel.Libc.Word.{repeat_byte, has_zero_byte}
use rhkernel.Libc.Copy.{word_bytes, sse_bytes, avx_bytes, unaligned}

abbrev pub sse_scan_threshold : ℕ
sse_scan_threshold = 64

abbrev pub avx_scan_threshold : ℕ
avx_scan_threshold = 96

-- The variables p and n of a scanning loop.
pub record Scanning : Type 0 where
  pub at : ℕ
  pub left : ℕ

abbrev pub advance : ℕ → Scanning → Scanning
advance k s = record { at = s.at + k; left = s.left - k }

-- `pmovmskb` of a comparison: a digit for each of the `width` bytes, that of `p` the lowest.
unfoldable pub byte_mask : (ℕ → Bool) → ℕ → ℕ → ℕ
byte_mask test zero p = 0
byte_mask test (suc width) p = (if test p then 1 else 0) + 2 * byte_mask test width (p + 1)

count_zeros : ℕ → ℕ → ℕ
count_zeros zero x = 0
count_zeros (suc fuel) x = if x % 2 == 1 then 0 else suc (count_zeros fuel (x / 2))

-- `__builtin_ctz` of an `unsigned`.
unfoldable pub ctz : ℕ → ℕ
unfolding count_zeros
ctz x = count_zeros 32 x

-- The tests `if (m0) return …; if (m1) return …` over `lanes` vectors from `p` on.
unfoldable pub lanes_hit : (ℕ → Bool) → ℕ → ℕ → ℕ → Option ℕ
unfolding byte_mask ctz
lanes_hit test width zero p = none
lanes_hit test width (suc lanes) p =
    let mask = byte_mask test width p in
    let rest = lanes_hit test width lanes (p + width) in
    if not (mask == 0) then some (p + ctz mask) else rest

module _ {R : Type 0} (test : ℕ → Bool) (found : ℕ → R) where
  unfoldable pub vector_round : ℕ → ℕ → Scanning → Round Scanning R
  vector_round width lanes s = elim (lanes_hit test width lanes s.at) [
    | none ↦ next (advance (lanes * width) s)
    | some q ↦ leave (found q)
  ]

  unfoldable pub byte_round : Scanning → Round Scanning R
  byte_round s = if test s.at then leave (found s.at) else next (advance 1 s)

  -- `while (n >= lanes * width)`
  unfoldable pub vectors : ℕ → ℕ → Scanning → Round Scanning R
  unfolding vector_round return_while
  vectors width lanes s =
      return_while (suc s.left) (λ x. leb (lanes * width) x.left) (vector_round width lanes) s

  -- `while (n && ((uintptr_t)p & mask))`, a byte at a time.
  unfoldable pub bytes_to_boundary : ℕ → Scanning → Round Scanning R
  unfolding byte_round return_while unaligned
  bytes_to_boundary width s =
      return_while (suc s.left) (λ x. leb 1 x.left && unaligned width x.at) byte_round s

  -- `while (n--)`, a byte at a time.
  unfoldable pub bytes : Scanning → Round Scanning R
  unfolding byte_round return_while
  bytes s = return_while (suc s.left) (λ x. leb 1 x.left) byte_round s

-- `while (n >= WORD_BYTES) { if (has_zero_byte(…)) break; … }`
unfoldable pub words : (ℕ → Bool) → Scanning → Scanning
unfolding while
words stop s =
    while (suc s.left) (λ x. leb word_bytes x.left && not (stop x.at)) (advance word_bytes) s

-- `while (n && *p) { p++; n--; }`
unfoldable pub skip_bytes : Memory → Scanning → Scanning
unfolding while
skip_bytes m s = while (suc s.left) (λ x. leb 1 x.left && not (m x.at == 0)) (advance 1) s

abbrev pub holds : Memory → ℕ → ℕ → Bool
holds m c a = m a == c

-- The null pointer is `none`.
unfoldable pub memchr_sse2 : ℕ → ℕ → ℕ → Memory → Option ℕ
memchr_sse2 s c n m =
    let test = holds m (c % 256) in
    and_then
      (then_loop (vectors test some sse_bytes 4 (record { at = s; left = n }))
        λ x. then_loop (vectors test some sse_bytes 1 x) λ y. bytes test some y)
      (λ _. none)

unfoldable pub memchr_avx2 : ℕ → ℕ → ℕ → Memory → Option ℕ
memchr_avx2 s c n m =
    let test = holds m (c % 256) in
    and_then
      (then_loop (vectors test some avx_bytes 4 (record { at = s; left = n }))
        λ x. vectors test some avx_bytes 1 x)
      (λ x. memchr_sse2 x.at c x.left m)

-- The part of `memchr` below the vector routines.
unfoldable pub memchr_words : ℕ → ℕ → ℕ → Memory → Option ℕ
memchr_words s ch n m =
    let test = holds m ch in
    and_then
      (then_loop (bytes_to_boundary test some word_bytes (record { at = s; left = n })) λ x.
        bytes test some
          (words (λ p. has_zero_byte (bit_xor (load_bytes 8 p m) (repeat_byte ch))) x))
      (λ _. none)

unfoldable pub memchr : ℕ → ℕ → ℕ → ℕ → Memory → Option ℕ
memchr features s c n m =
    if leb avx_scan_threshold n && simd_has features cpu_avx2
    then memchr_avx2 s c n m
    else if leb sse_scan_threshold n && simd_has features cpu_sse2
    then memchr_sse2 s c n m
    else memchr_words s (c % 256) n m

unfoldable pub strnlen_sse2 : ℕ → ℕ → Memory → ℕ
strnlen_sse2 s maxlen m =
    let test = holds m 0 in
    and_then
      (then_loop (bytes_to_boundary test (λ q. q - s) sse_bytes (record { at = s; left = maxlen }))
        λ x. vectors test (λ q. q - s) sse_bytes 1 x)
      (λ x. (skip_bytes m x).at - s)

unfoldable pub strnlen_avx2 : ℕ → ℕ → Memory → ℕ
strnlen_avx2 s maxlen m =
    let test = holds m 0 in
    and_then
      (then_loop (bytes_to_boundary test (λ q. q - s) avx_bytes (record { at = s; left = maxlen }))
        λ x. vectors test (λ q. q - s) avx_bytes 1 x)
      (λ x. x.at - s + strnlen_sse2 x.at x.left m)

-- The part of `strnlen` below the vector routines.
unfoldable pub strnlen_words : ℕ → ℕ → Memory → ℕ
strnlen_words s maxlen m =
    and_then
      (bytes_to_boundary (holds m 0) (λ q. q - s) word_bytes (record { at = s; left = maxlen }))
      (λ x. (skip_bytes m (words (λ p. has_zero_byte (load_bytes 8 p m)) x)).at - s)

unfoldable pub strnlen : ℕ → ℕ → ℕ → Memory → ℕ
strnlen features s maxlen m =
    if leb avx_scan_threshold maxlen && simd_has features cpu_avx2
    then strnlen_avx2 s maxlen m
    else if leb sse_scan_threshold maxlen && simd_has features cpu_sse2
    then strnlen_sse2 s maxlen m
    else strnlen_words s maxlen m
