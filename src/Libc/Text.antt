-- ===== src/Libc/Text.antt =====
-- Strings of C in memory, and `strlen` of libc/src/string.c.
pub mod Length
use rhkernel.Prelude.{
  ℕ, zero, suc, ◌+◌, ◌-◌, ◌*◌, ◌%◌, ◌^◌, ◌<◌, ◌≡◌, ◌≢◌, Bool, true, not, ◌&&◌, ◌==◌, if◌then◌else◌,
  List, [], ◌∷◌, while, Round, next, leave, return_while, and_then,
}
use rhkernel.Libc.Memory.{Memory, load_bytes}
use rhkernel.Libc.Cpu.{simd_has, cpu_sse2, cpu_avx2}
use rhkernel.Libc.Word.{has_zero_byte}
use rhkernel.Libc.Copy.{word_bytes, unaligned}
use rhkernel.Libc.Scan.{strnlen_avx2, strnlen_sse2}

-- The bytes `xs`, none of which is 0, stand at `p`, and a 0 after them.
abbrev pub IsString : Memory → ℕ → List ℕ → Type 0
IsString m p [] = m p ≡ 0
IsString m p (x ∷ xs) = (m p ≡ x) × (x ≢ 0) × IsString m (p + 1) xs

-- `while ((uintptr_t)p & WORD_MASK) { if (!*p) return p - s; p++; }`
unfoldable pub length_to_word : ℕ → ℕ → Memory → ℕ → Round ℕ ℕ
unfolding return_while unaligned
length_to_word fuel s m p =
    return_while fuel (unaligned word_bytes) (λ q. if m q == 0 then leave (q - s) else next (q + 1))
      p

-- `for (;;) { … if (has_zero_byte(w)) break; p += WORD_BYTES; }`
unfoldable pub words_without_zero : ℕ → Memory → ℕ → ℕ
unfolding while
words_without_zero fuel m p =
    while fuel (λ q. not (has_zero_byte (load_bytes 8 q m))) (λ q. q + word_bytes) p

-- `while (*p) p++`
unfoldable pub skip_to_zero : ℕ → Memory → ℕ → ℕ
unfolding while
skip_to_zero fuel m p = while fuel (λ q. not (m q == 0)) (λ q. q + 1) p

unfoldable pub strlen_words : ℕ → ℕ → Memory → ℕ
strlen_words fuel s m =
    and_then (length_to_word fuel s m s)
      (λ p. skip_to_zero fuel m (words_without_zero fuel m p) - s)

-- No loop of `strlen` counts: `fuel` bounds the rounds of each.
unfoldable pub strlen : ℕ → ℕ → ℕ → Memory → ℕ
strlen fuel features s m =
    if simd_has features cpu_avx2
    then strnlen_avx2 s (2 ^ 64 - 1) m
    else if simd_has features cpu_sse2
    then strnlen_sse2 s (2 ^ 64 - 1) m
    else strlen_words fuel s m
