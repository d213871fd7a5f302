-- ===== src/Libc/Tests.antt =====
-- The theorems on libc/src/string.c at concrete inputs, and small runs of the code.
use rhkernel.Prelude.{
  ℕ, ◌+◌, ◌%◌, ◌≡◌, refl, inr, ◌==◌, List, [], ◌∷◌, none, some, arith, if◌then◌else◌, ◌^◌,
}
use rhkernel.Prelude.Int.{pos}
use rhkernel.Libc.Memory.{Memory, move, fill}
use rhkernel.Libc.Word.Laws.{IsBytes}
use rhkernel.Libc.Cpu.{Processor, cpu_features, simd_has}
use rhkernel.Libc.Cpu.Laws.{cpu_features_stable}
use rhkernel.Libc.Copy.{memmove, memmove_backward, copy_words_down, memcpy}
use rhkernel.Libc.Copy.Laws.{memmove-move, memcpy-move}
use rhkernel.Libc.Fill.{memset}
use rhkernel.Libc.Fill.Laws.{memset-fill}
use rhkernel.Libc.Scan.{memchr, memchr_sse2, vectors, lanes_hit, strnlen, holds}
use rhkernel.Libc.Scan.Span.{span}
use rhkernel.Libc.Scan.Laws.{memchr-span, strnlen-span}
use rhkernel.Libc.Text.{strlen}
use rhkernel.Libc.Text.Length.{strlen-length}
use rhkernel.Libc.Compare.{memcmp, strcmp}
use rhkernel.Libc.Compare.Blocks.{byte_difference, memcmp-byte_difference}
use rhkernel.Libc.Compare.Texts.{difference, strcmp-difference}
use rhkernel.Prelude.{◌*◌, ltb}
use rhkernel.Prelude.Int.{ℤ, negsuc}
use rhkernel.Libc.Number.{
  strtol, isspace, isblank, digit_below, digit_value, numeral_base, skip_sign,
}
use rhkernel.Libc.Number.Runs.{value_from}
use rhkernel.Libc.Number.Laws.{HasNumeral, strtol-bounded}
use rhkernel.Libc.Search.{bsearch}
use rhkernel.Libc.Text.{IsString}
use rhkernel.Libc.Search.Laws.{IsSorted, Searched, bsearch-Searched}

-- The byte at an address is the address.
abbrev cells : Memory
cells a = a % 256

cells-IsBytes : IsBytes cells
cells-IsBytes a = omega arith

-- "abc" at 10 and "abd" at 20.
abbrev texts : Memory
texts a =
    if a == 10
    then 97
    else if a == 11
    then 98
    else if a == 12
    then 99
    else if a == 20
    then 97
    else if a == 21
    then 98
    else if a == 22
    then 100
    else 0

texts-IsBytes : IsBytes texts
texts-IsBytes a = ground arith

abbrev abc : List ℕ
abc = 97 ∷ 98 ∷ 99 ∷ []

abbrev abd : List ℕ
abd = 97 ∷ 98 ∷ 100 ∷ []

abbrev old_processor : Processor
old_processor = record {
  cpuid = λ leaf sub. record { eax = 1; ebx = 0; ecx = 0; edx = 2 ^ 26 };
  xgetbv = (0, 0);
}

abbrev no_processor : Processor
no_processor = record {
  cpuid = λ leaf sub. record { eax = 0; ebx = 0; ecx = 0; edx = 0 };
  xgetbv = (0, 0);
}

cpu_features_stable_example :
    let first = cpu_features old_processor (pos 0) in
    (first.0 ≡ 1) × (cpu_features no_processor first.1 ≡ first)
cpu_features_stable_example = cpu_features_stable old_processor no_processor

memmove-move_example : memmove 7 103 100 600 cells ≡ (103, move 600 103 100 cells)
memmove-move_example = memmove-move 7 103 100 600 cells (omega arith) (omega arith)

memcpy-move_example : memcpy 1 1000 100 200 cells ≡ (1000, move 200 1000 100 cells)
memcpy-move_example = memcpy-move 1 1000 100 200 cells (inr (omega arith))

memset-fill_example : memset 0 5 0x1ff 20 cells ≡ (5, fill 20 5 255 cells)
memset-fill_example = memset-fill 0 5 0x1ff 20 cells

memchr-span_example :
    memchr 3 10 99 70 texts
    ≡ (if span (holds texts 99) 70 10 == 70 then none else some (10 + span (holds texts 99) 70 10))
memchr-span_example = memchr-span 3 10 99 70 texts texts-IsBytes

strnlen-span_example : strnlen 0 10 70 texts ≡ span (holds texts 0) 70 10
strnlen-span_example = strnlen-span 0 10 70 texts texts-IsBytes

strlen-length_example : strlen 9 0 10 texts ≡ 3
strlen-length_example =
    strlen-length 9 0 10 texts abc texts-IsBytes (ground arith) (omega arith) (omega arith)

memcmp-byte_difference_example : memcmp 10 20 3 texts ≡ byte_difference texts 3 10 20
memcmp-byte_difference_example = memcmp-byte_difference 10 20 3 texts texts-IsBytes

strcmp-difference_example : strcmp 9 10 20 texts ≡ difference abc abd
strcmp-difference_example =
    strcmp-difference 9 10 20 texts abc abd (ground arith) (ground arith) (omega arith)

-- Runs.
overlapping : (memmove 0 12 10 20 cells).1 20 ≡ 18
unfolding memmove memmove_backward copy_words_down move
overlapping = refl

found : memchr 1 10 99 70 texts ≡ some 12
unfolding memchr memchr_sse2 vectors lanes_hit simd_has
found = refl

-- " -42" at 100.
abbrev numeral_text : Memory
numeral_text i =
    if i == 100
    then 32
    else if i == 101
    then 45
    else if i == 102
    then 52
    else if i == 103
    then 50
    else 0

numeral_text-HasNumeral : HasNumeral numeral_text 100 (pos 10) 1 10 102 4 (2 ∷ [])
unfolding isspace isblank digit_below digit_value numeral_base skip_sign
numeral_text-HasNumeral = record {
  blank = λ i h. let e : 100 + i ≡ 100 = omega arith in rw e refl;
  no_blank = refl;
  prefix = refl;
  low = omega arith;
  high = omega arith;
  digits = (refl, (refl, refl));
}

strtol-bounded_example : strtol 9 numeral_text 100 (pos 10) ≡ (negsuc 41, 104)
unfolding value_from
strtol-bounded_example =
    strtol-bounded numeral_text 100 (pos 10) 1 10 102 4 (2 ∷ []) numeral_text-HasNumeral 9
      (omega arith) (omega arith)

-- The comparison of the key 30 with the number at an address, in an array of 10, 20, ... at 0.
abbrev compare_thirty : ℕ → ℤ
compare_thirty p = if ltb (10 * p) 30 then pos 1 else if 10 * p == 30 then pos 0 else negsuc 0

array-IsSorted : IsSorted compare_thirty 1 0 6
array-IsSorted = record { left = λ i j h k u. ground arith; right = λ i j h k u. ground arith }

bsearch-Searched_example : Searched compare_thirty 1 0 6 (bsearch 0 6 1 compare_thirty)
bsearch-Searched_example = bsearch-Searched 0 6 1 compare_thirty array-IsSorted

abc_at_10 : IsString texts 10 abc
abc_at_10 = ground arith

abd_at_20 : IsString texts 20 abd
abd_at_20 = ground arith
