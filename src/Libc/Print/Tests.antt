-- ===== src/Libc/Print/Tests.antt =====
-- The theorems on libc/src/stdio.c at concrete inputs.
use rhkernel.Prelude.{ℕ, ◌+◌, ◌-◌, ◌^◌, ◌≡◌, List, [], ◌∷◌, get_or, arith}
use rhkernel.Prelude.Int.{pos, negsuc}
use rhkernel.Libc.Memory.{Memory}
use rhkernel.Libc.Number.{strtoul, strtol}
use rhkernel.Libc.Print.{vsnprintf}
use rhkernel.Libc.Print.Meaning.{meaning, shown, directive_text, numeral}
use rhkernel.Libc.Print.Result.{terminated, vsnprintf-text}
use rhkernel.Libc.Print.Reading.{hex, vsnprintf-strtoul, vsnprintf-strtol}

-- The text `cs` at 100 and nothing else.
abbrev text_memory : List ℕ → Memory
text_memory cs a = get_or cs (a - 100) 0

abbrev empty_memory : Memory
empty_memory a = 0

-- "a%d%%", whose text is cut to a buffer of four bytes.
abbrev mixed : List ℕ
mixed = 97 ∷ 37 ∷ 100 ∷ 37 ∷ 37 ∷ []

vsnprintf-text_example :
    vsnprintf 9 500 4 (text_memory mixed) 100 ((2 ^ 32 - 42) ∷ []) empty_memory
    ≡ (5, terminated 500 4 (97 ∷ 45 ∷ 52 ∷ 50 ∷ 37 ∷ []) empty_memory)
unfolding meaning shown directive_text numeral
vsnprintf-text_example =
    vsnprintf-text 9 500 4 (text_memory mixed) 100 mixed ((2 ^ 32 - 42) ∷ []) empty_memory
      (ground arith) (omega arith)

vsnprintf-strtoul_example :
    strtoul 30
      (vsnprintf 9 500 32 (text_memory (37 ∷ 108 ∷ 120 ∷ [])) 100 (48879 ∷ []) empty_memory).1
      500
      (pos 16)
    ≡ (
      48879,
      500
          + (vsnprintf 9 500 32
              (text_memory (37 ∷ 108 ∷ 120 ∷ []))
              100
              (48879 ∷ [])
              empty_memory).0,
    )
vsnprintf-strtoul_example =
    vsnprintf-strtoul hex 9 30 500 32 (text_memory (37 ∷ 108 ∷ 120 ∷ [])) 100 48879 empty_memory
      (ground arith) (omega arith) (omega arith) (omega arith) (omega arith)

vsnprintf-strtol_example :
    strtol 30
      (vsnprintf 9 500 32
        (text_memory (37 ∷ 108 ∷ 100 ∷ []))
        100
        ((2 ^ 64 - 42) ∷ [])
        empty_memory).1
      500
      (pos 10)
    ≡ (
      negsuc 41,
      500
          + (vsnprintf 9 500 32
              (text_memory (37 ∷ 108 ∷ 100 ∷ []))
              100
              ((2 ^ 64 - 42) ∷ [])
              empty_memory).0,
    )
vsnprintf-strtol_example =
    vsnprintf-strtol 9 30 500 32 (text_memory (37 ∷ 108 ∷ 100 ∷ [])) 100 (2 ^ 64 - 42) empty_memory
      (ground arith) (omega arith) (omega arith) (omega arith) (omega arith)
