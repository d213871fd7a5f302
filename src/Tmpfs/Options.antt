-- ===== src/Tmpfs/Options.antt =====
-- The mount options of module/tmpfs/src/tmpfs.c: `parse_uint`, `parse_octal` and `parse_opts`.
pub mod Numbers
pub mod Sizes
use rhkernel.Prelude.{
  ℕ, zero, suc, ◌+◌, ◌-◌, ◌*◌, ◌/◌, ◌%◌, ◌^◌, bit_or, Bool, true, false, not, ◌&&◌, ◌||◌, leb, ltb,
  ◌==◌, if◌then◌else◌, Option, none, some, List, [], ◌∷◌, while, Round, next, leave, return_while,
}
use rhkernel.Libc.Memory.{Memory}
use rhkernel.Tmpfs.Account.{Mount, u64}
use rhkernel.Tmpfs.File.{uint64_max}

abbrev pub uint32_max : ℕ
uint32_max = 2 ^ 32 - 1

abbrev pub tmpfs_default_limit : ℕ
tmpfs_default_limit = 16 * 1024 * 1024

abbrev pub is_numeral : ℕ → ℕ → Bool
is_numeral last c = leb 48 c && leb c last

-- The loop of `parse_uint` and `parse_octal`: digits up to the byte `last`, the next value by `grow`, and the result
-- `error` with the place of the digit if that value is below the last one.
unfoldable pub digits : ℕ → (ℕ → ℕ → ℕ) → ℕ → ℕ → Memory → ℕ → ℕ → ℕ × ℕ
digits last grow error zero m v s = (v, s)
digits last grow error (suc fuel) m v s = elim (is_numeral last (m s)) [
  | false ↦ (v, s)
  | true ↦ elim (ltb (grow v (m s - 48)) v) [
    | true ↦ (error, s)
    | false ↦ digits last grow error fuel m (grow v (m s - 48)) (s + 1)
  ]
]

-- The value and `*end`. No call has a null pointer for the text or for `end`.
unfoldable pub parse_uint : ℕ → Memory → ℕ → ℕ × ℕ
parse_uint fuel m s =
    if is_numeral 57 (m s)
    then digits 57 (λ v d. u64 (v * 10 + d)) uint64_max fuel m 0 s
    else (uint64_max, s)

unfoldable pub parse_octal : ℕ → Memory → ℕ → ℕ × ℕ
parse_octal fuel m s =
    if is_numeral 55 (m s)
    then digits 55 (λ v d. bit_or (v * 8 % 2 ^ 32) d) uint32_max fuel m 0 s
    else (uint32_max, s)

-- `strncmp(p, text, n) == 0` for a text without zero bytes.
unfoldable pub same_start : ℕ → List ℕ → Memory → ℕ → Bool
same_start zero text m p = true
same_start (suc n) [] m p = m p == 0
same_start (suc n) (x ∷ xs) m p = m p == x && same_start n xs m (p + 1)

-- "size=", "mode=", "rw" and "defaults".
abbrev pub size_key : List ℕ
size_key = 115 ∷ 105 ∷ 122 ∷ 101 ∷ 61 ∷ []

abbrev pub mode_key : List ℕ
mode_key = 109 ∷ 111 ∷ 100 ∷ 101 ∷ 61 ∷ []

abbrev pub rw_word : List ℕ
rw_word = 114 ∷ 119 ∷ []

abbrev pub defaults_word : List ℕ
defaults_word = 100 ∷ 101 ∷ 102 ∷ 97 ∷ 117 ∷ 108 ∷ 116 ∷ 115 ∷ []

-- What K, M and G in either case multiply by.
unfoldable pub suffix : ℕ → Option ℕ
suffix c =
    if c == 75 || c == 107
    then some 1024
    else if c == 77 || c == 109
    then some (1024 * 1024)
    else if c == 71 || c == 103
    then some (1024 * 1024 * 1024)
    else none

-- `none` for -1. The number has to end where the option ends.
unfoldable pub exact_size : ℕ → ℕ → ℕ → Option ℕ
exact_size len v taken = if not (taken == len) || v == 0 then none else some v

unfoldable pub scaled_size : ℕ → ℕ → ℕ → Option ℕ → Option ℕ
scaled_size len v taken none = exact_size len v taken
scaled_size len v taken (some k) =
    if ltb (uint64_max / k) v then none else exact_size len (v * k) (taken + 1)

unfoldable pub size_value : Memory → ℕ → ℕ → ℕ × ℕ → Option ℕ
size_value m p len (v, end) =
    if v == uint64_max then none else scaled_size len v (end - p) (suffix (m end))

unfoldable pub mode_value : ℕ → ℕ → ℕ × ℕ → Option ℕ
mode_value p len (v, end) =
    if v == uint32_max || (not (end - p == len) || ltb 4095 v) then none else some v

unfoldable pub set_limit : Mount → Option ℕ → Option Mount
set_limit mnt none = none
set_limit mnt (some v) = some (record mnt { limit = v })

unfoldable pub set_mode : Mount → Option ℕ → Option Mount
set_mode mnt none = none
set_mode mnt (some v) = some (record mnt { default_mode = v })

-- The option of `len` bytes at `p`.
unfoldable pub apply_option : ℕ → Memory → ℕ → ℕ → Mount → Option Mount
apply_option fuel m p len mnt =
    if ltb 5 len && same_start 5 size_key m p
    then set_limit mnt (size_value m p len (parse_uint fuel m (p + 5)))
    else if ltb 5 len && same_start 5 mode_key m p
    then set_mode mnt (mode_value p len (parse_octal fuel m (p + 5)))
    else if not (len == 0)
        && (not (same_start len rw_word m p) && not (same_start len defaults_word m p))
    then none
    else some mnt

-- `while (*e && *e != ',') e++`
unfoldable pub option_end : ℕ → Memory → ℕ → ℕ
option_end fuel m p = while fuel (λ e. not (m e == 0) && not (m e == 44)) (λ e. e + 1) p

-- `p += len; if (*p == ',') p++`, if the option is good.
unfoldable pub next_option : Memory → ℕ → Option Mount → Round (ℕ × Mount) Bool
next_option m p none = leave false
next_option m p (some mnt) = next (if m p == 44 then p + 1 else p, mnt)

unfoldable pub option_round : ℕ → Memory → ℕ × Mount → Round (ℕ × Mount) Bool
option_round fuel m (p, mnt) =
    let len = option_end fuel m p - p in next_option m (p + len) (apply_option fuel m p len mnt)

-- `while (*p)`; a loop that is left is the result -1.
unfoldable pub options_loop : ℕ → Memory → ℕ × Mount → Round (ℕ × Mount) Bool
options_loop fuel m x = return_while fuel (λ x. not (m x.0 == 0)) (option_round fuel m) x

abbrev pub with_defaults : Mount → Mount
with_defaults mnt = record mnt { limit = tmpfs_default_limit; default_mode = 420 }

abbrev pub result_mount : Round (ℕ × Mount) Bool → Option Mount
result_mount (next x) = some x.1
result_mount (leave b) = none

-- `none` for the flags is null; a null or empty text gives the defaults. `fuel` bounds the rounds of each loop.
unfoldable pub parse_opts : ℕ → Memory → Option ℕ → Mount → Option Mount
parse_opts fuel m none mnt = some (with_defaults mnt)
parse_opts fuel m (some flags) mnt = result_mount (options_loop fuel m (flags, with_defaults mnt))
