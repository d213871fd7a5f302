-- ===== src/Libc/Number.antt =====
-- Numbers from text: `digit_value` to `atol` of libc/src/stdlib.c, and `isspace` of libc/src/ctype.c.
pub mod Runs
pub mod Laws
use rhkernel.Prelude.{
  ℕ, zero, suc, ◌+◌, ◌-◌, ◌*◌, ◌/◌, ◌%◌, ◌^◌, Bool, true, false, not, ◌&&◌, ◌||◌, leb, ltb, ◌==◌,
  if◌then◌else◌, Option, none, some, while,
}
use rhkernel.Prelude.Int.{ℤ, pos, negsuc}
use rhkernel.Libc.Memory.{Memory}

abbrev pub ulong_max : ℕ
ulong_max = 2 ^ 64 - 1

abbrev pub long_max : ℕ
long_max = 2 ^ 63 - 1

unfoldable pub isblank : ℕ → Bool
isblank c = c == 32 || c == 9

unfoldable pub isspace : ℕ → Bool
unfolding isblank
isspace c = isblank c || (c == 10 || (c == 13 || (c == 12 || c == 11)))

-- `none` is -1.
unfoldable pub digit_value : ℕ → Option ℕ
digit_value c =
    if leb 48 c && leb c 57
    then some (c - 48)
    else if leb 97 c && leb c 122
    then some (c - 97 + 10)
    else if leb 65 c && leb c 90
    then some (c - 65 + 10)
    else none

-- The digit that `d < 0 || d >= base` lets through.
unfoldable pub digit_below : ℕ → ℕ → Option ℕ
digit_below base c = elim (digit_value c) [
  | none ↦ none
  | some d ↦ if leb base d then none else some d
]

unfoldable pub is_digit : ℕ → ℕ → Bool
is_digit base c = elim (digit_below base c) [ none ↦ false | some d ↦ true ]

-- The locals of the digit loop: `acc`, `any` and `s`.
pub record Digits : Type 0 where
  pub acc : ℕ
  pub any : Bool
  pub at : ℕ

-- `do { s++; } while (…)`
unfoldable pub skip_digits : ℕ → ℕ → Memory → ℕ → ℕ
skip_digits fuel base m s = while fuel (λ p. is_digit base (m p)) (λ p. p + 1) (s + 1)

-- `for (;;)`, for at most `fuel` rounds.
unfoldable pub digit_loop : ℕ → ℕ → Memory → Digits → Digits
digit_loop zero base m x = x
digit_loop (suc fuel) base m x = elim (digit_below base (m x.at)) [
  | none ↦ x
  | some d ↦
      if ltb ((ulong_max - d) / base) x.acc
      then record { acc = ulong_max; any = true; at = skip_digits fuel base m x.at }
      else digit_loop fuel base m (record { acc = x.acc * base + d; any = true; at = x.at + 1 })
]

-- `s[0] == '0' && (s[1] == 'x' || s[1] == 'X')`
unfoldable pub hex_prefix : Memory → ℕ → Bool
hex_prefix m s = m s == 48 && (m (s + 1) == 120 || m (s + 1) == 88)

-- The base and the place of the first digit. A negative base is refused like 0 would be below.
unfoldable pub numeral_base : ℤ → Memory → ℕ → ℕ × ℕ
numeral_base (negsuc b) m s = (0, s)
numeral_base (pos b) m s =
    if b == 0
    then if hex_prefix m s then (16, s + 2) else if m s == 48 then (8, s) else (10, s)
    else if b == 16 && hex_prefix m s
    then (16, s + 2)
    else (b, s)

-- The value, `*endptr` and `*neg`.
pub record Parsed : Type 0 where
  pub value : ℕ
  pub end : ℕ
  pub neg : Bool

unfoldable pub skip_spaces : ℕ → Memory → ℕ → ℕ
skip_spaces fuel m s = while fuel (λ p. isspace (m p)) (λ p. p + 1) s

-- `if (*s == '+' || *s == '-') s++`
unfoldable pub skip_sign : Memory → ℕ → ℕ
skip_sign m s = if m s == 43 || m s == 45 then s + 1 else s

abbrev pub finish : ℕ → Bool → Digits → Parsed
finish nptr neg x = record { value = x.acc; end = if x.any then x.at else nptr; neg = neg }

-- The part below the sign.
unfoldable pub parse_magnitude : ℕ → Memory → ℕ → Bool → ℕ × ℕ → Parsed
parse_magnitude fuel m nptr neg (base, s) =
    if ltb base 2 || ltb 36 base
    then record { value = 0; end = nptr; neg = neg }
    else finish nptr neg (digit_loop fuel base m (record { acc = 0; any = false; at = s }))

-- `fuel` bounds the rounds of each loop.
unfoldable pub parse_unsigned : ℕ → Memory → ℕ → ℤ → Parsed
parse_unsigned fuel m nptr base =
    let s = skip_spaces fuel m nptr in
    parse_magnitude fuel m nptr (m s == 45) (numeral_base base m (skip_sign m s))

abbrev pub negated : Parsed → ℕ
negated r = if r.neg then (2 ^ 64 - r.value) % 2 ^ 64 else r.value

-- The value and `*endptr`.
unfoldable pub strtoul : ℕ → Memory → ℕ → ℤ → ℕ × ℕ
strtoul fuel m nptr base = let r = parse_unsigned fuel m nptr base in (negated r, r.end)

abbrev pub minus : ℕ → ℤ
minus zero = pos 0
minus (suc n) = negsuc n

-- What `strtol` makes of the sign and the value.
unfoldable pub clamp : Bool → ℕ → ℤ
clamp neg value =
    let limit = if neg then long_max + 1 else long_max in
    let kept = if ltb limit value then limit else value in
    if neg then if kept == long_max + 1 then negsuc long_max else minus kept else pos kept

unfoldable pub strtol : ℕ → Memory → ℕ → ℤ → ℤ × ℕ
strtol fuel m nptr base = let r = parse_unsigned fuel m nptr base in (clamp r.neg r.value, r.end)

-- `(int)`, which keeps the low 32 bits.
unfoldable pub int_of : ℤ → ℤ
int_of (pos n) =
    let low = n % 2 ^ 32 in if ltb low (2 ^ 31) then pos low else negsuc (2 ^ 32 - 1 - low)
int_of (negsuc n) =
    let low = n % 2 ^ 32 in if ltb low (2 ^ 31) then negsuc low else pos (2 ^ 32 - 1 - low)

unfoldable pub atoi : ℕ → Memory → ℕ → ℤ
atoi fuel m nptr = int_of (strtol fuel m nptr (pos 10)).0

unfoldable pub atol : ℕ → Memory → ℕ → ℤ
atol fuel m nptr = (strtol fuel m nptr (pos 10)).0
