-- ===== src/Libc/Print.antt =====
-- Formatted output into a buffer, `out_ch` to `vsnprintf` of libc/src/stdio.c. The text that is read and the buffer are
-- separate memories, as `restrict` has it; the arguments are the 64-bit slots that `va_arg` reads in turn.
pub mod Emit
pub mod Format
pub mod Meaning
pub mod Shown
pub mod Result
pub mod Digits
mod RoundTrip
mod Tests
pub mod Reading
use rhkernel.Prelude.{
  ℕ, zero, suc, ◌+◌, ◌-◌, ◌*◌, ◌/◌, ◌%◌, ◌^◌, Bool, true, false, not, ◌&&◌, ◌||◌, leb, ltb, ◌==◌,
  if◌then◌else◌, Option, none, some, List, [], ◌∷◌,
}
use rhkernel.Libc.Memory.{Memory, fill}

-- `struct outbuf`, with the memory that `buf` points to.
pub record Outbuf : Type 0 where
  pub buf : ℕ
  pub size : ℕ
  pub used : ℕ
  pub memory : Memory

unfoldable pub out_ch : ℕ → Outbuf → Outbuf
out_ch c out =
    if not (out.size == 0) && ltb (out.used + 1) out.size
    then record out { memory = fill 1 (out.buf + out.used) c out.memory; used = out.used + 1 }
    else record out { used = out.used + 1 }

abbrev null_text : List ℕ
null_text = 40 ∷ 110 ∷ 117 ∷ 108 ∷ 108 ∷ 41 ∷ []

unfoldable pub out_list : List ℕ → Outbuf → Outbuf
out_list [] out = out
out_list (c ∷ cs) out = out_list cs (out_ch c out)

-- `while (*s) out_ch(out, *s++)`, for at most `fuel` rounds.
unfoldable pub out_text : ℕ → Memory → ℕ → Outbuf → Outbuf
out_text zero m s out = out
out_text (suc fuel) m s out = elim (m s == 0) [
  | true ↦ out
  | false ↦ out_text fuel m (s + 1) (out_ch (m s) out)
]

-- The address 0 is the null pointer.
unfoldable pub out_str : ℕ → Memory → ℕ → Outbuf → Outbuf
out_str fuel m s out = if s == 0 then out_list null_text out else out_text fuel m s out

-- The character of "0123456789abcdef" or of its upper case.
unfoldable pub digit_char : Bool → ℕ → ℕ
digit_char upper d = if ltb d 10 then 48 + d else if upper then 55 + d else 87 + d

-- `do { tmp[n++] = digits[value % base]; value /= base; } while (value)`, with the characters of `tmp` from the last to
-- the first.
unfoldable pub tmp_digits : ℕ → ℕ → Bool → ℕ → List ℕ → List ℕ
tmp_digits zero base upper value tmp = tmp
tmp_digits (suc fuel) base upper value tmp = elim (value / base == 0) [
  | true ↦ digit_char upper (value % base) ∷ tmp
  | false ↦ tmp_digits fuel base upper (value / base) (digit_char upper (value % base) ∷ tmp)
]

-- A value of 64 bits has at most 64 digits.
unfoldable pub out_uint : ℕ → ℕ → Bool → Outbuf → Outbuf
out_uint value base upper out = out_list (tmp_digits 64 base upper value []) out

-- `va_arg` of an unsigned argument.
unfoldable pub unsigned_arg : Bool → ℕ → ℕ
unsigned_arg long slot = if long then slot % 2 ^ 64 else slot % 2 ^ 32

-- The sign and the absolute value of a signed argument.
unfoldable pub signed_arg : Bool → ℕ → Bool × ℕ
signed_arg long slot =
    let width = if long then 2 ^ 64 else 2 ^ 32 in
    let v = unsigned_arg long slot in if ltb v (width / 2) then (false, v) else (true, width - v)

unfoldable pub out_int : Bool × ℕ → Outbuf → Outbuf
out_int (negative, v) out = out_uint v 10 false (if negative then out_ch 45 out else out)

-- The `switch`, for a character that is not 0 and the slot of the argument that it takes.
unfoldable pub convert : ℕ → Memory → ℕ → Bool → ℕ → Outbuf → Outbuf
convert fuel m c long slot out =
    if c == 37
    then out_ch 37 out
    else if c == 99
    then out_ch (slot % 256) out
    else if c == 115
    then out_str fuel m (slot % 2 ^ 64) out
    else if c == 100 || c == 105
    then out_int (signed_arg long slot) out
    else if c == 117
    then out_uint (unsigned_arg long slot) 10 false out
    else if c == 120
    then out_uint (unsigned_arg long slot) 16 false out
    else if c == 88
    then out_uint (unsigned_arg long slot) 16 true out
    else if c == 112
    then out_uint (slot % 2 ^ 64) 16 false (out_list (48 ∷ 120 ∷ []) out)
    else out_ch c (out_ch 37 out)

-- Whether the `switch` reads an argument.
unfoldable pub takes_arg : ℕ → Bool
takes_arg c =
    c == 99
    || (c == 115 || (c == 100 || (c == 105 || (c == 117 || (c == 120 || (c == 88 || c == 112))))))

abbrev pub first_slot : List ℕ → ℕ
first_slot [] = 0
first_slot (x ∷ xs) = x

abbrev pub rest_slots : Bool → List ℕ → List ℕ
rest_slots false xs = xs
rest_slots true [] = []
rest_slots true (x ∷ xs) = xs

-- The `l` or `ll` at `p`: whether there is one, and the place behind it.
unfoldable pub skip_long : Memory → ℕ → Bool × ℕ
skip_long m p = if m p == 108 then (true, if m (p + 1) == 108 then p + 2 else p + 1) else (false, p)

-- `for (; *fmt; fmt++)`, for at most `rounds` rounds; `fuel` is for the strings among the arguments.
unfoldable pub format_loop : ℕ → ℕ → Memory → ℕ → List ℕ → Outbuf → Outbuf
format_loop zero fuel m p args out = out
format_loop (suc rounds) fuel m p args out = elim (m p == 0) [
  | true ↦ out
  | false ↦ elim (m p == 37) [
    | false ↦ format_loop rounds fuel m (p + 1) args (out_ch (m p) out)
    | true ↦ elim (m (skip_long m (p + 1)).1 == 0) [
      | true ↦ out
      | false ↦
          format_loop rounds fuel m ((skip_long m (p + 1)).1 + 1)
            (rest_slots (takes_arg (m (skip_long m (p + 1)).1)) args)
            (convert fuel m (m (skip_long m (p + 1)).1) (skip_long m (p + 1)).0 (first_slot args)
              out)
    ]
  ]
]

-- `if (size) buf[out.used < size ? out.used : size - 1] = 0`
unfoldable pub end_output : Outbuf → Memory
end_output out =
    if out.size == 0
    then out.memory
    else fill 1 (out.buf + (if ltb out.used out.size then out.used else out.size - 1)) 0 out.memory

-- The result and the memory of the buffer.
unfoldable pub vsnprintf : ℕ → ℕ → ℕ → Memory → ℕ → List ℕ → Memory → ℕ × Memory
vsnprintf fuel buf size m fmt args memory =
    let out =
      format_loop fuel fuel m fmt args
        (record { buf = buf; size = size; used = 0; memory = memory }) in
    (if ltb (2 ^ 31 - 1) out.used then 2 ^ 31 - 1 else out.used, end_output out)
