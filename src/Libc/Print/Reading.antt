-- ===== src/Libc/Print/Reading.antt =====
-- A number that `vsnprintf` writes is the number that `strtoul` and `strtol` read back.
use rhkernel.Prelude.{
  ℕ, suc, ◌+◌, ◌-◌, ◌%◌, ◌^◌, ◌≤◌, ◌<◌, ◌≡◌, refl, ap, ◌∙◌, subst, Bool, true, false, ltb,
  if◌then◌else◌, ◌⊎◌, inl, inr, List, [], ◌∷◌, map, length, min, arith, Bool-cases,
}
use mathlib.Core.List.{append-nil}
use rhkernel.Prelude.Int.{ℤ, pos}
use rhkernel.Libc.Memory.{Memory}
use rhkernel.Libc.Text.{IsString}
use rhkernel.Libc.Number.{strtoul, strtol, minus}
use rhkernel.Libc.Number.Runs.{HasDigits, value_from}
use rhkernel.Libc.Print.{digit_char, unsigned_arg, signed_arg, vsnprintf}
use rhkernel.Libc.Print.Format.{plain, format_text, convert_text, uint_text, int_text}
use rhkernel.Libc.Print.Result.{terminated, vsnprintf-format_text}
use rhkernel.Libc.Print.Digits.{
  number_digits, tmp_digits-chars, number_digits-value, number_digits-below, number_digits-length,
  number_digits-some, length-map, HasText, HasText-HasDigits,
}
use rhkernel.Libc.Print.RoundTrip.{terminated-HasText, read_unsigned, read_plain, read_minus}

-- The letters u, x and X of a directive.
pub data Notation : Type 0 where
  decimal : Notation
  hex : Notation
  upper_hex : Notation

abbrev pub letter : Notation → ℕ
letter decimal = 117
letter hex = 120
letter upper_hex = 88

abbrev pub radix : Notation → ℕ
radix decimal = 10
radix hex = 16
radix upper_hex = 16

abbrev is_upper : Notation → Bool
is_upper decimal = false
is_upper hex = false
is_upper upper_hex = true

radix-allowed : (n : Notation) → (radix n ≡ 10) ⊎ (radix n ≡ 16)
radix-allowed decimal = inl refl
radix-allowed hex = inr refl
radix-allowed upper_hex = inr refl

-- The directive of an unsigned long, and that of a long.
abbrev pub unsigned_format : Notation → List ℕ
unsigned_format n = 37 ∷ 108 ∷ letter n ∷ []

abbrev pub signed_format : List ℕ
signed_format = 37 ∷ 108 ∷ 100 ∷ []

abbrev digits_of : Notation → ℕ → List ℕ
digits_of n value = number_digits 64 (radix n) value []

unsigned_text :
    (n : Notation) (fuel : ℕ) (m : Memory) (value : ℕ)
    → value < 2 ^ 64
    → format_text fuel m plain (unsigned_format n) (value ∷ [])
      ≡ map (digit_char (is_upper n)) (digits_of n value)
unfolding format_text convert_text uint_text unsigned_arg
unsigned_text decimal fuel m value h =
    let same : value % 2 ^ 64 ≡ value = omega arith in
    append-nil _ ∙ rw same (tmp_digits-chars 64 10 false value [])
unsigned_text hex fuel m value h =
    let same : value % 2 ^ 64 ≡ value = omega arith in
    append-nil _ ∙ rw same (tmp_digits-chars 64 16 false value [])
unsigned_text upper_hex fuel m value h =
    let same : value % 2 ^ 64 ≡ value = omega arith in
    append-nil _ ∙ rw same (tmp_digits-chars 64 16 true value [])

radix-large : (n : Notation) → 10 ≤ radix n
radix-large decimal = omega arith
radix-large hex = omega arith
radix-large upper_hex = omega arith

radix-small : (n : Notation) → radix n ≤ 16
radix-small decimal = omega arith
radix-small hex = omega arith
radix-small upper_hex = omega arith

digits_of-length : (n : Notation) (value : ℕ) → value < 2 ^ 64 → length (digits_of n value) ≤ 20
digits_of-length n value h =
    number_digits-length 19 64 (radix n) value [] (radix-large n) (omega arith)

digits_of-value :
    (n : Notation) (value : ℕ) → value < 2 ^ 64 → value_from (radix n) 0 (digits_of n value) ≡ value
unfolding value_from
digits_of-value n value h =
    number_digits-value 64 (radix n) value [] (omega (arith, radix-large n)) (omega arith)

digits_of-HasDigits :
    (n : Notation) (value : ℕ) (upper : Bool) (m : Memory) (p : ℕ)
    → HasText m p (map (digit_char upper) (digits_of n value))
    → HasDigits (radix n) m p (digits_of n value)
digits_of-HasDigits n value upper m p h =
    HasText-HasDigits (radix n) upper m p (digits_of n value) (radix-small n)
      (number_digits-below 64 (radix n) value [] (omega (arith, radix-large n)) (omega arith)) h

-- An unsigned long that vsnprintf writes in decimal or hexadecimal digits into a buffer of more than 20 bytes is the one
-- that strtoul reads there in that base, for enough fuel; the end pointer of strtoul is behind the characters that vsnprintf counts.
pub vsnprintf-strtoul :
    (n : Notation) (fuel again buf size : ℕ) (m : Memory) (fmt value : ℕ) (memory : Memory)
    → IsString m fmt (unsigned_format n)
    → value < 2 ^ 64
    → 20 < size
    → 3 < fuel
    → 20 < again
    → (let r = vsnprintf fuel buf size m fmt (value ∷ []) memory in
        strtoul again r.1 buf (pos (radix n)) ≡ (value, buf + r.0))
vsnprintf-strtoul n fuel again buf size m fmt value memory h v room f g =
    let ds = digits_of n value in
    let text = map (digit_char (is_upper n)) ds in
    let short = digits_of-length n value v in
    let count : min (length text) (2 ^ 31 - 1) ≡ length ds =
      omega (arith, length-map (digit_char (is_upper n)) ds) in
    let there =
      terminated-HasText buf size text memory
        (omega (arith, length-map (digit_char (is_upper n)) ds)) in
    let zero_byte : terminated buf size text memory (buf + length ds) ≡ 0 =
      subst (λ (k : ℕ). terminated buf size text memory (buf + k) ≡ 0)
        (length-map (digit_char (is_upper n)) ds) there.zero_behind in
    rw
      (
        vsnprintf-format_text fuel buf size m fmt (unsigned_format n) (value ∷ []) memory h f,
        unsigned_text n fuel m value v,
        count,
      )
      (read_unsigned (radix n) (radix-allowed n) (terminated buf size text memory) again buf value
        ds (number_digits-some 63 (radix n) value [])
        (digits_of-HasDigits n value (is_upper n) _ buf there) zero_byte (digits_of-value n value v)
        v (omega arith))

-- The signed number of a 64-bit slot.
abbrev pub signed_value : ℕ → ℤ
signed_value slot = if ltb slot (2 ^ 63) then pos slot else minus (2 ^ 64 - slot)

signed_text :
    (fuel : ℕ) (m : Memory) (slot : ℕ)
    → slot < 2 ^ 64
    → format_text fuel m plain signed_format (slot ∷ []) ≡ (
        if ltb slot (2 ^ 63)
        then map (digit_char false) (digits_of decimal slot)
        else 45 ∷ map (digit_char false) (digits_of decimal (2 ^ 64 - slot)))
unfolding format_text convert_text int_text uint_text signed_arg unsigned_arg
signed_text fuel m slot h =
    let same : slot % 2 ^ 64 ≡ slot = omega arith in
    append-nil _
    ∙ rw same (elim (Bool-cases (ltb slot (2 ^ 63))) [
      | inl e ↦ rw e (tmp_digits-chars 64 10 false slot [])
      | inr e ↦ rw e (ap (λ (x : List ℕ). 45 ∷ x) (tmp_digits-chars 64 10 false (2 ^ 64 - slot) []))
    ])

HasText-tail :
    (m : Memory) (p c : ℕ) (cs : List ℕ) → HasText m p (c ∷ cs) → (m p ≡ c) × HasText m (p + 1) cs
HasText-tail m p c cs t = (
  ap m (omega arith) ∙ t.bytes 0 (omega arith),
  record {
    bytes = λ i l. ap m (omega arith) ∙ t.bytes (suc i) (omega arith);
    zero_behind = ap m (omega arith) ∙ t.zero_behind;
  },
)

-- `strtol` on the text of a number that is not negative, and on that of one that is.
plain_back :
    (again : ℕ) (m : Memory) (p value : ℕ)
    → HasText m p (map (digit_char false) (digits_of decimal value))
    → value < 2 ^ 63
    → 20 < again
    → strtol again m p (pos 10) ≡ (
      pos value,
      p + min (length (map (digit_char false) (digits_of decimal value))) (2 ^ 31 - 1),
    )
plain_back again m p value t v g =
    let ds = digits_of decimal value in
    let size = length-map (digit_char false) ds in
    let short = digits_of-length decimal value (omega arith) in
    let count : min (length ds) (2 ^ 31 - 1) ≡ length ds = omega arith in
    rw (size, count)
      (read_plain 10 (inl refl) m again p value ds (number_digits-some 63 10 value [])
        (digits_of-HasDigits decimal value false m p t)
        (subst (λ (k : ℕ). m (p + k) ≡ 0) size t.zero_behind)
        (digits_of-value decimal value (omega arith)) v (omega arith))

minus_back :
    (again : ℕ) (m : Memory) (p value : ℕ)
    → HasText m p (45 ∷ map (digit_char false) (digits_of decimal value))
    → value ≤ 2 ^ 63
    → 20 < again
    → strtol again m p (pos 10) ≡ (
      minus value,
      p + min (suc (length (map (digit_char false) (digits_of decimal value)))) (2 ^ 31 - 1),
    )
minus_back again m p value t v g =
    let ds = digits_of decimal value in
    let size = length-map (digit_char false) ds in
    let short = digits_of-length decimal value (omega arith) in
    let count : p + min (suc (length ds)) (2 ^ 31 - 1) ≡ p + 1 + length ds = omega arith in
    let behind = HasText-tail m p 45 (map (digit_char false) ds) t in
    rw (size, count)
      (read_minus 10 (inl refl) m again p value ds (number_digits-some 63 10 value []) behind.0
        (digits_of-HasDigits decimal value false m (p + 1) behind.1)
        (subst (λ (k : ℕ). m (p + 1 + k) ≡ 0) size behind.1.zero_behind)
        (digits_of-value decimal value (omega arith)) v (omega arith))

written-length :
    (value : ℕ) → value < 2 ^ 64 → length (map (digit_char false) (digits_of decimal value)) ≤ 20
written-length value h = omega (
  arith,
  digits_of-length decimal value h,
  length-map (digit_char false) (digits_of decimal value),
)

-- A long that vsnprintf writes in decimal digits into a buffer of more than 21 bytes is the one that strtol reads there, for
-- enough fuel; the end pointer of strtol is behind the characters that vsnprintf counts.
pub vsnprintf-strtol :
    (fuel again buf size : ℕ) (m : Memory) (fmt slot : ℕ) (memory : Memory)
    → IsString m fmt signed_format
    → slot < 2 ^ 64
    → 21 < size
    → 3 < fuel
    → 20 < again
    → (let r = vsnprintf fuel buf size m fmt (slot ∷ []) memory in
        strtol again r.1 buf (pos 10) ≡ (signed_value slot, buf + r.0))
vsnprintf-strtol fuel again buf size m fmt slot memory h v room f g =
    rw
      (
        vsnprintf-format_text fuel buf size m fmt signed_format (slot ∷ []) memory h f,
        signed_text fuel m slot v,
      )
      (elim (Bool-cases (ltb slot (2 ^ 63))) [
        | inl e ↦ rw e (
            plain_back again _ buf slot
              (terminated-HasText buf size (map (digit_char false) (digits_of decimal slot)) memory
                (omega (arith, written-length slot v)))
              (ground arith) g)
        | inr e ↦
            let value = 2 ^ 64 - slot in
            let half : value ≤ 2 ^ 63 = ground arith in
            rw e (
              minus_back again _ buf value
                (terminated-HasText buf size (45 ∷ map (digit_char false) (digits_of decimal value))
                  memory (omega (arith, written-length value (omega arith))))
                half g)
      ])
