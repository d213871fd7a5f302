-- ===== src/Libc/Print/Meaning.antt =====
-- The text that a format stands for, read off its directives.
use rhkernel.Prelude.{
  ℕ, zero, suc, ◌-◌, ◌/◌, ◌%◌, ◌^◌, Bool, true, false, ltb, ◌==◌, if◌then◌else◌, Option, none, some,
  List, [], ◌∷◌, ◌++◌, get_or,
}
use rhkernel.Libc.Memory.{Memory}
use rhkernel.Libc.Print.Format.{Mode, plain, percent, one_l, two_l, text_at}

-- "0123456789abcdef" and "0123456789ABCDEF"
abbrev pub lower_digits : List ℕ
lower_digits = 48 ∷ 49 ∷ 50 ∷ 51 ∷ 52 ∷ 53 ∷ 54 ∷ 55 ∷ 56 ∷ 57 ∷ 97 ∷ 98 ∷ 99 ∷ 100 ∷ 101 ∷ 102 ∷ []

abbrev pub upper_digits : List ℕ
upper_digits = 48 ∷ 49 ∷ 50 ∷ 51 ∷ 52 ∷ 53 ∷ 54 ∷ 55 ∷ 56 ∷ 57 ∷ 65 ∷ 66 ∷ 67 ∷ 68 ∷ 69 ∷ 70 ∷ []

-- A number of at most `fuel` digits, the highest first, without leading zeroes.
unfoldable pub numeral : ℕ → List ℕ → ℕ → ℕ → List ℕ
numeral zero symbols base value = []
numeral (suc fuel) symbols base value =
    let front = numeral fuel symbols base (value / base) in
    (if ltb value base then [] else front) ++ get_or symbols (value % base) 0 ∷ []

-- What a directive shows.
pub data Kind : Type 0 where
  character : Kind
  string : Kind
  signed : Kind
  unsigned : Kind
  lower_hex : Kind
  upper_hex : Kind
  pointer : Kind

-- The letters c, s, d, i, u, x, X and p.
abbrev pub kinds : List (ℕ × Kind)
kinds =
    (99, character)
    ∷ (115, string)
    ∷ (100, signed)
    ∷ (105, signed)
    ∷ (117, unsigned)
    ∷ (120, lower_hex)
    ∷ (88, upper_hex)
    ∷ (112, pointer)
    ∷ []

abbrev pub kind_in : List (ℕ × Kind) → ℕ → Option Kind
kind_in [] c = none
kind_in ((d, k) ∷ ks) c = if c == d then some k else kind_in ks c

-- The bits of an argument, with a letter l and without.
abbrev pub argument_bits : Bool → ℕ
argument_bits true = 64
argument_bits false = 32

-- The number of `bits` bits in two's complement.
abbrev pub signed_numeral : ℕ → ℕ → List ℕ
signed_numeral bits v =
    if ltb v (2 ^ (bits - 1))
    then numeral 64 lower_digits 10 v
    else 45 ∷ numeral 64 lower_digits 10 (2 ^ bits - v)

module _ (fuel : ℕ) (m : Memory) where
  -- The text of an argument; a null string is "(null)".
  unfoldable pub shown : Kind → Bool → ℕ → List ℕ
  shown character long slot = (slot % 256) ∷ []
  shown string long slot =
      if slot % 2 ^ 64 == 0
      then 40 ∷ 110 ∷ 117 ∷ 108 ∷ 108 ∷ 41 ∷ []
      else text_at fuel m (slot % 2 ^ 64)
  shown signed long slot = signed_numeral (argument_bits long) (slot % 2 ^ argument_bits long)
  shown unsigned long slot = numeral 64 lower_digits 10 (slot % 2 ^ argument_bits long)
  shown lower_hex long slot = numeral 64 lower_digits 16 (slot % 2 ^ argument_bits long)
  shown upper_hex long slot = numeral 64 upper_digits 16 (slot % 2 ^ argument_bits long)
  shown pointer long slot = 48 ∷ 120 ∷ numeral 64 lower_digits 16 (slot % 2 ^ 64)

  -- The text of a directive with the letter `c`, and the arguments behind it. Missing arguments are 0; a letter that shows
  -- nothing stands for itself behind the percent sign.
  unfoldable pub directive_text : Option Kind → ℕ → Bool → List ℕ → List ℕ × List ℕ
  directive_text none c long args = (if c == 37 then 37 ∷ [] else 37 ∷ c ∷ [], args)
  directive_text (some k) c long [] = (shown k long 0, [])
  directive_text (some k) c long (slot ∷ args) = (shown k long slot, args)

  unfoldable pub meaning : Mode → List ℕ → List ℕ → List ℕ
  meaning mode [] args = []
  meaning plain (c ∷ cs) args =
      let directive = meaning percent cs args in
      let more = c ∷ meaning plain cs args in if c == 37 then directive else more
  meaning percent (c ∷ cs) args =
      let long = meaning one_l cs args in
      let d = directive_text (kind_in kinds c) c false args in
      let done = d.0 ++ meaning plain cs d.1 in if c == 108 then long else done
  meaning one_l (c ∷ cs) args =
      let long = meaning two_l cs args in
      let d = directive_text (kind_in kinds c) c true args in
      let done = d.0 ++ meaning plain cs d.1 in if c == 108 then long else done
  meaning two_l (c ∷ cs) args =
      let d = directive_text (kind_in kinds c) c true args in d.0 ++ meaning plain cs d.1
