-- ===== src/Libc/Number/Laws.antt =====
-- `strtoul`, `strtol` and `atol` on a numeral: blanks, a sign, a prefix and digits.
use rhkernel.Prelude.{
  ℕ, zero, suc, ◌+◌, ◌-◌, ◌%◌, ◌^◌, ◌≤◌, ◌<◌, ◌≡◌, refl, ap, subst, ap₂, ◌∙◌, min, Bool, true,
  false, ltb, ◌==◌, if◌then◌else◌, List, ◌∷◌, length, arith, Bool-cases, inl, inr, while,
}
use rhkernel.Prelude.Int.{ℤ, pos}
use rhkernel.Libc.Memory.{Memory}
use rhkernel.Libc.Number.{
  ulong_max, isspace, numeral_base, skip_spaces, skip_sign, parse_magnitude, parse_unsigned,
  strtoul, strtol, clamp, minus,
}
use rhkernel.Libc.Number.Runs.{HasDigits, value_from, digit_loop-value}

-- A numeral at `p`: `blanks` blanks, then a place `q` that holds a minus if `neg`, maybe a sign, and behind the sign and
-- what `numeral_base` takes for a prefix the digits of a base from 2 to 36, at least one.
pub record HasNumeral (m : Memory) (p : ℕ) (base : ℤ) (blanks radix start : ℕ) (d : ℕ) (ds : List ℕ)
    : Type 0 where
  pub blank : (i : ℕ) → i < blanks → isspace (m (p + i)) ≡ true
  pub no_blank : isspace (m (p + blanks)) ≡ false
  pub prefix : numeral_base base m (skip_sign m (p + blanks)) ≡ (radix, start)
  pub low : 2 ≤ radix
  pub high : radix ≤ 36
  pub digits : HasDigits radix m start (d ∷ ds)

skip_spaces-blanks :
    (m : Memory) (fuel blanks p : ℕ)
    → ((i : ℕ) → i < blanks → isspace (m (p + i)) ≡ true)
    → isspace (m (p + blanks)) ≡ false
    → blanks < fuel
    → skip_spaces fuel m p ≡ p + blanks
unfolding skip_spaces while
skip_spaces-blanks m zero blanks p h k f = absurd (omega arith)
skip_spaces-blanks m (suc fuel) zero p h k f =
    let e : p + 0 ≡ p = omega arith in
    let stop : isspace (m p) ≡ false = subst (λ x. isspace (m x) ≡ false) e k in
    rw stop (omega arith)
skip_spaces-blanks m (suc fuel) (suc blanks) p h k f =
    let e : p + 0 ≡ p = omega arith in
    let go : isspace (m p) ≡ true = subst (λ x. isspace (m x) ≡ true) e (h 0 (omega arith)) in
    let shift : (i : ℕ) → p + suc i ≡ p + 1 + i = λ i. omega arith in
    rw go (
      skip_spaces-blanks m fuel blanks (p + 1)
        (λ i l. subst (λ x. isspace (m x) ≡ true) (shift i) (h (suc i) (omega arith)))
        (subst (λ x. isspace (m x) ≡ false) (shift blanks) k) (omega arith)
      ∙ omega arith)

module _ (m : Memory) (p : ℕ) (base : ℤ) (blanks radix start d : ℕ) (ds : List ℕ)
    (numeral : HasNumeral m p base blanks radix start d ds) (fuel : ℕ) (room : blanks < fuel)
    (more_room : suc (length ds) < fuel) where
  abbrev pub number : ℕ
  number = value_from radix 0 (d ∷ ds)

  parse_unsigned-number : parse_unsigned fuel m p base ≡ record {
    value = min number ulong_max;
    end = start + suc (length ds);
    neg = m (p + blanks) == 45;
  }
  unfolding parse_unsigned parse_magnitude
  parse_unsigned-number =
      let small : ltb radix 2 ≡ false = ground (arith, numeral.low) in
      let large : ltb 36 radix ≡ false = ground (arith, numeral.high) in
      let spaces = skip_spaces-blanks m fuel blanks p numeral.blank numeral.no_blank room in
      let loop =
        digit_loop-value radix fuel m start 0 false (d ∷ ds) (omega (arith, numeral.low))
          numeral.high (omega arith) numeral.digits more_room in
      rw (spaces, numeral.prefix, small, large, loop) refl

  -- The integer of the sign and the size, or the bound of `long` that it lies beyond.
  abbrev pub bounded : Bool → ℕ → ℤ
  bounded true n = minus (min n (2 ^ 63))
  bounded false n = pos (min n (2 ^ 63 - 1))

  clamp-bounded : (neg : Bool) (n : ℕ) → clamp neg (min n ulong_max) ≡ bounded neg n
  unfolding clamp
  clamp-bounded false n = ap pos (ground arith)
  clamp-bounded true n = elim (Bool-cases (ltb (2 ^ 63) (min n ulong_max))) [
    | inl over ↦ let e : 2 ^ 63 ≡ min n (2 ^ 63) = ground arith in rw over (ap minus e)
    | inr fits ↦
        let e : min n ulong_max ≡ min n (2 ^ 63) = ground arith in
        elim (Bool-cases (min n ulong_max == 2 ^ 63)) [
          | inl most ↦
              let f : 2 ^ 63 ≡ min n (2 ^ 63) = ground arith in rw (fits, most) (ap minus f)
          | inr less ↦ rw (fits, less) (ap minus e)
        ]
  ]

  -- For a numeral at `p` and enough fuel for its blanks and its digits, strtol returns the integer of the sign and the
  -- digits, or the largest or smallest `long` if it lies beyond that, and the end pointer stands behind the last digit.
  pub strtol-bounded :
      strtol fuel m p base ≡ (bounded (m (p + blanks) == 45) number, start + suc (length ds))
  unfolding strtol
  strtol-bounded =
      rw parse_unsigned-number
        (ap₂ (λ (x : ℤ) (y : ℕ). (x, y)) (clamp-bounded (m (p + blanks) == 45) number) refl)

  -- For a numeral at `p` and enough fuel, strtoul returns the number, or the largest unsigned long if it is larger, and
  -- after a minus that value subtracted from zero in 64 bits; the end pointer stands behind the last digit.
  pub strtoul-number : strtoul fuel m p base ≡ (
    if m (p + blanks) == 45 then (2 ^ 64 - min number ulong_max) % 2 ^ 64 else min number ulong_max,
    start + suc (length ds),
  )
  unfolding strtoul
  strtoul-number = rw parse_unsigned-number refl
