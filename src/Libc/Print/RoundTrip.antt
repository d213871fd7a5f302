-- ===== src/Libc/Print/RoundTrip.antt =====
-- A number that `vsnprintf` writes is the number that `strtoul` and `strtol` read.
use rhkernel.Prelude.{
  ℕ, ◌+◌, ◌-◌, ◌^◌, ◌≤◌, ◌<◌, ◌≡◌, refl, ap, ◌∙◌, true, false, ◌==◌, ◌⊎◌, some, List, [], ◌∷◌,
  length, min, arith,
}
use rhkernel.Prelude.Int.{pos}
use rhkernel.Libc.Memory.{Memory}
use rhkernel.Libc.Number.{
  ulong_max, isspace, isblank, digit_below, digit_value, numeral_base, hex_prefix, skip_sign,
  strtoul, strtol, minus,
}
use rhkernel.Libc.Number.Runs.{HasDigits, value_from}
use rhkernel.Libc.Number.Laws.{HasNumeral, strtoul-number, strtol-bounded}
use rhkernel.Libc.Print.Result.{terminated}
use rhkernel.Libc.Print.Digits.{HasText}

-- The text in a buffer that has room for it.
pub terminated-HasText :
    (buf size : ℕ) (text : List ℕ) (memory : Memory)
    → length text < size
    → HasText (terminated buf size text memory) buf text
unfolding terminated
terminated-HasText buf size text memory h = record {
  bytes = λ i l. let e : buf + i - buf ≡ i = omega arith in rw e (ground arith);
  zero_behind = ground arith;
}

module _ (radix : ℕ) (allowed : (radix ≡ 10) ⊎ (radix ≡ 16)) (m : Memory) where
  digit-large : (c d : ℕ) → digit_below radix c ≡ some d → 47 < c
  unfolding digit_below digit_value
  digit-large c d h = ground arith

  no_prefix :
      (p d : ℕ) (ds : List ℕ)
      → HasDigits radix m p (d ∷ ds)
      → m (p + length (d ∷ ds)) ≡ 0
      → hex_prefix m p ≡ false
  unfolding hex_prefix digit_below digit_value
  no_prefix p d [] h z = let end : m (p + 1) ≡ 0 = ap m (omega arith) ∙ z in rw end (ground arith)
  no_prefix p d (e ∷ es) h z = ground (arith, h.1)

  -- Digits behind a sign or none.
  digits-HasNumeral :
      (p start d : ℕ) (ds : List ℕ)
      → isspace (m p) ≡ false
      → skip_sign m p ≡ start
      → HasDigits radix m start (d ∷ ds)
      → m (start + length (d ∷ ds)) ≡ 0
      → HasNumeral m p (pos radix) 0 radix start d ds
  unfolding numeral_base
  digits-HasNumeral p start d ds s k h z =
      let here : p + 0 ≡ p = omega arith in
      record {
        blank = λ i l. absurd (omega arith);
        no_blank = rw here s;
        prefix = rw (here, k) (ground (arith, no_prefix start d ds h z));
        low = ground arith;
        high = ground arith;
        digits = h;
      }

  -- Digits alone, and digits behind a minus.
  plain-HasNumeral :
      (p d : ℕ) (ds : List ℕ)
      → HasDigits radix m p (d ∷ ds)
      → m (p + length (d ∷ ds)) ≡ 0
      → HasNumeral m p (pos radix) 0 radix p d ds
  unfolding isspace isblank skip_sign
  plain-HasNumeral p d ds h z =
      let large : 47 < m p = digit-large (m p) d h.0 in
      digits-HasNumeral p p d ds (ground (arith, large)) (ground (arith, large)) h z

  minus-HasNumeral :
      (p d : ℕ) (ds : List ℕ)
      → m p ≡ 45
      → HasDigits radix m (p + 1) (d ∷ ds)
      → m (p + 1 + length (d ∷ ds)) ≡ 0
      → HasNumeral m p (pos radix) 0 radix (p + 1) d ds
  unfolding isspace isblank skip_sign
  minus-HasNumeral p d ds s h z =
      digits-HasNumeral p (p + 1) d ds (ground (arith, s)) (ground (arith, s)) h z

  no_minus : (p d : ℕ) → digit_below radix (m p) ≡ some d → (m (p + 0) == 45) ≡ false
  no_minus p d h =
      let here : p + 0 ≡ p = omega arith in rw here (ground (arith, digit-large (m p) d h))

  pub read_unsigned :
      (fuel p value : ℕ) (ds : List ℕ)
      → 0 < length ds
      → HasDigits radix m p ds
      → m (p + length ds) ≡ 0
      → value_from radix 0 ds ≡ value
      → value < 2 ^ 64
      → length ds < fuel
      → strtoul fuel m p (pos radix) ≡ (value, p + length ds)
  read_unsigned fuel p value [] n h z v l k = absurd (omega arith)
  read_unsigned fuel p value (d ∷ ds) n h z v l k =
      let exact : min value ulong_max ≡ value = omega arith in
      strtoul-number m p (pos radix) 0 radix p d ds (plain-HasNumeral p d ds h z) fuel (omega arith)
        (omega arith)
      ∙ rw (no_minus p d h.0, v, exact) refl

  pub read_plain :
      (fuel p value : ℕ) (ds : List ℕ)
      → 0 < length ds
      → HasDigits radix m p ds
      → m (p + length ds) ≡ 0
      → value_from radix 0 ds ≡ value
      → value < 2 ^ 63
      → length ds < fuel
      → strtol fuel m p (pos radix) ≡ (pos value, p + length ds)
  read_plain fuel p value [] n h z v l k = absurd (omega arith)
  read_plain fuel p value (d ∷ ds) n h z v l k =
      let exact : min value (2 ^ 63 - 1) ≡ value = omega arith in
      strtol-bounded m p (pos radix) 0 radix p d ds (plain-HasNumeral p d ds h z) fuel (omega arith)
        (omega arith)
      ∙ rw (no_minus p d h.0, v, exact) refl

  pub read_minus :
      (fuel p value : ℕ) (ds : List ℕ)
      → 0 < length ds
      → m p ≡ 45
      → HasDigits radix m (p + 1) ds
      → m (p + 1 + length ds) ≡ 0
      → value_from radix 0 ds ≡ value
      → value ≤ 2 ^ 63
      → length ds < fuel
      → strtol fuel m p (pos radix) ≡ (minus value, p + 1 + length ds)
  read_minus fuel p value [] n s h z v l k = absurd (omega arith)
  read_minus fuel p value (d ∷ ds) n s h z v l k =
      let exact : min value (2 ^ 63) ≡ value = omega arith in
      let sign : (m (p + 0) == 45) ≡ true =
        ground (arith, s, ap m {x = p + 0} {y = p} (omega arith)) in
      strtol-bounded m p (pos radix) 0 radix (p + 1) d ds (minus-HasNumeral p d ds s h z) fuel
        (omega arith) (omega arith)
      ∙ rw (sign, v, exact) refl
