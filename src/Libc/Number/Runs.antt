-- ===== src/Libc/Number/Runs.antt =====
-- The digit loop of `parse_unsigned` on a run of digits.
use rhkernel.Prelude.{
  ℕ, zero, suc, ◌+◌, ◌-◌, ◌*◌, ◌/◌, ◌≤◌, ◌<◌, ◌≡◌, ◌↔◌, refl, ◌∙◌, min, Bool, true, ltb, none, some,
  List, [], ◌∷◌, length, arith, Bool-cases, inl, inr, while,
}
use native.Mathlib.Nat.{le-div_iff_mul-le, mul-le-mul_left}
use rhkernel.Libc.Memory.{Memory}
use rhkernel.Libc.Number.{ulong_max, digit_below, is_digit, Digits, skip_digits, digit_loop}

-- The digits `ds` in `base` stand at `p`, and no further digit.
abbrev pub HasDigits : ℕ → Memory → ℕ → List ℕ → Type 0
HasDigits base m p [] = digit_below base (m p) ≡ none
HasDigits base m p (d ∷ ds) = (digit_below base (m p) ≡ some d) × HasDigits base m (p + 1) ds

-- The number that the digits stand for, read on from `acc`.
unfoldable pub value_from : ℕ → ℕ → List ℕ → ℕ
value_from base acc [] = acc
value_from base acc (d ∷ ds) = value_from base (acc * base + d) ds

abbrev pub some_digit : Bool → List ℕ → Bool
some_digit any [] = any
some_digit any (d ∷ ds) = true

pub digit_below-lt : (base c d : ℕ) → digit_below base c ≡ some d → d < base
unfolding digit_below
digit_below-lt base c d e = ground arith

-- More digits make no number smaller.
pub value_from-le : (base acc : ℕ) (ds : List ℕ) → 0 < base → acc ≤ value_from base acc ds
unfolding value_from
value_from-le base acc [] h = omega arith
value_from-le base acc (d ∷ ds) h =
    let more : acc * 1 ≤ acc * base = mul-le-mul_left acc h in
    omega (arith, value_from-le base (acc * base + d) ds h)

-- The overflow test of the loop is exact.
overflow_lem :
    (base acc d : ℕ)
    → 0 < base
    → d ≤ ulong_max
    → (ltb ((ulong_max - d) / base) acc ≡ true) ↔ (ulong_max < acc * base + d)
overflow_lem base acc d h k =
    ground (arith, le-div_iff_mul-le {k = base} {x = acc} {y = ulong_max - d} h)

skip_lem :
    (base fuel : ℕ) (m : Memory) (p : ℕ) (ds : List ℕ)
    → HasDigits base m p ds
    → length ds < fuel
    → while fuel (λ q. is_digit base (m q)) (λ q. q + 1) p ≡ p + length ds
unfolding while is_digit
skip_lem base zero m p ds h k = absurd (omega arith)
skip_lem base (suc fuel) m p [] h k = rw (is_digit, h) (omega arith)
skip_lem base (suc fuel) m p (d ∷ ds) h k =
    rw (is_digit, h.0) (skip_lem base fuel m (p + 1) ds h.1 (omega arith) ∙ omega arith)

same_digits :
    {a b p q : ℕ} {x y : Bool}
    → a ≡ b
    → x ≡ y
    → p ≡ q
    → ◌≡◌ {A = Digits} (record { acc = a; any = x; at = p }) (record { acc = b; any = y; at = q })
same_digits e f g = cc

some_digit-true : (ds : List ℕ) → some_digit true ds ≡ true
some_digit-true [] = refl
some_digit-true (d ∷ ds) = refl

-- The loop yields the number, or the largest one if that is smaller, and stops behind the digits.
pub digit_loop-value :
    (base fuel : ℕ) (m : Memory) (p acc : ℕ) (any : Bool) (ds : List ℕ)
    → 0 < base
    → base ≤ 36
    → acc ≤ ulong_max
    → HasDigits base m p ds
    → length ds < fuel
    → digit_loop fuel base m (record { acc = acc; any = any; at = p }) ≡ record {
      acc = min (value_from base acc ds) ulong_max;
      any = some_digit any ds;
      at = p + length ds;
    }
unfolding digit_loop skip_digits value_from
digit_loop-value base zero m p acc any ds b c a h k = absurd (omega arith)
digit_loop-value base (suc fuel) m p acc any [] b c a h k =
    rw (digit_loop, h) (same_digits (omega arith) refl (omega arith))
digit_loop-value base (suc fuel) m p acc any (d ∷ ds) b c a h k =
    let small = digit_below-lt base (m p) d h.0 in
    let exact = overflow_lem base acc d b (omega arith) in
    elim (Bool-cases (ltb ((ulong_max - d) / base) acc)) [
      | inl over ↦
          let beyond : ulong_max < acc * base + d = ground (arith, exact) in
          let largest : ulong_max ≡ min (value_from base (acc * base + d) ds) ulong_max =
            omega (arith, value_from-le base (acc * base + d) ds b, beyond) in
          rw (digit_loop, h.0, over)
            (same_digits largest refl
              (skip_lem base fuel m (p + 1) ds h.1 (omega arith) ∙ omega arith))
      | inr fits ↦
          let below : acc * base + d ≤ ulong_max = ground (arith, exact) in
          rw (digit_loop, h.0, fits)
            (digit_loop-value base fuel m (p + 1) (acc * base + d) true ds b c below h.1
                (omega arith)
              ∙ same_digits refl (some_digit-true ds) (omega arith))
    ]
