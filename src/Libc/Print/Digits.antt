-- ===== src/Libc/Print/Digits.antt =====
-- The digits that `out_uint` puts out stand for its value.
use rhkernel.Prelude.{
  ℕ, zero, suc, ◌+◌, ◌*◌, ◌/◌, ◌%◌, ◌^◌, ◌≤◌, ◌<◌, ◌≡◌, refl, ap, ◌∙◌, Bool, true, false, ◌==◌,
  some, none, List, [], ◌∷◌, map, length, get_or, arith, Bool-cases, inl, inr,
}
use native.Mathlib.Nat.{
  mul-le-mul_left, mul_comm, div-add-mod', div-lt_iff_lt-mul, mod-lt, pow-succ',
}
use rhkernel.Libc.Memory.{Memory}
use rhkernel.Libc.Number.{digit_below, digit_value}
use rhkernel.Libc.Number.Runs.{HasDigits, value_from}
use rhkernel.Libc.Print.{digit_char, tmp_digits}

-- The digits themselves, as `tmp_digits` finds them.
unfoldable pub number_digits : ℕ → ℕ → ℕ → List ℕ → List ℕ
number_digits zero base value ds = ds
number_digits (suc fuel) base value ds = elim (value / base == 0) [
  | true ↦ value % base ∷ ds
  | false ↦ number_digits fuel base (value / base) (value % base ∷ ds)
]

div-smaller : {base value bound : ℕ} (k : ℕ) → k ≤ base → value < k * bound → value / base < bound
div-smaller {base} {value} {bound} k h l =
    let more : bound * k ≤ bound * base = mul-le-mul_left bound h in
    let room : value < bound * base = omega (arith, mul_comm bound k) in
    ground (arith, div-lt_iff_lt-mul {k = base} {x = value} {y = bound})

pub tmp_digits-chars :
    (fuel base : ℕ) (upper : Bool) (value : ℕ) (ds : List ℕ)
    → tmp_digits fuel base upper value (map (digit_char upper) ds)
      ≡ map (digit_char upper) (number_digits fuel base value ds)
unfolding tmp_digits number_digits
tmp_digits-chars zero base upper value ds = refl
tmp_digits-chars (suc fuel) base upper value ds = elim (Bool-cases (value / base == 0)) [
  | inl e ↦ rw (tmp_digits, number_digits, e) refl
  | inr e ↦
      rw (tmp_digits, number_digits, e)
        (tmp_digits-chars fuel base upper (value / base) (value % base ∷ ds))
]

pub number_digits-value :
    (fuel base value : ℕ) (ds : List ℕ)
    → 2 ≤ base
    → value < 2 ^ fuel
    → value_from base 0 (number_digits fuel base value ds) ≡ value_from base value ds
unfolding number_digits value_from
number_digits-value zero base value ds b h = let e : value ≡ 0 = omega arith in rw e refl
number_digits-value (suc fuel) base value ds b h =
    let whole = div-add-mod' value base in
    elim (Bool-cases (value / base == 0)) [
      | inl e ↦
          let z : value / base ≡ 0 = ground arith in
          rw (number_digits, e)
            (ap (λ (x : ℕ). value_from base x ds) (omega (arith, ap (λ (x : ℕ). x * base) z)))
      | inr e ↦
          let half : value / base < 2 ^ fuel =
            div-smaller 2 b (omega (arith, h, pow-succ' 2 fuel)) in
          rw (number_digits, e)
            (number_digits-value fuel base (value / base) (value % base ∷ ds) b half
              ∙ ap (λ (x : ℕ). value_from base x ds) whole)
    ]

abbrev pub AllBelow : ℕ → List ℕ → Type 0
AllBelow base [] = 0 ≤ base
AllBelow base (d ∷ ds) = (d < base) × AllBelow base ds

pub number_digits-below :
    (fuel base value : ℕ) (ds : List ℕ)
    → 0 < base
    → AllBelow base ds
    → AllBelow base (number_digits fuel base value ds)
unfolding number_digits
number_digits-below zero base value ds b h = h
number_digits-below (suc fuel) base value ds b h = elim (Bool-cases (value / base == 0)) [
  | inl e ↦ rw (number_digits, e) (mod-lt value b, h)
  | inr e ↦
      rw (number_digits, e)
        (number_digits-below fuel base (value / base) (value % base ∷ ds) b (mod-lt value b, h))
]

-- A value below the power `k` of ten has no more than `k` digits.
pub number_digits-length :
    (k fuel base value : ℕ) (ds : List ℕ)
    → 10 ≤ base
    → value < 10 ^ suc k
    → length (number_digits fuel base value ds) ≤ suc k + length ds
unfolding number_digits
number_digits-length k zero base value ds b h = omega arith
number_digits-length zero (suc fuel) base value ds b h =
    let z : (value / base == 0) ≡ true = ground (
      arith,
      div-smaller {base = base} {value = value} {bound = 1} 10 b (omega (arith, h, pow-succ' 10 0)),
    ) in
    rw (number_digits, z) (omega arith)
number_digits-length (suc k) (suc fuel) base value ds b h = elim (Bool-cases (value / base == 0)) [
  | inl e ↦ rw (number_digits, e) (omega arith)
  | inr e ↦
      let tenth : value / base < 10 ^ suc k =
        div-smaller 10 b (omega (arith, h, pow-succ' 10 (suc k))) in
      rw (number_digits, e)
        (omega (arith, number_digits-length k fuel base (value / base) (value % base ∷ ds) b tenth))
]

pub digit_below-char :
    (base : ℕ) (upper : Bool) (d : ℕ)
    → d < base
    → base ≤ 16
    → digit_below base (digit_char upper d) ≡ some d
unfolding digit_below digit_value digit_char
digit_below-char base true d h k = ground arith
digit_below-char base false d h k = ground arith

-- The bytes `cs` at `p`, and a zero byte behind them.
pub record HasText (m : Memory) (p : ℕ) (cs : List ℕ) : Type 0 where
  pub bytes : (i : ℕ) → i < length cs → m (p + i) ≡ get_or cs i 0
  pub zero_behind : m (p + length cs) ≡ 0

pub digit_below-end : (base : ℕ) → digit_below base 0 ≡ none
unfolding digit_below digit_value
digit_below-end base = refl

-- Characters of digits are digits.
pub HasText-HasDigits :
    (base : ℕ) (upper : Bool) (m : Memory) (p : ℕ) (ds : List ℕ)
    → base ≤ 16
    → AllBelow base ds
    → HasText m p (map (digit_char upper) ds)
    → HasDigits base m p ds
HasText-HasDigits base upper m p [] b h t =
    let e : m p ≡ 0 = ap m (omega arith) ∙ t.zero_behind in rw e (digit_below-end base)
HasText-HasDigits base upper m p (d ∷ ds) b h t =
    let here : m p ≡ digit_char upper d = ap m (omega arith) ∙ t.bytes 0 (omega arith) in
    let more : HasText m (p + 1) (map (digit_char upper) ds) = record {
      bytes = λ i l. ap m (omega arith) ∙ t.bytes (suc i) (omega arith);
      zero_behind = ap m (omega arith) ∙ t.zero_behind;
    } in
    (
      rw here (digit_below-char base upper d h.0 b),
      HasText-HasDigits base upper m (p + 1) ds b h.1 more,
    )

number_digits-longer :
    (fuel base value : ℕ) (ds : List ℕ) → length ds ≤ length (number_digits fuel base value ds)
unfolding number_digits
number_digits-longer zero base value ds = omega arith
number_digits-longer (suc fuel) base value ds = elim (Bool-cases (value / base == 0)) [
  | inl e ↦ rw (number_digits, e) (omega arith)
  | inr e ↦
      rw (number_digits, e)
        (omega (arith, number_digits-longer fuel base (value / base) (value % base ∷ ds)))
]

-- There is at least one digit.
pub number_digits-some :
    (fuel base value : ℕ) (ds : List ℕ) → 0 < length (number_digits (suc fuel) base value ds)
unfolding number_digits
number_digits-some fuel base value ds = elim (Bool-cases (value / base == 0)) [
  | inl e ↦ rw (number_digits, e) (omega arith)
  | inr e ↦
      rw (number_digits, e)
        (omega (arith, number_digits-longer fuel base (value / base) (value % base ∷ ds)))
]

pub length-map : (f : ℕ → ℕ) (xs : List ℕ) → length (map f xs) ≡ length xs
length-map f [] = refl
length-map f (x ∷ xs) = ap suc (length-map f xs)

-- For a 64-bit value and a base of at least ten, out_uint puts at least one and at most 20 characters into `tmp`, which has
-- 32.
tmp_digits-bounds :
    (base : ℕ) (upper : Bool) (value : ℕ)
    → 10 ≤ base
    → value < 2 ^ 64
    → (0 < length (tmp_digits 64 base upper value []))
      × (length (tmp_digits 64 base upper value []) ≤ 20)
tmp_digits-bounds base upper value b h =
    let ds = number_digits 64 base value [] in
    let same : length (tmp_digits 64 base upper value []) ≡ length ds =
      ap (λ (x : List ℕ). length x) (tmp_digits-chars 64 base upper value [])
      ∙ length-map (digit_char upper) ds in
    let most = number_digits-length 19 64 base value [] b (omega arith) in
    let least = number_digits-some 63 base value [] in (omega arith, omega arith)
