-- ===== src/Prelude/Bits.antt =====
-- The bitwise operations at variables: one equation for the lowest digit, and the digit at each place.
use Prim.Native.Nat.{
  ℕ, zero, suc, ◌+◌, ◌*◌, ◌/◌, ◌%◌, ◌≤◌, ◌<◌, min, max, bit_and, bit_or, bit_xor, differ,
  bit_xor-bitwise, ◌^◌, digits, bitwise, bit_and-bitwise, bit_or-bitwise,
}
use mathlib.Core.Path.{◌≡◌, refl, sym, ap}
use native.Mathlib.Nat.{div-one, pow-succ', div-div-eq-div-mul}
use native.Mathlib.Omega.{arith}

module _ (rest : ℕ → ℕ) (op : ℕ → ℕ → ℕ) where
  -- Fuel from `a` on makes no difference.
  fuel_free : (b a j k : ℕ) → a ≤ j → a ≤ k → digits rest op j a b ≡ digits rest op k a b
  fuel_free b zero zero zero _ _ = refl
  fuel_free b zero zero (suc k) _ _ = refl
  fuel_free b zero (suc j) zero _ _ = refl
  fuel_free b zero (suc j) (suc k) _ _ = refl
  fuel_free b (suc a) zero k h _ = absurd (omega arith)
  fuel_free b (suc a) (suc j) zero _ h = absurd (omega arith)
  fuel_free b (suc a) (suc j) (suc k) h h' =
      ap (λ t. t * 2 + op (suc a % 2) (b % 2))
        (fuel_free (b / 2) (suc a / 2) j k (omega arith) (omega arith))

  low_digit :
      (a b : ℕ)
      → bitwise rest op (suc a) b ≡ bitwise rest op (suc a / 2) (b / 2) * 2 + op (suc a % 2) (b % 2)
  low_digit a b =
      ap (λ t. t * 2 + op (suc a % 2) (b % 2))
        (fuel_free (b / 2) (suc a / 2) a (suc a / 2) (omega arith) (omega arith))

pub bit_and_step : (x y : ℕ) → bit_and x y ≡ bit_and (x / 2) (y / 2) * 2 + min (x % 2) (y % 2)
bit_and_step zero y = simp bit_and-bitwise (omega arith)
bit_and_step (suc x) y = simp bit_and-bitwise (low_digit (λ _. 0) min x y)

pub bit_xor_step : (a b : ℕ) → bit_xor a b ≡ bit_xor (a / 2) (b / 2) * 2 + differ (a % 2) (b % 2)
bit_xor_step zero b = simp bit_xor-bitwise (omega arith)
bit_xor_step (suc a) b = simp bit_xor-bitwise (low_digit (λ x. x) differ a b)

pub bit_or_step : (x y : ℕ) → bit_or x y ≡ bit_or (x / 2) (y / 2) * 2 + max (x % 2) (y % 2)
bit_or_step zero y = simp bit_or-bitwise (omega arith)
bit_or_step (suc x) y = simp bit_or-bitwise (low_digit (λ z. z) max x y)

-- The digit of `a` at place `k`.
abbrev pub digit : ℕ → ℕ → ℕ
digit k a = a / 2 ^ k % 2

digit-suc : (k a : ℕ) → digit (suc k) a ≡ digit k (a / 2)
digit-suc k a = rw (pow-succ' 2 k) (ap (λ (x : ℕ). x % 2) (sym (div-div-eq-div-mul a 2 (2 ^ k))))

pub digit-bit_and : (k a b : ℕ) → digit k (bit_and a b) ≡ min (digit k a) (digit k b)
digit-bit_and zero a b = omega (arith, bit_and_step a b)
digit-bit_and (suc k) a b = omega (
  arith,
  digit-suc k (bit_and a b),
  digit-suc k a,
  digit-suc k b,
  ap (digit k) (half a b),
  digit-bit_and k (a / 2) (b / 2),
)
  where
    half : (a b : ℕ) → bit_and a b / 2 ≡ bit_and (a / 2) (b / 2)
    half a b = omega (arith, bit_and_step a b)

differ-lt : (x y n : ℕ) → x < n → y < n → differ x y < n
differ-lt zero y n h k = k
differ-lt (suc x) zero n h k = h
differ-lt (suc x) (suc y) n h k = differ-lt x y n (omega arith) (omega arith)

differ_self : (x : ℕ) → differ x x ≡ 0
differ_self zero = refl
differ_self (suc x) = differ_self x

bit_xor_even : (a b : ℕ) → a % 2 ≡ b % 2 → bit_xor a b ≡ bit_xor (a / 2) (b / 2) * 2
bit_xor_even a b h =
    omega (arith, bit_xor_step a b, ap (differ (a % 2)) (sym h), differ_self (a % 2))

agree_1 : (a b : ℕ) → a % 2 ≡ b % 2 → bit_xor a b % 2 ≡ 0
agree_1 a b h = omega (arith, bit_xor_even a b (omega arith))

agree_2 : (a b : ℕ) → a % 4 ≡ b % 4 → bit_xor a b % 4 ≡ 0
agree_2 a b h = omega (arith, bit_xor_even a b (omega arith), agree_1 (a / 2) (b / 2) (omega arith))

agree_3 : (a b : ℕ) → a % 8 ≡ b % 8 → bit_xor a b % 8 ≡ 0
agree_3 a b h = omega (arith, bit_xor_even a b (omega arith), agree_2 (a / 2) (b / 2) (omega arith))

agree_4 : (a b : ℕ) → a % 16 ≡ b % 16 → bit_xor a b % 16 ≡ 0
agree_4 a b h = omega (arith, bit_xor_even a b (omega arith), agree_3 (a / 2) (b / 2) (omega arith))

agree_5 : (a b : ℕ) → a % 32 ≡ b % 32 → bit_xor a b % 32 ≡ 0
agree_5 a b h = omega (arith, bit_xor_even a b (omega arith), agree_4 (a / 2) (b / 2) (omega arith))

agree_6 : (a b : ℕ) → a % 64 ≡ b % 64 → bit_xor a b % 64 ≡ 0
agree_6 a b h = omega (arith, bit_xor_even a b (omega arith), agree_5 (a / 2) (b / 2) (omega arith))

agree_7 : (a b : ℕ) → a % 128 ≡ b % 128 → bit_xor a b % 128 ≡ 0
agree_7 a b h = omega (arith, bit_xor_even a b (omega arith), agree_6 (a / 2) (b / 2) (omega arith))

-- Bytes at which two numbers agree are 0 in their exclusive or.
pub agree_8 : (a b : ℕ) → a % 256 ≡ b % 256 → bit_xor a b % 256 ≡ 0
agree_8 a b h = omega (arith, bit_xor_even a b (omega arith), agree_7 (a / 2) (b / 2) (omega arith))

pub bit_xor-shift : (k a b : ℕ) → bit_xor a b / 2 ^ k ≡ bit_xor (a / 2 ^ k) (b / 2 ^ k)
bit_xor-shift zero a b = rw (div-one (bit_xor a b), div-one a, div-one b) refl
bit_xor-shift (suc k) a b =
    rw
      (
        pow-succ' 2 k,
        ← div-div-eq-div-mul (bit_xor a b) 2 (2 ^ k),
        ← div-div-eq-div-mul a 2 (2 ^ k),
        ← div-div-eq-div-mul b 2 (2 ^ k),
        half a b,
      )
      (bit_xor-shift k (a / 2) (b / 2))
  where
    half : (a b : ℕ) → bit_xor a b / 2 ≡ bit_xor (a / 2) (b / 2)
    half a b = omega (arith, bit_xor_step a b, differ-lt (a % 2) (b % 2) 2)
