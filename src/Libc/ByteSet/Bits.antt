-- ===== src/Libc/ByteSet/Bits.antt =====
-- The powers of two as sets of one bit.
use rhkernel.Prelude.{
  ℕ, zero, suc, ◌*◌, ◌/◌, ◌%◌, ◌^◌, ◌<◌, ◌≡◌, refl, sym, ap, ◌∙◌, max, bit_and, bit_or, ◌==◌,
  if◌then◌else◌, arith,
}
use native.Mathlib.Nat.{pow-succ', div-div-eq-div-mul, mul_left_comm}
use rhkernel.Prelude.Bits.{bit_and_step, bit_or_step, digit}

digit_step : (k a : ℕ) → digit (suc k) a ≡ digit k (a / 2)
digit_step k a = rw (pow-succ' 2 k) (ap (λ (x : ℕ). x % 2) (sym (div-div-eq-div-mul a 2 (2 ^ k))))

pub digit-bit_or : (k a b : ℕ) → digit k (bit_or a b) ≡ max (digit k a) (digit k b)
digit-bit_or zero a b = omega (arith, bit_or_step a b)
digit-bit_or (suc k) a b = omega (
  arith,
  digit_step k (bit_or a b),
  digit_step k a,
  digit_step k b,
  ap (digit k) (half a b),
  digit-bit_or k (a / 2) (b / 2),
)
  where
    half : (a b : ℕ) → bit_or a b / 2 ≡ bit_or (a / 2) (b / 2)
    half a b = omega (arith, bit_or_step a b)

pub digit_zero : (k : ℕ) → digit k 0 ≡ 0
digit_zero zero = refl
digit_zero (suc k) = digit_step k 0 ∙ digit_zero k

double_half : (k : ℕ) → 2 ^ suc k / 2 ≡ 2 ^ k
double_half k = omega (arith, pow-succ' 2 k)

pub digit-pow : (j k : ℕ) → digit j (2 ^ k) ≡ (if j == k then 1 else 0)
digit-pow zero zero = refl
digit-pow zero (suc k) = ground (arith, pow-succ' 2 k)
digit-pow (suc j) zero = digit_step j 1 ∙ digit_zero j ∙ ground arith
digit-pow (suc j) (suc k) =
    digit_step j (2 ^ suc k) ∙ ap (digit j) (double_half k) ∙ digit-pow j k ∙ ground arith

and_zero_below : (n a : ℕ) → a < n → bit_and a 0 ≡ 0
and_zero_below zero a h = absurd (omega arith)
and_zero_below (suc n) zero h = refl
and_zero_below (suc n) (suc a) h =
    omega (arith, bit_and_step (suc a) 0, and_zero_below n (suc a / 2) (omega arith))

pub and_zero : (a : ℕ) → bit_and a 0 ≡ 0
and_zero a = and_zero_below (suc a) a (omega arith)

pub bit_and-pow : (k a : ℕ) → bit_and a (2 ^ k) ≡ digit k a * 2 ^ k
bit_and-pow zero a = bit_and_step a 1 ∙ omega (arith, and_zero (a / 2))
bit_and-pow (suc k) a =
    rw (digit_step k a, pow-succ' 2 k, mul_left_comm (digit k (a / 2)) 2 (2 ^ k))
      (omega
        (arith, bit_and_step a (2 * 2 ^ k), ap (bit_and (a / 2)) (halved k), bit_and-pow k (a / 2)))
  where
    halved : (k : ℕ) → 2 * 2 ^ k / 2 ≡ 2 ^ k
    halved k = omega arith

pub digit-byte : (k a : ℕ) → k < 8 → digit k (a % 256) ≡ digit k a
digit-byte zero a h = omega arith
digit-byte (suc zero) a h = omega arith
digit-byte (suc (suc zero)) a h = omega arith
digit-byte (suc (suc (suc zero))) a h = omega arith
digit-byte (suc (suc (suc (suc zero)))) a h = omega arith
digit-byte (suc (suc (suc (suc (suc zero))))) a h = omega arith
digit-byte (suc (suc (suc (suc (suc (suc zero)))))) a h = omega arith
digit-byte (suc (suc (suc (suc (suc (suc (suc zero))))))) a h = omega arith
digit-byte (suc (suc (suc (suc (suc (suc (suc (suc k)))))))) a h = absurd (omega arith)
