-- ===== src/Kernel/Fd/Bits.antt =====
-- The digits of the words of `fd_bitmap`.
use rhkernel.Prelude.{
  ℕ, zero, suc, ◌-◌, ◌*◌, ◌/◌, ◌%◌, ◌^◌, ◌<◌, ◌≤◌, ◌≡◌, refl, sym, ap, ◌∙◌, bit_and, bit_or, ltb,
  if◌then◌else◌, arith, Bool-cases, inl, inr,
}
use Prim.Native.Nat.{bit_and-bitwise}
use native.Mathlib.Nat.{pow-succ', div-div-eq-div-mul, one-le-pow}
use rhkernel.Prelude.Bits.{bit_and_step, bit_or_step, digit}
use rhkernel.Libc.ByteSet.Bits.{digit_zero}

pub digit_half : (k a : ℕ) → digit (suc k) a ≡ digit k (a / 2)
digit_half k a = rw (pow-succ' 2 k) (ap (λ (x : ℕ). x % 2) (sym (div-div-eq-div-mul a 2 (2 ^ k))))

pub power_positive : (k : ℕ) → 0 < 2 ^ k
power_positive k = one-le-pow k 2 (omega arith)

pub bit_or-lt : (n a b : ℕ) → a < 2 ^ n → b < 2 ^ n → bit_or a b < 2 ^ n
bit_or-lt zero zero zero h k = omega arith
bit_or-lt zero (suc a) b h k = absurd (omega arith)
bit_or-lt zero zero (suc b) h k = absurd (omega arith)
bit_or-lt (suc n) a b h k =
    let p : 2 ^ suc n ≡ 2 * 2 ^ n = pow-succ' 2 n in
    omega
      (arith, p, bit_or_step a b, bit_or-lt n (a / 2) (b / 2) (omega (arith, p)) (omega (arith, p)))

pub bit_and-lt : (n a b : ℕ) → a < 2 ^ n → bit_and a b < 2 ^ n
bit_and-lt zero zero b h = simp bit_and-bitwise (omega arith)
bit_and-lt zero (suc a) b h = absurd (omega arith)
bit_and-lt (suc n) a b h =
    let p : 2 ^ suc n ≡ 2 * 2 ^ n = pow-succ' 2 n in
    omega (arith, p, bit_and_step a b, bit_and-lt n (a / 2) (b / 2) (omega (arith, p)))

-- The digits of the complement in a word of `n` bits.
pub digit-complement : (n k a : ℕ) → k < n → a < 2 ^ n → digit k (2 ^ n - 1 - a) ≡ 1 - digit k a
digit-complement zero k a h b = absurd (omega arith)
digit-complement (suc n) zero a h b =
    let p : 2 ^ suc n ≡ 2 * 2 ^ n = pow-succ' 2 n in omega (arith, p, power_positive n)
digit-complement (suc n) (suc k) a h b =
    let p : 2 ^ suc n ≡ 2 * 2 ^ n = pow-succ' 2 n in
    rw (digit_half k (2 ^ suc n - 1 - a), digit_half k a)
      (ap (digit k) (halved p) ∙ digit-complement n k (a / 2) (omega arith) (omega (arith, p)))
  where
    halved : 2 ^ suc n ≡ 2 * 2 ^ n → (2 ^ suc n - 1 - a) / 2 ≡ 2 ^ n - 1 - a / 2
    halved p = omega (arith, power_positive n)

pub digit-small : (n k a : ℕ) → n ≤ k → a < 2 ^ n → digit k a ≡ 0
digit-small zero k zero h b = digit_zero k
digit-small zero k (suc a) h b = absurd (omega arith)
digit-small (suc n) zero a h b = absurd (omega arith)
digit-small (suc n) (suc k) a h b =
    digit_half k a ∙ digit-small n k (a / 2) (omega arith) (omega (arith, pow-succ' 2 n))

-- The digits of a mask of the `u` lowest places.
pub digit-mask : (u k : ℕ) → digit k (2 ^ u - 1) ≡ (if ltb k u then 1 else 0)
digit-mask u k = elim (Bool-cases (ltb k u)) [
  | inl e ↦ rw e (
      ap (digit k) (less (2 ^ u))
      ∙ digit-complement u k 0 (ground arith) (power_positive u)
      ∙ (rw (digit_zero k) refl))
  | inr e ↦ rw e (digit-small u k (2 ^ u - 1) (ground arith) (omega (arith, power_positive u)))
]
  where
    less : (p : ℕ) → p - 1 ≡ p - 1 - 0
    less p = omega arith

pub pow-lt : (k n : ℕ) → k < n → 2 ^ k < 2 ^ n
pow-lt k zero h = absurd (omega arith)
pow-lt zero (suc n) h = omega (arith, pow-succ' 2 n, power_positive n)
pow-lt (suc k) (suc n) h = omega (arith, pow-succ' 2 k, pow-succ' 2 n, pow-lt k n (omega arith))
