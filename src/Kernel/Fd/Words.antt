-- ===== src/Kernel/Fd/Words.antt =====
-- The bits of an array of words, and the word that `find_clear_bit` searches.
use rhkernel.Prelude.{
  ℕ, zero, suc, ◌-◌, ◌/◌, ◌%◌, ◌^◌, ◌<◌, ◌≡◌, ap, ◌∙◌, not, ◌&&◌, ◌||◌, ◌==◌, Option, none, some,
  arith, Bool-cases, inl, inr,
}
use native.Mathlib.Nat.{pow-succ'}
use rhkernel.Prelude.Bits.{digit, digit-bit_and}
use rhkernel.Libc.ByteSet.Bits.{digit-bit_or, digit-pow, bit_and-pow}
use rhkernel.Libc.ByteSet.Laws.{bit_times_power}
use rhkernel.Kernel.Fd.Bits.{
  digit_half, power_positive, bit_or-lt, bit_and-lt, digit-complement, digit-mask, pow-lt,
}
use rhkernel.Kernel.Fd.{uint64_max, bit_test, bit_set, bit_clear, trailing_zeros, find_clear_bit}

-- Every word of the array has 64 bits.
abbrev pub IsWords : (ℕ → ℕ) → Type 0
IsWords bits = (w : ℕ) → bits w < 2 ^ 64

pub bit_test-digit :
    (bits : ℕ → ℕ) (fd : ℕ) → bit_test bits fd ≡ (digit (fd % 64) (bits (fd / 64)) == 1)
unfolding bit_test
bit_test-digit bits fd = rw (bit_and-pow (fd % 64) (bits (fd / 64))) (
    bit_times_power (digit (fd % 64) (bits (fd / 64))) (2 ^ (fd % 64)) (omega arith)
      (power_positive (fd % 64)))

pub bit_set-test :
    (bits : ℕ → ℕ) (fd i : ℕ) → bit_test (bit_set fd bits) i ≡ (i == fd || bit_test bits i)
unfolding bit_set
bit_set-test bits fd i =
    rw (bit_test-digit (bit_set fd bits) i, bit_test-digit bits i)
      (elim (Bool-cases (i / 64 == fd / 64)) [
        | inl e ↦
            rw
              (
                bit_set,
                e,
                digit-bit_or (i % 64) (bits (i / 64)) (2 ^ (fd % 64)),
                digit-pow (i % 64) (fd % 64),
              )
              (ground arith)
        | inr e ↦ rw (bit_set, e) (ground arith)
      ])

single : (fd : ℕ) → 2 ^ (fd % 64) < 2 ^ 64
single fd = pow-lt (fd % 64) 64 (omega arith)

pub bit_clear-test :
    (bits : ℕ → ℕ) (fd i : ℕ) → bit_test (bit_clear fd bits) i ≡ (not (i == fd) && bit_test bits i)
unfolding bit_clear
bit_clear-test bits fd i =
    rw (bit_test-digit (bit_clear fd bits) i, bit_test-digit bits i)
      (elim (Bool-cases (i / 64 == fd / 64)) [
        | inl e ↦
            rw
              (
                bit_clear,
                e,
                digit-bit_and (i % 64) (bits (i / 64)) (uint64_max - 2 ^ (fd % 64)),
                digit-complement 64 (i % 64) (2 ^ (fd % 64)) (omega arith) (single fd),
                digit-pow (i % 64) (fd % 64),
              )
              (ground arith)
        | inr e ↦ rw (bit_clear, e) (ground arith)
      ])

pub bit_set-IsWords : (bits : ℕ → ℕ) (fd : ℕ) → IsWords bits → IsWords (bit_set fd bits)
unfolding bit_set
bit_set-IsWords bits fd h w = elim (Bool-cases (w == fd / 64)) [
  | inl e ↦ rw (bit_set, e) (bit_or-lt 64 (bits w) (2 ^ (fd % 64)) (h w) (single fd))
  | inr e ↦ rw (bit_set, e) (h w)
]

pub bit_clear-IsWords : (bits : ℕ → ℕ) (fd : ℕ) → IsWords bits → IsWords (bit_clear fd bits)
unfolding bit_clear
bit_clear-IsWords bits fd h w = elim (Bool-cases (w == fd / 64)) [
  | inl e ↦ rw (bit_clear, e) (bit_and-lt 64 (bits w) (uint64_max - 2 ^ (fd % 64)) (h w))
  | inr e ↦ rw (bit_clear, e) (h w)
]

-- A word that is full past the places of the last word's mask.
pub trailing_zeros-lowest :
    (fuel x : ℕ)
    → x < 2 ^ fuel
    → 0 < x
    → (trailing_zeros fuel x < fuel)
      × (digit (trailing_zeros fuel x) x ≡ 1)
      × ((k : ℕ) → k < trailing_zeros fuel x → digit k x ≡ 0)
unfolding trailing_zeros
trailing_zeros-lowest zero x h k = absurd (omega arith)
trailing_zeros-lowest (suc fuel) x h k = elim (Bool-cases (x % 2 == 1)) [
  | inl e ↦ rw e (omega arith, ground arith, λ k l. absurd (omega arith))
  | inr e ↦
      let below =
        trailing_zeros-lowest fuel (x / 2) (omega (arith, pow-succ' 2 fuel)) (ground arith) in
      rw e (
        omega (arith, below.0),
        digit_half (trailing_zeros fuel (x / 2)) x ∙ below.1,
        later (trailing_zeros fuel (x / 2)) (ground arith) below.2,
      )
]
  where
    later :
        (z : ℕ)
        → x % 2 ≡ 0
        → ((k : ℕ) → k < z → digit k (x / 2) ≡ 0)
        → (k : ℕ) → k < suc z
        → digit k x ≡ 0
    later z e f zero l = ground arith
    later z e f (suc k) l = digit_half k x ∙ f k (omega arith)

-- `find_clear_bit` answers the lowest digit that is 0, and -1 only if there is none.
abbrev pub Lowest : ℕ → Option ℕ → Type 0
Lowest word none = (k : ℕ) → k < 64 → digit k word ≡ 1
Lowest word (some b) = (b < 64) × (digit b word ≡ 0) × ((k : ℕ) → k < b → digit k word ≡ 1)

pub find_clear_bit-Lowest : (word : ℕ) → word < 2 ^ 64 → Lowest word (find_clear_bit word)
unfolding find_clear_bit
find_clear_bit-Lowest word h = elim (Bool-cases (uint64_max - word == 0)) [
  | inl e ↦ rw e (λ k l. ap (digit k) (all_ones (ground arith)) ∙ digit-mask 64 k ∙ ground arith)
  | inr e ↦
      let free : 0 < uint64_max - word = ground arith in
      let low = trailing_zeros-lowest 64 (uint64_max - word) (omega arith) free in
      rw e (
        low.0,
        from_free (trailing_zeros 64 (uint64_max - word)) low.0 low.1,
        λ k l. from_taken k (omega (arith, low.0)) (low.2 k l),
      )
]
  where
    all_ones : uint64_max - word ≡ 0 → word ≡ uint64_max
    all_ones z = omega arith

    from_free : (k : ℕ) → k < 64 → digit k (uint64_max - word) ≡ 1 → digit k word ≡ 0
    from_free k l e = omega (arith, digit-complement 64 k word l h)

    from_taken : (k : ℕ) → k < 64 → digit k (uint64_max - word) ≡ 0 → digit k word ≡ 1
    from_taken k l e = omega (arith, digit-complement 64 k word l h)
