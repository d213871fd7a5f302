-- ===== src/Libc/Word/Laws.antt =====
-- Words as eight bytes, and the test for a zero byte.
use rhkernel.Prelude.{
  ℕ, zero, suc, ◌+◌, ◌-◌, ◌*◌, ◌/◌, ◌%◌, ◌^◌, ◌<◌, ◌≡◌, ◌≢◌, bit_and, bit_xor, min, arith, false,
  ap, ap₂, sym, ◌∙◌,
}
use rhkernel.Prelude.Bits.{digit, digit-bit_and, agree_8, bit_xor-shift}
use native.Mathlib.Nat.{add-zero, pow-succ', div-div-eq-div-mul}
use rhkernel.Libc.Memory.{Memory, load_bytes}
use rhkernel.Libc.Word.{ones, repeat_byte, has_zero_byte}

-- If the test fails, the highest digit of each byte is 0 in the difference or 1 in the word.
high_digit :
    (k x : ℕ)
    → has_zero_byte x ≡ false
    → min
        (min (digit k ((x + 2 ^ 64 - ones) % 2 ^ 64)) (digit k (2 ^ 64 - 1 - x)))
        (digit k (ones * 2 ^ 7 % 2 ^ 64))
      ≡ digit k 0
unfolding has_zero_byte
high_digit k x h = omega (
  arith,
  digit-bit_and k (bit_and ((x + 2 ^ 64 - ones) % 2 ^ 64) (2 ^ 64 - 1 - x)) (ones * 2 ^ 7 % 2 ^ 64),
  digit-bit_and k ((x + 2 ^ 64 - ones) % 2 ^ 64) (2 ^ 64 - 1 - x),
  ap (digit k) empty,
)
  where
    empty :
        bit_and (bit_and ((x + 2 ^ 64 - ones) % 2 ^ 64) (2 ^ 64 - 1 - x)) (ones * 2 ^ 7 % 2 ^ 64)
        ≡ 0
    empty = ground arith

-- No byte of the word is 0: the lowest one would leave its highest digit in the test.
module _ (x : ℕ) (fits : x < 2 ^ 64) (h : has_zero_byte x ≡ false) where
  nonzero_0 : x % 256 ≢ 0
  nonzero_0 = omega (arith, high_digit 7 x h)

  nonzero_1 : x / 256 % 256 ≢ 0
  nonzero_1 = omega (arith, high_digit 15 x h, nonzero_0)

  nonzero_2 : x / 256 ^ 2 % 256 ≢ 0
  nonzero_2 = omega (arith, high_digit 23 x h, nonzero_0, nonzero_1)

  nonzero_3 : x / 256 ^ 3 % 256 ≢ 0
  nonzero_3 = omega (arith, high_digit 31 x h, nonzero_0, nonzero_1, nonzero_2)

  nonzero_4 : x / 256 ^ 4 % 256 ≢ 0
  nonzero_4 = omega (arith, high_digit 39 x h, nonzero_0, nonzero_1, nonzero_2, nonzero_3)

  nonzero_5 : x / 256 ^ 5 % 256 ≢ 0
  nonzero_5 =
      omega (arith, high_digit 47 x h, nonzero_0, nonzero_1, nonzero_2, nonzero_3, nonzero_4)

  nonzero_6 : x / 256 ^ 6 % 256 ≢ 0
  nonzero_6 =
      omega
        (arith, high_digit 55 x h, nonzero_0, nonzero_1, nonzero_2, nonzero_3, nonzero_4, nonzero_5)

  nonzero_7 : x / 256 ^ 7 % 256 ≢ 0
  nonzero_7 = omega (
    arith,
    high_digit 63 x h,
    nonzero_0,
    nonzero_1,
    nonzero_2,
    nonzero_3,
    nonzero_4,
    nonzero_5,
    nonzero_6,
  )

-- Every byte of the repeated word is `c`.
pub repeat_byte-byte : (c i : ℕ) → c < 256 → i < 8 → repeat_byte c / 256 ^ i % 256 ≡ c
unfolding repeat_byte
repeat_byte-byte c zero h k = omega arith
repeat_byte-byte c (suc zero) h k = omega arith
repeat_byte-byte c (suc (suc zero)) h k = omega arith
repeat_byte-byte c (suc (suc (suc zero))) h k = omega arith
repeat_byte-byte c (suc (suc (suc (suc zero)))) h k = omega arith
repeat_byte-byte c (suc (suc (suc (suc (suc zero))))) h k = omega arith
repeat_byte-byte c (suc (suc (suc (suc (suc (suc zero)))))) h k = omega arith
repeat_byte-byte c (suc (suc (suc (suc (suc (suc (suc zero))))))) h k = omega arith
repeat_byte-byte c (suc (suc (suc (suc (suc (suc (suc (suc i)))))))) h k = absurd (omega arith)

no_zero_byte : (x i : ℕ) → x < 2 ^ 64 → has_zero_byte x ≡ false → i < 8 → x / 256 ^ i % 256 ≢ 0
no_zero_byte x zero b h k = omega (arith, nonzero_0 x b h)
no_zero_byte x (suc zero) b h k = omega (arith, nonzero_1 x b h)
no_zero_byte x (suc (suc zero)) b h k = nonzero_2 x b h
no_zero_byte x (suc (suc (suc zero))) b h k = nonzero_3 x b h
no_zero_byte x (suc (suc (suc (suc zero)))) b h k = nonzero_4 x b h
no_zero_byte x (suc (suc (suc (suc (suc zero))))) b h k = nonzero_5 x b h
no_zero_byte x (suc (suc (suc (suc (suc (suc zero)))))) b h k = nonzero_6 x b h
no_zero_byte x (suc (suc (suc (suc (suc (suc (suc zero))))))) b h k = nonzero_7 x b h
no_zero_byte x (suc (suc (suc (suc (suc (suc (suc (suc i)))))))) b h k = absurd (omega arith)

-- Where two words have the same byte, their exclusive or has the byte 0.
agree_at :
    (a b i : ℕ) → i < 8 → a / 256 ^ i % 256 ≡ b / 256 ^ i % 256 → bit_xor a b / 256 ^ i % 256 ≡ 0
agree_at a b zero k h = omega (arith, agree_8 a b (omega arith))
agree_at a b (suc zero) k h = rw (bit_xor-shift 8 a b) (agree_8 (a / 2 ^ 8) (b / 2 ^ 8) h)
agree_at a b (suc (suc zero)) k h = rw (bit_xor-shift 16 a b) (agree_8 (a / 2 ^ 16) (b / 2 ^ 16) h)
agree_at a b (suc (suc (suc zero))) k h =
    rw (bit_xor-shift 24 a b) (agree_8 (a / 2 ^ 24) (b / 2 ^ 24) h)
agree_at a b (suc (suc (suc (suc zero)))) k h =
    rw (bit_xor-shift 32 a b) (agree_8 (a / 2 ^ 32) (b / 2 ^ 32) h)
agree_at a b (suc (suc (suc (suc (suc zero))))) k h =
    rw (bit_xor-shift 40 a b) (agree_8 (a / 2 ^ 40) (b / 2 ^ 40) h)
agree_at a b (suc (suc (suc (suc (suc (suc zero)))))) k h =
    rw (bit_xor-shift 48 a b) (agree_8 (a / 2 ^ 48) (b / 2 ^ 48) h)
agree_at a b (suc (suc (suc (suc (suc (suc (suc zero))))))) k h =
    rw (bit_xor-shift 56 a b) (agree_8 (a / 2 ^ 56) (b / 2 ^ 56) h)
agree_at a b (suc (suc (suc (suc (suc (suc (suc (suc i)))))))) k h = absurd (omega arith)

xor_lt : (a b : ℕ) → a < 2 ^ 64 → b < 2 ^ 64 → bit_xor a b < 2 ^ 64
xor_lt a b h k = omega (arith, bit_xor-shift 64 a b, both)
  where
    both : bit_xor (a / 2 ^ 64) (b / 2 ^ 64) ≡ 0
    both =
        let p : a / 2 ^ 64 ≡ 0 = omega arith in
        let q : b / 2 ^ 64 ≡ 0 = omega arith in ap₂ bit_xor p q

repeat_byte-lt : (c : ℕ) → repeat_byte c < 2 ^ 64
unfolding repeat_byte
repeat_byte-lt c = omega arith

-- Each cell of the memory holds a byte.
abbrev pub IsBytes : Memory → Type 0
IsBytes m = (a : ℕ) → m a < 256

module _ (m : Memory) (bytes : IsBytes m) where
  load_bytes-lt : (n p : ℕ) → load_bytes n p m < 256 ^ n
  unfolding load_bytes
  load_bytes-lt zero p = omega arith
  load_bytes-lt (suc n) p = omega (arith, bytes p, load_bytes-lt n (p + 1), pow-succ' 256 n)

  pub load_bytes-byte : (n i p : ℕ) → i < n → load_bytes n p m / 256 ^ i % 256 ≡ m (p + i)
  unfolding load_bytes
  load_bytes-byte zero i p h = absurd (omega arith)
  load_bytes-byte (suc n) zero p h = omega (arith, bytes p, ap m (add-zero p))
  load_bytes-byte (suc n) (suc i) p h =
      rw (pow-succ' 256 i, ← div-div-eq-div-mul (load_bytes (suc n) p m) 256 (256 ^ i), drop_one)
        (load_bytes-byte n i (p + 1) (omega arith) ∙ ap m (omega arith))
    where
      drop_one : load_bytes (suc n) p m / 256 ≡ load_bytes n (p + 1) m
      drop_one = omega (arith, bytes p)

  word_lt : (p : ℕ) → load_bytes 8 p m < 2 ^ 64
  word_lt p = omega (arith, load_bytes-lt 8 p)

  -- A word that passes the test against the repeated byte `c` holds no `c`.
  pub xor_misses :
      (p c i : ℕ)
      → c < 256
      → has_zero_byte (bit_xor (load_bytes 8 p m) (repeat_byte c)) ≡ false
      → i < 8
      → m (p + i) ≢ c
  xor_misses p c i byte clear k e =
      no_zero_byte (bit_xor (load_bytes 8 p m) (repeat_byte c)) i
        (xor_lt (load_bytes 8 p m) (repeat_byte c) (word_lt p) (repeat_byte-lt c)) clear k
        (agree_at (load_bytes 8 p m) (repeat_byte c) i k
          (load_bytes-byte 8 i p k ∙ e ∙ sym (repeat_byte-byte c i byte k)))

  -- The same with no repeated byte, for the byte 0.
  pub word_misses : (p i : ℕ) → has_zero_byte (load_bytes 8 p m) ≡ false → i < 8 → m (p + i) ≢ 0
  word_misses p i clear k e =
      no_zero_byte (load_bytes 8 p m) i (word_lt p) clear k (load_bytes-byte 8 i p k ∙ e)
