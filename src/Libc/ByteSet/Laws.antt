-- ===== src/Libc/ByteSet/Laws.antt =====
-- The array of `byte_set` stands for the set of the bytes of its text.
use rhkernel.Prelude.{
  ℕ, zero, suc, ◌+◌, ◌*◌, ◌/◌, ◌%◌, ◌^◌, ◌<◌, ◌≡◌, refl, ◌∙◌, bit_or, Bool, true, false, not, ◌||◌,
  ◌==◌, if◌then◌else◌, List, [], ◌∷◌, length, arith, Bool-cases, inl, inr,
}
use native.Mathlib.Nat.{one-le-pow}
use rhkernel.Prelude.Bits.{digit}
use rhkernel.Libc.Memory.{Memory}
use rhkernel.Libc.Text.{IsString}
use rhkernel.Libc.ByteSet.{add_byte, add_bytes, byte_set, byte_set_has}
use rhkernel.Libc.ByteSet.Bits.{digit-bit_or, digit-pow, digit_zero, bit_and-pow, digit-byte}

abbrev pub member : ℕ → List ℕ → Bool
member c [] = false
member c (x ∷ xs) = c == x || member c xs

-- The bit of a byte in the array.
abbrev bit : Memory → ℕ → ℕ
bit set c = digit (c % 8) (set (c / 8))

pub bit_times_power : (d p : ℕ) → d < 2 → 0 < p → not (d * p == 0) ≡ d == 1
bit_times_power zero p h k = let z : 0 * p ≡ 0 = omega arith in rw z refl
bit_times_power (suc zero) p h k = ground arith
bit_times_power (suc (suc d)) p h k = absurd (omega arith)

power_positive : (k : ℕ) → 0 < 2 ^ k
power_positive k = one-le-pow k 2 (omega arith)

byte_set_has-bit : (set : Memory) (c : ℕ) → byte_set_has set c ≡ bit set c == 1
unfolding byte_set_has
byte_set_has-bit set c =
    rw (bit_and-pow (c % 8) (set (c / 8)))
      (bit_times_power (bit set c) (2 ^ (c % 8)) (omega arith) (power_positive (c % 8)))

add_byte-bit : (set : Memory) (x c : ℕ) → bit (add_byte x set) c ≡ (if c == x then 1 else bit set c)
unfolding add_byte
add_byte-bit set x c = elim (Bool-cases (c / 8 == x / 8)) [
  | inl e ↦
      let place : c / 8 ≡ x / 8 = ground arith in
      let low : c % 8 < 8 = omega arith in
      rw
        (
          e,
          digit-byte (c % 8) (bit_or (set (c / 8)) (2 ^ (x % 8))) low,
          digit-bit_or (c % 8) (set (c / 8)) (2 ^ (x % 8)),
          digit-pow (c % 8) (x % 8),
        )
        (ground (arith, place))
  | inr e ↦ rw e (ground arith)
]

either :
    (b a : Bool) (n : ℕ)
    → ◌≡◌ {A = ℕ} (if a then 1 else if b then 1 else n) (if b || a then 1 else n)
either true true n = refl
either true false n = refl
either false true n = refl
either false false n = refl

add_bytes-bit :
    (fuel : ℕ) (m : Memory) (s : ℕ) (xs : List ℕ) (set : Memory) (c : ℕ)
    → IsString m s xs
    → length xs < fuel
    → bit (add_bytes fuel m s set) c ≡ (if member c xs then 1 else bit set c)
unfolding add_bytes
add_bytes-bit zero m s xs set c h f = absurd (omega arith)
add_bytes-bit (suc fuel) m s [] set c h f = rw (add_bytes, h) refl
add_bytes-bit (suc fuel) m s (x ∷ xs) set c h f =
    let go : (x == 0) ≡ false = ground (arith, h.1) in
    rw (add_bytes, h.0, go, h.0)
      (add_bytes-bit fuel m (s + 1) xs (add_byte x set) c h.2 (omega arith)
        ∙ (rw (add_byte-bit set x c) (either (c == x) (member c xs) (bit set c))))

-- The set of a text, with fuel for its bytes, has a byte exactly if the text does.
pub byte_set_has-member :
    (fuel : ℕ) (m : Memory) (s : ℕ) (xs : List ℕ) (c : ℕ)
    → IsString m s xs
    → length xs < fuel
    → byte_set_has (byte_set fuel m s) c ≡ member c xs
unfolding byte_set
byte_set_has-member fuel m s xs c h f =
    byte_set_has-bit (add_bytes fuel m s (λ i. 0)) c
    ∙ (rw (add_bytes-bit fuel m s xs (λ i. 0) c h f)
        (as_test (member c xs) (digit (c % 8) 0) (digit_zero (c % 8))))
  where
    as_test : (b : Bool) (n : ℕ) → n ≡ 0 → (if b then 1 else n) == 1 ≡ b
    as_test true n z = refl
    as_test false n z = ground arith
