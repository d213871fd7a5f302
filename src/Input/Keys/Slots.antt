-- ===== src/Input/Keys/Slots.antt =====
-- The bits of the keys that are down.
use rhkernel.Prelude.{
  ℕ, zero, suc, ◌+◌, ◌*◌, ◌/◌, ◌%◌, ◌^◌, ◌<◌, ◌≡◌, refl, sym, ap, ◌∙◌, bit_and, Bool, true, false,
  not, leb, ◌==◌, if◌then◌else◌, some, arith, Bool-cases, inl, inr,
}
use native.Mathlib.Nat.{pow-succ'}
use rhkernel.Prelude.Bits.{digit, bit_and_step, digit-bit_and}
use rhkernel.Libc.ByteSet.Bits.{and_zero, digit-bit_or, digit-pow, bit_and-pow}
use rhkernel.Libc.ByteSet.Laws.{bit_times_power}
use rhkernel.Kernel.Fd.Bits.{power_positive, digit-complement, pow-lt}
use rhkernel.Input.{key_extended}
use rhkernel.Input.Keys.{Keyboard, key_slot, key_is_down, set_slot, key_set_down, not32}

bit_and-lt_right : (n a b : ℕ) → b < 2 ^ n → bit_and a b < 2 ^ n
bit_and-lt_right zero a zero h = omega (arith, and_zero a)
bit_and-lt_right zero a (suc b) h = absurd (omega arith)
bit_and-lt_right (suc n) a b h =
    let p : 2 ^ suc n ≡ 2 * 2 ^ n = pow-succ' 2 n in
    omega (arith, p, bit_and_step a b, bit_and-lt_right n (a / 2) (b / 2) (omega (arith, p)))

-- The slot of a code: its seven low bits, and 128 more for an extended key.
abbrev pub slot_of : ℕ → ℕ
slot_of code = if bit_and code key_extended == 0 then bit_and code 127 else 128 + bit_and code 127

pub key_slot-slot_of : (code : ℕ) → key_slot code ≡ some (slot_of code)
unfolding key_slot
key_slot-slot_of code =
    let k : leb 128 (bit_and code 127) ≡ false =
      ground (arith, bit_and-lt_right 7 code 127 (omega arith)) in
    rw k refl

abbrev pub slot_test : (ℕ → ℕ) → ℕ → Bool
slot_test words slot = not (bit_and (words (slot / 32)) (2 ^ (slot % 32)) == 0)

pub slot_test-digit :
    (words : ℕ → ℕ) (slot : ℕ) → slot_test words slot ≡ (digit (slot % 32) (words (slot / 32)) == 1)
slot_test-digit words slot = rw (bit_and-pow (slot % 32) (words (slot / 32))) (
    bit_times_power (digit (slot % 32) (words (slot / 32))) (2 ^ (slot % 32)) (omega arith)
      (power_positive (slot % 32)))

single : (slot : ℕ) → 2 ^ (slot % 32) < 2 ^ 32
single slot = pow-lt (slot % 32) 32 (omega arith)

set_slot-test :
    (words : ℕ → ℕ) (slot : ℕ) (down : Bool) (i : ℕ)
    → slot_test (set_slot slot down words) i ≡ (if i == slot then down else slot_test words i)
unfolding set_slot
set_slot-test words slot down i =
    slot_test-digit (set_slot slot down words) i
    ∙ at_word down
    ∙ ap (λ b. if i == slot then down else b) (sym (slot_test-digit words i))
  where
    at_word :
        (down : Bool)
        → (digit (i % 32) (set_slot slot down words (i / 32)) == 1)
          ≡ (if i == slot then down else digit (i % 32) (words (i / 32)) == 1)
    at_word true = elim (Bool-cases (i / 32 == slot / 32)) [
      | inl e ↦
          rw
            (
              set_slot,
              e,
              digit-bit_or (i % 32) (words (i / 32)) (2 ^ (slot % 32)),
              digit-pow (i % 32) (slot % 32),
            )
            (ground arith)
      | inr e ↦ rw (set_slot, e) (ground arith)
    ]
    at_word false = elim (Bool-cases (i / 32 == slot / 32)) [
      | inl e ↦
          rw
            (
              set_slot,
              e,
              digit-bit_and (i % 32) (words (i / 32)) (not32 (2 ^ (slot % 32))),
              digit-complement 32 (i % 32) (2 ^ (slot % 32)) (omega arith) (single slot),
              digit-pow (i % 32) (slot % 32),
            )
            (ground arith)
      | inr e ↦ rw (set_slot, e) (ground arith)
    ]

pub key_is_down-slot :
    (kbd : Keyboard) (code : ℕ) → key_is_down kbd code ≡ slot_test kbd.down (slot_of code)
unfolding key_is_down
key_is_down-slot kbd code = rw (key_is_down, key_slot-slot_of code) refl

pub key_set_down-slot :
    (code : ℕ) (down : Bool) (kbd : Keyboard)
    → key_set_down code down kbd ≡ record kbd { down = set_slot (slot_of code) down kbd.down }
unfolding key_set_down
key_set_down-slot code down kbd = rw (key_set_down, key_slot-slot_of code) refl

-- A key that is set down or up is so for its own slot only.
pub key_set_down-test :
    (code : ℕ) (down : Bool) (kbd : Keyboard) (slot : ℕ)
    → slot_test (key_set_down code down kbd).down slot
      ≡ (if slot == slot_of code then down else slot_test kbd.down slot)
key_set_down-test code down kbd slot =
    rw (key_set_down-slot code down kbd) (set_slot-test kbd.down (slot_of code) down slot)
