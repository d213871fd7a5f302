-- ===== src/Kernel/Fd/Expand.antt =====
-- `expand_table`: a larger table with the same descriptors, or the old one.
use rhkernel.Prelude.{
  ℕ, zero, suc, ◌+◌, ◌*◌, ◌/◌, ◌%◌, ◌^◌, ◌≤◌, ◌≡◌, refl, sym, ap, subst, ◌∙◌, false, ◌&&◌, ◌||◌,
  ◌==◌, ltb, leb, Option, none, some, arith, Bool-cases, Option-cases, inl, inr,
}
use native.Mathlib.Nat.{pow-succ', mul_assoc}
use rhkernel.Libc.ByteSet.Bits.{digit_zero}
use rhkernel.Kernel.Fd.{
  Task, uint32_max, bit_test, bit_set, file_at, grown_capacity, copied_table, mark_open, is_some,
}
use rhkernel.Kernel.Fd.Words.{IsWords, bit_test-digit, bit_set-test, bit_set-IsWords}

pub grown_capacity-le :
    (fuel needed cap : ℕ)
    → needed ≤ uint32_max
    → cap ≤ uint32_max
    → (cap ≤ grown_capacity fuel needed cap) × (grown_capacity fuel needed cap ≤ uint32_max)
unfolding grown_capacity
grown_capacity-le zero needed cap h k = (omega arith, k)
grown_capacity-le (suc fuel) needed cap h k = elim (Bool-cases (ltb cap needed)) [
  | inl e ↦ elim (Bool-cases (ltb (uint32_max / 2) cap)) [
    | inl f ↦ rw (grown_capacity, e, f) (ground arith, h)
    | inr f ↦
        let rest = grown_capacity-le fuel needed (cap * 2) h (ground arith) in
        rw (grown_capacity, e, f) (omega (arith, rest.0), rest.1)
  ]
  | inr e ↦ rw (grown_capacity, e) (omega arith, k)
]

doubled : (fuel cap : ℕ) → cap * 2 ^ suc fuel ≡ cap * 2 * 2 ^ fuel
doubled fuel cap = rw (pow-succ' 2 fuel) (sym (mul_assoc cap 2 (2 ^ fuel)))

pub grown_capacity-ge :
    (fuel needed cap : ℕ) → needed ≤ cap * 2 ^ fuel → needed ≤ grown_capacity fuel needed cap
unfolding grown_capacity
grown_capacity-ge zero needed cap h = omega arith
grown_capacity-ge (suc fuel) needed cap h = elim (Bool-cases (ltb cap needed)) [
  | inl e ↦ elim (Bool-cases (ltb (uint32_max / 2) cap)) [
    | inl f ↦ rw (grown_capacity, e, f) (omega arith)
    | inr f ↦
        rw (grown_capacity, e, f)
          (grown_capacity-ge fuel needed (cap * 2)
            (subst (λ (x : ℕ). needed ≤ x) (doubled fuel cap) h))
  ]
  | inr e ↦ rw (grown_capacity, e) (ground arith)
]

-- A word of zeroes has no bit.
pub bit_test-zero : (bits : ℕ → ℕ) (j : ℕ) → bits (j / 64) ≡ 0 → bit_test bits j ≡ false
bit_test-zero bits j z = bit_test-digit bits j ∙ (rw (z, digit_zero (j % 64)) refl)

pub mark_open-test :
    (rounds i : ℕ) (table : ℕ → Option ℕ) (bits : ℕ → ℕ) (j : ℕ)
    → bit_test (mark_open rounds i table bits) j
      ≡ ((leb i j && ltb j (i + rounds) && is_some (table j)) || bit_test bits j)
unfolding mark_open
mark_open-test zero i table bits j = ground arith
mark_open-test (suc rounds) i table bits j = elim (Option-cases (table i)) [
  | inl e ↦
      rw (mark_open, e, mark_open-test rounds (i + 1) table bits j)
        (elim (Bool-cases (j == i)) [
          | inl q ↦ let p : table j ≡ none = ap table (ground arith) ∙ e in rw p (ground arith)
          | inr q ↦ ground arith
        ])
  | inr (f, e) ↦
      rw
        (
          mark_open,
          e,
          mark_open-test rounds (i + 1) table (bit_set i bits) j,
          bit_set-test bits i j,
        )
        (elim (Bool-cases (j == i)) [
          | inl q ↦ let p : table j ≡ some f = ap table (ground arith) ∙ e in rw p (ground arith)
          | inr q ↦ ground arith
        ])
]

pub mark_open-IsWords :
    (rounds i : ℕ) (table : ℕ → Option ℕ) (bits : ℕ → ℕ)
    → IsWords bits
    → IsWords (mark_open rounds i table bits)
unfolding mark_open
mark_open-IsWords zero i table bits h = h
mark_open-IsWords (suc rounds) i table bits h = elim (Option-cases (table i)) [
  | inl e ↦ rw (mark_open, e) (mark_open-IsWords rounds (i + 1) table bits h)
  | inr (f, e) ↦
      rw (mark_open, e)
        (mark_open-IsWords rounds (i + 1) table (bit_set i bits) (bit_set-IsWords bits i h))
]

pub copied_table-file : (t : Task) (j : ℕ) → copied_table t.fd_capacity t.fd_table j ≡ file_at j t
unfolding copied_table file_at
copied_table-file t j = elim (Option-cases t.fd_table) [
  | inl e ↦ rw (file_at, e) refl
  | inr (table, e) ↦ rw (file_at, e) refl
]
