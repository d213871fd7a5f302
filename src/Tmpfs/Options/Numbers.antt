-- ===== src/Tmpfs/Options/Numbers.antt =====
-- `parse_uint` on a decimal number.
use rhkernel.Prelude.{
  ℕ, zero, suc, ◌+◌, ◌-◌, ◌*◌, ◌^◌, ◌<◌, ◌≡◌, ◌∙◌, refl, ap₂, true, false, ltb, none, some, List,
  [], ◌∷◌, length, arith,
}
use rhkernel.Libc.Memory.{Memory}
use rhkernel.Libc.Number.{digit_below, digit_value}
use rhkernel.Libc.Number.Runs.{HasDigits, value_from, value_from-le}
use rhkernel.Tmpfs.Account.{u64}
use rhkernel.Tmpfs.File.{uint64_max}
use rhkernel.Tmpfs.Options.{is_numeral, digits, parse_uint}

is_numeral-digit : (c d : ℕ) → digit_below 10 c ≡ some d → (is_numeral 57 c ≡ true) × (c - 48 ≡ d)
unfolding digit_below digit_value
is_numeral-digit c d h = ground arith

is_numeral-none : (c : ℕ) → digit_below 10 c ≡ none → is_numeral 57 c ≡ false
unfolding digit_below digit_value
is_numeral-none c h = ground arith

digits-value :
    (fuel : ℕ) (m : Memory) (v s : ℕ) (ds : List ℕ)
    → HasDigits 10 m s ds
    → length ds < fuel
    → value_from 10 v ds < 2 ^ 64
    → digits 57 (λ x d. u64 (x * 10 + d)) uint64_max fuel m v s
      ≡ (value_from 10 v ds, s + length ds)
unfolding digits value_from
digits-value zero m v s ds h k fits = absurd (omega arith)
digits-value (suc fuel) m v s [] h k fits =
    rw (digits, is_numeral-none (m s) h) (ap₂ (λ (x : ℕ) (y : ℕ). (x, y)) refl (omega arith))
digits-value (suc fuel) m v s (d ∷ ds) h k fits =
    let numeral = is_numeral-digit (m s) d h.0 in
    let small : v * 10 + d < 2 ^ 64 =
      omega (arith, value_from-le 10 (v * 10 + d) ds (omega arith), fits) in
    let whole : u64 (v * 10 + (m s - 48)) ≡ v * 10 + d = omega (arith, small, numeral.1) in
    let grows : ltb (u64 (v * 10 + (m s - 48))) v ≡ false = ground (arith, whole) in
    rw (digits, numeral.0, grows, whole)
      (digits-value fuel m (v * 10 + d) (s + 1) ds h.1 (omega arith) fits
        ∙ ap₂ (λ (x : ℕ) (y : ℕ). (x, y)) refl (omega arith))

-- A decimal number below 2 ^ 64, with fuel for its digits, is parsed to its value and the place behind it.
pub parse_uint-value :
    (fuel : ℕ) (m : Memory) (s d : ℕ) (ds : List ℕ)
    → HasDigits 10 m s (d ∷ ds)
    → suc (length ds) < fuel
    → value_from 10 0 (d ∷ ds) < 2 ^ 64
    → parse_uint fuel m s ≡ (value_from 10 0 (d ∷ ds), s + suc (length ds))
unfolding parse_uint
parse_uint-value fuel m s d ds h k fits =
    let numeral = is_numeral-digit (m s) d h.0 in
    rw numeral.0 (digits-value fuel m 0 s (d ∷ ds) h k fits)
