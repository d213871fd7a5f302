-- ===== src/Tmpfs/Options/Sizes.antt =====
-- What `parse_opts` makes of a size.
use rhkernel.Prelude.{
  ℕ, zero, suc, ◌+◌, ◌-◌, ◌*◌, ◌^◌, ◌≤◌, ◌<◌, ◌≡◌, ◌≢◌, ◌⊎◌, ◌∙◌, refl, ap, subst, Bool, true,
  false, not, ◌&&◌, ltb, ◌==◌, if◌then◌else◌, Option, none, some, List, ◌∷◌, length, arith,
  Bool-cases, inl, inr, while, return_while, while_inv, Round, next, leave,
}
use rhkernel.Libc.Memory.{Memory}
use rhkernel.Libc.Number.Runs.{HasDigits, value_from}
use rhkernel.Tmpfs.Account.{Mount}
use rhkernel.Tmpfs.File.{uint64_max}
use rhkernel.Tmpfs.Options.{
  suffix, exact_size, scaled_size, size_value, set_limit, apply_option, same_start, size_key,
  option_end, next_option, option_round, options_loop, with_defaults, result_mount, parse_opts,
}
use rhkernel.Tmpfs.Options.Numbers.{parse_uint-value}

-- The byte behind a number is a unit of `2 ^ power`, in one byte, or none, in no byte.
pub data HasUnit (c : ℕ) : ℕ → ℕ → Type 0 where
  kilo : (c ≡ 75) ⊎ (c ≡ 107) → HasUnit c 10 1
  mega : (c ≡ 77) ⊎ (c ≡ 109) → HasUnit c 20 1
  giga : (c ≡ 71) ⊎ (c ≡ 103) → HasUnit c 30 1
  bare : c ≢ 75 → c ≢ 107 → c ≢ 77 → c ≢ 109 → c ≢ 71 → c ≢ 103 → HasUnit c 0 0

-- The limit that a size asks for: if nothing stands behind it, it is not 0 and it fits 64 bits.
abbrev pub wanted : Bool → ℕ → ℕ → Option ℕ
wanted complete v power =
    if complete && (ltb 0 v && ltb (v * 2 ^ power) (2 ^ 64)) then some (v * 2 ^ power) else none

size_value-wanted :
    (m : Memory) (p len v n power bytes : ℕ)
    → HasUnit (m (p + 5 + n)) power bytes
    → v + 1 < 2 ^ 64
    → size_value m p len (v, p + 5 + n) ≡ wanted (5 + n + bytes == len) v power
unfolding size_value scaled_size exact_size suffix
size_value-wanted m p len v n power bytes u k =
    let marker : v == uint64_max ≡ false = ground arith in
    let taken : p + 5 + n - p ≡ 5 + n = omega arith in
    rw (size_value, marker, taken) (by_unit (m (p + 5 + n)) power bytes u)
  where
    kilo_value : scaled_size len v (5 + n) (some 1024) ≡ wanted (5 + n + 1 == len) v 10
    kilo_value = ground arith

    mega_value : scaled_size len v (5 + n) (some 1048576) ≡ wanted (5 + n + 1 == len) v 20
    mega_value = ground arith

    giga_value : scaled_size len v (5 + n) (some 1073741824) ≡ wanted (5 + n + 1 == len) v 30
    giga_value = ground arith

    bare_value : scaled_size len v (5 + n) none ≡ wanted (5 + n + 0 == len) v 0
    bare_value = ground arith

    suffix_is : (c d f : ℕ) → c ≡ d → suffix d ≡ some f → suffix c ≡ some f
    suffix_is c d f e q = ap suffix e ∙ q

    by_unit :
        (c power bytes : ℕ)
        → HasUnit c power bytes
        → scaled_size len v (5 + n) (suffix c) ≡ wanted (5 + n + bytes == len) v power
    by_unit c power bytes (kilo (inl h)) = rw (suffix_is c 75 1024 h refl) kilo_value
    by_unit c power bytes (kilo (inr h)) = rw (suffix_is c 107 1024 h refl) kilo_value
    by_unit c power bytes (mega (inl h)) = rw (suffix_is c 77 1048576 h refl) mega_value
    by_unit c power bytes (mega (inr h)) = rw (suffix_is c 109 1048576 h refl) mega_value
    by_unit c power bytes (giga (inl h)) = rw (suffix_is c 71 1073741824 h refl) giga_value
    by_unit c power bytes (giga (inr h)) = rw (suffix_is c 103 1073741824 h refl) giga_value
    by_unit c power bytes (bare k l a b g h) =
        let no_unit : suffix c ≡ none = ground arith in rw no_unit bare_value

-- A text of one option, "size=" and a number, its unit, and what follows.
module _ (m : Memory) (p len power bytes d : ℕ) (ds : List ℕ) (long : 5 < len)
    (key : same_start 5 size_key m p ≡ true) (number : HasDigits 10 m (p + 5) (d ∷ ds))
    (unit : HasUnit (m (p + 5 + suc (length ds))) power bytes)
    (marker : value_from 10 0 (d ∷ ds) + 1 < 2 ^ 64) (fuel : ℕ)
    (digits_fit : suc (length ds) < fuel) where
  abbrev limit : Option ℕ
  limit = wanted (5 + suc (length ds) + bytes == len) (value_from 10 0 (d ∷ ds)) power

  apply_option-size : (mnt : Mount) → apply_option fuel m p len mnt ≡ set_limit mnt limit
  unfolding apply_option
  apply_option-size mnt =
      let l : ltb 5 len ≡ true = ground arith in
      let value = parse_uint-value fuel m (p + 5) d ds number digits_fit (omega arith) in
      let size =
        size_value-wanted m p len (value_from 10 0 (d ∷ ds)) (suc (length ds)) power bytes unit
          marker in
      rw (apply_option, l, key, value, size) refl

  module _ (inside : (i : ℕ) → i < len → (not (m (p + i) == 0) && not (m (p + i) == 44)) ≡ true)
      (ended : m (p + len) ≡ 0) (rounds : len < fuel) where
    option_end-len : option_end fuel m p ≡ p + len
    unfolding option_end
    option_end-len =
        let all =
          while_inv (λ e. (p ≤ e) × (e ≤ p + len)) (λ e. p + len - e)
            (λ e. not (m e == 0) && not (m e == 44)) (λ e. e + 1) round fuel p (omega arith)
            (omega arith, omega arith) in
        only_end (while fuel (λ e. not (m e == 0) && not (m e == 44)) (λ e. e + 1) p) all.0 all.1
      where
        not_last : (e : ℕ) → (not (m e == 0) && not (m e == 44)) ≡ true → e == p + len ≡ false
        not_last e t = elim (Bool-cases (e == p + len)) [
          | inl q ↦ let z : m e ≡ 0 = ap m (ground arith) ∙ ended in absurd (ground (arith, z, t))
          | inr q ↦ q
        ]

        round :
            (e : ℕ)
            → (p ≤ e) × (e ≤ p + len)
            → (not (m e == 0) && not (m e == 44)) ≡ true
            → ((p ≤ e + 1) × (e + 1 ≤ p + len)) × (p + len - (e + 1) < p + len - e)
        round e h t =
            let less : e < p + len = ground (arith, not_last e t, h.1) in
            ((omega (arith, h.0), omega (arith, less)), omega (arith, less))

        only_end :
            (e : ℕ)
            → (p ≤ e) × (e ≤ p + len)
            → (not (m e == 0) && not (m e == 44)) ≡ false
            → e ≡ p + len
        only_end e h t = elim (Bool-cases (ltb (e - p) len)) [
          | inl q ↦
              let place : p + (e - p) ≡ e = omega (arith, h.0) in
              let more =
                subst (λ z. (not (m z == 0) && not (m z == 44)) ≡ true) place
                  (inside (e - p) (ground arith)) in
              absurd (ground (arith, more, t))
          | inr q ↦ ground (arith, h.0, h.1)
        ]

    abbrev limited : Mount → Option ℕ → Option Mount
    limited old none = none
    limited old (some v) = some (record old { limit = v; default_mode = 420 })

    started : not (m p == 0) ≡ true
    started =
        let first =
          subst (λ z. (not (m z == 0) && not (m z == 44)) ≡ true) (add_zero p)
            (inside 0 (omega arith)) in
        ground (arith, first)
      where
        add_zero : (a : ℕ) → a + 0 ≡ a
        add_zero a = omega arith

    after : Mount → Option ℕ → Round (ℕ × Mount) Bool
    after mnt none = leave false
    after mnt (some v) = next (p + len, record mnt { limit = v })

    after_option :
        (mnt : Mount) (o : Option ℕ) → next_option m (p + len) (set_limit mnt o) ≡ after mnt o
    unfolding next_option set_limit after
    after_option mnt none = refl
    after_option mnt (some v) =
        let no_comma : m (p + len) == 44 ≡ false = ground (arith, ended) in rw no_comma refl

    one_round : (mnt : Mount) → option_round fuel m (p, mnt) ≡ after mnt limit
    unfolding option_round
    one_round mnt =
        let all : p + len - p ≡ len = omega arith in
        rw (option_round, option_end-len, all, apply_option-size mnt) (after_option mnt limit)

    loop_lem :
        (n : ℕ) (mnt : Mount) (o : Option ℕ)
        → len < n
        → option_round fuel m (p, mnt) ≡ after mnt o
        → return_while n (λ x. not (m x.0 == 0)) (option_round fuel m) (p, mnt) ≡ after mnt o
    unfolding return_while after
    loop_lem zero mnt o l e = absurd (omega arith)
    loop_lem (suc zero) mnt o l e = absurd (omega arith)
    loop_lem (suc (suc n)) mnt none l e = rw (return_while, started, e) refl
    loop_lem (suc (suc n)) mnt (some v) l e =
        let over : not (m (p + len) == 0) ≡ false = ground (arith, ended) in
        rw (return_while, started, e, over) refl

    result_lem :
        (old : Mount) (o : Option ℕ) → result_mount (after (with_defaults old) o) ≡ limited old o
    unfolding after
    result_lem old none = refl
    result_lem old (some v) = refl

    -- A text of one option "size=" with a decimal number below 2 ^ 64 - 1, with fuel for its bytes: the mount gets the number
    -- times its unit as limit, with the mode 0644, if nothing follows the unit, the limit is not 0 and it fits 64 bits; else
    -- the text is refused.
    pub parse_opts-size : (old : Mount) → parse_opts fuel m (some p) old ≡ limited old limit
    unfolding parse_opts options_loop
    parse_opts-size old =
        ap result_mount
          (loop_lem fuel (with_defaults old) limit rounds (one_round (with_defaults old)))
        ∙ result_lem old limit
