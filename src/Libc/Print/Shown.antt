-- ===== src/Libc/Print/Shown.antt =====
-- The digits, signs and arguments of `vsnprintf` are those that the directives stand for.
use rhkernel.Prelude.{
  ℕ, zero, suc, ◌+◌, ◌/◌, ◌%◌, ◌^◌, ◌<◌, ◌≡◌, refl, sym, ap, ap₂, subst, ◌∙◌, Bool, true, false,
  ltb, ◌==◌, some, List, [], ◌∷◌, ◌++◌, get_or, arith, Bool-cases, inl, inr,
}
use mathlib.Core.List.{append-nil, append_assoc}
use rhkernel.Libc.Memory.{Memory}
use rhkernel.Prelude.Links.Remove.{is_eq}
use rhkernel.Libc.Print.{
  tmp_digits, digit_char, unsigned_arg, signed_arg, takes_arg, first_slot, rest_slots,
}
use rhkernel.Libc.Print.Format.{
  Mode, plain, percent, one_l, two_l, uint_text, int_text, convert_text, format_text,
}
use rhkernel.Libc.Print.Meaning.{
  numeral, lower_digits, upper_digits, Kind, character, string, signed, unsigned, lower_hex,
  upper_hex, pointer, kinds, kind_in, argument_bits, signed_numeral, shown, directive_text, meaning,
}

-- The characters of the digits from `start` on.
image : (ℕ → ℕ) → ℕ → ℕ → List ℕ
image f start zero = []
image f start (suc n) = f start ∷ image f (start + 1) n

get_or-image : (f : ℕ → ℕ) (start n i : ℕ) → i < n → get_or (image f start n) i 0 ≡ f (start + i)
unfolding image
get_or-image f start zero i l = absurd (omega arith)
get_or-image f start (suc n) zero l = ap f (omega arith)
get_or-image f start (suc n) (suc i) l =
    get_or-image f (start + 1) n i (omega arith) ∙ ap f (omega arith)

module _ (upper : Bool) (symbols : List ℕ) (same : image (digit_char upper) 0 16 ≡ symbols)
    (base : ℕ) (low : (v : ℕ) → v % base < 16) (last : (v : ℕ) → (v / base == 0) ≡ ltb v base) where
  symbol : (v : ℕ) → digit_char upper (v % base) ≡ get_or symbols (v % base) 0
  symbol v =
      ap (digit_char upper) (omega arith)
      ∙ sym (get_or-image (digit_char upper) 0 16 (v % base) (low v))
      ∙ ap (λ (xs : List ℕ). get_or xs (v % base) 0) same

  tmp_digits-numeral :
      (fuel v : ℕ) (tmp : List ℕ)
      → tmp_digits fuel base upper v tmp ≡ numeral fuel symbols base v ++ tmp
  unfolding tmp_digits numeral
  tmp_digits-numeral zero v tmp = refl
  tmp_digits-numeral (suc fuel) v tmp = elim (Bool-cases (v / base == 0)) [
    | inl e ↦
        let l = sym (last v) ∙ e in
        rw (tmp_digits, numeral, e, l) (ap (λ (c : ℕ). c ∷ tmp) (symbol v))
    | inr e ↦
        let l = sym (last v) ∙ e in
        rw (tmp_digits, numeral, e, l)
          (tmp_digits-numeral fuel (v / base) (digit_char upper (v % base) ∷ tmp)
            ∙ ap (λ (c : ℕ). numeral fuel symbols base (v / base) ++ c ∷ tmp) (symbol v)
            ∙ sym (append_assoc (numeral fuel symbols base (v / base)) _ tmp))
  ]

  uint_text-numeral : (v : ℕ) → uint_text v base upper ≡ numeral 64 symbols base v
  unfolding uint_text
  uint_text-numeral v = tmp_digits-numeral 64 v [] ∙ append-nil _

decimal : (v : ℕ) → uint_text v 10 false ≡ numeral 64 lower_digits 10 v
unfolding image digit_char
decimal = uint_text-numeral false lower_digits refl 10 (λ v. omega arith) (λ v. ground arith)

hexadecimal : (v : ℕ) → uint_text v 16 false ≡ numeral 64 lower_digits 16 v
unfolding image digit_char
hexadecimal = uint_text-numeral false lower_digits refl 16 (λ v. omega arith) (λ v. ground arith)

capital : (v : ℕ) → uint_text v 16 true ≡ numeral 64 upper_digits 16 v
unfolding image digit_char
capital = uint_text-numeral true upper_digits refl 16 (λ v. omega arith) (λ v. ground arith)

unsigned_arg-bits :
    (long : Bool) (slot : ℕ) → unsigned_arg long slot ≡ slot % 2 ^ argument_bits long
unfolding unsigned_arg
unsigned_arg-bits true slot = refl
unsigned_arg-bits false slot = refl

int_text-signed :
    (long : Bool) (slot : ℕ)
    → int_text (signed_arg long slot)
      ≡ signed_numeral (argument_bits long) (slot % 2 ^ argument_bits long)
unfolding int_text signed_arg unsigned_arg
int_text-signed true slot = elim (Bool-cases (ltb (slot % 2 ^ 64) (2 ^ 63))) [
  | inl e ↦ rw e (decimal _)
  | inr e ↦ rw e (ap (λ (x : List ℕ). 45 ∷ x) (decimal _))
]
int_text-signed false slot = elim (Bool-cases (ltb (slot % 2 ^ 32) (2 ^ 31))) [
  | inl e ↦ rw e (decimal _)
  | inr e ↦ rw e (ap (λ (x : List ℕ). 45 ∷ x) (decimal _))
]

-- The text of a directive, and the arguments behind it.
AsShown : ℕ → Memory → ℕ → Bool → List ℕ → Type 0
AsShown fuel m c long args =
    (convert_text fuel m c long (first_slot args), rest_slots (takes_arg c) args)
    ≡ directive_text fuel m (kind_in kinds c) c long args

module _ (fuel : ℕ) (m : Memory) (long : Bool) where
  as_kind :
      (c : ℕ) (k : Kind)
      → takes_arg c ≡ true
      → kind_in kinds c ≡ some k
      → ((slot : ℕ) → convert_text fuel m c long slot ≡ shown fuel m k long slot)
      → (args : List ℕ) → AsShown fuel m c long args
  unfolding AsShown directive_text
  as_kind c k t e f [] = rw (t, e) (ap₂ (λ (x y : List ℕ). (x, y)) (f 0) refl)
  as_kind c k t e f (slot ∷ args) = rw (t, e) (ap₂ (λ (x y : List ℕ). (x, y)) (f slot) refl)

  letter_text :
      (c d : ℕ)
      → (c == d) ≡ true
      → ((args : List ℕ) → AsShown fuel m d long args)
      → (args : List ℕ) → AsShown fuel m c long args
  letter_text c d e f args =
      subst (λ (x : ℕ). AsShown fuel m x long args) (sym (is_eq c d e)) (f args)

  as_shown : (c : ℕ) (args : List ℕ) → AsShown fuel m c long args
  unfolding AsShown directive_text convert_text shown takes_arg
  as_shown c args = elim (Bool-cases (c == 99)) [
    | inl e ↦ letter_text c 99 e (as_kind 99 character refl refl (λ slot. refl)) args
    | inr e1 ↦ elim (Bool-cases (c == 115)) [
      | inl e ↦ letter_text c 115 e (as_kind 115 string refl refl (λ slot. refl)) args
      | inr e2 ↦ elim (Bool-cases (c == 100)) [
        | inl e ↦ letter_text c 100 e (as_kind 100 signed refl refl (int_text-signed long)) args
        | inr e3 ↦ elim (Bool-cases (c == 105)) [
          | inl e ↦ letter_text c 105 e (as_kind 105 signed refl refl (int_text-signed long)) args
          | inr e4 ↦ elim (Bool-cases (c == 117)) [
            | inl e ↦ letter_text c 117 e (as_kind 117 unsigned refl refl (in_bits decimal)) args
            | inr e5 ↦ elim (Bool-cases (c == 120)) [
              | inl e ↦
                  letter_text c 120 e (as_kind 120 lower_hex refl refl (in_bits hexadecimal)) args
              | inr e6 ↦ elim (Bool-cases (c == 88)) [
                | inl e ↦ letter_text c 88 e (as_kind 88 upper_hex refl refl (in_bits capital)) args
                | inr e7 ↦ elim (Bool-cases (c == 112)) [
                  | inl e ↦ letter_text c 112 e (as_kind 112 pointer refl refl address) args
                  | inr e8 ↦ rw (e1, e2, e3, e4, e5, e6, e7, e8) refl
                ]
              ]
            ]
          ]
        ]
      ]
    ]
  ]
    where
      in_bits :
          {text spec : ℕ → List ℕ}
          → ((v : ℕ) → text v ≡ spec v)
          → (slot : ℕ) → text (unsigned_arg long slot) ≡ spec (slot % 2 ^ argument_bits long)
      in_bits {text} {spec} f slot =
          f (unsigned_arg long slot) ∙ ap spec (unsigned_arg-bits long slot)

      address :
          (slot : ℕ)
          → 48 ∷ 120 ∷ uint_text (slot % 2 ^ 64) 16 false
            ≡ 48 ∷ 120 ∷ numeral 64 lower_digits 16 (slot % 2 ^ 64)
      address slot = ap (λ (x : List ℕ). 48 ∷ 120 ∷ x) (hexadecimal _)

module _ (fuel : ℕ) (m : Memory) where
  done_meaning :
      (c : ℕ) (long : Bool) (cs args : List ℕ)
      → ((rest : List ℕ) → format_text fuel m plain cs rest ≡ meaning fuel m plain cs rest)
      → let d = directive_text fuel m (kind_in kinds c) c long args in
        convert_text fuel m c long (first_slot args)
          ++ format_text fuel m plain cs (rest_slots (takes_arg c) args)
        ≡ d.0 ++ meaning fuel m plain cs d.1
  unfolding AsShown
  done_meaning c long cs args again =
      let same = as_shown fuel m long c args in
      ap₂ (λ (x y : List ℕ). x ++ y) (ap (λ d. d.0) same)
        (again _ ∙ ap (λ d. meaning fuel m plain cs d.1) same)

  -- The text by which the code is described is the meaning of the format.
  pub format_text-meaning :
      (mode : Mode) (fs args : List ℕ)
      → format_text fuel m mode fs args ≡ meaning fuel m mode fs args
  unfolding format_text meaning
  format_text-meaning mode [] args = refl
  format_text-meaning plain (c ∷ cs) args = elim (Bool-cases (c == 37)) [
    | inl e ↦ rw e (format_text-meaning percent cs args)
    | inr e ↦ rw e (ap (λ (x : List ℕ). c ∷ x) (format_text-meaning plain cs args))
  ]
  format_text-meaning percent (c ∷ cs) args = elim (Bool-cases (c == 108)) [
    | inl e ↦ rw e (format_text-meaning one_l cs args)
    | inr e ↦ rw e (done_meaning c false cs args (format_text-meaning plain cs))
  ]
  format_text-meaning one_l (c ∷ cs) args = elim (Bool-cases (c == 108)) [
    | inl e ↦ rw e (format_text-meaning two_l cs args)
    | inr e ↦ rw e (done_meaning c true cs args (format_text-meaning plain cs))
  ]
  format_text-meaning two_l (c ∷ cs) args =
      done_meaning c true cs args (format_text-meaning plain cs)
