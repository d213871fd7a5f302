-- ===== src/Libc/Print/Format.antt =====
-- `format_loop` puts out a list of characters, which Libc/Print/Meaning.antt describes by the directives.
use rhkernel.Prelude.{
  ℕ, zero, suc, ◌+◌, ◌%◌, ◌^◌, ◌≤◌, ◌<◌, ◌≡◌, refl, sym, ap, subst, ◌∙◌, Bool, true, false, ◌||◌,
  ◌==◌, if◌then◌else◌, List, [], ◌∷◌, ◌++◌, length, arith, Bool-cases, inl, inr,
}
use rhkernel.Libc.Memory.{Memory}
use rhkernel.Libc.Text.{IsString}
use rhkernel.Libc.Print.{
  Outbuf, out_ch, out_list, out_text, out_str, null_text, tmp_digits, out_uint, unsigned_arg,
  signed_arg, out_int, convert, takes_arg, first_slot, rest_slots, skip_long, format_loop,
}
use rhkernel.Libc.Print.Emit.{out_list-append}

-- The bytes before the zero byte, at most `fuel`.
unfoldable pub text_at : ℕ → Memory → ℕ → List ℕ
text_at zero m p = []
text_at (suc fuel) m p = elim (m p == 0) [ true ↦ [] | false ↦ m p ∷ text_at fuel m (p + 1) ]

unfoldable pub uint_text : ℕ → ℕ → Bool → List ℕ
uint_text value base upper = tmp_digits 64 base upper value []

unfoldable pub int_text : Bool × ℕ → List ℕ
int_text (negative, v) = if negative then 45 ∷ uint_text v 10 false else uint_text v 10 false

-- The characters of one conversion.
unfoldable pub convert_text : ℕ → Memory → ℕ → Bool → ℕ → List ℕ
convert_text fuel m c long slot =
    if c == 37
    then 37 ∷ []
    else if c == 99
    then (slot % 256) ∷ []
    else if c == 115
    then if slot % 2 ^ 64 == 0 then null_text else text_at fuel m (slot % 2 ^ 64)
    else if c == 100 || c == 105
    then int_text (signed_arg long slot)
    else if c == 117
    then uint_text (unsigned_arg long slot) 10 false
    else if c == 120
    then uint_text (unsigned_arg long slot) 16 false
    else if c == 88
    then uint_text (unsigned_arg long slot) 16 true
    else if c == 112
    then 48 ∷ 120 ∷ uint_text (slot % 2 ^ 64) 16 false
    else 37 ∷ c ∷ []

-- Where a scan of a format stands: in plain text, or behind a percent sign and no, one or two letters l.
pub data Mode : Type 0 where
  plain : Mode
  percent : Mode
  one_l : Mode
  two_l : Mode

module _ (fuel : ℕ) (m : Memory) where
  -- The text that the rest of a format stands for.
  unfoldable pub format_text : Mode → List ℕ → List ℕ → List ℕ
  format_text mode [] args = []
  format_text plain (c ∷ cs) args =
      let directive = format_text percent cs args in
      let more = c ∷ format_text plain cs args in if c == 37 then directive else more
  format_text percent (c ∷ cs) args =
      let long = format_text one_l cs args in
      let done =
        convert_text fuel m c false (first_slot args)
        ++ format_text plain cs (rest_slots (takes_arg c) args) in
      if c == 108 then long else done
  format_text one_l (c ∷ cs) args =
      let long = format_text two_l cs args in
      let done =
        convert_text fuel m c true (first_slot args)
        ++ format_text plain cs (rest_slots (takes_arg c) args) in
      if c == 108 then long else done
  format_text two_l (c ∷ cs) args =
      convert_text fuel m c true (first_slot args)
      ++ format_text plain cs (rest_slots (takes_arg c) args)

  out_text-list : (n p : ℕ) (out : Outbuf) → out_text n m p out ≡ out_list (text_at n m p) out
  unfolding out_text text_at out_list
  out_text-list zero p out = refl
  out_text-list (suc n) p out = elim (Bool-cases (m p == 0)) [
    | inl e ↦ rw (out_text, text_at, e) refl
    | inr e ↦ rw (out_text, text_at, e) (out_text-list n (p + 1) (out_ch (m p) out))
  ]

  one_branch :
      (b : Bool) (x y out : Outbuf) (u v : List ℕ)
      → x ≡ out_list u out
      → y ≡ out_list v out
      → (if b then x else y) ≡ out_list (if b then u else v) out
  one_branch true x y out u v h k = h
  one_branch false x y out u v h k = k

  out_int-list : (r : Bool × ℕ) (out : Outbuf) → out_int r out ≡ out_list (int_text r) out
  unfolding out_int int_text out_uint uint_text out_list
  out_int-list (true, v) out = refl
  out_int-list (false, v) out = refl

  convert-list :
      (c : ℕ) (long : Bool) (slot : ℕ) (out : Outbuf)
      → convert fuel m c long slot out ≡ out_list (convert_text fuel m c long slot) out
  unfolding convert convert_text out_str out_uint uint_text out_list
  convert-list c long slot out = one_branch (c == 37) _ _ out _ _ refl (
      one_branch (c == 99) _ _ out _ _ refl (
        one_branch (c == 115) _ _ out _ _
          (one_branch (slot % 2 ^ 64 == 0) _ _ out _ _ refl
            (out_text-list fuel (slot % 2 ^ 64) out))
          (one_branch (c == 100 || c == 105) _ _ out _ _ (out_int-list (signed_arg long slot) out) (
            one_branch (c == 117) _ _ out _ _ refl (
              one_branch (c == 120) _ _ out _ _ refl (
                one_branch (c == 88) _ _ out _ _ refl
                  (one_branch (c == 112) _ _ out _ _ refl refl)))))))

  -- The rest of a directive behind its letters.
  abbrev directive : Bool → List ℕ → List ℕ → List ℕ
  directive long [] args = []
  directive long (c ∷ cs) args =
      convert_text fuel m c long (first_slot args)
      ++ format_text plain cs (rest_slots (takes_arg c) args)

  -- What `skip_long` leaves of a format.
  record Skipped (q : ℕ) (cs args : List ℕ) (r : Bool × ℕ) : Type 0 where
    rest : List ℕ
    string : IsString m r.1 rest
    shorter : length rest ≤ length cs
    same : format_text percent cs args ≡ directive r.0 rest args

  skip_long-Skipped :
      (q : ℕ) (cs args : List ℕ) → IsString m q cs → Skipped q cs args (skip_long m q)
  unfolding skip_long format_text
  skip_long-Skipped q [] args h =
      let other : (m q == 108) ≡ false = ground (arith, h) in
      rw other (record { rest = []; string = h; shorter = omega arith; same = refl })
  skip_long-Skipped q (c ∷ cs) args h = elim (Bool-cases (c == 108)) [
    | inr e ↦
        rw (h.0, e) (record { rest = c ∷ cs; string = h; shorter = omega arith; same = rw e refl })
    | inl e ↦ rw (h.0, e) (one_more e cs h.2)
  ]
    where
      two : (ys : List ℕ) → format_text two_l ys args ≡ directive true ys args
      two [] = refl
      two (z ∷ zs) = refl

      one_more :
          (e : (c == 108) ≡ true) (cs : List ℕ)
          → IsString m (q + 1) cs
          → Skipped q (c ∷ cs) args (true, if m (q + 1) == 108 then q + 2 else q + 1)
      one_more e [] k =
          let other : (m (q + 1) == 108) ≡ false = ground (arith, k) in
          rw other (record { rest = []; string = k; shorter = omega arith; same = rw e refl })
      one_more e (y ∷ ys) k = elim (Bool-cases (y == 108)) [
        | inr f ↦
            rw (k.0, f)
              (record { rest = y ∷ ys; string = k; shorter = omega arith; same = rw (e, f) refl })
        | inl f ↦
            let there : IsString m (q + 2) ys =
              subst (λ (p : ℕ). IsString m p ys) (omega arith) k.2 in
            rw (k.0, f)
              (record {
                rest = ys;
                string = there;
                shorter = omega arith;
                same = rw (e, f) (two ys);
              })
      ]

  -- What `format_loop` is to do in `n` rounds.
  abbrev Formats : ℕ → Type 0
  Formats n =
      (p : ℕ) (fs args : List ℕ) (out : Outbuf)
      → IsString m p fs
      → length fs < n
      → format_loop n fuel m p args out ≡ out_list (format_text plain fs args) out

  after_percent :
      (n : ℕ) (cs args : List ℕ) (out : Outbuf)
      → Formats n
      → (r : Bool × ℕ) (rest : List ℕ) → IsString m r.1 rest
      → length rest ≤ length cs
      → format_text percent cs args ≡ directive r.0 rest args
      → length cs < n
      → elim (m r.1 == 0) [
        | true ↦ out
        | false ↦
            format_loop n fuel m
              (r.1 + 1)
              (rest_slots (takes_arg (m r.1)) args)
              (convert fuel m (m r.1) r.0 (first_slot args) out)
      ]
        ≡ out_list (format_text percent cs args) out
  unfolding out_list
  after_percent n cs args out again r [] s l same k =
      let ended : (m r.1 == 0) ≡ true = ground (arith, s) in rw (same, ended) refl
  after_percent n cs args out again r (d ∷ ds) s l same k =
      let live : (m r.1 == 0) ≡ false = ground (arith, s) in
      let slots = rest_slots (takes_arg d) args in
      let text = convert_text fuel m d r.0 (first_slot args) in
      rw (same, live, s.0)
        (again (r.1 + 1) ds slots (convert fuel m d r.0 (first_slot args) out) s.2 (omega arith)
          ∙ ap (out_list (format_text plain ds slots)) (convert-list d r.0 (first_slot args) out)
          ∙ sym (out_list-append text (format_text plain ds slots) out))

  pub format_loop-text : (n : ℕ) → Formats n
  unfolding format_loop format_text out_list
  format_loop-text zero p fs args out h k = absurd (omega arith)
  format_loop-text (suc n) p [] args out h k =
      let here : (m p == 0) ≡ true = ground (arith, h) in rw (format_loop, here) refl
  format_loop-text (suc n) p (c ∷ cs) args out h k =
      let live : (m p == 0) ≡ false = ground (arith, h) in
      elim (Bool-cases (c == 37)) [
        | inr e ↦
            let plain_char : (m p == 37) ≡ false = ground (arith, h, e) in
            rw (format_loop, live, plain_char, e, h.0)
              (format_loop-text n (p + 1) cs args (out_ch c out) h.2 (omega arith))
        | inl e ↦
            let sign : (m p == 37) ≡ true = ground (arith, h, e) in
            let s = skip_long-Skipped (p + 1) cs args h.2 in
            rw (format_loop, live, sign, e)
              (after_percent n cs args out (format_loop-text n) (skip_long m (p + 1)) s.rest
                s.string s.shorter s.same (omega arith))
      ]
