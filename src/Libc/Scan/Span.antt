-- ===== src/Libc/Scan/Span.antt =====
-- The first address that passes a test, as the number of addresses before it.
use rhkernel.Prelude.{
  ℕ, zero, suc, ◌+◌, ◌*◌, ◌≤◌, ◌<◌, ◌≡◌, refl, sym, ◌∙◌, ap, Bool, true, false, not, leb, ◌&&◌,
  ◌==◌, if◌then◌else◌, none, some, arith, Bool-cases, inl, inr,
}
use native.Mathlib.Nat.{add-zero, zero-add}
use rhkernel.Libc.Scan.{byte_mask, count_zeros, ctz, lanes_hit}

module _ (test : ℕ → Bool) where
  -- How many of the `n` addresses from `p` on come before the first that passes; `n` if none does.
  unfoldable pub span : ℕ → ℕ → ℕ
  span zero p = 0
  span (suc n) p = if test p then 0 else suc (span n (p + 1))

  pub span-le : (n p : ℕ) → span n p ≤ n
  unfolding span
  span-le zero p = omega arith
  span-le (suc n) p = ground (arith, span-le n (p + 1))

  pub span-one : (p : ℕ) → span 1 p ≡ (if test p then 0 else 1)
  unfolding span
  span-one p = refl

  pub span-stops : (n p : ℕ) → (leb 1 n && not (test p)) ≡ false → span n p ≡ 0
  unfolding span
  span-stops zero p h = refl
  span-stops (suc n) p h = ground arith

  pub span-add :
      (a b p : ℕ) → span (a + b) p ≡ (if span a p == a then a + span b (p + a) else span a p)
  unfolding span
  span-add zero b p = rw (add-zero p, zero-add b) (sym (zero-add (span b p)))
  span-add (suc a) b p =
      let e : suc a + b ≡ suc (a + b) = omega arith in
      let shift : p + 1 + a ≡ p + suc a = omega arith in
      rw e (ground (arith, span-add a b (p + 1), ap (span b) shift, span-le a (p + 1)))

  -- Addresses before the span fail the test, and the one at its end passes.
  pub span-before : (n p i : ℕ) → i < span n p → test (p + i) ≡ false
  unfolding span
  span-before zero p i h = absurd (omega arith)
  span-before (suc n) p zero h =
      let here : test p ≡ false = ground arith in ap test (add-zero p) ∙ here
  span-before (suc n) p (suc i) h =
      let shift : p + suc i ≡ p + 1 + i = omega arith in
      ap test shift ∙ span-before n (p + 1) i (ground arith)

  pub span-at : (n p : ℕ) → span n p < n → test (p + span n p) ≡ true
  unfolding span
  span-at zero p h = absurd (omega arith)
  span-at (suc n) p h = elim (Bool-cases (test p)) [
    | inl e ↦ rw (e, add-zero p) e
    | inr e ↦
        let shift : p + suc (span n (p + 1)) ≡ p + 1 + span n (p + 1) = omega arith in
        rw e (ap test shift ∙ span-at n (p + 1) (ground arith))
  ]

  pub eq_span :
      (n p k : ℕ)
      → k ≤ n
      → ((i : ℕ) → i < k → test (p + i) ≡ false)
      → (k < n → test (p + k) ≡ true)
      → span n p ≡ k
  unfolding span
  eq_span zero p k h before after = omega arith
  eq_span (suc n) p zero h before after =
      let here : test p ≡ true = ap test (sym (add-zero p)) ∙ after (omega arith) in rw here refl
  eq_span (suc n) p (suc k) h before after =
      let here : test p ≡ false = ap test (sym (add-zero p)) ∙ before 0 (omega arith) in
      rw here (
        ap suc (
          eq_span n (p + 1) k (omega arith) (λ i j. ap test (move i) ∙ before (suc i) (omega arith))
            (λ j. ap test (move k) ∙ after (omega arith))))
    where
      move : (i : ℕ) → p + 1 + i ≡ p + suc i
      move i = omega arith

  -- The mask of a vector is 0 exactly if no byte of it passes, and else has its lowest digit at the first that does.
  mask_span : (width p : ℕ) → (byte_mask test width p == 0) ≡ (span width p == width)
  unfolding span byte_mask
  mask_span zero p = refl
  mask_span (suc width) p = ground (arith, mask_span width (p + 1), span-le width (p + 1))

  zeros_span :
      (fuel width p : ℕ)
      → width ≤ fuel
      → span width p < width
      → count_zeros fuel (byte_mask test width p) ≡ span width p
  unfolding span byte_mask count_zeros
  zeros_span fuel zero p h k = absurd (omega arith)
  zeros_span zero (suc width) p h k = absurd (omega arith)
  zeros_span (suc fuel) (suc width) p h k = ground (arith, zeros_span fuel width (p + 1))

  -- The same of the lanes of a round.
  pub lanes_hit-none :
      (width lanes p : ℕ)
      → width ≤ 32
      → lanes_hit test width lanes p ≡ none
      → span (lanes * width) p ≡ lanes * width
  unfolding lanes_hit ctz
  lanes_hit-none width zero p w h = omega (arith, span-le (0 * width) p)
  lanes_hit-none width (suc lanes) p w h =
      let e : suc lanes * width ≡ width + lanes * width = omega arith in
      rw e (
        ground (
          arith,
          span-add width (lanes * width) p,
          mask_span width p,
          lanes_hit-none width lanes (p + width),
        ))

  pub lanes_hit-some :
      (width lanes p q : ℕ)
      → width ≤ 32
      → lanes_hit test width lanes p ≡ some q
      → (q ≡ p + span (lanes * width) p) × (span (lanes * width) p < lanes * width)
  unfolding lanes_hit ctz
  lanes_hit-some width zero p q w h = cc
  lanes_hit-some width (suc lanes) p q w h =
      let e : suc lanes * width ≡ width + lanes * width = omega arith in
      rw e (
        ground (
          arith,
          span-add width (lanes * width) p,
          mask_span width p,
          span-le width p,
          zeros_span 32 width p,
          lanes_hit-some width lanes (p + width) q,
        ))
