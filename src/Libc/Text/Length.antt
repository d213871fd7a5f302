-- ===== src/Libc/Text/Length.antt =====
-- `strlen` on a string.
use rhkernel.Prelude.{
  ℕ, zero, suc, ◌+◌, ◌-◌, ◌^◌, ◌≤◌, ◌<◌, ◌≡◌, ◌≢◌, ◌∙◌, ap, false, not, ◌==◌, List, [], ◌∷◌, length,
  arith, Bool-cases, inl, inr, while, while_inv, next, leave, ltb, Advances, return_while_inv,
  and_then-Q, if◌then◌else◌,
}
use rhkernel.Libc.Memory.{Memory, load_bytes}
use rhkernel.Libc.Word.{has_zero_byte}
use rhkernel.Libc.Word.Laws.{IsBytes, word_misses}
use rhkernel.Libc.Copy.{word_bytes, unaligned}
use rhkernel.Libc.Scan.{holds}
use rhkernel.Libc.Scan.Span.{span, eq_span}
use rhkernel.Libc.Scan.Laws.{strnlen_sse2-span, strnlen_avx2-span}
use rhkernel.Libc.Text.{
  IsString, length_to_word, words_without_zero, skip_to_zero, strlen_words, strlen,
}

IsString-inside :
    (m : Memory) (xs : List ℕ) (p i : ℕ) → IsString m p xs → i < length xs → m (p + i) ≢ 0
IsString-inside m [] p i h k = absurd (omega arith)
IsString-inside m (x ∷ xs) p zero h k = let e : p + 0 ≡ p = omega arith in rw (e, h.0) h.1
IsString-inside m (x ∷ xs) p (suc i) h k =
    let e : p + suc i ≡ p + 1 + i = omega arith in
    rw e (IsString-inside m xs (p + 1) i h.2 (omega arith))

IsString-end : (m : Memory) (xs : List ℕ) (p : ℕ) → IsString m p xs → m (p + length xs) ≡ 0
IsString-end m [] p h = let e : p + 0 ≡ p = omega arith in rw e h
IsString-end m (x ∷ xs) p h =
    let e : p + suc (length xs) ≡ p + 1 + length xs = omega arith in
    rw e (IsString-end m xs (p + 1) h.2)

-- A string whose length is below `n` ends the scan.
pub span-length :
    (m : Memory) (xs : List ℕ) (p n : ℕ)
    → IsString m p xs
    → length xs < n
    → span (holds m 0) n p ≡ length xs
span-length m xs p n h k =
    eq_span (holds m 0) n p (length xs) (omega arith)
      (λ i j. ground (arith, IsString-inside m xs p i h j))
      (λ _. ground (arith, IsString-end m xs p h))

-- The pointer of the loops stays in the string.
record Walking (m : Memory) (base stop p : ℕ) : Type 0 where
  above : base ≤ p
  below : p ≤ stop
  zero_at : m stop ≡ 0
  clear : (i : ℕ) → p + i < stop → m (p + i) ≢ 0

module _ (m : Memory) (base stop : ℕ) where
  walk : {p : ℕ} (k : ℕ) → p + k ≤ stop → Walking m base stop p → Walking m base stop (p + k)
  walk {p} k fits w = record {
    above = omega (arith, w.above);
    below = fits;
    zero_at = w.zero_at;
    clear = λ i h.
        let e : p + k + i ≡ p + (k + i) = omega arith in rw e (w.clear (k + i) (omega arith));
  }

  -- A byte that is not 0 is not the last.
  before_stop : {p : ℕ} → m p ≢ 0 → Walking m base stop p → p + 1 ≤ stop
  before_stop {p} h w = elim (Bool-cases (p == stop)) [
    | inl e ↦ let same : p ≡ stop = ground arith in absurd (h (ap m same ∙ w.zero_at))
    | inr e ↦ ground (arith, w.below)
  ]

  arrived : (q : ℕ) → Walking m base stop q → not (m q == 0) ≡ false → q ≡ stop
  arrived q v t = elim (Bool-cases (q == stop)) [
    | inl e ↦ ground arith
    | inr e ↦
        let here : m (q + 0) ≡ 0 = (let z : q + 0 ≡ q = omega arith in rw z (ground arith)) in
        absurd (v.clear 0 (ground (arith, v.below)) here)
  ]

  skip_to_zero-stop :
      (fuel p : ℕ) → stop < base + fuel → Walking m base stop p → skip_to_zero fuel m p ≡ stop
  unfolding skip_to_zero
  skip_to_zero-stop fuel p f w =
      let kept =
        while_inv (Walking m base stop) (λ q. stop - q) (λ q. not (m q == 0)) (λ q. q + 1)
          (λ q v t. let fits = before_stop (ground arith) v in (walk 1 fits v, omega arith)) fuel p
          (omega (arith, w.below, w.above)) w in
      arrived (while fuel (λ q. not (m q == 0)) (λ q. q + 1) p) kept.0 kept.1

  module _ (cells : IsBytes m) where
    word_fits :
        {p : ℕ} → has_zero_byte (load_bytes 8 p m) ≡ false → Walking m base stop p → p + 8 ≤ stop
    word_fits {p} h w = elim (Bool-cases (ltb stop (p + 8))) [
      | inl e ↦
          let at : p + (stop - p) ≡ stop = omega (arith, w.below) in
          absurd
            (word_misses m cells p (stop - p) h (ground (arith, w.below)) (ap m at ∙ w.zero_at))
      | inr e ↦ ground arith
    ]

    byte_step :
        (q : ℕ)
        → Walking m base stop q
        → Advances
            (Walking m base stop)
            (λ r. r ≡ stop - base)
            (λ x. stop - x)
            q
            (if m q == 0 then leave (q - base) else next (q + 1))
    byte_step q v = elim (Bool-cases (m q == 0)) [
      | inl e ↦ rw e (ap (λ x. x - base) (arrived q v (ground arith)))
      | inr e ↦ rw e (let fits = before_stop (ground arith) v in (walk 1 fits v, omega arith))
    ]

    words_without_zero-Walking :
        (fuel p : ℕ)
        → stop < base + fuel
        → Walking m base stop p
        → Walking m base stop (words_without_zero fuel m p)
    unfolding words_without_zero
    words_without_zero-Walking fuel p f w =
        (while_inv (Walking m base stop) (λ q. stop - q)
          (λ q. not (has_zero_byte (load_bytes 8 q m))) (λ q. q + word_bytes)
          (λ q v t. let fits = word_fits (ground arith) v in (walk 8 fits v, omega arith)) fuel p
          (omega (arith, w.below, w.above)) w).0

    strlen_words-stop :
        (fuel : ℕ)
        → stop < base + fuel
        → Walking m base stop base
        → strlen_words fuel base m ≡ stop - base
    unfolding strlen_words length_to_word
    strlen_words-stop fuel f w =
        and_then-Q (λ q. Walking m base stop q × (unaligned word_bytes q ≡ false))
          (λ r. r ≡ stop - base) _ _
          (return_while_inv (Walking m base stop) (λ r. r ≡ stop - base) (λ q. stop - q)
            (unaligned word_bytes) (λ q. if m q == 0 then leave (q - base) else next (q + 1))
            (λ q v t. byte_step q v) fuel base (omega (arith, w.below)) w)
          λ q v.
            ap (λ x. x - base)
              (skip_to_zero-stop fuel (words_without_zero fuel m q) f
                (words_without_zero-Walking fuel q f v.0))

string-Walking :
    (m : Memory) (xs : List ℕ) (s : ℕ) → IsString m s xs → Walking m s (s + length xs) s
string-Walking m xs s h = record {
  above = omega arith;
  below = omega arith;
  zero_at = IsString-end m xs s h;
  clear = λ i k. IsString-inside m xs s i h (omega arith);
}

-- `strlen` returns the length of a string, for every alignment and set of processor features, if the string is shorter
-- than the largest `size_t` and the fuel exceeds the length.
pub strlen-length :
    (fuel features s : ℕ) (m : Memory) (xs : List ℕ)
    → IsBytes m
    → IsString m s xs
    → length xs < fuel
    → length xs < 2 ^ 64 - 1
    → strlen fuel features s m ≡ length xs
unfolding strlen
strlen-length fuel features s m xs cells h f fits = ground (
  arith,
  strnlen_avx2-span m s (2 ^ 64 - 1),
  strnlen_sse2-span m s (2 ^ 64 - 1),
  span-length m xs s (2 ^ 64 - 1) h fits,
  strlen_words-stop m s (s + length xs) cells fuel (omega arith) (string-Walking m xs s h),
)
