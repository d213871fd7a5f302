-- ===== src/Libc/Search/Laws.antt =====
-- `bsearch` on a sorted array.
use rhkernel.Prelude.{
  ℕ, zero, suc, ◌+◌, ◌-◌, ◌*◌, ◌/◌, ◌≤◌, ◌<◌, ◌≡◌, ◌≢◌, refl, subst, ◌==◌, ltb, Option, none, some,
  arith, Bool-cases, ◌⊎◌, inl, inr,
}
use native.Mathlib.Nat.{add-mul}
use rhkernel.Prelude.Int.{ℤ, pos, negsuc}
use rhkernel.Libc.Search.{search_loop, bsearch}

abbrev pub IsAbove : ℤ → Type 0
IsAbove (pos zero) = ⊥
IsAbove (pos (suc n)) = Unit
IsAbove (negsuc n) = ⊥

abbrev pub IsBelow : ℤ → Type 0
IsBelow (pos n) = ⊥
IsBelow (negsuc n) = Unit

-- The array is sorted for the key: the key is above all elements before one that it is above, and below all elements
-- behind one that it is below.
pub record IsSorted (compar : ℕ → ℤ) (size b n : ℕ) : Type 0 where
  pub left :
      (i j : ℕ) → i ≤ j → j < n → IsAbove (compar (b + j * size)) → IsAbove (compar (b + i * size))
  pub right :
      (i j : ℕ) → i ≤ j → j < n → IsBelow (compar (b + i * size)) → IsBelow (compar (b + j * size))

-- The address of an element that equals the key, or none and no element equals it.
abbrev pub Searched : (ℕ → ℤ) → ℕ → ℕ → ℕ → Option ℕ → Type 0
Searched compar size b n r =
    ((i : ℕ) × (i < n) × (r ≡ some (b + i * size)) × (compar (b + i * size) ≡ pos 0))
    ⊎ ((r ≡ none) × ((i : ℕ) → i < n → compar (b + i * size) ≢ pos 0))

sign_cases : (x : ℤ) → (x ≡ pos 0) ⊎ (((n : ℕ) × (x ≡ pos (suc n))) ⊎ ((n : ℕ) × (x ≡ negsuc n)))
sign_cases (pos zero) = inl refl
sign_cases (pos (suc n)) = inr (inl (n, refl))
sign_cases (negsuc n) = inr (inr (n, refl))

Above-differs : (x : ℤ) → IsAbove x → x ≢ pos 0
Above-differs (pos zero) h = absurd h
Above-differs (pos (suc n)) h = cc
Above-differs (negsuc n) h = absurd h

Below-differs : (x : ℤ) → IsBelow x → x ≢ pos 0
Below-differs (pos n) h = absurd h
Below-differs (negsuc n) h = cc

module _ (compar : ℕ → ℤ) (size : ℕ) where
  place : (b k i : ℕ) → b + k * size + i * size ≡ b + (k + i) * size
  place b k i = omega (arith, add-mul k i size)

  -- The upper part is sorted, and a search of it is one of the whole.
  upper_IsSorted :
      (b n k : ℕ) → k ≤ n → IsSorted compar size b n → IsSorted compar size (b + k * size) (n - k)
  upper_IsSorted b n k h s = record {
    left = λ i j l u.
        rw (place b k i, place b k j) (s.left (k + i) (k + j) (omega arith) (omega arith));
    right = λ i j l u.
        rw (place b k i, place b k j) (s.right (k + i) (k + j) (omega arith) (omega arith));
  }

  lower_IsSorted : (b n k : ℕ) → k ≤ n → IsSorted compar size b n → IsSorted compar size b k
  lower_IsSorted b n k h s = record {
    left = λ i j l u. s.left i j l (omega arith);
    right = λ i j l u. s.right i j l (omega arith);
  }

  from_upper :
      (b n k : ℕ) (r : Option ℕ)
      → k ≤ n
      → ((i : ℕ) → i < k → compar (b + i * size) ≢ pos 0)
      → Searched compar size (b + k * size) (n - k) r
      → Searched compar size b n r
  from_upper b n k r h out (inl f) = inl (
    k + f.0,
    omega (arith, f.1),
    subst (λ x. r ≡ some x) (place b k f.0) f.2,
    subst (λ x. compar x ≡ pos 0) (place b k f.0) f.3,
  )
  from_upper b n k r h out (inr f) = inr (
    f.0,
    λ i l. elim (Bool-cases (ltb i k)) [
      | inl e ↦ out i (ground arith)
      | inr e ↦
          let j : k + (i - k) ≡ i = ground arith in
          subst (λ x. compar (b + x * size) ≢ pos 0) j
            (subst (λ x. compar x ≢ pos 0) (place b k (i - k)) (f.1 (i - k) (ground arith)))
    ],
  )

  from_lower :
      (b n k : ℕ) (r : Option ℕ)
      → k ≤ n
      → ((i : ℕ) → k ≤ i → i < n → compar (b + i * size) ≢ pos 0)
      → Searched compar size b k r
      → Searched compar size b n r
  from_lower b n k r h out (inl f) = inl (f.0, omega (arith, f.1), f.2, f.3)
  from_lower b n k r h out (inr f) = inr (
    f.0,
    λ i l. elim (Bool-cases (ltb i k)) [
      | inl e ↦ f.1 i (ground arith)
      | inr e ↦ out i (ground arith) l
    ],
  )

  search_loop-Searched :
      (fuel b n : ℕ)
      → n < fuel
      → IsSorted compar size b n
      → Searched compar size b n (search_loop fuel compar size b n)
  unfolding search_loop
  search_loop-Searched zero b n h s = absurd (omega arith)
  search_loop-Searched (suc fuel) b n h s = elim (Bool-cases (n == 0)) [
    | inl e ↦ rw (search_loop, e) (inr (refl, λ i l. absurd (ground arith)))
    | inr e ↦
        let mid : n / 2 < n = ground arith in
        let behind : n / 2 + 1 ≤ n = omega (arith, mid) in
        elim (sign_cases (compar (b + n / 2 * size))) [
          | inl z ↦ rw (search_loop, e, z) (inl (n / 2, mid, refl, z))
          | inr (inl (k, z)) ↦
              rw (search_loop, e, z)
                (from_upper b n (n / 2 + 1)
                  (search_loop fuel compar size (b + (n / 2 + 1) * size) (n - (n / 2 + 1))) behind
                  (λ i l.
                    Above-differs (compar (b + i * size))
                      (s.left i (n / 2) (omega arith) mid (rw z tt)))
                  (search_loop-Searched fuel (b + (n / 2 + 1) * size) (n - (n / 2 + 1))
                    (omega arith) (upper_IsSorted b n (n / 2 + 1) behind s)))
          | inr (inr (k, z)) ↦
              rw (search_loop, e, z)
                (from_lower b n (n / 2) (search_loop fuel compar size b (n / 2)) (omega arith)
                  (λ i l j. Below-differs (compar (b + i * size)) (s.right (n / 2) i l j (rw z tt)))
                  (search_loop-Searched fuel b (n / 2) (omega arith)
                    (lower_IsSorted b n (n / 2) (omega arith) s)))
        ]
  ]

-- A search of an array that is sorted for the key finds the address of an element that equals the key, or finds none,
-- and then no element equals it.
pub bsearch-Searched :
    (base nmemb size : ℕ) (compar : ℕ → ℤ)
    → IsSorted compar size base nmemb
    → Searched compar size base nmemb (bsearch base nmemb size compar)
unfolding bsearch
bsearch-Searched base nmemb size compar s =
    search_loop-Searched compar size (suc nmemb) base nmemb (omega arith) s
