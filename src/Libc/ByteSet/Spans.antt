-- ===== src/Libc/ByteSet/Spans.antt =====
-- `strspn`, `strcspn` and `strpbrk` on strings.
use rhkernel.Prelude.{
  ℕ, zero, suc, ◌+◌, ◌<◌, ◌≡◌, refl, ap, subst, ◌∙◌, Bool, false, not, ◌&&◌, ◌==◌, if◌then◌else◌,
  Option, none, some, List, [], ◌∷◌, length, arith, Bool-cases, inl, inr, while,
}
use rhkernel.Libc.Memory.{Memory}
use rhkernel.Libc.Text.{IsString}
use rhkernel.Libc.ByteSet.{byte_set, byte_set_has, strspn, strcspn, find_in_set, strpbrk}
use rhkernel.Libc.ByteSet.Laws.{member, byte_set_has-member}

-- The number of bytes before the first that fails the test.
unfoldable pub prefix_length : (ℕ → Bool) → List ℕ → ℕ
prefix_length test [] = 0
prefix_length test (x ∷ xs) = let rest = prefix_length test xs in if test x then suc rest else 0

module _ (m : Memory) (s : ℕ) (has test : ℕ → Bool) (same : (c : ℕ) → has c ≡ test c) where
  while-prefix_length :
      (fuel n : ℕ) (xs : List ℕ)
      → IsString m (s + n) xs
      → length xs < fuel
      → while fuel (λ k. not (m (s + k) == 0) && has (m (s + k))) (λ k. k + 1) n
        ≡ n + prefix_length test xs
  unfolding while prefix_length
  while-prefix_length zero n xs h f = absurd (omega arith)
  while-prefix_length (suc fuel) n [] h f = rw (while, h) (omega arith)
  while-prefix_length (suc fuel) n (x ∷ xs) h f =
      let go : (x == 0) ≡ false = ground (arith, h.1) in
      let e : s + n + 1 ≡ s + (n + 1) = omega arith in
      elim (Bool-cases (test x)) [
        | inl t ↦
            rw (while, h.0, go, same x, t)
              (while-prefix_length fuel (n + 1) xs (subst (λ p. IsString m p xs) e h.2)
                  (omega arith)
                ∙ omega arith)
        | inr t ↦ rw (while, h.0, go, same x, t) (omega arith)
      ]

-- The place of the first byte that passes the test, in a text at `p`.
unfoldable pub first_place : (ℕ → Bool) → ℕ → List ℕ → Option ℕ
first_place test p [] = none
first_place test p (x ∷ xs) =
    let rest = first_place test (p + 1) xs in if test x then some p else rest

find_in_set-first_place :
    (fuel p : ℕ) (set m : Memory) (test : ℕ → Bool) (xs : List ℕ)
    → ((c : ℕ) → byte_set_has set c ≡ test c)
    → IsString m p xs
    → length xs < fuel
    → find_in_set fuel set m p ≡ first_place test p xs
unfolding find_in_set first_place
find_in_set-first_place zero p set m test xs same h f = absurd (omega arith)
find_in_set-first_place (suc fuel) p set m test [] same h f = rw (find_in_set, h) refl
find_in_set-first_place (suc fuel) p set m test (x ∷ xs) same h f =
    let go : (x == 0) ≡ false = ground (arith, h.1) in
    elim (Bool-cases (test x)) [
      | inl t ↦ rw (find_in_set, h.0, go, h.0, same x, t) refl
      | inr t ↦
          rw (find_in_set, h.0, go, h.0, same x, t)
            (find_in_set-first_place fuel (p + 1) set m test xs same h.2 (omega arith))
    ]

module _ (fuel s set : ℕ) (m : Memory) (xs ys : List ℕ) (text : IsString m s xs)
    (bytes : IsString m set ys) (room : length xs < fuel) (set_room : length ys < fuel) where
  start : IsString m (s + 0) xs
  start = let e : s ≡ s + 0 = omega arith in subst (λ p. IsString m p xs) e text

  -- For two strings and fuel for both, strspn is the number of bytes of the first before the first that is not in the
  -- second.
  strspn-prefix_length : strspn fuel s set m ≡ prefix_length (λ c. member c ys) xs
  unfolding strspn
  strspn-prefix_length =
      while-prefix_length m s (byte_set_has (byte_set fuel m set)) (λ c. member c ys)
        (λ c. byte_set_has-member fuel m set ys c bytes set_room) fuel 0 xs start room
      ∙ omega arith

  -- For two strings and fuel for both, strcspn is the number of bytes of the first before the first that is in the
  -- second.
  strcspn-prefix_length : strcspn fuel s set m ≡ prefix_length (λ c. not (member c ys)) xs
  unfolding strcspn
  strcspn-prefix_length =
      while-prefix_length m s (λ c. not (byte_set_has (byte_set fuel m set) c))
        (λ c. not (member c ys)) (λ c. ap not (byte_set_has-member fuel m set ys c bytes set_room))
        fuel 0 xs start room
      ∙ omega arith

  -- For two strings and fuel for both, strpbrk is the place of the first byte of the first that is in the second, or
  -- null if there is none.
  strpbrk-first_place : strpbrk fuel s set m ≡ first_place (λ c. member c ys) s xs
  unfolding strpbrk
  strpbrk-first_place =
      find_in_set-first_place fuel s (byte_set fuel m set) m (λ c. member c ys) xs
        (λ c. byte_set_has-member fuel m set ys c bytes set_room) text room
