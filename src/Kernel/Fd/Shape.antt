-- ===== src/Kernel/Fd/Shape.antt =====
-- The taken descriptors of a task, and the shape of its table.
use rhkernel.Prelude.{
  ℕ, ◌<◌, ◌≤◌, ◌≡◌, refl, ap, subst, ◌∙◌, Bool, true, false, not, ◌&&◌, ◌||◌, ◌==◌, ltb, Option,
  none, some, arith, Bool-cases, inl, inr,
}
use rhkernel.Kernel.Fd.{
  Task, uint32_max, bit_test, bit_set, bit_clear, fd_bit_get, fd_bit_set, fd_bit_clear, file_at,
  is_some,
}
use rhkernel.Kernel.Fd.Words.{
  IsWords, bit_set-test, bit_clear-test, bit_set-IsWords, bit_clear-IsWords,
}

-- A descriptor is taken if its bit is set; without a bitmap, if it has a file.
unfoldable pub taken : Task → ℕ → Bool
taken t fd =
    ltb fd t.fd_capacity
    && elim t.fd_bitmap [ none ↦ is_some (file_at fd t) | some bits ↦ bit_test bits fd ]

-- The words have 64 bits, and none is set from the capacity on.
abbrev pub IsBitmap : Option (ℕ → ℕ) → ℕ → Type 0
IsBitmap none capacity = Unit
IsBitmap (some bits) capacity = IsWords bits × ((j : ℕ) → capacity ≤ j → bit_test bits j ≡ false)

pub record IsTask (t : Task) : Type 0 where
  pub bound : t.fd_capacity ≤ uint32_max
  pub hint : t.next_fd_hint ≤ t.fd_capacity
  pub bitmap : IsBitmap t.fd_bitmap t.fd_capacity
  pub open_taken : (fd f : ℕ) → file_at fd t ≡ some f → taken t fd ≡ true

-- Every descriptor from `k` up to the hint is taken.
abbrev pub IsPacked : ℕ → Task → Type 0
IsPacked k t = (j : ℕ) → k ≤ j → j < t.next_fd_hint → taken t j ≡ true

below : (a b : ℕ) → a < b → ltb a b ≡ true
below a b h = ground arith

or_true : (b : Bool) → (b || true) ≡ true
or_true true = refl
or_true false = refl

and_false : (b : Bool) → (b && false) ≡ false
and_false true = refl
and_false false = refl

module _ (t : Task) (bits : ℕ → ℕ) (e : t.fd_bitmap ≡ some bits) where
  pub taken-bits : (j : ℕ) → taken t j ≡ (ltb j t.fd_capacity && bit_test bits j)
  unfolding taken
  taken-bits j = rw (taken, e) refl

  pub fd_bit_get-taken : (j : ℕ) → fd_bit_get t j ≡ taken t j
  unfolding taken fd_bit_get
  fd_bit_get-taken j = rw (taken, fd_bit_get, e) refl

  pub some_bits : IsTask t → IsBitmap (some bits) t.fd_capacity
  some_bits h = subst (λ o. IsBitmap o t.fd_capacity) e h.bitmap

  module _ (fd hint : ℕ) (l : fd < t.fd_capacity) where
    abbrev pub marked : Task
    marked = record t { fd_bitmap = some (bit_set fd bits); next_fd_hint = hint }

    abbrev pub cleared : Task
    cleared = record t { fd_bitmap = some (bit_clear fd bits); next_fd_hint = hint }

    pub fd_bit_set-marked : record (fd_bit_set fd t) { next_fd_hint = hint } ≡ marked
    unfolding fd_bit_set
    fd_bit_set-marked = rw (fd_bit_set, e, below fd t.fd_capacity l) refl

    pub fd_bit_clear-cleared : record (fd_bit_clear fd t) { next_fd_hint = hint } ≡ cleared
    unfolding fd_bit_clear
    fd_bit_clear-cleared = rw (fd_bit_clear, e, below fd t.fd_capacity l) refl

    pub marked-taken : (j : ℕ) → taken marked j ≡ (j == fd || taken t j)
    unfolding taken
    marked-taken j = rw (taken-bits j, bit_set-test bits fd j) (ground arith)

    pub cleared-taken : (j : ℕ) → taken cleared j ≡ (not (j == fd) && taken t j)
    unfolding taken
    cleared-taken j = rw (taken-bits j, bit_clear-test bits fd j) (ground arith)

    pub marked-IsTask : IsTask t → hint ≤ t.fd_capacity → IsTask marked
    unfolding file_at
    marked-IsTask h k = record {
      bound = h.bound;
      hint = k;
      bitmap = (
        bit_set-IsWords bits fd (some_bits h).0,
        λ j c. bit_set-test bits fd j ∙ (rw ((some_bits h).1 j c) (ground arith)),
      );
      open_taken = λ j f o. marked-taken j ∙ (rw (h.open_taken j f o) (or_true (j == fd)));
    }

    pub cleared-IsTask : IsTask t → hint ≤ t.fd_capacity → file_at fd t ≡ none → IsTask cleared
    unfolding file_at
    cleared-IsTask h k n = record {
      bound = h.bound;
      hint = k;
      bitmap = (
        bit_clear-IsWords bits fd (some_bits h).0,
        λ j c. bit_clear-test bits fd j ∙ (rw ((some_bits h).1 j c) (and_false (not (j == fd)))),
      );
      open_taken = λ j f o. cleared-taken j ∙ (rw (h.open_taken j f o) (other j f o));
    }
      where
        other : (j f : ℕ) → file_at j t ≡ some f → (not (j == fd) && true) ≡ true
        other j f o = elim (Bool-cases (j == fd)) [
          | inl q ↦
              let same : file_at j t ≡ file_at fd t = ap (λ i. file_at i t) (ground arith) in
              absurd cc
          | inr q ↦ rw q refl
        ]
