-- ===== src/Kernel/Fd/Grow.antt =====
-- What `expand_table` answers, on every branch.
use rhkernel.Prelude.{
  ℕ, ◌/◌, ◌<◌, ◌≤◌, ◌≡◌, refl, sym, ◌∙◌, Bool, true, false, not, ◌&&◌, ◌||◌, ◌==◌, ltb, leb,
  if◌then◌else◌, Option, none, some, arith, Bool-cases, Option-cases, inl, inr,
}
use rhkernel.Kernel.Fd.{
  Task, Grants, uint32_max, initial_fd_capacity, fd_bitmap_words, bit_test, file_at, grown_capacity,
  copied_table, copied_bitmap, install_tables, expand_table, is_some,
}
use rhkernel.Kernel.Fd.Words.{IsWords}
use rhkernel.Kernel.Fd.Shape.{IsTask, taken, some_bits}
use rhkernel.Kernel.Fd.Expand.{
  grown_capacity-le, grown_capacity-ge, bit_test-zero, mark_open-test, mark_open-IsWords,
  copied_table-file,
}

-- `t'` has the descriptors, the files and the hint of `t`, both arrays, and a capacity of `needed` at least.
pub record Grown (needed : ℕ) (t t' : Task) : Type 0 where
  pub shape : IsTask t'
  pub same_taken : (j : ℕ) → taken t' j ≡ taken t j
  pub same_file : (j : ℕ) → file_at j t' ≡ file_at j t
  pub same_hint : t'.next_fd_hint ≡ t.next_fd_hint
  pub larger : t.fd_capacity ≤ t'.fd_capacity
  pub enough : needed ≤ t'.fd_capacity
  pub table : ℕ → Option ℕ
  pub bits : ℕ → ℕ
  pub table_is : t'.fd_table ≡ some table
  pub bits_are : t'.fd_bitmap ≡ some bits

same_word :
    (bits bits' : ℕ → ℕ) (j : ℕ)
    → bits (j / 64) ≡ bits' (j / 64)
    → bit_test bits j ≡ bit_test bits' j
unfolding bit_test
same_word bits bits' j e = rw e refl

words_cover :
    (capacity j : ℕ)
    → capacity ≤ uint32_max
    → ltb (j / 64) (fd_bitmap_words capacity) ≡ false
    → ltb j capacity ≡ false
unfolding fd_bitmap_words
words_cover capacity j b h = ground arith

module _ (t : Task) (h : IsTask t) where
  abbrev table : ℕ → Option ℕ
  table = copied_table t.fd_capacity t.fd_table

  -- Past the words that are copied there is no descriptor.
  copied :
      (bits : ℕ → ℕ)
      → t.fd_bitmap ≡ some bits
      → (j : ℕ)
      → bit_test (λ w. if ltb w (fd_bitmap_words t.fd_capacity) then bits w else 0) j
        ≡ (ltb j t.fd_capacity && bit_test bits j)
  copied bits e j = elim (Bool-cases (ltb (j / 64) (fd_bitmap_words t.fd_capacity))) [
    | inl l ↦
        same_word (λ w. if ltb w (fd_bitmap_words t.fd_capacity) then bits w else 0) bits j
          (rw l refl)
        ∙ within bits e j
    | inr l ↦
        bit_test-zero (λ w. if ltb w (fd_bitmap_words t.fd_capacity) then bits w else 0) j
          (rw l refl)
        ∙ past j l (bit_test bits j)
  ]
    where
      within :
          (bits : ℕ → ℕ)
          → t.fd_bitmap ≡ some bits
          → (j : ℕ) → bit_test bits j ≡ (ltb j t.fd_capacity && bit_test bits j)
      within bits e j = elim (Bool-cases (ltb j t.fd_capacity)) [
        | inl l ↦ rw l refl
        | inr l ↦ rw (l, (some_bits t bits e h).1 j (ground arith)) refl
      ]

      past :
          (j : ℕ)
          → ltb (j / 64) (fd_bitmap_words t.fd_capacity) ≡ false
          → (b : Bool) → false ≡ (ltb j t.fd_capacity && b)
      past j l b =
          let k : ltb j t.fd_capacity ≡ false = words_cover t.fd_capacity j h.bound l in rw k refl

  -- The bits of the new array are the taken descriptors of the old one.
  new_test : (j : ℕ) → bit_test (copied_bitmap t.fd_capacity table t.fd_bitmap) j ≡ taken t j
  unfolding copied_bitmap taken
  new_test j = elim (Option-cases t.fd_bitmap) [
    | inl e ↦
        rw
          (
            e,
            taken,
            e,
            mark_open-test t.fd_capacity 0 table (λ w. 0) j,
            bit_test-zero (λ w. 0) j refl,
            copied_table-file t j,
          )
          (ground arith)
    | inr (bits, e) ↦ rw e (copied bits e j)
  ]

  new-IsWords : IsWords (copied_bitmap t.fd_capacity table t.fd_bitmap)
  unfolding copied_bitmap
  new-IsWords w = elim (Option-cases t.fd_bitmap) [
    | inl e ↦ rw e (mark_open-IsWords t.fd_capacity 0 table (λ v. 0) (λ v. omega arith) w)
    | inr (bits, e) ↦ rw e (elim (Bool-cases (ltb w (fd_bitmap_words t.fd_capacity))) [
      | inl l ↦ rw l ((some_bits t bits e h).0 w)
      | inr l ↦ rw l (omega arith)
    ])
  ]

  pub taken-lt : (j : ℕ) → t.fd_capacity ≤ j → taken t j ≡ false
  unfolding taken
  taken-lt j c = ground arith

  file_at-lt : (j : ℕ) → t.fd_capacity ≤ j → file_at j t ≡ none
  unfolding file_at
  file_at-lt j c = elim (Option-cases t.fd_table) [
    | inl e ↦ rw (file_at, e) refl
    | inr (table, e) ↦ rw (file_at, e) (ground arith)
  ]

  installed_taken :
      (cap : ℕ) → t.fd_capacity ≤ cap → (j : ℕ) → taken (install_tables cap t) j ≡ taken t j
  unfolding taken install_tables
  installed_taken cap c j = elim (Bool-cases (ltb j cap)) [
    | inl l ↦ rw l (new_test j)
    | inr l ↦ rw (l, taken-lt j (ground arith)) refl
  ]

  installed_file :
      (cap : ℕ) → t.fd_capacity ≤ cap → (j : ℕ) → file_at j (install_tables cap t) ≡ file_at j t
  unfolding file_at install_tables
  installed_file cap c j = elim (Bool-cases (ltb j cap)) [
    | inl l ↦ rw l (copied_table-file t j)
    | inr l ↦ rw (l, file_at-lt j (ground arith)) refl
  ]

  pub install_tables-Grown :
      (cap needed : ℕ)
      → t.fd_capacity ≤ cap
      → needed ≤ cap
      → cap ≤ uint32_max
      → Grown needed t (install_tables cap t)
  unfolding install_tables
  install_tables-Grown cap needed c n u = record {
    shape = record {
      bound = u;
      hint = rw hint_fits (omega (arith, h.hint));
      bitmap = (new-IsWords, λ j b. new_test j ∙ taken-lt j (omega arith));
      open_taken =
          λ j f o. installed_taken cap c j ∙ h.open_taken j f (sym (installed_file cap c j) ∙ o);
    };
    same_taken = installed_taken cap c;
    same_file = installed_file cap c;
    same_hint = rw hint_fits refl;
    larger = c;
    enough = n;
    table = table;
    bits = copied_bitmap t.fd_capacity table t.fd_bitmap;
    table_is = refl;
    bits_are = refl;
  }
    where
      hint_fits : ltb cap t.next_fd_hint ≡ false
      hint_fits = ground (arith, h.hint)

-- A failed call leaves the task as it was.
abbrev pub Expanded : ℕ → Task → Task × Bool → Type 0
Expanded needed t (t', true) = Grown needed t t'
Expanded needed t (t', false) = t' ≡ t

-- The start of the loop.
abbrev pub first_capacity : Task → ℕ
first_capacity t = if t.fd_capacity == 0 then initial_fd_capacity else t.fd_capacity

first_capacity-le :
    (t : Task)
    → IsTask t
    → (t.fd_capacity ≤ first_capacity t) × (first_capacity t ≤ uint32_max) × (0 < first_capacity t)
first_capacity-le t h = elim (Bool-cases (t.fd_capacity == 0)) [
  | inl e ↦ rw e (ground arith, omega arith, omega arith)
  | inr e ↦ rw e (omega arith, h.bound, ground arith)
]

ready_Grown :
    (needed : ℕ) (t : Task)
    → IsTask t
    → (leb needed t.fd_capacity && is_some t.fd_table && is_some t.fd_bitmap) ≡ true
    → Grown needed t t
ready_Grown needed t h r = elim (Option-cases t.fd_table) [
  | inl e ↦ absurd (ground (arith, e))
  | inr (table, e) ↦ elim (Option-cases t.fd_bitmap) [
    | inl f ↦ absurd (ground (arith, f))
    | inr (bits, f) ↦ record {
      shape = h;
      same_taken = λ j. refl;
      same_file = λ j. refl;
      same_hint = refl;
      larger = omega arith;
      enough = ground arith;
      table = table;
      bits = bits;
      table_is = e;
      bits_are = f;
    }
  ]
]

pub expand_table-Expanded :
    (grants : Grants) (needed : ℕ) (t : Task)
    → IsTask t
    → needed ≤ uint32_max
    → Expanded needed t (expand_table grants needed t)
unfolding expand_table
expand_table-Expanded grants needed t h u =
    elim (Bool-cases (leb needed t.fd_capacity && is_some t.fd_table && is_some t.fd_bitmap)) [
      | inl e ↦ rw (expand_table, e) (ready_Grown needed t h e)
      | inr e ↦
          elim (Bool-cases (
            ltb uint32_max (grown_capacity 64 needed (first_capacity t))
            || not grants.table
            || not grants.bitmap)) [
              | inl f ↦ rw (expand_table, e, f) refl
              | inr f ↦
                  let s = first_capacity-le t h in
                  let g = grown_capacity-le 64 needed (first_capacity t) u s.1 in
                  rw (expand_table, e, f)
                    (install_tables-Grown t h (grown_capacity 64 needed (first_capacity t)) needed
                      (omega (arith, s.0, g.0))
                      (grown_capacity-ge 64 needed (first_capacity t) (omega (arith, s.2))) g.1)
            ]
    ]

-- With memory the call succeeds.
pub expand_table-granted :
    (needed : ℕ) (t : Task)
    → IsTask t
    → needed ≤ uint32_max
    → (expand_table (record { table = true; bitmap = true }) needed t).1 ≡ true
unfolding expand_table
expand_table-granted needed t h u =
    elim (Bool-cases (leb needed t.fd_capacity && is_some t.fd_table && is_some t.fd_bitmap)) [
      | inl e ↦ rw e refl
      | inr e ↦
          let k : ltb uint32_max (grown_capacity 64 needed (first_capacity t)) ≡ false = ground (
            arith,
            (grown_capacity-le 64 needed (first_capacity t) u (first_capacity-le t h).1).1,
          ) in
          rw (e, k) refl
    ]
