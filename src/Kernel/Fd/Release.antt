-- ===== src/Kernel/Fd/Release.antt =====
-- What `release_reserved_fd` and `close_fd` do to the table of the task.
use rhkernel.Prelude.{
  ℕ, ◌<◌, ◌≤◌, ◌≡◌, refl, sym, ap, subst, ◌∙◌, true, false, not, ◌&&◌, ◌==◌, ltb, if◌then◌else◌,
  Option, none, some, arith, Bool-cases, Option-cases, inl, inr,
}
use rhkernel.Kernel.Fd.{Task, bit_test, fd_bit_clear, file_at, is_some}
use rhkernel.Kernel.Fd.Calls.{free_fd, release_unsigned, set_file}
use rhkernel.Kernel.Fd.Shape.{IsTask, IsPacked, taken, cleared, cleared-taken, cleared-IsTask}

abbrev pub lower_hint : ℕ → Task → ℕ
lower_hint fd t = if ltb fd t.next_fd_hint then fd else t.next_fd_hint

-- `fd` is free in `t'` and no other changes.
pub record Freed (fd : ℕ) (t t' : Task) : Type 0 where
  pub shape : IsTask t'
  pub same_capacity : t'.fd_capacity ≡ t.fd_capacity
  pub only_freed : (j : ℕ) → taken t' j ≡ (not (j == fd) && taken t j)
  pub same_file : (j : ℕ) → file_at j t' ≡ (if j == fd then none else file_at j t)
  pub hint : t'.next_fd_hint ≡ lower_hint fd t

-- A packed table stays packed.
pub Freed-IsPacked : (k fd : ℕ) (t t' : Task) → Freed fd t t' → IsPacked k t → IsPacked k t'
Freed-IsPacked k fd t t' r p j b l =
    r.only_freed j ∙ (rw (p j b (ground (arith, r.hint))) (ground (arith, r.hint)))

below : (a b : ℕ) → a < b → ltb a b ≡ true
below a b h = ground arith

file_out : (t : Task) (j : ℕ) → t.fd_capacity ≤ j → file_at j t ≡ none
unfolding file_at
file_out t j c = elim (Option-cases t.fd_table) [
  | inl e ↦ rw (file_at, e) refl
  | inr (table, e) ↦ rw (file_at, e) (ground arith)
]

module _ (t : Task) (h : IsTask t) (fd : ℕ) (l : fd < t.fd_capacity) where
  module _ (bits : ℕ → ℕ) (e : t.fd_bitmap ≡ some bits) where
    free_fd-cleared : free_fd fd t ≡ cleared t bits e fd (lower_hint fd t) l
    unfolding free_fd fd_bit_clear
    free_fd-cleared = elim (Bool-cases (ltb fd t.next_fd_hint)) [
      | inl q ↦ rw (free_fd, fd_bit_clear, e, below fd t.fd_capacity l, q) refl
      | inr q ↦ rw (free_fd, fd_bit_clear, e, below fd t.fd_capacity l, q) refl
    ]

  file_same : file_at fd t ≡ none → (j : ℕ) → file_at j t ≡ (if j == fd then none else file_at j t)
  file_same n j = elim (Bool-cases (j == fd)) [
    | inl q ↦ let p : j ≡ fd = ground arith in rw q (ap (λ i. file_at i t) p ∙ n)
    | inr q ↦ rw q refl
  ]

  no_bitmap : t.fd_bitmap ≡ none → fd_bit_clear fd t ≡ t
  unfolding fd_bit_clear
  no_bitmap e = simp (fd_bit_clear, e) refl

  -- Without a bitmap the hint alone changes.
  free_fd-hint : t.fd_bitmap ≡ none → free_fd fd t ≡ record t { next_fd_hint = lower_hint fd t }
  unfolding free_fd
  free_fd-hint e = elim (Bool-cases (ltb fd t.next_fd_hint)) [
    | inl q ↦ rw (free_fd, no_bitmap e, q) refl
    | inr q ↦ rw (free_fd, no_bitmap e, q) refl
  ]

  hint_fits : lower_hint fd t ≤ t.fd_capacity
  hint_fits = ground (arith, h.hint)

  unmarked :
      file_at fd t ≡ none → t.fd_bitmap ≡ none → (j : ℕ) → taken t j ≡ (not (j == fd) && taken t j)
  unfolding taken
  unmarked n e j = elim (Bool-cases (j == fd)) [
    | inl q ↦
        let p : file_at j t ≡ none = ap (λ i. file_at i t) (ground arith) ∙ n in
        rw (q, taken, e, p) (ground arith)
    | inr q ↦ rw q refl
  ]

  pub free_fd-Freed : file_at fd t ≡ none → Freed fd t (free_fd fd t)
  unfolding file_at taken
  free_fd-Freed n = elim (Option-cases t.fd_bitmap) [
    | inl e ↦ subst (Freed fd t) (sym (free_fd-hint e)) (record {
      shape = record {
        bound = h.bound;
        hint = hint_fits;
        bitmap = h.bitmap;
        open_taken = h.open_taken;
      };
      same_capacity = refl;
      only_freed = unmarked n e;
      same_file = file_same n;
      hint = refl;
    })
    | inr (bits, e) ↦ subst (Freed fd t) (sym (free_fd-cleared bits e)) (record {
      shape = cleared-IsTask t bits e fd (lower_hint fd t) l h hint_fits n;
      same_capacity = refl;
      only_freed = cleared-taken t bits e fd (lower_hint fd t) l;
      same_file = file_same n;
      hint = refl;
    })
  ]

  -- `release_reserved_fd` frees a descriptor without a file.
  pub release_unsigned-none : file_at fd t ≡ none → release_unsigned fd t ≡ free_fd fd t
  unfolding release_unsigned
  release_unsigned-none n = rw (release_unsigned, below fd t.fd_capacity l, n) refl

-- A file put at a descriptor of the table, or taken out.
module _ (t : Task) (table : ℕ → Option ℕ) (e : t.fd_table ≡ some table) (fd : ℕ)
    (l : fd < t.fd_capacity) where
  abbrev pub stored : Option ℕ → Task
  stored f = record t { fd_table = some (λ i. if i == fd then f else table i) }

  pub set_file-stored : (f : Option ℕ) → set_file fd f t ≡ stored f
  unfolding set_file
  set_file-stored f = rw (set_file, e) refl

  pub stored-file :
      (f : Option ℕ) (j : ℕ) → file_at j (stored f) ≡ (if j == fd then f else file_at j t)
  unfolding file_at
  stored-file f j =
      rw (file_at, e)
        (elim (Bool-cases (j == fd)) [
          | inl q ↦ let p : ltb j t.fd_capacity ≡ true = ground arith in rw (q, p) refl
          | inr q ↦ rw q refl
        ])

  same_taken :
      (f : Option ℕ) (j : ℕ) → file_at j (stored f) ≡ file_at j t → taken (stored f) j ≡ taken t j
  unfolding taken
  same_taken f j = ap (λ o.
      ltb j t.fd_capacity && elim t.fd_bitmap [ none ↦ is_some o | some bits ↦ bit_test bits j ])

  pub stored-other : (f : Option ℕ) (j : ℕ) → (j == fd) ≡ false → taken (stored f) j ≡ taken t j
  stored-other f j q = same_taken f j (stored-file f j ∙ (rw q refl))

  pub stored-taken :
      (f : Option ℕ) (j : ℕ) → (not (j == fd) && taken (stored f) j) ≡ (not (j == fd) && taken t j)
  unfolding taken
  stored-taken f j = elim (Bool-cases (j == fd)) [
    | inl q ↦ rw q refl
    | inr q ↦ rw (stored-other f j q) refl
  ]

  -- A taken descriptor stays taken when a file is put there.
  pub stored-opened : (f : ℕ) → taken t fd ≡ true → taken (stored (some f)) fd ≡ true
  unfolding taken
  stored-opened f k = elim (Option-cases t.fd_bitmap) [
    | inl b ↦
        let here : file_at fd (stored (some f)) ≡ some f =
          stored-file (some f) fd ∙ (ground arith) in
        rw (taken, b, here) (ground arith)
    | inr (bits, b) ↦
        rw (taken, b)
          (subst
            (λ o.
              (ltb fd t.fd_capacity
                && elim o [ none ↦ is_some (file_at fd t) | some bits ↦ bit_test bits fd ])
              ≡ true)
            b k)
  ]

  pub stored-IsTask :
      IsTask t
      → (f : Option ℕ) → ((g : ℕ) → f ≡ some g → taken (stored f) fd ≡ true)
      → IsTask (stored f)
  stored-IsTask h f k = record {
    bound = h.bound;
    hint = h.hint;
    bitmap = h.bitmap;
    open_taken = opened;
  }
    where
      opened : (j g : ℕ) → file_at j (stored f) ≡ some g → taken (stored f) j ≡ true
      opened j g o = elim (Bool-cases (j == fd)) [
        | inl q ↦
            let here : f ≡ some g = sym (stored-file f j ∙ (rw q refl)) ∙ o in
            ap (taken (stored f)) (ground arith) ∙ k g here
        | inr q ↦
            let there : file_at j t ≡ some g = sym (stored-file f j ∙ (rw q refl)) ∙ o in
            stored-other f j q ∙ h.open_taken j g there
      ]
