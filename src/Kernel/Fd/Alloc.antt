-- ===== src/Kernel/Fd/Alloc.antt =====
-- What `alloc_fd` answers, on every branch.
use rhkernel.Prelude.{
  ℕ, ◌+◌, ◌≤◌, ◌<◌, ◌≡◌, refl, sym, ap, subst, ◌∙◌, Bool, true, false, ◌||◌, ◌==◌, ltb,
  if◌then◌else◌, Option, none, some, arith, Bool-cases, inl, inr,
}
use rhkernel.Kernel.Fd.{
  Task, Grants, uint32_max, u64, file_at, expand_table, scan_passes, take_fd, alloc_grown,
  clip_hint, alloc_scan, alloc_unsigned, initial_fd_capacity,
}
use rhkernel.Kernel.Fd.Shape.{
  IsTask, IsPacked, taken, fd_bit_set-marked, marked, marked-taken, marked-IsTask,
}
use rhkernel.Kernel.Fd.Grow.{Grown, taken-lt, Expanded, expand_table-Expanded}
use rhkernel.Kernel.Fd.Scan.{Scanned, scan_passes-Scanned}

-- `t'` differs from `t` by its capacity at most.
pub record Kept (t t' : Task) : Type 0 where
  pub shape : IsTask t'
  pub same_taken : (j : ℕ) → taken t' j ≡ taken t j
  pub same_file : (j : ℕ) → file_at j t' ≡ file_at j t
  pub same_hint : t'.next_fd_hint ≡ t.next_fd_hint

-- `fd`, which was free, is taken in `t'`, and it alone; it was the lowest free one from `k` on if the table was
-- packed from `k` on.
pub record Taken (fd : ℕ) (t t' : Task) : Type 0 where
  pub shape : IsTask t'
  pub was_free : taken t fd ≡ false
  pub only_taken : (j : ℕ) → taken t' j ≡ (j == fd || taken t j)
  pub same_file : (j : ℕ) → file_at j t' ≡ file_at j t
  pub lowest : (k : ℕ) → IsPacked k t → (j : ℕ) → k ≤ j → j < fd → taken t j ≡ true
  pub packed : (k : ℕ) → IsPacked k t → IsPacked k t'
  pub within : fd < t'.fd_capacity

abbrev pub Allocated : Task → Task × Option ℕ → Type 0
Allocated t (t', none) = Kept t t'
Allocated t (t', some fd) = Taken fd t t'

Grown-Kept : {needed : ℕ} {t t' : Task} → Grown needed t t' → Kept t t'
Grown-Kept g = record {
  shape = g.shape;
  same_taken = g.same_taken;
  same_file = g.same_file;
  same_hint = g.same_hint;
}

same_Kept : (t : Task) → IsTask t → Kept t t
same_Kept t h = record {
  shape = h;
  same_taken = λ j. refl;
  same_file = λ j. refl;
  same_hint = refl;
}

pub Kept-IsPacked : (k : ℕ) {t t' : Task} → Kept t t' → IsPacked k t → IsPacked k t'
Kept-IsPacked k a p j b l = a.same_taken j ∙ p j b (omega (arith, a.same_hint))

Kept-then : {t t' t'' : Task} → Kept t t' → Kept t' t'' → Kept t t''
Kept-then a b = record {
  shape = b.shape;
  same_taken = λ j. b.same_taken j ∙ a.same_taken j;
  same_file = λ j. b.same_file j ∙ a.same_file j;
  same_hint = b.same_hint ∙ a.same_hint;
}

module _ (t : Task) (bits : ℕ → ℕ) (e : t.fd_bitmap ≡ some bits) (h : IsTask t) (fd : ℕ)
    (l : fd < t.fd_capacity) (free : taken t fd ≡ false) where
  abbrev after : Task
  after = marked t bits e fd (fd + 1) l

  take_fd-after : take_fd fd t ≡ after
  unfolding take_fd
  take_fd-after =
      let wrap : u64 (fd + 1) ≡ fd + 1 = omega (arith, h.bound) in
      rw wrap (fd_bit_set-marked t bits e fd (fd + 1) l)

  take_fd-Taken :
      ((k : ℕ) → IsPacked k t → (j : ℕ) → k ≤ j → j < fd → taken t j ≡ true)
      → Taken fd t (take_fd fd t)
  unfolding file_at
  take_fd-Taken lower = subst (Taken fd t) (sym take_fd-after) (record {
    shape = marked-IsTask t bits e fd (fd + 1) l h (omega arith);
    was_free = free;
    only_taken = marked-taken t bits e fd (fd + 1) l;
    same_file = λ j. refl;
    lowest = lower;
    packed = λ k p j b i. marked-taken t bits e fd (fd + 1) l j ∙ below k p j b i;
    within = l;
  })
    where
      below : (k : ℕ) → IsPacked k t → (j : ℕ) → k ≤ j → j < fd + 1 → (j == fd || taken t j) ≡ true
      below k p j b i = elim (Bool-cases (j == fd)) [
        | inl q ↦ rw q refl
        | inr q ↦ rw (q, lower k p j b (ground arith)) refl
      ]

-- The same seen from a smaller table.
Taken-before : {fd : ℕ} {t t' t'' : Task} → Kept t t' → Taken fd t' t'' → Taken fd t t''
Taken-before {fd} {t} k a = record {
  shape = a.shape;
  was_free = sym (k.same_taken fd) ∙ a.was_free;
  only_taken = λ j. a.only_taken j ∙ ap (λ b. j == fd || b) (k.same_taken j);
  same_file = λ j. a.same_file j ∙ k.same_file j;
  lowest = λ n p j b l. sym (k.same_taken j) ∙ a.lowest n (Kept-IsPacked n k p) j b l;
  packed = λ n p. a.packed n (Kept-IsPacked n k p);
  within = a.within;
}

pub clip_hint-same : (t : Task) → IsTask t → clip_hint t ≡ t
unfolding clip_hint
clip_hint-same t h =
    let k : ltb t.fd_capacity t.next_fd_hint ≡ false = ground (arith, h.hint) in rw k refl

-- The code below the loops, where every descriptor is taken.
alloc_grown-Allocated :
    (grants : Grants) (t : Task)
    → IsTask t
    → 0 < t.fd_capacity
    → ((j : ℕ) → j < t.fd_capacity → taken t j ≡ true)
    → Allocated t (alloc_grown grants t)
unfolding alloc_grown
alloc_grown-Allocated grants t h positive full =
    let some_old : (t.fd_capacity == 0) ≡ false = ground arith in
    let wrap : u64 (t.fd_capacity + 1) ≡ t.fd_capacity + 1 = omega (arith, h.bound) in
    rw (alloc_grown, some_old, wrap)
      (elim (Bool-cases (ltb uint32_max (t.fd_capacity + 1))) [
        | inl q ↦ rw q (same_Kept t h)
        | inr q ↦ rw q (
            answer (expand_table grants (t.fd_capacity + 1) t)
              (expand_table-Expanded grants (t.fd_capacity + 1) t h (ground arith)))
      ])
  where
    answer :
        (x : Task × Bool)
        → Expanded (t.fd_capacity + 1) t x
        → Allocated t (if x.1 then (take_fd t.fd_capacity x.0, some t.fd_capacity) else (x.0, none))
    answer (t', true) g = Taken-before (Grown-Kept g) (
        take_fd-Taken t' g.bits g.bits_are g.shape t.fd_capacity (omega (arith, g.enough))
          (g.same_taken t.fd_capacity ∙ taken-lt t h t.fd_capacity (omega arith))
          (λ k p j b l. g.same_taken j ∙ full j l))
    answer (t', false) g = subst (Kept t) (sym g) (same_Kept t h)

-- The answer behind the loops.
abbrev pub behind_scan : Grants → Task → Option ℕ → Task × Option ℕ
behind_scan grants t none = alloc_grown grants t
behind_scan grants t (some fd) = (take_fd fd t, some fd)

pub alloc_scan-bits :
    (grants : Grants) (t : Task) (bits : ℕ → ℕ)
    → t.fd_bitmap ≡ some bits
    → alloc_scan grants t ≡ behind_scan grants t (scan_passes t bits)
unfolding alloc_scan
alloc_scan-bits grants t bits e = simp (alloc_scan, e) (same (scan_passes t bits))
  where
    same :
        (o : Option ℕ)
        → (elim o [ none ↦ alloc_grown grants t | some fd ↦ (take_fd fd t, some fd) ])
          ≡ behind_scan grants t o
    same none = refl
    same (some fd) = refl

alloc_scan-Allocated :
    (grants : Grants) (t : Task) (bits : ℕ → ℕ)
    → t.fd_bitmap ≡ some bits
    → IsTask t
    → 0 < t.fd_capacity
    → Allocated t (alloc_scan grants t)
alloc_scan-Allocated grants t bits e h positive =
    subst (Allocated t) (sym (alloc_scan-bits grants t bits e))
      (answer (scan_passes t bits) (scan_passes-Scanned t bits e h))
  where
    answer : (o : Option ℕ) → Scanned t bits e h o → Allocated t (behind_scan grants t o)
    answer none full = alloc_grown-Allocated grants t h positive full
    answer (some fd) f = take_fd-Taken t bits e h fd f.0 f.1 f.2

-- What holds of the table behind the first call of `expand_table` holds of the task.
Allocated-before : (t t' : Task) (x : Task × Option ℕ) → Kept t t' → Allocated t' x → Allocated t x
Allocated-before t t' (t'', none) k a = Kept-then k a
Allocated-before t t' (t'', some fd) k a = Taken-before k a

-- `alloc_fd` takes one free descriptor, the lowest if the table is packed, or fails and takes none; open files stay.
pub alloc_unsigned-Allocated :
    (first grants : Grants) (t : Task) → IsTask t → Allocated t (alloc_unsigned first grants t)
unfolding alloc_unsigned
alloc_unsigned-Allocated first grants t h =
    answer (expand_table first initial_fd_capacity t)
      (expand_table-Expanded first initial_fd_capacity t h (omega arith))
  where
    answer :
        (x : Task × Bool)
        → Expanded initial_fd_capacity t x
        → Allocated t (if x.1 then alloc_scan grants (clip_hint x.0) else (x.0, none))
    answer (t', true) g = rw (clip_hint-same t' g.shape) (
        Allocated-before t t' (alloc_scan grants t') (Grown-Kept g)
          (alloc_scan-Allocated grants t' g.bits g.bits_are g.shape (omega (arith, g.enough))))
    answer (t', false) g = subst (Kept t) (sym g) (same_Kept t h)
