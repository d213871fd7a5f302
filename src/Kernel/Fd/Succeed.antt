-- ===== src/Kernel/Fd/Succeed.antt =====
-- With memory `alloc_fd` succeeds.
use rhkernel.Prelude.{
  ℕ, zero, suc, ◌+◌, ◌*◌, ◌/◌, ◌<◌, ◌≤◌, ◌≡◌, sym, ap, subst, Bool, true, false, not, ◌&&◌, ◌||◌,
  ◌==◌, ltb, leb, if◌then◌else◌, Option, none, some, arith, Bool-cases, inl, inr,
}
use rhkernel.Prelude.Int.{pos}
use rhkernel.Kernel.Fd.{
  Task, Grants, uint32_max, u64, grown_capacity, install_tables, expand_table, scan_passes,
  alloc_grown, clip_hint, alloc_scan, alloc_unsigned, is_some,
}
use rhkernel.Kernel.Fd.Calls.{alloc_fd, as_result, to_int}
use rhkernel.Kernel.Fd.Shape.{IsTask}
use rhkernel.Kernel.Fd.Grow.{first_capacity, Expanded, expand_table-Expanded, expand_table-granted}
use rhkernel.Kernel.Fd.Scan.{Scanned, scan_passes-Scanned}
use rhkernel.Kernel.Fd.Alloc.{
  Taken, Allocated, alloc_unsigned-Allocated, behind_scan, alloc_scan-bits, clip_hint-same,
}

abbrev pub all_granted : Grants
all_granted = record { table = true; bitmap = true }

-- A bound of the old capacity and of twice the need bounds the new capacity.
grown_capacity-bound :
    (fuel needed cap m : ℕ) → cap ≤ m → 2 * needed ≤ m → grown_capacity fuel needed cap ≤ m
unfolding grown_capacity
grown_capacity-bound zero needed cap m h k = h
grown_capacity-bound (suc fuel) needed cap m h k = elim (Bool-cases (ltb cap needed)) [
  | inl e ↦ elim (Bool-cases (ltb (uint32_max / 2) cap)) [
    | inl f ↦ rw (grown_capacity, e, f) (omega arith)
    | inr f ↦
        rw (grown_capacity, e, f) (grown_capacity-bound fuel needed (cap * 2) m (ground arith) k)
  ]
  | inr e ↦ rw (grown_capacity, e) h
]

expand_table-bound :
    (grants : Grants) (needed m : ℕ) (t : Task)
    → t.fd_capacity ≤ m
    → 2 * needed ≤ m
    → 8 ≤ m
    → (expand_table grants needed t).0.fd_capacity ≤ m
unfolding expand_table install_tables
expand_table-bound grants needed m t h k e =
    elim (Bool-cases (leb needed t.fd_capacity && is_some t.fd_table && is_some t.fd_bitmap)) [
      | inl q ↦ rw (expand_table, q) h
      | inr q ↦
          elim (Bool-cases (
            ltb uint32_max (grown_capacity 64 needed (first_capacity t))
            || not grants.table
            || not grants.bitmap)) [
              | inl r ↦ rw (expand_table, q, r) h
              | inr r ↦
                  rw (expand_table, q, r)
                    (grown_capacity-bound 64 needed (first_capacity t) m start_fits k)
            ]
    ]
  where
    start_fits : first_capacity t ≤ m
    start_fits = ground arith

-- A descriptor that is an `int`.
abbrev IsInt : Task × Option ℕ → Type 0
IsInt (t', none) = ⊥
IsInt (t', some fd) = fd < 2147483648

module _ (t : Task) (h : IsTask t) (u : t.fd_capacity < 2147483648) where
  alloc_grown-IsInt : IsInt (alloc_grown all_granted t)
  unfolding alloc_grown
  alloc_grown-IsInt = elim (Bool-cases (t.fd_capacity == 0)) [
    | inl q ↦ rw (alloc_grown, q, expand_table-granted 8 t h (omega arith)) (omega arith)
    | inr q ↦
        let wrap : u64 (t.fd_capacity + 1) ≡ t.fd_capacity + 1 = omega arith in
        let fits : ltb uint32_max (t.fd_capacity + 1) ≡ false = ground arith in
        rw (alloc_grown, q, wrap, fits, expand_table-granted (t.fd_capacity + 1) t h (omega arith))
          u
  ]

  behind_scan-IsInt :
      (bits : ℕ → ℕ) (e : t.fd_bitmap ≡ some bits) (o : Option ℕ)
      → Scanned t bits e h o
      → IsInt (behind_scan all_granted t o)
  behind_scan-IsInt bits e none f = alloc_grown-IsInt
  behind_scan-IsInt bits e (some fd) f = omega (arith, f.0)

alloc_scan-IsInt :
    (t : Task) (bits : ℕ → ℕ)
    → t.fd_bitmap ≡ some bits
    → IsTask t
    → t.fd_capacity < 2147483648
    → IsInt (alloc_scan all_granted t)
alloc_scan-IsInt t bits e h u =
    subst IsInt (sym (alloc_scan-bits all_granted t bits e))
      (behind_scan-IsInt t h u bits e (scan_passes t bits) (scan_passes-Scanned t bits e h))

alloc_unsigned-IsInt :
    (t : Task)
    → IsTask t
    → t.fd_capacity < 2147483648
    → IsInt (alloc_unsigned all_granted all_granted t)
unfolding alloc_unsigned
alloc_unsigned-IsInt t h u =
    answer (expand_table all_granted 8 t) (expand_table-Expanded all_granted 8 t h (omega arith))
      (expand_table-granted 8 t h (omega arith))
      (expand_table-bound all_granted 8 2147483647 t (omega arith) (omega arith) (omega arith))
  where
    answer :
        (x : Task × Bool)
        → Expanded 8 t x
        → x.1 ≡ true
        → x.0.fd_capacity ≤ 2147483647
        → IsInt (if x.1 then alloc_scan all_granted (clip_hint x.0) else (x.0, none))
    answer (t', true) g p b =
        rw (clip_hint-same t' g.shape) (alloc_scan-IsInt t' g.bits g.bits_are g.shape (omega arith))
    answer (t', false) g p b = absurd cc

-- With memory and fewer descriptors than an `int` counts, `alloc_fd` answers a descriptor: one that was free, and that it takes.
pub alloc_fd-succeeds :
    (t : Task)
    → IsTask t
    → t.fd_capacity < 2147483648
    → (t' : Task) × (fd : ℕ) × (alloc_fd all_granted all_granted (some t) ≡ (some t', pos fd))
      × Taken fd t t'
unfolding alloc_fd
alloc_fd-succeeds t h u =
    answer (alloc_unsigned all_granted all_granted t) (alloc_unsigned-IsInt t h u)
      (alloc_unsigned-Allocated all_granted all_granted t h)
  where
    plain : (fd : ℕ) → fd < 2147483648 → to_int fd ≡ pos fd
    plain fd i = ground arith

    answer :
        (x : Task × Option ℕ)
        → IsInt x
        → Allocated t x
        → (t' : Task) × (fd : ℕ) × (as_result x ≡ (some t', pos fd)) × Taken fd t t'
    answer (t', none) i a = absurd i
    answer (t', some fd) i a = (t', fd, ap (λ r. (some t', r)) (plain fd i), a)
