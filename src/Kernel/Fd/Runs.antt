-- ===== src/Kernel/Fd/Runs.antt =====
-- Any sequence of the calls, from the table of a new task (`spawn_internal` of smp/scheduler.cpp).
use rhkernel.Prelude.{
  ℕ, ◌<◌, ◌≤◌, ◌≡◌, refl, sym, ap, subst, ◌∙◌, Bool, true, false, ◌==◌, ltb, Option, none, some,
  ◌||◌, ◌&&◌, if◌then◌else◌, arith, Bool-cases, Option-cases, inl, inr,
}
use rhkernel.Kernel.Fd.{
  bit_set, bit_test, copied_table, copied_bitmap, install_tables, Task, Grants, file_at,
  initial_fd_capacity, alloc_unsigned,
}
use rhkernel.Kernel.Fd.Calls.{
  release_unsigned, reserve_unsigned, set_file, Store, close_unsigned, free_fd,
}
use rhkernel.Kernel.Fd.Shape.{IsTask, IsPacked, taken}
use rhkernel.Kernel.Fd.Words.{bit_set-IsWords, bit_set-test}
use rhkernel.Kernel.Fd.Grow.{install_tables-Grown}
use rhkernel.Kernel.Fd.Expand.{bit_test-zero}
use rhkernel.Kernel.Fd.Alloc.{Allocated, alloc_unsigned-Allocated, Kept-IsPacked}
use rhkernel.Kernel.Fd.Reserve.{Reserved, reserve_unsigned-Reserved}
use rhkernel.Kernel.Fd.Release.{
  Freed-IsPacked, free_fd-Freed, stored, set_file-stored, stored-other, stored-opened,
  stored-IsTask,
}
use rhkernel.Kernel.Fd.Close.{closed_Freed}

-- The fields that `spawn_internal` sets, with both arrays granted.
unfoldable pub fresh_fds : Task
fresh_fds = record {
  fd_table = some (λ i. none);
  fd_bitmap = some (λ w. 0);
  fd_capacity = initial_fd_capacity;
  next_fd_hint = 0;
}

-- `install_init_stdio`, once the console is open: descriptors 1 and 2 share `file`.
unfoldable pub install_init_stdio : ℕ → Task → Task
install_init_stdio file t = record t {
  fd_table = elim t.fd_table [
    | none ↦ none
    | some table ↦
        some (λ i. if i == 0 then none else if i == 1 || i == 2 then some file else table i)
  ];
  fd_bitmap = elim t.fd_bitmap [ none ↦ none | some bits ↦ some (bit_set 2 (bit_set 1 bits)) ];
  next_fd_hint = if ltb t.next_fd_hint 3 then 3 else t.next_fd_hint;
}

-- The descriptors that `clone` gives the child, with both arrays granted.
unfoldable pub clone_fds : Task → Task
clone_fds t =
    let table = copied_table t.fd_capacity t.fd_table in
    record {
      fd_table = some table;
      fd_bitmap = some (copied_bitmap t.fd_capacity table t.fd_bitmap);
      fd_capacity = t.fd_capacity;
      next_fd_hint = t.next_fd_hint;
    }

-- A call with any arguments; `opened` is the assignment of `sys_open` behind `alloc_fd`.
pub data Step : Task → Task → Type 0 where
  allocates : {t : Task} (first grants : Grants) → Step t (alloc_unsigned first grants t).0
  opened : {t : Task} (fd f : ℕ) → taken t fd ≡ true → Step t (set_file fd (some f) t)
  reserves :
      {t : Task} (grants : Grants) (fd : ℕ)
      → fd ≤ 2147483647
      → Step t (reserve_unsigned grants fd t).0
  releases : {t : Task} (fd : ℕ) → Step t (release_unsigned fd t)
  clones : {t : Task} (bits : ℕ → ℕ) → t.fd_bitmap ≡ some bits → Step t (clone_fds t)
  closes : {t : Task} (s : Store) (fd : ℕ) → Step t (close_unsigned fd t s).0

-- The runs of a task; the first number from which on descriptors are taken is 1 behind `install_init_stdio`.
pub data Reach : ℕ → Task → Type 0 where
  fresh : Reach 0 fresh_fds
  stdio : (file : ℕ) → Reach 1 (install_init_stdio file fresh_fds)
  step : {k : ℕ} {t t' : Task} → Reach k t → Step t t' → Reach k t'

-- A table of the shape, that is packed from `k` on.
abbrev pub IsOrdered : ℕ → Task → Type 0
IsOrdered k t = IsTask t × IsPacked k t

fresh_fds-IsOrdered : IsOrdered 0 fresh_fds
unfolding fresh_fds taken file_at
fresh_fds-IsOrdered = (
  record {
    bound = omega arith;
    hint = omega arith;
    bitmap = (λ w. omega arith, λ j l. bit_test-zero (λ w. 0) j refl);
    open_taken = λ fd f o. absurd (ground (arith, o));
  },
  λ j b l. absurd (omega arith),
)

clone_fds-install_tables : (t : Task) → IsTask t → clone_fds t ≡ install_tables t.fd_capacity t
unfolding clone_fds install_tables
clone_fds-install_tables t h =
    let k : ltb t.fd_capacity t.next_fd_hint ≡ false = ground (arith, h.hint) in rw k refl

install_init_stdio-IsOrdered : (file : ℕ) → IsOrdered 1 (install_init_stdio file fresh_fds)
unfolding install_init_stdio fresh_fds taken file_at
install_init_stdio-IsOrdered file = (
  record {
    bound = omega arith;
    hint = omega arith;
    bitmap = (
      bit_set-IsWords (bit_set 1 (λ w. 0)) 2 (bit_set-IsWords (λ w. 0) 1 (λ w. omega arith)),
      λ j l. marked_test j ∙ ground arith,
    );
    open_taken = λ fd f o. rw (marked_test fd) (opened_is fd f o);
  },
  λ j b l. rw (marked_test j) (ground arith),
)
  where
    marked_test :
        (j : ℕ) → bit_test (bit_set 2 (bit_set 1 (λ w. 0))) j ≡ (j == 2 || (j == 1 || false))
    marked_test j =
        bit_set-test (bit_set 1 (λ w. 0)) 2 j
        ∙ ap (λ b. j == 2 || b)
            (bit_set-test (λ w. 0) 1 j ∙ ap (λ b. j == 1 || b) (bit_test-zero (λ w. 0) j refl))

    opened_is :
        (fd f : ℕ)
        → file_at fd (install_init_stdio file fresh_fds) ≡ some f
        → (ltb fd 8 && (fd == 2 || (fd == 1 || false))) ≡ true
    opened_is fd f o = ground (arith, o)

clones-IsOrdered :
    (k : ℕ) (t : Task) (bits : ℕ → ℕ)
    → t.fd_bitmap ≡ some bits
    → IsOrdered k t
    → IsOrdered k (clone_fds t)
clones-IsOrdered k t bits e (h, p) = subst (IsOrdered k) (sym (clone_fds-install_tables t h)) (
    let g = install_tables-Grown t h t.fd_capacity 0 (omega arith) (omega arith) h.bound in
    (g.shape, λ j b l. g.same_taken j ∙ p j b (omega (arith, g.same_hint))))

allocates-IsOrdered :
    (k : ℕ) (first grants : Grants) (t : Task)
    → IsOrdered k t
    → IsOrdered k (alloc_unsigned first grants t).0
allocates-IsOrdered k first grants t (h, p) =
    answer (alloc_unsigned first grants t) (alloc_unsigned-Allocated first grants t h)
  where
    answer : (x : Task × Option ℕ) → Allocated t x → IsOrdered k x.0
    answer (t', none) a = (a.shape, Kept-IsPacked k a p)
    answer (t', some fd) a = (a.shape, a.packed k p)

reserves-IsOrdered :
    (k : ℕ) (grants : Grants) (fd : ℕ) (t : Task)
    → fd ≤ 2147483647
    → IsOrdered k t
    → IsOrdered k (reserve_unsigned grants fd t).0
reserves-IsOrdered k grants fd t b (h, p) =
    answer (reserve_unsigned grants fd t) (reserve_unsigned-Reserved grants fd t h b)
  where
    answer : (x : Task × Bool) → Reserved fd t x → IsOrdered k x.0
    answer (t', true) a = (a.shape, a.packed k p)
    answer (t', false) a = subst (IsOrdered k) (sym a) (h, p)

releases-IsOrdered : (k fd : ℕ) (t : Task) → IsOrdered k t → IsOrdered k (release_unsigned fd t)
unfolding release_unsigned
releases-IsOrdered k fd t (h, p) = elim (Bool-cases (ltb fd t.fd_capacity)) [
  | inl q ↦ elim (Option-cases (file_at fd t)) [
    | inl e ↦
        let r = free_fd-Freed t h fd (ground arith) e in
        rw (release_unsigned, q, e) (r.shape, Freed-IsPacked k fd t (free_fd fd t) r p)
    | inr (f, e) ↦ rw (release_unsigned, q, e) (h, p)
  ]
  | inr q ↦ rw (release_unsigned, q) (h, p)
]

closes-IsOrdered :
    (k : ℕ) (s : Store) (fd : ℕ) (t : Task) → IsOrdered k t → IsOrdered k (close_unsigned fd t s).0
unfolding close_unsigned
closes-IsOrdered k s fd t (h, p) = elim (Option-cases (file_at fd t)) [
  | inl e ↦ rw (close_unsigned, e) (h, p)
  | inr (f, e) ↦
      let r = closed_Freed t fd f h e in
      rw (close_unsigned, e) (r.shape, Freed-IsPacked k fd t (free_fd fd (set_file fd none t)) r p)
]

no_table : (fd f : ℕ) (t : Task) → t.fd_table ≡ none → set_file fd (some f) t ≡ t
unfolding set_file
no_table fd f t e = simp (set_file, e) refl

taken-lt : (t : Task) (fd : ℕ) → taken t fd ≡ true → fd < t.fd_capacity
unfolding taken
taken-lt t fd k = ground arith

opened-IsOrdered :
    (k fd f : ℕ) (t : Task)
    → taken t fd ≡ true
    → IsOrdered k t
    → IsOrdered k (set_file fd (some f) t)
opened-IsOrdered k fd f t m (h, p) = elim (Option-cases t.fd_table) [
  | inl e ↦ subst (IsOrdered k) (sym (no_table fd f t e)) (h, p)
  | inr (table, e) ↦
      let l = taken-lt t fd m in
      let here = stored-opened t table e fd l f m in
      subst (IsOrdered k) (sym (set_file-stored t table e fd l (some f)))
        (stored-IsTask t table e fd l h (some f) (λ g q. here), packed table e l here)
]
  where
    packed :
        (table : ℕ → Option ℕ) (e : t.fd_table ≡ some table) (l : fd < t.fd_capacity)
        → taken (stored t table e fd l (some f)) fd ≡ true
        → IsPacked k (stored t table e fd l (some f))
    packed table e l here j m b = elim (Bool-cases (j == fd)) [
      | inl q ↦ ap (taken (stored t table e fd l (some f))) (ground arith) ∙ here
      | inr q ↦ stored-other t table e fd l (some f) j q ∙ p j m b
    ]

step-IsOrdered : (k : ℕ) {t t' : Task} → Step t t' → IsOrdered k t → IsOrdered k t'
step-IsOrdered k (allocates first grants) h = allocates-IsOrdered k first grants _ h
step-IsOrdered k (opened fd f i) h = opened-IsOrdered k fd f _ i h
step-IsOrdered k (reserves grants fd b) h = reserves-IsOrdered k grants fd _ b h
step-IsOrdered k (releases fd) h = releases-IsOrdered k fd _ h
step-IsOrdered k (clones bits e) h = clones-IsOrdered k _ bits e h
step-IsOrdered k (closes s fd) h = closes-IsOrdered k s fd _ h

-- After any sequence of calls on the table of a new task, or on that of a clone, the table is well formed, and every descriptor below the hint
-- is taken, save 0 if the task was given its standard files.
pub Reach-IsOrdered : {k : ℕ} {t : Task} → Reach k t → IsOrdered k t
Reach-IsOrdered fresh = fresh_fds-IsOrdered
Reach-IsOrdered (stdio f) = install_init_stdio-IsOrdered f
Reach-IsOrdered (step r s) = step-IsOrdered _ s (Reach-IsOrdered r)
