-- ===== src/Kernel/Fd/Close.antt =====
-- `close_fd` keeps the reference counts of the files.
use rhkernel.Prelude.{
  ℕ, zero, suc, ◌+◌, ◌-◌, ◌<◌, ◌≡◌, refl, sym, ap, subst, ◌∙◌, Bool, true, false, ◌==◌, ltb,
  if◌then◌else◌, Option, none, some, List, ◌∷◌, arith, Bool-cases, Option-cases, inl, inr,
}
use rhkernel.Prelude.Int.{ℤ, pos, negsuc}
use rhkernel.Kernel.Fd.{Task, file_at}
use rhkernel.Kernel.Fd.Calls.{free_fd, set_file, Store, drop_reference, close_unsigned}
use rhkernel.Kernel.Fd.Shape.{IsTask}
use rhkernel.Kernel.Fd.Release.{
  Freed, free_fd-Freed, stored, set_file-stored, stored-file, stored-taken, stored-IsTask,
}

abbrev one : Option ℕ → ℕ → ℕ
one none g = 0
one (some f) g = if f == g then 1 else 0

-- The number of places below `n` that hold the file `g`.
abbrev pub count : ℕ → (ℕ → Option ℕ) → ℕ → ℕ
count zero a g = 0
count (suc n) a g = one (a n) g + count n a g

-- The number of descriptors of the task that refer to a file.
abbrev pub references : Task → ℕ → ℕ
references t g = count t.fd_capacity (λ j. file_at j t) g

-- Every count is that of the task's descriptors, and of the other references.
abbrev pub IsCounted : (ℕ → ℕ) → Task → Store → Type 0
IsCounted others t s = (g : ℕ) → s.ref_count g ≡ others g + references t g

pub count-update :
    (n : ℕ) (a b : ℕ → Option ℕ) (fd : ℕ) (o : Option ℕ) (g : ℕ)
    → ((j : ℕ) → b j ≡ (if j == fd then o else a j))
    → count n b g + (if ltb fd n then one (a fd) g else 0)
      ≡ count n a g + (if ltb fd n then one o g else 0)
count-update zero a b fd o g h = ground arith
count-update (suc n) a b fd o g h = elim (Bool-cases (n == fd)) [
  | inl q ↦
      let p : a n ≡ a fd = ap a (ground arith) in
      rw (h n, q, p) (ground (arith, count-update n a b fd o g h))
  | inr q ↦ rw (h n, q) (ground (arith, count-update n a b fd o g h))
]

-- An open file has a table and a descriptor below the capacity.
open_below : (t : Task) (fd f : ℕ) → file_at fd t ≡ some f → fd < t.fd_capacity
unfolding file_at
open_below t fd f o = elim (Option-cases t.fd_table) [
  | inl e ↦ absurd (ground (arith, e))
  | inr (table, e) ↦ elim (Bool-cases (ltb fd t.fd_capacity)) [
    | inl q ↦ ground arith
    | inr q ↦ absurd (ground (arith, e))
  ]
]

open_table :
    (t : Task) (fd f : ℕ)
    → file_at fd t ≡ some f
    → (table : ℕ → Option ℕ) × (t.fd_table ≡ some table)
unfolding file_at
open_table t fd f o = elim (Option-cases t.fd_table) [
  | inl e ↦ absurd (ground (arith, e))
  | inr x ↦ x
]

if_twice :
    (b : Bool) (o : Option ℕ)
    → (if b then none else if b then none else o) ≡ (if b then none else o)
if_twice true o = refl
if_twice false o = refl

-- The table behind `close_fd`.
pub closed_Freed :
    (t : Task) (fd f : ℕ)
    → IsTask t
    → file_at fd t ≡ some f
    → Freed fd t (free_fd fd (set_file fd none t))
closed_Freed t fd f h o =
    let x = open_table t fd f o in
    let l = open_below t fd f o in
    subst (λ t'. Freed fd t (free_fd fd t')) (sym (set_file-stored t x.0 x.1 fd l none))
      (from_stored x.0 x.1 l)
  where
    outside :
        (table : ℕ → Option ℕ) (e : t.fd_table ≡ some table) (l : fd < t.fd_capacity) (j : ℕ)
        → (if j == fd then none else file_at j (stored t table e fd l none))
          ≡ (if j == fd then none else file_at j t)
    outside table e l j = rw (stored-file t table e fd l none j) (if_twice (j == fd) (file_at j t))

    from_stored :
        (table : ℕ → Option ℕ) (e : t.fd_table ≡ some table) (l : fd < t.fd_capacity)
        → Freed fd t (free_fd fd (stored t table e fd l none))
    from_stored table e l =
        let t' = stored t table e fd l none in
        let h' : IsTask t' = stored-IsTask t table e fd l h none (λ g q. absurd cc) in
        let empty : file_at fd t' ≡ none = stored-file t table e fd l none fd ∙ (ground arith) in
        let r = free_fd-Freed t' h' fd l empty in
        record {
          shape = r.shape;
          same_capacity = r.same_capacity;
          only_freed = λ j. r.only_freed j ∙ stored-taken t table e fd l none j;
          same_file = λ j. r.same_file j ∙ outside table e l j;
          hint = r.hint;
        }

-- The files given back: `f`, exactly if nothing refers to it any more.
abbrev FreesLast : ℕ → ℕ → List ℕ → List ℕ → Type 0
FreesLast f zero old new = new ≡ f ∷ old
FreesLast f (suc n) old new = new ≡ old

-- The closed descriptor had one reference.
references-closed :
    (t t' : Task) (fd f : ℕ) (g : ℕ)
    → fd < t.fd_capacity
    → Freed fd t t'
    → file_at fd t ≡ some f
    → references t' g + one (some f) g ≡ references t g
references-closed t t' fd f g l r e =
    let k : ltb fd t.fd_capacity ≡ true = ground arith in
    ap (λ n. count n (λ j. file_at j t') g + one (some f) g) r.same_capacity
    ∙ moved (count t.fd_capacity (λ j. file_at j t') g) (references t g) (ltb fd t.fd_capacity)
        (file_at fd t) k e
        (count-update t.fd_capacity (λ j. file_at j t) (λ j. file_at j t') fd none g r.same_file)
  where
    moved :
        (x y : ℕ) (b : Bool) (o : Option ℕ)
        → b ≡ true
        → o ≡ some f
        → x + (if b then one o g else 0) ≡ y + (if b then 0 else 0)
        → x + one (some f) g ≡ y
    moved x y true (some f') k q u = ground arith
    moved x y true none k q u = absurd cc
    moved x y false o k q u = absurd cc

module _ (others : ℕ → ℕ) (s : Store) {t : Task} (c : IsCounted others t s) (t' : Task) (fd f : ℕ)
    (l : fd < t.fd_capacity) (r : Freed fd t t') (e : file_at fd t ≡ some f) where
  new_count : (if s.ref_count f == 0 then 0 else s.ref_count f - 1) ≡ others f + references t' f
  new_count =
      let d : references t' f + 1 ≡ references t f =
        ap (λ n. references t' f + n) (ground arith) ∙ references-closed t t' fd f f l r e in
      rw (c f) (ground arith)

  after-IsCounted : IsCounted others t' (drop_reference f s)
  unfolding drop_reference
  after-IsCounted g = elim (Bool-cases (g == f)) [
    | inl q ↦ rw q (new_count ∙ ap (λ x. others x + references t' x) (ground arith))
    | inr q ↦
        let d : references t' g ≡ references t g =
          last (references t' g) (references t g) (references-closed t t' fd f g l r e) q in
        rw (q, d) (c g)
  ]
    where
      last : (x y : ℕ) → x + one (some f) g ≡ y → (g == f) ≡ false → x ≡ y
      last x y u k = ground arith

  last_freed : FreesLast f (others f + references t' f) s.freed (drop_reference f s).freed
  unfolding drop_reference
  last_freed = rw new_count (by_count (others f + references t' f))
    where
      by_count : (n : ℕ) → FreesLast f n s.freed (if n == 0 then f ∷ s.freed else s.freed)
      by_count zero = refl
      by_count (suc n) = ground arith

abbrev pub Closed : (ℕ → ℕ) → ℕ → Task → Store → Option ℕ → Task × Store × ℤ → Type 0
Closed others fd t s none (t', s', r) = (t' ≡ t) × (s' ≡ s) × (r ≡ negsuc 0)
Closed others fd t s (some f) (t', s', r) =
    Freed fd t t'
    × IsCounted others t' s'
    × FreesLast f (others f + references t' f) s.freed s'.freed
    × (r ≡ pos 0)

-- `close_fd` takes the file from the descriptor, frees the descriptor, keeps the counts, and gives the file back exactly if it was the last reference.
pub close_unsigned-Closed :
    (others : ℕ → ℕ) (fd : ℕ) (t : Task) (s : Store)
    → IsTask t
    → IsCounted others t s
    → Closed others fd t s (file_at fd t) (close_unsigned fd t s)
unfolding close_unsigned
close_unsigned-Closed others fd t s h c = elim (Option-cases (file_at fd t)) [
  | inl e ↦ rw (close_unsigned, e) (refl, refl, refl)
  | inr (f, e) ↦
      let l = open_below t fd f e in
      let r = closed_Freed t fd f h e in
      rw (close_unsigned, e)
        (
          r,
          after-IsCounted others s c (free_fd fd (set_file fd none t)) fd f l r e,
          last_freed others s c (free_fd fd (set_file fd none t)) fd f l r e,
          refl,
        )
]
