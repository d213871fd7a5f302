-- ===== src/Kernel/Fd/Calls.antt =====
-- The calls of file/fd.cpp, with their `int` descriptors and the test of a null task. `close_fd` counts the references of
-- the files, which tasks share, in a store of its own.
use rhkernel.Prelude.{
  ℕ, suc, ◌+◌, ◌-◌, ◌%◌, Bool, true, false, ◌&&◌, ltb, ◌==◌, if◌then◌else◌, Option, none, some,
  List, ◌∷◌, while,
}
use rhkernel.Prelude.Int.{ℤ, pos, negsuc}
use rhkernel.Kernel.Fd.{
  Task, Grants, uint32_max, u64, fd_bit_get, fd_bit_set, fd_bit_clear, file_at, expand_table,
  alloc_unsigned,
}

-- `none` is a null pointer.
unfoldable pub get_file : ℤ → Option Task → Option ℕ
get_file (pos fd) (some t) = file_at fd t
get_file (negsuc n) (some t) = none
get_file fd none = none

-- `(int)fd`
abbrev pub to_int : ℕ → ℤ
to_int n =
    if ltb (n % 4294967296) 2147483648
    then pos (n % 4294967296)
    else negsuc (uint32_max - n % 4294967296)

abbrev pub as_result : Task × Option ℕ → Option Task × ℤ
as_result (t, none) = (some t, negsuc 0)
as_result (t, some fd) = (some t, to_int fd)

unfoldable pub alloc_fd : Grants → Grants → Option Task → Option Task × ℤ
alloc_fd first grants none = (none, negsuc 0)
alloc_fd first grants (some t) = as_result (alloc_unsigned first grants t)

-- `while (hint < capacity && fd_bit_get(t, hint)) hint++`
unfoldable pub skip_taken : Task → ℕ
skip_taken t =
    while (suc t.fd_capacity) (λ h. ltb h t.fd_capacity && fd_bit_get t h) (λ h. u64 (h + 1))
      t.next_fd_hint

-- The code of `reserve_fd` behind `expand_table`.
unfoldable pub mark_reserved : ℕ → Task → Task
mark_reserved fd t =
    let marked = fd_bit_set fd t in
    if fd == marked.next_fd_hint then record marked { next_fd_hint = skip_taken marked } else marked

unfoldable pub reserve_unsigned : Grants → ℕ → Task → Task × Bool
reserve_unsigned grants fd t =
    let ready = expand_table grants (fd + 1) t in
    if fd == 2147483647
    then (t, false)
    else if ready.1
    then (mark_reserved fd ready.0, true)
    else (ready.0, false)

abbrev pub with_task {ℓ} : {A : Type ℓ} → Task × A → Option Task × A
with_task (t, a) = (some t, a)

unfoldable pub reserve_fd : Grants → ℤ → Option Task → Option Task × Bool
reserve_fd grants (pos fd) (some t) = with_task (reserve_unsigned grants fd t)
reserve_fd grants (negsuc n) (some t) = (some t, false)
reserve_fd grants fd none = (none, false)

-- `fd_bit_clear(t, fd); if (fd < t->next_fd_hint) t->next_fd_hint = fd`
unfoldable pub free_fd : ℕ → Task → Task
free_fd fd t =
    let cleared = fd_bit_clear fd t in
    if ltb fd cleared.next_fd_hint then record cleared { next_fd_hint = fd } else cleared

unfoldable pub release_unsigned : ℕ → Task → Task
release_unsigned fd t =
    if ltb fd t.fd_capacity then elim (file_at fd t) [ none ↦ free_fd fd t | some f ↦ t ] else t

unfoldable pub release_reserved_fd : ℤ → Option Task → Option Task
release_reserved_fd (pos fd) (some t) = some (release_unsigned fd t)
release_reserved_fd (negsuc n) (some t) = some t
release_reserved_fd fd none = none

-- `t->fd_table[fd] = file`, for an `fd` below the capacity.
unfoldable pub set_file : ℕ → Option ℕ → Task → Task
set_file fd f t = elim t.fd_table [
  | none ↦ t
  | some table ↦ record t { fd_table = some (λ i. if i == fd then f else table i) }
]

-- The reference counts of the files, and the files that have been given back, the latest first.
pub record Store : Type 0 where
  pub ref_count : ℕ → ℕ
  pub freed : List ℕ

-- The section under the lock of the file, and `devfs_close_file`, `put_node` and `kfree` behind it.
unfoldable pub drop_reference : ℕ → Store → Store
drop_reference f s =
    let count = if s.ref_count f == 0 then 0 else s.ref_count f - 1 in
    record {
      ref_count = λ i. if i == f then count else s.ref_count i;
      freed = if count == 0 then f ∷ s.freed else s.freed;
    }

unfoldable pub close_unsigned : ℕ → Task → Store → Task × Store × ℤ
close_unsigned fd t s = elim (file_at fd t) [
  | none ↦ (t, s, negsuc 0)
  | some f ↦ (free_fd fd (set_file fd none t), drop_reference f s, pos 0)
]

abbrev pub with_store : Task × Store × ℤ → Option Task × Store × ℤ
with_store (t, s, r) = (some t, s, r)

unfoldable pub close_fd : ℤ → Option Task → Store → Option Task × Store × ℤ
close_fd (pos fd) (some t) s = with_store (close_unsigned fd t s)
close_fd (negsuc n) (some t) s = (some t, s, negsuc 0)
close_fd fd none s = (none, s, negsuc 0)
