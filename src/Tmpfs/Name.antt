-- ===== src/Tmpfs/Name.antt =====
-- `name_len_valid` and `name_valid`: which names an entry may have.
pub mod Laws
use rhkernel.Prelude.{
  ℕ, zero, suc, ◌+◌, Bool, true, false, ◌&&◌, ◌||◌, ◌==◌, if◌then◌else◌, Option, none, some,
}
use rhkernel.Libc.Memory.{Memory}

abbrev pub tmpfs_name_max : ℕ
tmpfs_name_max = 255

-- `while (name[len])` with the return at a name that is too long or holds a slash; `none` is that return. The rounds
-- end at the maximum.
unfoldable pub name_loop : ℕ → Memory → ℕ → ℕ → Option ℕ
name_loop zero m name len = none
name_loop (suc rounds) m name len = elim (m (name + len) == 0) [
  | true ↦ some len
  | false ↦ elim (len == tmpfs_name_max || m (name + len) == 47) [
    | true ↦ none
    | false ↦ name_loop rounds m name (len + 1)
  ]
]

-- The names "", "." and "..".
unfoldable pub is_reserved : Memory → ℕ → ℕ → Bool
is_reserved m name len =
    len == 0 || ((len == 1 && m name == 46) || (len == 2 && (m name == 46 && m (name + 1) == 46)))

unfoldable pub checked_name : Memory → ℕ → Option ℕ → Option ℕ
checked_name m name none = none
checked_name m name (some len) = if is_reserved m name len then none else some len

-- `none` for the pointer is null, and for the result 0; else the length that `*len_out` gets.
unfoldable pub name_len_valid : Memory → Option ℕ → Option ℕ
name_len_valid m none = none
name_len_valid m (some name) = checked_name m name (name_loop (tmpfs_name_max + 1) m name 0)

unfoldable pub name_valid : Memory → Option ℕ → Bool
name_valid m name = elim (name_len_valid m name) [ none ↦ false | some len ↦ true ]
