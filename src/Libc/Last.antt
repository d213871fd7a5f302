-- ===== src/Libc/Last.antt =====
-- `strrchr` of libc/src/string.c.
pub mod Laws
use rhkernel.Prelude.{ℕ, zero, suc, ◌+◌, ◌%◌, true, false, ◌==◌, if◌then◌else◌, Option, none, some}
use rhkernel.Libc.Memory.{Memory}

-- `do { if (*s == ch) last = s; } while (*s++)`, for at most `fuel` rounds.
unfoldable pub last_loop : ℕ → ℕ → Memory → ℕ → Option ℕ → Option ℕ
last_loop zero ch m s last = last
last_loop (suc fuel) ch m s last = elim (m s == 0) [
  | true ↦ if m s == ch then some s else last
  | false ↦ last_loop fuel ch m (s + 1) (if m s == ch then some s else last)
]

unfoldable pub strrchr : ℕ → ℕ → ℕ → Memory → Option ℕ
strrchr fuel s c m = last_loop fuel (c % 256) m s none
