-- ===== src/Libc/Memory.antt =====
-- Memory as the routines of libc/src/string.c see it: a byte at each address. An address is a plain number,
-- since no object of C reaches over the end of the address space.
pub mod Regions
use rhkernel.Prelude.{
  ℕ, zero, suc, ◌+◌, ◌-◌, ◌*◌, ◌/◌, ◌%◌, ◌^◌, Bool, ◌&&◌, leb, ltb, if◌then◌else◌,
}

abbrev pub Memory : Type 0
Memory = ℕ → ℕ

-- `a` is one of the `n` bytes from `d` on.
abbrev pub within : ℕ → ℕ → ℕ → Bool
within d n a = leb d a && ltb a (d + n)

-- `n` bytes read at `s`, then written at `d`.
unfoldable pub move : ℕ → ℕ → ℕ → Memory → Memory
move n d s m a = if within d n a then m (s + (a - d)) else m a

-- `n` bytes at `d` set to `c`.
unfoldable pub fill : ℕ → ℕ → ℕ → Memory → Memory
fill n d c m a = if within d n a then c else m a

-- The eight bytes of the word `w`, the lowest first.
unfoldable pub store_word : ℕ → ℕ → Memory → Memory
store_word d w m a = if within d 8 a then w / 256 ^ (a - d) % 256 else m a

-- The word whose bytes, the lowest first, are the `n` bytes at `p`.
unfoldable pub load_bytes : ℕ → ℕ → Memory → ℕ
load_bytes zero p m = 0
load_bytes (suc n) p m = m p + 256 * load_bytes n (p + 1) m
