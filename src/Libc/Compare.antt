-- ===== src/Libc/Compare.antt =====
-- `memcmp`, `strcmp` and `strncmp` of libc/src/string.c. The result is the difference of two bytes, an `int`.
pub mod Blocks
pub mod Texts
use rhkernel.Prelude.{
  ℕ, zero, suc, ◌+◌, ◌-◌, Bool, true, not, ◌&&◌, ◌||◌, leb, ◌==◌, if◌then◌else◌, while, Round, next,
  leave, return_while, and_then, then_loop,
}
use rhkernel.Prelude.Int.{ℤ, pos, sub_ℕ}
use rhkernel.Libc.Memory.{Memory, load_bytes}
use rhkernel.Libc.Copy.{word_bytes, unaligned, same_alignment}

-- The variables x, y and n.
pub record Comparing : Type 0 where
  pub x : ℕ
  pub y : ℕ
  pub left : ℕ

abbrev pub advance_both : ℕ → Comparing → Comparing
advance_both k c = record { x = c.x + k; y = c.y + k; left = c.left - k }

-- `if (*x != *y) return (int)*x - (int)*y; x++; y++; n--`
unfoldable pub compare_byte : Memory → Comparing → Round Comparing ℤ
compare_byte m c = if m c.x == m c.y then next (advance_both 1 c) else leave (sub_ℕ (m c.x) (m c.y))

unfoldable pub compare_to_word : Memory → Comparing → Round Comparing ℤ
unfolding return_while
compare_to_word m c =
    return_while (suc c.left) (λ k. leb 1 k.left && unaligned word_bytes k.x) (compare_byte m) c

-- `while (n >= WORD_BYTES) { if (wx != wy) break; … }`
unfoldable pub skip_equal_words : Memory → Comparing → Comparing
unfolding while
skip_equal_words m c =
    while (suc c.left) (λ k. leb word_bytes k.left && (load_bytes 8 k.x m == load_bytes 8 k.y m))
      (advance_both word_bytes) c

unfoldable pub compare_bytes : Memory → Comparing → Round Comparing ℤ
unfolding return_while
compare_bytes m c = return_while (suc c.left) (λ k. leb 1 k.left) (compare_byte m) c

-- The part of `memcmp` above its last loop.
unfoldable pub compare_words : Memory → Comparing → Round Comparing ℤ
compare_words m c =
    if leb word_bytes c.left && same_alignment c.x c.y
    then then_loop (compare_to_word m c) (λ k. next (skip_equal_words m k))
    else next c

unfoldable pub memcmp : ℕ → ℕ → ℕ → Memory → ℤ
memcmp a b n m =
    and_then (then_loop (compare_words m (record { x = a; y = b; left = n })) (compare_bytes m))
      (λ _. pos 0)

-- The loop does not count: `fuel` bounds its rounds.
unfoldable pub strcmp : ℕ → ℕ → ℕ → Memory → ℤ
strcmp zero a b m = sub_ℕ (m a) (m b)
strcmp (suc fuel) a b m =
    let rest = strcmp fuel (a + 1) (b + 1) m in
    if not (m a == 0) && (m a == m b) then rest else sub_ℕ (m a) (m b)

-- `for (i = 0; i < n; i++)`, with the rounds left.
unfoldable pub strncmp : ℕ → ℕ → ℕ → Memory → ℤ
strncmp a b zero m = pos 0
strncmp a b (suc n) m =
    let rest = strncmp (a + 1) (b + 1) n m in
    if not (m a == m b) || (m a == 0) then sub_ℕ (m a) (m b) else rest
