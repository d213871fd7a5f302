-- ===== src/Tmpfs/File/Contents.antt =====
-- A file as the byte at each offset, with 0 where there is no page.
use rhkernel.Prelude.{ℕ, ◌*◌, ◌/◌, ◌%◌, ◌≤◌, ◌≡◌, ltb, if◌then◌else◌, Option, none, some}
use rhkernel.Libc.Memory.{Memory}
use rhkernel.Tmpfs.File.{Node, page_size}

abbrev pub page_at : Node → ℕ → Option Memory
page_at n i = if ltb i n.page_capacity then n.pages i else none

abbrev pub byte_of : Option Memory → ℕ → ℕ
byte_of none i = 0
byte_of (some p) i = p i

-- The byte at an offset.
unfoldable pub content : Node → ℕ → ℕ
content n a = byte_of (page_at n (a / page_size)) (a % page_size)

-- The size lies within the pages that are counted, only those may be there, and bytes above the size are 0.
pub record IsGood (n : Node) : Type 0 where
  pub counted : n.page_count ≤ n.page_capacity
  pub covered : n.size ≤ n.page_count * page_size
  pub none_above : (i : ℕ) → n.page_count ≤ i → page_at n i ≡ none
  pub zero_above : (a : ℕ) → n.size ≤ a → content n a ≡ 0
