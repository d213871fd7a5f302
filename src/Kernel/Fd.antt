-- ===== src/Kernel/Fd.antt =====
-- The file descriptors of a task, file/fd.cpp. `none` is a null pointer; an array is a function from its indices, and a
-- `vfs::open_file` is its address.

pub mod Bits
pub mod Calls
pub mod Expand
pub mod Grow
pub mod Scan
pub mod Alloc
pub mod Succeed
pub mod Release
pub mod Reserve
pub mod Close
pub mod Runs
mod Tests
pub mod Words
pub mod Shape
use rhkernel.Prelude.{
  ℕ, zero, suc, ◌+◌, ◌-◌, ◌*◌, ◌/◌, ◌%◌, ◌^◌, bit_and, bit_or, Bool, true, false, not, ◌&&◌, ◌||◌,
  ltb, leb, ◌==◌, if◌then◌else◌, Option, none, some, List, ◌∷◌, while,
}

-- The fields of `scheduler::task` that the descriptors use.
pub record Task : Type 0 where
  pub fd_table : Option (ℕ → Option ℕ)
  pub fd_bitmap : Option (ℕ → ℕ)
  pub fd_capacity : ℕ
  pub next_fd_hint : ℕ

-- What `kcalloc` answers to the two requests of `expand_table`: whether there is memory.
pub record Grants : Type 0 where
  pub table : Bool
  pub bitmap : Bool

-- INITIAL_FD_CAPACITY, FD_BITS_PER_WORD, UINT32_MAX and UINT64_MAX
abbrev pub initial_fd_capacity : ℕ
initial_fd_capacity = 8

abbrev pub fd_bits_per_word : ℕ
fd_bits_per_word = 64

abbrev pub uint32_max : ℕ
uint32_max = 4294967295

abbrev pub uint64_max : ℕ
uint64_max = 18446744073709551615

abbrev pub u64 : ℕ → ℕ
u64 n = n % 18446744073709551616

unfoldable pub fd_bitmap_words : ℕ → ℕ
fd_bitmap_words capacity = u64 (capacity + fd_bits_per_word - 1) / fd_bits_per_word

-- `bits[fd / 64] & (1ULL << (fd % 64))`, and the assignments that set and clear that bit.
unfoldable pub bit_test : (ℕ → ℕ) → ℕ → Bool
bit_test bits fd = not (bit_and (bits (fd / 64)) (2 ^ (fd % 64)) == 0)

unfoldable pub bit_set : ℕ → (ℕ → ℕ) → ℕ → ℕ
bit_set fd bits w = if w == fd / 64 then bit_or (bits w) (2 ^ (fd % 64)) else bits w

unfoldable pub bit_clear : ℕ → (ℕ → ℕ) → ℕ → ℕ
bit_clear fd bits w = if w == fd / 64 then bit_and (bits w) (uint64_max - 2 ^ (fd % 64)) else bits w

unfoldable pub fd_bit_get : Task → ℕ → Bool
fd_bit_get t fd = elim t.fd_bitmap [
  | none ↦ false
  | some bits ↦ ltb fd t.fd_capacity && bit_test bits fd
]

unfoldable pub fd_bit_set : ℕ → Task → Task
fd_bit_set fd t = elim t.fd_bitmap [
  | none ↦ t
  | some bits ↦ if ltb fd t.fd_capacity then record t { fd_bitmap = some (bit_set fd bits) } else t
]

unfoldable pub fd_bit_clear : ℕ → Task → Task
fd_bit_clear fd t = elim t.fd_bitmap [
  | none ↦ t
  | some bits ↦
      if ltb fd t.fd_capacity then record t { fd_bitmap = some (bit_clear fd bits) } else t
]

unfoldable pub fd_last_word_mask : ℕ → ℕ
fd_last_word_mask capacity =
    let used = capacity % fd_bits_per_word in if used == 0 then uint64_max else 2 ^ used - 1

-- `__builtin_ctzll` of the `fuel` lowest digits.
unfoldable pub trailing_zeros : ℕ → ℕ → ℕ
trailing_zeros zero x = 0
trailing_zeros (suc fuel) x = if x % 2 == 1 then 0 else suc (trailing_zeros fuel (x / 2))

-- `none` is -1.
unfoldable pub find_clear_bit : ℕ → Option ℕ
find_clear_bit word =
    let free_bits = uint64_max - word in
    if free_bits == 0 then none else some (trailing_zeros 64 free_bits)

-- `get_file` of a descriptor that is not negative.
unfoldable pub file_at : ℕ → Task → Option ℕ
file_at fd t = elim t.fd_table [
  | none ↦ none
  | some table ↦ if ltb fd t.fd_capacity then table fd else none
]

-- `while (new_cap < needed)` with its `break`, for at most `fuel` rounds.
unfoldable pub grown_capacity : ℕ → ℕ → ℕ → ℕ
grown_capacity zero needed cap = cap
grown_capacity (suc fuel) needed cap =
    let more = grown_capacity fuel needed (cap * 2) in
    if ltb cap needed then (if ltb (uint32_max / 2) cap then needed else more) else cap

-- The new table behind its `memcpy`.
unfoldable pub copied_table : ℕ → Option (ℕ → Option ℕ) → ℕ → Option ℕ
copied_table capacity none i = none
copied_table capacity (some table) i = if ltb i capacity then table i else none

-- `for (; i < capacity; i++) if (new_table[i]) new_bitmap[…] |= …`, for `rounds` values of `i`.
unfoldable pub mark_open : ℕ → ℕ → (ℕ → Option ℕ) → (ℕ → ℕ) → ℕ → ℕ
mark_open zero i table bits = bits
mark_open (suc rounds) i table bits =
    mark_open rounds (i + 1) table (elim (table i) [ none ↦ bits | some f ↦ bit_set i bits ])

-- The new bitmap behind its `memcpy` or the loop.
unfoldable pub copied_bitmap : ℕ → (ℕ → Option ℕ) → Option (ℕ → ℕ) → ℕ → ℕ
copied_bitmap capacity table none = mark_open capacity 0 table (λ w. 0)
copied_bitmap capacity table (some bits) =
    λ w. if ltb w (fd_bitmap_words capacity) then bits w else 0

-- The second half of `expand_table`, with both arrays granted.
unfoldable pub install_tables : ℕ → Task → Task
install_tables cap t =
    let table = copied_table t.fd_capacity t.fd_table in
    record {
      fd_table = some table;
      fd_bitmap = some (copied_bitmap t.fd_capacity table t.fd_bitmap);
      fd_capacity = cap;
      next_fd_hint = if ltb cap t.next_fd_hint then cap else t.next_fd_hint;
    }

abbrev pub is_some {ℓ} : {A : Type ℓ} → Option A → Bool
is_some none = false
is_some (some a) = true

unfoldable pub expand_table : Grants → ℕ → Task → Task × Bool
expand_table grants needed t =
    let start = if t.fd_capacity == 0 then initial_fd_capacity else t.fd_capacity in
    let cap = grown_capacity 64 needed start in
    if leb needed t.fd_capacity && is_some t.fd_table && is_some t.fd_bitmap
    then (t, true)
    else if ltb uint32_max cap || not grants.table || not grants.bitmap
    then (t, false)
    else (install_tables cap t, true)

-- A round of the inner loop of `alloc_fd`, at the word `w`: the descriptor it finds.
unfoldable pub scan_word : Task → (ℕ → ℕ) → ℕ → Option ℕ
scan_word t bits w =
    let masked =
      if w == fd_bitmap_words t.fd_capacity - 1
      then bit_or (bits w) (uint64_max - fd_last_word_mask t.fd_capacity)
      else bits w in
    if masked == uint64_max then none else elim (find_clear_bit masked) [
      | none ↦ none
      | some bit ↦
          let fd = w * fd_bits_per_word + bit in if leb t.fd_capacity fd then none else some fd
    ]

-- The inner loop, over `count` words from `w` on.
unfoldable pub scan_words : ℕ → Task → (ℕ → ℕ) → ℕ → Option ℕ
scan_words zero t bits w = none
scan_words (suc count) t bits w = elim (scan_word t bits w) [
  | none ↦ scan_words count t bits (w + 1)
  | some fd ↦ some fd
]

-- The two passes.
unfoldable pub scan_passes : Task → (ℕ → ℕ) → Option ℕ
scan_passes t bits =
    let start = t.next_fd_hint / fd_bits_per_word in
    elim (scan_words (fd_bitmap_words t.fd_capacity - start) t bits start) [
      | none ↦ scan_words start t bits 0
      | some fd ↦ some fd
    ]

-- `fd_bit_set(t, fd); t->next_fd_hint = fd + 1`
unfoldable pub take_fd : ℕ → Task → Task
take_fd fd t = record (fd_bit_set fd t) { next_fd_hint = u64 (fd + 1) }

-- The code of `alloc_fd` below the loops.
unfoldable pub alloc_grown : Grants → Task → Task × Option ℕ
alloc_grown grants t =
    let old = t.fd_capacity in
    let needed = if old == 0 then initial_fd_capacity else u64 (old + 1) in
    let grown = expand_table grants needed t in
    if ltb uint32_max needed
    then (t, none)
    else if grown.1
    then (take_fd old grown.0, some old)
    else (grown.0, none)

unfoldable pub clip_hint : Task → Task
clip_hint t = record t {
  next_fd_hint = if ltb t.fd_capacity t.next_fd_hint then t.fd_capacity else t.next_fd_hint;
}

-- The code of `alloc_fd` behind its first test. The loops are reached with a bitmap only.
unfoldable pub alloc_scan : Grants → Task → Task × Option ℕ
alloc_scan grants t = elim t.fd_bitmap [
  | none ↦ (t, none)
  | some bits ↦ elim (scan_passes t bits) [
    | none ↦ alloc_grown grants t
    | some fd ↦ (take_fd fd t, some fd)
  ]
]

-- A descriptor as a `uint64_t`; `none` is a `return -1`. The first grants are those of the first call of
-- `expand_table`, the others those of the second.
unfoldable pub alloc_unsigned : Grants → Grants → Task → Task × Option ℕ
alloc_unsigned first grants t =
    let ready = expand_table first initial_fd_capacity t in
    if ready.1 then alloc_scan grants (clip_hint ready.0) else (ready.0, none)
