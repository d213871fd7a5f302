-- ===== src/Tmpfs/File.antt =====
-- The pages of a file: `ensure_page_array` to `tmpfs_truncate`. The answers of the kernel's allocator are a parameter:
-- `grant k` says whether its request number `k` is met, and `asked` counts the requests.
pub mod Contents
pub mod Read
pub mod Ensure
pub mod Write
pub mod Laws
pub mod Cut
pub mod Truncate
use rhkernel.Prelude.{
  ℕ, zero, suc, ◌+◌, ◌-◌, ◌*◌, ◌/◌, ◌%◌, ◌^◌, min, Bool, true, false, not, ◌&&◌, ◌||◌, leb, ltb,
  ◌==◌, if◌then◌else◌, Option, none, some, while, Round, next, leave, return_while,
}
use rhkernel.Libc.Memory.{Memory, within, fill}
use rhkernel.Tmpfs.Account.{Mount, u64, account, unaccount}

abbrev pub page_size : ℕ
page_size = 4096

abbrev pub uint64_max : ℕ
uint64_max = 2 ^ 64 - 1

-- The fields of `struct tmpfs_node` that a regular file uses. Of `pages` only the entries below `page_capacity` exist;
-- `none` is a null entry.
pub record Node : Type 0 where
  pub is_file : Bool
  pub size : ℕ
  pub pages : ℕ → Option Memory
  pub page_count : ℕ
  pub page_capacity : ℕ

-- A file, its mount, the size that its vnode shows, and the allocator's counter.
pub record State : Type 0 where
  pub node : Node
  pub mount : Mount
  pub vnode_size : ℕ
  pub asked : ℕ

-- `while (cap < pages) { if (cap > UINT64_MAX / 2) return -1; cap *= 2; }`
unfoldable pub grow_capacity : ℕ → ℕ → ℕ → Option ℕ
grow_capacity zero pages cap = none
grow_capacity (suc fuel) pages cap =
    let more = grow_capacity fuel pages (cap * 2) in
    if leb pages cap then some cap else if ltb (uint64_max / 2) cap then none else more

unfoldable pub no_pages_from : ℕ → ℕ → (ℕ → Option Memory) → ℕ → Option Memory
no_pages_from from cap pages i = if leb from i && ltb i cap then none else pages i

unfoldable pub put_page : ℕ → Option Memory → (ℕ → Option Memory) → ℕ → Option Memory
put_page page p pages i = if i == page then p else pages i

-- `memcpy` from one array to another: `n` bytes at `s` of `from` to `d`.
unfoldable pub copy_part : ℕ → ℕ → ℕ → Memory → Memory → Memory
copy_part n d s from to a = if within d n a then from (s + (a - d)) else to a

-- The bytes of a page, or zeroes if there is none.
unfoldable pub read_part : Option Memory → ℕ → ℕ → ℕ → Memory → Memory
read_part none take done at buf = fill take done 0 buf
read_part (some p) take done at buf = copy_part take done at p buf

-- A round of the loop of `tmpfs_read`, with `done` and the buffer.
unfoldable pub read_round : Node → ℕ → ℕ → ℕ × Memory → ℕ × Memory
read_round n off size (done, buf) =
    let at = off + done in
    let take = min (page_size - at % page_size) (size - done) in
    (
      done + take,
      read_part (if ltb (at / page_size) n.page_capacity then n.pages (at / page_size) else none)
          take done (at % page_size) buf,
    )

-- `while (done < size)`
unfoldable pub read_loop : Node → ℕ → ℕ → Memory → ℕ × Memory
read_loop n off size buf = while (suc size) (λ x. ltb x.0 size) (read_round n off size) (0, buf)

abbrev some_buffer : ℕ × Memory → ℕ × Option Memory
some_buffer (done, out) = (done, some out)

-- The number of bytes read, and the buffer afterwards; `none` is a null buffer.
unfoldable pub tmpfs_read : Node → ℕ → ℕ → Option Memory → ℕ × Option Memory
tmpfs_read n off size none = (0, none)
tmpfs_read n off size (some buf) =
    if not n.is_file || leb n.size off
    then (0, some buf)
    else some_buffer (read_loop n off (min size (n.size - off)) buf)

-- `memcpy(n->pages[page] + in, buf + done, take)`
unfoldable pub store_part : State → ℕ → ℕ → ℕ → ℕ → Memory → State
store_part s page at take done buf = elim (s.node.pages page) [
  | none ↦ s
  | some p ↦ record s {
    node = record s.node {
      pages = put_page page (some (copy_part take at done buf p)) s.node.pages;
    };
  }
]

-- A round of the loop of `tmpfs_write`, with `done`, below `ensure_data_page`: a page that cannot be had ends it.
unfoldable pub after_page : ℕ → ℕ → Memory → ℕ → State × Bool → Round (State × ℕ) (State × ℕ)
after_page off size buf done (t, false) = leave (t, done)
after_page off size buf done (t, true) =
    let at = off + done in
    let take = min (page_size - at % page_size) (size - done) in
    next (store_part t (at / page_size) (at % page_size) take done buf, done + take)

-- The end of `tmpfs_write`.
unfoldable pub record_size : ℕ → State × ℕ → State × ℕ
record_size off (s, done) =
    if ltb s.node.size (off + done)
    then (record s { node = record s.node { size = off + done }; vnode_size = off + done }, done)
    else (s, done)

-- A round of the loop of `tmpfs_truncate` that frees the pages from `keep` on.
unfoldable pub free_page : ℕ → State → State
free_page i s = elim (s.node.pages i) [
  | none ↦ s
  | some p ↦ record s {
    node = record s.node { pages = put_page i none s.node.pages };
    mount = unaccount s.mount page_size;
  }
]

-- The loop, with the rounds left.
unfoldable pub free_pages : ℕ → ℕ → State → State
free_pages zero i s = s
free_pages (suc rounds) i s = free_pages rounds (i + 1) (free_page i s)

-- `memset(n->pages[page] + tail, 0, TMPFS_PAGE_SIZE - tail)`, if there is such a page.
unfoldable pub clear_tail : ℕ → ℕ → State → State
clear_tail page tail s = elim (s.node.pages page) [
  | none ↦ s
  | some p ↦ record s {
    node = record s.node {
      pages = put_page page (some (fill (page_size - tail) tail 0 p)) s.node.pages;
    };
  }
]

-- The part of `tmpfs_truncate` below its checks.
unfoldable pub cut_to : ℕ → State → State
cut_to size s =
    let keep = if size == 0 then 0 else (size + (page_size - 1)) / page_size in
    let freed = free_pages (s.node.page_count - keep) keep s in
    let tail = size % page_size in
    let cleared =
      if not (keep == 0) && not (tail == 0) then clear_tail (keep - 1) tail freed else freed in
    record cleared {
      node = record cleared.node { page_count = keep; size = size };
      vnode_size = size;
    }

-- `if (pages > n->page_count) n->page_count = pages; return 0`, if the table has been had.
unfoldable pub count_pages : ℕ → State × Bool → State × Bool
count_pages pages (t, false) = (t, false)
count_pages pages (t, true) = (
  record t {
    node = record t.node {
      page_count = if ltb t.node.page_count pages then pages else t.node.page_count;
    };
  },
  true,
)

module _ (grant : ℕ → Bool) where
  -- The results 0 and -1 are `true` and `false`.
  unfoldable pub with_capacity : State → Option ℕ → State × Bool
  with_capacity s none = (s, false)
  with_capacity s (some cap) =
      if ltb (uint64_max / 8) cap
      then (s, false)
      else if grant s.asked
      then (
        record s {
          node = record s.node {
            pages = no_pages_from s.node.page_capacity cap s.node.pages;
            page_capacity = cap;
          };
          asked = suc s.asked;
        },
        true,
      )
      else (record s { asked = suc s.asked }, false)

  -- 64 doublings reach every 64-bit number.
  unfoldable pub ensure_page_array : State → ℕ → State × Bool
  ensure_page_array s pages =
      if leb pages s.node.page_capacity
      then (s, true)
      else with_capacity s
          (grow_capacity 64 pages (if s.node.page_capacity == 0 then 4 else s.node.page_capacity))

  unfoldable pub ensure_file_capacity : State → ℕ → State × Bool
  ensure_file_capacity s end =
      if ltb (uint64_max - (page_size - 1)) end
      then (s, false)
      else let pages = (end + (page_size - 1)) / page_size in
        count_pages pages (ensure_page_array s pages)

  -- The part of `ensure_data_page` below the two capacity tests, for the entry of the page and the accounted mount.
  unfoldable pub fill_entry : State → ℕ → Option Memory → Option Mount → State × Bool
  fill_entry s page (some p) charged = (s, true)
  fill_entry s page none none = (s, false)
  fill_entry s page none (some m) =
      if grant s.asked
      then (
        record s {
          node = record s.node { pages = put_page page (some (λ _. 0)) s.node.pages };
          mount = m;
          asked = suc s.asked;
        },
        true,
      )
      else (record s { mount = unaccount m page_size; asked = suc s.asked }, false)

  unfoldable pub allocate_page : State → ℕ → State × Bool
  allocate_page s page = fill_entry s page (s.node.pages page) (account s.mount page_size)

  unfoldable pub ensure_data_page : State → ℕ → State × Bool
  ensure_data_page s page =
      if ltb (uint64_max / page_size - 1) page
      then (s, false)
      else if leb s.node.page_capacity page
      then (let (t, done) = ensure_file_capacity s ((page + 1) * page_size) in
          if done then allocate_page t page else (t, false))
      else allocate_page s page

  unfoldable pub write_round : ℕ → ℕ → Memory → State × ℕ → Round (State × ℕ) (State × ℕ)
  write_round off size buf (s, done) =
      after_page off size buf done (ensure_data_page s ((off + done) / page_size))

  unfoldable pub write_loop : ℕ → ℕ → Memory → State → State × ℕ
  write_loop off size buf s =
      elim (return_while (suc size) (λ x. ltb x.1 size) (write_round off size buf) (s, 0)) [
        | next x ↦ x
        | leave x ↦ x
      ]

  -- The number of bytes written; a node that is no file, or no buffer, gives 0.
  unfoldable pub tmpfs_write : State → ℕ → ℕ → Option Memory → State × ℕ
  tmpfs_write s off size none = (s, 0)
  tmpfs_write s off size (some buf) =
      if not s.node.is_file || (not (size == 0) && ltb (uint64_max - size) off)
      then (s, 0)
      else let (t, fine) = ensure_file_capacity s (off + size) in
        if fine then record_size off (write_loop off size buf t) else (t, 0)

  unfoldable pub tmpfs_truncate : State → ℕ → State × Bool
  tmpfs_truncate s size =
      if not s.node.is_file || ltb (uint64_max - (page_size - 1)) size
      then (s, false)
      else let (t, fine) =
          if ltb s.node.size size then ensure_file_capacity s size else (s, true) in
        if fine then (cut_to size t, true) else (t, false)
