-- ===== src/Tmpfs/Tests.antt =====
-- The theorems on module/tmpfs/src/tmpfs.c at concrete inputs, and small runs of the code.
use rhkernel.Prelude.{
  ◌⊎◌, ℕ, zero, suc, ◌+◌, ◌-◌, ◌*◌, ◌/◌, ◌%◌, ◌^◌, ◌≤◌, ◌<◌, ◌≡◌, refl, Bool, true, false, ltb,
  ◌==◌, if◌then◌else◌, Option, none, some, arith,
}
use rhkernel.Libc.Memory.{Memory}
use rhkernel.Tmpfs.Account.{Mount, IsWithin, account}
use rhkernel.Tmpfs.File.{
  Node, State, page_size, put_page, grow_capacity, tmpfs_read, tmpfs_write, tmpfs_truncate,
}
use rhkernel.Tmpfs.File.Contents.{IsGood, content}
use rhkernel.Tmpfs.File.Read.{readable, tmpfs_read-content}
use rhkernel.Tmpfs.File.Ensure.{grow_capacity-enough}
use rhkernel.Tmpfs.File.Laws.{Written, tmpfs_write-Written}
use rhkernel.Tmpfs.File.Truncate.{Truncated, tmpfs_truncate-Truncated}
use rhkernel.Prelude.{[], inl}
use rhkernel.Tmpfs.Options.{parse_opts}
use rhkernel.Tmpfs.Options.Sizes.{HasUnit, parse_opts-size}

-- The bytes "ABC" and zeroes.
abbrev abc_page : Memory
abc_page i = if ltb i 3 then 65 + i else 0

abbrev abc_table : ℕ → Option Memory
abc_table i = if i == 0 then some abc_page else none

-- A file with the bytes "ABC", with room for four pages.
abbrev abc_file : Node
abc_file = record { is_file = true; size = 3; pages = abc_table; page_count = 1; page_capacity = 4 }

abc_file-IsGood : IsGood abc_file
unfolding content
abc_file-IsGood = record {
  counted = omega arith;
  covered = omega arith;
  none_above = λ i h. ground arith;
  zero_above = λ a h. ground arith;
}

abbrev two_pages : Mount
two_pages = record {
  limit = 8192;
  used = 4096;
  next_ino = 3;
  enforce_limit = true;
  default_mode = 420;
}

abbrev abc_state : State
abc_state = record { node = abc_file; mount = two_pages; vnode_size = 3; asked = 0 }

abbrev numbers : Memory
numbers a = a % 256

abbrev always : ℕ → Bool
always k = true

two_pages-IsWithin : IsWithin two_pages
two_pages-IsWithin = record { limit_fits = omega arith; kept = λ e. omega arith }

tmpfs_read-content_example :
    (out : Memory) × (tmpfs_read abc_file 1 9 (some numbers) ≡ (readable abc_file 1 9, some out))
    × ((i : ℕ)
        → out i ≡ (if ltb i (readable abc_file 1 9) then content abc_file (1 + i) else numbers i))
tmpfs_read-content_example = tmpfs_read-content abc_file 1 9 numbers refl

tmpfs_write-Written_example :
    Written abc_state 4090 10 numbers (tmpfs_write always abc_state 4090 10 (some numbers))
tmpfs_write-Written_example = tmpfs_write-Written always abc_state 4090 10 numbers abc_file-IsGood

tmpfs_truncate-Truncated_example : Truncated abc_state 2 (tmpfs_truncate always abc_state 2)
tmpfs_truncate-Truncated_example = tmpfs_truncate-Truncated always abc_state 2 abc_file-IsGood

grow_capacity-enough_example :
    (c : ℕ) × (grow_capacity 64 9 4 ≡ some c) × (9 ≤ c) × (c < 2 * 9 ⊎ c ≡ 4)
grow_capacity-enough_example = grow_capacity-enough 9 4 (omega arith) (omega arith)

write_two_pages : (tmpfs_write always abc_state 4090 10 (some numbers)).1 ≡ 10
unfolding tmpfs_write rhkernel.Tmpfs.File.ensure_file_capacity rhkernel.Tmpfs.File.count_pages
    rhkernel.Tmpfs.File.ensure_page_array rhkernel.Tmpfs.File.record_size
    rhkernel.Tmpfs.File.write_loop rhkernel.Prelude.return_while rhkernel.Tmpfs.File.write_round
    rhkernel.Tmpfs.File.after_page rhkernel.Tmpfs.File.ensure_data_page
    rhkernel.Tmpfs.File.allocate_page rhkernel.Tmpfs.File.fill_entry rhkernel.Tmpfs.File.store_part
    put_page account
write_two_pages = refl

write_over_limit : (tmpfs_write always abc_state 4090 8000 (some numbers)).1 ≡ 4102
unfolding tmpfs_write rhkernel.Tmpfs.File.ensure_file_capacity rhkernel.Tmpfs.File.count_pages
    rhkernel.Tmpfs.File.ensure_page_array rhkernel.Tmpfs.File.record_size
    rhkernel.Tmpfs.File.write_loop rhkernel.Prelude.return_while rhkernel.Tmpfs.File.write_round
    rhkernel.Tmpfs.File.after_page rhkernel.Tmpfs.File.ensure_data_page
    rhkernel.Tmpfs.File.allocate_page rhkernel.Tmpfs.File.fill_entry rhkernel.Tmpfs.File.store_part
    put_page account
write_over_limit = refl

-- "size=8M" at 0.
abbrev size_text : Memory
size_text i =
    if i == 0
    then 115
    else if i == 1
    then 105
    else if i == 2
    then 122
    else if i == 3
    then 101
    else if i == 4
    then 61
    else if i == 5
    then 56
    else if i == 6
    then 77
    else 0

parse_opts-size_example :
    parse_opts 9 size_text (some 0) two_pages
    ≡ some (record two_pages { limit = 8388608; default_mode = 420 })
unfolding rhkernel.Tmpfs.Options.same_start rhkernel.Libc.Number.digit_below
    rhkernel.Libc.Number.Runs.value_from rhkernel.Libc.Number.digit_value
parse_opts-size_example =
    parse_opts-size size_text 0 7 20 1 8 [] (omega arith) refl (refl, refl)
      (HasUnit.mega (inl refl)) (omega arith) 9 (omega arith) (λ i l. ground arith) refl
      (omega arith) two_pages
