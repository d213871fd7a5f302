-- ===== src/Kernel/Fd/Tests.antt =====
-- The theorems on file/fd.cpp at concrete inputs, and small runs of the code.
use rhkernel.Prelude.{ℕ, ◌≡◌, refl, true, none, some, [], arith, ◌==◌, if◌then◌else◌}
use rhkernel.Prelude.Int.{pos}
use rhkernel.Kernel.Fd.{Task, Grants, alloc_unsigned, file_at}
use rhkernel.Kernel.Fd.Calls.{alloc_fd, reserve_unsigned, set_file, Store, close_unsigned}
use rhkernel.Kernel.Fd.Shape.{IsTask, taken}
use rhkernel.Kernel.Fd.Alloc.{Allocated, Taken, alloc_unsigned-Allocated}
use rhkernel.Kernel.Fd.Succeed.{all_granted, alloc_fd-succeeds}
use rhkernel.Kernel.Fd.Reserve.{Reserved, reserve_unsigned-Reserved}
use rhkernel.Kernel.Fd.Close.{references, Closed, close_unsigned-Closed}
use rhkernel.Kernel.Fd.Runs.{fresh_fds, Step, Reach, IsOrdered, Reach-IsOrdered}

abbrev granted : Task
granted = (alloc_unsigned all_granted all_granted fresh_fds).0

granted-taken : taken granted 0 ≡ true
unfolding taken alloc_unsigned fresh_fds rhkernel.Kernel.Fd.expand_table
    rhkernel.Kernel.Fd.alloc_scan rhkernel.Kernel.Fd.scan_passes rhkernel.Kernel.Fd.scan_words
    rhkernel.Kernel.Fd.scan_word rhkernel.Kernel.Fd.fd_bitmap_words
    rhkernel.Kernel.Fd.fd_last_word_mask rhkernel.Kernel.Fd.find_clear_bit
    rhkernel.Kernel.Fd.trailing_zeros rhkernel.Kernel.Fd.take_fd rhkernel.Kernel.Fd.fd_bit_set
    rhkernel.Kernel.Fd.bit_set rhkernel.Kernel.Fd.bit_test rhkernel.Kernel.Fd.clip_hint
granted-taken = refl

abbrev with_file : Task
with_file = set_file 0 (some 7) granted

with_file-Reach : Reach 0 with_file
with_file-Reach =
    Reach.step (Reach.step Reach.fresh (Step.allocates all_granted all_granted))
      (Step.opened 0 7 granted-taken)

Reach-IsOrdered_example : IsOrdered 0 with_file
Reach-IsOrdered_example = Reach-IsOrdered with_file-Reach

fresh_fds-IsTask : IsTask fresh_fds
fresh_fds-IsTask = (Reach-IsOrdered Reach.fresh).0

alloc_unsigned-Allocated_example :
    Allocated fresh_fds (alloc_unsigned all_granted all_granted fresh_fds)
alloc_unsigned-Allocated_example =
    alloc_unsigned-Allocated all_granted all_granted fresh_fds fresh_fds-IsTask

alloc_fd-succeeds_example :
    (t' : Task) × (fd : ℕ) × (alloc_fd all_granted all_granted (some fresh_fds) ≡ (some t', pos fd))
    × Taken fd fresh_fds t'
unfolding fresh_fds
alloc_fd-succeeds_example = alloc_fd-succeeds fresh_fds fresh_fds-IsTask (omega arith)

reserve_unsigned-Reserved_example :
    Reserved 70 fresh_fds (reserve_unsigned all_granted 70 fresh_fds)
reserve_unsigned-Reserved_example =
    reserve_unsigned-Reserved all_granted 70 fresh_fds fresh_fds-IsTask (omega arith)

abbrev counts : Store
counts = record { ref_count = references with_file; freed = [] }

close_unsigned-Closed_example :
    Closed (λ g. 0) 0 with_file counts (file_at 0 with_file) (close_unsigned 0 with_file counts)
close_unsigned-Closed_example =
    close_unsigned-Closed (λ g. 0) 0 with_file counts (Reach-IsOrdered with_file-Reach).0
      (λ g. omega arith)

-- The eight descriptors of a new task are given one after the other, and then the table grows.
first_descriptor : (alloc_fd all_granted all_granted (some fresh_fds)).1 ≡ pos 0
unfolding alloc_fd taken alloc_unsigned fresh_fds rhkernel.Kernel.Fd.expand_table
    rhkernel.Kernel.Fd.alloc_scan rhkernel.Kernel.Fd.scan_passes rhkernel.Kernel.Fd.scan_words
    rhkernel.Kernel.Fd.scan_word rhkernel.Kernel.Fd.fd_bitmap_words
    rhkernel.Kernel.Fd.fd_last_word_mask rhkernel.Kernel.Fd.find_clear_bit
    rhkernel.Kernel.Fd.trailing_zeros rhkernel.Kernel.Fd.clip_hint
first_descriptor = refl

ninth_descriptor :
    (alloc_fd all_granted all_granted (
      some (record {
        fd_table = some (λ i. none);
        fd_bitmap = some (λ w. if w == 0 then 255 else 0);
        fd_capacity = 8;
        next_fd_hint = 3;
      }))).1
    ≡ pos 8
unfolding alloc_fd taken alloc_unsigned fresh_fds rhkernel.Kernel.Fd.expand_table
    rhkernel.Kernel.Fd.alloc_scan rhkernel.Kernel.Fd.scan_passes rhkernel.Kernel.Fd.scan_words
    rhkernel.Kernel.Fd.scan_word rhkernel.Kernel.Fd.fd_bitmap_words
    rhkernel.Kernel.Fd.fd_last_word_mask rhkernel.Kernel.Fd.find_clear_bit
    rhkernel.Kernel.Fd.trailing_zeros rhkernel.Kernel.Fd.alloc_grown
    rhkernel.Kernel.Fd.grown_capacity rhkernel.Kernel.Fd.clip_hint
ninth_descriptor = refl
