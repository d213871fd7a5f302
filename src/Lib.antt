-- ===== src/Lib.antt =====
-- A model of the self-contained parts of RHKernel, a hobby x86-64 kernel in C and C++, and proofs
-- about them.
--
-- The C library of its user programs (libc/src):
--   Libc.Memory    memory as a byte at each address, and the moves and fills that the results are
--                  stated with;
--   Libc.Cpu       string.c: cpu_features and what it is made from. The cpuid and xgetbv instructions
--                  are a parameter; the static cache is state that is passed on;
--   Libc.Word      string.c: repeat_byte and has_zero_byte on 64-bit words;
--   Libc.Copy      string.c: memcpy, memmove and their SSE, AVX and word routines;
--   Libc.Fill      string.c: memset and its routines;
--   Libc.Scan      string.c: memchr and strnlen and their routines, with pmovmskb and ctz as
--                  functions on numbers;
--   Libc.Text      string.c: strings in memory, and strlen;
--   Libc.Compare   string.c: memcmp, strcmp, strncmp;
--   Libc.Build     string.c: strcpy, strncpy, strcat, strncat;
--   Libc.ByteSet   string.c: byte_set and byte_set_has, strspn, strcspn, strpbrk;
--   Libc.Last      string.c: strrchr;
--   Libc.Number    ctype.c: isspace; stdlib.c: parse_unsigned, strtoul, strtol, atoi, atol;
--   Libc.Print     stdio.c: vsnprintf and its helpers. The format and the buffer are two memories, as
--                  `restrict` has it, and va_arg takes the next of a list of 64-bit slots;
--   Libc.Search    stdlib.c: bsearch, with the caller's comparison as a parameter.
--
-- The file system in memory (module/tmpfs/src/tmpfs.c):
--   Tmpfs.Account  account and unaccount on the mount record;
--   Tmpfs.File     a file's page table: ensure_page_array, ensure_file_capacity, ensure_data_page,
--                  tmpfs_read, tmpfs_write and tmpfs_truncate. `State` is the node, its mount, the
--                  size that vfs_set_size last gave the vnode, and the number of requests that
--                  krealloc and kmalloc have had; a parameter says which of them are met;
--   Tmpfs.Tree     directories: find_child, alloc_node_len, free_node, tmpfs_finddir, tmpfs_readdir;
--                  Tmpfs.Tree.Calls has tmpfs_create, tmpfs_unlink and tmpfs_rename, and
--                  Tmpfs.Tree.Mounts the mounts. `Tree` is the nodes by their addresses; the shape of
--                  the links, in Tmpfs.Tree.Shape, lists the children of each directory, and
--                  Tmpfs.Tree.Below says when no node is below itself;
--   Tmpfs.Name     name_len_valid and name_valid;
--   Tmpfs.Options  parse_uint, parse_octal and parse_opts.
--
-- The kernel (impl/x86_64):
--   Kernel.Work    smp/workqueue.cpp, the work queue with its delayed works: queue, take_one, the
--                  sections of worker_main, queue_ready_delayed, kernel_queue_delayed_work and
--                  kernel_cancel_delayed_work. `State` is what the lock guards, and a section under
--                  the lock is one step; Kernel.Work.Runs has the runs of such steps;
--   Kernel.Fd      file/fd.cpp, the file descriptors of a task: the bitmap and its words, expand_table,
--                  the search of alloc_fd, and in Kernel.Fd.Calls alloc_fd, reserve_fd,
--                  release_reserved_fd and close_fd. `Task` is the four fields of scheduler::task that
--                  they use, `Store` the reference counts that tasks share. What kcalloc answers is a
--                  parameter. Kernel.Fd.Runs has the runs of such calls;
--   Kernel.Completion
--                  module/completion.cpp: the sections of kernel_completion_signal and
--                  kernel_completion_wait under the lock, and the reset, as steps. Of the scheduler
--                  the model sees which tasks are blocked and which calls of wake are due.
--
-- The keyboards (module/kbd_core/src/kbd_core.c):
--   Input          the rings of events, ring_push, ring_pop_one and the inner loop of reader_read;
--                  an event log in the theorems is the list of all that was pushed;
--   Input.Keys     the state of a keyboard: the bits of its keys and the modifiers;
--                  Input.Keys.Calls has kbd_handle_key, kbd_handle_scancode, kbd_generate_one_repeat, and what
--                  kbd_register and kbd_unregister do to a keyboard and the rings. The ticks are
--                  arguments, Input.Keys.Runs has the runs of calls, and Input.Keys.Codes the
--                  logs of their codes. The table of the devices,
--                  the opening of readers and their waiting are not modelled.
--
-- Conventions. Numbers are natural numbers; where an operation of the source wraps around, the model
-- takes the remainder. A pointer is an address, the null pointer of a result is `none`. An argument
-- `features` stands for the value of cpu_features(), which is the same in every call once the
-- first has been made. Loops that count down `n` run on that number as fuel; the loops that
-- run to a zero byte or to the end of a number take fuel, and their theorems hold for every fuel
-- above the number of bytes that they read. The doublings of a page table's and of a descriptor table's
-- capacity have 64 rounds, which reach every 64-bit number. A vector load and store is one move of its bytes.
-- Vector registers other than as moved bytes, and the alignment faults of vector
-- instructions, are not modelled.
--
-- Not modelled: the other file systems, the allocators, string searching and qsort, and the
-- kernel's scheduler, memory and virtual file system. Drivers, interrupts and start-up code are input and output on
-- the hardware.
pub mod Prelude
pub mod Libc
pub mod Tmpfs
pub mod Kernel
pub mod Input
