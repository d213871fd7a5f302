-- ===== src/Kernel/Tests.antt =====
-- The theorems on smp/workqueue.cpp at concrete inputs, and small runs of the code.
use rhkernel.Prelude.{◌≡◌, refl, true, false, none, some, [], ◌∷◌, ◌++◌, arith}
use rhkernel.Prelude.Int.{pos}
use rhkernel.Kernel.Work.{
  Work, Delayed, State, Stats, queue, take_one, worker_section, queue_ready_delayed,
  kernel_queue_delayed_work, kernel_cancel_delayed_work, u64,
}
use rhkernel.Kernel.Work.Queue.{IsQueue, Taken, take_one-Taken}
use rhkernel.Kernel.Work.Enqueue.{answer, accepted, queue-IsQueue}
use rhkernel.Kernel.Work.Ready.{IsDelayed, ready, left, queue_ready_delayed-ready}
use rhkernel.Kernel.Work.Delays.{kernel_queue_delayed_work-insert_due}
use rhkernel.Kernel.Work.Cancel.{kernel_cancel_delayed_work-remove}

abbrev blank : State
blank = record {
  works = λ w. record { callable = true; next = none; flags = 0 };
  head = none;
  tail = none;
  delayed = λ d. record { next = none; due_tick = 0; flags = 0 };
  delayed_head = none;
  worker = none;
  timer = none;
  initialized = true;
  started = false;
  counters = record {
    queued = 0;
    completed = 0;
    rejected = 0;
    wakeups = 0;
    waits = 0;
    max_depth = 0;
    depth = 0;
    worker_pid = 0;
  };
}

blank-IsQueue : IsQueue blank []
blank-IsQueue = record {
  chain = refl;
  last = refl;
  listed = λ w. refl;
  distinct = tt;
  depth = refl;
}

blank-IsDelayed : IsDelayed blank []
unfolding rhkernel.Kernel.Work.read_link
blank-IsDelayed = record { chain = refl; listed = λ d. refl; distinct = tt }

queue-IsQueue_example :
    ((queue true (some 5) blank).1 ≡ answer blank 5)
    × IsQueue (queue true (some 5) blank).0 (accepted (answer blank 5) [] 5)
queue-IsQueue_example = queue-IsQueue true 5 blank [] blank-IsQueue (omega arith)

abbrev one_work : State
one_work = (queue true (some 5) blank).0

one_work-IsQueue : IsQueue one_work (5 ∷ [])
unfolding rhkernel.Kernel.Work.is_busy
one_work-IsQueue = queue-IsQueue_example.1

take_one-Taken_example : Taken one_work (5 ∷ []) (take_one one_work)
take_one-Taken_example = take_one-Taken one_work (5 ∷ []) one_work-IsQueue

kernel_queue_delayed_work-insert_due_example :
    ((kernel_queue_delayed_work 1 10 (some 7) 5 blank).1 ≡ pos 0)
    × IsQueue (kernel_queue_delayed_work 1 10 (some 7) 5 blank).0 []
    × IsDelayed (kernel_queue_delayed_work 1 10 (some 7) 5 blank).0 (7 ∷ [])
kernel_queue_delayed_work-insert_due_example =
    kernel_queue_delayed_work-insert_due 1 10 7 5 blank [] [] blank-IsQueue blank-IsDelayed
      (omega arith)

abbrev one_delayed : State
one_delayed = (kernel_queue_delayed_work 1 10 (some 7) 5 blank).0

queue_ready_delayed-ready_example :
    IsQueue (queue_ready_delayed 2 15 one_delayed) ([] ++ ready 15 one_delayed (7 ∷ []))
    × IsDelayed (queue_ready_delayed 2 15 one_delayed) (left 15 one_delayed (7 ∷ []))
queue_ready_delayed-ready_example =
    queue_ready_delayed-ready 2 15 one_delayed [] (7 ∷ [])
      kernel_queue_delayed_work-insert_due_example.1 kernel_queue_delayed_work-insert_due_example.2
      (omega arith) (omega arith)

kernel_cancel_delayed_work-remove_example :
    ((kernel_cancel_delayed_work 2 (some 7) one_delayed).1 ≡ pos 1)
    × IsQueue (kernel_cancel_delayed_work 2 (some 7) one_delayed).0 []
    × IsDelayed (kernel_cancel_delayed_work 2 (some 7) one_delayed).0 []
kernel_cancel_delayed_work-remove_example =
    kernel_cancel_delayed_work-remove 2 7 one_delayed [] (7 ∷ [])
      kernel_queue_delayed_work-insert_due_example.1 kernel_queue_delayed_work-insert_due_example.2
      (omega arith)
