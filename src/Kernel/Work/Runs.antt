-- ===== src/Kernel/Work/Runs.antt =====
-- Any order of calls, ticks and rounds of the worker.
use rhkernel.Prelude.{ℕ, suc, ◌+◌, ◌≤◌, ◌≡◌, Bool, some, List, length}
use rhkernel.Kernel.Work.{
  State, Work, queue, worker_section, complete_work, queue_ready_delayed, kernel_queue_delayed_work,
  kernel_cancel_delayed_work, work_running,
}
use rhkernel.Kernel.Work.Queue.{flags, IsQueue}
use rhkernel.Kernel.Work.Ready.{IsDelayed}

-- The works of some queue and some delayed list: what every state of a run has.
abbrev pub IsSound : State → Type 0
IsSound s = (xs : List ℕ) × (ds : List ℕ) × IsQueue s xs × IsDelayed s ds

-- At most `bound` works are queued or delayed.
abbrev pub Fits : ℕ → State → Type 0
Fits bound s = (xs ds : List ℕ) → IsQueue s xs → IsDelayed s ds → length xs + length ds ≤ bound

-- One section under the lock. A work is completed while it is marked as running.
pub data Step (bound : ℕ) (s : State) : State → Type 0 where
  queued : (woken : Bool) (w : ℕ) → Step bound s (queue woken (some w) s).0
  taken : Step bound s (worker_section s).0
  completed : (w : ℕ) → flags s w ≡ work_running → Step bound s (complete_work w s)
  ticked : (now : ℕ) → Step bound s (queue_ready_delayed (suc bound) now s)
  delayed :
      (ticks d delay : ℕ)
      → Step bound s (kernel_queue_delayed_work (suc bound) ticks (some d) delay s).0
  cancelled : (d : ℕ) → Step bound s (kernel_cancel_delayed_work (suc bound) (some d) s).0

pub data Reach (bound : ℕ) (s : State) : State → Type 0 where
  here : Reach bound s s
  next : {t u : State} → Reach bound s t → Fits bound t → Step bound t u → Reach bound s u
