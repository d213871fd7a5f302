-- ===== src/Kernel/Completion.antt =====
-- Completions, module/completion.cpp. Each section under the lock is one step; of the scheduler only the tasks that are
-- blocked and the calls of `wake` that are due are seen.
pub mod Runs
mod Tests
use rhkernel.Prelude.{
  ℕ, zero, suc, Bool, true, false, not, ◌==◌, if◌then◌else◌, Option, none, some, List, [], ◌∷◌,
  Round, next, leave,
}
use rhkernel.Prelude.Int.{ℤ, pos, negsuc}

-- `struct kernel_completion`; a task is its address.
pub record Completion : Type 0 where
  pub done : Bool
  pub waiter : Option ℕ

pub record World : Type 0 where
  pub completion : Completion
  pub blocked : ℕ → Bool
  pub wakes : List ℕ

unfoldable pub kernel_completion_init : Bool → Completion
kernel_completion_init done = record { done = done; waiter = none }

unfoldable pub kernel_completion_reset : World → World
kernel_completion_reset s = record s { completion = record { done = false; waiter = none } }

-- `kernel_completion_signal` up to the release of the lock; the task that it took out is still to be woken.
unfoldable pub kernel_completion_signal : World → World
kernel_completion_signal s = record s {
  completion = record { done = true; waiter = none };
  wakes = elim s.completion.waiter [ none ↦ s.wakes | some task ↦ task ∷ s.wakes ];
}

-- `scheduler::wake(waiter)` of the signal that is the first of those that are due.
unfoldable pub wake_next : World → World
wake_next s = elim s.wakes [
  | [] ↦ s
  | task ∷ rest ↦ record s { wakes = rest; blocked = λ t. if t == task then false else s.blocked t }
]

-- A round of the loop of `kernel_completion_wait`: `leave` is a return, `next` a task that blocks. `none` is a processor
-- without a task that can block.
unfoldable pub wait_round : Option ℕ → World → Round World (World × ℤ)
wait_round current s =
    let taken = record s { completion = record { done = false; waiter = none } } in
    if s.completion.done then leave (taken, pos 0) else elim current [
      | none ↦ leave (s, negsuc 1)
      | some task ↦ next (record s {
        completion = record s.completion { waiter = some task };
        blocked = λ t. if t == task then true else s.blocked t;
      })
    ]

-- The state behind a round.
abbrev pub behind : Round World (World × ℤ) → World
behind (next s) = s
behind (leave (s, r)) = s
