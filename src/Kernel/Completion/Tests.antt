-- ===== src/Kernel/Completion/Tests.antt =====
-- The theorems on module/completion.cpp at a concrete run.
use rhkernel.Prelude.{◌≡◌, refl, true, false, some, none, leave}
use rhkernel.Prelude.Int.{pos}
use rhkernel.Kernel.Completion.{World, kernel_completion_init, wait_round, behind}
use rhkernel.Kernel.Completion.Runs.{
  Step, Reach, initial, IsAwaited, Reach-IsAwaited, signalled_and_woken,
  kernel_completion_signal-wakes,
}

-- The task 5 has blocked on a completion that is not done.
abbrev asleep : World
asleep = behind (wait_round (some 5) (initial false))

asleep-Reach : Reach 5 asleep
asleep-Reach = Reach.step (Reach.begun false) (Step.waited refl)

asleep-blocked : asleep.blocked 5 ≡ true
unfolding wait_round kernel_completion_init
asleep-blocked = refl

Reach-IsAwaited_example : IsAwaited 5 asleep
Reach-IsAwaited_example = Reach-IsAwaited asleep-Reach

kernel_completion_signal-wakes_example :
    ((signalled_and_woken asleep).blocked 5 ≡ false)
    × (wait_round (some 5) (signalled_and_woken asleep)
        ≡ leave (
          record (signalled_and_woken asleep) {
            completion = record { done = false; waiter = none };
          },
          pos 0,
        ))
kernel_completion_signal-wakes_example = kernel_completion_signal-wakes 5 asleep asleep-Reach
