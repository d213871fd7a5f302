-- ===== src/Kernel/Work/Enqueue.antt =====
-- `queue` on the list of queued works.
use rhkernel.Prelude.{
  ℕ, ◌+◌, ◌-◌, ◌^◌, ◌<◌, ◌≡◌, ◌≢◌, refl, Bool, true, false, not, ◌==◌, if◌then◌else◌, Option, none,
  some, List, [], ◌∷◌, ◌++◌, length, arith, bit_and,
}
use rhkernel.Prelude.Int.{ℤ, pos, negsuc}
use rhkernel.Kernel.Work.{
  State, is_busy, append_work, count_wakeup, reject, queue_section, after_queue, queue,
  work_pending, u64, Stats,
}
use rhkernel.Kernel.Work.Queue.{links, flags, IsQueue, append_work-IsQueue, IsQueue-same}

pub idle_unmarked : (s : State) (w : ℕ) → is_busy s w ≡ false → flags s w ≢ work_pending
unfolding is_busy
idle_unmarked s w h e =
    let busy : not (bit_and (flags s w) 3 == 0) ≡ true = rw e refl in ground (arith, busy, h)

-- Only the depth of the counters matters.
pub IsQueue-counters :
    (s : State) (c : Stats) (xs : List ℕ)
    → c.depth ≡ s.counters.depth
    → IsQueue s xs
    → IsQueue (record s { counters = c }) xs
IsQueue-counters s c xs e q =
    IsQueue-same s (record s { counters = c }) xs same refl (λ w. refl) e q
  where
    same : (k : Option ℕ) → links (record s { counters = c }) k ≡ links s k
    same none = refl
    same (some x) = refl

pub count_wakeup-IsQueue :
    (woken : Bool) (s : State) (xs : List ℕ) → IsQueue s xs → IsQueue (count_wakeup woken s) xs
unfolding count_wakeup
count_wakeup-IsQueue woken s xs q = by_worker s.worker woken
  where
    counted : Stats
    counted = record s.counters { wakeups = u64 (s.counters.wakeups + 1) }

    by_worker :
        (o : Option ℕ) (b : Bool)
        → IsQueue
            (elim o [ none ↦ s | some w ↦ if b then record s { counters = counted } else s ])
            xs
    by_worker none b = q
    by_worker (some w) false = q
    by_worker (some w) true = IsQueue-counters s counted xs refl q

-- What `queue` answers.
abbrev pub answer : State → ℕ → ℤ
answer s w =
    if not (s.works w).callable
    then negsuc 0
    else if not s.initialized
    then negsuc 2
    else if is_busy s w
    then negsuc 1
    else pos 0

abbrev pub accepted : ℤ → List ℕ → ℕ → List ℕ
accepted (pos n) xs w = xs ++ w ∷ []
accepted (negsuc n) xs w = xs

-- `queue` puts a work with a function, that is neither pending nor running, at the end of the queue and answers 0; else
-- the queue stays as it is, and the answer is -1 for a work with no function, -3 before the initialisation, and -2 for
-- a work that is pending or running.
pub queue-IsQueue :
    (woken : Bool) (w : ℕ) (s : State) (xs : List ℕ)
    → IsQueue s xs
    → length xs < 2 ^ 64 - 1
    → ((queue woken (some w) s).1 ≡ answer s w)
      × IsQueue (queue woken (some w) s).0 (accepted (answer s w) xs w)
unfolding queue queue_section reject after_queue
queue-IsQueue woken w s xs q room =
    by_tests (s.works w).callable s.initialized (is_busy s w)
      (λ e. append_work-IsQueue s xs w q (idle_unmarked s w e) room)
  where
    verdict : Bool → Bool → Bool → ℤ
    verdict c i b =
        if not c then negsuc 0 else if not i then negsuc 2 else if b then negsuc 1 else pos 0

    outcome : Bool → Bool → Bool → State × ℤ
    outcome c i b =
        if c
        then after_queue woken (
            if not i
            then (s, negsuc 2)
            else if b
            then (reject s, negsuc 1)
            else (append_work w s, pos 0))
        else (s, negsuc 0)

    by_tests :
        (c i b : Bool)
        → (b ≡ false → IsQueue (append_work w s) (xs ++ w ∷ []))
        → ((outcome c i b).1 ≡ verdict c i b)
          × IsQueue (outcome c i b).0 (accepted (verdict c i b) xs w)
    by_tests false i b h = (refl, q)
    by_tests true false b h = (refl, q)
    by_tests true true true h = (refl, IsQueue-counters s _ xs refl q)
    by_tests true true false h =
        (refl, count_wakeup-IsQueue woken (append_work w s) (xs ++ w ∷ []) (h refl))
