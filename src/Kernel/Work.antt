-- ===== src/Kernel/Work.antt =====
-- The work queue, smp/workqueue.cpp. Each function is one section under the lock, on the state that the lock guards; an
-- address is a number. A delayed work holds its work as its first field, so both have one address.
pub mod Queue
pub mod Enqueue
pub mod Views
pub mod Ready
pub mod Delays
pub mod Cancel
pub mod Runs
use rhkernel.Prelude.{
  ℕ, zero, suc, ◌+◌, ◌-◌, ◌%◌, ◌^◌, bit_and, Bool, true, false, not, ◌&&◌, ◌||◌, leb, ltb, ◌==◌,
  if◌then◌else◌, Option, none, some, max,
}
use rhkernel.Prelude.Int.{ℤ, pos, negsuc}
use rhkernel.Prelude.Links.{write}

-- `struct kernel_work`; of `fn` only whether it is null.
pub record Work : Type 0 where
  pub callable : Bool
  pub next : Option ℕ
  pub flags : ℕ

-- The fields of `struct kernel_delayed_work` beside its work.
pub record Delayed : Type 0 where
  pub next : Option ℕ
  pub due_tick : ℕ
  pub flags : ℕ

pub record Stats : Type 0 where
  pub queued : ℕ
  pub completed : ℕ
  pub rejected : ℕ
  pub wakeups : ℕ
  pub waits : ℕ
  pub max_depth : ℕ
  pub depth : ℕ
  pub worker_pid : ℕ

pub record State : Type 0 where
  pub works : ℕ → Work
  pub head : Option ℕ
  pub tail : Option ℕ
  pub delayed : ℕ → Delayed
  pub delayed_head : Option ℕ
  pub worker : Option ℕ
  pub timer : Option ℕ
  pub initialized : Bool
  pub started : Bool
  pub counters : Stats

-- KERNEL_WORK_PENDING, KERNEL_WORK_RUNNING and KERNEL_DELAYED_WORK_PENDING
abbrev pub work_pending : ℕ
work_pending = 1

abbrev pub work_running : ℕ
work_running = 2

abbrev pub delayed_pending : ℕ
delayed_pending = 1

abbrev pub u64 : ℕ → ℕ
u64 n = n % 2 ^ 64

unfoldable pub set_work : ℕ → Work → State → State
set_work w v s = record s { works = λ i. if i == w then v else s.works i }

unfoldable pub set_delayed : ℕ → Delayed → State → State
set_delayed d v s = record s { delayed = λ i. if i == d then v else s.delayed i }

-- `work->flags & (KERNEL_WORK_PENDING | KERNEL_WORK_RUNNING)`
unfoldable pub is_busy : State → ℕ → Bool
is_busy s w = not (bit_and (s.works w).flags 3 == 0)

-- `counters.queued++` to the maximum of the depth.
unfoldable pub count_queued : Stats → Stats
count_queued c =
    let depth = u64 (c.depth + 1) in
    record c {
      queued = u64 (c.queued + 1);
      depth = depth;
      max_depth = if ltb c.max_depth depth then depth else c.max_depth;
    }

-- `if (tail) tail->next = work; else head = work`
unfoldable pub link_at_tail : Option ℕ → ℕ → State → State
link_at_tail none w s = record s { head = some w }
link_at_tail (some t) w s = set_work t (record (s.works t) { next = some w }) s

-- A work marked as pending, put at the tail and counted.
unfoldable pub append_work : ℕ → State → State
append_work w s =
    let marked = set_work w (record (s.works w) { next = none; flags = work_pending }) s in
    let linked = link_at_tail s.tail w marked in
    record linked { tail = some w; counters = count_queued s.counters }

-- `counters.wakeups++`, if there is a worker and it was asleep.
unfoldable pub count_wakeup : Bool → State → State
count_wakeup woken s = elim s.worker [
  | none ↦ s
  | some w ↦
      if woken
      then record s { counters = record s.counters { wakeups = u64 (s.counters.wakeups + 1) } }
      else s
]

unfoldable pub reject : State → State
reject s = record s { counters = record s.counters { rejected = u64 (s.counters.rejected + 1) } }

-- The part of `queue` below its first test, up to the release of the lock.
unfoldable pub queue_section : ℕ → State → State × ℤ
queue_section w s =
    if not s.initialized
    then (s, negsuc 2)
    else if is_busy s w
    then (reject s, negsuc 1)
    else (append_work w s, pos 0)

-- The wake-up of the worker after a work has been put in.
unfoldable pub after_queue : Bool → State × ℤ → State × ℤ
after_queue woken (s, pos n) = (count_wakeup woken s, pos n)
after_queue woken (s, negsuc n) = (s, negsuc n)

-- `woken` is what `scheduler::wake` answers; `none` is a null pointer.
unfoldable pub queue : Bool → Option ℕ → State → State × ℤ
queue woken none s = (s, negsuc 0)
queue woken (some w) s =
    if (s.works w).callable then after_queue woken (queue_section w s) else (s, negsuc 0)

-- The taken work, if there is one, and the state afterwards.
unfoldable pub take_head : Option ℕ → State → State × Option ℕ
take_head none s = (s, none)
take_head (some w) s =
    let rest = (s.works w).next in
    let unlinked = record s { head = rest; tail = elim rest [ none ↦ none | some x ↦ s.tail ] } in
    let taken = set_work w (record (s.works w) { next = none; flags = work_running }) unlinked in
    (
      record taken {
        counters = record s.counters {
          depth = if s.counters.depth == 0 then 0 else s.counters.depth - 1;
        };
      },
      some w,
    )

unfoldable pub take_one : State → State × Option ℕ
take_one s = take_head s.head s

-- The section of `worker_main` behind the call of the work's function.
unfoldable pub complete_work : ℕ → State → State
complete_work w s =
    let cleared = set_work w (record (s.works w) { flags = 0 }) s in
    record cleared { counters = record s.counters { completed = u64 (s.counters.completed + 1) } }

-- The first section of `worker_main`: a work to run, or `counters.waits++` before it blocks.
unfoldable pub count_wait : State × Option ℕ → State × Option ℕ
count_wait (s, some w) = (s, some w)
count_wait (s, none) =
    (record s { counters = record s.counters { waits = u64 (s.counters.waits + 1) } }, none)

unfoldable pub worker_section : State → State × Option ℕ
worker_section s = count_wait (take_one s)

-- `*pp`, where `none` stands for `&delayed_head` and `some d` for `&d->next`.
unfoldable pub read_link : State → Option ℕ → Option ℕ
read_link s none = s.delayed_head
read_link s (some d) = (s.delayed d).next

unfoldable pub write_link : Option ℕ → Option ℕ → State → State
write_link none v s = record s { delayed_head = v }
write_link (some d) v s = set_delayed d (record (s.delayed d) { next = v }) s

-- `dw->next = nullptr; dw->flags &= ~KERNEL_DELAYED_WORK_PENDING` behind `*pp = dw->next`
unfoldable pub unlink_delayed : Option ℕ → ℕ → State → State
unlink_delayed pp d s =
    let skipped = write_link pp (s.delayed d).next s in
    let old = skipped.delayed d in
    set_delayed d (record old { next = none; flags = old.flags - old.flags % 2 }) skipped

unfoldable pub postpone : ℕ → ℕ → State → State
postpone d now s = set_delayed d (record (s.delayed d) { due_tick = u64 (now + 1) }) s

-- The loop of `queue_ready_delayed` from the link `pp` on, for at most `fuel` rounds.
unfoldable pub ready_loop : ℕ → ℕ → Option ℕ → State → State
ready_loop zero now pp s = s
ready_loop (suc fuel) now pp s = elim (read_link s pp) [
  | none ↦ s
  | some d ↦ elim (ltb now (s.delayed d).due_tick) [
    | true ↦ ready_loop fuel now (some d) s
    | false ↦ elim (is_busy s d) [
      | true ↦ ready_loop fuel now (some d) (postpone d now s)
      | false ↦ ready_loop fuel now pp (append_work d (unlink_delayed pp d s))
    ]
  ]
]

unfoldable pub queue_ready_delayed : ℕ → ℕ → State → State
queue_ready_delayed fuel now s = ready_loop fuel now none s

-- `while (*pp && (*pp)->due_tick <= due) pp = &(*pp)->next`
unfoldable pub find_place : ℕ → ℕ → Option ℕ → State → Option ℕ
find_place zero due pp s = pp
find_place (suc fuel) due pp s = elim (read_link s pp) [
  | none ↦ pp
  | some d ↦ elim (leb (s.delayed d).due_tick due) [
    | true ↦ find_place fuel due (some d) s
    | false ↦ pp
  ]
]

-- `work->next = *pp; *pp = work`
unfoldable pub insert_at : Option ℕ → ℕ → State → State
insert_at pp d s =
    write_link pp (some d) (set_delayed d (record (s.delayed d) { next = read_link s pp }) s)

unfoldable pub mark_delayed : ℕ → ℕ → State → State
mark_delayed d due s =
    set_delayed d (record (s.delayed d) { due_tick = due; flags = delayed_pending }) s

-- `ticks` is the answer of `apic::get_global_ticks`.
unfoldable pub kernel_queue_delayed_work : ℕ → ℕ → Option ℕ → ℕ → State → State × ℤ
kernel_queue_delayed_work fuel ticks none delay s = (s, negsuc 0)
kernel_queue_delayed_work fuel ticks (some d) delay s =
    if not (s.works d).callable
    then (s, negsuc 0)
    else if not s.initialized
    then (s, negsuc 2)
    else if not ((s.delayed d).flags % 2 == 0) || not ((s.works d).flags % 2 == 0)
    then (reject s, negsuc 1)
    else let marked = mark_delayed d (u64 (ticks + delay)) s in
      (insert_at (find_place fuel (u64 (ticks + delay)) none marked) d marked, pos 0)

-- The loop of `kernel_cancel_delayed_work`.
unfoldable pub cancel_loop : ℕ → ℕ → Option ℕ → State → State × ℤ
cancel_loop zero d pp s = (s, pos 0)
cancel_loop (suc fuel) d pp s = elim (read_link s pp) [
  | none ↦ (s, pos 0)
  | some e ↦ elim (e == d) [
    | true ↦ (unlink_delayed pp d s, pos 1)
    | false ↦ cancel_loop fuel d (some e) s
  ]
]

unfoldable pub kernel_cancel_delayed_work : ℕ → Option ℕ → State → State × ℤ
kernel_cancel_delayed_work fuel none s = (s, negsuc 0)
kernel_cancel_delayed_work fuel (some d) s = cancel_loop fuel d none s

unfoldable pub kernel_work_init : Option ℕ → Bool → State → State
kernel_work_init none callable s = s
kernel_work_init (some w) callable s =
    set_work w (record { callable = callable; next = none; flags = 0 }) s

unfoldable pub kernel_delayed_work_init : Option ℕ → Bool → State → State
kernel_delayed_work_init none callable s = s
kernel_delayed_work_init (some d) callable s =
    set_delayed d (record { next = none; due_tick = 0; flags = 0 })
      (kernel_work_init (some d) callable s)

abbrev no_stats : Stats
no_stats = record {
  queued = 0;
  completed = 0;
  rejected = 0;
  wakeups = 0;
  waits = 0;
  max_depth = 0;
  depth = 0;
  worker_pid = 0;
}

unfoldable pub init_queue : State → State
init_queue s = record s { counters = no_stats; initialized = true }

-- The second section of `start`, with the tasks that were spawned.
unfoldable pub record_tasks : Option ℕ → Option ℕ → State → State × Bool
record_tasks none timer s = (s, false)
record_tasks (some w) none s = (s, false)
record_tasks (some w) (some t) s = (
  record s {
    worker = some w;
    timer = some t;
    started = true;
    counters = record s.counters { worker_pid = w };
  },
  true,
)

-- `worker` and `timer` are what the two calls of `scheduler::spawn` answer.
unfoldable pub start : Option ℕ → Option ℕ → State → State × Bool
start worker timer s =
    let ready = if s.initialized then s else init_queue s in
    if ready.started then (ready, true) else record_tasks worker timer ready
