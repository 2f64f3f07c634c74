-- ===== src/Sched.antt =====
-- Threads, wait queues and the run queue of weenix.assign2/kernel/proc/sched.c. A thread and a queue
-- are named by numbers, and the run queue `kt_runq` is queue 0. The state is what the functions read
-- and write of `kthread_t` and `ktqueue_t`. A failed assertion is a fault.
pub mod Queues
pub mod Invariant
pub mod Wakeup
pub mod Fifo
pub mod Examples
use usc_homeworks.Base.{
  ℕ, zero, suc, ◌+◌, ◌-◌, ◌≡◌, Bool, true, false, not, ◌||◌, Option, none, some, List, [], ◌∷◌,
  ◌==◌, if◌then◌else◌, Run, done, fault, out_of_fuel, and_then,
}

abbrev pub Tid : Type 0
Tid = ℕ

abbrev pub QueueId : Type 0
QueueId = ℕ

abbrev pub kt_runq : QueueId
kt_runq = 0

-- `kthread_state_t`
pub data KtState : Type 0 where
  kt_no_state kt_run kt_sleep kt_sleep_cancellable kt_exited : KtState

-- `kt_proc` is the number that names the thread's process structure. `kt_qlink` is given by the queue whose list the link is on, `none` where its pointers are NULL.
pub record Thread : Type 0 where
  pub kt_state : KtState
  pub kt_wchan : Option QueueId
  pub kt_qlink : Option QueueId
  pub kt_cancelled : Bool
  pub kt_proc : ℕ

-- `tq_list` is given from its head on.
pub record Queue : Type 0 where
  pub tq_list : List Tid
  pub tq_size : ℕ

-- The interrupt priority level.
abbrev pub ipl_low : ℕ
ipl_low = 0

abbrev pub ipl_high : ℕ
ipl_high = 255

pub record Kernel : Type 0 where
  pub thread : Tid → Thread
  pub queue : QueueId → Queue
  pub curthr : Tid
  pub curproc : Option ℕ
  pub ipl : ℕ

abbrev pub update {ℓ} : {A : Type ℓ} → (ℕ → A) → ℕ → A → ℕ → A
update f k v x = if x == k then v else f x

abbrev pub is_none {ℓ} : {A : Type ℓ} → Option A → Bool
is_none none = true
is_none (some _) = false

abbrev pub is_at : Option QueueId → QueueId → Bool
is_at none q = false
is_at (some r) q = r == q

abbrev pub is_empty {ℓ} : {A : Type ℓ} → List A → Bool
is_empty [] = true
is_empty (x ∷ xs) = false

abbrev pub is_asleep : KtState → Bool
is_asleep kt_sleep = true
is_asleep kt_sleep_cancellable = true
is_asleep _ = false

abbrev pub is_cancellable : KtState → Bool
is_cancellable kt_sleep_cancellable = true
is_cancellable _ = false

-- The last element, which `l_prev` of the list points to, and the list without it.
abbrev pub last_of : Tid → List Tid → Tid
last_of x [] = x
last_of x (y ∷ ys) = last_of y ys

abbrev pub init_of : Tid → List Tid → List Tid
init_of x [] = []
init_of x (y ∷ ys) = x ∷ init_of y ys

-- The list without the link of a thread.
abbrev pub unlink : Tid → List Tid → List Tid
unlink t [] = []
unlink t (x ∷ xs) = if x == t then xs else x ∷ unlink t xs

unfoldable pub ktqueue_enqueue : QueueId → Tid → Kernel → Run Kernel
ktqueue_enqueue q t s =
    let thr = s.thread t in
    let que = s.queue q in
    if not (is_none thr.kt_wchan)
    then fault
    else done (record s {
      queue = update s.queue q (record { tq_list = t ∷ que.tq_list; tq_size = que.tq_size + 1 });
      thread = update s.thread t (record thr { kt_wchan = some q; kt_qlink = some q });
    })

-- The thread of a non-empty list that is dequeued, and the state then.
unfoldable pub dequeue_last : QueueId → Tid → List Tid → Kernel → Tid × Kernel
dequeue_last q x xs s =
    let t = last_of x xs in
    let thr = s.thread t in
    (
      t,
      record s {
        queue =
            update s.queue q (record { tq_list = init_of x xs; tq_size = (s.queue q).tq_size - 1 });
        thread = update s.thread t (record thr { kt_wchan = none; kt_qlink = none });
      },
    )

unfoldable pub ktqueue_dequeue : QueueId → Kernel → Option Tid × Kernel
ktqueue_dequeue q s = elim (s.queue q).tq_list [
  | [] ↦ (none, s)
  | x ∷ xs ↦ (some (dequeue_last q x xs s).0, (dequeue_last q x xs s).1)
]

-- The link is taken off the list that it is on; the size is that of the queue that is named.
unfoldable pub ktqueue_remove : QueueId → Tid → Kernel → Run Kernel
ktqueue_remove q t s =
    let thr = s.thread t in
    elim thr.kt_qlink [
      | none ↦ fault
      | some r ↦
          let que = s.queue r in
          let queues = update s.queue r (record que { tq_list = unlink t que.tq_list }) in
          let named = queues q in
          done (record s {
            queue = update queues q (record named { tq_size = named.tq_size - 1 });
            thread = update s.thread t (record thr { kt_wchan = none; kt_qlink = none });
          })
    ]

unfoldable pub sched_queue_init : QueueId → Kernel → Kernel
sched_queue_init q s = record s { queue = update s.queue q (record { tq_list = []; tq_size = 0 }) }

unfoldable pub sched_queue_empty : QueueId → Kernel → Bool
sched_queue_empty q s = is_empty (s.queue q).tq_list

unfoldable pub set_state : Tid → KtState → Kernel → Kernel
set_state t st s = record s { thread = update s.thread t (record (s.thread t) { kt_state = st }) }

-- The interrupt level is raised to the highest and put back.
unfoldable pub sched_make_runnable : Tid → Kernel → Run Kernel
sched_make_runnable t s =
    let high = record s { ipl = ipl_high } in
    if is_at (s.thread t).kt_wchan kt_runq
    then fault
    else and_then (ktqueue_enqueue kt_runq t (set_state t kt_run high))
        λ s'. done (record s' { ipl = s.ipl })

-- The rest of `sched_wakeup_on`, on what was dequeued.
unfoldable pub wake : Option Tid → Kernel → Run (Option Tid × Kernel)
wake none s = fault
wake (some t) s =
    if not (is_asleep (s.thread t).kt_state)
    then fault
    else and_then (sched_make_runnable t s) λ s'. done (some t, s')

unfoldable pub sched_wakeup_on : QueueId → Kernel → Run (Option Tid × Kernel)
sched_wakeup_on q s =
    if sched_queue_empty q s
    then done (none, s)
    else wake (ktqueue_dequeue q s).0 (ktqueue_dequeue q s).1

-- `while (sched_wakeup_on(q));`, on fuel.
unfoldable pub sched_broadcast_on : ℕ → QueueId → Kernel → Run Kernel
sched_broadcast_on zero q s = out_of_fuel
sched_broadcast_on (suc k) q s =
    and_then (sched_wakeup_on q s)
      λ r. elim r.0 [ none ↦ done r.1 | some t ↦ sched_broadcast_on k q r.1 ]

unfoldable pub sched_cancel : Tid → Kernel → Run Kernel
sched_cancel t s =
    let thr = s.thread t in
    let s1 = record s { thread = update s.thread t (record thr { kt_cancelled = true }) } in
    if is_cancellable thr.kt_state
    then (elim thr.kt_wchan [
      | none ↦ fault
      | some q ↦ and_then (ktqueue_remove q t s1) (sched_make_runnable t)
    ])
    else done s1

-- The end of `sched_switch` up to `context_switch`: the next thread becomes the current one and its
-- process the current process, at the highest level. The level that `sched_switch` was called at is put back when the thread that called
-- it runs again.
unfoldable pub switch_to : Option Tid → Kernel → Run Kernel
switch_to none s = fault
switch_to (some t) s = done (record s { curthr = t; curproc = some (s.thread t).kt_proc })

-- `sched_switch` up to `context_switch`. While no thread is ready it lowers the level and waits: each
-- element of the list is a queue on which an interrupt handler then wakes a thread, and a list that
-- ends before a thread is ready stands for an endless wait.
unfoldable pub wait_ready : List QueueId → Kernel → Run Kernel
wait_ready [] s =
    if sched_queue_empty kt_runq s
    then out_of_fuel
    else switch_to (ktqueue_dequeue kt_runq s).0 (ktqueue_dequeue kt_runq s).1
wait_ready (q ∷ irqs) s =
    let woken =
      and_then (sched_wakeup_on q (record s { ipl = ipl_low }))
        λ r. wait_ready irqs (record r.1 { ipl = ipl_high }) in
    if sched_queue_empty kt_runq s
    then woken
    else switch_to (ktqueue_dequeue kt_runq s).0 (ktqueue_dequeue kt_runq s).1

unfoldable pub sched_switch : List QueueId → Kernel → Run Kernel
sched_switch irqs s = wait_ready irqs (record s { ipl = ipl_high })

unfoldable pub sched_sleep_on : List QueueId → QueueId → Kernel → Run Kernel
sched_sleep_on irqs q s =
    and_then (ktqueue_enqueue q s.curthr (set_state s.curthr kt_sleep s)) (sched_switch irqs)

-- `sched_cancellable_sleep_on` up to the switch: `none` stands for the early return of `-EINTR`.
unfoldable pub sched_cancellable_sleep_on : List QueueId → QueueId → Kernel → Run (Option Kernel)
sched_cancellable_sleep_on irqs q s =
    if (s.thread s.curthr).kt_cancelled
    then done none
    else and_then (ktqueue_enqueue q s.curthr (set_state s.curthr kt_sleep_cancellable s))
        λ s1. and_then (sched_switch irqs s1) λ s2. done (some s2)

-- What it returns when the thread runs again: whether it is `-EINTR`.
unfoldable pub sleep_interrupted : Kernel → Bool
sleep_interrupted s = (s.thread s.curthr).kt_cancelled
