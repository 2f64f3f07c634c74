-- ===== src/Kmutex.antt =====
-- The mutexes of weenix.assign2/kernel/proc/kmutex.c. An operation that may sleep is modelled up to
-- the switch to another thread, and what it asserts when its thread runs again is a test of its own.
pub mod Handover
pub mod Examples
use usc_homeworks.Base.{
  Bool, true, false, not, Option, none, some, List, if◌then◌else◌, Run, done, fault, and_then,
}
use usc_homeworks.Sched.{
  Tid, QueueId, Kernel, is_at, is_none, sched_queue_init, sched_sleep_on,
  sched_cancellable_sleep_on, sched_wakeup_on, sleep_interrupted,
}

pub record Kmutex : Type 0 where
  pub km_holder : Option Tid
  pub km_waitq : QueueId

unfoldable pub kmutex_init : QueueId → Kernel → Kmutex × Kernel
kmutex_init q s = (record { km_holder = none; km_waitq = q }, sched_queue_init q s)

unfoldable pub kmutex_lock : List QueueId → Kmutex → Kernel → Run (Kmutex × Kernel)
kmutex_lock irqs m s =
    if is_at m.km_holder s.curthr
    then fault
    else if not (is_none m.km_holder)
    then and_then (sched_sleep_on irqs m.km_waitq s) (λ s'. done (m, s'))
    else done (record m { km_holder = some s.curthr }, s)

-- What a thread that slept in `kmutex_lock` asserts when it runs again.
unfoldable pub kmutex_lock_resumed : Kmutex → Kernel → Run (Unit {0})
kmutex_lock_resumed m s = if is_at m.km_holder s.curthr then done tt else fault

-- `none` stands for the early return of `-EINTR`.
unfoldable pub kmutex_lock_cancellable :
    List QueueId → Kmutex → Kernel → Run (Option (Kmutex × Kernel))
kmutex_lock_cancellable irqs m s =
    if is_at m.km_holder s.curthr
    then fault
    else if not (is_none m.km_holder)
    then and_then (sched_cancellable_sleep_on irqs m.km_waitq s) (λ r. elim r [
      | none ↦ if (s.thread s.curthr).kt_cancelled then done none else fault
      | some s' ↦ done (some (m, s'))
    ])
    else done (some (record m { km_holder = some s.curthr }, s))

-- What it returns when its thread runs again: `true` for 0 and `false` for `-EINTR`.
unfoldable pub kmutex_lock_cancellable_resumed : Kmutex → Kernel → Run Bool
kmutex_lock_cancellable_resumed m s =
    if sleep_interrupted s
    then (if is_at m.km_holder s.curthr then fault else done false)
    else (if is_at m.km_holder s.curthr then done true else fault)

unfoldable pub kmutex_unlock : Kmutex → Kernel → Run (Kmutex × Kernel)
kmutex_unlock m s =
    if not (is_at m.km_holder s.curthr)
    then fault
    else and_then (sched_wakeup_on m.km_waitq s)
        λ r. if is_at r.0 s.curthr then fault else done (record m { km_holder = r.0 }, r.1)
