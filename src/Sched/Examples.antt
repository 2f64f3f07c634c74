-- ===== src/Sched/Examples.antt =====
-- Runs of weenix.assign2/kernel/proc/sched.c: thread 1 runs, thread 2 waits on queue 1, thread 3 is
-- ready. The thread 3 is of process 2, the others of process 1.
use usc_homeworks.Base.{
  ◌≡◌, ◌<◌, false, none, some, [], ◌∷◌, ◌==◌, if◌then◌else◌, done, arith, refl,
}
use usc_homeworks.Sched.{
  Tid, QueueId, Thread, Queue, Kernel, kt_run, kt_sleep_cancellable, sched_wakeup_on,
  sched_broadcast_on,
}
use usc_homeworks.Sched.Invariant.{IsConsistent}
use usc_homeworks.Sched.Queues.{count}
use usc_homeworks.Sched.Wakeup.{broadcast_wakes_all, IsWoken, IsEmptied}
use usc_homeworks.Sched.Fifo.{line, wakeup_serves_first}

abbrev pub idle : Thread
idle = record {
  kt_state = kt_run;
  kt_wchan = none;
  kt_qlink = none;
  kt_cancelled = false;
  kt_proc = 1;
}

abbrev pub ready : Thread
ready = record {
  kt_state = kt_run;
  kt_wchan = some 0;
  kt_qlink = some 0;
  kt_cancelled = false;
  kt_proc = 2;
}

abbrev pub waiting : Thread
waiting = record {
  kt_state = kt_sleep_cancellable;
  kt_wchan = some 1;
  kt_qlink = some 1;
  kt_cancelled = false;
  kt_proc = 1;
}

abbrev pub threads : Tid → Thread
threads t = if t == 2 then waiting else if t == 3 then ready else idle

abbrev pub queues : QueueId → Queue
queues q =
    if q == 0
    then record { tq_list = 3 ∷ []; tq_size = 1 }
    else if q == 1
    then record { tq_list = 2 ∷ []; tq_size = 1 }
    else record { tq_list = []; tq_size = 0 }

abbrev pub kernel : Kernel
kernel = record { thread = threads; queue = queues; curthr = 1; curproc = some 1; ipl = 0 }

pub kernel-IsConsistent : IsConsistent kernel
kernel-IsConsistent = record {
  listed = λ t q. ground arith;
  linked = λ t. ground arith;
  sized = λ q. ground arith;
  ready = λ t h. ground arith;
  asleep = λ t q h ne. ground arith;
}

wakeup_serves_first_example :
    (s' : Kernel) × (sched_wakeup_on 1 kernel ≡ done (some 2, s'))
    × IsWoken 1 kernel 2 s'
    × (line 1 s' ≡ [])
wakeup_serves_first_example = wakeup_serves_first 1 kernel 2 [] kernel-IsConsistent (λ e. cc) refl

broadcast_wakes_all_example :
    (s' : Kernel) × (sched_broadcast_on 2 1 kernel ≡ done s')
    × IsEmptied 1 kernel s'
    × ((t : Tid) → 0 < count t (2 ∷ []) → (s'.thread t).kt_state ≡ kt_run)
broadcast_wakes_all_example =
    broadcast_wakes_all 2 1 kernel kernel-IsConsistent (λ e. cc) (omega arith)
