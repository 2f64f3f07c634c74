-- ===== src/Kmutex/Examples.antt =====
-- Runs of the mutex of weenix.assign2/kernel/proc/kmutex.c: thread 1 holds it, thread 2 waits for it,
-- thread 3 is ready.
use usc_homeworks.Base.{◌≡◌, true, none, some, [], ◌∷◌, ◌==◌, if◌then◌else◌, done, arith, refl}
use usc_homeworks.Sched.{Kernel, kt_runq}
use usc_homeworks.Sched.Invariant.{IsConsistent}
use usc_homeworks.Sched.Fifo.{line}
use usc_homeworks.Kmutex.{Kmutex, kmutex_unlock}
use usc_homeworks.Kmutex.Handover.{IsFair, unlock_hands_over}
use usc_homeworks.Sched.Examples.{kernel, kernel-IsConsistent, idle, ready}

abbrev mutex : Kmutex
mutex = record { km_holder = some 1; km_waitq = 1 }

mutex-IsFair : IsFair mutex kernel
mutex-IsFair = record {
  consistent = kernel-IsConsistent;
  own_queue = λ e. cc;
  free = λ i. cc;
  held = λ t i. ground arith;
}

-- No thread waits, and thread 1 runs.
abbrev pub quiet : Kernel
quiet = record {
  thread = λ t. if t == 3 then ready else idle;
  queue = λ q.
      if q == 0
      then record { tq_list = 3 ∷ []; tq_size = 1 }
      else record { tq_list = []; tq_size = 0 };
  curthr = 1;
  curproc = some 1;
  ipl = 0;
}

pub quiet-IsConsistent : IsConsistent quiet
quiet-IsConsistent = record {
  listed = λ t q. ground arith;
  linked = λ t. ground arith;
  sized = λ q. ground arith;
  ready = λ t h. ground arith;
  asleep = λ t q h ne. ground arith;
}

abbrev pub free_mutex : Kmutex
free_mutex = record { km_holder = none; km_waitq = 1 }

pub free_mutex-IsFair : IsFair free_mutex quiet
free_mutex-IsFair = record {
  consistent = quiet-IsConsistent;
  own_queue = λ e. cc;
  free = λ i. refl;
  held = λ t i. cc;
}

abbrev other_mutex : Kmutex
other_mutex = record { km_holder = some 4; km_waitq = 1 }

other_mutex-IsFair : IsFair other_mutex quiet
other_mutex-IsFair = record {
  consistent = quiet-IsConsistent;
  own_queue = λ e. cc;
  free = λ i. refl;
  held = λ t i. ground arith;
}

unlock_hands_over_example :
    (m' : Kmutex) × (s' : Kernel) × (kmutex_unlock mutex kernel ≡ done (m', s'))
    × (m'.km_holder ≡ some 2)
    × ((s'.thread 2).kt_wchan ≡ some kt_runq)
    × (line m'.km_waitq s' ≡ [])
    × (s'.curthr ≡ 1)
    × IsFair m' s'
unlock_hands_over_example = unlock_hands_over mutex kernel 2 [] mutex-IsFair refl refl

abbrev cancelled : Kernel
cancelled = record quiet { thread = λ t. record idle { kt_cancelled = true } }
