-- ===== src/Kmutex/Handover.antt =====
-- A mutex of weenix.assign2/kernel/proc/kmutex.c passes from thread to thread in the order in which
-- they came.
use usc_homeworks.Base.{
  ◌≡◌, ◌≢◌, true, false, Option, none, some, List, [], ◌∷◌, refl, done, subst, sym, ==_ne, ==_iff,
}
use usc_homeworks.Sched.{
  Tid, QueueId, Kernel, kt_runq, is_at, sched_wakeup_on, sched_cancellable_sleep_on,
}
use usc_homeworks.Sched.Invariant.{IsConsistent}
use usc_homeworks.Sched.Wakeup.{wakeup-empty}
use usc_homeworks.Sched.Fifo.{
  line, IsAsleep, wakeup_serves_first, sleep_on-IsAsleep, cancellable_sleep_on-IsAsleep,
  list_of_line,
}
use usc_homeworks.Kmutex.{
  Kmutex, kmutex_lock, kmutex_lock_resumed, kmutex_lock_cancellable, kmutex_unlock,
}

-- A free mutex has nobody waiting, and its holder does not wait for it.
pub record IsFair (m : Kmutex) (s : Kernel) : Type 0 where
  pub consistent : IsConsistent s
  pub own_queue : m.km_waitq ≢ kt_runq
  pub free : m.km_holder ≡ none → line m.km_waitq s ≡ []
  pub held : (t : Tid) → m.km_holder ≡ some t → is_at (s.thread t).kt_wchan m.km_waitq ≡ false

unlock_run :
    (m : Kmutex) (s s' : Kernel) (next : Option Tid)
    → m.km_holder ≡ some s.curthr
    → sched_wakeup_on m.km_waitq s ≡ done (next, s')
    → is_at next s.curthr ≡ false
    → kmutex_unlock m s ≡ done (record m { km_holder = next }, s')
unfolding kmutex_unlock
unlock_run m s s' next h r n = rw (h, (==_iff s.curthr s.curthr).1 refl, r, n)

-- When its holder unlocks a fair mutex for which threads wait, the first of them gets it and
-- becomes ready; the rest go on waiting, the thread that unlocks goes on running, no assertion
-- fails, and the mutex stays fair.
pub unlock_hands_over :
    (m : Kmutex) (s : Kernel) (t : Tid) (rest : List Tid)
    → IsFair m s
    → m.km_holder ≡ some s.curthr
    → line m.km_waitq s ≡ t ∷ rest
    → (m' : Kmutex) × (s' : Kernel) × (kmutex_unlock m s ≡ done (m', s'))
      × (m'.km_holder ≡ some t)
      × ((s'.thread t).kt_wchan ≡ some kt_runq)
      × (line m'.km_waitq s' ≡ rest)
      × (s'.curthr ≡ s.curthr)
      × IsFair m' s'
unlock_hands_over m s t rest f h e =
    let w = wakeup_serves_first m.km_waitq s t rest f.consistent f.own_queue e in
    let other : is_at (some t) s.curthr ≡ false =
      ==_ne t s.curthr (λ i. cc (w.2.waited, f.held s.curthr h, i)) in
    (
      record m { km_holder = some t },
      w.0,
      unlock_run m s w.0 (some t) h w.1 other,
      refl,
      w.2.readied,
      w.3,
      w.2.same_curthr,
      record {
        consistent = w.2.consistent;
        own_queue = f.own_queue;
        free = λ i. cc;
        held = λ u i.
            let same : t ≡ u = cc i in
            subst (λ x. is_at (w.0.thread x).kt_wchan m.km_waitq ≡ false) same
              (rw w.2.readied (==_ne kt_runq m.km_waitq λ j. f.own_queue (sym j)));
      },
    )

-- When its holder unlocks a mutex that nobody waits for, the mutex is free, and nothing else
-- changes.
pub unlock_frees :
    (m : Kmutex) (s : Kernel)
    → m.km_holder ≡ some s.curthr
    → line m.km_waitq s ≡ []
    → kmutex_unlock m s ≡ done (record m { km_holder = none }, s)
unlock_frees m s h e =
    unlock_run m s s none h (wakeup-empty m.km_waitq s (list_of_line m.km_waitq s e)) refl

-- A thread that waits on nothing and locks a fair mutex that is free, cancellably or not, holds it
-- at once; its assertion to hold it succeeds, and the mutex stays fair.
pub lock_free :
    (irqs : List QueueId) (m : Kmutex) (s : Kernel)
    → IsFair m s
    → m.km_holder ≡ none
    → (s.thread s.curthr).kt_wchan ≡ none
    → let m' = record m { km_holder = some s.curthr } in
      (kmutex_lock irqs m s ≡ done (m', s))
      × (kmutex_lock_cancellable irqs m s ≡ done (some (m', s)))
      × (kmutex_lock_resumed m' s ≡ done tt)
      × IsFair m' s
unfolding kmutex_lock kmutex_lock_cancellable kmutex_lock_resumed
lock_free irqs m s f h e = (
  rw h,
  rw h,
  rw ((==_iff s.curthr s.curthr).1 refl),
  record {
    consistent = f.consistent;
    own_queue = f.own_queue;
    free = λ i. cc;
    held = λ t i.
        let same : s.curthr ≡ t = cc i in
        subst (λ x. is_at (s.thread x).kt_wchan m.km_waitq ≡ false) same (rw e);
  },
)

-- A thread that waits on nothing and locks a fair mutex that another thread holds, while some
-- thread is ready, goes to sleep at the end of the mutex's line; the thread that has been ready for
-- longest runs, and the holder keeps the mutex.
pub lock_waits :
    (irqs : List QueueId) (m : Kmutex) (s : Kernel) (u t : Tid) (rest : List Tid)
    → IsFair m s
    → m.km_holder ≡ some u
    → u ≢ s.curthr
    → (s.thread s.curthr).kt_wchan ≡ none
    → line kt_runq s ≡ t ∷ rest
    → (s' : Kernel) × (kmutex_lock irqs m s ≡ done (m, s')) × IsAsleep m.km_waitq s t rest s'
unfolding kmutex_lock
lock_waits irqs m s u t rest f h ne e l =
    let r = sleep_on-IsAsleep irqs m.km_waitq s t rest f.consistent e f.own_queue l in
    (r.0, simp (h, ==_ne u s.curthr ne, r.1), r.2)

cancellable_sleep_on_early :
    (irqs : List QueueId) (q : QueueId) (s : Kernel)
    → (s.thread s.curthr).kt_cancelled ≡ true
    → sched_cancellable_sleep_on irqs q s ≡ done none
unfolding sched_cancellable_sleep_on
cancellable_sleep_on_early irqs q s e = rw e

-- The cancellable lock of a mutex that another thread holds, by a thread that is cancelled, returns
-- `-EINTR` at once.
pub lock_cancellable_refused :
    (irqs : List QueueId) (m : Kmutex) (s : Kernel) (u : Tid)
    → m.km_holder ≡ some u
    → u ≢ s.curthr
    → (s.thread s.curthr).kt_cancelled ≡ true
    → kmutex_lock_cancellable irqs m s ≡ done none
unfolding kmutex_lock_cancellable
lock_cancellable_refused irqs m s u h ne c =
    rw (h, ==_ne u s.curthr ne, cancellable_sleep_on_early irqs m.km_waitq s c, c)

-- A thread that waits on nothing, is not cancelled and cancellably locks a fair mutex that another
-- thread holds, while some thread is ready, goes to sleep at the end of the mutex's line; the
-- thread that has been ready for longest runs, and the holder keeps the mutex.
pub lock_cancellable_waits :
    (irqs : List QueueId) (m : Kmutex) (s : Kernel) (u t : Tid) (rest : List Tid)
    → IsFair m s
    → m.km_holder ≡ some u
    → u ≢ s.curthr
    → (s.thread s.curthr).kt_cancelled ≡ false
    → (s.thread s.curthr).kt_wchan ≡ none
    → line kt_runq s ≡ t ∷ rest
    → (s' : Kernel) × (kmutex_lock_cancellable irqs m s ≡ done (some (m, s')))
      × IsAsleep m.km_waitq s t rest s'
unfolding kmutex_lock_cancellable
lock_cancellable_waits irqs m s u t rest f h ne c e l =
    let r = cancellable_sleep_on-IsAsleep irqs m.km_waitq s t rest f.consistent e c f.own_queue l in
    (r.0, simp (h, ==_ne u s.curthr ne, r.1), r.2)
