-- ===== src/Sched/Fifo.antt =====
-- The queues of weenix.assign2/kernel/proc/sched.c as waiting lines, first come, first served.
use usc_homeworks.Base.{
  ◌≡◌, ◌≢◌, true, false, none, some, List, [], ◌∷◌, ◌++◌, arith, refl, done, and_then,
  and_then_assoc, ap, ◌∙◌, sym, subst,
}
use mathlib.Core.List.{reverse, reverse-append}
use usc_homeworks.Sched.{
  Tid, QueueId, kt_runq, Kernel, KtState, is_asleep, last_of, init_of, ktqueue_enqueue,
  dequeue_last, set_state, kt_sleep, kt_sleep_cancellable, sched_wakeup_on, sched_queue_empty,
  switch_to, wait_ready, sched_switch, sched_sleep_on, sched_cancellable_sleep_on, ipl_high,
}
use usc_homeworks.Sched.Invariant.{IsConsistent, enqueue-IsConsistent, dequeue_last-IsConsistent}
use usc_homeworks.Sched.Wakeup.{
  IsWoken, wakeup-IsWoken, enqueued, enqueue-enqueued, dequeue-cons, dequeue_last-last,
  ipl-IsConsistent, curthr-IsConsistent,
}

-- The threads that wait on a queue, the first to be woken first.
abbrev pub line : QueueId → Kernel → List Tid
line q s = reverse (s.queue q).tq_list

reverse-last_of :
    (x : Tid) (xs : List Tid) → reverse (x ∷ xs) ≡ last_of x xs ∷ reverse (init_of x xs)
reverse-last_of x [] = refl
reverse-last_of x (y ∷ ys) =
    reverse-append (x ∷ []) (y ∷ ys)
    ∙ ap (λ zs. zs ++ x ∷ []) (reverse-last_of y ys)
    ∙ ap (λ zs. last_of y ys ∷ zs) (sym (reverse-append (x ∷ []) (init_of y ys)))

-- A thread that goes to sleep stands at the end of the line.
pub line-enqueue :
    (q : QueueId) (t : Tid) (s : Kernel) {s' : Kernel}
    → ktqueue_enqueue q t s ≡ done s'
    → line q s' ≡ line q s ++ t ∷ []
unfolding ktqueue_enqueue
line-enqueue q t s {s'} e = ap reverse list ∙ reverse-append (t ∷ []) (s.queue q).tq_list
  where
    list : (s'.queue q).tq_list ≡ t ∷ (s.queue q).tq_list
    list = ground arith

-- In a consistent state, a wakeup on a queue other than the run queue, where threads wait, takes
-- the first of the line and makes it ready; the others stay in line, and the state stays
-- consistent.
pub wakeup_serves_first :
    (q : QueueId) (s : Kernel) (t : Tid) (rest : List Tid)
    → IsConsistent s
    → q ≢ kt_runq
    → line q s ≡ t ∷ rest
    → (s' : Kernel) × (sched_wakeup_on q s ≡ done (some t, s'))
      × IsWoken q s t s'
      × (line q s' ≡ rest)
wakeup_serves_first q s t rest c ne e = go (s.queue q).tq_list refl
  where
    go :
        (xs : List Tid)
        → (s.queue q).tq_list ≡ xs
        → (s' : Kernel) × (sched_wakeup_on q s ≡ done (some t, s'))
          × IsWoken q s t s'
          × (line q s' ≡ rest)
    go [] l = cc (ap reverse l)
    go (x ∷ xs) l =
        let w = wakeup-IsWoken q s x xs c ne l in
        let parts : last_of x xs ∷ reverse (init_of x xs) ≡ t ∷ rest =
          sym (reverse-last_of x xs) ∙ sym (ap reverse l) ∙ e in
        let first : last_of x xs ≡ t = cc parts in
        (w.0, rw first at w.1, rw first at w.2, ap reverse w.3 ∙ cc parts)

-- The state in which the thread runs.
abbrev pub switched : Tid → Kernel → Kernel
switched t s = record s { curthr = t; curproc = some (s.thread t).kt_proc }

-- The thread that is switched to when the run queue is not empty.
wait_ready-last :
    (irqs : List QueueId) (s : Kernel) (x : Tid) (xs : List Tid)
    → (s.queue kt_runq).tq_list ≡ x ∷ xs
    → wait_ready irqs s ≡ done (switched (last_of x xs) (dequeue_last kt_runq x xs s).1)
unfolding wait_ready switch_to sched_queue_empty
wait_ready-last [] s x xs e =
    rw (dequeue-cons kt_runq s x xs e, e)
      (ap (λ t. done (switched t (dequeue_last kt_runq x xs s).1))
        (dequeue_last-last kt_runq x xs s))
wait_ready-last (q ∷ irqs) s x xs e =
    rw (dequeue-cons kt_runq s x xs e, e)
      (ap (λ t. done (switched t (dequeue_last kt_runq x xs s).1))
        (dequeue_last-last kt_runq x xs s))

-- The current thread went to sleep on `q` and the thread `t` was switched to, with its process.
pub record IsAsleep (q : QueueId) (s : Kernel) (t : Tid) (rest : List Tid) (s' : Kernel)
    : Type 0 where
  pub consistent : IsConsistent s'
  pub current : s'.curthr ≡ t
  pub process : s'.curproc ≡ some (s.thread t).kt_proc
  pub current_free : (s'.thread t).kt_wchan ≡ none
  pub joined : line q s' ≡ line q s ++ s.curthr ∷ []
  pub served : line kt_runq s' ≡ rest

enqueue_and_switch :
    (irqs : List QueueId) (q : QueueId) (st : KtState) (s : Kernel) (t : Tid) (rest : List Tid)
    → IsConsistent s
    → (s.thread s.curthr).kt_wchan ≡ none
    → is_asleep st ≡ true
    → q ≢ kt_runq
    → line kt_runq s ≡ t ∷ rest
    → (s' : Kernel) × (and_then
          (ktqueue_enqueue q s.curthr (set_state s.curthr st s))
          (sched_switch irqs)
        ≡ done s')
      × IsAsleep q s t rest s'
enqueue_and_switch irqs q st s t rest c free sl ne e = go (s.queue kt_runq).tq_list refl
  where
    s0 : Kernel
    s0 = set_state s.curthr st s

    s1 : Kernel
    s1 = enqueued q s.curthr s0

    s2 : Kernel
    s2 = record s1 { ipl = ipl_high }

    run1 : ktqueue_enqueue q s.curthr s0 ≡ done s1
    run1 = enqueue-enqueued q s.curthr s0 (unfold set_state in ground arith)

    c2 : IsConsistent s2
    c2 =
        ipl-IsConsistent s1 ipl_high
          (enqueue-IsConsistent s q s.curthr st c (λ i. absurd (ne i)) (λ i. sl) run1)

    go :
        (xs : List Tid)
        → (s.queue kt_runq).tq_list ≡ xs
        → (s' : Kernel) × (and_then (ktqueue_enqueue q s.curthr s0) (sched_switch irqs) ≡ done s')
          × IsAsleep q s t rest s'
    go [] l = cc (ap reverse l)
    go (x ∷ xs) l =
        let l2 : (s2.queue kt_runq).tq_list ≡ x ∷ xs = (unfold set_state in ground arith) in
        let d = dequeue_last-IsConsistent s2 kt_runq x xs c2 l2 in
        let s3 = (dequeue_last kt_runq x xs s2).1 in
        let kept : (s3.queue q).tq_list ≡ s.curthr ∷ (s.queue q).tq_list =
          unfold set_state dequeue_last in ground arith in
        let parts : last_of x xs ∷ reverse (init_of x xs) ≡ t ∷ rest =
          sym (reverse-last_of x xs) ∙ sym (ap reverse l) ∙ e in
        let first : last_of x xs ≡ t = cc parts in
        let kt_proc_kept : (s3.thread (last_of x xs)).kt_proc ≡ (s.thread (last_of x xs)).kt_proc =
          unfold set_state dequeue_last in ground arith in
        let left_over : line kt_runq s3 ≡ reverse (init_of x xs) = unfold dequeue_last in refl in
        (
          switched (last_of x xs) s3,
          (rw run1 (unfold sched_switch in wait_ready-last irqs s2 x xs l2)),
          record {
            consistent = curthr-IsConsistent s3 (last_of x xs) _ d.0;
            current = first;
            process = ap (λ p. some p) (kt_proc_kept ∙ ap (λ u. (s.thread u).kt_proc) first);
            current_free =
                subst (λ u. (s3.thread u).kt_wchan ≡ none)
                  (dequeue_last-last kt_runq x xs s2 ∙ first) d.2;
            joined = ap reverse kept ∙ reverse-append (s.curthr ∷ []) (s.queue q).tq_list;
            served = left_over ∙ cc parts;
          },
        )

-- In a consistent state, where the current thread waits on nothing and some thread is ready,
-- `sched_sleep_on` on a queue other than the run queue puts the current thread at the end of the
-- line and switches to the thread that has been ready for longest; the state stays consistent.
pub sleep_on-IsAsleep :
    (irqs : List QueueId) (q : QueueId) (s : Kernel) (t : Tid) (rest : List Tid)
    → IsConsistent s
    → (s.thread s.curthr).kt_wchan ≡ none
    → q ≢ kt_runq
    → line kt_runq s ≡ t ∷ rest
    → (s' : Kernel) × (sched_sleep_on irqs q s ≡ done s') × IsAsleep q s t rest s'
unfolding sched_sleep_on
sleep_on-IsAsleep irqs q s t rest c free ne e =
    enqueue_and_switch irqs q kt_sleep s t rest c free refl ne e

-- In a consistent state, where the current thread waits on nothing and is not cancelled and some
-- thread is ready, `sched_cancellable_sleep_on` on a queue other than the run queue puts the
-- current thread at the end of the line and switches to the thread that has been ready for longest;
-- the state stays consistent.
pub cancellable_sleep_on-IsAsleep :
    (irqs : List QueueId) (q : QueueId) (s : Kernel) (t : Tid) (rest : List Tid)
    → IsConsistent s
    → (s.thread s.curthr).kt_wchan ≡ none
    → (s.thread s.curthr).kt_cancelled ≡ false
    → q ≢ kt_runq
    → line kt_runq s ≡ t ∷ rest
    → (s' : Kernel) × (sched_cancellable_sleep_on irqs q s ≡ done (some s'))
      × IsAsleep q s t rest s'
unfolding sched_cancellable_sleep_on
cancellable_sleep_on-IsAsleep irqs q s t rest c free alive ne e =
    let r = enqueue_and_switch irqs q kt_sleep_cancellable s t rest c free refl ne e in
    (
      r.0,
      rw alive (
          sym (and_then_assoc _ (sched_switch irqs) (λ s2. done (some s2)))
          ∙ ap (λ m. and_then m (λ s2. done (some s2))) r.1),
      r.2,
    )

-- A line with nobody in it is that of an empty list.
pub list_of_line : (q : QueueId) (s : Kernel) → line q s ≡ [] → (s.queue q).tq_list ≡ []
list_of_line q s e = go (s.queue q).tq_list e
  where
    go : (xs : List Tid) → reverse xs ≡ [] → xs ≡ []
    go [] e = refl
    go (x ∷ xs) e = cc (reverse-last_of x xs)
