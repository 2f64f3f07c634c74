-- ===== src/Sched/Wakeup.antt =====
-- The operations of weenix.assign2/kernel/proc/sched.c keep threads and queues consistent, and none
-- of their assertions fails where they are used as meant.
use usc_homeworks.Base.{
  ℕ, zero, suc, ◌+◌, ◌<◌, ◌≡◌, ◌≢◌, true, false, none, some, List, [], ◌∷◌, ◌++◌, Option, sym,
  length, arith, refl, done, ap, ◌∙◌,
}
use usc_homeworks.Sched.{
  Tid, QueueId, kt_runq, Queue, Kernel, update, is_at, is_asleep, is_cancellable, last_of, init_of,
  ktqueue_enqueue, ktqueue_dequeue, dequeue_last, ktqueue_remove, set_state, kt_run,
  sched_queue_empty, sched_make_runnable, wake, sched_wakeup_on, sched_broadcast_on, sched_cancel,
  ipl_high,
}
use usc_homeworks.Sched.Queues.{length-init_of, count, count-append}
use usc_homeworks.Sched.Invariant.{
  IsConsistent, enqueue-IsConsistent, dequeue_last-IsConsistent, remove-IsConsistent,
}

-- The invariant does not look at the interrupt level, the current thread and process or the cancelled
-- flags.
pub ipl-IsConsistent : (s : Kernel) (l : ℕ) → IsConsistent s → IsConsistent (record s { ipl = l })
ipl-IsConsistent s l c = record {
  listed = c.listed;
  linked = c.linked;
  sized = c.sized;
  ready = c.ready;
  asleep = c.asleep;
}

pub curthr-IsConsistent :
    (s : Kernel) (t : Tid) (p : Option ℕ)
    → IsConsistent s
    → IsConsistent (record s { curthr = t; curproc = p })
curthr-IsConsistent s t p c = record {
  listed = c.listed;
  linked = c.linked;
  sized = c.sized;
  ready = c.ready;
  asleep = c.asleep;
}

-- The state after a thread that waits on nothing was put on a queue.
abbrev pub enqueued : QueueId → Tid → Kernel → Kernel
enqueued q t s = record s {
  queue =
      update s.queue q
        (record { tq_list = t ∷ (s.queue q).tq_list; tq_size = (s.queue q).tq_size + 1 });
  thread = update s.thread t (record (s.thread t) { kt_wchan = some q; kt_qlink = some q });
}

pub enqueue-enqueued :
    (q : QueueId) (t : Tid) (s : Kernel)
    → (s.thread t).kt_wchan ≡ none
    → ktqueue_enqueue q t s ≡ done (enqueued q t s)
unfolding ktqueue_enqueue
enqueue-enqueued q t s e = rw (e, ktqueue_enqueue)

-- What `sched_make_runnable` does with a thread: it is ready, at the head of the run queue, and the
-- other queues and the interrupt level are as before.
pub record IsReadied (t : Tid) (s s' : Kernel) : Type 0 where
  pub consistent : IsConsistent s'
  pub waits : (s'.thread t).kt_wchan ≡ some kt_runq
  pub is_ready : (s'.thread t).kt_state ≡ kt_run
  pub same_cancelled : (s'.thread t).kt_cancelled ≡ (s.thread t).kt_cancelled
  pub same_ipl : s'.ipl ≡ s.ipl
  pub same_curthr : s'.curthr ≡ s.curthr
  pub on_runq : (s'.queue kt_runq).tq_list ≡ t ∷ (s.queue kt_runq).tq_list
  pub same_queue : (q : QueueId) → q ≢ kt_runq → s'.queue q ≡ s.queue q
  pub same_thread : (u : Tid) → u ≢ t → s'.thread u ≡ s.thread u

make_runnable_run :
    (t : Tid) (s s2 : Kernel)
    → is_at (s.thread t).kt_wchan kt_runq ≡ false
    → ktqueue_enqueue kt_runq t (set_state t kt_run (record s { ipl = ipl_high })) ≡ done s2
    → sched_make_runnable t s ≡ done (record s2 { ipl = s.ipl })
unfolding sched_make_runnable
make_runnable_run t s s2 n run = rw (n, run)

-- A thread that waits on nothing is put on the run queue, ready to run; the state stays consistent,
-- and the other queues and threads and the interrupt level are as before.
pub make_runnable-IsReadied :
    (t : Tid) (s : Kernel)
    → IsConsistent s
    → (s.thread t).kt_wchan ≡ none
    → (s' : Kernel) × (sched_make_runnable t s ≡ done s') × IsReadied t s s'
make_runnable-IsReadied t s c e =
    let high : Kernel = record s { ipl = ipl_high } in
    let s1 : Kernel = set_state t kt_run high in
    let e1 : (s1.thread t).kt_wchan ≡ none = unfold set_state in ground arith in
    let run = enqueue-enqueued kt_runq t s1 e1 in
    (
      record (enqueued kt_runq t s1) { ipl = s.ipl },
      make_runnable_run t s _ (rw e) run,
      record {
        consistent = ipl-IsConsistent (enqueued kt_runq t s1) s.ipl (
            enqueue-IsConsistent high kt_runq t kt_run (ipl-IsConsistent s ipl_high c) (λ i. refl)
              (λ ne. absurd (ne refl)) run);
        waits = unfold set_state in ground arith;
        is_ready = unfold set_state in ground arith;
        same_cancelled = unfold set_state in ground arith;
        same_ipl = refl;
        same_curthr = unfold set_state in refl;
        on_runq = unfold set_state in ground arith;
        same_queue = λ q ne. unfold set_state in ground arith;
        same_thread = λ u ne. unfold set_state in ground arith;
      },
    )

-- What a wakeup of a thread that waits on the queue `q` does.
pub record IsWoken (q : QueueId) (s : Kernel) (t : Tid) (s' : Kernel) : Type 0 where
  pub waited : is_at (s.thread t).kt_wchan q ≡ true
  pub readied : (s'.thread t).kt_wchan ≡ some kt_runq
  pub consistent : IsConsistent s'
  pub same_ipl : s'.ipl ≡ s.ipl
  pub same_curthr : s'.curthr ≡ s.curthr
  pub on_runq : (s'.queue kt_runq).tq_list ≡ t ∷ (s.queue kt_runq).tq_list

pub dequeue_last-last :
    (q : QueueId) (x : Tid) (xs : List Tid) (s : Kernel) → (dequeue_last q x xs s).0 ≡ last_of x xs
unfolding dequeue_last
dequeue_last-last q x xs s = refl

broadcast_step :
    (k : ℕ) (q : QueueId) (s s' : Kernel) (t : Tid)
    → sched_wakeup_on q s ≡ done (some t, s')
    → sched_broadcast_on (suc k) q s ≡ sched_broadcast_on k q s'
unfolding sched_broadcast_on
broadcast_step k q s s' t e = rw e

pub dequeue-cons :
    (q : QueueId) (s : Kernel) (x : Tid) (xs : List Tid)
    → (s.queue q).tq_list ≡ x ∷ xs
    → ktqueue_dequeue q s ≡ (some (dequeue_last q x xs s).0, (dequeue_last q x xs s).1)
unfolding ktqueue_dequeue
dequeue-cons q s x xs e = rw (e, ktqueue_dequeue)

wake-done :
    (t : Tid) (s : Kernel) {s' : Kernel}
    → is_asleep (s.thread t).kt_state ≡ true
    → sched_make_runnable t s ≡ done s'
    → wake (some t) s ≡ done (some t, s')
unfolding wake
wake-done t s e run = rw (e, run)

wakeup-cons :
    (q : QueueId) (s : Kernel) (x : Tid) (xs : List Tid)
    → (s.queue q).tq_list ≡ x ∷ xs
    → sched_wakeup_on q s ≡ wake (some (dequeue_last q x xs s).0) (dequeue_last q x xs s).1
unfolding sched_wakeup_on sched_queue_empty
wakeup-cons q s x xs e = rw (e, dequeue-cons q s x xs e)

-- A wakeup on a queue with threads, other than the run queue, takes the one at the end of the list.
-- It does not fault.
pub wakeup-IsWoken :
    (q : QueueId) (s : Kernel) (x : Tid) (xs : List Tid)
    → IsConsistent s
    → q ≢ kt_runq
    → (s.queue q).tq_list ≡ x ∷ xs
    → (s' : Kernel) × (sched_wakeup_on q s ≡ done (some (last_of x xs), s'))
      × IsWoken q s (last_of x xs) s'
      × ((s'.queue q).tq_list ≡ init_of x xs)
wakeup-IsWoken q s x xs c ne e =
    let r = dequeue_last q x xs s in
    let d = dequeue_last-IsConsistent s q x xs c e in
    let m = make_runnable-IsReadied r.0 r.1 d.0 d.2 in
    let sleeps : is_asleep (r.1.thread r.0).kt_state ≡ true = rw d.3 (c.asleep r.0 q d.1 ne) in
    (
      m.0,
      wakeup-cons q s x xs e
          ∙ wake-done r.0 r.1 sleeps m.1
          ∙ ap (λ (u : Tid). done (some u, m.0)) (dequeue_last-last q x xs s),
      record {
        waited = unfold dequeue_last in d.1;
        readied = unfold dequeue_last in m.2.waits;
        consistent = m.2.consistent;
        same_ipl = m.2.same_ipl ∙ unfold dequeue_last in refl;
        same_curthr = m.2.same_curthr ∙ unfold dequeue_last in refl;
        on_runq = m.2.on_runq ∙ unfold dequeue_last in ground arith;
      },
      ap (λ (z : Queue). z.tq_list) (m.2.same_queue q ne) ∙ unfold dequeue_last in ground arith,
    )

pub wakeup-empty :
    (q : QueueId) (s : Kernel) → (s.queue q).tq_list ≡ [] → sched_wakeup_on q s ≡ done (none, s)
unfolding sched_wakeup_on sched_queue_empty
wakeup-empty q s e = rw e

init-last : (x : Tid) (xs ys : List Tid) → init_of x xs ++ (last_of x xs ∷ ys) ≡ (x ∷ xs) ++ ys
init-last x [] ys = refl
init-last x (y ∷ zs) ys = ap (λ l. x ∷ l) (init-last y zs ys)

-- The threads of a queue are all ready after a broadcast: they stand on the run queue as they stood on
-- the queue, before those that were ready.
pub record IsEmptied (q : QueueId) (s s' : Kernel) : Type 0 where
  pub consistent : IsConsistent s'
  pub emptied : (s'.queue q).tq_list ≡ []
  pub on_runq : (s'.queue kt_runq).tq_list ≡ (s.queue q).tq_list ++ (s.queue kt_runq).tq_list
  pub same_curthr : s'.curthr ≡ s.curthr

broadcast_from :
    (k : ℕ) (q : QueueId) (s : Kernel)
    → IsConsistent s
    → q ≢ kt_runq
    → length (s.queue q).tq_list < k
    → (s' : Kernel) × (sched_broadcast_on k q s ≡ done s') × IsEmptied q s s'
broadcast_from zero q s c ne f = absurd (omega arith)
broadcast_from (suc k) q s c ne f =
    go (s.queue q).tq_list refl (λ s' c' f'. broadcast_from k q s' c' ne f')
  where
    go :
        (xs : List Tid)
        → (s.queue q).tq_list ≡ xs
        → ((s' : Kernel)
            → IsConsistent s'
            → length (s'.queue q).tq_list < k
            → (s'' : Kernel) × (sched_broadcast_on k q s' ≡ done s'') × IsEmptied q s' s'')
        → (s' : Kernel) × (sched_broadcast_on (suc k) q s ≡ done s') × IsEmptied q s s'
    go [] e rest = (
      s,
      unfold sched_broadcast_on in rw (wakeup-empty q s e),
      record {
        consistent = c;
        emptied = e;
        on_runq = ap (λ l. l ++ (s.queue kt_runq).tq_list) (sym e);
        same_curthr = refl;
      },
    )
    go (x ∷ xs) e rest =
        let w = wakeup-IsWoken q s x xs c ne e in
        let runq = (s.queue kt_runq).tq_list in
        let r =
          rest w.0 w.2.consistent
            (omega (arith, ap length w.3, length-init_of x xs, ap length e)) in
        (
          r.0,
          broadcast_step k q s w.0 (last_of x xs) w.1 ∙ r.1,
          record {
            consistent = r.2.consistent;
            emptied = r.2.emptied;
            on_runq =
                r.2.on_runq
                ∙ ap (λ l. l ++ (w.0.queue kt_runq).tq_list) w.3
                ∙ ap (λ l. init_of x xs ++ l) w.2.on_runq
                ∙ init-last x xs runq
                ∙ ap (λ l. l ++ runq) (sym e);
            same_curthr = r.2.same_curthr ∙ w.2.same_curthr;
          },
        )

-- A thread on the run queue of a consistent state is ready.
on_runq_ready :
    (s : Kernel) (t : Tid)
    → IsConsistent s
    → 0 < count t (s.queue kt_runq).tq_list
    → (s.thread t).kt_state ≡ kt_run
on_runq_ready s t c h = c.ready t (ground (arith, c.listed t kt_runq))

-- In a consistent state, `sched_broadcast_on` on a queue other than the run queue, with more rounds
-- than the queue has threads, returns with the state consistent, the current thread the same and the
-- queue empty. Each of its threads is ready then, and they are all on the run queue, in their order
-- and behind those that were ready before.
pub broadcast_wakes_all :
    (k : ℕ) (q : QueueId) (s : Kernel)
    → IsConsistent s
    → q ≢ kt_runq
    → length (s.queue q).tq_list < k
    → (s' : Kernel) × (sched_broadcast_on k q s ≡ done s')
      × IsEmptied q s s'
      × ((t : Tid) → 0 < count t (s.queue q).tq_list → (s'.thread t).kt_state ≡ kt_run)
broadcast_wakes_all k q s c ne f =
    let r = broadcast_from k q s c ne f in
    let members : (t : Tid)
        → count t (r.0.queue kt_runq).tq_list
          ≡ count t (s.queue q).tq_list + count t (s.queue kt_runq).tq_list =
      λ t.
        ap (count t) r.2.on_runq ∙ count-append t (s.queue q).tq_list (s.queue kt_runq).tq_list in
    (r.0, r.1, r.2, λ t h. on_runq_ready r.0 t r.2.consistent (omega (arith, members t)))

set_cancelled : Tid → Kernel → Kernel
set_cancelled t s = record s {
  thread = update s.thread t (record (s.thread t) { kt_cancelled = true });
}

set_cancelled-IsConsistent :
    (t : Tid) (s : Kernel) → IsConsistent s → IsConsistent (set_cancelled t s)
unfolding set_cancelled
set_cancelled-IsConsistent t s c = record {
  listed = λ u q. ground (arith, c.listed u q);
  linked = λ u. ground (arith, c.linked u);
  sized = c.sized;
  ready = λ u h. ground (arith, c.ready u);
  asleep = λ u q h ne. ground (arith, c.asleep u q);
}

cancel_run :
    (t : Tid) (s s1 s2 : Kernel) (q : QueueId)
    → is_cancellable (s.thread t).kt_state ≡ true
    → (s.thread t).kt_wchan ≡ some q
    → ktqueue_remove q t (set_cancelled t s) ≡ done s1
    → sched_make_runnable t s1 ≡ done s2
    → sched_cancel t s ≡ done s2
unfolding sched_cancel set_cancelled
cancel_run t s s1 s2 q a e r1 r2 = rw (a, e, r1, r2)

-- In a consistent state, cancelling a thread that waits in a cancellable sleep sets its flag and
-- moves it to the run queue; no assertion fails, and the state stays consistent.
pub cancel_asleep :
    (t : Tid) (s : Kernel) (q : QueueId)
    → IsConsistent s
    → is_cancellable (s.thread t).kt_state ≡ true
    → (s.thread t).kt_wchan ≡ some q
    → (s' : Kernel) × (sched_cancel t s ≡ done s')
      × IsConsistent s'
      × ((s'.thread t).kt_cancelled ≡ true)
      × ((s'.thread t).kt_wchan ≡ some kt_runq)
cancel_asleep t s q c a e =
    let s0 = set_cancelled t s in
    let e0 : (s0.thread t).kt_wchan ≡ some q = unfold set_cancelled in ground arith in
    let flag : (s0.thread t).kt_cancelled ≡ true = unfold set_cancelled in ground arith in
    let r = remove-IsConsistent s0 q t (set_cancelled-IsConsistent t s c) e0 in
    let m = make_runnable-IsReadied t r.0 r.2 r.3 in
    (
      m.0,
      cancel_run t s r.0 m.0 q a e r.1 m.1,
      m.2.consistent,
      m.2.same_cancelled ∙ r.4 ∙ flag,
      m.2.waits,
    )

-- In a consistent state, cancelling a thread that is not in a cancellable sleep sets its flag and
-- leaves the queues and the current thread alone; the state stays consistent.
pub cancel_flag :
    (t : Tid) (s : Kernel)
    → IsConsistent s
    → is_cancellable (s.thread t).kt_state ≡ false
    → (s' : Kernel) × (sched_cancel t s ≡ done s')
      × IsConsistent s'
      × ((s'.thread t).kt_cancelled ≡ true)
      × (s'.queue ≡ s.queue)
      × (s'.curthr ≡ s.curthr)
cancel_flag t s c a = (
  set_cancelled t s,
  unfold sched_cancel set_cancelled in rw a,
  set_cancelled-IsConsistent t s c,
  unfold set_cancelled in ground arith,
  unfold set_cancelled in refl,
  unfold set_cancelled in refl,
)
