-- ===== src/Sched/Invariant.antt =====
-- The consistency of threads and queues in weenix.assign2/kernel/proc/sched.c, between calls.
use usc_homeworks.Base.{
  ◌-◌, ◌≡◌, ◌≢◌, true, none, some, List, ◌∷◌, if◌then◌else◌, length, arith, done, ap, ◌∙◌,
}
use usc_homeworks.Sched.{
  Tid, QueueId, kt_runq, Kernel, update, is_at, is_asleep, last_of, unlink, ktqueue_enqueue,
  dequeue_last, ktqueue_remove, set_state, kt_run, KtState,
}
use usc_homeworks.Sched.Queues.{count, count-init_of, count-unlink, length-init_of, length-unlink}

-- Each thread is on the list of the queue that it waits on, once, and on no other, the sizes are
-- those of the lists, a thread on the run queue is ready, and a thread on any other queue sleeps.
pub record IsConsistent (s : Kernel) : Type 0 where
  pub listed :
      (t : Tid) (q : QueueId)
      → count t (s.queue q).tq_list ≡ (if is_at (s.thread t).kt_wchan q then 1 else 0)
  pub linked : (t : Tid) → (s.thread t).kt_qlink ≡ (s.thread t).kt_wchan
  pub sized : (q : QueueId) → (s.queue q).tq_size ≡ length (s.queue q).tq_list
  pub ready :
      (t : Tid) → is_at (s.thread t).kt_wchan kt_runq ≡ true → (s.thread t).kt_state ≡ kt_run
  pub asleep :
      (t : Tid) (q : QueueId)
      → is_at (s.thread t).kt_wchan q ≡ true
      → q ≢ kt_runq
      → is_asleep (s.thread t).kt_state ≡ true

-- Putting a thread that waits on nothing on a queue, in a state that fits the queue.
pub enqueue-IsConsistent :
    (s : Kernel) (q : QueueId) (t : Tid) (st : KtState) {s' : Kernel}
    → IsConsistent s
    → (q ≡ kt_runq → st ≡ kt_run)
    → (q ≢ kt_runq → is_asleep st ≡ true)
    → ktqueue_enqueue q t (set_state t st s) ≡ done s'
    → IsConsistent s'
unfolding ktqueue_enqueue set_state
enqueue-IsConsistent s q t st {s'} c ready asleep e = record {
  listed = λ u r. ground (arith, c.listed u r, c.listed u q, c.linked t);
  linked = λ u. ground (arith, c.linked u);
  sized = λ r. ground (arith, c.sized r, c.sized q);
  ready = λ u h. ground (arith, c.ready u);
  asleep = λ u r h ne. ground (arith, c.asleep u r);
}

-- Dequeuing keeps the state consistent, and the thread that it gives waited on the queue and now
-- waits on none.
pub dequeue_last-IsConsistent :
    (s : Kernel) (q : QueueId) (x : Tid) (xs : List Tid)
    → IsConsistent s
    → (s.queue q).tq_list ≡ x ∷ xs
    → let r = dequeue_last q x xs s in
      IsConsistent r.1
      × (is_at (s.thread r.0).kt_wchan q ≡ true)
      × ((r.1.thread r.0).kt_wchan ≡ none)
      × ((r.1.thread r.0).kt_state ≡ (s.thread r.0).kt_state)
unfolding dequeue_last
dequeue_last-IsConsistent s q x xs c e =
    let t = last_of x xs in
    let member : is_at (s.thread t).kt_wchan q ≡ true =
      ground (arith, c.listed t q, count-init_of t x xs, ap (count t) e) in
    (
      record {
        listed =
            λ u r. ground (arith, c.listed u r, c.listed t r, count-init_of u x xs, ap (count u) e);
        linked = λ u. ground (arith, c.linked u);
        sized = λ r. ground (arith, c.sized r, c.sized q, length-init_of x xs, ap length e);
        ready = λ u h. ground (arith, c.ready u);
        asleep = λ u r h ne. ground (arith, c.asleep u r);
      },
      member,
      ground arith,
      ground arith,
    )

-- Removing a thread from the queue that it waits on.
pub remove-IsConsistent :
    (s : Kernel) (q : QueueId) (t : Tid)
    → IsConsistent s
    → (s.thread t).kt_wchan ≡ some q
    → (s' : Kernel) × (ktqueue_remove q t s ≡ done s')
      × IsConsistent s'
      × ((s'.thread t).kt_wchan ≡ none)
      × ((s'.thread t).kt_cancelled ≡ (s.thread t).kt_cancelled)
unfolding ktqueue_remove
remove-IsConsistent s q t c e =
    let que = s.queue q in
    let queues = update s.queue q (record que { tq_list = unlink t que.tq_list }) in
    (
      record s {
        queue = update queues q (record (queues q) { tq_size = (queues q).tq_size - 1 });
        thread = update s.thread t (record (s.thread t) { kt_wchan = none; kt_qlink = none });
      },
      rw (c.linked t ∙ e, ktqueue_remove),
      record {
        listed = λ u r. ground (arith, c.listed u r, count-unlink t u que.tq_list);
        linked = λ u. ground (arith, c.linked u);
        sized =
            λ r. ground (arith, c.sized r, c.sized q, c.listed t q, length-unlink t que.tq_list);
        ready = λ u h. ground (arith, c.ready u);
        asleep = λ u r h ne. ground (arith, c.asleep u r);
      },
      ground arith,
      ground arith,
    )
