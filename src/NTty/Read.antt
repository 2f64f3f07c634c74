-- ===== src/NTty/Read.antt =====
-- `n_tty_read` of weenix.assign2/kernel/drivers/tty/n_tty.c: what a reader gets, and when it sleeps.
use usc_homeworks.Base.{
  ℕ, zero, suc, ◌+◌, ◌≡◌, ◌≢◌, true, false, none, some, List, [], ◌∷◌, ◌++◌, ◌==◌, length, All,
  arith, refl, ap, ◌∙◌, done, Bool-cases, inl, inr,
}
use usc_homeworks.Sched.{Tid, Kernel, QueueId, kt_runq}
use usc_homeworks.Sched.Fifo.{line, IsAsleep, cancellable_sleep_on-IsAsleep}
use usc_homeworks.Kmutex.{Kmutex}
use usc_homeworks.Kmutex.Handover.{IsFair, lock_free, unlock_frees}
use usc_homeworks.NTty.{
  NTtyState, lf, eot, ckdbuf_empty, ckdbuf_size, rawbuf_size, ckdbuf_dequeue, read_loop, ReadResult,
  finish_read, read_locked, n_tty_read, returned, waits_for_chars,
}
use usc_homeworks.NTty.Ring.{IsValid, cooked, raw, dequeue-cooked, ckdbuf_empty-cooked}
use usc_homeworks.NTty.Line.{first_line}
use usc_homeworks.NTty.Receive.{assert_valid-IsValid}

abbrev pub IsPlainText : List ℕ → Type 0
IsPlainText cs = All (λ c. (c == eot) ≡ false) cs

-- What the loop of a read leaves: the rest of the cooked characters and the raw ones, and the lock.
pub record Rest (n : NTtyState) (taken : List ℕ) (n' : NTtyState) : Type 0 where
  pub split : cooked n ≡ taken ++ cooked n'
  pub same_raw : raw n' ≡ raw n
  pub valid : IsValid n'
  pub same_lock : n'.ntty_rlock ≡ n.ntty_rlock

dequeue_keeps_lock : (n : NTtyState) → (ckdbuf_dequeue n).1.ntty_rlock ≡ n.ntty_rlock
unfolding ckdbuf_dequeue
dequeue_keeps_lock n = refl

module _ (k : ℕ) (n : NTtyState) (v : IsValid n) (p : IsPlainText (cooked n))
    (some_cooked : ckdbuf_empty n ≡ false) where
  abbrev c : ℕ
  c = (ckdbuf_dequeue n).0

  abbrev n' : NTtyState
  n' = (ckdbuf_dequeue n).1

  split_cooked : cooked n ≡ c ∷ cooked n'
  split_cooked = (dequeue-cooked n v some_cooked).0

  plain : ((c == eot) ≡ false) × IsPlainText (cooked n')
  plain = rw split_cooked at p

  takes_newline :
      (c == lf) ≡ true
      → (m : NTtyState) × (read_loop (suc k) n
          ≡ (first_line (suc k) (cooked n), length (first_line (suc k) (cooked n)), m))
        × Rest n (first_line (suc k) (cooked n)) m
  unfolding read_loop first_line
  takes_newline e =
      let d = dequeue-cooked n v some_cooked in
      (
        n',
        rw (some_cooked, e, split_cooked, e),
        record {
          split = rw (split_cooked, e);
          same_raw = d.1;
          valid = d.2;
          same_lock = dequeue_keeps_lock n;
        },
      )

  takes_more :
      (c == lf) ≡ false
      → (m : NTtyState)
      → read_loop k n' ≡ (first_line k (cooked n'), length (first_line k (cooked n')), m)
      → Rest n' (first_line k (cooked n')) m
      → (m : NTtyState) × (read_loop (suc k) n
          ≡ (first_line (suc k) (cooked n), length (first_line (suc k) (cooked n)), m))
        × Rest n (first_line (suc k) (cooked n)) m
  unfolding read_loop first_line
  takes_more e m run r =
      let d = dequeue-cooked n v some_cooked in
      let one_more : length (first_line k (cooked n')) + 1
          ≡ suc (length (first_line k (cooked n'))) =
        omega arith in
      (
        m,
        rw (some_cooked, e, plain.0, run, one_more, split_cooked, e),
        record {
          split = rw (split_cooked, e) (ap (λ l. c ∷ l) r.split);
          same_raw = r.same_raw ∙ d.1;
          valid = r.valid;
          same_lock = r.same_lock ∙ dequeue_keeps_lock n;
        },
      )

-- The loop of a read takes the first line, or as much of it as there is room for, and counts it.
pub read_loop-Rest :
    (k : ℕ) (n : NTtyState)
    → IsValid n
    → IsPlainText (cooked n)
    → (n' : NTtyState) × (read_loop k n
        ≡ (first_line k (cooked n), length (first_line k (cooked n)), n'))
      × Rest n (first_line k (cooked n)) n'
unfolding read_loop first_line
read_loop-Rest zero n v p =
    (n, refl, record { split = refl; same_raw = refl; valid = v; same_lock = refl })
read_loop-Rest (suc k) n v p = elim (Bool-cases (ckdbuf_empty n)) [
  | inl e ↦
      let nothing : cooked n ≡ [] = ckdbuf_empty-cooked n v e in
      (
        n,
        rw (e, nothing),
        record { split = rw nothing; same_raw = refl; valid = v; same_lock = refl },
      )
  | inr e ↦
      let rec =
        read_loop-Rest k (ckdbuf_dequeue n).1 (dequeue-cooked n v e).2 (plain k n v p e).1 in
      elim (Bool-cases ((ckdbuf_dequeue n).0 == lf)) [
        | inl newline ↦ takes_newline k n v p e newline
        | inr other ↦ takes_more k n v p e other rec.0 rec.1 rec.2
      ]
]

-- The mutex is no part of the buffer.
module _ (n : NTtyState) (m : Kmutex) where
  abbrev with_lock : NTtyState
  with_lock = record n { ntty_rlock = m }

  with_lock-cooked : cooked with_lock ≡ cooked n
  unfolding cooked ckdbuf_size
  with_lock-cooked = refl

  with_lock-raw : raw with_lock ≡ raw n
  unfolding raw rawbuf_size
  with_lock-raw = refl

  with_lock-empty : ckdbuf_empty with_lock ≡ ckdbuf_empty n
  unfolding ckdbuf_empty
  with_lock-empty = refl

  with_lock-IsValid : IsValid n → IsValid with_lock
  unfolding ckdbuf_size rawbuf_size
  with_lock-IsValid v = record {
    rhead = v.rhead;
    rawtail = v.rawtail;
    ckdtail = v.ckdtail;
    room = v.room;
  }

-- From where the mutex is held and some line is cooked, a read returns.
finish_read_lem :
    (len : ℕ) (n : NTtyState) (s : Kernel)
    → IsValid n
    → IsPlainText (cooked n)
    → n.ntty_rlock.km_holder ≡ some s.curthr
    → line n.ntty_rlock.km_waitq s ≡ []
    → (n' : NTtyState) × (finish_read len n s
        ≡ done (returned (first_line len (cooked n)) (length (first_line len (cooked n))) n' s))
      × (cooked n ≡ first_line len (cooked n) ++ cooked n')
      × (raw n' ≡ raw n)
      × IsValid n'
      × (n'.ntty_rlock ≡ record n.ntty_rlock { km_holder = none })
unfolding finish_read
finish_read_lem len n s v p holds alone =
    let (n', run, r) = read_loop-Rest len n v p in
    let freed = record n.ntty_rlock { km_holder = none } in
    (
      with_lock n' freed,
      rw (run, r.same_lock, unlock_frees n.ntty_rlock s holds alone),
      rw (with_lock-cooked n' freed) r.split,
      with_lock-raw n' freed ∙ r.same_raw,
      with_lock-IsValid n' freed r.valid,
      refl,
    )

read_run :
    (irqs : List QueueId) (len : ℕ) (n : NTtyState) (s : Kernel)
    → IsValid n
    → ckdbuf_empty n ≡ false
    → IsFair n.ntty_rlock s
    → n.ntty_rlock.km_holder ≡ none
    → (s.thread s.curthr).kt_wchan ≡ none
    → {x : ReadResult}
    → finish_read len (with_lock n (record n.ntty_rlock { km_holder = some s.curthr })) s ≡ done x
    → n_tty_read irqs len n s ≡ done x
unfolding n_tty_read read_locked
read_run irqs len n s v some_cooked f free e run =
    rw
      (
        assert_valid-IsValid n v,
        (lock_free irqs n.ntty_rlock s f free e).0,
        free,
        with_lock-empty n (record n.ntty_rlock { km_holder = some s.curthr }),
        some_cooked,
      )
      run

-- A read, by a thread that waits on nothing, from a valid buffer with cooked characters and no
-- end-of-transmission character among them, while the fair mutex is free, returns the first line,
-- or as much of it as fits, with its length, and takes it off the buffer; the line that is typed is
-- left alone, the buffer stays valid, and the mutex is free again.
pub read_returns_line :
    (irqs : List QueueId) (len : ℕ) (n : NTtyState) (s : Kernel)
    → IsValid n
    → IsPlainText (cooked n)
    → ckdbuf_empty n ≡ false
    → IsFair n.ntty_rlock s
    → n.ntty_rlock.km_holder ≡ none
    → (s.thread s.curthr).kt_wchan ≡ none
    → (n' : NTtyState) × (n_tty_read irqs len n s
        ≡ done (returned (first_line len (cooked n)) (length (first_line len (cooked n))) n' s))
      × (cooked n ≡ first_line len (cooked n) ++ cooked n')
      × (raw n' ≡ raw n)
      × IsValid n'
      × (n'.ntty_rlock.km_holder ≡ none)
unfolding cooked raw ckdbuf_size rawbuf_size
read_returns_line irqs len n s v p some_cooked f free e =
    let m = record n.ntty_rlock { km_holder = some s.curthr } in
    let r = finish_read_lem len (with_lock n m) s (with_lock-IsValid n m v) p refl (f.free free) in
    (
      r.0,
      read_run irqs len n s v some_cooked f free e r.1,
      r.2,
      r.3,
      r.4,
      ap (λ l. l.km_holder) r.5,
    )

-- A read, by a thread that waits on nothing and is not cancelled, from a valid buffer with no
-- cooked characters, while the fair mutex is free and some thread is ready, goes to sleep at the
-- end of the line of readers with the mutex in its hands; the thread that has been ready for
-- longest runs.
pub read_waits :
    (irqs : List QueueId) (len : ℕ) (n : NTtyState) (s : Kernel) (t : Tid) (rest : List Tid)
    → IsValid n
    → ckdbuf_empty n ≡ true
    → IsFair n.ntty_rlock s
    → n.ntty_rlock.km_holder ≡ none
    → (s.thread s.curthr).kt_wchan ≡ none
    → (s.thread s.curthr).kt_cancelled ≡ false
    → n.ntty_rwaitq ≢ kt_runq
    → line kt_runq s ≡ t ∷ rest
    → (n' : NTtyState) × (s' : Kernel) × (n_tty_read irqs len n s ≡ done (waits_for_chars n' s'))
      × (n'.ntty_rlock.km_holder ≡ some s.curthr)
      × IsAsleep n.ntty_rwaitq s t rest s'
unfolding n_tty_read read_locked
read_waits irqs len n s t rest v none_cooked f free e alive own ready =
    let m = record n.ntty_rlock { km_holder = some s.curthr } in
    let r =
      cancellable_sleep_on-IsAsleep irqs n.ntty_rwaitq s t rest f.consistent e alive own ready in
    (
      with_lock n m,
      r.0,
      rw (
        assert_valid-IsValid n v,
        (lock_free irqs n.ntty_rlock s f free e).0,
        free,
        with_lock-empty n m,
        none_cooked,
        r.1,
      ),
      refl,
      r.2,
    )
