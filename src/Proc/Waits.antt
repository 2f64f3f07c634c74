-- ===== src/Proc/Waits.antt =====
-- `do_waitpid` of weenix.assign2/kernel/proc/proc.c.
use usc_homeworks.Base.{
  ℕ, ◌-◌, ◌<◌, ◌≡◌, ◌≢◌, Bool, true, false, not, ◌&&◌, ◌||◌, Option, none, some, List, [], ◌∷◌,
  ◌==◌, if◌then◌else◌, arith, refl, ◌∙◌, Bool-cases, Option-cases, inl, inr, ==_iff, done, and_then,
}
use usc_homeworks.Sched.{Tid, QueueId, Kernel, update, unlink, sched_sleep_on, kt_runq}
use usc_homeworks.Sched.Invariant.{IsConsistent}
use usc_homeworks.Sched.Fifo.{line, IsAsleep, sleep_on-IsAsleep}
use usc_homeworks.Sched.Queues.{count, count-unlink}
use usc_homeworks.Files.{ℤ}
use usc_homeworks.Proc.{ProcRef, Proc, System}
use usc_homeworks.Proc.Calls.{
  dead_child, has_child, is_wanted, is_dead, all_exited, reap, wait_round, wanted_pid, do_waitpid,
  reaped, echild, sleeps,
}

-- A child that is waited for and dead.
abbrev pub is_due : Option ℕ → Proc → Bool
is_due want p = is_wanted want p.p_pid && is_dead p.p_state

-- What the search finds is such a child of the list, and it finds none only if there is none.
dead_child_lem :
    (want : Option ℕ) (cs : List ProcRef) (t : ProcRef → Proc) (c : ProcRef)
    → dead_child want cs t ≡ some c
    → (0 < count c cs) × (is_due want (t c) ≡ true)
unfolding dead_child
dead_child_lem want [] t c e = cc
dead_child_lem want (d ∷ cs) t c e = elim (Bool-cases (is_due want (t d))) [
  | inl due ↦ let here : d ≡ c = cc (rw due at e) in (ground arith, rw (← here) due)
  | inr later ↦ let r = dead_child_lem want cs t c (rw later at e) in (omega (arith, r.0), r.1)
]

no_dead_child :
    (want : Option ℕ) (cs : List ProcRef) (t : ProcRef → Proc) (c : ProcRef)
    → dead_child want cs t ≡ none
    → 0 < count c cs
    → is_due want (t c) ≡ false
unfolding dead_child
no_dead_child want [] t c e h = absurd (omega arith)
no_dead_child want (d ∷ cs) t c e h = elim (Bool-cases (is_due want (t d))) [
  | inl due ↦ cc (rw due at e)
  | inr later ↦ elim (Bool-cases (d == c)) [
    | inl same ↦ rw (← (==_iff d c).0 same) later
    | inr other ↦ no_dead_child want cs t c (rw later at e) (ground arith)
  ]
]

or_true : (b : Bool) → (b || true) ≡ true
or_true true = refl
or_true false = refl

has_child_lem :
    (want : Option ℕ) (cs : List ProcRef) (t : ProcRef → Proc) (c : ProcRef)
    → 0 < count c cs
    → is_wanted want (t c).p_pid ≡ true
    → has_child want cs t ≡ true
unfolding has_child
has_child_lem want [] t c h w = absurd (omega arith)
has_child_lem want (d ∷ cs) t c h w = elim (Bool-cases (d == c)) [
  | inl same ↦ rw ((==_iff d c).0 same, w)
  | inr other ↦ rw (has_child_lem want cs t c (ground arith) w) (or_true _)
]

-- A child of the process, and what waiting for one does to it.
abbrev pub IsChild : ProcRef → ProcRef → System → Type 0
IsChild c cur s = 0 < count c (s.proc cur).p_children

pub record IsReaped (c cur : ProcRef) (s s' : System) : Type 0 where
  pub children :
      (p : ProcRef)
      → count p (s'.proc cur).p_children
        ≡ count p (s.proc cur).p_children - (if c == p then 1 else 0)
  pub listed :
      (p : ProcRef) → count p s'.proc_list ≡ count p s.proc_list - (if c == p then 1 else 0)

waits :
    (irqs : List QueueId) (pid : ℤ) (want : Option ℕ) (cur : ProcRef) (s : System)
    → wanted_pid pid ≡ some want
    → do_waitpid irqs pid true cur s ≡ wait_round irqs want cur s
unfolding do_waitpid
waits irqs pid want cur s e = rw (e, do_waitpid)

round_dead :
    (irqs : List QueueId) (want : Option ℕ) (cur c : ProcRef) (s : System)
    → dead_child want (s.proc cur).p_children s.proc ≡ some c
    → wait_round irqs want cur s ≡ reap cur c s
unfolding wait_round
round_dead irqs want cur c s e = rw (e, wait_round)

round_alive :
    (irqs : List QueueId) (want : Option ℕ) (cur : ProcRef) (s : System) (b : Bool)
    → dead_child want (s.proc cur).p_children s.proc ≡ none
    → has_child want (s.proc cur).p_children s.proc ≡ b
    → wait_round irqs want cur s ≡ (
        if not b
        then done (echild, s)
        else and_then
            (sched_sleep_on irqs (s.proc cur).p_wait s.kernel)
            (λ k. done (sleeps, record s { kernel = k })))
unfolding wait_round
round_alive irqs want cur s b e h = rw (e, wait_round, h)

after_reap : ProcRef → ProcRef → System → System
after_reap cur c s = record s {
  proc = update s.proc cur (record (s.proc cur) { p_children = unlink c (s.proc cur).p_children });
  proc_list = unlink c s.proc_list;
}

reap_run :
    (cur c : ProcRef) (s : System)
    → all_exited (s.proc c).p_threads s.kernel ≡ true
    → reap cur c s ≡ done (reaped (s.proc c).p_pid (s.proc c).p_status, after_reap cur c s)
unfolding reap after_reap
reap_run cur c s e = rw e

after_reap-IsReaped : (cur c : ProcRef) (s : System) → IsReaped c cur s (after_reap cur c s)
unfolding after_reap
after_reap-IsReaped cur c s = record {
  children = λ p. ground (arith, count-unlink c p (s.proc cur).p_children);
  listed = λ p. count-unlink c p s.proc_list;
}

-- When a process waits for any child, or for one of a number, and such a child is dead, and the threads
-- of its dead children have exited, `do_waitpid` returns the number and the status of a child that is
-- waited for and dead, and takes it off the list of children and off the list of processes.
pub waitpid_reaps :
    (irqs : List QueueId) (pid : ℤ) (want : Option ℕ) (cur c : ProcRef) (s : System)
    → wanted_pid pid ≡ some want
    → IsChild c cur s
    → is_due want (s.proc c) ≡ true
    → ((d : ProcRef)
        → IsChild d cur s
        → is_due want (s.proc d) ≡ true
        → all_exited (s.proc d).p_threads s.kernel ≡ true)
    → (d : ProcRef) × (s' : System) × (do_waitpid irqs pid true cur s
        ≡ done (reaped (s.proc d).p_pid (s.proc d).p_status, s'))
      × IsChild d cur s
      × (is_due want (s.proc d) ≡ true)
      × IsReaped d cur s s'
waitpid_reaps irqs pid want cur c s e child due exited =
    elim (Option-cases (dead_child want (s.proc cur).p_children s.proc)) [
      | inl missing ↦ cc (due, no_dead_child want (s.proc cur).p_children s.proc c missing child)
      | inr (d, found) ↦
          let r = dead_child_lem want (s.proc cur).p_children s.proc d found in
          (
            d,
            after_reap cur d s,
            waits irqs pid want cur s e
                ∙ round_dead irqs want cur d s found
                ∙ reap_run cur d s (exited d r.0 r.1),
            r.0,
            r.1,
            after_reap-IsReaped cur d s,
          )
    ]

no_child :
    (want : Option ℕ) (cs : List ProcRef) (t : ProcRef → Proc)
    → ((c : ProcRef) → 0 < count c cs → is_wanted want (t c).p_pid ≡ false)
    → (dead_child want cs t ≡ none) × (has_child want cs t ≡ false)
unfolding dead_child has_child
no_child want [] t h = (refl, refl)
no_child want (d ∷ cs) t h =
    let unwanted : is_wanted want (t d).p_pid ≡ false = h d (ground arith) in
    let r = no_child want cs t (λ c k. h c (omega arith)) in
    (rw (unwanted, r.0), rw (unwanted, r.1))

-- When a process waits for any child, or for one of a number, and has no such child, `do_waitpid` fails
-- with ECHILD and changes nothing.
pub waitpid_refuses :
    (irqs : List QueueId) (pid : ℤ) (want : Option ℕ) (cur : ProcRef) (s : System)
    → wanted_pid pid ≡ some want
    → ((c : ProcRef) → IsChild c cur s → is_wanted want (s.proc c).p_pid ≡ false)
    → do_waitpid irqs pid true cur s ≡ done (echild, s)
waitpid_refuses irqs pid want cur s e h =
    let r = no_child want (s.proc cur).p_children s.proc h in
    waits irqs pid want cur s e ∙ round_alive irqs want cur s false r.0 r.1

none_due :
    (want : Option ℕ) (cs : List ProcRef) (t : ProcRef → Proc)
    → ((c : ProcRef) → 0 < count c cs → is_due want (t c) ≡ false)
    → dead_child want cs t ≡ none
unfolding dead_child
none_due want [] t h = refl
none_due want (d ∷ cs) t h =
    let alive : is_due want (t d) ≡ false = h d (ground arith) in
    rw (alive, none_due want cs t (λ c k. h c (omega arith)))

-- When a process waits for any child, or for one of a number, has such a child, but none that is dead,
-- and threads and queues agree, its thread waits on nothing and another is ready, `do_waitpid` puts the
-- thread at the end of the line of the process's queue and switches to the thread that has been ready
-- for longest, whose process is the current one then.
pub waitpid_sleeps :
    (irqs : List QueueId) (pid : ℤ) (want : Option ℕ) (cur c : ProcRef) (s : System) (t : Tid)
    (rest : List Tid)
    → wanted_pid pid ≡ some want
    → IsChild c cur s
    → is_wanted want (s.proc c).p_pid ≡ true
    → ((d : ProcRef) → IsChild d cur s → is_due want (s.proc d) ≡ false)
    → IsConsistent s.kernel
    → (s.kernel.thread s.kernel.curthr).kt_wchan ≡ none
    → (s.proc cur).p_wait ≢ kt_runq
    → line kt_runq s.kernel ≡ t ∷ rest
    → (k : Kernel) × (do_waitpid irqs pid true cur s ≡ done (sleeps, record s { kernel = k }))
      × IsAsleep (s.proc cur).p_wait s.kernel t rest k
waitpid_sleeps irqs pid want cur c s t rest e child wanted alive ok free ne ready =
    let cs = (s.proc cur).p_children in
    let r = sleep_on-IsAsleep irqs (s.proc cur).p_wait s.kernel t rest ok free ne ready in
    (
      r.0,
      waits irqs pid want cur s e
          ∙ round_alive irqs want cur s true (none_due want cs s.proc alive)
              (has_child_lem want cs s.proc c child wanted)
          ∙ rw r.1,
      r.2,
    )
