-- ===== src/Proc/Cleanup.antt =====
-- `proc_cleanup` of weenix.assign2/kernel/proc/proc.c as a whole.
use usc_homeworks.Base.{
  ℕ, suc, ◌<◌, ◌≡◌, ◌≢◌, true, false, Option, none, some, List, [], ◌++◌, ◌==◌, if◌then◌else◌,
  arith, ap, ◌∙◌, done, length, leb,
}
use usc_homeworks.Sched.{Tid, kt_run, QueueId, Kernel, update, kt_runq, sched_broadcast_on}
use usc_homeworks.Sched.Queues.{count}
use usc_homeworks.Sched.Invariant.{IsConsistent}
use usc_homeworks.Sched.Wakeup.{broadcast_wakes_all, IsEmptied}
use usc_homeworks.Files.{ℤ, nfiles, FileId, FileState}
use usc_homeworks.Files.Refs.{IsCounted, refcount}
use usc_homeworks.Proc.{ProcRef, Proc, System, pid_init, proc_dead}
use usc_homeworks.Proc.Calls.{
  close_files, reparent, broadcast, bury, vput_cwd, cleanup_proc, proc_cleanup, with_current,
  with_init, with_parent,
}
use usc_homeworks.Proc.Exit.{exit_closes}
use usc_homeworks.Proc.Children.{IsFamily, IsMoved, reparent_lem}

-- A process that may end: not init, with a parent, whose children are a family, whose files count its
-- descriptors and the `others`, which other processes have, in a system whose threads and queues agree.
pub record IsEnding (others : FileId → ℕ) (cur init parent : ProcRef) (cs : List ProcRef)
    (s : System) : Type 0 where
  pub current : s.kernel.curproc ≡ some cur
  pub root : s.initproc ≡ some init
  pub child : (s.proc cur).p_pproc ≡ some parent
  pub apart : cur ≢ init
  pub number : 1 < (s.proc cur).p_pid
  pub family : IsFamily cs cur s.proc
  pub counted : IsCounted others (record s.files { p_files = (s.proc cur).p_files })
  pub consistent : IsConsistent s.kernel
  pub queue : (s.proc parent).p_wait ≢ kt_runq

-- A process that has ended. The files count the references that are left, and the threads that waited
-- for the children of its parent are ready.
pub record IsEnded (others : FileId → ℕ) (status : ℤ) (cur init parent : ProcRef)
    (cs : List ProcRef) (s s' : System) : Type 0 where
  pub dead : (s'.proc cur).p_state ≡ proc_dead
  pub status_kept : (s'.proc cur).p_status ≡ status
  pub childless : (s'.proc cur).p_children ≡ []
  pub adopted : (s'.proc init).p_children ≡ (s.proc init).p_children ++ cs
  pub parents :
      (p : ProcRef)
      → (s'.proc p).p_pproc ≡ (if count p cs == 0 then (s.proc p).p_pproc else some init)
  pub table : (d : ℕ) → d < nfiles → (s'.proc cur).p_files d ≡ none
  pub tables : (p : ProcRef) → (p == cur) ≡ false → (s'.proc p).p_files ≡ (s.proc p).p_files
  pub files_left : (x : FileId) → refcount (s'.files.file x) ≡ others x
  pub files_gone : (x : FileId) → others x ≡ 0 → s'.files.file x ≡ none
  pub woken : IsEmptied (s.proc parent).p_wait s.kernel s'.kernel
  pub ready :
      (t : Tid)
      → 0 < count t (s.kernel.queue (s.proc parent).p_wait).tq_list
      → (s'.kernel.thread t).kt_state ≡ kt_run

enters :
    (status : ℤ) (cur init parent : ProcRef) (s : System)
    → s.kernel.curproc ≡ some cur
    → s.initproc ≡ some init
    → (s.proc cur).p_pproc ≡ some parent
    → leb 1 (s.proc cur).p_pid ≡ true
    → proc_cleanup status s ≡ cleanup_proc status cur parent init s
unfolding proc_cleanup with_current with_init with_parent
enters status cur init parent s e f g h =
    ap (λ o. with_current status o s) e
    ∙ ap (λ o. with_init status cur o s) f
    ∙ ap (λ o. with_parent status cur init o s) g
    ∙ rw h

cleanup_run :
    (status : ℤ) (cur init parent : ProcRef) (s s' : System) (f : FileState) (u : ProcRef → Proc)
    → close_files nfiles 0 (record s.files { p_files = (s.proc cur).p_files }) ≡ done f
    → reparent cur init (update s.proc cur (record (s.proc cur) { p_files = f.p_files })) ≡ done u
    → bury status cur parent
        (record s { proc = u; files = record f { vputs = vput_cwd (s.proc cur).p_cwd f.vputs } })
      ≡ done s'
    → cleanup_proc status cur parent init s ≡ done s'
unfolding cleanup_proc
cleanup_run status cur init parent s s' f u closed moved buried = rw (closed, moved, buried)

-- The state after the process is buried.
abbrev pub buried : ℤ → ProcRef → System → Kernel → System
buried status cur s k = record s {
  proc = update s.proc cur (record (s.proc cur) { p_state = proc_dead; p_status = status });
  kernel = k;
}

-- The state before that, its files closed and its children moved.
abbrev pub emptied : ProcRef → FileState → (ProcRef → Proc) → System → System
emptied cur f u s = record s {
  proc = u;
  files = record f { vputs = vput_cwd (s.proc cur).p_cwd f.vputs };
}

abbrev pub closed_table : ProcRef → FileState → (ProcRef → Proc) → ProcRef → Proc
closed_table cur f t = update t cur (record (t cur) { p_files = f.p_files })

bury_run :
    (status : ℤ) (cur parent : ProcRef) (s : System) (k : Kernel)
    → (let p = s.proc cur in
        let t = update s.proc cur (record p { p_state = proc_dead; p_status = status }) in
        broadcast (t parent).p_wait s.kernel ≡ done k)
    → bury status cur parent s ≡ done (buried status cur s k)
unfolding bury
bury_run status cur parent s k run = rw run

broadcast_run :
    (q : QueueId) (k k' : Kernel)
    → sched_broadcast_on (suc (length (k.queue q).tq_list)) q k ≡ done k'
    → broadcast q k ≡ done k'
unfolding broadcast
broadcast_run q k k' e = e

same_wait :
    (status : ℤ) (cur parent : ProcRef) (u : ProcRef → Proc)
    → (update u cur (record (u cur) { p_state = proc_dead; p_status = status }) parent).p_wait
      ≡ (u parent).p_wait
same_wait status cur parent u = ground arith

same_wait_table :
    (cur parent : ProcRef) (t : ProcRef → Proc) (table : ℕ → Option FileId)
    → (update t cur (record (t cur) { p_files = table }) parent).p_wait ≡ (t parent).p_wait
same_wait_table cur parent t table = ground arith

with_table :
    (cs : List ProcRef) (cur : ProcRef) (t : ProcRef → Proc) (table : ℕ → Option FileId)
    → IsFamily cs cur t
    → IsFamily cs cur (update t cur (record (t cur) { p_files = table }))
with_table cs cur t table f = record {
  children = ground (arith, f.children);
  once = f.once;
  parent = λ p h. ground (arith, f.parent p);
}

ended :
    (others : FileId → ℕ) (status : ℤ) (cur init parent : ProcRef) (cs : List ProcRef) (s : System)
    (f : FileState) (u : ProcRef → Proc) (k : Kernel)
    → cur ≢ init
    → IsMoved cs cur init (closed_table cur f s.proc) u
    → ((d : ℕ) → d < nfiles → f.p_files d ≡ none)
    → ((x : FileId) → refcount (f.file x) ≡ others x)
    → ((x : FileId) → others x ≡ 0 → f.file x ≡ none)
    → IsEmptied (s.proc parent).p_wait s.kernel k
    → ((t : Tid)
        → 0 < count t (s.kernel.queue (s.proc parent).p_wait).tq_list
        → (k.thread t).kt_state ≡ kt_run)
    → IsEnded others status cur init parent cs s (buried status cur (emptied cur f u s) k)
ended others status cur init parent cs s f u k apart m closed left gone woken ready = record {
  dead = ground arith;
  status_kept = ground arith;
  childless = ground (arith, m.left);
  adopted = ground (arith, m.taken);
  parents = λ p. ground (arith, m.parents p);
  table = λ d l. ground (arith, m.tables cur, closed d l);
  tables = λ p ne. ground (arith, m.tables p);
  files_left = left;
  files_gone = gone;
  woken = woken;
  ready = ready;
}

-- When a process ends that is not init and has a parent, whose children stand on its list once, with
-- it as their parent, whose files count its descriptors and the references that others have, in a
-- system whose threads and queues agree, `proc_cleanup` returns: the process is dead, with its status,
-- without children or descriptors; each file object counts the references of others, and is freed if
-- there are none; its children are init's, after those init had; no other process changes its parent
-- or its descriptors; and the threads that waited for its parent's children are ready, on the run queue
-- behind those that were ready before.
pub cleanup_ends :
    (others : FileId → ℕ) (status : ℤ) (cur init parent : ProcRef) (cs : List ProcRef) (s : System)
    → IsEnding others cur init parent cs s
    → (s' : System) × (proc_cleanup status s ≡ done s')
      × IsEnded others status cur init parent cs s s'
cleanup_ends others status cur init parent cs s w =
    let closed = exit_closes others (record s.files { p_files = (s.proc cur).p_files }) w.counted in
    let f = closed.0 in
    let t = closed_table cur f s.proc in
    let number : (t cur).p_pid ≢ pid_init = λ e. ground (arith, w.number, e) in
    let family = with_table cs cur s.proc f.p_files w.family in
    let moved = reparent_lem cs cur init t w.apart number family in
    let u = moved.0 in
    let q = (s.proc parent).p_wait in
    let at_q =
      same_wait status cur parent u
      ∙ moved.2.waits parent
      ∙ same_wait_table cur parent s.proc f.p_files in
    let woken =
      broadcast_wakes_all (suc (length (s.kernel.queue q).tq_list)) q s.kernel w.consistent w.queue
        (omega arith) in
    let run =
      bury_run status cur parent (emptied cur f u s) woken.0
        (rw at_q (broadcast_run q s.kernel woken.0 woken.1)) in
    let positive : leb 1 (s.proc cur).p_pid ≡ true = ground (arith, w.number) in
    (
      buried status cur (emptied cur f u s) woken.0,
      enters status cur init parent s w.current w.root w.child positive
          ∙ cleanup_run status cur init parent s _ f u closed.1 moved.1 run,
      ended others status cur init parent cs s f u woken.0 w.apart moved.2 closed.2 closed.3
          closed.4 woken.2 woken.3,
    )
