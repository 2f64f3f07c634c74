-- ===== src/Proc/Calls.antt =====
-- The end of a process and waiting for it, `proc_cleanup`, `proc_thread_exited`, `proc_lookup` and
-- `do_waitpid` of weenix.assign2/kernel/proc/proc.c.
use usc_homeworks.Base.{
  ℕ, zero, suc, ◌+◌, Bool, true, false, not, ◌&&◌, ◌||◌, Option, none, some, List, [], ◌∷◌, ◌++◌,
  ◌==◌, leb, if◌then◌else◌, length, Run, done, fault, and_then,
}
use usc_homeworks.Sched.{
  Tid, QueueId, Kernel, KtState, kt_exited, kt_run, kt_no_state, kt_sleep, kt_sleep_cancellable,
  update, is_empty, unlink, sched_broadcast_on, sched_sleep_on, sched_switch,
}
use usc_homeworks.Files.{ℤ, pos, negsuc, nfiles, VnodeId, FileState, do_close}
use usc_homeworks.Proc.{Proc, ProcRef, ProcState, System, pid_init, proc_dead, proc_running}

-- The loop over the descriptors of a process that ends, from `fd` on.
unfoldable pub close_files : ℕ → ℕ → FileState → Run FileState
close_files zero fd f = done f
close_files (suc k) fd f = and_then (do_close (pos fd) f) λ r. close_files k (fd + 1) r.1

abbrev pub is_parent : Option ProcRef → ProcRef → Bool
is_parent none p = false
is_parent (some q) p = q == p

-- One child of the process `cur` goes to the process `to`.
unfoldable pub move_child : ProcRef → ProcRef → ProcRef → (ProcRef → Proc) → ProcRef → Proc
move_child cur to c t =
    let t1 = update t c (record (t c) { p_pproc = some to }) in
    let t2 = update t1 cur (record (t1 cur) { p_children = unlink c (t1 cur).p_children }) in
    update t2 to (record (t2 to) { p_children = (t2 to).p_children ++ (c ∷ []) })

unfoldable pub move_children :
    List ProcRef → ProcRef → ProcRef → (ProcRef → Proc) → Run (ProcRef → Proc)
move_children [] cur to t = done t
move_children (c ∷ cs) cur to t =
    let rest = move_children cs cur to (move_child cur to c t) in
    if is_parent (t c).p_pproc cur then rest else fault

-- The children of a process that ends.
unfoldable pub reparent : ProcRef → ProcRef → (ProcRef → Proc) → Run (ProcRef → Proc)
reparent cur to t =
    if is_empty (t cur).p_children
    then done t
    else if (t cur).p_pid == pid_init
    then fault
    else move_children (t cur).p_children cur to t

-- `sched_broadcast_on`, with a round for each thread of the queue and one more.
unfoldable pub broadcast : QueueId → Kernel → Run Kernel
broadcast q k = sched_broadcast_on (suc (length (k.queue q).tq_list)) q k

-- The end of `proc_cleanup`: the process is dead, and its parent is woken.
unfoldable pub bury : ℤ → ProcRef → ProcRef → System → Run System
bury status cur parent s =
    let t = update s.proc cur (record (s.proc cur) { p_state = proc_dead; p_status = status }) in
    and_then (broadcast (t parent).p_wait s.kernel) λ k. done (record s { proc = t; kernel = k })

-- `vput` of the current directory, which is recorded with the other calls of it.
abbrev pub vput_cwd : Option VnodeId → List VnodeId → List VnodeId
vput_cwd none vs = vs
vput_cwd (some v) vs = v ∷ vs

-- `proc_cleanup` of the process `cur`, whose parent is `parent`, when there is an init process.
unfoldable pub cleanup_proc : ℤ → ProcRef → ProcRef → ProcRef → System → Run System
cleanup_proc status cur parent init s =
    let p = s.proc cur in
    and_then (close_files nfiles 0 (record s.files { p_files = p.p_files })) λ f.
      let t = update s.proc cur (record p { p_files = f.p_files }) in
      let g = record f { vputs = vput_cwd p.p_cwd f.vputs } in
      and_then (reparent cur init t) λ u. bury status cur parent (record s { proc = u; files = g })

-- The assertions before that: there is a parent and the number is at least 1, and there is an init
-- process.
unfoldable pub with_parent : ℤ → ProcRef → ProcRef → Option ProcRef → System → Run System
with_parent status cur init none s = fault
with_parent status cur init (some parent) s =
    if leb 1 (s.proc cur).p_pid then cleanup_proc status cur parent init s else fault

unfoldable pub with_init : ℤ → ProcRef → Option ProcRef → System → Run System
with_init status cur none s = fault
with_init status cur (some init) s = with_parent status cur init (s.proc cur).p_pproc s

unfoldable pub with_current : ℤ → Option ProcRef → System → Run System
with_current status none s = fault
with_current status (some cur) s = with_init status cur s.initproc s

unfoldable pub proc_cleanup : ℤ → System → Run System
proc_cleanup status s = with_current status s.kernel.curproc s

-- `proc_thread_exited`, up to the switch to another thread.
unfoldable pub proc_thread_exited : List QueueId → ℤ → System → Run System
proc_thread_exited irqs retval s =
    and_then (proc_cleanup retval s)
      λ s'. and_then (sched_switch irqs s'.kernel) λ k. done (record s' { kernel = k })

-- The first process of the list with the number.
unfoldable pub find_pid : ℕ → List ProcRef → (ProcRef → Proc) → Option ProcRef
find_pid pid [] t = none
find_pid pid (p ∷ ps) t =
    let later = find_pid pid ps t in if (t p).p_pid == pid then some p else later

unfoldable pub proc_lookup : ℤ → System → Option ProcRef
proc_lookup (negsuc n) s = none
proc_lookup (pos pid) s = find_pid pid s.proc_list s.proc

-- What `do_waitpid` does: it returns the number and the status of a child, or an error, or sleeps.
pub data Waited : Type 0 where
  reaped : ℕ → ℤ → Waited
  enotsup echild : Waited
  sleeps : Waited

abbrev pub is_dead : ProcState → Bool
is_dead proc_dead = true
is_dead proc_running = false

-- Whether the child is one that is waited for: any, if the number is -1.
abbrev pub is_wanted : Option ℕ → ℕ → Bool
is_wanted none pid = true
is_wanted (some n) pid = pid == n

-- The first dead child that is waited for, and whether there is a child that is.
unfoldable pub dead_child : Option ℕ → List ProcRef → (ProcRef → Proc) → Option ProcRef
dead_child want [] t = none
dead_child want (c ∷ cs) t =
    let later = dead_child want cs t in
    if is_wanted want (t c).p_pid && is_dead (t c).p_state then some c else later

unfoldable pub has_child : Option ℕ → List ProcRef → (ProcRef → Proc) → Bool
has_child want [] t = false
has_child want (c ∷ cs) t = is_wanted want (t c).p_pid || has_child want cs t

abbrev pub is_exited : KtState → Bool
is_exited kt_exited = true
is_exited kt_no_state = false
is_exited kt_run = false
is_exited kt_sleep = false
is_exited kt_sleep_cancellable = false

unfoldable pub all_exited : List Tid → Kernel → Bool
all_exited [] k = true
all_exited (t ∷ ts) k = is_exited (k.thread t).kt_state && all_exited ts k

-- What follows the label `deadchild`.
unfoldable pub reap : ProcRef → ProcRef → System → Run (Waited × System)
reap cur c s =
    let p = s.proc c in
    if not (all_exited p.p_threads s.kernel)
    then fault
    else done (
      reaped p.p_pid p.p_status,
      record s {
        proc =
            update s.proc cur
              (record (s.proc cur) { p_children = unlink c (s.proc cur).p_children });
        proc_list = unlink c s.proc_list;
      },
    )

-- One round of the loops of `do_waitpid`. A thread that slept in it goes through another when it runs
-- again.
unfoldable pub wait_round : List QueueId → Option ℕ → ProcRef → System → Run (Waited × System)
wait_round irqs want cur s = elim (dead_child want (s.proc cur).p_children s.proc) [
  | some c ↦ reap cur c s
  | none ↦
      if not (has_child want (s.proc cur).p_children s.proc)
      then done (echild, s)
      else and_then (sched_sleep_on irqs (s.proc cur).p_wait s.kernel)
          (λ k. done (sleeps, record s { kernel = k }))
]

-- `none` for -1, a number that is positive, and otherwise what is not supported.
abbrev pub wanted_pid : ℤ → Option (Option ℕ)
wanted_pid (negsuc zero) = some none
wanted_pid (negsuc (suc n)) = none
wanted_pid (pos zero) = none
wanted_pid (pos (suc n)) = some (some (suc n))

unfoldable pub do_waitpid : List QueueId → ℤ → Bool → ProcRef → System → Run (Waited × System)
do_waitpid irqs pid no_options cur s = elim (wanted_pid pid) [
  | none ↦ done (enotsup, s)
  | some want ↦ if not no_options then done (enotsup, s) else wait_round irqs want cur s
]
