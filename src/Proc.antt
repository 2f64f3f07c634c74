-- ===== src/Proc.antt =====
-- Processes, weenix.assign2/kernel/proc/proc.c, as it is built with VFS and without VM and MTP. A
-- process structure is named by a number; the lists of processes, of children and of threads are
-- given from their heads on. The memory of a process is left to what allocates it.
pub mod Calls
pub mod Pids
pub mod Exit
pub mod Children
pub mod Cleanup
pub mod Waits
pub mod Examples
use usc_homeworks.Base.{
  ℕ, zero, suc, ◌+◌, ◌%◌, Bool, true, false, not, ◌&&◌, ◌||◌, Option, none, some, List, [], ◌∷◌,
  ◌++◌, ◌==◌, ltb, leb, if◌then◌else◌, length, Run, done, fault, out_of_fuel, and_then,
}
use usc_homeworks.Sched.{
  Tid, QueueId, Kernel, KtState, kt_exited, kt_run, kt_no_state, kt_sleep, kt_sleep_cancellable,
  update, is_none, is_empty, is_at, unlink, sched_queue_init, sched_broadcast_on, sched_sleep_on,
  sched_switch,
}
use usc_homeworks.Files.{ℤ, pos, negsuc, nfiles, FileId, VnodeId, FileState, do_close}

abbrev pub ProcRef : Type 0
ProcRef = ℕ

unfoldable pub proc_max_count : ℕ
proc_max_count = 65536

abbrev pub pid_idle : ℕ
pid_idle = 0

abbrev pub pid_init : ℕ
pid_init = 1

pub data ProcState : Type 0 where
  proc_running proc_dead : ProcState

-- `proc_t`
pub record Proc : Type 0 where
  pub p_pid : ℕ
  pub p_threads : List Tid
  pub p_children : List ProcRef
  pub p_pproc : Option ProcRef
  pub p_status : ℤ
  pub p_state : ProcState
  pub p_wait : QueueId
  pub p_files : ℕ → Option FileId
  pub p_cwd : Option VnodeId

-- The process structures, `_proc_list`, `next_pid` and `proc_initproc`, with the scheduler, which has
-- `curproc`, the file objects of all processes, and the vnodes that `vref` was called on, latest first.
-- A call on files is given the descriptors of its process with these objects.
pub record System : Type 0 where
  pub proc : ProcRef → Proc
  pub proc_list : List ProcRef
  pub next_pid : ℕ
  pub initproc : Option ProcRef
  pub kernel : Kernel
  pub files : FileState
  pub vrefs : List VnodeId

-- Whether a process of the list has the number.
unfoldable pub pid_used : ℕ → List ProcRef → (ProcRef → Proc) → Bool
pid_used pid [] t = false
pid_used pid (p ∷ ps) t = ((t p).p_pid == pid) || pid_used pid ps t

-- The loop of `_proc_getid`; `none` stands for -1.
unfoldable pub getid_from : ℕ → ℕ → System → Run (Option ℕ)
getid_from zero pid s = out_of_fuel
getid_from (suc k) pid s =
    let next = (pid + 1) % proc_max_count in
    let rest = getid_from k next s in
    if not (pid_used pid s.proc_list s.proc)
    then done (some pid)
    else if next == s.next_pid
    then done none
    else rest

unfoldable pub pid_taken : Option ℕ → System → System
pid_taken none s = s
pid_taken (some pid) s = record s { next_pid = (pid + 1) % proc_max_count }

unfoldable pub proc_getid : System → Run (Option ℕ × System)
proc_getid s = and_then (getid_from proc_max_count s.next_pid s) λ r. done (r, pid_taken r s)

-- The structure of a new process; `p_wait` is the queue of its structure.
unfoldable pub new_proc : ℕ → QueueId → Option ProcRef → Option VnodeId → Proc
new_proc pid q parent cwd = record {
  p_pid = pid;
  p_threads = [];
  p_children = [];
  p_pproc = parent;
  p_status = pos 0;
  p_state = proc_running;
  p_wait = q;
  p_files = λ fd. none;
  p_cwd = cwd;
}

-- The current directory of the current process, if there are both.
abbrev pub cwd_of : Option ProcRef → (ProcRef → Proc) → Option VnodeId
cwd_of none t = none
cwd_of (some p) t = (t p).p_cwd

-- `vref` of the current directory.
abbrev pub vref_cwd : Option VnodeId → List VnodeId → List VnodeId
vref_cwd none vs = vs
vref_cwd (some v) vs = v ∷ vs

-- The child is put at the end of its parent's list.
abbrev pub adopt : Option ProcRef → ProcRef → (ProcRef → Proc) → ProcRef → Proc
adopt none child t = t
adopt (some p) child t = update t p (record (t p) { p_children = (t p).p_children ++ (child ∷ []) })

-- The new process becomes the init process if it has its number.
unfoldable pub set_init : ℕ → ProcRef → System → Run System
set_init pid p s =
    if not (pid == pid_init)
    then done s
    else if not (is_none s.initproc)
    then fault
    else done (record s { initproc = some p })

-- The numbers that may be given out: the idle process is the first, and makes the init process.
abbrev pub is_idle : Option ProcRef → (ProcRef → Proc) → Bool
is_idle none t = false
is_idle (some p) t = (t p).p_pid == pid_idle

unfoldable pub may_take : ℕ → System → Bool
may_take pid s =
    (not (pid == pid_idle) || is_empty s.proc_list)
    && (not (pid == pid_init) || is_idle s.kernel.curproc s.proc)

-- The rest of `proc_create`, once there are a number and a structure.
unfoldable pub start_proc : ℕ → ProcRef → QueueId → System → Run (Option ProcRef × System)
start_proc pid p q s =
    let cwd = cwd_of s.kernel.curproc s.proc in
    let fresh = update s.proc p (new_proc pid q s.kernel.curproc cwd) in
    and_then
      (set_init pid p (record s {
        proc = adopt s.kernel.curproc p fresh;
        proc_list = s.proc_list ++ (p ∷ []);
        kernel = sched_queue_init q s.kernel;
        vrefs = vref_cwd cwd s.vrefs;
      }))
      λ s'. done (some p, s')

-- `proc_create`, where `slab` is the structure that is allocated with its queue, if any is, and
-- `pagedir` whether there is a page directory.
unfoldable pub proc_create :
    Option (ProcRef × QueueId) → Bool → System → Run (Option ProcRef × System)
proc_create slab pagedir s = and_then (proc_getid s) λ r. elim r.0 [
  | none ↦ done (none, r.1)
  | some pid ↦ if not (may_take pid r.1) then fault else elim slab [
    | none ↦ done (none, r.1)
    | some new ↦ if not pagedir then done (none, r.1) else start_proc pid new.0 new.1 r.1
  ]
]
