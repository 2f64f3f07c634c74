-- ===== src/Proc/Examples.antt =====
-- Runs of weenix.assign2/kernel/proc/proc.c: init is process 1, a shell 2 is its child, and the shell
-- has the child 3. The thread 2 of init waits for its children.
use usc_homeworks.Base.{
  ℕ, ◌+◌, ◌<◌, ◌≡◌, true, false, Option, none, some, List, [], ◌∷◌, ◌==◌, if◌then◌else◌, Run, done,
  fault, out_of_fuel, arith, refl,
}
use usc_homeworks.Sched.{Kernel, sched_broadcast_on, sched_wakeup_on, sched_queue_empty}
use usc_homeworks.Sched.Invariant.{IsConsistent}
use usc_homeworks.Sched.Wakeup.{curthr-IsConsistent}
use usc_homeworks.Sched.Fifo.{IsAsleep}
use usc_homeworks.Sched.Examples.{kernel, kernel-IsConsistent}
use usc_homeworks.Files.{
  pos, negsuc, File, FileState, FileId, nfiles, do_close, with_file, fget, fref, fput, release,
  put_and_return,
}
use usc_homeworks.Files.Refs.{IsCounted, refs, refcount}
use usc_homeworks.Proc.{
  ProcRef, Proc, System, ProcState, proc_running, proc_dead, proc_max_count, proc_getid,
}
use usc_homeworks.Proc.Calls.{
  close_files, reparent, proc_cleanup, all_exited, with_current, with_init, with_parent,
  cleanup_proc, move_children, move_child, bury, broadcast, do_waitpid, reaped, echild, sleeps,
}
use usc_homeworks.Proc.Pids.{IsPick, IsAfterPick, getid_lem}
use usc_homeworks.Proc.Exit.{exit_closes}
use usc_homeworks.Proc.Children.{IsFamily}
use usc_homeworks.Proc.Cleanup.{IsEnded, cleanup_ends}
use usc_homeworks.Proc.Waits.{
  IsChild, is_due, IsReaped, waitpid_reaps, waitpid_refuses, waitpid_sleeps,
}

-- A process, with the queue of its structure.
abbrev process : ℕ → List ProcRef → ProcRef → ProcState → Proc
process n children parent state = record {
  p_pid = n;
  p_threads = [];
  p_children = children;
  p_pproc = some parent;
  p_status = pos 7;
  p_state = state;
  p_wait = n;
  p_files = λ fd. if fd == 2 then some 5 else none;
  p_cwd = some 9;
}

abbrev processes : ProcRef → Proc
processes p =
    if p == 1
    then process 1 (2 ∷ []) 0 proc_running
    else if p == 2
    then process 2 (3 ∷ []) 1 proc_running
    else process p [] 2 proc_dead

-- One file object, which the descriptor 2 of each of the three processes refers to.
abbrev object : File
object = record {
  f_pos = 0;
  f_mode = record { fmode_read = true; fmode_write = false; fmode_append = false };
  f_refcount = 3;
  f_vnode = some 7;
}

abbrev objects : FileState
objects = record {
  p_files = λ fd. if fd == 2 then some 5 else none;
  file = λ f. if f == 5 then some object else none;
  vputs = [];
  vn_len = λ v. 0;
}

abbrev system : ProcRef → System
system cur = record {
  proc = processes;
  proc_list = 1 ∷ 2 ∷ 3 ∷ [];
  next_pid = 2;
  initproc = some 1;
  kernel = record kernel { curproc = some cur };
  files = objects;
  vrefs = [];
}

-- What the two other processes have of it.
abbrev others : FileId → ℕ
others f = if f == 5 then 2 else 0

others_lem :
    (f : FileId)
    → others f ≡ refs nfiles (processes 1).p_files f + refs nfiles (processes 3).p_files f
unfolding refs
others_lem f = ground arith

objects-IsCounted : IsCounted others objects
unfolding refs
objects-IsCounted = record {
  counted = λ f. ground arith;
  vnode = λ f. ground arith;
  used = λ f. ground arith;
}

system-IsConsistent : (cur : ProcRef) → IsConsistent (system cur).kernel
system-IsConsistent cur = curthr-IsConsistent kernel 1 (some cur) kernel-IsConsistent

below_count : 2 < proc_max_count
unfolding proc_max_count
below_count = omega arith

getid_lem_example :
    (o : Option ℕ) × (s' : System) × (proc_getid (system 2) ≡ done (o, s'))
    × IsPick (system 2) o
    × IsAfterPick (system 2) o s'
getid_lem_example = getid_lem (system 2) below_count

exit_closes_example :
    (f' : FileState) × (close_files nfiles 0 objects ≡ done f')
    × ((d : ℕ) → d < nfiles → f'.p_files d ≡ none)
    × ((x : FileId) → refcount (f'.file x) ≡ others x)
    × ((x : FileId) → others x ≡ 0 → f'.file x ≡ none)
exit_closes_example = exit_closes others objects objects-IsCounted

shell-IsFamily : IsFamily (3 ∷ []) 2 processes
shell-IsFamily = record { children = refl; once = λ p. ground arith; parent = λ p h. ground arith }

cleanup_ends_example :
    (s' : System) × (proc_cleanup (pos 0) (system 2) ≡ done s')
    × IsEnded others (pos 0) 2 1 1 (3 ∷ []) (system 2) s'
cleanup_ends_example = cleanup_ends others (pos 0) 2 1 1 (3 ∷ []) (system 2) (record {
  current = refl;
  root = refl;
  child = refl;
  apart = ground arith;
  number = omega arith;
  family = shell-IsFamily;
  counted = objects-IsCounted;
  consistent = system-IsConsistent 2;
  queue = ground arith;
})

waitpid_reaps_example :
    (d : ProcRef) × (s' : System) × (do_waitpid [] (negsuc 0) true 2 (system 2)
      ≡ done (reaped (processes d).p_pid (processes d).p_status, s'))
    × IsChild d 2 (system 2)
    × (is_due none (processes d) ≡ true)
    × IsReaped d 2 (system 2) s'
unfolding all_exited
waitpid_reaps_example =
    waitpid_reaps [] (negsuc 0) none 2 3 (system 2) refl (omega arith) refl
      (λ d h due. ground arith)

waitpid_refuses_example : do_waitpid [] (pos 5) true 2 (system 2) ≡ done (echild, system 2)
waitpid_refuses_example =
    waitpid_refuses [] (pos 5) (some 5) 2 (system 2) refl (λ c h. ground arith)

waitpid_sleeps_example :
    (k : Kernel) × (do_waitpid [] (negsuc 0) true 1 (system 1)
      ≡ done (sleeps, record (system 1) { kernel = k }))
    × IsAsleep 1 (system 1).kernel 3 [] k
waitpid_sleeps_example =
    waitpid_sleeps [] (negsuc 0) none 1 2 (system 1) 3 [] refl (omega arith) refl
      (λ d h. ground arith) (system-IsConsistent 1) refl (ground arith) refl

-- The process 3 has a dead child 4 and ends: init, whose thread waits for its children, has 4 as its
-- child then, and its thread goes on waiting.
abbrev deeper : ProcRef → Proc
deeper p =
    if p == 1
    then process 1 (2 ∷ []) 0 proc_running
    else if p == 2
    then process 2 (3 ∷ []) 1 proc_running
    else if p == 3
    then process 3 (4 ∷ []) 2 proc_running
    else process p [] 3 proc_dead

abbrev after : Run System → System
after (done s) = s
after fault = system 3
after out_of_fuel = system 3

abbrev ended : System
ended = after (proc_cleanup (pos 0) (record (system 3) { proc = deeper }))

init_sleeps_on :
    ((ended.proc 1).p_children ≡ 2 ∷ 4 ∷ [])
    × ((ended.proc 4).p_state ≡ proc_dead)
    × ((ended.kernel.queue 1).tq_list ≡ 2 ∷ [])
unfolding proc_cleanup with_current with_init with_parent cleanup_proc close_files do_close
    with_file fget fref fput release put_and_return reparent move_children move_child bury broadcast
    sched_broadcast_on sched_wakeup_on sched_queue_empty
init_sleeps_on = (refl, refl, refl)
