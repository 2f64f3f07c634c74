-- ===== src/Proc/Children.antt =====
-- The children of a process that ends, in `proc_cleanup` of weenix.assign2/kernel/proc/proc.c.
use usc_homeworks.Base.{
  ◌<◌, ◌≤◌, ◌≡◌, ◌≢◌, true, false, some, List, [], ◌∷◌, ◌++◌, ◌==◌, if◌then◌else◌, arith, refl, ◌∙◌,
  done, append_assoc, append-nil,
}
use usc_homeworks.Sched.Queues.{count}
use usc_homeworks.Proc.{ProcRef, Proc, pid_init}
use usc_homeworks.Proc.Calls.{is_parent, move_child, move_children, reparent}

-- What moving children does: those of `cs` have the parent `to`, and no other link changes but the
-- lists of the two parents.
pub record IsMoved (cs : List ProcRef) (cur to : ProcRef) (t u : ProcRef → Proc) : Type 0 where
  pub left : (u cur).p_children ≡ []
  pub taken : (u to).p_children ≡ (t to).p_children ++ cs
  pub parents : (p : ProcRef) → (u p).p_pproc ≡ (if count p cs == 0 then (t p).p_pproc else some to)
  pub others : (p : ProcRef) → p ≢ cur → p ≢ to → (u p).p_children ≡ (t p).p_children
  pub pids : (p : ProcRef) → (u p).p_pid ≡ (t p).p_pid
  pub waits : (p : ProcRef) → (u p).p_wait ≡ (t p).p_wait
  pub tables : (p : ProcRef) → (u p).p_files ≡ (t p).p_files

-- The children of a process, each once, and each with it as its parent.
pub record IsFamily (cs : List ProcRef) (cur : ProcRef) (t : ProcRef → Proc) : Type 0 where
  pub children : (t cur).p_children ≡ cs
  pub once : (p : ProcRef) → count p cs ≤ 1
  pub parent : (p : ProcRef) → 0 < count p cs → is_parent (t p).p_pproc cur ≡ true

move_child-IsFamily :
    (c : ProcRef) (cs : List ProcRef) (cur to : ProcRef) (t : ProcRef → Proc)
    → cur ≢ to
    → IsFamily (c ∷ cs) cur t
    → IsFamily cs cur (move_child cur to c t)
unfolding move_child
move_child-IsFamily c cs cur to t ne f = record {
  children = ground (arith, f.children);
  once = λ p. omega (arith, f.once p);
  parent = λ p h. ground (arith, f.once p, f.parent p);
}

nothing-IsMoved :
    (cur to : ProcRef) (t : ProcRef → Proc) → IsFamily [] cur t → IsMoved [] cur to t t
nothing-IsMoved cur to t f = record {
  left = f.children;
  taken = rw append-nil;
  parents = λ p. refl;
  others = λ p ne ne'. refl;
  pids = λ p. refl;
  waits = λ p. refl;
  tables = λ p. refl;
}

taken_one :
    (c cur to : ProcRef) (t : ProcRef → Proc)
    → cur ≢ to
    → (move_child cur to c t to).p_children ≡ (t to).p_children ++ (c ∷ [])
unfolding move_child
taken_one c cur to t ne = ground arith

move_step :
    (c : ProcRef) (cs : List ProcRef) (cur to : ProcRef) (t u : ProcRef → Proc)
    → cur ≢ to
    → IsFamily (c ∷ cs) cur t
    → IsMoved cs cur to (move_child cur to c t) u
    → IsMoved (c ∷ cs) cur to t u
unfolding move_child
move_step c cs cur to t u ne f m = record {
  left = m.left;
  taken = m.taken ∙ rw (taken_one c cur to t ne) (append_assoc (t to).p_children (c ∷ []) cs);
  parents = λ p. ground (arith, m.parents p);
  others = λ p h k. ground (arith, m.others p);
  pids = λ p. ground (arith, m.pids p);
  waits = λ p. ground (arith, m.waits p);
  tables = λ p. ground (arith, m.tables p);
}

move_run :
    (c : ProcRef) (cs : List ProcRef) (cur to : ProcRef) (t u : ProcRef → Proc)
    → is_parent (t c).p_pproc cur ≡ true
    → move_children cs cur to (move_child cur to c t) ≡ done u
    → move_children (c ∷ cs) cur to t ≡ done u
unfolding move_children
move_run c cs cur to t u h run = rw (h, run)

move_none : (cur to : ProcRef) (t : ProcRef → Proc) → move_children [] cur to t ≡ done t
unfolding move_children
move_none cur to t = refl

pub move_children_lem :
    (cs : List ProcRef) (cur to : ProcRef) (t : ProcRef → Proc)
    → cur ≢ to
    → IsFamily cs cur t
    → (u : ProcRef → Proc) × (move_children cs cur to t ≡ done u) × IsMoved cs cur to t u
move_children_lem [] cur to t ne f = (t, move_none cur to t, nothing-IsMoved cur to t f)
move_children_lem (c ∷ cs) cur to t ne f =
    let r =
      move_children_lem cs cur to (move_child cur to c t) ne
        (move_child-IsFamily c cs cur to t ne f) in
    (
      r.0,
      move_run c cs cur to t r.0 (f.parent c (ground arith)) r.1,
      move_step c cs cur to t r.0 ne f r.2,
    )

-- The children of a process that is not init, each once and each with it as its parent, go to init:
-- its list ends with them, in their order, they have it as their parent, the process that ends has no
-- children left, and no other process changes its parent or its children.
pub reparent_lem :
    (cs : List ProcRef) (cur init : ProcRef) (t : ProcRef → Proc)
    → cur ≢ init
    → (t cur).p_pid ≢ pid_init
    → IsFamily cs cur t
    → (u : ProcRef → Proc) × (reparent cur init t ≡ done u) × IsMoved cs cur init t u
unfolding reparent
reparent_lem [] cur init t ne pid f = (t, rw f.children, nothing-IsMoved cur init t f)
reparent_lem (c ∷ cs) cur init t ne pid f =
    let r = move_children_lem (c ∷ cs) cur init t ne f in
    let other : ((t cur).p_pid == pid_init) ≡ false = ground arith in
    (r.0, rw (f.children, other) r.1, r.2)
