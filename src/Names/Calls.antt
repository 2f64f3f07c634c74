-- ===== src/Names/Calls.antt =====
-- The calls on paths of weenix.assign2/kernel/fs/vfs_syscall.c keep no reference to a vnode.
use usc_homeworks.Base.{
  ℕ, ◌+◌, ◌≡◌, ◌<◌, ◌≤◌, false, Option, none, some, [], ◌∷◌, ◌==◌, arith, ◌∙◌, Run, done, and_then,
  Bool-cases, inl, inr,
}
use usc_homeworks.Sched.{is_none}
use usc_homeworks.Names.{
  VnodeId, Name, Errno, Answer, got, failed, Vnodes, PathState, finish, apply_op, lookup, dir_namev,
  with_dir, start, slash, Call,
}
use usc_homeworks.Names.Balance.{one, held, answer, Moves, finish-Moves, lookup-Moves}
use usc_homeworks.Names.Resolve.{directory, dir_namev-Moves}

module _ {W : Type 0} where
  -- A call returns, every reference that it took is given back, and the current directory stays.
  pub record IsBalanced (call : Call W (Unit {0})) (s : PathState W) : Type 0 where
    pub result : Answer (Unit {0})
    pub after : PathState W
    pub run : call s ≡ done (result, after)
    pub refs : (v : VnodeId) → after.vn_refcount v ≡ s.vn_refcount v
    pub same_cwd : after.p_cwd ≡ s.p_cwd

  -- The rest of a call that was given references returns, and gives them back.
  abbrev pub GivesBack :
      Run (Answer (Unit {0}) × PathState W) → (VnodeId → ℕ) → PathState W → Type 0
  GivesBack m given s =
      (r : Answer (Unit {0})) × (s' : PathState W) × (m ≡ done (r, s')) × Moves given (λ g. 0) s s'

  pub finish-GivesBack :
      (dir : VnodeId) (targ : Option VnodeId) (ret : Answer (Unit {0})) (s : PathState W)
      → ((g : VnodeId) → one dir g + held targ g ≤ s.vn_refcount g)
      → GivesBack (finish dir targ ret s) (λ g. one dir g + held targ g) s
  finish-GivesBack dir targ ret s h = let f = finish-Moves dir targ ret s h in (ret, f.0, f.1, f.2)

  pub apply_op-GivesBack :
      (op : Option (Name → W → Answer (Unit {0}) × W)) (dir : VnodeId) (targ : Option VnodeId)
      (name : Name) (s : PathState W)
      → is_none op ≡ false
      → ((g : VnodeId) → one dir g + held targ g ≤ s.vn_refcount g)
      → GivesBack (apply_op op dir targ name s) (λ g. one dir g + held targ g) s
  unfolding apply_op
  apply_op-GivesBack none dir targ name s e h = cc
  apply_op-GivesBack (some op) dir targ name s e h =
      let s1 = record s { world = (op name s.world).1 } in
      let f = finish-Moves dir targ (op name s.world).0 s1 h in
      ((op name s.world).0, f.0, f.1, record { refs = f.2.refs; same_cwd = f.2.same_cwd })

  -- A lookup in the directory, and then the rest of the call.
  pub after_lookup :
      (ops : Vnodes W) (dir : VnodeId) (name : Name) (s : PathState W)
      (k : Answer VnodeId → Call W (Unit {0}))
      → 0 < s.vn_refcount dir
      → ((r : Answer VnodeId) (s1 : PathState W)
          → lookup ops dir name s ≡ done (r, s1)
          → ((g : VnodeId) → one dir g + held (answer r) g ≤ s1.vn_refcount g)
          → GivesBack (k r s1) (λ g. one dir g + held (answer r) g) s1)
      → GivesBack (and_then (lookup ops dir name s) (λ r. k r.0 r.1)) (one dir) s
  after_lookup ops dir name s k h rest =
      let (r, s1, look, m) = lookup-Moves ops dir name s h in
      let n = rest r s1 look (λ g. ground (arith, m.refs g, h)) in
      (
        n.0,
        n.1,
        rw look n.2,
        record {
          refs = λ g. omega (arith, m.refs g, n.3.refs g);
          same_cwd = n.3.same_cwd ∙ m.same_cwd;
        },
      )

  pub with_dir_got :
      (ops : Vnodes W) (path : Name) (k : VnodeId → Name → Call W (Unit {0})) (s s1 : PathState W)
      (d : VnodeId × Name)
      → dir_namev ops path (some s.p_cwd) s ≡ done (got d, s1)
      → with_dir ops path k s ≡ k d.0 d.1 s1
  unfolding with_dir
  with_dir_got ops path k s s1 d e = rw e

  with_dir_failed :
      (ops : Vnodes W) (path : Name) (k : VnodeId → Name → Call W (Unit {0})) (s s1 : PathState W)
      (e : Errno)
      → dir_namev ops path (some s.p_cwd) s ≡ done (failed e, s1)
      → with_dir ops path k s ≡ done (failed e, s1)
  unfolding with_dir
  with_dir_failed ops path k s s1 d e = rw e

  -- There are references to the root and to the current directory.
  pub record IsRooted (ops : Vnodes W) (s : PathState W) : Type 0 where
    pub root_held : 0 < s.vn_refcount ops.root
    pub cwd_held : 0 < s.vn_refcount s.p_cwd

  start_held :
      (ops : Vnodes W) (path : Name) (s : PathState W)
      → IsRooted ops s
      → 0 < s.vn_refcount (start ops path (some s.p_cwd) s)
  unfolding start
  start_held ops [] s h = h.cwd_held
  start_held ops (c ∷ cs) s h = elim (Bool-cases (c == slash)) [
    | inl e ↦ rw e h.root_held
    | inr e ↦ rw e h.cwd_held
  ]

  pub with_dir-IsBalanced :
      (ops : Vnodes W) (path : Name) (k : VnodeId → Name → Call W (Unit {0})) (s : PathState W)
      → IsRooted ops s
      → ((dir : VnodeId) (name : Name) (s1 : PathState W)
          → 0 < s1.vn_refcount dir
          → GivesBack (k dir name s1) (one dir) s1)
      → IsBalanced (with_dir ops path k) s
  with_dir-IsBalanced ops path k s held_root rest =
      let (r, s1, run, m) =
        dir_namev-Moves ops path (some s.p_cwd) s (start_held ops path s held_root) in
      go r s1 run m
    where
      go :
          (r : Answer (VnodeId × Name)) (s1 : PathState W)
          → dir_namev ops path (some s.p_cwd) s ≡ done (r, s1)
          → Moves (λ g. 0) (held (directory r)) s s1
          → IsBalanced (with_dir ops path k) s
      go (failed e) s1 run m = record {
        result = failed e;
        after = s1;
        run = with_dir_failed ops path k s s1 e run;
        refs = λ g. omega (arith, m.refs g);
        same_cwd = m.same_cwd;
      }
      go (got d) s1 run m =
          let n = rest d.0 d.1 s1 (ground (arith, m.refs d.0)) in
          record {
            result = n.0;
            after = n.1;
            run = with_dir_got ops path k s s1 d run ∙ n.2;
            refs = λ g. omega (arith, m.refs g, n.3.refs g);
            same_cwd = n.3.same_cwd ∙ m.same_cwd;
          }
