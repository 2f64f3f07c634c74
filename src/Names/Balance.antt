-- ===== src/Names/Balance.antt =====
-- References to vnodes across the calls of weenix.assign2/kernel/fs/namev.c and fs/vfs_syscall.c.
use usc_homeworks.Base.{
  ℕ, ◌+◌, ◌-◌, ◌≡◌, ◌<◌, ◌≤◌, false, Option, none, some, ◌==◌, if◌then◌else◌, arith, refl, ◌∙◌,
  done, Bool-cases, inl, inr,
}
use usc_homeworks.Sched.{update, is_empty}
use usc_homeworks.Names.{
  VnodeId, Name, Answer, got, failed, Vnodes, PathState, refer_to, vref, vput, refer, put_return,
  finish, call_lookup, lookup,
}

-- A reference to `v`.
abbrev pub one : VnodeId → VnodeId → ℕ
one v g = if g == v then 1 else 0

-- The reference that comes with a vnode, if there is one.
abbrev pub held : Option VnodeId → VnodeId → ℕ
held none g = 0
held (some v) g = one v g

abbrev pub answer : Answer VnodeId → Option VnodeId
answer (got v) = some v
answer (failed e) = none

module _ {W : Type 0} where
  -- From `s` to `s'` the references in `given` were given back, and those in `taken` were taken.
  pub record Moves (given taken : VnodeId → ℕ) (s s' : PathState W) : Type 0 where
    pub refs : (g : VnodeId) → s'.vn_refcount g + given g ≡ s.vn_refcount g + taken g
    pub same_cwd : s'.p_cwd ≡ s.p_cwd

  refer_to-Moves : (v : VnodeId) (s : PathState W) → Moves (λ g. 0) (one v) s (refer_to v s)
  unfolding refer_to
  refer_to-Moves v s = record { refs = λ g. ground arith; same_cwd = refl }

  pub vref-Moves :
      (v : VnodeId) (s : PathState W)
      → 0 < s.vn_refcount v
      → (s' : PathState W) × (vref v s ≡ done s') × Moves (λ g. 0) (one v) s s'
  unfolding vref
  vref-Moves v s h =
      let some_refs : (s.vn_refcount v == 0) ≡ false = ground arith in
      (refer_to v s, rw some_refs, refer_to-Moves v s)

  pub vput-Moves :
      (v : VnodeId) (s : PathState W)
      → 0 < s.vn_refcount v
      → (s' : PathState W) × (vput v s ≡ done s') × Moves (one v) (λ g. 0) s s'
  unfolding vput
  vput-Moves v s h =
      let some_refs : (s.vn_refcount v == 0) ≡ false = ground arith in
      (
        record s { vn_refcount = update s.vn_refcount v (s.vn_refcount v - 1) },
        rw some_refs,
        record { refs = λ g. ground (arith, h); same_cwd = refl },
      )

  put_return_run :
      {A : Type 0} (v : VnodeId) (ret : Answer A) (s s' : PathState W)
      → vput v s ≡ done s'
      → put_return v ret s ≡ done (ret, s')
  unfolding put_return
  put_return_run v ret s s' e = rw e

  pub put_return-Moves :
      {A : Type 0} (v : VnodeId) (ret : Answer A) (s : PathState W)
      → 0 < s.vn_refcount v
      → (s' : PathState W) × (put_return v ret s ≡ done (ret, s')) × Moves (one v) (λ g. 0) s s'
  put_return-Moves v ret s h =
      let p = vput-Moves v s h in (p.0, put_return_run v ret s p.0 p.1, p.2)

  finish_run :
      (dir targ : VnodeId) (ret : Answer (Unit {0})) (s s1 s2 : PathState W)
      → vput dir s ≡ done s1
      → put_return targ ret s1 ≡ done (ret, s2)
      → finish dir (some targ) ret s ≡ done (ret, s2)
  unfolding finish
  finish_run dir targ ret s s1 s2 e f = rw (e, f)

  -- The end of a call gives back the directory and the target.
  pub finish-Moves :
      (dir : VnodeId) (targ : Option VnodeId) (ret : Answer (Unit {0})) (s : PathState W)
      → ((g : VnodeId) → one dir g + held targ g ≤ s.vn_refcount g)
      → (s' : PathState W) × (finish dir targ ret s ≡ done (ret, s'))
        × Moves (λ g. one dir g + held targ g) (λ g. 0) s s'
  unfolding finish
  finish-Moves dir none ret s h =
      let p = put_return-Moves dir ret s (ground (arith, h dir)) in
      (p.0, p.1, record { refs = λ g. omega (arith, p.2.refs g); same_cwd = p.2.same_cwd })
  finish-Moves dir (some targ) ret s h =
      let p = vput-Moves dir s (ground (arith, h dir)) in
      let q = put_return-Moves targ ret p.0 (ground (arith, h targ, p.2.refs targ)) in
      (
        q.0,
        finish_run dir targ ret s p.0 q.0 p.1 q.1,
        record {
          refs = λ g. omega (arith, p.2.refs g, q.2.refs g);
          same_cwd = q.2.same_cwd ∙ p.2.same_cwd;
        },
      )

  pub refer-Moves :
      (r : Answer VnodeId) (s : PathState W) → Moves (λ g. 0) (held (answer r)) s (refer r s)
  unfolding refer
  refer-Moves (got v) s = refer_to-Moves v s
  refer-Moves (failed e) s = record { refs = λ g. refl; same_cwd = refl }

  -- `lookup` in a vnode to which there are references returns; it takes a reference to the vnode that
  -- it finds, and no other.
  pub lookup-Moves :
      (ops : Vnodes W) (dir : VnodeId) (name : Name) (s : PathState W)
      → 0 < s.vn_refcount dir
      → (r : Answer VnodeId) × (s' : PathState W) × (lookup ops dir name s ≡ done (r, s'))
        × Moves (λ g. 0) (held (answer r)) s s'
  unfolding lookup call_lookup
  lookup-Moves ops dir name s h = go (ops.lookup dir)
    where
      go :
          (op : Option (Name → W → Answer VnodeId × W))
          → (r : Answer VnodeId) × (s' : PathState W) × (call_lookup ops op dir name s
              ≡ done (r, s'))
            × Moves (λ g. 0) (held (answer r)) s s'
      go none = (_, _, refl, record { refs = λ g. refl; same_cwd = refl })
      go (some op) = elim (Bool-cases (is_empty name)) [
        | inl e ↦ let v = vref-Moves dir s h in (got dir, v.0, rw (e, v.1), v.2)
        | inr e ↦
            let s1 = record s { world = (op name s.world).1 } in
            let m = refer-Moves (op name s.world).0 s1 in
            (
              (op name s.world).0,
              refer (op name s.world).0 s1,
              rw e,
              record { refs = m.refs; same_cwd = m.same_cwd },
            )
      ]
