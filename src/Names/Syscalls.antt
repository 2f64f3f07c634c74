-- ===== src/Names/Syscalls.antt =====
-- `do_mkdir`, `do_rmdir`, `do_unlink` and `do_mknod` of weenix.assign2/kernel/fs/vfs_syscall.c.
use usc_homeworks.Base.{
  ◌+◌, ◌≡◌, ◌<◌, ◌≤◌, Bool, true, false, not, Option, none, some, if◌then◌else◌, arith, refl, ap,
  ◌∙◌, length, leb, done, fault, Bool-cases, inl, inr,
}
use usc_homeworks.Sched.{is_none}
use usc_homeworks.Names.{
  VnodeId, Name, Errno, Answer, got, failed, Vnodes, PathState, name_len, einval, enotdir, eexist,
  enametoolong, enotempty, eisdir, finish, apply_op, call_lookup, lookup, dir_namev, make, do_mknod,
  do_mkdir, take_away, is_dot, is_dot_dot, do_rmdir, do_unlink,
}
use usc_homeworks.Names.Balance.{one, held, answer}
use usc_homeworks.Names.Calls.{
  IsBalanced, IsRooted, GivesBack, finish-GivesBack, apply_op-GivesBack, after_lookup,
  with_dir-IsBalanced, with_dir_got,
}

-- The operations that the calls take for granted: a directory can make directories, and a vnode in
-- which names are looked up can remove them.
pub record IsFileSystem {W : Type 0} (ops : Vnodes W) : Type 0 where
  pub has_mkdir : (v : VnodeId) → ops.is_dir v ≡ true → is_none (ops.mkdir v) ≡ false
  pub has_rmdir : (v : VnodeId) → is_none (ops.lookup v) ≡ false → is_none (ops.rmdir v) ≡ false
  pub has_unlink : (v : VnodeId) → is_none (ops.lookup v) ≡ false → is_none (ops.unlink v) ≡ false

module _ {W : Type 0} (ops : Vnodes W) where
  -- A vnode in which something was found has the operation `lookup`.
  lookup_found :
      (dir : VnodeId) (name : Name) (s s1 : PathState W) (v : VnodeId)
      → lookup ops dir name s ≡ done (got v, s1)
      → is_none (ops.lookup dir) ≡ false
  unfolding lookup call_lookup
  lookup_found dir name s s1 v e = go (ops.lookup dir) e
    where
      go :
          (op : Option (Name → W → Answer VnodeId × W))
          → call_lookup ops op dir name s ≡ done (got v, s1)
          → is_none op ≡ false
      go none e = cc
      go (some op) e = refl

  alone :
      (dir : VnodeId) (s : PathState W)
      → 0 < s.vn_refcount dir
      → (g : VnodeId) → one dir g + 0 ≤ s.vn_refcount g
  alone dir s h g = ground (arith, h)

  -- An early return of a call that holds the directory alone.
  early :
      (dir : VnodeId) (e : Errno) (s : PathState W)
      → 0 < s.vn_refcount dir
      → GivesBack (finish dir none (failed e) s) (one dir) s
  early dir e s h =
      let f = finish-GivesBack dir none (failed e) s (alone dir s h) in
      (f.0, f.1, f.2, record { refs = λ g. omega (arith, f.3.refs g); same_cwd = f.3.same_cwd })

  take_away-GivesBack :
      (want : Bool) (bad : Errno) (op : Option (Name → W → Answer (Unit {0}) × W)) (dir : VnodeId)
      (name : Name) (r : Answer VnodeId) (s : PathState W)
      → ((v : VnodeId) → r ≡ got v → is_none op ≡ false)
      → ((g : VnodeId) → one dir g + held (answer r) g ≤ s.vn_refcount g)
      → GivesBack (take_away ops want bad op dir name r s) (λ g. one dir g + held (answer r) g) s
  unfolding take_away
  take_away-GivesBack want bad op dir name (failed e) s has h =
      finish-GivesBack dir none (failed e) s h
  take_away-GivesBack want bad op dir name (got v) s has h =
      elim (Bool-cases (if ops.is_dir v then not want else want)) [
        | inl wrong ↦ rw wrong (finish-GivesBack dir (some v) (failed bad) s h)
        | inr right ↦ rw right (apply_op-GivesBack op dir (some v) name s (has v refl) h)
      ]

  make-GivesBack :
      (op : Option (Name → W → Answer (Unit {0}) × W)) (dir : VnodeId) (name : Name)
      (r : Answer VnodeId) (s : PathState W)
      → is_none op ≡ false
      → ((g : VnodeId) → one dir g + held (answer r) g ≤ s.vn_refcount g)
      → GivesBack (make ops op dir name r s) (λ g. one dir g + held (answer r) g) s
  unfolding make
  make-GivesBack op dir name (got v) s has h = finish-GivesBack dir (some v) (failed eexist) s h
  make-GivesBack op dir name (failed e) s has h = apply_op-GivesBack op dir none name s has h

  -- On file systems with the operations that the calls take for granted, and while there are
  -- references to the root and the current directory, `do_unlink` of any path returns, and gives
  -- back every reference to a vnode that it took.
  pub unlink-IsBalanced :
      (path : Name) (s : PathState W)
      → IsFileSystem ops
      → IsRooted ops s
      → IsBalanced (do_unlink ops path) s
  unfolding do_unlink
  unlink-IsBalanced path s fs rooted = with_dir-IsBalanced ops path _ s rooted λ dir name s1 h.
      after_lookup ops dir name s1 (take_away ops false eisdir (ops.unlink dir) dir name) h
        λ r s2 look enough.
          take_away-GivesBack false eisdir (ops.unlink dir) dir name r s2
            (λ v e.
              fs.has_unlink dir (lookup_found dir name s1 s2 v (look ∙ ap (λ a. done (a, s2)) e)))
            enough

  -- On file systems with the operations that the calls take for granted, and while there are
  -- references to the root and the current directory, `do_rmdir` of any path returns, and gives
  -- back every reference to a vnode that it took.
  pub rmdir-IsBalanced :
      (path : Name) (s : PathState W)
      → IsFileSystem ops
      → IsRooted ops s
      → IsBalanced (do_rmdir ops path) s
  unfolding do_rmdir
  rmdir-IsBalanced path s fs rooted = with_dir-IsBalanced ops path _ s rooted λ dir name s1 h.
      elim (Bool-cases (is_dot name)) [
        | inl d ↦ rw d (early dir einval s1 h)
        | inr d ↦ elim (Bool-cases (is_dot_dot name)) [
          | inl dd ↦ rw (d, dd) (early dir enotempty s1 h)
          | inr dd ↦
              rw (d, dd)
                (after_lookup ops dir name s1 (take_away ops true enotdir (ops.rmdir dir) dir name)
                  h
                  λ r s2 look enough.
                    take_away-GivesBack true enotdir (ops.rmdir dir) dir name r s2
                      (λ v e.
                        fs.has_rmdir dir
                          (lookup_found dir name s1 s2 v (look ∙ ap (λ a. done (a, s2)) e)))
                      enough)
        ]
      ]

  -- On file systems with the operations that the calls take for granted, and while there are
  -- references to the root and the current directory, `do_mkdir` of any path returns, and gives
  -- back every reference to a vnode that it took.
  pub mkdir-IsBalanced :
      (path : Name) (s : PathState W)
      → IsFileSystem ops
      → IsRooted ops s
      → IsBalanced (do_mkdir ops path) s
  unfolding do_mkdir
  mkdir-IsBalanced path s fs rooted = with_dir-IsBalanced ops path _ s rooted λ dir name s1 h.
      elim (Bool-cases (leb name_len (length name))) [
        | inl long ↦ rw long (early dir enametoolong s1 h)
        | inr short ↦ elim (Bool-cases (ops.is_dir dir)) [
          | inl d ↦
              rw (short, d)
                (after_lookup ops dir name s1 (make ops (ops.mkdir dir) dir name) h
                  λ r s2 look enough.
                    make-GivesBack (ops.mkdir dir) dir name r s2 (fs.has_mkdir dir d) enough)
          | inr d ↦ rw (short, d) (early dir enotdir s1 h)
        ]
      ]

  -- `do_mknod`, with a mode that is allowed, of a path whose last name is short and whose directory
  -- part leads to a vnode without the operations `lookup` and `mknod`, makes the kernel fail an
  -- assertion.
  pub mknod_panics :
      (path : Name) (s s1 : PathState W) (d : VnodeId × Name)
      → dir_namev ops path (some s.p_cwd) s ≡ done (got d, s1)
      → leb name_len (length d.1) ≡ false
      → ops.lookup d.0 ≡ none
      → ops.mknod d.0 ≡ none
      → do_mknod ops path true s ≡ fault
  unfolding do_mknod lookup make call_lookup apply_op
  mknod_panics path s s1 d run short no_lookup no_mknod =
      with_dir_got ops path _ s s1 d run ∙ rw (short, no_lookup, no_mknod)
