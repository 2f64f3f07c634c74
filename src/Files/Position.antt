-- ===== src/Files/Position.antt =====
-- `do_read` of weenix.assign2/kernel/fs/vfs_syscall.c: where the position of a file goes.
use usc_homeworks.Base.{
  ℕ, ◌+◌, ◌-◌, ◌^◌, ◌≡◌, ◌≢◌, ◌<◌, ◌≤◌, true, false, some, ◌==◌, arith, refl, done, Bool-cases, inl,
  inr, ◌⊎◌, ◌↔◌, ltb,
}
use usc_homeworks.Sched.{update}
use usc_homeworks.Files.{
  pos, nfiles, FileId, VnodeId, File, FileState, Result, ok, Vnodes, fget, fput, with_file,
  put_and_return, set_pos, clamp, after_read, read_vnode, read_file, do_read,
}
use usc_homeworks.Files.Refs.{IsOpen, one_more, referred_again, fget_run, fput_kept}

-- At a position below 2^31 and with fewer than 2^31 bytes asked for, the bound on the number of
-- bytes keeps the position below 2^31, and it is the number itself, or the distance to 2^31 - 1 if
-- the sum is too large.
pub clamp_bounds :
    (p nbytes : ℕ)
    → p < 2 ^ 31
    → nbytes < 2 ^ 31
    → (p + clamp p nbytes < 2 ^ 31)
      × (((p + nbytes < 2 ^ 31) × (clamp p nbytes ≡ nbytes))
          ⊎ ((2 ^ 31 ≤ p + nbytes) × (clamp p nbytes ≡ 2 ^ 31 - 1 - p)))
unfolding clamp
clamp_bounds p nbytes h g = (
  ground arith,
  elim (Bool-cases (ltb (p + nbytes) (2 ^ 31))) [
    | inl fits ↦ inl (ground arith, ground arith)
    | inr over ↦ inr (ground arith, ground arith)
  ],
)

-- At a position below 2^31 and with fewer than 2^32 bytes asked for, the bound on the number of bytes
-- keeps the position below 2^31 exactly when the position and the number asked for add up to less than
-- 2^32.
pub clamp_bound :
    (p nbytes : ℕ)
    → p < 2 ^ 31
    → nbytes < 2 ^ 32
    → (p + clamp p nbytes < 2 ^ 31) ↔ (p + nbytes < 2 ^ 32)
unfolding clamp
clamp_bound p nbytes h g = (λ e. ground arith, λ e. ground arith)

-- The state after a read through the object of `f`, whose position is then `p`.
pub record IsRead (f : FileId) (x : File) (p : ℕ) (s s' : FileState) : Type 0 where
  pub table : s'.p_files ≡ s.p_files
  pub object : s'.file f ≡ some (record x { f_pos = p })
  pub others : (g : FileId) → g ≢ f → s'.file g ≡ s.file g
  pub given_back : s'.vputs ≡ s.vputs

set_pos_run :
    (f : FileId) (p : ℕ) (s : FileState) (x : File)
    → s.file f ≡ some x
    → set_pos f p s ≡ done (record s { file = update s.file f (some (record x { f_pos = p })) })
unfolding set_pos
set_pos_run f p s x e = rw (e, set_pos)

moved_run :
    (f : FileId) (p n : ℕ) (s s1 s2 : FileState)
    → set_pos f (p + n) s ≡ done s1
    → fput f s1 ≡ done s2
    → 0 < n
    → after_read f p (ok n) s ≡ done (ok n, s2)
unfolding after_read put_and_return
moved_run f p n s s1 s2 moved put h =
    let some_read : (n == 0) ≡ false = ground arith in rw (some_read, moved, put)

read_run :
    (w : Vnodes) (fd nbytes : ℕ) (f : FileId) (s s1 : FileState) (x : File) (v : VnodeId)
    (op : ℕ → ℕ → Result) {r : Result × FileState}
    → fget fd s ≡ done (some f, s1)
    → s1.file f ≡ some x
    → x.f_vnode ≡ some v
    → w.read v ≡ some op
    → x.f_mode.fmode_read ≡ true
    → w.is_dir v ≡ false
    → after_read f x.f_pos (op x.f_pos (clamp x.f_pos nbytes)) s1 ≡ done r
    → do_read w (pos fd) nbytes s ≡ done r
unfolding do_read with_file read_file read_vnode
read_run w fd nbytes f s s1 x v op got there of has_op can no_dir run =
    simp (got, there, of, has_op, can, no_dir, run)

-- A read through an open descriptor, of a file that is open for reading and whose vnode has a
-- `read` operation and is no directory: when that operation, at the file's position and with the
-- bound on the number of bytes, reads some bytes, their number is returned and the position moves
-- by it; no other file, no descriptor and no count changes.
pub read_moves :
    (w : Vnodes) (fd nbytes n : ℕ) (f : FileId) (s : FileState) (op : ℕ → ℕ → Result)
    (o : IsOpen s fd f)
    → fd < nfiles
    → s.p_files fd ≡ some f
    → w.read o.number ≡ some op
    → o.object.f_mode.fmode_read ≡ true
    → w.is_dir o.number ≡ false
    → op o.object.f_pos (clamp o.object.f_pos nbytes) ≡ ok n
    → 0 < n
    → (s' : FileState) × (do_read w (pos fd) nbytes s ≡ done (ok n, s'))
      × IsRead f o.object (o.object.f_pos + n) s s'
read_moves w fd nbytes n f s op o h e has_op can no_dir answer some_read =
    let x = o.object in
    let s1 = referred_again f x s in
    let x2 : File = record x { f_refcount = x.f_refcount + 1; f_pos = x.f_pos + n } in
    let s2 = record s1 { file = update s1.file f (some x2) } in
    let s3 = record s2 {
      file = update s2.file f (some (record x2 { f_refcount = x.f_refcount + 1 - 1 }));
    } in
    let got = fget_run fd f s x o.number h e o.allocated o.of_vnode in
    let moved : set_pos f (x.f_pos + n) s1 ≡ done s2 =
      set_pos_run f (x.f_pos + n) s1 (one_more x) (ground arith) in
    let put : fput f s2 ≡ done s3 =
      fput_kept f s2 x2 o.number (ground arith) o.of_vnode (omega (arith, o.referred)) in
    let same : x.f_refcount + 1 - 1 ≡ x.f_refcount = omega arith in
    (
      s3,
      read_run w fd nbytes f s s1 (one_more x) o.number op got (ground arith) o.of_vnode has_op can
          no_dir (rw answer (moved_run f x.f_pos n s1 s2 s3 moved put some_read)),
      record {
        table = refl;
        object = ground (arith, same);
        others = λ g ne. ground arith;
        given_back = refl;
      },
    )
