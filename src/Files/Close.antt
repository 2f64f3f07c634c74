-- ===== src/Files/Close.antt =====
-- `do_close` of weenix.assign2/kernel/fs/vfs_syscall.c.
use usc_homeworks.Base.{
  ℕ, ◌+◌, ◌-◌, ◌≡◌, ◌<◌, ◌≤◌, true, false, Option, none, some, ◌==◌, if◌then◌else◌, arith, refl,
  sym, ap, ◌∙◌, Run, done, Bool-cases, inl, inr, leb, ◌∷◌,
}
use usc_homeworks.Sched.{update}
use usc_homeworks.Files.{
  ℤ, pos, negsuc, nfiles, FileId, VnodeId, File, FileState, Result, ok, err, ebadf, fget, fput,
  with_file, put_and_return, do_close,
}
use usc_homeworks.Files.Refs.{
  refs, refcount, IsCounted, refs-update, IsOpen, referred_object, one_more, referred_again,
  fget_run, fput_kept, fput_last,
}

-- No open file of the process has this descriptor.
pub data IsBad (s : FileState) : ℤ → Type 0 where
  negative : {k : ℕ} → IsBad s (negsuc k)
  too_large : {fd : ℕ} → nfiles ≤ fd → IsBad s (pos fd)
  closed : {fd : ℕ} → fd < nfiles → s.p_files fd ≡ none → IsBad s (pos fd)

-- A system call on a descriptor that is not open fails with EBADF and changes nothing.
pub with_file_bad :
    (fd : ℤ) (s : FileState) (k : ℕ → FileId → FileState → Run (Result × FileState))
    → IsBad s fd
    → with_file fd s k ≡ done (err ebadf, s)
unfolding with_file fget
with_file_bad fd s k (negative) = refl
with_file_bad fd s k (too_large {fd = n} h) = let out : leb nfiles n ≡ true = ground arith in rw out
with_file_bad fd s k (closed {fd = n} h e) =
    let in_range : leb nfiles n ≡ false = ground arith in rw (in_range, e)

-- Closing a descriptor that is negative, too large or not open fails with EBADF and changes
-- nothing.
pub close_bad : (fd : ℤ) (s : FileState) → IsBad s fd → do_close fd s ≡ done (err ebadf, s)
unfolding do_close
close_bad fd s b = with_file_bad fd s _ b

-- The vnode of an object that is allocated.
abbrev pub vnode_of : Option File → Option VnodeId
vnode_of none = none
vnode_of (some x) = x.f_vnode

-- What is left of an object, of which one reference was given back.
abbrev pub one_less : File → Option File
one_less x = if x.f_refcount == 1 then none else some (record x { f_refcount = x.f_refcount - 1 })

-- The state after a descriptor was closed.
pub record Closed (fd : ℕ) (f : FileId) (x : File) (v : VnodeId) (s s' : FileState) : Type 0 where
  pub table : s'.p_files ≡ update s.p_files fd none
  pub objects : (g : FileId) → s'.file g ≡ update s.file f (one_less x) g
  pub given_back : s'.vputs ≡ (if x.f_refcount == 1 then v ∷ s.vputs else s.vputs)

close_run :
    (fd : ℕ) (f : FileId) (s s1 s2 s3 : FileState)
    → fget fd s ≡ done (some f, s1)
    → fput f s1 ≡ done s2
    → fput f (record s2 { p_files = update s2.p_files fd none }) ≡ done s3
    → do_close (pos fd) s ≡ done (ok 0, s3)
unfolding do_close with_file put_and_return
close_run fd f s s1 s2 s3 got put last = rw (got, put, last)

-- Closing an open descriptor clears it and gives up one reference to its object; the last reference
-- gives the vnode back, and frees the object.
pub close-Closed :
    (fd : ℕ) (f : FileId) (s : FileState) (o : IsOpen s fd f)
    → fd < nfiles
    → s.p_files fd ≡ some f
    → (s' : FileState) × (do_close (pos fd) s ≡ done (ok 0, s'))
      × Closed fd f o.object o.number s s'
close-Closed fd f s o h e =
    let x = o.object in
    let v = o.number in
    let s1 = referred_again f x s in
    let x2 : File = record x { f_refcount = x.f_refcount + 1 - 1 } in
    let s2 = record s1 { file = update s1.file f (some x2) } in
    let s3 = record s2 { p_files = update s2.p_files fd none } in
    let got = fget_run fd f s x v h e o.allocated o.of_vnode in
    let put1 : fput f s1 ≡ done s2 =
      fput_kept f s1 (one_more x) v (ground arith) o.of_vnode (omega (arith, o.referred)) in
    let there : s3.file f ≡ some x2 = ground arith in
    elim (Bool-cases (x.f_refcount == 1)) [
      | inl last ↦ (
        _,
        close_run fd f s s1 s2 _ got put1 (fput_last f s3 x2 v there o.of_vnode (ground arith)),
        record { table = refl; objects = λ g. ground arith; given_back = rw last },
      )
      | inr more ↦ (
        _,
        close_run fd f s s1 s2 _ got put1
            (fput_kept f s3 x2 v there o.of_vnode (ground (arith, o.referred))),
        record { table = refl; objects = λ g. ground arith; given_back = rw more },
      )
    ]

-- The counts after closing are those of the table.
pub Closed-IsCounted :
    (others : FileId → ℕ) (fd : ℕ) (f : FileId) (s s' : FileState) (o : IsOpen s fd f)
    → IsCounted others s
    → fd < nfiles
    → s.p_files fd ≡ some f
    → Closed fd f o.object o.number s s'
    → IsCounted others s'
Closed-IsCounted others fd f s s' o c h e d = record {
  counted = λ g.
      rw (d.table, d.objects g)
        (ground
          (arith, refs-update nfiles fd s.p_files none g h, c.counted g, o.allocated, o.referred));
  vnode = λ g. rw (d.objects g) (ground (arith, c.vnode g, o.of_vnode));
  used = λ g. rw (d.objects g) (ground (arith, c.used g, o.referred));
}

-- In a process whose files count its descriptors and other references, closing an open descriptor
-- returns 0 and clears that descriptor; the files go on counting the descriptors and the other
-- references, and `vput` is called once, on the vnode of the file, if no reference is left to it, and
-- otherwise not at all.
pub close_lem :
    (others : FileId → ℕ) (fd : ℕ) (f : FileId) (s : FileState)
    → IsCounted others s
    → fd < nfiles
    → s.p_files fd ≡ some f
    → (s' : FileState) × (do_close (pos fd) s ≡ done (ok 0, s'))
      × (s'.p_files ≡ update s.p_files fd none)
      × IsCounted others s'
      × ((v : VnodeId) × (vnode_of (s.file f) ≡ some v)
          × (s'.vputs
              ≡ (if refs nfiles s'.p_files f + others f == 0 then v ∷ s.vputs else s.vputs)))
close_lem others fd f s c h e =
    let o = referred_object others s fd f c h e in
    let (s', run, d) = close-Closed fd f s o h e in
    let c' = Closed-IsCounted others fd f s s' o c h e d in
    let left : refs nfiles s'.p_files f + others f ≡ refcount (one_less o.object) =
      sym (c'.counted f) ∙ ap refcount (d.objects f) ∙ ground arith in
    let vnode : vnode_of (s.file f) ≡ some o.number = ap vnode_of o.allocated ∙ o.of_vnode in
    (s', run, d.table, c', (o.number, vnode, rw (left, d.given_back) (ground (arith, o.referred))))
