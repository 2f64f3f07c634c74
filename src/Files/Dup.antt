-- ===== src/Files/Dup.antt =====
-- `get_empty_fd` of weenix.assign2/kernel/fs/open.c and `do_dup` of fs/vfs_syscall.c.
use usc_homeworks.Base.{
  ℕ, zero, suc, ◌+◌, ◌-◌, ◌≡◌, ◌<◌, ◌≤◌, false, Option, none, some, ◌==◌, arith, refl, ◌∙◌, done,
  Bool-cases, Option-cases, inl, inr, ==_iff,
}
use usc_homeworks.Sched.{update, is_none}
use usc_homeworks.Files.{
  pos, nfiles, FileId, VnodeId, File, FileState, ok, err, emfile, fget, fref, fput, with_file,
  put_and_return, empty_fd_from, get_empty_fd, share, dup_to, do_dup,
}
use usc_homeworks.Files.Refs.{
  IsCounted, refs-update, referred_object, one_more, referred_again, fget_run, fref_run, fput_kept,
}

-- The search finds a free descriptor, and all before it are taken.
empty_fd_from_lem :
    (k fd : ℕ) (t : ℕ → Option FileId) (n : ℕ)
    → empty_fd_from k fd t ≡ some n
    → (fd ≤ n) × (n < fd + k) × (t n ≡ none) × ((m : ℕ) → fd ≤ m → m < n → is_none (t m) ≡ false)
unfolding empty_fd_from
empty_fd_from_lem zero fd t n e = cc
empty_fd_from_lem (suc k) fd t n e = elim (Option-cases (t fd)) [
  | inl free ↦
      let here : fd ≡ n = cc (rw free at e) in
      (omega arith, omega arith, rw (← here) free, λ m h l. absurd (omega arith))
  | inr taken ↦
      let r = empty_fd_from_lem k (fd + 1) t n (rw taken.1 at e) in
      (
        omega (arith, r.0),
        omega (arith, r.1),
        r.2,
        λ m h l. elim (Bool-cases (m == fd)) [
          | inl same ↦ rw ((==_iff m fd).0 same, taken.1)
          | inr other ↦ r.3 m (ground arith) l
        ],
      )
]

-- What `get_empty_fd` finds is the lowest descriptor that is not in use.
pub get_empty_fd_lem :
    (s : FileState) (n : ℕ)
    → get_empty_fd s ≡ some n
    → (n < nfiles) × (s.p_files n ≡ none) × ((m : ℕ) → m < n → is_none (s.p_files m) ≡ false)
unfolding get_empty_fd
get_empty_fd_lem s n e =
    let r = empty_fd_from_lem nfiles 0 s.p_files n e in
    (omega (arith, r.1), r.2, λ m l. r.3 m (omega arith) l)

-- The state is the same but for the table.
pub record IsShared (fd : ℕ) (f : FileId) (s s' : FileState) : Type 0 where
  pub table : s'.p_files ≡ update s.p_files fd (some f)
  pub objects : (g : FileId) → s'.file g ≡ s.file g
  pub given_back : s'.vputs ≡ s.vputs

share_run :
    (f : FileId) (fd : ℕ) (s s1 s2 : FileState)
    → fref f (record s { p_files = update s.p_files fd (some f) }) ≡ done s1
    → fput f s1 ≡ done s2
    → share f fd s ≡ done (ok fd, s2)
unfolding share put_and_return
share_run f fd s s1 s2 took back = rw (took, back)

-- A reference that a system call took is handed to a descriptor.
share_lem :
    (f : FileId) (fd : ℕ) (s : FileState) (x : File) (v : VnodeId)
    → s.file f ≡ some x
    → x.f_vnode ≡ some v
    → 0 < x.f_refcount
    → (s' : FileState) × (share f fd s ≡ done (ok fd, s')) × IsShared fd f s s'
share_lem f fd s x v e k h =
    let s0 = record s { p_files = update s.p_files fd (some f) } in
    let s1 = referred_again f x s0 in
    let back = fput_kept f s1 (one_more x) v (ground arith) k (omega (arith, h)) in
    let same : x.f_refcount + 1 - 1 ≡ x.f_refcount = omega arith in
    (
      _,
      share_run f fd s s1 _ (fref_run f s0 x v e k) back,
      record { table = refl; objects = λ g. ground (arith, same, e); given_back = refl },
    )

dup_run :
    (fd new : ℕ) (f : FileId) (s s1 s' : FileState)
    → fget fd s ≡ done (some f, s1)
    → get_empty_fd s1 ≡ some new
    → share f new s1 ≡ done (ok new, s')
    → do_dup (pos fd) s ≡ done (ok new, s')
unfolding do_dup dup_to with_file
dup_run fd new f s s1 s' got free run = rw (got, free, run)

dup_run_full :
    (fd : ℕ) (f : FileId) (s s1 s' : FileState)
    → fget fd s ≡ done (some f, s1)
    → get_empty_fd s1 ≡ none
    → fput f s1 ≡ done s'
    → do_dup (pos fd) s ≡ done (err emfile, s')
unfolding do_dup dup_to with_file put_and_return
dup_run_full fd f s s1 s' got full run = rw (got, full, run)

same_table :
    (f : FileId) (x : File) (s : FileState) → get_empty_fd (referred_again f x s) ≡ get_empty_fd s
unfolding get_empty_fd
same_table f x s = refl

-- In a process whose files count its descriptors and other references, duplicating an open descriptor
-- returns the free one that `get_empty_fd` finds, which then refers to the same file; the files go on
-- counting the descriptors and the other references, and no vnode is given back.
pub dup_lem :
    (others : FileId → ℕ) (fd new : ℕ) (f : FileId) (s : FileState)
    → IsCounted others s
    → fd < nfiles
    → s.p_files fd ≡ some f
    → get_empty_fd s ≡ some new
    → (s' : FileState) × (do_dup (pos fd) s ≡ done (ok new, s'))
      × (s'.p_files ≡ update s.p_files new (some f))
      × IsCounted others s'
      × (s'.vputs ≡ s.vputs)
dup_lem others fd new f s c h e free =
    let o = referred_object others s fd f c h e in
    let x = o.object in
    let s1 = referred_again f x s in
    let got = fget_run fd f s x o.number h e o.allocated o.of_vnode in
    let r =
      share_lem f new s1 (one_more x) o.number (ground arith) o.of_vnode
        (omega (arith, o.referred)) in
    let w = get_empty_fd_lem s new free in
    (
      r.0,
      dup_run fd new f s s1 r.0 got (same_table f x s ∙ free) r.1,
      r.2.table,
      record {
        counted = λ g.
            rw (r.2.table, r.2.objects g)
              (ground (
                arith,
                refs-update nfiles new s.p_files (some f) g w.0,
                w.1,
                c.counted g,
                o.allocated,
              ));
        vnode = λ g. rw (r.2.objects g) (ground (arith, c.vnode g, o.of_vnode));
        used = λ g. rw (r.2.objects g) (ground (arith, c.used g, o.referred));
      },
      r.2.given_back,
    )

-- In a process whose files count its descriptors and other references, duplicating an open descriptor
-- while none is free fails with EMFILE, and the descriptors and the files are as before.
pub dup_full :
    (others : FileId → ℕ) (fd : ℕ) (f : FileId) (s : FileState)
    → IsCounted others s
    → fd < nfiles
    → s.p_files fd ≡ some f
    → get_empty_fd s ≡ none
    → (s' : FileState) × (do_dup (pos fd) s ≡ done (err emfile, s'))
      × (s'.p_files ≡ s.p_files)
      × ((g : FileId) → s'.file g ≡ s.file g)
      × (s'.vputs ≡ s.vputs)
dup_full others fd f s c h e full =
    let o = referred_object others s fd f c h e in
    let x = o.object in
    let s1 = referred_again f x s in
    let got = fget_run fd f s x o.number h e o.allocated o.of_vnode in
    let back =
      fput_kept f s1 (one_more x) o.number (ground arith) o.of_vnode (omega (arith, o.referred)) in
    let same : x.f_refcount + 1 - 1 ≡ x.f_refcount = omega arith in
    (
      _,
      dup_run_full fd f s s1 _ got (same_table f x s ∙ full) back,
      refl,
      λ g. ground (arith, same, o.allocated),
      refl,
    )
