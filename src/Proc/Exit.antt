-- ===== src/Proc/Exit.antt =====
-- The files of a process that ends, in `proc_cleanup` of weenix.assign2/kernel/proc/proc.c: the loop
-- that closes them, with `do_close` of kernel/fs/vfs_syscall.c.
use usc_homeworks.Base.{
  ℕ, zero, suc, ◌+◌, ◌<◌, ◌≡◌, true, false, Option, none, some, ◌==◌, arith, refl, ◌∙◌, Bool-cases,
  Option-cases, inl, inr, ==_iff, done,
}
use usc_homeworks.Files.{nfiles, pos, FileId, File, FileState, do_close, Result, ok, err, ebadf}
use usc_homeworks.Files.Refs.{IsCounted, refs, refcount, in_use}
use usc_homeworks.Files.Close.{closed, close_bad, close_lem}
use usc_homeworks.Proc.Calls.{close_files}

no_refs :
    (n : ℕ) (t : ℕ → Option FileId) (f : FileId) → ((d : ℕ) → d < n → t d ≡ none) → refs n t f ≡ 0
unfolding refs
no_refs zero t f h = refl
no_refs (suc n) t f h =
    rw (h n (omega arith)) (omega (arith, no_refs n t f (λ d l. h d (omega arith))))

not_in_use : (o : Option File) → in_use o ≡ true → refcount o ≡ 0 → o ≡ none
not_in_use none u c = refl
not_in_use (some x) u c = absurd (ground (arith, u, c))

-- One descriptor is closed, whether it is open or not.
close_one :
    (others : FileId → ℕ) (fd : ℕ) (f : FileState)
    → IsCounted others f
    → fd < nfiles
    → (r : Result) × (f' : FileState) × (do_close (pos fd) f ≡ done (r, f'))
      × IsCounted others f'
      × (f'.p_files fd ≡ none)
      × ((d : ℕ) → (d == fd) ≡ false → f'.p_files d ≡ f.p_files d)
close_one others fd f c h = elim (Option-cases (f.p_files fd)) [
  | inl free ↦ (err ebadf, f, close_bad (pos fd) f (closed h free), c, free, λ d ne. refl)
  | inr (x, open_) ↦
      let r = close_lem others fd x f c h open_ in
      let self : (fd == fd) ≡ true = ground arith in
      (ok 0, r.0, r.1, r.3, rw (r.2, self), λ d ne. rw (r.2, ne))
]

close_next :
    (k fd : ℕ) (r : Result) (f g h : FileState)
    → do_close (pos fd) f ≡ done (r, g)
    → close_files k (fd + 1) g ≡ done h
    → close_files (suc k) fd f ≡ done h
unfolding close_files
close_next k fd r f g h e run = rw (e, run)

close_none : (fd : ℕ) (f : FileState) → close_files zero fd f ≡ done f
unfolding close_files
close_none fd f = refl

close_from :
    (others : FileId → ℕ) (k fd : ℕ) (f : FileState)
    → IsCounted others f
    → fd + k ≡ nfiles
    → ((d : ℕ) → d < fd → f.p_files d ≡ none)
    → (f' : FileState) × (close_files k fd f ≡ done f')
      × IsCounted others f'
      × ((d : ℕ) → d < nfiles → f'.p_files d ≡ none)
close_from others zero fd f c e before = (f, close_none fd f, c, λ d l. before d (omega arith))
close_from others (suc k) fd f c e before =
    let r = close_one others fd f c (omega arith) in
    let before' : (d : ℕ) → d < fd + 1 → r.1.p_files d ≡ none = λ d l. elim (Bool-cases (d == fd)) [
      | inl same ↦ rw ((==_iff d fd).0 same) r.4
      | inr other ↦ rw (r.5 d other) (before d (ground arith))
    ] in
    let q = close_from others k (fd + 1) r.1 r.3 (omega arith) before' in
    (q.0, close_next k fd r.0 f r.1 q.0 r.2 q.1, q.2, q.3)

-- In a process whose files count its descriptors and other references, the loop over the descriptors in
-- `proc_cleanup` ends with all of them closed. Each file object then counts the other references and
-- nothing else, and one without other references is freed, so that the end of a process leaks no file.
pub exit_closes :
    (others : FileId → ℕ) (f : FileState)
    → IsCounted others f
    → (f' : FileState) × (close_files nfiles 0 f ≡ done f')
      × ((d : ℕ) → d < nfiles → f'.p_files d ≡ none)
      × ((x : FileId) → refcount (f'.file x) ≡ others x)
      × ((x : FileId) → others x ≡ 0 → f'.file x ≡ none)
exit_closes others f c =
    let r = close_from others nfiles 0 f c refl (λ d l. absurd (omega arith)) in
    let left : (x : FileId) → refcount (r.0.file x) ≡ others x =
      λ x. omega (arith, r.2.counted x, no_refs nfiles r.0.p_files x r.3) in
    (r.0, r.1, r.3, left, λ x h. not_in_use (r.0.file x) (r.2.used x) (left x ∙ h))
