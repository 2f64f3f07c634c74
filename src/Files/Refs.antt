-- ===== src/Files/Refs.antt =====
-- The reference counts of weenix.assign2/kernel/fs/file.c count the descriptors of a process and the
-- references of others.
use usc_homeworks.Base.{
  ℕ, zero, suc, ◌+◌, ◌-◌, ◌≡◌, ◌<◌, ◌≤◌, Bool, true, false, not, Option, none, some, ◌==◌,
  if◌then◌else◌, arith, refl, ◌∷◌, done, Bool-cases, inl, inr, ==_iff, leb,
}
use usc_homeworks.Sched.{update, is_none}
use usc_homeworks.Files.{nfiles, FileId, VnodeId, File, FileState, fref, fget, fput, release}

-- 1 if the entry is this file.
abbrev pub hit : Option FileId → FileId → ℕ
hit none f = 0
hit (some g) f = if g == f then 1 else 0

-- How many of the first `n` descriptors are this file.
unfoldable pub refs : ℕ → (ℕ → Option FileId) → FileId → ℕ
refs zero t f = 0
refs (suc n) t f = hit (t n) f + refs n t f

abbrev pub refcount : Option File → ℕ
refcount none = 0
refcount (some x) = x.f_refcount

-- Whether an object that is allocated has a vnode.
abbrev pub has_vnode : Option File → Bool
has_vnode none = true
has_vnode (some x) = not (is_none x.f_vnode)

-- No object is allocated that nothing refers to.
abbrev pub in_use : Option File → Bool
in_use none = true
in_use (some x) = not (x.f_refcount == 0)

-- Between system calls of a process each object counts the descriptors of the process that refer to it
-- and the other references, `others`, which are those of other processes and of calls that they wait
-- in; it is freed when there are none, and has a vnode.
pub record IsCounted (others : FileId → ℕ) (s : FileState) : Type 0 where
  pub counted : (f : FileId) → refcount (s.file f) ≡ refs nfiles s.p_files f + others f
  pub vnode : (f : FileId) → has_vnode (s.file f) ≡ true
  pub used : (f : FileId) → in_use (s.file f) ≡ true

refs-update_out :
    (n fd : ℕ) (t : ℕ → Option FileId) (e : Option FileId) (f : FileId)
    → n ≤ fd
    → refs n (update t fd e) f ≡ refs n t f
unfolding refs
refs-update_out zero fd t e f h = refl
refs-update_out (suc n) fd t e f h = ground (arith, refs-update_out n fd t e f)

-- What the assignment of a descriptor does to the count.
pub refs-update :
    (n fd : ℕ) (t : ℕ → Option FileId) (e : Option FileId) (f : FileId)
    → fd < n
    → refs n (update t fd e) f + hit (t fd) f ≡ refs n t f + hit e f
unfolding refs
refs-update zero fd t e f h = absurd (omega arith)
refs-update (suc n) fd t e f h = elim (Bool-cases (n == fd)) [
  | inl same ↦
      let here : n ≡ fd = (==_iff n fd).0 same in
      rw (same, here, refs-update_out fd fd t e f (omega arith)) (omega arith)
  | inr other ↦ rw other (ground (arith, refs-update n fd t e f))
]

pub refs-hit :
    (n fd : ℕ) (t : ℕ → Option FileId) (f : FileId) → fd < n → t fd ≡ some f → 0 < refs n t f
unfolding refs
refs-hit zero fd t f h e = absurd (omega arith)
refs-hit (suc n) fd t f h e = elim (Bool-cases (n == fd)) [
  | inl same ↦ let here : n ≡ fd = (==_iff n fd).0 same in rw (here, e) (ground arith)
  | inr other ↦ ground (arith, refs-hit n fd t f)
]

-- The object of an open descriptor.
pub record IsOpen (s : FileState) (fd : ℕ) (f : FileId) : Type 0 where
  pub object : File
  pub number : VnodeId
  pub allocated : s.file f ≡ some object
  pub of_vnode : object.f_vnode ≡ some number
  pub referred : 0 < object.f_refcount

pub referred_object :
    (others : FileId → ℕ) (s : FileState) (fd : ℕ) (f : FileId)
    → IsCounted others s
    → fd < nfiles
    → s.p_files fd ≡ some f
    → IsOpen s fd f
referred_object others s fd f c h e = go (s.file f) refl
  where
    some_refs : 0 < refcount (s.file f)
    some_refs = omega (arith, c.counted f, refs-hit nfiles fd s.p_files f h e)

    go : (o : Option File) → s.file f ≡ o → IsOpen s fd f
    go none n = let nothing : 0 < 0 = rw n at some_refs in absurd (omega arith)
    go (some x) n = with_vnode x.f_vnode refl
      where
        with_vnode : (v : Option VnodeId) → x.f_vnode ≡ v → IsOpen s fd f
        with_vnode none m = cc (rw (n, m) at (c.vnode f))
        with_vnode (some v) m = record {
          object = x;
          number = v;
          allocated = n;
          of_vnode = m;
          referred = rw n at some_refs;
        }

-- An object with one more reference.
abbrev pub one_more : File → File
one_more x = record x { f_refcount = x.f_refcount + 1 }

abbrev pub referred_again : FileId → File → FileState → FileState
referred_again f x s = record s { file = update s.file f (some (one_more x)) }

pub fref_run :
    (f : FileId) (s : FileState) (x : File) (v : VnodeId)
    → s.file f ≡ some x
    → x.f_vnode ≡ some v
    → fref f s ≡ done (referred_again f x s)
unfolding fref
fref_run f s x v e h = rw (e, fref, h) (ground arith)

pub fget_run :
    (fd : ℕ) (f : FileId) (s : FileState) (x : File) (v : VnodeId)
    → fd < nfiles
    → s.p_files fd ≡ some f
    → s.file f ≡ some x
    → x.f_vnode ≡ some v
    → fget fd s ≡ done (some f, referred_again f x s)
unfolding fget
fget_run fd f s x v h t e k =
    let in_range : leb nfiles fd ≡ false = ground arith in rw (in_range, t, fref_run f s x v e k)

-- `fput` of an object that stays, and of one that goes.
pub fput_kept :
    (f : FileId) (s : FileState) (x : File) (v : VnodeId)
    → s.file f ≡ some x
    → x.f_vnode ≡ some v
    → 1 < x.f_refcount
    → fput f s
      ≡ done
          (record s { file = update s.file f (some (record x { f_refcount = x.f_refcount - 1 })) })
unfolding fput
fput_kept f s x v e k h =
    let one : (x.f_refcount == 1) ≡ false = ground arith in
    let zero_ : (x.f_refcount == 0) ≡ false = ground arith in rw (e, fput, k, one, zero_)

pub fput_last :
    (f : FileId) (s : FileState) (x : File) (v : VnodeId)
    → s.file f ≡ some x
    → x.f_vnode ≡ some v
    → x.f_refcount ≡ 1
    → fput f s ≡ done (record s { file = update s.file f none; vputs = v ∷ s.vputs })
unfolding fput release
fput_last f s x v e k h = rw (e, fput, k, h)
