-- ===== src/Files.antt =====
-- Open files and descriptors of weenix.assign2/kernel/fs/file.c, fs/open.c and fs/vfs_syscall.c. A
-- file object and a vnode are named by numbers; the calls of `vput` are recorded, latest first, for
-- the vnode layer is a component of its own. A failed assertion and a use of NULL or of a freed
-- object are faults.
pub mod Refs
pub mod Close
pub mod Dup
pub mod Position
pub mod Seek
pub mod Examples
use usc_homeworks.Base.{
  ℕ, zero, suc, ◌+◌, ◌-◌, ◌^◌, ◌%◌, Bool, true, false, not, ◌&&◌, ◌||◌, Option, none, some, List,
  [], ◌∷◌, ◌==◌, ltb, leb, if◌then◌else◌, Run, done, fault, and_then,
}
use usc_homeworks.Sched.{update, is_none}

-- A C `int`, from which a test for less than 0 tells the sign.
pub data ℤ : Type 0 where
  pos negsuc : ℕ → ℤ

abbrev pub nfiles : ℕ
nfiles = 32

abbrev pub FileId : Type 0
FileId = ℕ

abbrev pub VnodeId : Type 0
VnodeId = ℕ

-- `f_mode`, a mask of FMODE_READ, FMODE_WRITE and FMODE_APPEND: one Boolean for each bit.
pub record Mode : Type 0 where
  pub fmode_read : Bool
  pub fmode_write : Bool
  pub fmode_append : Bool

-- `file_t`
pub record File : Type 0 where
  pub f_pos : ℕ
  pub f_mode : Mode
  pub f_refcount : ℕ
  pub f_vnode : Option VnodeId

-- The descriptors of the current process, the file objects that are allocated, and the lengths of the
-- vnodes.
pub record FileState : Type 0 where
  pub p_files : ℕ → Option FileId
  pub file : FileId → Option File
  pub vputs : List VnodeId
  pub vn_len : VnodeId → ℕ

pub data Errno : Type 0 where
  ebadf eisdir emfile einval : Errno

-- What a system call returns: a value that is not negative, or an error.
pub data Result : Type 0 where
  ok : ℕ → Result
  err : Errno → Result

-- What the calls use of the vnodes: the type of a vnode (`is_special` for a character or a block
-- device), and its `read` and `write` operations, if it has them, on a position and a number of bytes;
-- `write` also gives the length of the vnode after it.
pub record Vnodes : Type 0 where
  pub is_dir : VnodeId → Bool
  pub is_special : VnodeId → Bool
  pub is_regular : VnodeId → Bool
  pub read : VnodeId → Option (ℕ → ℕ → Result)
  pub write : VnodeId → Option (ℕ → ℕ → Result × ℕ)

unfoldable pub fref : FileId → FileState → Run FileState
fref f s = elim (s.file f) [
  | none ↦ fault
  | some x ↦
      if not (x.f_refcount == 0) && is_none x.f_vnode
      then fault
      else done
          (record s { file = update s.file f (some (record x { f_refcount = x.f_refcount + 1 })) })
]

-- `fget` of a descriptor that is not negative.
unfoldable pub fget : ℕ → FileState → Run (Option FileId × FileState)
fget fd s = if leb nfiles fd then done (none, s) else elim (s.p_files fd) [
  | none ↦ done (none, s)
  | some f ↦ and_then (fref f s) (λ s'. done (some f, s'))
]

-- The end of `fput`, when no reference is left: the vnode is given back, and the object freed.
unfoldable pub release : FileId → Option VnodeId → FileState → FileState
release f none s = record s { file = update s.file f none }
release f (some v) s = record s { file = update s.file f none; vputs = v ∷ s.vputs }

unfoldable pub fput : FileId → FileState → Run FileState
fput f s = elim (s.file f) [
  | none ↦ fault
  | some x ↦
      if x.f_refcount == 0
      then fault
      else if not (x.f_refcount == 1) && is_none x.f_vnode
      then fault
      else if x.f_refcount == 1
      then done (release f x.f_vnode s)
      else done
          (record s { file = update s.file f (some (record x { f_refcount = x.f_refcount - 1 })) })
]

-- The loop of `get_empty_fd` over the `k` descriptors from `fd` on; `none` stands for `-EMFILE`.
unfoldable pub empty_fd_from : ℕ → ℕ → (ℕ → Option FileId) → Option ℕ
empty_fd_from zero fd files = none
empty_fd_from (suc k) fd files =
    let rest = empty_fd_from k (fd + 1) files in if is_none (files fd) then some fd else rest

unfoldable pub get_empty_fd : FileState → Option ℕ
get_empty_fd s = empty_fd_from nfiles 0 s.p_files

-- `if ((0 > fd) || (f = fget(fd)) == NULL)`: EBADF, or else the code that goes on with the file.
unfoldable pub with_file :
    ℤ → FileState → (ℕ → FileId → FileState → Run (Result × FileState)) → Run (Result × FileState)
with_file (negsuc _) s k = done (err ebadf, s)
with_file (pos fd) s k =
    and_then (fget fd s) λ r. elim r.0 [ none ↦ done (err ebadf, r.1) | some f ↦ k fd f r.1 ]

-- `fput(f); return ret;`
unfoldable pub put_and_return : FileId → Result → FileState → Run (Result × FileState)
put_and_return f ret s = and_then (fput f s) λ s'. done (ret, s')

unfoldable pub do_close : ℤ → FileState → Run (Result × FileState)
do_close fd s = with_file fd s λ d f s1.
    and_then (fput f s1)
      λ s2. put_and_return f (ok 0) (record s2 { p_files = update s2.p_files d none })

-- `curproc->p_files[fd] = f; fref(f);`, and the return of the descriptor.
unfoldable pub share : FileId → ℕ → FileState → Run (Result × FileState)
share f fd s =
    and_then (fref f (record s { p_files = update s.p_files fd (some f) }))
      λ s'. put_and_return f (ok fd) s'

-- The rest of `do_dup`, on what `get_empty_fd` found.
unfoldable pub dup_to : FileId → Option ℕ → FileState → Run (Result × FileState)
dup_to f none s = put_and_return f (err emfile) s
dup_to f (some new) s = share f new s

unfoldable pub do_dup : ℤ → FileState → Run (Result × FileState)
do_dup fd s = with_file fd s λ d f s1. dup_to f (get_empty_fd s1) s1

unfoldable pub do_dup2 : ℤ → ℤ → FileState → Run (Result × FileState)
do_dup2 ofd (negsuc _) s = done (err ebadf, s)
do_dup2 ofd (pos nfd) s =
    if leb nfiles nfd
    then done (err ebadf, s)
    else with_file ofd s λ d f s1.
      if d == nfd
      then put_and_return f (ok nfd) s1
      else and_then (do_close (pos nfd) s1) λ r. share f nfd r.1

-- A file object whose position is set.
unfoldable pub set_pos : FileId → ℕ → FileState → Run FileState
set_pos f p s = elim (s.file f) [
  | none ↦ fault
  | some x ↦ done (record s { file = update s.file f (some (record x { f_pos = p })) })
]

-- The bound on the number of bytes of `do_read` and `do_write`. `size_t` and `int` have 32 bits, and
-- the sum in `int` is negative when its highest bit is set.
unfoldable pub clamp : ℕ → ℕ → ℕ
clamp p nbytes = if ltb ((p + nbytes) % 2 ^ 32) (2 ^ 31) then nbytes else 2 ^ 31 - 1 - p

-- What follows the call of the `read` operation at the position `p`, on what it returned.
unfoldable pub after_read : FileId → ℕ → Result → FileState → Run (Result × FileState)
after_read f p (err e) s = put_and_return f (err e) s
after_read f p (ok n) s =
    if n == 0
    then put_and_return f (ok 0) s
    else and_then (set_pos f (p + n) s) (put_and_return f (ok n))

module _ (w : Vnodes) where
  -- From the test of the `read` operation of the vnode `v` on.
  unfoldable pub read_vnode :
      VnodeId → Option (ℕ → ℕ → Result) → FileId → File → ℕ → FileState → Run (Result × FileState)
  read_vnode v none f x nbytes s = put_and_return f (err ebadf) s
  read_vnode v (some op) f x nbytes s =
      if not x.f_mode.fmode_read
      then put_and_return f (err ebadf) s
      else if w.is_dir v
      then put_and_return f (err eisdir) s
      else after_read f x.f_pos (op x.f_pos (clamp x.f_pos nbytes)) s

  -- The part of `do_read` after `fget`, on the object and its vnode, which may be NULL.
  unfoldable pub read_file :
      Option VnodeId → FileId → File → ℕ → FileState → Run (Result × FileState)
  read_file none f x nbytes s = fault
  read_file (some v) f x nbytes s = read_vnode v (w.read v) f x nbytes s

  unfoldable pub do_read : ℤ → ℕ → FileState → Run (Result × FileState)
  do_read fd nbytes s =
      with_file fd s
        λ d f s1. elim (s1.file f) [ none ↦ fault | some x ↦ read_file x.f_vnode f x nbytes s1 ]
