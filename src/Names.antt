-- ===== src/Names.antt =====
-- Paths and the system calls on them: weenix.assign2/kernel/fs/namev.c and the calls of
-- fs/vfs_syscall.c that take a path. A path is the list of its characters before its end, a token is
-- given by its characters. The vnode operations of a file system are an interface.
pub mod Tokens
pub mod Balance
pub mod Resolve
pub mod Calls
pub mod Syscalls
pub mod Examples
use usc_homeworks.Base.{
  ℕ, zero, suc, ◌+◌, ◌-◌, Bool, true, false, not, ◌&&◌, ◌||◌, Option, none, some, List, [], ◌∷◌,
  ◌==◌, ltb, leb, length, if◌then◌else◌, Run, done, fault, out_of_fuel, and_then,
}
use usc_homeworks.Sched.{update, is_none, is_empty}

abbrev pub VnodeId : Type 0
VnodeId = ℕ

abbrev pub Name : Type 0
Name = List ℕ

abbrev pub slash : ℕ
slash = 47

abbrev pub dot : ℕ
dot = 46

abbrev pub name_len : ℕ
name_len = 28

pub data Errno : Type 0 where
  enoent enotdir eexist eisdir einval enotempty enametoolong : Errno
  other : ℕ → Errno

pub data Answer (A : Type 0) : Type 0 where
  got : A → Answer A
  failed : Errno → Answer A

-- The operations of vnodes, NULL where a vnode has none, on the state `W` of the file systems. `lookup`
-- and `create` give a vnode on which they took a reference.
pub record Vnodes (W : Type 0) : Type 0 where
  pub is_dir : VnodeId → Bool
  pub root : VnodeId
  pub lookup : VnodeId → Option (Name → W → Answer VnodeId × W)
  pub create : VnodeId → Option (Name → W → Answer VnodeId × W)
  pub mknod : VnodeId → Option (Name → W → Answer (Unit {0}) × W)
  pub mkdir : VnodeId → Option (Name → W → Answer (Unit {0}) × W)
  pub rmdir : VnodeId → Option (Name → W → Answer (Unit {0}) × W)
  pub unlink : VnodeId → Option (Name → W → Answer (Unit {0}) × W)
  pub link : VnodeId → Option (VnodeId → Name → W → Answer (Unit {0}) × W)

-- How many references there are to each vnode, the current directory of the process, and the file
-- systems.
pub record PathState (W : Type 0) : Type 0 where
  pub vn_refcount : VnodeId → ℕ
  pub p_cwd : VnodeId
  pub world : W

abbrev pub Call : Type 0 → Type 0 → Type 0
Call W A = PathState W → Run (Answer A × PathState W)

-- The characters after the leading slashes.
unfoldable pub skip_slashes : Name → Name
skip_slashes [] = []
skip_slashes (c ∷ cs) = if c == slash then skip_slashes cs else c ∷ cs

-- The characters before the next slash, and those from it on.
unfoldable pub split_token : Name → Name × Name
split_token [] = ([], [])
split_token (c ∷ cs) =
    let (t, rest) = split_token cs in if c == slash then ([], c ∷ cs) else (c ∷ t, rest)

-- `namev_tokenize`: the token, and `*search` after it, where `none` is NULL.
unfoldable pub namev_tokenize : Option Name → Name × Option Name
namev_tokenize none = ([], none)
namev_tokenize (some cs) =
    let (t, rest) = split_token (skip_slashes cs) in
    if is_empty rest then (t, none) else (t, some rest)

-- `name_match`, on the names "." and "..".
abbrev pub is_dot : Name → Bool
is_dot (c ∷ []) = c == dot
is_dot _ = false

abbrev pub is_dot_dot : Name → Bool
is_dot_dot (c ∷ d ∷ []) = (c == dot) && (d == dot)
is_dot_dot _ = false

module _ {W : Type 0} where
  -- One reference more.
  unfoldable pub refer_to : VnodeId → PathState W → PathState W
  refer_to v s = record s { vn_refcount = update s.vn_refcount v (s.vn_refcount v + 1) }

  unfoldable pub vref : VnodeId → PathState W → Run (PathState W)
  vref v s = if s.vn_refcount v == 0 then fault else done (refer_to v s)

  -- Of `vput` only the count is kept.
  unfoldable pub vput : VnodeId → PathState W → Run (PathState W)
  vput v s =
      if s.vn_refcount v == 0
      then fault
      else done (record s { vn_refcount = update s.vn_refcount v (s.vn_refcount v - 1) })

  -- A vnode operation that gives a vnode with a reference.
  unfoldable pub refer : Answer VnodeId → PathState W → PathState W
  refer (got v) s = refer_to v s
  refer (failed e) s = s

  -- `vput(v); return ret;`
  unfoldable pub put_return : {A : Type 0} → VnodeId → Answer A → Call W A
  put_return v ret s = and_then (vput v s) λ s'. done (ret, s')

  -- The end of a call: the directory and, if there is one, the target are given back.
  unfoldable pub finish : VnodeId → Option VnodeId → Answer (Unit {0}) → Call W (Unit {0})
  finish dir none ret s = put_return dir ret s
  finish dir (some targ) ret s = and_then (vput dir s) λ s'. put_return targ ret s'

  -- The call of an operation that must be there.
  unfoldable pub apply_op :
      Option (Name → W → Answer (Unit {0}) × W)
      → VnodeId
      → Option VnodeId
      → Name
      → Call W (Unit {0})
  apply_op none dir targ name s = fault
  apply_op (some op) dir targ name s =
      let (ret, w) = op name s.world in finish dir targ ret (record s { world = w })

module _ {W : Type 0} (ops : Vnodes W) where
  unfoldable pub call_lookup :
      Option (Name → W → Answer VnodeId × W) → VnodeId → Name → Call W VnodeId
  call_lookup none dir name s = done (failed enotdir, s)
  call_lookup (some op) dir name s =
      if is_empty name
      then and_then (vref dir s) (λ s'. done (got dir, s'))
      else let (ret, w) = op name s.world in done (ret, refer ret (record s { world = w }))

  unfoldable pub lookup : VnodeId → Name → Call W VnodeId
  lookup dir name s = call_lookup (ops.lookup dir) dir name s

  -- The loop of `dir_namev`, and what follows a lookup in it.
  unfoldable pub follow : ℕ → VnodeId → Name → Name → Option Name → Call W (VnodeId × Name)
  follow zero cur dirtok nextok save s =
      if is_empty nextok then done (got (cur, dirtok), s) else out_of_fuel
  follow (suc k) cur dirtok nextok save s =
      let next = namev_tokenize save in
      let step = and_then (lookup cur dirtok s) (λ r. and_then (vput cur r.1) (λ s'. elim r.0 [
        | failed e ↦ done (failed e, s')
        | got v ↦ follow k v nextok next.0 next.1 s'
      ])) in
      if is_empty nextok then done (got (cur, dirtok), s) else step

  -- Where a path starts.
  unfoldable pub start : Name → Option VnodeId → PathState W → VnodeId
  start [] base s = s.p_cwd
  start (c ∷ cs) none s = if c == slash then ops.root else s.p_cwd
  start (c ∷ cs) (some v) s = if c == slash then ops.root else v

  unfoldable pub dir_namev : Name → Option VnodeId → Call W (VnodeId × Name)
  dir_namev path base s =
      let first = namev_tokenize (some path) in
      let second = namev_tokenize first.1 in
      if is_empty path
      then done (failed einval, s)
      else let cur = start path base s in
        and_then (vref cur s) (follow (length path + 2) cur first.0 second.0 second.1)

  unfoldable pub do_create :
      Option (Name → W → Answer VnodeId × W) → VnodeId → Name → Call W VnodeId
  do_create none dir name s = fault
  do_create (some op) dir name s =
      if leb name_len (length name)
      then put_return dir (failed enametoolong) s
      else let (ret, w) = op name s.world in put_return dir ret (refer ret (record s { world = w }))

  -- What `open_namev` does with the answer of `lookup`; `creat` is the flag O_CREAT.
  unfoldable pub opened : Bool → VnodeId → Name → Answer VnodeId → Call W VnodeId
  opened creat dir name (got v) s = put_return dir (got v) s
  opened creat dir name (failed enoent) s =
      if creat then do_create (ops.create dir) dir name s else put_return dir (failed enoent) s
  opened creat dir name (failed e) s = put_return dir (failed e) s

  unfoldable pub open_namev : Name → Bool → Option VnodeId → Call W VnodeId
  open_namev path creat base s = and_then (dir_namev path base s) λ r. elim r.0 [
    | failed e ↦ done (failed e, r.1)
    | got d ↦ and_then (lookup d.0 d.1 r.1) λ f. opened creat d.0 d.1 f.0 f.1
  ]

  -- `dir_namev` of a path from the current directory, the first step of the calls below.
  unfoldable pub with_dir : Name → (VnodeId → Name → Call W (Unit {0})) → Call W (Unit {0})
  with_dir path k s =
      and_then (dir_namev path (some s.p_cwd) s)
        λ r. elim r.0 [ failed e ↦ done (failed e, r.1) | got d ↦ k d.0 d.1 r.1 ]

  -- What `do_mknod` and `do_mkdir` do with the answer of `lookup`, which should be an error.
  unfoldable pub make :
      Option (Name → W → Answer (Unit {0}) × W)
      → VnodeId
      → Name
      → Answer VnodeId
      → Call W (Unit {0})
  make op dir name (got targ) s = finish dir (some targ) (failed eexist) s
  make op dir name (failed e) s = apply_op op dir none name s

  -- `do_mknod`; `is_node` is the test of the mode for S_IFCHR, S_IFBLK or S_IFREG.
  unfoldable pub do_mknod : Name → Bool → Call W (Unit {0})
  do_mknod path is_node s =
      if not is_node
      then done (failed einval, s)
      else with_dir path
          (λ dir name s1.
            if leb name_len (length name)
            then finish dir none (failed enametoolong) s1
            else and_then (lookup dir name s1) λ r. make (ops.mknod dir) dir name r.0 r.1)
          s

  unfoldable pub do_mkdir : Name → Call W (Unit {0})
  do_mkdir path s =
      with_dir path
        (λ dir name s1.
          if leb name_len (length name)
          then finish dir none (failed enametoolong) s1
          else if not (ops.is_dir dir)
          then finish dir none (failed enotdir) s1
          else and_then (lookup dir name s1) λ r. make (ops.mkdir dir) dir name r.0 r.1)
        s

  -- What `do_rmdir` and `do_unlink` do with the answer of `lookup`: `want` is whether the target must
  -- be a directory, and `bad` the error if it is not what it must be.
  unfoldable pub take_away :
      Bool
      → Errno
      → Option (Name → W → Answer (Unit {0}) × W)
      → VnodeId
      → Name
      → Answer VnodeId
      → Call W (Unit {0})
  take_away want bad op dir name (failed e) s = finish dir none (failed e) s
  take_away want bad op dir name (got targ) s =
      if (if ops.is_dir targ then not want else want)
      then finish dir (some targ) (failed bad) s
      else apply_op op dir (some targ) name s

  unfoldable pub do_rmdir : Name → Call W (Unit {0})
  do_rmdir path s =
      with_dir path
        (λ dir name s1.
          if is_dot name
          then finish dir none (failed einval) s1
          else if is_dot_dot name
          then finish dir none (failed enotempty) s1
          else and_then (lookup dir name s1)
              λ r. take_away true enotdir (ops.rmdir dir) dir name r.0 r.1)
        s

  unfoldable pub do_unlink : Name → Call W (Unit {0})
  do_unlink path s =
      with_dir path
        (λ dir name s1.
          and_then (lookup dir name s1)
            λ r. take_away false eisdir (ops.unlink dir) dir name r.0 r.1)
        s

  -- The end of `do_link`, on the operation of the target directory.
  unfoldable pub link_to :
      Option (VnodeId → Name → W → Answer (Unit {0}) × W)
      → VnodeId
      → VnodeId
      → Name
      → Call W (Unit {0})
  link_to none from dir name s = finish dir (some from) (failed enotdir) s
  link_to (some op) from dir name s =
      let (ret, w) = op from name s.world in finish dir (some from) ret (record s { world = w })

  unfoldable pub do_link : Name → Name → Call W (Unit {0})
  do_link from to s = and_then (open_namev from false (some s.p_cwd) s) λ r. elim r.0 [
    | failed e ↦ done (failed e, r.1)
    | got file ↦ and_then (dir_namev to (some r.1.p_cwd) r.1) (λ q. elim q.0 [
      | failed e ↦ put_return file (failed e) q.1
      | got d ↦
          if leb name_len (length d.1)
          then finish d.0 (some file) (failed enametoolong) q.1
          else link_to (ops.link d.0) file d.0 d.1 q.1
    ])
  ]

  unfoldable pub do_rename : Name → Name → Call W (Unit {0})
  do_rename oldname newname s =
      and_then (do_link oldname newname s)
        λ r. elim r.0 [ failed e ↦ done (failed e, r.1) | got _ ↦ do_unlink oldname r.1 ]

  unfoldable pub do_chdir : Name → Call W (Unit {0})
  do_chdir path s = and_then (open_namev path false (some s.p_cwd) s) λ r. elim r.0 [
    | failed e ↦ done (failed e, r.1)
    | got new ↦
        if not (ops.is_dir new)
        then put_return new (failed enotdir) r.1
        else and_then (vput r.1.p_cwd r.1) (λ s'. done (got tt, record s' { p_cwd = new }))
  ]
