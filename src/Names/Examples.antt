-- ===== src/Names/Examples.antt =====
-- Runs of the calls on paths of weenix.assign2/kernel/fs/vfs_syscall.c: the root is vnode 1, in which
-- "d" is the directory 2 and "f" the regular file 3.
use usc_homeworks.Base.{
  ◌≡◌, Bool, true, Option, none, some, [], ◌∷◌, ◌==◌, if◌then◌else◌, arith, refl, done, fault, ◌||◌,
}
use usc_homeworks.Names.{
  VnodeId, Name, Answer, got, failed, Vnodes, PathState, enoent, do_unlink, do_mknod, dir_namev,
  skip_slashes, split_token, namev_tokenize, follow, start, lookup, call_lookup, vref, vput, refer,
  refer_to,
}
use usc_homeworks.Names.Balance.{Moves, held}
use usc_homeworks.Names.Resolve.{directory, dir_namev-Moves}
use usc_homeworks.Names.Calls.{IsBalanced, IsRooted}
use usc_homeworks.Names.Syscalls.{IsFileSystem, unlink-IsBalanced, mknod_panics}

abbrev is_directory : VnodeId → Bool
is_directory v = (v == 1) || (v == 2)

abbrev when_dir {ℓ} : {A : Type ℓ} → VnodeId → A → Option A
when_dir v a = if is_directory v then some a else none

abbrev find : Name → Unit {0} → Answer VnodeId × Unit {0}
find (c ∷ []) w =
    if c == 100 then (got 2, w) else if c == 102 then (got 3, w) else (failed enoent, w)
find _ w = (failed enoent, w)

abbrev succeed : Name → Unit {0} → Answer (Unit {0}) × Unit {0}
succeed name w = (got tt, w)

abbrev ops : Vnodes (Unit {0})
ops = record {
  is_dir = is_directory;
  root = 1;
  lookup = λ v. when_dir v find;
  create = λ v. none;
  mknod = λ v. when_dir v succeed;
  mkdir = λ v. when_dir v succeed;
  rmdir = λ v. when_dir v succeed;
  unlink = λ v. when_dir v succeed;
  link = λ v. none;
}

ops-IsFileSystem : IsFileSystem ops
ops-IsFileSystem = record {
  has_mkdir = λ v e. ground arith;
  has_rmdir = λ v e. ground arith;
  has_unlink = λ v e. ground arith;
}

abbrev state : PathState (Unit {0})
state = record { vn_refcount = λ v. if v == 1 then 2 else 0; p_cwd = 1; world = tt }

state-IsRooted : IsRooted ops state
state-IsRooted = record { root_held = omega arith; cwd_held = omega arith }

unlink-IsBalanced_example : IsBalanced (do_unlink ops (47 ∷ 100 ∷ 47 ∷ 102 ∷ [])) state
unlink-IsBalanced_example =
    unlink-IsBalanced ops (47 ∷ 100 ∷ 47 ∷ 102 ∷ []) state ops-IsFileSystem state-IsRooted

dir_namev-Moves_example :
    (r : Answer (VnodeId × Name)) × (s' : PathState (Unit {0})) × (dir_namev ops
        (100 ∷ 47 ∷ 102 ∷ [])
        none
        state
      ≡ done (r, s'))
    × Moves (λ g. 0) (held (directory r)) state s'
dir_namev-Moves_example =
    dir_namev-Moves ops (100 ∷ 47 ∷ 102 ∷ []) none state (unfold start in omega arith)

-- The name "x" in the regular file "f".
abbrev in_file : Name
in_file = 102 ∷ 47 ∷ 120 ∷ []

resolved :
    (s1 : PathState (Unit {0})) × (dir_namev ops in_file (some 1) state
      ≡ done (got (3, 120 ∷ []), s1))
unfolding dir_namev skip_slashes split_token namev_tokenize follow start lookup call_lookup vref
    vput refer refer_to
resolved = (_, refl)

mknod_panics_example : do_mknod ops in_file true state ≡ fault
mknod_panics_example =
    mknod_panics ops in_file state resolved.0 (3, 120 ∷ []) resolved.1 refl refl refl
