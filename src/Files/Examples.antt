-- ===== src/Files/Examples.antt =====
-- Runs of the system calls of weenix.assign2/kernel/fs/vfs_syscall.c.
use usc_homeworks.Base.{
  ℕ, ◌+◌, ◌-◌, ◌^◌, ◌≡◌, ◌<◌, ◌↔◌, true, false, none, some, [], ◌∷◌, ◌==◌, if◌then◌else◌, arith,
  refl, done, Option,
}
use usc_homeworks.Sched.{update}
use usc_homeworks.Files.{
  pos, File, FileState, FileId, VnodeId, ok, get_empty_fd, empty_fd_from, clamp, do_close, do_dup,
}
use usc_homeworks.Files.Refs.{IsCounted, refs}
use usc_homeworks.Files.Close.{close_lem}
use usc_homeworks.Files.Dup.{dup_lem}
use usc_homeworks.Files.Position.{clamp_bound}

abbrev object : ℕ → File
object n = record {
  f_pos = 10;
  f_mode = record { fmode_read = true; fmode_write = false; fmode_append = false };
  f_refcount = n;
  f_vnode = some 7;
}

-- The descriptors 0 and 2 share the object 5.
abbrev table : ℕ → Option FileId
table d = if d == 0 then some 5 else if d == 2 then some 5 else none

abbrev state : FileState
state = record {
  p_files = table;
  file = λ f. if f == 5 then some (object 3) else none;
  vputs = [];
  vn_len = λ v. 13;
}

-- One more reference to it is that of another process.
abbrev another : FileId → ℕ
another f = if f == 5 then 1 else 0

state-IsCounted : IsCounted another state
unfolding refs
state-IsCounted = record {
  counted = λ f. ground arith;
  vnode = λ f. ground arith;
  used = λ f. ground arith;
}

-- The descriptor 2 is the last reference to its object.
abbrev last_one : FileState
last_one = record state {
  p_files = λ d. if d == 2 then some 5 else none;
  file = λ f. if f == 5 then some (object 1) else none;
}

last_one-IsCounted : IsCounted (λ f. 0) last_one
unfolding refs
last_one-IsCounted = record {
  counted = λ f. ground arith;
  vnode = λ f. ground arith;
  used = λ f. ground arith;
}

close_lem_example :
    (s' : FileState) × (do_close (pos 2) last_one ≡ done (ok 0, s'))
    × (s'.p_files ≡ update last_one.p_files 2 none)
    × IsCounted (λ f. 0) s'
    × ((v : VnodeId) × (some 7 ≡ some v)
        × (s'.vputs ≡ (if refs 32 s'.p_files 5 + 0 == 0 then v ∷ [] else [])))
close_lem_example = close_lem (λ f. 0) 2 5 last_one last_one-IsCounted (omega arith) refl

dup_lem_example :
    (s' : FileState) × (do_dup (pos 2) state ≡ done (ok 1, s'))
    × (s'.p_files ≡ update table 1 (some 5))
    × IsCounted another s'
    × (s'.vputs ≡ [])
unfolding get_empty_fd empty_fd_from
dup_lem_example = dup_lem another 2 1 5 state state-IsCounted (omega arith) refl refl

clamp_bound_example : (100 + clamp 100 (2 ^ 32 - 50) < 2 ^ 31) ↔ (100 + (2 ^ 32 - 50) < 2 ^ 32)
clamp_bound_example = clamp_bound 100 (2 ^ 32 - 50) (omega arith) (omega arith)

-- The second bound is not kept: the request is left as it is.
clamp_misses : clamp 100 (2 ^ 32 - 50) ≡ 2 ^ 32 - 50
unfolding clamp
clamp_misses = refl
