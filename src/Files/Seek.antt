-- ===== src/Files/Seek.antt =====
-- `do_write` and `do_lseek` of weenix.assign2/kernel/fs/vfs_syscall.c.
use usc_homeworks.Base.{
  ℕ, ◌+◌, ◌-◌, ◌^◌, not, ◌&&◌, ◌||◌, Option, none, some, ◌==◌, ltb, leb, if◌then◌else◌, Run, fault,
  and_then,
}
use usc_homeworks.Sched.{update}
use usc_homeworks.Files.{
  ℤ, pos, negsuc, FileId, VnodeId, File, FileState, Result, ok, err, ebadf, einval, Vnodes,
  with_file, put_and_return, set_pos, clamp,
}

-- What follows the call of the `write` operation on the vnode `v` at the position `p`. The assertion on
-- the length of a regular file is kept.
unfoldable pub after_write :
    Vnodes → VnodeId → FileId → ℕ → Result → FileState → Run (Result × FileState)
after_write w v f p (err e) s = put_and_return f (err e) s
after_write w v f p (ok n) s =
    if n == 0
    then put_and_return f (ok 0) s
    else and_then (set_pos f (p + n) s) λ s'.
      if w.is_special v || (w.is_regular v && leb (p + n) (s'.vn_len v))
      then put_and_return f (ok n) s'
      else fault

-- From the test of the `write` operation of the vnode `v` on. A file that is open for appending is first
-- set to the end.
unfoldable pub write_vnode :
    Vnodes
    → VnodeId
    → Option (ℕ → ℕ → Result × ℕ)
    → FileId
    → File
    → ℕ
    → FileState
    → Run (Result × FileState)
write_vnode w v none f x nbytes s = put_and_return f (err ebadf) s
write_vnode w v (some op) f x nbytes s =
    if not x.f_mode.fmode_write
    then put_and_return f (err ebadf) s
    else let p = if x.f_mode.fmode_append then s.vn_len v else x.f_pos in
      and_then (set_pos f p s) λ s1.
        let (ret, len) = op p (clamp p nbytes) in
        after_write w v f p ret (record s1 { vn_len = update s1.vn_len v len })

unfoldable pub write_file :
    Vnodes → Option VnodeId → FileId → File → ℕ → FileState → Run (Result × FileState)
write_file w none f x nbytes s = fault
write_file w (some v) f x nbytes s = write_vnode w v (w.write v) f x nbytes s

unfoldable pub do_write : Vnodes → ℤ → ℕ → FileState → Run (Result × FileState)
do_write w fd nbytes s =
    with_file fd s
      λ d f s1. elim (s1.file f) [ none ↦ fault | some x ↦ write_file w x.f_vnode f x nbytes s1 ]

-- `SEEK_SET`, `SEEK_CUR` and `SEEK_END`, and any other number.
pub data Whence : Type 0 where
  seek_set seek_cur seek_end seek_other : Whence

-- The sum of a position and an offset.
unfoldable pub add_offset : ℕ → ℤ → ℤ
add_offset p (pos k) = pos (p + k)
add_offset p (negsuc k) = if ltb k p then pos (p - (k + 1)) else negsuc (k - p)

-- The new position; `none` stands for a `whence` that is none of the three.
unfoldable pub new_position : Whence → ℤ → File → VnodeId → FileState → Option ℤ
new_position seek_set offset x v s = some offset
new_position seek_cur offset x v s = some (add_offset x.f_pos offset)
new_position seek_end offset x v s = some (add_offset (s.vn_len v) offset)
new_position seek_other offset x v s = none

-- The end of `do_lseek`. A sum above the largest `int` is an overflow, which C leaves undefined.
unfoldable pub move_to : Option ℤ → FileId → FileState → Run (Result × FileState)
move_to none f s = put_and_return f (err einval) s
move_to (some (negsuc k)) f s = put_and_return f (err einval) s
move_to (some (pos p)) f s =
    if leb (2 ^ 31) p then fault else and_then (set_pos f p s) (put_and_return f (ok p))

unfoldable pub seek_file :
    ℤ → Whence → Option VnodeId → FileId → File → FileState → Run (Result × FileState)
seek_file offset whence none f x s = fault
seek_file offset whence (some v) f x s = move_to (new_position whence offset x v s) f s

unfoldable pub do_lseek : ℤ → ℤ → Whence → FileState → Run (Result × FileState)
do_lseek fd offset whence s =
    with_file fd s λ d f s1. elim (s1.file f) [
      | none ↦ fault
      | some x ↦ seek_file offset whence x.f_vnode f x s1
    ]
