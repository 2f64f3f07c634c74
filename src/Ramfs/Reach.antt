-- ===== src/Ramfs/Reach.antt =====
-- The states of the file system of weenix.assign2/kernel/fs/ramfs/ramfs.c that its operations reach
-- from its mount, called as kernel/fs/vfs_syscall.c calls them.
use usc_homeworks.Base.{
  total-zero, ◌*◌, ℕ, ◌<◌, ◌≡◌, ◌≢◌, true, false, some, List, arith, refl, sym, done, ◌∙◌, subst,
  Run, ◌⊎◌,
}
use usc_homeworks.Names.{Name, Answer, got}
use usc_homeworks.Ramfs.{
  Ino, FileType, type_dir, type_chr, type_blk, Dirent, Ramfs, Alloc, vput, ramfs_max_files,
  dirent_size, first_free,
}
use usc_homeworks.Ramfs.Ops.{
  find_entry, dirents_of, edit_dir, dots, no_files, ramfs_mount, ramfs_create, ramfs_mknod,
  ramfs_lookup, ramfs_link, ramfs_unlink, ramfs_mkdir, ramfs_rmdir, is_empty_dir,
}
use usc_homeworks.Ramfs.Entries.{is_link, named, IsDistinct, refers, refers-dots}
use usc_homeworks.Ramfs.Links.{linkcount, in_use, links, IsLinked, one_to, IsLinked-weaken}
use usc_homeworks.Ramfs.Steps.{vget_lem, vput_lem, leads_to_dir}
use usc_homeworks.Ramfs.Edits.{with_new, with_new_lem, edit_dir_lem}
use usc_homeworks.Ramfs.Views.{
  IsRamfs, IsKept-IsDistinctIn, IsPut-IsDistinctIn, edit_dir-IsDistinctIn, IsDistinctIn,
}
use usc_homeworks.Ramfs.Lookup.{IsFree, allocated_run, lookup_answers}
use usc_homeworks.Ramfs.Calls.{IsRoom, create_binds, mknod_binds, with_new-IsDistinctIn}
use usc_homeworks.Ramfs.Removal.{link_binds, unlink_removes}
use usc_homeworks.Ramfs.Rmdir.{rmdir_removes}
use usc_homeworks.Ramfs.Mkdir.{mkdir_binds, new_dirents, fresh_dirents, dots-IsDistinct}

-- Before the mount, there is nothing.
no_files-IsRamfs : IsRamfs no_files
unfolding links refers IsDistinct named
no_files-IsRamfs = record {
  links = record {
    bounded = λ i h. refl;
    numbered = λ i. refl;
    referred = λ i. refl;
    linked = λ i. omega (arith, total-zero ramfs_max_files);
  };
  distinct = λ d n k. omega arith;
}

place_zero : first_free ramfs_max_files 0 no_files.rfs_inodes ≡ some 0
unfolding first_free
place_zero = refl

mount_lem :
    (mem : Alloc)
    → mem.kmalloc ≡ true
    → mem.page_alloc ≡ true
    → (s : Ramfs) × (ramfs_mount true mem ≡ done (got tt, s)) × IsRamfs s
mount_lem mem k p =
    let s1 = with_new type_dir 0 0 no_files in
    let size : ℕ → ℕ = λ _. 2 * dirent_size in
    let s2 = edit_dir 0 (dots 0 0) size s1 in
    let inside = fresh_dirents 0 0 no_files in
    let none_yet = with_new_lem type_dir 0 0 no_files no_files-IsRamfs.links (omega arith) refl in
    let l2 : IsLinked (one_to 0) s2 =
      edit_dir_lem s1 0 new_dirents (dots 0 0) size none_yet inside
        (λ x. omega (arith, refers-dots x 0 0 new_dirents)) in
    let d2 : IsDistinctIn s2 =
      edit_dir-IsDistinctIn s1 0 new_dirents (dots 0 0) size inside (dots-IsDistinct 0 0)
        (with_new-IsDistinctIn type_dir 0 0 no_files no_files-IsRamfs.distinct) in
    let r = vget_lem 0 s2 l2 (ground (arith, l2.linked 0)) in
    (
      r.0,
      unfold ramfs_mount in allocated_run mem type_dir 0 no_files 0 _ place_zero k p ∙ rw r.1,
      record {
        links = IsLinked-weaken r.0 r.2.keeps;
        distinct = IsKept-IsDistinctIn s2 r.0 r.2.same d2;
      },
    )

-- The state after the mount and calls that succeed, each under what its caller sees to: a name is not
-- "", "." or "..", one that is added is missing and not too long, and what is linked has a link.
pub data IsReached : Ramfs → Type 0 where
  mounts :
      {s : Ramfs} (mem : Alloc)
      → mem.kmalloc ≡ true
      → mem.page_alloc ≡ true
      → ramfs_mount true mem ≡ done (got tt, s)
      → IsReached s
  looks_up :
      {s s' : Ramfs} (dir : Ino) (name : Name) (ds : List Dirent) (a : Answer Ino)
      → IsReached s
      → dirents_of (s.rfs_inodes dir) ≡ some ds
      → is_link name ≡ true
      → ramfs_lookup dir name s ≡ done (a, s')
      → IsReached s'
  puts :
      {s s' : Ramfs} (ino : Ino)
      → IsReached s
      → in_use (s.vnodes ino) ≡ 1
      → vput ino s ≡ done s'
      → IsReached s'
  creates :
      {s s' : Ramfs} (mem : Alloc) (dir : Ino) (name : Name) (slot ino : ℕ) (ds : List Dirent)
      → IsReached s
      → IsFree dir name slot ds s
      → IsRoom ino mem s
      → ramfs_create mem dir name s ≡ done (got ino, s')
      → IsReached s'
  makes_node :
      {s s' : Ramfs} (type : FileType) (mem : Alloc) (dir : Ino) (name : Name) (dev slot ino : ℕ)
      (ds : List Dirent)
      → (type ≡ type_chr) ⊎ (type ≡ type_blk)
      → IsReached s
      → IsFree dir name slot ds s
      → IsRoom ino mem s
      → ramfs_mknod mem dir name (some type) dev s ≡ done (got tt, s')
      → IsReached s'
  makes_dir :
      {s s' : Ramfs} (mem : Alloc) (dir : Ino) (name : Name) (slot ino : ℕ) (ds : List Dirent)
      → IsReached s
      → IsFree dir name slot ds s
      → IsRoom ino mem s
      → ramfs_mkdir mem dir name s ≡ done (got tt, s')
      → IsReached s'
  makes_link :
      {s s' : Ramfs} (old dir : Ino) (name : Name) (slot : ℕ) (ds : List Dirent)
      → IsReached s
      → IsFree dir name slot ds s
      → 0 < linkcount (s.rfs_inodes old)
      → ramfs_link old dir name s ≡ done (got tt, s')
      → IsReached s'
  unlinks :
      {s s' : Ramfs} (dir : Ino) (name : Name) (ino : Ino) (ds : List Dirent)
      → IsReached s
      → dirents_of (s.rfs_inodes dir) ≡ some ds
      → is_link name ≡ true
      → find_entry name ds ≡ some ino
      → leads_to_dir (s.vnodes ino) (s.rfs_inodes ino) ≡ false
      → dir ≢ ino
      → ramfs_unlink dir name s ≡ done (got tt, s')
      → IsReached s'
  removes_dir :
      {s s' : Ramfs} (dir : Ino) (name : Name) (ino : Ino) (ds es : List Dirent)
      → IsReached s
      → dirents_of (s.rfs_inodes dir) ≡ some ds
      → is_link name ≡ true
      → find_entry name ds ≡ some ino
      → leads_to_dir (s.vnodes ino) (s.rfs_inodes ino) ≡ true
      → dirents_of (s.rfs_inodes ino) ≡ some es
      → is_empty_dir es ≡ true
      → dir ≢ ino
      → ramfs_rmdir dir name s ≡ done (got tt, s')
      → IsReached s'

-- A call that ran one way ran no other way.
same_run :
    {A : Type 0} (m : Run (A × Ramfs)) (a b : A) (s t : Ramfs)
    → m ≡ done (a, s)
    → m ≡ done (b, t)
    → IsRamfs s
    → IsRamfs t
same_run {A} m a b s t e f w =
    let both : ◌≡◌ {A = Run (A × Ramfs)} (done (a, s)) (done (b, t)) = sym e ∙ f in
    let same : s ≡ t = cc (both) in subst IsRamfs same w

same_state : (m : Run Ramfs) (s t : Ramfs) → m ≡ done s → m ≡ done t → IsRamfs s → IsRamfs t
same_state m s t e f w =
    let both : done s ≡ done t = sym e ∙ f in let same : s ≡ t = cc (both) in subst IsRamfs same w

-- A state that is reached has its links counted and no name twice in a directory.
pub IsReached-IsRamfs : {s : Ramfs} → IsReached s → IsRamfs s
IsReached-IsRamfs (mounts mem k p e) = let r = mount_lem mem k p in same_run _ _ _ r.0 _ r.1 e r.2
IsReached-IsRamfs (looks_up {s} dir name ds a reached d l e) =
    let r = lookup_answers dir name s ds (IsReached-IsRamfs reached) d l in
    same_run _ _ _ r.0 _ r.1 e r.2
IsReached-IsRamfs (puts {s} ino reached used e) =
    let w = IsReached-IsRamfs reached in
    let r = vput_lem ino s w.links used in
    same_state _ r.0 _ r.1 e
      (record { links = r.2.keeps; distinct = IsPut-IsDistinctIn r.2 w.distinct })
IsReached-IsRamfs (creates {s} mem dir name slot ino ds reached f room e) =
    let r = create_binds mem dir name slot ino ds s (IsReached-IsRamfs reached) f room in
    same_run _ _ _ r.0 _ r.1 e r.2
IsReached-IsRamfs (makes_node {s} type mem dir name dev slot ino ds k reached f room e) =
    let r = mknod_binds type mem dir name dev slot ino ds s k (IsReached-IsRamfs reached) f room in
    same_run _ _ _ r.0 _ r.1 e r.2
IsReached-IsRamfs (makes_dir {s} mem dir name slot ino ds reached f room e) =
    let r = mkdir_binds mem dir name slot ino ds s (IsReached-IsRamfs reached) f room in
    same_run _ _ _ r.0 _ r.1 e r.2
IsReached-IsRamfs (makes_link {s} old dir name slot ds reached f h e) =
    let r = link_binds old dir name slot ds s (IsReached-IsRamfs reached) f h in
    same_run _ _ _ r.0 _ r.1 e r.2
IsReached-IsRamfs (unlinks {s} dir name ino ds reached d l f file ne e) =
    let r = unlink_removes dir name ino ds s (IsReached-IsRamfs reached) d l f file ne in
    same_run _ _ _ r.0 _ r.1 e r.2
IsReached-IsRamfs (removes_dir {s} dir name ino ds es reached d l f k i empty ne e) =
    let r = rmdir_removes dir name ino ds es s (IsReached-IsRamfs reached) d l f k i empty ne in
    same_run _ _ _ r.0 _ r.1 e r.2
