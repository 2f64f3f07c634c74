-- ===== src/Ramfs/Mkdir.antt =====
-- `ramfs_mkdir` of weenix.assign2/kernel/fs/ramfs/ramfs.c, which makes directories
-- with the entries "." and "..".
use usc_homeworks.Base.{
  ◌*◌, ℕ, ◌≤◌, ◌≡◌, ◌≢◌, false, Option, none, some, List, [], ◌∷◌, if◌then◌else◌, arith, sym,
  Bool-cases, inl, inr, done, ◌∙◌,
}
use usc_homeworks.Sched.{is_empty}
use usc_homeworks.Names.{Name, got}
use usc_homeworks.Ramfs.{
  Ino, type_dir, Dirent, Ramfs, Alloc, ramfs_max_files, new_inode, new_memory, ramfs_max_dirent,
}
use usc_homeworks.Ramfs.Ops.{find_entry, dirents_of, name_match, set_entry, edit_dir}
use usc_homeworks.Ramfs.Entries.{name_match_eq, named, IsDistinct}
use usc_homeworks.Ramfs.Distinct.{named-replicate, find-replicate}
use usc_homeworks.Ramfs.Steps.{update_self}
use usc_homeworks.Ramfs.Edits.{with_new, first_free_lem}
use usc_homeworks.Ramfs.Views.{view, IsRamfs}
use usc_homeworks.Ramfs.Lookup.{IsFree, add_name_run, allocated_run}
use usc_homeworks.Ramfs.Calls.{IsRoom, bind_new, dir_apart}
use usc_homeworks.Ramfs.Ops.{ramfs_mkdir, dots, find_entry}
use usc_homeworks.Names.{dot}
use usc_homeworks.Base.{replicate, ◌*◌}
use usc_homeworks.Ramfs.{free_dirent, dirent_size}
use usc_homeworks.Ramfs.Entries.{refers-dots}
use usc_homeworks.Ramfs.Edits.{edit_dir_lem, edit_dir-dirents, edit_dir-other}
use usc_homeworks.Ramfs.Views.{edit_dir-IsDistinctIn}

-- What "." and ".." are in a new directory.
abbrev pub dots_view : Ino → Ino → Name → Option Ino
dots_view ino parent n =
    if name_match (dot ∷ []) n
    then some ino
    else if name_match (dot ∷ dot ∷ []) n
    then some parent
    else none

pub new_dirents : List Dirent
new_dirents = replicate ramfs_max_dirent free_dirent

pub fresh_dirents :
    (dev i : ℕ) (s : Ramfs)
    → dirents_of ((with_new type_dir dev i s).rfs_inodes i) ≡ some new_dirents
unfolding with_new new_inode new_memory new_dirents
fresh_dirents dev i s = rw (update_self s.rfs_inodes i _)

find-dots :
    (n : Name) (ino parent : Ino)
    → is_empty n ≡ false
    → find_entry n (dots ino parent new_dirents) ≡ dots_view ino parent n
unfolding new_dirents ramfs_max_dirent dots find_entry
find-dots n ino parent k = rw (find-replicate n 126 k)

-- The names of a directory whose entries are made, and of the others.
dots_here :
    (s : Ramfs) (ino parent : Ino) (n : Name) (size : ℕ → ℕ)
    → dirents_of (s.rfs_inodes ino) ≡ some new_dirents
    → is_empty n ≡ false
    → view (edit_dir ino (dots ino parent) size s) ino n ≡ dots_view ino parent n
unfolding view
dots_here s ino parent n size e k =
    rw (edit_dir-dirents s ino new_dirents (dots ino parent) size e) (find-dots n ino parent k)

dots_other :
    (s : Ramfs) (d ino parent : Ino) (n : Name) (size : ℕ → ℕ)
    → d ≢ ino
    → view (edit_dir ino (dots ino parent) size s) d n ≡ view s d n
unfolding view
dots_other s d ino parent n size ne = rw (edit_dir-other s ino d (dots ino parent) size ne)

set_entry-other :
    (s : Ramfs) (dir slot : ℕ) (ino : Ino) (name : Name) (d : Ino)
    → d ≢ dir
    → (set_entry dir slot ino name s).rfs_inodes d ≡ s.rfs_inodes d
unfolding set_entry
set_entry-other s dir slot ino name d ne = edit_dir-other s dir d _ _ ne

named-dots :
    (n : Name) (ino parent : Ino) (d e : Dirent) (rest : List Dirent)
    → named n rest ≡ 0
    → named n (dots ino parent (d ∷ e ∷ rest)) ≤ 1
unfolding dots named
named-dots n ino parent d e rest h = elim (Bool-cases (name_match (dot ∷ []) n)) [
  | inl one ↦
      let this : dot ∷ [] ≡ n = name_match_eq (dot ∷ []) n one in
      rw (← this) (unfold name_match in omega (arith, rw (← this) at h))
  | inr other ↦ rw (other, h) (ground arith)
]

pub dots-IsDistinct : (ino parent : Ino) → IsDistinct (dots ino parent new_dirents)
unfolding new_dirents ramfs_max_dirent IsDistinct
dots-IsDistinct ino parent n k =
    named-dots n ino parent free_dirent free_dirent (replicate 126 free_dirent)
      (named-replicate n 126 k)

-- In a file system whose links are counted and whose directories have no name twice, making a directory
-- under a name of at most 27 characters that a directory lacks, where the directory has a free entry,
-- there is a free inode and memory is left, returns 0: the name has the number of the first free inode
-- then, every other name of every directory but the new one keeps its number, the new one has the
-- names ".", which is itself, and "..", which is the directory it was made in, and no others, and the
-- links stay counted.
pub mkdir_binds :
    (mem : Alloc) (dir : Ino) (name : Name) (slot ino : ℕ) (ds : List Dirent) (s : Ramfs)
    → IsRamfs s
    → IsFree dir name slot ds s
    → IsRoom ino mem s
    → (s' : Ramfs) × (ramfs_mkdir mem dir name s ≡ done (got tt, s'))
      × IsRamfs s'
      × ((n : Name)
          → is_empty n ≡ false
          → view s' dir n ≡ (if name_match name n then some ino else view s dir n))
      × ((n : Name) → is_empty n ≡ false → view s' ino n ≡ dots_view ino dir n)
      × ((d : Ino) (n : Name) → d ≢ dir → d ≢ ino → is_empty n ≡ false → view s' d n ≡ view s d n)
unfolding ramfs_mkdir
mkdir_binds mem dir name slot ino ds s w f room =
    let at_i = first_free_lem ramfs_max_files 0 s.rfs_inodes ino room.place in
    let s1 = with_new type_dir 0 ino s in
    let r = bind_new type_dir 0 slot ino dir name ds s w f at_i.0 (omega (arith, at_i.1)) in
    let s2 = set_entry dir slot ino name s1 in
    let apart = dir_apart s dir ino ds f.present at_i.0 in
    let back : ino ≢ dir = λ e. apart (sym e) in
    let inside : dirents_of (s2.rfs_inodes ino) ≡ some new_dirents =
      rw (set_entry-other s1 dir slot ino name ino back) (fresh_dirents 0 ino s) in
    let size : ℕ → ℕ = λ _. 2 * dirent_size in
    let s3 = edit_dir ino (dots ino dir) size s2 in
    (
      s3,
      add_name_run dir name s ds slot _ f.present f.missing f.free
          ∙ allocated_run mem type_dir 0 s ino _ room.place room.kmalloc_ok room.page_ok,
      record {
        links =
            edit_dir_lem s2 ino new_dirents (dots ino dir) size r.0.links inside
              (λ x. omega (arith, refers-dots x ino dir new_dirents));
        distinct =
            edit_dir-IsDistinctIn s2 ino new_dirents (dots ino dir) size inside
              (dots-IsDistinct ino dir) r.0.distinct;
      },
      λ n k. dots_other s2 dir ino dir n size apart ∙ r.1.here n k,
      λ n k. dots_here s2 ino dir n size inside k,
      λ d n ne other k. dots_other s2 d ino dir n size other ∙ r.1.elsewhere d n ne k,
    )
