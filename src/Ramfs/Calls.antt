-- ===== src/Ramfs/Calls.antt =====
-- The operations of weenix.assign2/kernel/fs/ramfs/ramfs.c that add a name: `ramfs_create`,
-- `ramfs_mknod` and `ramfs_link`.
use usc_homeworks.Base.{
  ap, ℕ, ◌<◌, ◌≡◌, ◌≢◌, true, false, none, some, List, ◌==◌, arith, refl, Bool-cases, Option-cases,
  inl, inr, ==_iff, done, ◌∙◌, ◌⊎◌,
}
use usc_homeworks.Sched.{is_empty}
use usc_homeworks.Names.{Name, got}
use usc_homeworks.Ramfs.{
  Ino, FileType, type_data, type_dir, type_chr, type_blk, Dirent, Ramfs, Alloc, first_free,
  ramfs_max_files, new_inode, new_memory, ramfs_max_dirent,
}
use usc_homeworks.Ramfs.Ops.{dirents_of, ramfs_lookup, set_entry, ramfs_create, ramfs_mknod}
use usc_homeworks.Ramfs.Entries.{is_link, named, IsDistinct, name_match_refl, is_link-not_empty}
use usc_homeworks.Ramfs.Distinct.{named-replicate, find-replicate}
use usc_homeworks.Ramfs.Links.{entries, linkcount}
use usc_homeworks.Ramfs.Steps.{vget_lem, update_self, update_other}
use usc_homeworks.Ramfs.Edits.{with_new, first_free_lem, with_new_lem}
use usc_homeworks.Ramfs.Views.{
  view, find_in, IsRamfs, IsSame, IsBound, IsSame-IsBound, IsDistinctIn, IsKept-IsSame,
  IsKept-IsDistinctIn, set_entry-IsBound, set_entry-IsRamfs,
}
use usc_homeworks.Ramfs.Lookup.{answer_of, IsFree, add_name_run, allocated_run, lookup_answers}

-- The names of a new inode: none.
new_view :
    (type : FileType) (dev i : ℕ) (n : Name)
    → is_empty n ≡ false
    → find_in n (dirents_of (some (new_inode type dev i))) ≡ none
unfolding new_inode new_memory
new_view type_data dev i n k = refl
new_view type_dir dev i n k = find-replicate n ramfs_max_dirent k
new_view type_chr dev i n k = refl
new_view type_blk dev i n k = refl

pub with_new-IsSame :
    (type : FileType) (dev i : ℕ) (s : Ramfs)
    → s.rfs_inodes i ≡ none
    → IsSame s (with_new type dev i s)
unfolding with_new view
with_new-IsSame type dev i s free d n k = elim (Bool-cases (d == i)) [
  | inl e ↦ let here : d ≡ i = (==_iff d i).0 e in rw (e, here, free) (new_view type dev i n k)
  | inr e ↦ rw e
]

new-IsDistinct : (type : FileType) (dev i : ℕ) → IsDistinct (entries (some (new_inode type dev i)))
unfolding new_inode new_memory IsDistinct named
new-IsDistinct type_data dev i n k = omega arith
new-IsDistinct type_dir dev i n k = omega (arith, named-replicate n ramfs_max_dirent k)
new-IsDistinct type_chr dev i n k = omega arith
new-IsDistinct type_blk dev i n k = omega arith

pub with_new-IsDistinctIn :
    (type : FileType) (dev i : ℕ) (s : Ramfs)
    → IsDistinctIn s
    → IsDistinctIn (with_new type dev i s)
unfolding with_new
with_new-IsDistinctIn type dev i s u d = elim (Bool-cases (d == i)) [
  | inl e ↦ rw e (new-IsDistinct type dev i)
  | inr e ↦ rw e (u d)
]

-- A directory is not at a free place.
pub dir_apart :
    (s : Ramfs) (dir i : Ino) (ds : List Dirent)
    → dirents_of (s.rfs_inodes dir) ≡ some ds
    → s.rfs_inodes i ≡ none
    → dir ≢ i
dir_apart s dir i ds e free h = cc (rw (h, free) at e)

pub with_new-dirents :
    (type : FileType) (dev i : ℕ) (s : Ramfs) (dir : Ino) (ds : List Dirent)
    → dirents_of (s.rfs_inodes dir) ≡ some ds
    → s.rfs_inodes i ≡ none
    → dirents_of ((with_new type dev i s).rfs_inodes dir) ≡ some ds
unfolding with_new
with_new-dirents type dev i s dir ds e free =
    rw (update_other s.rfs_inodes i dir _ (dir_apart s dir i ds e free)) e

-- An inode for a name: the place that is free, and memory for it.
pub record IsRoom (ino : Ino) (mem : Alloc) (s : Ramfs) : Type 0 where
  pub place : first_free ramfs_max_files 0 s.rfs_inodes ≡ some ino
  pub kmalloc_ok : mem.kmalloc ≡ true
  pub page_ok : mem.page_alloc ≡ true

-- The new inode has its name.
pub bind_new :
    (type : FileType) (dev slot ino : ℕ) (dir : Ino) (name : Name) (ds : List Dirent) (s : Ramfs)
    → IsRamfs s
    → IsFree dir name slot ds s
    → s.rfs_inodes ino ≡ none
    → ino < ramfs_max_files
    → IsRamfs (set_entry dir slot ino name (with_new type dev ino s))
      × IsBound dir name (some ino) s (set_entry dir slot ino name (with_new type dev ino s))
bind_new type dev slot ino dir name ds s w f free below =
    let s1 = with_new type dev ino s in
    let e1 = with_new-dirents type dev ino s dir ds f.present free in
    (
      set_entry-IsRamfs s1 dir ds slot ino name (with_new_lem type dev ino s w.links below free)
          (with_new-IsDistinctIn type dev ino s w.distinct) e1 f.free f.missing f.short,
      IsSame-IsBound dir name (some ino) (with_new-IsSame type dev ino s free)
          (set_entry-IsBound s1 dir ds slot ino name e1 f.free f.missing f.short),
    )

pub with_new-linkcount :
    (type : FileType) (dev i : ℕ) (s : Ramfs) → 0 < linkcount ((with_new type dev i s).rfs_inodes i)
unfolding with_new new_inode
with_new-linkcount type dev i s = rw (update_self s.rfs_inodes i _) (omega arith)

-- In a file system whose links are counted and whose directories have no name twice, creating a file
-- under a name of at most 27 characters that a directory lacks, where the directory has a free entry,
-- there is a free inode and memory is left, gives the first free inode: the name has its number then,
-- every other name of every directory keeps the number it had, and the links stay counted.
pub create_binds :
    (mem : Alloc) (dir : Ino) (name : Name) (slot ino : ℕ) (ds : List Dirent) (s : Ramfs)
    → IsRamfs s
    → IsFree dir name slot ds s
    → IsRoom ino mem s
    → (s' : Ramfs) × (ramfs_create mem dir name s ≡ done (got ino, s'))
      × IsRamfs s'
      × IsBound dir name (some ino) s s'
unfolding ramfs_create
create_binds mem dir name slot ino ds s w f room =
    let at_i = first_free_lem ramfs_max_files 0 s.rfs_inodes ino room.place in
    let s1 = with_new type_data 0 ino s in
    let e1 = with_new-dirents type_data 0 ino s dir ds f.present at_i.0 in
    let r =
      vget_lem ino s1 (with_new_lem type_data 0 ino s w.links (omega (arith, at_i.1)) at_i.0)
        (with_new-linkcount type_data 0 ino s) in
    let e2 = r.2.same dir ∙ e1 in
    (
      set_entry dir slot ino name r.0,
      add_name_run dir name s ds slot _ f.present f.missing f.free
          ∙ allocated_run mem type_data 0 s ino _ room.place room.kmalloc_ok room.page_ok
          ∙ rw r.1,
      set_entry-IsRamfs r.0 dir ds slot ino name r.2.keeps
          (IsKept-IsDistinctIn s1 r.0 r.2.same (with_new-IsDistinctIn type_data 0 ino s w.distinct))
          e2 f.free f.missing f.short,
      IsSame-IsBound dir name (some ino)
          (λ d n k.
            IsKept-IsSame s1 r.0 r.2.same d n k ∙ with_new-IsSame type_data 0 ino s at_i.0 d n k)
          (set_entry-IsBound r.0 dir ds slot ino name e2 f.free f.missing f.short),
    )

-- Under the same conditions on the file system, the directory, the name and the room, making a node
-- for a character or a block device returns 0, and does to the names and the links what creating a
-- file does.
pub mknod_binds :
    (type : FileType) (mem : Alloc) (dir : Ino) (name : Name) (dev slot ino : ℕ) (ds : List Dirent)
    (s : Ramfs)
    → (type ≡ type_chr) ⊎ (type ≡ type_blk)
    → IsRamfs s
    → IsFree dir name slot ds s
    → IsRoom ino mem s
    → (s' : Ramfs) × (ramfs_mknod mem dir name (some type) dev s ≡ done (got tt, s'))
      × IsRamfs s'
      × IsBound dir name (some ino) s s'
unfolding ramfs_mknod
mknod_binds type mem dir name dev slot ino ds s kind w f room =
    let at_i = first_free_lem ramfs_max_files 0 s.rfs_inodes ino room.place in
    let r = bind_new type dev slot ino dir name ds s w f at_i.0 (omega (arith, at_i.1)) in
    (
      set_entry dir slot ino name (with_new type dev ino s),
      add_name_run dir name s ds slot _ f.present f.missing f.free ∙ elim kind [
        | inl e ↦
            rw e (allocated_run mem type_chr dev s ino _ room.place room.kmalloc_ok room.page_ok)
        | inr e ↦
            rw e (allocated_run mem type_blk dev s ino _ room.place room.kmalloc_ok room.page_ok)
      ],
      r.0,
      r.1,
    )

view_cases :
    (s : Ramfs) (dir : Ino) (name : Name) (ino : Ino)
    → view s dir name ≡ some ino
    → (ds : List Dirent) × (dirents_of (s.rfs_inodes dir) ≡ some ds)
unfolding view
view_cases s dir name ino e = elim (Option-cases (dirents_of (s.rfs_inodes dir))) [
  | inl gone ↦ cc (rw gone at e)
  | inr there ↦ there
]

-- A file that is created is found: under the conditions of a creation, and for a name other than ".",
-- ".." and "", creating a file and looking its name up in the same directory gives the same inode
-- twice, and the links stay counted.
pub create_then_lookup :
    (mem : Alloc) (dir : Ino) (name : Name) (slot ino : ℕ) (ds : List Dirent) (s : Ramfs)
    → IsRamfs s
    → IsFree dir name slot ds s
    → IsRoom ino mem s
    → is_link name ≡ true
    → (s1 : Ramfs) × (s2 : Ramfs) × (ramfs_create mem dir name s ≡ done (got ino, s1))
      × (ramfs_lookup dir name s1 ≡ done (got ino, s2))
      × IsRamfs s2
create_then_lookup mem dir name slot ino ds s w f room l =
    let r = create_binds mem dir name slot ino ds s w f room in
    let found : view r.0 dir name ≡ some ino =
      r.3.here name (is_link-not_empty name l) ∙ rw (name_match_refl name) in
    let d = view_cases r.0 dir name ino found in
    let q = lookup_answers dir name r.0 d.0 r.2 d.1 l in
    (r.0, q.0, r.1, q.1 ∙ ap (λ o. done (answer_of o, q.0)) found, q.2)
