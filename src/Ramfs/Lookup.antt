-- ===== src/Ramfs/Lookup.antt =====
-- `ramfs_lookup` and what adding a name begins with, of weenix.assign2/kernel/fs/ramfs/ramfs.c.
use usc_homeworks.Base.{
  ℕ, ◌≤◌, ◌<◌, ◌≡◌, Bool, true, false, Option, none, some, List, arith, refl, Option-cases, inl,
  inr, length, done, ◌∙◌, Run, ◌&&◌,
}
use usc_homeworks.Names.{Name, Answer, got, failed, enoent}
use usc_homeworks.Ramfs.{
  Ino, FileType, Dirent, Ramfs, Alloc, has_page, alloc_at, ramfs_alloc_inode, first_free,
  ramfs_max_files,
}
use usc_homeworks.Ramfs.Ops.{
  find_entry, free_slot, dirents_of, get_entry, ramfs_lookup, add_name, allocated,
}
use usc_homeworks.Ramfs.Entries.{is_link, refers, refers-find_entry}
use usc_homeworks.Ramfs.Links.{entries, linkcount, IsLinked, links_member}
use usc_homeworks.Ramfs.Steps.{IsGot, vget_lem}
use usc_homeworks.Ramfs.Edits.{dir_below, with_new}
use usc_homeworks.Ramfs.Views.{
  view, IsRamfs, IsSame, entries_dir, IsKept-IsSame, IsKept-IsDistinctIn,
}

-- An entry that is a link refers to an inode.
pub found_linkcount :
    {extra : Ino → ℕ} (s : Ramfs) (dir : Ino) (ds : List Dirent) (name : Name) (ino : Ino)
    → IsLinked extra s
    → dirents_of (s.rfs_inodes dir) ≡ some ds
    → is_link name ≡ true
    → find_entry name ds ≡ some ino
    → 0 < linkcount (s.rfs_inodes ino)
found_linkcount s dir ds name ino w e l f =
    let one : 0 < refers ino (entries (s.rfs_inodes dir)) =
      rw (entries_dir _ ds e) (refers-find_entry ino name ds l f) in
    omega (arith, one, w.linked ino, links_member s.rfs_inodes dir ino (dir_below s dir ds w e))

-- The answer of a lookup by the map.
abbrev pub answer_of : Option Ino → Answer Ino
answer_of none = failed enoent
answer_of (some ino) = got ino

lookup_run :
    (dir : Ino) (name : Name) (s : Ramfs) (ds : List Dirent) (o : Option Ino)
    → dirents_of (s.rfs_inodes dir) ≡ some ds
    → find_entry name ds ≡ o
    → ramfs_lookup dir name s ≡ get_entry o s
unfolding ramfs_lookup
lookup_run dir name s ds o e f = rw (e, ramfs_lookup, f)

-- A lookup that finds a name, with the state then.
pub lookup_found :
    {extra : Ino → ℕ} (dir : Ino) (name : Name) (s : Ramfs) (ds : List Dirent) (ino : Ino)
    → IsLinked extra s
    → dirents_of (s.rfs_inodes dir) ≡ some ds
    → is_link name ≡ true
    → find_entry name ds ≡ some ino
    → (s' : Ramfs) × (ramfs_lookup dir name s ≡ done (got ino, s')) × IsGot extra ino s s'
unfolding get_entry
lookup_found dir name s ds ino w e l f =
    let r = vget_lem ino s w (found_linkcount s dir ds name ino w e l f) in
    (r.0, lookup_run dir name s ds (some ino) e f ∙ rw (get_entry, r.1), r.2)

pub view_dir :
    (s : Ramfs) (dir : Ino) (ds : List Dirent) (name : Name)
    → dirents_of (s.rfs_inodes dir) ≡ some ds
    → view s dir name ≡ find_entry name ds
unfolding view
view_dir s dir ds name e = rw e

-- In a file system whose links are counted and whose directories have no name twice, the lookup of a
-- name in a directory, other than "", "." and "..", returns: it answers with the number that the name
-- has in the directory, or with ENOENT if it has none. The links stay counted, and every name of
-- every directory keeps its number.
pub lookup_answers :
    (dir : Ino) (name : Name) (s : Ramfs) (ds : List Dirent)
    → IsRamfs s
    → dirents_of (s.rfs_inodes dir) ≡ some ds
    → is_link name ≡ true
    → (s' : Ramfs) × (ramfs_lookup dir name s ≡ done (answer_of (view s dir name), s'))
      × IsRamfs s'
      × IsSame s s'
unfolding get_entry
lookup_answers dir name s ds w e l = elim (Option-cases (find_entry name ds)) [
  | inl missing ↦ (
    s,
    lookup_run dir name s ds none e missing ∙ rw (view_dir s dir ds name e, missing),
    w,
    λ d n k. refl,
  )
  | inr (ino, f) ↦
      let r = lookup_found dir name s ds ino w.links e l f in
      (
        r.0,
        r.1 ∙ rw (view_dir s dir ds name e, f),
        record { links = r.2.keeps; distinct = IsKept-IsDistinctIn s r.0 r.2.same w.distinct },
        IsKept-IsSame s r.0 r.2.same,
      )
]

pub add_name_run :
    {A : Type 0} (dir : Ino) (name : Name) (s : Ramfs) (ds : List Dirent) (slot : ℕ)
    (k : ℕ → Run (Answer A × Ramfs))
    → dirents_of (s.rfs_inodes dir) ≡ some ds
    → find_entry name ds ≡ none
    → free_slot ds ≡ some slot
    → add_name (dirents_of (s.rfs_inodes dir)) name s k ≡ k slot
unfolding add_name
add_name_run dir name s ds slot k e missing free = rw (e, missing, free)

-- What adding a name needs: the directory is there, the name is missing and not too long, and there
-- is a free entry.
pub record IsFree (dir : Ino) (name : Name) (slot : ℕ) (ds : List Dirent) (s : Ramfs) : Type 0 where
  pub present : dirents_of (s.rfs_inodes dir) ≡ some ds
  pub missing : find_entry name ds ≡ none
  pub free : free_slot ds ≡ some slot
  pub short : length name ≤ 27

and_false : (b : Bool) → (b && false) ≡ false
and_false true = refl
and_false false = refl

-- What follows an allocation that succeeds.
pub allocated_run :
    {A : Type 0} (mem : Alloc) (type : FileType) (dev : ℕ) (s : Ramfs) (ino : Ino)
    (k : Ino → Ramfs → Run (Answer A × Ramfs))
    → first_free ramfs_max_files 0 s.rfs_inodes ≡ some ino
    → mem.kmalloc ≡ true
    → mem.page_alloc ≡ true
    → allocated k (ramfs_alloc_inode mem type dev s) ≡ k ino (with_new type dev ino s)
unfolding ramfs_alloc_inode alloc_at allocated with_new
allocated_run mem type dev s ino k e m p = rw (e, m, p, and_false (has_page type))
