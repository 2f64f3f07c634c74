-- ===== src/Ramfs/Views.antt =====
-- A directory of weenix.assign2/kernel/fs/ramfs/ramfs.c seen as a map from names to inode numbers,
-- and what the steps of its operations do to these maps.
use usc_homeworks.Base.{
  ℕ, ◌≤◌, ◌≡◌, ◌≢◌, false, Option, none, some, List, [], ◌==◌, if◌then◌else◌, arith, refl,
  Bool-cases, inl, inr, ==_iff, length, ◌∙◌,
}
use usc_homeworks.Sched.{is_empty}
use usc_homeworks.Names.{Name}
use usc_homeworks.Ramfs.{Ino, Dirent, Memory, page, dirents, device, Inode, Ramfs}
use usc_homeworks.Ramfs.Ops.{
  name_match, find_entry, free_slot, dirents_of, edit_dir, set_entry, drop_entry,
}
use usc_homeworks.Ramfs.Entries.{named, IsDistinct, find-set, find-clear_entry}
use usc_homeworks.Ramfs.Distinct.{set-IsDistinct, clear_entry-IsDistinct}
use usc_homeworks.Ramfs.Links.{entries, IsLinked, nothing, one_to}
use usc_homeworks.Ramfs.Steps.{IsPut}
use usc_homeworks.Ramfs.Edits.{edit_dir-dirents, edit_dir-other, set_entry_lem}

abbrev pub find_in : Name → Option (List Dirent) → Option Ino
find_in n none = none
find_in n (some ds) = find_entry n ds

-- The number that a name has in a directory.
unfoldable pub view : Ramfs → Ino → Name → Option Ino
view s d n = find_in n (dirents_of (s.rfs_inodes d))

-- Between calls the links are counted, and no name is twice in a directory.
pub record IsRamfs (s : Ramfs) : Type 0 where
  pub links : IsLinked nothing s
  pub distinct : (d : Ino) → IsDistinct (entries (s.rfs_inodes d))

-- A name of one directory gets a number, or loses it; all else stays.
pub record IsBound (dir : Ino) (name : Name) (value : Option Ino) (s s' : Ramfs) : Type 0 where
  pub here :
      (n : Name)
      → is_empty n ≡ false
      → view s' dir n ≡ (if name_match name n then value else view s dir n)
  pub elsewhere : (d : Ino) (n : Name) → d ≢ dir → is_empty n ≡ false → view s' d n ≡ view s d n

-- The same directories.
abbrev pub IsSame : Ramfs → Ramfs → Type 0
IsSame s s' = (d : Ino) (n : Name) → is_empty n ≡ false → view s' d n ≡ view s d n

pub IsSame-IsBound :
    {s s1 s' : Ramfs} (dir : Ino) (name : Name) (value : Option Ino)
    → IsSame s s1
    → IsBound dir name value s1 s'
    → IsBound dir name value s s'
IsSame-IsBound dir name value same w = record {
  here = λ n k. rw (w.here n k, same dir n k);
  elsewhere = λ d n ne k. w.elsewhere d n ne k ∙ same d n k;
}

pub IsBound-IsSame :
    {s s1 s' : Ramfs} (dir : Ino) (name : Name) (value : Option Ino)
    → IsBound dir name value s s1
    → IsSame s1 s'
    → IsBound dir name value s s'
IsBound-IsSame dir name value w same = record {
  here = λ n k. same dir n k ∙ w.here n k;
  elsewhere = λ d n ne k. same d n k ∙ w.elsewhere d n ne k;
}

-- The entries of an inode are those of the directory it is, if it is one.
abbrev or_nil : Option (List Dirent) → List Dirent
or_nil none = []
or_nil (some ds) = ds

entries_in : (o : Option Inode) → entries o ≡ or_nil (dirents_of o)
entries_in none = refl
entries_in (some x) = go x.rf_mem refl
  where
    go : (m : Memory) → x.rf_mem ≡ m → entries (some x) ≡ or_nil (dirents_of (some x))
    go (page bs) e = rw e
    go (dirents ds) e = rw e
    go (device n) e = rw e

abbrev pub IsDistinctIn : Ramfs → Type 0
IsDistinctIn s = (d : Ino) → IsDistinct (entries (s.rfs_inodes d))

pub entries_dir : (o : Option Inode) (ds : List Dirent) → dirents_of o ≡ some ds → entries o ≡ ds
entries_dir o ds e = entries_in o ∙ rw e

-- A step that leaves all entries leaves the directories.
abbrev pub IsKept : Ramfs → Ramfs → Type 0
IsKept s s' = (d : Ino) → dirents_of (s'.rfs_inodes d) ≡ dirents_of (s.rfs_inodes d)

pub IsKept-IsSame : (s s' : Ramfs) → IsKept s s' → IsSame s s'
unfolding view
IsKept-IsSame s s' kept d n k = rw (kept d)

pub IsKept-IsDistinctIn : (s s' : Ramfs) → IsKept s s' → IsDistinctIn s → IsDistinctIn s'
IsKept-IsDistinctIn s s' kept u d =
    let same : entries (s'.rfs_inodes d) ≡ entries (s.rfs_inodes d) =
      entries_in (s'.rfs_inodes d) ∙ rw (kept d, entries_in (s.rfs_inodes d)) in
    rw same (u d)

pub IsPut-IsDistinctIn :
    {extra : Ino → ℕ} {i : Ino} {s s' : Ramfs}
    → IsPut extra i s s'
    → IsDistinctIn s
    → IsDistinctIn s'
unfolding IsDistinct
IsPut-IsDistinctIn p u d n k = omega (arith, p.fewer d n, u d n k)

pub edit_dir-IsDistinctIn :
    (s : Ramfs) (dir : Ino) (ds : List Dirent) (f : List Dirent → List Dirent) (g : ℕ → ℕ)
    → dirents_of (s.rfs_inodes dir) ≡ some ds
    → IsDistinct (f ds)
    → IsDistinctIn s
    → IsDistinctIn (edit_dir dir f g s)
edit_dir-IsDistinctIn s dir ds f g e v u d = elim (Bool-cases (d == dir)) [
  | inl same ↦
      let at_dir : d ≡ dir = (==_iff d dir).0 same in
      rw (at_dir, entries_dir _ (f ds) (edit_dir-dirents s dir ds f g e)) v
  | inr other ↦ rw (edit_dir-other s dir d f g (ground arith)) (u d)
]

-- An entry is set.
pub set_entry-IsBound :
    (s : Ramfs) (dir : Ino) (ds : List Dirent) (slot : ℕ) (ino : Ino) (name : Name)
    → dirents_of (s.rfs_inodes dir) ≡ some ds
    → free_slot ds ≡ some slot
    → find_entry name ds ≡ none
    → length name ≤ 27
    → IsBound dir name (some ino) s (set_entry dir slot ino name s)
unfolding set_entry view
set_entry-IsBound s dir ds slot ino name e free missing short = record {
  here = λ n k.
      rw (edit_dir-dirents s dir ds _ _ e, e) (find-set n name ino ds slot k short free missing);
  elsewhere = λ d n ne k. rw (edit_dir-other s dir d _ _ ne);
}

pub set_entry-IsRamfs :
    (s : Ramfs) (dir : Ino) (ds : List Dirent) (slot : ℕ) (ino : Ino) (name : Name)
    → IsLinked (one_to ino) s
    → IsDistinctIn s
    → dirents_of (s.rfs_inodes dir) ≡ some ds
    → free_slot ds ≡ some slot
    → find_entry name ds ≡ none
    → length name ≤ 27
    → IsRamfs (set_entry dir slot ino name s)
set_entry-IsRamfs s dir ds slot ino name w u e free missing short = record {
  links = set_entry_lem s dir ds slot ino name w e free;
  distinct =
      unfold set_entry in
      edit_dir-IsDistinctIn s dir ds _ _ e
        (set-IsDistinct name ino ds slot (rw (entries_dir _ ds e) at (u dir)) short free missing) u;
}

-- The entry of a name is cleared.
pub drop_entry-IsBound :
    (s : Ramfs) (dir : Ino) (ds : List Dirent) (name : Name)
    → dirents_of (s.rfs_inodes dir) ≡ some ds
    → named name ds ≤ 1
    → IsBound dir name none s (drop_entry dir name s)
unfolding drop_entry view
drop_entry-IsBound s dir ds name e once = record {
  here = λ n k. rw (edit_dir-dirents s dir ds _ _ e, e) (find-clear_entry n name ds k once);
  elsewhere = λ d n ne k. rw (edit_dir-other s dir d _ _ ne);
}

pub drop_entry-IsDistinctIn :
    (s : Ramfs) (dir : Ino) (ds : List Dirent) (name : Name)
    → IsDistinctIn s
    → dirents_of (s.rfs_inodes dir) ≡ some ds
    → IsDistinctIn (drop_entry dir name s)
unfolding drop_entry
drop_entry-IsDistinctIn s dir ds name u e =
    edit_dir-IsDistinctIn s dir ds _ _ e
      (clear_entry-IsDistinct name ds (rw (entries_dir _ ds e) at (u dir))) u
