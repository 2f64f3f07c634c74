-- ===== src/Ramfs/Removal.antt =====
-- The operations of weenix.assign2/kernel/fs/ramfs/ramfs.c on names that are there: `ramfs_link` of
-- what has one, `ramfs_unlink` and `ramfs_rmdir`.
use usc_homeworks.Base.{
  ℕ, ◌≤◌, ◌<◌, ◌≡◌, ◌≢◌, true, false, Option, none, some, List, ◌==◌, if◌then◌else◌, refl, ap,
  Bool-cases, inl, inr, ==_iff, done, ◌∙◌,
}
use usc_homeworks.Sched.{is_empty}
use usc_homeworks.Names.{Name, got}
use usc_homeworks.Ramfs.{Ino, Dirent, Inode, Ramfs}
use usc_homeworks.Ramfs.Ops.{
  find_entry, dirents_of, name_match, set_entry, inc_linkcount, dec_linkcount, drop_entry,
  linked_again, linked_less, ramfs_unlink, unlink_found, remove_name, edit_dir, ramfs_link,
}
use usc_homeworks.Ramfs.Entries.{is_link, named, IsDistinct, is_link-not_empty}
use usc_homeworks.Ramfs.Links.{in_use, linkcount}
use usc_homeworks.Ramfs.Steps.{vput_lem, leads_to_dir}
use usc_homeworks.Ramfs.Edits.{
  drop_entry_lem, dec_linkcount_lem, inc_linkcount_lem, inc_linkcount-set_entry,
}
use usc_homeworks.Ramfs.Views.{
  view, IsRamfs, IsBound, IsSame-IsBound, IsBound-IsSame, drop_entry-IsBound,
  drop_entry-IsDistinctIn, IsKept, IsPut-IsDistinctIn, entries_dir, IsKept-IsSame,
  IsKept-IsDistinctIn, set_entry-IsBound, set_entry-IsRamfs,
}
use usc_homeworks.Ramfs.Lookup.{IsFree, add_name_run, lookup_found}

inc-dirents : (o : Option Inode) → dirents_of (linked_again o) ≡ dirents_of o
inc-dirents none = refl
inc-dirents (some x) = refl

dec-dirents : (o : Option Inode) → dirents_of (linked_less o) ≡ dirents_of o
dec-dirents none = refl
dec-dirents (some x) = refl

inc_linkcount-IsKept : (s : Ramfs) (old : Ino) → IsKept s (inc_linkcount old s)
unfolding inc_linkcount
inc_linkcount-IsKept s old d = elim (Bool-cases (d == old)) [
  | inl e ↦ let here : d ≡ old = (==_iff d old).0 e in rw (e, here) (inc-dirents (s.rfs_inodes old))
  | inr e ↦ rw e
]

dec_linkcount-IsKept : (s : Ramfs) (old : Ino) → IsKept s (dec_linkcount old s)
unfolding dec_linkcount
dec_linkcount-IsKept s old d = elim (Bool-cases (d == old)) [
  | inl e ↦ let here : d ≡ old = (==_iff d old).0 e in rw (e, here) (dec-dirents (s.rfs_inodes old))
  | inr e ↦ rw e
]

-- In a file system whose links are counted and whose directories have no name twice, linking an inode
-- that has a link under a name of at most 27 characters that a directory with a free entry lacks
-- returns 0: the name has the number of the inode then, every other name of every directory keeps
-- its number, and the links stay counted.
pub link_binds :
    (old dir : Ino) (name : Name) (slot : ℕ) (ds : List Dirent) (s : Ramfs)
    → IsRamfs s
    → IsFree dir name slot ds s
    → 0 < linkcount (s.rfs_inodes old)
    → (s' : Ramfs) × (ramfs_link old dir name s ≡ done (got tt, s'))
      × IsRamfs s'
      × IsBound dir name (some old) s s'
unfolding ramfs_link
link_binds old dir name slot ds s w f counted =
    let s1 = inc_linkcount old s in
    let kept = inc_linkcount-IsKept s old in
    let e1 = kept dir ∙ f.present in
    (
      set_entry dir slot old name s1,
      add_name_run dir name s ds slot _ f.present f.missing f.free
          ∙ ap (λ t. done (got tt, t)) (inc_linkcount-set_entry s dir slot old old name),
      set_entry-IsRamfs s1 dir ds slot old name (inc_linkcount_lem s old w.links counted)
          (IsKept-IsDistinctIn s s1 kept w.distinct) e1 f.free f.missing f.short,
      IsSame-IsBound dir name (some old) (IsKept-IsSame s s1 kept)
          (set_entry-IsBound s1 dir ds slot old name e1 f.free f.missing f.short),
    )

-- A name of one directory is gone; what else changes is at most the inode it had.
pub record IsRemoved (dir : Ino) (name : Name) (ino : Ino) (s s' : Ramfs) : Type 0 where
  pub here :
      (n : Name)
      → is_empty n ≡ false
      → view s' dir n ≡ (if name_match name n then none else view s dir n)
  pub elsewhere :
      (d : Ino) (n : Name) → d ≢ dir → d ≢ ino → is_empty n ≡ false → view s' d n ≡ view s d n

drop_entry-vnodes :
    (dir : Ino) (name : Name) (s : Ramfs) → (drop_entry dir name s).vnodes ≡ s.vnodes
unfolding drop_entry edit_dir
drop_entry-vnodes dir name s = refl

dec_linkcount-vnodes : (i : Ino) (s : Ramfs) → (dec_linkcount i s).vnodes ≡ s.vnodes
unfolding dec_linkcount
dec_linkcount-vnodes i s = refl

-- The end of an unlink or of the removal of a directory.
pub remove_name_lem :
    (dir : Ino) (name : Name) (ino : Ino) (ds : List Dirent) (s : Ramfs)
    → IsRamfs s
    → dirents_of (s.rfs_inodes dir) ≡ some ds
    → is_link name ≡ true
    → find_entry name ds ≡ some ino
    → in_use (s.vnodes ino) ≡ 1
    → dir ≢ ino
    → (s' : Ramfs) × (remove_name dir name ino s ≡ done (got tt, s'))
      × IsRamfs s'
      × IsRemoved dir name ino s s'
unfolding remove_name view IsDistinct
remove_name_lem dir name ino ds s w e l f used apart =
    let s1 = drop_entry dir name s in
    let s2 = dec_linkcount ino s1 in
    let once : named name ds ≤ 1 =
      rw (entries_dir _ ds e) at (w.distinct dir name (is_link-not_empty name l)) in
    let links2 = dec_linkcount_lem s1 ino (drop_entry_lem s dir ds ino name w.links e l f) in
    let kept = dec_linkcount-IsKept s1 ino in
    let used2 : in_use (s2.vnodes ino) ≡ 1 =
      rw (dec_linkcount-vnodes ino s1, drop_entry-vnodes dir name s) used in
    let r = vput_lem ino s2 links2 used2 in
    let set : IsBound dir name none s s2 =
      IsBound-IsSame dir name none (drop_entry-IsBound s dir ds name e once)
        (IsKept-IsSame s1 s2 kept) in
    (
      r.0,
      rw r.1,
      record {
        links = r.2.keeps;
        distinct =
            IsPut-IsDistinctIn r.2
              (IsKept-IsDistinctIn s1 s2 kept (drop_entry-IsDistinctIn s dir ds name w.distinct e));
      },
      record {
        here = λ n k. rw (r.2.others dir apart) (set.here n k);
        elsewhere = λ d n ne other k. rw (r.2.others d other) (set.elsewhere d n ne k);
      },
    )

-- In a file system whose links are counted and whose directories have no name twice, unlinking a name
-- of a directory, other than "", "." and "..", that leads to another inode which is no directory
-- returns 0: the directory lacks the name then, every other name of it and every name of the
-- directories but that inode keeps its number, and the links stay counted.
pub unlink_removes :
    (dir : Ino) (name : Name) (ino : Ino) (ds : List Dirent) (s : Ramfs)
    → IsRamfs s
    → dirents_of (s.rfs_inodes dir) ≡ some ds
    → is_link name ≡ true
    → find_entry name ds ≡ some ino
    → leads_to_dir (s.vnodes ino) (s.rfs_inodes ino) ≡ false
    → dir ≢ ino
    → (s' : Ramfs) × (ramfs_unlink dir name s ≡ done (got tt, s'))
      × IsRamfs s'
      × IsRemoved dir name ino s s'
unfolding ramfs_unlink unlink_found
unlink_removes dir name ino ds s w e l f file apart =
    let r = lookup_found dir name s ds ino w.links e l f in
    let s1 = r.0 in
    let w1 : IsRamfs s1 = record {
      links = r.2.keeps;
      distinct = IsKept-IsDistinctIn s s1 r.2.same w.distinct;
    } in
    let q = remove_name_lem dir name ino ds s1 w1 (r.2.same dir ∙ e) l f r.2.used apart in
    let same = IsKept-IsSame s s1 r.2.same in
    (
      q.0,
      rw (r.1, r.2.kind, file) q.1,
      q.2,
      record {
        here = λ n k. rw (q.3.here n k, same dir n k);
        elsewhere = λ d n ne other k. q.3.elsewhere d n ne other k ∙ same d n k;
      },
    )
