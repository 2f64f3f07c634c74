-- ===== src/Ramfs/Edits.antt =====
-- What the writes to inodes of weenix.assign2/kernel/fs/ramfs/ramfs.c do to the links: entries that
-- are set and cleared, links that are counted, and new inodes.
use usc_homeworks.Base.{
  ℕ, zero, suc, ◌+◌, ◌-◌, ◌≤◌, ◌<◌, ◌≡◌, ◌≢◌, true, false, Option, none, some, List, ◌==◌, arith,
  refl, ap, Bool-cases, Option-cases, inl, inr, ==_iff, fun_ext, leb,
}
use usc_homeworks.Sched.{update}
use usc_homeworks.Names.{Name}
use usc_homeworks.Ramfs.{
  Ino, FileType, type_data, type_dir, type_chr, type_blk, Dirent, Memory, page, dirents, device,
  Inode, Ramfs, ramfs_max_files, first_free, new_inode, new_memory, ramfs_max_dirent,
}
use usc_homeworks.Ramfs.Ops.{
  dirents_of, edit_dir, set_entry, drop_entry, inc_linkcount, dec_linkcount, find_entry, free_slot,
  linked_again, linked_less, edit_inode,
}
use usc_homeworks.Ramfs.Entries.{refers, is_link, refers-set, refers-clear_entry, refers-replicate}
use usc_homeworks.Ramfs.Links.{
  entries, linkcount, is_numbered, IsLinked, nothing, one_to, IsLinked-change, place_below,
}
use usc_homeworks.Ramfs.Steps.{update_self, update_other}

pub dirents_cases :
    (o : Option Inode) (ds : List Dirent)
    → dirents_of o ≡ some ds
    → (x : Inode) × (o ≡ some x) × (x.rf_mem ≡ dirents ds)
dirents_cases none ds e = cc
dirents_cases (some x) ds e = go x.rf_mem refl
  where
    go : (m : Memory) → x.rf_mem ≡ m → (y : Inode) × (some x ≡ some y) × (y.rf_mem ≡ dirents ds)
    go (page bs) f = cc (rw f at e)
    go (dirents es) f = let same : some es ≡ some ds = rw f at e in (x, refl, cc)
    go (device n) f = cc (rw f at e)

-- A directory is in the table.
pub dir_below :
    {extra : Ino → ℕ} (s : Ramfs) (dir : Ino) (ds : List Dirent)
    → IsLinked extra s
    → dirents_of (s.rfs_inodes dir) ≡ some ds
    → dir < ramfs_max_files
dir_below s dir ds w e = elim (Bool-cases (leb ramfs_max_files dir)) [
  | inl out ↦ let gone : s.rfs_inodes dir ≡ none = w.bounded dir (ground arith) in cc (rw gone at e)
  | inr below ↦ ground arith
]

edit_dir_at :
    {extra kept : Ino → ℕ} (s : Ramfs) (dir : Ino) (ds : List Dirent) (x : Inode)
    (f : List Dirent → List Dirent) (g : ℕ → ℕ)
    → IsLinked extra s
    → dir < ramfs_max_files
    → s.rfs_inodes dir ≡ some x
    → x.rf_mem ≡ dirents ds
    → ((y : Ino) → refers y (f ds) + kept y ≤ refers y ds + extra y)
    → IsLinked kept (edit_dir dir f g s)
unfolding edit_dir
edit_dir_at s dir ds x f g w h at_dir of_dir covered =
    IsLinked-change s _ dir (some (record x { rf_mem = dirents (f ds); rf_size = g x.rf_size })) w h
      (rw (at_dir, of_dir)) (λ y ne. refl) (rw at_dir at (w.numbered dir)) (w.referred dir)
      (λ y. rw (at_dir, of_dir) (ground (arith, covered y)))

-- Changes of the entries and of the size of a directory.
pub edit_dir_lem :
    {extra kept : Ino → ℕ} (s : Ramfs) (dir : Ino) (ds : List Dirent)
    (f : List Dirent → List Dirent) (g : ℕ → ℕ)
    → IsLinked extra s
    → dirents_of (s.rfs_inodes dir) ≡ some ds
    → ((x : Ino) → refers x (f ds) + kept x ≤ refers x ds + extra x)
    → IsLinked kept (edit_dir dir f g s)
edit_dir_lem s dir ds f g w e covered =
    let r = dirents_cases (s.rfs_inodes dir) ds e in
    edit_dir_at s dir ds r.0 f g w (dir_below s dir ds w e) r.1 r.2 covered

pub edit_dir-dirents :
    (s : Ramfs) (dir : Ino) (ds : List Dirent) (f : List Dirent → List Dirent) (g : ℕ → ℕ)
    → dirents_of (s.rfs_inodes dir) ≡ some ds
    → dirents_of ((edit_dir dir f g s).rfs_inodes dir) ≡ some (f ds)
unfolding edit_dir
edit_dir-dirents s dir ds f g e =
    let r = dirents_cases (s.rfs_inodes dir) ds e in rw (update_self s.rfs_inodes dir _, r.1, r.2)

pub edit_dir-other :
    (s : Ramfs) (dir j : Ino) (f : List Dirent → List Dirent) (g : ℕ → ℕ)
    → j ≢ dir
    → (edit_dir dir f g s).rfs_inodes j ≡ s.rfs_inodes j
unfolding edit_dir
edit_dir-other s dir j f g h = update_other s.rfs_inodes dir j _ h

pub set_entry_lem :
    (s : Ramfs) (dir : Ino) (ds : List Dirent) (slot : ℕ) (ino : Ino) (name : Name)
    → IsLinked (one_to ino) s
    → dirents_of (s.rfs_inodes dir) ≡ some ds
    → free_slot ds ≡ some slot
    → IsLinked nothing (set_entry dir slot ino name s)
unfolding set_entry
set_entry_lem s dir ds slot ino name w e free =
    edit_dir_lem s dir ds _ _ w e (λ x. omega (arith, refers-set x ino name ds slot free))

pub drop_entry_lem :
    (s : Ramfs) (dir : Ino) (ds : List Dirent) (ino : Ino) (name : Name)
    → IsLinked nothing s
    → dirents_of (s.rfs_inodes dir) ≡ some ds
    → is_link name ≡ true
    → find_entry name ds ≡ some ino
    → IsLinked (one_to ino) (drop_entry dir name s)
unfolding drop_entry
drop_entry_lem s dir ds ino name w e l found =
    edit_dir_lem s dir ds _ _ w e (λ x. omega (arith, refers-clear_entry x ino name ds l found))

less_entries : (o : Option Inode) → entries (linked_less o) ≡ entries o
less_entries none = refl
less_entries (some x) = refl

less_numbered :
    (i : Ino) (o : Option Inode) → is_numbered i o ≡ true → is_numbered i (linked_less o) ≡ true
less_numbered i none h = refl
less_numbered i (some x) h = h

less_counted : (o : Option Inode) → linkcount (linked_less o) ≡ linkcount o - 1
less_counted none = refl
less_counted (some x) = refl

-- The link that was set aside is given up.
pub dec_linkcount_lem :
    (s : Ramfs) (ino : Ino) → IsLinked (one_to ino) s → IsLinked nothing (dec_linkcount ino s)
unfolding dec_linkcount
dec_linkcount_lem s ino w =
    let counted : 0 < linkcount (s.rfs_inodes ino) = ground (arith, w.linked ino) in
    let o = s.rfs_inodes ino in
    IsLinked-change s _ ino (linked_less o) w (place_below s ino w counted) refl (λ y ne. refl)
      (less_numbered ino o (w.numbered ino)) (w.referred ino)
      (λ y. rw (less_entries o, less_counted o) (ground (arith, counted)))

again_entries : (o : Option Inode) → entries (linked_again o) ≡ entries o
again_entries none = refl
again_entries (some x) = refl

again_numbered :
    (i : Ino) (o : Option Inode) → is_numbered i o ≡ true → is_numbered i (linked_again o) ≡ true
again_numbered i none h = refl
again_numbered i (some x) h = h

again_counted : (o : Option Inode) → 0 < linkcount o → linkcount (linked_again o) ≡ linkcount o + 1
again_counted none h = absurd (omega arith)
again_counted (some x) h = refl

-- A link is set aside.
pub inc_linkcount_lem :
    (s : Ramfs) (ino : Ino)
    → IsLinked nothing s
    → 0 < linkcount (s.rfs_inodes ino)
    → IsLinked (one_to ino) (inc_linkcount ino s)
unfolding inc_linkcount
inc_linkcount_lem s ino w counted =
    let o = s.rfs_inodes ino in
    IsLinked-change s _ ino (linked_again o) w (place_below s ino w counted) refl (λ y ne. refl)
      (again_numbered ino o (w.numbered ino)) (w.referred ino)
      (λ y. rw (again_entries o, again_counted o counted) (ground arith))

edit-again :
    (f : List Dirent → List Dirent) (g : ℕ → ℕ) (o : Option Inode)
    → linked_again (edit_inode f g o) ≡ edit_inode f g (linked_again o)
edit-again f g none = refl
edit-again f g (some x) = refl

-- An entry may be set before or after the link is counted.
pub inc_linkcount-set_entry :
    (s : Ramfs) (dir slot ino : ℕ) (old : Ino) (name : Name)
    → inc_linkcount old (set_entry dir slot ino name s)
      ≡ set_entry dir slot ino name (inc_linkcount old s)
unfolding inc_linkcount set_entry edit_dir
inc_linkcount-set_entry s dir slot ino old name =
    ap (λ t. record s { rfs_inodes = t })
      (fun_ext λ x. elim (Bool-cases (dir == old)) [
        | inl same ↦
            let here : dir ≡ old = (==_iff dir old).0 same in
            let both : (old == old) ≡ true = ground arith in
            rw (here, both)
              (elim (Bool-cases (x == old)) [
                | inl e ↦ rw e (edit-again _ _ (s.rfs_inodes old))
                | inr e ↦ rw e
              ])
        | inr apart ↦
            let back : (old == dir) ≡ false = ground arith in
            rw (apart, back)
              (elim (Bool-cases (x == old)) [
                | inl e ↦ let here : x ≡ old = (==_iff x old).0 e in rw (e, here, back)
                | inr e ↦ rw e
              ])
      ])

-- What is found free is.
pub first_free_lem :
    (k i : ℕ) (t : Ino → Option Inode) (n : ℕ)
    → first_free k i t ≡ some n
    → (t n ≡ none) × (n < i + k)
unfolding first_free
first_free_lem zero i t n e = cc
first_free_lem (suc k) i t n e = elim (Option-cases (t i)) [
  | inl free ↦ let here : i ≡ n = cc (rw free at e) in (rw (← here) free, omega arith)
  | inr taken ↦ let r = first_free_lem k (i + 1) t n (rw taken.1 at e) in (r.0, omega (arith, r.1))
]

new_entries :
    (x : Ino) (type : FileType) (dev i : ℕ) → refers x (entries (some (new_inode type dev i))) ≡ 0
unfolding new_inode new_memory refers
new_entries x type_data dev i = refl
new_entries x type_dir dev i = refers-replicate x ramfs_max_dirent
new_entries x type_chr dev i = refl
new_entries x type_blk dev i = refl

-- The state after an inode is allocated at a free place.
unfoldable pub with_new : FileType → ℕ → Ino → Ramfs → Ramfs
with_new type dev i s = record s {
  rfs_inodes = update s.rfs_inodes i (some (new_inode type dev i));
}

pub with_new_lem :
    (type : FileType) (dev i : ℕ) (s : Ramfs)
    → IsLinked nothing s
    → i < ramfs_max_files
    → s.rfs_inodes i ≡ none
    → IsLinked (one_to i) (with_new type dev i s)
unfolding with_new new_inode
with_new_lem type dev i s w h free =
    IsLinked-change s _ i (some (new_inode type dev i)) w h refl (λ y ne. refl) (ground arith)
      (w.referred i) (λ y. rw (free, new_entries y type dev i) (ground arith))
