-- ===== src/Ramfs/Links.antt =====
-- The links of weenix.assign2/kernel/fs/ramfs/ramfs.c: the count of an inode covers the entries of
-- all directories that refer to it by a name other than "." and "..", and its vnode.
use usc_homeworks.Base.{
  total, total_change, total_member, ℕ, ◌+◌, ◌≤◌, ◌<◌, ◌≡◌, ◌≢◌, Bool, true, false, Option, none,
  some, List, [], ◌==◌, if◌then◌else◌, arith, Bool-cases, inl, inr, ==_iff, ==_ne, leb, ap,
}
use usc_homeworks.Sched.{update}
use usc_homeworks.Ramfs.{Ino, Dirent, page, dirents, device, Inode, Vnode, Ramfs, ramfs_max_files}
use usc_homeworks.Ramfs.Entries.{refers}

-- The entries of an inode that is a directory.
abbrev pub entries : Option Inode → List Dirent
entries none = []
entries (some i) = elim i.rf_mem [ dirents ds ↦ ds | page _ ↦ [] | device _ ↦ [] ]

abbrev pub linkcount : Option Inode → ℕ
linkcount none = 0
linkcount (some i) = i.rf_linkcount

-- 1 if the vnode is in use.
abbrev pub in_use : Option Vnode → ℕ
in_use none = 0
in_use (some vn) = 1

-- Whether an inode has the number of its place, and whether a vnode in use is referred to.
abbrev pub is_numbered : Ino → Option Inode → Bool
is_numbered x none = true
is_numbered x (some i) = i.rf_ino == x

abbrev pub is_referred : Option Vnode → Bool
is_referred none = true
is_referred (some vn) = if vn.vn_refcount == 0 then false else true

-- The entries of all directories that refer to an inode by a name other than "." and "..".
unfoldable pub links : (Ino → Option Inode) → Ino → ℕ
links t x = total ramfs_max_files (λ j. refers x (entries (t j)))

-- Each inode counts at least these entries, its vnode if that is in use, and the links
-- that `extra` sets aside for a call to make.
pub record IsLinked (extra : Ino → ℕ) (s : Ramfs) : Type 0 where
  pub bounded : (i : Ino) → ramfs_max_files ≤ i → s.rfs_inodes i ≡ none
  pub numbered : (i : Ino) → is_numbered i (s.rfs_inodes i) ≡ true
  pub referred : (i : Ino) → is_referred (s.vnodes i) ≡ true
  pub linked :
      (i : Ino) → links s.rfs_inodes i + in_use (s.vnodes i) + extra i ≤ linkcount (s.rfs_inodes i)

-- No link is set aside, and one to an inode is.
abbrev pub nothing : Ino → ℕ
nothing i = 0

abbrev pub one_to : Ino → Ino → ℕ
one_to x i = if x == i then 1 else 0

==_self : (d : ℕ) → (d == d) ≡ true
==_self d = ground arith

-- What becomes of the links when the inode at one place changes.
pub links-update :
    (t : Ino → Option Inode) (d : Ino) (o : Option Inode) (x : Ino)
    → d < ramfs_max_files
    → links (update t d o) x + refers x (entries (t d)) ≡ links t x + refers x (entries o)
unfolding links
links-update t d o x h =
    let r =
      total_change ramfs_max_files d (λ j. refers x (entries (t j)))
        (λ j. refers x (entries (update t d o j))) h (λ m ne. rw (==_ne m d ne)) in
    rw (==_self d) at r

pub links_member :
    (t : Ino → Option Inode) (d x : Ino)
    → d < ramfs_max_files
    → refers x (entries (t d)) ≤ links t x
unfolding links
links_member t d x h = total_member ramfs_max_files d (λ j. refers x (entries (t j))) h

-- An inode that is counted is in the table.
pub place_below :
    {extra : Ino → ℕ} (s : Ramfs) (i : Ino)
    → IsLinked extra s
    → 0 < linkcount (s.rfs_inodes i)
    → i < ramfs_max_files
place_below s i w h = elim (Bool-cases (leb ramfs_max_files i)) [
  | inl out ↦
      let gone : s.rfs_inodes i ≡ none = w.bounded i (ground arith) in
      let zero_ : 0 < 0 = rw gone at h in absurd (omega arith)
  | inr below ↦ ground arith
]

-- The inode and the vnode of one number change. For each inode, the links that the new entries make
-- and those that are then set aside must be covered.
pub IsLinked-change :
    {extra kept : Ino → ℕ} (s s' : Ramfs) (d : Ino) (o : Option Inode)
    → IsLinked extra s
    → d < ramfs_max_files
    → s'.rfs_inodes ≡ update s.rfs_inodes d o
    → ((x : Ino) → x ≢ d → s'.vnodes x ≡ s.vnodes x)
    → is_numbered d o ≡ true
    → is_referred (s'.vnodes d) ≡ true
    → ((x : Ino)
        → refers x (entries o)
            + kept x
            + (if x == d then in_use (s'.vnodes d) + linkcount (s.rfs_inodes d) else 0)
          ≤ refers x (entries (s.rfs_inodes d))
            + extra x
            + (if x == d then in_use (s.vnodes d) + linkcount o else 0))
    → IsLinked kept s'
IsLinked-change s s' d o w h same others number used covered = record {
  bounded = λ i l. let apart : (i == d) ≡ false = ground arith in rw (same, apart) (w.bounded i l);
  numbered = λ i. elim (Bool-cases (i == d)) [
    | inl e ↦ let here : i ≡ d = (==_iff i d).0 e in rw (same, e, here) number
    | inr e ↦ rw (same, e) (w.numbered i)
  ];
  referred = λ i. elim (Bool-cases (i == d)) [
    | inl e ↦ let here : i ≡ d = (==_iff i d).0 e in rw here used
    | inr e ↦ rw (others i (λ k. cc (e, ap (λ j. j == d) k, ==_self d))) (w.referred i)
  ];
  linked = λ i.
      let moved = links-update s.rfs_inodes d o i h in
      elim (Bool-cases (i == d)) [
        | inl e ↦
            let here : i ≡ d = (==_iff i d).0 e in
            rw (same, e, here)
              (omega (arith, rw here at moved, w.linked d, rw (==_self d) at (covered d)))
        | inr e ↦
            let apart = others i (λ k. cc (e, ap (λ j. j == d) k, ==_self d)) in
            rw (same, e, apart) (omega (arith, moved, w.linked i, rw e at (covered i)))
      ];
}

-- Links that were set aside may be left unmade.
pub IsLinked-weaken : {extra : Ino → ℕ} (s : Ramfs) → IsLinked extra s → IsLinked nothing s
IsLinked-weaken s w = record {
  bounded = w.bounded;
  numbered = w.numbered;
  referred = w.referred;
  linked = λ i. omega (arith, w.linked i);
}
