-- ===== src/Ramfs/Rmdir.antt =====
-- `ramfs_rmdir` of weenix.assign2/kernel/fs/ramfs/ramfs.c.
use usc_homeworks.Base.{
  ◌<◌, ◌≡◌, ◌≢◌, Bool, true, false, some, List, [], ◌∷◌, ◌==◌, arith, refl, Bool-cases, inl, inr,
  ==_iff, done, ◌∙◌, ◌&&◌,
}
use usc_homeworks.Sched.{is_empty}
use usc_homeworks.Names.{Name, got, failed, enotempty, is_dot, is_dot_dot}
use usc_homeworks.Ramfs.{Ino, Dirent, Ramfs, vput}
use usc_homeworks.Ramfs.Ops.{
  find_entry, dirents_of, name_match, is_dir_vnode, is_empty_dir, remove_name, ramfs_rmdir,
  rmdir_found,
}
use usc_homeworks.Ramfs.Entries.{
  refers, refers-find_entry, is_link, is_link-not_empty, name_match_eq,
}
use usc_homeworks.Ramfs.Links.{links_member, entries, linkcount}
use usc_homeworks.Ramfs.Steps.{vput_lem, leads_to_dir}
use usc_homeworks.Ramfs.Edits.{dir_below}
use usc_homeworks.Ramfs.Views.{
  IsRamfs, IsSame, IsKept, IsPut-IsDistinctIn, entries_dir, IsKept-IsSame, IsKept-IsDistinctIn,
}
use usc_homeworks.Ramfs.Lookup.{lookup_found}
use usc_homeworks.Ramfs.Removal.{IsRemoved, remove_name_lem}
use usc_homeworks.Base.{◌||◌}

-- A name that is a link is not of the other kinds.
plain_name : (n : Name) → is_link n ≡ true → (is_dot n || is_dot_dot n) ≡ false
unfolding is_link
plain_name n l = elim (Bool-cases (is_dot n || is_dot_dot n)) [
  | inl e ↦ elim (Bool-cases (is_empty n)) [
    | inl f ↦ cc (rw (e, f) at l)
    | inr f ↦ cc (rw (e, f) at l)
  ]
  | inr e ↦ e
]

counted_name : (n : Name) → is_link n ≡ true → (is_dot n || (is_dot_dot n || is_empty n)) ≡ false
counted_name n l = elim (Bool-cases (is_dot n)) [
  | inl e ↦ cc (rw e at (plain_name n l))
  | inr e ↦ elim (Bool-cases (is_dot_dot n)) [
    | inl f ↦ cc (rw (e, f) at (plain_name n l))
    | inr f ↦ rw (e, f, is_link-not_empty n l)
  ]
]

and_false : (b : Bool) → (b && false) ≡ false
and_false true = refl
and_false false = refl

-- What an entry beside "." and ".." means for a directory.
is_empty_dir_no :
    (es : List Dirent) (n : Name) (i : Ino)
    → is_link n ≡ true
    → find_entry n es ≡ some i
    → is_empty_dir es ≡ false
unfolding is_empty_dir find_entry is_link
is_empty_dir_no [] n i l f = cc
is_empty_dir_no (d ∷ es) n i l f = elim (Bool-cases (name_match d.rd_name n)) [
  | inl same ↦
      let this : d.rd_name ≡ n = name_match_eq d.rd_name n same in rw (this, counted_name n l)
  | inr other ↦ rw (is_empty_dir_no es n i l (rw other at f)) (and_false _)
]

refused :
    (dir : Ino) (name : Name) (ino : Ino) (es : List Dirent) (s s' : Ramfs)
    → is_dir_vnode (s.vnodes ino) ≡ true
    → dirents_of (s.rfs_inodes ino) ≡ some es
    → is_empty_dir es ≡ false
    → vput ino s ≡ done s'
    → rmdir_found dir name (got ino) s ≡ done (failed enotempty, s')
unfolding rmdir_found
refused dir name ino es s s' kind inside full put = rw (kind, inside, full, put)

removed :
    (dir : Ino) (name : Name) (ino : Ino) (es : List Dirent) (s : Ramfs)
    → is_dir_vnode (s.vnodes ino) ≡ true
    → dirents_of (s.rfs_inodes ino) ≡ some es
    → is_empty_dir es ≡ true
    → rmdir_found dir name (got ino) s ≡ remove_name dir name ino s
unfolding rmdir_found
removed dir name ino es s kind inside empty = rw (kind, inside, empty)

-- In a file system whose links are counted and whose directories have no name twice, removing a name
-- of a directory, other than "", "." and "..", that leads to a directory with an entry of such a name
-- fails with ENOTEMPTY: every name of every directory keeps its number, and the links stay counted.
pub rmdir_refuses :
    (dir : Ino) (name : Name) (ino : Ino) (ds es : List Dirent) (n : Name) (i : Ino) (s : Ramfs)
    → IsRamfs s
    → dirents_of (s.rfs_inodes dir) ≡ some ds
    → is_link name ≡ true
    → find_entry name ds ≡ some ino
    → leads_to_dir (s.vnodes ino) (s.rfs_inodes ino) ≡ true
    → dirents_of (s.rfs_inodes ino) ≡ some es
    → is_link n ≡ true
    → find_entry n es ≡ some i
    → (s' : Ramfs) × (ramfs_rmdir dir name s ≡ done (failed enotempty, s'))
      × IsRamfs s'
      × IsSame s s'
unfolding ramfs_rmdir rmdir_found
rmdir_refuses dir name ino ds es n i s w e l f kind e' l' f' =
    let r = lookup_found dir name s ds ino w.links e l f in
    let s1 = r.0 in
    let q = vput_lem ino s1 r.2.keeps r.2.used in
    let same = IsKept-IsSame s s1 r.2.same in
    let full : is_empty_dir es ≡ false = is_empty_dir_no es n i l' f' in
    let inside : dirents_of (s1.rfs_inodes ino) ≡ some es = r.2.same ino ∙ e' in
    let found : rmdir_found dir name (got ino) s1 ≡ done (failed enotempty, q.0) =
      refused dir name ino es s1 q.0 (r.2.kind ∙ kind) inside full q.1 in
    let links_one : 0 < refers ino (entries (s1.rfs_inodes dir)) =
      rw (entries_dir _ ds (r.2.same dir ∙ e)) (refers-find_entry ino name ds l f) in
    let below = dir_below s1 dir ds r.2.keeps (r.2.same dir ∙ e) in
    let two : 1 < linkcount (s1.rfs_inodes ino) = omega (
      arith,
      links_one,
      r.2.used,
      r.2.keeps.linked ino,
      links_member s1.rfs_inodes dir ino below,
    ) in
    let kept : IsKept s1 q.0 = λ d. elim (Bool-cases (d == ino)) [
      | inl at_ino ↦ rw ((==_iff d ino).0 at_ino) (q.2.stays two)
      | inr off ↦ rw (q.2.others d (ground arith))
    ] in
    let still = IsKept-IsSame s1 q.0 kept in
    (
      q.0,
      rw (plain_name name l, r.1) found,
      record {
        links = q.2.keeps;
        distinct = IsPut-IsDistinctIn q.2 (IsKept-IsDistinctIn s s1 r.2.same w.distinct);
      },
      λ d m k. still d m k ∙ same d m k,
    )

-- In a file system whose links are counted and whose directories have no name twice, removing a name
-- of a directory, other than "", "." and "..", that leads to another directory whose entries are free
-- but for "." and ".." returns 0: the directory lacks the name then, every other name of it and every
-- name of the directories but the removed one keeps its number, and the links stay counted.
pub rmdir_removes :
    (dir : Ino) (name : Name) (ino : Ino) (ds es : List Dirent) (s : Ramfs)
    → IsRamfs s
    → dirents_of (s.rfs_inodes dir) ≡ some ds
    → is_link name ≡ true
    → find_entry name ds ≡ some ino
    → leads_to_dir (s.vnodes ino) (s.rfs_inodes ino) ≡ true
    → dirents_of (s.rfs_inodes ino) ≡ some es
    → is_empty_dir es ≡ true
    → dir ≢ ino
    → (s' : Ramfs) × (ramfs_rmdir dir name s ≡ done (got tt, s'))
      × IsRamfs s'
      × IsRemoved dir name ino s s'
unfolding ramfs_rmdir
rmdir_removes dir name ino ds es s w e l f kind e' empty apart =
    let r = lookup_found dir name s ds ino w.links e l f in
    let s1 = r.0 in
    let w1 : IsRamfs s1 = record {
      links = r.2.keeps;
      distinct = IsKept-IsDistinctIn s s1 r.2.same w.distinct;
    } in
    let q = remove_name_lem dir name ino ds s1 w1 (r.2.same dir ∙ e) l f r.2.used apart in
    let same = IsKept-IsSame s s1 r.2.same in
    let found = removed dir name ino es s1 (r.2.kind ∙ kind) (r.2.same ino ∙ e') empty in
    (
      q.0,
      rw (plain_name name l, r.1) (found ∙ q.1),
      q.2,
      record {
        here = λ n k. rw (q.3.here n k, same dir n k);
        elsewhere = λ d n ne other k. q.3.elsewhere d n ne other k ∙ same d n k;
      },
    )
