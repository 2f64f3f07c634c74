-- ===== src/Ramfs/Distinct.antt =====
-- Names that are at most once in a directory of weenix.assign2/kernel/fs/ramfs/ramfs.c.
use usc_homeworks.Base.{
  ℕ, zero, suc, ◌+◌, ◌≤◌, ◌≡◌, false, none, some, List, [], ◌∷◌, if◌then◌else◌, length, set,
  replicate, arith, refl, subst, Bool-cases, Option-cases, inl, inr,
}
use usc_homeworks.Sched.{is_empty}
use usc_homeworks.Names.{Name}
use usc_homeworks.Ramfs.{Ino, Dirent, free_dirent}
use usc_homeworks.Ramfs.Ops.{name_match, find_entry, clear_entry, free_slot, new_dirent}
use usc_homeworks.Ramfs.Entries.{name_match_eq, named, IsDistinct, take-all, free_match, not_named}

-- A name that is missing, and the entries of a name after one is set, cleared or free.
missing_named : (n : Name) (ds : List Dirent) → find_entry n ds ≡ none → named n ds ≡ 0
unfolding named find_entry
missing_named n [] h = refl
missing_named n (d ∷ ds) h = elim (Bool-cases (name_match d.rd_name n)) [
  | inl same ↦ cc (rw same at h)
  | inr other ↦ rw other (omega (arith, missing_named n ds (rw other at h)))
]

named-set :
    (n name : Name) (ino : Ino) (ds : List Dirent) (i : ℕ)
    → is_empty n ≡ false
    → length name ≤ 27
    → free_slot ds ≡ some i
    → named n (set ds i (new_dirent ino name)) ≡ named n ds + (if name_match name n then 1 else 0)
unfolding named free_slot new_dirent
named-set n name ino [] i k h e = cc
named-set n name ino (d ∷ ds) i k h e = elim (Bool-cases (is_empty d.rd_name)) [
  | inl free ↦
      let here : 0 ≡ i = cc (rw free at e) in
      rw (← here, take-all name 27 h, free_match d.rd_name n free k) (omega arith)
  | inr taken ↦ elim (Option-cases (free_slot ds)) [
    | inl full ↦ cc (rw (taken, full) at e)
    | inr (j, at_j) ↦
        let here : suc j ≡ i = cc (rw (taken, at_j) at e) in
        rw (← here) (omega (arith, named-set n name ino ds j k h at_j))
  ]
]

pub set-IsDistinct :
    (name : Name) (ino : Ino) (ds : List Dirent) (i : ℕ)
    → IsDistinct ds
    → length name ≤ 27
    → free_slot ds ≡ some i
    → find_entry name ds ≡ none
    → IsDistinct (set ds i (new_dirent ino name))
unfolding IsDistinct
set-IsDistinct name ino ds i u h e f n k = elim (Bool-cases (name_match name n)) [
  | inl same ↦
      let this : name ≡ n = name_match_eq name n same in
      let none_yet : named n ds ≡ 0 = subst (λ m. named m ds ≡ 0) this (missing_named name ds f) in
      rw (named-set n name ino ds i k h e, same, none_yet) (omega arith)
  | inr other ↦ rw (named-set n name ino ds i k h e, other) (omega (arith, u n k))
]

named-clear_entry :
    (n name : Name) (ds : List Dirent)
    → is_empty n ≡ false
    → named n (clear_entry name ds) ≤ named n ds
unfolding named clear_entry
named-clear_entry n name [] k = omega arith
named-clear_entry n name (d ∷ ds) k = elim (Bool-cases (name_match d.rd_name name)) [
  | inl same ↦ rw (same, free_match [] n refl k) (omega arith)
  | inr other ↦ rw other (omega (arith, named-clear_entry n name ds k))
]

pub clear_entry-IsDistinct :
    (name : Name) (ds : List Dirent) → IsDistinct ds → IsDistinct (clear_entry name ds)
unfolding IsDistinct
clear_entry-IsDistinct name ds u n k = omega (arith, u n k, named-clear_entry n name ds k)

pub named-replicate :
    (n : Name) (k : ℕ) → is_empty n ≡ false → named n (replicate k free_dirent) ≡ 0
unfolding named
named-replicate n zero h = refl
named-replicate n (suc k) h = rw (free_match [] n refl h) (omega (arith, named-replicate n k h))

pub find-replicate :
    (n : Name) (k : ℕ) → is_empty n ≡ false → find_entry n (replicate k free_dirent) ≡ none
find-replicate n k h = not_named n (replicate k free_dirent) (named-replicate n k h)
