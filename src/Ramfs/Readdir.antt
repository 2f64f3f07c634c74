-- ===== src/Ramfs/Readdir.antt =====
-- `ramfs_readdir` of weenix.assign2/kernel/fs/ramfs/ramfs.c, called as `do_getdent` of
-- kernel/fs/vfs_syscall.c does: at the offset that the calls before have moved to.
use usc_homeworks.Base.{
  ℕ, zero, suc, ◌+◌, ◌*◌, ◌/◌, ◌%◌, ◌≤◌, ◌≡◌, true, Option, none, some, List, [], ◌∷◌, map, ◌==◌,
  if◌then◌else◌, arith, refl, sym, ap, Bool-cases, inl, inr, ◌⊎◌, length, take, drop, done, ◌∙◌,
  Run, and_then, out_of_fuel,
}
use usc_homeworks.Sched.{is_empty}
use usc_homeworks.Ramfs.{Ino, Dirent, Ramfs, dirent_size}
use usc_homeworks.Ramfs.Ops.{next_entry, entry_read, ramfs_readdir, dirents_of}

-- The entries in use.
unfoldable pub used_entries : List Dirent → List Dirent
used_entries [] = []
used_entries (d ∷ ds) =
    let later = used_entries ds in if is_empty d.rd_name then later else d ∷ later

-- The entry as it is copied to the caller.
abbrev pub copied : Dirent → Dirent
copied d = record d { rd_name = take 27 d.rd_name }

-- The calls until one returns 0.
unfoldable pub list_from : ℕ → ℕ → Ino → Ramfs → Run (List Dirent)
list_from zero offset dir s = out_of_fuel
list_from (suc k) offset dir s = and_then (ramfs_readdir dir offset s) λ r. elim r.1 [
  | none ↦ done []
  | some d ↦ and_then (list_from k (offset + r.0) dir s) λ ds. done (d ∷ ds)
]

-- The next entry in use is the first of them, and the others follow it.
next_entry_lem :
    (es : List Dirent)
    → ((next_entry es ≡ none) × (used_entries es ≡ []))
      ⊎ ((n : ℕ) × (d : Dirent) × (next_entry es ≡ some (n, d))
          × (used_entries es ≡ d ∷ used_entries (drop (suc n) es)))
unfolding next_entry used_entries
next_entry_lem [] = inl (refl, refl)
next_entry_lem (d ∷ es) = elim (Bool-cases (is_empty d.rd_name)) [
  | inl free ↦ elim (next_entry_lem es) [
    | inl last ↦ inl (rw (free, last.0), rw (free, last.1))
    | inr (n, e, f, g) ↦ inr (suc n, e, rw (free, f), rw (free, g))
  ]
  | inr used ↦ inr (zero, d, rw used, rw used)
]

drop-nil : (n : ℕ) → drop {A = Dirent} n [] ≡ []
drop-nil zero = refl
drop-nil (suc n) = refl

drop-all : (n : ℕ) (ds : List Dirent) → length ds ≤ n → drop n ds ≡ []
drop-all n [] h = drop-nil n
drop-all zero (d ∷ ds) h = absurd (omega arith)
drop-all (suc n) (d ∷ ds) h = drop-all n ds (omega arith)

drop-drop : (j n : ℕ) (ds : List Dirent) → drop n (drop j ds) ≡ drop (j + n) ds
drop-drop zero n ds = ap (λ m. drop m ds) (omega arith)
drop-drop (suc j) n [] = drop-nil n ∙ sym (drop-nil (suc j + n))
drop-drop (suc j) n (d ∷ ds) =
    let moved : suc (j + n) ≡ suc j + n = omega arith in
    drop-drop j n ds ∙ ap (λ m. drop m (d ∷ ds)) moved

readdir_run :
    (dir j : ℕ) (s : Ramfs) (ds : List Dirent) (o : Option (ℕ × Dirent))
    → dirents_of (s.rfs_inodes dir) ≡ some ds
    → next_entry (drop j ds) ≡ o
    → ramfs_readdir dir (j * dirent_size) s ≡ done (entry_read o)
unfolding ramfs_readdir
readdir_run dir j s ds o e f =
    let whole : ((j * dirent_size) % dirent_size == 0) ≡ true = ground arith in
    let index : (j * dirent_size) / dirent_size ≡ j = omega arith in
    rw (e, ramfs_readdir, whole, index, f)

-- A call that reaches the end, and one that copies an entry.
list_end :
    (k offset : ℕ) (dir : Ino) (s : Ramfs)
    → ramfs_readdir dir offset s ≡ done (entry_read none)
    → list_from (suc k) offset dir s ≡ done []
unfolding list_from entry_read
list_end k offset dir s e = rw e

list_next :
    (k offset n : ℕ) (d : Dirent) (dir : Ino) (s : Ramfs) (ds : List Dirent)
    → ramfs_readdir dir offset s ≡ done (entry_read (some (n, d)))
    → list_from k (offset + (dirent_size + n * dirent_size)) dir s ≡ done ds
    → list_from (suc k) offset dir s ≡ done (copied d ∷ ds)
unfolding entry_read list_from
list_next k offset n d dir s ds e f = rw (list_from, e, f)

list_from_lem :
    (k j : ℕ) (dir : Ino) (s : Ramfs) (ds : List Dirent)
    → dirents_of (s.rfs_inodes dir) ≡ some ds
    → length ds ≤ j + k
    → list_from (suc k) (j * dirent_size) dir s ≡ done (map copied (used_entries (drop j ds)))
list_from_lem zero j dir s ds e h =
    let past : drop j ds ≡ [] = drop-all j ds (omega arith) in
    list_end zero (j * dirent_size) dir s
      (readdir_run dir j s ds none e (unfold next_entry in rw past))
    ∙ unfold used_entries in rw past
list_from_lem (suc k) j dir s ds e h = elim (next_entry_lem (drop j ds)) [
  | inl (last, all) ↦
      list_end (suc k) (j * dirent_size) dir s (readdir_run dir j s ds none e last) ∙ rw all
  | inr (n, d, found, more) ↦
      let next : (j + suc n) * dirent_size ≡ j * dirent_size + (dirent_size + n * dirent_size) =
        omega arith in
      let rest = list_from_lem k (j + suc n) dir s ds e (omega arith) in
      let here = readdir_run dir j s ds (some (n, d)) e found in
      list_next (suc k) (j * dirent_size) n d dir s _ here (rw next at rest)
      ∙ rw (more, drop-drop j (suc n) ds)
]

-- Reading a directory from its start, each time where the last call ended, comes to an end after at
-- most one call more than the directory has entries, and gives the entries in use, each once and in
-- the order they stand in, their names cut off at 27 characters.
pub readdir_lists :
    (dir : Ino) (s : Ramfs) (ds : List Dirent)
    → dirents_of (s.rfs_inodes dir) ≡ some ds
    → list_from (suc (length ds)) 0 dir s ≡ done (map copied (used_entries ds))
readdir_lists dir s ds e = list_from_lem (length ds) 0 dir s ds e (omega arith)
