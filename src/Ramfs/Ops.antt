-- ===== src/Ramfs/Ops.antt =====
-- The operations of weenix.assign2/kernel/fs/ramfs/ramfs.c on the file system and on its vnodes.
use usc_homeworks.Base.{
  ℕ, zero, suc, ◌+◌, ◌-◌, ◌*◌, ◌/◌, ◌%◌, ◌^◌, min, max, Bool, true, false, not, ◌&&◌, ◌||◌, Option,
  none, some, List, [], ◌∷◌, ◌++◌, ◌==◌, ltb, if◌then◌else◌, Run, done, fault, and_then, set, take,
  drop, length,
}
use usc_homeworks.Sched.{update, is_none, is_empty}
use usc_homeworks.Names.{
  Name, enoent, enotdir, enotempty, Answer, got, failed, is_dot, is_dot_dot, dot,
}
use usc_homeworks.Ramfs.{
  Ino, FileType, type_data, type_dir, type_chr, type_blk, is_dir_type, Dirent, Memory, page,
  dirents, device, Inode, Vnode, Ramfs, Alloc, enospc, enomem, page_size, dirent_size,
  ramfs_max_files, ramfs_alloc_inode, vget, vput, unlinked,
}

-- `name_match`.
unfoldable pub name_match : Name → Name → Bool
name_match [] [] = true
name_match [] (d ∷ ds) = false
name_match (c ∷ cs) [] = false
name_match (c ∷ cs) (d ∷ ds) = (c == d) && name_match cs ds

-- The number in the first entry of the name.
unfoldable pub find_entry : Name → List Dirent → Option Ino
find_entry name [] = none
find_entry name (d ∷ ds) =
    let later = find_entry name ds in if name_match d.rd_name name then some d.rd_ino else later

-- The first entry of the name is freed; its number stays.
unfoldable pub clear_entry : Name → List Dirent → List Dirent
clear_entry name [] = []
clear_entry name (d ∷ ds) =
    let later = clear_entry name ds in
    if name_match d.rd_name name then record d { rd_name = [] } ∷ ds else d ∷ later

-- The index of the first free entry.
unfoldable pub free_slot : List Dirent → Option ℕ
free_slot [] = none
free_slot (d ∷ ds) =
    let later = free_slot ds in
    if is_empty d.rd_name then some 0 else elim later [ none ↦ none | some i ↦ some (suc i) ]

-- An entry as it is written, the name cut off at NAME_LEN - 1 characters.
unfoldable pub new_dirent : Ino → Name → Dirent
new_dirent ino name = record { rd_ino = ino; rd_name = take 27 name }

-- `VNODE_TO_DIRENT`, of an inode that is a directory.
abbrev pub dirents_of : Option Inode → Option (List Dirent)
dirents_of none = none
dirents_of (some i) = elim i.rf_mem [ dirents ds ↦ some ds | page _ ↦ none | device _ ↦ none ]

abbrev pub edit_memory : (List Dirent → List Dirent) → Memory → Memory
edit_memory f (dirents ds) = dirents (f ds)
edit_memory f (page bs) = page bs
edit_memory f (device dev) = device dev

abbrev pub edit_inode : (List Dirent → List Dirent) → (ℕ → ℕ) → Option Inode → Option Inode
edit_inode f g none = none
edit_inode f g (some i) = some (record i { rf_mem = edit_memory f i.rf_mem; rf_size = g i.rf_size })

-- The entries and the size of a directory are written.
unfoldable pub edit_dir : Ino → (List Dirent → List Dirent) → (ℕ → ℕ) → Ramfs → Ramfs
edit_dir dir f g s = record s {
  rfs_inodes = update s.rfs_inodes dir (edit_inode f g (s.rfs_inodes dir));
}

-- The entry at an index is set.
unfoldable pub set_entry : Ino → ℕ → Ino → Name → Ramfs → Ramfs
set_entry dir slot ino name s =
    edit_dir dir (λ ds. set ds slot (new_dirent ino name)) (λ size. size + dirent_size) s

-- The entry of a name is removed.
unfoldable pub drop_entry : Ino → Name → Ramfs → Ramfs
drop_entry dir name s = edit_dir dir (clear_entry name) (λ size. size - dirent_size) s

-- `rf_linkcount++` and `rf_linkcount--`.
abbrev pub linked_again : Option Inode → Option Inode
linked_again none = none
linked_again (some i) = some (record i { rf_linkcount = i.rf_linkcount + 1 })

abbrev pub linked_less : Option Inode → Option Inode
linked_less none = none
linked_less (some i) = some (unlinked i)

unfoldable pub inc_linkcount : Ino → Ramfs → Ramfs
inc_linkcount ino s = record s {
  rfs_inodes = update s.rfs_inodes ino (linked_again (s.rfs_inodes ino));
}

unfoldable pub dec_linkcount : Ino → Ramfs → Ramfs
dec_linkcount ino s = record s {
  rfs_inodes = update s.rfs_inodes ino (linked_less (s.rfs_inodes ino));
}

-- What each operation that adds a name begins with: the name is asserted to be missing, and a free
-- entry is looked for.
unfoldable pub add_name :
    {A : Type 0}
    → Option (List Dirent)
    → Name
    → Ramfs
    → (ℕ → Run (Answer A × Ramfs))
    → Run (Answer A × Ramfs)
add_name none name s k = fault
add_name (some ds) name s k =
    if not (is_none (find_entry name ds))
    then fault
    else elim (free_slot ds) [ none ↦ done (failed enospc, s) | some slot ↦ k slot ]

-- What follows the allocation of an inode.
unfoldable pub allocated :
    {A : Type 0}
    → (Ino → Ramfs → Run (Answer A × Ramfs))
    → Answer Ino × Ramfs
    → Run (Answer A × Ramfs)
allocated k (failed e, s) = done (failed e, s)
allocated k (got ino, s) = k ino s

unfoldable pub ramfs_create : Alloc → Ino → Name → Ramfs → Run (Answer Ino × Ramfs)
ramfs_create mem dir name s = add_name (dirents_of (s.rfs_inodes dir)) name s λ slot.
    allocated
      (λ ino s1. and_then (vget ino s1) λ s2. done (got ino, set_entry dir slot ino name s2))
      (ramfs_alloc_inode mem type_data 0 s)

-- The type of the inode for a mode, of a character or of a block device; another mode panics.
unfoldable pub ramfs_mknod :
    Alloc → Ino → Name → Option FileType → ℕ → Ramfs → Run (Answer (Unit {0}) × Ramfs)
ramfs_mknod mem dir name mode dev s = add_name (dirents_of (s.rfs_inodes dir)) name s λ slot.
    elim mode [
      | some type_chr ↦
          allocated (λ ino s1. done (got tt, set_entry dir slot ino name s1))
            (ramfs_alloc_inode mem type_chr dev s)
      | some type_blk ↦
          allocated (λ ino s1. done (got tt, set_entry dir slot ino name s1))
            (ramfs_alloc_inode mem type_blk dev s)
      | some type_data ↦ fault
      | some type_dir ↦ fault
      | none ↦ fault
    ]

-- The vnode of an entry.
unfoldable pub get_entry : Option Ino → Ramfs → Run (Answer Ino × Ramfs)
get_entry none s = done (failed enoent, s)
get_entry (some ino) s = and_then (vget ino s) λ s'. done (got ino, s')

unfoldable pub ramfs_lookup : Ino → Name → Ramfs → Run (Answer Ino × Ramfs)
ramfs_lookup dir name s = elim (dirents_of (s.rfs_inodes dir)) [
  | none ↦ fault
  | some ds ↦ get_entry (find_entry name ds) s
]

unfoldable pub ramfs_link : Ino → Ino → Name → Ramfs → Run (Answer (Unit {0}) × Ramfs)
ramfs_link old dir name s =
    add_name (dirents_of (s.rfs_inodes dir)) name s
      λ slot. done (got tt, inc_linkcount old (set_entry dir slot old name s))

-- Whether a vnode in use is a directory.
abbrev pub is_dir_vnode : Option Vnode → Bool
is_dir_vnode none = false
is_dir_vnode (some vn) = is_dir_type vn.vn_mode

-- The end of `ramfs_unlink` and `ramfs_rmdir`: the entry, a link and the reference are given up.
unfoldable pub remove_name : Ino → Name → Ino → Ramfs → Run (Answer (Unit {0}) × Ramfs)
remove_name dir name ino s =
    and_then (vput ino (dec_linkcount ino (drop_entry dir name s))) λ s'. done (got tt, s')

-- What `ramfs_unlink` does with the answer of `ramfs_lookup`.
unfoldable pub unlink_found : Ino → Name → Answer Ino → Ramfs → Run (Answer (Unit {0}) × Ramfs)
unlink_found dir name (failed e) s = fault
unlink_found dir name (got ino) s =
    if is_dir_vnode (s.vnodes ino) then fault else remove_name dir name ino s

unfoldable pub ramfs_unlink : Ino → Name → Ramfs → Run (Answer (Unit {0}) × Ramfs)
ramfs_unlink dir name s = and_then (ramfs_lookup dir name s) λ r. unlink_found dir name r.0 r.1

-- The entries of a new directory.
unfoldable pub dots : Ino → Ino → List Dirent → List Dirent
dots ino parent ds =
    set (set ds 0 (record { rd_ino = ino; rd_name = dot ∷ [] })) 1
      (record { rd_ino = parent; rd_name = dot ∷ dot ∷ [] })

unfoldable pub ramfs_mkdir : Alloc → Ino → Name → Ramfs → Run (Answer (Unit {0}) × Ramfs)
ramfs_mkdir mem dir name s = add_name (dirents_of (s.rfs_inodes dir)) name s λ slot.
    allocated
      (λ ino s1. done (
        got tt,
        edit_dir ino (dots ino dir) (λ _. 2 * dirent_size) (set_entry dir slot ino name s1),
      ))
      (ramfs_alloc_inode mem type_dir 0 s)

-- Whether all entries but those of "." and ".." are free.
unfoldable pub is_empty_dir : List Dirent → Bool
is_empty_dir [] = true
is_empty_dir (d ∷ ds) =
    (is_dot d.rd_name || (is_dot_dot d.rd_name || is_empty d.rd_name)) && is_empty_dir ds

-- What `ramfs_rmdir` does with the answer of `ramfs_lookup`.
unfoldable pub rmdir_found : Ino → Name → Answer Ino → Ramfs → Run (Answer (Unit {0}) × Ramfs)
rmdir_found dir name (failed e) s = done (failed e, s)
rmdir_found dir name (got ino) s =
    if not (is_dir_vnode (s.vnodes ino))
    then and_then (vput ino s) (λ s'. done (failed enotdir, s'))
    else elim (dirents_of (s.rfs_inodes ino)) [
      | none ↦ fault
      | some ds ↦
          if not (is_empty_dir ds)
          then and_then (vput ino s) (λ s'. done (failed enotempty, s'))
          else remove_name dir name ino s
    ]

unfoldable pub ramfs_rmdir : Ino → Name → Ramfs → Run (Answer (Unit {0}) × Ramfs)
ramfs_rmdir dir name s =
    if is_dot name || is_dot_dot name
    then fault
    else and_then (ramfs_lookup dir name s) λ r. rmdir_found dir name r.0 r.1

-- The bytes of an inode that is a file.
abbrev pub bytes_of : Option Inode → Option (List ℕ)
bytes_of none = none
bytes_of (some i) = elim i.rf_mem [ page bs ↦ some bs | dirents _ ↦ none | device _ ↦ none ]

abbrev pub size_of : Option Inode → ℕ
size_of none = 0
size_of (some i) = i.rf_size

-- How much of what is left is read: a count that is negative as an `off_t` reads nothing.
abbrev pub read_count : ℕ → ℕ → ℕ
read_count count left = if ltb count (2 ^ 31) then min count left else 0

-- The bytes that are read, as many as are returned.
unfoldable pub ramfs_read : Ino → ℕ → ℕ → Ramfs → Run (List ℕ)
ramfs_read file offset count s = elim (bytes_of (s.rfs_inodes file)) [
  | none ↦ fault
  | some bs ↦ done (take (read_count count (size_of (s.rfs_inodes file) - offset)) (drop offset bs))
]

-- `memcpy` into the page.
unfoldable pub overwrite : ℕ → List ℕ → List ℕ → List ℕ
overwrite offset written bs = take offset bs ++ (written ++ drop (offset + length written) bs)

abbrev pub write_inode : ℕ → List ℕ → Option Inode → Option Inode
write_inode size bs none = none
write_inode size bs (some i) = some (record i { rf_mem = page bs; rf_size = size })

-- The end of `ramfs_write`, with the bytes that fit the page.
unfoldable pub write_page : Ino → ℕ → List ℕ → List ℕ → Vnode → Ramfs → Run (ℕ × Ramfs)
write_page file offset written bs vn s =
    let len = max vn.vn_len (offset + length written) in
    let inode = write_inode len (overwrite offset written bs) (s.rfs_inodes file) in
    if not (vn.vn_len == size_of (s.rfs_inodes file))
    then fault
    else done (
      length written,
      record s {
        rfs_inodes = update s.rfs_inodes file inode;
        vnodes = update s.vnodes file (some (record vn { vn_len = len }));
      },
    )

-- How much is written, and the state then. Past the page, and where the length of the buffer is negative
-- as an `off_t`, the count that `memcpy` is given is negative.
unfoldable pub ramfs_write : Ino → ℕ → List ℕ → Ramfs → Run (ℕ × Ramfs)
ramfs_write file offset buf s = elim (bytes_of (s.rfs_inodes file)) [
  | none ↦ fault
  | some bs ↦ elim (s.vnodes file) [
    | none ↦ fault
    | some vn ↦
        if ltb page_size offset || not (ltb (length buf) (2 ^ 31))
        then fault
        else write_page file offset (take (page_size - offset) buf) bs vn s
  ]
]

-- How many free entries there are before the first one in use, and that one.
unfoldable pub next_entry : List Dirent → Option (ℕ × Dirent)
next_entry [] = none
next_entry (d ∷ ds) =
    let later = next_entry ds in
    if is_empty d.rd_name
    then elim later [ none ↦ none | some r ↦ some (suc r.0, r.1) ]
    else some (0, d)

-- What `ramfs_readdir` returns and the entry it copies.
unfoldable pub entry_read : Option (ℕ × Dirent) → ℕ × Option Dirent
entry_read none = (0, none)
entry_read (some r) =
    (dirent_size + r.0 * dirent_size, some (record r.1 { rd_name = take 27 r.1.rd_name }))

unfoldable pub ramfs_readdir : Ino → ℕ → Ramfs → Run (ℕ × Option Dirent)
ramfs_readdir dir offset s = elim (dirents_of (s.rfs_inodes dir)) [
  | none ↦ fault
  | some ds ↦
      if not (offset % dirent_size == 0)
      then fault
      else done (entry_read (next_entry (drop (offset / dirent_size) ds)))
]

pub record Stat : Type 0 where
  pub st_mode : FileType
  pub st_ino : Ino
  pub st_rdev : ℕ
  pub st_nlink : ℕ
  pub st_size : ℕ
  pub st_blksize : ℕ

-- The device number of a device, and 0 otherwise.
abbrev pub rdev_of : Memory → ℕ
rdev_of (device dev) = dev
rdev_of _ = 0

-- `ramfs_stat` of the vnode of a number, whose links but its own are counted.
unfoldable pub ramfs_stat : Ino → Vnode → Inode → Stat
ramfs_stat ino vn i = record {
  st_mode = vn.vn_mode;
  st_ino = ino;
  st_rdev = rdev_of i.rf_mem;
  st_nlink = i.rf_linkcount - 1;
  st_size = i.rf_size;
  st_blksize = page_size;
}

abbrev pub no_files : Ramfs
no_files = record { rfs_inodes = λ _. none; vnodes = λ _. none }

-- `ramfs_mount`, where `fs_kmalloc` is whether the file system itself can be allocated.
unfoldable pub ramfs_mount : Bool → Alloc → Run (Answer (Unit {0}) × Ramfs)
ramfs_mount fs_kmalloc mem =
    if not fs_kmalloc
    then done (failed enomem, no_files)
    else allocated
        (λ ino s.
          if not (ino == 0)
          then fault
          else and_then (vget 0 (edit_dir 0 (dots 0 0) (λ _. 2 * dirent_size) s))
              λ s'. done (got tt, s'))
        (ramfs_alloc_inode mem type_dir 0 no_files)

-- The inodes that `ramfs_umount` frees, among the next `k`.
unfoldable pub freed : ℕ → Ino → (Ino → Option Inode) → List Ino
freed zero i t = []
freed (suc k) i t = let later = freed k (i + 1) t in if is_none (t i) then later else i ∷ later

unfoldable pub ramfs_umount : Ramfs → Run (List Ino)
ramfs_umount s = and_then (vput 0 s) λ s'. done (freed ramfs_max_files 0 s'.rfs_inodes)
