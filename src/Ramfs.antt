-- ===== src/Ramfs.antt =====
-- The in-memory file system, weenix.assign2/kernel/fs/ramfs/ramfs.c, with the reference counts of its
-- vnodes, `vref`, `vget` and `vput` of kernel/fs/vnode.c. A name is given by its characters, which
-- are not 0, and a page by what it is used as. No page of a vnode is resident, for its operations
-- have no `fillpage`, and the allocation of a vnode succeeds, for `vget` tries again until it does.
pub mod Ops
pub mod Entries
pub mod Distinct
pub mod Links
pub mod Steps
pub mod Edits
pub mod Views
pub mod Lookup
pub mod Calls
pub mod Removal
pub mod Mkdir
pub mod Rmdir
pub mod Contents
pub mod Readdir
pub mod Reach
pub mod Examples
use usc_homeworks.Base.{
  ℕ, zero, suc, ◌+◌, ◌-◌, Bool, true, false, not, ◌&&◌, Option, none, some, List, [], ◌∷◌, ◌==◌,
  if◌then◌else◌, Run, done, fault, and_then, replicate,
}
use usc_homeworks.Sched.{update, is_none, is_empty}
use usc_homeworks.Names.{Name, Errno, other, Answer, got, failed}

abbrev pub Ino : Type 0
Ino = ℕ

-- The numbers of RAMFS_TYPE.
pub data FileType : Type 0 where
  type_data type_dir type_chr type_blk : FileType

abbrev pub is_dir_type : FileType → Bool
is_dir_type type_dir = true
is_dir_type _ = false

-- Whether `rf_mem` is a page of memory and not a device number.
abbrev pub has_page : FileType → Bool
has_page type_data = true
has_page type_dir = true
has_page _ = false

pub record Dirent : Type 0 where
  pub rd_ino : Ino
  pub rd_name : Name

-- What `rf_mem` is: a page of bytes, a page of directory entries, or a device number.
pub data Memory : Type 0 where
  page : List ℕ → Memory
  dirents : List Dirent → Memory
  device : ℕ → Memory

pub record Inode : Type 0 where
  pub rf_size : ℕ
  pub rf_ino : Ino
  pub rf_mem : Memory
  pub rf_mode : FileType
  pub rf_linkcount : ℕ

pub record Vnode : Type 0 where
  pub vn_refcount : ℕ
  pub vn_len : ℕ
  pub vn_mode : FileType

-- The table of inodes, and the vnodes of this file system that are in use; the inode a vnode points
-- to is the one of its number.
pub record Ramfs : Type 0 where
  pub rfs_inodes : Ino → Option Inode
  pub vnodes : Ino → Option Vnode

-- Whether the allocations of a call succeed.
pub record Alloc : Type 0 where
  pub kmalloc : Bool
  pub page_alloc : Bool

abbrev pub enospc : Errno
enospc = other 28

abbrev pub enomem : Errno
enomem = other 12

abbrev pub ramfs_max_files : ℕ
ramfs_max_files = 64

unfoldable pub page_size : ℕ
page_size = 4096

abbrev pub dirent_size : ℕ
dirent_size = 32

unfoldable pub ramfs_max_dirent : ℕ
ramfs_max_dirent = 128

abbrev pub free_dirent : Dirent
free_dirent = record { rd_ino = 0; rd_name = [] }

-- The memory of a new inode, of zeros.
unfoldable pub new_memory : FileType → ℕ → Memory
new_memory type_data dev = page (replicate page_size 0)
new_memory type_dir dev = dirents (replicate ramfs_max_dirent free_dirent)
new_memory type_chr dev = device dev
new_memory type_blk dev = device dev

-- The first free place of the table among the next `k`.
unfoldable pub first_free : ℕ → Ino → (Ino → Option Inode) → Option Ino
first_free zero i t = none
first_free (suc k) i t =
    let later = first_free k (i + 1) t in if is_none (t i) then some i else later

unfoldable pub new_inode : FileType → ℕ → Ino → Inode
new_inode type dev i = record {
  rf_size = 0;
  rf_ino = i;
  rf_mem = new_memory type dev;
  rf_mode = type;
  rf_linkcount = 1;
}

unfoldable pub alloc_at : Alloc → FileType → ℕ → Option Ino → Ramfs → Answer Ino × Ramfs
alloc_at mem type dev none s = (failed enospc, s)
alloc_at mem type dev (some i) s =
    if not mem.kmalloc
    then (failed enospc, s)
    else if has_page type && not mem.page_alloc
    then (failed enospc, s)
    else (got i, record s { rfs_inodes = update s.rfs_inodes i (some (new_inode type dev i)) })

unfoldable pub ramfs_alloc_inode : Alloc → FileType → ℕ → Ramfs → Answer Ino × Ramfs
ramfs_alloc_inode mem type dev s =
    alloc_at mem type dev (first_free ramfs_max_files 0 s.rfs_inodes) s

-- The vnode that is read, before it has a reference, and the inode with one more link.
unfoldable pub ramfs_read_vnode : Ino → Option Inode → Ramfs → Run (Vnode × Ramfs)
ramfs_read_vnode ino none s = fault
ramfs_read_vnode ino (some i) s =
    if i.rf_ino == ino
    then done (
      record { vn_refcount = 0; vn_len = i.rf_size; vn_mode = i.rf_mode },
      record s {
        rfs_inodes =
            update s.rfs_inodes ino (some (record i { rf_linkcount = i.rf_linkcount + 1 }));
      },
    )
    else fault

unfoldable pub get_vnode : Ino → Option Vnode → Ramfs → Run Ramfs
get_vnode ino none s = and_then (ramfs_read_vnode ino (s.rfs_inodes ino) s) λ r.
    done (record r.1 { vnodes = update r.1.vnodes ino (some (record r.0 { vn_refcount = 1 })) })
get_vnode ino (some vn) s =
    if vn.vn_refcount == 0
    then fault
    else done (record s {
      vnodes = update s.vnodes ino (some (record vn { vn_refcount = vn.vn_refcount + 1 }));
    })

unfoldable pub vget : Ino → Ramfs → Run Ramfs
vget ino s = get_vnode ino (s.vnodes ino) s

-- An inode with one link less; a count is at least 1 here.
abbrev pub unlinked : Inode → Inode
unlinked i = record i { rf_linkcount = i.rf_linkcount - 1 }

-- The inode that `ramfs_delete_vnode` leaves.
abbrev pub left_inode : Option Inode → Option Inode
left_inode none = none
left_inode (some i) = if i.rf_linkcount == 1 then none else some (unlinked i)

unfoldable pub ramfs_delete_vnode : Ino → Ramfs → Ramfs
ramfs_delete_vnode ino s = record s {
  rfs_inodes = update s.rfs_inodes ino (left_inode (s.rfs_inodes ino));
}

unfoldable pub put_vnode : Ino → Option Vnode → Ramfs → Run Ramfs
put_vnode ino none s = fault
put_vnode ino (some vn) s =
    let last = ramfs_delete_vnode ino s in
    if vn.vn_refcount == 0
    then fault
    else if vn.vn_refcount == 1
    then done (record last { vnodes = update last.vnodes ino none })
    else done (record s {
      vnodes = update s.vnodes ino (some (record vn { vn_refcount = vn.vn_refcount - 1 }));
    })

unfoldable pub vput : Ino → Ramfs → Run Ramfs
vput ino s = put_vnode ino (s.vnodes ino) s
