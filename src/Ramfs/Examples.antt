-- ===== src/Ramfs/Examples.antt =====
-- Runs of the file system of weenix.assign2/kernel/fs/ramfs/ramfs.c from its mount.
use usc_homeworks.Base.{
  ℕ, ◌+◌, ◌≡◌, ◌≢◌, ◌<◌, ◌≤◌, max, true, false, some, List, [], ◌∷◌, if◌then◌else◌, arith, refl,
  Run, done, fault, out_of_fuel, inl, length, length-replicate, map, replicate, suc,
}
use usc_homeworks.Names.{Name, got, failed, enotempty}
use usc_homeworks.Ramfs.{
  Ino, type_data, type_chr, Dirent, page, Inode, Vnode, Ramfs, Alloc, first_free, new_inode,
  new_memory, alloc_at, ramfs_alloc_inode, ramfs_read_vnode, get_vnode, vget, put_vnode, vput,
  ramfs_delete_vnode, ramfs_max_dirent, page_size, free_dirent,
}
use usc_homeworks.Ramfs.Ops.{
  name_match, find_entry, free_slot, new_dirent, dirents_of, edit_dir, dots, no_files, ramfs_mount,
  allocated, ramfs_create, ramfs_mknod, ramfs_lookup, ramfs_link, ramfs_unlink, ramfs_mkdir,
  ramfs_rmdir, is_empty_dir, add_name, set_entry, ramfs_write, ramfs_read, size_of, rmdir_found,
  remove_name, get_entry, drop_entry, dec_linkcount, clear_entry,
}
use usc_homeworks.Ramfs.Entries.{is_link}
use usc_homeworks.Ramfs.Links.{linkcount}
use usc_homeworks.Sched.{is_empty}
use usc_homeworks.Ramfs.Steps.{leads_to_dir}
use usc_homeworks.Ramfs.Views.{view, IsRamfs, IsSame, IsBound}
use usc_homeworks.Ramfs.Lookup.{IsFree, lookup_answers, answer_of}
use usc_homeworks.Ramfs.Calls.{IsRoom, create_binds, mknod_binds, create_then_lookup}
use usc_homeworks.Ramfs.Removal.{IsRemoved, link_binds, unlink_removes}
use usc_homeworks.Ramfs.Rmdir.{rmdir_removes, rmdir_refuses}
use usc_homeworks.Ramfs.Mkdir.{mkdir_binds, dots_view}
use usc_homeworks.Ramfs.Contents.{IsFile, read_after_write, fitting}
use usc_homeworks.Ramfs.Readdir.{list_from, used_entries, copied, readdir_lists}
use usc_homeworks.Ramfs.Reach.{IsReached, mounts, creates, makes_dir, IsReached-IsRamfs}

abbrev memory : Alloc
memory = record { kmalloc = true; page_alloc = true }

abbrev state_of : {A : Type 0} → Run (A × Ramfs) → Ramfs
state_of (done r) = r.1
state_of fault = no_files
state_of out_of_fuel = no_files

abbrev a_name : Name
a_name = 97 ∷ []

abbrev b_name : Name
b_name = 98 ∷ []

abbrev free_dirents : List Dirent
free_dirents = replicate 126 free_dirent

abbrev dot_dirent : Ino → Dirent
dot_dirent i = record { rd_ino = i; rd_name = 46 ∷ [] }

abbrev dot_dot_dirent : Ino → Dirent
dot_dot_dirent i = record { rd_ino = i; rd_name = 46 ∷ 46 ∷ [] }

abbrev root_dirents : List Dirent
root_dirents = dot_dirent 0 ∷ dot_dot_dirent 0 ∷ free_dirents

-- The mount.
unfoldable mounted : Ramfs
mounted = state_of (ramfs_mount true memory)

mount_runs : ramfs_mount true memory ≡ done (got tt, mounted)
unfolding mounted ramfs_mount allocated ramfs_alloc_inode alloc_at first_free new_inode new_memory
    ramfs_max_dirent edit_dir dots vget get_vnode ramfs_read_vnode
mount_runs = refl

mounted-IsReached : IsReached mounted
mounted-IsReached = mounts memory refl refl mount_runs

mounted-IsRamfs : IsRamfs mounted
mounted-IsRamfs = IsReached-IsRamfs mounted-IsReached

mounted_dirents : dirents_of (mounted.rfs_inodes 0) ≡ some root_dirents
unfolding mounted ramfs_mount allocated ramfs_alloc_inode alloc_at first_free new_inode new_memory
    ramfs_max_dirent edit_dir dots vget get_vnode ramfs_read_vnode
mounted_dirents = refl

a-IsFree : IsFree 0 a_name 2 root_dirents mounted
unfolding find_entry free_slot name_match
a-IsFree = record { present = mounted_dirents; missing = refl; free = refl; short = omega arith }

mounted-IsRoom : IsRoom 1 memory mounted
unfolding mounted ramfs_mount allocated ramfs_alloc_inode alloc_at first_free new_inode new_memory
    ramfs_max_dirent edit_dir dots vget get_vnode ramfs_read_vnode
mounted-IsRoom = record { place = refl; kmalloc_ok = refl; page_ok = refl }

-- With the file "a", whose vnode is in use, and with the directory "a".
unfoldable filed : Ramfs
filed = state_of (ramfs_create memory 0 a_name mounted)

unfoldable nested : Ramfs
nested = state_of (ramfs_mkdir memory 0 a_name mounted)

-- With the file "b" in the directory "a".
unfoldable full : Ramfs
full = state_of (ramfs_create memory 1 b_name nested)

create_runs : ramfs_create memory 0 a_name mounted ≡ done (got 1, filed)
unfolding filed mounted ramfs_mount allocated ramfs_alloc_inode alloc_at first_free new_inode
    new_memory ramfs_max_dirent edit_dir dots vget get_vnode ramfs_read_vnode ramfs_create add_name
    find_entry free_slot name_match set_entry new_dirent
create_runs = refl

mkdir_runs : ramfs_mkdir memory 0 a_name mounted ≡ done (got tt, nested)
unfolding nested mounted ramfs_mount allocated ramfs_alloc_inode alloc_at first_free new_inode
    new_memory ramfs_max_dirent edit_dir dots vget get_vnode ramfs_read_vnode ramfs_mkdir add_name
    find_entry free_slot name_match set_entry new_dirent
mkdir_runs = refl

full_runs : ramfs_create memory 1 b_name nested ≡ done (got 2, full)
unfolding full nested mounted ramfs_mount allocated ramfs_alloc_inode alloc_at first_free new_inode
    new_memory ramfs_max_dirent edit_dir dots vget get_vnode ramfs_read_vnode ramfs_mkdir add_name
    find_entry free_slot name_match set_entry new_dirent ramfs_create
full_runs = refl

abbrev a_dirents : List Dirent
a_dirents =
    dot_dirent 0
    ∷ dot_dot_dirent 0
    ∷ record { rd_ino = 1; rd_name = a_name }
    ∷ replicate 125 free_dirent

abbrev child_dirents : List Dirent
child_dirents = dot_dirent 1 ∷ dot_dot_dirent 0 ∷ free_dirents

abbrev full_dirents : List Dirent
full_dirents =
    dot_dirent 1
    ∷ dot_dot_dirent 0
    ∷ record { rd_ino = 2; rd_name = b_name }
    ∷ replicate 125 free_dirent

filed_dirents : dirents_of (filed.rfs_inodes 0) ≡ some a_dirents
unfolding filed mounted ramfs_mount allocated ramfs_alloc_inode alloc_at first_free new_inode
    new_memory ramfs_max_dirent edit_dir dots vget get_vnode ramfs_read_vnode ramfs_create add_name
    find_entry free_slot name_match set_entry new_dirent
filed_dirents = refl

filed_kind : leads_to_dir (filed.vnodes 1) (filed.rfs_inodes 1) ≡ false
unfolding filed mounted ramfs_mount allocated ramfs_alloc_inode alloc_at first_free new_inode
    new_memory ramfs_max_dirent edit_dir dots vget get_vnode ramfs_read_vnode ramfs_create add_name
    find_entry free_slot name_match set_entry new_dirent
filed_kind = refl

filed_linkcount : 0 < linkcount (filed.rfs_inodes 1)
unfolding filed mounted ramfs_mount allocated ramfs_alloc_inode alloc_at first_free new_inode
    new_memory ramfs_max_dirent edit_dir dots vget get_vnode ramfs_read_vnode ramfs_create add_name
    find_entry free_slot name_match set_entry new_dirent
filed_linkcount = omega arith

nested_dirents :
    (dirents_of (nested.rfs_inodes 0) ≡ some a_dirents)
    × (dirents_of (nested.rfs_inodes 1) ≡ some child_dirents)
    × (leads_to_dir (nested.vnodes 1) (nested.rfs_inodes 1) ≡ true)
unfolding nested mounted ramfs_mount allocated ramfs_alloc_inode alloc_at first_free new_inode
    new_memory ramfs_max_dirent edit_dir dots vget get_vnode ramfs_read_vnode ramfs_mkdir add_name
    find_entry free_slot name_match set_entry new_dirent
nested_dirents = (refl, refl, refl)

full_state :
    (dirents_of (full.rfs_inodes 0) ≡ some a_dirents)
    × (dirents_of (full.rfs_inodes 1) ≡ some full_dirents)
    × (leads_to_dir (full.vnodes 1) (full.rfs_inodes 1) ≡ true)
unfolding full nested mounted ramfs_mount allocated ramfs_alloc_inode alloc_at first_free new_inode
    new_memory ramfs_max_dirent edit_dir dots vget get_vnode ramfs_read_vnode ramfs_mkdir add_name
    find_entry free_slot name_match set_entry new_dirent ramfs_create
full_state = (refl, refl, refl)

filed-IsRamfs : IsRamfs filed
filed-IsRamfs =
    IsReached-IsRamfs (
      creates memory 0 a_name 2 1 root_dirents mounted-IsReached a-IsFree mounted-IsRoom
        create_runs)

nested-IsReached : IsReached nested
nested-IsReached =
    makes_dir memory 0 a_name 2 1 root_dirents mounted-IsReached a-IsFree mounted-IsRoom mkdir_runs

b-IsFree : IsFree 1 b_name 2 child_dirents nested
unfolding find_entry free_slot name_match
b-IsFree = record { present = nested_dirents.1; missing = refl; free = refl; short = omega arith }

nested-IsRoom : IsRoom 2 memory nested
unfolding nested mounted ramfs_mount allocated ramfs_alloc_inode alloc_at first_free new_inode
    new_memory ramfs_max_dirent edit_dir dots vget get_vnode ramfs_read_vnode ramfs_mkdir add_name
    find_entry free_slot name_match set_entry new_dirent
nested-IsRoom = record { place = refl; kmalloc_ok = refl; page_ok = refl }

full-IsRamfs : IsRamfs full
full-IsRamfs =
    IsReached-IsRamfs
      (creates memory 1 b_name 2 2 child_dirents nested-IsReached b-IsFree nested-IsRoom full_runs)

is_link_a : is_link a_name ≡ true
unfolding is_link
is_link_a = refl

is_link_b : is_link b_name ≡ true
unfolding is_link
is_link_b = refl

found_a : find_entry a_name a_dirents ≡ some 1
unfolding find_entry name_match
found_a = refl

found_b : find_entry b_name full_dirents ≡ some 2
unfolding find_entry name_match
found_b = refl

child_empty : is_empty_dir child_dirents ≡ true
unfolding is_empty_dir
child_empty = refl

b_in_root-IsFree : IsFree 0 b_name 3 a_dirents filed
unfolding find_entry free_slot name_match
b_in_root-IsFree = record {
  present = filed_dirents;
  missing = refl;
  free = refl;
  short = omega arith;
}

lookup_answers_example :
    (s' : Ramfs) × (ramfs_lookup 0 a_name filed ≡ done (answer_of (view filed 0 a_name), s'))
    × IsRamfs s'
    × IsSame filed s'
lookup_answers_example =
    lookup_answers 0 a_name filed a_dirents filed-IsRamfs filed_dirents is_link_a

create_binds_example :
    (s' : Ramfs) × (ramfs_create memory 0 a_name mounted ≡ done (got 1, s'))
    × IsRamfs s'
    × IsBound 0 a_name (some 1) mounted s'
create_binds_example =
    create_binds memory 0 a_name 2 1 root_dirents mounted mounted-IsRamfs a-IsFree mounted-IsRoom

mknod_binds_example :
    (s' : Ramfs) × (ramfs_mknod memory 0 a_name (some type_chr) 5 mounted ≡ done (got tt, s'))
    × IsRamfs s'
    × IsBound 0 a_name (some 1) mounted s'
mknod_binds_example =
    mknod_binds type_chr memory 0 a_name 5 2 1 root_dirents mounted (inl refl) mounted-IsRamfs
      a-IsFree mounted-IsRoom

create_then_lookup_example :
    (s1 : Ramfs) × (s2 : Ramfs) × (ramfs_create memory 0 a_name mounted ≡ done (got 1, s1))
    × (ramfs_lookup 0 a_name s1 ≡ done (got 1, s2))
    × IsRamfs s2
create_then_lookup_example =
    create_then_lookup memory 0 a_name 2 1 root_dirents mounted mounted-IsRamfs a-IsFree
      mounted-IsRoom is_link_a

mkdir_binds_example :
    (s' : Ramfs) × (ramfs_mkdir memory 0 a_name mounted ≡ done (got tt, s'))
    × IsRamfs s'
    × ((n : Name)
        → is_empty n ≡ false
        → view s' 0 n ≡ (if name_match a_name n then some 1 else view mounted 0 n))
    × ((n : Name) → is_empty n ≡ false → view s' 1 n ≡ dots_view 1 0 n)
    × ((d : Ino) (n : Name) → d ≢ 0 → d ≢ 1 → is_empty n ≡ false → view s' d n ≡ view mounted d n)
mkdir_binds_example =
    mkdir_binds memory 0 a_name 2 1 root_dirents mounted mounted-IsRamfs a-IsFree mounted-IsRoom

link_binds_example :
    (s' : Ramfs) × (ramfs_link 1 0 b_name filed ≡ done (got tt, s'))
    × IsRamfs s'
    × IsBound 0 b_name (some 1) filed s'
link_binds_example =
    link_binds 1 0 b_name 3 a_dirents filed filed-IsRamfs b_in_root-IsFree filed_linkcount

unlink_removes_example :
    (s' : Ramfs) × (ramfs_unlink 0 a_name filed ≡ done (got tt, s'))
    × IsRamfs s'
    × IsRemoved 0 a_name 1 filed s'
unlink_removes_example =
    unlink_removes 0 a_name 1 a_dirents filed filed-IsRamfs filed_dirents is_link_a found_a
      filed_kind (ground arith)

rmdir_refuses_example :
    (s' : Ramfs) × (ramfs_rmdir 0 a_name full ≡ done (failed enotempty, s'))
    × IsRamfs s'
    × IsSame full s'
rmdir_refuses_example =
    rmdir_refuses 0 a_name 1 a_dirents full_dirents b_name 2 full full-IsRamfs full_state.0
      is_link_a found_a full_state.2 full_state.1 is_link_b found_b

rmdir_removes_example :
    (s' : Ramfs) × (ramfs_rmdir 0 a_name nested ≡ done (got tt, s'))
    × IsRamfs s'
    × IsRemoved 0 a_name 1 nested s'
rmdir_removes_example =
    rmdir_removes 0 a_name 1 a_dirents child_dirents nested (IsReached-IsRamfs nested-IsReached)
      nested_dirents.0 is_link_a found_a nested_dirents.2 nested_dirents.1 child_empty
      (ground arith)

readdir_lists_example :
    list_from (suc (length a_dirents)) 0 0 filed ≡ done (map copied (used_entries a_dirents))
readdir_lists_example = readdir_lists 0 filed a_dirents filed_dirents

-- The file "a", whose page is of zeros.
abbrev blank : List ℕ
blank = replicate page_size 0

abbrev a_inode : Inode
a_inode = record {
  rf_size = 0;
  rf_ino = 1;
  rf_mem = page blank;
  rf_mode = type_data;
  rf_linkcount = 2;
}

abbrev a_vnode : Vnode
a_vnode = record { vn_refcount = 1; vn_len = 0; vn_mode = type_data }

a-IsFile : IsFile 1 blank a_inode a_vnode filed
unfolding filed mounted ramfs_mount allocated ramfs_alloc_inode alloc_at first_free new_inode
    new_memory ramfs_max_dirent edit_dir dots vget get_vnode ramfs_read_vnode ramfs_create add_name
    find_entry free_slot name_match set_entry new_dirent
a-IsFile = record {
  inode = refl;
  bytes = refl;
  vnode = refl;
  known = refl;
  whole = length-replicate page_size 0;
  inside = omega arith;
}

one_below_page : 1 ≤ page_size
unfolding page_size
one_below_page = omega arith

read_after_write_example :
    (s' : Ramfs) × (j : Inode) × (v : Vnode) × (cs : List ℕ) × (ramfs_write 1 1 (7 ∷ 8 ∷ []) filed
      ≡ done (length (fitting 1 (7 ∷ 8 ∷ [])), s'))
    × (ramfs_read 1 1 (length (fitting 1 (7 ∷ 8 ∷ []))) s' ≡ done (fitting 1 (7 ∷ 8 ∷ [])))
    × IsFile 1 cs j v s'
    × (j.rf_size ≡ max 0 (1 + length (fitting 1 (7 ∷ 8 ∷ []))))
read_after_write_example =
    read_after_write 1 1 (7 ∷ 8 ∷ []) blank a_inode a_vnode filed a-IsFile one_below_page
      (omega arith)

-- The removal of the empty name, which `do_rmdir` asks for at the path "/": the root loses a link and
-- an entry that it does not have.
rmdir_of_root :
    (size_of ((state_of (ramfs_rmdir 0 [] mounted)).rfs_inodes 0) ≡ 32)
    × (linkcount ((state_of (ramfs_rmdir 0 [] mounted)).rfs_inodes 0) ≡ 1)
unfolding mounted ramfs_mount allocated ramfs_alloc_inode alloc_at first_free new_inode new_memory
    ramfs_max_dirent edit_dir dots vget get_vnode ramfs_read_vnode find_entry clear_entry name_match
    ramfs_rmdir rmdir_found remove_name ramfs_lookup get_entry drop_entry dec_linkcount vput
    put_vnode ramfs_delete_vnode is_empty_dir
rmdir_of_root = (refl, refl)
