-- ===== src/Lib.antt =====
-- A verification library of the homework repository: the database of cs402 and parts of the kernel of
-- weenix.assign2.
--
-- The program and its parts
--
-- cs402/db_coarse.c keeps names and values in a binary search tree below a sentinel node `head`. The
-- operations `query`, `add` and `xremove` all start with `search`, which returns a node and its
-- parent. In the kernel, threads wait on queues (weenix.assign2/kernel/proc/sched.c), mutexes hand
-- their queue's first thread the lock (proc/kmutex.c), the line discipline of the terminal
-- (drivers/tty/n_tty.c) keeps a mutex and a queue of readers, and processes share file objects
-- through their descriptors (fs/file.c, fs/open.c, fs/vfs_syscall.c). The in-memory file system
-- (fs/ramfs/ramfs.c) answers the vnode operations that the calls on paths (fs/namev.c,
-- fs/vfs_syscall.c) make, and takes and gives back vnodes by number. Module NTty uses Kmutex, which
-- uses Sched, as the files do. A process that ends (proc/proc.c) closes its files and wakes the
-- threads that wait for it, so Proc uses Files and Sched.
--
-- The files
--
--   Base: names that all modules share, with the children Tests (Boolean tests on numbers), Lists and
--   Runs (runs that may fault, or lack fuel), and Sums.
--   Database: cs402/db_coarse.c and db.h. A pointer is a number, the heap a function from pointers to
--   nodes, and `load`, `store` and do blocks stand for the accesses. Its child Tree is the abstract
--   view, a tree with the addresses of its nodes; Rep says when a heap holds a tree; Search, Add and
--   Remove compare the code with the tree, Laws and Lookup the tree with a finite map, Client the code
--   with the map. Focus, Minimum, Splice and Swap hold what removal needs.
--   Sched: weenix.assign2/kernel/proc/sched.c with the structures of proc/kthread.h and proc/sched.h.
--   The children are Queues and Invariant (threads and queues agree), Wakeup, and Fifo (queues as
--   waiting lines).
--   Kmutex: weenix.assign2/kernel/proc/kmutex.c; Handover has its laws.
--   NTty: weenix.assign2/kernel/drivers/tty/n_tty.c. Ring reads the buffer as two lists, Line says what
--   typing means on lists, Receive and Read compare the code with that.
--   Files: weenix.assign2/kernel/fs/file.c, `get_empty_fd` of fs/open.c, and `do_read`, `do_close`,
--   `do_dup` and `do_dup2` of fs/vfs_syscall.c; its child Seek models `do_write` and `do_lseek`. Refs
--   states what the counts are of; Close, Dup and Position are about the calls.
--   Names: weenix.assign2/kernel/fs/namev.c and the calls of fs/vfs_syscall.c that take a path. The
--   state counts the references to vnodes; the operations of a file system are the record Vnodes.
--   Balance says what a step takes and gives back, Tokens and Resolve are about paths, Calls and
--   Syscalls about the calls.
--   Proc: weenix.assign2/kernel/proc/proc.c, with the scheduler and the file objects in its state; its
--   child Calls has the end of a process and the wait for one. Pids is about process numbers, Exit
--   about the files of a process that ends, Children about where its children go, Cleanup about
--   `proc_cleanup` as a whole, Waits about `do_waitpid`.
--   Ramfs: weenix.assign2/kernel/fs/ramfs/ramfs.c, the table of inodes and the vnodes in use, with
--   `vget` and `vput` of fs/vnode.c; its child Ops has the operations. Entries and Distinct are about
--   the entries of a directory, Links about the counts of links, Steps and Edits about what each step
--   does to them, Views about directories as maps. Lookup, Calls, Mkdir, Removal, Rmdir, Contents and
--   Readdir are about the operations, Reach about the states they lead to.
--   Page: weenix.assign2/kernel/mm/page.c, the groups of pages and the splitting and joining of blocks.
--   Count is about the pages of the blocks of a group, Create about a new group, Totals about
--   `page_freecount` and the calls, Reach about the states they lead to.
--   Kshell: `kshell_next_token` of weenix.assign2/kernel/test/kshell/tokenizer.c; Tokens has its laws.
--   Strings: `strcmp` and `strncmp` of weenix.assign2/kernel/util/string.c; Compare has what they say.
--   The modules Examples hold test data and runs at concrete inputs.
--
-- Names follow the source, with the prefix `n_tty_` left off the buffer functions. A failed
-- assertion, a panic and a use of NULL or of freed memory are the run `fault`, and so is the removal
-- from a list of what is not on it.
--
-- Bounds and fuel
--
-- `search` and the descent of `xremove` run on fuel, and the size of the tree is enough; so is one
-- round more than the length of the queue for `sched_broadcast_on`. The loop of `n_tty_read` goes by
-- its room, that of `dir_namev` by two more than the length of the path, and that of `get_empty_fd`
-- by the number of descriptors. The wait of `sched_switch` for an interrupt goes by the list of
-- interrupts that come. The ring buffer has its 128 places, a process its 32 descriptors, `size_t`
-- and `int` their 32 bits where `do_read` bounds a request; counters and positions are numbers
-- without a bound elsewhere, and a position is never negative.
--
-- The table of the in-memory file system has 64 places and a directory 128 entries; the search for a
-- free inode goes by the number of places. Reading a directory to its end takes at most one call more
-- than it has entries.
--
-- The search for a process number goes by PROC_MAX_COUNT, and that is enough for one round.
--
-- A page has 4096 bytes, a block at most 2 ^ 7 pages. `map_size`, `put_remainder`, `page_split` and
-- `page_join` go by the orders that are left, and each order is gone through once.
--
-- `strcmp` runs on fuel, and one round more than the first string has characters is enough.
--
-- What is not modelled
--
-- Of the functions on strings, only the comparisons are modelled, on bytes: what they return is cut to
-- eight bits, as the source does with its `signed char`.
--
-- Of the page allocator, the pattern that fills pages is left out. Ranges start and end at pages, and
-- a number of pages asked for is below 2 ^ 31, since the source takes it for an `int`. What
-- `slab_allocators_reclaim` gives back is an argument, and there is no shadow daemon.
--
-- Of the in-memory file system, a count of links is a number that stops at 0, though `rf_linkcount`
-- is an `int`. No page of a vnode is resident there, and the vnode that `vget` looks for is not on
-- its way in or out.
--
-- The file objects of all processes are one table. A process counts its own descriptors in it and, as
-- a function that is left open, the references that others have. `curproc` stands with the scheduler,
-- since a switch sets it.
--
-- Of a process, the name, the page directory and what the VM keeps are left out: the kernel is taken
-- as built with VM and MTP off. A thread that slept in `do_waitpid` goes through `wait_round` again.
--
-- In the database, C strings are values of a type with the laws of `strcmp`, and their copies into a
-- caller's buffer (the `strncpy` of `query`) are left out. `malloc` is given by what it returns. A
-- context switch ends an operation, and what runs after it is an operation of its own. Of a vnode the
-- open files use its number, type, length and `read` and record the calls of `vput`; the paths use
-- its operations and count the references to it, and what `vput` does with the last one is left out.
-- The rest of the kernel, the server of cs402 and the graphics of cs480 are not modelled: they are
-- input and output, glue, or left for later.
pub mod Base
pub mod Database
pub mod Files
pub mod Kmutex
pub mod Kshell
pub mod NTty
pub mod Names
pub mod Page
pub mod Proc
pub mod Ramfs
pub mod Sched
pub mod Strings
