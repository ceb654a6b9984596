-- ===== src/Lib.antt =====
-- A kernel for RISC-V in the style of xv6 whose processes live in nested pid namespaces.
--
-- The program. kernel/proc.c keeps a table of 64 processes and a table of 64 namespaces. `fork`
-- makes a process in the namespace of its parent, `clone` makes one in a new namespace below it. A
-- process of depth d has d + 1 pids, one for each namespace from its own up to the root, and a
-- global one. `exit` hands the children of a process to the head of a namespace, `wait` collects a
-- child that has exited, `scheduler`, `yield`, `sleep`, `wakeup` and `kill` move processes between
-- states, and `ps_list` lists the processes of a namespace and of those below it. The process code
-- calls the page allocator, page tables, open files, inodes and the log. kernel/kalloc.c hands out
-- pages, kernel/pipe.c moves bytes between processes, kernel/string.c works on memory. kernel/fs.c
-- keeps files, directories and the inodes in memory on blocks of a disk. kernel/bio.c caches these
-- blocks, and kernel/log.c makes the writes of a system call take place together; a buffer is
-- protected by a lock of kernel/sleeplock.c, and shared data by those of kernel/spinlock.c.
--
-- The files.
--   Base               names of the libraries, Boolean tests, lists, tables as functions, 32 bits
--   Proc               struct proc, struct namespace and the globals of kernel/proc.c
--   Proc.Services      the calls from kernel/proc.c into the other files of the kernel
--   Proc.Namespaces    allocpid, allocnamespaceid, allocnamespace, compare_ns, get_ns_head and the
--                      loop of allocproc that numbers a process
--   Proc.Levels        the tree of namespaces; Numbering, Walks: what the three loops come to;
--                      Stable: what changes of the table keep
--   Proc.Alloc         allocproc and freeproc; Keeps, Born: their theorems
--   Proc.Sched         scheduler, yield, sleep, wakeup, kill, setkilled, killed; Keeps:
--                      lemmas; Turns: the theorems
--   Proc.Fork          fork and clone; Keeps, Graft, Child: lemmas; Forked, Cloned, Refused,
--                      Succeeds: the theorems
--   Proc.Exit          reparent, exit, wait; Keeps: lemmas; Reparent, Exited, Waited: the theorems
--   Proc.PsList        ps_list of kernel/proc.c, sys_getpid and sys_getppid of kernel/sysproc.c;
--                      Listing: the theorem
--   Proc.PsInfo        ps_info of kernel/proc.c; Layout: the theorem
--   Proc.Boot          procinit, namespaceinit, userinit; Started: the theorem
--   Proc.Inv           the invariant of the two tables; Carry, Add, Quiet: changes that keep it
--   Proc.Reach         the steps of the system; Views: what a process learns of the others
--   Proc.Examples      concrete states; Deep, Nested: nested namespaces; Witnesses,
--                      Progress, Report: the theorems there
--
--   Kalloc             kinit, freerange, kfree, kalloc; Pages: the list of free pages; Start: kinit
--   Vm                 walk, walkaddr, mappages and uvmunmap of kernel/vm.c; Tree: page tables as
--                      trees; Cell: a write to an entry; Grow, Space: new tables; Walk, Map, Address,
--                      Unmap: the theorems; Resize: uvmdealloc and uvmalloc; Frames,
--                      Growth: uvmalloc; Growproc: growproc of kernel/proc.c
--   Strings            kernel/string.c; Move: memset, memmove; Compare: strncmp, memcmp, strlen;
--                      Copy: safestrcpy, strncpy
--   Pipe               the ring, pipewrite, piperead, pipeclose; Ring: the ring as a list of bytes;
--                      Transfer: pipewrite; Reading: piperead
--   Locks              kernel/sleeplock.c
--   Spinlocks          kernel/spinlock.c; Exclusion: processors interleaved; Nesting: push_off and
--                      pop_off
--   Bio                the linked ring of buffers, binit, bget, bread, bwrite, brelse, bpin, bunpin;
--                      Links: the ring as a list; Scan: its two searches; Cache, Start: the theorems
--   Log                kernel/log.c; Install, Recovery, Commit: a commit write by write;
--                      Reservations: begin_op, log_write, end_op
--   Fs                 balloc, bfree, bmap, itrunc and readi of kernel/fs.c; Bitmap, Bmap, Freed,
--                      Trunc, Content: the theorems
--   Inodes             iget, idup, ilock, iunlock, iput and iupdate of kernel/fs.c; Table: iget; Put:
--                      iput
--   Paths              skipelem of kernel/fs.c; Names: the names of a path
--   Dirs               namecmp and dirlookup of kernel/fs.c; Entries: the search; Lookup: dirlookup
--   Files              filealloc, filedup and fileclose of kernel/file.c, pipealloc of kernel/pipe.c,
--                      argfd, fdalloc, sys_dup, sys_close and sys_pipe of kernel/sysfile.c; Counted:
--                      references; Behind: what stands behind a file; Table, Calls, Ends, Undo,
--                      SysPipe: the theorems
--   (Kalloc, Vm, Strings, Pipe, Spinlocks, Bio, Log, Fs, Inodes, Paths, Dirs,
--   Files).Examples    concrete states
--
-- State. `Kernel M` holds the two tables as functions of the index, the counters, and the state
-- `M` of the other parts of the kernel. A pointer into a table is an index, and the null pointer
-- is `none`. An operation takes the state and gives back the new one; where the source would use a
-- null pointer or panic, its result is `none`. An operation that gives the processor up is
-- modelled in two parts, before and after `sched`; the endless loop of `wait` is modelled by its
-- passes, that of `scheduler` by its rounds, and so are the waiting loops of `pipewrite`,
-- `piperead`, `begin_op` and `acquiresleep`. Memory is bytes in Strings and 64-bit words in
-- Kalloc. A disk block is its 32-bit words in Log, where the buffers hold for each block what
-- `bread` finds, and a trail of the disk after each write serves to speak of crashes; in Bio the
-- contents of a block are any type.
--
-- In Fs a buffer of the kernel is the list of its bytes, with places counted from its start; the
-- bitmap is one bit for each block, and a block the 256 numbers that it holds; the boot
-- block is taken to be in use. Inodes has the inodes of the disk by number. In Paths a C string is
-- the list of its bytes, and a pointer into it a list of those that are left. In Spinlocks a step
-- is one access of a processor to the lock, and a run a list of processors.
--
-- Bounds. The unsigned clocks wrap at 32 bits. Pids, namespace ids and the exit status are natural
-- numbers: the overflow of these ints is not modelled, nor is that of `noff`. The loops over a
-- table are structural recursion. `scan` in Bio runs on fuel 31, one more than there are buffers,
-- and `free_loop` in Kalloc on one more than there are pages below PHYSTOP; `strlen` is given its
-- fuel. The counters of a pipe, `refcnt` and `outstanding` wrap at 32 bits, and the references to
-- an inode are the 32 bits of an int. `names` in Paths is given its fuel: more than there are
-- names is enough. The loop of `readi` has one round more than the bytes it reads, and the search
-- of a directory one more than its size. The two loops along the parents of a namespace run on
-- fuel 64, and a namespace that a process lives in has fewer than 8 ancestors, so it is enough.
-- The loop of `mappages` runs on fuel one more than there are pages below MAXVA, and that of
-- `uvmalloc` two more than there are whole pages in the new size.
--
-- In Vm memory is the words of Kalloc. The flags of an entry are below bit 10 and its address has
-- none of them, so `or` is a sum. In PsInfo what stands in memory behind a string is a parameter.
-- In Files the channels that are woken are listed in order, and `others` counts the references
-- that are held elsewhere than by the descriptors of the caller.
--
-- What is not modelled. The interleaving of two calls on two processors, but for those on a spin
-- lock in Spinlocks: elsewhere a call up to `sched` is one step. Waits inside `begin_op` and the
-- file system. `Services` holds what the other files of the kernel do, with nothing assumed of it
-- but that those calls do not write to the two tables, and that a page from `kalloc` is filled
-- with 5. In `First` the same holds of what `userinit` calls. Torn or reordered writes of a disk,
-- other devices than one, and the contents of blocks that are not in the log. The rest of
-- kernel/vm.c: `uvmcreate`, `uvmfirst`, `uvmclear`, `uvmfree`, `uvmcopy`, `freewalk`, `copyin`,
-- `copyout`, `copyinstr` and the page table of the kernel. `filestat`, `fileread` and `filewrite`
-- of kernel/file.c, and the other calls of kernel/sysfile.c. `writei`, `dirlink`, and the steps of
-- `namex` but for the names. The other files of the kernel, the devices, the assembly and the user
-- programs are left out, as is `procdump` of kernel/proc.c.
pub mod Base
pub mod Log
pub mod Kalloc
pub mod Vm
pub mod Locks
pub mod Spinlocks
pub mod Bio
pub mod Strings
pub mod Fs
pub mod Inodes
pub mod Paths
pub mod Dirs
pub mod Files
pub mod Pipe
pub mod Proc
