-- ===== src/Lib.antt =====
-- A verification library for the kernel of this repository, an xv6 for RISC-V.
--
-- Parts of the program. The kernel keeps files on a disk of blocks. kernel/fs.c finds the blocks
-- of a file by its inode, with a bitmap of the blocks in use, and reads and changes them in
-- buffers of kernel/bio.c, which caches 30 blocks. kernel/log.c makes the block writes of file
-- system calls atomic over the cache: log_write() pins a changed buffer and lists its block,
-- commit() copies the listed blocks to the log, writes the log's header, copies the blocks to
-- their places and erases the header, and initlog() does the last two steps for a header that it
-- finds after a crash. kernel/proc.c keeps the table of processes, whose sleep() and wakeup() are
-- under the locks of kernel/spinlock.c and kernel/sleeplock.c, under the pipes of kernel/pipe.c, a
-- bounded queue between two ends, and under the reader of the console of kernel/console.c.
-- kernel/kalloc.c gives out pages of memory, and kernel/vm.c builds page tables from them, through
-- which the kernel reads and writes the memory of a process.
--
-- Files.
--   Prelude, Prelude/*   names of the library, tests on numbers, array updates, machine words.
--   Kernel, Kernel/Runs  kernel code as programs that return, panic, sleep for ever or lose the
--                        power, and total correctness with a condition on the disk of a crash.
--   Bio                  kernel/bio.c: binit, bget, bread, bwrite, brelse, bpin, bunpin, and the
--                        transfers of virtio_disk_rw(). Bio/Find, Bio/Cache, Bio/Change, Bio/Read are
--                        the invariant of the cache and the block it stands for; Bio/Spec, Bio/Hold,
--                        Bio/Give, Bio/Write, Bio/Release are a rule for each operation.
--   Log                  kernel/log.c: read_head, write_head, install_trans, write_log, commit,
--                        recover_from_log, initlog. Log/Words and Log/Header are the header block,
--                        Log/Area what a disk with a log stands for, Log/Two, Log/Copy, Log/Install,
--                        Log/Replay, Log/Head the loops, Log/Ready the states around a commit,
--                        Log/Commit and Log/Recover the two procedures, Log/Crash a power failure and
--                        the boots after it, Log/Power and Log/Returns the writes that they make.
--   Log/Ops              begin_op, log_write and end_op of kernel/log.c; Log/Ops/System the step
--                        relation on the operations in progress, Log/Ops/Absorb, Log/Ops/Steps and
--                        Log/Ops/Reserve what holds in it.
--   Pipe                 kernel/pipe.c: pipewrite, piperead, pipeclose and the data of pipealloc.
--                        Pipe/Fifo is the queue that a pipe stands for, Pipe/Write, Pipe/Read and
--                        Pipe/Order the two calls, Pipe/System any number of threads on one pipe.
--   Str, Str/*           kernel/string.c but memcpy: Str/Move is memset, memcmp and memmove, Str/Text
--                        and Str/Copy the functions on strings.
--   Kalloc               kernel/kalloc.c: kinit, freerange, kfree, kalloc. Kalloc/Words and
--                        Kalloc/Chain are the list in the free pages, Kalloc/Calls the two calls,
--                        Kalloc/Boot kinit, Kalloc/Owners any sequence of calls.
--   Proc                 kernel/proc.c: procinit, allocpid, freeproc, allocproc, userinit, kfork,
--                        kexit, kwait, reparent, wakeup, sleep, yield, scheduler, kkill, setkilled,
--                        as changes of the table. Proc/Steps is the step relation, Proc/Inv what holds
--                        in it, Proc/Reachable and Proc/Wait what follows.
--   Spin                 kernel/spinlock.c, in steps. Spin/System is the step relation on any number of
--                        CPUs, Spin/Held, Spin/Mutex and Spin/Exclusion what holds in it, Spin/Nest
--                        the nesting of push_off and pop_off.
--   Sleep                kernel/sleeplock.c, with Sleep/Exclusion on any number of processes.
--   Fs                   kernel/fs.c below the directories: bzero, balloc, bfree, bmap, itrunc, iupdate and
--                        the part of ilock that reads the inode. Fs/Bits and Fs/Search are the
--                        bitmap, Fs/Alloc the allocator, Fs/Slots the blocks of an inode, Fs/Entries and
--                        Fs/Map are on bmap, Fs/Drop, Fs/Clear and Fs/Trunc on itrunc, Fs/Dinode on
--                        the copy on disk.
--   Fs/Content           readi and writei of kernel/fs.c. Fs/Content/Bytes is the bytes of a file,
--                        Round, Loop and Write below it are on writei, Limit on the blocks that a write
--                        of filewrite() in kernel/file.c may log, and Read on readi.
--   Fs/Dir               namecmp, dirlookup and dirlink of kernel/fs.c, dirlink where the name is new, over
--                        kernel memory. Fs/Dir/Entry is the read of an entry, Fs/Dir/Lookup and Fs/Dir/Get dirlookup,
--                        Fs/Dir/Empty and Fs/Dir/Link dirlink.
--   Fs/Table             iget and idup of kernel/fs.c, on the table of inodes.
--   File, File/Refs      filealloc, filedup and fileclose of kernel/file.c, and the counts of references.
--   Vm                   kernel/vm.c but kvmmake and the registers: walk, walkaddr, mappages, kvmmap,
--                        uvmcreate, uvmunmap, uvmalloc, uvmdealloc, freewalk, uvmfree, uvmcopy, uvmclear,
--                        ismapped. Vm/Ptes and Vm/Walk are the fields and the look-up, Vm/Tree the pages
--                        of a page table and a new one among them, Vm/Space a page table beside the
--                        free pages, Vm/Space/Map and Vm/Space/Maps mappages.
--   Vm/Copy              vmfault, copyout, copyin and copyinstr of kernel/vm.c; Vm/Copy/Frame is what a
--                        process reads through its tables, Vm/Copy/Text copyinstr.
--   Console              consputc, consoleintr and consoleread of kernel/console.c; Console/Edit is the
--                        line that is typed, Console/Line the reader.
--
-- State. A struct is a record, an array a function of the index, a pointer to a buffer or a table
-- entry its index, the linked list of the cache a list of indices, that of the free pages the
-- words in them. An unsigned or int field is kept as its 32-bit word, with the wrap-around written
-- out. A block is its bytes by offset. Fs works on the blocks as the running transaction sees
-- them, where bread() is a read and log_write() with brelse() a write, without the panics of
-- bget() for want of a buffer and of log_write() for want of room in the log; Bio and Log are on
-- the two layers that give this view.
--
-- Bounds. The loops over log.lh.n are recursion on their number of rounds, which is 0 for a
-- negative int; memset() and strlen() are for fewer than 2^31 bytes; the loops of a pipe and of
-- consoleread() are recursion on the bytes that are left, and those of balloc() on the blocks of
-- the bitmap and the bits of a block. Fuel is used in freerange(), with a round for each page
-- below the end; in readi() and writei(), with a round for each byte, where each round moves a
-- byte or more; in consoleintr() for control-u, with a round for each place of the ring; and in
-- strlen(), for which it is an argument, with a round for each byte up to the 0. It is also used
-- in mappages(), uvmunmap(), uvmalloc() and uvmcopy(), with a round for each page and one or two
-- more; in copyin(), copyout() and copyinstr(), with a round for each byte; in dirlookup() and
-- dirlink(), with a round for each entry and two more; and in freewalk(), with the three levels of
-- a tree. The size of the file system is below 2^31 blocks. A run on the disk has a number of
-- writes that the device completes, and loses the power at the next one, so a crash at any write
-- is a choice of that number; one write of a block is atomic. nextpid stays below 2^31 and does
-- not wrap around. Shared memory is sequentially consistent.
--
-- Not modelled. The cache is used by one process at a time, and a lock is taken and released
-- within a call; between the calls of a pipe, the critical sections of the log, of the process
-- table and of the sleep locks, and the steps of the spin locks all orders are considered. An
-- inode is that of one process, which has its lock: iput() and so the case of dirlink() that finds
-- the name, ialloc(), ireclaim() and paths of kernel/fs.c are not modelled, and neither are
-- fileread(), filewrite(), filestat(), kvmmake(), the register satp, traps, devices, the rest of
-- the console and printf(), and the user programs. Memory, files and saved registers of a process
-- are not in the process table. The memory of a user process is a parameter of pipewrite,
-- piperead, readi, writei and consoleread, in place of copyin(), copyout(), either_copyin() and
-- either_copyout(). Messages on the console are left out.
mod Prelude
pub mod Kernel
pub mod Bio
pub mod Log
pub mod Pipe
pub mod Str
pub mod Kalloc
pub mod Proc
pub mod Spin
pub mod Sleep
pub mod Fs
pub mod Console
pub mod File
pub mod Vm
