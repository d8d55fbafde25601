-- ===== src/Lib.antt =====
-- xv6 for RISC-V with 2 MiB superpages: the page-table lab of CSCI 5103.
--
-- The kernel gives each process a three-level page table (kernel/vm.c). The pages it maps come from
-- one of two allocators in kernel/kalloc.c: a list of free 4096-byte pages, linked through the pages
-- themselves, and a stack of 60 free 2 MiB superpages below PHYSTOP. `uvmalloc` grows a process with
-- superpages where an aligned 2 MiB is asked for and with pages elsewhere. The file system writes its
-- blocks through a redo log (kernel/log.c).
--
-- Common: numbers, bits, lists. Riscv: the macros of kernel/riscv.h and kernel/memlayout.h on
--   addresses and entries, and their arithmetic (Riscv.Address, Riscv.Pte).
-- Memory: physical memory as bytes, with 64-bit little-endian words. Machine: memory, the free list
--   and the superpage pool as one state, and the outcomes of a call: a result, a panic, or no end.
-- Kalloc: kalloc, kfree, freerange, kinit, superinit, superalloc, superfree of kernel/kalloc.c.
--   Kalloc.FreeList states the list that the free pages form in memory, Kalloc.Pages what kinit
--   builds, Kalloc.Pool the stack.
-- Vm: kernel/vm.c in the files Walk (walk, superwalk, walkaddr, pgpte), Map (mappages,
--   supermappages, uvmunmap), User (uvmcreate, uvmfirst, uvmalloc, uvmdealloc, freewalk, uvmfree,
--   uvmcopy, uvmclear), Transfer (copyout, copyin, copyinstr), Print (vmprint). Vm.Sv39 says,
--   independently of kernel/vm.c, which physical byte the hardware reaches for a user access: the
--   theorems compare the functions with it. Vm.Rounding and Vm.Shrink are about `uvmdealloc`.
-- Cstring: kernel/string.c on byte memory; Cstring.Compare is memcmp and strncmp, Cstring.Copy strncpy.
--   Machine uses memset and memmove as one step, in the words of Memory.fill and Memory.copy.
-- Pipe: the rounds of the loops of kernel/pipe.c, each one step under the lock. Pipe.Fifo relates the
--   ring and its 32-bit counters to a queue of bytes.
-- Proc: kernel/proc.c. Proc.Table has the functions on the process table, Proc.Life those that also
--   take and free memory, on Machine; Proc.Steps is one step of the system after another, in any order,
--   and Proc.Parents and Proc.Wakeups the invariant of the table and who is woken. A sleeping channel is
--   the address of an entry or of another object. `exit` starts where it takes `wait_lock`; what closes
--   the files before that does not touch the process table.
-- Spinlock: kernel/spinlock.c, one memory access at a time, but for the loads of `holding`, which are one
--   step, in `release` with the store behind them. Spinlock.Steps lets any number of CPUs run
--   in any interleaving; Spinlock.Nesting is `push_off` and `pop_off`. Sleeplock: kernel/sleeplock.c.
-- Bio: kernel/bio.c. Bio.Steps is one step of the cache after another, Bio.Blocks what holds after
--   each, Bio.Getting what `bget` gives.
-- Console: `consoleintr` and the rounds of `consoleread` in kernel/console.c, against a line editor
--   that hands its lines to a queue (Console.Input).
-- Uart: the ring of kernel/uart.c; the registers of the device are arguments. Uart.Sending is the
--   order of the characters, Uart.Draining what interrupts achieve.
-- Printf: `printint` of kernel/printf.c. Grep: the matcher of user/grep.c, and the language of its
--   patterns.
-- Ulib: strcmp, strchr and atoi of user/ulib.c.
-- File: the reference counts of open files (kernel/file.c). Fs: kernel/fs.c. Fs.Itable is the table of
--   inodes in memory, under its operations in any order in Fs.References. Fs.Blocks is the bitmap of blocks,
--   Fs.Bmap the blocks of an inode, Fs.Content `readi`, `writei` and `iupdate`, Fs.Truncate `itrunc` and
--   `ialloc`, Fs.Directory `dirlookup`; Fs.Bitmap and Fs.Slots say what they mean, the blocks in use and
--   the bytes of a file. The disk there is what the buffer cache shows, one block at each number.
--   `either_copyin` and `either_copyout` are arguments of `writei` and `readi`.
--   Fs.Path and Fs.Spelling are `skipelem` and the names that a path spells.
-- Log: kernel/log.c on a disk with a buffer cache in front of it. Log.Store is the disk, Log.Code
--   the functions, Log.Replay the blocks that a disk means once its log is replayed; Log.Ends says what
--   holds of a run whether it ends or power fails. Log.Ops is begin_op, end_op and log_write,
--   Log.Reserved their states with the blocks that each operation may still write, and Log.Space what they end in.
--
-- Loops run on fuel, which the definitions give themselves: a round for each page of the range and
-- one for the last test. A loop that ran out would end in `hang`, which is no result; the theorems
-- state results. The loops of kernel/fs.c and kernel/uart.c get a round for each byte, entry or character, and
-- one for the last test; they give `none` where they would run out. Recursion in `freewalk` and `vmprint` has depth 3, the levels of a table.
--
-- Vm.Sv39 has the faults of the hardware on a misaligned superpage and on a reserved entry. `nextpid` is a
-- 32-bit int and wraps. The ranges that `readi` and `writei` copy to and from are taken to end below 2 ^ 64.
--
-- Addresses of kernel/vm.c are 64-bit words: sums wrap where the source's can. The end of the kernel's image, the
-- linker's symbol `end`, is a parameter. Spinlocks bracket each access to an allocator and make it
-- one step. A write to the disk is atomic, and power can fail before any of them.
--
-- Not modelled: the kernel's own page table, built once at boot, traps and the assembly, the driver
-- of the disk, the set-up of the serial port, the formats of printf, `dirlink` and the lookups of `namex`
-- in kernel/fs.c, program loading, the system calls, and the other user programs.
pub mod Common
pub mod Riscv
pub mod Memory
pub mod Machine
pub mod Kalloc
pub mod Spinlock
pub mod Sleeplock
pub mod Vm
pub mod Log
pub mod Cstring
pub mod Pipe
pub mod Proc
pub mod File
pub mod Fs
pub mod Bio
pub mod Console
pub mod Uart
pub mod Printf
pub mod Grep
pub mod Ulib
