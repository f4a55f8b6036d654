-- ===== src/Lib.antt =====
-- CSCC69, an operating systems course in C: a kernel module that intercepts system calls
-- (Assignment1), a simulator of paging with swap (Assignment2), and tools for ext2 images
-- (Assignment3).
--
-- Prelude: names of the libraries, Boolean tests, the C type int as an integer, lists, and the
-- digits of a word under `&`, `|` and `~`.
--
-- Interceptor: Assignment1/interceptor.c. `Interceptor.State` has the state that the module and
-- the kernel share (`mytable` is `Entry`, the globals and the system call table are `Kernel`)
-- and the monad of its functions: a call returns, spins for ever on a lock that is held already
-- (`deadlock`), or faults (`oops`: a null pointer, a store to the read-only table). Calls are
-- run one after another, so a lock that is taken while it is held was taken by the same call.
-- `Interceptor.Pids` has the list operations, `Interceptor.Commands` the functions
-- `interceptor` and `my_syscall` with one definition for each command of its switch, and
-- `Interceptor.Module` the functions `init_function` and `exit_function`. The process table,
-- the user and the success of `kmalloc` are the record `Caller`; NR_syscalls and
-- __NR_exit_group are the record `Config`. The counter `listcount` is an unbounded integer: it
-- counts list nodes, of which memory has fewer than 2^31. A handler that ends in a call through
-- a saved pointer returns that pointer. `Interceptor.Reach` has the states that the module
-- reaches, as a data type over single calls.
--
-- Swap: Assignment2/swap.c. `Swap.Bitmap` is the bitmap over 32-bit words, with failed
-- assertions as the outcome `abort`; `Swap.Slots` reads it as the set of used slots.
-- `Swap.Transfer` has `swap_pagein` and `swap_pageout` over the calls `lseek`, `read` and
-- `write`, which are a parameter (`FileCalls`); `IsFile` in `Swap.RoundTrip` states what of
-- their documented behaviour is used.
--
-- Paging: Assignment2/pagetable.c, sim.c and the replacement algorithms. `Paging.State` has
-- the globals (`Sim`), `Paging.Lookup` the functions from `allocate_frame` to `replay_trace`,
-- and `Paging.Policies` fifo.c, rand.c and clock.c, and lru.c and opt.c as they are called. A
-- page-table pointer is a pair of indices. The recursion of `clock_evict` takes fuel, one more
-- than there are frames: each call but the last clears the reference bit of a frame.
-- `Paging.References` and `Paging.Clock` are about clock, and `Paging.Reload` and `Paging.Hit`
-- about what `find_physpage` does on a miss and on a hit. The counters, each an `int`, are
-- numbers without a bound: an access raises each by 1 at most, and the theorems on whole
-- traces ask for so few accesses that they fit.
--
-- Paging.Serving: `find_physpage` over any replacement algorithm. `Mapped` is the agreement of
-- the page tables with the coremap, `Sound` the invariant of the simulator (`IsSound`) and the
-- contract of an algorithm (`IsPolicy`), which `Contracts` proves of FIFO, random and clock.
-- `Change`, `Evict`, `FreeFrame`, `Claim`, `Miss`, `Serve` and `Answer` follow the code from
-- the victim to the address, and `Locate` puts them together.
--
-- Paging.Simulator: `Main` is `main` of sim.c with `swap_init`, from the options as `getopt`
-- gives them to the counters (the record `System` has what libraries and system calls give,
-- and which allocations succeed; where `calloc` or `malloc` fails in `main`, the first access
-- of the trace ends the process, as a failure of `posix_memalign` does), `Print` is the
-- printing of the page tables, which reads each entry a byte off from where `find_physpage`
-- keeps it, `Replay` and `Complete` are about whole traces, `Printed` about what is printed.
--
-- Paging.Fifo: the simulator with fifo.c against a coremap and a pointer alone. `Place` is what
-- a reference does to these two, `Pages` which pages the coremap holds, and `Refine` a whole
-- trace. `Recent` is the order in which the frames are written, and `Queue` has the abstract
-- replacement, over the list of the pages loaded so far.
--
-- Paging.Lru: lru.c, with the nodes on a heap and the results of `malloc` as arguments; the
-- loops take fuel, more than the list has nodes. `Paging.Lru.Chain` has the lists on the heap,
-- and `Paging.Lru.Refine` the frames that they stand for.
--
-- Paging.Opt: opt.c, with the items of the trace as a list; `Paging.Opt.Init` reads them, with
-- the bytes of the file as fuel, `Paging.Opt.Best` is about the choice, `Paging.Opt.Times`
-- about what it reads.
--
-- Traceprogs: the two of Assignment2/traceprogs that multiply matrices. `Traceprogs.Loop` is
-- the loop of C that counts from 0, `Matmul` is matmul.c and `Blocked` is blocked.c, over any
-- addition and multiplication in place of those of `double`. The indices are natural numbers,
-- as the `int` of the code are while the number of places of a matrix fits one. `Standard` and
-- `InBlocks` are about the two multiplications, `Layout` and `Convert` about the conversions to
-- and from blocked storage, `Printing` and `Equivalence` about what is printed.
--
-- Ext2: Assignment3. The disk image is a memory, with addresses from its first byte, which
-- `mmap` puts at a multiple of the block size; the bitmaps are taken to lie in the 128 KB that
-- it maps, which the theorems on them ask for. `Ext2.Blocks` has the bitmaps of helper.c,
-- `Ext2.Directory` its searches through directory blocks and `create_link`, `Ext2.Inodes` the
-- globals with `init` and `remove_link`, `Ext2.Allocate` and `Ext2.Traverse` the functions of
-- these names, and `Ext2.Paths` str_helper.c. `Ext2.Free`, `Ext2.Search`, `Ext2.Init`,
-- `Ext2.Links` and `Ext2.Names` are about these; `Ext2.Lookup` and `Ext2.Resolve` are about
-- `traverse`. `Ext2.Create` is about `create_link`: `Bytes` and `Split` have the stores to an
-- entry, `Grown` and `Link` one directory block, `Dirs` and `Find` all of them with the search
-- for a name. The walk over a block takes as much fuel as the image has bytes: a longer walk
-- has left the image, or does not move. `Ext2.Tools` has a module for each of the six
-- programs, from the arguments to the exit code, and `Ext2.Tools.Errors` is about how they
-- fail. The results of `mmap`, `basename`, `stat`, `fopen`, `fread` and `time` are arguments,
-- as is the rest of a buffer that the code reads beyond what it wrote. Buffers for names are
-- taken to be long enough.
--
-- Ext2.Dump: readImage.c; its output is a record of what the lines show (`Output`).
-- `Ext2.Dump.Agree` compares it with `init`.
--
-- Not modelled: the rates that sim prints, which are floating point numbers; the removal of the
-- swap file (`swap_destroy`); the numbers that ext2_rm_bonus prints; the tests of the
-- interceptor, which are programs that run it on a live kernel; of the trace programs the
-- markers, the clock and the reading of the arguments, and fourDimArr.c and simpleloop.c, which
-- only touch memory.
pub mod Prelude
pub mod Interceptor
pub mod Swap
pub mod Paging
pub mod Traceprogs
pub mod Ext2
