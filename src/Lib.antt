-- ===== src/Lib.antt =====
-- mlibc-glibc-compat, a shared library that lets programs built for glibc run on mlibc: a model of
-- its own logic, and what is proved of it.
--
-- The parts, and how they work together. A call of a pthread function asks `is_glibc_caller`
-- (src/caller.cpp) which library its caller was built for, since the two keep the type of a mutex
-- in different places. The mutexes and condition variables (src/mlibc_thread.cpp) wait and wake by
-- `sys_futex_wait` and `sys_futex_wake` (sysdeps/linux/generic.cpp, sysdeps/managarm/generic.cpp),
-- on Linux by way of the library's own `syscall` (src/misc.cpp). The thread attributes and
-- `pthread_create` (src/thread.cpp), the character tables (src/ctype.cpp), the functions of
-- src/misc.cpp and the iconv stubs (src/iconv.cpp) stand by themselves.
--
-- Which file models which part:
-- - Prelude: shared names and tests; Prelude.Int holds signed integers, the wrap-around and the
--   signed bit-fields; Prelude.Lists holds lists over the native numbers and functions changed at
--   one point.
-- - Errno: error codes, and `Outcome`, which tells a return from the end of the program by
--   `__ensure` (src/utils.hpp). The assert of src/caller.cpp has its own value there.
-- - Mutex: `struct Mutex`. Mutex.Lock, Mutex.Trylock and Mutex.Unlock hold the three calls as
--   step functions, one access of the shared state at a time, with the local variables in a
--   program counter. Mutex.Alone runs them to the end for one thread, also at the last recursion
--   level (Overflow); Mutex.Init is initialisation; Mutex.Attr holds the attributes, whose constants of <pthread.h> are
--   parameters.
-- - Threads: any number of threads, interleaved at these steps. A step relation has three moves:
--   a thread enters a call, makes a step, or has its wait ended by nothing. Threads.Invariant
--   says what holds in between, Threads.Turn and Threads.Steps that each step keeps it,
--   Threads.Safety what follows in every state, and Threads.Progress, Settling, Handover and
--   WaitFree how a call comes to its end. Threads.Rounds is about schedules of any system with a
--   measure that falls; Threads.Schedule gives the measure for these calls, and its child Fairness
--   what fair rounds lead to. Threads.Refinement compares the steps with those of a lock that is
--   acquired and released at once.
-- - Threads.Waits: any number of threads that share a condition variable as well. A wait is the
--   phases of `__pthread_cond_timedwait_internal` around the unlock and the lock of Threads, and a
--   broadcast two steps, the count and the wake. Threads.Waits.Invariant says what holds of each
--   thread, Whole of all of them, Acting and Steps that each move keeps it. Stages is a condition
--   variable whose operations are single steps, with which Refinement compares the moves. Schedule
--   is Threads.Schedule for waits and broadcasts with the mutex calls.
-- - Api: mutex functions as a program calls them, from addresses in its images, with the question of
--   `is_glibc_caller` in front. Api.Verdicts compares a program with one for which nothing is
--   remembered, by Caller.Transparent, and Api.Types follows a mutex from its type to its locks.
-- - Cond: `struct Cond`, broadcast and signal; Cond.Attr the attributes; Cond.Wait
--   `__pthread_cond_timedwait_internal` as a loop over rounds, where a round holds what the
--   unlock, the clock, the futex and the lock answer, and the sequence number that is read last. Cond.Expiry holds how
--   a deadline ends it.
-- - Caller: `is_glibc_caller`. What `dladdr1` finds, the memory of the image, the test for the
--   prefix "GLIBC_" and the hash map are parameters; the map has two laws, the
--   association list in Caller.AssociationList has them.
-- - ThreadAttr: `wrap_attr_t` and its functions; ThreadAttr.Create the calls of the real library
--   that `__pthread_create` makes, in order.
-- - Sysdeps: the results of the futex calls, and what Managarm's `Guard` does;
--   Sysdeps.RawSyscall the assembly of `syscall`, and Sysdeps.Recovery a wait on top of it.
-- - Forward: the functions of src/chk.cpp, src/alias.cpp and src/lfs64.cpp, each a call of the libc,
--   and of src/alias.cpp the assembly's jumps (Jumps) and the second names of the 2023 standard
--   (Isoc23). Names has the names by which they are exported, Naming how glibc makes such a name, and
--   Parameters compares the call with the exported name and the function's own parameters.
-- - Misc: src/misc.cpp. CloseRange, CpuCount, SendFile, Syscall and EpollTimeout hold the
--   functions of these names; Locale `newlocale`, `duplocale` and `freelocale` over a heap;
--   RawMemchr the search with no end; Startup `__libc_start_main`; Stubs the functions that return
--   a constant or an argument, make one call, or jump.
-- - Ctype and Iconv: the files of these names; Iconv.Words has the pointers and counters of `iconv` in memory.
-- Each part has a module Tests with concrete runs.
--
-- Bounds and fuel. An `unsigned int` is a number below 2^32, with its wrap-around written out, and
-- pointers have 64 bits. A thread id is from 1 to 2^30 - 1, the bits that the owner has in the
-- state word. `long` and `time_t` sums and differences are taken without overflow. A lock that runs
-- alone has four rounds and an unlock three: alone, a call makes each of its accesses once at most
-- and then returns or waits. The walk over the auxiliary entries has fuel, more than the names of
-- any one entry; `close_range` has one round more than there are descriptors; the loops of the
-- condition variables and of `sendfile` run over the rounds that they are given. Schedules of `n`
-- threads have a bound of the order of n^2 steps in mutex calls and of n^3 with the condition: the
-- word changes four times at most for each unlock under way, and between two changes a thread has six
-- steps at most.
--
-- What is assumed. Accesses of the state word are sequentially consistent; `__ATOMIC_ACQUIRE` and
-- the others are not told apart. In Threads a wake reaches every sleeper and succeeds, and a
-- program unlocks only what it has locked, locks again only where the type allows for it, and
-- holds fewer than 2^32 levels. In Threads.Waits, moreover, a program waits with the mutex
-- locked, more than once only if it is recursive to the caller, on a condition that is not shared between processes and with a deadline that is
-- valid; the clock can be read; and the sequence number does not wrap. The futex gives its
-- documented answers there: EAGAIN where the word has changed, and for no reason 0, EINTR, or ETIMEDOUT
-- where there is a deadline. Sysdeps has what the two systems make of these, and what then fails. A read outside of a
-- table or a set gives 0. `lseek` succeeds.
--
-- What is not modelled: the lookup of the real functions by `dlsym`; names given by `gnu::alias`
-- to pthread functions, which have no code of their own; messages; the build, and mlibcify.sh, which patches binaries.
pub mod Prelude
pub mod Errno
pub mod Mutex
pub mod Threads
pub mod ThreadAttr
pub mod Cond
pub mod Ctype
pub mod Sysdeps
pub mod Caller
pub mod Api
pub mod Forward
pub mod Misc
pub mod Iconv
