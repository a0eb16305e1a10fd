-- ===== src/Lib.antt =====
-- A verification library for ckit, the parts of pkg/rbase.
--
-- ParseInt models pkg/rbase/parseint.c and parseint.h: `_parseu64` is `parse_to`, and the callers
-- keep their names. A text is a part of a memory that ends somewhere behind it. Str models pkg/rbase/str.c and str.h: a string is its header with the bytes
-- allocated behind it, and each `str_` function is the operation of that name. The allocator is the
-- parameter `Malloc`.
--
-- MemLinear models pkg/rbase/mem_linear.c as a "safe" build runs it: `mla_alloc`, `mla_realloc` and
-- `mla_free` are `alloc`, `realloc` and `free`, `MemLinearAlloc`, `MemLinearReset` and
-- `MemLinearFree` are `init`, `reset` and `free_all`. Blocks have their addresses, and pages come
-- from the parameter `map`, of which it is assumed only that it hands out addresses that are not in
-- use.
--
-- Arena models pkg/rbase/mem_arena.c: `MemArenaShimInit`, `MemArenaShim_alloc`,
-- `MemArenaShim_realloc`, `MemArenaShim_free` and `MemArenaShimFree` are `arena_init`,
-- `arena_alloc`, `arena_realloc`, `arena_free` and `arena_free_all`. The allocator below is a
-- parameter without any assumption. Mem models `memdup2` and `memstrdup` of pkg/rbase/mem.c,
-- Mem/Wrapper its `MemSyncWrapper` and the handles of mem.h, and Mem/Page pkg/rbase/mem_page.c,
-- over a system whose calls are a parameter with what the manuals say of them.
--
-- Chan models pkg/rbase/chan.c: `ChanSend` and `ChanTrySend` are `send` with and without blocking,
-- `ChanRecv` and `ChanTryRecv` are `recv`, and `ChanClose` is `close`. A call is one step up to its
-- end or to where its thread sleeps, since it works on the channel under a lock; the tests before
-- the lock only read. Chan/Runs lets any threads make any calls one after the other. The two loops
-- of `ChanClose` have fuel for each thread that is parked. Not modelled: the lock and the
-- semaphore, on which this rests. Chan/Memory has the addresses in the block that `ChanOpen`
-- allocates.
--
-- Path models pkg/rbase/path.c, whose functions keep their names, for paths with slashes. A C
-- string is its bytes without the zero, and the working directory is an argument. Not modelled:
-- `path_dir_mut`, which calls the C library.
--
-- RwMutex models `rwmtx_t`, and Once `r_sync_once`, both of pkg/rbase/thread.c and thread.h. Mutex
-- models `HybridMutex` and, in Mutex/Spin, `SpinMutex` of pkg/rbase/thread_spinmutex.c and
-- thread.h, and LSema the semaphore of that name of pkg/rbase/thread_sema.c. Pool models `PoolAdd`
-- and `PoolTake` of pkg/rbase/pool/pool.c; who has which entry is written down beside the memory.
-- In these each thread has its place in the code (`Pc`), and a step (`Move`) is one access of one
-- thread to what they share; any threads make steps in any order (`Reach`). The memory is
-- sequentially consistent, but for the loads of Mutex, which the code makes with relaxed order: they
-- answer anything, and exclusion does not rest on them. So nothing is said of when a thread that
-- waits for a mutex is woken. The locks and semaphores of the system are flags and numbers. Sema
-- models the semaphores of pkg/rbase/thread_sema.c as they are built for Unix, and `msleep` of
-- pkg/rbase/time.c, over a system that is a parameter. Not modelled: the bindings of thread.c to
-- the system.
--
-- Sha1 models pkg/rbase/util_sha1.c with its rounds; what is said of a digest is said on top of
-- `sha1_transform`, whose own constants and rounds only a test vector looks at. Hash models
-- pkg/rbase/hash.c and Unicode pkg/rbase/unicode.c, whose functions keep their names. Hex models
-- `fmthex` of pkg/rbase/util.c, and Str/Hex `str_appendhex`.
-- Str/Format has `str_appendfmtv` over the parameter `vsnprintf`, Str/Repr `str_appendrepr`,
-- Str/Split `str_splitn`, Str/Compare `str_eq` and `str_hasprefixn`, and Str/Order `str_cmp`.
--
-- Writer models the `Writer` of pkg/rbase/util_io.c: `WriterFlush`, `WriterClose` and `WriterWrite`
-- are `writer_flush`, `writer_close` and `writer_write`. What the system does in `write` and
-- `close` is a parameter, of which it is assumed that it fails or takes one byte at least.
--
-- Fs models `fs_mkdirs` of pkg/rbase/fs.c over a file system that is a parameter. Testing models
-- `testing_add_test` and `testing_main` of pkg/rbase/testing.c; what a test does is a parameter.
--
-- Reader models the `Reader` of pkg/rbase/util_io.c over a system that is a parameter.
--
-- Not modelled: what only calls the system (os, `fs_readdir`, the clocks of time), mpscq, the tests
-- and benchmarks, and the copy of libbacktrace.
--
-- Base holds what they share: Boolean tests, lists measured by native numbers, machine words,
-- stores into a buffer, and `Outcome`, which tells a return from a failed assertion (`panic`) and
-- from undefined behaviour such as a store outside of a buffer (`fault`). A word is a number, with
-- its wrap-around written out.
--
-- Loops recur on the text or the list that they read, on an index that counts down, or on the room
-- that is left in the buffer that they fill (20 bytes in `str_appendu64`). Fuel is taken by
-- `close`, by the loop of `sha1_update` (the bytes of its input, of which each turn takes 64) and
-- by the loop of `sha1_final` that pads (64, the bytes of a block), and by the loop of
-- `writer_write` (one turn for each byte of the input and two more). So does the caller of
-- `str_splitn` in Str/Split (a call for each byte and two more), the outer loop of `str_appendrepr`
-- (34 turns, of which two are enough), the loop of `str_appendfmtv` (3 turns, of which two are
-- enough), the caller of `ReaderRead` in Reader/Whole (a call for each byte and one more), and the
-- waits of Sema (a turn for each signal that interrupts, and one more). `mkdirs` has fuel for its
-- calls and turns, of which two are enough to come to an end, and the loop of `testing_main` has a
-- turn for each test and one more.
pub mod Base
pub mod ParseInt
pub mod Str
pub mod MemLinear
pub mod Arena
pub mod Mem
pub mod Chan
pub mod Path
pub mod RwMutex
pub mod Mutex
pub mod Once
pub mod LSema
pub mod Sema
pub mod Pool
pub mod Sha1
pub mod Hash
pub mod Unicode
pub mod Hex
pub mod Writer
pub mod Reader
pub mod Fs
pub mod Testing
