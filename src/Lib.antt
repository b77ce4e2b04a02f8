-- ===== src/Lib.antt =====
-- A kernel for teaching: threads and their scheduler, semaphores and locks, a timer, a page
-- allocator, a file system and a swap device, and the C library that they use. The models stand
-- beside the sources of src/.
--
-- Parts and files:
--   * Base.antt and Base/: shared helpers. Boolean tests of numbers, lists over native numbers,
--     Option chains with `assert`, and the bits of a number.
--   * Bitmap.antt models src/lib/kernel/bitmap.c: `Bitmap` is `struct bitmap`, with the list of its
--     32-bit elements. Bitmap/View.antt reads it as a function from bit numbers to Booleans, and
--     Single, Range and Scan are about the operations on one bit, on a range, and the search for a
--     group of bits.
--   * Palloc.antt models src/threads/palloc.c on top of the bitmap: two pools and the bytes of
--     memory. Palloc/Get.antt, Free.antt and Apart.antt are about requests, releases and both.
--   * LinkedList.antt models src/lib/kernel/list.c on a heap of `prev` and `next` links.
--     LinkedList/Links.antt says when a list of addresses is linked in a heap; Insert, Remove, Queue,
--     Walk, Ordered and Shared are about the operations.
--   * Kernel.antt holds the state that src/threads/thread.c, src/threads/synch.c and
--     src/devices/timer.c share. Threads, semaphores and locks are named by address; the lists
--     through `elem` members are lists of threads, and the lists of locks are a heap of links, since two
--     threads can push the same `lockElem`. Kernel/Sched.antt, Sync.antt and Timer.antt have
--     the operations of the three files. A call that sleeps leaves a `Frame`, from which
--     `continue_frame` goes on when its thread runs again. Kernel/Invariant.antt says on which list
--     a thread may stand and with which status. Keep, Wake, Block, Order, Sleep, Due, Tick, Exit, Locks
--     and Acquire are about the operations, Create has both parts of `thread_create`, Race about an interrupt inside
--     `timer_sleep`, and Queue about the sleep queue as a linked list.
--     Kernel/System.antt lets the threads run: a step is a call of a thread, the next part of a call
--     that was left, a preemption or a timer interrupt, and `Reach` holds of the states that allowed
--     steps lead to. Its children carry the invariant of the system through each step: Owners,
--     Down and Steps hold what they share, Wakes, Leaves, Resume and Continue are about the steps,
--     Safety about all runs.
--   * Intq.antt models src/devices/intq.c, the circular buffer between threads and interrupt handlers;
--     it blocks and wakes threads through the scheduler. Intq/Fifo.antt reads it as a queue of bytes.
--   * FileSystem/Device.antt models src/devices/block.c: a device keeps its sectors.
--     FileSystem/Inode.antt models the transfers of src/filesys/inode.c between a file and a buffer,
--     Files.antt and Open.antt the rest of it with src/filesys/free-map.c and src/filesys/file.c:
--     `FileSys` holds the device, the free map, and the inodes in memory by address. Place, Read,
--     Covers, Write and RoundTrip are about transfers, FreeMap and Release about the free map,
--     Openers, Opening, Closing and Deleting about open inodes, Create about new files, and File
--     about open files.
--   * Swap.antt models src/vm/swap.c on a block device and a bitmap: pages that go to the swap device.
--     Swap/Sectors.antt is about the loops over the sectors of a page, Slots about the slots.
--   * Hash.antt models src/lib/kernel/hash.c: buckets are lists of elements. Hash/Power.antt is about
--     the number of buckets, Buckets about a valid table and its search, Moving about `rehash`,
--     Change and Update about the operations, and Iterator about the iteration.
--   * CString.antt models src/lib/string.c over a memory of bytes by address; CString/ has its
--     theorems: Move, Scan, Search, Compare and Copy.
--
-- How they interact: the allocator calls the bitmap's functions; `begin_create`, the first part of
-- `thread_create`, takes the page that the allocator returns as an argument; the timer interrupt wakes sleepers through the scheduler's
-- `thread_unblock`; semaphores block and wake threads through the scheduler. The file system's free
-- map is a bitmap, which is written to a file by the file system itself.
--
-- Conventions: a function returns `none` where an ASSERT fails, and an address 0 is a null pointer.
-- `size_t` arithmetic, the value of a semaphore and the ticks of a time slice wrap at 2 ^ 32. The
-- counters of ticks, thread identifiers and sizes of files do not: a file has at most 2 ^ 31 - 512
-- bytes, above which the rounding in `bytes_to_sectors` overflows an `int32_t`. `memmove` has its
-- assertions that pointers are not null; other functions are not passed null where the source asserts
-- that. Loops with a count are recursion
-- on what is left of it. A loop to a null byte takes fuel; a string of `n` characters needs fuel
-- `n + 1`, and so does a loop along a list of `n` elements. The loops of a transfer of `n` bytes move
-- at least one byte a round, and take fuel `n + 1`; the loop to a power of 2 below `n` takes fuel
-- `n`, since each round makes the number smaller. Memory that is asked for comes as an argument, an
-- address or success; offsets and sizes of transfers are not negative. The functions that a hash
-- table is given are parameters; that equal elements are so consistently and have equal hashes is a
-- hypothesis, `IsKey`.
--
-- Not modelled: hardware drivers, assembly, boot, formatted output, and so far the heap allocator,
-- directories, the start of the file system, user processes, and frames and page tables. Interrupts
-- come between the steps of Kernel.System and not inside one. There `timer_sleep` is one step, although
-- the source leaves interrupts on until after its insertion into the sleep queue; Kernel.Race has the
-- two parts of that call, and what an interrupt between them does. A step that panics leads to no
-- state. The stack of a new thread is left out, and so is `process_exit`, which `thread_exit` calls
-- first: `finish_exit` is what comes after it. Whether the element of a thread is in `all_list` stands
-- for the assertion of `list_remove` on it.
pub mod Base
pub mod Bitmap
pub mod Palloc
pub mod LinkedList
pub mod Kernel
pub mod Intq
pub mod FileSystem
pub mod Swap
pub mod Hash
pub mod CString
