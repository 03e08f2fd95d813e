-- ===== src/Lib.antt =====
-- Chaff, a 32-bit Unix-like kernel: the physical page allocator, memory regions, the slab
-- allocator, the hash table, paths, open files, the block cache, interrupts, the timer, the
-- hardware clock, the scheduler, the wait queues, the signals, and the life of processes and
-- threads.
--
-- The parts and how they interact. The page allocator hands out pages of physical memory to the
-- mapping code and the slab allocator. The hash table holds processes, threads and cached blocks
-- by their keys. The timer's interrupt moves the clock on, wakes sleeping threads through the
-- scheduler and sends alarms as signals. The scheduler keeps the queue of ready threads; a wait
-- queue holds threads that the scheduler has blocked until an event. A signal that is sent wakes a
-- thread through the scheduler, and is handled when the thread returns to its program. A process
-- that exits becomes a zombie, wakes the threads of its parent that wait for it and sends a
-- signal; the parent's wait, or the reaper, reaps it. IoOpen looks a path up through the file
-- systems, across mount points, and puts the file into the I/O context; devfs is such a file
-- system, whose inodes are devices. Each of the modelled parts owns its state and runs with
-- interrupts off, so that an operation is a function from state to state; where a thread is
-- switched away in the middle of an operation (ProcYieldBlock in TimerSleep, ProcWaitQueueWait,
-- SuspendSelf and ProcWaitProcess), the operation is modelled as the half before and the half
-- after.
--
-- The files.
--   Prelude         names shared by all, lists, 32-bit words and integers over the native numbers.
--   Utils           kernel/src/utils.c: memcmp, StrLen, and the signed char of the target.
--   Mm.Physical     kernel/src/mm/physical.c: MemPhysicalInit is init_zones, MemPhysicalAlloc alloc (its
--                   loop over a zone scan, with visit for one turn), MemPhysicalAddRef add_ref,
--                   MemPhysicalDeleteRef delete_ref, MemPhysicalFree free. The page table is a function
--                   from page numbers to reference counts.
--   Mm.Region       kernel/src/mm/region.c: MemRegionCreate is region_create, MemRegionFind region_find,
--                   MemRegionResize region_resize, MemRegionDelete region_delete, MemRegionFreePages
--                   region_free_pages. A context is the list of its regions.
--   Mm.Slab         kernel/src/mm/slab.c: MemSlabCreate is slab_create, MemSlabAlloc slab_alloc, MemSlabFree
--                   slab_free, MemKAlloc's choice of a cache kalloc_index. A free chain is a list.
--   Htable          kernel/src/htable.c: HashTableInsert is insert, and so on, by the same words. The
--                   buckets are a function from indices to chains, an item its key, hash and address.
--   Interrupt       kernel/src/interrupt.c: IntrRegister is intr_register, IntrUnRegister intr_unregister,
--                   IntrHandler intr_handler, whose calls and ports are returned as a list.
--   Timer           kernel/src/timer.c: TimerInterrupt is interrupt, TimerSetAlarm set_alarm, TimerSleep
--                   sleep_start and sleep_end, TimerBeepAdv beep. What it calls in other parts and writes
--                   to ports is returned as lists.
--   HwTime          kernel/src/hwTime.c: DaysDiff is days_diff, TimerGetCMOSTime get_cmos_time.
--   Process.Scheduler  kernel/src/process/scheduler.c: ProcDoSchedule is do_schedule, ProcYield yield_thread,
--                   ProcYieldBlock yield_block and block_result, ProcWakeUpSig wake_up_sig.
--   Process.WaitQueue  kernel/src/process/waitqueue.c, above the scheduler's model.
--   Process.Signal  kernel/src/process/signal.c: ProcSignalSendThread is send_thread, ProcSignalSendProcess
--                   send_process, ProcSignalSetMask set_mask, ProcSignalSetAction set_action; SuspendSelf is
--                   in Suspend, ProcSignalHandler in Handler, HandleCustomSignal and ProcSignalReturn in Frame
--                   (how the handler ends if the user stack fails its check, in Handler).
--   Process.Life    kernel/src/process/process.c and reaper.c: ProcCreateProcess is create_process, ProcFork
--                   fork; ProcIntReapThread is reap_thread in Reap, ProcExitProcess exit_process in Exit and
--                   ProcWaitProcess wait_for_process in Wait. The hash tables are partial maps.
--   Io.Context      kernel/src/io/iocontext.c: IoRead is read, IoWrite write, IoClose close_file; IoDup is dup
--                   in Duplicate, IoContextClone clone and IoContextDeleteReference delete_reference in
--                   Lifetime. Open files are addresses in a store that contexts share.
--   Io.Mode, Path, Open  kernel/src/io/mode.c and open.c: IoLookupPath is lookup_path, IoOpen open_file. Memory
--                   is a function from addresses to bytes, a file system's operations are functions.
--   Io.Devfs        kernel/src/io/devfs.c: IoDevFsRegister is register, IoDevFsUnRegister unregister; the
--                   operations are values for those of Io.Path's file systems.
--   Io.Mount        kernel/src/io/mount.c: IoFilesystemMount is mount, IoFilesystemUnMount unmount.
--   Io.Bcache       kernel/src/io/bcache.c: IoBlockCacheRead is cache_read, IoBlockCacheUnlock unlock,
--                   IoBlockCacheReadBuffer read_buffer; IoBlockCacheWriteBuffer is write_buffer in Write. The
--                   hash table is taken as the partial map that it stands for.
-- Below each of these stand files named for what they prove, and Tests with runs of the code.
--
-- Bounds and fuel. Counts and hashes of 32 bits wrap round by add32, sub32 and mul32; times are
-- numbers and stay below 2^63. The search of MemPhysicalAlloc takes fuel, one for each turn of its
-- loop; as many as the zone has pages are enough where the head pointer is not at the zone's first
-- page. The array of HashTableResize has the bytes that it needs below 2^30 buckets, which a table
-- that begins with fewer than 2^29 does not reach with 2^26 items, and the kernel's addresses have
-- room for no more; HashTableReserve takes fuel, and 31 turns are enough for 2^29 items. The loop
-- of ProcSignalHandler takes 32 turns at most, one for each signal. The loop of IoLookupPath takes
-- fuel, and one turn for each element and each slash too many is enough. The search for the id of
-- a process or thread takes fuel, and as many turns are enough as there are ids up to the first
-- free one. The loops of MemRegionResize and MemRegionFreePages take fuel, and 2^20 turns are
-- enough, one for each page of the address space; those over a buffer in the block cache take one
-- turn for each block, so that one more than the bytes is enough.
--
-- Not modelled: page directories and what a memory context does with them, the virtual memory
-- allocator, the registry of file system types, TLS descriptors, assembly, processor instructions,
-- the screen, and start-up code that reads the boot loader's data. Waiting in the block cache is
-- modelled up to the wait.
pub mod Prelude
pub mod Utils
pub mod Mm
pub mod Htable
pub mod Io
pub mod Interrupt
pub mod Timer
pub mod HwTime
pub mod Process
