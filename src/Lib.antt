-- ===== src/Lib.antt =====
-- DOCQ OS, a 64-bit kernel with a small user land.
--
-- Paths are those of the repository: src/ is the kernel, include/ its headers, user/ the programs.
-- Integers are the native numbers: an unsigned C type keeps its wrap-around by `% 2 ^ w`. Spin locks
-- and the disabling of interrupts make a function one step, and leave no trace in the model. A
-- function that sleeps is given what happens meanwhile.
--
-- Base: lists, tests, integers and lemmas that the parts share.
-- Cpu/RingBuffer: src/cpu/ringbuffer.c. `Ring` is `struct RingBuffer`; `out_ring_buffer` and
--   `in_ring_buffer` are its two operations, `Wake` is what happens while a reader sleeps.
-- Cpu/RadixTree: src/cpu/radixtree.c. `insert`, `get` and `remove` are its three operations, over a heap
--   of nodes and a supply of addresses for kmalloc. Eight rounds of fuel are enough for the search for a
--   height, for indices below 2 ^ 28 - 1.
-- Input/Keyboard: src/input/keyboard.c. `keyboard_callback` is the function of that name on a state
--   record, with the LED command as a result; `keyboard_irq` is the interrupt handler over the bytes
--   that the controller yields.
-- Time/Calendar: the Gregorian calendar by counting, what the clock code is compared with.
-- Time/Rtc: src/time/rtc.c. `decode` is kernelReadRTC after its loop, `read_stable` the loop over the
--   readings that the clock gives, `mktime` and `read_rtc` the functions mktime and readRTC.
-- Time/Gmtime: user/date/date.c. `gmtime` and its helpers, with four rounds of fuel for its loop,
--   which is enough up to the year 2969.
-- Time/Timers: src/time/time.c. `add_timer`, `remove_timer` and `time_interrupt` are addTimer, removeTimer and
--   timeInterrupt; the calls of callbacks are an argument of the last.
-- Filesystem/Descriptors: the descriptor calls of src/filesystem/virtual.c over a table of slots and the
--   reference counts of the files. do_open is given what openFile makes of the path.
-- Driver/Registry: src/driver/driver.c. `register_device`, `register_driver` and their opposites are the
--   four functions of those names; the calls of enable and disable are recorded in the state.
-- Task/Semaphore: src/task/semaphore.c. `down`, `enter` and `try_again` are the parts of downSemaphore and
--   downSemaphoreInterruptible between their sleeps, `up` is upSemaphore, `give_up` the end of a wait by a
--   signal; `step` lets one of the tasks, counted by where they stand, take one of these.
-- Memory/Buddy: src/memory/buddy.c. `alloc_with` is the body of allocPages, allocAlignedPages and
--   allocDMAPages, with their test of a block as an argument; `free_pages` is freePages. The loops run as
--   many rounds as there are orders left.
-- Block/Device: src/block/block.c. `register_block_device` and `submit_block_io` are registerBlockDevice
--   and submitBlockIO; the driver's read function is a field.
-- Task/Signal: src/task/signal.c. Functions keep their names; `handle_signal` is handleSignal with fuel, and
--   `wakes` is what the others make of a task in each of the times that it is stopped and continued. 64
--   rounds and one more, and 65 for each of these times, are enough fuel.
-- Video/Screen: ttyWriteScreen of src/video/tty.c on the screen's cells, and where ttyUpdate draws a line.
-- Video/Terminal: the input of src/video/tty.c. `keyboard_round` is a round of ttyKeyboardTask, `tty_read` is
--   ttyRead on the words that inRingBuffer gives.
-- Strings/Memory, Strings/Length, Strings/Itoa: src/lib/string.c. `memset`, `memcmp`, `strlen` and `itoa` are
--   the functions of those names, on memory as a function of the address; strlen's fuel is the string's
--   length and one more, and itoa has at most as many digits as a word has bits.
-- Filesystem/Iso9660: src/filesystem/iso9660.c. Reads has iso9660Read and iso9660LSeek, Record
--   iso9660GetDentryInformation, Walk iso9660LookUp and iso9660ReadDir, Mount iso9660Mount. The page cache is
--   the pages that it gives; a read of n bytes needs n + 1 rounds at most.
-- Filesystem/Entries: vfsFillDir64 and doGetDents64 of src/filesystem/virtual.c; the file system's readDir is
--   an argument, which Filesystem/Iso9660/Walk can be.
-- Memory/Slab: src/memory/slab.c. `refill`, `take_loop` and `take_objects` are refillCache and its loops,
--   `flush_local_cache` is flushLocalCache; the fuel bounds the slabs that one refill goes through.
-- Block/PageCache: src/block/pagecache.c, over an interface for the radix tree.
-- Task/Schedule: wakeUpTask, schedule and finishScheduling of src/task/task.c. `round` is one pass of the loop
--   of schedule, with the value that its variable `next` has before; `switch_to` is the part after the choice
--   of another task.
-- Task/Family: createTask, destoryTask, doExit, doWaitPID and lookForTaskByPID of src/task/task.c; `wait_pass`
--   is what doWaitPID does between two sleeps. Its child Fork has doFork.
-- Filesystem/Dentry: the table of dentries and vfsLookUp of src/filesystem/virtual.c. `look_up_dentry` and
--   `look_up_clear` take and give back the references along a path, `step` is a round of vfsLookUp, `walk` the
--   rounds on the names of a path; `look_up_dentry` goes by the mount of the first dentry throughout, as the
--   source does; the fuel bounds the dentries between one and the top. Its child Mounting
--   has the ends of doMount and doUMount.
-- Memory/Areas: the list of virtual memory areas of src/memory/paging.c, lookForFreeVirtualMemoryArea,
--   doMMap, and vmalloc up to the page tables; after a hint that was tested the search goes on from the area
--   before it, as the source does. A position in the list is the list cut in two.
--
-- The parts meet where the source's do: the terminal calls the keyboard's callback and reads the words of a
-- ring buffer, doGetDents64 fills its buffer by the listing of ISO 9660, which needs the records of Record,
-- and the page cache works over what its interface asks of the radix tree.
--
-- Not modelled: what is device access (interrupt controllers, clock chips, PCI, IDE, AHCI, the serial port,
-- the frame buffer), assembly (memcpy, the entry and exit of system calls and interrupts, the copies to and
-- from user memory but for their result), and, for want of a model so far, doExecve and scheduleTimeout,
-- the page tables, ELF loading, the choice of a file system for a mount, the device file system,
-- printk, ACPI tables, and the user library.
pub mod Base
pub mod Cpu
pub mod Input
pub mod Time
pub mod Filesystem
pub mod Driver
pub mod Task
pub mod Memory
pub mod Block
pub mod Video
pub mod Strings
