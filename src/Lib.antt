-- ===== src/Lib.antt =====
-- Verification of the DestinX kernel, a 64-bit x86 operating system in C. Each module models
-- the C functions of one source file and its children prove what holds of them.
--
-- Conventions. A pointer is its address, and null is 0. A structure that is reached by pointers
-- is a table from addresses to records. Unsigned 64-bit sums and differences are taken modulo
-- 2^64 where they can wrap. Loops over a linked list or over the bitmap take fuel, and `none`
-- means that it ran out; the theorems show that it does not. The kernel runs on one processor,
-- and a function that runs under a spinlock with interrupts off is one step here.
--
-- Prelude: numbers, tests, lists, tables; Prelude/Bits: one bit of a byte.
-- Links: doubly linked lists through the fields of their nodes, for every list of the kernel.
-- Pmm (mm/pmm.c): the bitmap of page frames. `alloc_page` is `pmm_alloc_page`, `alloc_pages` is
--   `pmm_alloc_pages`, `free_page` is `pmm_free_page`; `init_PMM` is not modelled.
-- Areas (mm/vmalloc.c, mm/mmap.c, mm/stack.c): the lists of `vm_area_t` behind `vmalloc`,
--   `mmap` and the user stacks.
-- Buddy (mm/buddy.c): the free lists and the page metadata of the kernel heap, with
--   `buddy_alloc` (the loop over the orders is `search_orders`, the enlargement of the heap is
--   `grow`), `buddy_free` and `is_buddy_free`. `pmm_alloc_pages` is the one of Pmm, and `maps`
--   is the trace of the calls of `vmm_map_page`. `init_buddy` is not modelled.
-- Thread (kernel/scheduler/thread.c): threads, processes and the globals of the scheduler as
--   `Kernel`; `enqueue_thread` and `dequeue_thread` on the circular ready queue.
-- Scheduler (kernel/scheduler/scheduler.c): `scheduler_handler`, which chooses the next thread
--   and switches to it; `leave`, `find_next`, `enter` and `switch_process` are its parts.
--   `Handled` tells a return from the endless loop of the source. `thread_exit` calls it
--   through `yield`.
-- Mutex (kernel/sync/mutex.c): `mutex_lock` up to its `yield`, and `mutex_unlock`, which hands
--   the mutex to the thread that has waited longest; Mutex/System: runs of several threads, in
--   which each is inside `mutex_lock`, between it and `mutex_unlock`, or elsewhere.
-- Str (libc/string.c): `memset`, `memcpy`, `memcmp` and `strlen` on a memory of bytes.
-- Time (kernel/time/time.c, arch/x86_64/drivers/rtc/rtc.c): `read_rtc` from the registers on,
--   `init_time`, whose day number is `julian_day`, and `time`. The ports are not modelled.
-- Printf (drivers/video/lfb.c, arch/x86_64/drivers/video/serial.c): `kprintf` with its buffer,
--   `local_putnum`, and `serial_print`. A format and a string are lists of characters, the
--   variable arguments a list; `Printed` tells a call that reads past its format or its
--   arguments.
-- Kring (drivers/video/kring.c): the two rings, `kring_write` (its loop is `store`),
--   `kring_flush_to_screen`, `kring_flush_to_rbuf` and `check_for_n`. The screen is the list of
--   the characters given to `kputchar_direct`. `kring_flush_to_screen` takes fuel for one more
--   than the characters that wait.
-- Keyboard (arch/x86_64/drivers/keyboard/keyboard.c): `keyboard_handler` with the tables of the
--   names in Keyboard/Keys; the byte from port 0x60 is its argument.
-- Vmm (mm/vmm.c): `vmm_map_page`, `vmm_unmap_page`, `vmm_get_entry` and `vmm_get_paddr` on a
--   memory of 64-bit words. `provide` is the code that each level of `vmm_map_page` repeats;
--   the pages of new tables come from `pmm_alloc_page` of Pmm.
-- Idt, Gdt (arch/x86_64/idt/idt.c, arch/x86_64/gdt/gdt.c): the tables that `init_IDT` and
--   `init_GDT` leave, with the stubs of the assembler code and the address of the task state as
--   parameters; the dispatch of interrupts as a list of events.
-- Vfs (fs/vfs.c): `open` (`open_file` here), `close`, `lseek` and `fsync` on the table of the
--   open files of a process. `dfs_get_inode`, the functions behind `file->ops`, the sizes of
--   the inodes and the address that `kmalloc` returns are parameters.
-- Slab (mm/slab.c, mm/kmalloc.c): the slabs of the eight caches, `kmalloc` and `kfree` over
--   `buddy_alloc` and `buddy_free` of Buddy. `create_at` is `slab_create` behind its call of
--   `buddy_alloc`. The loop over the objects takes fuel for each byte of a page.
-- Console (drivers/video/console.c): `terminal_write`, and `terminal_read` cut at its calls of
--   `yield`, on the rings of Kring, the state of Keyboard and the mutex of Mutex.
-- Ahci (drivers/storage/ahci.c): `ahci_read` and `ahci_write`, which are `transfer` in the two
--   directions, cut at their `yield` into `submit` and `finish`, the command tables they build,
--   and `ahci_handler`. The registers of the device are given, and the writes to them are a
--   list.
-- Lfb (drivers/video/lfb.c): `kputchar_direct` with the cursor, `draw_char_at`, `putpixel` and
--   `lfb_scroll` on the memory of Str, and `kputnum_direct`. The font is a parameter.
-- Thread/Create (kernel/scheduler/thread.c): `create_thread` and `create_user_thread` with the
--   frame of a new thread; what the allocators return are arguments. `destroy_thread` is not
--   modelled.
-- PageCache (mm/page_cache.c): the linked list of cached file pages over a store, with the
--   number of its entries as the rounds of a search, and `sync_page`, the write of a page back
--   to the disk.
-- Dfs (fs/dfs.c): `dfs_get_inode`, `dfs_read` and `dfs_write` as `access_pages` in the two
--   directions over the page cache, `dfs_file_read` and `dfs_file_write` as `file_access`, and
--   `dfs_file_sync`. The driver of the disk with its device and the addresses from `kmalloc`
--   are parameters, and so is the place on the stack for the array of pages; `access_pages` has
--   fuel for its second try, and two tries are enough.
-- Mmap (mm/mmap.c, mm/vmalloc.c, mm/stack.c): `mmap`, `munmap`, `vmalloc`, `vfree` and the
--   stacks, on the areas of Areas and the page tables of Vmm. The fuel of a walk over the list
--   is the number of its areas.
-- Fault (mm/page_fault.c, mm/brk.c): the growth of the stack and of the heap in
--   `page_fault_handler`, up to its search of the mapped areas, and `brk`.
--
-- Fuel. `alloc_pages` gives itself fuel for every page, and `none` also says that its `int i`
-- went past its range; the walks over a list take fuel for each of its elements, and the search
-- of the scheduler for one round of the queue. `buddy_alloc` takes fuel for each time that it
-- makes the heap larger; the theorem about it needs none beyond the first call.
--
-- Not modelled: what the processor and the devices do (the flush of translations, ports, the
-- registers at boot, the drivers of Virtio and of the timers), the pages of mapped areas in the
-- page fault handler, the system calls, the ELF reader, the creation of processes, and the
-- mount of the file system at boot.
pub mod Prelude
pub mod Links
pub mod Pmm
pub mod Areas
pub mod Buddy
pub mod Thread
pub mod Scheduler
pub mod Mutex
pub mod Str
pub mod Time
pub mod Printf
pub mod Kring
pub mod Keyboard
pub mod Vmm
pub mod Idt
pub mod Gdt
pub mod Vfs
pub mod Slab
pub mod Console
pub mod Ahci
pub mod Lfb
pub mod PageCache
pub mod Dfs
pub mod Mmap
pub mod Fault
