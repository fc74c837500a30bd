-- ===== src/Lib.antt =====
-- A model of TrytonOS, a small i386 kernel with its drivers and its C library, and what holds of it.
--
-- The program. The bootstrap code hands the kernel the size of memory; the physical memory manager
-- (src/kernel/memory/pmm.c) gives out frames of 4096 bytes, and src/kernel/arch/i386/paging.c maps them. The
-- kernel takes its own pages from a list of mapped ranges (src/kernel/klib/vmalloc.c) and cuts them into
-- the chunks of its heap (src/kernel/klib/kmalloc.c, kfree.c); each program has an address space, a list
-- of regions and a break (src/kernel/memory), and a heap of blocks over the break
-- (src/libc/stdlib/malloc.c, free.c). The scheduler (src/kernel/cpu/scheduler.c)
-- keeps the tasks in three queues. A key raises an interrupt, whose handler
-- (src/dev/keyboard/keyboard.c) gives the character to the terminal (src/dev/terminal): that edits the
-- input line on the screen and, on Enter, hands the line to the reader of standard input. Programs
-- reach files through descriptors and the tree of nodes (src/kernel/vfs); the nodes' operations are
-- those of a file system, the ramfs or the tar archive. The kernel prints with kprintf
-- (src/kernel/klib), programs with printf (src/libc/stdio).
--
-- Which file models what (a child module has the proofs about its parent):
--   Base: names that all share; Base.Links is doubly linked lists that end in NULL.
--   Pmm: src/kernel/memory/pmm.c. `Pmm` is the static variables; get_frame, free_frame, get_pool,
--     free_pool and init are pmm_get_frame, pmm_free_frame, pmm_get_pool, pmm_free_pool, pmm_init;
--     bit_set and bit_get are __bit_set and __bit_get.
--   Paging: src/kernel/arch/i386/paging.c: pg_map, pg_map_to, pg_unmap, pg_unmap_from,
--     pg_get_frame_from, pg_create_directory and what they call. Directories and tables are words of the
--     physical memory, and the code reaches them through entries 1023 and 1022 of the current directory, as
--     the processor does.
--   Vmalloc: src/kernel/klib/vmalloc.c and vfree.c with src/kernel/memory/vmm_misc.c: the list of the
--     kernel's mapped ranges, and the pages mapped and unmapped for them.
--   Heap: src/kernel/klib/kmalloc.c and kfree.c. `Heap` is the store of chunks, the bins and the void;
--     allocate is kmalloc of an initialised heap.
--   Vmm: src/kernel/memory/vmm.c, brk.c and sbrk.c: the list of regions, the break and the page fault.
--     The pages that a break or a fault maps and unmaps are part of what is returned.
--   Klib.Strings: strlen.c, strcmp.c, strncpy.c, memset.c and memcpy.c of src/kernel/klib.
--   Klib.Format: src/kernel/klib/kprintf.c, with itoa for _itoa.
--   Scheduler: src/kernel/cpu/scheduler.c and task_switch_to of src/kernel/cpu/task.c. append, unlink
--     and remove are the bodies of _add_to_queue and _remove_from_queue for one queue; set_state is
--     sched_set_state, and wake and sleep are the two ways through it behind its tests (proofs about it are in
--     Scheduler.Preempt and Scheduler.SetState).
--   Files.Data: ramfs_read and ramfs_write of src/kernel/vfs/ramfs.c, tarfs_read and _get_size of
--     src/kernel/vfs/tarfs.c. Files.Seek: lseek.c. Files.Descriptors: fd.c. Files.Tree: namei.c.
--     Files.Vfs: vfs.c. Files.Write: write.c. Files.Open: open.c, close.c and the closing loop of
--     src/kernel/cpu/exit.c.
--   Libc.Printf: src/libc/stdio/printf.c. Libc.Heap: src/libc/stdlib/malloc.c and free.c.
--   Terminal.Vga, Terminal.Cursor, Terminal.Console: vga_text_mode.c, cursor.c and terminal.c of
--     src/dev/terminal; Terminal.Console.Handler is terminal_putchar_from_keyboard, one definition for
--     each of its cases.
--   Terminal.Keys, Terminal.Keyboard: src/include/dev/keyboard.h and src/dev/keyboard/keyboard.c.
--
-- How the C is read. A word (uint32_t, size_t, uintptr_t, and an int or long as its bit pattern) is a
-- natural number, and its wrap-around is written out. Memory, buffers and bitmaps are functions of the
-- address or the index; linked records are a store by address, where 0 is NULL. A run that can go
-- wrong is an `Outcome`: `panic` is the kernel's panic, `fault` an access through NULL or outside an
-- array, or an argument of printf that is missing. I/O ports are a trace of the writes; the byte that
-- the keyboard's port gives is an argument.
--
-- Loops that count are recursion on the number of rounds. Loops that follow links or data have fuel,
-- and end in `out_of_fuel` without it: strlen needs one round more than the string is long, a search of
-- a queue, of children, of regions or of ranges one for each node, _itoa as many as the number (the
-- model passes that), pmm_init one for each reserved frame and one more, pmm_get_frame two calls of
-- itself. The sorted bin of a heap counts its chunks, and that counter is the fuel of its loops. The
-- loop of do_write needs no more rounds than there are bytes; at the end of a ramfs file that is full
-- the operation of the node moves nothing, and no fuel is enough.
--
-- What is assumed of memory: chunks of a heap lie on multiples of 16, so that their headers do not
-- overlap; the flags of a page are less than 8, so that or-ing them to an aligned address is a sum; no
-- entry of the translation buffer is out of date.
--
-- Not modelled: mapping and unmapping of files and ranges in a program's address space (vmm_mmap_at,
-- vmm_munmap), copies between address spaces, their duplication and their end; the duplication of page
-- directories; program loading and the other system calls; signals; the tree of tasks; tar archives'
-- tree; the devices' file system; interrupt, descriptor and segment tables; the assembly code; the
-- programs in the initial RAM disk. The frame of a ramfs file is mapped for each copy, and the model has
-- the copy only.
pub mod Base
pub mod Pmm
pub mod Klib
pub mod Paging
pub mod Scheduler
pub mod Files
pub mod Heap
pub mod Libc
pub mod Terminal
pub mod Vmalloc
pub mod Vmm
