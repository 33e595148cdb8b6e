-- ===== src/Lib.antt =====
-- The core of the kernel: memory, pipes, files, processes and their scheduler.
--
-- The kernel under kernel/ and include/ boots from the code under boot/, takes the memory map that
-- boot/e820.asm hands over, builds a frame allocator on it, and runs processes from a table of 16
-- slots. A process reaches files and pipes through its descriptors; a pipe that runs dry or full
-- blocks a process, and the other end wakes it through the scheduler. The parts call each other this
-- way: process.c calls scheduler.c, pipe.c and vfs.c; pipe.c calls back into process.c for the process
-- that a transfer wakes; vfs.c calls simplefs.c, which keeps its files on a block device, the one of
-- ramdisk.c; elf.c reads programs through vfs.c and takes their pages from
-- frame.c; process.c calls paging.c.
--
-- Which file models which part:
--   Common      the shared names: Boolean tests, arrays, signed results, machine words
--   Bitmap      the three bit functions of kernel/frame.c, with their laws (Laws, Count)
--   E820        kernel/e820.c: e820_init, e820_get_total_usable_memory, e820_is_region_usable
--   Frame       kernel/frame.c: frame_init, frame_alloc_below, frame_retain, frame_release,
--               frame_reserve_range, over the record Frames of its static variables
--   Pipe        kernel/pipe.c: pipe_create, pipe_read, pipe_write, pipe_close, pipe_retain, over the
--               table of 8 pipes
--   Allocator   kernel/allocator.c: allocator_init, kmalloc, kfree, over the list of heap blocks
--   Uaccess     kernel/uaccess.c: the checks of user ranges and the three copies
--   Vfs         kernel/vfs.c, over the record Vfs; the functions of kernel/simplefs.c that it calls are
--               the record FileSystem
--   Disk        struct block_device of include/blkdev.h: the operations of a device, as the record
--               BlockDevice, and what a client relies on, as the record IsDisk
--   Ramdisk     kernel/ramdisk.c: the device in memory, its sectors and its start
--   Simplefs    kernel/simplefs.c, over the record SimpleFs of its static variables and any block
--               device: the sector map (Sectors), the structs on disk (Layout), the directory (Entries)
--               and the files (Files); Device is the instance of FileSystem that Vfs takes, and
--               Runs, Content and Serving say what its reads give
--   Elf         kernel/elf.c: the headers (Image), their checks (Checks), the loading (Load), over a file
--               system, the frame allocator and the record PageTables of kernel/paging.c; its memory is
--               what the addresses of user space show
--   Paging      kernel/paging.c, over the record PageState: physical memory of words, the active directory,
--               the scratch table and the frame allocator; mapping and lookups (Paging), address spaces
--               (Spaces), the clone of a directory and the copy of a page on a write (Clone). That copy goes
--               through the active directory, which has the scratch table for its last 4 MB
--   Vm          kernel/vm.c, over Paging: page faults, pages of the heap on demand
--   Strings     kernel/string.c: the loops over bytes, on a memory of a byte for each address
--   Scheduler   kernel/scheduler.c, over the record Sched, which holds the process table
--   Process     kernel/process.c: the descriptors (Fd), the test markers (Markers), the searches of the
--               table (Lookup), waiting and signals (Wait), the exit of a process (Exit), its creation,
--               fork and destruction (Create), and the way back to it, with the completion of a blocked
--               call and the delivery of signals (Resume); the record Kernel is the state of all. The
--               rounds of signal delivery are fuel, and `none` is to run out of it
--
-- How the code is rendered. A function of the code is a function of its name, from the state and the
-- arguments to the result and the new state; a static variable is a field of a state record. A pointer
-- into a static array is an index, NULL is `none`. A loop over an array counts the entries that are
-- left. A walk along the ready queue has as many rounds as the process table has slots, which is
-- enough for every queue without a cycle (Scheduler.Walk.length-Chain). A 32-bit sum is taken modulo
-- 2^32 where the code does not bound it. An `int` result is a signed number or a type of its own. Each
-- public function of the scheduler runs with interrupts off, so it is one step.
--
-- What is a parameter: process_wake_pipe_waiter in Pipe, which Process.Fd supplies; the file
-- system in Vfs, which Simplefs.Device supplies; the block device in Simplefs, which Ramdisk supplies;
-- the page tables of kernel/paging.c in Ramdisk and Elf; the page directories of kernel/paging.c, and
-- the address that the linker gives to the pool of kernel stacks, in Process.Create; the page flags of
-- kernel/paging.c and the page preparation of kernel/vm.c in Uaccess; the end of the kernel image and
-- the memory size of kernel/memory.c in Frame.
--
-- What is not modelled: the device drivers (kernel/vga.c, serial.c, keyboard.c, timer.c) and the
-- descriptor tables of the processor (gdt.c, idt.c, tss.c), which are register and port accesses;
-- kernel/kernel.c, which boots the parts and runs self tests; shell.c, which is input and output; the
-- assembly; syscall.c, which calls these parts. In
-- Paging, what tells the processor of a change: the loading of cr3, cr0 and invlpg.
pub mod Common
pub mod Bitmap
pub mod Strings
pub mod E820
pub mod Frame
pub mod Process
pub mod Pipe
pub mod Scheduler
pub mod Disk
pub mod Ramdisk
pub mod Simplefs
pub mod Vfs
pub mod Paging
pub mod Elf
pub mod Allocator
pub mod Uaccess
pub mod Vm
