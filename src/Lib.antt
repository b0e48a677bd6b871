-- ===== src/Lib.antt =====
-- A model of the kernel of tmpOS, a small 32-bit operating system in C (src/), and the theorems
-- about it. Each part is a module; its child modules hold the proofs. --
-- * Memory/Heap.antt is src/memory/heap.c: a heap is its start and a table with a byte for each
--   block. `heap_malloc_blocks` is split into `scan`, the inner loop, `find`, the outer loop, and
--   `mark_blocks_taken`. Search, Mark, Malloc, Free, Laws and Create prove what they do.
--   Memory/Kheap.antt is src/memory/kheap.c over it; Memory/Pages.antt has the requests for a page.
-- * Keyboard.antt is src/keyboard/keyboard.c, a ring buffer that the interrupt fills and a process
--   empties; Queue compares it to a queue. Keyboard/Ps2.antt is src/keyboard/PS2.c, and
--   Keyboard/Drivers.antt the list of keyboards and the start of the first.
-- * Strings.antt has the string and memory routines of src/utils.c, over the bytes from a pointer
--   to the end of its buffer: a read or a write beyond the end is `none`.
-- * Terminal.antt has the text output of src/utils.c and src/kernel.c over the cells of video
--   memory. Print.antt is src/print/print.c: numbers as text, and `printk`, which writes to it;
--   Print/Hexdump.antt is `hexdump` of src/utils.c over it, with Rows about its lines. Printf.antt
--   is the same for the user programs, progs/stdlib/src/print.c.
-- * Parser.antt is src/fs/parser.c, over the string routines.
-- * Disk.antt is src/disk/disk.c: the controller behind the ports is a parameter, a function of its
--   registers; Disk/Sector.antt says what it is expected to do. Disk/Streamer.antt is
--   src/disk/streamer.c, and Disk/Stream.antt the theorem about its reads.
-- * File.antt is src/fs/file.c: the tables of file systems and of open files. The operations of a
--   file system are a parameter, a record as in the code. `fopen` goes through the parser.
-- * Fat16.antt has the names of directory items and the table of clusters of src/fs/fat/fat16.c,
--   which is read through a disk stream; Fat16/Items.antt the bytes of a file and the number of
--   items in a directory, Fat16/Directory.antt the detection of the file system and the search, and
--   Fat16/Operations.antt what the file layer calls, as a record that fills the parameter of
--   File.antt. The other files in Fat16/ are about these: Names and Matching the names, Counting
--   and Resolving the directory on the disk, Lookup the search, Reading the chain of clusters,
--   Opening, Seeking and Fopen the open files, the last through the file layer.
-- * Task.antt is src/task/task.c: the tasks are memory by address, linked by `next` and `prev`.
--   Order has the list they form, Turns the order of `task_get_next`, Removal what is taken out,
--   and Saving the registers. Stack reads a word from a task's stack, through the translation of
--   addresses of the processor, which is a parameter, `Mmu`, that is expected to follow the page
--   tables in use; Arguments has the stack that is mapped for a process. Copying is the copy of a
--   string from a task, and Stray what it does to the page tables and to the heap.
-- * Elf.antt is src/loader/formats/elfloader.c with the structures of elf.h, over the bytes of a
--   file; Elf/Load.antt has `elf_load`, which goes through the file layer. Span is about the
--   addresses of the segments, and Loading about whole files.
-- * Ext2.antt is src/fs/ext/ext2.c, the recognition of a disk; Ext2/Superblock.antt is about it.
-- * Readline.antt is progs/stdlib/src/os.c, the line input of the user programs: the keys come from
--   system calls and are a list. Typed has the line as a list that the keys edit, and Editing
--   compares the buffer to it.
-- * Paging.antt is src/memory/paging.c: the tables are words in memory, by their address; Map has
--   the lookups behind a mapping. Paging/Chunk.antt makes and releases an address space over the
--   heap; Filling, Built and Identity prove what its tables hold. Paging/Size.antt is `vsize` of
--   src/memory/kheap.c. Process.antt has the table of processes and the allocations of a process of
--   src/task/process.c, over the heap and the page tables; Process/Loading.antt a program's way
--   from its file to its pages, and Process/Starting.antt to a process with a task. Outcome is
--   about both, Segments about the pages of the segments, Allocations and Asking about the
--   allocations.
-- * Gdt.antt is src/gdt/gdt.c, Gdt/Kernel.antt the segments of src/kernel.c, Idt.antt is
--   src/idt/idt.c with the tables of handlers and commands, and Idt/Paging.antt the order of the
--   steps of an interrupt. Isr80h.antt is src/isr80h: it registers the commands, and calls the
--   keyboard and `printk`; Isr80h/Memory.antt has the system calls `malloc` and `free`, with the
--   argument from the stack of the task, and Isr80h/Print.antt the one that prints a string.
-- * Base.antt has what they share, Base/Bits.antt the flags in an entry of a page table, and
--   Tests.antt runs on small inputs. --
-- A C pointer into a table is an index, a machine word keeps its `% 2 ^ w`, a state that the code
-- changes is returned, and an error is its negative number in ℤ or `none` for a NULL pointer or a
-- panic, as each definition says. Loops recurse on the rounds that are left. Where the number of
-- rounds depends on the data it is bounded by what the loop moves along: the blocks of the heap for
-- `find`, the entries of the table and one more for `free_loop` and `size_loop`, the bytes of the
-- path for `parse_parts`, the number itself for `count_digits`, and the sectors to read for
-- `read_rounds`, the clusters to read for `read_clusters`, the keys and one more for
-- `readline_loop`, and for `count_items` the items after which a position is no `int` any more.
-- Where these give out no more, the theorems show that the result is reached. -- Not modelled: the
-- assembly, the ports but for the disk's, the wait for the controller, the failure of allocations
-- that the code does not check, the files of ext2, which the code does not read yet, the user
-- programs but for `printf` and the line input, and the order of the start-up in `kernel_start`. In
-- FAT16 and the loading of programs freeing is not followed, and what `kzalloc` gives is a
-- parameter or taken to be there. What a C function without a return statement leaves is a
-- parameter, `NoReturn`.
pub mod Base
pub mod Memory
pub mod Keyboard
pub mod Terminal
pub mod Gdt
pub mod Parser
pub mod Idt
pub mod Isr80h
pub mod Print
pub mod Strings
pub mod Disk
pub mod Readline
pub mod Ext2
pub mod File
pub mod Tests
pub mod Paging
pub mod Process
pub mod Fat16
pub mod Task
pub mod Elf
pub mod Printf
