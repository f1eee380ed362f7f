-- ===== src/Lib.antt =====
-- A verification library of KontolOS, a 32-bit x86 kernel: its heap, its string routines, its file system
-- in memory, its interrupt tables, its drivers for the keyboard, the screen in text mode and the timer,
-- its shell with the line editor, and its boot.
--
-- How the parts interact. The drivers run on interrupts that src/kernel/idt.c dispatches. The file system
-- keeps its table in static memory and the contents of files on the heap. The shell, src/kernel/shell.c,
-- reads lines from the keyboard, prints through the text driver and works on files through the file
-- system; its editor keeps its lines on the heap. src/kernel/kernel.c starts them all in order.
--
-- Which file models which part:
--   Base      names shared by all modules, lists under native indices, Boolean tests, C integers, loops.
--   Bytes     memcpy, memset, memcmp and memmove of src/kernel/memory.c, over a store of bytes.
--   Memory    the heap of src/kernel/memory.c. `Memory` holds the headers at their addresses, the payload bytes and
--             the three counters; kmalloc, kcalloc, kfree, krealloc, memory_init and the memory_get functions are
--             the operations. Memory/Block is the abstract heap, a list of sizes with a mark for use;
--             Memory/Layout says when a state represents one; the files beside it prove one operation each.
--   CString   src/lib/string.c, over lists of bytes.
--   Ramfs     src/fs/ramfs.c and src/fs/ramfs.h. `Fs` holds the table, the current directory and the mark of
--             initialization. Ramfs/Data has the functions on contents, Ramfs/Listing has fs_list. Ramfs/Table is
--             the invariant of the table.
--   Keyboard  src/drivers/keyboard.c: the ring of characters, the modifiers and the interrupt handler;
--             Keyboard/Line has keyboard_readline, which echoes through Vga.
--   Vga       src/drivers/vga.c: the cells of the screen, the cursor, and the printing functions.
--   Timer     src/drivers/timer.c: the counter, and the functions that wait for it.
--   Interrupts  src/kernel/idt.c: the gates, the registered handlers and the dispatch of an IRQ, over any
--             state of the drivers; Interrupts/Drivers puts the timer and the keyboard behind it.
--   Screen    sequences of calls of the text driver, as the shell and the kernel make them, and the colours.
--   Shell     src/kernel/shell.c. `Shell` has parse_args, Shell/Words the words of a string. Shell/System has the
--             state of the system and what a command comes to; Shell/Reports, Shell/Power and Shell/Files have the
--             commands, Shell/Execute the table, the look-up and a round of shell_run, with the line that it reads. Shell/Sound is the
--             invariant of the system, with a file for each group of commands.
--   Nano      the editor of src/kernel/shell.c: what a key does to the lines; Nano/Storage has the lines on the
--             heap, loading and saving, Nano/Loop the main loop and the command, Nano/Cleanup
--             what its end frees, Nano/Loading and Nano/Opened what comes of a file. Nano/Page is the text with a
--             cursor that the editor stands for, and how its arrays hold it.
--   Kernel    src/kernel/kernel.c: the splash screen, init_system and kernel_main; Kernel/Panic has kernel_panic, and
--             isr_handler of src/kernel/idt.c.
-- A function of the source has the name it has there. State is passed and returned explicitly; a pointer
-- into a table is an index, NULL is `none` or the address 0; an error code is the integer that the source
-- returns.
--
-- Bounds and fuel. `size_t` and `uint32_t` are numbers below 2 ^ 32, and the additions, subtractions and
-- products that the source makes on sizes, addresses and ticks wrap. Indices and rows are plain numbers,
-- since they count along a string or an array. The walks along the heap have fuel for heap_size / 12 + 2
-- blocks; a block has at least 12 bytes. `none` as the result of such a function is a walk that used up
-- its fuel. keyboard_readline has fuel for the characters in a full ring and one for each interrupt to
-- come. The loop of digits of vga_print_dec has fuel 11, more than a 32-bit number has, and
-- that of itoa 33, more than it has in any base from 2 on. cmd_ls has fuel for 1025 lines of an array of
-- 1024 bytes. The loop of the editor has fuel for the characters in a full ring and one for each
-- interrupt to come, since a round takes a character. The other loops follow a list or a count of the
-- source.
--
-- The two views of memory. Headers and bytes of the heap are two stores. They agree with the one memory of
-- the machine as long as nobody writes outside the payload that kmalloc returned. A write beyond a
-- block by cat, or by the editor as it makes its lines, loads or saves, is the result `none`.
--
-- Interrupts. A function that halts takes the list of the interrupts that arrive while it waits, so an
-- ordering of events is an argument. A handler runs as one step.
--
-- The two views of the editor's lines. Its arrays are kept beside the heap that holds their blocks. They
-- agree with it as long as nobody writes outside a payload; a write past the end of an array is the
-- result `none`.
--
-- Not modelled: the boot loader and the interrupt stubs (assembly), port instructions except for the list
-- of the writes, and the build. A command that returns nothing further
-- from the hardware, such as the reset by the keyboard controller, is followed as the code that runs if
-- the hardware does not act.
pub mod Base
pub mod Bytes
pub mod Memory
pub mod CString
pub mod Ramfs
pub mod Keyboard
pub mod Vga
pub mod Timer
pub mod Interrupts
pub mod Shell
pub mod Screen
pub mod Nano
pub mod Kernel
