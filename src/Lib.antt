-- ===== src/Lib.antt =====
-- d3 is a 32-bit x86 kernel in C (src/*.c of the repository) with its boot code and interrupt
-- stubs in assembler. `cmain` (src/kernel.c) sets up the terminal, the segment and interrupt
-- tables, the memory manager, the keyboard and the timer, and then echoes lines from the
-- keyboard. A virtual machine with its assembler, a task queue and a floppy driver are written
-- but not started by `cmain`. src/dasm/dasm.c is the assembler as a program for the host.
--
-- All parts share one address space without paging. Memory models it as a function from addresses
-- to bytes with little-endian loads and stores of 8, 16 and 32 bits; a C struct is its fields'
-- addresses where other code reaches it by pointers, and a record where it does not. Pointers and
-- `size_t` have 32 bits. A value of a signed type is its bit pattern. Where the C code wraps
-- around, the model writes `% 2 ^ w`, and where addresses could wrap a theorem asks for room.
--
-- Ports models `outb` and `inb` of src/io.c: a log of port operations, newest first. The hardware
-- is a parameter, a `Device`, that answers a read from the log.
--
-- Mm models src/mem.c. Copy: `mem_cpy` and `mem_set`. Stack: `init_stack`, `stack_push`,
-- `stack_pop`. Pages: `add_mm_list_entry` and `remove_mm_list_entry`. Malloc: `malloc` and
-- `free`; `scan` is the loop, `finish` and `carve` what is behind it. The child modules Laws,
-- Links, Dropped, Carve, Choice, Walk, Overlap, Wrapped and Free hold the theorems.
--
-- Str models src/str.c and `strlen` of src/term.c. A text in memory is described by `IsText`.
--
-- Term models src/term.c: a `Screen` is a `term_t` with the memory of its buffer and the log that
-- the cursor's position goes to. `put_control`, `put_wrap`, `put_scroll`, `put_char` and
-- `put_cursor` are the parts of `term_putchar`, in the order of the code. It uses Mm.Copy for the
-- scroll and Str for the length of a text.
--
-- Keybd models src/keybd.c over Term, Ports and Mm.Copy. `get_kbd` waits for a flag that the
-- interrupt sets; here the scancodes that arrive are a list, which Kernel/Interrupts/Lines
-- relates to the interrupts. Keybd/Silent and Term/Silent compare states up to the log of the
-- ports.
--
-- Vm models src/vm.c and Vm/Ops src/vm_ops.c with `vm_run`. The machine is a record in memory
-- whose heap is a page of the allocator. The dumps to the terminal are a parameter of `vm_run`;
-- Kernel/Vmm has it with the dumps, and `init_vmm`; Hosts, Dumps and Runs below it hold the
-- theorems on programs with the dumps. Vm/Steps has what the rounds of `vm_run` share, and
-- Vm/Programs relates it to an interpreter of programs of `mov` and `cmp`.
--
-- Kernel models src/kernel.c and what the parts share. `Globals` holds the addresses of the
-- static objects. Main: `boot` is `cmain` up to its loop, without the `sti` between;
-- `shell_round` is a round of the loop, on the scancodes that arrive during it, and `cmain` is
-- the start with a number of rounds. Shell with Rounds: the kernel that waits for a line, and the
-- rounds. Boot with Memory, Welcome, Whole and December: the screen, the memory and the state
-- that the start leaves, and its end in December. Interrupts with Runs and Lines: the installed
-- routines, the interrupts in any order, and a line of keys among them. Show: the functions that
-- print, of src/mem.c, src/vm.c and src/idt.c; Numbers and Show/Prints describe what appears on
-- the screen, and Show/Dump, Show/MemMap and Show/Registers what `mem_dump`, `print_mem_map` and
-- `vm_dump_registers` print. `kernel_panic` ends in a loop that no fuel is enough for.
--
-- Mm/Init models `init_mm` and `malloc_raw` of src/mem.c, over the boot loader's record in
-- memory. Stacks, Map and Walk describe the two stacks, the map and its walk, Lists what follows
-- the walk, and Whole puts them together.
--
-- Task models src/task.c: a process is a record in memory, and the queue a ring of them. The
-- callbacks of a process and `switchTask`, which is assembler, are parameters that may change the
-- whole state. Layout has the records; Queue, Link and Schedule hold the theorems. TestTasks has
-- the two test tasks, for any value of the argument that they do not give to `itoa`.
--
-- Dasm models src/dasm.c, generic in the functions that it calls, `Services`, and in the places
-- of its tables. Machine is the kernel's instance with `dasm`; Host is that of src/dasm/dasm.c,
-- for which the C library is a parameter. The loops run on as many rounds as the text allows.
-- Lookup, Args, Comments and Host/Names hold the theorems.
--
-- Gdt and Idt model src/gdt.c and src/idt.c: the descriptor tables, the set-up of the interrupt
-- controllers and the dispatch of hardware interrupts to installed handlers. The addresses of the
-- stubs are parameters.
--
-- Time models src/time.c: the timer's divisor, the tick, the fields of the CMOS clock, `get_time`
-- and `sleep`, with what it does on a clock that moves on in Sleeps. All numbers of `get_time`
-- are whole and below 2 ^ 53, so that its `double` arithmetic is exact.
--
-- Fat12 models src/fat12.c, the floppy controller's driver, over Ports and Time. The flag
-- `_FloppyDiskIRQ` lies in memory at `flag_at`, and `interrupts` is what the handlers do to the
-- ports and to memory between two readings of the flag; no handler of the repository sets it, but
-- a write of `itoa` behind its buffer can reach it. Waits and Seek are about handlers that leave
-- the flag alone, and Digits about `itoa`; Kept has what the ports' operations leave. `garbage`
-- is what a read gives that falls off the end of `flpydsk_read_data`. Registers has the constants
-- of src/fat12.h. Kernel/Floppy has `flpydsk_read_sector` and `init_fat12`, with the terminal;
-- `transfer` is the memory behind the controller's transfer.
--
-- Loops whose number of rounds is not known run on fuel. `strlen`, `strcmp`, `strchr` and `atoi`
-- get more fuel than the text has bytes, and `malloc` more than the free list has pages, which
-- lets their loops reach the end. The other loops are structural: over a size, the 64 places of
-- `itoa`, the rows and columns of a screen, the 500 polls and 10 tries of the driver. `Run` tells
-- code that returns from code that still spins or that reads out of range.
--
-- Not modelled: the assembler files, with `gdt_flush`, the load of the interrupt table, the stubs
-- and `switchTask`; what a C function leaves to its caller when it returns no value, which is a
-- parameter; the Perl version of the assembler beside src/dasm/dasm.c; and src/multiboot.h, a
-- copy of the specification's header, but for the fields that `init_mm` reads.
--
-- The modules under Tests apply the theorems to concrete memories, screens, machines and devices.
mod Base
pub mod Memory
pub mod Ports
pub mod Mm
pub mod Str
pub mod Term
pub mod Vm
pub mod Keybd
pub mod Dasm
pub mod Gdt
pub mod Idt
pub mod Time
pub mod Fat12
pub mod Kernel
pub mod Task
mod Tests
