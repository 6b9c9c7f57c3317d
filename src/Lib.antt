-- ===== src/Lib.antt =====
-- Verification library of AnssOS, a small operating system in Rust: a kernel with its drivers, and the
-- programs that run on it.
--
-- Parts and files. A file under verification/ begins with the source that it is about.
--   Common    numbers, bytes, arrays and panics, shared by all the others
--   Pmm       kernel/src/mm/pmm.rs: the physical page allocator. `Pmm` is the struct with the bitmap as
--             the list of its bytes; each function takes the state and returns the new one.
--   Heap      kernel/src/mm/heap.rs: the kernel's heap, which grows through Pmm. The linked list of
--             blocks is the list of them; `free` is `release`.
--   Pipe      kernel/src/exec/pipe.rs: the byte ring and the reference counts of its ends. `none` as a
--             result is the source's None, and for close_read and close_write the freed pipe.
--   Vfs       kernel/src/fs/vfs.rs: the file system in memory. The nodes in the kernel's heap are a store,
--             a function from pointers to nodes; a directory has the list of its children, newest first,
--             where the source links them through `sibling`. An operation gives the new store and
--             whether it succeeded; what it prints is left out.
--   Syscall   kernel/src/exec/syscall.rs: the calls on paths, open files and pipes. The state is `Kernel`:
--             the file system, the pipes by pointer and the tasks of the processes (exec/mod.rs); a call
--             takes it with the index of the caller's task and gives it back with the result, `none`
--             for -1. `cwd_within` is from exec/process.rs.
--   Process   kernel/src/exec/process.rs: the process table and the scheduler. A process is known by its
--             slot; what is given back to the page allocator is a list.
--   Crc       kernel/src/util/crc32.rs: the checksum of partition tables
--   Disk      kernel/src/drivers/block.rs: the registry of disks, and transfers in pieces
--   Keyboard  kernel/src/drivers/keymap.rs: the bytes that a key sends
--   Tile      userland/rust/tile/src/vt.rs: the terminal emulator of a pane
--   Scarf     userland/rust/scarf/src: the modal text editor. Buffer, Sidebar and Editor hold the state
--             (buffer.rs, sidebar.rs, editor.rs), Keys the handlers of keys and commands (editor.rs),
--             Escape and Session the input loop (lib.rs), Layout the panes (ui.rs).
--   Shell     userland/rust/sh/src/history.rs: the shell's history; complete.rs: the word at the cursor and
--             what the candidates have in common
-- The heap calls the page allocator; the system calls work on the file system and the pipes; the
-- processes of the table have the tasks that the system calls work for; and the editor reads the
-- sequences that the keymap sends. The other parts share nothing.
--
-- How the code is read. A struct is a record, an enum a data type, `&mut self` a state that goes in and
-- comes out. In Tile, Scarf, Disk and Shell a function that may panic (an index out of range, an
-- underflow of an unsigned number) returns an Option whose `none` is the panic. Numbers are ℕ: the u16
-- sums of the terminal saturate or wrap where the source's do, an i32 (a count of references, a pid)
-- is its 32-bit pattern and an i64 offset its 64-bit pattern, and in the page allocator the u64
-- sums stay below the number of pages times 4096. Characters and bytes are their codes.
--
-- Bounds and fuel. A loop over a range or a slice is recursion on the number of rounds left, which the
-- caller gives as the range's length, or on the list itself; none can run out. The loop over a
-- buffer's pieces in Disk has the number of bytes as its fuel, and each round takes one at least; the
-- reader of escape sequences has one round more than there are answers, and `digits` the number itself.
-- The walks up the file system's tree have one round more than there are pointers given out, and
-- removing and copying go down as many levels as there are pointers; `none` from a walk means that the
-- rounds ran out. `run_until` goes through a list of what happens meanwhile, and gives `none` where it
-- would go on. Allocating a node and storing a file's text as a whole never fail, as the kernel halts
-- when its heap is exhausted; where `sys_write` grows a file the panic is a result, `none`.
--
-- Parameters. The code of the standard library and of the system calls is a parameter: `trim` and
-- `utf8` (str::trim, str::from_utf8) in Shell, and `creates`, whether File::create gives a file;
-- `Files` in Scarf, what the file system answers while one key is handled, and `bottom`, ratatui's
-- Rect::bottom; `Driver` in Disk, a disk's driver with a state of its own; `User` in Syscall, the
-- caller's memory, the answers of the keyboard's polls, and `grows`, whether the kernel's heap has
-- room for a file of some length, for Vec::resize; in Process what the ELF loader gives, and what
-- happens in the processes from one turn to the next.
--
-- Not modelled: the page allocator's init, the page tables, the file system's image on disk, fork,
-- the system calls on memory, terminals, processes, sound and time, the ELF loader, the drivers of
-- hardware (registers and DMA), the consoles, the rest of the shell, the drawing of the programs, the
-- music player and the library of system calls.
pub mod Common
pub mod Heap
pub mod Pipe
pub mod Tile
pub mod Vfs
pub mod Syscall
pub mod Process
pub mod Crc
pub mod Pmm
pub mod Shell
pub mod Disk
pub mod Keyboard
pub mod Scarf
