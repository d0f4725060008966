-- ===== src/Lib.antt =====
-- Verification of the C part of the Lappis kernel.
--
-- The kernel boots from a multiboot loader, sets up its heap, its interrupt table and its drivers,
-- reads a zip archive from its disk, shows one of the archive's files as the background, and enters
-- a userland program that it loads from another. Its C functions are translated one by one into commands:
-- functions from a machine to a result and the next machine.
--
-- Machine: byte memory, the globals of src/kernel/heap.c, and a trace of what is visible outside
--   (port accesses, messages, privileged instructions, accesses that SMAP checks), newest first. A run
--   ends with a result, is `stuck`, or has `entered` a program, from which the kernel does not go on. Machine.Memory holds stores,
--   fills and what a range of memory holds; Machine.Ports the functions of src/kernel/ports.c. A
--   `Platform` is what the C relies on and does not contain: the linker's addresses, the devices
--   behind the ports, memcpy (src/kernel/memcpy.c), vsnprintf (src/kernel/tinyprintf.c) and the
--   font. Where a theorem needs memcpy to copy, that is its hypothesis `MemcpyCopies`.
-- Base: numbers, lists, bits and little-endian bytes.
--
-- Heap: src/kernel/heap.c, malloc and userland_malloc; Heap.Alloc one call, Heap.Sequence any
--   sequence of calls, Heap.Userland the userland side.
-- Strings: src/kernel/string.c; Strings.Length, Equal, Search, Append, Decimal.
-- Zip: src/kernel/format/zip.c. Zip.Archive is the format that it reads, as an encoder that does
--   not know the reader. Zip.Cursor is the cursor of the reader; Zip.Bytes and Zip.Parts are about
--   its numbers, Zip.Peek about peek_zip, Zip.Blocks and Zip.Discard about the blocks that are
--   filled, and Zip.LocalFile, Zip.Directory and Zip.Read about the parts and the loop of read_zip.
-- Serial, Pic, Ps2, Video, Print: the files of these names under src/kernel, with Serial.Wait,
--   Serial.Text, Serial.Message, Pic.Remap, Ps2.Timeout, Video.Pixels, Video.Below, Video.Clear,
--   Video.Frame, Print.Shown and Print.Box.
-- Keyboard, Mouse, Ata: src/kernel/drivers, with Keyboard.Buffer, Keyboard.Ascii,
--   Keyboard.Handler, Mouse.Cursor, Mouse.Packet, Ata.Sector, and Ata.Drive, which reads from a
--   drive that keeps to the protocol, which is in Ata.Serving. Keyboard.Interleave splits circ_buf_pop into its accesses.
-- Idt: src/kernel/idt.c, with Idt.Descriptor and Idt.Timer. The interrupts that arrive during sleep
--   are its argument, with the places at which they arrive.
-- Elf: src/kernel/elf2.c, the header; Elf.Segments the rest of it. Elf.Copy is about fields that
--   are copied from the file to a block, Elf.Numbers, Header, Fields and Ident about the header, and
--   Elf.Segments.Enter, Phdr, Sections, Ready and Program about the rest.
-- Multiboot: src/kernel/multiboot.c, with Multiboot.Walk.
-- Syscalls: src/kernel/syscalls.c; Syscalls.Getch and Syscalls.PrintCall one call each.
-- Fpu, Kernel: src/kernel/fpu.c and src/kernel/kernel.c. Kernel.Cpu is about the processor,
--   Kernel.Files, Program and Background about the two searches of `main`, Kernel.Boot about
--   both behind the reading of the archive, and Kernel.Enter about what the program's entry comes to.
-- Userland: src/userland/userland.c, the shell, over what is typed, for any number of rounds, with
--   Userland.Strip, Userland.Line and Userland.Shell. sprintf (src/userland/tinyprintf.c) is a parameter.
-- Mandel: src/kernel/mandel.c, for any operations on doubles; Mandel.Escape and Mandel.Picture.
-- Tests: the machines and inputs on which the theorems are applied.
--
-- How the parts meet: every part that allocates calls Heap; the drivers and Serial go through
-- Machine.Ports; Keyboard and Mouse show text through Print, which draws through Video; Elf reads
-- with the functions of Zip; Idt starts Pic, Mouse and Ata. Syscalls waits on the buffer that the
-- handler of Keyboard fills, and prints through Serial; Kernel calls them all.
--
-- Numbers are natural numbers, and a w-bit operation has its wrap-around written out. Signed
-- numbers are their bit patterns. A loop that the source bounds by data is recursion on that data.
-- A loop that waits for a device or looks for a terminator is recursion on fuel, the platform's
-- `rounds` or an argument of that name: `stuck`, or `none` in Strings, is a loop that was still
-- running. `stuck` is also an allocation whose wrapped size makes it zero the guard page behind its
-- heap. A read or write elsewhere does not fault. Each theorem that says that a function returns asks for more rounds than the input has
-- bytes, sections or tags, and holds for every such number.
--
-- Not modelled: the assembly files, which are instructions, as are sys_print and sys_getch of
-- src/userland/userland.c, the Rust and Zig files, the third-party
-- memcpy.c, tinyprintf.c and font data, and kprint of print.c, which links nodes on the stack of
-- calls that have returned. A call of `debug` or `error` is an event with its format and its
-- arguments for the function that makes it; what the call sends is in Serial.Message.
pub mod Base
pub mod Machine
pub mod Heap
pub mod Strings
pub mod Serial
pub mod Zip
pub mod Pic
pub mod Ps2
pub mod Video
pub mod Print
pub mod Keyboard
pub mod Mouse
pub mod Ata
pub mod Idt
pub mod Elf
pub mod Multiboot
pub mod Userland
pub mod Mandel
pub mod Syscalls
pub mod Fpu
pub mod Kernel
pub mod Tests
