-- ===== src/Lib.antt =====
-- The 8-bit computer: the programs in C that run on it and around it.
--
-- Parts and files:
--
-- Fs models the file system, shell_in_c/fs/src/common/fs.c with shell_in_c/fs/include/fs.h and
-- disk.h. It keeps files in a disk of 64 blocks of 512 bytes: the superblock, five blocks with
-- two inodes each, and the data blocks, to which an inode has five pointers. The free blocks are
-- in a bitmap in memory, which `fs_mount` builds from the inodes. The shell and the FUSE
-- bindings call it; it calls a disk, which has one implementation over the serial line and one
-- in a file. Fs.Layout is the structures as bytes of a block (cc65's layout, with no padding and
-- words low byte first), Fs.Disk the interface of the disk, Fs.State the state that the
-- functions change (the heap, the disk, the bitmap, the superblock in memory). Fs.Bitmap,
-- Fs.Format, Fs.Create, Fs.Write and Fs.Read have the functions of fs.c, named as there
-- (`fs_write` is `fs_write`), each loop a function of its own; their child modules have the
-- theorems. Fs.Valid is the invariant: the tables of the inodes (Fs.Valid.View) and the
-- ownership of blocks (Fs.Valid.Table). Fs.Roundtrip combines operations. Fs.Examples is a disk
-- with files. Fs.Client has the calls of a client, `session`, which formats and mounts a disk
-- first, and `replay`, the same calls on abstract files, each a size and bytes;
-- Fs.Client.Represents says which disks stand for which files; Fs.Client.Remount switches the
-- machine off and mounts the disk again.
--
-- Fuse models shell_in_c/fs/src/fuse/fuse_binds.c over the interface `FileApi`, since the
-- bindings are compiled with the host's wider integers. Fuse.Reads is about any file system
-- behind the interface.
--
-- Sim models the bus of the simulator and its devices: sim/src/bus.c, ram.c, rom.c, spy.c,
-- um245.c and via6522.c. Sim.Bus has `Bus_Read` and `Bus_Write` as `bus_read` and `bus_write`
-- with the RAM, the ROM and the spy, Sim.Um245 the adapter that hands bytes of the 6522's port B
-- to a pipe, Sim.Via the interface of the 6522. Sim.Bus.Session is a sequence of accesses, as
-- the processor makes them.
--
-- Sim.Emulators is the interface of the emulators, and Sim.Main models sim/src/main.c: `cycle`
-- is a round of the loop in `main`, `debugger` the loop that reads the lines, `scan` what a line
-- asks for. Sim.Main.Watch says what the debugger leaves alone, Sim.Main.Fuel and Sim.Main.Ends
-- how it ends, Sim.Main.Resume how it gives control back, Sim.Main.Stack and Sim.Main.Peek what `print-stack` and `peek` show,
-- Sim.Main.Cycles what holds over all rounds, Sim.Main.Start the image of the ROM and the
-- devices at the start (rom.c, ram.c).
--
-- Sim.Labels models sim/src/labelmap.c, the file of labels that the linker writes, with the
-- conversions of `sscanf` and the sizes of the variables that they fill (Source). Sim.SectorDisk is sim/src/disk.c, which nothing calls.
--
-- Disks models the two implementations of the disk: Disks.Serial is
-- shell_in_c/fs/src/mcu/disk.c, which talks to the other end of the serial line in packets
-- (Disks.Serial.Leak is about a sequence of writes), and
-- Disks.File is shell_in_c/fs/src/fuse/disk.c, which keeps the disk in a file.
--
-- Server models the other end of the serial line, serial/tokenizer.go and `run` and
-- `handleToken` of serial/main.go. Server.Tokens is the tokenizer, whose `submit` takes the
-- packets out of the bytes that arrive, Server.Disk the file with the blocks, Server a round of
-- the loop in `run` as `on_byte`. Disks.Link puts the disk over the serial line and the server
-- together, and Disks.Link.Law makes the two an implementation of the interface of the disk
-- (`line_disk`).
--
-- Shell models shell_in_c/main.c. Shell has how a line is read and a command is chosen:
-- `my_strncmp`, the chain of comparisons in `main` as `dispatch` over a table of the words, and
-- a round of its loop as `on_char`. Shell.Commands has what the commands do, under the names of
-- main.c (`shell_fs_write` is `shell_fs_write`), on the terminal of Shell.Terminal, which holds
-- the file system, the bytes that will arrive and what has been written. Its children have the
-- loop that reads a text (Text) and mounting (Mount): the structure of the file system has a
-- block that is too small, so that a mount is a fault. The disk's packets and the terminal share
-- the serial line on the hardware; in the model the disk stands apart. Shell.Loop is the start of `main`, a round of
-- its loop, and the loop of `shell_spi`. `serial_writeline_f` is shell_in_c/common/src/serial.c.
--
-- Leds models the examples leds_in_c/main.c (Leds and Leds.Clock), main_memory_mapped.c and
-- main_fast_call_with_param.c (Leds.Spin), and lcd_in_c/main_lcd.c (Leds.Counter).
--
-- Common has the tests on numbers, the result type, memory as bytes, the integer conversions,
-- and the numbers that `sscanf` reads.
--
-- Modelling:
--
-- A run ends in a value or in a fault: an access out of bounds, a use of a null pointer, of a
-- variable with no value, or `exit(EXIT_FAILURE)`. `size_t` and `int` have 16 bits, as cc65 has
-- them, with the wrap-around written out. The heap is a number of free bytes: `malloc` takes
-- what is asked and fails when there is less; what a function does not free is lost. The
-- overhead of the allocator's own records is not counted. A function that fills a buffer is
-- given the buffer's bytes and returns them. Loops over an index are structural; the two `while`
-- loops (the blocks of `fs_write`, the copies of `fs_read`) have as much fuel as there are bytes
-- to go, which is enough since each round handles a byte at least: the theorems state that the
-- result is there. A disk's functions do not fail, which fs.c never looks at. The input of the
-- adapter's pipe is the list of the answers of `read`. The 6522 emulator is a parameter: reads
-- and writes of registers that change an unknown state. So is the 6502 emulator: a tick is any
-- finite sequence of reads and writes of the memory, in which what is done depends on what has
-- been read. The debugger's loop has a round for each character of the input and 65 for those
-- after its end, which fill the array of the line; the main loop has no end of its own, so the
-- theorems are about any number of its rounds; so are those about the shell's loop, and the loop
-- of `shell_spi` has as many rounds as there are bytes up to the bar. One theorem relies on the
-- chip's port B as an output (the record `PortB`).
--
-- Memory is what the functions of fs.c ask for; what a disk takes of the heap for itself
-- (mcu/disk.c) is in Disks.Serial and not in the interface of the disk, and a disk behind the
-- interface does not fail. Over the serial line a theorem on fs.c thus stands for runs in which
-- the disk has the memory that it needs.
--
-- Not modelled: output for debugging; `fs_find`, which looks into a table that is never created;
-- the hash table; libfuse; the shell's commands in assembly and `fsfind`, the simulator's log;
-- the processor emulator; the devices, console and log of the tool in Go; the programs in
-- assembly.
pub mod Common
pub mod Fs
pub mod Sim
pub mod Disks
pub mod Shell
pub mod Server
pub mod Leds
pub mod Fuse
