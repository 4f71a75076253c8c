-- ===== src/Lib.antt =====
-- unix-p6, a kernel for P6 computers.
--
-- The kernel is a set of C files under src/kernel, with headers under include/kernel. The files that
-- model it:
--
--   Prelude    what the parts share: tests and casts, the bits of a word (Prelude/Bits), and
--              byte-addressable memory with little-endian accesses (Prelude/Memory). Prelude/Text: the
--              characters of a literal.
--   Tools      the kernel's own library, src/kernel/tools. Fill: the routines that fill memory, of
--              t_mem.c. Copy: those that copy and compare it. Fast: tfastcpy. Str: the string
--              routines of t_sai.c (Scan: strlen and strcpy; Find: findch; Compare; Reverse; Text: a
--              string as a list of characters; Numeral, DigitsLoop and Convert: what the conversions
--              of numbers write; Digits: that it is read back).
--   Pmm        the physical memory manager, src/kernel/arch/pmm.c and include/kernel/mem.h: its
--              state (a stack of regions, the first region, the first dynamic block, and the memory
--              that holds the bitmaps). Sizes: align_up and calc_blocks_and_bitmaps. Block: the
--              inline functions on entries of the memory map. Init: mm_initmemblock, cut into the
--              steps of its body, and mm_init. Word: the loops over the bits of one word of a
--              bitmap. Alloc: frame_alloc. Free: frame_free (Undo: after frame_alloc). Startup:
--              mm_init on the map of a machine, and what both allocators then return.
--   Dmm        the dynamic memory manager, src/kernel/arch/dmm.c: headers of blocks in memory.
--              Layout: a list of blocks one behind the other, and what kmalloc does to it (Header,
--              Alloc, Fresh, Calls). Aligned: where kaligned_alloc puts the data. Chain: a list of
--              blocks at their addresses. Free: what kfree does to it (Merge, Merged, Runs, Walk,
--              Release, Search). Faults: sizes that do not fit. Pmm's cut_dynamic makes the first
--              block.
--   Vga        the text terminal, src/kernel/drivers/tvga.c: the cursor, the colour, the screen in
--              memory and the bytes written to the cursor's port. Cursor: where the cursor goes.
--              Screen: what the screen shows.
--   Vbe        the framebuffer, src/kernel/drivers/vbe.c. Pixels: what a command does to them.
--   Seg        the segments, src/kernel/arch/seg.c and the descriptors of include/kernel/x86.h.
--              Encoding: what the processor reads.
--   Idt        the gates of the interrupt table, src/kernel/arch/idt.c. Gates: where vectors lead.
--              Exception: handle_exception, over the log of Serial (Report: what it puts out).
--   Irq        the interrupt controllers, src/kernel/arch/irq.c, and the table of handlers of
--              src/kernel/arch/idt.c. Mask: the masks of the lines. Handlers: what is called.
--   Serial     the serial port, src/kernel/arch/com.c, and the log, src/kernel/log.c, which puts the
--              characters of Format out to Serial or to Vga. Output: what comes out. Logged: calls one
--              after the other.
--   Modules    the list of boot modules, src/kernel/modules.c. Table: what it holds.
--   Boot       the walk over the boot loader's tags, src/kernel/sysinit.c, which fills Modules and
--              sets up Vbe and Vga. Mmap: the loop over a memory map. Step: one tag. Tags: the list.
--              Faults: a tag of no bytes.
--   Tar        the archive reader, src/kernel/fs/tar.c. Init: tar_init, over Dmm. Size: tar_get_size. Walk: tar_get_file.
--   Format     the formatted output __doprnt, src/kernel/tools/t_doprnt.c. Piece: a format as a
--              list of pieces. Plain: strings. Directives: one piece. Loop: a whole format. Long:
--              the directive %l.
--   Kernel     the entry, src/kernel/kernel.c, from sys_init on: the first module as an archive, with
--              Boot, Modules, Dmm and Tar. Initrd: where it ends.
--
-- State is passed explicitly: an operation takes the state of its part and returns the new one. A
-- pointer into the static array `bitmap_stack` is an index, any other address is a number, and the
-- memory is a function from addresses to cells, of which an access sees the low eight bits. 32-bit
-- arithmetic is written out modulo 2 ^ 32; the address of an array element is not reduced, since a
-- pointer that leaves its array is undefined in C. An access through a NULL pointer that the code
-- does not test is the outcome `fault`.
--
-- Loops over a counter recur on the rounds left. calc_blocks_and_bitmaps runs on 2 ^ 32 rounds: each
-- takes a frame away, modulo 2 ^ 32, so that each number has been tried. The walks along the regions run
-- on 33 rounds, one more than the stack has entries; a chain that is longer is a cycle.
-- Loops that run until a terminator, and tmemcpyw, whose counter wraps, return an Option and run on
-- fuel: one round more than the string has characters, or than there are units, is enough. The
-- conversions of 32-bit numbers are done on 33 rounds. tvga_scrollscreen copies 1920 units and gives
-- tmemcpyw 1921 rounds. tfastcpy runs on more rounds than bytes, for 32 bytes or more. kmalloc and
-- kfree run on one round more than there are blocks; a chain that is longer is a cycle. The wait for
-- the serial port runs on more rounds than polls that find it busy, the walk over the tags on one
-- round more than there are tags, that over a memory map on more rounds than the tag has bytes. A
-- format runs on as many rounds as it has pieces and 33 or one more than its longest string has
-- characters.
--
-- Not modelled: messages to the log of the parts but handle_exception (the message of frame_free is
-- its Boolean result), and the memory map's own place in memory, which the model keeps as a list
-- beside it. The screen, the variables of the kernel and the tags of the boot loader are taken to lie apart from each
-- other. include/kernel/multiboot2.h is the boot protocol's published header: the offsets that
-- sysinit.c uses are written out. Of src/kernel/kernel.c, seg_init and idt_init are not called by the
-- model of kmain; of t_mem.c _cpuid is left out, and so is all that
-- is assembly: the accesses to ports, whose reads are parameters and whose writes are lists, and the
-- loads of the descriptor tables.
pub mod Prelude
pub mod Tools
pub mod Pmm
pub mod Dmm
pub mod Vga
pub mod Seg
pub mod Idt
pub mod Serial
pub mod Modules
pub mod Vbe
pub mod Boot
pub mod Irq
pub mod Tar
pub mod Format
pub mod Kernel
