-- ===== src/Lib.antt =====
-- A model of the ukulele kernel (src/ of the repository) and proofs about it.
--
-- The parts and how they interact:
--
-- Page.antt: pages, their alignment test and the direct map (src/include/page.h,
--   src/include/macros.h, src/memory/pmm.h).
-- Pmm.antt and Pmm/: the physical page allocator, src/memory/pmm.c. `pmm_new`, `pmm_add`,
--   `pmm_allocate_page`, `pmm_free_page` and `pmm_count_pages` are `new`, `add`,
--   `allocate_page`, `free_page` and `count_pages`. A `struct pmm` is the list of its 168 entries,
--   each holding the 512 words of its control block. Word and Block read a control block as a set
--   of page indices, Init and Scan are about `pmm_ctrl_initialise` and `pmm_ctrl_alloc`, Valid has
--   the invariant and the abstract view (a state for every address), Update the change of one
--   page's state, and Client the step relation of a kernel that allocates and frees.
-- Libk/Str.antt and Libk/Str/: the string functions of src/libk/string.c, and the assembly
--   `strnlen` and `strlen` of src/libk/string_x86.s, which take the place of the C ones in the x86
--   build: `fputs` and `print_string` are modelled with them. Memory is a function from addresses
--   to bytes.
-- Libk/Int.antt, Libk/Stdio.antt and Libk/Stdio/: the streams of src/libk/stdio.c over the functions
--   of a cookie, and the signed integers of C as words. A `FILE*` is a stream's number.
-- Libk/Printf.antt and Libk/Printf/: src/libk/vfprintf.c. Convert has the conversions, each named as
--   in the source, and Format `parse_format_str` and `vfprintf`. `longjmp` is the result `none` of a
--   step, next to the state reached by then. Digits and Numbers are about the digits of numbers,
--   Strings about `%s` and `%c`, Plain about plain text, Fuel shows that the fuel of the loop is
--   enough, and Print has `fprintf`, `printf` and `perror` of src/libk/stdio.c. A format is a string constant, and the address where the
--   linker puts a constant that is printed with `%s` is a parameter.
-- Libk/Errno.antt: the error texts of src/libk/errno.c.
-- Vaddress.antt and Vaddress/: the allocator of address space, src/memory/vaddress.c, with the page
--   allocator as a parameter. Ranges has the covered addresses, Nodes the storage of the list, Valid
--   the invariant; Allocate, Free and Pages are about `vaddress_allocate`, `vaddress_free` and the
--   physical allocator in the parameter's place, and Print about `vaddress_print`.
-- Tar.antt and Tar/: src/tar.c, over such a memory.
-- Allocator.antt and Allocator/: the type-erased allocators of src/memory/allocator.c; the table of
--   function pointers is a record of functions. Realloc is about the fallback of `krealloc`.
-- Arena.antt and Arena/: the arena of src/memory/arena_allocator.c, which cuts blocks from whole
--   pages, again over any page allocator. Align is about `align_p2`, Alloc about
--   `arena_pmm_alloc`. `arena_pmm_vtbl` is its table of functions for Allocator.antt.
-- Mmu.antt and Mmu/: the page tables, src/drivers/mmu.c, over a memory of 64-bit words and any page
--   allocator, with `cr3` as a parameter. `node_callback_reserve`, `node_callback_gc` and
--   `node_callback_leaf` are `node_reserve`, `node_gc` and `node_leaf`, and `mmu_assign`,
--   `mmu_remove` and `mmu_lookup_step` are `assign`, `remove` and `lookup_step`. Words is about
--   masks and entries, Blocks and Cut about the ranges of `apply_nodes`, Walk and Cover about its
--   recursion over a range; Tree has the map from virtual addresses to pages, the tree that the
--   tables make up, and what is relied on of the allocator; Source says that the physical page
--   allocator provides it. Reserve and Grow are about one new table, Extend about those for a range,
--   Leaf about one entry at the end, Fill and Change about those of a range, Unlink and Sweep about
--   one table that is given back and Collect about all. Entry is about the checks of
--   `apply_nodes_entry`. Ranges has the calls for ranges, Assign and Remove those for one page,
--   Lookup `mmu_lookup_step`, and Faults a call of `mmu_remove_1` that goes wrong. Same is about
--   writes outside the tables. The permissions of an entry, beyond its word, and the processor's
--   buffer of translations are not modelled.
-- Kernel.antt and Kernel/: the kernel's start, src/kernel.c, over the answers of the boot
--   loader. `print_meminfo` sets up the page allocator from the memory map (Map and Round are
--   about one entry, Meminfo about all), LowerHalf is about `clear_map_lower_half`, and Dump about
--   `xxd`.
-- Serial.antt and Serial/: the serial driver, src/drivers/serial.c, over the two port instructions,
--   and the cookie of src/kernel.c that writes to a port. Uart says what is relied on of the
--   hardware; Detect is about `serial_detect`, Output about bytes that go out and come in, also
--   through the streams.
-- Framebuffer.antt and Framebuffer/: the screen, src/drivers/fb32.c, and the cookie of src/kernel.c
--   that writes text there. Glyph is about the pixels of a character, Cursor about the place of the
--   next one, Steps and Line about `framebuffer_draw_line`, and Fractals about the endless
--   `framebuffer_dofractals`, of which the model runs a number of rounds.
-- Base.antt and Base/: lists, wrap-around, the digits of a number under the bit operations,
--   and `Outcome`, the result of a call that may panic.
--
-- Words of w bits are numbers with their wrap-around written out. A loop that the source bounds is
-- a recursion on its bound; the others take fuel: `pmm_add` gets a round for each 128 MiB of the
-- range and one more, `vfprintf` a round for each character of the format string, the count of the
-- digits of a 64-bit number 64 rounds, a callback of the page tables one for each of the 4 levels,
-- the drawing of a line a round for each step and one more, and `strlen`, `strstr` and the arena's
-- `del` take theirs as an argument.
--
-- Not modelled: the generated font (src/font/font.c, a parameter), the rest of the kernel's entry
-- (src/kernel.c: the order of the calls in `kernel_main`, the lines about the boot loader and the
-- test runs), src/panic.c, whose `panic` is a result of the model, the boot code
-- (src/boot), and src/memory/vmm.c, which the build leaves out. The report of
-- `pmm_allocate_page` that no page is free is left out; those of `pmm_add` are values of `Warning`.
pub mod Base
pub mod Page
pub mod Pmm
pub mod Libk
pub mod Vaddress
pub mod Mmu
pub mod Framebuffer
pub mod Serial
pub mod Tar
pub mod Allocator
pub mod Arena
pub mod Kernel
