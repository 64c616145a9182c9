-- ===== src/Lib.antt =====
-- riscv-mos: the kernel of a small operating system for RISC-V (Sv39), its C code as functions on
-- explicit states.
--
-- The parts, and how they build on each other:
--   lib/string.c      Strings (`memset`), with its bytes in Strings/Fill, Strings/Copy (`memcpy`), with
--                     its bytes in Strings/Copy/Bytes, and Strings/Text (`strlen`, `strcpy`, `strchr`,
--                     `strcmp`). Memory itself, bytes at addresses and the little-endian words that C
--                     reads there, is Mem.
--   kern/phypage.c    Page (`kinit`, `freerange`, `kalloc`, `kfree`). The free list stands in memory:
--                     the first word of a free page is the address of the next. Page/Chain is the
--                     list that it stands for, Page/Alloc and Page/Init are about the operations.
--   kern/vm.c         Vm (`walk`, `lookup`, `mappages`, `kvmmap`, `uvmunmap`) and Vm/User (`uvmalloc`,
--                     `uvmdealloc`, `uvmcreate`, `freewalk`, `uvmfree`, `kvm_copy_to_user_pagetable`,
--                     `kvmcreate`, `kpgtable_init`, `kvm_init`, and `env_create_envs` of kern/env.c).
--                     Tables are pages of the same memory, from the same free list. Vm/Pte has the
--                     macros of include/mmu.h, Vm/Tables the tree that a root stands for and the entry
--                     of an address (off the root entry `own`, by which `env_setup_vm` lets a root
--                     point back at itself; Vm/Own), Vm/Entries the writes of one entry, Vm/Grow the
--                     creation of a table, Vm/Spared the memory that is neither table nor free,
--                     Vm/NewPage a page that is filled and mapped, Vm/Region a range of such pages, and
--                     Vm/Walk, Vm/Map, Vm/Lookup, Vm/Unmap, Vm/Alloc (`uvmalloc`), Vm/Create
--                     (`uvmcreate`, `uvmfree`) and Vm/Share (`kvm_copy_to_user_pagetable`, with
--                     Vm/Share/Ranges) are about the operations.
--   include/queue.h   Queue: LIST and TAILQ, with the pointers that point back at pointers. Queue/Shape
--                     says which list a store of entries stands for; Queue/Insert, Queue/Remove,
--                     Queue/Between and Queue/Tail are about the operations.
--   kern/env.c        Env (the state), Env/Asid (`asid_alloc`, `asid_free`), Env/Ids (`mkenvid`,
--                     `envid2env`), Env/Init (`env_init`), Env/Life (`env_setup_vm`, `env_alloc`,
--                     `env_free`, `env_run`) and Env/Create (`load_icode_mapper`, `load_icode`,
--                     `env_create`, and `elf_from` of lib/elfloader.c). An environment is its index in
--                     the table `envs`. Env/Life/Setup and Env/Life/Alloc are about `env_setup_vm` and
--                     `env_alloc`; in Env/Create, Pages is about the callback, Segment about a segment,
--                     Kept, Program and Icode about all segments of an image, and Created about
--                     `env_create` as a whole.
--   lib/elfloader.c   ElfLoader (`elf_load_seg` over any callback), and ElfLoader/Covers, about the
--                     calls that it makes.
--   include/stackframe.h, kern/kexcentry.S, kern/traps.c
--                     Trap: the macros SAVE_ALL and RESTORE_ALL as lists of instructions on a hart, with
--                     Trap/Frame about blocks of stores and loads, and Trap/Save, Trap/Restore about the
--                     two. Trap/Context relates the frame to what `env_run` keeps of it. Trap/Dispatch
--                     is the table of handlers and the index into it.
--   lib/print.c, kern/printk.c, kern/machine.c
--                     Print (`print_num` on its buffer, `print_char`, `print_str`), Print/Format
--                     (`vprintfmt` over any callback) and Print/Console (`printk`, `print_tf`, `panic`).
--                     Print/Buffer is the buffer as a list, Print/Number the notation of a number,
--                     Print/Reading a reader for it, Print/Bounds the part of the buffer that is used;
--                     Print/Rendering describes formats as lists of directives, Print/Rounds compares,
--                     Print/Pieces describes formats as they are written down and what they mean,
--                     Print/Directive and Print/Written compare, Print/Decimal has decimal digits,
--                     and Print/Shorter and Print/Ending are about the end of the loop.
--   tools/readelf     ReadElf (readelf.c) and ReadElf/Main (main.c).
--   tools/bintoc.c    BinToC; BinToC/Declared and BinToC/ReadBack read what it writes.
--   tools/fsformat.c  FsFormat, FsFormat/Files (`create_file`, `write_file`, `finish_fs`) and
--                     FsFormat/Host (`write_directory`, `main`), with FsFormat/Links,
--                     FsFormat/Unused, FsFormat/Bitmap, FsFormat/Fresh and FsFormat/Endian about
--                     links to blocks, unused files, the bitmap of blocks and the byte order.
--   kern/timer.c      Timer.
--   kern/sched.c      Sched (`schedule`, and `env_destroy` of kern/env.c); Sched/Runs and Sched/Round
--                     are about the queue and what runs, Sched/Started about a schedule after
--                     `env_create`, Sched/Destroyed about `env_free` and `env_destroy`.
--   init/init.c       Boot (`rv_main`), which calls the parts in turn.
-- Base has what the parts share: tests on numbers, C's integer types by their wrap-around, `|` and `&`
-- as arithmetic. Kernel has the state of the memory code, the layout of include/mmu.h, and the outcomes
-- of a function: a result with the state after it, a panic with its message, a use of a pointer that
-- C leaves undefined, or the end of the fuel. Tests has runs at concrete states.
--
-- Bounds. `mappages` and `kvm_copy_to_user_pagetable` have a round of fuel for each page below MAXVA and
-- one more, `uvmunmap` one for each page of the range and one more, `freerange` one for each page below
-- the end, `uvmalloc` one for each page of the new size and two more, `freewalk` one level for each page
-- of the heap. The loops of `memset` and `memcpy` have one for each byte, `elf_load_seg` one for each
-- page and two more, and `load_icode` as many as 16 bits can count headers. The functions on strings
-- take their fuel as an argument.
--
-- `print_num` has 64 rounds for the digits of a 64-bit number, enough for a base from 2 on, and one for
-- each byte of the output to turn it around; `vprintfmt` takes its fuel as an argument, and `printk` gives
-- it one round for each byte of the format and one more. The loops of tools/fsformat.c have as many
-- rounds as they count.
--
-- Not modelled: the output of the kernel, outside of Print, since it changes no state that the rest
-- reads; `sfence_vma` and the TLB; the assembly that calls the handlers, switches into an
-- environment and boots; input and output of the tools for the host, whose results are arguments. The
-- time that a register gives is an argument, and so is the end of the kernel's text, in a word of
-- init/mem.S. The structures of user/include/fs.h, which tools/fsformat.c includes, are not in the
-- repository: a parameter of FsFormat has their sizes and offsets.
pub mod Base
pub mod BinToC
pub mod Boot
pub mod ElfLoader
pub mod Env
pub mod FsFormat
pub mod Kernel
pub mod Mem
pub mod Page
pub mod Print
pub mod Queue
pub mod ReadElf
pub mod Sched
pub mod Strings
pub mod Tests
pub mod Timer
pub mod Trap
pub mod Vm
