-- ===== src/Tests/Loader.antt =====
-- A run of the loader on a segment that starts inside a page and ends in the next.
use riscv_mos.Base.{◌≡◌, arith, pos}
use riscv_mos.Kernel.{ok}
use riscv_mos.ElfLoader.{Phdr, elf_load_seg}
use riscv_mos.ElfLoader.Covers.{in_order, elf_load_seg-covers}

abbrev segment : Phdr
segment = record {
  p_type = 1;
  p_flags = 6;
  p_offset = 4096;
  p_vaddr = 0x400100;
  p_filesz = 5000;
  p_memsz = 9000;
}

elf_load_seg-covers_example :
    elf_load_seg (in_order 0x400100 0x80300000) segment 0x80300000 0 ≡ ok (pos 0) 5000
elf_load_seg-covers_example = elf_load_seg-covers segment 0x80300000 (omega arith) (omega arith)
