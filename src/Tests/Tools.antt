-- ===== src/Tests/Tools.antt =====
-- Runs of the tools, with a header of the shape that tools/fsformat.c asks for.
use riscv_mos.Base.{
  ℕ, ◌%◌, ◌≡◌, refl, arith, ◌&&◌, ◌||◌, ◌==◌, ltb, leb, if◌then◌else◌, inl, ◌⊎◌, [], ◌∷◌, get_elem?,
  pos, true, some, none, negsuc,
}
use riscv_mos.Kernel.{ok}
use riscv_mos.Print.Buffer.{repeat}
use riscv_mos.ReadElf.Main.{OpenFile, readelf_main}
use riscv_mos.Mem.{Mem, load, load32, store8}
use riscv_mos.ReadElf.{IsElf, is_elf_format, readelf, readelf-sections, section, section_loop}
use riscv_mos.FsFormat.{
  Header, Image, put_bytes, data_at, type_at, block_index, block_bmap, reverse_block, flush_bitmap,
  init_disk, save_block_link,
}
use riscv_mos.FsFormat.Files.{create_file, search_blocks, unused_file}
use riscv_mos.FsFormat.Unused.{SizeApart, nblk, Reuses, Extends, create_file-unused}
use riscv_mos.FsFormat.Links.{HasRoom, Linked, save_block_link-Linked}
use riscv_mos.FsFormat.Endian.{IsBytes, turned, reverse_block-turns}
use riscv_mos.FsFormat.Fresh.{IsRoomy, flush_bitmap-init_disk}
use riscv_mos.FsFormat.Bitmap.{block_bit}

abbrev header : Header
header = record {
  block_size = 4096;
  block_size_bit = 32768;
  ndirect = 10;
  nindirect = 1024;
  file2blk = 16;
  maxnamelen = 128;
  fs_magic = 0x68286097;
  ftype_dir = 1;
  ftype_reg = 0;
  file_size = 256;
  f_name = 0;
  f_size = 128;
  f_type = 132;
  f_direct = 136;
  f_indirect = 176;
  super_size = 264;
  s_magic = 0;
  s_nblocks = 4;
  s_root = 8;
  super = 0x10000;
  disk = 0x100000;
}

-- An image with three blocks in use, on cleared memory.
abbrev image : Image
image = record { mem = λ a. 0; nbitblock = 1; nextbno = 3 }

header-HasRoom : HasRoom header
header-HasRoom = record {
  direct = omega arith;
  indirect = omega arith;
  separate = inl (omega arith);
  words = omega arith;
}

save_block_link-Linked_example :
    (s' : Image) × (save_block_link header 0x10008 12 7 image ≡ ok tt s')
    × Linked header image s' 0x10008 12 7
save_block_link-Linked_example =
    save_block_link-Linked header header-HasRoom 0x10008 12 7 (omega arith) (omega arith) image
      (omega arith) (omega arith) (inl (omega arith))

header-IsRoomy : IsRoomy header
header-IsRoomy = record {
  bits = refl;
  words = refl;
  many = omega arith;
  magic = omega arith;
  nblocks = omega arith;
  root_type = omega arith;
  root_name = omega arith;
  apart = inl (omega arith);
}

flush_bitmap-init_disk_example :
    block_bit header (flush_bitmap header (init_disk header image)).mem 1023
    ≡ (if leb 3 1023 && ltb 1023 1024 then 1 else 0)
flush_bitmap-init_disk_example =
    flush_bitmap-init_disk header header-IsRoomy image 1023 (omega arith)

-- A block of links.
abbrev index_mem : Mem
index_mem a =
    if a == type_at header 5 then block_index else if ltb a (type_at header 5) then a % 256 else 0

index_mem-IsBytes : IsBytes index_mem
index_mem-IsBytes a = ground arith

index_type : load32 index_mem (type_at header 5) ≡ 6
unfolding load
index_type = refl

reverse_block-turns_example :
    (reverse_block header 5 index_mem 1069570 ≡ (
      if load32 index_mem (type_at header 5) == block_index
        || load32 index_mem (type_at header 5) == block_bmap
      then turned header index_mem 5 1069570
      else index_mem 1069570))
    × (reverse_block header 5 (reverse_block header 5 index_mem) 1069570 ≡ index_mem 1069570)
reverse_block-turns_example =
    reverse_block-turns header 5 index_mem 1069570 index_mem-IsBytes
      (λ e. absurd (omega (arith, index_type, e))) (λ e. absurd (omega (arith, index_type, e)))

-- The header of an image with two section headers at 52, of 40 bytes, for addresses 0x1000 and 0x2000.
abbrev elf : Mem
elf a =
    if a == 0
    then 0x7f
    else if a == 1
    then b'E'
    else if a == 2
    then b'L'
    else if a == 3
    then b'F'
    else if a == 32
    then 52
    else if a == 46
    then 40
    else if a == 48
    then 2
    else if a == 65
    then 0x10
    else if a == 105
    then 0x20
    else 0

readelf_run : readelf elf 0 132 ≡ (pos 0, (0, 0x1000) ∷ (1, 0x2000) ∷ [])
unfolding readelf is_elf_format section_loop load
readelf_run = refl

readelf-sections_example :
    (IsElf elf 0 132
      × ((readelf elf 0 132).0 ≡ pos 0)
      × ((k : ℕ) → get_elem? (readelf elf 0 132).1 k ≡ section elf 0 k))
    ⊎ (¬ IsElf elf 0 132 × (readelf elf 0 132 ≡ (negsuc 0, [])))
unfolding load
readelf-sections_example =
    readelf-sections elf 0 132 (omega arith) (omega arith) (λ is_elf. omega arith)

-- A directory at 0x10008 of one block, block 3.
abbrev dir_image : Image
dir_image = record {
  mem = λ a. if a == 0x10089 then 0x10 else if a == 0x10090 then 3 else 0;
  nbitblock = 1;
  nextbno = 4;
}

one_block : nblk header dir_image 0x10008 ≡ 1
unfolding load
one_block = refl

header_sizes : SizeApart header
header_sizes = (ground arith, omega arith, omega arith)

create_file-unused_example : Reuses header dir_image 0x10008 ⊎ Extends header dir_image 0x10008
create_file-unused_example =
    create_file-unused header 0x10008 dir_image header_sizes (omega (arith, one_block))
      (omega (arith, one_block)) (omega arith) (inl (omega arith))

-- It is the first file of the block.
create_file_run : create_file header 0x10008 dir_image ≡ ok (data_at header 3) dir_image
unfolding create_file search_blocks unused_file load
create_file_run = refl

-- A file that holds a header without sections, and one of two bytes.
abbrev header_only : OpenFile
header_only = record {
  at_end = true;
  size = pos 52;
  memory = some 4096;
  at_start = true;
  content = 0x7f ∷ b'E' ∷ b'L' ∷ b'F' ∷ repeat 48 0;
}

abbrev too_short : OpenFile
too_short = record header_only { size = pos 2; content = 0x7f ∷ b'E' ∷ [] }

readelf_main_runs :
    (readelf_main elf (λ name. some header_only) ([] ∷ [] ∷ []) ≡ (pos 0, []))
    × (readelf_main elf (λ name. some too_short) ([] ∷ [] ∷ []) ≡ (negsuc 0, []))
    × (readelf_main elf (λ name. none) ([] ∷ [] ∷ []) ≡ (pos 1, []))
unfolding readelf_main readelf is_elf_format section_loop load store8 put_bytes
readelf_main_runs = (refl, refl, refl)
