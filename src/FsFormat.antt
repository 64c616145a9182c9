-- ===== src/FsFormat.antt =====
-- tools/fsformat.c: the image of a disk, built in memory. The constants and structures of
-- user/include/fs.h, which is not in the repository, are the parameter `Header`, with the addresses of
-- the two global objects. An `assert` that fails is a panic.
pub mod Links
pub mod Bitmap
pub mod Endian
pub mod Host
pub mod Files
pub mod Unused
pub mod Fresh
use riscv_mos.Base.{
  ℕ, zero, suc, ◌+◌, ◌-◌, ◌*◌, ◌/◌, ◌%◌, ◌^◌, Bool, true, false, not, ◌==◌, ltb, leb, ◌||◌,
  if◌then◌else◌, Option, none, some, List, [], ◌∷◌, ◌++◌, bit_and, u32,
}
use riscv_mos.Mem.{Mem, load, load32, store, store8, store32}
use riscv_mos.Kernel.{Outcome, ok, Cmd, ◌>>=◌, ◌>>◌, pure, halt, get, modify}

pub record Header : Type 0 where
  pub block_size : ℕ
  pub block_size_bit : ℕ
  pub ndirect : ℕ
  pub nindirect : ℕ
  pub file2blk : ℕ
  pub maxnamelen : ℕ
  pub fs_magic : ℕ
  pub ftype_dir : ℕ
  pub ftype_reg : ℕ
  -- `sizeof(struct File)` and the offsets of its fields
  pub file_size : ℕ
  pub f_name : ℕ
  pub f_size : ℕ
  pub f_type : ℕ
  pub f_direct : ℕ
  pub f_indirect : ℕ
  -- `sizeof(struct Super)` and the offsets of its fields
  pub super_size : ℕ
  pub s_magic : ℕ
  pub s_nblocks : ℕ
  pub s_root : ℕ
  -- `&super` and `disk`
  pub super : ℕ
  pub disk : ℕ

-- `NBLOCK`
abbrev pub nblock : ℕ
nblock = 1024

abbrev pub block_free : ℕ
block_free = 0

abbrev pub block_boot : ℕ
block_boot = 1

abbrev pub block_bmap : ℕ
block_bmap = 2

abbrev pub block_super : ℕ
block_super = 3

abbrev pub block_data : ℕ
block_data = 4

abbrev pub block_file : ℕ
block_file = 5

abbrev pub block_index : ℕ
block_index = 6

-- `nbitblock` and `nextbno`, and the memory that `disk` and `super` stand in.
pub record Image : Type 0 where
  pub mem : Mem
  pub nbitblock : ℕ
  pub nextbno : ℕ

-- `memset(a, v, n)`
unfoldable pub fill_bytes : (n a v : ℕ) → Mem → Mem
fill_bytes zero a v m = m
fill_bytes (suc n) a v m = fill_bytes n (a + 1) v (store8 m a v)

-- `memcpy(d, s, n)`
unfoldable pub copy_bytes : (n d s : ℕ) → Mem → Mem
copy_bytes zero d s m = m
copy_bytes (suc n) d s m = copy_bytes n (d + 1) (s + 1) (store8 m d (m s))

-- The bytes of a list from `a` on.
unfoldable pub put_bytes : List ℕ → (a : ℕ) → Mem → Mem
put_bytes [] a m = m
put_bytes (x ∷ xs) a m = put_bytes xs (a + 1) (store8 m a x)

-- `reverse` of the word at `p`.
unfoldable pub reverse : (p : ℕ) → Mem → Mem
reverse p m =
    let y = load32 m p in
    store8
      (store8 (store8 (store8 m (p + 3) (bit_and y 0xff)) (p + 2) (bit_and (y / 2 ^ 8) 0xff))
        (p + 1) (bit_and (y / 2 ^ 16) 0xff))
      p (bit_and (y / 2 ^ 24) 0xff)

-- `reverse` of `n` words from `p` on.
unfoldable pub reverse_words : (n p : ℕ) → Mem → Mem
reverse_words zero p m = m
reverse_words (suc n) p m = reverse_words n (p + 4) (reverse p m)

module _ (H : Header) where
  -- `disk[bno].data` and `&disk[bno].type`
  abbrev pub data_at : ℕ → ℕ
  data_at bno = H.disk + bno * (H.block_size + 4)

  abbrev pub type_at : ℕ → ℕ
  type_at bno = data_at bno + H.block_size

  abbrev pub reverse_file : (f : ℕ) → Mem → Mem
  reverse_file f m =
      reverse (f + H.f_indirect) (
        reverse_words H.ndirect (f + H.f_direct)
          (reverse (f + H.f_type) (reverse (f + H.f_size) m)))

  -- The loop over the files of a block, with `left` rounds.
  unfoldable pub reverse_files : (left f : ℕ) → Mem → Mem
  reverse_files zero f m = m
  reverse_files (suc left) f m =
      let rest = reverse_files left (f + H.file_size) (reverse_file f m) in
      if load 1 m (f + H.f_name) == 0 then m else rest

  -- `reverse_block(disk + bno)`
  unfoldable pub reverse_block : (bno : ℕ) → Mem → Mem
  reverse_block bno m =
      let type = load32 m (type_at bno) in
      let b = data_at bno in
      if type == block_super
      then reverse_file (b + H.s_root) (reverse (b + H.s_nblocks) (reverse (b + H.s_magic) m))
      else if type == block_file
      then reverse_files H.file2blk b m
      else if type == block_index || type == block_bmap
      then reverse_words (H.block_size / 4) b m
      else m

  abbrev pub set_type : (bno type : ℕ) → Mem → Mem
  set_type bno type m = store32 m (type_at bno) type

  -- The two loops over the bitmap blocks.
  unfoldable pub type_bitmaps : (left i : ℕ) → Mem → Mem
  type_bitmaps zero i m = m
  type_bitmaps (suc left) i m = type_bitmaps left (i + 1) (set_type (2 + i) block_bmap m)

  unfoldable pub fill_bitmaps : (left i : ℕ) → Mem → Mem
  fill_bitmaps zero i m = m
  fill_bitmaps (suc left) i m =
      fill_bitmaps left (i + 1) (fill_bytes H.block_size (data_at (2 + i)) 0xff m)

  -- The bits of the last bitmap block that stand for no block.
  abbrev pub trim_bitmap : (nbitblock : ℕ) → Mem → Mem
  trim_bitmap nbitblock m =
      let diff = nblock % H.block_size_bit / 8 in
      if nblock == nbitblock * H.block_size_bit
      then m
      else fill_bytes (H.block_size - diff) (data_at (2 + (nbitblock - 1)) + diff) 0 m

  abbrev pub init_super : Mem → Mem
  init_super m =
      let root = H.super + H.s_root in
      let m = store32 m (H.super + H.s_magic) H.fs_magic in
      let m = store32 m (H.super + H.s_nblocks) nblock in
      let m = store32 m (root + H.f_type) H.ftype_dir in
      store8 (store8 m (root + H.f_name) b'/') (root + H.f_name + 1) 0

  unfoldable pub init_disk : Image → Image
  init_disk s =
      let nbitblock = u32 ((nblock + H.block_size_bit - 1) / H.block_size_bit) in
      let m = set_type 0 block_boot s.mem in
      let m = type_bitmaps nbitblock 0 m in
      let m = fill_bitmaps nbitblock 0 m in
      let m = trim_bitmap nbitblock m in
      let m = set_type 1 block_super m in
      record { mem = init_super m; nbitblock = nbitblock; nextbno = u32 (2 + nbitblock) }

  unfoldable pub next_block : (type : ℕ) → Cmd Image ℕ
  next_block type s =
      ok s.nextbno (record s { mem = set_type s.nextbno type s.mem; nextbno = u32 (s.nextbno + 1) })

  -- The word of the bitmap with the bit of block `i`.
  abbrev pub bit_word : ℕ → ℕ
  bit_word i = data_at (2 + i / H.block_size_bit) + 4 * (i % H.block_size_bit / 32)

  unfoldable pub flush_loop : (left i : ℕ) → Mem → Mem
  flush_loop zero i m = m
  flush_loop (suc left) i m =
      flush_loop left (i + 1)
        (store32 m (bit_word i) (bit_and (load32 m (bit_word i)) (2 ^ 32 - 1 - 2 ^ (i % 32))))

  abbrev pub flush_bitmap : Image → Image
  flush_bitmap s = record s { mem = flush_loop s.nextbno 0 s.mem }

  -- `f->f_indirect`, after the creation of an indirect block if there is none.
  unfoldable pub indirect_block : (f : ℕ) → Cmd Image ℕ
  indirect_block f s =
      if load32 s.mem (f + H.f_indirect) == 0
      then (next_block block_index >>= λ bno.
            modify (λ t. record t { mem = store32 t.mem (f + H.f_indirect) bno }) >> pure bno)
          s
      else ok (load32 s.mem (f + H.f_indirect)) s

  unfoldable pub save_block_link : (f nblk bno : ℕ) → Cmd Image (Unit {0})
  save_block_link f nblk bno =
      if not (ltb nblk H.nindirect)
      then halt "nblk < NINDIRECT"
      else if ltb nblk H.ndirect
      then modify (λ s. record s { mem = store32 s.mem (f + H.f_direct + 4 * nblk) bno })
      else indirect_block f >>= λ ind.
          modify (λ s. record s { mem = store32 s.mem (data_at ind + 4 * nblk) bno })

  unfoldable pub make_link_block : (dirf nblk : ℕ) → Cmd Image ℕ
  make_link_block dirf nblk = next_block block_file >>= λ bno.
      save_block_link dirf nblk bno
      >> modify (λ s. record s {
        mem = store32 s.mem (dirf + H.f_size) (u32 (load32 s.mem (dirf + H.f_size) + H.block_size));
      })
      >> pure bno
