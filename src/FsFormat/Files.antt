-- ===== src/FsFormat/Files.antt =====
-- The files of the image that tools/fsformat.c builds, and the blocks that it writes at the end.
use riscv_mos.Base.{
  ℕ, zero, suc, ◌+◌, ◌*◌, ◌/◌, Bool, ◌==◌, leb, if◌then◌else◌, List, [], ◌∷◌, ◌++◌, Option, none,
  some,
}
use riscv_mos.Mem.{Mem, load, load32, store32}
use riscv_mos.Kernel.{ok, Cmd, ◌>>=◌, ◌>>◌, pure, modify}
use riscv_mos.FsFormat.{
  Header, Image, nblock, block_data, data_at, put_bytes, copy_bytes, next_block, save_block_link,
  make_link_block, reverse_block,
}

module _ (H : Header) where
  -- The first of `left` files from `f` on that is not in use.
  unfoldable pub unused_file : (left f : ℕ) → Mem → Option ℕ
  unused_file zero f m = none
  unused_file (suc left) f m =
      let rest = unused_file left (f + H.file_size) m in
      if load 1 m (f + H.f_name) == 0 then some f else rest

  -- The number of block `i` of a directory.
  abbrev pub dir_block : (dirf i : ℕ) → Mem → ℕ
  dir_block dirf i m =
      if leb i H.ndirect
      then load32 m (dirf + H.f_direct + 4 * i)
      else load32 m (data_at H (load32 m (dirf + H.f_indirect)) + 4 * i)

  -- The loop over the blocks of a directory from `i` on.
  unfoldable pub search_blocks : (left dirf i : ℕ) → Mem → Option ℕ
  search_blocks zero dirf i m = none
  search_blocks (suc left) dirf i m =
      let rest = search_blocks left dirf (i + 1) m in
      elim (unused_file H.file2blk (data_at H (dir_block dirf i m)) m) [
        | some f ↦ some f
        | none ↦ rest
      ]

  unfoldable pub create_file : (dirf : ℕ) → Cmd Image ℕ
  create_file dirf s =
      let nblk = load32 s.mem (dirf + H.f_size) / H.block_size in
      elim (search_blocks nblk dirf 0 s.mem) [
        | some f ↦ ok f s
        | none ↦ (make_link_block H dirf nblk >>= λ bno. pure (data_at H bno)) s
      ]

  -- `read` of a chunk of the host's file, of at most a block, into the next block, for each chunk.
  unfoldable pub read_file : (target iblk : ℕ) → (chunks : List (List ℕ)) → Cmd Image (Unit {0})
  read_file target iblk [] = pure tt
  read_file target iblk (chunk ∷ chunks) =
      modify (λ s. record s { mem = put_bytes chunk (data_at H s.nextbno) s.mem })
      >> next_block H block_data
      >>= λ bno. save_block_link H target iblk bno >> read_file target (iblk + 1) chunks

  -- `fname` is the name behind the last slash, and `size` and `chunks` are what the host's file system says.
  unfoldable pub write_file :
      (dirf : ℕ) (fname : List ℕ) (size : ℕ) (chunks : List (List ℕ)) → Cmd Image (Unit {0})
  write_file dirf fname size chunks = create_file dirf >>= λ target.
      modify (λ s. record s { mem = put_bytes (fname ++ 0 ∷ []) (target + H.f_name) s.mem })
      >> modify (λ s. record s { mem = store32 s.mem (target + H.f_size) size })
      >> modify (λ s. record s { mem = store32 s.mem (target + H.f_type) H.ftype_reg })
      >> read_file target 0 chunks

  -- The blocks as they are written to the image, each by the bytes at its offsets.
  unfoldable pub dump_loop : (left i : ℕ) (reverse_endian : Bool) → Mem → List (ℕ → ℕ)
  dump_loop zero i reverse_endian m = []
  dump_loop (suc left) i reverse_endian m =
      let m = if reverse_endian then reverse_block H i m else m in
      (λ j. m (data_at H i + j)) ∷ dump_loop left (i + 1) reverse_endian m

  unfoldable pub finish_fs : (reverse_endian : Bool) → Image → List (ℕ → ℕ)
  finish_fs reverse_endian s =
      dump_loop nblock 0 reverse_endian (copy_bytes H.super_size (data_at H 1) H.super s.mem)
