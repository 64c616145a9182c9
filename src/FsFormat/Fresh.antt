-- ===== src/FsFormat/Fresh.antt =====
-- The bitmap of a new image of tools/fsformat.c.
use native.Mathlib.Nat.{div-eq_of_lt, div-eq_of_lt-le, mod-eq_of_lt, one-le-pow}
use riscv_mos.Base.{
  ℕ, zero, suc, ◌+◌, ◌-◌, ◌*◌, ◌/◌, ◌%◌, ◌^◌, ◌≤◌, ◌<◌, ◌≡◌, refl, ap, ◌∙◌, arith, true, false,
  ◌&&◌, ◌==◌, ltb, leb, if◌then◌else◌, Bool-cases, inl, inr, bit_at, bit_at-suc, two-pow-suc, ◌⊎◌,
}
use riscv_mos.Mem.{Mem, load, load32, store32, store8}
use riscv_mos.Mem.Laws.{store-outside, load-ext}
use riscv_mos.FsFormat.{
  Header, Image, nblock, fill_bytes, data_at, type_at, set_type, type_bitmaps, fill_bitmaps,
  trim_bitmap, init_super, init_disk, flush_bitmap, bit_word, block_boot, block_super, block_bmap,
}
use riscv_mos.FsFormat.Bitmap.{block_bit, bit_word-first, flush_bitmap-marks}

fill_bytes-at :
    (n a v : ℕ) (m : Mem) (b : ℕ)
    → fill_bytes n a v m b ≡ (if leb a b && ltb b (a + n) then v % 256 else m b)
unfolding fill_bytes store8
fill_bytes-at zero a v m b =
    let none_left : (leb a b && ltb b (a + 0)) ≡ false = ground arith in rw none_left refl
fill_bytes-at (suc n) a v m b = fill_bytes-at n (a + 1) v (store8 m a v) b ∙ ground arith

-- All ones.
bit_at-ones : (n k : ℕ) → k < n → bit_at (2 ^ n - 1) k ≡ 1
bit_at-ones zero k lt = absurd (omega (arith, lt))
bit_at-ones (suc n) zero lt = omega (arith, two-pow-suc n, one-le-pow n 2 (omega arith))
bit_at-ones (suc n) (suc k) lt =
    let half : (2 ^ suc n - 1) / 2 ≡ 2 ^ n - 1 =
      omega (arith, two-pow-suc n, one-le-pow n 2 (omega arith)) in
    bit_at-suc (2 ^ suc n - 1) k
    ∙ ap (λ (w : ℕ). bit_at w k) half
    ∙ bit_at-ones n k (omega (arith, lt))

bit_at-none : (k : ℕ) → bit_at 0 k ≡ 0
bit_at-none k =
    let none_left : 0 / 2 ^ k ≡ 0 = div-eq_of_lt (one-le-pow k 2 (omega arith)) in
    ap (λ (t : ℕ). t % 2) none_left

-- A word of equal bytes.
word-all :
    (m : Mem) (a v : ℕ) → ((b : ℕ) → a ≤ b → b < a + 4 → m b ≡ v) → load32 m a ≡ load32 (λ b. v) a
word-all m a v same = load-ext 4 m (λ b. v) a same

word-ones : (a : ℕ) → load32 (λ b. 0xff) a ≡ 2 ^ 32 - 1
unfolding load
word-ones a = refl

word-zeros : (a : ℕ) → load32 (λ b. 0) a ≡ 0
unfolding load
word-zeros a = refl

module _ (H : Header) where
  -- A block has more bits than there are blocks, in whole words, and the super block's structure has room for its fields
  -- and stands apart from the blocks.
  pub record IsRoomy : Type 0 where
    pub bits : H.block_size_bit ≡ 8 * H.block_size
    pub words : H.block_size % 4 ≡ 0
    pub many : 128 < H.block_size
    pub magic : H.s_magic + 4 ≤ H.super_size
    pub nblocks : H.s_nblocks + 4 ≤ H.super_size
    pub root_type : H.s_root + H.f_type + 4 ≤ H.super_size
    pub root_name : H.s_root + H.f_name + 2 ≤ H.super_size
    pub apart : (H.super + H.super_size ≤ H.disk) ⊎ (data_at H nblock ≤ H.super)

  module _ (roomy : IsRoomy) where
    one_bitmap : (nblock + H.block_size_bit - 1) / H.block_size_bit ≡ 1
    one_bitmap =
        div-eq_of_lt-le H.block_size_bit (omega (arith, roomy.bits, roomy.many))
          (omega (arith, roomy.bits, roomy.many))

    trimmed : nblock % H.block_size_bit / 8 ≡ 128
    trimmed =
        ap (λ (t : ℕ). t / 8) (mod-eq_of_lt {n = nblock} (omega (arith, roomy.bits, roomy.many)))

    module _ (b : ℕ) (low : data_at H 2 ≤ b) (high : b < data_at H 2 + H.block_size) where
      away : (o k : ℕ) → o + k ≤ H.super_size → (b < H.super + o) ⊎ (H.super + o + k ≤ b)
      away o k fits = ground (arith, roomy.apart)

      byte-kept : (m : Mem) (a v : ℕ) → (b < a) ⊎ (a + 1 ≤ b) → store8 m a v b ≡ m b
      unfolding store8
      byte-kept m a v out = let ne : (b == a) ≡ false = ground arith in rw ne refl

      init_super-kept : (m : Mem) → init_super H m b ≡ m b
      init_super-kept m =
          let m1 = store32 m (H.super + H.s_magic) H.fs_magic in
          let m2 = store32 m1 (H.super + H.s_nblocks) nblock in
          let m3 = store32 m2 (H.super + H.s_root + H.f_type) H.ftype_dir in
          let m4 = store8 m3 (H.super + H.s_root + H.f_name) b'/' in
          byte-kept m4 (H.super + H.s_root + H.f_name + 1) 0
            (ground (arith, away (H.s_root + H.f_name + 1) 1 (omega (arith, roomy.root_name))))
          ∙ byte-kept m3 (H.super + H.s_root + H.f_name) b'/'
              (ground (arith, away (H.s_root + H.f_name) 1 (omega (arith, roomy.root_name))))
          ∙ store-outside 4 m2 (H.super + H.s_root + H.f_type) H.ftype_dir b
              (ground (arith, away (H.s_root + H.f_type) 4 (omega (arith, roomy.root_type))))
          ∙ store-outside 4 m1 (H.super + H.s_nblocks) nblock b (away H.s_nblocks 4 roomy.nblocks)
          ∙ store-outside 4 m (H.super + H.s_magic) H.fs_magic b (away H.s_magic 4 roomy.magic)

      -- The memory when the bitmap is filled.
      abbrev filled : Mem → Mem
      filled m =
          fill_bytes H.block_size (data_at H 2) 0xff
            (set_type H 2 block_bmap (set_type H 0 block_boot m))

      filled-at : (m : Mem) → filled m b ≡ 0xff
      filled-at m =
          let inside : (leb (data_at H 2) b && ltb b (data_at H 2 + H.block_size)) ≡ true =
            ground arith in
          fill_bytes-at H.block_size (data_at H 2) 0xff _ b ∙ rw inside refl

      trim_bitmap-at :
          (m : Mem)
          → m b ≡ 0xff
          → trim_bitmap H 1 m b ≡ (if ltb b (data_at H 2 + 128) then 0xff else 0)
      trim_bitmap-at m full =
          let bits_more : (nblock == 1 * H.block_size_bit) ≡ false =
            ground (arith, roomy.bits, roomy.many) in
          let start : data_at H (2 + (1 - 1)) ≡ data_at H 2 = refl in
          rw (bits_more, trimmed)
            (fill_bytes-at (H.block_size - 128) (data_at H 2 + 128) 0 m b
              ∙ ground (arith, full, roomy.many))

      init_disk-byte :
          (s : Image) → (init_disk H s).mem b ≡ (if ltb b (data_at H 2 + 128) then 0xff else 0)
      unfolding init_disk type_bitmaps fill_bitmaps
      init_disk-byte s = rw one_bitmap (
          init_super-kept _
          ∙ store-outside 4 _ (type_at H 1) block_super b (inr (omega (arith, low)))
          ∙ trim_bitmap-at _ (filled-at s.mem))

    init_disk-word :
        (s : Image) (q : ℕ)
        → 4 * q + 4 ≤ H.block_size
        → load32 (init_disk H s).mem (data_at H 2 + 4 * q) ≡ (if ltb q 32 then 2 ^ 32 - 1 else 0)
    init_disk-word s q whole = elim (Bool-cases (ltb q 32)) [
      | inl used ↦ rw used (
          word-all _ (data_at H 2 + 4 * q) 0xff (λ b low high.
            let front : ltb b (data_at H 2 + 128) ≡ true = ground arith in
            init_disk-byte b (omega (arith, low)) (omega (arith, high)) s ∙ rw front refl)
          ∙ word-ones (data_at H 2 + 4 * q))
      | inr free ↦ rw free (
          word-all _ (data_at H 2 + 4 * q) 0 (λ b low high.
            let back : ltb b (data_at H 2 + 128) ≡ false = ground arith in
            init_disk-byte b (omega (arith, low)) (omega (arith, high)) s ∙ rw back refl)
          ∙ word-zeros (data_at H 2 + 4 * q))
    ]

    init_disk-bit :
        (s : Image) (j : ℕ)
        → j < H.block_size_bit
        → block_bit H (init_disk H s).mem j ≡ (if ltb j nblock then 1 else 0)
    init_disk-bit s j lt =
        let word : load32 (init_disk H s).mem (bit_word H j)
            ≡ (if ltb (j / 32) 32 then 2 ^ 32 - 1 else 0) =
          ap (load32 (init_disk H s).mem) (bit_word-first H j lt)
          ∙ init_disk-word s (j / 32) (omega (arith, lt, roomy.bits, roomy.words)) in
        elim (Bool-cases (ltb (j / 32) 32)) [
          | inl used ↦
              let one : ltb j nblock ≡ true = ground arith in
              rw one (
                ap (λ (w : ℕ). bit_at w (j % 32)) (word ∙ rw used refl)
                ∙ bit_at-ones 32 (j % 32) (omega arith))
          | inr free ↦
              let none_left : ltb j nblock ≡ false = ground arith in
              rw none_left
                (ap (λ (w : ℕ). bit_at w (j % 32)) (word ∙ rw free refl) ∙ bit_at-none (j % 32))
        ]

    init_disk-next : (s : Image) → (init_disk H s).nextbno ≡ 3
    unfolding init_disk
    init_disk-next s = rw one_bitmap refl

    -- For a header with a block of more bits than there are blocks, and the super block's structure apart from
    -- the blocks: after `init_disk` and `flush_bitmap`, on any memory, the bitmap marks the blocks from 3 to
    -- NBLOCK - 1 as free, and the first three, and those that are not there, as not free.
    pub flush_bitmap-init_disk :
        (s : Image) (j : ℕ)
        → j < H.block_size_bit
        → block_bit H (flush_bitmap H (init_disk H s)).mem j
          ≡ (if leb 3 j && ltb j nblock then 1 else 0)
    flush_bitmap-init_disk s j lt =
        let three = init_disk-next s in
        flush_bitmap-marks H (init_disk H s) j (omega (arith, three, roomy.bits, roomy.many)) lt
        ∙ rw three (ground (arith, init_disk-bit s j lt))
