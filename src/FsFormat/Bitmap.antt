-- ===== src/FsFormat/Bitmap.antt =====
-- The bitmap of blocks, as `flush_bitmap` of tools/fsformat.c writes it.
use native.Mathlib.Nat.{mod-eq_of_lt, div-eq_of_lt, one-le-pow}
use riscv_mos.Base.{
  ℕ, zero, suc, ◌+◌, ◌-◌, ◌*◌, ◌/◌, ◌%◌, ◌^◌, ◌≤◌, ◌<◌, ◌≡◌, refl, ap, ◌∙◌, arith, false, ◌&&◌,
  ◌==◌, ltb, leb, if◌then◌else◌, Bool-cases, inl, inr, bit_and, bit_at, bit_at-clear, bit_and_digit,
  bit_and-zero, two-pow-suc,
}
use riscv_mos.Mem.{Mem, load32, store32}
use riscv_mos.Mem.Laws.{load-store, load-store_other}
use riscv_mos.FsFormat.{Header, Image, data_at, bit_word, flush_loop, flush_bitmap}

bit_and-lt : (n a b : ℕ) → b < 2 ^ n → bit_and a b < 2 ^ n
bit_and-lt zero a b lt =
    let b_is : b ≡ 0 = omega (arith, lt) in rw (b_is, bit_and-zero a) (omega arith)
bit_and-lt (suc n) a b lt = omega (
  arith,
  two-pow-suc n,
  bit_and_digit a b,
  bit_and-lt n (a / 2) (b / 2) (omega (arith, lt, two-pow-suc n)),
)

module _ (H : Header) where
  -- The bit of block `j` in the bitmap.
  abbrev pub block_bit : Mem → (j : ℕ) → ℕ
  block_bit m j = bit_at (load32 m (bit_word H j)) (j % 32)

  -- The first bitmap block has the bits of the first blocks.
  pub bit_word-first : (j : ℕ) → j < H.block_size_bit → bit_word H j ≡ data_at H 2 + 4 * (j / 32)
  bit_word-first j lt =
      let none_before : j / H.block_size_bit ≡ 0 = div-eq_of_lt lt in
      let same : 2 + 0 ≡ 2 = refl in rw (none_before, mod-eq_of_lt lt) refl

  abbrev cleared : Mem → ℕ → Mem
  cleared m i =
      store32 m (bit_word H i) (bit_and (load32 m (bit_word H i)) (2 ^ 32 - 1 - 2 ^ (i % 32)))

  block_bit-cleared :
      (m : Mem) (i j : ℕ)
      → i < H.block_size_bit
      → j < H.block_size_bit
      → block_bit (cleared m i) j ≡ (if j == i then 0 else block_bit m j)
  block_bit-cleared m i j lt_i lt_j =
      let word_i = bit_word-first i lt_i in
      let word_j = bit_word-first j lt_j in
      let at = data_at H 2 + 4 * (i / 32) in
      let v = bit_and (load32 m at) (2 ^ 32 - 1 - 2 ^ (i % 32)) in
      elim (Bool-cases (j / 32 == i / 32)) [
        | inl same ↦
            let word : j / 32 ≡ i / 32 = ground arith in
            let small : v < 2 ^ 32 =
              bit_and-lt 32 (load32 m at) _ (omega (arith, one-le-pow (i % 32) 2 (omega arith))) in
            let which : (j % 32 == i % 32) ≡ (j == i) = ground arith in
            rw (word_i, word_j, word)
              (ap (λ (w : ℕ). bit_at w (j % 32)) (load-store 4 m at v small)
                ∙ bit_at-clear 32 (i % 32) (j % 32) (load32 m at) (omega arith) (omega arith)
                ∙ rw which refl)
        | inr apart ↦
            let other : (j == i) ≡ false = ground arith in
            rw (word_i, word_j, other)
              (ap (λ (w : ℕ). bit_at w (j % 32))
                (load-store_other 4 4 m (data_at H 2 + 4 * (j / 32)) at v (ground arith)))
      ]

  block_bit-flush_loop :
      (left i : ℕ) (m : Mem) (j : ℕ)
      → i + left ≤ H.block_size_bit
      → j < H.block_size_bit
      → block_bit (flush_loop H left i m) j
        ≡ (if leb i j && ltb j (i + left) then 0 else block_bit m j)
  unfolding flush_loop
  block_bit-flush_loop zero i m j le lt =
      let none_left : (leb i j && ltb j (i + 0)) ≡ false = ground arith in rw none_left refl
  block_bit-flush_loop (suc left) i m j le lt =
      block_bit-flush_loop left (i + 1) (cleared m i) j (omega arith) lt
      ∙ ground (arith, block_bit-cleared m i j (omega arith) lt)

  -- As long as there are no more blocks than a bitmap block has bits, `flush_bitmap` marks exactly the
  -- blocks before the next free one as in use: it clears their bits, and leaves the others as they were.
  pub flush_bitmap-marks :
      (s : Image) (j : ℕ)
      → s.nextbno ≤ H.block_size_bit
      → j < H.block_size_bit
      → block_bit (flush_bitmap H s).mem j ≡ (if ltb j s.nextbno then 0 else block_bit s.mem j)
  flush_bitmap-marks s j le lt =
      let from : (leb 0 j && ltb j (0 + s.nextbno)) ≡ ltb j s.nextbno = ground arith in
      block_bit-flush_loop s.nextbno 0 s.mem j (omega arith) lt ∙ rw from refl
