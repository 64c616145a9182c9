-- ===== src/FsFormat/Links.antt =====
-- The links from a file to its blocks, as `save_block_link` of tools/fsformat.c writes them.
use riscv_mos.Base.{
  ℕ, ◌+◌, ◌*◌, ◌^◌, ◌≤◌, ◌<◌, ◌≡◌, ◌≢◌, ◌⊎◌, inl, inr, refl, sym, ◌∙◌, arith, ◌==◌, ltb, lt→ltb,
  le→ltb, if◌then◌else◌, Bool-cases, u32, ne→==,
}
use riscv_mos.Kernel.{ok}
use riscv_mos.Mem.{Mem, load32, store32}
use riscv_mos.Mem.Laws.{load-store, load-store_other}
use riscv_mos.FsFormat.{
  Header, Image, block_index, data_at, type_at, next_block, indirect_block, save_block_link,
}

module _ (H : Header) where
  -- The link of block `k` of the file at `f`.
  abbrev pub link : Mem → (f k : ℕ) → ℕ
  link m f k =
      if ltb k H.ndirect
      then load32 m (f + H.f_direct + 4 * k)
      else load32 m (data_at H (load32 m (f + H.f_indirect)) + 4 * k)

  -- Ranges of `n` bytes at `a` and of a whole block `b` do not meet.
  abbrev pub Apart : (a n b : ℕ) → Type 0
  Apart a n b = (a + n ≤ data_at H b) ⊎ (data_at H b + (H.block_size + 4) ≤ a)

  -- The links of a file lie within it, and those of an indirect block within the block.
  pub record HasRoom : Type 0 where
    pub direct : H.f_direct + 4 * H.ndirect ≤ H.file_size
    pub indirect : H.f_indirect + 4 ≤ H.file_size
    pub separate : (H.f_direct + 4 * H.ndirect ≤ H.f_indirect) ⊎ (H.f_indirect + 4 ≤ H.f_direct)
    pub words : 4 * H.nindirect ≤ H.block_size

  -- The block with the indirect links of the file at `f`: its own, or the next one.
  abbrev pub link_block : Image → (f : ℕ) → ℕ
  link_block s f =
      if load32 s.mem (f + H.f_indirect) == 0 then s.nextbno else load32 s.mem (f + H.f_indirect)

  -- `s'` has the link `bno` for block `nblk` of the file at `f`, and the other links of `s`.
  abbrev pub Linked : (s s' : Image) (f nblk bno : ℕ) → Type 0
  Linked s s' f nblk bno =
      (link s'.mem f nblk ≡ bno)
      × ((k : ℕ)
          → k < H.nindirect
          → k ≢ nblk
          → (k < H.ndirect) ⊎ (0 < load32 s.mem (f + H.f_indirect))
          → link s'.mem f k ≡ link s.mem f k)

  module _ (room : HasRoom) (f nblk bno : ℕ) (lt : nblk < H.nindirect) (small : bno < 2 ^ 32) where
    -- A word of block `b` is written; the file lies elsewhere.
    kept :
        (m : Mem) (b o v a : ℕ)
        → Apart f H.file_size b
        → o + 4 ≤ H.block_size + 4
        → f ≤ a
        → a + 4 ≤ f + H.file_size
        → load32 (store32 m (data_at H b + o) v) a ≡ load32 m a
    kept m b o v a apart inside low high =
        load-store_other 4 4 m a (data_at H b + o) v (ground arith)

    link-direct : (m : Mem) (k : ℕ) → k < H.ndirect → link m f k ≡ load32 m (f + H.f_direct + 4 * k)
    link-direct m k small_k = rw (lt→ltb k H.ndirect small_k) refl

    link-far :
        (m : Mem) (k ind : ℕ)
        → H.ndirect ≤ k
        → load32 m (f + H.f_indirect) ≡ ind
        → link m f k ≡ load32 m (data_at H ind + 4 * k)
    link-far m k ind big is_ind = rw (le→ltb k H.ndirect big, is_ind) refl

    -- The word of a direct link is written.
    direct-Linked :
        (s : Image)
        → nblk < H.ndirect
        → Apart f H.file_size (link_block s f)
        → Linked s (record s { mem = store32 s.mem (f + H.f_direct + 4 * nblk) bno }) f nblk bno
    direct-Linked s near apart =
        let at = f + H.f_direct + 4 * nblk in
        let m = store32 s.mem at bno in
        (
          link-direct m nblk near ∙ load-store 4 s.mem at bno small,
          λ k lt_k ne some_block. elim (Bool-cases (ltb k H.ndirect)) [
            | inl k_near ↦
                let near_k : k < H.ndirect = ground arith in
                link-direct m k near_k
                ∙ load-store_other 4 4 s.mem (f + H.f_direct + 4 * k) at bno (ground arith)
                ∙ sym (link-direct s.mem k near_k)
            | inr k_far ↦
                let far_k : H.ndirect ≤ k = ground arith in
                let nonzero : 0 < load32 s.mem (f + H.f_indirect) = ground arith in
                let block : link_block s f ≡ load32 s.mem (f + H.f_indirect) =
                  rw (ne→== (load32 s.mem (f + H.f_indirect)) 0 (omega arith)) refl in
                let away : Apart f H.file_size (load32 s.mem (f + H.f_indirect)) =
                  rw (sym block) apart in
                link-far m k _ far_k (
                  load-store_other 4 4 s.mem (f + H.f_indirect) at bno
                    (ground (arith, room.separate)))
                ∙ load-store_other 4 4 s.mem _ at bno
                    (ground (arith, room.direct, room.words, away))
                ∙ sym (link-far s.mem k _ far_k refl)
          ],
        )

    -- A word of the indirect block is written.
    indirect-link :
        (m : Mem) (ind : ℕ)
        → H.ndirect ≤ nblk
        → load32 m (f + H.f_indirect) ≡ ind
        → Apart f H.file_size ind
        → let m' = store32 m (data_at H ind + 4 * nblk) bno in
          (link m' f nblk ≡ bno) × ((k : ℕ) → k < H.nindirect → k ≢ nblk → link m' f k ≡ link m f k)
    indirect-link m ind big is_ind apart =
        let at = data_at H ind + 4 * nblk in
        let m' = store32 m at bno in
        let same : load32 m' (f + H.f_indirect) ≡ ind =
          kept m ind (4 * nblk) bno (f + H.f_indirect) apart (omega (arith, lt, room.words))
            (omega arith) (omega (arith, room.indirect))
          ∙ is_ind in
        (
          link-far m' nblk ind big same ∙ load-store 4 m at bno small,
          λ k lt_k ne. elim (Bool-cases (ltb k H.ndirect)) [
            | inl k_near ↦
                let near_k : k < H.ndirect = ground arith in
                link-direct m' k near_k
                ∙ kept m ind (4 * nblk) bno (f + H.f_direct + 4 * k) apart
                    (omega (arith, lt, room.words)) (omega arith) (omega (arith, room.direct))
                ∙ sym (link-direct m k near_k)
            | inr k_far ↦
                let far_k : H.ndirect ≤ k = ground arith in
                link-far m' k ind far_k same
                ∙ load-store_other 4 4 m (data_at H ind + 4 * k) at bno (ground arith)
                ∙ sym (link-far m k ind far_k is_ind)
          ],
        )

    -- The memory with a new indirect block.
    abbrev with_indirect : Image → Mem
    with_indirect s =
        store32 (store32 s.mem (type_at H s.nextbno) block_index) (f + H.f_indirect) s.nextbno

    with_indirect-link :
        (s : Image) (k : ℕ)
        → Apart f H.file_size s.nextbno
        → k < H.ndirect
        → link (with_indirect s) f k ≡ link s.mem f k
    with_indirect-link s k apart near =
        let m1 = store32 s.mem (type_at H s.nextbno) block_index in
        let a = f + H.f_direct + 4 * k in
        link-direct (with_indirect s) k near
        ∙ load-store_other 4 4 m1 a (f + H.f_indirect) s.nextbno (ground (arith, room.separate))
        ∙ kept s.mem s.nextbno H.block_size block_index a apart (omega arith) (omega arith)
            (omega (arith, room.direct))
        ∙ sym (link-direct s.mem k near)

    Linked-with_indirect :
        (s : Image)
        → H.ndirect ≤ nblk
        → s.nextbno < 2 ^ 32
        → load32 s.mem (f + H.f_indirect) ≡ 0
        → Apart f H.file_size s.nextbno
        → Linked s
            (record s {
              mem = store32 (with_indirect s) (data_at H s.nextbno + 4 * nblk) bno;
              nextbno = u32 (s.nextbno + 1);
            })
            f
            nblk
            bno
    Linked-with_indirect s big next empty apart =
        let m1 = store32 s.mem (type_at H s.nextbno) block_index in
        let (new, others) =
          indirect-link (with_indirect s) s.nextbno big
            (load-store 4 m1 (f + H.f_indirect) s.nextbno next) apart in
        (
          new,
          λ k lt_k ne some_block.
              let near : k < H.ndirect = ground arith in
              others k lt_k ne ∙ with_indirect-link s k apart near,
        )

    save_far :
        (s : Image)
        → H.ndirect ≤ nblk
        → 0 < s.nextbno
        → s.nextbno < 2 ^ 32
        → Apart f H.file_size (link_block s f)
        → (s' : Image) × (save_block_link H f nblk bno s ≡ ok tt s') × Linked s s' f nblk bno
    unfolding save_block_link indirect_block next_block
    save_far s big pos next apart = elim (Bool-cases (load32 s.mem (f + H.f_indirect) == 0)) [
      | inl empty ↦
          let zero_link : load32 s.mem (f + H.f_indirect) ≡ 0 = ground arith in
          let block : link_block s f ≡ s.nextbno = rw empty refl in
          (
            record s {
              mem = store32 (with_indirect s) (data_at H s.nextbno + 4 * nblk) bno;
              nextbno = u32 (s.nextbno + 1);
            },
            rw (lt→ltb nblk H.nindirect lt, le→ltb nblk H.ndirect big, empty) refl,
            Linked-with_indirect s big next zero_link (rw (sym block) apart),
          )
      | inr used ↦
          let ind = load32 s.mem (f + H.f_indirect) in
          let block : link_block s f ≡ ind = rw used refl in
          let (new, others) = indirect-link s.mem ind big refl (rw (sym block) apart) in
          (
            record s { mem = store32 s.mem (data_at H ind + 4 * nblk) bno },
            rw (lt→ltb nblk H.nindirect lt, le→ltb nblk H.ndirect big, used) refl,
            (new, λ k lt_k ne some_block. others k lt_k ne),
          )
    ]

    -- For a block number below NINDIRECT, and a file that lies apart from the block with its indirect links (its
    -- own, or the next free one), `save_block_link` succeeds: the link of that block is the number given, and
    -- every other direct link, and indirect link if there was an indirect block, is as before.
    pub save_block_link-Linked :
        (s : Image)
        → 0 < s.nextbno
        → s.nextbno < 2 ^ 32
        → Apart f H.file_size (link_block s f)
        → (s' : Image) × (save_block_link H f nblk bno s ≡ ok tt s') × Linked s s' f nblk bno
    unfolding save_block_link
    save_block_link-Linked s pos next apart = elim (Bool-cases (ltb nblk H.ndirect)) [
      | inl direct ↦ (
        record s { mem = store32 s.mem (f + H.f_direct + 4 * nblk) bno },
        rw (lt→ltb nblk H.nindirect lt, direct) refl,
        direct-Linked s (ground arith) apart,
      )
      | inr far ↦ save_far s (ground arith) pos next apart
    ]
