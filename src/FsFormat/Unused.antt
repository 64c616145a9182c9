-- ===== src/FsFormat/Unused.antt =====
-- The file that `create_file` of tools/fsformat.c finds in a directory.
use mathlib.Core.Path.{subst}
use riscv_mos.Base.{
  ℕ, zero, suc, ◌+◌, ◌*◌, ◌/◌, ◌≤◌, ◌<◌, ◌≡◌, ◌⊎◌, ◌^◌, u32, refl, sym, ap, ◌∙◌, arith, true, false,
  ◌==◌, leb, Option, none, some, inl, inr, Bool-cases, Option-cases, lt→ltb,
}
use riscv_mos.Mem.{Mem, load, load32, store32}
use riscv_mos.Mem.Laws.{load-store, load-store_other}
use riscv_mos.Kernel.{Outcome, ok, ◌>>=◌, pure}
use riscv_mos.FsFormat.{
  Header, Image, data_at, type_at, block_file, next_block, save_block_link, make_link_block,
}
use riscv_mos.FsFormat.Files.{unused_file, dir_block, search_blocks, create_file}
use riscv_mos.FsFormat.Links.{link, Apart}

module _ (H : Header) where
  -- File `i` of the files from `f` on has an empty name.
  abbrev NameEmpty : Mem → (f i : ℕ) → Type 0
  NameEmpty m f i = load 1 m (f + i * H.file_size + H.f_name) ≡ 0

  -- What `unused_file` says of the files from `f` on.
  abbrev FirstUnused : Mem → (left f : ℕ) → Option ℕ → Type 0
  FirstUnused m left f none = (i : ℕ) → i < left → ¬ NameEmpty m f i
  FirstUnused m left f (some g) = (i : ℕ) × (i < left) × (g ≡ f + i * H.file_size) × NameEmpty m f i

  next_file : (f i : ℕ) → f + H.file_size + i * H.file_size ≡ f + suc i * H.file_size
  next_file f i = omega arith

  FirstUnused-suc :
      (m : Mem) (left f : ℕ) (o : Option ℕ)
      → (load 1 m (f + H.f_name) == 0) ≡ false
      → FirstUnused m left (f + H.file_size) o
      → FirstUnused m (suc left) f o
  FirstUnused-suc m left f none used rest = by_index
    where
      by_index : (i : ℕ) → i < suc left → ¬ NameEmpty m f i
      by_index zero lt e =
          let at : f + 0 * H.file_size ≡ f = omega arith in
          let name : load 1 m (f + H.f_name) ≡ 0 =
            ap (λ (g : ℕ). load 1 m (g + H.f_name)) (sym at) ∙ e in
          absurd (ground (arith, used, name))
      by_index (suc i) lt e =
          rest i (omega (arith, lt)) (ap (λ (g : ℕ). load 1 m (g + H.f_name)) (next_file f i) ∙ e)
  FirstUnused-suc m left f (some g) used (i, lt, is, empty) = (
    suc i,
    omega (arith, lt),
    is ∙ next_file f i,
    ap (λ (g : ℕ). load 1 m (g + H.f_name)) (sym (next_file f i)) ∙ empty,
  )

  unused_file-FirstUnused : (left f : ℕ) (m : Mem) → FirstUnused m left f (unused_file H left f m)
  unfolding unused_file
  unused_file-FirstUnused zero f m = λ i lt e. absurd (omega (arith, lt))
  unused_file-FirstUnused (suc left) f m = elim (Bool-cases (load 1 m (f + H.f_name) == 0)) [
    | inl free ↦ rw free (
      0,
      omega arith,
      omega arith,
      let at : f + 0 * H.file_size ≡ f = omega arith in
          let name : load 1 m (f + H.f_name) ≡ 0 = ground (arith, free) in
          ap (λ (g : ℕ). load 1 m (g + H.f_name)) at ∙ name,
    )
    | inr used ↦
        rw used (FirstUnused-suc m left f _ used (unused_file-FirstUnused left (f + H.file_size) m))
  ]

  -- File `i` of block `k` of the directory at `dirf`, and whether it is not in use.
  abbrev pub file_of : Mem → (dirf k i : ℕ) → ℕ
  file_of m dirf k i = data_at H (link H m dirf k) + i * H.file_size

  abbrev pub IsUnused : Mem → (dirf k i : ℕ) → Type 0
  IsUnused m dirf k i = load 1 m (file_of m dirf k i + H.f_name) ≡ 0

  -- What the search from block `b` on says.
  abbrev Found : Mem → (dirf b n : ℕ) → Option ℕ → Type 0
  Found m dirf b n none = (k i : ℕ) → b ≤ k → k < n → i < H.file2blk → ¬ IsUnused m dirf k i
  Found m dirf b n (some g) =
      (k : ℕ) × (i : ℕ) × (k < n)
      × (i < H.file2blk)
      × (g ≡ file_of m dirf k i)
      × IsUnused m dirf k i

  dir_block-link : (m : Mem) (dirf k : ℕ) → k < H.ndirect → dir_block H dirf k m ≡ link H m dirf k
  dir_block-link m dirf k lt =
      let le : leb k H.ndirect ≡ true = ground arith in rw (le, lt→ltb k H.ndirect lt) refl

  Found-suc :
      (m : Mem) (dirf b left : ℕ) (o p : Option ℕ)
      → FirstUnused m H.file2blk (data_at H (link H m dirf b)) o
      → Found m dirf (b + 1) (b + 1 + left) p
      → Found m dirf b (b + suc left) (elim o [ some f ↦ some f | none ↦ p ])
  Found-suc m dirf b left none none here rest = λ k i low high lt e. elim (Bool-cases (k == b)) [
    | inl this ↦
        let is : k ≡ b = ground arith in
        absurd (here i lt (ap (λ (j : ℕ). load 1 m (file_of m dirf j i + H.f_name)) (sym is) ∙ e))
    | inr later ↦ rest k i (ground (arith, low)) (omega (arith, high)) lt e
  ]
  Found-suc m dirf b left none (some g) here (k, i, lt, small, is, empty) =
      (k, i, omega (arith, lt), small, is, empty)
  Found-suc m dirf b left (some g) p (i, small, is, empty) rest =
      (b, i, omega arith, small, is, empty)

  search_blocks-Found :
      (left dirf b : ℕ) (m : Mem)
      → b + left ≤ H.ndirect
      → Found m dirf b (b + left) (search_blocks H left dirf b m)
  unfolding search_blocks
  search_blocks-Found zero dirf b m le = λ k i low high lt e. absurd (omega (arith, low, high))
  search_blocks-Found (suc left) dirf b m le =
      let d = dir_block H dirf b m in
      let here : FirstUnused m H.file2blk (data_at H (link H m dirf b))
          (unused_file H H.file2blk (data_at H d) m) =
        subst
          (λ e. FirstUnused m H.file2blk (data_at H e) (unused_file H H.file2blk (data_at H d) m))
          (dir_block-link m dirf b (omega (arith, le)))
          (unused_file-FirstUnused H.file2blk (data_at H d) m) in
      Found-suc m dirf b left _ _ here (search_blocks-Found left dirf (b + 1) m (omega (arith, le)))

  -- The number of blocks of the directory.
  abbrev pub nblk : Image → (dirf : ℕ) → ℕ
  nblk s dirf = load32 s.mem (dirf + H.f_size) / H.block_size

  abbrev created : Image → (dirf : ℕ) → Option ℕ → Outcome Image ℕ
  created s dirf none = (make_link_block H dirf (nblk s dirf) >>= λ bno. pure (data_at H bno)) s
  created s dirf (some f) = ok f s

  create_file-created :
      (dirf : ℕ) (s : Image) (o : Option ℕ)
      → search_blocks H (nblk s dirf) dirf 0 s.mem ≡ o
      → create_file H dirf s ≡ created s dirf o
  unfolding create_file
  create_file-created dirf s none e = ap (λ (o : Option ℕ). created s dirf o) e
  create_file-created dirf s (some f) e = ap (λ (o : Option ℕ). created s dirf o) e

  -- The fields of a file that the code writes do not meet.
  abbrev pub SizeApart : Type 0
  SizeApart =
      ((H.f_size + 4 ≤ H.f_direct) ⊎ (H.f_direct + 4 * H.ndirect ≤ H.f_size))
      × (H.f_size + 4 ≤ H.file_size)
      × (H.f_direct + 4 * H.ndirect ≤ H.file_size)

  -- Both outcomes of `create_file`.
  abbrev pub Reuses : Image → (dirf : ℕ) → Type 0
  Reuses s dirf =
      (k : ℕ) × (i : ℕ) × (k < nblk s dirf)
      × (i < H.file2blk)
      × IsUnused s.mem dirf k i
      × (create_file H dirf s ≡ ok (file_of s.mem dirf k i) s)

  abbrev pub Extends : Image → (dirf : ℕ) → Type 0
  Extends s dirf =
      ((k i : ℕ) → k < nblk s dirf → i < H.file2blk → ¬ IsUnused s.mem dirf k i)
      × ((t : Image) × (create_file H dirf s ≡ ok (data_at H s.nextbno) t)
          × (t.nextbno ≡ u32 (s.nextbno + 1))
          × (load32 t.mem (type_at H s.nextbno) ≡ block_file)
          × (link H t.mem dirf (nblk s dirf) ≡ s.nextbno)
          × (load32 t.mem (dirf + H.f_size) ≡ u32 (load32 s.mem (dirf + H.f_size) + H.block_size)))

  -- The three words that a new block of the directory sets.
  module _ (dirf : ℕ) (s : Image) (sizes : SizeApart) (near : nblk s dirf < H.ndirect)
      (few : nblk s dirf < H.nindirect) (small : s.nextbno < 2 ^ 32)
      (away : Apart H dirf H.file_size s.nextbno) where
    abbrev link_at : ℕ
    link_at = dirf + H.f_direct + 4 * nblk s dirf

    abbrev typed : Mem
    typed = store32 s.mem (type_at H s.nextbno) block_file

    abbrev linked : Mem
    linked = store32 typed link_at s.nextbno

    abbrev extended : Image
    extended = record s {
      mem = store32 linked (dirf + H.f_size) (u32 (load32 linked (dirf + H.f_size) + H.block_size));
      nextbno = u32 (s.nextbno + 1);
    }

    extended-run :
        (make_link_block H dirf (nblk s dirf) >>= λ bno. pure (data_at H bno)) s
        ≡ ok (data_at H s.nextbno) extended
    unfolding make_link_block next_block save_block_link
    extended-run = rw (lt→ltb _ _ few, lt→ltb _ _ near) refl

    size_kept : load32 linked (dirf + H.f_size) ≡ load32 s.mem (dirf + H.f_size)
    size_kept =
        load-store_other 4 4 typed (dirf + H.f_size) link_at s.nextbno (ground (arith, sizes, near))
        ∙ load-store_other 4 4 s.mem (dirf + H.f_size) (type_at H s.nextbno) block_file
            (ground (arith, sizes, away))

    size_grows :
        load32 extended.mem (dirf + H.f_size) ≡ u32 (load32 s.mem (dirf + H.f_size) + H.block_size)
    size_grows =
        load-store 4 linked (dirf + H.f_size) _ (omega arith)
        ∙ ap (λ (n : ℕ). u32 (n + H.block_size)) size_kept

    is_linked : link H extended.mem dirf (nblk s dirf) ≡ s.nextbno
    is_linked = rw (lt→ltb _ _ near) (
        load-store_other 4 4 linked link_at (dirf + H.f_size) _ (ground (arith, sizes, near))
        ∙ load-store 4 typed link_at s.nextbno small)

    is_typed : load32 extended.mem (type_at H s.nextbno) ≡ block_file
    is_typed =
        load-store_other 4 4 linked (type_at H s.nextbno) (dirf + H.f_size) _
          (ground (arith, sizes, away))
        ∙ load-store_other 4 4 typed (type_at H s.nextbno) link_at s.nextbno
            (ground (arith, sizes, away, near))
        ∙ load-store 4 s.mem (type_at H s.nextbno) block_file (omega arith)

  -- In a directory of fewer than NDIRECT blocks, where the directory lies apart from the next block and its
  -- size apart from its links, `create_file` changes nothing and returns a file of one of the blocks
  -- that is not in use; or all files of the blocks are in use, and it returns the first file of the
  -- next block, which is a block of files then, and linked as the last block of the directory; the
  -- size of the directory has grown by a block.
  pub create_file-unused :
      (dirf : ℕ) (s : Image)
      → SizeApart
      → nblk s dirf < H.ndirect
      → nblk s dirf < H.nindirect
      → s.nextbno < 2 ^ 32
      → Apart H dirf H.file_size s.nextbno
      → Reuses s dirf ⊎ Extends s dirf
  create_file-unused dirf s sizes near few small away =
      let found = search_blocks-Found (nblk s dirf) dirf 0 s.mem (omega (arith, near)) in
      elim (Option-cases (search_blocks H (nblk s dirf) dirf 0 s.mem)) [
        | inl e ↦
            let all_used = subst (Found s.mem dirf 0 (0 + nblk s dirf)) e found in
            inr (
              λ k i lt low. all_used k i (omega arith) (omega (arith, lt)) low,
              (
                extended dirf s sizes near few small away,
                create_file-created dirf s none e ∙ extended-run dirf s sizes near few small away,
                refl,
                is_typed dirf s sizes near few small away,
                is_linked dirf s sizes near few small away,
                size_grows dirf s sizes near few small away,
              ),
            )
        | inr (g, e) ↦
            let (k, i, lt, low, is, empty) = subst (Found s.mem dirf 0 (0 + nblk s dirf)) e found in
            inl (
              k,
              i,
              omega (arith, lt),
              low,
              empty,
              create_file-created dirf s (some g) e ∙ ap (λ (f : ℕ). ok f s) is,
            )
      ]
