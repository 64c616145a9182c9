-- ===== src/Env/Create/Segment.antt =====
-- `elf_load_seg` of lib/elfloader.c with the callback of kern/env.c: a segment of a program.
use riscv_mos.Base.{
  ℕ, zero, suc, ◌+◌, ◌*◌, ◌/◌, ◌%◌, ◌-◌, ◌≤◌, ◌<◌, ◌≡◌, refl, ◌∙◌, true, false, ltb, lt→ltb, le→ltb,
  if◌then◌else◌, arith, u64, min_of, min_of-cases, min_of-le, List, [], ◌∷◌, length, Option, none,
  some, ℤ, pos, rounddown, rounddown-page,
}
use riscv_mos.Mem.{Mem}
use riscv_mos.Kernel.{Machine, Outcome, ok, page_size, maxva, kernend}
use riscv_mos.Page.Chain.{HasFree}
use riscv_mos.Vm.Spared.{image_same}
use riscv_mos.Vm.Tables.{Place, IsTable}
use riscv_mos.Vm.Alloc.{pages_for}
use riscv_mos.Vm.Region.{Region, Region-nil, Region-Unmapped, Region-snoc}
use riscv_mos.Vm.Map.Page.{Unmapped}
use riscv_mos.ElfLoader.{
  Phdr, segment_perm, load_bytes, load_zeros, load_first, load_rest, elf_load_seg,
}
use riscv_mos.Env.{Os}
use riscv_mos.Env.Create.{load_icode_mapper}
use riscv_mos.Env.Create.Pages.{Below, page_byte, load_icode_mapper-PageLoaded}

-- The bytes of a segment: `size` of them from address `bin`, and zeros.
abbrev pub image_of : Mem → (bin size : ℕ) → ℕ → ℕ
image_of m bin size i = if ltb i size then m (bin + i) % 256 else 0

-- `s` with the memory of `k`.
abbrev pub with_machine : Os → Machine → Os
with_machine s k = record s { machine = k }

module _ {own : ℕ} (e va perm bin size total : ℕ) (s : Os) (place : Place) (xs : List ℕ)
    (al : va % page_size ≡ 0) (small : perm < 1024) (low : va + total * page_size ≤ maxva)
    (below : bin + size ≤ kernend) (t : IsTable own s.machine.mem (s.envs e).env_pgtable place xs)
    (c : HasFree s.machine xs)
    (clear : Unmapped own (s.envs e).env_pgtable (va / 4096) total s.machine) where
  abbrev root : ℕ
  root = (s.envs e).env_pgtable

  abbrev image : ℕ → ℕ
  image = image_of s.machine.mem bin size

  -- The machine after `n` pages of the segment.
  abbrev Loaded : ℕ → Machine → Place → List ℕ → Type 0
  Loaded n k places rest = Region own root (va / 4096) n perm image s.machine place xs k places rest

  -- The file still stands in memory.
  file_byte :
      (n a : ℕ) (k : Machine) (places : Place) (rest : List ℕ)
      → Loaded n k places rest
      → a < kernend
      → k.mem a ≡ s.machine.mem a
  file_byte n a k places rest g h = image_same s.machine k.mem a t c g.spared h

  -- The callback for page `n`.
  load_page :
      (n len p : ℕ) (source : Option ℕ) (k : Machine) (places : Place) (ys : List ℕ)
      → Loaded n k places (p ∷ ys)
      → n < total
      → 2 ≤ length ys
      → len ≤ page_size
      → Below source len
      → ((b : ℕ)
          → b < page_size
          → page_byte s.machine.mem source 0 len b ≡ image (n * page_size + b))
      → (k' : Machine) × (places' : Place) × (rest : List ℕ) × (load_icode_mapper e
            (va + n * page_size)
            0
            perm
            source
            len
            (with_machine s k)
          ≡ ok (pos 0) (with_machine s k'))
        × Loaded (suc n) k' places' rest
        × (length ys ≤ length rest + 2)
  load_page n len p source k places ys g more enough fits below_source bytes =
      let (_, fr, _, _) = g.free in
      let (ord, unmapped) =
        Region-Unmapped root (va / 4096) perm image s.machine place xs n total (va + n * page_size)
          k places (p ∷ ys) g clear more (omega arith) (omega arith) in
      let r =
        load_icode_mapper-PageLoaded e (va + n * page_size) 0 perm source len (with_machine s k)
          places p ys (omega arith) (omega arith) ord (omega arith) small below_source g.table
          g.free enough unmapped in
      (
        r.new.after,
        r.new.places,
        r.new.rest,
        r.runs,
        Region-snoc root (va / 4096) perm image s.machine place xs n (va + n * page_size) p k places
            ys r.bytes r.maps g fr (omega arith) r.new
            (λ b hb. r.filled b hb ∙ same_source source len b below_source hb ∙ bytes b hb),
        r.new.uses,
      )
    where
      same_source :
          (source : Option ℕ) (len b : ℕ)
          → Below source len
          → b < page_size
          → page_byte k.mem source 0 len b ≡ page_byte s.machine.mem source 0 len b
      same_source none len b h hb = refl
      same_source (some src) len b h hb =
          ground (arith, file_byte n (src + (b - 0)) k places (p ∷ ys) g)

  load_bytes-step :
      (f n p : ℕ) (k : Machine) (places : Place) (ys : List ℕ)
      → Loaded n k places (p ∷ ys)
      → n * page_size < size
      → n < total
      → 2 ≤ length ys
      → (k' : Machine) × (places' : Place) × (rest : List ℕ) × (load_bytes
            (load_icode_mapper e)
            (suc f)
            va
            perm
            bin
            size
            (n * page_size)
            (with_machine s k)
          ≡ load_bytes
              (load_icode_mapper e)
              f
              va
              perm
              bin
              size
              (suc n * page_size)
              (with_machine s k'))
        × Loaded (suc n) k' places' rest
        × (length ys ≤ length rest + 2)
  unfolding load_bytes
  load_bytes-step f n p k places ys g more room enough =
      let i : ℕ = n * page_size in
      let len : ℕ = min_of (size - i) page_size in
      let bound = min_of-le (size - i) page_size in
      let (k', places', rest, run, g', used) =
        load_page n len p (some (bin + i)) k places ys g room enough (bound.1)
          (omega (arith, bound.0)) λ b hb. page_bytes b hb in
      let inside : ltb i size ≡ true = lt→ltb i size more in
      let no_wrap : u64 (va + i) ≡ va + i = omega arith in
      let next : u64 (i + page_size) ≡ suc n * page_size = omega arith in
      (k', places', rest, rw (inside, no_wrap, run, next) refl, g', used)
    where
      page_bytes :
          (b : ℕ)
          → b < page_size
          → page_byte s.machine.mem
              (some (bin + n * page_size))
              0
              (min_of (size - n * page_size) page_size)
              b
            ≡ image (n * page_size + b)
      page_bytes b hb =
          let same : bin + n * page_size + (b - 0) ≡ bin + (n * page_size + b) = omega arith in
          rw same (ground (arith, min_of-cases (size - n * page_size) page_size))

  load_zeros-step :
      (f n p sgsize : ℕ) (k : Machine) (places : Place) (ys : List ℕ)
      → Loaded n k places (p ∷ ys)
      → size ≤ n * page_size
      → n * page_size < sgsize
      → n < total
      → 2 ≤ length ys
      → (k' : Machine) × (places' : Place) × (rest : List ℕ) × (load_zeros
            (load_icode_mapper e)
            (suc f)
            va
            perm
            sgsize
            (n * page_size)
            (with_machine s k)
          ≡ load_zeros
              (load_icode_mapper e)
              f
              va
              perm
              sgsize
              (suc n * page_size)
              (with_machine s k'))
        × Loaded (suc n) k' places' rest
        × (length ys ≤ length rest + 2)
  unfolding load_zeros
  load_zeros-step f n p sgsize k places ys g behind more room enough =
      let i : ℕ = n * page_size in
      let len : ℕ = min_of (sgsize - i) page_size in
      let (k', places', rest, run, g', used) =
        load_page n len p none k places ys g room enough ((min_of-le (sgsize - i) page_size).1) tt
          λ b hb. ground arith in
      let inside : ltb i sgsize ≡ true = lt→ltb i sgsize more in
      let no_wrap : u64 (va + i) ≡ va + i = omega arith in
      let next : u64 (i + page_size) ≡ suc n * page_size = omega arith in
      (k', places', rest, rw (inside, no_wrap, run, next) refl, g', used)

  load_bytes-Loaded :
      (left n f full : ℕ) (k : Machine) (places : Place) (rest : List ℕ)
      → n + left ≡ full
      → left < f
      → size ≤ full * page_size
      → full * page_size < size + page_size
      → full ≤ total
      → Loaded n k places rest
      → 3 * (total - n) ≤ length rest
      → (k' : Machine) × (places' : Place) × (rest' : List ℕ) × (load_bytes
            (load_icode_mapper e)
            f
            va
            perm
            bin
            size
            (n * page_size)
            (with_machine s k)
          ≡ ok (pos 0, full * page_size) (with_machine s k'))
        × Loaded full k' places' rest'
        × (3 * (total - full) ≤ length rest')
  unfolding load_bytes
  load_bytes-Loaded left n zero full k places rest eq fuel enough tight within g free =
      absurd (omega arith)
  load_bytes-Loaded zero n (suc f) full k places rest eq fuel enough tight within g free =
      let all : n ≡ full = omega arith in
      let done : ltb (n * page_size) size ≡ false = le→ltb _ _ (omega arith) in
      (k, places, rest, rw done (rw all refl), rw all at g, omega arith)
  load_bytes-Loaded (suc left) n (suc f) full k places [] eq fuel enough tight within g free =
      absurd (omega arith)
  load_bytes-Loaded (suc left) n (suc f) full k places (p ∷ ys) eq fuel enough tight within g free =
      let (k1, places1, rest1, step, g1, used) =
        load_bytes-step f n p k places ys g (omega arith) (omega arith) (omega arith) in
      let (k2, places2, rest2, run, g2, free2) =
        load_bytes-Loaded left (suc n) f full k1 places1 rest1 (omega arith) (omega arith) enough
          tight within g1 (omega arith) in
      (k2, places2, rest2, step ∙ run, g2, free2)

  load_zeros-Loaded :
      (left n f sgsize : ℕ) (k : Machine) (places : Place) (rest : List ℕ)
      → n + left ≡ total
      → left < f
      → size ≤ n * page_size
      → sgsize ≤ total * page_size
      → total * page_size < sgsize + page_size
      → Loaded n k places rest
      → 3 * (total - n) ≤ length rest
      → (k' : Machine) × (places' : Place) × (rest' : List ℕ) × (load_zeros
            (load_icode_mapper e)
            f
            va
            perm
            sgsize
            (n * page_size)
            (with_machine s k)
          ≡ ok (pos 0) (with_machine s k'))
        × Loaded total k' places' rest'
  unfolding load_zeros
  load_zeros-Loaded left n zero sgsize k places rest eq fuel behind enough tight g free =
      absurd (omega arith)
  load_zeros-Loaded zero n (suc f) sgsize k places rest eq fuel behind enough tight g free =
      let all : n ≡ total = omega arith in
      let done : ltb (n * page_size) sgsize ≡ false = le→ltb _ _ (omega arith) in
      (k, places, rest, rw done refl, rw all at g)
  load_zeros-Loaded (suc left) n (suc f) sgsize k places [] eq fuel behind enough tight g free =
      absurd (omega arith)
  load_zeros-Loaded (suc left) n (suc f) sgsize k places (p ∷ ys) eq fuel behind enough tight g
        free =
      let (k1, places1, rest1, step, g1, used) =
        load_zeros-step f n p sgsize k places ys g behind (omega arith) (omega arith)
          (omega arith) in
      let (k2, places2, rest2, run, g2) =
        load_zeros-Loaded left (suc n) f sgsize k1 places1 rest1 (omega arith) (omega arith)
          (omega arith) enough tight g1 (omega arith) in
      (k2, places2, rest2, step ∙ run, g2)

-- The outcome of a call that loads a segment of `total` pages into the tables of environment `e`.
pub record SegmentLoaded (own e va total perm : ℕ) (image : ℕ → ℕ) (s : Os) (place : Place)
    (xs : List ℕ) (r : Outcome Os ℤ) : Type 0 where
  pub after : Machine
  pub places : Place
  pub rest : List ℕ
  pub runs : r ≡ ok (pos 0) (with_machine s after)
  pub region :
      Region own
        (s.envs e).env_pgtable
        (va / 4096)
        total
        perm
        image
        s.machine
        place
        xs
        after
        places
        rest

segment_perm-lt : (ph : Phdr) → segment_perm ph < 1024
segment_perm-lt ph = ground arith

-- The segment starts a page, its file part is no longer than its part in memory, and both the
-- addresses of its pages, below MAXVA, and its bytes in the image, below the pages of the heap, are
-- in range; tables and free list are well formed, there are three free pages for each page of the
-- segment, and none of these is mapped. Then `elf_load_seg` with `load_icode_mapper` returns 0 and
-- changes the machine only. It maps each page of the segment to a page of its own, which was free,
-- with the flags of the segment, so that the bytes from `p_vaddr` on are the `p_filesz` bytes of the
-- image, modulo 256, and then zeros up to the end of the last page. Every other entry is as before,
-- and so is every byte outside of the tables and of the pages that were free. Tables and free list
-- stay well formed.
pub elf_load_seg-SegmentLoaded :
    {own : ℕ} (e bin : ℕ) (ph : Phdr) (s : Os) (place : Place) (xs : List ℕ)
    → ph.p_vaddr % page_size ≡ 0
    → ph.p_filesz ≤ ph.p_memsz
    → ph.p_vaddr + pages_for ph.p_memsz * page_size ≤ maxva
    → bin + ph.p_filesz ≤ kernend
    → IsTable own s.machine.mem (s.envs e).env_pgtable place xs
    → HasFree s.machine xs
    → 3 * pages_for ph.p_memsz ≤ length xs
    → Unmapped own (s.envs e).env_pgtable (ph.p_vaddr / 4096) (pages_for ph.p_memsz) s.machine
    → SegmentLoaded own e ph.p_vaddr
        (pages_for ph.p_memsz)
        (segment_perm ph)
        (image_of s.machine.mem bin ph.p_filesz)
        s
        place
        xs
        (elf_load_seg (load_icode_mapper e) ph bin s)
unfolding elf_load_seg load_first load_rest
elf_load_seg-SegmentLoaded e bin ph s place xs al fits low below t c enough clear =
    let va : ℕ = ph.p_vaddr in
    let size : ℕ = ph.p_filesz in
    let total : ℕ = pages_for ph.p_memsz in
    let small = segment_perm-lt ph in
    let (k1, places1, rest1, run1, g1, free1) =
      load_bytes-Loaded e va (segment_perm ph) bin size total s place xs al small low below t c
        clear (pages_for size) 0 (size / page_size + 2) (pages_for size) s.machine place xs
        (omega arith) (omega arith) (omega arith) (omega arith) (omega arith)
        (Region-nil (s.envs e).env_pgtable (va / 4096) (segment_perm ph)
          (image_of s.machine.mem bin size) s.machine place xs t c)
        (omega arith) in
    let (k2, places2, rest2, run2, g2) =
      load_zeros-Loaded e va (segment_perm ph) bin size total s place xs al small low below t c
        clear (total - pages_for size) (pages_for size) (ph.p_memsz / page_size + 2) ph.p_memsz k1
        places1 rest1 (omega arith) (omega arith) (omega arith) (omega arith) (omega arith) g1
        free1 in
    let no_offset : va - rounddown va page_size ≡ 0 =
      omega (arith, rounddown-page va (omega arith)) in
    let from_start : 0 * page_size ≡ 0 = omega arith in
    record {
      after = k2;
      places = places2;
      rest = rest2;
      runs = rw (no_offset, (rw from_start at run1), run2) refl;
      region = g2;
    }
