-- ===== src/Env/Create/Icode.antt =====
-- The loop of `load_icode` of kern/env.c over the program headers.
use riscv_mos.Base.{
  ℕ, zero, suc, ◌+◌, ◌*◌, ◌^◌, ◌≤◌, ◌<◌, ◌≡◌, refl, ◌∙◌, ap, true, false, ◌==◌, ltb, lt→ltb, le→ltb,
  if◌then◌else◌, arith, List, ◌∷◌, length, some, inl, inr, Bool-cases,
}
use riscv_mos.Mem.{Mem, load, load64}
use riscv_mos.Mem.Laws.{load-lt}
use riscv_mos.Kernel.{Machine, Cmd, ok, pure, ◌>>◌, kernend}
use riscv_mos.Page.Chain.{HasFree}
use riscv_mos.Vm.Spared.{image_same}
use riscv_mos.Vm.Tables.{Place, IsTable}
use riscv_mos.Vm.Region.{Region}
use riscv_mos.ElfLoader.{Phdr, segment_perm, elf_load_seg}
use riscv_mos.Env.{Os, update_env}
use riscv_mos.Env.Create.{
  elf_from, read_phdr, pt_load, load_icode_mapper, load_segment, load_segments, load_icode,
}
use riscv_mos.Env.Create.Kept.{load_same}
use riscv_mos.Env.Create.Segment.{image_of, with_machine, elf_load_seg-SegmentLoaded}
use riscv_mos.Env.Create.Program.{
  program, first_page, page_count, total_pages, AllLoadable, AllLoadable-same, ProgramLoaded,
  ProgramLoaded-nil, ProgramLoaded-cons,
}

pub read_phdr-same :
    (m n : Mem) (p : ℕ)
    → ((a : ℕ) → a < kernend → n a ≡ m a)
    → p + 56 ≤ kernend
    → read_phdr n p ≡ read_phdr m p
read_phdr-same m n p same h =
    let word = λ (a : ℕ) (low : a + 8 ≤ kernend). load_same m n 8 a same low in
    let half = λ (a : ℕ) (low : a + 4 ≤ kernend). load_same m n 4 a same low in
    rw
      (
        half p (omega arith),
        half (p + 4) (omega arith),
        word (p + 8) (omega arith),
        word (p + 16) (omega arith),
        word (p + 32) (omega arith),
        word (p + 40) (omega arith),
      )
      refl

module _ (own e binary : ℕ) (s : Os) (m : Mem) (header : binary + 64 ≤ kernend) where
  abbrev root : ℕ
  root = (s.envs e).env_pgtable

  -- `e_phnum` and `e_phentsize`
  abbrev count : ℕ
  count = load 2 m (binary + 56)

  abbrev size : ℕ
  size = load 2 m (binary + 54)

  abbrev Loads : List Phdr → Machine → Place → List ℕ → Machine → Place → List ℕ → Type 0
  Loads phs k place xs k' places rest =
      ProgramLoaded own root binary m phs k place xs k' places rest

  -- The state of the loop: the tables, the free list and the image, and what is to come.
  record Going (phs : List Phdr) (k : Machine) (place : Place) (xs : List ℕ) : Type 0 where
    table : IsTable own k.mem root place xs
    free : HasFree k xs
    image : (a : ℕ) → a < kernend → k.mem a ≡ m a
    good : AllLoadable own root binary k phs
    room : 3 * total_pages phs ≤ length xs

  -- The body of the loop for a header that has been read.
  abbrev body : Phdr → Cmd Os (Unit {0})
  body ph =
      if ph.p_type == pt_load
      then (do elf_load_seg (load_icode_mapper e) ph (binary + ph.p_offset); pure tt)
      else pure tt

  -- A round for a header that is no segment to load.
  skip_segment :
      (off : ℕ) (k : Machine)
      → ((a : ℕ) → a < kernend → k.mem a ≡ m a)
      → binary + off + 56 ≤ kernend
      → ((read_phdr m (binary + off)).p_type == pt_load) ≡ false
      → load_segment e binary off (with_machine s k) ≡ ok tt (with_machine s k)
  skip_segment off k image inside other =
      let same = read_phdr-same m k.mem (binary + off) image inside in
      let other' : ((read_phdr k.mem (binary + off)).p_type == pt_load) ≡ false =
        ap (λ (ph : Phdr). ph.p_type == pt_load) same ∙ other in
      rw other' refl

  -- A round for a segment.
  take_segment :
      (off : ℕ) (phs : List Phdr) (k : Machine) (place : Place) (xs : List ℕ)
      → let ph = read_phdr m (binary + off) in
        Going (ph ∷ phs) k place xs
        → binary + off + 56 ≤ kernend
        → (ph.p_type == pt_load) ≡ true
        → (k1 : Machine) × (place1 : Place) × (xs1 : List ℕ) × (load_segment e binary off
              (with_machine s k)
            ≡ ok tt (with_machine s k1))
          × Going phs k1 place1 xs1
          × Region own root
              (first_page ph)
              (page_count ph)
              (segment_perm ph)
              (image_of k.mem (binary + ph.p_offset) ph.p_filesz)
              k
              place
              xs
              k1
              place1
              xs1
  take_segment off phs k place xs g inside here =
      let ph = read_phdr m (binary + off) in
      let (one, apart, others) = g.good in
      let same = read_phdr-same m k.mem (binary + off) g.image inside in
      let r =
        elf_load_seg-SegmentLoaded e (binary + ph.p_offset) ph (with_machine s k) place xs
          one.aligned one.fits one.low one.inside g.table g.free (omega (arith, g.room))
          one.clear in
      let stays = λ (a : ℕ) (h : a < kernend).
        image_same k r.after.mem a g.table g.free r.region.spared h ∙ g.image a h in
      (
        r.after,
        r.places,
        r.rest,
        ap (λ (h : Phdr). body h (with_machine s k)) same ∙ rw (here, r.runs) refl,
        record {
          table = r.region.table;
          free = r.region.free;
          image = stays;
          good =
              AllLoadable-same root binary m ph phs k r.after apart
                (λ a h o off. r.region.entries a h o ∙ ground arith) others;
          room = omega (arith, g.room, r.region.uses);
        },
        r.region,
      )

  abbrev Rounds : (f index off : ℕ) → List Phdr → Machine → Place → List ℕ → Type 0
  Rounds f index off phs k place xs =
      (k' : Machine) × (places : Place) × (rest : List ℕ) × (load_segments f e binary index off
          (with_machine s k)
        ≡ ok tt (with_machine s k'))
      × Loads phs k place xs k' places rest

  -- What a round that turns `k` into `k1` does to the rest of the loop.
  next_round :
      (f index off : ℕ) (k k1 : Machine)
      → index < count
      → ((a : ℕ) → a < kernend → k.mem a ≡ m a)
      → ((a : ℕ) → a < kernend → k1.mem a ≡ m a)
      → load_segment e binary off (with_machine s k) ≡ ok tt (with_machine s k1)
      → load_segments (suc f) e binary index off (with_machine s k)
        ≡ load_segments f e binary (index + 1) (off + size) (with_machine s k1)
  unfolding load_segments
  next_round f index off k k1 more image image1 run =
      let number = load_same m k.mem 2 (binary + 56) image (omega arith) in
      let width = load_same m k1.mem 2 (binary + 54) image1 (omega arith) in
      rw (number, lt→ltb index count more, run, width) refl

  rounds :
      (left f index off : ℕ) (k : Machine) (place : Place) (xs : List ℕ)
      → index + left ≡ count
      → left < f
      → binary + off + left * size + 56 ≤ kernend
      → Going (program m binary left off) k place xs
      → Rounds f index off (program m binary left off) k place xs
  unfolding program load_segments
  rounds left zero index off k place xs eq fuel inside g = absurd (omega arith)
  rounds zero (suc f) index off k place xs eq fuel inside g =
      let number = load_same m k.mem 2 (binary + 56) g.image (omega arith) in
      let done : ltb index count ≡ false = le→ltb index count (omega arith) in
      (
        k,
        place,
        xs,
        rw (number, done) refl,
        ProgramLoaded-nil root binary m k place xs g.table g.free,
      )
  rounds (suc left) (suc f) index off k place xs eq fuel inside g =
      elim (Bool-cases ((read_phdr m (binary + off)).p_type == pt_load)) [
        | inr other ↦
            let step =
              next_round f index off k k (omega arith) g.image g.image
                (skip_segment off k g.image (omega arith) other) in
            let (k2, place2, xs2, run, loaded) =
              rounds left f (index + 1) (off + size) k place xs (omega arith) (omega arith)
                (omega arith) (rw other at g) in
            rw other (k2, place2, xs2, step ∙ run, loaded)
        | inl here ↦
            let ph = read_phdr m (binary + off) in
            let phs = program m binary left (off + size) in
            let g' : Going (ph ∷ phs) k place xs = rw here at g in
            let (one, apart, others) = g'.good in
            let (k1, place1, xs1, run1, g1, region) =
              take_segment off phs k place xs g' (omega arith) here in
            let step = next_round f index off k k1 (omega arith) g.image g1.image run1 in
            let (k2, place2, xs2, run, loaded) =
              rounds left f (index + 1) (off + size) k1 place1 xs1 (omega arith) (omega arith)
                (omega arith) g1 in
            rw here (
              k2,
              place2,
              xs2,
              step ∙ run,
              ProgramLoaded-cons root binary m ph phs k k1 k2 place place1 place2 xs xs1 xs2 g.image
                  one.inside apart region loaded,
            )
      ]

-- The start of the program, in the frame of environment `e`.
abbrev pub start_at : Os → (e entry : ℕ) → Os
start_at t e entry =
    update_env t e (record (t.envs e) { env_tf = record ((t.envs e).env_tf) { sepc = entry } })

-- The segments of the image at `binary`, by `e_phnum` and `e_phoff`.
abbrev pub segments_of : Mem → (binary : ℕ) → List Phdr
segments_of m binary = program m binary (load 2 m (binary + 56)) (load64 m (binary + 32))

-- The header and the program headers lie in the image, below the pages of the heap.
pub record InImage (m : Mem) (binary : ℕ) : Type 0 where
  pub header : binary + 64 ≤ kernend
  pub headers :
      binary + load64 m (binary + 32) + load 2 m (binary + 56) * load 2 m (binary + 54) + 56
      ≤ kernend

pub elf_from-same :
    (m n : Mem) (binary size : ℕ)
    → ((a : ℕ) → a < kernend → n a ≡ m a)
    → binary + 64 ≤ kernend
    → elf_from n binary size ≡ elf_from m binary size
elf_from-same m n binary size same h =
    rw
      (
        same binary (omega arith),
        same (binary + 1) (omega arith),
        same (binary + 2) (omega arith),
        same (binary + 3) (omega arith),
        load_same m n 2 (binary + 16) same (omega arith),
      )
      refl

-- The image `m` agrees with the memory of the machine `k` below the pages of the heap.
pub load_icode_from :
    (own e binary size : ℕ) (s : Os) (m : Mem) (k : Machine) (place : Place) (xs : List ℕ)
    → let root = (s.envs e).env_pgtable in
      let phs = segments_of m binary in
      ((a : ℕ) → a < kernend → k.mem a ≡ m a)
      → (elf_from m binary size ≡ some binary)
      → InImage m binary
      → IsTable own k.mem root place xs
      → HasFree k xs
      → AllLoadable own root binary k phs
      → 3 * total_pages phs ≤ length xs
      → (k' : Machine) × (places : Place) × (rest : List ℕ) × (load_icode e binary size
            (with_machine s k)
          ≡ ok tt (start_at (with_machine s k') e (load64 m (binary + 24))))
        × ProgramLoaded own root binary m phs k place xs k' places rest
load_icode_from own e binary size s m k place xs image elf inside t c good room =
    let (k', places, rest, run, loaded) =
      rounds own e binary s m inside.header (load 2 m (binary + 56)) (2 ^ 16) 0
        (load64 m (binary + 32)) k place xs (omega arith) (load-lt 2 m (binary + 56)) inside.headers
        (record { table = t; free = c; image = image; good = good; room = room }) in
    let first : load64 k.mem (binary + 32) ≡ load64 m (binary + 32) =
      load_same m k.mem 8 (binary + 32) image (omega (arith, inside.header)) in
    let entry : load64 k'.mem (binary + 24) ≡ load64 m (binary + 24) =
      load_same m k'.mem 8 (binary + 24)
        (λ a h. image_same k k'.mem a t c loaded.spared h ∙ image a h)
        (omega (arith, inside.header)) in
    let accepted = elf_from-same m k.mem binary size image inside.header ∙ elf in
    (
      k',
      places,
      rest,
      rw (accepted, first, run) (ap (λ (v : ℕ). ok tt (start_at (with_machine s k') e v)) entry),
      loaded,
    )

-- `elf_from` accepts the image, whose headers lie below the pages of the heap; its loadable segments
-- can be loaded (`Loadable`), and their pages are distinct; tables and free list are well formed, with
-- three free pages for each page of the segments. Then `load_icode` returns, and the page tables of the
-- environment map every page of every segment to a page of its own, which was free, with the flags of
-- the segment, its bytes of the image and zeros behind them; `sepc` is the entry point. The entries
-- outside of the segments and memory outside of tables and free pages are as before, as is the rest of
-- the state of the system.
pub load_icode-ProgramLoaded :
    (own e binary size : ℕ) (s : Os) (place : Place) (xs : List ℕ)
    → let m = s.machine.mem in
      let root = (s.envs e).env_pgtable in
      let phs = segments_of m binary in
      (elf_from m binary size ≡ some binary)
      → InImage m binary
      → IsTable own m root place xs
      → HasFree s.machine xs
      → AllLoadable own root binary s.machine phs
      → 3 * total_pages phs ≤ length xs
      → (k : Machine) × (places : Place) × (rest : List ℕ) × (load_icode e binary size s
          ≡ ok tt (start_at (with_machine s k) e (load64 m (binary + 24))))
        × ProgramLoaded own root binary m phs s.machine place xs k places rest
load_icode-ProgramLoaded own e binary size s place xs elf inside t c good room =
    load_icode_from own e binary size s s.machine.mem s.machine place xs (λ a h. refl) elf inside t
      c good room
