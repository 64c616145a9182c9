-- ===== src/Env/Create/Program.antt =====
-- `load_icode` of kern/env.c: all segments of a program.
use riscv_mos.Base.{
  ℕ, zero, suc, ◌+◌, ◌*◌, ◌/◌, ◌%◌, ◌≤◌, ◌<◌, ◌≡◌, refl, ◌∙◌, ap, ◌==◌, if◌then◌else◌, arith, List,
  [], ◌∷◌, ◌⊎◌, ◌≢◌, ◌-◌, inl, inr, has, true, sym,
}
use riscv_mos.Mem.{Mem, load}
use riscv_mos.Kernel.{Machine, page_size, maxva, kernend}
use riscv_mos.Page.Chain.{IsFrame, HasFree}
use riscv_mos.Vm.Pte.{flag, pte_v, pte2pa, pte2pa_lem}
use riscv_mos.Vm.Tables.{Place, IsTable, Ordinary}
use riscv_mos.Vm.Entries.{pte_at}
use riscv_mos.Vm.Spared.{Spared, Spared-refl, Spared-trans}
use riscv_mos.Vm.Alloc.{pages_for}
use riscv_mos.Vm.Region.{Region}
use riscv_mos.Vm.Map.Page.{leaf, Unmapped}
use riscv_mos.ElfLoader.{Phdr, segment_perm}
use riscv_mos.Env.Create.{read_phdr, pt_load}
use riscv_mos.Env.Create.Kept.{Mapped-memory, Mapped, Mapped-Region, Mapped-Spared, Mapped-image}
use riscv_mos.Env.Create.Segment.{image_of}

-- The loadable segments among `n` program headers, the first of them at offset `off`.
unfoldable pub program : Mem → (binary n off : ℕ) → List Phdr
program m binary zero off = []
program m binary (suc n) off =
    let ph = read_phdr m (binary + off) in
    let rest = program m binary n (off + load 2 m (binary + 54)) in
    if ph.p_type == pt_load then ph ∷ rest else rest

-- The page numbers of a segment are those from `first_page` on, `page_count` of them.
abbrev pub first_page : Phdr → ℕ
first_page ph = ph.p_vaddr / 4096

abbrev pub page_count : Phdr → ℕ
page_count ph = pages_for ph.p_memsz

abbrev pub Outside : List Phdr → ℕ → Type 0
Outside [] page = Unit {0}
Outside (ph ∷ phs) page =
    ((page < first_page ph) ⊎ (first_page ph + page_count ph ≤ page)) × Outside phs page

-- A page of one of the segments.
abbrev pub Inside : List Phdr → ℕ → Type 0
Inside [] page = ⊥
Inside (ph ∷ phs) page =
    ((first_page ph ≤ page) × (page < first_page ph + page_count ph)) ⊎ Inside phs page

-- Where the address is mapped to.
abbrev pub frame_at : Machine → (root a : ℕ) → ℕ
frame_at k root a = pte2pa (pte_at k root a)

-- How many pages the segments have.
abbrev pub total_pages : List Phdr → ℕ
total_pages [] = 0
total_pages (ph ∷ phs) = page_count ph + total_pages phs

-- What `load_icode` asks of a segment: it starts a page, lies below MAXVA, its bytes lie in the image,
-- below the pages of the heap, and no page of it is mapped.
pub record Loadable (own root binary : ℕ) (k : Machine) (ph : Phdr) : Type 0 where
  pub aligned : ph.p_vaddr % page_size ≡ 0
  pub fits : ph.p_filesz ≤ ph.p_memsz
  pub low : ph.p_vaddr + page_count ph * page_size ≤ maxva
  pub inside : binary + ph.p_offset + ph.p_filesz ≤ kernend
  pub clear : Unmapped own root (first_page ph) (page_count ph) k

-- All segments are loadable, and their pages are distinct.
abbrev pub AllLoadable : (own root binary : ℕ) → Machine → List Phdr → Type 0
AllLoadable own root binary k [] = Unit {0}
AllLoadable own root binary k (ph ∷ phs) =
    Loadable own root binary k ph
    × ((page : ℕ) → first_page ph ≤ page → page < first_page ph + page_count ph → Outside phs page)
    × AllLoadable own root binary k phs

-- All segments are in the address space, with their bytes in the image `m`.
abbrev pub AllMapped : (own root binary : ℕ) → Mem → List Phdr → Machine → Place → List ℕ → Type 0
AllMapped own root binary m [] k places rest = Unit {0}
AllMapped own root binary m (ph ∷ phs) k places rest =
    Mapped own root (first_page ph) (page_count ph) (segment_perm ph)
      (image_of m (binary + ph.p_offset) ph.p_filesz) k places rest
    × AllMapped own root binary m phs k places rest

pub AllMapped-memory :
    (own root binary : ℕ) (m : Mem) (phs : List Phdr) (k k' : Machine) (place : Place) (xs : List ℕ)
    → k'.mem ≡ k.mem
    → AllMapped own root binary m phs k place xs
    → AllMapped own root binary m phs k' place xs
AllMapped-memory own root binary m [] k k' place xs same h = tt
AllMapped-memory own root binary m (ph ∷ phs) k k' place xs same (here, more) =
    (Mapped-memory k' same here, AllMapped-memory own root binary m phs k k' place xs same more)

-- Between `k` and `k'` the segments were loaded, from the image `m`.
pub record ProgramLoaded (own root binary : ℕ) (m : Mem) (phs : List Phdr) (k : Machine)
    (place : Place) (xs : List ℕ) (k' : Machine) (places : Place) (rest : List ℕ) : Type 0 where
  pub table : IsTable own k'.mem root places rest
  pub free : HasFree k' rest
  pub segments : AllMapped own root binary m phs k' places rest
  pub were_free :
      (a : ℕ)
      → a < maxva
      → Ordinary own a
      → Inside phs (a / 4096)
      → has (frame_at k' root a) xs ≡ true
  pub separate :
      (a b : ℕ)
      → a < maxva
      → b < maxva
      → Ordinary own a
      → Ordinary own b
      → Inside phs (a / 4096)
      → Inside phs (b / 4096)
      → frame_at k' root a ≡ frame_at k' root b
      → a / 4096 ≡ b / 4096
  pub others :
      (a : ℕ)
      → a < maxva
      → Ordinary own a
      → Outside phs (a / 4096)
      → pte_at k' root a ≡ pte_at k root a
  pub spared : Spared place xs k.mem places rest k'.mem
  pub pagetable : k'.kernel_pagetable ≡ k.kernel_pagetable
  pub satp : k'.satp ≡ k.satp

segment_perm-lt : (ph : Phdr) → segment_perm ph < 1024
segment_perm-lt ph = ground arith

pte2pa-leaf : (f perm : ℕ) → perm < 1024 → IsFrame f → pte2pa (leaf f perm) ≡ f
pte2pa-leaf f perm small fr =
    pte2pa_lem (f / 4096) (perm / 2 * 2 + 1) (omega arith) (omega (arith, fr.high))
    ∙ omega (arith, fr.aligned)

-- The bytes of a segment are those of the image that it was loaded from.
image_of-same :
    (m n : Mem) (bin size i : ℕ)
    → ((a : ℕ) → a < kernend → n a ≡ m a)
    → bin + size ≤ kernend
    → image_of n bin size i ≡ image_of m bin size i
image_of-same m n bin size i same h = ground (arith, same (bin + i))

module _ {own : ℕ} (root binary : ℕ) (m : Mem) where
  pub ProgramLoaded-nil :
      (k : Machine) (place : Place) (xs : List ℕ)
      → IsTable own k.mem root place xs
      → HasFree k xs
      → ProgramLoaded own root binary m [] k place xs k place xs
  ProgramLoaded-nil k place xs t c = record {
    table = t;
    free = c;
    segments = tt;
    were_free = λ a h o x. absurd x;
    separate = λ a b ha hb oa ob x. absurd x;
    others = λ a h o out. refl;
    spared = Spared-refl place xs k.mem;
    pagetable = refl;
    satp = refl;
  }

  -- The segments that are still to come stay loadable.
  pub AllLoadable-same :
      (ph : Phdr) (phs : List Phdr) (k k' : Machine)
      → ((page : ℕ)
          → first_page ph ≤ page
          → page < first_page ph + page_count ph
          → Outside phs page)
      → ((a : ℕ)
          → a < maxva
          → Ordinary own a
          → (a / 4096 < first_page ph) ⊎ (first_page ph + page_count ph ≤ a / 4096)
          → pte_at k' root a ≡ pte_at k root a)
      → AllLoadable own root binary k phs
      → AllLoadable own root binary k' phs
  AllLoadable-same ph [] k k' apart same h = tt
  AllLoadable-same ph (q ∷ phs) k k' apart same (here, apart', more) = (
    record {
      aligned = here.aligned;
      fits = here.fits;
      low = here.low;
      inside = here.inside;
      clear = λ a ha lo hi.
          let (o, unmapped) = here.clear a ha lo hi in
          (o, ap (λ (v : ℕ). flag v pte_v) (same a ha o (off a lo hi)) ∙ unmapped);
    },
    apart',
    AllLoadable-same ph phs k k' (λ page lo hi. (apart page lo hi).1) same more,
  )
    where
      off :
          (a : ℕ)
          → first_page q ≤ a / 4096
          → a / 4096 < first_page q + page_count q
          → (a / 4096 < first_page ph) ⊎ (first_page ph + page_count ph ≤ a / 4096)
      off a lo hi = ground (arith, apart (a / 4096))

  -- One segment, and then the others.
  pub ProgramLoaded-cons :
      (ph : Phdr) (phs : List Phdr) (k k1 k2 : Machine) (place place1 place2 : Place)
      (xs xs1 xs2 : List ℕ)
      → ((a : ℕ) → a < kernend → k.mem a ≡ m a)
      → binary + ph.p_offset + ph.p_filesz ≤ kernend
      → ((page : ℕ)
          → first_page ph ≤ page
          → page < first_page ph + page_count ph
          → Outside phs page)
      → Region own root
          (first_page ph)
          (page_count ph)
          (segment_perm ph)
          (image_of k.mem (binary + ph.p_offset) ph.p_filesz)
          k
          place
          xs
          k1
          place1
          xs1
      → ProgramLoaded own root binary m phs k1 place1 xs1 k2 place2 xs2
      → ProgramLoaded own root binary m (ph ∷ phs) k place xs k2 place2 xs2
  ProgramLoaded-cons ph phs k k1 k2 place place1 place2 xs xs1 xs2 image inside apart g r = record {
    table = r.table;
    free = r.free;
    segments = (
      Mapped-Spared
          (Mapped-image
            (λ i. image_of-same m k.mem (binary + ph.p_offset) ph.p_filesz i image inside)
            (Mapped-Region g))
          r.spared (λ a h o lo hi. r.others a h o (apart (a / 4096) lo hi)),
      r.segments,
    );
    were_free = were_free';
    separate = separate';
    others = λ a h o (here, out). r.others a h o out ∙ g.entries a h o ∙ ground arith;
    spared = Spared-trans g.spared r.spared;
    pagetable = r.pagetable ∙ g.pagetable;
    satp = r.satp ∙ g.satp;
  }
    where
      -- The page behind an address of the first segment.
      head_frame :
          (a : ℕ)
          → a < maxva
          → Ordinary own a
          → first_page ph ≤ a / 4096
          → a / 4096 < first_page ph + page_count ph
          → frame_at k2 root a ≡ g.frames (a / 4096 - first_page ph)
      head_frame a h o lo hi =
          let f : ℕ = g.frames (a / 4096 - first_page ph) in
          let fr = g.frame (a / 4096 - first_page ph) (omega arith) in
          ap pte2pa (r.others a h o (apart (a / 4096) lo hi) ∙ g.entries a h o ∙ ground arith)
          ∙ pte2pa-leaf f (segment_perm ph) (segment_perm-lt ph) fr

      were_free' :
          (a : ℕ)
          → a < maxva
          → Ordinary own a
          → Inside (ph ∷ phs) (a / 4096)
          → has (frame_at k2 root a) xs ≡ true
      were_free' a h o (inl (lo, hi)) =
          rw (head_frame a h o lo hi) (g.were_free (a / 4096 - first_page ph) (omega arith))
      were_free' a h o (inr later) =
          g.spared.from_free (frame_at k2 root a) (r.were_free a h o later)

      -- No page of the first segment is one of the others.
      head_apart :
          (a b : ℕ)
          → a < maxva
          → b < maxva
          → Ordinary own a
          → Ordinary own b
          → first_page ph ≤ a / 4096
          → a / 4096 < first_page ph + page_count ph
          → Inside phs (b / 4096)
          → frame_at k2 root a ≢ frame_at k2 root b
      head_apart a b ha hb oa ob lo hi later e =
          let taken = (g.owned (a / 4096 - first_page ph) (omega arith)).1 in
          let free = r.were_free b hb ob later in
          let same = ap (λ (f : ℕ). has f xs1) (sym (head_frame a ha oa lo hi) ∙ e) in
          absurd (ground (arith, sym taken ∙ same ∙ free))

      separate' :
          (a b : ℕ)
          → a < maxva
          → b < maxva
          → Ordinary own a
          → Ordinary own b
          → Inside (ph ∷ phs) (a / 4096)
          → Inside (ph ∷ phs) (b / 4096)
          → frame_at k2 root a ≡ frame_at k2 root b
          → a / 4096 ≡ b / 4096
      separate' a b ha hb oa ob (inl (lo, hi)) (inl (lo', hi')) e =
          let same =
            g.distinct (a / 4096 - first_page ph) (b / 4096 - first_page ph) (omega arith)
              (omega arith) (sym (head_frame a ha oa lo hi) ∙ e ∙ head_frame b hb ob lo' hi') in
          omega (arith, same)
      separate' a b ha hb oa ob (inl (lo, hi)) (inr later) e =
          absurd (head_apart a b ha hb oa ob lo hi later e)
      separate' a b ha hb oa ob (inr later) (inl (lo, hi)) e =
          absurd (head_apart b a hb ha ob oa lo hi later (sym e))
      separate' a b ha hb oa ob (inr x) (inr y) e = r.separate a b ha hb oa ob x y e
