-- ===== src/Tests/Programs.antt =====
-- Runs of the loader: an image of one segment, on a machine whose kernel maps the page at 0x80000000.
use riscv_mos.Base.{
  ℕ, ◌+◌, ◌*◌, ◌-◌, ◌/◌, ◌%◌, ◌^◌, ◌≤◌, ◌<◌, ◌≡◌, refl, ◌∙◌, arith, true, false, ◌==◌, ◌&&◌, leb,
  ltb, if◌then◌else◌, List, [], ◌∷◌, none, some, inl, inr, ◌⊎◌, pos, le→ltb, length, ap, sym, ne→==,
  ◌∉◌, Bool-cases,
}
use riscv_mos.Mem.{Mem, load, load64, store, store8}
use riscv_mos.Kernel.{Machine, ok, ◌>>=◌, page_size, kernend, maxva}
use riscv_mos.Page.Chain.{IsFrame, HasFree, IsZeroed}
use riscv_mos.Vm.Pte.{flag, pte_v, flag-valid}
use riscv_mos.Vm.Tables.{Place, IsTable, no_own, no_own-Ordinary, pte_of-zeroed}
use riscv_mos.Vm.Entries.{pte_at}
use riscv_mos.Vm.Create.{only_root, only_root-IsTable}
use riscv_mos.Vm.Share.{Regions, kernel_page, Shares, kvm_copy_to_user_pagetable-Shares}
use riscv_mos.ElfLoader.{Phdr, elf_load_seg}
use riscv_mos.Env.{Os}
use riscv_mos.Env.Create.{elf_from, env_create, read_phdr, pt_load}
use riscv_mos.Env.Create.Program.{program, total_pages}
use riscv_mos.Env.Create.Icode.{segments_of, InImage, read_phdr-same, elf_from-same}
use riscv_mos.Env.Create.Created.{UserSegments, Created, env_create-Created}
use riscv_mos.Vm.Map.{mappages-Maps}
use riscv_mos.Vm.{mappages}
use riscv_mos.Sched.Destroyed.{kernel_half}
use riscv_mos.Vm.Spared.{image_same, SamePage, placed-apart}
use riscv_mos.Env.Create.Kept.{load_same}
use riscv_mos.Tests.Memory.{root, page}
use riscv_mos.Tests.Queues.{
  empty_queue, empty_queue-IsTailq, queue_of_numbers, queue_of_numbers-IsTailq,
}
use riscv_mos.Tests.Processes.{system}
use riscv_mos.Env.Asid.{asid_used}
use riscv_mos.Env.Life.{env_setup_vm, env_alloc}
use riscv_mos.Env.Life.Setup.{SetUp}
use riscv_mos.Env.Life.Alloc.{Allocs, env_alloc-Allocs}
use riscv_mos.Vm.Map.Page.{Unmapped, Maps, mapped-single}
use riscv_mos.Vm.Alloc.{Allocates, user_flags, uvmalloc-Allocates}
use riscv_mos.Vm.User.{kvm_copy_to_user_pagetable, uvmalloc, uvmcreate, uvmfree}
use riscv_mos.Vm.Create.{uvmfree-uvmcreate}
use riscv_mos.Page.Alloc.{OnlyPage}
use riscv_mos.Env.Create.{load_icode, load_icode_mapper}
use riscv_mos.Env.Create.Program.{AllLoadable, ProgramLoaded}
use riscv_mos.Env.Create.Icode.{start_at, load_icode-ProgramLoaded}
use riscv_mos.Env.Create.Segment.{SegmentLoaded, image_of, with_machine, elf_load_seg-SegmentLoaded}
use riscv_mos.ElfLoader.{segment_perm}

-- The bytes of the image that are not 0: the ELF header, the program header, and three bytes of text.
abbrev pub bytes : List (ℕ × ℕ)
bytes =
    (0, 0x7f)
    ∷ (1, 0x45)
    ∷ (2, 0x4c)
    ∷ (3, 0x46)
    ∷ (16, 2)
    ∷ (26, 0x40)
    ∷ (32, 64)
    ∷ (54, 56)
    ∷ (56, 1)
    ∷ (64, 1)
    ∷ (68, 5)
    ∷ (72, 120)
    ∷ (82, 0x40)
    ∷ (96, 3)
    ∷ (104, 10)
    ∷ (120, 11)
    ∷ (121, 22)
    ∷ (122, 33)
    ∷ []

abbrev pub byte_in : List (ℕ × ℕ) → ℕ → ℕ
byte_in [] i = 0
byte_in ((j, v) ∷ rest) i = if i == j then v else byte_in rest i

abbrev pub binary : ℕ
binary = 0x80200000

abbrev pub image : Mem
image a = if leb binary a && ltb a (binary + 256) then byte_in bytes (a - binary) else 0

abbrev pub left_of_first : List ℕ
left_of_first =
    page 2
    ∷ page 3
    ∷ page 4
    ∷ page 5
    ∷ page 6
    ∷ page 7
    ∷ page 8
    ∷ page 9
    ∷ page 10
    ∷ page 11
    ∷ page 12
    ∷ []

-- The free pages.
abbrev pub pool : List ℕ
pool = page 1 ∷ left_of_first

-- Where page `p` of the pool points.
abbrev pub link : ℕ → ℕ
link p = if p == page 12 then 0 else p + page_size

abbrev pub memory : Mem
memory a =
    if leb (page 1) a && ltb a (page 13) && ltb (a % page_size) 8
    then link (a / page_size * page_size) / 256 ^ (a % page_size) % 256
    else image a

abbrev pub machine : Machine
machine = record { mem = memory; freelist = page 1; kernel_pagetable = root; satp = 0 }

frame : (p : ℕ) → p % page_size ≡ 0 → kernend ≤ p → p < 0x88000000 → IsFrame p
frame p a l h = record { aligned = a; low = l; high = h }

pub machine-HasFree : HasFree machine pool
unfolding load
machine-HasFree = (
  refl,
  frame (page 1) refl (omega arith) (omega arith),
  refl,
  (
    refl,
    frame (page 2) refl (omega arith) (omega arith),
    refl,
    (
      refl,
      frame (page 3) refl (omega arith) (omega arith),
      refl,
      (
        refl,
        frame (page 4) refl (omega arith) (omega arith),
        refl,
        (
          refl,
          frame (page 5) refl (omega arith) (omega arith),
          refl,
          (
            refl,
            frame (page 6) refl (omega arith) (omega arith),
            refl,
            (
              refl,
              frame (page 7) refl (omega arith) (omega arith),
              refl,
              (
                refl,
                frame (page 8) refl (omega arith) (omega arith),
                refl,
                (
                  refl,
                  frame (page 9) refl (omega arith) (omega arith),
                  refl,
                  (
                    refl,
                    frame (page 10) refl (omega arith) (omega arith),
                    refl,
                    (
                      refl,
                      frame (page 11) refl (omega arith) (omega arith),
                      refl,
                      (refl, frame (page 12) refl (omega arith) (omega arith), refl, refl),
                    ),
                  ),
                ),
              ),
            ),
          ),
        ),
      ),
    ),
  ),
)

-- A page that is neither free nor part of the image.
blank_page : (p : ℕ) → kernend ≤ p → (p + page_size ≤ page 1) ⊎ (page 13 ≤ p) → IsZeroed memory p
blank_page p heap off a low high =
    let behind : ltb a (binary + 256) ≡ false = le→ltb a (binary + 256) (omega arith) in
    let from : leb binary a ≡ true = ground arith in
    let free : (leb (page 1) a && ltb a (page 13) && ltb (a % page_size) 8) ≡ false =
      ground arith in
    rw (free, from, behind) refl

machine-IsZeroed : IsZeroed memory root
machine-IsZeroed = blank_page root (omega arith) (inl (omega arith))

page_13-IsZeroed : IsZeroed memory (page 13)
page_13-IsZeroed = blank_page (page 13) (omega arith) (inr (omega arith))

pub machine-IsTable : IsTable no_own memory root (only_root root) pool
machine-IsTable =
    only_root-IsTable no_own memory root pool machine-IsZeroed
      (frame root refl (omega arith) (omega arith)) refl

pub machine-unmapped : (a : ℕ) → pte_at machine root a ≡ 0
machine-unmapped a = pte_of-zeroed memory 2 root a machine-IsZeroed

pub machine-Unmapped : (first n : ℕ) → Unmapped no_own root first n machine
machine-Unmapped first n a h lo hi = (no_own-Ordinary a, rw (machine-unmapped a) (flag-valid 0))

-- The kernel maps a page.
abbrev pub mapped_kernel :
    Maps no_own root 0x80000 1 0x80000000 10 machine
      (only_root root)
      pool
      (mappages root kernel_half page_size 0x80000000 10 machine)
mapped_kernel =
    mappages-Maps root kernel_half page_size 0x80000000 10 machine (only_root root) pool
      (omega arith) (omega arith) (omega arith) (omega arith) machine-IsTable machine-HasFree
      (omega arith) (machine-Unmapped 0x80000 1)

abbrev pub kernel : Machine
kernel = record (mapped_kernel.after) { kernel_pagetable = root }

abbrev pub kplaces : Place
kplaces = mapped_kernel.places

-- The free pages that are left.
abbrev pub first_of : List ℕ → ℕ
first_of [] = 0
first_of (x ∷ xs) = x

abbrev pub others_of : List ℕ → List ℕ
others_of [] = []
others_of (x ∷ xs) = xs

first-others : (xs : List ℕ) → 0 < length xs → first_of xs ∷ others_of xs ≡ xs
first-others [] h = absurd (omega arith)
first-others (x ∷ xs) h = refl

abbrev pub fresh : ℕ
fresh = first_of mapped_kernel.rest

abbrev pub left : List ℕ
left = others_of mapped_kernel.rest

left_enough : 10 ≤ length mapped_kernel.rest
left_enough = omega (arith, mapped_kernel.uses)

rest-left : fresh ∷ left ≡ mapped_kernel.rest
rest-left = first-others mapped_kernel.rest (omega (arith, left_enough))

pub left_room : 9 ≤ length left
left_room = omega (arith, left_enough, ap length rest-left)

pub kernel-IsTable : IsTable no_own kernel.mem root kplaces (fresh ∷ left)
kernel-IsTable = rw rest-left mapped_kernel.table

pub kernel-HasFree : HasFree kernel (fresh ∷ left)
kernel-HasFree = rw (sym rest-left) at mapped_kernel.free

kernel_entry :
    (a : ℕ)
    → a < maxva
    → pte_at kernel root a ≡ (if a / 4096 == 0x80000 then 0x80000 * 1024 + 11 else 0)
kernel_entry a h =
    mapped_kernel.entries a h (no_own-Ordinary a)
    ∙ mapped-single 0x80000 1 0x80000000 10 (pte_at machine root a) (a / 4096) refl
    ∙ rw (machine-unmapped a) refl

pub fits_54 : (a : ℕ) → a < maxva → pte_at kernel root a < 2 ^ 54
fits_54 a h = rw (kernel_entry a h) (ground arith)

-- The range of 2 MiB in which the page lies.
abbrev pub regions : List ℕ
regions = 1024 ∷ []

pub kernel-Regions : Regions kernel root regions
kernel-Regions q lo hi valid = elim (Bool-cases (q == 0x80000)) [
  | inl here ↦ let same : q ≡ 0x80000 = ground arith in rw same refl
  | inr other ↦
      let number : (q * page_size / 4096 == 0x80000) ≡ false = ground arith in
      let entry : pte_at kernel root (q * page_size) ≡ 0 =
        kernel_entry (q * page_size) (omega arith) ∙ rw number refl in
      let unset = ap (λ (v : ℕ). flag v pte_v) entry ∙ flag-valid 0 in
      absurd (ground (arith, sym unset ∙ valid))
]

kernel_image : (a : ℕ) → a < kernend → kernel.mem a ≡ memory a
kernel_image a h =
    image_same machine kernel.mem a machine-IsTable machine-HasFree mapped_kernel.spared h

abbrev pub text : Phdr
text = record {
  p_type = 1;
  p_flags = 5;
  p_offset = 120;
  p_vaddr = 0x400000;
  p_filesz = 3;
  p_memsz = 10;
}

pub segments_of_memory : segments_of memory binary ≡ text ∷ []
unfolding program load store store8
segments_of_memory = refl

pub accepted : elf_from memory binary 512 ≡ some binary
unfolding load store store8
accepted = refl

memory_headers : (load 2 memory (binary + 56) ≡ 1) × (load64 memory (binary + 32) ≡ 64)
unfolding load
memory_headers = (refl, refl)

memory_header : read_phdr memory (binary + 64) ≡ text
unfolding load
memory_header = refl

abbrev loadable : Phdr → List Phdr
loadable ph = if ph.p_type == pt_load then ph ∷ [] else []

pub kernel_segments : segments_of kernel.mem binary ≡ text ∷ []
unfolding program
kernel_segments =
    ap (λ (n : ℕ). program kernel.mem binary n (load64 kernel.mem (binary + 32)))
      (load_same memory kernel.mem 2 (binary + 56) kernel_image (omega arith) ∙ memory_headers.0)
    ∙ ap (λ (off : ℕ). program kernel.mem binary 1 off)
        (load_same memory kernel.mem 8 (binary + 32) kernel_image (omega arith) ∙ memory_headers.1)
    ∙ ap loadable
        (read_phdr-same memory kernel.mem (binary + 64) kernel_image (omega arith) ∙ memory_header)

pub kernel_accepted : elf_from kernel.mem binary 512 ≡ some binary
kernel_accepted = elf_from-same memory kernel.mem binary 512 kernel_image (omega arith) ∙ accepted

in_image : InImage memory binary
unfolding load
in_image = record { header = omega arith; headers = omega arith }

pub kernel-InImage : InImage kernel.mem binary
kernel-InImage = record {
  header = omega arith;
  headers =
      rw
        (
          load_same memory kernel.mem 8 (binary + 32) kernel_image (omega arith),
          load_same memory kernel.mem 2 (binary + 56) kernel_image (omega arith),
          load_same memory kernel.mem 2 (binary + 54) kernel_image (omega arith),
        )
        in_image.headers;
}

pub one_segment : UserSegments binary (segments_of kernel.mem binary)
one_segment = rw kernel_segments (
  record { aligned = refl; fits = omega arith; low = omega arith; inside = omega arith },
  λ page lo hi. tt,
  tt,
)

pub asid_3_free : asid_used (λ i. 7) 3 ≡ false
unfolding asid_used
asid_3_free = refl

-- Environments 1, 2 and 3 are free, and none is in the run queue.
abbrev pub os : Os
os = record (system empty_queue none) { machine = kernel; env_free_list = queue_of_numbers.links }

pub room : 2 * length regions + 2 + 3 * total_pages (segments_of kernel.mem binary) ≤ length left
room = rw kernel_segments (omega (arith, left_room))

env_create-Created_example :
    (t : Os) × (env_create binary 512 3 os ≡ ok 1 t)
    × Created 1 fresh binary 3
        (load64 kernel.mem (binary + 24))
        kernel.mem
        (segments_of kernel.mem binary)
        (2 ∷ 3 ∷ [])
        []
        os
        t
env_create-Created_example =
    env_create-Created 1 fresh binary 512 3 3 (2 ∷ 3 ∷ []) [] os kplaces left regions (omega arith)
      queue_of_numbers-IsTailq.list empty_queue-IsTailq refl (omega arith) asid_3_free
      kernel-IsTable kernel-HasFree fits_54 kernel-Regions room kernel_accepted kernel-InImage
      one_segment

env_alloc-Allocs_example :
    (u : SetUp 1 fresh os kplaces left regions (env_setup_vm 1 os)) × Allocs 1 fresh 7
      (2 ∷ 3 ∷ [])
      os
      u.after
      (env_alloc 7 os)
env_alloc-Allocs_example =
    env_alloc-Allocs 1 fresh 7 (2 ∷ 3 ∷ []) os kplaces left regions (omega arith)
      queue_of_numbers-IsTailq.list kernel-IsTable kernel-HasFree fits_54 kernel-Regions
      (omega (arith, left_room))

-- The image on a machine without mappings.
abbrev plain : Os
plain = record os { machine = machine }

text-Unmapped : Unmapped no_own root 0x400 1 machine
text-Unmapped a h lo hi = (no_own-Ordinary a, rw (machine-unmapped a) (flag-valid 0))

one_loadable : AllLoadable no_own root binary machine (segments_of memory binary)
one_loadable = rw segments_of_memory (
  record {
    aligned = refl;
    fits = omega arith;
    low = omega arith;
    inside = omega arith;
    clear = text-Unmapped;
  },
  λ page lo hi. tt,
  tt,
)

load_icode-ProgramLoaded_example :
    (k : Machine) × (places : Place) × (rest : List ℕ) × (load_icode 1 binary 512 plain
      ≡ ok tt (start_at (with_machine os k) 1 (load64 memory (binary + 24))))
    × ProgramLoaded no_own root binary memory
        (segments_of memory binary)
        machine
        (only_root root)
        pool
        k
        places
        rest
load_icode-ProgramLoaded_example =
    load_icode-ProgramLoaded no_own 1 binary 512 plain (only_root root) pool accepted in_image
      machine-IsTable machine-HasFree one_loadable (rw segments_of_memory (omega arith))

elf_load_seg-SegmentLoaded_example :
    SegmentLoaded no_own 1 0x400000 1
      (segment_perm text)
      (image_of memory (binary + 120) 3)
      plain
      (only_root root)
      pool
      (elf_load_seg (load_icode_mapper 1) text (binary + 120) plain)
elf_load_seg-SegmentLoaded_example =
    elf_load_seg-SegmentLoaded 1 (binary + 120) text plain (only_root root) pool refl (omega arith)
      (omega arith) (omega arith) machine-IsTable machine-HasFree (omega arith) text-Unmapped

uvmalloc-Allocates_example :
    Allocates no_own root 0x400 1
      (user_flags 4)
      0x400123
      machine
      (only_root root)
      pool
      (uvmalloc root 0x3ff800 0x400123 4 machine)
uvmalloc-Allocates_example =
    uvmalloc-Allocates root 0x3ff800 0x400123 4 machine (only_root root) pool (omega arith)
      (omega arith) (omega arith) machine-IsTable machine-HasFree (omega arith) text-Unmapped

uvmfree-uvmcreate_example :
    (k : Machine) × ((uvmcreate >>= λ pagetable. uvmfree pagetable 0) machine ≡ ok tt k)
    × HasFree k pool
    × OnlyPage (page 1) machine k
uvmfree-uvmcreate_example = uvmfree-uvmcreate machine (page 1) left_of_first machine-HasFree

-- The tables of a process without mappings, at page 13, which is no table of the kernel and not free.
page_13_spared :
    (mapped_kernel.places (page 13) ≡ none)
    × (page 13 ∉ mapped_kernel.rest)
    × SamePage (page 13) memory kernel.mem
page_13_spared = mapped_kernel.spared.page (page 13) refl refl refl

user-IsZeroed : IsZeroed kernel.mem (page 13)
user-IsZeroed a lo hi = page_13_spared.2 a (omega arith) (omega arith) ∙ page_13-IsZeroed a lo hi

user-IsTable : IsTable no_own kernel.mem (page 13) (only_root (page 13)) (fresh ∷ left)
user-IsTable =
    only_root-IsTable no_own kernel.mem (page 13) (fresh ∷ left) user-IsZeroed
      (frame (page 13) refl (omega arith) (omega arith)) (rw (sym rest-left) at page_13_spared.1)

user_apart : (q l pre : ℕ) → kplaces q ≡ some (l, pre) → only_root (page 13) q ≡ none
user_apart q l pre at =
    let ne = placed-apart kplaces q (page 13) l pre at (page_13_spared.0) in
    rw (ne→== q (page 13) ne) refl

user-Unmapped : Unmapped no_own (page 13) kernel_page (maxva / page_size - kernel_page) kernel
user-Unmapped a h lo hi =
    (no_own-Ordinary a, rw (pte_of-zeroed kernel.mem 2 (page 13) a user-IsZeroed) (flag-valid 0))

kvm_copy_to_user_pagetable-Shares_example :
    (k : Machine) × (places : Place) × (rest : List ℕ) × (kvm_copy_to_user_pagetable
        (page 13)
        kernel
      ≡ ok (pos 0) k)
    × Shares root
        (page 13)
        (maxva / page_size)
        kernel
        (only_root (page 13))
        (fresh ∷ left)
        k
        places
        rest
    × (length (fresh ∷ left) ≤ length rest + 2 * length regions)
kvm_copy_to_user_pagetable-Shares_example =
    kvm_copy_to_user_pagetable-Shares (page 13) kernel kplaces (only_root (page 13)) (fresh ∷ left)
      kernel-IsTable user_apart fits_54 user-Unmapped regions user-IsTable kernel-HasFree
      kernel-Regions (omega (arith, left_room))
