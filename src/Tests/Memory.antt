-- ===== src/Tests/Memory.antt =====
-- Runs on a machine with one empty page table and four free pages.
use riscv_mos.Base.{
  ℕ, ◌+◌, ◌*◌, ◌%◌, ◌≤◌, ◌<◌, ◌≡◌, refl, arith, ◌==◌, if◌then◌else◌, List, [], ◌∷◌, none, some, inl,
  inr, ap, sym, true, ◌∙◌,
}
use riscv_mos.Mem.{Mem, load64, store64, load, store, store8}
use riscv_mos.Mem.Laws.{store-outside}
use riscv_mos.Kernel.{Machine, ok, page_size, kernend}
use riscv_mos.Strings.{memset}
use riscv_mos.Strings.Copy.{memcpy}
use riscv_mos.Strings.Copy.Bytes.{memcpy-bytes}
use riscv_mos.Strings.Fill.{memset-bytes}
use riscv_mos.Page.{kfree, kinit}
use riscv_mos.Page.Chain.{IsFrame, HasFree, IsZeroed, load-IsZeroed}
use riscv_mos.Page.Init.{HoldsHeap, kinit-HoldsHeap}
use riscv_mos.Page.Alloc.{kfree-cons, OnlyPage}
use riscv_mos.Vm.Pte.{flag, flag-valid, pte_v}
use riscv_mos.Vm.Tables.{Place, IsTable, no_own}

abbrev pub root : ℕ
root = 0x80400000

abbrev pub page : ℕ → ℕ
page i = root + i * page_size

abbrev pub links : Mem
links = store64 (store64 (store64 (λ a. 0) (page 3) (page 4)) (page 2) (page 3)) (page 1) (page 2)

abbrev pub free_pages : List ℕ
free_pages = page 1 ∷ page 2 ∷ page 3 ∷ page 4 ∷ []

abbrev pub start : Machine
start = record { mem = links; freelist = page 1; kernel_pagetable = root; satp = 0 }

frame : (p : ℕ) → p % page_size ≡ 0 → kernend ≤ p → p < 0x88000000 → IsFrame p
frame p a l h = record { aligned = a; low = l; high = h }

pub start-HasFree : HasFree start free_pages
unfolding load store store8
start-HasFree = (
  refl,
  frame (page 1) refl (omega arith) (omega arith),
  refl,
  (
    refl,
    frame (page 2) refl (omega arith) (omega arith),
    refl,
    (
      refl,
      frame (page 3) refl (omega arith) (omega arith),
      refl,
      (refl, frame (page 4) refl (omega arith) (omega arith), refl, refl),
    ),
  ),
)

pub start-IsZeroed : IsZeroed links root
start-IsZeroed a low high =
    store-outside 8 (store64 (store64 (λ b. 0) (page 3) (page 4)) (page 2) (page 3)) (page 1)
      (page 2) a (inl (omega arith))
    ∙ store-outside 8 (store64 (λ b. 0) (page 3) (page 4)) (page 2) (page 3) a (inl (omega arith))
    ∙ store-outside 8 (λ b. 0) (page 3) (page 4) a (inl (omega arith))

abbrev pub places : Place
places p = if p == root then some (2, 0) else none

pub start-IsTable : IsTable no_own links root places free_pages
start-IsTable = record {
  root_place = refl;
  frame = λ p l pre at.
      let e : p ≡ root = ground arith in rw e (frame root refl (omega arith) (omega arith));
  used = λ p l pre at. let e : p ≡ root = ground arith in rw e refl;
  child = λ p l pre i at hi o v.
      let e : p ≡ root = ground arith in
      let z : load64 links (root + 8 * i) ≡ 0 =
        load-IsZeroed links root (root + 8 * i) start-IsZeroed (omega arith) (omega arith) in
      let v' : flag (load64 links (root + 8 * i)) pte_v ≡ true = rw (sym e) v in
      absurd (ground (arith, flag-valid 0, ap (λ w. flag w pte_v) z));
}

-- `memset` of 4 bytes of the free page 1, one of them looked at.
memset-bytes_example :
    ((memset (page 1) 0xAB 4 links).0 ≡ page 1)
    × ((memset (page 1) 0xAB 4 links).1 (page 1 + 3) ≡ 0xAB)
memset-bytes_example = memset-bytes (page 1) 0xAB 4 (page 1 + 3) links

-- Five bytes with a word among them.
memcpy-bytes_example :
    ((memcpy (page 9 + 3) (page 1 + 3) 5 links).0 ≡ page 9 + 3)
    × ((memcpy (page 9 + 3) (page 1 + 3) 5 links).1 (page 9 + 7) ≡ links (page 1 + 7) % 256)
memcpy-bytes_example =
    memcpy-bytes (page 9 + 3) (page 1 + 3) 5 (page 9 + 7) links (inr (omega arith))

page9-IsFrame : IsFrame (page 9)
page9-IsFrame = frame (page 9) refl (omega arith) (omega arith)

kfree-cons_example :
    (k : Machine) × (kfree (page 9) start ≡ ok tt k)
    × HasFree k (page 9 ∷ free_pages)
    × OnlyPage (page 9) start k
kfree-cons_example = kfree-cons start (page 9) free_pages start-HasFree page9-IsFrame refl

abbrev blank : Machine
blank = record { mem = λ a. 0; freelist = 0; kernel_pagetable = 0; satp = 0 }

kinit-HoldsHeap_example :
    (k : Machine) × (xs : List ℕ) × (kinit blank ≡ ok tt k) × HoldsHeap blank k xs
kinit-HoldsHeap_example = kinit-HoldsHeap blank refl
