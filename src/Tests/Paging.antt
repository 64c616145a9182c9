-- ===== src/Tests/Paging.antt =====
-- Runs of the page table code on the machine of `Memory`.
use riscv_mos.Base.{ℕ, ◌+◌, ◌*◌, ◌≡◌, ◌≢◌, refl, ◌∙◌, arith, Option, true, false, pos}
use riscv_mos.Kernel.{Machine, ok, panic, ◌>>=◌, page_size}
use riscv_mos.Vm.{walk, mappages, lookup, uvmunmap}
use riscv_mos.Vm.Pte.{flag, flag-valid, pte_v, pte_flags}
use riscv_mos.Vm.Tables.{pte_of-zeroed, no_own, no_own-Ordinary}
use riscv_mos.Vm.Entries.{pte_at}
use riscv_mos.Vm.Walk.{Walked, walk-Walked}
use riscv_mos.Vm.Map.{mappages-Maps}
use riscv_mos.Vm.Map.Page.{Maps}
use riscv_mos.Vm.Lookup.{lookup-translate, lookup-mappages, translate, Points}
use riscv_mos.Vm.Unmap.{Removed, uvmunmap-Removed, uvmunmap-panic}
use riscv_mos.Tests.Memory.{
  root, free_pages, start, places, start-HasFree, start-IsTable, start-IsZeroed,
}

-- The page of user space that the runs map, and the physical page behind it.
abbrev va : ℕ
va = 0x1000

abbrev pa : ℕ
pa = 0x80500000

-- PTE_R | PTE_W | PTE_U
abbrev perm : ℕ
perm = 22

pub start-unmapped : (a : ℕ) → flag (pte_at start root a) pte_v ≡ false
start-unmapped a = rw (pte_of-zeroed start.mem 2 root a start-IsZeroed) (flag-valid 0)

walk-Walked_example : Walked no_own root 2 root va start places free_pages (walk root va true start)
walk-Walked_example =
    walk-Walked root va (no_own-Ordinary va) start places free_pages (omega arith) start-IsTable
      start-HasFree

mappages-Maps_example :
    Maps no_own root 1 1 pa perm start places free_pages (mappages root va page_size pa perm start)
mappages-Maps_example =
    mappages-Maps root va page_size pa perm start places free_pages (omega arith) (omega arith)
      (omega arith) (omega arith) start-IsTable start-HasFree (omega arith)
      λ a low f l. (no_own-Ordinary a, start-unmapped a)

lookup-mappages_example :
    (k : Machine) × (slot : Option ℕ) × ((mappages root va page_size pa perm >>= λ r.
    lookup root (va + 5))
        start
      ≡ ok (pa, slot) k)
lookup-mappages_example =
    lookup-mappages root va page_size pa perm (va + 5) start places free_pages (omega arith)
      (omega arith) (omega arith) refl (omega arith) start-IsTable start-HasFree (omega arith)
      (λ a low f l. (no_own-Ordinary a, start-unmapped a)) (omega arith) (omega arith)

lookup-translate_example :
    (slot : Option ℕ) × (lookup root va start ≡ ok (translate (pte_at start root va), slot) start)
    × Points start (pte_at start root va) slot
lookup-translate_example =
    lookup-translate start root va places free_pages (omega arith) (no_own-Ordinary va)
      start-IsTable

-- The machine with the page mapped.
run :
    Maps no_own root 1 1 pa perm start places free_pages (mappages root va page_size pa perm start)
run =
    mappages-Maps root va page_size pa perm start places free_pages (omega arith) (omega arith)
      (omega arith) (omega arith) start-IsTable start-HasFree (omega arith)
      λ a low f l. (no_own-Ordinary a, start-unmapped a)

entry_of_va : pte_at run.after root va ≡ 0x80500 * 1024 + 23
entry_of_va = run.entries va (omega arith) (no_own-Ordinary va) ∙ refl

valid_at_va : flag (pte_at run.after root va) pte_v ≡ true
unfolding flag
valid_at_va = rw entry_of_va refl

leaf_at_va : pte_flags (pte_at run.after root va) ≢ pte_v
unfolding pte_flags
leaf_at_va = rw entry_of_va (omega arith)

uvmunmap-Removed_example :
    (k : Machine) × (uvmunmap root va 1 false run.after ≡ ok (pos 0) k)
    × Removed no_own root va run.places run.rest run.after k
uvmunmap-Removed_example =
    uvmunmap-Removed root va run.after run.places run.rest (omega arith) (no_own-Ordinary va)
      run.table run.free refl valid_at_va leaf_at_va

uvmunmap-panic_example : uvmunmap root va 2 false run.after ≡ panic "uvmunmap: not mapped"
uvmunmap-panic_example =
    uvmunmap-panic 0 root va run.after run.places run.rest (omega arith) (no_own-Ordinary va)
      run.table run.free refl valid_at_va leaf_at_va (omega arith)
