-- ===== src/Vm/Map.antt =====
-- `mappages` of kern/vm.c against the map from page numbers to entries.
pub mod Page
use riscv_mos.Base.{
  ℕ, zero, suc, ◌+◌, ◌-◌, ◌*◌, ◌/◌, ◌%◌, ◌^◌, ◌≤◌, ◌<◌, ◌≡◌, ◌≢◌, refl, ◌∙◌, ap, sym, true, false,
  ◌&&◌, ◌==◌, arith, leb, ltb, if◌then◌else◌, List, length, inl, inr, Bool-cases, eq→==, ne→==, u64,
  ℤ, pos, rounddown-page,
}
use riscv_mos.Mem.{load64, store64}
use riscv_mos.Kernel.{Machine, Outcome, ok, panic, page_size, maxva}
use riscv_mos.Page.Chain.{HasFree}
use riscv_mos.Vm.{walk, map_loop, mappages}
use riscv_mos.Vm.Pte.{flag, pte_v, leaf_value}
use riscv_mos.Vm.Tables.{Place, IsTable, pte_of-Finds}
use riscv_mos.Vm.Entries.{pte_at, IsTable-write, pte_of-write, Chain-write}
use riscv_mos.Vm.Walk.{Walked, walk-Walked}
use riscv_mos.Vm.Map.Page.{
  leaf, mapped, Maps, Unmapped, walked, leaf_state, leaf_state-IsTable, leaf_state-HasFree,
  leaf_state-Unmapped, Maps-last, Maps-more,
}

-- All pages of a range, from an aligned address: `n + 1` rounds.
map_loop-Maps :
    {own : ℕ} (n fuel root start last pa perm : ℕ) (k : Machine) (place : Place) (xs : List ℕ)
    → n < fuel
    → last ≡ start + n * 4096
    → start % 4096 ≡ 0
    → start + suc n * 4096 ≤ maxva
    → perm < 1024
    → pa + suc n * 4096 ≤ 2 ^ 56
    → IsTable own k.mem root place xs
    → HasFree k xs
    → 2 * suc n ≤ length xs
    → Unmapped own root (start / 4096) (suc n) k
    → Maps own root
        (start / 4096)
        (suc n)
        pa
        perm
        k
        place
        xs
        (map_loop fuel root start last pa perm k)
map_loop-Maps n zero root start last pa perm k place xs fu end al low small range t c enough clear =
    absurd (omega arith)
map_loop-Maps zero (suc f) root start last pa perm k place xs fu end al low small range t c enough
      clear =
    let here : start < maxva = omega arith in
    let (ord, clear_here) = clear start here (omega arith) (omega arith) in
    Maps-last root start pa perm ord k place xs here small (omega arith) t c (omega arith) f last
      clear_here (omega arith)
map_loop-Maps (suc n) (suc f) root start last pa perm k place xs fu end al low small range t c
      enough clear =
    let here : start < maxva = omega arith in
    let (ord, clear_here) = clear start here (omega arith) (omega arith) in
    let range' : pa < 2 ^ 56 = omega arith in
    let room : 2 ≤ length xs = omega arith in
    let w = walked root start pa perm ord k place xs here small range' t c room in
    Maps-more root start pa perm ord k place xs here small range' t c room (suc n) f last clear_here
      (omega arith)
      (map_loop-Maps n f root (start + 4096) last (pa + 4096) perm
        (leaf_state root start pa perm ord k place xs here small range' t c room) w.places w.rest
        (omega arith) (omega arith) (omega arith) (omega arith) small (omega arith)
        (leaf_state-IsTable root start pa perm ord k place xs here small range' t c room)
        (leaf_state-HasFree root start pa perm ord k place xs here small range' t c room)
        (omega (arith, w.uses))
        (leaf_state-Unmapped root start pa perm ord k place xs here small range' t c room (suc n)
          clear))

-- The number of pages that `[va, va + size)` meets.
abbrev pub pages_met : (va size : ℕ) → ℕ
pages_met va size = suc ((va + size - 1) / 4096 - va / 4096)

-- The range is not empty and ends below MAXVA, the physical pages lie below 2^56, the permission
-- has ten bits, tables and free list are well formed, there are two free pages for each page that
-- the range meets, and none of these is mapped, nor belongs to the entry `own` of the root. Then
-- `mappages` returns 0 and leaves tables and free list well formed. It maps every page that the
-- range meets to consecutive physical pages with the permission, and the entry of every other page
-- off `own` is as before, and so is memory beside tables and free pages. It takes at most two pages
-- for each page of the range, and leaves `kernel_pagetable` and `satp`.
pub mappages-Maps :
    {own : ℕ} (root va size pa perm : ℕ) (k : Machine) (place : Place) (xs : List ℕ)
    → 0 < size
    → va + size ≤ maxva
    → perm < 1024
    → pa + pages_met va size * 4096 ≤ 2 ^ 56
    → IsTable own k.mem root place xs
    → HasFree k xs
    → 2 * pages_met va size ≤ length xs
    → Unmapped own root (va / 4096) (pages_met va size) k
    → Maps own root
        (va / 4096)
        (pages_met va size)
        pa
        perm
        k
        place
        xs
        (mappages root va size pa perm k)
unfolding mappages
mappages-Maps root va size pa perm k place xs some_size low small range t c enough clear =
    let n : ℕ = (va + size - 1) / 4096 - va / 4096 in
    let no_wrap : u64 (va + size - 1) ≡ va + size - 1 = omega arith in
    let aligned : va / 4096 * 4096 / 4096 ≡ va / 4096 = omega arith in
    rw
      (
        ne→== size 0 (omega arith),
        rounddown-page va (omega arith),
        no_wrap,
        rounddown-page (va + size - 1) (omega arith),
      )
      (rw aligned at (
        map_loop-Maps n (maxva / page_size + 1) root (va / 4096 * 4096)
          ((va + size - 1) / 4096 * 4096) pa perm k place xs (omega arith) (omega arith)
          (omega arith) (omega arith) small range t c enough (rw aligned clear)))
