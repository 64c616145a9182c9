-- ===== src/Vm/Unmap.antt =====
-- `uvmunmap` of kern/vm.c on one page and on longer ranges.
use riscv_mos.Base.{
  ℕ, suc, ◌+◌, ◌*◌, ◌/◌, ◌%◌, ◌^◌, ◌<◌, ◌≡◌, ◌≢◌, refl, ◌∙◌, ap, Bool, true, false, ◌==◌, arith,
  ltb, if◌then◌else◌, List, eq→==, ne→==, pos, u64, lt→ltb, le→ltb,
}
use riscv_mos.Mem.{load64, store64}
use riscv_mos.Kernel.{Machine, ok, panic, page_size, maxva}
use riscv_mos.Page.Chain.{HasFree}
use riscv_mos.Vm.{walk, unmap_page, unmap_loop, uvmunmap}
use riscv_mos.Vm.Pte.{flag, flag-valid, pte_v, pte_flags}
use riscv_mos.Vm.Tables.{Place, IsTable, Ordinary, pte_of-Finds}
use riscv_mos.Vm.Entries.{pte_at, IsTable-write, pte_of-write, Chain-write, Spared-write}
use riscv_mos.Vm.Spared.{Spared}
use riscv_mos.Vm.Lookup.{Walks, hit, miss, walk-Walks, Finds-ne-zero}

-- The state after the mapping of `va` has been removed: the entry of its page is 0.
pub record Removed (own root va : ℕ) (place : Place) (xs : List ℕ) (k k' : Machine) : Type 0 where
  pub table : IsTable own k'.mem root place xs
  pub free : HasFree k' xs
  pub entries :
      (a : ℕ)
      → a < maxva
      → Ordinary own a
      → pte_at k' root a ≡ (if a / 4096 == va / 4096 then 0 else pte_at k root a)
  pub spared : Spared place xs k.mem place xs k'.mem
  pub pagetable : k'.kernel_pagetable ≡ k.kernel_pagetable
  pub satp : k'.satp ≡ k.satp

module _ {own : ℕ} (root va : ℕ) (k : Machine) (place : Place) (xs : List ℕ) (low : va < maxva)
    (ord : Ordinary own va) (t : IsTable own k.mem root place xs) where
  -- A mapped leaf is removed.
  pub unmap_page-Removed :
      HasFree k xs
      → flag (pte_at k root va) pte_v ≡ true
      → pte_flags (pte_at k root va) ≢ pte_v
      → (k' : Machine) × (unmap_page root va false k ≡ ok tt k') × Removed own root va place xs k k'
  unfolding unmap_page
  unmap_page-Removed c valid leaf = by_walk (walk-Walks k root va low)
    where
      by_walk :
          Walks k 2 root va (walk root va false k)
          → (k' : Machine) × (unmap_page root va false k ≡ ok tt k')
            × Removed own root va place xs k k'
      by_walk (miss e z) = absurd (ground (arith, flag-valid 0, ap (λ (v : ℕ). flag v pte_v) z))
      by_walk (hit s e f) =
          let value : pte_at k root va ≡ load64 k.mem s = pte_of-Finds k.mem 2 root va s f in
          let valid' : flag (load64 k.mem s) pte_v ≡ true = rw value at valid in
          let leaf' : pte_flags (load64 k.mem s) ≢ pte_v = rw value at leaf in
          (
            record k { mem = store64 k.mem s 0 },
            rw (e, ne→== s 0 (Finds-ne-zero k va s t ord f), valid', ne→== _ pte_v leaf'),
            record {
              table = IsTable-write t va s 0 ord f;
              free = Chain-write t va s 0 ord f k.freelist c;
              entries = λ a ha oa. pte_of-write t va s 0 ord f a (omega arith) low ha oa;
              spared = Spared-write t va s 0 ord f;
              pagetable = refl;
              satp = refl;
            },
          )

  -- An address with no mapping makes it panic.
  pub unmap_page-panic :
      (do_free : Bool)
      → flag (pte_at k root va) pte_v ≡ false
      → unmap_page root va do_free k ≡ panic "uvmunmap: not mapped"
  unfolding unmap_page
  unmap_page-panic do_free clear = by_walk (walk-Walks k root va low)
    where
      by_walk :
          Walks k 2 root va (walk root va false k)
          → unmap_page root va do_free k ≡ panic "uvmunmap: not mapped"
      by_walk (miss e z) = rw e
      by_walk (hit s e f) =
          let value : pte_at k root va ≡ load64 k.mem s = pte_of-Finds k.mem 2 root va s f in
          let clear' : flag (load64 k.mem s) pte_v ≡ false = rw value at clear in
          rw (e, ne→== s 0 (Finds-ne-zero k va s t ord f), clear')

  -- The address is aligned, lies below MAXVA, off the entry `own` of the root, and has a valid
  -- entry with more flags than PTE_V; tables and free list are well formed. Then `uvmunmap` of one
  -- page, without freeing, returns 0, and clears the entry of that page alone, among those off
  -- `own`; memory beside the tables is as before. Tables and free list stay well formed.
  pub uvmunmap-Removed :
      HasFree k xs
      → va % page_size ≡ 0
      → flag (pte_at k root va) pte_v ≡ true
      → pte_flags (pte_at k root va) ≢ pte_v
      → (k' : Machine) × (uvmunmap root va 1 false k ≡ ok (pos 0) k')
        × Removed own root va place xs k k'
  unfolding uvmunmap unmap_loop
  uvmunmap-Removed c aligned valid leaf =
      let (k', e, r) = unmap_page-Removed c valid leaf in
      let first : ltb va (u64 (va + 1 * page_size)) ≡ true = lt→ltb _ _ (omega arith) in
      let second : ltb (u64 (va + page_size)) (u64 (va + 1 * page_size)) ≡ false =
        le→ltb _ _ (omega arith) in
      (k', rw (eq→== (va % page_size) 0 aligned, first, e, second), r)

-- The address is aligned, lies below MAXVA, off the entry `own` of the root, and has a valid entry
-- with more flags than PTE_V; tables and free list are well formed. Then `uvmunmap` of a range of
-- two pages or more that does not wrap around, without freeing, panics, even where every page of
-- the range is mapped: each round walks to the first address, so that the second round finds no
-- mapping.
pub uvmunmap-panic :
    {own : ℕ} (n root va : ℕ) (k : Machine) (place : Place) (xs : List ℕ)
    → va < maxva
    → Ordinary own va
    → IsTable own k.mem root place xs
    → HasFree k xs
    → va % page_size ≡ 0
    → flag (pte_at k root va) pte_v ≡ true
    → pte_flags (pte_at k root va) ≢ pte_v
    → va + suc (suc n) * page_size < 2 ^ 64
    → uvmunmap root va (suc (suc n)) false k ≡ panic "uvmunmap: not mapped"
unfolding uvmunmap unmap_loop
uvmunmap-panic n root va k place xs low ord t c aligned valid leaf fits =
    let (k', e, r) = unmap_page-Removed root va k place xs low ord t c valid leaf in
    let end : ℕ = u64 (va + suc (suc n) * page_size) in
    let first : ltb va end ≡ true = lt→ltb _ _ (omega arith) in
    let second : ltb (u64 (va + page_size)) end ≡ true = lt→ltb _ _ (omega arith) in
    let fuel : suc (suc n) + 1 ≡ suc (suc (suc n)) = omega arith in
    let gone : pte_at k' root va ≡ 0 =
      r.entries va low ord ∙ rw (eq→== (va / 4096) (va / 4096) refl) in
    let clear : flag (pte_at k' root va) pte_v ≡ false = rw gone (flag-valid 0) in
    rw (
      eq→== (va % page_size) 0 aligned,
      fuel,
      first,
      e,
      second,
      unmap_page-panic root va k' place xs low ord r.table false clear,
    )
