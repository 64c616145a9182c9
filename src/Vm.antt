-- ===== src/Vm.antt =====
-- kern/vm.c: three-level Sv39 page tables in physical memory. A page table is the address of its
-- page, a `Pte *` the address of a 64-bit word, and NULL is 0.
pub mod Alloc
pub mod Create
pub mod Entries
pub mod Grow
pub mod Lookup
pub mod Map
pub mod NewPage
pub mod Own
pub mod Pte
pub mod Region
pub mod Share
pub mod Spared
pub mod Tables
pub mod Unmap
pub mod User
pub mod Walk
use Pte.{vpn, pa2pte, pte2pa, pte_flags, pte_v, pte_u, flag}
use riscv_mos.Base.{
  ℕ, zero, suc, ◌+◌, ◌-◌, ◌*◌, ◌/◌, ◌%◌, Bool, true, false, not, ◌&&◌, ◌||◌, ◌==◌, leb, ltb,
  if◌then◌else◌, bit_or, u64, rounddown, ℤ, pos, neg, is_zero, Option, none, some,
}
use riscv_mos.Mem.{load64, store64}
use riscv_mos.Kernel.{
  Machine, Cmd, ok, out_of_fuel, pure, halt, ◌>>=◌, ◌>>◌, get, modify, page_size, maxva,
}
use riscv_mos.Page.{zero_page, kalloc, kfree}

-- `*pte` and `*pte = v`
abbrev pub read_pte : ℕ → Cmd Machine ℕ
read_pte pte k = ok (load64 k.mem pte) k

abbrev pub write_pte : ℕ → ℕ → Cmd Machine (Unit {0})
write_pte pte v = modify λ k. record k { mem = store64 k.mem pte v }

-- `&pagetable[VPN_L(level, va)]`
abbrev pub entry : (pagetable level va : ℕ) → ℕ
entry pagetable level va = pagetable + 8 * vpn level va

-- The branch of the loop of `walk` that creates the next table, behind the slot `pte`.
pub new_table : (pte : ℕ) → Cmd Machine ℕ
new_table pte = do
  page ← kalloc
  if page == 0
      then pure 0
      else do zero_page page; write_pte pte (bit_or (pa2pte page) pte_v); pure page

-- `for (level = 2; level > 0; level--)`, at `level` rounds from the end.
pub walk_levels : ℕ → (pagetable va : ℕ) (alloc : Bool) → Cmd Machine ℕ
walk_levels zero pagetable va alloc = pure (entry pagetable 0 va)
walk_levels (suc l) pagetable va alloc = do
  let pte = entry pagetable (suc l) va
  v ← read_pte pte
  if flag v pte_v
      then walk_levels l (pte2pa v) va alloc
      else if alloc
      then (do page ← new_table pte; if page == 0 then pure 0 else walk_levels l page va alloc)
      else pure 0

pub walk : (pagetable va : ℕ) (alloc : Bool) → Cmd Machine ℕ
walk pagetable va alloc = if leb maxva va then halt "walk\n" else walk_levels 2 pagetable va alloc

-- Returns the physical address, and what is stored to `*ppte`.
pub lookup : (pagetable va : ℕ) → Cmd Machine (ℕ × Option ℕ)
lookup pagetable va = do
  pte ← walk pagetable va false
  if pte == 0 then pure (0, none) else do
    v ← read_pte pte
    if not (flag v pte_v)
        then pure (0, none)
        else if not (flag v pte_u)
        then pure (0, none)
        else pure (pte2pa v, some pte)

-- The loop of `mappages`.
pub map_loop : ℕ → (pagetable start last pa perm : ℕ) → Cmd Machine ℤ
map_loop zero pagetable start last pa perm = λ _. out_of_fuel
map_loop (suc fuel) pagetable start last pa perm = do
  pte ← walk pagetable start true
  if pte == 0 then pure (neg 1) else do
    v ← read_pte pte
    if flag v pte_v then halt "mappages: remap; use 'uvmunmap' first" else do
      write_pte pte (bit_or (bit_or (pa2pte pa) perm) pte_v)
      if start == last
          then pure (pos 0)
          else map_loop fuel pagetable (u64 (start + page_size)) last (u64 (pa + page_size)) perm

pub mappages : (pagetable va size pa perm : ℕ) → Cmd Machine ℤ
mappages pagetable va size pa perm =
    if size == 0
    then halt "mappages: size"
    else map_loop (maxva / page_size + 1) pagetable (rounddown va page_size)
        (rounddown (u64 (va + size - 1)) page_size) pa perm

pub kvmmap : (pagetable va pa size perm : ℕ) → Cmd Machine (Unit {0})
kvmmap pagetable va pa size perm = do
  r ← mappages pagetable va size pa perm
  if is_zero r then pure tt else halt "kvmmap"

-- One round of the loop of `uvmunmap`. It walks to `va`, not to the address of the round.
pub unmap_page : (pagetable va : ℕ) (do_free : Bool) → Cmd Machine (Unit {0})
unmap_page pagetable va do_free = do
  pte ← walk pagetable va false
  if pte == 0 then halt "uvmunmap: not mapped" else do
    v ← read_pte pte
    if not (flag v pte_v)
        then halt "uvmunmap: not mapped"
        else if pte_flags v == pte_v
        then halt "uvmunmap: not leaf"
        else do if do_free then kfree (pte2pa v) else pure tt; write_pte pte 0

pub unmap_loop : ℕ → (pagetable va a end : ℕ) (do_free : Bool) → Cmd Machine ℤ
unmap_loop zero pagetable va a end do_free = λ _. out_of_fuel
unmap_loop (suc fuel) pagetable va a end do_free =
    if ltb a end
    then (do
      unmap_page pagetable va do_free
      unmap_loop fuel pagetable va (u64 (a + page_size)) end do_free)
    else pure (pos 0)

pub uvmunmap : (pagetable va npages : ℕ) (do_free : Bool) → Cmd Machine ℤ
uvmunmap pagetable va npages do_free =
    if not (va % page_size == 0)
    then halt "uvmunmap: va not aligned"
    else unmap_loop (npages + 1) pagetable va va (u64 (va + npages * page_size)) do_free
