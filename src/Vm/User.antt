-- ===== src/Vm/User.antt =====
-- kern/vm.c, the rest: address spaces of user processes, and the kernel's page table.
use riscv_mos.Base.{
  ℕ, zero, suc, ◌+◌, ◌-◌, ◌*◌, ◌/◌, ◌^◌, true, false, not, ◌&&◌, ◌==◌, leb, ltb, if◌then◌else◌,
  bit_and, bit_or, round, u64, sign_extend, ℤ, pos, neg, is_zero,
}
use riscv_mos.Kernel.{
  Machine, Cmd, out_of_fuel, pure, halt, ◌>>=◌, ◌>>◌, get, modify, page_size, maxva, kernend,
  phyend, envs_va,
}
use riscv_mos.Page.{kalloc, kfree, zero_page}
use riscv_mos.Vm.{read_pte, write_pte, walk, mappages, kvmmap, uvmunmap}
use riscv_mos.Vm.Pte.{pte2pa, pte_flags, flag, pte_v, pte_r, pte_w, pte_x, pte_u}

-- Returns `new_size`, whatever `uvmunmap` returns; the number of pages goes through an `int`.
abbrev pub uvmdealloc : (pagetable old_size new_size : ℕ) → Cmd Machine ℕ
uvmdealloc pagetable old_size new_size =
    if leb old_size new_size
    then pure old_size
    else if ltb (round new_size page_size) (round old_size page_size)
    then (do
      uvmunmap pagetable (round new_size page_size)
          (sign_extend ((round old_size page_size - round new_size page_size) / page_size)) true
      pure new_size)
    else pure new_size

-- The loop of `uvmalloc` at address `a`; `from` is the rounded old size.
abbrev pub uvmalloc_loop : ℕ → (pagetable a from new_size perm : ℕ) → Cmd Machine ℕ
uvmalloc_loop zero pagetable a from new_size perm = λ _. out_of_fuel
uvmalloc_loop (suc fuel) pagetable a from new_size perm =
    if ltb a new_size
    then (do
      mem ← kalloc
      if mem == 0 then (do uvmdealloc pagetable a from; pure 0) else do
        zero_page mem
        r ← mappages pagetable a page_size mem (bit_or (bit_or pte_r pte_u) perm)
        (if is_zero r
            then uvmalloc_loop fuel pagetable (u64 (a + page_size)) from new_size perm
            else do kfree mem; uvmdealloc pagetable a from; pure 0))
    else pure new_size

abbrev pub uvmalloc : (pagetable old_size new_size perm : ℕ) → Cmd Machine ℕ
uvmalloc pagetable old_size new_size perm =
    if ltb new_size old_size
    then pure old_size
    else let from = round old_size page_size in
      uvmalloc_loop (new_size / page_size + 2) pagetable from from new_size perm

abbrev pub uvmcreate : Cmd Machine ℕ
uvmcreate = do
  pagetable ← kalloc
  if pagetable == 0 then pure 0 else do zero_page pagetable; pure pagetable

-- The loop of `freewalk` over the entries from `i` on, where `free_below` frees a table.
abbrev pub freewalk_entries :
    (free_below : ℕ → Cmd Machine (Unit {0})) (left pagetable i : ℕ) → Cmd Machine (Unit {0})
freewalk_entries free_below zero pagetable i = pure tt
freewalk_entries free_below (suc left) pagetable i = do
  pte ← read_pte (pagetable + 8 * i)
  (if flag pte pte_v && (bit_and pte (bit_or (bit_or pte_r pte_w) pte_x) == 0)
      then (do free_below (pte2pa pte); write_pte (pagetable + 8 * i) 0)
      else if flag pte pte_v
      then halt "freewalk: leaf still mapped"
      else pure tt)
  freewalk_entries free_below left pagetable (i + 1)

-- The recursion is on the depth of the tables: a chain of distinct pages of the heap is no longer
-- than the heap.
unfoldable pub freewalk : (depth pagetable : ℕ) → Cmd Machine (Unit {0})
freewalk zero pagetable = λ _. out_of_fuel
freewalk (suc depth) pagetable = do
  freewalk_entries (freewalk depth) 512 pagetable 0
  kfree pagetable

abbrev pub heap_pages : ℕ
heap_pages = (phyend - kernend) / page_size

abbrev pub uvmfree : (pagetable size : ℕ) → Cmd Machine (Unit {0})
uvmfree pagetable size = do
  (if ltb 0 size
      then (do uvmunmap pagetable 0 (round size page_size / page_size) true; pure tt)
      else pure tt)
  freewalk (heap_pages + 1) pagetable

-- The loop of `kvm_copy_to_user_pagetable` at address `i`.
abbrev pub copy_loop : ℕ → (upgtable i : ℕ) → Cmd Machine ℤ
copy_loop zero upgtable i = λ _. out_of_fuel
copy_loop (suc fuel) upgtable i =
    let rest = copy_loop fuel upgtable (i + page_size) in
    if not (ltb i maxva) then pure (pos 0) else do
      k ← get
      pte ← walk k.kernel_pagetable i false
      if pte == 0 then rest else do
        v ← read_pte pte
        if not (flag v pte_v) then rest else do
          r ← mappages upgtable i page_size (pte2pa v) (pte_flags v)
          if is_zero r
              then rest
              else do uvmunmap upgtable 0x80000000 (i / page_size) false; pure (neg 1)

unfoldable pub kvm_copy_to_user_pagetable : ℕ → Cmd Machine ℤ
kvm_copy_to_user_pagetable upgtable = copy_loop (maxva / page_size + 1) upgtable 0x80000000

-- `env_create_envs` of kern/env.c, from environment number `i`: a page for each `struct Env`, mapped
-- below the page tables.
abbrev pub create_envs_loop : (left i kpagetable : ℕ) → Cmd Machine (Unit {0})
create_envs_loop zero i kpagetable = pure tt
create_envs_loop (suc left) i kpagetable = do
  pa ← kalloc
  if pa == 0 then halt "env_create_envs: out of memory" else do
    kvmmap kpagetable (envs_va i) pa page_size (bit_or pte_r pte_w)
    create_envs_loop left (i + 1) kpagetable

abbrev pub env_create_envs : ℕ → Cmd Machine (Unit {0})
env_create_envs kpagetable = create_envs_loop (2 ^ 10) 0 kpagetable

-- The kernel's page table; `etext` is the end of the kernel's text, in the word that init/mem.S defines.
abbrev pub kvmcreate : (etext : ℕ) → Cmd Machine ℕ
kvmcreate etext = do
  kpgtable ← kalloc
  zero_page kpgtable
  kvmmap kpgtable (0x2000000 + 0x88000000) 0x2000000 0x10000 (bit_or pte_r pte_w)
  kvmmap kpgtable (0x10000000 + 0x88000000) 0x10000000 page_size (bit_or pte_r pte_w)
  kvmmap kpgtable (0x10001000 + 0x88000000) 0x10001000 page_size (bit_or pte_r pte_w)
  kvmmap kpgtable (0x0c000000 + 0x88000000) 0x0c000000 0x400000 (bit_or pte_r pte_w)
  kvmmap kpgtable 0x80000000 0x80000000 (etext - 0x80000000) (bit_or pte_r pte_x)
  kvmmap kpgtable (round etext page_size) (round etext page_size) (phyend - etext)
      (bit_or pte_r pte_w)
  env_create_envs kpgtable
  pure kpgtable

abbrev pub kpgtable_init : (etext : ℕ) → Cmd Machine (Unit {0})
kpgtable_init etext = do
  pagetable ← kvmcreate etext
  modify λ k. record k { kernel_pagetable = pagetable }

-- `MAKE_SATP(pagetable)`
abbrev pub make_satp : ℕ → ℕ
make_satp pagetable = bit_or (u64 (8 * 2 ^ 60)) (pagetable / 2 ^ 12)

abbrev pub kvm_init : Cmd Machine (Unit {0})
kvm_init = modify λ k. record k { satp = make_satp k.kernel_pagetable }
