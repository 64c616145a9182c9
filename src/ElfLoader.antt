-- ===== src/ElfLoader.antt =====
-- lib/elfloader.c: loading a segment. The callback `map_page`, with its argument `data`, is an
-- operation on a state of the caller's; a pointer that may be NULL is an option.
pub mod Covers
use riscv_mos.Base.{
  ℕ, zero, suc, ◌+◌, ◌-◌, ◌/◌, Bool, not, ◌==◌, ltb, if◌then◌else◌, Option, none, some, bit_and,
  bit_or, min_of, rounddown, u64, ℤ, pos, is_zero,
}
use riscv_mos.Kernel.{Cmd, out_of_fuel, pure, ◌>>=◌, page_size}
use riscv_mos.Vm.Pte.{pte_v, pte_r, pte_w, pte_x, pte_u}

-- The fields of a program header that the kernel reads.
pub record Phdr : Type 0 where
  pub p_type : ℕ
  pub p_flags : ℕ
  pub p_offset : ℕ
  pub p_vaddr : ℕ
  pub p_filesz : ℕ
  pub p_memsz : ℕ

-- `PF_W`
abbrev pub pf_w : ℕ
pf_w = 2

abbrev pub segment_perm : Phdr → ℕ
segment_perm ph =
    let perm = bit_or (bit_or (bit_or pte_v pte_r) pte_x) pte_u in
    if not (bit_and ph.p_flags pf_w == 0) then bit_or perm pte_w else perm

-- `elf_mapper_t` with its `data`
abbrev pub Mapper : Type 0 → Type 0
Mapper S = (va offset perm : ℕ) → Option ℕ → (len : ℕ) → Cmd S ℤ

-- Step 1 of `elf_load_seg` from `i`, with the last result and `i` after the loop.
unfoldable pub load_bytes :
    {S : Type 0} → Mapper S → ℕ → (va perm bin bin_size i : ℕ) → Cmd S (ℤ × ℕ)
load_bytes map_page zero va perm bin bin_size i = λ _. out_of_fuel
load_bytes map_page (suc fuel) va perm bin bin_size i =
    if ltb i bin_size
    then (do
      r ← map_page (u64 (va + i)) 0 perm (some (bin + i)) (min_of (bin_size - i) page_size)
      if is_zero r
          then load_bytes map_page fuel va perm bin bin_size (u64 (i + page_size))
          else pure (r, i))
    else pure (pos 0, i)

-- Step 2 from `i`.
unfoldable pub load_zeros : {S : Type 0} → Mapper S → ℕ → (va perm sgsize i : ℕ) → Cmd S ℤ
load_zeros map_page zero va perm sgsize i = λ _. out_of_fuel
load_zeros map_page (suc fuel) va perm sgsize i =
    if ltb i sgsize
    then (do
      r ← map_page (u64 (va + i)) 0 perm none (min_of (sgsize - i) page_size)
      if is_zero r then load_zeros map_page fuel va perm sgsize (u64 (i + page_size)) else pure r)
    else pure (pos 0)

-- The call for a segment that starts inside a page.
unfoldable pub load_first : {S : Type 0} → Mapper S → (va offset perm bin len : ℕ) → Cmd S ℤ
load_first map_page va offset perm bin len =
    if offset == 0 then pure (pos 0) else map_page va offset perm (some bin) len

-- What follows the loop of step 1.
unfoldable pub load_rest : {S : Type 0} → Mapper S → (va perm sgsize : ℕ) → ℤ × ℕ → Cmd S ℤ
load_rest map_page va perm sgsize (r, i) =
    if not (is_zero r)
    then pure r
    else load_zeros map_page (sgsize / page_size + 2) va perm sgsize i

unfoldable pub elf_load_seg : {S : Type 0} → Mapper S → Phdr → (bin : ℕ) → Cmd S ℤ
elf_load_seg map_page ph bin =
    let va = ph.p_vaddr in
    let offset = va - rounddown va page_size in
    let len = min_of ph.p_filesz (page_size - offset) in
    let perm = segment_perm ph in
    do
      r ← load_first map_page va offset perm bin len
      if not (is_zero r) then pure r else do
        step ←
            load_bytes map_page (ph.p_filesz / page_size + 2) va perm bin ph.p_filesz
              (if offset == 0 then 0 else len)
        load_rest map_page va perm ph.p_memsz step
