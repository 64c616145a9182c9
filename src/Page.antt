-- ===== src/Page.antt =====
-- kern/phypage.c: the physical page allocator. A free page holds the address of the next free page
-- in its first word (`struct run`), and `kmem.freelist` holds the first address.
pub mod Alloc
pub mod Chain
pub mod Init
use riscv_mos.Base.{
  ℕ, zero, suc, ◌+◌, ◌/◌, ◌%◌, Bool, not, ◌||◌, ◌==◌, leb, ltb, if◌then◌else◌, round,
}
use riscv_mos.Mem.{Mem, load64, store64}
use riscv_mos.Strings.{memset}
use riscv_mos.Kernel.{
  Machine, Cmd, ok, out_of_fuel, pure, halt, ◌>>=◌, ◌>>◌, get, modify, page_size, kernend, phyend,
}

-- `memset(p, 0, PAGE_SIZE)`
unfoldable pub zero_page : ℕ → Cmd Machine (Unit {0})
zero_page p = modify λ k. record k { mem = (memset p 0 page_size k.mem).1 }

unfoldable pub kalloc : Cmd Machine ℕ
unfolding zero_page
kalloc = do
  k ← get
  let r = k.freelist
  if r == 0
      then pure r
      else do modify λ k. record k { freelist = load64 k.mem r }; zero_page r; pure r

-- The guard of `kfree`.
abbrev pub bad_page : ℕ → Bool
bad_page pa = not (pa % page_size == 0) || ltb pa kernend || leb phyend pa

unfoldable pub kfree : ℕ → Cmd Machine (Unit {0})
unfolding zero_page
kfree pa =
    if bad_page pa
    then halt "kfree"
    else do zero_page pa; modify λ k. record k { mem = store64 k.mem pa k.freelist; freelist = pa }

-- `for (; p + PAGE_SIZE <= pa_end; p += PAGE_SIZE) kfree(p);`
pub free_pages : ℕ → (p pa_end : ℕ) → Cmd Machine (Unit {0})
free_pages zero p pa_end = λ _. out_of_fuel
free_pages (suc fuel) p pa_end =
    let rest = free_pages fuel (p + page_size) pa_end in
    if leb (p + page_size) pa_end then kfree p >> rest else pure tt

pub freerange : (pa_start pa_end : ℕ) → Cmd Machine (Unit {0})
freerange pa_start pa_end = free_pages (pa_end / page_size + 1) (round pa_start page_size) pa_end

pub kinit : Cmd Machine (Unit {0})
kinit = freerange kernend phyend
