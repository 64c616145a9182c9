-- ===== src/Vm/Alloc.antt =====
-- `uvmalloc` of kern/vm.c: growing the memory of a process.
use riscv_mos.Base.{
  ℕ, zero, suc, ◌+◌, ◌*◌, ◌/◌, ◌-◌, ◌≤◌, ◌<◌, ◌≡◌, refl, ◌∙◌, false, true, ◌==◌, lt→ltb, arith, ltb,
  bit_or, bit_or-lt, round-page, u64, List, [], ◌∷◌, length, le→ltb,
}
use riscv_mos.Mem.{Mem}
use riscv_mos.Kernel.{Machine, Outcome, ok, page_size, maxva}
use riscv_mos.Strings.{memset}
use riscv_mos.Page.{zero_page}
use riscv_mos.Page.Chain.{HasFree, Chain-SameOff, memset-IsZeroed, memset-SameOff}
use riscv_mos.Page.Alloc.{kalloc-cons}
use riscv_mos.Vm.Pte.{pte_r, pte_u}
use riscv_mos.Vm.Tables.{Place, IsTable}
use riscv_mos.Vm.NewPage.{mappages-MapsNew}
use riscv_mos.Vm.Region.{Region, Region-nil, Region-Unmapped, Region-snoc}
use riscv_mos.Vm.Map.Page.{Unmapped}
use riscv_mos.Vm.User.{uvmalloc_loop, uvmalloc}

-- The flags of the new pages.
abbrev pub user_flags : ℕ → ℕ
user_flags perm = bit_or (bit_or pte_r pte_u) perm

abbrev blank : ℕ → ℕ
blank i = 0

-- The outcome of a call that maps `n` zeroed pages from page number `first` and returns `size`.
pub record Allocates (own root first n flags size : ℕ) (k : Machine) (place : Place) (xs : List ℕ)
    (r : Outcome Machine ℕ) : Type 0 where
  pub after : Machine
  pub places : Place
  pub rest : List ℕ
  pub runs : r ≡ ok size after
  pub region : Region own root first n flags (λ i. 0) k place xs after places rest

module _ {own : ℕ} (root first total perm size : ℕ) (k : Machine) (place : Place) (xs : List ℕ)
    (small : perm < 1024) (last : size ≤ (first + total) * page_size)
    (full : (first + total) * page_size < size + page_size) (low : size + page_size ≤ maxva)
    (clear : Unmapped own root first total k) where
  -- One round.
  alloc_page :
      (n f p : ℕ) (k' : Machine) (places : Place) (ys : List ℕ)
      → Region own root first n (user_flags perm) blank k place xs k' places (p ∷ ys)
      → (first + n) * page_size < size
      → 2 ≤ length ys
      → (k'' : Machine) × (places' : Place) × (rest : List ℕ) × (uvmalloc_loop
            (suc f)
            root
            ((first + n) * page_size)
            (first * page_size)
            size
            perm
            k'
          ≡ uvmalloc_loop f root ((first + suc n) * page_size) (first * page_size) size perm k'')
        × Region own root first (suc n) (user_flags perm) blank k place xs k'' places' rest
        × (length ys ≤ length rest + 2)
  unfolding zero_page
  alloc_page n f p k' places ys g more enough =
      let va : ℕ = (first + n) * page_size in
      let (hd, fr, out, c) = g.free in
      let (k1, e1, c1, z1, o1) = kalloc-cons k' p ys g.free in
      let m : Mem = (memset p 0 page_size k1.mem).1 in
      let k2 : Machine = record k1 { mem = m } in
      let c2 : HasFree k2 ys =
        Chain-SameOff k1.mem m k1.freelist p ys fr out (memset-SameOff k1.mem p) c1 in
      let (ord, unmapped) =
        Region-Unmapped root first (user_flags perm) blank k place xs n total va k' places (p ∷ ys)
          g clear (omega arith) (omega arith) (omega arith) in
      let new =
        mappages-MapsNew root p k' k2 places ys g.table fr out
          (λ a h. memset-SameOff k1.mem p a h ∙ o1.off a h) va (user_flags perm) (omega arith)
          (omega arith) ord (bit_or-lt 10 (bit_or pte_r pte_u) perm (omega arith) small) c2 enough
          unmapped o1.pagetable o1.satp in
      let nonnull : (p == 0) ≡ false = ground (arith, fr.low) in
      let go_on : ltb va size ≡ true = lt→ltb va size more in
      let next : u64 (va + page_size) ≡ (first + suc n) * page_size = omega arith in
      (
        new.after,
        new.places,
        new.rest,
        rw (go_on, e1, nonnull, new.runs, next) refl,
        Region-snoc root first (user_flags perm) blank k place xs n va p k' places ys m _ g fr
            (omega arith) new
            (λ b hb. memset-IsZeroed k1.mem p (p + b) (omega arith) (omega arith)),
        new.uses,
      )

  alloc_loop :
      (left n f : ℕ) (k' : Machine) (places : Place) (rest : List ℕ)
      → n + left ≡ total
      → left < f
      → Region own root first n (user_flags perm) blank k place xs k' places rest
      → 3 * left ≤ length rest
      → Allocates own root first total
          (user_flags perm)
          size
          k
          place
          xs
          (uvmalloc_loop f root ((first + n) * page_size) (first * page_size) size perm k')
  alloc_loop left n zero k' places rest e fuel g enough = absurd (omega arith)
  alloc_loop zero n (suc f) k' places rest e fuel g enough =
      let all : n ≡ total = omega arith in
      let done : ltb ((first + n) * page_size) size ≡ false = le→ltb _ _ (omega arith) in
      rw done
        (record { after = k'; places = places; rest = rest; runs = refl; region = rw all at g })
  alloc_loop (suc left) n (suc f) k' places [] e fuel g enough = absurd (omega arith)
  alloc_loop (suc left) n (suc f) k' places (p ∷ ys) e fuel g enough =
      let (k'', places', rest, step, g', used) =
        alloc_page n f p k' places ys g (omega arith) (omega arith) in
      rw step
        (alloc_loop left (suc n) f k'' places' rest (omega arith) (omega arith) g' (omega arith))

-- The number of pages that hold `size` bytes.
abbrev pub pages_for : ℕ → ℕ
pages_for size = (size + 4095) / 4096

-- The old size is no more than the new one, which ends a page or more below MAXVA; the permission has
-- ten bits; tables and free list are well formed, there are three free pages for each page that is to
-- come, and none of these is mapped. Then `uvmalloc` returns the new size. It maps each page that the
-- new size needs and the old one did not to a page of its own, which was free, is filled with zeros,
-- and has the permission with PTE_R, PTE_U and PTE_V. The entry of every other page is as before, and
-- so is every byte outside of the tables and of the pages that were free. Tables and free list stay
-- well formed.
pub uvmalloc-Allocates :
    {own : ℕ} (root old_size new_size perm : ℕ) (k : Machine) (place : Place) (xs : List ℕ)
    → old_size ≤ new_size
    → new_size + page_size ≤ maxva
    → perm < 1024
    → IsTable own k.mem root place xs
    → HasFree k xs
    → 3 * (pages_for new_size - pages_for old_size) ≤ length xs
    → Unmapped own root (pages_for old_size) (pages_for new_size - pages_for old_size) k
    → Allocates own root
        (pages_for old_size)
        (pages_for new_size - pages_for old_size)
        (user_flags perm)
        new_size
        k
        place
        xs
        (uvmalloc root old_size new_size perm k)
uvmalloc-Allocates root old_size new_size perm k place xs grows low small t c enough clear =
    let first : ℕ = pages_for old_size in
    let total : ℕ = pages_for new_size - first in
    let no_shrink : ltb new_size old_size ≡ false = le→ltb _ _ grows in
    let start : first + 0 ≡ first = omega arith in
    rw (no_shrink, round-page old_size (omega arith))
      (rw start at (
        alloc_loop root first total perm new_size k place xs small (omega arith) (omega arith) low
          clear total 0 (new_size / page_size + 2) k place xs (omega arith) (omega arith)
          (Region-nil root first (user_flags perm) blank k place xs t c) enough))
