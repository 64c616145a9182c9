-- ===== src/Page/Alloc.antt =====
-- `kalloc` and `kfree` of kern/phypage.c, the free list and memory.
use riscv_mos.Base.{
  ℕ, ◌+◌, ◌^◌, ◌≤◌, ◌<◌, ◌≡◌, refl, ◌∙◌, arith, List, [], ◌∷◌, ◌∉◌, ◌⊎◌, inl, inr, Bool-cases,
}
use riscv_mos.Mem.{Mem, load64, store64}
use riscv_mos.Strings.{memset}
use riscv_mos.Mem.Laws.{load-store, store-outside}
use riscv_mos.Kernel.{Machine, ok, panic, page_size, ◌>>◌}
use riscv_mos.Page.{bad_page, kalloc, kfree}
use riscv_mos.Page.Chain.{
  IsFrame, HasFree, bad_page-false, IsFrame-of_good, IsZeroed, SameOff, memset-IsZeroed,
  memset-SameOff, Chain-SameOff,
}

-- The page `p` changed hands between `k` and `k'`: only its bytes and the free list differ.
pub record OnlyPage (p : ℕ) (k k' : Machine) : Type 0 where
  pub off : SameOff p k.mem k'.mem
  pub pagetable : k'.kernel_pagetable ≡ k.kernel_pagetable
  pub satp : k'.satp ≡ k.satp

-- If the free list holds the page `p` and then the pages `xs`, `kalloc` returns `p` and leaves
-- `xs` on the list. The page is cleared, and memory outside of it is as before.
pub kalloc-cons :
    (k : Machine) (p : ℕ) (xs : List ℕ)
    → HasFree k (p ∷ xs)
    → (k' : Machine) × (kalloc k ≡ ok p k') × HasFree k' xs × IsZeroed k'.mem p × OnlyPage p k k'
unfolding kalloc
kalloc-cons k p xs (e, f, out, c) =
    let n : Mem = (memset p 0 page_size k.mem).1 in
    (
      record k { mem = n; freelist = load64 k.mem p },
      ground (arith, e, f.low),
      Chain-SameOff k.mem n (load64 k.mem p) p xs f out (memset-SameOff k.mem p) c,
      memset-IsZeroed k.mem p,
      record { off = memset-SameOff k.mem p; pagetable = refl; satp = refl },
    )

-- With none it returns NULL and changes nothing.
pub kalloc-nil : (k : Machine) → HasFree k [] → kalloc k ≡ ok 0 k
unfolding kalloc
kalloc-nil k h = ground arith

-- The state that `kfree` leaves.
abbrev freed : ℕ → Machine → Machine
freed p k = record k { mem = store64 (memset p 0 page_size k.mem).1 p k.freelist; freelist = p }

kfree-freed : (k : Machine) (p : ℕ) → IsFrame p → kfree p k ≡ ok tt (freed p k)
unfolding kfree
kfree-freed k p f = rw (bad_page-false f)

freed-SameOff : (k : Machine) (p : ℕ) → SameOff p k.mem (freed p k).mem
freed-SameOff k p a off =
    store-outside 8 (memset p 0 page_size k.mem).1 p k.freelist a (ground arith)
    ∙ memset-SameOff k.mem p a off

Chain-head : (k : Machine) (xs : List ℕ) → HasFree k xs → k.freelist < 256 ^ 8
Chain-head k [] h = omega (arith, h)
Chain-head k (x ∷ xs) (e, f, out, c) = omega (arith, e, f.high)

-- If the free list holds the pages `xs`, and `p` is a page of the heap that is not one of them,
-- `kfree` puts `p` in front of the list. Memory outside of the page is as before.
pub kfree-cons :
    (k : Machine) (p : ℕ) (xs : List ℕ)
    → HasFree k xs
    → IsFrame p
    → p ∉ xs
    → (k' : Machine) × (kfree p k ≡ ok tt k') × HasFree k' (p ∷ xs) × OnlyPage p k k'
kfree-cons k p xs c f out =
    let next = load-store 8 (memset p 0 page_size k.mem).1 p k.freelist (Chain-head k xs c) in
    (
      freed p k,
      kfree-freed k p f,
      (
        refl,
        f,
        out,
        rw next (Chain-SameOff k.mem (freed p k).mem k.freelist p xs f out (freed-SameOff k p) c),
      ),
      record { off = freed-SameOff k p; pagetable = refl; satp = refl },
    )

-- `kfree` panics at every address that is not the start of a page of the heap.
pub kfree-panic : (k : Machine) (p : ℕ) → ¬ (IsFrame p) → kfree p k ≡ panic "kfree"
unfolding kfree
kfree-panic k p bad = elim (Bool-cases (bad_page p)) [
  | inl e ↦ rw e
  | inr e ↦ absurd (bad (IsFrame-of_good p e))
]

-- If the free list holds the pages `xs`, and `p` is a page of the heap that is not one of them,
-- `kalloc` after `kfree` of `p` returns `p`, cleared. The list holds `xs` again, and memory
-- outside of the page is as before.
pub kalloc-kfree :
    (k : Machine) (p : ℕ) (xs : List ℕ)
    → HasFree k xs
    → IsFrame p
    → p ∉ xs
    → (k' : Machine) × ((kfree p >> kalloc) k ≡ ok p k')
      × HasFree k' xs
      × IsZeroed k'.mem p
      × ((a : ℕ) → (a < p) ⊎ (p + page_size ≤ a) → k'.mem a ≡ k.mem a)
kalloc-kfree k p xs c f out =
    let (k1, e1, c1, o1) = kfree-cons k p xs c f out in
    let (k2, e2, c2, z, o2) = kalloc-cons k1 p xs c1 in
    (k2, rw e1 e2, c2, z, λ a off. o2.off a off ∙ o1.off a off)
