-- ===== src/Page/Init.antt =====
-- The pages that `kinit` of kern/phypage.c frees.
use riscv_mos.Base.{
  ℕ, zero, suc, ◌+◌, ◌*◌, ◌/◌, ◌%◌, ◌≤◌, ◌<◌, ◌≡◌, refl, ◌∙◌, true, arith, leb, List, [], ◌∷◌, has,
  ◌∉◌, inl, inr, Bool-cases, round-page,
}
use riscv_mos.Kernel.{Machine, ok, page_size, kernend, phyend}
use riscv_mos.Page.{free_pages, freerange, kinit}
use riscv_mos.Page.Chain.{IsFrame, HasFree}
use riscv_mos.Page.Alloc.{kfree-cons}

-- The list holds exactly the pages of the heap below `p`.
pub record IsHeapBelow (p : ℕ) (xs : List ℕ) : Type 0 where
  pub sound : (a : ℕ) → has a xs ≡ true → IsFrame a × (a < p)
  pub complete : (a : ℕ) → IsFrame a → a < p → has a xs ≡ true

IsHeapBelow-not_mem : (p : ℕ) (xs : List ℕ) → IsHeapBelow p xs → p ∉ xs
IsHeapBelow-not_mem p xs h = elim (Bool-cases (has p xs)) [
  | inl e ↦ absurd (omega (arith, (h.sound p e).1))
  | inr e ↦ e
]

IsHeapBelow-cons :
    (p : ℕ) (xs : List ℕ) → IsFrame p → IsHeapBelow p xs → IsHeapBelow (p + page_size) (p ∷ xs)
IsHeapBelow-cons p xs f h = record {
  sound = λ a i. elim (Bool-cases (has a xs)) [
    | inl e ↦ ((h.sound a e).0, omega (arith, (h.sound a e).1))
    | inr e ↦ let same : a ≡ p = ground arith in (rw same f, omega (arith, same))
  ];
  complete = λ a fa low. ground (arith, fa.aligned, f.aligned, h.complete a fa);
}

-- What a run of the loop leaves.
pub record HoldsHeap (k k' : Machine) (xs : List ℕ) : Type 0 where
  pub free : HasFree k' xs
  pub heap : IsHeapBelow phyend xs
  pub pagetable : k'.kernel_pagetable ≡ k.kernel_pagetable

free_pages-HoldsHeap :
    (fuel p : ℕ) (k : Machine) (xs : List ℕ)
    → p % page_size ≡ 0
    → kernend ≤ p
    → p ≤ phyend
    → phyend < p + fuel * page_size
    → HasFree k xs
    → IsHeapBelow p xs
    → (k' : Machine) × (ys : List ℕ) × (free_pages fuel p phyend k ≡ ok tt k') × HoldsHeap k k' ys
unfolding free_pages
free_pages-HoldsHeap zero p k xs al low high enough c h = absurd (omega arith)
free_pages-HoldsHeap (suc f) p k xs al low high enough c h =
    elim (Bool-cases (leb (p + page_size) phyend)) [
      | inl more ↦
          let frame : IsFrame p = record { aligned = al; low = low; high = ground arith } in
          let (k1, e1, c1, o1) = kfree-cons k p xs c frame (IsHeapBelow-not_mem p xs h) in
          let (k2, ys, e2, r) =
            free_pages-HoldsHeap f (p + page_size) k1 (p ∷ xs) (omega arith) (omega arith)
              (ground arith) (omega arith) c1 (IsHeapBelow-cons p xs frame h) in
          (
            k2,
            ys,
            rw (more, e1) e2,
            record { free = r.free; heap = r.heap; pagetable = r.pagetable ∙ o1.pagetable },
          )
      | inr stop ↦
          let e : p ≡ phyend = ground arith in
          (k, xs, rw stop, record { free = c; heap = rw (← e) h; pagetable = refl })
    ]

-- From an empty free list `kinit` succeeds. It leaves a free list of distinct pages, which are all
-- pages from KERNEND up to PHYEND and no others, and `kernel_pagetable` as it was.
pub kinit-HoldsHeap :
    (k : Machine)
    → HasFree k []
    → (k' : Machine) × (xs : List ℕ) × (kinit k ≡ ok tt k') × HoldsHeap k k' xs
unfolding kinit freerange
kinit-HoldsHeap k c = rw (round-page kernend (omega arith)) (
    free_pages-HoldsHeap (phyend / page_size + 1) kernend k [] (omega arith) (omega arith)
      (omega arith) (omega arith) c
      (record { sound = λ a i. cc; complete = λ a f low. absurd (omega (arith, f.low)) }))
