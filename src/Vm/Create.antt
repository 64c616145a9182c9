-- ===== src/Vm/Create.antt =====
-- `uvmcreate`, `uvmfree` and `freewalk` of kern/vm.c on the empty tables of a process.
use riscv_mos.Base.{
  ℕ, zero, suc, ◌+◌, ◌*◌, ◌≡◌, refl, ◌∙◌, ap, false, ◌==◌, if◌then◌else◌, arith, List, ◌∷◌, ◌∉◌,
  none, some, eq→==,
}
use riscv_mos.Mem.{Mem, load64}
use riscv_mos.Kernel.{Machine, Cmd, ok, page_size, ◌>>=◌}
use riscv_mos.Strings.{memset}
use riscv_mos.Page.{zero_page}
use riscv_mos.Page.Chain.{
  IsFrame, HasFree, IsZeroed, SameOff, Chain-SameOff, memset-IsZeroed, memset-SameOff,
  load-IsZeroed,
}
use riscv_mos.Page.Alloc.{OnlyPage, kalloc-cons, kfree-cons}
use riscv_mos.Vm.Pte.{flag, flag-valid, pte_v}
use riscv_mos.Vm.Tables.{Place, IsTable}
use riscv_mos.Vm.User.{heap_pages, uvmcreate, freewalk_entries, freewalk, uvmfree}

-- A machine with other memory and another free list.
same_machine :
    (k k' : Machine)
    → k'.kernel_pagetable ≡ k.kernel_pagetable
    → k'.satp ≡ k.satp
    → k' ≡ record k { mem = k'.mem; freelist = k'.freelist }
same_machine k k' e e' =
    ap (λ (v : ℕ). record k' { kernel_pagetable = v }) e
    ∙ ap (λ (v : ℕ). record k { mem = k'.mem; freelist = k'.freelist; satp = v }) e'

-- With a free page at the head of the list, `uvmcreate` returns it, cleared.
pub uvmcreate-cons :
    (k : Machine) (p : ℕ) (xs : List ℕ)
    → HasFree k (p ∷ xs)
    → (k' : Machine) × (uvmcreate k ≡ ok p k') × HasFree k' xs × IsZeroed k'.mem p × OnlyPage p k k'
unfolding zero_page
uvmcreate-cons k p xs c =
    let (hd, fr, out, rest) = c in
    let (k1, e1, c1, z1, o1) = kalloc-cons k p xs c in
    let m : Mem = (memset p 0 page_size k1.mem).1 in
    let nonnull : (p == 0) ≡ false = ground (arith, fr.low) in
    (
      record k1 { mem = m },
      rw (e1, nonnull) refl,
      Chain-SameOff k1.mem m k1.freelist p xs fr out (memset-SameOff k1.mem p) c1,
      memset-IsZeroed k1.mem p,
      record {
        off = λ a h. memset-SameOff k1.mem p a h ∙ o1.off a h;
        pagetable = o1.pagetable;
        satp = o1.satp;
      },
    )

pub uvmcreate-state :
    (k : Machine) (p : ℕ) (xs : List ℕ)
    → HasFree k (p ∷ xs)
    → (m : Mem) × (head : ℕ) × (uvmcreate k ≡ ok p (record k { mem = m; freelist = head }))
      × HasFree (record k { mem = m; freelist = head }) xs
      × IsZeroed m p
      × SameOff p k.mem m
uvmcreate-state k p xs c =
    let (k', e, c', z, o) = uvmcreate-cons k p xs c in
    (k'.mem, k'.freelist, e ∙ ap (ok p) (same_machine k k' o.pagetable o.satp), c', z, o.off)

-- A cleared page is a tree of tables by itself.
abbrev pub only_root : ℕ → Place
only_root p q = if q == p then some (2, 0) else none

pub only_root-IsTable :
    (own : ℕ) (m : Mem) (p : ℕ) (xs : List ℕ)
    → IsZeroed m p
    → IsFrame p
    → p ∉ xs
    → IsTable own m p (only_root p) xs
only_root-IsTable own m p xs z fr out = record {
  root_place = rw (eq→== p p refl) refl;
  frame = λ q l pre at. let e : q ≡ p = ground arith in rw e fr;
  used = λ q l pre at. let e : q ≡ p = ground arith in rw e out;
  child = λ q l pre i at hi o v.
      let e : q ≡ p = ground arith in
      let zero_word : load64 m (q + 8 * i) ≡ 0 =
        rw e (load-IsZeroed m p (p + 8 * i) z (omega arith) (omega arith)) in
      absurd (ground (arith, flag-valid 0, ap (λ (w : ℕ). flag w pte_v) zero_word));
}

-- `freewalk` finds nothing to do in a cleared page.
freewalk_entries-zeroed :
    (below : ℕ → Cmd Machine (Unit {0})) (left p i : ℕ) (k : Machine)
    → i + left ≡ 512
    → IsZeroed k.mem p
    → freewalk_entries below left p i k ≡ ok tt k
freewalk_entries-zeroed below zero p i k e z = refl
freewalk_entries-zeroed below (suc left) p i k e z =
    let word : load64 k.mem (p + 8 * i) ≡ 0 =
      load-IsZeroed k.mem p (p + 8 * i) z (omega arith) (omega arith) in
    rw (word, flag-valid 0) (freewalk_entries-zeroed below left p (i + 1) k (omega arith) z)

freewalk-zeroed :
    (d p : ℕ) (k : Machine) (xs : List ℕ)
    → HasFree k xs
    → IsFrame p
    → p ∉ xs
    → IsZeroed k.mem p
    → (k' : Machine) × (freewalk (suc d) p k ≡ ok tt k') × HasFree k' (p ∷ xs) × OnlyPage p k k'
unfolding freewalk
freewalk-zeroed d p k xs c fr out z =
    let (k', e, c', o) = kfree-cons k p xs c fr out in
    (k', rw (freewalk_entries-zeroed (freewalk d) 512 p 0 k refl z) e, c', o)

-- If the free list holds the page `p` and then the pages `xs`, then `uvmcreate`, and `uvmfree` of
-- what it returns, with size 0, leave a free list that holds the same pages in the same order, and
-- every byte outside of `p` as it was.
pub uvmfree-uvmcreate :
    (k : Machine) (p : ℕ) (xs : List ℕ)
    → HasFree k (p ∷ xs)
    → (k' : Machine) × ((uvmcreate >>= λ pagetable. uvmfree pagetable 0) k ≡ ok tt k')
      × HasFree k' (p ∷ xs)
      × OnlyPage p k k'
uvmfree-uvmcreate k p xs c =
    let (hd, fr, out, rest) = c in
    let (k1, e1, c1, z1, o1) = uvmcreate-cons k p xs c in
    let (k2, e2, c2, o2) = freewalk-zeroed heap_pages p k1 xs c1 fr out z1 in
    (
      k2,
      rw e1 e2,
      c2,
      record {
        off = λ a h. o2.off a h ∙ o1.off a h;
        pagetable = o2.pagetable ∙ o1.pagetable;
        satp = o2.satp ∙ o1.satp;
      },
    )
