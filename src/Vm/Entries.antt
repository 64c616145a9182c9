-- ===== src/Vm/Entries.antt =====
-- Page tables of kern/vm.c as maps from page numbers to entries, and writes to the slot of one page.
use riscv_mos.Base.{
  ℕ, zero, suc, ◌+◌, ◌*◌, ◌/◌, ◌^◌, ◌<◌, ◌≡◌, ◌≢◌, ◌∙◌, ap, ◌==◌, arith, if◌then◌else◌, List, ◌⊎◌,
  inl, inr, Bool-cases,
}
use riscv_mos.Mem.{Mem, load64, store64}
use riscv_mos.Mem.Laws.{load-store, store-outside}
use riscv_mos.Kernel.{Machine, maxva}
use riscv_mos.Page.Chain.{Chain, Chain-SameOff}
use riscv_mos.Vm.Pte.{vpn, vpn-div, flag, pte_v, pte2pa}
use riscv_mos.Vm.Tables.{
  pte_of, prefix, Place, IsTable, Ordinary, vpn-lt, Finds, Slot-Finds, Finds-leaf, pte_of-Finds,
  pte_of-leaf_other, IsTable-leaf,
}
use riscv_mos.Vm.Spared.{Spared, slot-SamePage, placed-apart}

-- The entry of `va` in the tables below `root`, 0 where there is none.
abbrev pub pte_at : Machine → (root va : ℕ) → ℕ
pte_at k root va = pte_of k.mem 2 root va

-- Addresses of one page share their indices.
vpn-page : (l a b : ℕ) → l < 3 → a / 4096 ≡ b / 4096 → vpn l a ≡ vpn l b
vpn-page zero a b h e = omega (arith, vpn-div 0 a, vpn-div 0 b)
vpn-page (suc zero) a b h e = omega (arith, vpn-div 1 a, vpn-div 1 b)
vpn-page (suc (suc zero)) a b h e = omega (arith, vpn-div 2 a, vpn-div 2 b)
vpn-page (suc (suc (suc l))) a b h e = absurd (omega arith)

pub pte_of-page :
    (m : Mem) (l p a b : ℕ) → l < 3 → a / 4096 ≡ b / 4096 → pte_of m l p a ≡ pte_of m l p b
unfolding pte_of
pte_of-page m zero p a b h e = ap (λ (i : ℕ). load64 m (p + 8 * i)) (vpn-page 0 a b h e)
pte_of-page m (suc l) p a b h e = rw (vpn-page (suc l) a b h e) (
    ap (λ (below : ℕ). if flag (load64 m (p + 8 * vpn (suc l) b)) pte_v then below else 0)
      (pte_of-page m l (pte2pa (load64 m (p + 8 * vpn (suc l) b))) a b (omega arith) e))

-- Addresses of different pages differ in an index.
other_slot :
    (a b : ℕ)
    → a < maxva
    → b < maxva
    → a / 4096 ≢ b / 4096
    → (prefix 2 0 a ≢ prefix 2 0 b) ⊎ (vpn 0 a ≢ vpn 0 b)
unfolding prefix
other_slot a b ha hb ne = elim (Bool-cases (vpn 0 a == vpn 0 b)) [
  | inl same ↦ inl λ e. absurd (
      omega (
        arith,
        (let e0 : vpn 0 a ≡ vpn 0 b = ground arith in e0),
        vpn-div 0 a,
        vpn-div 0 b,
        vpn-div 1 a,
        vpn-div 1 b,
        vpn-div 2 a,
        vpn-div 2 b,
        vpn-lt 1 a,
        vpn-lt 1 b,
      ))
  | inr differ ↦ inr (ground arith)
]

-- Writing `w` to the slot of `va` changes the entry of its page and of no other.
module _ {own root : ℕ} {place : Place} {xs : List ℕ} {m : Mem} (t : IsTable own m root place xs)
    (va s w : ℕ) (o : Ordinary own va) (f : Finds m 2 root va s) where
  pub IsTable-write : IsTable own (store64 m s w) root place xs
  IsTable-write =
      let r = Slot-Finds t 2 root 0 va s t.root_place o f in
      rw (r.slot) (IsTable-leaf t r.page (prefix 2 0 va) (vpn 0 va) w r.here (vpn-lt 0 va))

  pub pte_of-write :
      (a : ℕ)
      → w < 2 ^ 64
      → va < maxva
      → a < maxva
      → Ordinary own a
      → pte_of (store64 m s w) 2 root a ≡ (if a / 4096 == va / 4096 then w else pte_of m 2 root a)
  pte_of-write a hw hva ha oa =
      let r = Slot-Finds t 2 root 0 va s t.root_place o f in
      elim (Bool-cases (a / 4096 == va / 4096)) [
        | inl same ↦ rw same (
            pte_of-page (store64 m s w) 2 root a va (omega arith) (ground arith)
            ∙ pte_of-Finds (store64 m s w) 2 root va s (
                rw (r.slot) (
                  Finds-leaf t r.page (prefix 2 0 va) (vpn 0 va) w 2 root 0 va
                    (r.page + 8 * vpn 0 va) r.here (vpn-lt 0 va) t.root_place o (rw (r.slot) at f)))
            ∙ load-store 8 m s w hw)
        | inr other ↦
            rw (other, r.slot)
              (pte_of-leaf_other t r.page (prefix 2 0 va) (vpn 0 va) w 2 root 0 a r.here
                (vpn-lt 0 va) t.root_place oa (other_slot a va ha hva (ground arith)))
      ]

  -- The slot lies in a page of the tables, so the free list keeps its links.
  pub Chain-write : (head : ℕ) → Chain m head xs → Chain (store64 m s w) head xs
  Chain-write head c =
      let r = Slot-Finds t 2 root 0 va s t.root_place o f in
      let at = r.here in
      Chain-SameOff m (store64 m s w) head r.page xs (t.frame r.page 0 (prefix 2 0 va) at)
        (t.used r.page 0 (prefix 2 0 va) at)
        (λ a off. store-outside 8 m s w a (ground (arith, r.slot, vpn-lt 0 va))) c

  -- No page beside the tables changes.
  pub Spared-write : Spared place xs m place xs (store64 m s w)
  Spared-write =
      let r = Slot-Finds t 2 root 0 va s t.root_place o f in
      let fp = t.frame r.page 0 (prefix 2 0 va) r.here in
      record {
        page = λ q al free out. (
          free,
          out,
          rw (r.slot) (
              slot-SamePage m r.page q (vpn 0 va) w fp.aligned al (vpn-lt 0 va)
                (placed-apart place r.page q 0 (prefix 2 0 va) r.here free)),
        );
        from_free = λ q h. h;
      }

  pub slot-ne-zero : s ≢ 0
  slot-ne-zero e =
      let r = Slot-Finds t 2 root 0 va s t.root_place o f in
      let fr = t.frame r.page 0 (prefix 2 0 va) r.here in omega (arith, r.slot, fr.low)
