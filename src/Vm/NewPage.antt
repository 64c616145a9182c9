-- ===== src/Vm/NewPage.antt =====
-- What kern/vm.c and kern/env.c do with a page from `kalloc`: fill it, and map it at an address.
use riscv_mos.Base.{
  ℕ, ◌+◌, ◌/◌, ◌%◌, ◌≤◌, ◌<◌, ◌≡◌, ◌≢◌, refl, ◌∙◌, ap, sym, false, ◌==◌, if◌then◌else◌, arith, List,
  ◌∷◌, ◌∉◌, length, Option, none, some, ℤ, pos,
}
use riscv_mos.Mem.{Mem}
use riscv_mos.Kernel.{Machine, Outcome, ok, page_size, maxva}
use riscv_mos.Page.Chain.{IsFrame, HasFree, SameOff}
use riscv_mos.Vm.{mappages}
use riscv_mos.Vm.Pte.{vpn, vpn-div, flag, pte_v}
use riscv_mos.Vm.Tables.{Place, IsTable, Ordinary}
use riscv_mos.Vm.Entries.{pte_at, pte_of-page}
use riscv_mos.Vm.Spared.{SamePage, Spared, Spared-trans, IsTable-ext, pte_of-ext}
use riscv_mos.Vm.Map.{pages_met, mappages-Maps}
use riscv_mos.Vm.Map.Page.{leaf, mapped-single, Unmapped}

-- From `k`, whose free list held `p` and then `xs`, the page `p` with the bytes of `n` is mapped at
-- `va`.
pub record MapsNew (own root va p perm : ℕ) (k : Machine) (n : Mem) (place : Place) (xs : List ℕ)
    (r : Outcome Machine ℤ) : Type 0 where
  pub after : Machine
  pub places : Place
  pub rest : List ℕ
  pub runs : r ≡ ok (pos 0) after
  pub table : IsTable own after.mem root places rest
  pub free : HasFree after rest
  pub uses : length xs ≤ length rest + 2
  pub entries :
      (a : ℕ)
      → a < maxva
      → Ordinary own a
      → pte_at after root a ≡ (if a / 4096 == va / 4096 then leaf p perm else pte_at k root a)
  pub owned : (places p ≡ none) × (p ∉ rest) × SamePage p n after.mem
  pub spared : Spared place (p ∷ xs) k.mem places rest after.mem
  pub pagetable : after.kernel_pagetable ≡ k.kernel_pagetable
  pub satp : after.satp ≡ k.satp

-- A free page is no table.
pub free-placed :
    {own : ℕ} {m : Mem} {root : ℕ} {place : Place} {xs : List ℕ} (p : ℕ)
    → IsTable own m root place (p ∷ xs)
    → place p ≡ none
free-placed {place} p t = by_cases (place p) refl
  where
    by_cases : (o : Option (ℕ × ℕ)) → place p ≡ o → place p ≡ none
    by_cases none e = e
    by_cases (some (l, pre)) e = let u = t.used p l pre e in absurd (ground arith)

pub SamePage-off :
    (p q : ℕ) (m n : Mem)
    → p % page_size ≡ 0
    → q % page_size ≡ 0
    → q ≢ p
    → SameOff p m n
    → SamePage q m n
SamePage-off p q m n alp alq ne off a lo hi = off a (ground arith)

-- The state `k1` differs from `k` in the page `p`, which was at the head of the free list and is on
-- it no more.
module _ {own : ℕ} (root p : ℕ) (k k1 : Machine) (place : Place) (xs : List ℕ)
    (t : IsTable own k.mem root place (p ∷ xs)) (fr : IsFrame p) (out : p ∉ xs)
    (off : SameOff p k.mem k1.mem) where
  tables_same : (q l pre : ℕ) → place q ≡ some (l, pre) → SamePage q k.mem k1.mem
  tables_same q l pre at =
      let fq = t.frame q l pre at in
      let u = t.used q l pre at in
      SamePage-off p q k.mem k1.mem fr.aligned fq.aligned (ground arith) off

  pub taken-IsTable : IsTable own k1.mem root place xs
  taken-IsTable =
      IsTable-ext k1.mem t tables_same xs λ q l pre at. let u = t.used q l pre at in ground arith

  pub taken-pte_at : (a : ℕ) → Ordinary own a → pte_at k1 root a ≡ pte_at k root a
  taken-pte_at a oa = pte_of-ext k1.mem t tables_same 2 root 0 a t.root_place oa

  taken-Spared : Spared place (p ∷ xs) k.mem place xs k1.mem
  taken-Spared = record {
    page = λ q al free not_free.
        (free, ground arith, SamePage-off p q k.mem k1.mem fr.aligned al (ground arith) off);
    from_free = λ q h. ground arith;
  }

  still-Unmapped :
      (va : ℕ)
      → Ordinary own va
      → va < maxva
      → flag (pte_at k root va) pte_v ≡ false
      → Unmapped own root (va / 4096) 1 k1
  still-Unmapped va ord low clear a ha lo hi =
      let oa : Ordinary own a = λ e. ord (sym (same_root a va (omega arith)) ∙ e) in
      (
        oa,
        ap (λ (v : ℕ). flag v pte_v)
              (taken-pte_at a oa ∙ pte_of-page k.mem 2 root a va (omega arith) (omega arith))
            ∙ clear,
      )
    where
      same_root : (a b : ℕ) → a / 4096 ≡ b / 4096 → vpn 2 a ≡ vpn 2 b
      same_root a b e = omega (arith, vpn-div 2 a, vpn-div 2 b)

  -- Mapping the page at an address that starts a page and is not mapped.
  pub mappages-MapsNew :
      (va perm : ℕ)
      → va % page_size ≡ 0
      → va + page_size ≤ maxva
      → Ordinary own va
      → perm < 1024
      → HasFree k1 xs
      → 2 ≤ length xs
      → flag (pte_at k root va) pte_v ≡ false
      → k1.kernel_pagetable ≡ k.kernel_pagetable
      → k1.satp ≡ k.satp
      → MapsNew own root va p perm k k1.mem place xs (mappages root va page_size p perm k1)
  mappages-MapsNew va perm al low ord small c enough clear kp sp =
      let one : pages_met va page_size ≡ 1 = omega arith in
      let r =
        mappages-Maps root va page_size p perm k1 place xs (omega arith) low small
          (rw one (omega (arith, fr.high))) taken-IsTable c (rw one enough)
          (rw one (still-Unmapped va ord (omega arith) clear)) in
      record {
        after = r.after;
        places = r.places;
        rest = r.rest;
        runs = r.runs;
        table = r.table;
        free = r.free;
        uses = omega (arith, r.uses, one);
        entries = λ a ha oa.
            r.entries a ha oa
            ∙ mapped-single (va / 4096) _ p perm (pte_at k1 root a) (a / 4096) one
            ∙ ap (λ (old : ℕ). if a / 4096 == va / 4096 then leaf p perm else old)
                (taken-pte_at a oa);
        owned = r.spared.page p fr.aligned (free-placed p t) out;
        spared = Spared-trans taken-Spared r.spared;
        pagetable = r.pagetable ∙ kp;
        satp = r.satp ∙ sp;
      }
