-- ===== src/Vm/Region.antt =====
-- A range of pages of an address space, each on a page of its own: what the loops of kern/vm.c and
-- lib/elfloader.c build page by page.
use riscv_mos.Base.{
  ℕ, suc, ◌+◌, ◌*◌, ◌/◌, ◌-◌, ◌≤◌, ◌<◌, ◌≡◌, refl, ◌∙◌, ap, has, true, false, ◌==◌, ◌&&◌, leb, ltb,
  if◌then◌else◌, arith, List, ◌∷◌, ◌∉◌, length, none, ℤ, inl, inr, Bool-cases, eq→==,
}
use riscv_mos.Mem.{Mem}
use riscv_mos.Kernel.{Machine, Outcome, page_size, maxva}
use riscv_mos.Page.Chain.{IsFrame, HasFree}
use riscv_mos.Vm.Pte.{flag, pte_v}
use riscv_mos.Vm.Tables.{Place, IsTable, Ordinary}
use riscv_mos.Vm.Entries.{pte_at}
use riscv_mos.Vm.Spared.{SamePage, Spared, Spared-refl, Spared-trans}
use riscv_mos.Vm.NewPage.{MapsNew}
use riscv_mos.Vm.Map.Page.{leaf, Unmapped}

-- Between `k` and `k'`, `n` pages from page number `first` were mapped, with the bytes of `image`, to
-- pages that were free.
pub record Region (own root first n perm : ℕ) (image : ℕ → ℕ) (k : Machine) (place : Place)
    (xs : List ℕ) (k' : Machine) (places : Place) (rest : List ℕ) : Type 0 where
  pub table : IsTable own k'.mem root places rest
  pub free : HasFree k' rest
  pub uses : length xs ≤ length rest + 3 * n
  pub frames : ℕ → ℕ
  pub frame : (j : ℕ) → j < n → IsFrame (frames j)
  pub were_free : (j : ℕ) → j < n → has (frames j) xs ≡ true
  pub owned : (j : ℕ) → j < n → (places (frames j) ≡ none) × (frames j ∉ rest)
  pub distinct : (i j : ℕ) → i < n → j < n → frames i ≡ frames j → i ≡ j
  pub bytes : (j b : ℕ) → j < n → b < page_size → k'.mem (frames j + b) ≡ image (j * page_size + b)
  pub entries :
      (a : ℕ)
      → a < maxva
      → Ordinary own a
      → pte_at k' root a ≡ (
          if leb first (a / 4096) && ltb (a / 4096) (first + n)
          then leaf (frames (a / 4096 - first)) perm
          else pte_at k root a)
  pub spared : Spared place xs k.mem places rest k'.mem
  pub pagetable : k'.kernel_pagetable ≡ k.kernel_pagetable
  pub satp : k'.satp ≡ k.satp

module _ {own : ℕ} (root first perm : ℕ) (image : ℕ → ℕ) (k : Machine) (place : Place)
    (xs : List ℕ) where
  pub Region-nil :
      IsTable own k.mem root place xs
      → HasFree k xs
      → Region own root first 0 perm image k place xs k place xs
  Region-nil t c = record {
    table = t;
    free = c;
    uses = omega arith;
    frames = λ j. 0;
    frame = λ j h. absurd (omega arith);
    were_free = λ j h. absurd (omega arith);
    owned = λ j h. absurd (omega arith);
    distinct = λ i j h. absurd (omega arith);
    bytes = λ j b h. absurd (omega arith);
    entries = λ a h oa. ground arith;
    spared = Spared-refl place xs k.mem;
    pagetable = refl;
    satp = refl;
  }

  -- What is not in the region yet is unmapped still.
  pub Region-Unmapped :
      (n total va : ℕ) (k' : Machine) (places : Place) (rest : List ℕ)
      → Region own root first n perm image k place xs k' places rest
      → Unmapped own root first total k
      → n < total
      → va < maxva
      → va / 4096 ≡ first + n
      → Ordinary own va × (flag (pte_at k' root va) pte_v ≡ false)
  Region-Unmapped n total va k' places rest g clear more low at =
      let (ord, unmapped) = clear va low (omega arith) (omega arith) in
      (ord, ap (λ (v : ℕ). flag v pte_v) (g.entries va low ord ∙ ground arith) ∙ unmapped)

  -- One page more.
  pub Region-snoc :
      (n va p : ℕ) (k' : Machine) (places : Place) (ys : List ℕ) (m : Mem) (r : Outcome Machine ℤ)
      → Region own root first n perm image k place xs k' places (p ∷ ys)
      → IsFrame p
      → va / 4096 ≡ first + n
      → (new : MapsNew own root va p perm k' m places ys r)
      → ((b : ℕ) → b < page_size → m (p + b) ≡ image (n * page_size + b))
      → Region own root first (suc n) perm image k place xs new.after new.places new.rest
  Region-snoc n va p k' places ys m r g fr at new filled = record {
    table = new.table;
    free = new.free;
    uses = omega (arith, g.uses, new.uses);
    frames = λ j. if j == n then p else g.frames j;
    frame = frame';
    were_free = were_free';
    owned = owned';
    distinct = distinct';
    bytes = bytes';
    entries = entries';
    spared = Spared-trans g.spared new.spared;
    pagetable = new.pagetable ∙ g.pagetable;
    satp = new.satp ∙ g.satp;
  }
    where
      frames' : ℕ → ℕ
      frames' j = if j == n then p else g.frames j

      old_page :
          (j : ℕ)
          → j < n
          → (new.places (g.frames j) ≡ none)
            × (g.frames j ∉ new.rest)
            × SamePage (g.frames j) k'.mem new.after.mem
      old_page j h =
          let (none_there, not_free) = g.owned j h in
          new.spared.page (g.frames j) (g.frame j h).aligned none_there not_free

      frame' : (j : ℕ) → j < suc n → IsFrame (frames' j)
      frame' j h = elim (Bool-cases (j == n)) [
        | inl e ↦ rw e fr
        | inr e ↦ rw e (g.frame j (ground arith))
      ]

      were_free' : (j : ℕ) → j < suc n → has (frames' j) xs ≡ true
      were_free' j h = elim (Bool-cases (j == n)) [
        | inl e ↦ rw e (g.spared.from_free p (ground arith))
        | inr e ↦ rw e (g.were_free j (ground arith))
      ]

      owned' : (j : ℕ) → j < suc n → (new.places (frames' j) ≡ none) × (frames' j ∉ new.rest)
      owned' j h = elim (Bool-cases (j == n)) [
        | inl e ↦ rw e (new.owned.0, new.owned.1)
        | inr e ↦ let (a, b, c) = old_page j (ground arith) in rw e (a, b)
      ]

      distinct' : (i j : ℕ) → i < suc n → j < suc n → frames' i ≡ frames' j → i ≡ j
      distinct' i j hi hj e = ground (arith, g.owned i, g.owned j, g.distinct i j)

      bytes' :
          (j b : ℕ)
          → j < suc n
          → b < page_size
          → new.after.mem (frames' j + b) ≡ image (j * page_size + b)
      bytes' j b h hb = elim (Bool-cases (j == n)) [
        | inl e ↦
            let same : j ≡ n = ground arith in
            rw (same, eq→== n n refl)
              (new.owned.2 (p + b) (omega arith) (omega arith) ∙ filled b hb)
        | inr e ↦
            let (a, c, same) = old_page j (ground arith) in
            rw e (same (g.frames j + b) (omega arith) (omega arith) ∙ g.bytes j b (ground arith) hb)
      ]

      entries' :
          (a : ℕ)
          → a < maxva
          → Ordinary own a
          → pte_at new.after root a ≡ (
              if leb first (a / 4096) && ltb (a / 4096) (first + suc n)
              then leaf (frames' (a / 4096 - first)) perm
              else pte_at k root a)
      entries' a h oa = ground (arith, new.entries a h oa, g.entries a h oa)
