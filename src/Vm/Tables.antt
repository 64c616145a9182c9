-- ===== src/Vm/Tables.antt =====
-- A page table as a map from addresses to entries, and the shape that makes it a tree.
use riscv_mos.Base.{
  ℕ, zero, suc, ◌+◌, ◌*◌, ◌≤◌, ◌<◌, ◌≡◌, ◌≢◌, ◌∙◌, ap, sym, true, arith, if◌then◌else◌, List, ◌∉◌,
  ◌⊎◌, inl, inr, Option, some, Bool-cases,
}
use riscv_mos.Mem.{Mem, load64, store64}
use riscv_mos.Mem.Laws.{load-store_other}
use riscv_mos.Page.Chain.{IsFrame, IsZeroed, load-IsZeroed}
use riscv_mos.Vm.{entry}
use riscv_mos.Vm.Pte.{vpn, vpn-div, flag, flag-valid, pte_v, pte2pa}

-- The entry that the table `p` of level `l` gives `va`, 0 where a table is missing.
unfoldable pub pte_of : Mem → (l p va : ℕ) → ℕ
pte_of m zero p va = load64 m (entry p 0 va)
pte_of m (suc l) p va =
    let v = load64 m (entry p (suc l) va) in
    let below = pte_of m l (pte2pa v) va in if flag v pte_v then below else 0

-- Which pages are tables: the level of each, and the page numbers that it serves, as a prefix.
abbrev pub Place : Type 0
Place = ℕ → Option (ℕ × ℕ)

-- The tables below `root` form a tree of distinct pages, none of them free. The entry `own` of the root
-- is left out of account: `env_setup_vm` lets it point back at the root. There is none if `own` is 512.
pub record IsTable (own : ℕ) (m : Mem) (root : ℕ) (place : Place) (xs : List ℕ) : Type 0 where
  pub root_place : place root ≡ some (2, 0)
  pub frame : (p l pre : ℕ) → place p ≡ some (l, pre) → IsFrame p
  pub used : (p l pre : ℕ) → place p ≡ some (l, pre) → p ∉ xs
  pub child :
      (p l pre i : ℕ)
      → place p ≡ some (suc l, pre)
      → i < 512
      → (l ≡ 1 → i ≢ own)
      → flag (load64 m (p + 8 * i)) pte_v ≡ true
      → place (pte2pa (load64 m (p + 8 * i))) ≡ some (l, pre * 512 + i)

-- The prefix of the level-0 table that serves `va`.
unfoldable pub prefix : (l pre va : ℕ) → ℕ
prefix zero pre va = pre
prefix (suc l) pre va = prefix l (pre * 512 + vpn (suc l) va) va

-- The root entry of the address is not the one that is left out.
abbrev pub Ordinary : (own va : ℕ) → Type 0
Ordinary own va = vpn 2 va ≢ own

pub ordinary : {own : ℕ} (l va : ℕ) → Ordinary own va → l ≡ 1 → vpn (suc l) va ≢ own
ordinary l va o e f = o (ap (λ (i : ℕ). vpn (suc i) va) (sym e) ∙ f)

pub vpn-lt : (l va : ℕ) → vpn l va < 512
vpn-lt l va = omega (arith, vpn-div l va)

-- No entry of the root is left out.
abbrev pub no_own : ℕ
no_own = 512

pub no_own-Ordinary : (va : ℕ) → Ordinary no_own va
no_own-Ordinary va e = omega (arith, vpn-lt 2 va, e)

-- Words in different slots of two pages do not overlap.
slots_apart :
    (p q i j : ℕ)
    → IsFrame p
    → IsFrame q
    → i < 512
    → j < 512
    → (p ≢ q) ⊎ (i ≢ j)
    → (p + 8 * i + 8 ≤ q + 8 * j) ⊎ (q + 8 * j + 8 ≤ p + 8 * i)
slots_apart p q i j fp fq hi hj (inl ne) = ground (arith, fp.aligned, fq.aligned)
slots_apart p q i j fp fq hi hj (inr ne) = ground (arith, fp.aligned, fq.aligned)

pub slot-store_other :
    (m : Mem) (p q i j w : ℕ)
    → IsFrame p
    → IsFrame q
    → i < 512
    → j < 512
    → (p ≢ q) ⊎ (i ≢ j)
    → load64 (store64 m (q + 8 * j) w) (p + 8 * i) ≡ load64 m (p + 8 * i)
slot-store_other m p q i j w fp fq hi hj ne =
    load-store_other 8 8 m (p + 8 * i) (q + 8 * j) w (slots_apart p q i j fp fq hi hj ne)

-- A cleared page maps nothing, at every level.
pub pte_of-zeroed : (m : Mem) (l p va : ℕ) → IsZeroed m p → pte_of m l p va ≡ 0
unfolding pte_of
pte_of-zeroed m zero p va z =
    load-IsZeroed m p (p + 8 * vpn 0 va) z (omega arith) (omega (arith, vpn-lt 0 va))
pte_of-zeroed m (suc l) p va z =
    let e : load64 m (entry p (suc l) va) ≡ 0 =
      load-IsZeroed m p (p + 8 * vpn (suc l) va) z (omega arith)
        (omega (arith, vpn-lt (suc l) va)) in
    rw (e, flag-valid 0)

-- A table entry that is the same leads to the same result.
pub pte_of-step :
    (m n : Mem) (l p va : ℕ)
    → load64 n (entry p (suc l) va) ≡ load64 m (entry p (suc l) va)
    → (flag (load64 m (entry p (suc l) va)) pte_v ≡ true
        → pte_of n l (pte2pa (load64 m (entry p (suc l) va))) va
          ≡ pte_of m l (pte2pa (load64 m (entry p (suc l) va))) va)
    → pte_of n (suc l) p va ≡ pte_of m (suc l) p va
unfolding pte_of
pte_of-step m n l p va same below =
    rw same (elim (Bool-cases (flag (load64 m (entry p (suc l) va)) pte_v)) [
      | inl v ↦ rw v (below v)
      | inr v ↦ rw v
    ])

module _ {own : ℕ} {m : Mem} {root : ℕ} {place : Place} {xs : List ℕ}
    (t : IsTable own m root place xs) where
  -- Entries of level-0 tables: a write there changes no other entry of the tables.
  pub IsTable-leaf :
      (z zp j w : ℕ)
      → place z ≡ some (0, zp)
      → j < 512
      → IsTable own (store64 m (z + 8 * j) w) root place xs
  IsTable-leaf z zp j w here hj = record {
    root_place = t.root_place;
    frame = t.frame;
    used = t.used;
    child = λ p l pre i at hi o v.
        let ne : p ≢ z = λ e. cc (ap place e) in
        let same =
          slot-store_other m p z i j w (t.frame p (suc l) pre at) (t.frame z 0 zp here) hi hj
            (inl ne) in
        rw same (t.child p l pre i at hi o (rw same at v));
  }

  pub pte_of-leaf_other :
      (z zp j w : ℕ) (l p pre va : ℕ)
      → place z ≡ some (0, zp)
      → j < 512
      → place p ≡ some (l, pre)
      → Ordinary own va
      → (prefix l pre va ≢ zp) ⊎ (vpn 0 va ≢ j)
      → pte_of (store64 m (z + 8 * j) w) l p va ≡ pte_of m l p va
  unfolding pte_of prefix
  pte_of-leaf_other z zp j w zero p pre va here hj at o ne =
      slot-store_other m p z (vpn 0 va) j w (t.frame p 0 pre at) (t.frame z 0 zp here) (vpn-lt 0 va)
        hj (distinct ne)
    where
      distinct : (pre ≢ zp) ⊎ (vpn 0 va ≢ j) → (p ≢ z) ⊎ (vpn 0 va ≢ j)
      distinct (inl d) = inl λ e. d (cc (ap place e))
      distinct (inr d) = inr d
  pte_of-leaf_other z zp j w (suc l) p pre va here hj at o ne =
      let ne_page : p ≢ z = λ e. cc (ap place e) in
      let same =
        slot-store_other m p z (vpn (suc l) va) j w (t.frame p (suc l) pre at) (t.frame z 0 zp here)
          (vpn-lt (suc l) va) hj (inl ne_page) in
      pte_of-step m (store64 m (z + 8 * j) w) l p va same λ v.
        pte_of-leaf_other z zp j w l (pte2pa (load64 m (entry p (suc l) va)))
          (pre * 512 + vpn (suc l) va) va here hj
          (t.child p l pre (vpn (suc l) va) at (vpn-lt (suc l) va) (ordinary l va o) v) o ne

-- The walk from table `p` of level `l` to the slot `s` meets a table at every level.
abbrev pub Finds : Mem → (l p va s : ℕ) → Type 0
Finds m zero p va s = s ≡ entry p 0 va
Finds m (suc l) p va s =
    let v = load64 m (entry p (suc l) va) in (flag v pte_v ≡ true) × Finds m l (pte2pa v) va s

pub pte_of-Finds : (m : Mem) (l p va s : ℕ) → Finds m l p va s → pte_of m l p va ≡ load64 m s
unfolding pte_of
pte_of-Finds m zero p va s f = ap (load64 m) (sym f)
pte_of-Finds m (suc l) p va s (v, f) = rw v (pte_of-Finds m l _ va s f)

-- The slot that a walk finds, as an index into the level-0 table of the address.
pub record Slot (place : Place) (l pre va s : ℕ) : Type 0 where
  pub page : ℕ
  pub here : place page ≡ some (0, prefix l pre va)
  pub slot : s ≡ page + 8 * vpn 0 va

module _ {own : ℕ} {m : Mem} {root : ℕ} {place : Place} {xs : List ℕ}
    (t : IsTable own m root place xs) where
  pub Slot-Finds :
      (l p pre va s : ℕ)
      → place p ≡ some (l, pre)
      → Ordinary own va
      → Finds m l p va s
      → Slot place l pre va s
  unfolding prefix
  Slot-Finds zero p pre va s at o f = record { page = p; here = at; slot = f }
  Slot-Finds (suc l) p pre va s at o (v, f) =
      let r =
        Slot-Finds l (pte2pa (load64 m (entry p (suc l) va))) (pre * 512 + vpn (suc l) va) va s
          (t.child p l pre (vpn (suc l) va) at (vpn-lt (suc l) va) (ordinary l va o) v) o f in
      record { page = r.page; here = r.here; slot = r.slot }

  -- A write to a level-0 table leaves every walk where it was.
  pub Finds-leaf :
      (z zp j w : ℕ) (l p pre va s : ℕ)
      → place z ≡ some (0, zp)
      → j < 512
      → place p ≡ some (l, pre)
      → Ordinary own va
      → Finds m l p va s
      → Finds (store64 m (z + 8 * j) w) l p va s
  Finds-leaf z zp j w zero p pre va s here hj at o f = f
  Finds-leaf z zp j w (suc l) p pre va s here hj at o (v, f) =
      let ne_page : p ≢ z = λ e. cc (ap place e) in
      let same =
        slot-store_other m p z (vpn (suc l) va) j w (t.frame p (suc l) pre at) (t.frame z 0 zp here)
          (vpn-lt (suc l) va) hj (inl ne_page) in
      rw same (
        v,
        Finds-leaf z zp j w l (pte2pa (load64 m (entry p (suc l) va))) (pre * 512 + vpn (suc l) va)
            va s here hj
            (t.child p l pre (vpn (suc l) va) at (vpn-lt (suc l) va) (ordinary l va o) v) o f,
      )
