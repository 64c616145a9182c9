-- ===== src/Vm/Lookup.antt =====
-- `lookup` of kern/vm.c, and the entries that it reads.
use riscv_mos.Base.{
  ℕ, zero, suc, ◌+◌, ◌-◌, ◌*◌, ◌/◌, ◌%◌, ◌^◌, ◌≤◌, ◌<◌, ◌≡◌, ◌≢◌, refl, ◌∙◌, ap, Bool, true, false,
  ◌&&◌, arith, leb, ltb, if◌then◌else◌, List, length, inl, inr, Bool-cases, ne→==, Option, none,
  some,
}
use riscv_mos.Mem.{load64}
use riscv_mos.Kernel.{Machine, Outcome, ok, maxva, ◌>>=◌}
use riscv_mos.Page.Chain.{HasFree}
use riscv_mos.Vm.{entry, walk_levels, walk, lookup, mappages}
use riscv_mos.Vm.Pte.{flag, flag-valid, flag-user, pte_v, pte_u, pte2pa, pte2pa_lem}
use riscv_mos.Vm.Tables.{pte_of, Place, IsTable, Ordinary, Finds, pte_of-Finds, Slot-Finds}
use riscv_mos.Vm.Entries.{pte_at}
use riscv_mos.Vm.Map.{pages_met, mappages-Maps}
use riscv_mos.Vm.Map.Page.{leaf, Unmapped}

-- A walk that creates nothing: it finds the slot, or returns NULL where the tables give no entry.
pub data Walks (k : Machine) (l p va : ℕ) (r : Outcome Machine ℕ) : Type 0 where
  hit : (s : ℕ) → r ≡ ok s k → Finds k.mem l p va s → Walks k l p va r
  miss : r ≡ ok 0 k → pte_of k.mem l p va ≡ 0 → Walks k l p va r

walk_levels-Walks : (k : Machine) (l p va : ℕ) → Walks k l p va (walk_levels l p va false k)
unfolding walk_levels pte_of
walk_levels-Walks k zero p va = hit (entry p 0 va) refl refl
walk_levels-Walks k (suc l) p va =
    let v = load64 k.mem (entry p (suc l) va) in
    elim (Bool-cases (flag v pte_v)) [
      | inl set ↦ rw set (below set (walk_levels-Walks k l (pte2pa v) va))
      | inr clear ↦ rw clear (miss refl (rw clear))
    ]
  where
    below :
        flag (load64 k.mem (entry p (suc l) va)) pte_v ≡ true
        → Walks k l
            (pte2pa (load64 k.mem (entry p (suc l) va)))
            va
            (walk_levels l (pte2pa (load64 k.mem (entry p (suc l) va))) va false k)
        → Walks k
            (suc l)
            p
            va
            (walk_levels l (pte2pa (load64 k.mem (entry p (suc l) va))) va false k)
    below set (hit s e f) = hit s e (set, f)
    below set (miss e z) = miss e (rw set z)

pub walk-Walks : (k : Machine) (root va : ℕ) → va < maxva → Walks k 2 root va (walk root va false k)
unfolding walk
walk-Walks k root va low =
    let guard : leb maxva va ≡ false = ground arith in rw guard (walk_levels-Walks k 2 root va)

-- A slot in a well-formed tree is not NULL.
pub Finds-ne-zero :
    {own root : ℕ} {place : Place} {xs : List ℕ} (k : Machine) (va s : ℕ)
    → IsTable own k.mem root place xs
    → Ordinary own va
    → Finds k.mem 2 root va s
    → s ≢ 0
Finds-ne-zero {root = root} k va s t o f e =
    let r = Slot-Finds t 2 root 0 va s t.root_place o f in
    let fr = t.frame r.page 0 _ r.here in omega (arith, r.slot, fr.low)

-- A valid entry that user code may use.
abbrev pub user_valid : ℕ → Bool
user_valid v = flag v pte_v && flag v pte_u

abbrev pub translate : ℕ → ℕ
translate v = if user_valid v then pte2pa v else 0

-- What `*ppte` is set to, if anything.
abbrev pub Points : Machine → ℕ → Option ℕ → Type 0
Points k v none = user_valid v ≡ false
Points k v (some s) = (user_valid v ≡ true) × (load64 k.mem s ≡ v)

flag-zero : flag 0 pte_v ≡ false
flag-zero = flag-valid 0

-- Below MAXVA, off the entry `own` of the root, with a well-formed tree of tables, `lookup` changes
-- nothing. It returns the address that the entry of `va` holds, with a pointer to the entry, if the
-- entry is valid and open to user code; otherwise it returns 0.
pub lookup-translate :
    {own : ℕ} (k : Machine) (root va : ℕ) (place : Place) (xs : List ℕ)
    → va < maxva
    → Ordinary own va
    → IsTable own k.mem root place xs
    → (slot : Option ℕ) × (lookup root va k ≡ ok (translate (pte_at k root va), slot) k)
      × Points k (pte_at k root va) slot
unfolding lookup
lookup-translate k root va place xs low o t = by_walk (walk-Walks k root va low)
  where
    by_walk :
        Walks k 2 root va (walk root va false k)
        → (slot : Option ℕ) × (lookup root va k ≡ ok (translate (pte_at k root va), slot) k)
          × Points k (pte_at k root va) slot
    by_walk (miss e z) = (none, rw (e, z, flag-zero), rw (z, flag-zero))
    by_walk (hit s e f) =
        let v : ℕ = load64 k.mem s in
        let value : pte_at k root va ≡ v = pte_of-Finds k.mem 2 root va s f in
        let ne = ne→== s 0 (Finds-ne-zero k va s t o f) in
        elim (Bool-cases (flag v pte_v)) [
          | inr bad ↦ (none, rw (e, ne, value, bad), rw (value, bad))
          | inl good ↦ elim (Bool-cases (flag v pte_u)) [
            | inr kernel ↦ (none, rw (e, ne, value, good, kernel), rw (value, good, kernel))
            | inl user ↦
                (some s, rw (e, ne, value, good, user), rw (value, good, user) (refl, refl))
          ]
        ]

pub translate-leaf :
    (pa perm : ℕ)
    → perm < 1024
    → pa < 2 ^ 56
    → perm / 16 % 2 ≡ 1
    → translate (leaf pa perm) ≡ pa / 4096 * 4096
translate-leaf pa perm small range user =
    let v : ℕ = leaf pa perm in
    let valid : flag v pte_v ≡ true = flag-valid v ∙ ground arith in
    let open' : flag v pte_u ≡ true = flag-user v ∙ ground arith in
    rw (valid, open') (pte2pa_lem (pa / 4096) (perm / 2 * 2 + 1) (omega arith) (omega arith))

-- Under the conditions on which `mappages` succeeds (a range that is not empty and ends below
-- MAXVA, physical pages below 2^56, well-formed tables and free list, two free pages for each page
-- of the range, no page of it mapped or in the entry `own` of the root), and with a permission for
-- user code: after `mappages`, `lookup` of an address in the range returns its physical page.
pub lookup-mappages :
    {own : ℕ} (root va size pa perm a : ℕ) (k : Machine) (place : Place) (xs : List ℕ)
    → 0 < size
    → va + size ≤ maxva
    → perm < 1024
    → perm / 16 % 2 ≡ 1
    → pa + pages_met va size * 4096 ≤ 2 ^ 56
    → IsTable own k.mem root place xs
    → HasFree k xs
    → 2 * pages_met va size ≤ length xs
    → Unmapped own root (va / 4096) (pages_met va size) k
    → va ≤ a
    → a < va + size
    → (k' : Machine) × (slot : Option ℕ) × ((mappages root va size pa perm >>= λ r. lookup root a) k
        ≡ ok ((pa / 4096 + (a / 4096 - va / 4096)) * 4096, slot) k')
lookup-mappages root va size pa perm a k place xs some_size low small user range t c enough clear lo
      hi =
    let m =
      mappages-Maps root va size pa perm k place xs some_size low small range t c enough clear in
    let (ord, _) = clear a (omega arith) (omega arith) (omega arith) in
    let (slot, e, p) = lookup-translate m.after root a m.places m.rest (omega arith) ord m.table in
    let inside : (leb (va / 4096) (a / 4096) && ltb (a / 4096) (va / 4096 + pages_met va size))
        ≡ true =
      ground arith in
    let page = translate-leaf (pa + (a / 4096 - va / 4096) * 4096) perm small (omega arith) user in
    let value : pte_at m.after root a ≡ leaf (pa + (a / 4096 - va / 4096) * 4096) perm =
      m.entries a (omega arith) ord ∙ rw inside in
    (
      m.after,
      slot,
      rw m.runs
          (e ∙ ap (λ (v : ℕ). ok (v, slot) m.after) (ap translate value ∙ page ∙ omega arith)),
    )
