-- ===== src/Vm/Map/Page.antt =====
-- One round of the loop of `mappages` of kern/vm.c, and what a run of the loop leaves.
use riscv_mos.Base.{
  ℕ, suc, ◌+◌, ◌-◌, ◌*◌, ◌/◌, ◌^◌, ◌≤◌, ◌<◌, ◌≡◌, ◌≢◌, refl, ◌∙◌, ap, sym, true, false, ◌&&◌, ◌==◌,
  arith, leb, ltb, if◌then◌else◌, List, length, inl, inr, Bool-cases, eq→==, ne→==, u64, ℤ, pos,
}
use riscv_mos.Mem.{Mem, load64, store64}
use riscv_mos.Kernel.{Machine, Outcome, ok, panic, page_size, maxva}
use riscv_mos.Page.Chain.{HasFree}
use riscv_mos.Vm.{entry, walk, map_loop}
use riscv_mos.Vm.Pte.{vpn, vpn-div, flag, pte_v, pte2pa, leaf_value}
use riscv_mos.Vm.Tables.{Place, IsTable, Ordinary, Finds, pte_of-Finds}
use riscv_mos.Vm.Entries.{pte_at, IsTable-write, pte_of-write, Chain-write, Spared-write}
use riscv_mos.Vm.Spared.{Spared, Spared-trans}
use riscv_mos.Vm.Walk.{Walked, walk-Walked}

-- `PA2PTE(pa) | perm | PTE_V`
abbrev pub leaf : (pa perm : ℕ) → ℕ
leaf pa perm = pa / 4096 * 1024 + (perm / 2 * 2 + 1)

-- The entry of page number `a` after `n` pages from page number `first` have been mapped to the
-- physical pages from `pa`.
abbrev pub mapped : (first n pa perm old a : ℕ) → ℕ
mapped first n pa perm old a =
    if leb first a && ltb a (first + n) then leaf (pa + (a - first) * 4096) perm else old

-- A run of `mappages` that succeeds.
pub record Maps (own root first n pa perm : ℕ) (k : Machine) (place : Place) (xs : List ℕ)
    (r : Outcome Machine ℤ) : Type 0 where
  pub after : Machine
  pub places : Place
  pub rest : List ℕ
  pub runs : r ≡ ok (pos 0) after
  pub table : IsTable own after.mem root places rest
  pub free : HasFree after rest
  pub uses : length xs ≤ length rest + 2 * n
  pub reuses : n ≡ 1 → (s : ℕ) → Finds k.mem 2 root (first * 4096) s → length xs ≤ length rest
  pub entries :
      (a : ℕ)
      → a < maxva
      → Ordinary own a
      → pte_at after root a ≡ mapped first n pa perm (pte_at k root a) (a / 4096)
  pub spared : Spared place xs k.mem places rest after.mem
  pub pagetable : after.kernel_pagetable ≡ k.kernel_pagetable
  pub satp : after.satp ≡ k.satp

-- The addresses of `n` pages can be mapped: none of them is, and none belongs to the entry `own`.
abbrev pub Unmapped : (own root first n : ℕ) → Machine → Type 0
Unmapped own root first n k =
    (a : ℕ)
    → a < maxva
    → first ≤ a / 4096
    → a / 4096 < first + n
    → Ordinary own a × (flag (pte_at k root a) pte_v ≡ false)

-- The tables for an address serve all addresses of the same 2 MiB.
pub Finds-near :
    (m : Mem) (p a b s : ℕ)
    → a / 2 ^ 21 ≡ b / 2 ^ 21
    → Finds m 2 p a s
    → (s' : ℕ) × Finds m 2 p b s'
Finds-near m p a b s near (set, (set', here)) =
    let top : vpn 2 a ≡ vpn 2 b = omega (arith, near, vpn-div 2 a, vpn-div 2 b) in
    let mid : vpn 1 a ≡ vpn 1 b = omega (arith, near, vpn-div 1 a, vpn-div 1 b) in
    let q : ℕ = pte2pa (load64 m (entry p 2 a)) in
    let r : ℕ = pte2pa (load64 m (entry q 1 a)) in
    (entry r 0 b, rw (sym top, sym mid) (set, (set', refl)))

mapped-suc :
    (first n pa perm old a : ℕ)
    → mapped (first + 1) n (pa + 4096) perm (if a == first then leaf pa perm else old) a
      ≡ mapped first (suc n) pa perm old a
mapped-suc first n pa perm old a = ground arith

mapped-one :
    (first pa perm old a : ℕ)
    → (if a == first then leaf pa perm else old) ≡ mapped first 1 pa perm old a
mapped-one first pa perm old a = ground arith

pub mapped-single :
    (first n pa perm old a : ℕ)
    → n ≡ 1
    → mapped first n pa perm old a ≡ (if a == first then leaf pa perm else old)
mapped-single first n pa perm old a one = rw one (sym (mapped-one first pa perm old a))

-- One page: the state after the walk and the write of the leaf.
module _ {own : ℕ} (root va pa perm : ℕ) (ord : Ordinary own va) (k : Machine) (place : Place)
    (xs : List ℕ) (low : va < maxva) (small : perm < 1024) (range : pa < 2 ^ 56)
    (t : IsTable own k.mem root place xs) (c : HasFree k xs) (enough : 2 ≤ length xs) where
  abbrev pub walked : Walked own root 2 root va k place xs (walk root va true k)
  walked = walk-Walked root va ord k place xs low t c

  walked-ne-zero : walked.slot ≢ 0
  walked-ne-zero e = omega (arith, walked.exhausted e)

  abbrev pub leaf_state : Machine
  leaf_state = record (walked.after) { mem = store64 walked.after.mem walked.slot (leaf pa perm) }

  pub leaf_state-IsTable : IsTable own leaf_state.mem root walked.places walked.rest
  leaf_state-IsTable =
      IsTable-write walked.table va walked.slot (leaf pa perm) ord (walked.found walked-ne-zero)

  pub leaf_state-HasFree : HasFree leaf_state walked.rest
  leaf_state-HasFree =
      Chain-write walked.table va walked.slot (leaf pa perm) ord (walked.found walked-ne-zero)
        walked.after.freelist walked.free

  leaf_state-Spared : Spared place xs k.mem walked.places walked.rest leaf_state.mem
  leaf_state-Spared =
      Spared-trans walked.spared
        (Spared-write walked.table va walked.slot (leaf pa perm) ord (walked.found walked-ne-zero))

  leaf_state-entries :
      (a : ℕ)
      → a < maxva
      → Ordinary own a
      → pte_at leaf_state root a ≡ (if a / 4096 == va / 4096 then leaf pa perm else pte_at k root a)
  leaf_state-entries a ha oa =
      pte_of-write walked.table va walked.slot (leaf pa perm) ord (walked.found walked-ne-zero) a
        (omega arith) low ha oa
      ∙ ap (λ (old : ℕ). if a / 4096 == va / 4096 then leaf pa perm else old)
          (walked.kept 2 root 0 a t.root_place oa)

  -- No page is taken where the tables for the page are there.
  there_is : (s : ℕ) → Finds k.mem 2 root (va / 4096 * 4096) s → length xs ≤ length walked.rest
  there_is s there =
      let (s', here) = Finds-near k.mem root (va / 4096 * 4096) va s (omega arith) there in
      walked.reuses s' here

  -- The word that `mappages` tests before it writes.
  slot_word : load64 walked.after.mem walked.slot ≡ pte_at k root va
  slot_word =
      sym (pte_of-Finds walked.after.mem 2 root va walked.slot (walked.found walked-ne-zero))
      ∙ walked.kept 2 root 0 va t.root_place ord

  map_loop-step :
      (f last : ℕ)
      → flag (pte_at k root va) pte_v ≡ false
      → map_loop (suc f) root va last pa perm k ≡ (
          if va == last
          then ok (pos 0) leaf_state
          else map_loop f root (u64 (va + page_size)) last (u64 (pa + page_size)) perm leaf_state)
  unfolding map_loop
  map_loop-step f last clear =
      rw
        (
          walked.runs,
          ne→== walked.slot 0 walked-ne-zero,
          slot_word,
          clear,
          leaf_value pa perm small range,
        )
        (elim (Bool-cases (va == last)) [ inl e ↦ rw e | inr e ↦ rw e ])

  -- A page that is mapped already makes `mappages` panic.
  map_loop-remap :
      (f last : ℕ)
      → flag (pte_at k root va) pte_v ≡ true
      → map_loop (suc f) root va last pa perm k ≡ panic "mappages: remap; use 'uvmunmap' first"
  unfolding map_loop
  map_loop-remap f last set = rw (walked.runs, ne→== walked.slot 0 walked-ne-zero, slot_word, set)

  -- The last page of a range.
  pub Maps-last :
      (f last : ℕ)
      → flag (pte_at k root va) pte_v ≡ false
      → va ≡ last
      → Maps own root (va / 4096) 1 pa perm k place xs (map_loop (suc f) root va last pa perm k)
  Maps-last f last clear e =
      rw (map_loop-step f last clear, eq→== va last e)
        (record {
          after = leaf_state;
          places = walked.places;
          rest = walked.rest;
          runs = refl;
          table = leaf_state-IsTable;
          free = leaf_state-HasFree;
          uses = omega (arith, walked.uses);
          reuses = λ one s there. there_is s there;
          entries = λ a ha oa.
              leaf_state-entries a ha oa
              ∙ mapped-one (va / 4096) pa perm (pte_at k root a) (a / 4096);
          spared = leaf_state-Spared;
          pagetable = walked.pagetable;
          satp = walked.satp;
        })

  -- One page in front of a range.
  pub Maps-more :
      (n f last : ℕ)
      → flag (pte_at k root va) pte_v ≡ false
      → va ≢ last
      → Maps own root
          ((va + 4096) / 4096)
          n
          (pa + 4096)
          perm
          leaf_state
          walked.places
          walked.rest
          (map_loop f root (va + 4096) last (pa + 4096) perm leaf_state)
      → Maps own root
          (va / 4096)
          (suc n)
          pa
          perm
          k
          place
          xs
          (map_loop (suc f) root va last pa perm k)
  Maps-more n f last clear ne r =
      let next_va : u64 (va + page_size) ≡ va + 4096 = omega arith in
      let next_pa : u64 (pa + page_size) ≡ pa + 4096 = omega arith in
      let next_page : (va + 4096) / 4096 ≡ va / 4096 + 1 = omega arith in
      rw (map_loop-step f last clear, ne→== va last ne, next_va, next_pa)
        (record {
          after = r.after;
          places = r.places;
          rest = r.rest;
          runs = r.runs;
          table = r.table;
          free = r.free;
          uses = omega (arith, walked.uses, r.uses);
          reuses = λ one s there. omega (arith, there_is s there, r.uses, one);
          entries = λ a ha oa.
              r.entries a ha oa
              ∙ ap (λ (old : ℕ). mapped ((va + 4096) / 4096) n (pa + 4096) perm old (a / 4096))
                  (leaf_state-entries a ha oa)
              ∙ ap
                  (λ (first : ℕ).
                    mapped first n (pa + 4096) perm
                      (if a / 4096 == va / 4096 then leaf pa perm else pte_at k root a) (a / 4096))
                  next_page
              ∙ mapped-suc (va / 4096) n pa perm (pte_at k root a) (a / 4096);
          spared = Spared-trans leaf_state-Spared r.spared;
          pagetable = r.pagetable ∙ walked.pagetable;
          satp = r.satp ∙ walked.satp;
        })

  -- The pages behind the first one are still unmapped.
  pub leaf_state-Unmapped :
      (n : ℕ)
      → Unmapped own root (va / 4096) (suc n) k
      → Unmapped own root ((va + 4096) / 4096) n leaf_state
  leaf_state-Unmapped n clear a ha lo hi =
      let (oa, flag_clear) = clear a ha (omega arith) (omega arith) in
      (oa, rw (leaf_state-entries a ha oa, ne→== (a / 4096) (va / 4096) (omega arith)) flag_clear)
