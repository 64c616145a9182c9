-- ===== src/Vm/Share.antt =====
-- `kvm_copy_to_user_pagetable` of kern/vm.c: the kernel's mappings in the tables of a process.
mod Ranges
pub use Ranges.*
use riscv_mos.Base.{
  ℕ, zero, suc, has, ◌∉◌, ◌+◌, ◌*◌, ◌/◌, ◌%◌, ◌-◌, ◌^◌, ◌≤◌, ◌<◌, ◌≡◌, ◌≢◌, refl, ◌∙◌, ap, sym,
  Bool, true, false, ◌==◌, ◌&&◌, leb, ltb, lt→ltb, le→ltb, if◌then◌else◌, arith, List, [], ◌∷◌,
  length, none, some, pos, inl, inr, Bool-cases, ne→==,
}
use riscv_mos.Mem.{load64}
use riscv_mos.Kernel.{Machine, Outcome, ok, page_size, maxva}
use riscv_mos.Page.Chain.{HasFree}
use riscv_mos.Vm.{walk, mappages}
use riscv_mos.Vm.Pte.{flag, flag-valid, pte_v, pte2pa, pte2pa_lem, pte_flags, pte_flags-mod}
use riscv_mos.Vm.Tables.{Place, IsTable, no_own, no_own-Ordinary, Finds, pte_of-Finds}
use riscv_mos.Vm.Entries.{pte_at, pte_of-page}
use riscv_mos.Vm.Lookup.{Walks, hit, miss, walk-Walks, Finds-ne-zero}
use riscv_mos.Vm.Spared.{Spared, Spared-refl, Spared-trans, IsTable-ext, pte_of-ext}
use riscv_mos.Vm.Map.{pages_met, mappages-Maps}
use riscv_mos.Queue.Shape.{erase}
use riscv_mos.Vm.Map.Page.{Finds-near, leaf, mapped-single, Unmapped}
use riscv_mos.Vm.User.{copy_loop, kvm_copy_to_user_pagetable}

-- Between `k` and `k'` the pages up to `page` have been shared.
pub record Shares (root user page : ℕ) (k : Machine) (place : Place) (xs : List ℕ) (k' : Machine)
    (places : Place) (rest : List ℕ) : Type 0 where
  pub table : IsTable no_own k'.mem user places rest
  pub free : HasFree k' rest
  pub entries :
      (a : ℕ)
      → a < maxva
      → pte_at k' user a ≡ shared page (pte_at k root a) (pte_at k user a) (a / 4096)
  pub spared : Spared place xs k.mem places rest k'.mem
  pub pagetable : k'.kernel_pagetable ≡ k.kernel_pagetable
  pub satp : k'.satp ≡ k.satp

module _ (user : ℕ) (k : Machine) (kplace place : Place) (xs : List ℕ)
    (tk : IsTable no_own k.mem k.kernel_pagetable kplace xs)
    (apart : (q l pre : ℕ) → kplace q ≡ some (l, pre) → place q ≡ none)
    (range : (a : ℕ) → a < maxva → pte_at k k.kernel_pagetable a < 2 ^ 54)
    (clear : Unmapped no_own user kernel_page (maxva / page_size - kernel_page) k) where
  abbrev root : ℕ
  root = k.kernel_pagetable

  abbrev Shared : ℕ → Machine → Place → List ℕ → Type 0
  Shared page k' places rest = Shares root user page k place xs k' places rest

  -- The kernel's entries stay.
  pub kernel_same :
      (page a : ℕ) (k' : Machine) (places : Place) (rest : List ℕ)
      → Shared page k' places rest
      → pte_at k' root a ≡ pte_at k root a
  kernel_same page a k' places rest g =
      pte_of-ext k'.mem tk
        (λ q l pre at.
          let fr = tk.frame q l pre at in
          let (x, y, same) = g.spared.page q fr.aligned (apart q l pre at) (tk.used q l pre at) in
          same)
        2 root 0 a tk.root_place (no_own-Ordinary a)

  -- A page that the kernel does not map.
  share_none :
      (page : ℕ) (k' : Machine) (places : Place) (rest : List ℕ)
      → Shared page k' places rest
      → valid_at k root page ≡ false
      → Shared (page + 1) k' places rest
  share_none page k' places rest g invalid = record {
    table = g.table;
    free = g.free;
    entries = λ a h. g.entries a h ∙ skip a h;
    spared = g.spared;
    pagetable = g.pagetable;
    satp = g.satp;
  }
    where
      skip :
          (a : ℕ)
          → a < maxva
          → shared page (pte_at k root a) (pte_at k user a) (a / 4096)
            ≡ shared (page + 1) (pte_at k root a) (pte_at k user a) (a / 4096)
      skip a h = elim (Bool-cases (a / 4096 == page)) [
        | inl e ↦
            let same : flag (pte_at k root a) pte_v ≡ false =
              ap (λ (v : ℕ). flag v pte_v)
                (pte_of-page k.mem 2 root a (page * page_size) (omega arith) (ground arith))
              ∙ invalid in
            ground (arith, same)
        | inr e ↦ ground arith
      ]

  still_clear :
      (page : ℕ) (k' : Machine) (places : Place) (rest : List ℕ)
      → Shared page k' places rest
      → kernel_page ≤ page
      → Unmapped no_own user page 1 k'
  still_clear page k' places rest g low a h lo hi =
      let (ord, unmapped) = clear a h (omega arith) (omega arith) in
      (ord, ap (λ (v : ℕ). flag v pte_v) (g.entries a h ∙ ground arith) ∙ unmapped)

  one_more :
      (page a : ℕ) (k' : Machine) (places : Place) (rest : List ℕ)
      → Shared page k' places rest
      → kernel_page ≤ page
      → a < maxva
      → valid_at k root page ≡ true
      → (if a / 4096 == page then pte_at k root (page * page_size) else pte_at k' user a)
        ≡ shared (page + 1) (pte_at k root a) (pte_at k user a) (a / 4096)
  one_more page a k' places rest g low h valid = elim (Bool-cases (a / 4096 == page)) [
    | inl e ↦
        let same : pte_at k root a ≡ pte_at k root (page * page_size) =
          pte_of-page k.mem 2 root a (page * page_size) (omega arith) (ground arith) in
        rw same (ground arith)
    | inr e ↦ ground (arith, g.entries a h)
  ]

  -- A page that the kernel maps.
  share_page :
      (page : ℕ) (k' : Machine) (places : Place) (rest : List ℕ)
      → Shared page k' places rest
      → kernel_page ≤ page
      → page * page_size < maxva
      → 2 ≤ length rest
      → valid_at k root page ≡ true
      → let v = pte_at k root (page * page_size) in
        (k'' : Machine) × (places' : Place) × (rest' : List ℕ) × (mappages user
            (page * page_size)
            page_size
            (pte2pa v)
            (pte_flags v)
            k'
          ≡ ok (pos 0) k'')
        × Shared (page + 1) k'' places' rest'
        × (length rest ≤ length rest' + 2)
        × ((s : ℕ) → Finds k'.mem 2 user (page * page_size) s → length rest ≤ length rest')
  share_page page k' places rest g low high room valid =
      let va : ℕ = page * page_size in
      let v : ℕ = pte_at k root va in
      let (same, fits) = leaf-copy v valid (range va high) in
      let one : pages_met va page_size ≡ 1 = omega arith in
      let number : va / 4096 ≡ page = omega arith in
      let r =
        mappages-Maps user va page_size (pte2pa v) (pte_flags v) k' places rest (omega arith)
          (omega arith) (omega (arith, pte_flags-mod v)) (rw one (omega (arith, fits))) g.table
          g.free (rw one room) (rw (one, number) (still_clear page k' places rest g low)) in
      (
        r.after,
        r.places,
        r.rest,
        r.runs,
        record {
          table = r.table;
          free = r.free;
          entries = λ a h.
              r.entries a h (no_own-Ordinary a)
              ∙ mapped-single (va / 4096) _ (pte2pa v) (pte_flags v) (pte_at k' user a) (a / 4096)
                  one
              ∙ rw (number, same) (one_more page a k' places rest g low h valid);
          spared = Spared-trans g.spared r.spared;
          pagetable = r.pagetable ∙ g.pagetable;
          satp = r.satp ∙ g.satp;
        },
        omega (arith, r.uses, one),
        λ s there. r.reuses one s (rw number there),
      )

  -- The kernel's tables are well formed still.
  pub kernel-IsTable :
      (page : ℕ) (k' : Machine) (places : Place) (rest : List ℕ)
      → Shared page k' places rest
      → IsTable no_own k'.mem root kplace rest
  kernel-IsTable page k' places rest g =
      let stays = λ (q l pre : ℕ) (at : kplace q ≡ some (l, pre)).
        g.spared.page q (tk.frame q l pre at).aligned (apart q l pre at) (tk.used q l pre at) in
      IsTable-ext k'.mem tk (λ q l pre at. (stays q l pre at).2) rest
        λ q l pre at. (stays q l pre at).1

  -- The regions that are left after a page: one that the kernel does not map, the first of its region,
  -- and another.
  skip_invalid :
      (page : ℕ) (regions : List ℕ)
      → Behind k root kernel_page page regions
      → valid_at k root page ≡ false
      → Behind k root kernel_page (page + 1) regions
  skip_invalid page regions behind invalid q lo hi valid out =
      let later : page ≤ q = omega arith in
      let (b, x, y, z, v) = behind q later hi valid out in (b, x, omega arith, z, v)

  take_region :
      (page : ℕ) (regions : List ℕ)
      → Behind k root kernel_page page regions
      → kernel_page ≤ page
      → valid_at k root page ≡ true
      → Behind k root kernel_page (page + 1) (erase (page / 512) regions)
  take_region page regions behind low here q lo hi valid out =
      elim (Bool-cases (page / 512 == q / 512)) [
        | inl same ↦ (page, low, omega arith, ground arith, here)
        | inr other ↦
            let out' = has-erase (q / 512) (page / 512) regions out (ground arith) in
            let (b, x, y, z, v) = behind q (omega arith) hi valid out' in (b, x, omega arith, z, v)
      ]

  keep_region :
      (page : ℕ) (regions : List ℕ)
      → Behind k root kernel_page page regions
      → page / 512 ∉ regions
      → Behind k root kernel_page (page + 1) regions
  keep_region page regions behind seen q lo hi valid out =
      let (b, x, y, z, v) = behind q (omega arith) hi valid out in (b, x, omega arith, z, v)

  -- In a region of which a page has been shared, the tables are there.
  table_there :
      (page : ℕ) (k' : Machine) (places : Place) (rest regions : List ℕ)
      → Shared page k' places rest
      → kernel_page ≤ page
      → page * page_size < maxva
      → Behind k root kernel_page page regions
      → valid_at k root page ≡ true
      → page / 512 ∉ regions
      → (s : ℕ) × Finds k'.mem 2 user (page * page_size) s
  table_there page k' places rest regions g low high behind valid seen =
      let (b, x, y, z, v) = behind page (omega arith) (omega arith) valid seen in
      let number : b * page_size / 4096 ≡ b = omega arith in
      let entry_b : pte_at k' user (b * page_size) ≡ pte_at k root (b * page_size) =
        g.entries (b * page_size) (omega arith) ∙ rw number (ground (arith, v)) in
      by_walk b z (ap (λ (w : ℕ). flag w pte_v) entry_b ∙ v)
        (walk-Walks k' user (b * page_size) (omega arith))
    where
      by_walk :
          (b : ℕ)
          → b / 512 ≡ page / 512
          → flag (pte_at k' user (b * page_size)) pte_v ≡ true
          → Walks k' 2 user (b * page_size) (walk user (b * page_size) false k')
          → (s : ℕ) × Finds k'.mem 2 user (page * page_size) s
      by_walk b near set (hit s e found) =
          Finds-near k'.mem user (b * page_size) (page * page_size) s (omega (arith, near)) found
      by_walk b near set (miss e z) =
          let unset = ap (λ (v : ℕ). flag v pte_v) z ∙ flag-valid 0 in
          absurd (ground (arith, sym set ∙ unset))

  -- What a round of the loop does to a list with `length rest` pages.
  abbrev Step : (page f : ℕ) → Machine → (rest regions : List ℕ) → Type 0
  Step page f k' rest regions =
      (k'' : Machine) × (places' : Place) × (rest' left : List ℕ) × (copy_loop (suc f) user
          (page * page_size) k'
        ≡ copy_loop f user ((page + 1) * page_size) k'')
      × Shared (page + 1) k'' places' rest'
      × Behind k root kernel_page (page + 1) left
      × (length rest + 2 * length left ≤ length rest' + 2 * length regions)
      × (length left ≤ length regions)

  copy-Step :
      (page f : ℕ) (k' : Machine) (places : Place) (rest regions : List ℕ)
      → Shared page k' places rest
      → kernel_page ≤ page
      → page * page_size < maxva
      → Behind k root kernel_page page regions
      → 2 ≤ length rest
      → Step page f k' rest regions
  copy-Step page f k' places rest regions g low high behind room =
      by_walk (walk-Walks k' root (page * page_size) high)
    where
      same : pte_at k' root (page * page_size) ≡ pte_at k root (page * page_size)
      same = kernel_same page (page * page_size) k' places rest g

      inside : ltb (page * page_size) maxva ≡ true
      inside = lt→ltb (page * page_size) maxva high

      next : (page * page_size) + page_size ≡ (page + 1) * page_size
      next = omega arith

      by_table :
          {r : Outcome Machine ℕ}
          → walk root (page * page_size) false k' ≡ r
          → walk k'.kernel_pagetable (page * page_size) false k' ≡ r
      by_table e = ap (λ (p : ℕ). walk p (page * page_size) false k') g.pagetable ∙ e

      by_walk :
          Walks k' 2 root (page * page_size) (walk root (page * page_size) false k')
          → Step page f k' rest regions
      by_walk (miss e z) =
          let invalid : valid_at k root page ≡ false =
            ap (λ (v : ℕ). flag v pte_v) (sym same ∙ z) ∙ flag-valid 0 in
          (
            k',
            places,
            rest,
            regions,
            rw (inside, by_table e, next) refl,
            share_none page k' places rest g invalid,
            skip_invalid page regions behind invalid,
            omega arith,
            omega arith,
          )
      by_walk (hit s e found) =
          let t = kernel-IsTable page k' places rest g in
          let word : load64 k'.mem s ≡ pte_at k root (page * page_size) =
            sym (pte_of-Finds k'.mem 2 root (page * page_size) s found) ∙ same in
          let nonnull =
            ne→== s 0 (
              Finds-ne-zero k' (page * page_size) s t (no_own-Ordinary (page * page_size)) found) in
          elim (Bool-cases (valid_at k root page)) [
            | inr invalid ↦ (
              k',
              places,
              rest,
              regions,
              rw (inside, by_table e, nonnull, word, invalid, next) refl,
              share_none page k' places rest g invalid,
              skip_invalid page regions behind invalid,
              omega arith,
              omega arith,
            )
            | inl valid ↦
                let (k'', places', rest', run, g', used, saved) =
                  share_page page k' places rest g low high room valid in
                let here : copy_loop (suc f) user (page * page_size) k'
                    ≡ copy_loop f user ((page + 1) * page_size) k'' =
                  rw (inside, by_table e, nonnull, word, valid, run, next) refl in
                elim (Bool-cases (has (page / 512) regions)) [
                  | inl listed ↦ (
                    k'',
                    places',
                    rest',
                    erase (page / 512) regions,
                    here,
                    g',
                    take_region page regions behind low valid,
                    omega (arith, used, length-erase (page / 512) regions listed),
                    omega (arith, length-erase (page / 512) regions listed),
                  )
                  | inr seen ↦
                      let (s', there) =
                        table_there page k' places rest regions g low high behind valid seen in
                      (
                        k'',
                        places',
                        rest',
                        regions,
                        here,
                        g',
                        keep_region page regions behind seen,
                        omega (arith, saved s' there),
                        omega arith,
                      )
                ]
          ]

  copy_rounds :
      (left page f : ℕ) (k' : Machine) (places : Place) (rest regions : List ℕ)
      → page + left ≡ maxva / page_size
      → left < f
      → kernel_page ≤ page
      → Shared page k' places rest
      → Behind k root kernel_page page regions
      → 2 * length regions + 2 ≤ length rest
      → (k'' : Machine) × (places' : Place) × (rest' : List ℕ) × (copy_loop f user
            (page * page_size)
            k'
          ≡ ok (pos 0) k'')
        × Shared (maxva / page_size) k'' places' rest'
        × (length rest ≤ length rest' + 2 * length regions)
  copy_rounds left page zero k' places rest regions eq fuel low g behind room = absurd (omega arith)
  copy_rounds zero page (suc f) k' places rest regions eq fuel low g behind room =
      let all : page ≡ maxva / page_size = omega arith in
      let done : ltb (page * page_size) maxva ≡ false = le→ltb _ _ (omega arith) in
      (k', places, rest, rw done refl, rw all at g, omega arith)
  copy_rounds (suc left) page (suc f) k' places rest regions eq fuel low g behind room =
      let (k1, places1, rest1, regions1, step, g1, behind1, used, fewer) =
        copy-Step page f k' places rest regions g low (omega arith) behind (omega arith) in
      let (k2, places2, rest2, run, g2, used2) =
        copy_rounds left (page + 1) f k1 places1 rest1 regions1 (omega arith) (omega arith)
          (omega arith) g1 behind1 (omega (arith, used, fewer)) in
      (k2, places2, rest2, step ∙ run, g2, omega (arith, used, used2))

  -- `user` is the root of tables that map nothing from 0x80000000 on, and share no page with those of
  -- the kernel; both are well formed, and so is the free list, and the entries of the kernel fit 54
  -- bits. There are two free pages, and two more for each range of 2 MiB in which the kernel maps a
  -- page from 0x80000000 on. Then `kvm_copy_to_user_pagetable` returns 0, and from 0x80000000 on the
  -- entry of every address that the kernel maps is that of the kernel. The other entries are as before,
  -- as are `kernel_pagetable`, `satp`, and memory outside of the tables of the process and of the free
  -- pages, with the kernel's tables. The tables of the process and the free list are well formed again,
  -- and at most two pages for each of these ranges have been taken.
  pub kvm_copy_to_user_pagetable-Shares :
      (regions : List ℕ)
      → IsTable no_own k.mem user place xs
      → HasFree k xs
      → Regions k root regions
      → 2 * length regions + 2 ≤ length xs
      → (k' : Machine) × (places : Place) × (rest : List ℕ) × (kvm_copy_to_user_pagetable user k
          ≡ ok (pos 0) k')
        × Shared (maxva / page_size) k' places rest
        × (length xs ≤ length rest + 2 * length regions)
  unfolding kvm_copy_to_user_pagetable
  kvm_copy_to_user_pagetable-Shares regions t c covers room =
      copy_rounds (maxva / page_size - kernel_page) kernel_page (maxva / page_size + 1) k place xs
        regions (omega arith) (omega arith) (omega arith)
        (record {
          table = t;
          free = c;
          entries = λ a h. ground arith;
          spared = Spared-refl place xs k.mem;
          pagetable = refl;
          satp = refl;
        })
        (λ q lo hi valid out. absurd (ground (arith, sym (covers q lo hi valid) ∙ out))) room
