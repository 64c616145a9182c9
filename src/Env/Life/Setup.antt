-- ===== src/Env/Life/Setup.antt =====
-- `env_setup_vm` of kern/env.c: the address space of a new environment.
use riscv_mos.Base.{
  ℕ, ◌+◌, ◌*◌, ◌/◌, ◌-◌, ◌^◌, ◌≤◌, ◌<◌, ◌≡◌, ◌≢◌, refl, sym, ap, ◌∙◌, false, ◌==◌, ◌&&◌, bit_or,
  leb, if◌then◌else◌, arith, ne→==, List, ◌∷◌, length, none, some, ℤ, pos, inl,
}
use riscv_mos.Mem.{Mem, load64, store64}
use riscv_mos.Mem.Laws.{load-store, store-outside}
use riscv_mos.Kernel.{Machine, Outcome, ok, page_size, maxva, uvpt, kernend}
use riscv_mos.Page.Chain.{IsZeroed, HasFree, Chain-SameOff}
use riscv_mos.Vm.Pte.{vpn, flag, flag-valid, pte_v, pte_r, pte_u, pa2pte}
use riscv_mos.Vm.Map.Page.{Unmapped}
use riscv_mos.Vm.Tables.{Place, IsTable, Ordinary, no_own, no_own-Ordinary, vpn-lt, pte_of-zeroed}
use riscv_mos.Vm.Entries.{pte_at}
use riscv_mos.Vm.Spared.{image_same, IsTable-ext, pte_of-ext, slot-SamePage, placed-apart}
use riscv_mos.Vm.NewPage.{taken-IsTable, taken-pte_at}
use riscv_mos.Vm.Own.{IsTable-own, pte_of-own, own_value}
use riscv_mos.Vm.Create.{uvmcreate-state, only_root, only_root-IsTable}
use riscv_mos.Vm.Share.{
  kernel_same, kernel-IsTable, kernel_page, Regions, shared, kvm_copy_to_user_pagetable-Shares,
}
use riscv_mos.Env.{Os, update_env}
use riscv_mos.Env.Life.{env_setup_vm}

-- The number of the root entry that maps the tables themselves.
abbrev pub self : ℕ
self = vpn 2 uvpt

-- The entry of an address in a new address space: that of the kernel from 0x80000000 on, where it has one.
abbrev pub inherited : (kernel page : ℕ) → ℕ
inherited kernel page = if leb kernel_page page && flag kernel pte_v then kernel else 0

-- `s` after the page table of environment `e` has become `p`, with the machine `k`.
abbrev pub with_table : Os → (e p : ℕ) → Machine → Os
with_table s e p k = record (update_env s e (record (s.envs e) { env_pgtable = p })) { machine = k }

-- The outcome of `env_setup_vm` when `p` is the first free page.
pub record SetUp (e p : ℕ) (s : Os) (kplace : Place) (xs regions : List ℕ) (r : Outcome Os ℤ)
    : Type 0 where
  pub after : Machine
  pub places : Place
  pub rest : List ℕ
  pub runs : r ≡ ok (pos 0) (with_table s e p after)
  pub table : IsTable self after.mem p places rest
  pub free : HasFree after rest
  pub entries :
      (a : ℕ)
      → a < maxva
      → Ordinary self a
      → pte_at after p a ≡ inherited (pte_at s.machine s.machine.kernel_pagetable a) (a / 4096)
  pub own : load64 after.mem (p + 8 * self) ≡ p / 4096 * 1024 + 19
  pub kernel : IsTable no_own after.mem s.machine.kernel_pagetable kplace rest
  pub kernel_entries :
      (a : ℕ)
      → pte_at after s.machine.kernel_pagetable a ≡ pte_at s.machine s.machine.kernel_pagetable a
  pub image : (a : ℕ) → a < kernend → after.mem a ≡ s.machine.mem a
  pub uses : length xs ≤ length rest + 2 * length regions
  pub apart : (q l pre : ℕ) → kplace q ≡ some (l, pre) → places q ≡ none
  pub pagetable : after.kernel_pagetable ≡ s.machine.kernel_pagetable
  pub satp : after.satp ≡ s.machine.satp

new_entry :
    (p a : ℕ) (k1 : Machine) {kernel old : ℕ}
    → IsZeroed k1.mem p
    → kernel ≡ old
    → a < maxva
    → shared (maxva / page_size) kernel (pte_at k1 p a) (a / 4096) ≡ inherited old (a / 4096)
new_entry p a k1 z same h = rw (same, pte_of-zeroed k1.mem 2 p a z) (ground arith)

other_page : (p q : ℕ) → q ≢ p → only_root p q ≡ none
other_page p q ne = rw (ne→== q p ne) refl

pub env_setup_vm-SetUp :
    (e p : ℕ) (s : Os) (kplace : Place) (xs regions : List ℕ)
    → IsTable no_own s.machine.mem s.machine.kernel_pagetable kplace (p ∷ xs)
    → HasFree s.machine (p ∷ xs)
    → ((a : ℕ) → a < maxva → pte_at s.machine s.machine.kernel_pagetable a < 2 ^ 54)
    → Regions s.machine s.machine.kernel_pagetable regions
    → 2 * length regions + 2 ≤ length xs
    → SetUp e p s kplace xs regions (env_setup_vm e s)
env_setup_vm-SetUp e p s kplace xs regions tk c range covers room =
    let kroot : ℕ = s.machine.kernel_pagetable in
    let (hd, fr, out, ch) = c in
    let (m, head, e1, c1, z1, off) = uvmcreate-state s.machine p xs c in
    let k1 : Machine = record (s.machine) { mem = m; freelist = head } in
    let tk1 = taken-IsTable kroot p s.machine k1 kplace xs tk fr out off in
    let same1 =
      λ (a : ℕ). taken-pte_at kroot p s.machine k1 kplace xs tk fr out off a (no_own-Ordinary a) in
    let apart1 = λ (q l pre : ℕ) (at : kplace q ≡ some (l, pre)).
      other_page p q (ground (arith, tk.used q l pre at)) in
    let range1 : (a : ℕ) → a < maxva → pte_at k1 kroot a < 2 ^ 54 =
      λ a h. rw (same1 a) (range a h) in
    let clear1 : Unmapped no_own p kernel_page (maxva / page_size - kernel_page) k1 =
      λ a h lo hi. (no_own-Ordinary a, rw (pte_of-zeroed m 2 p a z1) (flag-valid 0)) in
    let (k2, places, rest, e2, g, used) =
      kvm_copy_to_user_pagetable-Shares p k1 kplace (only_root p) xs tk1 apart1 range1 clear1
        regions (only_root-IsTable no_own m p xs z1 fr out) c1
        (λ q lo hi valid.
          covers q lo hi (ap (λ (v : ℕ). flag v pte_v) (sym (same1 (q * page_size))) ∙ valid))
        room in
    let fr2 = g.table.frame p 2 0 g.table.root_place in
    let out2 = g.table.used p 2 0 g.table.root_place in
    let w : ℕ = bit_or (bit_or (bit_or (pa2pte p) pte_v) pte_r) pte_u in
    let m3 : Mem = store64 k2.mem (p + 8 * self) w in
    let hi : self < 512 = vpn-lt 2 uvpt in
    let tk2 =
      kernel-IsTable p k1 kplace (only_root p) xs tk1 apart1 range1 clear1 (maxva / page_size) k2
        places rest g in
    let apart2 = λ (q l pre : ℕ) (at : kplace q ≡ some (l, pre)).
      (g.spared.page q (tk1.frame q l pre at).aligned (apart1 q l pre at)
        (tk1.used q l pre at)).0 in
    let same3 = λ (q l pre : ℕ) (at : kplace q ≡ some (l, pre)).
      slot-SamePage k2.mem p q self w fr.aligned (tk1.frame q l pre at).aligned hi
        (placed-apart places p q 2 0 g.table.root_place (apart2 q l pre at)) in
    let nonnull : (p == 0) ≡ false = ground (arith, fr.low) in
    let small : p < 2 ^ 56 = omega (arith, fr.high) in
    record {
      after = record k2 { mem = m3 };
      places = places;
      rest = rest;
      runs = rw (e1, nonnull, e2) refl;
      table = IsTable-own g.table self w hi;
      free =
          Chain-SameOff k2.mem m3 k2.freelist p rest fr out2
            (λ a h. store-outside 8 k2.mem (p + 8 * self) w a (ground arith)) g.free;
      entries = λ a h o.
          pte_of-own g.table self w hi 2 p 0 a g.table.root_place o
          ∙ g.entries a h
          ∙ new_entry p a k1 z1 (same1 a) h;
      own =
          load-store 8 k2.mem (p + 8 * self) w (omega (arith, own_value p small))
          ∙ own_value p small;
      kernel = IsTable-ext m3 tk2 same3 rest tk2.used;
      kernel_entries = λ a.
          pte_of-ext m3 tk2 same3 2 kroot 0 a tk2.root_place (no_own-Ordinary a)
          ∙ kernel_same p k1 kplace (only_root p) xs tk1 apart1 range1 clear1 (maxva / page_size) a
              k2 places rest g
          ∙ same1 a;
      image = λ a h.
          store-outside 8 k2.mem (p + 8 * self) w a (inl (omega (arith, fr.low)))
          ∙ image_same k1 k2.mem a (only_root-IsTable no_own m p xs z1 fr out) c1 g.spared h
          ∙ off a (inl (omega (arith, fr.low)));
      uses = used;
      apart = apart2;
      pagetable = g.pagetable;
      satp = g.satp;
    }
