-- ===== src/Env/Create/Pages.antt =====
-- `load_icode_mapper` of kern/env.c: one page of a program.
use riscv_mos.Base.{
  ℕ, ◌+◌, ◌%◌, ◌-◌, ◌≤◌, ◌<◌, ◌≡◌, refl, sym, ◌∙◌, inr, false, ◌&&◌, leb, ltb, if◌then◌else◌, arith,
  List, ◌∷◌, length, Option, none, some, ℤ, pos,
}
use riscv_mos.Mem.{Mem}
use riscv_mos.Kernel.{Machine, Outcome, ok, page_size, maxva, kernend}
use riscv_mos.Strings.Copy.Bytes.{Apart, memcpy-bytes}
use riscv_mos.Page.Chain.{IsFrame, HasFree, IsZeroed, SameOff, Chain-SameOff}
use riscv_mos.Page.Alloc.{kalloc-cons}
use riscv_mos.Vm.{mappages}
use riscv_mos.Vm.Pte.{flag, pte_v}
use riscv_mos.Vm.Tables.{Place, IsTable, Ordinary}
use riscv_mos.Vm.Entries.{pte_at}
use riscv_mos.Vm.NewPage.{MapsNew, mappages-MapsNew}
use riscv_mos.Env.{Os}
use riscv_mos.Env.Create.{copy_in, load_icode_mapper}

-- The byte at `i` of a page that got `len` bytes at `offset`, and is zero elsewhere.
abbrev pub page_byte : Mem → Option ℕ → (offset len i : ℕ) → ℕ
page_byte m none offset len i = 0
page_byte m (some src) offset len i =
    if leb offset i && ltb i (offset + len) then m (src + (i - offset)) % 256 else 0

-- The bytes that are copied lie below the pages of the heap.
abbrev pub Below : Option ℕ → (len : ℕ) → Type 0
Below none len = Unit {0}
Below (some src) len = src + len ≤ kernend

-- The page `p` of `n` is filled.
abbrev pub Filled : (p : ℕ) → Mem → Option ℕ → (offset len : ℕ) → Mem → Type 0
Filled p m source offset len n =
    (i : ℕ) → i < page_size → n (p + i) ≡ page_byte m source offset len i

copy_in-Filled :
    (p offset len : ℕ) (source : Option ℕ) (m : Mem) (s : Os)
    → IsFrame p
    → SameOff p m s.machine.mem
    → IsZeroed s.machine.mem p
    → Below source len
    → offset + len ≤ page_size
    → let n = (copy_in (p + offset) source len s).machine.mem in
      SameOff p m n × Filled p m source offset len n
copy_in-Filled p offset len none m s fr off z below fits =
    (off, λ i hi. z (p + i) (omega arith) (omega arith))
copy_in-Filled p offset len (some src) m s fr off z below fits =
    let apart : Apart (p + offset) src len = inr (omega (arith, fr.low)) in
    (
      λ a outside.
          (memcpy-bytes (p + offset) src len a s.machine.mem apart).1
          ∙ ground (arith, off a outside),
      λ i hi.
          let same : p + i - (p + offset) ≡ i - offset = omega arith in
          (memcpy-bytes (p + offset) src len (p + i) s.machine.mem apart).1
          ∙ rw same (
              ground
                (arith, z (p + i) (omega arith) (omega arith), off (src + (i - offset)), fr.low)),
    )

-- Only the memory differs.
copy_in-memory :
    (dst : ℕ) (source : Option ℕ) (len : ℕ) (s : Os)
    → copy_in dst source len s
      ≡ record s { machine = record (s.machine) { mem = (copy_in dst source len s).machine.mem } }
copy_in-memory dst none len s = refl
copy_in-memory dst (some src) len s = refl

-- The outcome of the callback for environment `e`, when `p` is the first free page.
pub record PageLoaded (own e va offset perm : ℕ) (source : Option ℕ) (len : ℕ) (s : Os)
    (place : Place) (p : ℕ) (xs : List ℕ) (r : Outcome Os ℤ) : Type 0 where
  pub bytes : Mem
  pub filled : Filled p s.machine.mem source offset len bytes
  pub maps : Outcome Machine ℤ
  pub new : MapsNew own (s.envs e).env_pgtable va p perm s.machine bytes place xs maps
  pub runs : r ≡ ok (pos 0) (record s { machine = new.after })

pub load_icode_mapper-PageLoaded :
    {own : ℕ} (e va offset perm : ℕ) (source : Option ℕ) (len : ℕ) (s : Os) (place : Place) (p : ℕ)
    (xs : List ℕ)
    → va % page_size ≡ 0
    → va + page_size ≤ maxva
    → Ordinary own va
    → offset + len ≤ page_size
    → perm < 1024
    → Below source len
    → IsTable own s.machine.mem (s.envs e).env_pgtable place (p ∷ xs)
    → HasFree s.machine (p ∷ xs)
    → 2 ≤ length xs
    → flag (pte_at s.machine (s.envs e).env_pgtable va) pte_v ≡ false
    → PageLoaded own e va offset perm source len s place p xs
        (load_icode_mapper e va offset perm source len s)
load_icode_mapper-PageLoaded e va offset perm source len s place p xs al low ord fits small below t
      c enough clear =
    let (hd, fr, out, ch) = c in
    let (k1, e1, c1, z1, o1) = kalloc-cons s.machine p xs c in
    let s1 : Os = record s { machine = k1 } in
    let n : Mem = (copy_in (p + offset) source len s1).machine.mem in
    let k2 : Machine = record k1 { mem = n } in
    let (off, filled) =
      copy_in-Filled p offset len source s.machine.mem s1 fr o1.off z1 below fits in
    let c2 : HasFree k2 xs =
      Chain-SameOff k1.mem n k1.freelist p xs fr out (λ a h. off a h ∙ sym (o1.off a h)) c1 in
    let new =
      mappages-MapsNew (s.envs e).env_pgtable p s.machine k2 place xs t fr out off va perm al low
        ord small c2 enough clear o1.pagetable o1.satp in
    record {
      bytes = n;
      filled = filled;
      maps = mappages (s.envs e).env_pgtable va page_size p perm k2;
      new = new;
      runs = rw (e1, copy_in-memory (p + offset) source len s1, new.runs) refl;
    }
