-- ===== src/Vm/Share/Ranges.antt =====
-- The pages that `kvm_copy_to_user_pagetable` of kern/vm.c copies, and the tables that they need.
use riscv_mos.Base.{
  ℕ, suc, has, ◌∉◌, ◌+◌, ◌*◌, ◌/◌, ◌%◌, ◌^◌, ◌≤◌, ◌<◌, ◌≡◌, ◌≢◌, refl, ◌∙◌, ap, Bool, true, ◌==◌,
  ◌&&◌, leb, ltb, if◌then◌else◌, arith, List, [], ◌∷◌, length, inl, inr, Bool-cases,
}
use riscv_mos.Kernel.{Machine, page_size, maxva}
use riscv_mos.Vm.Pte.{flag, flag-valid, pte_v, pte2pa, pte2pa_lem, pte_flags, pte_flags-mod}
use riscv_mos.Vm.Entries.{pte_at}
use riscv_mos.Queue.Shape.{erase}
use riscv_mos.Vm.Map.Page.{leaf}

-- Whether the page number is mapped.
abbrev pub valid_at : Machine → (root page : ℕ) → Bool
valid_at k root page = flag (pte_at k root (page * page_size)) pte_v

-- `regions` has the number of every range of 2 MiB in which a page from number `page` on is mapped,
-- but those of which a page before `page` is.
abbrev pub Behind : Machine → (root first page : ℕ) (regions : List ℕ) → Type 0
Behind k root first page regions =
    (q : ℕ)
    → page ≤ q
    → q < maxva / page_size
    → valid_at k root q ≡ true
    → q / 512 ∉ regions
    → (b : ℕ) × (first ≤ b) × (b < page) × (b / 512 ≡ q / 512) × (valid_at k root b ≡ true)

-- An entry that is copied is the same entry.
pub leaf-copy :
    (v : ℕ)
    → flag v pte_v ≡ true
    → v < 2 ^ 54
    → (leaf (pte2pa v) (pte_flags v) ≡ v) × (pte2pa v + page_size ≤ 2 ^ 56)
leaf-copy v valid range =
    let address : pte2pa v ≡ v / 1024 * 4096 =
      ap pte2pa (omega arith) ∙ pte2pa_lem (v / 1024) (v % 1024) (omega arith) (omega arith) in
    let flags = pte_flags-mod v in
    let odd : v % 2 ≡ 1 = ground (arith, flag-valid v) in omega (arith, address, flags, odd)

pub length-erase : (x : ℕ) (xs : List ℕ) → has x xs ≡ true → suc (length (erase x xs)) ≡ length xs
length-erase x [] h = absurd (ground arith)
length-erase x (y ∷ ys) h = elim (Bool-cases (x == y)) [
  | inl same ↦ ground arith
  | inr other ↦ let rest = length-erase x ys (ground arith) in ground (arith, rest)
]

pub has-erase : (x a : ℕ) (xs : List ℕ) → x ∉ erase a xs → x ≢ a → x ∉ xs
has-erase x a [] h ne = refl
has-erase x a (y ∷ ys) h ne = ground (arith, has-erase x a ys)

-- The first page that is shared, 0x80000000.
abbrev pub kernel_page : ℕ
kernel_page = 0x80000

-- `regions` has the number of every range of 2 MiB in which a page from 0x80000000 on is mapped.
abbrev pub Regions : Machine → (root : ℕ) (regions : List ℕ) → Type 0
Regions k root regions =
    (q : ℕ)
    → kernel_page ≤ q
    → q < maxva / page_size
    → valid_at k root q ≡ true
    → has (q / 512) regions ≡ true

-- The entry of page number `a` in the tables of the process after the pages from `kernel_page` to
-- `page` have been shared.
abbrev pub shared : (page kernel old a : ℕ) → ℕ
shared page kernel old a =
    if leb kernel_page a && ltb a page && flag kernel pte_v then kernel else old
