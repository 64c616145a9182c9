-- ===== src/Vm/Pte.antt =====
-- Page table entries: the macros of include/mmu.h, and what they mean in arithmetic.
use riscv_mos.Base.{
  ℕ, ◌+◌, ◌*◌, ◌/◌, ◌%◌, ◌^◌, ◌<◌, ◌≡◌, ◌∙◌, ap, Bool, not, ◌==◌, bit_and, bit_or, u64, arith,
  bit_and-mask, bit_and-bit, bit_or-field, bit_or-one,
}

abbrev pub pte_v : ℕ
pte_v = 2 ^ 0

abbrev pub pte_r : ℕ
pte_r = 2 ^ 1

abbrev pub pte_w : ℕ
pte_w = 2 ^ 2

abbrev pub pte_x : ℕ
pte_x = 2 ^ 3

abbrev pub pte_u : ℕ
pte_u = 2 ^ 4

-- `VPN_L(level, va)`
unfoldable pub vpn : (level va : ℕ) → ℕ
vpn level va = bit_and (va / 2 ^ (12 + 9 * level)) 0x1ff

-- `PA2PTE(pa)`, `PTE2PA(pte)` and `PTE_FLAGS(pte)`
unfoldable pub pa2pte : ℕ → ℕ
pa2pte pa = u64 (pa / 2 ^ 12 * 2 ^ 10)

unfoldable pub pte2pa : ℕ → ℕ
pte2pa pte = u64 (pte / 2 ^ 10 * 2 ^ 12)

unfoldable pub pte_flags : ℕ → ℕ
pte_flags pte = bit_and pte 0x3ff

-- `pte & bit` as a condition
unfoldable pub flag : (pte bit : ℕ) → Bool
flag pte bit = not (bit_and pte bit == 0)

pub vpn-div : (level va : ℕ) → vpn level va ≡ va / 2 ^ (12 + 9 * level) % 512
unfolding vpn
vpn-div level va = bit_and-mask 9 (va / 2 ^ (12 + 9 * level))

pub flag-bit : (k pte : ℕ) → flag pte (2 ^ k) ≡ not (pte / 2 ^ k % 2 * 2 ^ k == 0)
unfolding flag
flag-bit k pte = ap (λ (t : ℕ). not (t == 0)) (bit_and-bit k pte)

pub flag-valid : (pte : ℕ) → flag pte pte_v ≡ (pte % 2 == 1)
flag-valid pte = flag-bit 0 pte ∙ ground arith

pub flag-user : (pte : ℕ) → flag pte pte_u ≡ (pte / 16 % 2 == 1)
flag-user pte = flag-bit 4 pte ∙ ground arith

pub pte_flags-mod : (pte : ℕ) → pte_flags pte ≡ pte % 1024
unfolding pte_flags
pte_flags-mod pte = bit_and-mask 10 pte

-- An entry made by `PA2PTE(pa) | perm | PTE_V`: its address part, and its flags.
pub leaf_value :
    (pa perm : ℕ)
    → perm < 1024
    → pa < 2 ^ 56
    → bit_or (bit_or (pa2pte pa) perm) pte_v ≡ pa / 4096 * 1024 + (perm / 2 * 2 + 1)
unfolding pa2pte
leaf_value pa perm small range =
    let fits : u64 (pa / 2 ^ 12 * 2 ^ 10) ≡ pa / 4096 * 2 ^ 10 = omega arith in
    ap (λ (t : ℕ). bit_or (bit_or t perm) 1) fits
    ∙ ap (λ (t : ℕ). bit_or t 1) (bit_or-field 10 (pa / 4096) perm small)
    ∙ bit_or-one (pa / 4096 * 1024 + perm)
    ∙ omega arith

pub table_value : (pa : ℕ) → pa < 2 ^ 56 → bit_or (pa2pte pa) pte_v ≡ pa / 4096 * 1024 + 1
unfolding pa2pte
table_value pa range =
    let fits : u64 (pa / 2 ^ 12 * 2 ^ 10) ≡ pa / 4096 * 2 ^ 10 = omega arith in
    ap (λ (t : ℕ). bit_or t 1) fits ∙ bit_or-field 10 (pa / 4096) 1 (omega arith)

-- Reading the address part back.
pub pte2pa_lem : (q r : ℕ) → r < 1024 → q < 2 ^ 44 → pte2pa (q * 1024 + r) ≡ q * 4096
unfolding pte2pa
pte2pa_lem q r small range = omega arith
