-- ===== src/Base/Word.antt =====
-- The C integer types of include/types.h as numbers with their wrap-around, and its macros.
use Prim.Native.Nat.{ℕ, ◌+◌, ◌-◌, ◌*◌, ◌/◌, ◌%◌, ◌^◌, ◌≤◌, ◌<◌, bit_and}
use mathlib.Core.Path.{◌≡◌, ap, ◌∙◌}
use mathlib.Core.Logic.{◌⊎◌, inl, inr}
use native.Mathlib.Omega.{arith}
use riscv_mos.Base.Tests.{leb, if◌then◌else◌, Bool-cases}
use riscv_mos.Base.Bits.{bit_and-shift, bit_and-mask}
use native.Mathlib.Nat.{mod-eq_of_lt}

abbrev pub u8 : ℕ → ℕ
u8 n = n % 2 ^ 8

abbrev pub u32 : ℕ → ℕ
u32 n = n % 2 ^ 32

abbrev pub u64 : ℕ → ℕ
u64 n = n % 2 ^ 64

-- `~x` of a 64-bit word.
abbrev pub not64 : ℕ → ℕ
not64 x = 2 ^ 64 - 1 - x

-- `MIN(_a, _b)`
pub min_of : ℕ → ℕ → ℕ
min_of a b = if leb a b then a else b

-- `ROUND(a, n)`
pub round : ℕ → ℕ → ℕ
round a n = bit_and (u64 (a + n - 1)) (not64 (n - 1))

-- `ROUNDDOWN(a, n)`
pub rounddown : ℕ → ℕ → ℕ
rounddown a n = bit_and a (not64 (n - 1))

-- Rounding to pages is division.
page_mask : (a : ℕ) → a < 2 ^ 64 → bit_and a (2 ^ 64 - 4096) ≡ a / 4096 * 4096
page_mask a h =
    bit_and-shift 12 a (2 ^ 52 - 1)
    ∙ ap (λ (t : ℕ). t * 4096) (bit_and-mask 52 (a / 4096) ∙ mod-eq_of_lt (omega arith))

pub rounddown-page : (a : ℕ) → a < 2 ^ 64 → rounddown a 4096 ≡ a / 4096 * 4096
unfolding rounddown
rounddown-page a h = page_mask a h

pub round-page : (a : ℕ) → a + 4095 < 2 ^ 64 → round a 4096 ≡ (a + 4095) / 4096 * 4096
unfolding round
round-page a h =
    let same : u64 (a + 4096 - 1) ≡ a + 4095 = omega arith in
    ap (λ (t : ℕ). bit_and t (2 ^ 64 - 4096)) same ∙ page_mask (a + 4095) h

pub min_of-le : (a b : ℕ) → (min_of a b ≤ a) × (min_of a b ≤ b)
unfolding min_of
min_of-le a b = ground arith

pub min_of-cases : (a b : ℕ) → ((a ≤ b) × (min_of a b ≡ a)) ⊎ ((b ≤ a) × (min_of a b ≡ b))
unfolding min_of
min_of-cases a b = elim (Bool-cases (leb a b)) [
  | inl e ↦ inl (ground arith, rw e)
  | inr e ↦ inr (ground arith, rw e)
]
