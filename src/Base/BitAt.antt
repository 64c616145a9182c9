-- ===== src/Base/BitAt.antt =====
-- Single bits of a word: what `|` with one bit and `&` with its complement do to them.
use Prim.Native.Nat.{ℕ, zero, suc, ◌+◌, ◌-◌, ◌*◌, ◌/◌, ◌%◌, ◌^◌, ◌≤◌, ◌<◌, bit_and, bit_or}
use mathlib.Core.Path.{◌≡◌, sym, ap, ◌∙◌}
use native.Mathlib.Nat.{one-le-pow, div-div-eq-div-mul}
use native.Mathlib.Omega.{arith}
use riscv_mos.Base.Tests.{◌==◌, if◌then◌else◌, ne→==}
use riscv_mos.Base.Bits.{
  bit_or_digit, bit_and_digit, bit_or-one, bit_and-mask, mod-two-mul, two-pow-suc,
}

-- Bit `k` of a word.
abbrev pub bit_at : ℕ → ℕ → ℕ
bit_at w k = w / 2 ^ k % 2

pub bit_at-suc : (w k : ℕ) → bit_at w (suc k) ≡ bit_at (w / 2) k
bit_at-suc w k =
    ap (λ (t : ℕ). t % 2)
      (ap (λ (t : ℕ). w / t) (two-pow-suc k) ∙ sym (div-div-eq-div-mul w 2 (2 ^ k)))

-- Past the lowest digit, two words with the same upper half have the same bits.
bit_at-half : (v w k : ℕ) → v / 2 ≡ w → bit_at v (suc k) ≡ bit_at w k
bit_at-half v w k e = bit_at-suc v k ∙ ap (λ (t : ℕ). bit_at t k) e

bit_or-pow-suc : (w k : ℕ) → bit_or w (2 ^ suc k) ≡ 2 * bit_or (w / 2) (2 ^ k) + w % 2
bit_or-pow-suc w k =
    let half : 2 ^ suc k / 2 ≡ 2 ^ k = omega (arith, two-pow-suc k) in
    omega (arith, two-pow-suc k, bit_or_digit w (2 ^ suc k), ap (λ (t : ℕ). bit_or (w / 2) t) half)

-- Setting bit `k` sets that bit and no other.
pub bit_at-set : (k j w : ℕ) → bit_at (bit_or w (2 ^ k)) j ≡ (if j == k then 1 else bit_at w j)
bit_at-set zero zero w = omega (arith, bit_or-one w)
bit_at-set zero (suc j) w =
    rw (ne→== (suc j) 0 (omega arith))
      (bit_at-half (bit_or w 1) (w / 2) j (omega (arith, bit_or-one w)) ∙ sym (bit_at-suc w j))
bit_at-set (suc k) zero w = rw (ne→== 0 (suc k) (omega arith)) (omega (arith, bit_or-pow-suc w k))
bit_at-set (suc k) (suc j) w =
    bit_at-half (bit_or w (2 ^ suc k)) (bit_or (w / 2) (2 ^ k)) j
      (omega (arith, bit_or-pow-suc w k))
    ∙ bit_at-set k j (w / 2)
    ∙ ground (arith, bit_at-suc w j)

bit_at-mod : (n j w : ℕ) → j < n → bit_at (w % 2 ^ n) j ≡ bit_at w j
bit_at-mod zero j w h = absurd (omega arith)
bit_at-mod (suc n) zero w h =
    let e : w % 2 ^ suc n ≡ 2 * (w / 2 % 2 ^ n) + w % 2 =
      ap (λ (t : ℕ). w % t) (two-pow-suc n)
      ∙ mod-two-mul w (2 ^ n) (one-le-pow n 2 (omega arith)) in
    omega (arith, e)
bit_at-mod (suc n) (suc j) w h =
    let e : w % 2 ^ suc n ≡ 2 * (w / 2 % 2 ^ n) + w % 2 =
      ap (λ (t : ℕ). w % t) (two-pow-suc n)
      ∙ mod-two-mul w (2 ^ n) (one-le-pow n 2 (omega arith)) in
    bit_at-half (w % 2 ^ suc n) (w / 2 % 2 ^ n) j (omega (arith, e))
    ∙ bit_at-mod n j (w / 2) (omega arith)
    ∙ sym (bit_at-suc w j)

-- All ones below `n` but bit `k`.
abbrev mask_without : ℕ → ℕ → ℕ
mask_without n k = 2 ^ n - 1 - 2 ^ k

pow-lt : (k n : ℕ) → k < n → 2 ^ k < 2 ^ n
pow-lt zero zero h = absurd (omega arith)
pow-lt zero (suc n) h = omega (arith, two-pow-suc n, one-le-pow n 2 (omega arith))
pow-lt (suc k) zero h = absurd (omega arith)
pow-lt (suc k) (suc n) h = omega (arith, two-pow-suc n, two-pow-suc k, pow-lt k n (omega arith))

and_zero_half : (n w : ℕ) → bit_and w (mask_without (suc n) 0) ≡ 2 * (w / 2 % 2 ^ n)
and_zero_half n w =
    let pos : 1 ≤ 2 ^ n = one-le-pow n 2 (omega arith) in
    let half : mask_without (suc n) 0 / 2 ≡ 2 ^ n - 1 = omega (arith, two-pow-suc n) in
    let even : mask_without (suc n) 0 % 2 ≡ 0 = omega (arith, two-pow-suc n) in
    omega (
      arith,
      bit_and_digit w (mask_without (suc n) 0),
      ap (λ (t : ℕ). bit_and (w / 2) t) half,
      bit_and-mask n (w / 2),
    )

and_suc_half :
    (n k w : ℕ)
    → k < n
    → bit_and w (mask_without (suc n) (suc k)) ≡ 2 * bit_and (w / 2) (mask_without n k) + w % 2
and_suc_half n k w h =
    let less = pow-lt k n h in
    let half : mask_without (suc n) (suc k) / 2 ≡ mask_without n k =
      omega (arith, two-pow-suc n, two-pow-suc k) in
    let odd : mask_without (suc n) (suc k) % 2 ≡ 1 = omega (arith, two-pow-suc n, two-pow-suc k) in
    omega (
      arith,
      bit_and_digit w (mask_without (suc n) (suc k)),
      ap (λ (t : ℕ). bit_and (w / 2) t) half,
    )

-- Clearing bit `k` of an `n`-bit word clears that bit and no other.
pub bit_at-clear :
    (n k j w : ℕ)
    → k < n
    → j < n
    → bit_at (bit_and w (2 ^ n - 1 - 2 ^ k)) j ≡ (if j == k then 0 else bit_at w j)
bit_at-clear zero k j w hk hj = absurd (omega arith)
bit_at-clear (suc n) zero zero w hk hj = omega (arith, and_zero_half n w)
bit_at-clear (suc n) zero (suc j) w hk hj = rw (ne→== (suc j) 0 (omega arith)) (
    bit_at-half (bit_and w (mask_without (suc n) 0)) (w / 2 % 2 ^ n) j
      (omega (arith, and_zero_half n w))
    ∙ bit_at-mod n j (w / 2) (omega arith)
    ∙ sym (bit_at-suc w j))
bit_at-clear (suc n) (suc k) zero w hk hj =
    rw (ne→== 0 (suc k) (omega arith)) (omega (arith, and_suc_half n k w (omega arith)))
bit_at-clear (suc n) (suc k) (suc j) w hk hj =
    bit_at-half (bit_and w (mask_without (suc n) (suc k))) (bit_and (w / 2) (mask_without n k)) j
      (omega (arith, and_suc_half n k w (omega arith)))
    ∙ bit_at-clear n k j (w / 2) (omega arith) (omega arith)
    ∙ ground (arith, bit_at-suc w j)
