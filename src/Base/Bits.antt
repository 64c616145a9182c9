-- ===== src/Base/Bits.antt =====
-- C's `|` and `&` against masks, as arithmetic.
use Prim.Native.Nat.{
  ℕ, zero, suc, ◌+◌, ◌-◌, ◌*◌, ◌/◌, ◌%◌, ◌^◌, ◌≤◌, ◌<◌, min, max, bit_and, bit_or, digits,
  bit_and-bitwise, bit_or-bitwise,
}
use mathlib.Core.Path.{◌≡◌, refl, sym, ap, ◌∙◌}
use native.Mathlib.Nat.{
  pow-suc, one-le-pow, div-one, mul-one, div-div-eq-div-mul, mod-add-div, add-mul-mod_self_left,
  mod-eq_of_lt, mod-lt,
}
use native.Mathlib.Omega.{arith}

-- Fuel above the first operand changes nothing in the digit recursion behind the operations.
digits_fuel :
    (f : ℕ → ℕ → ℕ) (z : ℕ → ℕ) (x y k l : ℕ) → x ≤ k → x ≤ l → digits z f k x y ≡ digits z f l x y
digits_fuel f z zero y zero zero h g = refl
digits_fuel f z zero y (suc k) zero h g = refl
digits_fuel f z zero y zero (suc l) h g = refl
digits_fuel f z zero y (suc k) (suc l) h g = refl
digits_fuel f z (suc x) y zero l h g = absurd (omega arith)
digits_fuel f z (suc x) y (suc k) zero h g = absurd (omega arith)
digits_fuel f z (suc x) y (suc k) (suc l) h g =
    omega (arith, digits_fuel f z (suc x / 2) (y / 2) k l (omega arith) (omega arith))

pub bit_or_digit : (a b : ℕ) → bit_or a b ≡ 2 * bit_or (a / 2) (b / 2) + max (a % 2) (b % 2)
bit_or_digit zero b = simp bit_or-bitwise (omega arith)
bit_or_digit (suc a) b = omega (
  arith,
  bit_or-bitwise (suc a) b,
  bit_or-bitwise (suc a / 2) (b / 2),
  digits_fuel max (λ y. y) (suc a / 2) (b / 2) a (suc a / 2) (omega arith) (omega arith),
)

pub bit_and_digit : (a b : ℕ) → bit_and a b ≡ 2 * bit_and (a / 2) (b / 2) + min (a % 2) (b % 2)
bit_and_digit zero b = simp bit_and-bitwise (omega arith)
bit_and_digit (suc a) b = omega (
  arith,
  bit_and-bitwise (suc a) b,
  bit_and-bitwise (suc a / 2) (b / 2),
  digits_fuel min (λ y. 0) (suc a / 2) (b / 2) a (suc a / 2) (omega arith) (omega arith),
)

-- Induction along the halves of a number; `bound` is any number that is no less.
module _ (P : ℕ → Type 0) (none : P 0) (more : (x : ℕ) → P (suc x / 2) → P (suc x)) where
  halves_below : (bound x : ℕ) → x ≤ bound → P x
  halves_below bound zero h = none
  halves_below zero (suc x) h = absurd (omega arith)
  halves_below (suc bound) (suc x) h = more x (halves_below bound (suc x / 2) (omega arith))

  by_halves : (x : ℕ) → P x
  by_halves x = halves_below x x (omega arith)

pub bit_or-zero : (a : ℕ) → bit_or a 0 ≡ a
bit_or-zero = by_halves (λ x. bit_or x 0 ≡ x) refl λ x h. omega (arith, bit_or_digit (suc x) 0, h)

pub bit_and-zero : (a : ℕ) → bit_and a 0 ≡ 0
bit_and-zero =
    by_halves (λ x. bit_and x 0 ≡ 0) refl λ x h. omega (arith, bit_and_digit (suc x) 0, h)

-- Joining a field of `k` bits to one above it is a sum.
pub bit_or-field : (k q r : ℕ) → r < 2 ^ k → bit_or (q * 2 ^ k) r ≡ q * 2 ^ k + r
bit_or-field zero q r h =
    let e : r ≡ 0 = omega arith in rw e (omega (arith, bit_or-zero (q * 2 ^ zero)))
bit_or-field (suc k) q r h =
    let twice : q * 2 ^ suc k ≡ 2 * (q * 2 ^ k) =
      omega (arith, ap (λ (t : ℕ). q * t) (pow-suc 2 k)) in
    rw twice (
      omega (
        arith,
        pow-suc 2 k,
        bit_or_digit (2 * (q * 2 ^ k)) r,
        (let half : 2 * (q * 2 ^ k) / 2 ≡ q * 2 ^ k = omega arith in half),
        ap (λ (t : ℕ). bit_or t (r / 2))
            (let half : 2 * (q * 2 ^ k) / 2 ≡ q * 2 ^ k = omega arith in half),
        bit_or-field k q (r / 2) (omega (arith, pow-suc 2 k)),
      ))

pub two-pow-suc : (k : ℕ) → 2 ^ suc k ≡ 2 * 2 ^ k
two-pow-suc k = omega (arith, pow-suc 2 k)

-- A mask of ones above `k` zeros looks only at the digits above `k`.
pub bit_and-shift : (k a m : ℕ) → bit_and a (m * 2 ^ k) ≡ bit_and (a / 2 ^ k) m * 2 ^ k
bit_and-shift zero a m = simp (div-one, mul-one)
bit_and-shift (suc k) a m =
    let above : m * 2 ^ suc k ≡ 2 * (m * 2 ^ k) =
      omega (arith, ap (λ (t : ℕ). m * t) (two-pow-suc k)) in
    let halved : 2 * (m * 2 ^ k) / 2 ≡ m * 2 ^ k = omega arith in
    let lower : a / 2 ^ suc k ≡ a / 2 / 2 ^ k =
      ap (λ (t : ℕ). a / t) (two-pow-suc k) ∙ sym (div-div-eq-div-mul a 2 (2 ^ k)) in
    rw (above, lower, two-pow-suc k)
      (omega (
        arith,
        bit_and_digit a (2 * (m * 2 ^ k)),
        ap (λ (t : ℕ). bit_and (a / 2) t) halved,
        bit_and-shift k (a / 2) m,
      ))

pub mod-two-mul : (a p : ℕ) → 0 < p → a % (2 * p) ≡ 2 * (a / 2 % p) + a % 2
mod-two-mul a p h =
    let r : ℕ = 2 * (a / 2 % p) + a % 2 in
    let split : a ≡ r + 2 * p * (a / 2 / p) = omega (arith, mod-add-div (a / 2) p) in
    ap (λ (t : ℕ). t % (2 * p)) split
    ∙ add-mul-mod_self_left r (2 * p) (a / 2 / p)
    ∙ mod-eq_of_lt (omega (arith, mod-lt (a / 2) h))

-- A mask of `k` low ones is the remainder by `2 ^ k`.
pub bit_and-mask : (k a : ℕ) → bit_and a (2 ^ k - 1) ≡ a % 2 ^ k
bit_and-mask zero a = omega (arith, bit_and-zero a)
bit_and-mask (suc k) a =
    let pos : 1 ≤ 2 ^ k = one-le-pow k 2 (omega arith) in
    let halved : (2 ^ suc k - 1) / 2 ≡ 2 ^ k - 1 = omega (arith, two-pow-suc k) in
    omega (
      arith,
      two-pow-suc k,
      ap (λ (t : ℕ). a % t) (two-pow-suc k),
      mod-two-mul a (2 ^ k) pos,
      bit_and_digit a (2 ^ suc k - 1),
      ap (λ (t : ℕ). bit_and (a / 2) t) halved,
      bit_and-mask k (a / 2),
    )

-- A single low mask.
pub bit_and-one : (a : ℕ) → bit_and a 1 ≡ a % 2
bit_and-one a = bit_and-mask 1 a

-- The mask of one bit.
pub bit_and-bit : (k a : ℕ) → bit_and a (2 ^ k) ≡ a / 2 ^ k % 2 * 2 ^ k
bit_and-bit k a =
    let once : 2 ^ k ≡ 1 * 2 ^ k = omega arith in
    ap (λ (t : ℕ). bit_and a t) once
    ∙ bit_and-shift k a 1
    ∙ ap (λ (t : ℕ). t * 2 ^ k) (bit_and-one (a / 2 ^ k))

-- Setting the lowest bit.
pub bit_or-one : (a : ℕ) → bit_or a 1 ≡ 2 * (a / 2) + 1
bit_or-one a = omega (arith, bit_or_digit a 1, bit_or-zero (a / 2))

pub bit_or-lt : (k a b : ℕ) → a < 2 ^ k → b < 2 ^ k → bit_or a b < 2 ^ k
bit_or-lt zero a b ha hb =
    let ea : a ≡ 0 = omega arith in
    let eb : b ≡ 0 = omega arith in rw (ea, eb) (omega (arith, bit_or-zero 0))
bit_or-lt (suc k) a b ha hb = omega (
  arith,
  bit_or_digit a b,
  two-pow-suc k,
  bit_or-lt k (a / 2) (b / 2) (omega (arith, two-pow-suc k)) (omega (arith, two-pow-suc k)),
)
