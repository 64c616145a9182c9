-- ===== src/Env/Asid.antt =====
-- The ASID bitmap of kern/env.c: `asid_alloc` and `asid_free`.
use native.Mathlib.Nat.{one-le-pow}
use riscv_mos.Base.{
  ℕ, zero, suc, ◌+◌, ◌-◌, ◌*◌, ◌/◌, ◌%◌, ◌^◌, ◌≤◌, ◌<◌, ◌≡◌, refl, ◌∙◌, ap, Bool, true, false, not,
  ◌&&◌, ◌==◌, ◌||◌, arith, if◌then◌else◌, inl, inr, Bool-cases, eq→==, ne→==, Option, none, some,
  bit_and, bit_or, bit_and-bit, bit_at, bit_at-set, bit_at-clear,
}
use riscv_mos.Env.{nasid}

abbrev pub Bitmap : Type 0
Bitmap = ℕ → ℕ

-- `asid_bitmap[i >> 5] & (1 << (i & 31))` as a condition
unfoldable pub asid_used : Bitmap → ℕ → Bool
asid_used b i = not (bit_and (b (i / 32)) (2 ^ (i % 32)) == 0)

-- `asid_bitmap[i >> 5] |= 1 << (i & 31)`
unfoldable pub asid_mark : Bitmap → ℕ → Bitmap
asid_mark b i j = if j == i / 32 then bit_or (b j) (2 ^ (i % 32)) else b j

-- The loop of `asid_alloc`, with `left` rounds to go. Without a free number the bitmap is as it was
-- and the function returns -E_NO_FREE_ENV, here `none`.
unfoldable pub asid_loop : ℕ → (i : ℕ) → Bitmap → Option ℕ × Bitmap
asid_loop zero i b = (none, b)
asid_loop (suc left) i b =
    let rest = asid_loop left (i + 1) b in
    if not (asid_used b i) then (some i, asid_mark b i) else rest

unfoldable pub asid_alloc : Bitmap → Option ℕ × Bitmap
asid_alloc b = asid_loop nasid 0 b

-- `asid_bitmap[i >> 5] &= ~(1 << (i & 31))`
unfoldable pub asid_free : ℕ → Bitmap → Bitmap
asid_free i b j = if j == i / 32 then bit_and (b j) (2 ^ 32 - 1 - 2 ^ (i % 32)) else b j

-- A test of a number looks at one bit.
asid_used-bit : (b : Bitmap) (i : ℕ) → asid_used b i ≡ (bit_at (b (i / 32)) (i % 32) == 1)
unfolding asid_used
asid_used-bit b i =
    rw (bit_and-bit (i % 32) (b (i / 32))) (nonzero (bit_at (b (i / 32)) (i % 32)) (omega arith))
  where
    nonzero : (t : ℕ) → t < 2 → not (t * 2 ^ (i % 32) == 0) ≡ (t == 1)
    nonzero t h = elim (Bool-cases (t == 1)) [
      | inl e ↦
          let e' : t ≡ 1 = ground arith in
          rw e'
            (rw (ne→== (1 * 2 ^ (i % 32)) 0 (omega (arith, one-le-pow (i % 32) 2 (omega arith)))))
      | inr e ↦
          let e' : t ≡ 0 = ground arith in rw e' (rw (eq→== (0 * 2 ^ (i % 32)) 0 (omega arith)))
    ]

-- After `asid_free` of a number, it is free, and every other number is as before.
pub asid_used-free :
    (b : Bitmap) (i j : ℕ) → asid_used (asid_free i b) j ≡ (not (j == i) && asid_used b j)
unfolding asid_free
asid_used-free b i j =
    asid_used-bit (asid_free i b) j
    ∙ ground (
      arith,
      bit_at-clear 32 (i % 32) (j % 32) (b (j / 32)) (omega arith) (omega arith),
      asid_used-bit b j,
    )

-- All numbers from `i` below `j` are taken.
abbrev pub AllUsed : Bitmap → (i j : ℕ) → Type 0
AllUsed b i j = (k : ℕ) → i ≤ k → k < j → asid_used b k ≡ true

-- `c` is `b` with the bit of the number `k`, bit `k % 32` of word `k / 32`, set, and no other changed.
abbrev pub Marks : Bitmap → (k : ℕ) → Bitmap → Type 0
Marks b k c =
    (j : ℕ) → bit_at (c (j / 32)) (j % 32) ≡ (if j == k then 1 else bit_at (b (j / 32)) (j % 32))

asid_mark-Marks : (b : Bitmap) (k : ℕ) → Marks b k (asid_mark b k)
unfolding asid_mark
asid_mark-Marks b k j = ground (arith, bit_at-set (k % 32) (j % 32) (b (j / 32)))

-- The numbers in use after marking.
used-Marks : (b c : Bitmap) (k j : ℕ) → Marks b k c → asid_used c j ≡ (j == k || asid_used b j)
used-Marks b c k j m = asid_used-bit c j ∙ ground (arith, m j, asid_used-bit b j)

-- The first free number from `i` on, or none below `i + left`.
pub data FirstFree (b : Bitmap) (i end : ℕ) (r : Option ℕ × Bitmap) : Type 0 where
  taken :
      (k : ℕ) (c : Bitmap)
      → r ≡ (some k, c)
      → Marks b k c
      → i ≤ k
      → k < end
      → asid_used b k ≡ false
      → AllUsed b i k
      → FirstFree b i end r
  exhausted : r ≡ (none, b) → AllUsed b i end → FirstFree b i end r

asid_loop-FirstFree :
    (left i end : ℕ) (b : Bitmap) → i + left ≡ end → FirstFree b i end (asid_loop left i b)
unfolding asid_loop
asid_loop-FirstFree zero i end b e = exhausted refl (λ k lo hi. absurd (omega arith))
asid_loop-FirstFree (suc left) i end b e = elim (Bool-cases (asid_used b i)) [
  | inr free ↦ rw free (
      taken i _ refl (asid_mark-Marks b i) (omega arith) (omega arith) free
        (λ k lo hi. absurd (omega arith)))
  | inl used ↦ rw used (behind used (asid_loop-FirstFree left (i + 1) end b (omega arith)))
]
  where
    from_here : (j : ℕ) → asid_used b i ≡ true → AllUsed b (i + 1) j → AllUsed b i j
    from_here j used all k lo hi = elim (Bool-cases (k == i)) [
      | inl same ↦ let e : k ≡ i = ground arith in rw e used
      | inr more ↦ all k (ground arith) hi
    ]

    behind :
        asid_used b i ≡ true
        → FirstFree b (i + 1) end (asid_loop left (i + 1) b)
        → FirstFree b i end (asid_loop left (i + 1) b)
    behind used (taken k c r m lo hi free all) =
        taken k c r m (omega arith) hi free (from_here k used all)
    behind used (exhausted r all) = exhausted r (from_here end used all)

pub asid_alloc-FirstFree : (b : Bitmap) → FirstFree b 0 nasid (asid_alloc b)
unfolding asid_alloc
asid_alloc-FirstFree b = asid_loop-FirstFree nasid 0 nasid b (omega arith)

-- If `asid_alloc` returns the number `k`, `asid_free` of `k` on the bitmap that it leaves gives a
-- bitmap on which the same numbers are in use as before.
pub asid_free-alloc :
    (b : Bitmap) (k : ℕ) (c : Bitmap) (j : ℕ)
    → asid_alloc b ≡ (some k, c)
    → asid_used (asid_free k c) j ≡ asid_used b j
asid_free-alloc b k c j e = by_result (asid_alloc-FirstFree b)
  where
    by_result : FirstFree b 0 nasid (asid_alloc b) → asid_used (asid_free k c) j ≡ asid_used b j
    by_result (exhausted r all) = cc
    by_result (taken k' c' r m lo hi free all) =
        let same : k' ≡ k = ground arith in
        let map : c' ≡ c = ground arith in
        rw (← map) (
          ground (
            arith,
            asid_used-free c' k j,
            used-Marks b c' k' j m,
            free,
            same,
            ap (asid_used b) same,
            ne→== j k,
          ))
