-- ===== src/BinToC/Declared.antt =====
-- The declarations that tools/bintoc.c writes, read as C reads them.
use riscv_mos.Base.{
  ℕ, ◌<◌, ◌≡◌, refl, ap, arith, false, ◌==◌, List, [], ◌∷◌, ◌++◌, Bool-cases, ◌∉◌, inl, inr,
}
use riscv_mos.Print.Decimal.{decimal_value, AllDigits, decimal-numeral}
use riscv_mos.BinToC.{ascii, declarations, decimal, stem, bmax}

-- A list that is empty or starts with a full stop.
abbrev pub StartsWithStop : List ℕ → Type 0
StartsWithStop [] = Unit {0}
StartsWithStop (c ∷ cs) = c ≡ b'.'

stem-split :
    (bin : List ℕ)
    → (behind : List ℕ) × (bin ≡ stem bin ++ behind) × (b'.' ∉ stem bin) × StartsWithStop behind
unfolding stem
stem-split [] = ([], refl, refl, tt)
stem-split (c ∷ cs) = elim (Bool-cases (c == b'.')) [
  | inl stop ↦ rw stop (c ∷ cs, refl, refl, ground arith)
  | inr other ↦
      let (behind, split, free, starts) = stem-split cs in
      let apart : (b'.' == c) ≡ false = ground arith in
      rw other (behind, ap (λ (xs : List ℕ). c ∷ xs) split, rw apart free, starts)
]

-- The text declares the number of bytes and begins the array, under names with the prefix and the name
-- of the binary file up to its first full stop.
abbrev pub Declares : (prefix bin : List ℕ) (size : ℕ) (text : List ℕ) → Type 0
Declares prefix bin size text =
    (name : List ℕ) × (behind : List ℕ) × (number : List ℕ) × (bin ≡ name ++ behind)
    × (b'.' ∉ name)
    × StartsWithStop behind
    × AllDigits number
    × (decimal_value 0 number ≡ size)
    × (text
        ≡ ascii "unsigned int binary_"
          ++ prefix
          ++ ascii "_"
          ++ name
          ++ ascii "_size = "
          ++ number
          ++ ascii ";\nunsigned char binary_"
          ++ prefix
          ++ ascii "_"
          ++ name
          ++ ascii "_start[] = {")

pub declarations-Declares :
    (prefix bin : List ℕ) (size : ℕ)
    → size < bmax
    → Declares prefix bin size (declarations prefix (stem bin) size)
unfolding declarations ascii
declarations-Declares prefix bin size small =
    let (behind, split, free, starts) = stem-split bin in
    let (value, digits) = decimal-numeral 32 size (omega (arith, small)) in
    (stem bin, behind, decimal size, split, free, starts, digits, value, refl)
