-- ===== src/BinToC/ReadBack.antt =====
-- The array that tools/bintoc.c writes, read as C reads it.
use riscv_mos.Base.{
  ℕ, ◌+◌, ◌-◌, ◌*◌, ◌<◌, ◌==◌, ltb, leb, if◌then◌else◌, Option, none, some, List, [], ◌∷◌,
}
use mathlib.Core.Option.{map}

-- The value of a character as a hexadecimal digit.
abbrev pub digit_value : ℕ → ℕ
digit_value c = if leb c b'9' then c - b'0' else c - b'a' + 10

-- The numbers of a list in braces that is read up to its end, where `acc` is what the digits before
-- make: `x` starts a number, a comma and the brace end it. A text without the brace is none.
unfoldable pub read_array : (acc : ℕ) → List ℕ → Option (List ℕ)
read_array acc [] = none
read_array acc (c ∷ cs) =
    let next = read_array (if c == b'x' then 0 else acc * 16 + digit_value c) cs in
    let fresh = read_array 0 cs in
    if c == b'}' then some (acc ∷ []) else if c == b',' then map (λ xs. acc ∷ xs) fresh else next

-- The bytes of a list are below 256.
abbrev pub AreBytes : List ℕ → Type 0
AreBytes [] = Unit {0}
AreBytes (x ∷ xs) = (x < 256) × AreBytes xs

-- What an array of C can hold: at least one byte.
abbrev pub unless_empty : List ℕ → Option (List ℕ)
unless_empty [] = none
unless_empty (x ∷ xs) = some (x ∷ xs)

-- What follows the byte at index `i`.
abbrev separator : (size i : ℕ) → ℕ
separator size i = if ltb i (size - 1) then b',' else b'}'
