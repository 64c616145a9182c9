-- ===== src/FsFormat/Endian.antt =====
-- The change of byte order of tools/fsformat.c.
use native.Mathlib.Nat.{mod-eq_of_lt}
use riscv_mos.Base.{
  ℕ, zero, suc, ◌+◌, ◌-◌, ◌*◌, ◌/◌, ◌%◌, ◌^◌, ◌≤◌, ◌<◌, ◌≡◌, ◌≢◌, refl, sym, ap, ◌∙◌, arith, true,
  false, ◌&&◌, ◌||◌, ◌==◌, ltb, leb, if◌then◌else◌, Bool-cases, inl, inr, bit_and, bit_and-mask,
  ne→==,
}
use riscv_mos.Mem.{Mem, load, load32, store8}
use riscv_mos.Mem.Laws.{load-ext}
use riscv_mos.FsFormat.{
  Header, block_super, block_file, block_index, block_bmap, data_at, type_at, reverse,
  reverse_words, reverse_block,
}

-- Every byte is one.
abbrev pub IsBytes : Mem → Type 0
IsBytes m = (a : ℕ) → m a < 256

-- Where the byte for address `b` of a word from `p` on comes from.
abbrev pub mirror : (p b : ℕ) → ℕ
mirror p b = p + 4 * ((b - p) / 4) + (3 - (b - p) % 4)

load32-bytes :
    (m : Mem) (p : ℕ)
    → IsBytes m
    → load32 m p ≡ m p + 256 * m (p + 1) + 65536 * m (p + 2) + 16777216 * m (p + 3)
unfolding load
load32-bytes m p bytes =
    let at2 : p + 1 + 1 ≡ p + 2 = omega arith in
    let at3 : p + 2 + 1 ≡ p + 3 = omega arith in
    rw
      (
        at2,
        at3,
        mod-eq_of_lt (bytes p),
        mod-eq_of_lt (bytes (p + 1)),
        mod-eq_of_lt (bytes (p + 2)),
        mod-eq_of_lt (bytes (p + 3)),
      )
      (omega arith)

-- The bytes that `reverse` writes.
digit_of : (w : ℕ) → bit_and w 0xff % 256 ≡ w % 256
digit_of w = omega (arith, bit_and-mask 8 w)

bytes_of :
    (a b c d : ℕ)
    → a < 256
    → b < 256
    → c < 256
    → d < 256
    → let y = a + 256 * b + 65536 * c + 16777216 * d in
      (y % 256 ≡ a) × (y / 2 ^ 8 % 256 ≡ b) × (y / 2 ^ 16 % 256 ≡ c) × (y / 2 ^ 24 % 256 ≡ d)
bytes_of a b c d ha hb hc hd = (omega arith, omega arith, omega arith, omega arith)

-- `reverse` with the word that it reads.
pick :
    (p b y : ℕ) (m : Mem)
    → store8
        (store8
          (store8 (store8 m (p + 3) (bit_and y 0xff)) (p + 2) (bit_and (y / 2 ^ 8) 0xff))
          (p + 1)
          (bit_and (y / 2 ^ 16) 0xff))
        p
        (bit_and (y / 2 ^ 24) 0xff)
        b
      ≡ (if b == p
          then y / 2 ^ 24 % 256
          else if b == p + 1
          then y / 2 ^ 16 % 256
          else if b == p + 2
          then y / 2 ^ 8 % 256
          else if b == p + 3
          then y % 256
          else m b)
unfolding store8
pick p b y m =
    rw (digit_of y, digit_of (y / 2 ^ 8), digit_of (y / 2 ^ 16), digit_of (y / 2 ^ 24)) refl

mirrored :
    (p b : ℕ) (m : Mem)
    → (if b == p
        then m (p + 3)
        else if b == p + 1
        then m (p + 2)
        else if b == p + 2
        then m (p + 1)
        else if b == p + 3
        then m p
        else m b)
      ≡ (if leb p b && ltb b (p + 4) then m (p + (3 - (b - p))) else m b)
mirrored p b m = elim (Bool-cases (b == p)) [
  | inl e0 ↦
      let is : b ≡ p = ground arith in
      let at : p + (3 - (p - p)) ≡ p + 3 = omega arith in rw (is, at) (ground arith)
  | inr n0 ↦ elim (Bool-cases (b == p + 1)) [
    | inl e1 ↦
        let is : b ≡ p + 1 = ground arith in
        let at : p + (3 - (p + 1 - p)) ≡ p + 2 = omega arith in rw (is, at) (ground arith)
    | inr n1 ↦ elim (Bool-cases (b == p + 2)) [
      | inl e2 ↦
          let is : b ≡ p + 2 = ground arith in
          let at : p + (3 - (p + 2 - p)) ≡ p + 1 = omega arith in rw (is, at) (ground arith)
      | inr n2 ↦ elim (Bool-cases (b == p + 3)) [
        | inl e3 ↦
            let is : b ≡ p + 3 = ground arith in
            let at : p + (3 - (p + 3 - p)) ≡ p = omega arith in rw (is, at) (ground arith)
        | inr n3 ↦ ground arith
      ]
    ]
  ]
]

reverse-at :
    (p : ℕ) (m : Mem) (b : ℕ)
    → IsBytes m
    → reverse p m b ≡ (if leb p b && ltb b (p + 4) then m (p + (3 - (b - p))) else m b)
unfolding reverse
reverse-at p m b bytes =
    let (e0, e1, e2, e3) =
      bytes_of (m p) (m (p + 1)) (m (p + 2)) (m (p + 3)) (bytes p) (bytes (p + 1)) (bytes (p + 2))
        (bytes (p + 3)) in
    pick p b (load32 m p) m ∙ rw (load32-bytes m p bytes, e0, e1, e2, e3) (mirrored p b m)

reverse-IsBytes : (p : ℕ) (m : Mem) → IsBytes m → IsBytes (reverse p m)
reverse-IsBytes p m bytes b =
    rw (reverse-at p m b bytes) (ground (arith, bytes b, bytes (p + (3 - (b - p)))))

-- Behind the first word.
reverse-behind :
    (p b : ℕ) (m : Mem) → IsBytes m → p + 4 ≤ b → reverse p m (mirror (p + 4) b) ≡ m (mirror p b)
reverse-behind p b m bytes le =
    let same : mirror (p + 4) b ≡ mirror p b = omega (arith, le) in
    let far : (leb p (mirror p b) && ltb (mirror p b) (p + 4)) ≡ false = ground (arith, le) in
    ap (reverse p m) same ∙ reverse-at p m (mirror p b) bytes ∙ rw far refl

reverse-at_behind : (p b : ℕ) (m : Mem) → IsBytes m → p + 4 ≤ b → reverse p m b ≡ m b
reverse-at_behind p b m bytes le =
    let far : (leb p b && ltb b (p + 4)) ≡ false = ground (arith, le) in
    reverse-at p m b bytes ∙ rw far refl

within_word :
    (p b : ℕ) (m : Mem)
    → b < p + 4
    → (if leb p b && true then m (p + (3 - (b - p))) else m b)
      ≡ (if leb p b && true then m (mirror p b) else m b)
within_word p b m lt = elim (Bool-cases (leb p b)) [
  | inl low ↦ rw low (ap m (ground arith))
  | inr high ↦ rw high refl
]

reverse_words-at :
    (n p : ℕ) (m : Mem) (b : ℕ)
    → IsBytes m
    → reverse_words n p m b ≡ (if leb p b && ltb b (p + 4 * n) then m (mirror p b) else m b)
unfolding reverse_words
reverse_words-at zero p m b bytes =
    let none_left : (leb p b && ltb b (p + 4 * 0)) ≡ false = ground arith in rw none_left refl
reverse_words-at (suc n) p m b bytes =
    reverse_words-at n (p + 4) (reverse p m) b (reverse-IsBytes p m bytes)
    ∙ (elim (Bool-cases (leb (p + 4) b)) [
      | inl behind ↦
          let le : p + 4 ≤ b = ground arith in
          let low : leb p b ≡ true = ground arith in
          let end : p + 4 + 4 * n ≡ p + 4 * suc n = omega arith in
          rw (behind, low, end, reverse-behind p b m bytes le, reverse-at_behind p b m bytes le)
            refl
      | inr within ↦
          let lt : b < p + 4 = ground arith in
          let inside : ltb b (p + 4) ≡ true = ground arith in
          let end : ltb b (p + 4 * suc n) ≡ true = ground arith in
          rw (within, end) (reverse-at p m b bytes ∙ rw inside (within_word p b m lt))
    ])

-- The words are a block of their own.
mirror-inside :
    (n p b : ℕ)
    → (leb p b && ltb b (p + 4 * n)) ≡ true
    → ((leb p (mirror p b) && ltb (mirror p b) (p + 4 * n)) ≡ true) × (mirror p (mirror p b) ≡ b)
mirror-inside n p b inside =
    let low : p ≤ b = ground arith in
    let high : b < p + 4 * n = ground arith in
    let back : mirror p (mirror p b) ≡ b = omega (arith, low) in (ground (arith, low, high), back)

reverse_words-IsBytes : (n p : ℕ) (m : Mem) → IsBytes m → IsBytes (reverse_words n p m)
reverse_words-IsBytes n p m bytes b =
    rw (reverse_words-at n p m b bytes) (ground (arith, bytes b, bytes (mirror p b)))

pub reverse_words-twice :
    (n p : ℕ) (m : Mem) (b : ℕ) → IsBytes m → reverse_words n p (reverse_words n p m) b ≡ m b
reverse_words-twice n p m b bytes =
    reverse_words-at n p (reverse_words n p m) b (reverse_words-IsBytes n p m bytes)
    ∙ (elim (Bool-cases (leb p b && ltb b (p + 4 * n))) [
      | inl inside ↦
          let (still, back) = mirror-inside n p b inside in
          rw inside (reverse_words-at n p m (mirror p b) bytes ∙ rw (still, back) refl)
      | inr outside ↦ rw outside (reverse_words-at n p m b bytes ∙ rw outside refl)
    ])

module _ (H : Header) where
  -- What is done to a block whose type is neither a super block nor a block of files.
  plain_block : (bno : ℕ) → Mem → Mem
  plain_block bno m =
      if load32 m (type_at H bno) == block_index || load32 m (type_at H bno) == block_bmap
      then reverse_words (H.block_size / 4) (data_at H bno) m
      else m

  reverse_block-plain :
      (bno : ℕ) (m : Mem)
      → load32 m (type_at H bno) ≢ block_super
      → load32 m (type_at H bno) ≢ block_file
      → reverse_block H bno m ≡ plain_block bno m
  unfolding reverse_block plain_block
  reverse_block-plain bno m no_super no_file =
      rw
        (
          ne→== (load32 m (type_at H bno)) block_super no_super,
          ne→== (load32 m (type_at H bno)) block_file no_file,
        )
        refl

  -- The type of a block stands behind its words.
  type-kept :
      (bno : ℕ) (m : Mem)
      → IsBytes m
      → load32 (reverse_words (H.block_size / 4) (data_at H bno) m) (type_at H bno)
        ≡ load32 m (type_at H bno)
  type-kept bno m bytes = load-ext 4 _ m (type_at H bno) (λ b low high.
      let outside : (leb (data_at H bno) b && ltb b (data_at H bno + 4 * (H.block_size / 4)))
          ≡ false =
        ground (arith, low) in
      reverse_words-at (H.block_size / 4) (data_at H bno) m b bytes ∙ rw outside refl)

  -- On bytes, `reverse_block` done twice gives back a block that is neither the super block nor a block of files.
  reverse_block-twice :
      (bno : ℕ) (m : Mem) (b : ℕ)
      → IsBytes m
      → load32 m (type_at H bno) ≢ block_super
      → load32 m (type_at H bno) ≢ block_file
      → reverse_block H bno (reverse_block H bno m) b ≡ m b
  unfolding plain_block
  reverse_block-twice bno m b bytes no_super no_file =
      let words = reverse_words (H.block_size / 4) (data_at H bno) in
      elim (Bool-cases
        (load32 m (type_at H bno) == block_index || load32 m (type_at H bno) == block_bmap)) [
          | inl turned ↦
              let once : reverse_block H bno m ≡ words m =
                reverse_block-plain bno m no_super no_file ∙ rw turned refl in
              let kept = type-kept bno m bytes in
              let again : reverse_block H bno (words m) ≡ words (words m) =
                reverse_block-plain bno (words m) (λ e. no_super (sym kept ∙ e))
                  (λ e. no_file (sym kept ∙ e))
                ∙ rw (kept, turned) refl in
              ap (λ (t : Mem). reverse_block H bno t b) once
              ∙ ap (λ (t : Mem). t b) again
              ∙ reverse_words-twice (H.block_size / 4) (data_at H bno) m b bytes
          | inr left ↦
              let once : reverse_block H bno m ≡ m =
                reverse_block-plain bno m no_super no_file ∙ rw left refl in
              ap (λ (t : Mem). reverse_block H bno t b) once ∙ ap (λ (t : Mem). t b) once
        ]

  -- The byte at `b` after each word of the block has been turned around.
  abbrev pub turned : Mem → (bno b : ℕ) → ℕ
  turned m bno b =
      let start = data_at H bno in
      if leb start b && ltb b (start + 4 * (H.block_size / 4)) then m (mirror start b) else m b

  -- On bytes, and for a block that is neither the super block nor a block of files: if it is a block of
  -- links or of the bitmap, `reverse_block` turns around each word of the block, and no other byte
  -- changes; a block of another type is left as it is. Done twice, it gives back what was there.
  pub reverse_block-turns :
      (bno : ℕ) (m : Mem) (b : ℕ)
      → IsBytes m
      → load32 m (type_at H bno) ≢ block_super
      → load32 m (type_at H bno) ≢ block_file
      → (reverse_block H bno m b ≡ (
          if load32 m (type_at H bno) == block_index || load32 m (type_at H bno) == block_bmap
          then turned m bno b
          else m b))
        × (reverse_block H bno (reverse_block H bno m) b ≡ m b)
  unfolding plain_block
  reverse_block-turns bno m b bytes no_super no_file = (
    ap (λ (t : Mem). t b) (reverse_block-plain bno m no_super no_file)
        ∙ (elim (Bool-cases
            (load32 m (type_at H bno) == block_index || load32 m (type_at H bno) == block_bmap)) [
              | inl words ↦ rw words (reverse_words-at (H.block_size / 4) (data_at H bno) m b bytes)
              | inr other ↦ rw other refl
            ]),
    reverse_block-twice bno m b bytes no_super no_file,
  )
