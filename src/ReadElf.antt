-- ===== src/ReadElf.antt =====
-- tools/readelf/readelf.c with the structures of tools/readelf/elf.h: the addresses of the sections of a
-- 32-bit ELF image. `printf` is the list of the pairs that it prints; the message on a file of
-- another kind is left out.
pub mod Main
use native.Mathlib.Nat.{mul-le-mul_right}
use riscv_mos.Base.{
  ℕ, zero, suc, ◌+◌, ◌*◌, ◌≤◌, ◌≡◌, ap, ◌↔◌, ◌⊎◌, refl, sym, ◌∙◌, arith, Bool, true, false, not,
  ◌&&◌, ◌==◌, ltb, leb, if◌then◌else◌, Option, none, some, List, [], ◌∷◌, get_elem?, u64,
  sign_extend, ◌^◌, ◌<◌, ℤ, pos, negsuc, Bool-cases, inl, inr,
}
use riscv_mos.Mem.{Mem, load, load32}

-- `Elf32_Half`
abbrev pub load16 : Mem → ℕ → ℕ
load16 = load 2

-- `Elf32_Ehdr`
pub record Ehdr : Type 0 where
  pub e_ident : ℕ → ℕ
  pub e_type : ℕ
  pub e_machine : ℕ
  pub e_version : ℕ
  pub e_entry : ℕ
  pub e_phoff : ℕ
  pub e_shoff : ℕ
  pub e_flags : ℕ
  pub e_ehsize : ℕ
  pub e_phentsize : ℕ
  pub e_phnum : ℕ
  pub e_shentsize : ℕ
  pub e_shnum : ℕ
  pub e_shstrndx : ℕ

-- `sizeof(Elf32_Ehdr)`
abbrev pub ehdr_size : ℕ
ehdr_size = 52

-- The header that stands at `a`.
abbrev pub ehdr_at : Mem → ℕ → Ehdr
ehdr_at m a = record {
  e_ident = λ i. load 1 m (a + i);
  e_type = load16 m (a + 16);
  e_machine = load16 m (a + 18);
  e_version = load32 m (a + 20);
  e_entry = load32 m (a + 24);
  e_phoff = load32 m (a + 28);
  e_shoff = load32 m (a + 32);
  e_flags = load32 m (a + 36);
  e_ehsize = load16 m (a + 40);
  e_phentsize = load16 m (a + 42);
  e_phnum = load16 m (a + 44);
  e_shentsize = load16 m (a + 46);
  e_shnum = load16 m (a + 48);
  e_shstrndx = load16 m (a + 50);
}

-- `Elf32_Shdr`
pub record Shdr : Type 0 where
  pub sh_name : ℕ
  pub sh_type : ℕ
  pub sh_flags : ℕ
  pub sh_addr : ℕ
  pub sh_offset : ℕ
  pub sh_size : ℕ
  pub sh_link : ℕ
  pub sh_info : ℕ
  pub sh_addralign : ℕ
  pub sh_entsize : ℕ

-- The section header that stands at `a`.
abbrev pub shdr_at : Mem → ℕ → Shdr
shdr_at m a = record {
  sh_name = load32 m a;
  sh_type = load32 m (a + 4);
  sh_flags = load32 m (a + 8);
  sh_addr = load32 m (a + 12);
  sh_offset = load32 m (a + 16);
  sh_size = load32 m (a + 20);
  sh_link = load32 m (a + 24);
  sh_info = load32 m (a + 28);
  sh_addralign = load32 m (a + 32);
  sh_entsize = load32 m (a + 36);
}

unfoldable pub is_elf_format : Mem → (binary size : ℕ) → Bool
is_elf_format m binary size =
    let ehdr = ehdr_at m binary in
    leb ehdr_size size
    && (ehdr.e_ident 0 == 0x7f)
    && (ehdr.e_ident 1 == b'E')
    && (ehdr.e_ident 2 == b'L')
    && (ehdr.e_ident 3 == b'F')

-- The loop over the section headers from index `i` on, with `left` rounds. The product is an `int`, which
-- wraps where C leaves an overflow undefined.
unfoldable pub section_loop : (left i : ℕ) → Mem → (sh_table sh_entry_size : ℕ) → List (ℕ × ℕ)
section_loop zero i m sh_table sh_entry_size = []
section_loop (suc left) i m sh_table sh_entry_size =
    let shdr = shdr_at m (u64 (sh_table + sign_extend (i * sh_entry_size))) in
    (i, shdr.sh_addr) ∷ section_loop left (i + 1) m sh_table sh_entry_size

-- The result, and what is printed.
unfoldable pub readelf : Mem → (binary size : ℕ) → ℤ × List (ℕ × ℕ)
readelf m binary size =
    let ehdr = ehdr_at m binary in
    if not (is_elf_format m binary size)
    then (negsuc 0, [])
    else (pos 0, section_loop ehdr.e_shnum 0 m (binary + ehdr.e_shoff) ehdr.e_shentsize)

section_loop-get :
    (left i : ℕ) (m : Mem) (table size k : ℕ)
    → get_elem? (section_loop left i m table size) k ≡ (
        if ltb k left
        then some (i + k, (shdr_at m (u64 (table + sign_extend ((i + k) * size)))).sh_addr)
        else none)
unfolding section_loop
section_loop-get zero i m table size k =
    let none_left : ltb k 0 ≡ false = ground arith in rw none_left refl
section_loop-get (suc left) i m table size zero =
    let same : i + 0 ≡ i = omega arith in
    let more : ltb 0 (suc left) ≡ true = ground arith in rw (same, more) refl
section_loop-get (suc left) i m table size (suc k) =
    let at : i + 1 + k ≡ i + suc k = omega arith in
    section_loop-get left (i + 1) m table size k ∙ rw at (ground arith)

-- `image` starts with the four magic bytes of an ELF file, and has a whole header.
abbrev pub IsElf : Mem → (binary size : ℕ) → Type 0
IsElf m binary size =
    (ehdr_size ≤ size)
    × (load 1 m binary ≡ 0x7f)
    × (load 1 m (binary + 1) ≡ b'E')
    × (load 1 m (binary + 2) ≡ b'L')
    × (load 1 m (binary + 3) ≡ b'F')

magic_iff :
    (a b c d size : ℕ)
    → ((leb ehdr_size size && (a == 0x7f) && (b == b'E') && (c == b'L') && (d == b'F')) ≡ true)
      ↔ ((ehdr_size ≤ size) × (a ≡ 0x7f) × (b ≡ b'E') × (c ≡ b'L') × (d ≡ b'F'))
magic_iff a b c d size = ground arith

is_elf_format_iff :
    (m : Mem) (binary size : ℕ) → (is_elf_format m binary size ≡ true) ↔ IsElf m binary size
unfolding is_elf_format
is_elf_format_iff m binary size =
    let start : binary + 0 ≡ binary = omega arith in
    rw start (
      magic_iff (load 1 m binary) (load 1 m (binary + 1)) (load 1 m (binary + 2))
        (load 1 m (binary + 3)) size)

true_ne_false : ¬ (true ≡ false)
true_ne_false e = absurd (ground (arith, e))

-- Header `k` of the table, if there is one.
abbrev pub section : Mem → (binary k : ℕ) → Option (ℕ × ℕ)
section m binary k =
    let ehdr = ehdr_at m binary in
    if ltb k ehdr.e_shnum
    then some (k, load32 m (binary + ehdr.e_shoff + k * ehdr.e_shentsize + 12))
    else none

-- The table of the section headers lies within the image.
abbrev pub HasTable : Mem → (binary size : ℕ) → Type 0
HasTable m binary size =
    let ehdr = ehdr_at m binary in ehdr.e_shoff + ehdr.e_shnum * ehdr.e_shentsize ≤ size

sections-get :
    (m : Mem) (binary size k : ℕ)
    → size < 2 ^ 31
    → binary + size < 2 ^ 64
    → HasTable m binary size
    → let ehdr = ehdr_at m binary in
      get_elem? (section_loop ehdr.e_shnum 0 m (binary + ehdr.e_shoff) ehdr.e_shentsize) k
      ≡ section m binary k
sections-get m binary size k small fits inside =
    let same : 0 + k ≡ k = omega arith in
    let ehdr = ehdr_at m binary in
    section_loop-get ehdr.e_shnum 0 m (binary + ehdr.e_shoff) ehdr.e_shentsize k
    ∙ rw same (elim (Bool-cases (ltb k ehdr.e_shnum)) [
      | inl more ↦
          let le : k * ehdr.e_shentsize ≤ ehdr.e_shnum * ehdr.e_shentsize =
            mul-le-mul_right ehdr.e_shentsize (ground (arith, more)) in
          let product : sign_extend (k * ehdr.e_shentsize) ≡ k * ehdr.e_shentsize =
            ground (arith, le, inside, small) in
          let address : u64 (binary + ehdr.e_shoff + k * ehdr.e_shentsize)
              ≡ binary + ehdr.e_shoff + k * ehdr.e_shentsize =
            omega (arith, le, inside, fits) in
          ap (λ (a : ℕ). if ltb k ehdr.e_shnum then some (k, load32 m (a + 12)) else none)
            (ap (λ (o : ℕ). u64 (binary + ehdr.e_shoff + o)) product ∙ address)
      | inr past ↦ rw past refl
    ])

-- The image is smaller than 2 GiB and ends below 2 ^ 64, and if it has a whole header that starts with
-- the magic bytes, its table of section headers lies within it. Exactly if it has such a header,
-- `readelf` returns 0 and prints, for each index below e_shnum in order and no other, the word at offset
-- 12 of the header of that section, where the headers begin at e_shoff and are e_shentsize apart;
-- otherwise it returns -1 and prints nothing.
pub readelf-sections :
    (m : Mem) (binary size : ℕ)
    → size < 2 ^ 31
    → binary + size < 2 ^ 64
    → (IsElf m binary size → HasTable m binary size)
    → (IsElf m binary size
        × ((readelf m binary size).0 ≡ pos 0)
        × ((k : ℕ) → get_elem? (readelf m binary size).1 k ≡ section m binary k))
      ⊎ (¬ IsElf m binary size × (readelf m binary size ≡ (negsuc 0, [])))
unfolding readelf
readelf-sections m binary size small fits table = elim (Bool-cases (is_elf_format m binary size)) [
  | inl elf ↦
      let is = (is_elf_format_iff m binary size).0 elf in
      inl (is, rw elf refl, λ k. rw elf (sections-get m binary size k small fits (table is)))
  | inr other ↦ inr (
    λ is_elf. true_ne_false (sym ((is_elf_format_iff m binary size).1 is_elf) ∙ other),
    rw other refl,
  )
]
