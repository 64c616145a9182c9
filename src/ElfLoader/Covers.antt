-- ===== src/ElfLoader/Covers.antt =====
-- What `elf_load_seg` of lib/elfloader.c asks of its callback.
use riscv_mos.Base.{
  ℕ, zero, suc, ◌+◌, ◌-◌, ◌*◌, ◌/◌, ◌%◌, ◌^◌, ◌≤◌, ◌<◌, ◌≡◌, refl, ◌∙◌, arith, ◌&&◌, ◌==◌, ltb, leb,
  if◌then◌else◌, none, some, min_of, min_of-cases, min_of-le, rounddown, rounddown-page, u64, pos,
  neg, Bool-cases, inl, inr,
}
use riscv_mos.Kernel.{ok, page_size}
use riscv_mos.ElfLoader.{
  Phdr, Mapper, segment_perm, load_bytes, load_zeros, load_first, load_rest, elf_load_seg,
}

-- A callback that accepts only what continues the file: its state is the number of bytes that it has
-- been given, each at its own address, at its own place in the page, and none across the page's end.
abbrev pub in_order : (start bin : ℕ) → Mapper ℕ
in_order start bin va offset perm none len n =
    if leb (offset + len) page_size then ok (pos 0) n else ok (neg 1) n
in_order start bin va offset perm (some p) len n =
    if p == bin + n && va == start + n && offset == va % page_size && leb (offset + len) page_size
    then ok (pos 0) (n + len)
    else ok (neg 1) n

-- How far `i` is when `n` bytes of `size` have been given.
record At (va size i n : ℕ) : Type 0 where
  before : i < size → n ≡ i
  page : i < size → (va + i) % page_size ≡ 0
  behind : size ≤ i → n ≡ size

At-next :
    (va size i n : ℕ)
    → i < size
    → At va size i n
    → At va size (i + page_size) (n + min_of (size - i) page_size)
At-next va size i n low h = record {
  before = λ l. ground (arith, min_of-cases (size - i) page_size, h.before low);
  page = λ l. omega (arith, h.page low);
  behind = λ l. ground (arith, min_of-cases (size - i) page_size, h.before low);
}

load_bytes-all :
    (fuel va perm bin size i n : ℕ)
    → At va size i n
    → 0 < fuel
    → size + page_size ≤ i + fuel * page_size
    → va + size + page_size < 2 ^ 64
    → (j : ℕ) × (load_bytes (in_order va bin) fuel va perm bin size i n ≡ ok (pos 0, j) size)
unfolding load_bytes
load_bytes-all zero va perm bin size i n h some_fuel enough range = absurd (omega arith)
load_bytes-all (suc f) va perm bin size i n h some_fuel enough range =
    elim (Bool-cases (ltb i size)) [
      | inr e ↦ (i, ground (arith, h.behind))
      | inl e ↦
          let low : i < size = ground arith in
          let here : n ≡ i = h.before low in
          let aligned = h.page low in
          let no_wrap : u64 (va + i) ≡ va + i = omega arith in
          let next : u64 (i + page_size) ≡ i + page_size = omega arith in
          let room : min_of (size - i) page_size ≤ page_size = (min_of-le (size - i) page_size).1 in
          let given : in_order va bin (u64 (va + i)) 0 perm (some (bin + i))
                (min_of (size - i) page_size) n
              ≡ ok (pos 0) (n + min_of (size - i) page_size) =
            ground arith in
          let (j, r) =
            load_bytes-all f va perm bin size (i + page_size) (n + min_of (size - i) page_size)
              (At-next va size i n low h) (omega arith) (omega arith) range in
          let step : load_bytes (in_order va bin) (suc f) va perm bin size i n
              ≡ load_bytes (in_order va bin) f va perm bin size (i + page_size)
                  (n + min_of (size - i) page_size) =
            rw (e, given, next) refl in
          (j, step ∙ r)
    ]

load_zeros-all :
    (fuel va perm start bin size i n : ℕ)
    → 0 < fuel
    → size + page_size ≤ i + fuel * page_size
    → va + size + page_size < 2 ^ 64
    → load_zeros (in_order start bin) fuel va perm size i n ≡ ok (pos 0) n
unfolding load_zeros
load_zeros-all zero va perm start bin size i n some_fuel enough range = absurd (omega arith)
load_zeros-all (suc f) va perm start bin size i n some_fuel enough range =
    elim (Bool-cases (ltb i size)) [
      | inr e ↦ ground arith
      | inl e ↦
          let low : i < size = ground arith in
          let next : u64 (i + page_size) ≡ i + page_size = omega arith in
          let room : min_of (size - i) page_size ≤ page_size = (min_of-le (size - i) page_size).1 in
          let given : in_order start bin (u64 (va + i)) 0 perm none (min_of (size - i) page_size) n
              ≡ ok (pos 0) n =
            ground arith in
          rw (e, given, next)
            (load_zeros-all f va perm start bin size (i + page_size) n (omega arith) (omega arith)
              range)
    ]

-- How many bytes the first call gives: none if the segment starts a page.
abbrev first_len : (va size : ℕ) → ℕ
first_len va size = if va % 4096 == 0 then 0 else min_of size (4096 - va % 4096)

load_first-given :
    (va perm bin size : ℕ)
    → load_first (in_order va bin) va (va % 4096) perm bin (min_of size (4096 - va % 4096)) 0
      ≡ ok (pos 0) (first_len va size)
unfolding load_first
load_first-given va perm bin size = ground (arith, min_of-le size (4096 - va % 4096))

first_len-At : (va size : ℕ) → At va size (first_len va size) (first_len va size)
first_len-At va size = record {
  before = λ l. refl;
  page = λ l. elim (Bool-cases (va % 4096 == 0)) [
    | inl e ↦ rw e (ground arith)
    | inr e ↦ ground (arith, min_of-cases size (4096 - va % 4096))
  ];
  behind = λ l. ground (arith, min_of-cases size (4096 - va % 4096));
}

-- `elf_load_seg` returns 0 and has given every byte of the file's part of the segment once, in order, at
-- its own address, in calls that stay within a page each, if the callback accepts such calls and the
-- addresses of the segment, with a page more, do not wrap around.
pub elf_load_seg-covers :
    (ph : Phdr) (bin : ℕ)
    → ph.p_vaddr + ph.p_filesz + page_size < 2 ^ 64
    → ph.p_vaddr + ph.p_memsz + page_size < 2 ^ 64
    → elf_load_seg (in_order ph.p_vaddr bin) ph bin 0 ≡ ok (pos 0) ph.p_filesz
unfolding elf_load_seg load_first load_rest
elf_load_seg-covers ph bin file memory =
    let va = ph.p_vaddr in
    let down : rounddown va page_size ≡ va / 4096 * 4096 = rounddown-page va (omega arith) in
    let offset : va - rounddown va page_size ≡ va % 4096 = omega (arith, down) in
    let (j, all) =
      load_bytes-all (ph.p_filesz / page_size + 2) va (segment_perm ph) bin ph.p_filesz _ _
        (first_len-At va ph.p_filesz) (omega arith) (omega arith) file in
    rw (offset, load_first-given va (segment_perm ph) bin ph.p_filesz, all)
      (load_zeros-all (ph.p_memsz / page_size + 2) va (segment_perm ph) va bin ph.p_memsz j
        ph.p_filesz (omega arith) (omega arith) memory)
