-- ===== src/Strings.antt =====
-- lib/string.c over byte memory. A `while` loop runs on fuel; each caller gives the fuel that its
-- pointers can use up. A function that writes returns its pointer and the memory.
pub mod Copy
pub mod Fill
pub mod Text
use riscv_mos.Base.{
  ℕ, zero, suc, ◌+◌, ◌*◌, ◌%◌, ◌^◌, bit_and, bit_or, Bool, not, ◌&&◌, ◌==◌, leb, ltb, if◌then◌else◌,
}
use riscv_mos.Mem.{Mem, store8, load32, store32}

-- `(u_long)p & 3`
abbrev pub misaligned : ℕ → Bool
misaligned p = not (bit_and p 3 == 0)

-- `while (((u_long)dst & 3) && dst < max) *dst++ = byte;`
pub fill_head : ℕ → (dst max byte : ℕ) → Mem → ℕ × Mem
fill_head zero dst max byte m = (dst, m)
fill_head (suc fuel) dst max byte m =
    let rest = fill_head fuel (dst + 1) max byte (store8 m dst byte) in
    if misaligned dst && ltb dst max then rest else (dst, m)

-- `while (dst + 4 <= max) { *(uint32_t *)dst = word; dst += 4; }`
pub fill_words : ℕ → (dst max word : ℕ) → Mem → ℕ × Mem
fill_words zero dst max word m = (dst, m)
fill_words (suc fuel) dst max word m =
    let rest = fill_words fuel (dst + 4) max word (store32 m dst word) in
    if leb (dst + 4) max then rest else (dst, m)

-- `while (dst < max) *dst++ = byte;`
pub fill_tail : ℕ → (dst max byte : ℕ) → Mem → ℕ × Mem
fill_tail zero dst max byte m = (dst, m)
fill_tail (suc fuel) dst max byte m =
    let rest = fill_tail fuel (dst + 1) max byte (store8 m dst byte) in
    if ltb dst max then rest else (dst, m)

-- `byte | byte << 8 | byte << 16 | byte << 24`
pub repeat_byte : ℕ → ℕ
repeat_byte b = bit_or (bit_or (bit_or b (b * 2 ^ 8)) (b * 2 ^ 16)) (b * 2 ^ 24)

unfoldable pub memset : (dst c n : ℕ) → Mem → ℕ × Mem
unfolding fill_head fill_words fill_tail repeat_byte
memset dst c n m =
    let max = dst + n in
    let byte = bit_and c 0xff in
    let word = repeat_byte byte in
    let (d, m) = fill_head n dst max byte m in
    let (d, m) = fill_words n d max word m in let (_, m) = fill_tail n d max byte m in (dst, m)
