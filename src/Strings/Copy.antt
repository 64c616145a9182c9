-- ===== src/Strings/Copy.antt =====
-- `memcpy` of lib/string.c. Each loop takes its fuel, and the destination, the source and the memory;
-- it returns the three as they are after the loop.
pub mod Bytes
use riscv_mos.Base.{ℕ, zero, suc, ◌+◌, bit_and, not, ◌&&◌, ◌==◌, leb, ltb, if◌then◌else◌}
use riscv_mos.Mem.{Mem, store8, load32, store32}
use riscv_mos.Strings.{misaligned}

-- `while (((u_long)dst & 3) && dst < max) *dst++ = *src++;`
unfoldable pub copy_head : ℕ → (dst src max : ℕ) → Mem → ℕ × ℕ × Mem
copy_head zero dst src max m = (dst, src, m)
copy_head (suc fuel) dst src max m =
    let rest = copy_head fuel (dst + 1) (src + 1) max (store8 m dst (m src)) in
    if misaligned dst && ltb dst max then rest else (dst, src, m)

-- `while (dst + 4 <= max) { *(uint32_t *)dst = *(uint32_t *)src; dst += 4; src += 4; }`
unfoldable pub copy_words : ℕ → (dst src max : ℕ) → Mem → ℕ × ℕ × Mem
copy_words zero dst src max m = (dst, src, m)
copy_words (suc fuel) dst src max m =
    let rest = copy_words fuel (dst + 4) (src + 4) max (store32 m dst (load32 m src)) in
    if leb (dst + 4) max then rest else (dst, src, m)

-- `while (dst < max) *dst++ = *src++;`
unfoldable pub copy_bytes : ℕ → (dst src max : ℕ) → Mem → ℕ × ℕ × Mem
copy_bytes zero dst src max m = (dst, src, m)
copy_bytes (suc fuel) dst src max m =
    let rest = copy_bytes fuel (dst + 1) (src + 1) max (store8 m dst (m src)) in
    if ltb dst max then rest else (dst, src, m)

unfoldable pub memcpy : (dst src n : ℕ) → Mem → ℕ × Mem
unfolding copy_head copy_words copy_bytes
memcpy dst src n m =
    let max = dst + n in
    if not (bit_and src 3 == bit_and dst 3)
    then (let (_, _, m) = copy_bytes n dst src max m in (dst, m))
    else (let (d, s, m) = copy_head n dst src max m in
        let (d, s, m) = copy_words n d s max m in
        let (_, _, m) = copy_bytes n d s max m in (dst, m))
