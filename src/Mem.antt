-- ===== src/Mem.antt =====
-- Physical memory as bytes at addresses, and the little-endian words that C reads and writes there.
-- Pointers are plain numbers; C pointer arithmetic does not wrap inside an object.
pub mod Laws
use riscv_mos.Base.{ℕ, zero, suc, ◌+◌, ◌*◌, ◌/◌, ◌%◌, ◌==◌, if◌then◌else◌}

abbrev pub Mem : Type 0
Mem = ℕ → ℕ

-- `*(u_char *)a = v`
unfoldable pub store8 : Mem → ℕ → ℕ → Mem
store8 m a v b = if b == a then v % 256 else m b

-- A word of `k` bytes, the lowest first.
unfoldable pub load : ℕ → Mem → ℕ → ℕ
load zero m a = 0
load (suc k) m a = m a % 256 + 256 * load k m (a + 1)

unfoldable pub store : ℕ → Mem → ℕ → ℕ → Mem
unfolding store8
store zero m a v = m
store (suc k) m a v = store k (store8 m a v) (a + 1) (v / 256)

abbrev pub load32 : Mem → ℕ → ℕ
load32 = load 4

abbrev pub store32 : Mem → ℕ → ℕ → Mem
store32 = store 4

abbrev pub load64 : Mem → ℕ → ℕ
load64 = load 8

abbrev pub store64 : Mem → ℕ → ℕ → Mem
store64 = store 8
