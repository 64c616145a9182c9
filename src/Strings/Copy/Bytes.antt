-- ===== src/Strings/Copy/Bytes.antt =====
-- The bytes that `memcpy` of lib/string.c writes.
use riscv_mos.Base.{
  ℕ, zero, suc, ◌+◌, ◌-◌, ◌%◌, ◌≤◌, ◌<◌, ◌≡◌, ◌⊎◌, inl, inr, refl, ap, ◌∙◌, arith, ◌&&◌, ◌==◌, leb,
  ltb, if◌then◌else◌, bit_and, Bool-cases,
}
use riscv_mos.Mem.{Mem, store8, load, store}
use riscv_mos.Mem.Laws.{store-load}
use riscv_mos.Strings.{misaligned}
use riscv_mos.Strings.Copy.{copy_head, copy_words, copy_bytes, memcpy}

-- The ranges of `n` bytes do not meet.
abbrev pub Apart : (dst src n : ℕ) → Type 0
Apart dst src n = (dst + n ≤ src) ⊎ (src + n ≤ dst)

-- The pointers and the memory after `k` bytes of `n` have been copied from memory `m`.
record Copied (dst src n : ℕ) (m : Mem) (r : ℕ × ℕ × Mem) : Type 0 where
  low : dst ≤ r.0
  high : r.0 ≤ dst + n
  source : r.1 + dst ≡ src + r.0
  bytes : (a : ℕ) → r.2 a ≡ (if leb dst a && ltb a r.0 then m (src + (a - dst)) % 256 else m a)

module _ (dst src n : ℕ) (m : Mem) (apart : Apart dst src n) where
  -- A byte that is still to be copied has not been written.
  unread :
      (d s a : ℕ) (m' : Mem)
      → Copied dst src n m (d, s, m')
      → d ≤ a
      → a < dst + n
      → m' (s + (a - d)) ≡ m (src + (a - dst))
  unread d s a m' h lo hi =
      let place : s + (a - d) ≡ src + (a - dst) = omega (arith, h.source, h.low) in
      rw place (ground (arith, h.bytes (src + (a - dst)), h.low, apart))

  Copied-byte :
      (d s : ℕ) (m' : Mem)
      → Copied dst src n m (d, s, m')
      → d < dst + n
      → Copied dst src n m (d + 1, s + 1, store8 m' d (m' s))
  unfolding store8
  Copied-byte d s m' h room = record {
    low = omega (arith, h.low);
    high = omega arith;
    source = omega (arith, h.source);
    bytes = λ a.
        let first : s ≡ s + (d - d) = omega arith in
        let here : m' s ≡ m (src + (d - dst)) =
          ap m' first ∙ unread d s d m' h (omega arith) room in
        elim (Bool-cases (a == d)) [
          | inl e ↦ let e' : a ≡ d = ground arith in rw e' (ground (arith, h.low, here))
          | inr e ↦ ground (arith, h.low, h.bytes a)
        ];
  }

  Copied-word :
      (d s : ℕ) (m' : Mem)
      → Copied dst src n m (d, s, m')
      → d + 4 ≤ dst + n
      → Copied dst src n m (d + 4, s + 4, store 4 m' d (load 4 m' s))
  Copied-word d s m' h room = record {
    low = omega (arith, h.low);
    high = omega arith;
    source = omega (arith, h.source);
    bytes = λ a. elim (Bool-cases (leb d a && ltb a (d + 4))) [
      | inl e ↦
          ground (
            arith,
            h.low,
            store-load 4 m' m' d s a,
            unread d s a m' h (ground arith) (ground arith),
          )
      | inr e ↦ ground (arith, h.low, h.bytes a, store-load 4 m' m' d s a)
    ];
  }

  copy_head-Copied :
      (f d s : ℕ) (m' : Mem)
      → Copied dst src n m (d, s, m')
      → Copied dst src n m (copy_head f d s (dst + n) m')
  unfolding copy_head
  copy_head-Copied zero d s m' h = h
  copy_head-Copied (suc f) d s m' h = elim (Bool-cases (misaligned d && ltb d (dst + n))) [
    | inl more ↦
        rw more (copy_head-Copied f (d + 1) (s + 1) _ (Copied-byte d s m' h (ground arith)))
    | inr stop ↦ rw stop h
  ]

  copy_words-Copied :
      (f d s : ℕ) (m' : Mem)
      → Copied dst src n m (d, s, m')
      → Copied dst src n m (copy_words f d s (dst + n) m')
  unfolding copy_words
  copy_words-Copied zero d s m' h = h
  copy_words-Copied (suc f) d s m' h = elim (Bool-cases (leb (d + 4) (dst + n))) [
    | inl more ↦
        rw more (copy_words-Copied f (d + 4) (s + 4) _ (Copied-word d s m' h (ground arith)))
    | inr stop ↦ rw stop h
  ]

  -- The last loop runs to the end.
  copy_bytes-Copied :
      (f d s : ℕ) (m' : Mem)
      → Copied dst src n m (d, s, m')
      → dst + n ≤ d + f
      → Copied dst src n m (copy_bytes f d s (dst + n) m')
        × ((copy_bytes f d s (dst + n) m').0 ≡ dst + n)
  unfolding copy_bytes
  copy_bytes-Copied zero d s m' h fuel = (h, omega (arith, h.high))
  copy_bytes-Copied (suc f) d s m' h fuel = elim (Bool-cases (ltb d (dst + n))) [
    | inl more ↦
        rw more (
          copy_bytes-Copied f (d + 1) (s + 1) _ (Copied-byte d s m' h (ground arith)) (omega arith))
    | inr stop ↦ rw stop (h, ground (arith, h.high))
  ]

  start-Copied : Copied dst src n m (dst, src, m)
  start-Copied = record {
    low = omega arith;
    high = omega arith;
    source = omega arith;
    bytes = λ a. ground arith;
  }

-- If the two ranges of `n` bytes do not meet, `memcpy` returns its first argument; the `n` bytes
-- from there are those from `src` on, modulo 256, and every other byte is as before.
pub memcpy-bytes :
    (dst src n a : ℕ) (m : Mem)
    → Apart dst src n
    → ((memcpy dst src n m).0 ≡ dst)
      × ((memcpy dst src n m).1 a
          ≡ (if leb dst a && ltb a (dst + n) then m (src + (a - dst)) % 256 else m a))
unfolding memcpy
memcpy-bytes dst src n a m apart = elim (Bool-cases (bit_and src 3 == bit_and dst 3)) [
  | inr other ↦
      let (h, end) =
        copy_bytes-Copied dst src n m apart n dst src m (start-Copied dst src n m apart)
          (omega arith) in
      rw other (refl, ground (arith, h.bytes a, end))
  | inl alike ↦
      let hd = copy_head n dst src (dst + n) m in
      let hw = copy_head-Copied dst src n m apart n dst src m (start-Copied dst src n m apart) in
      let wd = copy_words n hd.0 hd.1 (dst + n) hd.2 in
      let ww = copy_words-Copied dst src n m apart n hd.0 hd.1 hd.2 hw in
      let (h, end) =
        copy_bytes-Copied dst src n m apart n wd.0 wd.1 wd.2 ww (omega (arith, ww.low)) in
      rw alike (refl, ground (arith, h.bytes a, end))
]
