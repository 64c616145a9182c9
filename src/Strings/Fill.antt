-- ===== src/Strings/Fill.antt =====
-- The bytes that `memset` of lib/string.c writes.
use riscv_mos.Base.{
  ℕ, zero, suc, ◌+◌, ◌%◌, ◌≤◌, ◌<◌, ◌≡◌, refl, Bool, true, ◌&&◌, ◌==◌, inl, inr, arith, leb, ltb,
  if◌then◌else◌, bit_and, bit_and-mask, ==→eq, Bool-cases,
}
use riscv_mos.Mem.{Mem, store8, load, store}
use riscv_mos.Mem.Laws.{store-load}
use riscv_mos.Strings.{misaligned, fill_head, fill_words, fill_tail, repeat_byte, memset}

-- The bytes from `dst` up to the end pointer, at most `max`, are `g`; the others are those of `m`.
pub record Written (g : ℕ → ℕ) (max : ℕ) (m : Mem) (dst : ℕ) (r : ℕ × Mem) : Type 0 where
  pub forward : dst ≤ r.0
  pub within : dst ≤ max → r.0 ≤ max
  pub bytes : (a : ℕ) → r.1 a ≡ (if leb dst a && ltb a r.0 then g a else m a)

pub Written-refl : (g : ℕ → ℕ) (max : ℕ) (m : Mem) (dst : ℕ) → Written g max m dst (dst, m)
Written-refl g max m dst = record {
  forward = omega arith;
  within = λ h. h;
  bytes = λ a. ground arith;
}

pub Written-trans :
    {g : ℕ → ℕ} {max : ℕ} {m : Mem} {dst : ℕ} {r s : ℕ × Mem}
    → Written g max m dst r
    → Written g max r.1 r.0 s
    → Written g max m dst s
Written-trans w v = record {
  forward = omega (arith, w.forward, v.forward);
  within = λ h. v.within (w.within h);
  bytes = λ a. ground (arith, w.forward, v.forward, w.bytes a, v.bytes a);
}

-- Whether the word of `memset` has the byte `b` in each of its four bytes, for all `b` below a bound.
words_agree : (bound : ℕ) → Bool
words_agree zero = true
words_agree (suc b) = repeat_byte b == load 4 (λ _. b) 0 && words_agree b

words_agree_at :
    (bound b : ℕ) → b < bound → words_agree bound ≡ true → repeat_byte b ≡ load 4 (λ _. b) 0
unfolding words_agree
words_agree_at zero b h agree = absurd (omega arith)
words_agree_at (suc last) b h agree = elim (Bool-cases (b == last)) [
  | inl e ↦
      let same : b ≡ last = ground arith in
      let now : (repeat_byte last == load 4 (λ _. last) 0) ≡ true = ground arith in
      rw same (==→eq _ _ now)
  | inr e ↦ words_agree_at last b (ground arith) (ground arith)
]

all_words_agree : words_agree 256 ≡ true
unfolding words_agree repeat_byte load
all_words_agree = refl

repeat_byte-load : (b d : ℕ) → b < 256 → repeat_byte b ≡ load 4 (λ _. b) d
unfolding load
repeat_byte-load b d h = words_agree_at 256 b h all_words_agree

module _ (max byte : ℕ) where
  Written-byte :
      (m : Mem) (dst : ℕ)
      → byte < 256
      → dst < max
      → Written (λ _. byte) max m dst (dst + 1, store8 m dst byte)
  unfolding store8
  Written-byte m dst small room = record {
    forward = omega arith;
    within = λ h. omega arith;
    bytes = λ a. ground arith;
  }

  Written-word :
      (m : Mem) (dst : ℕ)
      → byte < 256
      → dst + 4 ≤ max
      → Written (λ _. byte) max m dst (dst + 4, store 4 m dst (repeat_byte byte))
  Written-word m dst small room = record {
    forward = omega arith;
    within = λ h. room;
    bytes = λ a.
        rw (repeat_byte-load byte dst small) (ground (arith, store-load 4 m (λ _. byte) dst dst a));
  }

  fill_head-Written :
      (f dst : ℕ) (m : Mem)
      → byte < 256
      → Written (λ _. byte) max m dst (fill_head f dst max byte m)
  unfolding fill_head
  fill_head-Written zero dst m small = Written-refl _ max m dst
  fill_head-Written (suc f) dst m small = elim (Bool-cases (misaligned dst && ltb dst max)) [
    | inl more ↦ rw more (
        Written-trans (Written-byte m dst small (ground arith))
          (fill_head-Written f (dst + 1) (store8 m dst byte) small))
    | inr stop ↦ rw stop (Written-refl _ max m dst)
  ]

  fill_words-Written :
      (f dst : ℕ) (m : Mem)
      → byte < 256
      → Written (λ _. byte) max m dst (fill_words f dst max (repeat_byte byte) m)
  unfolding fill_words
  fill_words-Written zero dst m small = Written-refl _ max m dst
  fill_words-Written (suc f) dst m small = elim (Bool-cases (leb (dst + 4) max)) [
    | inl more ↦ rw more (
        Written-trans (Written-word m dst small (ground arith))
          (fill_words-Written f (dst + 4) (store 4 m dst (repeat_byte byte)) small))
    | inr stop ↦ rw stop (Written-refl _ max m dst)
  ]

  fill_tail-Written :
      (f dst : ℕ) (m : Mem)
      → byte < 256
      → Written (λ _. byte) max m dst (fill_tail f dst max byte m)
  unfolding fill_tail
  fill_tail-Written zero dst m small = Written-refl _ max m dst
  fill_tail-Written (suc f) dst m small = elim (Bool-cases (ltb dst max)) [
    | inl more ↦ rw more (
        Written-trans (Written-byte m dst small (ground arith))
          (fill_tail-Written f (dst + 1) (store8 m dst byte) small))
    | inr stop ↦ rw stop (Written-refl _ max m dst)
  ]

  -- The last loop runs up to `max`.
  fill_tail-max :
      (f dst : ℕ) (m : Mem) → dst ≤ max → max ≤ dst + f → (fill_tail f dst max byte m).0 ≡ max
  unfolding fill_tail
  fill_tail-max zero dst m low fuel = omega arith
  fill_tail-max (suc f) dst m low fuel = elim (Bool-cases (ltb dst max)) [
    | inl more ↦
        rw more (fill_tail-max f (dst + 1) (store8 m dst byte) (ground arith) (omega arith))
    | inr stop ↦ rw stop (ground arith)
  ]

-- `memset` returns its first argument; the `n` bytes from there are the low byte of `c` and every
-- other byte is as before.
pub memset-bytes :
    (dst c n a : ℕ) (m : Mem)
    → ((memset dst c n m).0 ≡ dst)
      × ((memset dst c n m).1 a ≡ (if leb dst a && ltb a (dst + n) then c % 256 else m a))
unfolding memset
memset-bytes dst c n a m =
    let byte = bit_and c 0xff in
    let low : byte ≡ c % 256 = bit_and-mask 8 c in
    let small : byte < 256 = omega arith in
    let h = fill_head n dst (dst + n) byte m in
    let w = fill_words n h.0 (dst + n) (repeat_byte byte) h.1 in
    let t = fill_tail n w.0 (dst + n) byte w.1 in
    let hw = fill_head-Written (dst + n) byte n dst m small in
    let ww = fill_words-Written (dst + n) byte n h.0 h.1 small in
    let tw = fill_tail-Written (dst + n) byte n w.0 w.1 small in
    let front = Written-trans hw ww in
    let all = Written-trans front tw in
    let end : t.0 ≡ dst + n =
      fill_tail-max (dst + n) byte n w.0 w.1 (front.within (omega arith))
        (omega (arith, front.forward)) in
    (refl, ground (arith, all.bytes a))
