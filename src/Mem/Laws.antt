-- ===== src/Mem/Laws.antt =====
-- Words of memory: reading, writing, and the bytes in between.
use native.Mathlib.Nat.{pow-suc}
use riscv_mos.Base.{
  ℕ, zero, suc, ◌+◌, ◌-◌, ◌*◌, ◌/◌, ◌%◌, ◌^◌, ◌≤◌, ◌<◌, ◌≡◌, refl, ap, ◌∙◌, ◌⊎◌, inl, ◌&&◌, arith,
  leb, ltb, if◌then◌else◌,
}
use riscv_mos.Mem.{Mem, load, store, store8}

pub store-outside : (k : ℕ) (m : Mem) (a v b : ℕ) → (b < a) ⊎ (a + k ≤ b) → store k m a v b ≡ m b
unfolding store
store-outside zero m a v b h = refl
store-outside (suc k) m a v b h = ground (arith, store-outside k (store8 m a v) (a + 1) (v / 256) b)

pub load-ext :
    (k : ℕ) (m n : Mem) (a : ℕ)
    → ((b : ℕ) → a ≤ b → b < a + k → m b ≡ n b)
    → load k m a ≡ load k n a
unfolding load
load-ext zero m n a h = refl
load-ext (suc k) m n a h = omega (
  arith,
  h a (omega arith) (omega arith),
  load-ext k m n (a + 1) (λ b p q. h b (omega arith) (omega arith)),
)

pub load-store_other :
    (j k : ℕ) (m : Mem) (a b v : ℕ)
    → (a + j ≤ b) ⊎ (b + k ≤ a)
    → load j (store k m b v) a ≡ load j m a
load-store_other j k m a b v h =
    load-ext j (store k m b v) m a (λ c p q. store-outside k m b v c (ground arith))

pub load-store : (k : ℕ) (m : Mem) (a v : ℕ) → v < 256 ^ k → load k (store k m a v) a ≡ v
unfolding load store
load-store zero m a v h = omega arith
load-store (suc k) m a v h = omega (
  arith,
  pow-suc 256 k,
  store-outside k (store8 m a v) (a + 1) (v / 256) a (inl (omega arith)),
  (let low : store8 m a v a ≡ v % 256 = ground arith in low),
  load-store k (store8 m a v) (a + 1) (v / 256) (omega (arith, pow-suc 256 k)),
)

pub load-lt : (k : ℕ) (m : Mem) (a : ℕ) → load k m a < 256 ^ k
unfolding load
load-lt zero m a = omega arith
load-lt (suc k) m a = omega (arith, pow-suc 256 k, load-lt k m (a + 1))

load-zeros : (k a : ℕ) → load k (λ b. 0) a ≡ 0
unfolding load
load-zeros zero a = refl
load-zeros (suc k) a = omega (arith, load-zeros k (a + 1))

-- A word of zero bytes is zero.
pub load-zero : (k : ℕ) (m : Mem) (a : ℕ) → ((b : ℕ) → a ≤ b → b < a + k → m b ≡ 0) → load k m a ≡ 0
load-zero k m a h = load-ext k m (λ b. 0) a h ∙ load-zeros k a

store-tail : (s a b : ℕ) → s + 1 + (b - (a + 1)) ≡ (if ltb a b then s + (b - a) else s + 1)
store-tail s a b = ground arith

-- Storing a word that was loaded copies its bytes one by one.
pub store-load :
    (k : ℕ) (m n : Mem) (a s b : ℕ)
    → store k m a (load k n s) b ≡ (if leb a b && ltb b (a + k) then n (s + (b - a)) % 256 else m b)
unfolding load store store8
store-load zero m n a s b = ground arith
store-load (suc k) m n a s b =
    let high : (n s % 256 + 256 * load k n (s + 1)) / 256 ≡ load k n (s + 1) = omega arith in
    rw high (
      ground (
        arith,
        store-load k (store8 m a (n s % 256 + 256 * load k n (s + 1))) n (a + 1) (s + 1) b,
        store-tail s a b,
        ap n (store-tail s a b),
      ))
