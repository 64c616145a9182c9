-- ===== src/Vm/Own.antt =====
-- The entry of a root that points back at it, as `env_setup_vm` of kern/env.c writes it.
use riscv_mos.Base.{
  ℕ, zero, suc, ◌+◌, ◌*◌, ◌/◌, ◌<◌, ◌≡◌, ◌≢◌, ◌∙◌, ap, ◌⊎◌, inl, inr, arith, List, some, bit_or,
  bit_or_digit, bit_or-field, bit_or-one, Bool-cases, ◌==◌, ◌^◌,
}
use riscv_mos.Mem.{Mem, load64, store64}
use riscv_mos.Vm.{entry}
use riscv_mos.Vm.Pte.{vpn, pte_v, pte2pa, pa2pte, pte_r, pte_u, table_value}
use riscv_mos.Vm.Tables.{
  Place, IsTable, Ordinary, no_own, no_own-Ordinary, ordinary, pte_of, pte_of-step, vpn-lt,
  slot-store_other,
}

module _ {m : Mem} {root : ℕ} {place : Place} {xs : List ℕ} (t : IsTable no_own m root place xs)
    (own w : ℕ) (hi : own < 512) where
  abbrev changed : Mem
  changed = store64 m (root + 8 * own) w

  other_word :
      (p l pre i : ℕ)
      → place p ≡ some (l, pre)
      → i < 512
      → (p ≢ root) ⊎ (i ≢ own)
      → load64 changed (p + 8 * i) ≡ load64 m (p + 8 * i)
  other_word p l pre i at h ne =
      slot-store_other m p root i own w (t.frame p l pre at) (t.frame root 2 0 t.root_place) h hi ne

  not_root : (p l pre : ℕ) → place p ≡ some (l, pre) → l ≢ 2 → p ≢ root
  not_root p l pre at low e = low (cc (ap place e))

  not_own :
      (p l pre i : ℕ) → place p ≡ some (suc l, pre) → (l ≡ 1 → i ≢ own) → (p ≢ root) ⊎ (i ≢ own)
  not_own p l pre i at o = elim (Bool-cases (l == 1)) [
    | inl e ↦ inr (o (ground arith))
    | inr e ↦ inl (not_root p (suc l) pre at (ground arith))
  ]

  pub IsTable-own : IsTable own changed root place xs
  IsTable-own = record {
    root_place = t.root_place;
    frame = t.frame;
    used = t.used;
    child = λ p l pre i at h o v.
        let same = other_word p (suc l) pre i at h (not_own p l pre i at o) in
        rw same (t.child p l pre i at h (λ _ e. omega (arith, h, e)) (rw same at v));
  }

  pub pte_of-own :
      (l p pre a : ℕ)
      → place p ≡ some (l, pre)
      → Ordinary own a
      → pte_of changed l p a ≡ pte_of m l p a
  unfolding pte_of
  pte_of-own zero p pre a at o =
      other_word p 0 pre (vpn 0 a) at (vpn-lt 0 a) (inl (not_root p 0 pre at (omega arith)))
  pte_of-own (suc l) p pre a at o =
      pte_of-step m changed l p a
        (other_word p (suc l) pre (vpn (suc l) a) at (vpn-lt (suc l) a)
          (not_own p l pre (vpn (suc l) a) at (ordinary l a o)))
        λ v.
          pte_of-own l (pte2pa (load64 m (entry p (suc l) a))) (pre * 512 + vpn (suc l) a) a
            (t.child p l pre (vpn (suc l) a) at (vpn-lt (suc l) a)
              (ordinary l a (no_own-Ordinary a)) v)
            o

-- The flags of the entry, one after the other.
or_two : (q : ℕ) → bit_or (q * 1024 + 1) 2 ≡ q * 1024 + 3
or_two q =
    let half : (q * 1024 + 1) / 2 ≡ q * 512 = omega arith in
    bit_or_digit (q * 1024 + 1) 2
    ∙ rw half (omega (arith, bit_or-field 9 q 1 (omega arith), bit_or-one (q * 512)))

or_sixteen : (q : ℕ) → bit_or (q * 1024 + 3) 16 ≡ q * 1024 + 19
or_sixteen q =
    let d1 : (q * 1024 + 3) / 2 ≡ q * 512 + 1 = omega arith in
    let d2 : (q * 512 + 1) / 2 ≡ q * 256 = omega arith in
    let d3 : q * 256 / 2 ≡ q * 128 = omega arith in
    let d4 : q * 128 / 2 ≡ q * 64 = omega arith in
    omega (
      arith,
      (rw d1 at (bit_or_digit (q * 1024 + 3) 16)),
      (rw d2 at (bit_or_digit (q * 512 + 1) 8)),
      (rw d3 at (bit_or_digit (q * 256) 4)),
      (rw d4 at (bit_or_digit (q * 128) 2)),
      bit_or-one (q * 64),
    )

-- The entry itself: the root, with PTE_V, PTE_R and PTE_U.
pub own_value :
    (p : ℕ)
    → p < 2 ^ 56
    → bit_or (bit_or (bit_or (pa2pte p) pte_v) pte_r) pte_u ≡ p / 4096 * 1024 + 19
own_value p range =
    ap (λ (v : ℕ). bit_or (bit_or v 2) 16) (table_value p range)
    ∙ ap (λ (v : ℕ). bit_or v 16) (or_two (p / 4096))
    ∙ or_sixteen (p / 4096)
