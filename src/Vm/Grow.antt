-- ===== src/Vm/Grow.antt =====
-- A cleared page under an empty slot, as `walk` of kern/vm.c hangs it there.
use riscv_mos.Base.{
  ℕ, zero, suc, ◌+◌, ◌*◌, ◌/◌, ◌≤◌, ◌<◌, ◌⊎◌, ◌≡◌, ◌≢◌, refl, ◌∙◌, ap, true, false, ◌==◌, arith,
  if◌then◌else◌, bit_or, List, [], ◌∷◌, ◌∉◌, inl, inr, some, Bool-cases, eq→==, ne→==,
}
use riscv_mos.Mem.{Mem, load64, store64}
use riscv_mos.Mem.Laws.{load-store, load-store_other, store-outside}
use riscv_mos.Kernel.{Machine, ok, page_size}
use riscv_mos.Page.{zero_page}
use riscv_mos.Page.Chain.{
  IsFrame, IsZeroed, HasFree, SameOff, Chain, Chain-SameOff, load-SameOff, load-IsZeroed,
  memset-IsZeroed, memset-SameOff,
}
use riscv_mos.Page.Alloc.{kalloc-cons, kalloc-nil}
use riscv_mos.Strings.{memset}
use riscv_mos.Vm.{entry, new_table}
use riscv_mos.Vm.Pte.{vpn, flag, flag-valid, pte_v, pa2pte, pte2pa, pte2pa_lem, table_value}
use riscv_mos.Vm.Tables.{
  pte_of, Place, IsTable, Ordinary, ordinary, vpn-lt, pte_of-zeroed, pte_of-step,
}

-- `n` is `m` with the cleared page `f` linked into `slot`.
pub record Grown (m n : Mem) (f slot : ℕ) : Type 0 where
  pub zeroed : IsZeroed n f
  pub link : load64 n slot ≡ f / 4096 * 1024 + 1
  pub same :
      (p i : ℕ)
      → IsFrame p
      → i < 512
      → p ≢ f
      → p + 8 * i ≢ slot
      → load64 n (p + 8 * i) ≡ load64 m (p + 8 * i)

pub link_child : (f : ℕ) → IsFrame f → pte2pa (f / 4096 * 1024 + 1) ≡ f
link_child f fr =
    pte2pa_lem (f / 4096) 1 (omega arith) (omega (arith, fr.high)) ∙ omega (arith, fr.aligned)

abbrev pub extend : Place → ℕ → ℕ × ℕ → Place
extend place f at q = if q == f then some at else place q

module _ {own : ℕ} {m n : Mem} {root f p i l pre : ℕ} {place : Place} {xs : List ℕ}
    (t : IsTable own m root place (f ∷ xs)) (g : Grown m n f (p + 8 * i)) (fr : IsFrame f)
    (out : f ∉ xs) (at : place p ≡ some (suc l, pre)) (hi : i < 512)
    (free : flag (load64 m (p + 8 * i)) pte_v ≡ false) where
  placed-ne : (q l' pre' : ℕ) → place q ≡ some (l', pre') → q ≢ f
  placed-ne q l' pre' here e = let u = t.used q l' pre' here in ground arith

  -- Another slot keeps its word.
  kept :
      (q l' pre' j : ℕ)
      → place q ≡ some (l', pre')
      → j < 512
      → q + 8 * j ≢ p + 8 * i
      → load64 n (q + 8 * j) ≡ load64 m (q + 8 * j)
  kept q l' pre' j here hj ne = g.same q j (t.frame q l' pre' here) hj (placed-ne q l' pre' here) ne

  pub valid-grow :
      (q l' pre' j : ℕ)
      → place q ≡ some (l', pre')
      → j < 512
      → flag (load64 m (q + 8 * j)) pte_v ≡ true
      → load64 n (q + 8 * j) ≡ load64 m (q + 8 * j)
  valid-grow q l' pre' j here hj v =
      kept q l' pre' j here hj λ e. cc (ap (λ s. flag (load64 m s) pte_v) e)

  pub extends-grow :
      (q l' pre' : ℕ)
      → place q ≡ some (l', pre')
      → extend place f (l, pre * 512 + i) q ≡ some (l', pre')
  extends-grow q l' pre' here = rw (ne→== q f (placed-ne q l' pre' here)) here

  -- A slot belongs to one table only.
  same_slot :
      (q l' pre' j : ℕ)
      → place q ≡ some (l', pre')
      → j < 512
      → q + 8 * j ≡ p + 8 * i
      → (q ≡ p) × (j ≡ i)
  same_slot q l' pre' j here hj e =
      let fq = t.frame q l' pre' here in
      let fp = t.frame p (suc l) pre at in omega (arith, fq.aligned, fp.aligned)

  -- What the new slot leads to.
  linked :
      (q l' pre' j : ℕ)
      → place q ≡ some (suc l', pre')
      → j < 512
      → q + 8 * j ≡ p + 8 * i
      → extend place f (l, pre * 512 + i) (pte2pa (load64 n (q + 8 * j)))
        ≡ some (l', pre' * 512 + j)
  linked q l' pre' j here hj e =
      let s = same_slot q (suc l') pre' j here hj e in
      let here' : place p ≡ some (suc l', pre') = rw (s.0) at here in
      rw (e, g.link, link_child f fr, eq→== f f refl) (ground (arith, s.1))

  unlinked :
      (q l' pre' j : ℕ)
      → place q ≡ some (suc l', pre')
      → j < 512
      → q + 8 * j ≢ p + 8 * i
      → (l' ≡ 1 → j ≢ own)
      → flag (load64 n (q + 8 * j)) pte_v ≡ true
      → extend place f (l, pre * 512 + i) (pte2pa (load64 n (q + 8 * j)))
        ≡ some (l', pre' * 512 + j)
  unlinked q l' pre' j here hj ne o v =
      let same = kept q (suc l') pre' j here hj ne in
      let c = t.child q l' pre' j here hj o (rw same at v) in
      rw (same, ne→== _ f (placed-ne _ l' (pre' * 512 + j) c)) c

  pub IsTable-grow : IsTable own n root (extend place f (l, pre * 512 + i)) xs
  IsTable-grow = record {
    root_place = rw (ne→== root f (placed-ne root 2 0 t.root_place)) t.root_place;
    frame = λ q l' pre' here. elim (Bool-cases (q == f)) [
      | inl e ↦ let e' : q ≡ f = ground arith in rw e' fr
      | inr e ↦ t.frame q l' pre' (rw e at here)
    ];
    used = λ q l' pre' here. elim (Bool-cases (q == f)) [
      | inl e ↦ let e' : q ≡ f = ground arith in rw e' out
      | inr e ↦ let u = t.used q l' pre' (rw e at here) in ground arith
    ];
    child = λ q l' pre' j here hj o v. elim (Bool-cases (q == f)) [
      | inl e ↦
          let e' : q ≡ f = ground arith in
          let zero_word : load64 n (q + 8 * j) ≡ 0 =
            rw e' (load-IsZeroed n f (f + 8 * j) g.zeroed (omega arith) (omega arith)) in
          absurd (ground (arith, flag-valid 0, ap (λ (w : ℕ). flag w pte_v) zero_word))
      | inr e ↦
          let here' = rw e at here in
          elim (Bool-cases (q + 8 * j == p + 8 * i)) [
            | inl hit ↦ linked q l' pre' j here' hj (ground arith)
            | inr miss ↦ unlinked q l' pre' j here' hj (ground arith) o v
          ]
    ];
  }

  pub pte_of-grow :
      (l' q pre' va : ℕ)
      → place q ≡ some (l', pre')
      → Ordinary own va
      → pte_of n l' q va ≡ pte_of m l' q va
  unfolding pte_of
  pte_of-grow zero q pre' va here o =
      kept q 0 pre' (vpn 0 va) here (vpn-lt 0 va)
        λ e. let s = same_slot q 0 pre' (vpn 0 va) here (vpn-lt 0 va) e in cc (rw (s.0) at here)
  pte_of-grow (suc l') q pre' va here o = elim (Bool-cases (entry q (suc l') va == p + 8 * i)) [
    | inl hit ↦
        let e : entry q (suc l') va ≡ p + 8 * i = ground arith in
        rw (e, free, g.link, link_child f fr, pte_of-zeroed n l' f va g.zeroed) (ground arith)
    | inr miss ↦
        pte_of-step m n l' q va
          (kept q (suc l') pre' (vpn (suc l') va) here (vpn-lt (suc l') va) (ground arith))
          λ v.
            pte_of-grow l' (pte2pa (load64 m (entry q (suc l') va))) (pre' * 512 + vpn (suc l') va)
              va
              (t.child q l' pre' (vpn (suc l') va) here (vpn-lt (suc l') va) (ordinary l' va o) v) o
  ]

-- The state after `new_table` has taken the page `f`.
pub record NewTable (k k' : Machine) (f slot : ℕ) (xs : List ℕ) : Type 0 where
  pub grown : Grown k.mem k'.mem f slot
  pub rest : HasFree k' xs
  pub off :
      (a : ℕ) → (a < f) ⊎ (f + page_size ≤ a) → (a < slot) ⊎ (slot + 8 ≤ a) → k'.mem a ≡ k.mem a
  pub pagetable : k'.kernel_pagetable ≡ k.kernel_pagetable
  pub satp : k'.satp ≡ k.satp

module _ (k : Machine) (p i : ℕ) (fp : IsFrame p) (hi : i < 512) where
  write-SameOff : (m : Mem) (w : ℕ) → SameOff p m (store64 m (p + 8 * i) w)
  write-SameOff m w a off = store-outside 8 m (p + 8 * i) w a (ground arith)

  -- The memory after the page is cleared once more and linked.
  linked_mem : Mem → ℕ → Mem
  linked_mem m f = store64 (memset f 0 page_size m).1 (p + 8 * i) (bit_or (pa2pte f) pte_v)

  linked_mem-Grown :
      (m m1 : Mem) (f : ℕ)
      → IsFrame f
      → p ≢ f
      → SameOff f m m1
      → Grown m (linked_mem m1 f) f (p + 8 * i)
  unfolding linked_mem
  linked_mem-Grown m m1 f fr ne off =
      let m2 : Mem = (memset f 0 page_size m1).1 in
      let w : ℕ = bit_or (pa2pte f) pte_v in
      let value : w ≡ f / 4096 * 1024 + 1 = table_value f (omega (arith, fr.high)) in
      record {
        zeroed = λ a low high.
            store-outside 8 m2 (p + 8 * i) w a (ground (arith, fp.aligned, fr.aligned))
            ∙ memset-IsZeroed m1 f a low high;
        link = load-store 8 m2 (p + 8 * i) w (omega (arith, value, fr.high)) ∙ value;
        same = λ q j fq hj ne_f ne_slot.
            load-store_other 8 8 m2 (q + 8 * j) (p + 8 * i) w
              (ground (arith, fq.aligned, fp.aligned))
            ∙ load-SameOff m1 m2 f (q + 8 * j) (memset-SameOff m1 f)
                (ground (arith, fq.aligned, fr.aligned))
            ∙ load-SameOff m m1 f (q + 8 * j) off (ground (arith, fq.aligned, fr.aligned));
      }

  linked_mem-HasFree :
      (m : Mem) (f head : ℕ) (xs : List ℕ)
      → IsFrame f
      → f ∉ xs
      → p ∉ xs
      → Chain m head xs
      → Chain (linked_mem m f) head xs
  unfolding linked_mem
  linked_mem-HasFree m f head xs fr f_out p_out c =
      let m2 : Mem = (memset f 0 page_size m).1 in
      Chain-SameOff m2 (linked_mem m f) head p xs fp p_out (write-SameOff m2 _)
        (Chain-SameOff m m2 head f xs fr f_out (memset-SameOff m f) c)

  pub new_table-cons :
      (f : ℕ) (xs : List ℕ)
      → HasFree k (f ∷ xs)
      → p ∉ (f ∷ xs)
      → (k' : Machine) × (new_table (p + 8 * i) k ≡ ok f k') × NewTable k k' f (p + 8 * i) xs
  unfolding new_table zero_page linked_mem
  new_table-cons f xs (head, fr, f_out, c) out =
      let (k1, e1, c1, z1, o1) = kalloc-cons k f xs (head, fr, f_out, c) in
      let nonnull : (f == 0) ≡ false = ground (arith, fr.low) in
      let ne : p ≢ f = ground arith in
      (
        record k1 { mem = linked_mem k1.mem f },
        rw (e1, nonnull),
        record {
          grown = linked_mem-Grown k.mem k1.mem f fr ne o1.off;
          off = λ a off_f off_slot.
              store-outside 8 (memset f 0 page_size k1.mem).1 (p + 8 * i) _ a off_slot
              ∙ memset-SameOff k1.mem f a off_f
              ∙ o1.off a off_f;
          rest = linked_mem-HasFree k1.mem f k1.freelist xs fr f_out (ground arith) c1;
          pagetable = o1.pagetable;
          satp = o1.satp;
        },
      )

  pub new_table-nil : HasFree k [] → new_table (p + 8 * i) k ≡ ok 0 k
  unfolding new_table
  new_table-nil c = rw (kalloc-nil k c)
