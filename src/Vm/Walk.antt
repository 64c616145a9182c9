-- ===== src/Vm/Walk.antt =====
-- `walk` of kern/vm.c, with and without the creation of tables.
use riscv_mos.Base.{
  ℕ, zero, suc, ◌+◌, ◌*◌, ◌/◌, ◌≤◌, ◌<◌, ◌≡◌, ◌≢◌, refl, sym, ◌∙◌, true, false, ◌==◌, arith, leb,
  List, [], ◌∷◌, ◌∉◌, inl, inr, some, Bool-cases, eq→==, ne→==, length,
}
use riscv_mos.Mem.{load64}
use riscv_mos.Kernel.{Machine, Outcome, ok, maxva}
use riscv_mos.Page.Chain.{IsFrame, HasFree}
use riscv_mos.Vm.{entry, walk_levels, walk}
use riscv_mos.Vm.Pte.{vpn, flag, flag-valid, pte_v, pte2pa}
use riscv_mos.Vm.Tables.{pte_of, Place, IsTable, Ordinary, ordinary, vpn-lt, Finds}
use riscv_mos.Vm.Spared.{Spared, Spared-refl, Spared-trans, placed-apart}
use riscv_mos.Vm.Grow.{
  NewTable, valid-grow, extends-grow, extend, IsTable-grow, pte_of-grow, link_child, new_table-cons,
  new_table-nil,
}

-- The outcome of a walk that may create tables, from the table `p` of level `l`: a slot, NULL only
-- when too few pages were free, and no translation changed.
pub record Walked (own root l p va : ℕ) (k : Machine) (place : Place) (xs : List ℕ)
    (r : Outcome Machine ℕ) : Type 0 where
  pub slot : ℕ
  pub after : Machine
  pub places : Place
  pub rest : List ℕ
  pub runs : r ≡ ok slot after
  pub table : IsTable own after.mem root places rest
  pub free : HasFree after rest
  pub found : slot ≢ 0 → Finds after.mem l p va slot
  pub exhausted : slot ≡ 0 → length xs < l
  pub uses : length xs ≤ length rest + l
  pub reuses : (s : ℕ) → Finds k.mem l p va s → length xs ≤ length rest
  pub extends : (q lv pre : ℕ) → place q ≡ some (lv, pre) → places q ≡ some (lv, pre)
  pub kept :
      (lv q pre a : ℕ)
      → place q ≡ some (lv, pre)
      → Ordinary own a
      → pte_of after.mem lv q a ≡ pte_of k.mem lv q a
  pub valid :
      (q lv pre i : ℕ)
      → place q ≡ some (suc lv, pre)
      → i < 512
      → flag (load64 k.mem (q + 8 * i)) pte_v ≡ true
      → load64 after.mem (q + 8 * i) ≡ load64 k.mem (q + 8 * i)
  pub spared : Spared place xs k.mem places rest after.mem
  pub pagetable : after.kernel_pagetable ≡ k.kernel_pagetable
  pub satp : after.satp ≡ k.satp

module _ {own root va l p pre : ℕ} {place : Place} {xs : List ℕ} {k : Machine}
    (t : IsTable own k.mem root place xs) (at : place p ≡ some (suc l, pre)) where
  -- One level up, through an entry that is there.
  Walked-down :
      (r : Outcome Machine ℕ)
      → flag (load64 k.mem (entry p (suc l) va)) pte_v ≡ true
      → Walked own root l (pte2pa (load64 k.mem (entry p (suc l) va))) va k place xs r
      → Walked own root (suc l) p va k place xs r
  Walked-down r v w =
      let same = w.valid p l pre (vpn (suc l) va) at (vpn-lt (suc l) va) v in
      record {
        slot = w.slot;
        after = w.after;
        places = w.places;
        rest = w.rest;
        runs = w.runs;
        table = w.table;
        free = w.free;
        found = λ ne. rw same (v, w.found ne);
        exhausted = λ e. omega (arith, w.exhausted e);
        uses = omega (arith, w.uses);
        reuses = λ s there. w.reuses s there.1;
        extends = w.extends;
        kept = w.kept;
        valid = w.valid;
        spared = w.spared;
        pagetable = w.pagetable;
        satp = w.satp;
      }

-- One level up, through an entry that was just made.
module _ (va : ℕ) {own root l p pre f : ℕ} {place : Place} {xs : List ℕ} {k k1 : Machine}
    (t : IsTable own k.mem root place (f ∷ xs)) (at : place p ≡ some (suc l, pre)) (fr : IsFrame f)
    (out : f ∉ xs) (v : flag (load64 k.mem (entry p (suc l) va)) pte_v ≡ false)
    (nt : NewTable k k1 f (entry p (suc l) va) xs) where
  grown-IsTable : IsTable own k1.mem root (extend place f (l, pre * 512 + vpn (suc l) va)) xs
  grown-IsTable = IsTable-grow t nt.grown fr out at (vpn-lt (suc l) va) v

  grown-Spared :
      Spared place (f ∷ xs) k.mem (extend place f (l, pre * 512 + vpn (suc l) va)) xs k1.mem
  grown-Spared = record {
    page = λ q al free not_free.
        let other : q ≢ f = ground arith in
        let apart = placed-apart place p q (suc l) pre at free in
        let fp = t.frame p (suc l) pre at in
        (
          rw (ne→== q f other) free,
          ground arith,
          λ a lo hi.
              nt.off a (ground (arith, fr.aligned)) (ground (arith, fp.aligned, vpn-lt (suc l) va)),
        );
    from_free = λ q h. ground arith;
  }

  link_word :
      (r : Outcome Machine ℕ)
      → (w : Walked own root l f va k1 (extend place f (l, pre * 512 + vpn (suc l) va)) xs r)
      → load64 w.after.mem (entry p (suc l) va) ≡ f / 4096 * 1024 + 1
  link_word r w =
      let at' = extends-grow t nt.grown fr out at (vpn-lt (suc l) va) v p (suc l) pre at in
      w.valid p l pre (vpn (suc l) va) at' (vpn-lt (suc l) va)
        (rw nt.grown.link (ground (arith, flag-valid (f / 4096 * 1024 + 1))))
      ∙ nt.grown.link

  Walked-new :
      (r : Outcome Machine ℕ)
      → Walked own root l f va k1 (extend place f (l, pre * 512 + vpn (suc l) va)) xs r
      → Walked own root (suc l) p va k place (f ∷ xs) r
  Walked-new r w =
      let hi = vpn-lt (suc l) va in
      let grow = extends-grow t nt.grown fr out at hi v in
      record {
        slot = w.slot;
        after = w.after;
        places = w.places;
        rest = w.rest;
        runs = w.runs;
        table = w.table;
        free = w.free;
        found = λ ne.
            rw (link_word r w, link_child f fr)
              (ground (arith, flag-valid (f / 4096 * 1024 + 1)), w.found ne);
        exhausted = λ e. omega (arith, w.exhausted e);
        uses = omega (arith, w.uses);
        reuses = λ s there. let (set, below) = there in absurd (ground (arith, sym set ∙ v));
        extends = λ q lv pre' h. w.extends q lv pre' (grow q lv pre' h);
        kept = λ lv q pre' a h o.
            w.kept lv q pre' a (grow q lv pre' h) o
            ∙ pte_of-grow t nt.grown fr out at hi v lv q pre' a h o;
        valid = λ q lv pre' i h hi' fl.
            let same = valid-grow t nt.grown fr out at hi v q (suc lv) pre' i h hi' fl in
            w.valid q lv pre' i (grow q (suc lv) pre' h) hi' (rw same fl) ∙ same;
        spared = Spared-trans grown-Spared w.spared;
        pagetable = w.pagetable ∙ nt.pagetable;
        satp = w.satp ∙ nt.satp;
      }

-- Without a free page the walk gives up.
Walked-none :
    (own root l p va : ℕ) (k : Machine) (place : Place)
    → IsTable own k.mem root place []
    → HasFree k []
    → Walked own root (suc l) p va k place [] (ok 0 k)
Walked-none own root l p va k place t c = record {
  slot = 0;
  after = k;
  places = place;
  rest = [];
  runs = refl;
  table = t;
  free = c;
  found = λ ne. absurd (ne refl);
  exhausted = λ _. omega arith;
  uses = omega arith;
  reuses = λ s there. omega arith;
  extends = λ q lv pre h. h;
  kept = λ lv q pre a h o. refl;
  valid = λ q lv pre i h hi v. refl;
  spared = Spared-refl place [] k.mem;
  pagetable = refl;
  satp = refl;
}

module _ {own : ℕ} (root va : ℕ) (ord : Ordinary own va) where
  walk_levels-Walked :
      (l p pre : ℕ) (k : Machine) (place : Place) (xs : List ℕ)
      → IsTable own k.mem root place xs
      → HasFree k xs
      → place p ≡ some (l, pre)
      → Walked own root l p va k place xs (walk_levels l p va true k)
  unfolding walk_levels
  walk_levels-Walked zero p pre k place xs t c at = record {
    slot = entry p 0 va;
    after = k;
    places = place;
    rest = xs;
    runs = refl;
    table = t;
    free = c;
    found = λ _. refl;
    exhausted = λ e. let f = t.frame p 0 pre at in absurd (omega (arith, f.low));
    uses = omega arith;
    reuses = λ s there. omega arith;
    extends = λ q lv pre h. h;
    kept = λ lv q pre a h o. refl;
    valid = λ q lv pre i h hi v. refl;
    spared = Spared-refl place xs k.mem;
    pagetable = refl;
    satp = refl;
  }
  walk_levels-Walked (suc l) p pre k place [] t c at =
      let v = load64 k.mem (entry p (suc l) va) in
      elim (Bool-cases (flag v pte_v)) [
        | inl yes' ↦ rw yes' (
            Walked-down t at _ yes' (
              walk_levels-Walked l (pte2pa v) (pre * 512 + vpn (suc l) va) k place [] t c
                (t.child p l pre (vpn (suc l) va) at (vpn-lt (suc l) va) (ordinary l va ord) yes')))
        | inr no' ↦
            rw
              (
                no',
                new_table-nil k p (vpn (suc l) va) (t.frame p (suc l) pre at) (vpn-lt (suc l) va) c,
              )
              (Walked-none own root l p va k place t c)
      ]
  walk_levels-Walked (suc l) p pre k place (f ∷ xs) t (head, fr, out, c) at =
      let v = load64 k.mem (entry p (suc l) va) in
      let hi = vpn-lt (suc l) va in
      elim (Bool-cases (flag v pte_v)) [
        | inl yes' ↦ rw yes' (
            Walked-down t at _ yes' (
              walk_levels-Walked l (pte2pa v) (pre * 512 + vpn (suc l) va) k place (f ∷ xs) t
                (head, fr, out, c)
                (t.child p l pre (vpn (suc l) va) at hi (ordinary l va ord) yes')))
        | inr no' ↦
            let (k1, e, nt) =
              new_table-cons k p (vpn (suc l) va) (t.frame p (suc l) pre at) hi f xs
                (head, fr, out, c) (t.used p (suc l) pre at) in
            let nonnull : (f == 0) ≡ false = ground (arith, fr.low) in
            rw (no', e, nonnull)
              (Walked-new va t at fr out no' nt _ (
                walk_levels-Walked l f (pre * 512 + vpn (suc l) va) k1
                  (extend place f (l, pre * 512 + vpn (suc l) va)) xs
                  (grown-IsTable va t at fr out no' nt) nt.rest (rw (eq→== f f refl) refl)))
      ]

  -- Below MAXVA, off the entry `own` of the root, with a well-formed tree of tables and a well-
  -- formed free list, `walk` with `alloc` returns: the slot for `va`, or NULL, which it does only
  -- with fewer than two free pages. Tables and free list stay well formed, valid entries of tables
  -- stay, and every address off `own` keeps the entry that it had. It takes at most two pages, none
  -- where the tables for `va` are there, and leaves `kernel_pagetable` and `satp`.
  pub walk-Walked :
      (k : Machine) (place : Place) (xs : List ℕ)
      → va < maxva
      → IsTable own k.mem root place xs
      → HasFree k xs
      → Walked own root 2 root va k place xs (walk root va true k)
  unfolding walk
  walk-Walked k place xs low t c =
      let guard : leb maxva va ≡ false = ground arith in
      rw guard (walk_levels-Walked 2 root 0 k place xs t c t.root_place)
