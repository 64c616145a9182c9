-- ===== src/Env/Life/Alloc.antt =====
-- `env_alloc` of kern/env.c: a new environment from the free list.
use riscv_mos.Base.{
  ℕ, ◌+◌, ◌*◌, ◌%◌, ◌^◌, ◌≤◌, ◌<◌, ◌≡◌, ◌≢◌, refl, ◌∙◌, ap, false, arith, List, ◌∷◌, length, Option,
  none, some, ℤ, pos, neg, u32, eq→==, ne→==,
}
use riscv_mos.Kernel.{Machine, Outcome, ok, maxva}
use riscv_mos.Queue.Shape.{IsList}
use riscv_mos.Queue.Remove.{remove-erase}
use riscv_mos.Page.Chain.{HasFree}
use riscv_mos.Vm.Tables.{Place, IsTable, no_own}
use riscv_mos.Vm.Entries.{pte_at}
use riscv_mos.Env.{Os, nasid, e_no_free_env}
use riscv_mos.Env.Asid.{
  asid_used, Marks, asid_alloc, AllUsed, FirstFree, taken, exhausted, asid_alloc-FirstFree,
}
use riscv_mos.Env.Ids.{mkenvid, mkenvid-value}
use riscv_mos.Env.Life.{
  env_setup_vm, env_alloc, new_id, claim_env, start_frame, alloc_first, finish_alloc,
}
use riscv_mos.Vm.Share.{Regions}
use riscv_mos.Env.Life.Setup.{with_table, SetUp, env_setup_vm-SetUp}

-- Between `s` and `t` environment `e`, which headed the free list before `es`, has become a child of
-- `parent_id` with the number `asid` and the page table `p`.
pub record Allocated (e p parent_id asid : ℕ) (es : List ℕ) (s t : Os) : Type 0 where
  pub free_list : IsList t.env_free_list es
  pub id : (t.envs e).env_id ≡ u32 (s.last_env + 1) % 2 ^ 21 * 2048 + e
  pub number : (t.envs e).env_asid ≡ asid
  pub parent : (t.envs e).env_parent_id ≡ parent_id
  pub frame : (t.envs e).env_tf ≡ start_frame (s.envs e).env_tf
  pub runs : (t.envs e).env_runs ≡ 0
  pub status : (t.envs e).env_status ≡ (s.envs e).env_status
  pub table : (t.envs e).env_pgtable ≡ p
  pub others : (i : ℕ) → i ≢ e → t.envs i ≡ s.envs i
  pub bitmap : Marks s.asid_bitmap asid t.asid_bitmap
  pub counter : t.last_env ≡ u32 (s.last_env + 1)
  pub queue : t.env_sched_list ≡ s.env_sched_list
  pub current : t.curenv ≡ s.curenv

-- How `env_alloc` ends when `e` heads the free list and the address space can be made.
pub data Allocs (e p parent_id : ℕ) (es : List ℕ) (s : Os) (k : Machine)
    (r : Outcome Os (ℤ × Option ℕ)) : Type 0 where
  allocated :
      (asid : ℕ) (t : Os)
      → r ≡ ok (pos 0, some e) t
      → asid < nasid
      → asid_used s.asid_bitmap asid ≡ false
      → AllUsed s.asid_bitmap 0 asid
      → t.machine ≡ k
      → Allocated e p parent_id asid es s t
      → Allocs e p parent_id es s k r
  no_asid :
      (t : Os)
      → r ≡ ok (neg e_no_free_env, none) t
      → AllUsed s.asid_bitmap 0 nasid
      → t.machine ≡ k
      → IsList t.env_free_list (e ∷ es)
      → t.asid_bitmap ≡ s.asid_bitmap
      → Allocs e p parent_id es s k r

-- The state before the call of `asid_alloc`.
abbrev identified : Os → (e p : ℕ) → Machine → Os
identified s e p k = new_id e (with_table s e p k)

-- What the two calls leave of the state.
claimed-Allocated :
    (e p parent_id asid : ℕ) (b : ℕ → ℕ) (es : List ℕ) (s : Os) (k : Machine)
    → e < 2 ^ 11
    → Marks s.asid_bitmap asid b
    → IsList s.env_free_list (e ∷ es)
    → Allocated e p parent_id asid es s
        (claim_env e asid parent_id (record (identified s e p k) { asid_bitmap = b }))
unfolding mkenvid
claimed-Allocated e p parent_id asid b es s k h m l =
    let here = eq→== e e refl in
    record {
      free_list = rw here at (remove-erase s.env_free_list e (e ∷ es) l (ground arith));
      id = rw here (mkenvid-value e s h);
      number = rw here refl;
      parent = rw here refl;
      frame = rw here refl;
      runs = rw here refl;
      status = rw here refl;
      table = rw here refl;
      others = λ i ne. rw (ne→== i e ne) refl;
      bitmap = m;
      counter = refl;
      queue = refl;
      current = refl;
    }

-- A run of `env_alloc` from the outcomes of the two calls that it makes.
alloc_run :
    (e p parent_id : ℕ) (s : Os) (k : Machine) (o : Option ℕ) (b : ℕ → ℕ)
    → s.env_free_list.head ≡ some e
    → env_setup_vm e s ≡ ok (pos 0) (with_table s e p k)
    → asid_alloc s.asid_bitmap ≡ (o, b)
    → env_alloc parent_id s
      ≡ finish_alloc e parent_id o (record (identified s e p k) { asid_bitmap = b })
unfolding mkenvid
alloc_run e p parent_id s k o b head setup asid =
    ap (λ (first : Option ℕ). alloc_first parent_id first s) head ∙ rw (setup, asid) refl

-- Environment `e` of the table is at the head of the free list; the tables of the kernel and the list
-- of free pages are well formed, the entries of the kernel fit 54 bits, and behind the first free
-- page `p` there are two, and two more for each range of 2 MiB in which the kernel maps a page from
-- 0x80000000 on. If a number below NASID is free, `env_alloc` returns 0 and `e`: it takes `e` from the
-- free list, gives it the least such number, whose bit of the bitmap is set and no other changed, the next id, the parent, the page table `p` and the frame of a new process, with
-- `env_runs` 0, and leaves its status and every other environment, the run queue and `curenv`. If
-- none is free, it returns -E_NO_FREE_ENV, with `e` on the free list still and the bitmap as before.
-- In both cases the machine is as `env_setup_vm` leaves it: the page table is made even when the
-- call fails.
pub env_alloc-Allocs :
    (e p parent_id : ℕ) (es : List ℕ) (s : Os) (kplace : Place) (xs regions : List ℕ)
    → e < 2 ^ 11
    → IsList s.env_free_list (e ∷ es)
    → IsTable no_own s.machine.mem s.machine.kernel_pagetable kplace (p ∷ xs)
    → HasFree s.machine (p ∷ xs)
    → ((a : ℕ) → a < maxva → pte_at s.machine s.machine.kernel_pagetable a < 2 ^ 54)
    → Regions s.machine s.machine.kernel_pagetable regions
    → 2 * length regions + 2 ≤ length xs
    → (u : SetUp e p s kplace xs regions (env_setup_vm e s)) × Allocs e p parent_id es s u.after
        (env_alloc parent_id s)
unfolding mkenvid
env_alloc-Allocs e p parent_id es s kplace xs regions h l tk c range covers room =
    let u = env_setup_vm-SetUp e p s kplace xs regions tk c range covers room in
    (u, by_number u (asid_alloc-FirstFree s.asid_bitmap))
  where
    by_number :
        (u : SetUp e p s kplace xs regions (env_setup_vm e s))
        → FirstFree s.asid_bitmap 0 nasid (asid_alloc s.asid_bitmap)
        → Allocs e p parent_id es s u.after (env_alloc parent_id s)
    by_number u (taken asid b r m lo hi free used) =
        allocated asid _ (alloc_run e p parent_id s u.after _ _ (l.0) u.runs r) hi free used refl
          (claimed-Allocated e p parent_id asid b es s u.after h m l)
    by_number u (exhausted r used) =
        no_asid _ (alloc_run e p parent_id s u.after _ _ (l.0) u.runs r) used refl l refl
