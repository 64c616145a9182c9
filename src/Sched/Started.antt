-- ===== src/Sched/Started.antt =====
-- `schedule` of kern/sched.c after `env_create` of kern/env.c, as at the end of `rv_main`.
use riscv_mos.Base.{
  ℕ, ◌+◌, ◌*◌, ◌-◌, ◌^◌, ◌≤◌, ◌<◌, ◌≡◌, ◌∙◌, ap, Bool, false, ◌==◌, arith, List, ◌∷◌, ◌∉◌, length,
  none, some, u32, inl, inr, Bool-cases,
}
use riscv_mos.Kernel.{ok, maxva, ◌>>=◌}
use riscv_mos.Page.Chain.{HasFree}
use riscv_mos.Queue.Shape.{IsList}
use riscv_mos.Vm.Tables.{Place, IsTable, no_own}
use riscv_mos.Vm.Entries.{pte_at}
use riscv_mos.Vm.User.{make_satp}
use riscv_mos.Env.{Os, nasid}
use riscv_mos.Env.Asid.{asid_used}
use riscv_mos.Vm.Share.{Regions}
use riscv_mos.Env.Life.Setup.{self}
use riscv_mos.Env.Create.{elf_from, env_create}
use riscv_mos.Env.Create.Program.{total_pages, AllMapped, AllMapped-memory}
use riscv_mos.Env.Create.Icode.{segments_of, InImage}
use riscv_mos.Env.Create.Created.{UserSegments, Created, env_create-Created}
use riscv_mos.Sched.{is_runnable, schedule}
use riscv_mos.Sched.Runs.{Ready}
use riscv_mos.Sched.Round.{schedule-picks}

-- A new environment at the head of the queue.
Created-Ready :
    {p binary priority entry : ℕ} {m : ℕ → ℕ} (e : ℕ) (es queue : List ℕ) (s t : Os)
    → Created e p binary priority entry m (segments_of m binary) es queue s t
    → Ready s queue
    → Ready t (e ∷ queue)
Created-Ready e es queue s t c r = record {
  queue = c.run_queue;
  runnable = λ i h. elim (Bool-cases (i == e)) [
    | inl here ↦ let same : i ≡ e = ground arith in rw same c.status
    | inr other ↦ ap (λ v. v.env_status) (c.others i (ground arith)) ∙ r.runnable i (ground arith)
  ];
}

-- In `t` environment `e` runs for `left` slices more, in the address space `p` with its program.
pub record Started (e p binary left : ℕ) (queue : List ℕ) (s t : Os) : Type 0 where
  pub ready : Ready t (e ∷ queue)
  pub current : t.curenv ≡ some e
  pub slices : t.count ≡ left
  pub space : t.machine.satp ≡ make_satp p
  pub places : Place
  pub rest : List ℕ
  pub program :
      AllMapped self p binary s.machine.mem (segments_of s.machine.mem binary) t.machine places rest

-- The conditions of `env_create` hold (a free environment `e` of the table, a free number below NASID,
-- well-formed lists and tables, an image that `elf_from` accepts and whose segments lie apart, below
-- 0x80000000 and within the image, and pages enough for the tables and the program), the environments
-- of the run queue are runnable, and none is running. Then `env_create` and after it `schedule`
-- return, and the new environment runs: it is `curenv`, the head of a queue of runnable environments,
-- it has as many slices as its priority says less the one that starts, and `satp` selects its page
-- table, in which every segment of the image is mapped with its bytes.
pub schedule-env_create :
    (e p binary size priority asid now : ℕ) (yield : Bool) (es queue : List ℕ) (s : Os)
    (kplace : Place) (xs regions : List ℕ)
    → let m = s.machine.mem in
      let phs = segments_of m binary in
      (e < 2 ^ 11)
      → IsList s.env_free_list (e ∷ es)
      → Ready s queue
      → s.curenv ≡ none
      → e ∉ queue
      → asid < nasid
      → asid_used s.asid_bitmap asid ≡ false
      → IsTable no_own m s.machine.kernel_pagetable kplace (p ∷ xs)
      → HasFree s.machine (p ∷ xs)
      → ((a : ℕ) → a < maxva → pte_at s.machine s.machine.kernel_pagetable a < 2 ^ 54)
      → Regions s.machine s.machine.kernel_pagetable regions
      → 2 * length regions + 2 + 3 * total_pages phs ≤ length xs
      → elf_from m binary size ≡ some binary
      → InImage m binary
      → UserSegments binary phs
      → (t : Os) × ((env_create binary size priority >>= λ created. schedule now yield) s ≡ ok tt t)
        × Started e p binary (u32 (u32 priority + (2 ^ 32 - 1))) queue s t
schedule-env_create e p binary size priority asid now yield es queue s kplace xs regions he l ready
      idle out lo free tk c range covers room elf inside user =
    let (t, run, made) =
      env_create-Created e p binary size priority asid es queue s kplace xs regions he l ready.queue
        out lo free tk c range covers room elf inside user in
    let r =
      schedule-picks now e yield t queue (Created-Ready e es queue s t made ready)
        (ap (is_runnable t) (made.current ∙ idle)) in
    (
      r.after,
      rw run r.returns,
      record {
        ready = r.ready;
        current = r.current;
        slices = r.slices ∙ ap (λ (n : ℕ). u32 (n + (2 ^ 32 - 1))) made.pri;
        space = r.space ∙ ap make_satp made.table;
        places = made.places;
        rest = made.rest;
        program =
            AllMapped-memory self p binary s.machine.mem (segments_of s.machine.mem binary)
              t.machine r.after.machine made.places made.rest r.memory made.program;
      },
    )
