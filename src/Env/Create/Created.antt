-- ===== src/Env/Create/Created.antt =====
-- `env_create` of kern/env.c: a program becomes a runnable environment.
use riscv_mos.Base.{
  ℕ, ◌+◌, ◌*◌, ◌/◌, ◌%◌, ◌^◌, ◌≤◌, ◌<◌, ◌≡◌, ◌≢◌, refl, ◌∙◌, ap, sym, false, arith, List, [], ◌∷◌,
  ◌∉◌, length, some, ℤ, u32, inr, eq→==, ne→==,
}
use riscv_mos.Mem.{Mem, load64}
use riscv_mos.Kernel.{Machine, Outcome, ok, page_size, maxva, kernend, uvpt}
use riscv_mos.Page.Chain.{HasFree}
use riscv_mos.Queue.{tailq_insert_head}
use riscv_mos.Queue.Shape.{IsList, IsTailq}
use riscv_mos.Queue.Tail.{tailq_insert_head-cons}
use riscv_mos.Vm.Pte.{vpn-div, flag, flag-valid, pte_v}
use riscv_mos.Vm.Tables.{Place, IsTable, Ordinary, no_own}
use riscv_mos.Vm.Entries.{pte_at}
use riscv_mos.Vm.Share.{kernel_page, Regions}
use riscv_mos.ElfLoader.{Phdr}
use riscv_mos.Env.{Os, update_env, env_runnable, nasid}
use riscv_mos.Env.Asid.{asid_used}
use riscv_mos.Env.Life.{env_alloc}
use riscv_mos.Env.Life.Setup.{self, inherited, SetUp}
use riscv_mos.Env.Life.Alloc.{Allocated, Allocs, allocated, no_asid, env_alloc-Allocs}
use riscv_mos.Env.Create.{elf_from, load_icode, start_env, env_create}
use riscv_mos.Env.Create.Segment.{with_machine}
use riscv_mos.Env.Create.Program.{
  first_page, page_count, Outside, total_pages, AllLoadable, AllMapped, Inside, frame_at,
  ProgramLoaded,
}
use riscv_mos.Env.Create.Icode.{segments_of, InImage, start_at, load_icode_from}

-- The segments lie below the kernel's half of the address space, in the image, and apart.
pub record UserSegment (binary : ℕ) (ph : Phdr) : Type 0 where
  pub aligned : ph.p_vaddr % page_size ≡ 0
  pub fits : ph.p_filesz ≤ ph.p_memsz
  pub low : first_page ph + page_count ph ≤ kernel_page
  pub inside : binary + ph.p_offset + ph.p_filesz ≤ kernend

abbrev pub UserSegments : (binary : ℕ) → List Phdr → Type 0
UserSegments binary [] = Unit {0}
UserSegments binary (ph ∷ phs) =
    UserSegment binary ph
    × ((page : ℕ) → first_page ph ≤ page → page < first_page ph + page_count ph → Outside phs page)
    × UserSegments binary phs

user-Ordinary : (a : ℕ) → a / 4096 < kernel_page → Ordinary self a
user-Ordinary a h e = omega (arith, vpn-div 2 a, vpn-div 2 uvpt, e)

module _ {e p : ℕ} {s : Os} {kplace : Place} {xs regions : List ℕ} {r : Outcome Os ℤ}
    (u : SetUp e p s kplace xs regions r) (binary : ℕ) where
  -- The user's half of a new address space is empty.
  user_unmapped :
      (a : ℕ) → a < maxva → a / 4096 < kernel_page → flag (pte_at u.after p a) pte_v ≡ false
  user_unmapped a h low =
      ap (λ (v : ℕ). flag v pte_v) (u.entries a h (user-Ordinary a low) ∙ ground arith)
      ∙ flag-valid 0

  user-AllLoadable :
      (phs : List Phdr) → UserSegments binary phs → AllLoadable self p binary u.after phs
  user-AllLoadable [] h = tt
  user-AllLoadable (ph ∷ phs) (here, apart, more) = (
    record {
      aligned = here.aligned;
      fits = here.fits;
      low = omega (arith, here.aligned, here.low);
      inside = here.inside;
      clear = λ a h lo hi.
          let low : a / 4096 < kernel_page = omega (arith, here.low) in
          (user-Ordinary a low, user_unmapped a h low);
    },
    apart,
    user-AllLoadable phs more,
  )

-- The state after `env_pri` and `env_status` are set.
abbrev prepared : Os → (e priority : ℕ) → Os
prepared t e priority =
    update_env t e (record (t.envs e) { env_pri = u32 priority; env_status = env_runnable })

-- The state that `env_create` leaves.
abbrev finished : Os → (e priority entry : ℕ) → Machine → Os
finished t e priority entry k =
    let t1 = start_at (with_machine (prepared t e priority) k) e entry in
    record t1 { env_sched_list = tailq_insert_head t1.env_sched_list e }

start_env-run :
    (e binary size priority p : ℕ) (m : Mem) (t : Os) (k : Machine) (place : Place) (xs : List ℕ)
    → t.machine ≡ k
    → (t.envs e).env_pgtable ≡ p
    → ((a : ℕ) → a < kernend → k.mem a ≡ m a)
    → elf_from m binary size ≡ some binary
    → InImage m binary
    → IsTable self k.mem p place xs
    → HasFree k xs
    → AllLoadable self p binary k (segments_of m binary)
    → 3 * total_pages (segments_of m binary) ≤ length xs
    → (k' : Machine) × (places : Place) × (rest : List ℕ) × (start_env binary size priority
          (some e)
          t
        ≡ ok e (finished t e priority (load64 m (binary + 24)) k'))
      × ProgramLoaded self p binary m (segments_of m binary) k place xs k' places rest
start_env-run e binary size priority p m t k place xs machine table image elf inside tab c good
      room =
    let t1 : Os = prepared t e priority in
    let root : (t1.envs e).env_pgtable ≡ p = rw (eq→== e e refl) table in
    let (k', places, rest, run, loaded) =
      load_icode_from self e binary size t1 m k place xs image elf inside (rw root tab) c
        (rw root good) room in
    let here : with_machine t1 k ≡ t1 = ap (with_machine t1) (sym machine) in
    let run1 : load_icode e binary size t1
        ≡ ok tt (start_at (with_machine t1 k') e (load64 m (binary + 24))) =
      ap (load_icode e binary size) (sym here) ∙ run in
    (k', places, rest, rw run1 refl, rw root at loaded)

-- In `t` environment `e` is runnable, with the program `phs` of the image `m` in the page table `p`.
pub record Created (e p binary priority entry : ℕ) (m : Mem) (phs : List Phdr) (es queue : List ℕ)
    (s t : Os) : Type 0 where
  pub free_list : IsList t.env_free_list es
  pub run_queue : IsTailq t.env_sched_list (e ∷ queue)
  pub status : (t.envs e).env_status ≡ env_runnable
  pub pri : (t.envs e).env_pri ≡ u32 priority
  pub sepc : (t.envs e).env_tf.sepc ≡ entry
  pub id : (t.envs e).env_id ≡ u32 (s.last_env + 1) % 2 ^ 21 * 2048 + e
  pub parent : (t.envs e).env_parent_id ≡ 0
  pub table : (t.envs e).env_pgtable ≡ p
  pub others : (i : ℕ) → i ≢ e → t.envs i ≡ s.envs i
  pub current : t.curenv ≡ s.curenv
  pub places : Place
  pub rest : List ℕ
  pub pages : IsTable self t.machine.mem p places rest
  pub free : HasFree t.machine rest
  pub program : AllMapped self p binary m phs t.machine places rest
  pub separate :
      (a b : ℕ)
      → a < maxva
      → b < maxva
      → Ordinary self a
      → Ordinary self b
      → Inside phs (a / 4096)
      → Inside phs (b / 4096)
      → frame_at t.machine p a ≡ frame_at t.machine p b
      → a / 4096 ≡ b / 4096
  pub kernel :
      (a : ℕ)
      → a < maxva
      → Ordinary self a
      → kernel_page ≤ a / 4096
      → pte_at t.machine p a ≡ inherited (pte_at s.machine s.machine.kernel_pagetable a) (a / 4096)

kernel-Outside :
    (binary page : ℕ) (phs : List Phdr)
    → UserSegments binary phs
    → kernel_page ≤ page
    → Outside phs page
kernel-Outside binary page [] h low = tt
kernel-Outside binary page (ph ∷ phs) (here, apart, more) low =
    (inr (omega (arith, here.low)), kernel-Outside binary page phs more low)

-- The states of `env_alloc` and of the loader, put together.
finished-Created :
    {kplace place places : Place} {xs ys rest regions : List ℕ} {r : Outcome Os ℤ}
    (e p binary priority entry asid : ℕ) (m : Mem) (phs : List Phdr) (es queue : List ℕ) (s t : Os)
    (k' : Machine)
    → (u : SetUp e p s kplace xs regions r) → Allocated e p 0 asid es s t
    → ProgramLoaded self p binary m phs u.after place ys k' places rest
    → UserSegments binary phs
    → IsTailq s.env_sched_list queue
    → e ∉ queue
    → Created e p binary priority entry m phs es queue s (finished t e priority entry k')
finished-Created {places = places} {rest = rest} e p binary priority entry asid m phs es queue s t
      k' u a loaded user q out =
    let here = eq→== e e refl in
    record {
      free_list = a.free_list;
      run_queue = rw (a.queue) (tailq_insert_head-cons s.env_sched_list e queue q out);
      status = rw here refl;
      pri = rw here refl;
      sepc = rw here refl;
      id = rw here (a.id);
      parent = rw here (a.parent);
      table = rw here (a.table);
      others = λ i ne. rw (ne→== i e ne) (a.others i ne);
      current = a.current;
      places = places;
      rest = rest;
      pages = loaded.table;
      free = loaded.free;
      program = loaded.segments;
      separate = loaded.separate;
      kernel = λ b h o high.
          loaded.others b h o (kernel-Outside binary (b / 4096) phs user high) ∙ u.entries b h o;
    }

-- Environment `e` of the table is at the head of the free list, which is well formed, as is the run
-- queue, which does not hold `e`; a number below NASID is free. The tables of the kernel and the list
-- of free pages are well formed, the entries of the kernel fit 54 bits, and behind the first free page
-- `p` there are two, two more for each range of 2 MiB in which the kernel maps a page from 0x80000000
-- on, and three for each page of the program. `elf_from` accepts the image at `binary`, whose headers and bytes lie below the pages
-- of the heap; its loadable segments start pages, lie below 0x80000000 and share no page, and their
-- file part is no longer than their part in memory. Then `env_create` returns `e`, which has left the
-- free list and heads the run queue: it is runnable, with the priority, the next id, no parent, the
-- entry point of the image, and the page table `p`. There every page of every segment is mapped to a
-- page of its own, with the flags of the segment, its bytes of the image and zeros behind them, and
-- from 0x80000000 on, off the entry of UVPT, the entries are those of the kernel. Page tables and the
-- list of free pages are well formed, and every other environment is as before.
pub env_create-Created :
    (e p binary size priority asid : ℕ) (es queue : List ℕ) (s : Os) (kplace : Place)
    (xs regions : List ℕ)
    → let m = s.machine.mem in
      let phs = segments_of m binary in
      (e < 2 ^ 11)
      → IsList s.env_free_list (e ∷ es)
      → IsTailq s.env_sched_list queue
      → e ∉ queue
      → asid < nasid
      → asid_used s.asid_bitmap asid ≡ false
      → IsTable no_own m s.machine.kernel_pagetable kplace (p ∷ xs)
      → HasFree s.machine (p ∷ xs)
      → ((a : ℕ) → a < maxva → pte_at s.machine s.machine.kernel_pagetable a < 2 ^ 54)
      → Regions s.machine s.machine.kernel_pagetable regions
      → 2 * length regions + 2 + 3 * total_pages phs ≤ length xs
      → elf_from m binary size ≡ some binary
      → InImage m binary
      → UserSegments binary phs
      → (t : Os) × (env_create binary size priority s ≡ ok e t)
        × Created e p binary priority (load64 m (binary + 24)) m phs es queue s t
env_create-Created e p binary size priority asid es queue s kplace xs regions he l q out lo free tk
      c range covers room elf inside user =
    let (u, a) =
      env_alloc-Allocs e p 0 es s kplace xs regions he l tk c range covers (omega (arith, room)) in
    by_alloc u a
  where
    phs : List Phdr
    phs = segments_of s.machine.mem binary

    by_alloc :
        {r : Outcome Os ℤ}
        → (u : SetUp e p s kplace xs regions r) → Allocs e p 0 es s u.after (env_alloc 0 s)
        → (t : Os) × (env_create binary size priority s ≡ ok e t)
          × Created e p binary priority
              (load64 s.machine.mem (binary + 24))
              s.machine.mem
              phs
              es
              queue
              s
              t
    by_alloc u (no_asid t r used mach l' b) =
        let taken' = used asid (omega arith) lo in absurd (ground (arith, taken', free))
    by_alloc u (allocated asid' t r hi free' used mach a) =
        let (k', places, rest, run, loaded) =
          start_env-run e binary size priority p s.machine.mem t u.after u.places u.rest mach
            a.table u.image elf inside u.table u.free (user-AllLoadable u binary phs user)
            (omega (arith, room, u.uses)) in
        (
          finished t e priority (load64 s.machine.mem (binary + 24)) k',
          rw (r, run) refl,
          finished-Created e p binary priority (load64 s.machine.mem (binary + 24)) asid'
              s.machine.mem phs es queue s t k' u a loaded user q out,
        )
