-- ===== src/Env/Ids.antt =====
-- Environment ids: `mkenvid` and `envid2env` of kern/env.c.
use riscv_mos.Base.{
  ℕ, ◌+◌, ◌-◌, ◌*◌, ◌%◌, ◌^◌, ◌<◌, ◌≡◌, ◌≢◌, ◌↔◌, Bool, false, not, ◌==◌, ◌||◌, arith,
  if◌then◌else◌, ◌⊎◌, eq→==, ne→==, Option, none, some, bit_and, bit_or, bit_and-mask, bit_or-field,
  u32,
}
use riscv_mos.Kernel.{Cmd, ok, fault}
use riscv_mos.Env.{Os, nenv, env_free_status}

-- `ENVX(envid)`
unfoldable pub envx : ℕ → ℕ
envx envid = bit_and envid (nenv - 1)

-- `((++i) << (1 + LOG2NENV)) | (e - envs)`, with the static counter in the state.
unfoldable pub mkenvid : ℕ → Os → ℕ × Os
mkenvid e s =
    let i = u32 (s.last_env + 1) in (u32 (bit_or (u32 (i * 2 ^ 11)) e), record s { last_env = i })

-- 0 with what `*penv` is set to, or -E_BAD_ENV.
pub data EnvLookup : Type 0 where
  found : Option ℕ → EnvLookup
  bad_env : EnvLookup

-- The test of step 2; `curenv->env_id` reads through `curenv`.
pub permitted : (e : ℕ) → Option ℕ → Cmd Os EnvLookup
permitted e none s = fault
permitted e (some c) s =
    if e == c || (s.envs e).env_parent_id == (s.envs c).env_id
    then ok (found (some e)) s
    else ok bad_env s

pub envid2env : (envid : ℕ) (checkperm : Bool) → Cmd Os EnvLookup
envid2env envid checkperm s =
    if envid == 0
    then ok (found s.curenv) s
    else let e = envx envid in
      if (s.envs e).env_status == env_free_status || not ((s.envs e).env_id == envid)
      then ok bad_env s
      else if checkperm
      then permitted e s.curenv s
      else ok (found (some e)) s

-- The id has the counter above bit 10 and the index below it.
pub mkenvid-value :
    (e : ℕ) (s : Os) → e < 2 ^ 11 → (mkenvid e s).0 ≡ u32 (s.last_env + 1) % 2 ^ 21 * 2048 + e
unfolding mkenvid
mkenvid-value e s h =
    let i : ℕ = u32 (s.last_env + 1) in
    let shifted : u32 (i * 2 ^ 11) ≡ i % 2 ^ 21 * 2 ^ 11 = omega arith in
    rw shifted (omega (arith, bit_or-field 11 (i % 2 ^ 21) e h))

envx-mod : (envid : ℕ) → envx envid ≡ envid % 1024
unfolding envx
envx-mod envid = bit_and-mask 10 envid

-- `ENVX` takes the index of every environment of the table back out of its id.
pub envx-mkenvid : (e : ℕ) (s : Os) → e < nenv → envx (mkenvid e s).0 ≡ e
envx-mkenvid e s h = omega (arith, envx-mod (mkenvid e s).0, mkenvid-value e s (omega arith))

-- Two ids made for environments of the table are equal only if the environments are the same and
-- the counters agree modulo 2^21.
pub mkenvid-injective :
    (e f : ℕ) (s t : Os)
    → e < nenv
    → f < nenv
    → (mkenvid e s).0 ≡ (mkenvid f t).0
    → (e ≡ f) × (u32 (s.last_env + 1) % 2 ^ 21 ≡ u32 (t.last_env + 1) % 2 ^ 21)
mkenvid-injective e f s t he hf same =
    omega (arith, mkenvid-value e s (omega arith), mkenvid-value f t (omega arith))

-- An environment of the table that carries the id that `mkenvid` made for it, and is not free, is
-- found by that id without a check of permissions, provided the id is not 0; nothing changes.
pub envid2env-mkenvid :
    (e : ℕ) (s t : Os)
    → e < nenv
    → (t.envs e).env_id ≡ (mkenvid e s).0
    → (t.envs e).env_status ≢ env_free_status
    → (mkenvid e s).0 ≢ 0
    → envid2env (mkenvid e s).0 false t ≡ ok (found (some e)) t
unfolding envid2env
envid2env-mkenvid e s t h id live nonzero = rw (
  ne→== (mkenvid e s).0 0 nonzero,
  envx-mkenvid e s h,
  ne→== (t.envs e).env_status env_free_status live,
  eq→== (t.envs e).env_id (mkenvid e s).0 id,
)

-- With an id that is not 0 and a current environment, `envid2env` yields `e` exactly when `e` is at
-- the index of the id, is not free, carries the id and, if `checkperm` is set, is the current
-- environment or a child of it.
pub envid2env_iff :
    (envid e c : ℕ) (checkperm : Bool) (s : Os)
    → envid ≢ 0
    → s.curenv ≡ some c
    → (envid2env envid checkperm s ≡ ok (found (some e)) s) ↔ (
        (e ≡ envx envid)
        × ((s.envs (envx envid)).env_status ≢ env_free_status)
        × ((s.envs (envx envid)).env_id ≡ envid)
        × ((checkperm ≡ false)
            ⊎ (envx envid ≡ c)
            ⊎ ((s.envs (envx envid)).env_parent_id ≡ (s.envs c).env_id)))
unfolding envid2env permitted
envid2env_iff envid e c checkperm s nonzero cur = ground arith
