-- ===== src/Proc/Steps.antt =====
-- The critical sections on the process table as steps, from the start of the first process on.
use os.Prelude.{ℕ, ◌+◌, ◌^◌, ◌<◌, ◌≡◌, ◌≢◌, Bool, some}
use os.Kernel.{ok}
use os.Proc.{
  Table, nproc, used, running, procinit, userinit, schedule, yield, sleep, sleep_end, wakeup, kkill,
  setkilled, fork_alloc, fork_parent, fork_ready, kexit, kwait,
}

-- A process does a step only while it runs, but wakeup() and kkill() may come from any process or
-- from an interrupt. The channels of sleep() are addresses of other objects than processes, but for
-- that of kwait(). A step takes a pid only while the next one fits in an int.
pub data Step : Table → Table → Type 0 where
  schedules : {t : Table} (i : ℕ) → i < nproc → Step t (schedule i t).1
  yields : {t : Table} (i : ℕ) → i < nproc → (t.proc i).state ≡ running → Step t (yield i t)
  falls_asleep :
      {t : Table} (i chan : ℕ)
      → i < nproc
      → (t.proc i).state ≡ running
      → nproc < chan
      → Step t (sleep i chan t)
  ends_sleep : {t : Table} (i : ℕ) → i < nproc → (t.proc i).state ≡ running → Step t (sleep_end i t)
  wakes : {t : Table} (me chan : ℕ) → Step t (wakeup me chan t)
  kills : {t : Table} (pid : ℕ) → Step t (kkill pid t).1
  sets_killed : {t : Table} (i : ℕ) → Step t (setkilled i t)
  -- nextpid does not wrap around
  forks :
      {t : Table} (page pagetable copied : Bool)
      → t.next_pid + 1 < 2 ^ 31
      → Step t (fork_alloc page pagetable copied t).1
  adopts :
      {t : Table} (np me : ℕ)
      → np < nproc
      → me < nproc
      → (t.proc np).state ≡ used
      → (t.proc me).state ≡ running
      → Step t (fork_parent np me t)
  readies :
      {t : Table} (np : ℕ)
      → np < nproc
      → (t.proc np).state ≡ used
      → (t.proc np).parent ≢ 0
      → Step t (fork_ready np t)
  exits :
      {t v : Table} (i status : ℕ)
      → i < nproc
      → (t.proc i).state ≡ running
      → kexit i status t ≡ ok (tt, v)
      → Step t v
  waits :
      {t : Table} (copy : ℕ → Bool) (i : ℕ)
      → i < nproc
      → (t.proc i).state ≡ running
      → Step t (kwait copy i t).1

pub data Reach : Table → Type 0 where
  boots : {t : Table} (page pagetable : Bool) → userinit page pagetable procinit ≡ some t → Reach t
  steps : {t u : Table} → Reach t → Step t u → Reach u
