-- ===== src/Log/Crash.antt =====
-- Power failures and the boots after them: commit() and recovery together.
use os.Prelude.{ℕ, ◌≡◌, ◌≢◌, ◌⊎◌, inl, inr}
use mathlib.Core.Path.{subst}
use os.Kernel.{Block, Disk, ok, crashed}
use os.Kernel.Runs.{Runs, Runs-ok, Runs-crashed}
use os.Bio.{Bcache, binit}
use os.Log.{Log, commit, initlog}
use os.Log.Area.{Stands}
use os.Log.Ready.{Ready}
use os.Log.Commit.{commit-Runs}
use os.Log.Recover.{Recovered, initlog-Runs}

-- The machine boots on the disk until initlog() returns: each boot may lose the power again.
pub data Boot (dev start : ℕ) (log : Log) : Disk → Log → Bcache → Type 0 where
  up :
      {d : Disk} {log' : Log} {t : Bcache} (p : ℕ)
      → initlog dev start log (binit d p) ≡ ok (log', t)
      → Boot dev start log d log' t
  again :
      {d d' : Disk} {log' : Log} {t : Bcache} (p : ℕ)
      → initlog dev start log (binit d p) ≡ crashed d'
      → Boot dev start log d' log' t
      → Boot dev start log d log' t

-- However often recovery loses the power, the boot that returns has the blocks that the disk
-- stood for.
pub Boot-Recovered :
    {dev start : ℕ} {log : Log} {T : ℕ → Block} {d : Disk} {log' : Log} {t : Bcache}
    → dev ≢ 0
    → Stands start d T
    → Boot dev start log d log' t
    → Recovered (record log { start = start; dev = dev }) T log' t
Boot-Recovered {dev} {start} {log} nz st (up {d} p e) =
    Runs-ok (subst (Runs _ _) e (initlog-Runs dev start log d p nz st))
Boot-Recovered {dev} {start} {log} nz st (again {d} p e next) =
    Boot-Recovered nz (Runs-crashed (subst (Runs _ _) e (initlog-Runs dev start log d p nz st)))
      next

-- If the power fails in commit(), and the machine then boots until recovery returns, every block
-- outside the log is as on the disk before commit(), or every one is as the transaction left it.
pub commit-crash-atomic :
    (log boot_log : Log) {V : ℕ → Block} {D : Disk} {s : Bcache} {d : Disk} {log' : Log}
    {t : Bcache}
    → Ready log V D s
    → commit log s ≡ crashed d
    → Boot log.dev log.start boot_log d log' t
    → Recovered (record boot_log { start = log.start; dev = log.dev }) D log' t
      ⊎ Recovered (record boot_log { start = log.start; dev = log.dev }) V log' t
commit-crash-atomic log boot_log ready e boot =
    elim (Runs-crashed (subst (Runs _ _) e (commit-Runs log ready))) [
      | inl st ↦ inl (Boot-Recovered ready.device st boot)
      | inr st ↦ inr (Boot-Recovered ready.device st boot)
    ]
