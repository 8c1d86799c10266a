-- ===== src/Log/Returns.antt =====
-- commit() and initlog() return when the power lasts.
use os.Prelude.{ℕ, ◌+◌, ◌*◌, ◌≤◌, ◌≡◌, ◌≢◌, refl, arith}
use os.Kernel.{Block, Disk, Result, ok}
use os.Kernel.Runs.{Runs, returns, crashes}
use os.Bio.{Bcache}
use os.Log.{Log, commit, log_blocks, initlog}
use os.Log.Header.{rounds-eq}
use os.Log.Area.{Stands}
use os.Log.Recover.{Recovered, initlog-Runs}
use os.Bio.{binit}
use os.Log.Ready.{Ready, Done}
use os.Log.Commit.{commit-Runs}
use os.Log.Power.{Uses, cut, commit-Within, initlog-Uses}

-- a run that neither panics nor sleeps returns if the power is enough
Runs-returns :
    {A : Type 0} {Q : A → Bcache → Type 0} {C : Disk → Type 0} {n p : ℕ} {r : Result (A × Bcache)}
    → Runs Q C r
    → Uses n p r
    → n ≤ p
    → (a : A) × (t : Bcache) × (r ≡ ok (a, t)) × Q a t
Runs-returns (returns q) u le = (_, _, refl, q)
Runs-returns (crashes c) (cut lt) le = absurd (omega arith)

-- Where the header on the disk is empty, the log lists exactly what is pinned, no buffer is held
-- and at least one buffer is not pinned (`Ready`), commit() of a log of n blocks returns with
-- power for 2n + 2 writes; every block outside the log is then on the disk as the cache read it,
-- and the log is empty in memory and on the disk.
pub commit-returns :
    (log : Log) {V : ℕ → Block} {D : Disk} {s : Bcache}
    → Ready log V D s
    → 2 * log.n + 2 ≤ s.power
    → (log' : Log) × (t : Bcache) × (commit log s ≡ ok (log', t)) × Done log V log' t
commit-returns log {s = s} ready le =
    Runs-returns (commit-Runs log ready) (commit-Within log s)
      (omega (arith, le, rounds-eq log.n (omega (arith, ready.few))))

-- With power for 31 writes initlog() returns on every disk that stands for some blocks T; every
-- block outside the log is then that of T, on the disk and for a reader, the log is empty in
-- memory and on the disk, and no buffer is in use.
pub initlog-returns :
    (dev start : ℕ) (log : Log) {T : ℕ → Block} (d : Disk) (p : ℕ)
    → dev ≢ 0
    → Stands start d T
    → log_blocks + 1 ≤ p
    → (log' : Log) × (t : Bcache) × (initlog dev start log (binit d p) ≡ ok (log', t))
      × Recovered (record log { start = start; dev = dev }) T log' t
initlog-returns dev start log d p nz st le =
    Runs-returns (initlog-Runs dev start log d p nz st) (initlog-Uses dev start log d p nz st.few)
      le
