-- ===== src/Spin.antt =====
-- kernel/spinlock.c: the interrupt state of each CPU and the spin locks. A pointer to cpus[c] is
-- c + 1 and a null pointer 0. A CPU and a lock are named by their numbers; mycpu() is the CPU that
-- a function takes. Fences do nothing here, where every step is atomic and in program order.
pub mod Nest
pub mod Held
pub mod System
pub mod Mutex
pub mod Exclusion
mod Tests
use os.Prelude.{
  ℕ, ◌+◌, ◌-◌, ◌<◌, Bool, true, false, not, ◌&&◌, ◌==◌, ltb, if◌then◌else◌, update, u32,
}
use os.Kernel.{Result, ok, panic, sleeps, Prog, ◌>>=◌, ◌>>◌, modify}

-- struct cpu, and the SIE bit of its sstatus
pub record Cpu : Type 0 where
  pub intr : Bool
  pub noff : ℕ
  pub intena : Bool

pub record Lock : Type 0 where
  pub locked : ℕ
  pub cpu : ℕ

pub record Machine : Type 0 where
  pub cpus : ℕ → Cpu
  pub lock : ℕ → Lock

abbrev pub set_cpu : ℕ → Cpu → Machine → Machine
set_cpu c x s = record s { cpus = update s.cpus c x }

abbrev pub set_lock : ℕ → Lock → Machine → Machine
set_lock k x s = record s { lock = update s.lock k x }

unfoldable pub initlock : ℕ → Machine → Machine
initlock k s = set_lock k (record { locked = 0; cpu = 0 }) s

unfoldable pub push_off : ℕ → Machine → Machine
push_off c s =
    let x = s.cpus c in
    set_cpu c
      (record {
        intr = false;
        noff = u32 (x.noff + 1);
        intena = if x.noff == 0 then x.intr else x.intena;
      })
      s

unfoldable pub pop_off : ℕ → Prog Machine (Unit {0})
pop_off c s =
    let x = s.cpus c in
    let noff = x.noff - 1 in
    if x.intr
    then panic "pop_off - interruptible"
    else if ltb x.noff 1
    then panic "pop_off"
    else ok (
      tt,
      set_cpu c (record x { noff = noff; intr = if noff == 0 && x.intena then true else x.intr }) s,
    )

unfoldable pub holding : ℕ → ℕ → Machine → Bool
holding c k s = not ((s.lock k).locked == 0) && (s.lock k).cpu == c + 1

-- acquire() before its loop
unfoldable pub acquire_start : ℕ → ℕ → Prog Machine (Unit {0})
acquire_start c k s =
    let s' = push_off c s in if holding c k s' then panic "acquire" else ok (tt, s')

-- one round of the loop, and whether it is the last
unfoldable pub test_and_set : ℕ → Machine → Bool × Machine
test_and_set k s = ((s.lock k).locked == 0, set_lock k (record (s.lock k) { locked = 1 }) s)

-- acquire() after its loop
unfoldable pub acquire_end : ℕ → ℕ → Machine → Machine
acquire_end c k s = set_lock k (record (s.lock k) { cpu = c + 1 }) s

-- acquire() on a CPU while no other runs: it spins for ever when the lock is taken
unfoldable pub acquire : ℕ → ℕ → Prog Machine (Unit {0})
acquire c k = acquire_start c k >>= λ _ s.
    (let (won, s') = test_and_set k s in if won then ok (tt, acquire_end c k s') else sleeps)

-- release() up to the fence
unfoldable pub release_start : ℕ → ℕ → Prog Machine (Unit {0})
release_start c k s =
    if holding c k s then ok (tt, set_lock k (record (s.lock k) { cpu = 0 }) s) else panic "release"

-- __sync_lock_release()
unfoldable pub lock_release : ℕ → Machine → Machine
lock_release k s = set_lock k (record (s.lock k) { locked = 0 }) s

unfoldable pub release : ℕ → ℕ → Prog Machine (Unit {0})
release c k = release_start c k >> modify (lock_release k) >> pop_off c
