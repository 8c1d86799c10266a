-- ===== src/Spin/System.antt =====
-- CPUs that acquire and release locks at the same time, one step of one of them after another.
use os.Prelude.{ℕ, ◌+◌, ◌^◌, ◌<◌, ◌≡◌, Bool, true, false, List, [], ◌∷◌, update}
use os.Kernel.{ok}
use os.Spin.{
  Machine, set_cpu, push_off, pop_off, acquire_start, test_and_set, acquire_end, release_start,
  lock_release,
}
use os.Spin.Held.{remove}

-- where a CPU is: in no call, in the loop of acquire(), after it, in release() after its first
-- store, and before its pop_off()
abbrev pub idle : ℕ
idle = 0

abbrev pub spinning : ℕ
spinning = 1

abbrev pub marking : ℕ
marking = 2

abbrev pub clearing : ℕ
clearing = 3

abbrev pub popping : ℕ
popping = 4

-- The machine, and of each CPU where it is and with which lock, the locks that its acquire() calls
-- have returned with and that it has not released, and its open push_off() calls. The owner of a
-- lock is a pointer to the CPU that has taken it.
pub record Sys : Type 0 where
  pub machine : Machine
  pub phase : ℕ → ℕ
  pub target : ℕ → ℕ
  pub held : ℕ → List ℕ
  pub pushes : ℕ → ℕ
  pub owner : ℕ → ℕ

abbrev pub at_phase : Sys → ℕ → ℕ → ℕ → Machine → Sys
at_phase s c phase k m = record s {
  machine = m;
  phase = update s.phase c phase;
  target = update s.target c k;
}

-- Interrupts are switched on or off, beside push_off() and pop_off(), only by code that has no
-- push_off() open. The nesting depth fits in an int.
pub data Step : Sys → Sys → Type 0 where
  sets_intr :
      {s : Sys} (c : ℕ) (on : Bool)
      → s.phase c ≡ idle
      → (s.machine.cpus c).noff ≡ 0
      → Step s
          (record s { machine = set_cpu c (record (s.machine.cpus c) { intr = on }) s.machine })
  pushes_off :
      {s : Sys} (c : ℕ)
      → s.phase c ≡ idle
      → (s.machine.cpus c).noff + 1 < 2 ^ 31
      → Step s
          (record s { machine = push_off c s.machine; pushes = update s.pushes c (s.pushes c + 1) })
  pops_off :
      {s : Sys} {m : Machine} (c n : ℕ)
      → s.phase c ≡ idle
      → s.pushes c ≡ n + 1
      → pop_off c s.machine ≡ ok (tt, m)
      → Step s (record s { machine = m; pushes = update s.pushes c n })
  starts :
      {s : Sys} {m : Machine} (c k : ℕ)
      → s.phase c ≡ idle
      → (s.machine.cpus c).noff + 1 < 2 ^ 31
      → acquire_start c k s.machine ≡ ok (tt, m)
      → Step s (at_phase s c spinning k m)
  spins :
      {s : Sys} (c k : ℕ)
      → s.phase c ≡ spinning
      → s.target c ≡ k
      → (test_and_set k s.machine).0 ≡ false
      → Step s (record s { machine = (test_and_set k s.machine).1 })
  takes :
      {s : Sys} (c k : ℕ)
      → s.phase c ≡ spinning
      → s.target c ≡ k
      → (test_and_set k s.machine).0 ≡ true
      → Step s (record (at_phase s c marking k (test_and_set k s.machine).1) {
        owner = update s.owner k (c + 1);
      })
  marks :
      {s : Sys} (c k : ℕ)
      → s.phase c ≡ marking
      → s.target c ≡ k
      → Step s (record (at_phase s c idle k (acquire_end c k s.machine)) {
        held = update s.held c (k ∷ s.held c);
      })
  unmarks :
      {s : Sys} {m : Machine} (c k : ℕ)
      → s.phase c ≡ idle
      → release_start c k s.machine ≡ ok (tt, m)
      → Step s (record (at_phase s c clearing k m) { held = update s.held c (remove k (s.held c)) })
  clears :
      {s : Sys} (c k : ℕ)
      → s.phase c ≡ clearing
      → s.target c ≡ k
      → Step s (record (at_phase s c popping k (lock_release k s.machine)) {
        owner = update s.owner k 0;
      })
  finishes :
      {s : Sys} {m : Machine} (c k : ℕ)
      → s.phase c ≡ popping
      → pop_off c s.machine ≡ ok (tt, m)
      → Step s (at_phase s c idle k m)

-- All CPUs start with interrupts off and with no push_off() open, and all locks free.
abbrev pub boot : Sys
boot = record {
  machine = record {
    cpus = λ _. record { intr = false; noff = 0; intena = false };
    lock = λ _. record { locked = 0; cpu = 0 };
  };
  phase = λ _. idle;
  target = λ _. 0;
  held = λ _. [];
  pushes = λ _. 0;
  owner = λ _. 0;
}

pub data Reach : Sys → Type 0 where
  boots : Reach boot
  steps : {s t : Sys} → Reach s → Step s t → Reach t
