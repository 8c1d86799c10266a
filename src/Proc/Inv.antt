-- ===== src/Proc/Inv.antt =====
-- The invariant of the process table, and the changes of one entry that keep it.
use os.Prelude.{
  ℕ, ◌-◌, ◌^◌, ◌<◌, ◌≤◌, ◌≡◌, ◌≢◌, ◌⊎◌, inl, inr, ap, false, ◌==◌, arith, Bool-cases, ==_iff,
}
use native.Mathlib.Decide.{ℕ_discrete}
use os.Proc.{Proc, Table, nproc, unused, sleeping, running, zombie, ptr, set_proc}

-- the process can still run
abbrev pub Alive : ℕ → Type 0
Alive state = (sleeping ≤ state) × (state ≤ running)

-- Every parent pointer is null or leads to a process that can still run, and is null for no
-- process that has started, but for init; who sleeps in kwait() has no child that has exited; the
-- pids of the entries in use are distinct.
pub record Inv (t : Table) : Type 0 where
  pub init_at : ℕ
  pub init : (t.init ≡ ptr init_at) × (init_at < nproc) × Alive (t.proc init_at).state
  pub free :
      (k : ℕ)
      → k < nproc
      → (t.proc k).state ≡ unused
      → ((t.proc k).parent ≡ 0) × ((t.proc k).pid ≡ 0)
  pub family :
      (k : ℕ)
      → k < nproc
      → (t.proc k).parent ≢ 0
      → ((t.proc k).parent ≤ nproc) × Alive (t.proc ((t.proc k).parent - 1)).state
  pub orphans :
      (k : ℕ) → k < nproc → sleeping ≤ (t.proc k).state → k ≢ init_at → (t.proc k).parent ≢ 0
  pub waiting :
      (p c : ℕ)
      → p < nproc
      → c < nproc
      → (t.proc p).state ≡ sleeping
      → (t.proc p).chan ≡ ptr p
      → (t.proc c).parent ≡ ptr p
      → (t.proc c).state ≢ zombie
  pub pids :
      (k : ℕ)
      → k < nproc
      → (t.proc k).state ≢ unused
      → (0 < (t.proc k).pid) × ((t.proc k).pid < t.next_pid)
  pub distinct :
      (j k : ℕ)
      → j < nproc
      → k < nproc
      → j ≢ k
      → (t.proc j).state ≢ unused
      → (t.proc k).state ≢ unused
      → (t.proc j).pid ≢ (t.proc k).pid
  pub next : (0 < t.next_pid) × (t.next_pid < 2 ^ 31)

-- a change of one entry that leaves its parent and its pid
pub record Fits (t : Table) (i : ℕ) (p : Proc) : Type 0 where
  pub within : i < nproc
  pub parent : p.parent ≡ (t.proc i).parent
  pub pid : p.pid ≡ (t.proc i).pid
  pub in_use : (t.proc i).state ≢ unused
  pub still : p.state ≢ unused
  pub alive : Alive (t.proc i).state → Alive p.state
  pub started : sleeping ≤ p.state → (sleeping ≤ (t.proc i).state) ⊎ ((t.proc i).parent ≢ 0)
  pub lives : p.state ≡ zombie → (t.proc i).state ≡ zombie
  pub waits :
      p.state ≡ sleeping
      → p.chan ≡ ptr i
      → (c : ℕ) → c < nproc
      → (t.proc c).parent ≡ ptr i
      → (t.proc c).state ≢ zombie

pub next_to : (i j : ℕ) → (j ≡ i) ⊎ ((j == i) ≡ false)
next_to i j = ground arith

pub set-Inv : {t : Table} → Inv t → (i : ℕ) (p : Proc) → Fits t i p → Inv (set_proc t i p)
set-Inv {t} inv i p fits = record {
  init_at = inv.init_at;
  init = (
    inv.init.0,
    inv.init.1,
    elim (ℕ_discrete inv.init_at i) [
      | yes e ↦ ground (arith, inv.init, fits.alive, ap t.proc e)
      | no ne ↦ ground (arith, inv.init)
    ],
  );
  free = λ k lt u. ground (arith, inv.free k lt, fits.still);
  family = λ k lt nz. elim (Bool-cases (k == i)) [
    | inl e ↦ ground (
      arith,
      inv.family i fits.within,
      fits.parent,
      fits.alive,
      next_to i ((t.proc i).parent - 1),
    )
    | inr e ↦ ground (arith, inv.family k lt, fits.alive, next_to i ((t.proc k).parent - 1))
  ];
  orphans = λ k lt s ne. elim (Bool-cases (k == i)) [
    | inl e ↦ ground (arith, inv.orphans i fits.within, fits.started, fits.parent, (==_iff k i).0 e)
    | inr e ↦ ground (arith, inv.orphans k lt)
  ];
  waiting = λ q c lq lc s ch par z. elim (Bool-cases (q == i)) [
    | inl e ↦ elim (Bool-cases (c == i)) [
      | inl e' ↦
          fits.waits (ground arith) (ground (arith, (==_iff q i).0 e)) i fits.within
            (ground (arith, fits.parent, (==_iff q i).0 e)) (fits.lives (ground arith))
      | inr e' ↦
          fits.waits (ground arith) (ground (arith, (==_iff q i).0 e)) c lc
            (ground (arith, (==_iff q i).0 e)) (ground arith)
    ]
    | inr e ↦ elim (Bool-cases (c == i)) [
      | inl e' ↦ ground (arith, inv.waiting q i lq fits.within, fits.lives, fits.parent)
      | inr e' ↦ ground (arith, inv.waiting q c lq lc)
    ]
  ];
  pids = λ k lt u. ground (arith, inv.pids k lt, inv.pids i fits.within fits.in_use, fits.pid);
  distinct = λ j k lj lk ne uj uk. ground (
    arith,
    inv.distinct j k lj lk ne,
    inv.distinct i k fits.within lk,
    inv.distinct j i lj fits.within,
    fits.pid,
    fits.in_use,
  );
  next = inv.next;
}
