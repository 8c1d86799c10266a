-- ===== src/Proc/Reachable.antt =====
-- The process table in every reachable state.
use os.Prelude.{
  ℕ, ◌-◌, ◌<◌, ◌≤◌, ◌≡◌, ◌≢◌, ◌⊎◌, inl, inr, refl, sym, Bool, true, false, ◌==◌, arith, Bool-cases,
  ==_iff, Option, none, some,
}
use mathlib.Core.Path.{subst}
use os.Proc.{
  Proc, Table, nproc, unused, used, sleeping, runnable, running, zombie, ptr, set_proc, procinit,
  userinit, schedule, yield, sleep, sleep_end, kkill, setkilled, fork_ready, find_unused,
  alloc_entry, allocproc, allocpid,
}
use os.Proc.Inv.{Alive, Inv, set-Inv}
use os.Proc.Changes.{Roused-Inv, Roused, wakeup-Inv, fork_alloc-Inv, fork_parent-Inv}
use os.Proc.Search.{Killed, kkill-Killed}
use os.Proc.Exit.{Kept, kexit-Kept, kwait-Inv}
use os.Proc.Steps.{
  Step, schedules, yields, falls_asleep, ends_sleep, wakes, kills, sets_killed, forks, adopts,
  readies, exits, waits, Reach, boots, steps,
}

abbrev first : Table
first =
    record (set_proc
      (set_proc (record procinit { next_pid = 2 }) 0
        (record { state = used; chan = 0; killed = false; xstate = 0; pid = 1; parent = 0 }))
      0 (record { state = runnable; chan = 0; killed = false; xstate = 0; pid = 1; parent = 0 })) {
        init = 1;
      }

first-Inv : Inv first
first-Inv = record {
  init_at = 0;
  init = (refl, omega arith, (omega arith, omega arith));
  free = λ k lt s. ground arith;
  family = λ k lt nz. ground arith;
  orphans = λ k lt s ne. ground arith;
  waiting = λ q c lq lc s ch par z. ground arith;
  pids = λ k lt s. ground arith;
  distinct = λ j k lj lk ne uj uk. ground arith;
  next = (omega arith, omega arith);
}

Started : Option Table → Type 0
Started none = Unit
Started (some t) = Inv t

userinit-Started : (page pagetable : Bool) → Started (userinit page pagetable procinit)
unfolding userinit allocproc alloc_entry find_unused allocpid Started
userinit-Started true true = first-Inv
userinit-Started true false = tt
userinit-Started false pagetable = tt

set-Roused :
    (t : Table) (i : ℕ) (p : Proc)
    → p.parent ≡ (t.proc i).parent
    → p.pid ≡ (t.proc i).pid
    → p.chan ≡ (t.proc i).chan
    → (p.state ≡ (t.proc i).state) ⊎ (((t.proc i).state ≡ sleeping) × (p.state ≡ runnable))
    → Roused t (set_proc t i p)
set-Roused t i p e₁ e₂ e₃ e₄ = record {
  next_pid = refl;
  init = refl;
  parents = λ k lt. elim (Bool-cases (k == i)) [
    | inl e ↦ rw ((==_iff k i).0 e) (ground arith)
    | inr e ↦ ground arith
  ];
  pids = λ k lt. elim (Bool-cases (k == i)) [
    | inl e ↦ rw ((==_iff k i).0 e) (ground arith)
    | inr e ↦ ground arith
  ];
  chans = λ k lt. elim (Bool-cases (k == i)) [
    | inl e ↦ rw ((==_iff k i).0 e) (ground arith)
    | inr e ↦ ground arith
  ];
  states = λ k lt. elim (Bool-cases (k == i)) [
    | inl e ↦ rw ((==_iff k i).0 e) (ground arith)
    | inr e ↦ ground arith
  ];
}

setkilled-Inv : (i : ℕ) {t : Table} → Inv t → Inv (setkilled i t)
unfolding setkilled
setkilled-Inv i {t} inv = Roused-Inv inv (set-Roused t i _ refl refl refl (inl refl))

kkill-Inv : (pid : ℕ) {t : Table} → Inv t → Inv (kkill pid t).1
unfolding Killed
kkill-Inv pid {t} inv = killed_inv (kkill pid t) (kkill-Killed pid t)
  where
    killed_inv : (r : Bool × Table) → Killed pid 0 nproc t r → Inv r.1
    killed_inv (false, u) q = subst Inv (sym q.0) inv
    killed_inv (true, u) (j, lo, lj, at, is) =
        subst Inv (sym is) (Roused-Inv inv (set-Roused t j _ refl refl refl (ground arith)))

module _ {t : Table} (inv : Inv t) (i : ℕ) (li : i < nproc) where
  -- a process that has started, and does not sleep afterwards in kwait()
  moves :
      (p : Proc)
      → p.parent ≡ (t.proc i).parent
      → p.pid ≡ (t.proc i).pid
      → Alive (t.proc i).state
      → Alive p.state
      → (p.state ≡ sleeping → p.chan ≢ ptr i)
      → Inv (set_proc t i p)
  moves p par pid was is other = set-Inv inv i p (record {
    within = li;
    parent = par;
    pid = pid;
    in_use = ground arith;
    still = ground arith;
    alive = λ _. is;
    started = λ _. inl was.0;
    lives = ground arith;
    waits = λ s ch c lc. absurd (other s ch);
  })

  schedule-Inv : Inv (schedule i t).1
  unfolding schedule
  schedule-Inv = elim (Bool-cases ((t.proc i).state == runnable)) [
    | inl e ↦ rw e (moves _ refl refl (ground arith) (omega arith, omega arith) (ground arith))
    | inr e ↦ rw e inv
  ]

  yield-Inv : (t.proc i).state ≡ running → Inv (yield i t)
  unfolding yield
  yield-Inv run = moves _ refl refl (ground arith) (omega arith, omega arith) (ground arith)

  sleep-Inv : (chan : ℕ) → (t.proc i).state ≡ running → nproc < chan → Inv (sleep i chan t)
  unfolding sleep
  sleep-Inv chan run far =
      moves _ refl refl (ground arith) (omega arith, omega arith) (ground arith)

  sleep_end-Inv : (t.proc i).state ≡ running → Inv (sleep_end i t)
  unfolding sleep_end
  sleep_end-Inv run = moves _ refl refl (ground arith) (ground arith) (ground arith)

  fork_ready-Inv : (t.proc i).state ≡ used → (t.proc i).parent ≢ 0 → Inv (fork_ready i t)
  unfolding fork_ready
  fork_ready-Inv new par = set-Inv inv i _ (record {
    within = li;
    parent = refl;
    pid = refl;
    in_use = ground arith;
    still = ground arith;
    alive = λ a. ground arith;
    started = λ _. inr par;
    lives = ground arith;
    waits = ground arith;
  })

Step-Inv : {t u : Table} → Inv t → Step t u → Inv u
Step-Inv inv (schedules i li) = schedule-Inv inv i li
Step-Inv inv (yields i li run) = yield-Inv inv i li run
Step-Inv inv (falls_asleep i chan li run far) = sleep-Inv inv i li chan run far
Step-Inv inv (ends_sleep i li run) = sleep_end-Inv inv i li run
Step-Inv inv (wakes me chan) = wakeup-Inv me chan inv
Step-Inv inv (kills pid) = kkill-Inv pid inv
Step-Inv inv (sets_killed i) = setkilled-Inv i inv
Step-Inv inv (forks page pagetable copied room) = fork_alloc-Inv page pagetable copied inv room
Step-Inv inv (adopts np me ln lm new run) = fork_parent-Inv inv np me ln lm new run
Step-Inv inv (readies np ln new par) = fork_ready-Inv inv np ln new par
Step-Inv inv (exits i status li run e) = subst Kept e (kexit-Kept i status inv li run)
Step-Inv inv (waits copy i li run) = kwait-Inv copy i inv li run

pub Reach-Inv : {t : Table} → Reach t → Inv t
unfolding Started
Reach-Inv (boots page pagetable e) = subst Started e (userinit-Started page pagetable)
Reach-Inv (steps r s) = Step-Inv (Reach-Inv r) s

-- In every reachable state no process sleeps in kwait() while a child of it has exited.
pub kwait-no_lost_exit :
    {t : Table} (p c : ℕ)
    → Reach t
    → p < nproc
    → c < nproc
    → (t.proc p).state ≡ sleeping
    → (t.proc p).chan ≡ ptr p
    → (t.proc c).parent ≡ ptr p
    → (t.proc c).state ≢ zombie
kwait-no_lost_exit p c r lp lc s ch par = (Reach-Inv r).waiting p c lp lc s ch par

-- In every reachable state a process that has started, but for init, has a parent that is in the
-- table and has not exited: it sleeps, is runnable or runs.
pub parent-Alive :
    {t : Table} (c : ℕ)
    → Reach t
    → c < nproc
    → sleeping ≤ (t.proc c).state
    → ptr c ≢ t.init
    → (p : ℕ) × (p < nproc)
      × ((t.proc c).parent ≡ ptr p)
      × (sleeping ≤ (t.proc p).state)
      × ((t.proc p).state ≤ running)
parent-Alive {t} c r lc s other =
    let inv = Reach-Inv r in
    let nz : (t.proc c).parent ≢ 0 = inv.orphans c lc s (ground (arith, inv.init)) in
    let (at, alive) = inv.family c lc nz in
    ((t.proc c).parent - 1, omega arith, omega arith, alive.0, alive.1)

-- In every state that is reached while nextpid stays below 2^31, and so does not wrap around, two
-- entries in use of the process table have different pids, and these are positive.
pub allocpid-distinct :
    {t : Table} (j k : ℕ)
    → Reach t
    → j < nproc
    → k < nproc
    → j ≢ k
    → (t.proc j).state ≢ unused
    → (t.proc k).state ≢ unused
    → (0 < (t.proc j).pid) × ((t.proc j).pid ≢ (t.proc k).pid)
allocpid-distinct j k r lj lk ne uj uk =
    let inv = Reach-Inv r in ((inv.pids j lj uj).0, inv.distinct j k lj lk ne uj uk)
