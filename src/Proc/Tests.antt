-- ===== src/Proc/Tests.antt =====
-- Runs of the process table: init forks a child, waits for it, and the child exits.
use os.Prelude.{ℕ, ◌<◌, ◌≤◌, ◌≡◌, ◌≢◌, refl, true, false, some, arith}
use os.Proc.{
  Proc, Table, nproc, used, sleeping, runnable, running, zombie, ptr, set_proc, procinit, userinit,
  schedule, sleep, fork_alloc, fork_entry, fork_parent, fork_ready, allocproc, alloc_entry,
  allocpid, find_unused, kexit, kwait, kwait_found, scan, wakeup, wakeup_loop, reparent,
  reparent_loop, kkill,
}
use os.Proc.Steps.{schedules, forks, adopts, readies, waits, Reach, boots, steps}
use os.Proc.Reachable.{kwait-no_lost_exit, parent-Alive, allocpid-distinct}
use os.Proc.Search.{Killed, kkill-Killed}
use os.Proc.Wait.{Round, kwait-Round, Reaps, kexit-kwait, kkill-allocproc}

abbrev entry : ℕ → ℕ → ℕ → ℕ → Proc
entry state chan pid parent = record {
  state = state;
  chan = chan;
  killed = false;
  xstate = 0;
  pid = pid;
  parent = parent;
}

-- init runs alone
abbrev booted : Table
booted =
    record (set_proc (set_proc (record procinit { next_pid = 2 }) 0 (entry used 0 1 0)) 0
      (entry runnable 0 1 0)) { init = 1 }

booted-Reach : Reach booted
unfolding userinit allocproc alloc_entry find_unused allocpid
booted-Reach = boots true true refl

abbrev runs : Table
runs = (schedule 0 booted).1

runs-Reach : Reach runs
runs-Reach = steps booted-Reach (schedules 0 (omega arith))

abbrev forked : Table
forked = fork_ready 1 (fork_parent 1 0 (fork_alloc true true true runs).1)

forked-Reach : Reach forked
unfolding schedule fork_alloc fork_entry allocproc alloc_entry find_unused allocpid fork_parent
forked-Reach =
    steps
      (steps (steps runs-Reach (forks true true true (omega arith)))
        (adopts 1 0 (omega arith) (omega arith) refl refl))
      (readies 1 (omega arith) refl (λ e. omega arith))

-- init in kwait()
abbrev waiting : Table
waiting = (kwait (λ _. true) 0 forked).1

waiting-Reach : Reach waiting
unfolding fork_ready fork_parent fork_alloc fork_entry allocproc alloc_entry find_unused allocpid
    schedule
waiting-Reach = steps forked-Reach (waits (λ _. true) 0 (omega arith) refl)

-- the child runs and exits
abbrev child_runs : Table
child_runs = (schedule 1 waiting).1

abbrev exited : Table
exited =
    let u = reparent 2 child_runs in
    let v = wakeup 2 (u.proc 1).parent u in
    set_proc v 1 (record (v.proc 1) { xstate = 7; state = zombie })

kwait-no_lost_exit_example : (waiting.proc 1).state ≢ zombie
unfolding fork_ready fork_parent fork_alloc fork_entry allocproc alloc_entry find_unused allocpid
    schedule kwait scan kwait_found sleep
kwait-no_lost_exit_example =
    kwait-no_lost_exit 0 1 waiting-Reach (omega arith) (omega arith) refl refl refl

parent-Alive_example :
    (p : ℕ) × (p < nproc)
    × ((forked.proc 1).parent ≡ ptr p)
    × (sleeping ≤ (forked.proc p).state)
    × ((forked.proc p).state ≤ running)
unfolding fork_ready fork_parent fork_alloc fork_entry allocproc alloc_entry find_unused allocpid
    schedule
parent-Alive_example = parent-Alive 1 forked-Reach (omega arith) (omega arith) (λ e. omega arith)

allocpid-distinct_example : (0 < (forked.proc 0).pid) × ((forked.proc 0).pid ≢ (forked.proc 1).pid)
unfolding fork_ready fork_parent fork_alloc fork_entry allocproc alloc_entry find_unused allocpid
    schedule
allocpid-distinct_example =
    allocpid-distinct 0 1 forked-Reach (omega arith) (omega arith) (λ e. omega arith)
      (λ e. omega arith) (λ e. omega arith)

kkill-Killed_example : Killed 2 0 nproc waiting (kkill 2 waiting)
kkill-Killed_example = kkill-Killed 2 waiting

kexit-kwait_example : Reaps 0 exited (kwait (λ _. true) 0 exited)
unfolding fork_ready fork_parent fork_alloc fork_entry allocproc alloc_entry find_unused allocpid
    schedule kwait scan kwait_found sleep kexit reparent reparent_loop wakeup wakeup_loop
kexit-kwait_example = kexit-kwait child_runs 1 7 0 (omega arith) refl refl

kkill-allocproc_example :
    ((kkill 0 booted).0 ≡ true)
    × ((allocproc true true (kkill 0 booted).1).0 ≡ some 1)
    × (((allocproc true true (kkill 0 booted).1).1.proc 1).killed ≡ true)
unfolding find_unused
kkill-allocproc_example = kkill-allocproc 1 booted-Reach refl

kwait-Round_example : Round (λ _. true) 0 exited (kwait (λ _. true) 0 exited)
kwait-Round_example = kwait-Round (λ _. true) 0 exited
