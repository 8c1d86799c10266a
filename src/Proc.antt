-- ===== src/Proc.antt =====
-- kernel/proc.c: the process table. A pointer to proc[i] is i + 1 and a null pointer 0; a channel
-- is an address, that of proc[i] again i + 1, and of any other object above NPROC. Each function
-- is what one critical section under p->lock, wait_lock or pid_lock does; Steps says which of them
-- follow one another. Memory, files, names and saved registers of a process are left out.
pub mod Loops
pub mod Search
pub mod Inv
pub mod Changes
pub mod Exit
pub mod Steps
pub mod Reachable
pub mod Wait
mod Tests
use os.Prelude.{
  ℕ, zero, suc, ◌+◌, ◌-◌, ◌^◌, Bool, true, false, not, ◌&&◌, ◌||◌, Option, none, some, ◌==◌,
  if◌then◌else◌, update, u32,
}
use os.Kernel.{Result, ok, panic, Prog, ◌>>=◌, ◌>>◌}

abbrev pub nproc : ℕ
nproc = 64

-- enum procstate
abbrev pub unused : ℕ
unused = 0

abbrev pub used : ℕ
used = 1

abbrev pub sleeping : ℕ
sleeping = 2

abbrev pub runnable : ℕ
runnable = 3

abbrev pub running : ℕ
running = 4

abbrev pub zombie : ℕ
zombie = 5

pub record Proc : Type 0 where
  pub state : ℕ
  pub chan : ℕ
  pub killed : Bool
  pub xstate : ℕ
  pub pid : ℕ
  pub parent : ℕ

-- the array proc[], nextpid, and initproc as a pointer
pub record Table : Type 0 where
  pub proc : ℕ → Proc
  pub next_pid : ℕ
  pub init : ℕ

abbrev pub ptr : ℕ → ℕ
ptr i = i + 1

abbrev pub set_proc : Table → ℕ → Proc → Table
set_proc t i p = record t { proc = update t.proc i p }

-- procinit(), on zeroed memory
abbrev pub procinit : Table
procinit = record {
  proc = λ _. record { state = unused; chan = 0; killed = false; xstate = 0; pid = 0; parent = 0 };
  next_pid = 1;
  init = 0;
}

unfoldable pub allocpid : Table → ℕ × Table
allocpid t = (t.next_pid, record t { next_pid = u32 (t.next_pid + 1) })

unfoldable pub freeproc : ℕ → Table → Table
freeproc i t =
    set_proc t i
      (record { state = unused; chan = 0; killed = false; xstate = 0; pid = 0; parent = 0 })

-- the first unused entry from `i` on, `left` entries before the end of the table
pub find_unused : ℕ → ℕ → Table → Option ℕ
find_unused zero i t = none
find_unused (suc left) i t =
    let rest = find_unused left (i + 1) t in if (t.proc i).state == unused then some i else rest

-- what allocproc() does with the entry it has found; `page` and `pagetable` are whether these
-- could be allocated
unfoldable pub alloc_entry : Bool → Bool → Table → Option ℕ → Option ℕ × Table
alloc_entry page pagetable t none = (none, t)
alloc_entry page pagetable t (some i) =
    let (pid, t') = allocpid t in
    let u = set_proc t' i (record (t'.proc i) { pid = pid; state = used }) in
    if page && pagetable then (some i, u) else (none, freeproc i u)

unfoldable pub allocproc : Bool → Bool → Table → Option ℕ × Table
allocproc page pagetable t = alloc_entry page pagetable t (find_unused nproc 0 t)

unfoldable pub userinit : Bool → Bool → Table → Option Table
userinit page pagetable t =
    let (np, t') = allocproc page pagetable t in
    elim np [
      | none ↦ none
      | some i ↦
          some (record (set_proc t' i (record (t'.proc i) { state = runnable })) { init = ptr i })
    ]

-- what kfork() does with the result of allocproc(); `copied` is whether uvmcopy() succeeded
unfoldable pub fork_entry : Bool → Option ℕ × Table → Option (ℕ × ℕ) × Table
fork_entry copied (none, t) = (none, t)
fork_entry copied (some i, t) =
    if copied then (some (i, (t.proc i).pid), t) else (none, freeproc i t)

-- kfork() up to the release of np->lock: the child and its pid
unfoldable pub fork_alloc : Bool → Bool → Bool → Table → Option (ℕ × ℕ) × Table
fork_alloc page pagetable copied t = fork_entry copied (allocproc page pagetable t)

-- np->parent = p under wait_lock, then np->state = RUNNABLE under np->lock
unfoldable pub fork_parent : ℕ → ℕ → Table → Table
fork_parent np me t = set_proc t np (record (t.proc np) { parent = ptr me })

unfoldable pub fork_ready : ℕ → Table → Table
fork_ready np t = set_proc t np (record (t.proc np) { state = runnable })

-- `left` rounds of wakeup() from `i` on; `me` is myproc()
unfoldable pub wakeup_loop : ℕ → ℕ → ℕ → ℕ → Table → Table
wakeup_loop me chan zero i t = t
wakeup_loop me chan (suc left) i t =
    let p = t.proc i in
    wakeup_loop me chan left (i + 1) (
      if not (ptr i == me) && p.state == sleeping && p.chan == chan
      then set_proc t i (record p { state = runnable })
      else t)

unfoldable pub wakeup : ℕ → ℕ → Table → Table
wakeup me chan = wakeup_loop me chan nproc 0

unfoldable pub reparent_loop : ℕ → ℕ → ℕ → Table → Table
reparent_loop me zero i t = t
reparent_loop me (suc left) i t = reparent_loop me left (i + 1) (
    if (t.proc i).parent == me
    then wakeup me t.init (set_proc t i (record (t.proc i) { parent = t.init }))
    else t)

unfoldable pub reparent : ℕ → Table → Table
reparent me = reparent_loop me nproc 0

-- kexit() from wait_lock on; its first test is the one for initproc
unfoldable pub kexit : ℕ → ℕ → Prog Table (Unit {0})
kexit i status t =
    let u = reparent (ptr i) t in
    let v = wakeup (ptr i) (u.proc i).parent u in
    if ptr i == t.init
    then panic "init exiting"
    else ok (tt, set_proc v i (record (v.proc i) { xstate = status; state = zombie }))

-- What the scan of kwait() finds: a child to reap, one whose status cannot be copied out, or
-- whether there are children.
pub data Scan : Type 0 where
  reap copy_fails : ℕ → Scan
  kids : Bool → Scan

-- `copy` is whether the exit status can be stored at the caller's address
pub scan : (ℕ → Bool) → ℕ → ℕ → ℕ → Bool → Table → Scan
scan copy me zero i have_kids t = kids have_kids
scan copy me (suc left) i have_kids t =
    let p = t.proc i in
    let rest = scan copy me left (i + 1) (p.parent == me || have_kids) t in
    if p.parent == me && p.state == zombie
    then if copy p.xstate then reap i else copy_fails i
    else rest

-- what kwait() does at the end of a round: it returns a pid, returns -1, or sleeps
pub data Waited : Type 0 where
  reaped : ℕ → Waited
  failed asleep : Waited

unfoldable pub sleep : ℕ → ℕ → Table → Table
sleep i chan t = set_proc t i (record (t.proc i) { chan = chan; state = sleeping })

-- the end of sleep(), once the process runs again
unfoldable pub sleep_end : ℕ → Table → Table
sleep_end i t = set_proc t i (record (t.proc i) { chan = 0 })

-- what kwait() does with what the scan found
unfoldable pub kwait_found : ℕ → Table → Scan → Waited × Table
kwait_found i t (reap j) = (reaped (t.proc j).pid, freeproc j t)
kwait_found i t (copy_fails j) = (failed, t)
kwait_found i t (kids have) =
    if not have || (t.proc i).killed then (failed, t) else (asleep, sleep i (ptr i) t)

-- one round of the loop of kwait(), under wait_lock
unfoldable pub kwait : (ℕ → Bool) → ℕ → Table → Waited × Table
kwait copy i t = kwait_found i t (scan copy (ptr i) nproc 0 false t)

unfoldable pub yield : ℕ → Table → Table
yield i t = set_proc t i (record (t.proc i) { state = runnable })

-- the scheduler's visit to an entry, up to swtch(): whether it runs the process
unfoldable pub schedule : ℕ → Table → Bool × Table
schedule i t =
    if (t.proc i).state == runnable
    then (true, set_proc t i (record (t.proc i) { state = running }))
    else (false, t)

-- kkill() from entry `i` on: whether the pid was found
unfoldable pub kill_loop : ℕ → ℕ → ℕ → Table → Bool × Table
kill_loop pid zero i t = (false, t)
kill_loop pid (suc left) i t =
    let p = t.proc i in
    let rest = kill_loop pid left (i + 1) t in
    if p.pid == pid
    then (
      true,
      set_proc t i
          (record p { killed = true; state = if p.state == sleeping then runnable else p.state }),
    )
    else rest

unfoldable pub kkill : ℕ → Table → Bool × Table
kkill pid = kill_loop pid nproc 0

unfoldable pub setkilled : ℕ → Table → Table
setkilled i t = set_proc t i (record (t.proc i) { killed = true })
