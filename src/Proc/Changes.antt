-- ===== src/Proc/Changes.antt =====
-- The changes of the process table that are not of one entry in use, and the invariant.
use os.Prelude.{
  ℕ, ◌+◌, ◌-◌, ◌^◌, ◌<◌, ◌≡◌, ◌⊎◌, inl, inr, ap, ◌∙◌, Bool, true, false, arith, Bool-cases, Option,
  none, some, u32, ◌&&◌,
}
use native.Mathlib.Decide.{ℕ_discrete}
use os.Proc.{
  Table, nproc, unused, used, sleeping, runnable, running, set_proc, freeproc, find_unused,
  allocpid, allocproc, alloc_entry, fork_alloc, fork_entry, fork_parent, wakeup,
}
use os.Proc.Inv.{Alive, Inv, next_to}
use os.Proc.Loops.{wakeup-proc, wakeup-rest}
use os.Proc.Search.{Found, find_unused-Found}

-- some of the sleeping processes have been made runnable
pub record Roused (t u : Table) : Type 0 where
  pub next_pid : u.next_pid ≡ t.next_pid
  pub init : u.init ≡ t.init
  pub parents : (k : ℕ) → k < nproc → (u.proc k).parent ≡ (t.proc k).parent
  pub pids : (k : ℕ) → k < nproc → (u.proc k).pid ≡ (t.proc k).pid
  pub chans : (k : ℕ) → k < nproc → (u.proc k).chan ≡ (t.proc k).chan
  pub states :
      (k : ℕ)
      → k < nproc
      → ((u.proc k).state ≡ (t.proc k).state)
        ⊎ (((t.proc k).state ≡ sleeping) × ((u.proc k).state ≡ runnable))

pub Roused-Inv : {t u : Table} → Inv t → Roused t u → Inv u
Roused-Inv {t} {u} inv r = record {
  init_at = inv.init_at;
  init =
      (r.init ∙ inv.init.0, inv.init.1, ground (arith, inv.init, r.states inv.init_at inv.init.1));
  free = λ k lt s. ground (arith, inv.free k lt, r.parents k lt, r.pids k lt, r.states k lt);
  family = λ k lt nz.
      let at = inv.family k lt (ground (arith, r.parents k lt)) in
      rw (r.parents k lt) (
        at.0,
        ground
            (arith, at.1, r.states ((t.proc k).parent - 1) (omega (arith, at.0, r.parents k lt))),
      );
  orphans = λ k lt s ne. ground (arith, inv.orphans k lt, r.parents k lt, r.states k lt);
  waiting = λ q c lq lc s ch par z.
      ground
        (arith, inv.waiting q c lq lc, r.states q lq, r.states c lc, r.chans q lq, r.parents c lc);
  pids = λ k lt s. ground (arith, inv.pids k lt, r.states k lt, r.pids k lt, r.next_pid);
  distinct = λ j k lj lk ne uj uk.
      ground
        (arith, inv.distinct j k lj lk ne, r.states j lj, r.states k lk, r.pids j lj, r.pids k lk);
  next = ground (arith, inv.next, r.next_pid);
}

pub wakeup-Inv : (me chan : ℕ) {t : Table} → Inv t → Inv (wakeup me chan t)
wakeup-Inv me chan {t} inv = Roused-Inv inv (record {
  next_pid = (wakeup-rest me chan t).0;
  init = (wakeup-rest me chan t).1;
  parents = λ k lt. ground (arith, wakeup-proc me chan t k lt);
  pids = λ k lt. ground (arith, wakeup-proc me chan t k lt);
  chans = λ k lt. ground (arith, wakeup-proc me chan t k lt);
  states = λ k lt. ground (arith, wakeup-proc me chan t k lt);
})

-- An entry that cannot run may be freed: no parent pointer leads to it.
pub freeproc-Inv :
    {t : Table} → Inv t → (i : ℕ) → i < nproc → ¬ Alive (t.proc i).state → Inv (freeproc i t)
unfolding freeproc
freeproc-Inv {t} inv i li dead = record {
  init_at = inv.init_at;
  init = (
    inv.init.0,
    inv.init.1,
    elim (ℕ_discrete inv.init_at i) [
      | yes e ↦ absurd (dead (ground (arith, inv.init, ap t.proc e)))
      | no ne ↦ ground (arith, inv.init)
    ],
  );
  free = λ k lt s. ground (arith, inv.free k lt);
  family = λ k lt nz. ground (arith, inv.family k lt, dead, next_to i ((t.proc k).parent - 1));
  orphans = λ k lt s ne. ground (arith, inv.orphans k lt);
  waiting = λ q c lq lc s ch par z. ground (arith, inv.waiting q c lq lc);
  pids = λ k lt s. ground (arith, inv.pids k lt);
  distinct = λ j k lj lk ne uj uk. ground (arith, inv.distinct j k lj lk ne);
  next = inv.next;
}

-- allocproc() once it has found the free entry `i`
abbrev pub claim : ℕ → Table → Table
claim i t =
    set_proc (record t { next_pid = u32 (t.next_pid + 1) }) i
      (record (t.proc i) { pid = t.next_pid; state = used })

pub claim-Inv :
    {t : Table}
    → Inv t
    → (i : ℕ) → i < nproc
    → (t.proc i).state ≡ unused
    → t.next_pid + 1 < 2 ^ 31
    → Inv (claim i t)
claim-Inv {t} inv i li s0 room = record {
  init_at = inv.init_at;
  init = (
    inv.init.0,
    inv.init.1,
    elim (ℕ_discrete inv.init_at i) [
      | yes e ↦ absurd (ground (arith, inv.init, ap t.proc e))
      | no ne ↦ ground (arith, inv.init)
    ],
  );
  free = λ k lt s. ground (arith, inv.free k lt);
  family =
      λ k lt nz. ground (arith, inv.family k lt, inv.free i li, next_to i ((t.proc k).parent - 1));
  orphans = λ k lt s ne. ground (arith, inv.orphans k lt);
  waiting = λ q c lq lc s ch par z. ground (arith, inv.waiting q c lq lc);
  pids = λ k lt s. ground (arith, inv.pids k lt, inv.next);
  distinct =
      λ j k lj lk ne uj uk. ground (arith, inv.distinct j k lj lk ne, inv.pids j lj, inv.pids k lk);
  next = ground (arith, inv.next);
}

-- the invariant, and of the entry that is returned that it is used and not yet started
abbrev pub Claimed : Option ℕ × Table → Type 0
Claimed (none, u) = Inv u
Claimed (some i, u) = Inv u × (i < nproc) × ((u.proc i).state ≡ used)

alloc_entry-Claimed :
    (page pagetable : Bool) {t : Table}
    → Inv t
    → t.next_pid + 1 < 2 ^ 31
    → (o : Option ℕ) → Found 0 nproc t o
    → Claimed (alloc_entry page pagetable t o)
unfolding alloc_entry allocpid
alloc_entry-Claimed page pagetable {t} inv room none q = inv
alloc_entry-Claimed page pagetable {t} inv room (some i) q = elim (Bool-cases (page && pagetable)) [
  | inl e ↦ rw e (claim-Inv inv i q.1 q.2 room, q.1, ground arith)
  | inr e ↦ rw e (freeproc-Inv (claim-Inv inv i q.1 q.2 room) i q.1 (ground arith))
]

pub allocproc-Claimed :
    (page pagetable : Bool) {t : Table}
    → Inv t
    → t.next_pid + 1 < 2 ^ 31
    → Claimed (allocproc page pagetable t)
unfolding allocproc
allocproc-Claimed page pagetable {t} inv room =
    alloc_entry-Claimed page pagetable inv room (find_unused nproc 0 t)
      (find_unused-Found nproc 0 t)

fork_entry-Inv : (copied : Bool) (r : Option ℕ × Table) → Claimed r → Inv (fork_entry copied r).1
unfolding fork_entry
fork_entry-Inv copied (none, t) inv = inv
fork_entry-Inv true (some i, t) c = c.0
fork_entry-Inv false (some i, t) c = freeproc-Inv c.0 i c.1 (ground (arith, c.2))

pub fork_alloc-Inv :
    (page pagetable copied : Bool) {t : Table}
    → Inv t
    → t.next_pid + 1 < 2 ^ 31
    → Inv (fork_alloc page pagetable copied t).1
unfolding fork_alloc
fork_alloc-Inv page pagetable copied inv room =
    fork_entry-Inv copied _ (allocproc-Claimed page pagetable inv room)

pub fork_parent-Inv :
    {t : Table}
    → Inv t
    → (np me : ℕ) → np < nproc
    → me < nproc
    → (t.proc np).state ≡ used
    → (t.proc me).state ≡ running
    → Inv (fork_parent np me t)
unfolding fork_parent
fork_parent-Inv {t} inv np me ln lm s r = record {
  init_at = inv.init_at;
  init = (
    inv.init.0,
    inv.init.1,
    elim (ℕ_discrete inv.init_at np) [
      | yes e ↦ absurd (ground (arith, inv.init, ap t.proc e))
      | no ne ↦ ground (arith, inv.init)
    ],
  );
  free = λ k lt u. ground (arith, inv.free k lt);
  family =
      λ k lt nz. ground (arith, inv.family k lt, next_to np ((t.proc k).parent - 1), next_to np me);
  orphans = λ k lt u ne. ground (arith, inv.orphans k lt);
  waiting = λ q c lq lc u ch par z. ground (arith, inv.waiting q c lq lc);
  pids = λ k lt u. ground (arith, inv.pids k lt, inv.pids np ln);
  distinct = λ j k lj lk ne uj uk.
      ground (arith, inv.distinct j k lj lk ne, inv.distinct np k ln lk, inv.distinct j np lj ln);
  next = inv.next;
}
