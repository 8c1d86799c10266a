-- ===== src/Proc/Exit.antt =====
-- kexit() and kwait() keep the invariant of the process table.
use os.Prelude.{
  ℕ, ◌+◌, ◌-◌, ◌<◌, ◌≤◌, ◌≡◌, ◌≢◌, ◌⊎◌, inl, inr, refl, ap, ◌∙◌, Bool, false, ◌==◌, if◌then◌else◌,
  update, arith, Bool-cases, ==_iff, ◌&&◌, ◌||◌, not,
}
use mathlib.Core.Path.{subst}
use os.Kernel.{Result, ok, panic, sleeps, crashed}
use os.Proc.{
  Table, nproc, sleeping, runnable, running, zombie, ptr, set_proc, reparent, wakeup, kexit, kwait,
  kwait_found, scan, Scan, reap, copy_fails, kids, sleep,
}
use os.Proc.Inv.{Alive, Inv, set-Inv}
use os.Proc.Changes.{freeproc-Inv}
use os.Proc.Loops.{wakeup-proc, wakeup-rest, reparent-Reparented}
use os.Proc.Search.{Scanned, scan-Scanned}

-- Before its state is set, the process `i` that exits has given its children to init, and woken
-- init if it had any, and its own parent.
pub record Left (i : ℕ) (t v : Table) : Type 0 where
  pub next_pid : v.next_pid ≡ t.next_pid
  pub init : v.init ≡ t.init
  pub parents :
      (k : ℕ)
      → k < nproc
      → (v.proc k).parent ≡ (if (t.proc k).parent == ptr i then t.init else (t.proc k).parent)
  pub pids : (k : ℕ) → k < nproc → (v.proc k).pid ≡ (t.proc k).pid
  pub chans : (k : ℕ) → k < nproc → (v.proc k).chan ≡ (t.proc k).chan
  pub states :
      (k : ℕ)
      → k < nproc
      → ((v.proc k).state ≡ (t.proc k).state)
        ⊎ (((t.proc k).state ≡ sleeping) × ((v.proc k).state ≡ runnable))
  pub parent_woken :
      (k : ℕ)
      → k < nproc
      → k ≢ i
      → (t.proc k).state ≡ sleeping
      → (t.proc k).chan ≡ (v.proc i).parent
      → (v.proc k).state ≡ runnable
  pub init_woken :
      (j k : ℕ)
      → j < nproc
      → k < nproc
      → (t.proc j).parent ≡ ptr i
      → k ≢ i
      → (t.proc k).state ≡ sleeping
      → (t.proc k).chan ≡ t.init
      → (v.proc k).state ≡ runnable

abbrev pub left_table : ℕ → Table → Table
left_table i t = let u = reparent (ptr i) t in wakeup (ptr i) (u.proc i).parent u

left_table-proc :
    (i : ℕ) (t : Table) (k : ℕ)
    → k < nproc
    → (left_table i t).proc k ≡ (
        if not (ptr k == ptr i)
          && ((reparent (ptr i) t).proc k).state == sleeping
          && ((reparent (ptr i) t).proc k).chan == ((reparent (ptr i) t).proc i).parent
        then record ((reparent (ptr i) t).proc k) { state = runnable }
        else (reparent (ptr i) t).proc k)
left_table-proc i t k lt =
    wakeup-proc (ptr i) ((reparent (ptr i) t).proc i).parent (reparent (ptr i) t) k lt

pub left_table-Left : (i : ℕ) (t : Table) → i < nproc → Left i t (left_table i t)
left_table-Left i t li =
    let q = reparent-Reparented (ptr i) t in
    let rest = wakeup-rest (ptr i) ((reparent (ptr i) t).proc i).parent (reparent (ptr i) t) in
    record {
      next_pid = rest.0 ∙ q.next_pid;
      init = rest.1 ∙ q.init;
      parents = λ k lt. ground (arith, left_table-proc i t k lt, q.parents k lt);
      pids = λ k lt. ground (arith, left_table-proc i t k lt, q.pids k lt);
      chans = λ k lt. ground (arith, left_table-proc i t k lt, q.chans k lt);
      states = λ k lt. ground (arith, left_table-proc i t k lt, q.states k lt);
      parent_woken = λ k lt ne s c.
          ground (
            arith,
            left_table-proc i t k lt,
            left_table-proc i t i li,
            q.states k lt,
            q.chans k lt,
          );
      init_woken = λ j k lj lk p ne s c. ground (
        arith,
        left_table-proc i t k lk,
        q.init_woken j k (omega arith) (omega arith) lj lk p (omega arith) s c,
      );
    }

module _ {t v : Table} {i : ℕ} (inv : Inv t) (li : i < nproc) (run : (t.proc i).state ≡ running)
    (not_init : ptr i ≢ t.init) (l : Left i t v) where
  Alive-later : (k : ℕ) → k < nproc → Alive (t.proc k).state → Alive (v.proc k).state
  Alive-later k lt a = ground (arith, l.states k lt)

  left_family :
      (k : ℕ)
      → k < nproc
      → (v.proc k).parent ≢ 0
      → (j : ℕ) × (j < nproc) × ((v.proc k).parent ≡ ptr j) × (j ≢ i) × Alive (v.proc j).state
  left_family k lt nz = elim (Bool-cases ((t.proc k).parent == ptr i)) [
    | inl e ↦ (
      inv.init_at,
      inv.init.1,
      ground (arith, l.parents k lt, inv.init),
      ground (arith, inv.init),
      Alive-later inv.init_at inv.init.1 inv.init.2,
    )
    | inr e ↦
        let at = inv.family k lt (ground (arith, l.parents k lt)) in
        (
          (t.proc k).parent - 1,
          ground (arith, at.0, l.parents k lt),
          ground (arith, l.parents k lt),
          ground (arith, l.parents k lt),
          Alive-later _ (ground (arith, at.0, l.parents k lt)) at.1,
        )
  ]

  -- no process still asleep waits for the one that exits, or for a zombie that this has given to
  -- init
  left_waiting :
      (q c : ℕ)
      → q < nproc
      → c < nproc
      → (v.proc q).state ≡ sleeping
      → (v.proc q).chan ≡ ptr q
      → (v.proc c).parent ≡ ptr q
      → q ≢ i
      → (c ≢ i) × ((v.proc c).state ≢ zombie)
  left_waiting q c lq lc s ch par ne = (
    λ e. ground (arith, e, ap v.proc e, l.parent_woken q lq ne, l.states q lq, l.chans q lq),
    λ z. elim (Bool-cases ((t.proc c).parent == ptr i)) [
      | inl e ↦ ground (
        arith,
        l.init_woken c q lc lq ((==_iff _ _).0 e) ne,
        l.states q lq,
        l.chans q lq,
        l.parents c lc,
      )
      | inr e ↦
          ground (
            arith,
            inv.waiting q c lq lc,
            l.states q lq,
            l.states c lc,
            l.chans q lq,
            l.parents c lc,
          )
    ],
  )

  back : (j : ℕ) → j ≡ j + 1 - 1
  back j = omega arith

  leads_to :
      (status p : ℕ)
      → {p' : ℕ} → p ≡ p'
      → ((j : ℕ) × (j < nproc) × (p' ≡ ptr j) × (j ≢ i) × Alive (v.proc j).state)
      → (p ≤ nproc)
        × Alive
            (update v.proc i (record (v.proc i) { xstate = status; state = zombie }) (p - 1)).state
  leads_to status p same (j, lj, is, ne, a) = rw (same ∙ is) (
    omega arith,
    subst
        (λ x.
          Alive (update v.proc i (record (v.proc i) { xstate = status; state = zombie }) x).state)
        (back j) (ground arith),
  )

  -- the exit of a process that is not init
  pub exit-Inv :
      (status : ℕ) → Inv (set_proc v i (record (v.proc i) { xstate = status; state = zombie }))
  exit-Inv status = record {
    init_at = inv.init_at;
    init = (
      l.init ∙ inv.init.0,
      inv.init.1,
      ground (arith, inv.init, Alive-later inv.init_at inv.init.1),
    );
    free = λ k lt s. ground (arith, inv.free k lt, l.parents k lt, l.pids k lt, l.states k lt);
    family = λ k lt nz. elim (Bool-cases (k == i)) [
      | inl e ↦ leads_to status _ (ground arith) (left_family i li (ground arith))
      | inr e ↦ leads_to status _ (ground arith) (left_family k lt (ground arith))
    ];
    orphans = λ k lt s ne.
        ground (arith, inv.orphans k lt, l.parents k lt, l.states k lt, inv.init, (==_iff k i).0);
    waiting = λ q c lq lc s ch par z. elim (Bool-cases (q == i)) [
      | inl e ↦ ground arith
      | inr e ↦
          let (ne, alive) =
            left_waiting q c lq lc (ground arith) (ground arith) (ground arith) (ground arith) in
          ground arith
    ];
    pids = λ k lt s. ground (arith, inv.pids k lt, l.pids k lt, l.states k lt, l.next_pid);
    distinct = λ j k lj lk ne uj uk.
        ground (
          arith,
          inv.distinct j k lj lk ne,
          l.pids j lj,
          l.pids k lk,
          l.states j lj,
          l.states k lk,
        );
    next = ground (arith, inv.next, l.next_pid);
  }

-- the invariant of the state in which a call returns
abbrev pub Kept : Result (Unit {0} × Table) → Type 0
Kept (ok (r, v)) = Inv v
Kept (panic m) = Unit
Kept sleeps = Unit
Kept (crashed d) = Unit

pub kexit-Kept :
    {t : Table} (i status : ℕ)
    → Inv t
    → i < nproc
    → (t.proc i).state ≡ running
    → Kept (kexit i status t)
unfolding kexit
kexit-Kept {t} i status inv li run = elim (Bool-cases (ptr i == t.init)) [
  | inl init ↦ rw init tt
  | inr other ↦ rw other (exit-Inv inv li run (ground arith) (left_table-Left i t li) status)
]

-- The state after a round of kwait(): the process sleeps only when no child has exited.
kwait_found-Inv :
    (copy : ℕ → Bool) {t : Table} (i : ℕ)
    → Inv t
    → i < nproc
    → (t.proc i).state ≡ running
    → (r : Scan) → Scanned copy (ptr i) 0 nproc false t r
    → Inv (kwait_found i t r).1
unfolding kwait_found sleep
kwait_found-Inv copy i inv li run (reap j) q = freeproc-Inv inv j q.1 (ground (arith, q.2))
kwait_found-Inv copy i inv li run (copy_fails j) q = inv
kwait_found-Inv copy {t} i inv li run (kids have) q =
    elim (Bool-cases (not have || (t.proc i).killed)) [
      | inl e ↦ rw e inv
      | inr e ↦ rw e (
          set-Inv inv i _ (record {
            within = li;
            parent = refl;
            pid = refl;
            in_use = ground arith;
            still = ground arith;
            alive = ground arith;
            started = ground arith;
            lives = ground arith;
            waits = λ s ch c lc par z. q.0 c (omega arith) lc (par, z);
          }))
    ]

pub kwait-Inv :
    (copy : ℕ → Bool) (i : ℕ) {t : Table}
    → Inv t
    → i < nproc
    → (t.proc i).state ≡ running
    → Inv (kwait copy i t).1
unfolding kwait
kwait-Inv copy i {t} inv li run =
    kwait_found-Inv copy i inv li run (scan copy (ptr i) nproc 0 false t)
      (scan-Scanned copy (ptr i) nproc 0 false t)
