-- ===== src/Proc/Loops.antt =====
-- What the loops over the process table do to each entry.
use os.Prelude.{
  ℕ, zero, suc, ◌+◌, ◌<◌, ◌≤◌, ◌≡◌, ◌≢◌, ◌⊎◌, inl, inr, refl, ◌∙◌, true, false, not, ◌&&◌, ◌==◌,
  ltb, leb, if◌then◌else◌, arith, Bool-cases, ==_iff,
}
use os.Proc.{
  Proc, Table, nproc, sleeping, runnable, ptr, set_proc, wakeup_loop, wakeup, reparent_loop,
  reparent,
}

-- entry `k` after wakeup()
abbrev pub woken : ℕ → ℕ → ℕ → Proc → Proc
woken me chan k p =
    if not (ptr k == me) && p.state == sleeping && p.chan == chan
    then record p { state = runnable }
    else p

wakeup_loop-proc :
    (me chan left i : ℕ) (t : Table) (k : ℕ)
    → (wakeup_loop me chan left i t).proc k
      ≡ (if leb i k && ltb k (i + left) then woken me chan k (t.proc k) else t.proc k)
unfolding wakeup_loop
wakeup_loop-proc me chan zero i t k = ground arith
wakeup_loop-proc me chan (suc left) i t k = wakeup_loop-proc me chan left (i + 1) _ k ∙ ground arith

wakeup_loop-rest :
    (me chan left i : ℕ) (t : Table)
    → ((wakeup_loop me chan left i t).next_pid ≡ t.next_pid)
      × ((wakeup_loop me chan left i t).init ≡ t.init)
unfolding wakeup_loop
wakeup_loop-rest me chan zero i t = (refl, refl)
wakeup_loop-rest me chan (suc left) i t =
    let ih = wakeup_loop-rest me chan left (i + 1) _ in (ih.0 ∙ ground arith, ih.1 ∙ ground arith)

-- wakeup() makes the processes that sleep on the channel runnable, but for the caller, and changes
-- nothing else.
pub wakeup-proc :
    (me chan : ℕ) (t : Table) (k : ℕ)
    → k < nproc
    → (wakeup me chan t).proc k ≡ woken me chan k (t.proc k)
unfolding wakeup
wakeup-proc me chan t k lt = wakeup_loop-proc me chan nproc 0 t k ∙ ground arith

pub wakeup-rest :
    (me chan : ℕ) (t : Table)
    → ((wakeup me chan t).next_pid ≡ t.next_pid) × ((wakeup me chan t).init ≡ t.init)
unfolding wakeup
wakeup-rest me chan t = wakeup_loop-rest me chan nproc 0 t

-- What reparent() has done from entry `i` on, `left` entries: the children of `me` in that range
-- have the parent `init`, and if there is one, `init` does not sleep on its own address.
pub record Reparented (me i left : ℕ) (t u : Table) : Type 0 where
  pub next_pid : u.next_pid ≡ t.next_pid
  pub init : u.init ≡ t.init
  pub parents :
      (k : ℕ)
      → k < nproc
      → (u.proc k).parent ≡ (
          if leb i k && ltb k (i + left) && ((t.proc k).parent == me)
          then t.init
          else (t.proc k).parent)
  pub pids : (k : ℕ) → k < nproc → (u.proc k).pid ≡ (t.proc k).pid
  pub chans : (k : ℕ) → k < nproc → (u.proc k).chan ≡ (t.proc k).chan
  pub kills : (k : ℕ) → k < nproc → (u.proc k).killed ≡ (t.proc k).killed
  pub states :
      (k : ℕ)
      → k < nproc
      → ((u.proc k).state ≡ (t.proc k).state)
        ⊎ (((t.proc k).state ≡ sleeping)
            × (ptr k ≢ me)
            × ((t.proc k).chan ≡ t.init)
            × ((u.proc k).state ≡ runnable))
  pub init_woken :
      (j k : ℕ)
      → i ≤ j
      → j < i + left
      → j < nproc
      → k < nproc
      → (t.proc j).parent ≡ me
      → ptr k ≢ me
      → (t.proc k).state ≡ sleeping
      → (t.proc k).chan ≡ t.init
      → (u.proc k).state ≡ runnable

-- the round of entry `i` when it is a child
abbrev adopt : ℕ → ℕ → Table → Table
adopt me i t = wakeup me t.init (set_proc t i (record (t.proc i) { parent = t.init }))

module _ (me i : ℕ) (t : Table) where
  adopt-proc :
      (k : ℕ)
      → k < nproc
      → (adopt me i t).proc k
        ≡ woken me t.init k (if k == i then record (t.proc k) { parent = t.init } else t.proc k)
  adopt-proc k lt = wakeup-proc me t.init _ k lt ∙ elim (Bool-cases (k == i)) [
    | inl e ↦ rw ((==_iff k i).0 e) (ground arith)
    | inr e ↦ rw e refl
  ]

  adopt-init : (adopt me i t).init ≡ t.init
  adopt-init = (wakeup-rest me t.init (set_proc t i (record (t.proc i) { parent = t.init }))).1

  adopt-parent :
      (k : ℕ)
      → k < nproc
      → ((adopt me i t).proc k).parent ≡ (if k == i then t.init else (t.proc k).parent)
  adopt-parent k lt = rw (adopt-proc k lt) (ground arith)

  adopt-pid : (k : ℕ) → k < nproc → ((adopt me i t).proc k).pid ≡ (t.proc k).pid
  adopt-pid k lt = rw (adopt-proc k lt) (ground arith)

  adopt-chan : (k : ℕ) → k < nproc → ((adopt me i t).proc k).chan ≡ (t.proc k).chan
  adopt-chan k lt = rw (adopt-proc k lt) (ground arith)

  adopt-killed : (k : ℕ) → k < nproc → ((adopt me i t).proc k).killed ≡ (t.proc k).killed
  adopt-killed k lt = rw (adopt-proc k lt) (ground arith)

  adopt-state :
      (k : ℕ)
      → k < nproc
      → ((adopt me i t).proc k).state ≡ (
          if not (ptr k == me) && (t.proc k).state == sleeping && (t.proc k).chan == t.init
          then runnable
          else (t.proc k).state)
  adopt-state k lt = rw (adopt-proc k lt) (ground arith)

  skipped :
      {left : ℕ} {u : Table}
      → ((t.proc i).parent == me) ≡ false
      → Reparented me (i + 1) left t u
      → Reparented me i (suc left) t u
  skipped other q = record {
    next_pid = q.next_pid;
    init = q.init;
    parents = λ k lt. q.parents k lt ∙ elim (Bool-cases (k == i)) [
      | inl e ↦ rw ((==_iff k i).0 e) (ground arith)
      | inr e ↦ ground arith
    ];
    pids = q.pids;
    chans = q.chans;
    kills = q.kills;
    states = q.states;
    init_woken = λ j k lo hi lj lk p ne s c. elim (Bool-cases (j == i)) [
      | inl e ↦ absurd (ground arith)
      | inr e ↦ q.init_woken j k (ground arith) (omega arith) lj lk p ne s c
    ];
  }

  adopted :
      {left : ℕ} {u : Table}
      → ((t.proc i).parent == me) ≡ true
      → Reparented me (i + 1) left (adopt me i t) u
      → Reparented me i (suc left) t u
  adopted child q = record {
    next_pid = q.next_pid ∙ (wakeup-rest me t.init _).0;
    init = q.init ∙ adopt-init;
    parents = λ k lt. q.parents k lt ∙ elim (Bool-cases (k == i)) [
      | inl e ↦ ground (arith, adopt-parent k lt, adopt-init)
      | inr e ↦ ground (arith, adopt-parent k lt, adopt-init)
    ];
    pids = λ k lt. q.pids k lt ∙ adopt-pid k lt;
    chans = λ k lt. q.chans k lt ∙ adopt-chan k lt;
    kills = λ k lt. q.kills k lt ∙ adopt-killed k lt;
    states = λ k lt. ground (arith, q.states k lt, adopt-state k lt, adopt-chan k lt, adopt-init);
    init_woken = λ j k lo hi lj lk p ne s c. elim (Bool-cases (j == i)) [
      | inl e ↦ ground (arith, q.states k lk, adopt-state k lk)
      | inr e ↦ ground (
        arith,
        q.states k lk,
        adopt-state k lk,
        q.init_woken j k (ground arith) (omega arith) lj lk,
        adopt-parent j lj,
        adopt-chan k lk,
        adopt-init,
      )
    ];
  }

reparent_loop-Reparented :
    (me left i : ℕ) (t : Table) → Reparented me i left t (reparent_loop me left i t)
unfolding reparent_loop
reparent_loop-Reparented me zero i t = record {
  next_pid = refl;
  init = refl;
  parents = λ k lt. ground arith;
  pids = λ k lt. refl;
  chans = λ k lt. refl;
  kills = λ k lt. refl;
  states = λ k lt. inl refl;
  init_woken = λ j k lo hi lj lk p ne s c. absurd (omega arith);
}
reparent_loop-Reparented me (suc left) i t = elim (Bool-cases ((t.proc i).parent == me)) [
  | inr other ↦ rw other (skipped me i t other (reparent_loop-Reparented me left (i + 1) t))
  | inl child ↦
      rw child (adopted me i t child (reparent_loop-Reparented me left (i + 1) (adopt me i t)))
]

pub reparent-Reparented : (me : ℕ) (t : Table) → Reparented me 0 nproc t (reparent me t)
unfolding reparent
reparent-Reparented me t = reparent_loop-Reparented me nproc 0 t
