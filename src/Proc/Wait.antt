-- ===== src/Proc/Wait.antt =====
-- What kwait() and kkill() return, and what follows for the callers.
use os.Prelude.{
  ℕ, zero, suc, ◌+◌, ◌<◌, ◌≤◌, ◌≡◌, ◌≢◌, ◌⊎◌, inl, inr, refl, ap, ◌∙◌, Bool, true, false, ◌==◌,
  if◌then◌else◌, update, arith, Bool-cases, ==_iff, Option, none, some,
}
use mathlib.Core.Path.{subst}
use os.Kernel.{Result, ok}
use os.Proc.{
  Table, nproc, unused, sleeping, runnable, ptr, set_proc, sleep, freeproc, kexit, kwait,
  kwait_found, scan, Scan, reap, copy_fails, kids, Waited, reaped, failed, asleep, kill_loop, kkill,
  find_unused, alloc_entry, allocproc, allocpid,
}
use os.Proc.Search.{IsDead, Scanned, scan-Scanned}
use os.Proc.Steps.{Reach}
use os.Proc.Reachable.{Reach-Inv}

-- What a round of kwait() by `i` has done, by its result.
abbrev pub Round : (ℕ → Bool) → ℕ → Table → Waited × Table → Type 0
Round copy i t (reaped pid, u) =
    (j : ℕ) × (j < nproc)
    × IsDead (ptr i) t j
    × (copy (t.proc j).xstate ≡ true)
    × (pid ≡ (t.proc j).pid)
    × (u ≡ freeproc j t)
Round copy i t (failed, u) =
    (u ≡ t)
    × (((j : ℕ) × (j < nproc) × IsDead (ptr i) t j × (copy (t.proc j).xstate ≡ false))
        ⊎ (((k : ℕ) → k < nproc → ¬ IsDead (ptr i) t k)
            × (((t.proc i).killed ≡ true) ⊎ ((k : ℕ) → k < nproc → (t.proc k).parent ≢ ptr i))))
Round copy i t (asleep, u) =
    (u ≡ sleep i (ptr i) t)
    × ((k : ℕ) → k < nproc → ¬ IsDead (ptr i) t k)
    × ((t.proc i).killed ≡ false)
    × ((k : ℕ) × (k < nproc) × ((t.proc k).parent ≡ ptr i))

kwait_found-Round :
    (copy : ℕ → Bool) (i : ℕ) (t : Table) (r : Scan)
    → Scanned copy (ptr i) 0 nproc false t r
    → Round copy i t (kwait_found i t r)
unfolding kwait_found
kwait_found-Round copy i t (reap j) q = (j, q.1, q.2, q.3, refl, refl)
kwait_found-Round copy i t (copy_fails j) q = (refl, inl (j, q.1, q.2, q.3))
kwait_found-Round copy i t (kids have) q = elim (Bool-cases have) [
  | inr e ↦
      rw e (refl, inr (λ k lt. q.0 k (omega arith) lt, inr (λ k lt. (q.1 e).1 k (omega arith) lt)))
  | inl e ↦ elim (Bool-cases (t.proc i).killed) [
    | inl d ↦ rw (e, d) (refl, inr (λ k lt. q.0 k (omega arith) lt, inl d))
    | inr d ↦
        rw (e, d)
          (
            refl,
            λ k lt. q.0 k (omega arith) lt,
            d,
            elim (q.2 e) [ inl none_yet ↦ absurd (ground arith) | inr (k, lo, lt, p) ↦ (k, lt, p) ],
          )
  ]
]

-- A round of kwait() returns the pid of a child that has exited, and frees its entry; or it fails
-- and changes nothing, since the status of such a child cannot be copied out, or no child has
-- exited and there is none or the caller is killed; or it sleeps, since it is not killed and
-- has children and none has exited.
pub kwait-Round : (copy : ℕ → Bool) (i : ℕ) (t : Table) → Round copy i t (kwait copy i t)
unfolding kwait
kwait-Round copy i t =
    kwait_found-Round copy i t (scan copy (ptr i) nproc 0 false t)
      (scan-Scanned copy (ptr i) nproc 0 false t)

-- kwait() has freed a child that had exited
abbrev pub Reaps : ℕ → Table → Waited × Table → Type 0
Reaps i t (r, u) =
    (j : ℕ) × (j < nproc) × IsDead (ptr i) t j × (r ≡ reaped (t.proc j).pid) × (u ≡ freeproc j t)

Round-Reaps :
    (i : ℕ) (t : Table)
    → ((k : ℕ) × (k < nproc) × IsDead (ptr i) t k)
    → (r : Waited × Table) → Round (λ _. true) i t r
    → Reaps i t r
Round-Reaps i t dead (reaped pid, u) (j, lj, d, c, e, is) = (j, lj, d, ap reaped e, is)
Round-Reaps i t (k, lt, d) (failed, u) (is, inl (j, lj, d', c)) = absurd (ground arith)
Round-Reaps i t (k, lt, d) (failed, u) (is, inr (none_dead, _)) = absurd (none_dead k lt d)
Round-Reaps i t (k, lt, d) (asleep, u) (is, none_dead, _, _) = absurd (none_dead k lt d)

-- the parent that the exit of `i` has left it can reap a child
abbrev Reapable : ℕ → Result (Unit {0} × Table) → Type 0
Reapable i (ok (r, v)) = (p : ℕ) → (v.proc i).parent ≡ ptr p → Reaps p v (kwait (λ _. true) p v)
Reapable i r = Unit

kexit-Reapable : (i status : ℕ) (t : Table) → i < nproc → Reapable i (kexit i status t)
unfolding kexit
kexit-Reapable i status t li = elim (Bool-cases (ptr i == t.init)) [
  | inl e ↦ rw e tt
  | inr e ↦ rw e (λ p par.
      Round-Reaps p _ (i, li, (ground arith, ground arith)) _ (kwait-Round (λ _. true) p _))
]

-- Once kexit() has returned, a round of kwait() by the parent of the process, with an address that
-- the status can be copied to, returns the pid of a child that has exited and frees its entry: it
-- neither fails nor sleeps.
pub kexit-kwait :
    (t : Table) {v : Table} (i status p : ℕ)
    → i < nproc
    → kexit i status t ≡ ok (tt, v)
    → (v.proc i).parent ≡ ptr p
    → Reaps p v (kwait (λ _. true) p v)
kexit-kwait t {v} i status p li e par = subst (Reapable i) e (kexit-Reapable i status t li) p par

-- kill(0) is kkill() on the first unused entry, whose pid is 0
marked : Option ℕ → Table → Bool × Table
marked none t = (false, t)
marked (some j) t = (true, set_proc t j (record (t.proc j) { killed = true }))

asleep_not : (state : ℕ) → state ≡ unused → (if state == sleeping then runnable else state) ≡ state
asleep_not state e = ground arith

kill_loop-zero :
    (t : Table)
    → ((k : ℕ) → k < nproc → ((t.proc k).state == unused) ≡ ((t.proc k).pid == 0))
    → (left i : ℕ) → i + left ≤ nproc
    → kill_loop 0 left i t ≡ marked (find_unused left i t) t
unfolding kill_loop find_unused marked
kill_loop-zero t pids zero i le = refl
kill_loop-zero t pids (suc left) i le = elim (Bool-cases ((t.proc i).pid == 0)) [
  | inl e ↦
      rw (pids i (omega arith), e)
        (rw (asleep_not (t.proc i).state ((==_iff _ _).0 (pids i (omega arith) ∙ e))) refl)
  | inr e ↦ rw (pids i (omega arith), e) (kill_loop-zero t pids left (i + 1) (omega arith))
]

marked-state :
    (t : Table) (j i : ℕ)
    → (update t.proc j (record (t.proc j) { killed = true }) i).state ≡ (t.proc i).state
marked-state t j i = elim (Bool-cases (i == j)) [
  | inl e ↦ rw ((==_iff i j).0 e) (ground arith)
  | inr e ↦ ground arith
]

find_unused-marked :
    (t : Table) (j left i : ℕ)
    → find_unused left i (set_proc t j (record (t.proc j) { killed = true })) ≡ find_unused left i t
unfolding find_unused
find_unused-marked t j zero i = refl
find_unused-marked t j (suc left) i =
    rw (marked-state t j i, find_unused-marked t j left (i + 1)) refl

-- kill(0) is not refused: in every reachable state with an unused entry it marks the first one,
-- and the next process, which gets that entry, is killed before it has run.
pub kkill-allocproc :
    {t : Table} (i : ℕ)
    → Reach t
    → find_unused nproc 0 t ≡ some i
    → ((kkill 0 t).0 ≡ true)
      × ((allocproc true true (kkill 0 t).1).0 ≡ some i)
      × (((allocproc true true (kkill 0 t).1).1.proc i).killed ≡ true)
unfolding kkill marked allocproc alloc_entry allocpid
kkill-allocproc {t} i r e =
    rw
      (
        kill_loop-zero t (λ k lt. pid_zero k lt) nproc 0 (omega arith),
        e,
        find_unused-marked t i nproc 0,
        e,
      )
      (refl, refl, ground arith)
  where
    pid_zero : (k : ℕ) → k < nproc → ((t.proc k).state == unused) ≡ ((t.proc k).pid == 0)
    pid_zero k lt = ground (arith, (Reach-Inv r).free k lt, (Reach-Inv r).pids k lt)
