-- ===== src/Proc/Search.antt =====
-- What the searches in the process table find.
use os.Prelude.{
  ℕ, zero, suc, ◌+◌, ◌<◌, ◌≤◌, ◌≡◌, ◌≢◌, ◌⊎◌, inl, inr, refl, ap, Bool, true, false, ◌&&◌, ◌||◌,
  Option, none, some, ◌==◌, if◌then◌else◌, arith, Bool-cases,
}
use native.Mathlib.Decide.{ℕ_discrete}
use os.Proc.{
  Table, nproc, unused, sleeping, runnable, zombie, set_proc, find_unused, Scan, reap, copy_fails,
  kids, scan, kill_loop, kkill,
}

-- the first free entry of a range, or none
abbrev pub Found : ℕ → ℕ → Table → Option ℕ → Type 0
Found i hi t none = (k : ℕ) → i ≤ k → k < hi → (t.proc k).state ≢ unused
Found i hi t (some j) = (i ≤ j) × (j < hi) × ((t.proc j).state ≡ unused)

pub find_unused-Found : (left i : ℕ) (t : Table) → Found i (i + left) t (find_unused left i t)
unfolding find_unused
find_unused-Found zero i t = λ k lo hi. absurd (omega arith)
find_unused-Found (suc left) i t = elim (Bool-cases ((t.proc i).state == unused)) [
  | inl e ↦ rw e (omega arith, omega arith, ground arith)
  | inr e ↦ rw e (next (find_unused left (i + 1) t) e (find_unused-Found left (i + 1) t))
]
  where
    next :
        (o : Option ℕ)
        → ((t.proc i).state == unused) ≡ false
        → Found (i + 1) (i + 1 + left) t o
        → Found i (i + suc left) t o
    next none e q = λ k lo hi. elim (ℕ_discrete k i) [
      | yes eq ↦ rw eq (ground arith)
      | no ne ↦ q k (omega arith) (omega arith)
    ]
    next (some j) e q = (omega (arith, q.0), omega (arith, q.1), q.2)

-- a child of `me` that has exited
abbrev pub IsDead : ℕ → Table → ℕ → Type 0
IsDead me t k = ((t.proc k).parent ≡ me) × ((t.proc k).state ≡ zombie)

module _ (copy : ℕ → Bool) (me : ℕ) where
  abbrev pub Scanned : ℕ → ℕ → Bool → Table → Scan → Type 0
  Scanned i hi have t (reap j) =
      (i ≤ j) × (j < hi) × IsDead me t j × (copy (t.proc j).xstate ≡ true)
  Scanned i hi have t (copy_fails j) =
      (i ≤ j) × (j < hi) × IsDead me t j × (copy (t.proc j).xstate ≡ false)
  Scanned i hi have t (kids b) =
      ((k : ℕ) → i ≤ k → k < hi → ¬ IsDead me t k)
      × (b ≡ false → (have ≡ false) × ((k : ℕ) → i ≤ k → k < hi → (t.proc k).parent ≢ me))
      × (b ≡ true → (have ≡ true) ⊎ ((k : ℕ) × (i ≤ k) × (k < hi) × ((t.proc k).parent ≡ me)))

  scan_next :
      (left i : ℕ) (have : Bool) (t : Table) (r : Scan)
      → ((t.proc i).parent == me && (t.proc i).state == zombie) ≡ false
      → Scanned (i + 1) (i + 1 + left) ((t.proc i).parent == me || have) t r
      → Scanned i (i + suc left) have t r
  scan_next left i have t (reap j) e q = (omega (arith, q.0), omega (arith, q.1), q.2, q.3)
  scan_next left i have t (copy_fails j) e q = (omega (arith, q.0), omega (arith, q.1), q.2, q.3)
  scan_next left i have t (kids b) e q = (
    λ k lo hi dead. elim (ℕ_discrete k i) [
      | yes eq ↦ absurd (ground (arith, eq, ap t.proc eq, dead.0, dead.1))
      | no ne ↦ q.0 k (omega arith) (omega arith) dead
    ],
    λ no_kids.
        let none_left = q.1 no_kids in
        (
          ground (arith, none_left.0),
          λ k lo hi p. elim (ℕ_discrete k i) [
            | yes eq ↦ absurd (ground (arith, eq, ap t.proc eq, none_left.0))
            | no ne ↦ none_left.1 k (omega arith) (omega arith) p
          ],
        ),
    λ some_kids. elim (q.2 some_kids) [
      | inr (k, lo, hi, p) ↦ inr (k, omega arith, omega arith, p)
      | inl h ↦ elim (Bool-cases ((t.proc i).parent == me)) [
        | inl child ↦ inr (i, omega arith, omega arith, ground arith)
        | inr other ↦ inl (ground arith)
      ]
    ],
  )

  pub scan-Scanned :
      (left i : ℕ) (have : Bool) (t : Table)
      → Scanned i (i + left) have t (scan copy me left i have t)
  unfolding scan
  scan-Scanned zero i have t =
      (λ k lo hi. absurd (omega arith), λ e. (e, λ k lo hi. absurd (omega arith)), λ e. inl e)
  scan-Scanned (suc left) i have t =
      elim (Bool-cases ((t.proc i).parent == me && (t.proc i).state == zombie)) [
        | inl dead ↦ elim (Bool-cases (copy (t.proc i).xstate)) [
          | inl c ↦ rw (dead, c) (omega arith, omega arith, (ground arith, ground arith), c)
          | inr c ↦ rw (dead, c) (omega arith, omega arith, (ground arith, ground arith), c)
        ]
        | inr alive ↦ rw alive (
            scan_next left i have t _ alive
              (scan-Scanned left (i + 1) ((t.proc i).parent == me || have) t))
      ]

-- kkill() marks and wakes the first process with the pid
unfoldable pub Killed : ℕ → ℕ → ℕ → Table → Bool × Table → Type 0
Killed pid i hi t (false, u) = (u ≡ t) × ((k : ℕ) → i ≤ k → k < hi → (t.proc k).pid ≢ pid)
Killed pid i hi t (true, u) =
    (j : ℕ) × (i ≤ j)
    × (j < hi)
    × ((t.proc j).pid ≡ pid)
    × (u
        ≡ set_proc t j (record (t.proc j) {
          killed = true;
          state = if (t.proc j).state == sleeping then runnable else (t.proc j).state;
        }))

kill_loop-Killed : (pid left i : ℕ) (t : Table) → Killed pid i (i + left) t (kill_loop pid left i t)
unfolding kill_loop Killed
kill_loop-Killed pid zero i t = (refl, λ k lo hi. absurd (omega arith))
kill_loop-Killed pid (suc left) i t = elim (Bool-cases ((t.proc i).pid == pid)) [
  | inl e ↦ rw e (i, omega arith, omega arith, ground arith, refl)
  | inr e ↦ rw e (next (kill_loop pid left (i + 1) t) e (kill_loop-Killed pid left (i + 1) t))
]
  where
    next :
        (r : Bool × Table)
        → ((t.proc i).pid == pid) ≡ false
        → Killed pid (i + 1) (i + 1 + left) t r
        → Killed pid i (i + suc left) t r
    next (false, u) e q = (
      q.0,
      λ k lo hi. elim (ℕ_discrete k i) [
        | yes eq ↦ rw eq (ground arith)
        | no ne ↦ q.1 k (omega arith) (omega arith)
      ],
    )
    next (true, u) e q = (q.0, omega (arith, q.1), omega (arith, q.2), q.3, q.4)

-- kkill() returns 0 for a pid in the table, after it has marked one process of that pid and made it
-- runnable if it slept; otherwise it returns -1 and changes nothing.
pub kkill-Killed : (pid : ℕ) (t : Table) → Killed pid 0 nproc t (kkill pid t)
unfolding kkill
kkill-Killed pid t = kill_loop-Killed pid nproc 0 t
