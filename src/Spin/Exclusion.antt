-- ===== src/Spin/Exclusion.antt =====
-- Mutual exclusion, and interrupts off while a lock is held, in every reachable state.
use os.Prelude.{
  ℕ, ◌+◌, ◌<◌, ◌≡◌, ◌≢◌, ◌↔◌, inl, inr, refl, sym, true, false, ◌∷◌, ◌==◌, update, arith,
  Bool-cases, ==_iff,
}
use mathlib.Core.Path.{subst}
use os.Kernel.{ok}
use os.Spin.{
  Machine, set_lock, pop_off, holding, test_and_set, acquire_end, release_start, lock_release,
}
use os.Spin.Held.{mem, remove, mem-remove, length-remove, remove-Distinct}
use os.Spin.Nest.{push_off-Pushed, pop_off-Popped}
use os.Spin.Mutex.{
  Quiet, Owned, boot-Quiet, boot-Owned, Acquires, Releases, acquire_start-Acquires,
  release_start-Releases, pop_off-step, Quiet-step, same-Owned, start-Owned, spin-Owned, take-Owned,
}
use os.Spin.System.{
  Sys, at_phase, idle, spinning, marking, clearing, popping, Step, sets_intr, pushes_off, pops_off,
  starts, spins, takes, marks, unmarks, clears, finishes, Reach, boots, steps,
}

module _ {s : Sys} (o : Owned s) (c k : ℕ) where
  mark-Owned :
      s.phase c ≡ marking
      → s.target c ≡ k
      → Owned (record (at_phase s c idle k (acquire_end c k s.machine)) {
        held = update s.held c (k ∷ s.held c);
      })
  unfolding acquire_end
  mark-Owned ph at =
      let own : s.owner k ≡ c + 1 = subst (λ j. s.owner j ≡ c + 1) at (o.target_owner c (inl ph)) in
      let new : mem k (s.held c) ≡ false =
        subst (λ j. mem j (s.held c) ≡ false) at
          (o.fresh c (ground (arith, ph)) (ground (arith, ph))) in
      record {
        cpu_held = λ d j e. elim (Bool-cases (j == k)) [
          | inl f ↦ ground arith
          | inr f ↦ ground (arith, o.cpu_held d j (ground arith))
        ];
        held_cpu = λ d j e. elim (Bool-cases (d == c)) [
          | inl f ↦ ground (arith, o.held_cpu c j)
          | inr f ↦ ground (arith, o.held_cpu d j, o.held_owner d j, (==_iff j k).0)
        ];
        held_owner = λ d j e. elim (Bool-cases (d == c)) [
          | inl f ↦ ground (arith, o.held_owner c j)
          | inr f ↦ ground (arith, o.held_owner d j)
        ];
        target_owner = λ d e. ground (arith, o.target_owner d);
        fresh = λ d e f. ground (arith, o.fresh d);
        locked = λ j e. ground (arith, o.locked j e);
        distinct = λ d. elim (Bool-cases (d == c)) [
          | inl f ↦ rw f (new, o.distinct c)
          | inr f ↦ rw f (o.distinct d)
        ];
      }

  unmark-Owned :
      s.phase c ≡ idle
      → holding c k s.machine ≡ true
      → Owned
          (record (at_phase s c clearing k
            (set_lock k (record (s.machine.lock k) { cpu = 0 }) s.machine)) {
              held = update s.held c (remove k (s.held c));
            })
  unfolding holding
  unmark-Owned ph hold =
      let mine : mem k (s.held c) ≡ true = o.cpu_held c k (ground arith) in
      record {
        cpu_held = λ d j e. elim (Bool-cases (d == c)) [
          | inl f ↦ ground (arith, o.cpu_held c j, mem-remove j k (s.held c))
          | inr f ↦ ground (arith, o.cpu_held d j)
        ];
        held_cpu = λ d j e. elim (Bool-cases (d == c)) [
          | inl f ↦ ground (arith, o.held_cpu c j, mem-remove j k (s.held c))
          | inr f ↦ ground (arith, o.held_cpu d j, o.held_cpu c k mine)
        ];
        held_owner = λ d j e. elim (Bool-cases (d == c)) [
          | inl f ↦ ground (arith, o.held_owner c j, mem-remove j k (s.held c))
          | inr f ↦ ground (arith, o.held_owner d j)
        ];
        target_owner = λ d e. ground (arith, o.target_owner d, o.held_owner c k mine);
        fresh = λ d e f. elim (Bool-cases (d == c)) [
          | inl q ↦ rw q (ground (arith, mem-remove k k (s.held c)))
          | inr q ↦ rw q (o.fresh d (ground arith) (ground arith))
        ];
        locked = λ j e. ground (arith, o.locked j e);
        distinct = λ d. elim (Bool-cases (d == c)) [
          | inl f ↦ rw f (remove-Distinct k (s.held c) (o.distinct c))
          | inr f ↦ rw f (o.distinct d)
        ];
      }

  clear-Owned :
      s.phase c ≡ clearing
      → s.target c ≡ k
      → Owned (record (at_phase s c popping k (lock_release k s.machine)) {
        owner = update s.owner k 0;
      })
  unfolding lock_release
  clear-Owned ph at =
      let own : s.owner k ≡ c + 1 = subst (λ j. s.owner j ≡ c + 1) at (o.target_owner c (inr ph)) in
      let new : mem k (s.held c) ≡ false =
        subst (λ j. mem j (s.held c) ≡ false) at
          (o.fresh c (ground (arith, ph)) (ground (arith, ph))) in
      record {
        cpu_held = λ d j e. o.cpu_held d j (ground arith);
        held_cpu = λ d j e. ground (arith, o.held_cpu d j e);
        held_owner = λ d j e. elim (Bool-cases (d == c)) [
          | inl f ↦ ground (arith, o.held_owner c j, (==_iff j k).0)
          | inr f ↦ ground (arith, o.held_owner d j)
        ];
        target_owner = λ d e. elim (Bool-cases (d == c)) [
          | inl f ↦ ground arith
          | inr f ↦ ground (arith, o.target_owner d, own)
        ];
        fresh = λ d e f. ground (arith, o.fresh d);
        locked = λ j e. ground (arith, o.locked j);
        distinct = o.distinct;
      }

  at_least_one : Quiet s → s.phase c ≢ idle → 0 < (s.machine.cpus c).noff
  at_least_one q ph = ground (arith, q.depth c)

-- the steps keep who holds which lock
Step-Owned : {s t : Sys} → Step s t → Quiet s → Owned s → Owned t
Step-Owned (sets_intr c on ph z) q o = same-Owned refl o refl refl (λ d. inl (refl, refl))
Step-Owned {s} (pushes_off c ph room) q o =
    same-Owned (push_off-Pushed c s.machine room).lock o refl refl (λ d. inl (refl, refl))
Step-Owned {s} (pops_off c n ph some e) q o =
    let pos : 0 < (s.machine.cpus c).noff = ground (arith, q.depth c) in
    same-Owned (pop_off-step c s.machine pos (q.quiet c pos) e).lock o refl refl
      (λ d. inl (refl, refl))
Step-Owned {s} (starts {m = m} c k ph room e) q o =
    let (free, is) = subst (Acquires c k s.machine) e (acquire_start-Acquires c k s.machine) in
    subst (λ m'. Owned (at_phase s c spinning k m')) (sym is) (start-Owned o c k ph free)
Step-Owned (spins c k ph at lost) q o = spin-Owned o c k
Step-Owned (takes c k ph at won) q o = take-Owned o c k ph at won
Step-Owned (marks c k ph at) q o = mark-Owned o c k ph at
Step-Owned {s} (unmarks {m = m} c k ph e) q o =
    let (hold, is) = subst (Releases c k s.machine) e (release_start-Releases c k s.machine) in
    subst
      (λ m'.
        Owned
          (record (at_phase s c clearing k m') { held = update s.held c (remove k (s.held c)) }))
      (sym is) (unmark-Owned o c k ph hold)
Step-Owned (clears c k ph at) q o = clear-Owned o c k ph at
Step-Owned {s} (finishes c k ph e) q o =
    let pos = at_least_one o c k q (ground (arith, ph)) in
    same-Owned (pop_off-step c s.machine pos (q.quiet c pos) e).lock o refl refl (λ d. ground arith)

-- the steps that change the state of no CPU
module _ {s : Sys} (q : Quiet s) (c k : ℕ) where
  spin-Quiet : Quiet (record s { machine = (test_and_set k s.machine).1 })
  unfolding test_and_set
  spin-Quiet = record { depth = q.depth; quiet = q.quiet }

  take-Quiet :
      s.phase c ≡ spinning
      → Quiet (record (at_phase s c marking k (test_and_set k s.machine).1) {
        owner = update s.owner k (c + 1);
      })
  unfolding test_and_set
  take-Quiet ph =
      Quiet-step c q (λ d ne. refl) (λ d ne. ground arith) (ground (arith, q.depth c, ph))
        (q.quiet c)

  mark-Quiet :
      s.phase c ≡ marking
      → Quiet (record (at_phase s c idle k (acquire_end c k s.machine)) {
        held = update s.held c (k ∷ s.held c);
      })
  unfolding acquire_end
  mark-Quiet ph =
      Quiet-step c q (λ d ne. refl) (λ d ne. ground arith) (ground (arith, q.depth c, ph))
        (q.quiet c)

  unmark-Quiet :
      Owned s
      → s.phase c ≡ idle
      → holding c k s.machine ≡ true
      → Quiet
          (record (at_phase s c clearing k
            (set_lock k (record (s.machine.lock k) { cpu = 0 }) s.machine)) {
              held = update s.held c (remove k (s.held c));
            })
  unfolding holding
  unmark-Quiet o ph hold =
      Quiet-step c q (λ d ne. refl) (λ d ne. ground arith)
        (ground (
          arith,
          q.depth c,
          ph,
          length-remove k (s.held c) (o.distinct c) (o.cpu_held c k (ground arith)),
        ))
        (q.quiet c)

  clear-Quiet :
      s.phase c ≡ clearing
      → Quiet (record (at_phase s c popping k (lock_release k s.machine)) {
        owner = update s.owner k 0;
      })
  unfolding lock_release
  clear-Quiet ph =
      Quiet-step c q (λ d ne. refl) (λ d ne. ground arith) (ground (arith, q.depth c, ph))
        (q.quiet c)

-- the steps keep the nesting depth and the interrupts
Step-Quiet : {s t : Sys} → Step s t → Owned s → Quiet s → Quiet t
Step-Quiet (sets_intr c on ph z) o q =
    Quiet-step c q (λ d ne. ground (arith, ne)) (λ d ne. refl) (ground (arith, q.depth c))
      (λ pos. ground arith)
Step-Quiet {s} (pushes_off c ph room) o q =
    let p = push_off-Pushed c s.machine room in
    Quiet-step c q p.others (λ d ne. ground arith) (ground (arith, p.noff, q.depth c))
      (λ pos. p.intr)
Step-Quiet {s} (pops_off c n ph some e) o q =
    let pos : 0 < (s.machine.cpus c).noff = ground (arith, q.depth c) in
    let p = pop_off-step c s.machine pos (q.quiet c pos) e in
    Quiet-step c q p.others (λ d ne. ground arith) (ground (arith, p.noff, q.depth c))
      (λ pos'. ground (arith, p.noff, p.intr))
Step-Quiet {s} (starts {m = m} c k ph room e) o q =
    let (free, is) = subst (Acquires c k s.machine) e (acquire_start-Acquires c k s.machine) in
    let p = push_off-Pushed c s.machine room in
    subst (λ m'. Quiet (at_phase s c spinning k m')) (sym is)
      (Quiet-step c q p.others (λ d ne. ground arith) (ground (arith, p.noff, q.depth c))
        (λ pos. p.intr))
Step-Quiet {s} (spins c k ph at lost) o q = spin-Quiet q c k
Step-Quiet {s} (takes c k ph at won) o q = take-Quiet q c k ph
Step-Quiet {s} (marks c k ph at) o q = mark-Quiet q c k ph
Step-Quiet {s} (unmarks {m = m} c k ph e) o q =
    let (hold, is) = subst (Releases c k s.machine) e (release_start-Releases c k s.machine) in
    subst
      (λ m'.
        Quiet
          (record (at_phase s c clearing k m') { held = update s.held c (remove k (s.held c)) }))
      (sym is) (unmark-Quiet q c k o ph hold)
Step-Quiet {s} (clears c k ph at) o q = clear-Quiet q c k ph
Step-Quiet {s} (finishes c k ph e) o q =
    let pos = at_least_one o c k q (ground (arith, ph)) in
    let p = pop_off-step c s.machine pos (q.quiet c pos) e in
    Quiet-step c q p.others (λ d ne. ground arith) (ground (arith, p.noff, q.depth c))
      (λ pos'. ground (arith, p.noff, p.intr))

Reach-Inv : {s : Sys} → Reach s → Quiet s × Owned s
Reach-Inv boots = (boot-Quiet, boot-Owned)
Reach-Inv (steps r st) = let (q, o) = Reach-Inv r in (Step-Quiet st o q, Step-Owned st q o)

-- In every reachable state two CPUs whose acquire() calls of a lock have returned, and that have
-- not begun to release it, are one CPU.
pub acquire-exclusive :
    {s : Sys} (c d k : ℕ) → Reach s → mem k (s.held c) ≡ true → mem k (s.held d) ≡ true → c ≡ d
acquire-exclusive c d k r hc hd =
    let (q, o) = Reach-Inv r in omega (arith, o.held_owner c k hc, o.held_owner d k hd)

-- In every reachable state holding() is true exactly on the CPU that has acquired the lock and not
-- begun to release it, and interrupts are off on it.
pub holding-held :
    {s : Sys} (c k : ℕ)
    → Reach s
    → ((holding c k s.machine ≡ true) ↔ (mem k (s.held c) ≡ true))
      × (mem k (s.held c) ≡ true → (s.machine.cpus c).intr ≡ false)
unfolding holding
holding-held {s} c k r =
    let (q, o) = Reach-Inv r in
    (
      (
        λ h. o.cpu_held c k (ground arith),
        λ m. ground (arith, o.held_cpu c k m, o.held_owner c k m, o.locked k),
      ),
      λ m. q.quiet c (ground (arith, q.depth c, length-remove k (s.held c) (o.distinct c) m)),
    )

-- In every reachable state a CPU between calls that holds a lock can release it: neither the part
-- of release() before the lock is free panics, nor can pop_off() of a CPU that has come to the end
-- of release().
pub release-safe :
    {s : Sys} (c k : ℕ)
    → Reach s
    → (s.phase c ≡ idle
        → mem k (s.held c) ≡ true
        → (m : Machine) × (release_start c k s.machine ≡ ok (tt, m)))
      × (s.phase c ≡ popping → (m : Machine) × (pop_off c s.machine ≡ ok (tt, m)))
unfolding release_start
release-safe {s} c k r =
    let (q, o) = Reach-Inv r in
    (
      λ ph m. rw ((holding-held c k r).0.1 m) (_, refl),
      λ ph.
          let pos = at_least_one o c k q (ground (arith, ph)) in
          let (m, e, p) = pop_off-Popped c s.machine pos (q.quiet c pos) in (m, e),
    )
