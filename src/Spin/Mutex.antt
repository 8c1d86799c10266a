-- ===== src/Spin/Mutex.antt =====
-- Who holds which lock, and the nesting depth: the invariant, and the steps of acquire() that keep
-- it.
use os.Prelude.{
  ℕ, ◌+◌, ◌<◌, ◌≡◌, ◌≢◌, ◌⊎◌, inl, inr, refl, sym, ap, ◌∙◌, true, false, length, ◌==◌,
  if◌then◌else◌, update, arith, Bool-cases, ==_iff,
}
use mathlib.Core.Path.{subst}
use os.Kernel.{Result, ok}
use os.Spin.{
  Machine, set_lock, push_off, pop_off, holding, acquire_start, test_and_set, release_start,
}
use os.Spin.Held.{mem, Distinct}
use os.Spin.Nest.{Popped, pop_off-Popped}
use os.Spin.System.{Sys, at_phase, idle, spinning, marking, clearing, popping, boot}

abbrev pub busy : ℕ → ℕ
busy phase = if phase == idle then 0 else 1

-- the nesting depth and the interrupts of every CPU
pub record Quiet (s : Sys) : Type 0 where
  pub depth : (c : ℕ) → (s.machine.cpus c).noff ≡ length (s.held c) + s.pushes c + busy (s.phase c)
  pub quiet : (c : ℕ) → 0 < (s.machine.cpus c).noff → (s.machine.cpus c).intr ≡ false

-- who holds which lock
pub record Owned (s : Sys) : Type 0 where
  pub cpu_held : (c k : ℕ) → (s.machine.lock k).cpu ≡ c + 1 → mem k (s.held c) ≡ true
  pub held_cpu : (c k : ℕ) → mem k (s.held c) ≡ true → (s.machine.lock k).cpu ≡ c + 1
  pub held_owner : (c k : ℕ) → mem k (s.held c) ≡ true → s.owner k ≡ c + 1
  pub target_owner :
      (c : ℕ) → (s.phase c ≡ marking) ⊎ (s.phase c ≡ clearing) → s.owner (s.target c) ≡ c + 1
  pub fresh : (c : ℕ) → s.phase c ≢ idle → s.phase c ≢ popping → mem (s.target c) (s.held c) ≡ false
  pub locked : (k : ℕ) → s.owner k ≢ 0 → (s.machine.lock k).locked ≢ 0
  pub distinct : (c : ℕ) → Distinct (s.held c)

pub boot-Quiet : Quiet boot
boot-Quiet = record { depth = λ c. refl; quiet = λ c lt. refl }

pub boot-Owned : Owned boot
boot-Owned = record {
  cpu_held = λ c k e. ground arith;
  held_cpu = λ c k e. ground arith;
  held_owner = λ c k e. ground arith;
  target_owner = λ c e. ground arith;
  fresh = λ c e f. refl;
  locked = λ k e. ground arith;
  distinct = λ c. tt;
}

-- what acquire() and release() have checked when they go on
abbrev pub Acquires : ℕ → ℕ → Machine → Result (Unit {0} × Machine) → Type 0
Acquires c k s (ok (r, m)) = (holding c k (push_off c s) ≡ false) × (m ≡ push_off c s)
Acquires c k s r = Unit

pub acquire_start-Acquires : (c k : ℕ) (s : Machine) → Acquires c k s (acquire_start c k s)
unfolding acquire_start
acquire_start-Acquires c k s = elim (Bool-cases (holding c k (push_off c s))) [
  | inl e ↦ rw e tt
  | inr e ↦ rw e (e, refl)
]

abbrev pub Releases : ℕ → ℕ → Machine → Result (Unit {0} × Machine) → Type 0
Releases c k s (ok (r, m)) =
    (holding c k s ≡ true) × (m ≡ set_lock k (record (s.lock k) { cpu = 0 }) s)
Releases c k s r = Unit

pub release_start-Releases : (c k : ℕ) (s : Machine) → Releases c k s (release_start c k s)
unfolding release_start
release_start-Releases c k s = elim (Bool-cases (holding c k s)) [
  | inl e ↦ rw e (e, refl)
  | inr e ↦ rw e tt
]

abbrev final : Machine → Result (Unit {0} × Machine) → Machine
final d (ok (r, m)) = m
final d r = d

pub pop_off-step :
    {m : Machine} (c : ℕ) (s : Machine)
    → 0 < (s.cpus c).noff
    → (s.cpus c).intr ≡ false
    → pop_off c s ≡ ok (tt, m)
    → Popped c s m
pop_off-step {m} c s pos off e =
    let (t, returns, p) = pop_off-Popped c s pos off in
    subst (Popped c s) (ap (final s) (sym returns ∙ e)) p

-- A step of the CPU `c` that changes no lock and no owner, and starts no call with a lock.
module _ {s t : Sys} (lock : t.machine.lock ≡ s.machine.lock) where
  pub same-Owned :
      Owned s
      → t.held ≡ s.held
      → t.owner ≡ s.owner
      → ((c : ℕ)
          → (t.phase c ≡ s.phase c) × (t.target c ≡ s.target c)
            ⊎ (t.phase c ≡ idle)
            ⊎ (t.phase c ≡ popping))
      → Owned t
  same-Owned o h w p = record {
    cpu_held = λ c k e. rw h (o.cpu_held c k (sym (ap (λ f. (f k).cpu) lock) ∙ e));
    held_cpu = λ c k e. rw lock (o.held_cpu c k (sym (ap (λ f. mem k (f c)) h) ∙ e));
    held_owner = λ c k e. rw w (o.held_owner c k (sym (ap (λ f. mem k (f c)) h) ∙ e));
    target_owner = λ c e. rw w (ground (arith, p c, o.target_owner c, ap s.owner));
    fresh = λ c e f. rw h (elim (p c) [
      | inl q ↦ rw q.1 (o.fresh c (ground arith) (ground arith))
      | inr q ↦ ground arith
    ]);
    locked = λ k e. rw lock (o.locked k (subst (λ f. f k ≢ 0) w e));
    distinct = λ c. rw h (o.distinct c);
  }

-- A step of the CPU `c`: the depth and the interrupts of the others stay.
pub Quiet-step :
    {s t : Sys} (c : ℕ)
    → Quiet s
    → ((d : ℕ) → d ≢ c → t.machine.cpus d ≡ s.machine.cpus d)
    → ((d : ℕ)
        → d ≢ c
        → length (t.held d) + t.pushes d + busy (t.phase d)
          ≡ length (s.held d) + s.pushes d + busy (s.phase d))
    → (t.machine.cpus c).noff ≡ length (t.held c) + t.pushes c + busy (t.phase c)
    → (0 < (t.machine.cpus c).noff → (t.machine.cpus c).intr ≡ false)
    → Quiet t
Quiet-step {s} {t} c q same sum here off = record {
  depth = λ d. elim (Bool-cases (d == c)) [
    | inl e ↦ rw ((==_iff d c).0 e) here
    | inr e ↦
        ap (λ x. x.noff) (same d (ground (arith, e))) ∙ q.depth d ∙ sym (sum d (ground (arith, e)))
  ];
  quiet = λ d lt. elim (Bool-cases (d == c)) [
    | inl e ↦ rw ((==_iff d c).0 e) (off (ground (arith, (==_iff d c).0 e)))
    | inr e ↦
        rw (same d (ground (arith, e)))
          (q.quiet d (subst (λ x. 0 < x.noff) (same d (ground (arith, e))) lt))
  ];
}

module _ {s : Sys} (o : Owned s) (c k : ℕ) where
  pub start-Owned :
      s.phase c ≡ idle
      → holding c k (push_off c s.machine) ≡ false
      → Owned (at_phase s c spinning k (push_off c s.machine))
  unfolding push_off holding
  start-Owned ph free = record {
    cpu_held = o.cpu_held;
    held_cpu = o.held_cpu;
    held_owner = o.held_owner;
    target_owner = λ d e. ground (arith, o.target_owner d, (==_iff d c).0);
    fresh = λ d e f. elim (Bool-cases (d == c)) [
      | inl q ↦ rw ((==_iff d c).0 q) (ground (arith, o.held_cpu c k, o.held_owner c k, o.locked k))
      | inr q ↦ rw q (o.fresh d (ground arith) (ground arith))
    ];
    locked = o.locked;
    distinct = o.distinct;
  }

  pub spin-Owned : Owned (record s { machine = (test_and_set k s.machine).1 })
  unfolding test_and_set
  spin-Owned = record {
    cpu_held = λ d j e. o.cpu_held d j (ground arith);
    held_cpu = λ d j e. ground (arith, o.held_cpu d j e);
    held_owner = o.held_owner;
    target_owner = o.target_owner;
    fresh = o.fresh;
    locked = λ j e. ground (arith, o.locked j e);
    distinct = o.distinct;
  }

  pub take-Owned :
      s.phase c ≡ spinning
      → s.target c ≡ k
      → (test_and_set k s.machine).0 ≡ true
      → Owned (record (at_phase s c marking k (test_and_set k s.machine).1) {
        owner = update s.owner k (c + 1);
      })
  unfolding test_and_set
  take-Owned ph at won = record {
    cpu_held = λ d j e. o.cpu_held d j (ground arith);
    held_cpu = λ d j e. ground (arith, o.held_cpu d j e);
    held_owner = λ d j e. ground (arith, o.held_owner d j e, o.locked j, o.locked k);
    target_owner = λ d e. ground (arith, o.target_owner d, o.locked k, ap s.owner);
    fresh = λ d e f. elim (Bool-cases (d == c)) [
      | inl q ↦ rw ((==_iff d c).0 q) (ground (arith, o.fresh c, at))
      | inr q ↦ rw q (o.fresh d (ground arith) (ground arith))
    ];
    locked = λ j e. ground (arith, o.locked j);
    distinct = o.distinct;
  }
