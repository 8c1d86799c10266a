-- ===== src/Spin/Nest.antt =====
-- push_off() and pop_off() in matching pairs.
use os.Prelude.{
  ℕ, zero, suc, ◌+◌, ◌^◌, ◌<◌, ◌≡◌, ◌≢◌, refl, ◌∙◌, inl, inr, false, ◌&&◌, ◌==◌, ltb, if◌then◌else◌,
  update, arith, Bool-cases, ==_iff,
}
use os.Kernel.{ok, Prog, ◌>>◌, modify, pure}
use os.Spin.{Cpu, Machine, push_off, pop_off}

-- What a run leaves as it was: the interrupts and the depth of the CPU `c`, what the outermost
-- pop_off() will restore, the other CPUs and the locks.
pub record Restored (c : ℕ) (s t : Machine) : Type 0 where
  pub intr : (t.cpus c).intr ≡ (s.cpus c).intr
  pub noff : (t.cpus c).noff ≡ (s.cpus c).noff
  pub intena : 0 < (s.cpus c).noff → (t.cpus c).intena ≡ (s.cpus c).intena
  pub others : (d : ℕ) → d ≢ c → t.cpus d ≡ s.cpus d
  pub lock : t.lock ≡ s.lock

-- `n` calls of push_off() and then `n` calls of pop_off()
abbrev pub nested : ℕ → ℕ → Prog Machine (Unit {0})
nested zero c = pure tt
nested (suc n) c = modify (push_off c) >> nested n c >> pop_off c

-- interrupts are off inside a push_off()
abbrev pub Quiet : Cpu → Type 0
Quiet x = 0 < x.noff → x.intr ≡ false

pub record Pushed (c : ℕ) (s t : Machine) : Type 0 where
  pub intr : (t.cpus c).intr ≡ false
  pub noff : (t.cpus c).noff ≡ (s.cpus c).noff + 1
  pub intena :
      (t.cpus c).intena ≡ (if (s.cpus c).noff == 0 then (s.cpus c).intr else (s.cpus c).intena)
  pub others : (d : ℕ) → d ≢ c → t.cpus d ≡ s.cpus d
  pub lock : t.lock ≡ s.lock

update-other : {A : Type 0} (f : ℕ → A) (c d : ℕ) (x : A) → d ≢ c → update f c x d ≡ f d
update-other f c d x ne = elim (Bool-cases (d == c)) [
  | inl e ↦ absurd (ne ((==_iff d c).0 e))
  | inr e ↦ rw e refl
]

pub push_off-Pushed :
    (c : ℕ) (s : Machine) → (s.cpus c).noff + 1 < 2 ^ 31 → Pushed c s (push_off c s)
unfolding push_off
push_off-Pushed c s room = record {
  intr = ground arith;
  noff = ground arith;
  intena = ground arith;
  others = λ d ne. update-other s.cpus c d _ ne;
  lock = refl;
}

pub record Popped (c : ℕ) (s t : Machine) : Type 0 where
  pub intr : (t.cpus c).intr ≡ (((s.cpus c).noff == 1) && (s.cpus c).intena)
  pub noff : (t.cpus c).noff + 1 ≡ (s.cpus c).noff
  pub intena : (t.cpus c).intena ≡ (s.cpus c).intena
  pub others : (d : ℕ) → d ≢ c → t.cpus d ≡ s.cpus d
  pub lock : t.lock ≡ s.lock

pub pop_off-Popped :
    (c : ℕ) (s : Machine)
    → 0 < (s.cpus c).noff
    → (s.cpus c).intr ≡ false
    → (t : Machine) × (pop_off c s ≡ ok (tt, t)) × Popped c s t
unfolding pop_off
pop_off-Popped c s lt off =
    rw (off, pos)
      (
        _,
        refl,
        record {
          intr = ground arith;
          noff = ground arith;
          intena = ground arith;
          others = λ d ne. update-other s.cpus c d _ ne;
          lock = refl;
        },
      )
  where
    pos : ltb (s.cpus c).noff 1 ≡ false
    pos = ground arith

-- `n` push_off() calls and then `n` pop_off() calls return, and leave the interrupts and the
-- nesting depth of the CPU, and all else, as they were, provided that interrupts are off on a
-- CPU inside a push_off() and that the depth fits in an int.
pub push_off-pop_off :
    (n c : ℕ) (s : Machine)
    → (s.cpus c).noff + n < 2 ^ 31
    → (0 < (s.cpus c).noff → (s.cpus c).intr ≡ false)
    → (t : Machine) × (nested n c s ≡ ok (tt, t)) × Restored c s t
push_off-pop_off zero c s room quiet = (
  s,
  refl,
  record { intr = refl; noff = refl; intena = λ _. refl; others = λ d ne. refl; lock = refl },
)
push_off-pop_off (suc n) c s room quiet =
    let p = push_off-Pushed c s (omega arith) in
    let (t, returns, r) = push_off-pop_off n c (push_off c s) (ground arith) (λ _. p.intr) in
    let (u, pops, q) = pop_off-Popped c t (ground arith) (r.intr ∙ p.intr) in
    (
      u,
      rw returns pops,
      record {
        intr = ground (arith, q.intr, q.noff, r.noff, r.intena, p.intena, p.noff, quiet);
        noff = ground (arith, q.noff, r.noff, p.noff);
        intena = λ pos. ground (arith, q.intena, r.intena, p.intena, p.noff);
        others = λ d ne. q.others d ne ∙ r.others d ne ∙ p.others d ne;
        lock = q.lock ∙ r.lock ∙ p.lock;
      },
    )
