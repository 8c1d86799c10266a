-- ===== src/Sleep/Exclusion.antt =====
-- Any number of processes on one sleep lock: exclusion, and no process left asleep.
use os.Prelude.{
  ℕ, ◌≡◌, ◌≢◌, ◌↔◌, inl, inr, refl, sym, ap, ◌∙◌, true, not, ◌==◌, update, arith, Bool-cases,
  ==_iff,
}
use os.Sleep.{
  initsleeplock, Phase, away, looping, asleep, holds, Sys, acquiresleep, wake, releasesleep,
  holdingsleep,
}

-- A process calls acquiresleep(), runs its loop, is made to run by kkill(), or releases the lock.
pub data Step : Sys → Sys → Type 0 where
  calls : {s : Sys} (p : ℕ) → p ≢ 0 → s.phase p ≡ away → Step s (acquiresleep p s)
  retries : {s : Sys} (p : ℕ) → s.phase p ≡ looping → Step s (acquiresleep p s)
  is_killed :
      {s : Sys} (p : ℕ)
      → s.phase p ≡ asleep
      → Step s (record s { phase = update s.phase p looping })
  releases : {s : Sys} (p : ℕ) → s.phase p ≡ holds → Step s (releasesleep p s)

abbrev pub boot : Sys
boot = record { lk = initsleeplock; phase = λ p. away }

pub data Reach : Sys → Type 0 where
  boots : Reach boot
  steps : {s t : Sys} → Reach s → Step s t → Reach t

record Inv (s : Sys) : Type 0 where
  locked : (p : ℕ) → (s.phase p ≡ holds) ↔ ((s.lk.locked ≢ 0) × (s.lk.pid ≡ p))
  waits : (p : ℕ) → s.phase p ≡ asleep → s.lk.locked ≢ 0
  somebody : (p : ℕ) → s.phase p ≢ away → p ≢ 0

acquiresleep-Inv : {s : Sys} (p : ℕ) → p ≢ 0 → s.phase p ≢ holds → Inv s → Inv (acquiresleep p s)
unfolding acquiresleep
acquiresleep-Inv {s} p pos out inv = elim (Bool-cases (not (s.lk.locked == 0))) [
  | inl e ↦ rw e (record {
    locked = λ q. (
      λ h. ground (arith, (inv.locked q).0),
      λ h. ground (arith, (inv.locked q).1 h, (==_iff q p).0),
    );
    waits = λ q h. ground arith;
    somebody = λ q h. ground (arith, inv.somebody q, (==_iff q p).0);
  })
  | inr e ↦ rw e (record {
    locked = λ q. (λ h. ground (arith, (inv.locked q).0), λ h. ground arith);
    waits = λ q h. ground arith;
    somebody = λ q h. ground (arith, inv.somebody q, (==_iff q p).0);
  })
]

wake-phase :
    (x : Phase)
    → (wake x ≢ asleep) × ((wake x ≡ holds) ↔ (x ≡ holds)) × ((wake x ≡ away) ↔ (x ≡ away))
unfolding wake
wake-phase away = (λ e. cc e, (λ e. cc e, λ e. cc e), (λ e. refl, λ e. refl))
wake-phase looping = (λ e. cc e, (λ e. cc e, λ e. cc e), (λ e. cc e, λ e. cc e))
wake-phase asleep = (λ e. cc e, (λ e. cc e, λ e. cc e), (λ e. cc e, λ e. cc e))
wake-phase holds = (λ e. cc e, (λ e. refl, λ e. refl), (λ e. cc e, λ e. cc e))

releasesleep-Inv : {s : Sys} (p : ℕ) → s.phase p ≡ holds → Inv s → Inv (releasesleep p s)
unfolding releasesleep
releasesleep-Inv {s} p has inv = record {
  locked = λ q. (
    λ h.
        let h' = (wake-phase (update s.phase p away q)).1.0 h in
        ground (arith, (inv.locked q).0, (inv.locked p).0 has),
    λ h. ground arith,
  );
  waits = λ q h. absurd ((wake-phase (update s.phase p away q)).0 h);
  somebody =
      λ q h. inv.somebody q (λ e. h ((wake-phase (update s.phase p away q)).2.1 (ground arith)));
}

Step-Inv : {s t : Sys} → Step s t → Inv s → Inv t
Step-Inv (calls p pos out) inv = acquiresleep-Inv p pos (λ e. cc (e, out)) inv
Step-Inv (retries p loops) inv =
    acquiresleep-Inv p (inv.somebody p (λ e. cc (e, loops))) (λ e. cc (e, loops)) inv
Step-Inv (is_killed p sl) inv = record {
  locked = λ q. (
    λ h. ground (arith, (inv.locked q).0),
    λ h. ground (arith, (inv.locked q).1 h, (==_iff q p).0),
  );
  waits = λ q h. inv.waits q (ground arith);
  somebody = λ q h. ground (arith, inv.somebody q, inv.somebody p, (==_iff q p).0);
}
Step-Inv (releases p has) inv = releasesleep-Inv p has inv

Reach-Inv : {s : Sys} → Reach s → Inv s
Reach-Inv boots = record {
  locked = λ p. (λ e. cc e, λ e. absurd (e.0 refl));
  waits = λ p e. cc e;
  somebody = λ p e. absurd (e refl);
}
Reach-Inv (steps r st) = Step-Inv st (Reach-Inv r)

-- In every reachable state two processes that have the sleep lock are one process.
pub acquiresleep-exclusive :
    {s : Sys} (p q : ℕ) → Reach s → s.phase p ≡ holds → s.phase q ≡ holds → p ≡ q
acquiresleep-exclusive p q r hp hq =
    let inv = Reach-Inv r in sym ((inv.locked p).0 hp).1 ∙ ((inv.locked q).0 hq).1

-- In every reachable state holdingsleep() is true exactly for the process that has the lock, and a
-- process sleeps in acquiresleep() only while another has the lock, whose releasesleep() makes it
-- run again.
pub releasesleep-wakes :
    {s : Sys} (p : ℕ)
    → Reach s
    → ((holdingsleep p s.lk ≡ true) ↔ (s.phase p ≡ holds))
      × (s.phase p ≡ asleep
          → (q : ℕ) × (s.phase q ≡ holds) × (q ≢ p) × ((releasesleep q s).phase p ≡ looping))
unfolding holdingsleep releasesleep
releasesleep-wakes {s} p r =
    let inv = Reach-Inv r in
    (
      (λ h. (inv.locked p).1 (ground arith), λ h. ground (arith, (inv.locked p).0 h)),
      λ sl.
          let has : s.phase s.lk.pid ≡ holds = (inv.locked s.lk.pid).1 (inv.waits p sl, refl) in
          let other : s.lk.pid ≢ p = λ e. cc (has, sl, ap s.phase e) in
          (s.lk.pid, has, other, ground (arith, ==_iff p s.lk.pid)),
    )
