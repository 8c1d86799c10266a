-- ===== src/Sleep/Tests.antt =====
-- Two processes on a sleep lock: 5 has it and 6 sleeps.
use os.Prelude.{ℕ, ◌≡◌, ◌≢◌, ◌↔◌, refl, true, arith}
use os.Sleep.{Sys, asleep, holds, looping, acquiresleep, releasesleep, holdingsleep}
use os.Sleep.Exclusion.{
  boot, Reach, boots, steps, calls, acquiresleep-exclusive, releasesleep-wakes,
}

abbrev both : Sys
both = acquiresleep 6 (acquiresleep 5 boot)

both-Reach : Reach both
unfolding acquiresleep
both-Reach = steps (steps boots (calls 5 (omega arith) refl)) (calls 6 (omega arith) refl)

acquiresleep-exclusive_example : ◌≡◌ {A = ℕ} 5 5
unfolding acquiresleep
acquiresleep-exclusive_example = acquiresleep-exclusive 5 5 both-Reach refl refl

releasesleep-wakes_example :
    ((holdingsleep 6 both.lk ≡ true) ↔ (both.phase 6 ≡ holds))
    × (both.phase 6 ≡ asleep
        → (q : ℕ) × (both.phase q ≡ holds) × (q ≢ 6) × ((releasesleep q both).phase 6 ≡ looping))
releasesleep-wakes_example = releasesleep-wakes 6 both-Reach
