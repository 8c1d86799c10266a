-- ===== src/Spin/Tests.antt =====
-- A CPU that acquires lock 7, and one that switches interrupts off twice.
use os.Prelude.{ℕ, ◌≡◌, refl, true, false, [], ◌∷◌, update, arith}
use os.Kernel.{ok}
use os.Spin.{
  Machine, push_off, pop_off, holding, acquire_start, test_and_set, acquire_end, release_start,
}
use os.Spin.Held.{mem}
use os.Spin.System.{
  Sys, at_phase, idle, spinning, marking, popping, boot, Reach, boots, steps, starts, takes, marks,
}
use os.Spin.Exclusion.{acquire-exclusive, release-safe}

abbrev spun : Sys
spun = at_phase boot 3 spinning 7 (push_off 3 boot.machine)

abbrev won : Sys
won = record (at_phase spun 3 marking 7 (test_and_set 7 spun.machine).1) {
  owner = update spun.owner 7 4;
}

abbrev taken : Sys
taken = record (at_phase won 3 idle 7 (acquire_end 3 7 won.machine)) {
  held = update won.held 3 (7 ∷ []);
}

taken-Reach : Reach taken
unfolding push_off acquire_start holding test_and_set
taken-Reach =
    steps (steps (steps boots (starts 3 7 refl (omega arith) refl)) (takes 3 7 refl refl refl))
      (marks 3 7 refl refl)

acquire-exclusive_example : ◌≡◌ {A = ℕ} 3 3
acquire-exclusive_example = acquire-exclusive 3 3 7 taken-Reach refl refl

release-safe_example :
    (taken.phase 3 ≡ idle
      → mem 7 (taken.held 3) ≡ true
      → (m : Machine) × (release_start 3 7 taken.machine ≡ ok (tt, m)))
    × (taken.phase 3 ≡ popping → (m : Machine) × (pop_off 3 taken.machine ≡ ok (tt, m)))
release-safe_example = release-safe 3 7 taken-Reach

-- another CPU spins
busy_test : (test_and_set 7 taken.machine).0 ≡ false
unfolding test_and_set acquire_end push_off
busy_test = refl
