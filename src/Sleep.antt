-- ===== src/Sleep.antt =====
-- kernel/sleeplock.c: the lock that a process sleeps on. Each function is what one critical section
-- under lk->lk does; a process is named by its pid.
pub mod Exclusion
mod Tests
use os.Prelude.{ℕ, ◌+◌, Bool, true, false, not, ◌&&◌, ◌==◌, if◌then◌else◌, update}

-- struct sleeplock without its spin lock and its name
pub record SleepLock : Type 0 where
  pub locked : ℕ
  pub pid : ℕ

abbrev pub initsleeplock : SleepLock
initsleeplock = record { locked = 0; pid = 0 }

-- what a process does: nothing with the lock, it is in the loop of acquiresleep() and runs, sleeps
-- there, or has the lock
pub data Phase : Type 0 where
  away : Phase
  looping : Phase
  asleep : Phase
  holds : Phase

-- The lock, and what each process does.
pub record Sys : Type 0 where
  pub lk : SleepLock
  pub phase : ℕ → Phase

-- acquiresleep() from a test of its loop on: the process sleeps, or takes the lock
unfoldable pub acquiresleep : ℕ → Sys → Sys
acquiresleep p s =
    if not (s.lk.locked == 0)
    then record s { phase = update s.phase p asleep }
    else record { lk = record { locked = 1; pid = p }; phase = update s.phase p holds }

-- wakeup(lk)
unfoldable pub wake : Phase → Phase
wake away = away
wake looping = looping
wake asleep = looping
wake holds = holds

unfoldable pub releasesleep : ℕ → Sys → Sys
unfolding wake
releasesleep p s = record {
  lk = record { locked = 0; pid = 0 };
  phase = λ q. wake (update s.phase p away q);
}

unfoldable pub holdingsleep : ℕ → SleepLock → Bool
holdingsleep p lk = not (lk.locked == 0) && lk.pid == p
