-- ===== src/Pipe/System/Wake.antt =====
-- What wakeup() and kill() leave asleep.
use os.Prelude.{ℕ, ◌≡◌, ◌≢◌}
use os.Pipe.{nread_chan, nwrite_chan}
use os.Pipe.System.{
  Thread, outside, write_ready, write_asleep, read_ready, read_asleep, wake, rouse,
}

pub wake_nread :
    (x : Thread) (addr n i : ℕ)
    → (wake nread_chan x ≢ read_asleep addr n)
      × (wake nread_chan x ≡ write_asleep addr n i → x ≡ write_asleep addr n i)
unfolding wake
wake_nread outside addr n i = (λ e. cc, λ e. cc)
wake_nread (write_ready a b c) addr n i = (λ e. cc, λ e. cc)
wake_nread (write_asleep a b c) addr n i = (λ e. cc, λ e. e)
wake_nread (read_ready a b) addr n i = (λ e. cc, λ e. cc)
wake_nread (read_asleep a b) addr n i = (λ e. cc, λ e. cc)

pub wake_nwrite :
    (x : Thread) (addr n i : ℕ)
    → (wake nwrite_chan x ≢ write_asleep addr n i)
      × (wake nwrite_chan x ≡ read_asleep addr n → x ≡ read_asleep addr n)
unfolding wake
wake_nwrite outside addr n i = (λ e. cc, λ e. cc)
wake_nwrite (write_ready a b c) addr n i = (λ e. cc, λ e. cc)
wake_nwrite (write_asleep a b c) addr n i = (λ e. cc, λ e. cc)
wake_nwrite (read_ready a b) addr n i = (λ e. cc, λ e. cc)
wake_nwrite (read_asleep a b) addr n i = (λ e. cc, λ e. e)

pub rouse_lem :
    (x : Thread) (a m i : ℕ) → (rouse x ≢ write_asleep a m i) × (rouse x ≢ read_asleep a m)
unfolding rouse
rouse_lem outside a m i = (λ e. cc, λ e. cc)
rouse_lem (write_ready b c d) a m i = (λ e. cc, λ e. cc)
rouse_lem (write_asleep b c d) a m i = (λ e. cc, λ e. cc)
rouse_lem (read_ready b c) a m i = (λ e. cc, λ e. cc)
rouse_lem (read_asleep b c) a m i = (λ e. cc, λ e. cc)
