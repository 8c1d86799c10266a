-- ===== src/Kalloc/Words.antt =====
-- 64-bit words in memory.
use os.Prelude.{ℕ, ◌+◌, ◌*◌, ◌/◌, ◌%◌, ◌^◌, ◌<◌, ◌≤◌, ◌≡◌, ◌⊎◌, arith}
use os.Str.{Memory}
use os.Kalloc.{load64, store64}

byte0 : (p v : ℕ) (m : Memory) → store64 p v m p ≡ v % 256
unfolding store64
byte0 p v m = ground arith

byte1 : (p v : ℕ) (m : Memory) → store64 p v m (p + 1) ≡ v / 2 ^ 8 % 256
unfolding store64
byte1 p v m = ground arith

byte2 : (p v : ℕ) (m : Memory) → store64 p v m (p + 2) ≡ v / 2 ^ 16 % 256
unfolding store64
byte2 p v m = ground arith

byte3 : (p v : ℕ) (m : Memory) → store64 p v m (p + 3) ≡ v / 2 ^ 24 % 256
unfolding store64
byte3 p v m = ground arith

byte4 : (p v : ℕ) (m : Memory) → store64 p v m (p + 4) ≡ v / 2 ^ 32 % 256
unfolding store64
byte4 p v m = ground arith

byte5 : (p v : ℕ) (m : Memory) → store64 p v m (p + 5) ≡ v / 2 ^ 40 % 256
unfolding store64
byte5 p v m = ground arith

byte6 : (p v : ℕ) (m : Memory) → store64 p v m (p + 6) ≡ v / 2 ^ 48 % 256
unfolding store64
byte6 p v m = ground arith

byte7 : (p v : ℕ) (m : Memory) → store64 p v m (p + 7) ≡ v / 2 ^ 56 % 256
unfolding store64
byte7 p v m = ground arith

-- the eight digits of a word
digits_lem :
    (v : ℕ)
    → v < 2 ^ 64
    → v % 256
        + 2 ^ 8 * (v / 2 ^ 8 % 256)
        + 2 ^ 16 * (v / 2 ^ 16 % 256)
        + 2 ^ 24 * (v / 2 ^ 24 % 256)
        + 2 ^ 32 * (v / 2 ^ 32 % 256)
        + 2 ^ 40 * (v / 2 ^ 40 % 256)
        + 2 ^ 48 * (v / 2 ^ 48 % 256)
        + 2 ^ 56 * (v / 2 ^ 56 % 256)
      ≡ v
digits_lem v h = omega arith

pub load64-store64_self : (p v : ℕ) (m : Memory) → v < 2 ^ 64 → load64 (store64 p v m) p ≡ v
unfolding load64
load64-store64_self p v m h =
    rw
      (
        byte0 p v m,
        byte1 p v m,
        byte2 p v m,
        byte3 p v m,
        byte4 p v m,
        byte5 p v m,
        byte6 p v m,
        byte7 p v m,
      )
      (digits_lem v h)

pub load64-ext :
    (m m' : Memory) (p : ℕ) → ((a : ℕ) → p ≤ a → a < p + 8 → m' a ≡ m a) → load64 m' p ≡ load64 m p
unfolding load64
load64-ext m m' p h =
    ground (arith, h p, h (p + 1), h (p + 2), h (p + 3), h (p + 4), h (p + 5), h (p + 6), h (p + 7))

pub store64-out : (p v : ℕ) (m : Memory) (a : ℕ) → (a < p) ⊎ (p + 8 ≤ a) → store64 p v m a ≡ m a
unfolding store64
store64-out p v m a h = ground (arith, h)

pub load64-zero : (p : ℕ) → load64 (λ _. 0) p ≡ 0
unfolding load64
load64-zero p = omega arith
