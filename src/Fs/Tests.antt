-- ===== src/Fs/Tests.antt =====
-- A file system of 20 blocks with its bitmap in block 3, and a file whose first block is 5.
use os.Prelude.{some, ℕ, ◌<◌, ◌≡◌, refl, sym, true, false, ◌==◌, if◌then◌else◌, update, arith}
use mathlib.Core.Path.{subst}
use os.Kernel.Runs.{Runs}
use os.Fs.{Fs, Inode, bblock, test_bit, find_bit, balloc, bmap, itrunc, iupdate, ilock_read}
use os.Fs.Bits.{in_use}
use os.Fs.Alloc.{Ready, Allocated, balloc-Allocated}
use os.Fs.Slots.{slot, Good, Inv}
use os.Fs.Map.{Mapped, bmap-Mapped}
use os.Fs.Dinode.{Fits, Same, iupdate-ilock_read}
use os.Fs.Trunc.{Truncated, itrunc-Truncated}

abbrev one_block : ℕ → ℕ
one_block = update (λ _. 0) 0 5

abbrev file : Inode
file = record {
  dev = 1;
  inum = 2;
  ref = 1;
  valid = true;
  type = 2;
  major = 0;
  minor = 0;
  nlink = 1;
  size = 700;
  addrs = one_block;
}

-- blocks 0 to 5 are in use
abbrev pub small : Fs
small = record {
  sb = record { size = 20; ninodes = 16; inodestart = 2; bmapstart = 3 };
  disk = update (λ _ _. 7) 3 (update (λ _. 0) 0 63);
  ip = file;
}

pub first_block : (j : ℕ) → j < 20 → bblock j small.sb ≡ 3
first_block j lt = omega arith

small-Ready : Ready small
unfolding in_use test_bit
small-Ready = record {
  room = omega arith;
  boot = refl;
  bitmap = λ j lt _. subst (λ m. in_use small m ≡ true) (sym (first_block j lt)) refl;
}

pub small-slot : (k : ℕ) → slot small k ≡ (if k == 0 then 5 else 0)
small-slot k = ground arith

pub small-Inv : Inv small
unfolding in_use test_bit
small-Inv = record {
  ready = small-Ready;
  good = λ k lt nz.
      let five : slot small k ≡ 5 = ground (arith, small-slot k) in
      subst (Good small) (sym five) (record {
        within = omega arith;
        used = refl;
        apart = λ j jlt. omega (arith, first_block j jlt);
      });
  distinct = λ k l klt llt ne nz. ground (arith, small-slot k, small-slot l);
}

pub small-Fits : Fits file
small-Fits = record {
  type = omega arith;
  major = omega arith;
  minor = omega arith;
  nlink = omega arith;
  size = omega arith;
  addrs = λ k le. ground arith;
}

-- balloc() finds block 6
finds_six : find_bit 8192 20 (small.disk 3) 0 0 ≡ some 6
unfolding find_bit test_bit
finds_six = refl

balloc-Allocated_example : Runs (Allocated small) (λ d. ⊥) (balloc small)
balloc-Allocated_example = balloc-Allocated small small-Ready

bmap-Mapped_example : Runs (Mapped small 20) (λ d. ⊥) (bmap 20 small)
bmap-Mapped_example = bmap-Mapped small 20 small-Inv (omega arith)

itrunc-Truncated_example : Runs (λ _ t. Truncated small t) (λ d. ⊥) (itrunc small)
itrunc-Truncated_example =
    itrunc-Truncated small small-Inv small-Fits (λ j lt. omega (arith, first_block j lt))

abbrev stale : Inode
stale = record file { valid = false; type = 0; size = 0; addrs = λ _. 0 }

iupdate-ilock_read_example :
    Runs
      (λ _ t. Same small.ip t.ip × (t.ip.valid ≡ true) × (t.disk ≡ (iupdate small).disk))
      (λ d. ⊥)
      (ilock_read (record (iupdate small) { ip = stale }))
iupdate-ilock_read_example = iupdate-ilock_read small stale small-Fits (omega arith) refl refl
