-- ===== src/Fs/Bits.antt =====
-- Bits of bytes, and the bit of a block in the bitmap.
use os.Prelude.{
  ℕ, zero, suc, ◌+◌, ◌*◌, ◌/◌, ◌%◌, ◌≡◌, Bool, true, false, ◌==◌, if◌then◌else◌, arith,
}
use os.Fs.{Fs, bblock, bpb, test_bit, set_bit, clear_bit}

same_half : (x y : ℕ) → x ≡ y → (j : ℕ) → test_bit x j ≡ test_bit y j
same_half x y e j = rw e

pub test_bit-set_bit :
    (x k j : ℕ) → test_bit (set_bit x k) j ≡ (if j == k then true else test_bit x j)
unfolding test_bit set_bit
test_bit-set_bit x zero zero = ground arith
test_bit-set_bit x zero (suc j) =
    ground (arith, same_half ((x / 2 * 2 + 1) / 2) (x / 2) (omega arith) j)
test_bit-set_bit x (suc k) zero = ground arith
test_bit-set_bit x (suc k) (suc j) = ground (
  arith,
  same_half ((x % 2 + 2 * set_bit (x / 2) k) / 2) (set_bit (x / 2) k) (omega arith) j,
  test_bit-set_bit (x / 2) k j,
)

pub test_bit-clear_bit :
    (x k j : ℕ) → test_bit (clear_bit x k) j ≡ (if j == k then false else test_bit x j)
unfolding test_bit clear_bit
test_bit-clear_bit x zero zero = ground arith
test_bit-clear_bit x zero (suc j) =
    ground (arith, same_half (x / 2 * 2 / 2) (x / 2) (omega arith) j)
test_bit-clear_bit x (suc k) zero = ground arith
test_bit-clear_bit x (suc k) (suc j) = ground (
  arith,
  same_half ((x % 2 + 2 * clear_bit (x / 2) k) / 2) (clear_bit (x / 2) k) (omega arith) j,
  test_bit-clear_bit (x / 2) k j,
)

-- whether the bitmap marks block `b`
unfoldable pub in_use : Fs → ℕ → Bool
in_use s b = test_bit (s.disk (bblock b s.sb) (b % bpb / 8)) (b % bpb % 8)
