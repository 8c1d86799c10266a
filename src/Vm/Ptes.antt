-- ===== src/Vm/Ptes.antt =====
-- The fields of a PTE and the indices of a virtual address.
use os.Prelude.{ℕ, zero, suc, ◌+◌, ◌*◌, ◌/◌, ◌%◌, ◌^◌, ◌<◌, ◌≤◌, ◌≡◌, refl, true, arith}
use os.Vm.{maxva, px, pte2pa, is_valid, is_user, make_pte}

pub make_pte-is_valid : (pa perm : ℕ) → is_valid (make_pte pa perm) ≡ true
make_pte-is_valid pa perm = ground arith

pub pte2pa-make_pte :
    (pa perm : ℕ) → pa % 4096 ≡ 0 → pa < 2 ^ 54 → perm < 1024 → pte2pa (make_pte pa perm) ≡ pa
pte2pa-make_pte pa perm al lt small = omega (arith, al, lt, small)

pub is_user-make_pte : (pa perm : ℕ) → perm < 1024 → is_user (make_pte pa perm) ≡ is_user perm
is_user-make_pte pa perm small =
    let e : make_pte pa perm / 16 % 2 ≡ perm / 16 % 2 = omega (arith, small) in rw e refl

pub make_pte-bound : (pa perm : ℕ) → pa < 2 ^ 54 → perm < 1024 → make_pte pa perm < 2 ^ 64
make_pte-bound pa perm lt small = omega (arith, lt, small)

-- the part of a virtual address above the index of a table of a level
abbrev pub above : ℕ → ℕ → ℕ
above zero va = va / 2 ^ 21
above (suc zero) va = va / 2 ^ 30
above (suc (suc n)) va = va / 2 ^ 39

pub above-px :
    (level va : ℕ) → level < 2 → above level va ≡ above (suc level) va * 512 + px (suc level) va
above-px zero va lt = omega arith
above-px (suc zero) va lt = omega arith
above-px (suc (suc n)) va lt = absurd (omega (arith, lt))

pub above-root : (va : ℕ) → va < maxva → above 2 va ≡ 0
above-root va lt = omega (arith, lt)

pub above-page : (va : ℕ) → above 0 va * 512 + px 0 va ≡ va / 4096
above-page va = omega arith

pub px-bound : (level va : ℕ) → px level va < 512
px-bound level va = omega arith

pub px-page : (level va va' : ℕ) → level ≤ 2 → va' / 4096 ≡ va / 4096 → px level va' ≡ px level va
px-page zero va va' le e = omega (arith, e)
px-page (suc zero) va va' le e = omega (arith, e)
px-page (suc (suc zero)) va va' le e = omega (arith, e)
px-page (suc (suc (suc n))) va va' le e = absurd (omega (arith, le))
