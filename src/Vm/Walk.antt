-- ===== src/Vm/Walk.antt =====
-- What walk() finds without changing the tables.
use os.Prelude.{
  ℕ, zero, suc, ◌+◌, ◌*◌, ◌/◌, ◌<◌, ◌≤◌, ◌≡◌, inl, inr, refl, ap, false, ◌&&◌, ◌==◌, leb,
  if◌then◌else◌, arith, Bool-cases,
}
use os.Kernel.{ok}
use os.Str.{Memory}
use os.Kalloc.{Kmem, load64}
use os.Vm.Ptes.{px-page}
use os.Vm.{maxva, px, pte2pa, is_valid, is_user, walk_levels, walk, walkaddr}

-- the address of the PTE of `va` from the table `x` of a level on, or 0
unfoldable pub find : Memory → ℕ → ℕ → ℕ → ℕ
find m va zero x = x + 8 * px 0 va
find m va (suc level) x =
    let e = load64 m (x + 8 * px (suc level) va) in
    let rest = find m va level (pte2pa e) in if is_valid e then rest else 0

-- the PTE, or 0
unfoldable pub value : Memory → ℕ → ℕ → ℕ → ℕ
value m va level x = if find m va level x == 0 then 0 else load64 m (find m va level x)

walk_levels-find :
    (va level x : ℕ) (s : Kmem) → walk_levels false va level x s ≡ ok (find s.mem va level x, s)
unfolding walk_levels find
walk_levels-find va zero x s = refl
walk_levels-find va (suc level) x s =
    elim (Bool-cases (is_valid (load64 s.mem (x + 8 * px (suc level) va)))) [
      | inl e ↦
          rw e (walk_levels-find va level (pte2pa (load64 s.mem (x + 8 * px (suc level) va))) s)
      | inr e ↦ rw e refl
    ]

pub walk-find :
    (root va : ℕ) (s : Kmem) → va < maxva → walk root va false s ≡ ok (find s.mem va 2 root, s)
unfolding walk
walk-find root va s lt =
    let e : leb maxva va ≡ false = ground (arith, lt) in rw e (walk_levels-find va 2 root s)

-- what walkaddr() answers for a PTE
abbrev pub user_page : ℕ → ℕ
user_page pte = if is_valid pte && is_user pte then pte2pa pte else 0

pub walkaddr-value :
    (root va : ℕ) (s : Kmem)
    → va < maxva
    → walkaddr root va s ≡ ok (user_page (value s.mem va 2 root), s)
unfolding walkaddr value
walkaddr-value root va s lt =
    let e : leb maxva va ≡ false = ground (arith, lt) in
    rw (e, walk-find root va s lt)
      (elim (Bool-cases (find s.mem va 2 root == 0)) [
        | inl z ↦ rw z refl
        | inr nz ↦ rw nz (elim (Bool-cases (is_valid (load64 s.mem (find s.mem va 2 root)))) [
          | inr v ↦ rw v refl
          | inl v ↦ rw v (elim (Bool-cases (is_user (load64 s.mem (find s.mem va 2 root)))) [
            | inl u ↦ rw u refl
            | inr u ↦ rw u refl
          ])
        ])
      ])

-- two addresses in one page
pub find-page :
    (m : Memory) (va va' level x : ℕ)
    → level ≤ 2
    → va' / 4096 ≡ va / 4096
    → find m va' level x ≡ find m va level x
unfolding find
find-page m va va' zero x le e = ap (λ i. x + 8 * i) (px-page 0 va va' le e)
find-page m va va' (suc l) x le e =
    let same = px-page (suc l) va va' le e in
    rw same (elim (Bool-cases (is_valid (load64 m (x + 8 * px (suc l) va)))) [
      | inl v ↦
          rw v
            (find-page m va va' l (pte2pa (load64 m (x + 8 * px (suc l) va))) (omega (arith, le)) e)
      | inr v ↦ rw v refl
    ])
