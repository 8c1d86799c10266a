-- ===== src/Vm/Tree.antt =====
-- The pages of a page table, each with its level and the part of the address that leads to it.
pub mod Grow
use os.Prelude.{
  ℕ, zero, suc, ◌+◌, ◌-◌, ◌*◌, ◌/◌, ◌%◌, ◌^◌, ◌<◌, ◌≤◌, ◌≡◌, ◌≢◌, ◌⊎◌, inl, inr, refl, sym, ap, ◌∙◌,
  Bool, true, false, not, ◌&&◌, ◌||◌, ◌==◌, ltb, leb, if◌then◌else◌, update, arith, Bool-cases,
  ==_iff,
}
use mathlib.Core.Path.{subst}
use os.Str.{Memory}
use os.Kalloc.{load64, store64, pgsize}
use os.Kalloc.Chain.{IsPage}
use os.Kalloc.Words.{load64-ext, load64-store64_self, store64-out}
use os.Vm.{maxva, px, pte2pa, is_valid}
use os.Vm.Ptes.{above, above-px, above-root, above-page, px-bound}
use os.Vm.Walk.{find, value, find-page}

-- `level x` is 0 where x is no page of the tree, and one more than its level where it is
pub record Labels : Type 0 where
  pub level : ℕ → ℕ
  pub prefix : ℕ → ℕ

pub record Tree (end root : ℕ) (g : Labels) (m : Memory) : Type 0 where
  pub top : (g.level root ≡ 3) × (g.prefix root ≡ 0)
  pub height : (x : ℕ) → g.level x ≤ 3
  pub pages : (x : ℕ) → g.level x ≢ 0 → IsPage end x
  pub below :
      (x l i : ℕ)
      → g.level x ≡ suc (suc l)
      → i < 512
      → is_valid (load64 m (x + 8 * i)) ≡ true
      → (g.level (pte2pa (load64 m (x + 8 * i))) ≡ suc l)
        × (g.prefix (pte2pa (load64 m (x + 8 * i))) ≡ g.prefix x * 512 + i)

-- the table `x` of a level is on the way to `va`
abbrev pub On : Labels → ℕ → ℕ → ℕ → Type 0
On g x level va = (g.level x ≡ suc level) × (g.prefix x ≡ above level va)

pub On-root :
    {end root : ℕ} {g : Labels} {m : Memory} (va : ℕ)
    → Tree end root g m
    → va < maxva
    → On g root 2 va
On-root va tree lt = (tree.top.0, tree.top.1 ∙ sym (above-root va lt))

pub On-below :
    {end root : ℕ} {g : Labels} {m : Memory} (x l va : ℕ)
    → Tree end root g m
    → On g x (suc l) va
    → is_valid (load64 m (x + 8 * px (suc l) va)) ≡ true
    → On g (pte2pa (load64 m (x + 8 * px (suc l) va))) l va
On-below {g = g} x l va tree on v =
    let b = tree.below x l (px (suc l) va) on.0 (px-bound (suc l) va) v in
    (
      b.0,
      b.1
          ∙ ap (λ p. p * 512 + px (suc l) va) on.1
          ∙ sym (above-px l va (omega (arith, on.0, tree.height x))),
    )

-- the PTEs above the leaves are the same
abbrev pub SameAbove : Labels → Memory → Memory → Type 0
SameAbove g m m' =
    (x l i : ℕ) → g.level x ≡ suc (suc l) → i < 512 → load64 m' (x + 8 * i) ≡ load64 m (x + 8 * i)

pub Tree-SameAbove :
    {end root : ℕ} {g : Labels} {m m' : Memory}
    → Tree end root g m
    → SameAbove g m m'
    → Tree end root g m'
Tree-SameAbove {g = g} {m = m} {m' = m'} tree same = record {
  top = tree.top;
  height = tree.height;
  pages = tree.pages;
  below = λ x l i lv lt v.
      let e = same x l i lv lt in
      subst (λ w. (g.level (pte2pa w) ≡ suc l) × (g.prefix (pte2pa w) ≡ g.prefix x * 512 + i))
        (sym e) (tree.below x l i lv lt (ap is_valid (sym e) ∙ v));
}

pub find-SameAbove :
    {end root : ℕ} {g : Labels} (m m' : Memory) (va level x : ℕ)
    → Tree end root g m
    → SameAbove g m m'
    → On g x level va
    → find m' va level x ≡ find m va level x
unfolding find
find-SameAbove m m' va zero x tree same on = refl
find-SameAbove m m' va (suc l) x tree same on =
    rw (same x l (px (suc l) va) on.0 (px-bound (suc l) va))
      (elim (Bool-cases (is_valid (load64 m (x + 8 * px (suc l) va)))) [
        | inl v ↦ rw v (
            find-SameAbove m m' va l (pte2pa (load64 m (x + 8 * px (suc l) va))) tree same
              (On-below x l va tree on v))
        | inr v ↦ rw v refl
      ])

-- what find() leads to: nothing, or a place in a table of the last level
pub find-On :
    {end root : ℕ} {g : Labels} {m : Memory} (va level x : ℕ)
    → Tree end root g m
    → On g x level va
    → (find m va level x ≡ 0) ⊎ ((y : ℕ) × On g y 0 va × (find m va level x ≡ y + 8 * px 0 va))
unfolding find
find-On va zero x tree on = inr (x, on, refl)
find-On {m = m} va (suc l) x tree on =
    elim (Bool-cases (is_valid (load64 m (x + 8 * px (suc l) va)))) [
      | inl v ↦ rw v (
          find-On va l (pte2pa (load64 m (x + 8 * px (suc l) va))) tree (On-below x l va tree on v))
      | inr v ↦ rw v (inl refl)
    ]

pub load64-store64_ne :
    (p q v : ℕ) (m : Memory) → (q + 8 ≤ p) ⊎ (p + 8 ≤ q) → load64 (store64 p v m) q ≡ load64 m q
load64-store64_ne p q v m h =
    load64-ext m (store64 p v m) q (λ a lo hi. store64-out p v m a (ground (arith, h)))

-- a PTE of another table, or at another index
pub slots_apart :
    {end root : ℕ} {g : Labels} {m : Memory} (x y i j : ℕ)
    → Tree end root g m
    → g.level x ≢ 0
    → g.level y ≢ 0
    → i < 512
    → j < 512
    → (x ≢ y) ⊎ (i ≢ j)
    → (y + 8 * j + 8 ≤ x + 8 * i) ⊎ (x + 8 * i + 8 ≤ y + 8 * j)
slots_apart x y i j tree lx ly il jl ne =
    let a = (tree.pages x lx).0 in let b = (tree.pages y ly).0 in ground (arith, a, b, ne)

-- a write of a PTE of the last level
module _ {end root : ℕ} {g : Labels} {m : Memory} (tree : Tree end root g m) (va y v : ℕ)
    (on : On g y 0 va) where
  pub leaf_store-SameAbove : SameAbove g m (store64 (y + 8 * px 0 va) v m)
  leaf_store-SameAbove x l i lv lt = load64-store64_ne (y + 8 * px 0 va) (x + 8 * i) v m (
      slots_apart y x (px 0 va) i tree (λ z. omega (arith, on.0, z)) (λ z. omega (arith, lv, z))
        (px-bound 0 va) lt (inl (λ e. omega (arith, on.0, lv, ap g.level e))))

  pub leaf_store-Tree : Tree end root g (store64 (y + 8 * px 0 va) v m)
  leaf_store-Tree = Tree-SameAbove tree leaf_store-SameAbove

  apart : (y' va' : ℕ) → On g y' 0 va' → va' / 4096 ≢ va / 4096 → (y ≢ y') ⊎ (px 0 va ≢ px 0 va')
  apart y' va' on' ne = elim (Bool-cases (px 0 va == px 0 va')) [
    | inr i ↦ inr (ground arith)
    | inl i ↦ inl (λ same. ne (
        let p : above 0 va' ≡ above 0 va = sym on'.1 ∙ ap g.prefix (sym same) ∙ on.1 in
        let q : px 0 va ≡ px 0 va' = (==_iff (px 0 va) (px 0 va')).0 i in omega (arith, p, q)))
  ]

  -- of the PTEs of all addresses just that of the page of `va` has changed
  pub leaf_store-value :
      (va' : ℕ)
      → va < maxva
      → va' < maxva
      → v < 2 ^ 64
      → find m va 2 root ≡ y + 8 * px 0 va
      → value (store64 (y + 8 * px 0 va) v m) va' 2 root
        ≡ (if va' / 4096 == va / 4096 then v else value m va' 2 root)
  unfolding value
  leaf_store-value va' lt lt' vl at =
      rw
        (find-SameAbove m (store64 (y + 8 * px 0 va) v m) va' 2 root tree leaf_store-SameAbove
          (On-root va' tree lt'))
        (elim (Bool-cases (va' / 4096 == va / 4096)) [
          | inl e ↦
              let here : find m va' 2 root ≡ y + 8 * px 0 va =
                find-page m va va' 2 root (omega arith) ((==_iff _ _).0 e) ∙ at in
              let some_place : (y + 8 * px 0 va == 0) ≡ false =
                ground (arith, (tree.pages y (λ z. omega (arith, on.0, z))).3) in
              rw (e, here, some_place) (load64-store64_self (y + 8 * px 0 va) v m vl)
          | inr e ↦ rw e (elim (find-On va' 2 root tree (On-root va' tree lt')) [
            | inl z ↦ rw z refl
            | inr (y', on', z) ↦ rw z (
                ap {A = ℕ} (λ w. if y' + 8 * px 0 va' == 0 then 0 else w)
                  (load64-store64_ne (y + 8 * px 0 va) (y' + 8 * px 0 va') v m (
                    slots_apart y y' (px 0 va) (px 0 va') tree (λ z. omega (arith, on.0, z))
                      (λ z. omega (arith, on'.0, z)) (px-bound 0 va) (px-bound 0 va')
                      (apart y' va' on' (ground arith)))))
          ])
        ])
