-- ===== src/Vm/Tree/Grow.antt =====
-- A new table below an entry that is not valid.
use os.Prelude.{
  ℕ, zero, suc, ◌+◌, ◌*◌, ◌%◌, ◌^◌, ◌<◌, ◌≤◌, ◌≡◌, ◌≢◌, ◌⊎◌, inl, inr, refl, sym, ap, ◌∙◌, true,
  false, ◌&&◌, ◌==◌, if◌then◌else◌, update, arith, Bool-cases, ==_iff,
}
use mathlib.Core.Path.{subst}
use os.Str.{Memory, memset}
use os.Kalloc.{load64, store64, pgsize}
use os.Kalloc.Chain.{IsPage, SameOutside}
use os.Kalloc.Calls.{memset-SameOutside}
use os.Kalloc.Words.{load64-ext, load64-store64_self, load64-zero, store64-out}
use os.Str.Move.{memset-filled}
use os.Vm.{px, pa2pte, pte2pa, is_valid}
use os.Vm.Ptes.{px-bound}
use os.Vm.Walk.{find, value}
use os.Vm.Tree.{Labels, Tree, On, On-below, slots_apart}

-- the labels with the table `z` below index `i` of `x`
abbrev pub grown : Labels → ℕ → ℕ → ℕ → ℕ → Labels
grown g x l i z = record {
  level = update g.level z (suc l);
  prefix = update g.prefix z (g.prefix x * 512 + i);
}

pub pte2pa_table : (z : ℕ) → z % 4096 ≡ 0 → z < 2 ^ 54 → pte2pa (pa2pte z + 1) ≡ z
pte2pa_table z al lt = omega (arith, al, lt)

-- `m'` has the new table `z` at index `i` of `x`
module _ {end root : ℕ} {g : Labels} (m m' : Memory) (tree : Tree end root g m) (x l i z : ℕ)
    (lv : g.level x ≡ suc (suc l)) (il : i < 512) (off : is_valid (load64 m (x + 8 * i)) ≡ false)
    (page : IsPage end z) (new : g.level z ≡ 0) (entry : load64 m' (x + 8 * i) ≡ pa2pte z + 1)
    (kept : (y j : ℕ)
      → g.level y ≢ 0
      → j < 512
      → (x ≢ y) ⊎ (i ≢ j)
      → load64 m' (y + 8 * j) ≡ load64 m (y + 8 * j))
    (blank : (j : ℕ) → j < 512 → load64 m' (z + 8 * j) ≡ 0) where
  old-level : (y : ℕ) → g.level y ≢ 0 → (grown g x l i z).level y ≡ g.level y
  old-level y h =
      let ne : (y == z) ≡ false = ground (arith, ap g.level {x = y} {y = z}, new, h) in rw ne refl

  old-prefix : (y : ℕ) → g.level y ≢ 0 → (grown g x l i z).prefix y ≡ g.prefix y
  old-prefix y h =
      let ne : (y == z) ≡ false = ground (arith, ap g.level {x = y} {y = z}, new, h) in rw ne refl

  to_new : pte2pa (load64 m' (x + 8 * i)) ≡ z
  to_new = rw entry (pte2pa_table z page.0 (omega (arith, page.2)))

  z-level : (grown g x l i z).level z ≡ suc l
  z-level = ground arith

  z-prefix : (grown g x l i z).prefix z ≡ g.prefix x * 512 + i
  z-prefix = ground arith

  new-below :
      (y k j : ℕ)
      → (grown g x l i z).level y ≡ suc (suc k)
      → j < 512
      → is_valid (load64 m' (y + 8 * j)) ≡ true
      → ((grown g x l i z).level (pte2pa (load64 m' (y + 8 * j))) ≡ suc k)
        × ((grown g x l i z).prefix (pte2pa (load64 m' (y + 8 * j)))
            ≡ (grown g x l i z).prefix y * 512 + j)
  new-below y k j ylv jl v = elim (Bool-cases (y == z)) [
    | inl e ↦
        let same : y ≡ z = (==_iff y z).0 e in
        absurd (ground (arith, ap (λ q. is_valid (load64 m' (q + 8 * j))) same, blank j jl, v))
    | inr e ↦
        let was : g.level y ≡ suc (suc k) = let ne : (y == z) ≡ false = e in ground (arith, ylv) in
        let some_level : g.level y ≢ 0 = λ q. omega (arith, q, was) in
        elim (Bool-cases (x == y && i == j)) [
          | inl here ↦
              let yx : x ≡ y = ground arith in
              let ji : i ≡ j = ground arith in
              subst
                (λ q.
                  ((grown g x l i z).level (pte2pa (load64 m' (q + 8 * j))) ≡ suc k)
                  × ((grown g x l i z).prefix (pte2pa (load64 m' (q + 8 * j)))
                      ≡ (grown g x l i z).prefix q * 512 + j))
                yx
                (subst
                  (λ q.
                    ((grown g x l i z).level (pte2pa (load64 m' (x + 8 * q))) ≡ suc k)
                    × ((grown g x l i z).prefix (pte2pa (load64 m' (x + 8 * q)))
                        ≡ (grown g x l i z).prefix x * 512 + q))
                  ji
                  (
                    ap (λ (q : ℕ). (grown g x l i z).level q) to_new
                        ∙ z-level
                        ∙ omega (arith, lv, was, ap g.level yx),
                    ap (λ (q : ℕ). (grown g x l i z).prefix q) to_new
                        ∙ z-prefix
                        ∙ ap (λ p. p * 512 + i) (sym (old-prefix x (λ q. omega (arith, q, lv)))),
                  ))
          | inr other ↦
              let same = kept y j some_level jl (ground arith) in
              let b = tree.below y k j was jl (ap is_valid (sym same) ∙ v) in
              let child : g.level (pte2pa (load64 m (y + 8 * j))) ≢ 0 =
                λ q. omega (arith, q, b.0) in
              rw same (
                old-level _ child ∙ b.0,
                old-prefix _ child ∙ b.1 ∙ ap (λ p. p * 512 + j) (sym (old-prefix y some_level)),
              )
        ]
  ]

  pub grown-Tree : Tree end root (grown g x l i z) m'
  grown-Tree = record {
    top = (
      old-level root (λ q. omega (arith, q, tree.top.0)) ∙ tree.top.0,
      old-prefix root (λ q. omega (arith, q, tree.top.0)) ∙ tree.top.1,
    );
    height = λ y. elim (Bool-cases (y == z)) [
      | inl e ↦ rw e (omega (arith, lv, tree.height x))
      | inr e ↦ rw e (tree.height y)
    ];
    pages = λ y h. elim (Bool-cases (y == z)) [
      | inl e ↦ subst (IsPage end) (sym ((==_iff y z).0 e)) page
      | inr e ↦ tree.pages y (ground (arith, h))
    ];
    below = new-below;
  }

  blank-value : (va level : ℕ) → value m' va level z ≡ 0
  unfolding value find
  blank-value va zero = rw (blank (px 0 va) (px-bound 0 va)) (ground arith)
  blank-value va (suc k) = rw (blank (px (suc k) va) (px-bound (suc k) va)) refl

  -- no PTE of any address has changed
  pub grown-value : (va level y : ℕ) → On g y level va → value m' va level y ≡ value m va level y
  unfolding value find
  grown-value va zero y on =
      ap {A = ℕ} (λ w. if y + 8 * px 0 va == 0 then 0 else w)
        (kept y (px 0 va) (λ q. omega (arith, q, on.0)) (px-bound 0 va)
          (inl (λ e. omega (arith, ap g.level e, lv, on.0))))
  grown-value va (suc k) y on = elim (Bool-cases (x == y && i == px (suc k) va)) [
    | inl here ↦
        let yx : x ≡ y = ground arith in
        let ji : i ≡ px (suc k) va = ground arith in
        let before : is_valid (load64 m (y + 8 * px (suc k) va)) ≡ false =
          subst (λ q. is_valid (load64 m (q + 8 * px (suc k) va)) ≡ false) yx
            (subst (λ q. is_valid (load64 m (x + 8 * q)) ≡ false) ji off) in
        let after : load64 m' (y + 8 * px (suc k) va) ≡ pa2pte z + 1 =
          subst (λ q. load64 m' (q + 8 * px (suc k) va) ≡ pa2pte z + 1) yx
            (subst (λ q. load64 m' (x + 8 * q) ≡ pa2pte z + 1) ji entry) in
        let valid : is_valid (pa2pte z + 1) ≡ true = ground arith in
        rw (before, after, valid, pte2pa_table z page.0 (omega (arith, page.2))) (blank-value va k)
    | inr other ↦
        let same =
          kept y (px (suc k) va) (λ q. omega (arith, q, on.0)) (px-bound (suc k) va)
            (ground arith) in
        rw same (elim (Bool-cases (is_valid (load64 m (y + 8 * px (suc k) va)))) [
          | inl v ↦ rw v (
              grown-value va k (pte2pa (load64 m (y + 8 * px (suc k) va)))
                (On-below y k va tree on v))
          | inr v ↦ rw v refl
        ])
  ]

-- what walk() writes for a new table
module _ {end root : ℕ} {g : Labels} (m m1 : Memory) (tree : Tree end root g m) (x l i z : ℕ)
    (lv : g.level x ≡ suc (suc l)) (il : i < 512) (page : IsPage end z) (new : g.level z ≡ 0)
    (same : SameOutside z m m1) where
  abbrev pub linked : Memory
  linked = store64 (x + 8 * i) (pa2pte z + 1) (memset z 0 pgsize m1)

  x-IsPage : IsPage end x
  x-IsPage = tree.pages x (λ q. omega (arith, q, lv))

  other_page : (y : ℕ) → g.level y ≢ 0 → y ≢ z
  other_page y h e = h (ap g.level e ∙ new)

  pub linked-outside :
      (a : ℕ) → (a < z) ⊎ (z + pgsize ≤ a) → (a < x + 8 * i) ⊎ (x + 8 * i + 8 ≤ a) → linked a ≡ m a
  linked-outside a out out' =
      store64-out (x + 8 * i) (pa2pte z + 1) (memset z 0 pgsize m1) a out'
      ∙ memset-SameOutside z 0 m1 a out
      ∙ same a out

  pub linked-entry : load64 linked (x + 8 * i) ≡ pa2pte z + 1
  linked-entry =
      load64-store64_self (x + 8 * i) (pa2pte z + 1) (memset z 0 pgsize m1) (omega (arith, page.2))

  pub linked-kept :
      (y j : ℕ)
      → g.level y ≢ 0
      → j < 512
      → (x ≢ y) ⊎ (i ≢ j)
      → load64 linked (y + 8 * j) ≡ load64 m (y + 8 * j)
  linked-kept y j ly jl ne =
      let apart = slots_apart x y i j tree (λ q. omega (arith, q, lv)) ly il jl ne in
      let yp = tree.pages y ly in
      let yz = other_page y ly in
      load64-ext m linked (y + 8 * j)
        (λ a lo hi. linked-outside a (ground (arith, yp.0, page.0, yz)) (ground (arith, apart)))

  pub linked-blank : (j : ℕ) → j < 512 → load64 linked (z + 8 * j) ≡ 0
  linked-blank j jl =
      let xz = other_page x (λ q. omega (arith, q, lv)) in
      load64-ext (λ _. 0) linked (z + 8 * j)
        (λ a lo hi.
          store64-out (x + 8 * i) (pa2pte z + 1) (memset z 0 pgsize m1) a
            (ground (arith, x-IsPage.0, page.0, xz))
          ∙ memset-filled z 0 pgsize m1 a
          ∙ ground arith)
      ∙ load64-zero (z + 8 * j)
