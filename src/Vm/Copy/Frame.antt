-- ===== src/Vm/Copy/Frame.antt =====
-- Writes outside the tables and what a process reads through them.
use os.Prelude.{
  ℕ, ◌+◌, ◌*◌, ◌%◌, ◌<◌, ◌≤◌, ◌≡◌, ◌≢◌, ◌⊎◌, inl, inr, refl, sym, ap, ◌∙◌, true, ◌&&◌, ◌==◌, ltb,
  leb, if◌then◌else◌, arith, Bool-cases,
}
use os.Kernel.{ok}
use os.Str.{Memory}
use os.Kalloc.{Kmem, load64, pgrounddown}
use os.Kalloc.Words.{load64-ext}
use os.Vm.{maxva, px, walkaddr}
use os.Vm.Ptes.{px-bound}
use os.Vm.Walk.{value, find-page, user_page, walkaddr-value}
use os.Vm.Tree.{Labels, Tree, On-root, SameAbove, find-SameAbove, find-On}
use os.Vm.Space.{page_of}

-- the page of a virtual address, or 0
abbrev pub translate : Memory → ℕ → ℕ → ℕ
translate m root va = if leb maxva va then 0 else user_page (value m va 2 root)

high_address : (root va : ℕ) (s : Kmem) → leb maxva va ≡ true → walkaddr root va s ≡ ok (0, s)
unfolding walkaddr
high_address root va s e = rw e refl

pub walkaddr-translate :
    (root va : ℕ) (s : Kmem) → walkaddr root va s ≡ ok (translate s.mem root va, s)
walkaddr-translate root va s = elim (Bool-cases (leb maxva va)) [
  | inl e ↦ high_address root va s e ∙ rw e refl
  | inr e ↦
      let is : translate s.mem root va ≡ user_page (value s.mem va 2 root) = rw e refl in
      walkaddr-value root va s (ground arith) ∙ ap {A = ℕ} (λ w. ok (w, s)) (sym is)
]

-- the addresses from `d` up to `d + n` are in no table
abbrev pub Clear : Labels → ℕ → ℕ → Type 0
Clear g d n = (a : ℕ) → d ≤ a → a < d + n → g.level (page_of a) ≡ 0

-- `m'` differs from `m` at most there
abbrev pub SameBut : ℕ → ℕ → Memory → Memory → Type 0
SameBut d n m m' = (a : ℕ) → (a < d) ⊎ (d + n ≤ a) → m' a ≡ m a

module _ {end root : ℕ} {g : Labels} {m m' : Memory} (tree : Tree end root g m) (d n : ℕ)
    (clear : Clear g d n) (same : SameBut d n m m') where
  entry-same : (x i : ℕ) → g.level x ≢ 0 → i < 512 → load64 m' (x + 8 * i) ≡ load64 m (x + 8 * i)
  entry-same x i lx il =
      let al = (tree.pages x lx).0 in
      load64-ext m m' (x + 8 * i) (λ a lo hi. same a (elim (Bool-cases (leb d a && ltb a (d + n))) [
        | inl e ↦
            let at : page_of a ≡ x = omega (arith, al, lo, hi, il) in
            absurd (lx (ap g.level (sym at) ∙ clear a (ground arith) (ground arith)))
        | inr e ↦ ground arith
      ]))

  above-same : SameAbove g m m'
  above-same x l i lv il = entry-same x i (λ z. omega (arith, z, lv)) il

  pub value-same : (va : ℕ) → va < maxva → value m' va 2 root ≡ value m va 2 root
  unfolding value
  value-same va lt =
      rw (find-SameAbove m m' va 2 root tree above-same (On-root va tree lt))
        (elim (find-On va 2 root tree (On-root va tree lt)) [
          | inl z ↦ rw z refl
          | inr (y, on, at) ↦ rw at (
              ap {A = ℕ} (λ w. if y + 8 * px 0 va == 0 then 0 else w)
                (entry-same y (px 0 va) (λ z. omega (arith, z, on.0)) (px-bound 0 va)))
        ])

  pub translate-same : (va : ℕ) → translate m' root va ≡ translate m root va
  translate-same va = elim (Bool-cases (leb maxva va)) [
    | inl e ↦ rw e refl
    | inr e ↦ rw e (ap user_page (value-same va (ground arith)))
  ]

-- an address is translated by its page
pub translate-page :
    (m : Memory) (root va : ℕ) → translate m root (pgrounddown va) ≡ translate m root va
unfolding value
translate-page m root va =
    let below : leb maxva (pgrounddown va) ≡ leb maxva va = ground arith in
    rw (below, find-page m va (pgrounddown va) 2 root (omega arith) (omega arith)) refl

-- the byte that a process sees at a mapped address
abbrev pub user_byte : Memory → ℕ → ℕ → ℕ
user_byte m root va = m (translate m root va + va % 4096)
