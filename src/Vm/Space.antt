-- ===== src/Vm/Space.antt =====
-- Page tables beside the free pages: walk() with allocation, and mappages().
pub mod Map
pub mod Maps
use os.Prelude.{
  ℕ, zero, suc, ◌+◌, ◌-◌, ◌*◌, ◌/◌, ◌%◌, ◌^◌, ◌<◌, ◌≤◌, ◌≡◌, ◌≢◌, ◌⊎◌, inl, inr, refl, sym, ap, ◌∙◌,
  Bool, true, false, not, ◌&&◌, ◌||◌, List, [], ◌∷◌, ◌==◌, ltb, leb, if◌then◌else◌, update, arith,
  Bool-cases, ==_iff,
}
use mathlib.Core.Path.{subst}
use os.Kernel.{ok}
use os.Kernel.Runs.{Runs, returns, Runs-bind, Runs-mono}
use os.Str.{Memory, memset}
use os.Kalloc.{Kmem, kalloc, load64, store64, pgsize}
use os.Kalloc.Chain.{NotIn, IsPage, SameOutside, Chain-frame, Chain-unique}
use os.Kalloc.Words.{store64-out}
use os.Kalloc.Calls.{memset-SameOutside, Free, Allocated, no_memory, page, kalloc-Allocated}
use os.Vm.{maxva, px, pa2pte, pte2pa, is_valid, walk_levels, walk}
use os.Vm.Ptes.{above, above-px, px-bound}
use os.Vm.Walk.{find, value}
use os.Vm.Tree.{Labels, Tree, On, On-root, On-below}
use os.Vm.Tree.Grow.{
  grown, grown-Tree, grown-value, linked, linked-entry, linked-kept, linked-blank, linked-outside,
  pte2pa_table,
}

-- a page table and the free pages, which are none of its pages
pub record Space (end root : ℕ) (g : Labels) (xs : List ℕ) (s : Kmem) : Type 0 where
  pub tree : Tree end root g s.mem
  pub free : Free end s xs
  pub apart : (x : ℕ) → g.level x ≢ 0 → NotIn x xs

-- the page that an address lies in
abbrev pub page_of : ℕ → ℕ
page_of a = a / 4096 * 4096

-- The tables have grown, perhaps, and no PTE of any address and no other page has changed.
pub record Grows (end root : ℕ) (g : Labels) (s : Kmem) (g2 : Labels) (xs2 : List ℕ) (t : Kmem)
    : Type 0 where
  pub space : Space end root g2 xs2 t
  pub labels : (y : ℕ) → g.level y ≢ 0 → (g2.level y ≡ g.level y) × (g2.prefix y ≡ g.prefix y)
  pub values : (va : ℕ) → va < maxva → value t.mem va 2 root ≡ value s.mem va 2 root
  pub entries :
      (y k j : ℕ)
      → g.level y ≡ suc (suc k)
      → j < 512
      → is_valid (load64 s.mem (y + 8 * j)) ≡ true
      → load64 t.mem (y + 8 * j) ≡ load64 s.mem (y + 8 * j)
  pub others : (a : ℕ) → g2.level (page_of a) ≡ 0 → t.mem a ≡ s.mem a
  -- a new table was a free page
  pub taken :
      (ys : List ℕ)
      → Free end s ys
      → (y : ℕ) → NotIn y ys
      → NotIn y xs2 × (g.level y ≡ 0 → g2.level y ≡ 0)

pub Grows-refl :
    {end root : ℕ} {g : Labels} {xs : List ℕ} {s : Kmem}
    → Space end root g xs s
    → Grows end root g s g xs s
Grows-refl sp = record {
  space = sp;
  labels = λ y h. (refl, refl);
  values = λ va lt. refl;
  entries = λ y k j lv jl v. refl;
  others = λ a h. refl;
  taken = λ ys free y out. (subst (NotIn y) (Chain-unique free sp.free) out, λ z. z);
}

pub Grows-trans :
    {end root : ℕ} {g g1 g2 : Labels} {xs1 xs2 : List ℕ} {s t u : Kmem}
    → Grows end root g s g1 xs1 t
    → Grows end root g1 t g2 xs2 u
    → Grows end root g s g2 xs2 u
Grows-trans {g = g} {g1 = g1} {g2 = g2} {s = s} {t = t} {u = u} p q = record {
  space = q.space;
  labels = λ y h.
      let a = p.labels y h in let b = q.labels y (λ z. h (sym a.0 ∙ z)) in (b.0 ∙ a.0, b.1 ∙ a.1);
  values = λ va lt. q.values va lt ∙ p.values va lt;
  entries = λ y k j lv jl v.
      let e = p.entries y k j lv jl v in
      q.entries y k j ((p.labels y (λ z. omega (arith, z, lv))).0 ∙ lv) jl (ap is_valid e ∙ v) ∙ e;
  others = λ a h.
      q.others a h
      ∙ p.others a (elim (Bool-cases (g1.level (page_of a) == 0)) [
        | inl z ↦ (==_iff _ 0).0 z
        | inr nz ↦
            let keep = (q.labels (page_of a) (ground arith)).0 in absurd (ground (arith, keep))
      ]);
  taken = λ ys free y out.
      let a = p.taken ys free y out in
      let b = q.taken _ p.space.free y a.0 in (b.0, λ z. b.1 (a.1 z));
}

-- a table is added
module _ {end root : ℕ} {g : Labels} {xs : List ℕ} {s t : Kmem} {z : ℕ}
    (sp : Space end root g (z ∷ xs) s) (x l i : ℕ) (lv : g.level x ≡ suc (suc l)) (il : i < 512)
    (off : is_valid (load64 s.mem (x + 8 * i)) ≡ false) (pg : IsPage end z) (once : NotIn z xs)
    (free : Free end t xs) (same : SameOutside z s.mem t.mem) where
  new : g.level z ≡ 0
  new = elim (Bool-cases (g.level z == 0)) [
    | inl e ↦ (==_iff _ 0).0 e
    | inr e ↦ absurd ((sp.apart z (ground arith)).0 refl)
  ]

  m' : Memory
  m' = linked s.mem t.mem sp.tree x l i z lv il pg new same

  Free-after : Free end (record t { mem = m' }) xs
  unfolding m'
  Free-after =
      Chain-frame x (Chain-frame z free pg.0 once (memset-SameOutside z 0 t.mem))
        (sp.tree.pages x some_level).0 (sp.apart x some_level).1
        (λ a out.
          store64-out (x + 8 * i) (pa2pte z + 1) (memset z 0 pgsize t.mem) a (ground (arith, out)))
    where
      some_level : g.level x ≢ 0
      some_level q = omega (arith, q, lv)

  apart-after : (y : ℕ) → (grown g x l i z).level y ≢ 0 → NotIn y xs
  apart-after y h = elim (Bool-cases (y == z)) [
    | inl e ↦ subst (λ q. NotIn q xs) (sym ((==_iff y z).0 e)) once
    | inr e ↦ (sp.apart y (ground (arith, h))).1
  ]

  entry : load64 m' (x + 8 * i) ≡ pa2pte z + 1
  unfolding m'
  entry = linked-entry s.mem t.mem sp.tree x l i z lv il pg new same

  added-Grows : Grows end root g s (grown g x l i z) xs (record t { mem = m' })
  unfolding m'
  added-Grows = record {
    space = record {
      tree = grown-Tree s.mem m' sp.tree x l i z lv il off pg new entry kept blank;
      free = Free-after;
      apart = apart-after;
    };
    labels = λ y h.
        let ne : (y == z) ≡ false = ground (arith, ap g.level {x = y} {y = z}, new, h) in
        rw ne (refl, refl);
    values = λ va lt.
        grown-value s.mem m' sp.tree x l i z lv il off pg new entry kept blank va 2 root
          (On-root va sp.tree lt);
    entries = λ y k j ylv jl v.
        kept y j (λ q. omega (arith, q, ylv)) jl
          (elim (Bool-cases (x == y && i == j)) [
            | inl e ↦
                let xy : x ≡ y = ground arith in
                let ij : i ≡ j = ground arith in
                absurd (
                  ground (
                    arith,
                    v,
                    subst (λ q. is_valid (load64 s.mem (q + 8 * j)) ≡ false) xy
                        (subst (λ q. is_valid (load64 s.mem (x + 8 * q)) ≡ false) ij off),
                  ))
            | inr e ↦ ground arith
          ]);
    others = λ a h.
        let away : page_of a ≢ z =
          λ e. ground (arith, h, ap {A = ℕ} (λ q. (grown g x l i z).level q) e) in
        let away_x : page_of a ≢ x =
          λ e. ground (arith, h, ap {A = ℕ} (λ q. (grown g x l i z).level q) e, lv) in
        let al = (sp.tree.pages x (λ q. omega (arith, q, lv))).0 in
        linked-outside s.mem t.mem sp.tree x l i z lv il pg new same a (ground (arith, away, pg.0))
          (ground (arith, away_x, al, il));
    taken = λ ys f y out.
        let o : NotIn y (z ∷ xs) = subst (NotIn y) (Chain-unique f sp.free) out in
        let ne : (y == z) ≡ false = ground (arith, o.0) in (o.1, λ h. rw ne h);
  }
    where
      kept :
          (y j : ℕ)
          → g.level y ≢ 0
          → j < 512
          → (x ≢ y) ⊎ (i ≢ j)
          → load64 m' (y + 8 * j) ≡ load64 s.mem (y + 8 * j)
      kept y j h jl ne = linked-kept s.mem t.mem sp.tree x l i z lv il pg new same y j h jl ne

      blank : (j : ℕ) → j < 512 → load64 m' (z + 8 * j) ≡ 0
      blank j jl = linked-blank s.mem t.mem sp.tree x l i z lv il pg new same j jl

  -- what is left of the new entry when the tables have grown further
  entry-kept :
      {g2 : Labels} {xs2 : List ℕ} {u : Kmem}
      → Grows end root (grown g x l i z) (record t { mem = m' }) g2 xs2 u
      → (is_valid (load64 u.mem (x + 8 * i)) ≡ true) × (pte2pa (load64 u.mem (x + 8 * i)) ≡ z)
  entry-kept gr =
      let ne : (x == z) ≡ false = ground (arith, ap g.level {x = x} {y = z}, new, lv) in
      let label : (grown g x l i z).level x ≡ suc (suc l) = rw ne lv in
      let valid : is_valid (pa2pte z + 1) ≡ true = ground arith in
      let e = gr.entries x l i label il (ap is_valid entry ∙ valid) ∙ entry in
      (ap is_valid e ∙ valid, ap pte2pa e ∙ pte2pa_table z pg.0 (omega (arith, pg.2)))

  added-On : (va : ℕ) → On g x (suc l) va → i ≡ px (suc l) va → On (grown g x l i z) z l va
  added-On va on at = (
    ground arith,
    let here : (z == z) ≡ true = ground arith in
        rw here (
          ap {A = ℕ} (λ p. p * 512 + i) on.1
          ∙ ap {A = ℕ} (λ j. above (suc l) va * 512 + j) at
          ∙ sym (above-px l va (omega (arith, lv, sp.tree.height x)))),
  )

-- what walk() leaves with allocation: a place in a table of the last level, or no memory
pub record Walked (end root : ℕ) (g : Labels) (s : Kmem) (va level x r : ℕ) (t : Kmem)
    : Type 0 where
  pub labels : Labels
  pub rest : List ℕ
  pub grows : Grows end root g s labels rest t
  pub found :
      ((r ≡ 0) × (rest ≡ []))
      ⊎ ((y : ℕ) × On labels y 0 va × (r ≡ y + 8 * px 0 va) × (find t.mem va level x ≡ r))

Walked-later :
    {end root : ℕ} {g g1 : Labels} {xs1 : List ℕ} {s t u : Kmem} {va level x w y r : ℕ}
    → Grows end root g s g1 xs1 t
    → Walked end root g1 t va level y r u
    → ((v : Labels) (rest : List ℕ)
        → Grows end root g1 t v rest u
        → find u.mem va w x ≡ find u.mem va level y)
    → Walked end root g s va w x r u
Walked-later p q same = record {
  labels = q.labels;
  rest = q.rest;
  grows = Grows-trans p q.grows;
  found = elim q.found [
    | inl e ↦ inl e
    | inr (y, on, is, at) ↦ inr (y, on, is, same q.labels q.rest q.grows ∙ at)
  ];
}

-- from a table on the way, with a valid entry in it that the rest of the walk keeps
find-next :
    (m : Memory) (va l x y : ℕ)
    → is_valid (load64 m (x + 8 * px (suc l) va)) ≡ true
    → pte2pa (load64 m (x + 8 * px (suc l) va)) ≡ y
    → find m va (suc l) x ≡ find m va l y
unfolding find
find-next m va l x y v e = rw v (ap (find m va l) e)

find_here : (m : Memory) (va x : ℕ) → find m va 0 x ≡ x + 8 * px 0 va
unfolding find
find_here m va x = refl

-- a new table, and then the rest of the walk
new_table-Walked :
    (end root va l x : ℕ) (g : Labels) (s : Kmem) (z : ℕ) (t : Kmem) (xs ys : List ℕ)
    → Space end root g xs s
    → On g x (suc l) va
    → is_valid (load64 s.mem (x + 8 * px (suc l) va)) ≡ false
    → Allocated end s ys z t
    → ys ≡ xs
    → ((g1 : Labels) (zs : List ℕ) (s1 : Kmem)
        → Space end root g1 zs s1
        → On g1 z l va
        → Runs (Walked end root g1 s1 va l z) (λ d. ⊥) (walk_levels true va l z s1))
    → Runs
        (Walked end root g s va (suc l) x)
        (λ d. ⊥)
        (if z == 0
          then ok (0, t)
          else walk_levels true va l z (record t {
            mem = store64 (x + 8 * px (suc l) va) (pa2pte z + 1) (memset z 0 pgsize t.mem);
          }))
unfolding m'
new_table-Walked end root va l x g s z t xs ys sp on v no_memory e further =
    returns (record { labels = g; rest = xs; grows = Grows-refl sp; found = inl (refl, sym e) })
new_table-Walked end root va l x g s z t xs ys sp on v (page {rest = zs} pg once free filled same) e
      further =
    let i = px (suc l) va in
    let il = px-bound (suc l) va in
    let sp' = subst (λ q. Space end root g q s) (sym e) sp in
    let gr = added-Grows sp' x l i on.0 il v pg once free same in
    let busy : (z == 0) ≡ false = ground (arith, pg.3) in
    let on1 = added-On sp' x l i on.0 il v pg once free same va on refl in
    rw busy (
      Runs-mono (further (grown g x l i z) zs _ gr.space on1)
        (λ r u q. Walked-later gr q (λ w rest gr2.
          let k = entry-kept sp' x l i on.0 il v pg once free same gr2 in
          find-next u.mem va l x z k.0 k.1))
        (λ d q. q))

walk_levels-Walked :
    (end root va l x : ℕ) (g : Labels) (xs : List ℕ) (s : Kmem)
    → Space end root g xs s
    → On g x l va
    → Runs (Walked end root g s va l x) (λ d. ⊥) (walk_levels true va l x s)
unfolding walk_levels
walk_levels-Walked end root va zero x g xs s sp on = returns (record {
  labels = g;
  rest = xs;
  grows = Grows-refl sp;
  found = inr (x, on, refl, find_here s.mem va x);
})
walk_levels-Walked end root va (suc l) x g xs s sp on =
    let i = px (suc l) va in
    elim (Bool-cases (is_valid (load64 s.mem (x + 8 * i)))) [
      | inl v ↦ rw v (
          Runs-mono
            (walk_levels-Walked end root va l (pte2pa (load64 s.mem (x + 8 * i))) g xs s sp
              (On-below x l va sp.tree on v))
            (λ r u q. Walked-later (Grows-refl sp) q (λ w rest gr.
              let e = gr.entries x l i on.0 (px-bound (suc l) va) v in
              find-next u.mem va l x _ (ap is_valid e ∙ v) (ap pte2pa e)))
            (λ d q. q))
      | inr v ↦ rw v (
          Runs-bind (kalloc-Allocated end s xs sp.free) (λ z t a.
            new_table-Walked end root va l x g s z t xs xs sp on v a refl
              (λ g1 zs s1 sp1 on1. walk_levels-Walked end root va l z g1 zs s1 sp1 on1)))
    ]

-- walk() with allocation
pub walk-Walked :
    (end root va : ℕ) (g : Labels) (xs : List ℕ) (s : Kmem)
    → Space end root g xs s
    → va < maxva
    → Runs (Walked end root g s va 2 root) (λ d. ⊥) (walk root va true s)
unfolding walk
walk-Walked end root va g xs s sp lt =
    let e : leb maxva va ≡ false = ground (arith, lt) in
    rw e (walk_levels-Walked end root va 2 root g xs s sp (On-root va sp.tree lt))
