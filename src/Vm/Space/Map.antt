-- ===== src/Vm/Space/Map.antt =====
-- mappages(): the PTEs that it sets.
use os.Prelude.{
  ℕ, zero, suc, ◌+◌, ◌-◌, ◌*◌, ◌/◌, ◌%◌, ◌^◌, ◌<◌, ◌≤◌, ◌≡◌, ◌≢◌, ◌⊎◌, inl, inr, refl, sym, ap, ◌∙◌,
  Bool, true, false, ◌&&◌, List, [], ◌==◌, ltb, leb, if◌then◌else◌, arith, Bool-cases, ==_iff, u64,
}
use mathlib.Core.Path.{subst}
use os.Kernel.{ok}
use os.Kernel.Runs.{Runs, returns, Runs-bind, Runs-mono}
use os.Kalloc.{Kmem, pgsize}
use os.Kalloc.Chain.{NotIn, Chain-frame}
use os.Kalloc.Calls.{Free}
use os.Kalloc.Words.{store64-out}
use os.Vm.{maxva, px, is_valid, is_user, make_pte, get_pte, set_pte, walkaddr, map_loop, mappages}
use os.Vm.Ptes.{px-bound, make_pte-bound, make_pte-is_valid, is_user-make_pte, pte2pa-make_pte}
use os.Vm.Walk.{find, value, user_page, walkaddr-value}
use os.Vm.Tree.{Labels, On, leaf_store-Tree, leaf_store-value}
use os.Vm.Space.{Space, Grows, walk-Walked, page_of}

-- What a call leaves that sets `k` PTEs from `a` on to successive pages from `pa` on.
pub record Mapped (end root : ℕ) (g : Labels) (s : Kmem) (a pa perm n : ℕ) (fine : Bool) (t : Kmem)
    : Type 0 where
  pub labels : Labels
  pub rest : List ℕ
  pub k : ℕ
  pub le : k ≤ n
  pub result : ((fine ≡ true) × (k ≡ n)) ⊎ ((fine ≡ false) × (rest ≡ []))
  pub space : Space end root labels rest t
  pub values :
      (va : ℕ)
      → va < maxva
      → value t.mem va 2 root ≡ (
          if leb a va && ltb va (a + k * 4096)
          then make_pte (pa + (page_of va - a)) perm
          else value s.mem va 2 root)
  pub same_labels : (y : ℕ) → g.level y ≢ 0 → labels.level y ≡ g.level y
  pub others : (x : ℕ) → labels.level (page_of x) ≡ 0 → t.mem x ≡ s.mem x
  pub taken :
      (ys : List ℕ) → Free end s ys → (y : ℕ) → NotIn y ys → g.level y ≡ 0 → labels.level y ≡ 0

-- the PTE at the place that walk() has found
module _ {end root : ℕ} {g : Labels} {xs : List ℕ} {s : Kmem} (sp : Space end root g xs s)
    (va y : ℕ) (on : On g y 0 va) (at : find s.mem va 2 root ≡ y + 8 * px 0 va) where
  some_level : g.level y ≢ 0
  some_level q = omega (arith, q, on.0)

  place-pos : (y + 8 * px 0 va == 0) ≡ false
  place-pos = let p = (sp.tree.pages y some_level).3 in ground (arith, p)

  place-value : get_pte (y + 8 * px 0 va) s ≡ value s.mem va 2 root
  unfolding value
  place-value = rw (at, place-pos) refl

  set_pte-Space : (v : ℕ) → Space end root g xs (set_pte (y + 8 * px 0 va) v s)
  set_pte-Space v = record {
    tree = leaf_store-Tree sp.tree va y v on;
    free =
        Chain-frame y sp.free (sp.tree.pages y some_level).0 (sp.apart y some_level)
          (λ a out. store64-out (y + 8 * px 0 va) v s.mem a (ground (arith, out, px-bound 0 va)));
    apart = sp.apart;
  }

  set_pte-others :
      (v x : ℕ) → g.level (page_of x) ≡ 0 → (set_pte (y + 8 * px 0 va) v s).mem x ≡ s.mem x
  set_pte-others v x h =
      let away : page_of x ≢ y = λ e. some_level (ap g.level (sym e) ∙ h) in
      let al = (sp.tree.pages y some_level).0 in
      store64-out (y + 8 * px 0 va) v s.mem x (ground (arith, away, al, px-bound 0 va))

-- one page and the others
join :
    (a k va pa x : ℕ) (f : ℕ → ℕ)
    → a % 4096 ≡ 0
    → (if leb (a + 4096) va && ltb va (a + 4096 + k * 4096)
        then f (pa + 4096 + (page_of va - (a + 4096)))
        else (if va / 4096 == a / 4096 then f pa else x))
      ≡ (if leb a va && ltb va (a + suc k * 4096) then f (pa + (page_of va - a)) else x)
join a k va pa x f al = elim (Bool-cases (leb (a + 4096) va && ltb va (a + 4096 + k * 4096))) [
  | inl e ↦
      let in_range : (leb a va && ltb va (a + suc k * 4096)) ≡ true = ground arith in
      let arg : pa + 4096 + (page_of va - (a + 4096)) ≡ pa + (page_of va - a) = ground arith in
      rw (e, in_range, arg) refl
  | inr e ↦ rw e (elim (Bool-cases (va / 4096 == a / 4096)) [
    | inl h ↦
        let in_range : (leb a va && ltb va (a + suc k * 4096)) ≡ true = ground arith in
        let arg : pa + (page_of va - a) ≡ pa = ground arith in rw (h, in_range, arg) refl
    | inr h ↦
        let out : (leb a va && ltb va (a + suc k * 4096)) ≡ false = ground arith in rw (h, out) refl
  ])
]

none_in : (a va v w : ℕ) → w ≡ (if leb a va && ltb va (a + 0 * 4096) then v else w)
none_in a va v w = ground arith

end-Mapped :
    {end root : ℕ} {g : Labels} {xs : List ℕ} {s : Kmem} (a pa perm : ℕ)
    → Space end root g xs s
    → Mapped end root g s a pa perm 0 true s
end-Mapped {root = root} {g = g} {xs = xs} {s = s} a pa perm sp = record {
  labels = g;
  rest = xs;
  k = 0;
  le = omega arith;
  result = inl (refl, refl);
  space = sp;
  values = λ va lt. none_in a va (make_pte (pa + (page_of va - a)) perm) (value s.mem va 2 root);
  same_labels = λ y h. refl;
  others = λ x h. refl;
  taken = λ ys f y out z. z;
}

none-Mapped :
    {end root : ℕ} {g : Labels} {s t : Kmem} {a pa perm n : ℕ} {labels : Labels} {rest : List ℕ}
    → Grows end root g s labels rest t
    → rest ≡ []
    → Mapped end root g s a pa perm n false t
none-Mapped {root = root} {s = s} {a = a} {pa = pa} {perm = perm} {labels = labels} {rest = rest} gr
      e =
    record {
      labels = labels;
      rest = rest;
      k = 0;
      le = omega arith;
      result = inr (refl, e);
      space = gr.space;
      values = λ va lt.
          gr.values va lt
          ∙ none_in a va (make_pte (pa + (page_of va - a)) perm) (value s.mem va 2 root);
      same_labels = λ y h. (gr.labels y h).0;
      others = gr.others;
      taken = λ ys f y out. (gr.taken ys f y out).1;
    }

-- the rest of the pages after one
module _ {end root : ℕ} {g : Labels} {s t : Kmem} {labels : Labels} {rest : List ℕ}
    (gr : Grows end root g s labels rest t) (a pa perm y : ℕ) (on : On labels y 0 a)
    (at : find t.mem a 2 root ≡ y + 8 * px 0 a) (al : a % 4096 ≡ 0) (small : a < maxva)
    (room : pa < 2 ^ 54) (flags : perm < 1024) where
  one : Kmem
  one = set_pte (y + 8 * px 0 a) (make_pte pa perm) t

  one-values :
      (va : ℕ)
      → va < maxva
      → value one.mem va 2 root
        ≡ (if va / 4096 == a / 4096 then make_pte pa perm else value s.mem va 2 root)
  unfolding one
  one-values va lt =
      leaf_store-value gr.space.tree a y (make_pte pa perm) on va small lt
        (make_pte-bound pa perm room flags) at
      ∙ ap {A = ℕ} (λ w. if va / 4096 == a / 4096 then make_pte pa perm else w) (gr.values va lt)

  more-Mapped :
      (n : ℕ) (fine : Bool) (u : Kmem)
      → Mapped end root labels one (a + 4096) (pa + 4096) perm n fine u
      → Mapped end root g s a pa perm (suc n) fine u
  unfolding one
  more-Mapped n fine u q = record {
    labels = q.labels;
    rest = q.rest;
    k = suc q.k;
    le = omega (arith, q.le);
    result = elim q.result [ inl (f, e) ↦ inl (f, ap suc e) | inr e ↦ inr e ];
    space = q.space;
    values = λ va lt.
        q.values va lt
        ∙ ap {A = ℕ}
            (λ w.
              if leb (a + 4096) va && ltb va (a + 4096 + q.k * 4096)
              then make_pte (pa + 4096 + (page_of va - (a + 4096))) perm
              else w)
            (one-values va lt)
        ∙ join a q.k va pa (value s.mem va 2 root) (λ p. make_pte p perm) al;
    same_labels = λ z h. let e = (gr.labels z h).0 in q.same_labels z (λ w. h (sym e ∙ w)) ∙ e;
    others = λ x h. q.others x h ∙ before x (was x h);
    taken = λ ys f y out z. let b = gr.taken ys f y out in q.taken rest here.free y b.0 (b.1 z);
  }
    where
      here : Space end root labels rest (set_pte (y + 8 * px 0 a) (make_pte pa perm) t)
      here = set_pte-Space gr.space a y on at (make_pte pa perm)

      was : (x : ℕ) → q.labels.level (page_of x) ≡ 0 → labels.level (page_of x) ≡ 0
      was x h = elim (Bool-cases (labels.level (page_of x) == 0)) [
        | inl e ↦ (==_iff _ 0).0 e
        | inr e ↦ absurd (ground (arith, q.same_labels (page_of x) (ground arith)))
      ]

      before : (x : ℕ) → labels.level (page_of x) ≡ 0 → one.mem x ≡ s.mem x
      before x h = set_pte-others gr.space a y on at (make_pte pa perm) x h ∙ gr.others x h

  last-Mapped : Mapped end root g s a pa perm 1 true one
  unfolding one
  last-Mapped =
      more-Mapped 0 true one (
        end-Mapped (a + 4096) (pa + 4096) perm
          (set_pte-Space gr.space a y on at (make_pte pa perm)))

map_loop-Mapped :
    (end root last perm left a pa : ℕ) (g : Labels) (xs : List ℕ) (s : Kmem)
    → Space end root g xs s
    → 0 < left
    → a % 4096 ≡ 0
    → pa % 4096 ≡ 0
    → last + 4096 ≡ a + left * 4096
    → a + left * 4096 ≤ maxva
    → pa + left * 4096 ≤ 2 ^ 54
    → perm < 1024
    → ((va : ℕ) → a ≤ va → va < a + left * 4096 → is_valid (value s.mem va 2 root) ≡ false)
    → Runs (Mapped end root g s a pa perm left) (λ d. ⊥) (map_loop root last perm left a pa s)
unfolding map_loop one
map_loop-Mapped end root last perm zero a pa g xs s sp pos al pal is_last room proom flags empty =
    absurd (omega (arith, pos))
map_loop-Mapped end root last perm (suc left) a pa g xs s sp pos al pal is_last room proom flags
      empty =
    let lt : a < maxva = omega (arith, room) in
    let plt : pa < 2 ^ 54 = omega (arith, proom) in
    Runs-bind (walk-Walked end root a g xs s sp lt) λ r t w. elim w.found [
      | inl (z, none) ↦ rw z (returns (none-Mapped w.grows none))
      | inr (y, on, is, at) ↦
          let at' : find t.mem a 2 root ≡ y + 8 * px 0 a = at ∙ is in
          let some_place = place-pos w.grows.space a y on at' in
          let free : is_valid (get_pte (y + 8 * px 0 a) t) ≡ false =
            ap is_valid (place-value w.grows.space a y on at' ∙ w.grows.values a lt)
            ∙ empty a (omega arith) (omega arith) in
          rw (is, some_place, free)
            (elim (Bool-cases (a == last)) [
              | inl e ↦
                  let n : left ≡ 0 = ground (arith, is_last) in
                  rw e (
                    returns (
                      subst
                        (λ k.
                          Mapped end root g s a pa perm (suc k) true
                            (set_pte (y + 8 * px 0 a) (make_pte pa perm) t))
                        (sym n) (last-Mapped w.grows a pa perm y on at' al lt plt flags)))
              | inr e ↦
                  let na : u64 (a + pgsize) ≡ a + 4096 = omega (arith, room) in
                  let npa : u64 (pa + pgsize) ≡ pa + 4096 = omega (arith, proom) in
                  let values = one-values w.grows a pa perm y on at' al lt plt flags in
                  rw (e, na, npa)
                    (Runs-mono
                      (map_loop-Mapped end root last perm left (a + 4096) (pa + 4096) w.labels
                        w.rest (set_pte (y + 8 * px 0 a) (make_pte pa perm) t)
                        (set_pte-Space w.grows.space a y on at' (make_pte pa perm))
                        (ground (arith, is_last)) (omega (arith, al)) (omega (arith, pal))
                        (omega (arith, is_last)) (omega (arith, room)) (omega (arith, proom)) flags
                        (λ va ge vl.
                          let other : (va / 4096 == a / 4096) ≡ false = ground (arith, ge) in
                          ap is_valid (values va (omega (arith, vl, room)) ∙ rw other refl)
                          ∙ empty va (omega (arith, ge)) (omega (arith, vl))))
                      (λ fine u q.
                        more-Mapped w.grows a pa perm y on at' al lt plt flags left fine u q)
                      (λ d q. q))
            ])
    ]

-- Where the tables of a page table and the free pages are apart, and no page of an aligned range
-- below MAXVA is mapped, mappages() returns. It maps the pages of the range in order to successive
-- physical pages with the given flags: all of them, or the first ones, and then no page is free.
-- No other address is mapped differently, and no byte outside the tables has changed.
pub mappages-Mapped :
    (end root va n pa perm : ℕ) (g : Labels) (xs : List ℕ) (s : Kmem)
    → Space end root g xs s
    → 0 < n
    → va % pgsize ≡ 0
    → pa % pgsize ≡ 0
    → va + n * pgsize ≤ maxva
    → pa + n * pgsize ≤ 2 ^ 54
    → perm < 1024
    → ((a : ℕ) → va ≤ a → a < va + n * pgsize → is_valid (value s.mem a 2 root) ≡ false)
    → Runs (Mapped end root g s va pa perm n) (λ d. ⊥) (mappages root va (n * pgsize) pa perm s)
unfolding mappages
mappages-Mapped end root va n pa perm g xs s sp pos al pal room proom flags empty =
    let first : (va % pgsize == 0) ≡ true = ground (arith, al) in
    let second : (n * pgsize % pgsize == 0) ≡ true = ground arith in
    let third : (n * pgsize == 0) ≡ false = ground (arith, pos) in
    let rounds : n * pgsize / pgsize ≡ n = omega arith in
    rw (first, second, third, rounds)
      (map_loop-Mapped end root (u64 (va + n * pgsize + 2 ^ 64 - pgsize)) perm n va pa g xs s sp pos
        al pal (omega (arith, room, pos)) room proom flags empty)

-- what walkaddr() answers in a range that is mapped with PTE_U
walkaddr-Mapped :
    {end root : ℕ} {g : Labels} {s t : Kmem} {va pa perm n : ℕ}
    → (m : Mapped end root g s va pa perm n true t) → m.k ≡ n
    → va % pgsize ≡ 0
    → pa % pgsize ≡ 0
    → va + n * pgsize ≤ maxva
    → pa + n * pgsize ≤ 2 ^ 54
    → perm < 1024
    → is_user perm ≡ true
    → (a : ℕ) → va ≤ a
    → a < va + n * pgsize
    → walkaddr root a t ≡ ok (pa + (page_of a - va), t)
walkaddr-Mapped {root = root} {s = s} {t = t} {va = va} {pa = pa} {perm = perm} {n = n} m all al pal
      room proom flags user a ge lt =
    let p = pa + (page_of a - va) in
    let in_range : (leb va a && ltb a (va + m.k * 4096)) ≡ true = ground (arith, ge, lt, all) in
    let pte : value t.mem a 2 root ≡ make_pte p perm =
      m.values a (omega (arith, lt, room)) ∙ rw in_range refl in
    let pl : p < 2 ^ 54 = omega (arith, proom, ge, lt, al) in
    let u : is_user (make_pte p perm) ≡ true = is_user-make_pte p perm flags ∙ user in
    let valid = make_pte-is_valid p perm in
    let is : user_page (make_pte p perm) ≡ p =
      rw (valid, u) (pte2pa-make_pte p perm (omega (arith, pal, al)) pl flags) in
    walkaddr-value root a t (omega (arith, lt, room))
    ∙ ap {A = ℕ} (λ w. ok (w, t)) (ap user_page pte ∙ is)

-- Under the same conditions, where the flags have PTE_U, mappages() fails or walkaddr() of each
-- address of the range then gives the page of physical memory that it was mapped to.
pub mappages-walkaddr :
    (end root va n pa perm : ℕ) (g : Labels) (xs : List ℕ) (s : Kmem)
    → Space end root g xs s
    → 0 < n
    → va % pgsize ≡ 0
    → pa % pgsize ≡ 0
    → va + n * pgsize ≤ maxva
    → pa + n * pgsize ≤ 2 ^ 54
    → perm < 1024
    → is_user perm ≡ true
    → ((a : ℕ) → va ≤ a → a < va + n * pgsize → is_valid (value s.mem a 2 root) ≡ false)
    → Runs
        (λ fine t.
          (fine ≡ false)
          ⊎ ((a : ℕ)
              → va ≤ a
              → a < va + n * pgsize
              → walkaddr root a t ≡ ok (pa + (page_of a - va), t)))
        (λ d. ⊥)
        (mappages root va (n * pgsize) pa perm s)
mappages-walkaddr end root va n pa perm g xs s sp pos al pal room proom flags user empty =
    Runs-mono (mappages-Mapped end root va n pa perm g xs s sp pos al pal room proom flags empty)
      (λ fine t m. split fine t m) (λ d q. q)
  where
    split :
        (fine : Bool) (t : Kmem)
        → Mapped end root g s va pa perm n fine t
        → (fine ≡ false)
          ⊎ ((a : ℕ)
              → va ≤ a
              → a < va + n * pgsize
              → walkaddr root a t ≡ ok (pa + (page_of a - va), t))
    split false t m = inl refl
    split true t m = inr (elim m.result [
      | inl (_, all) ↦ walkaddr-Mapped m all al pal room proom flags user
      | inr (f, _) ↦ absurd (ground (arith, f))
    ])
