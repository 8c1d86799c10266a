-- ===== src/Bio/Change.antt =====
-- A write to one buffer of the list: when it keeps the invariant, and what readers see after it.
use os.Prelude.{
  ℕ, ◌≡◌, ◌≢◌, ◌⊎◌, inl, inr, refl, sym, ◌∙◌, true, false, arith, ◌==◌, if◌then◌else◌, Bool-cases,
  Option-cases, ==_iff, ==_refl,
}
use mathlib.Core.Path.{subst}
use os.Bio.{Buf, Bcache, set_buf, is_block}
use os.Bio.Find.{mem}
use os.Bio.Cache.{At, Inv, find, find→At, At→find, view, view_of_At, view_of_none, none_of_no_At}

pub order-set_buf : (s : Bcache) (i : ℕ) (x : Buf) → (set_buf s i x).order ≡ s.order
unfolding set_buf
order-set_buf s i x = refl

pub buf-set_buf_self : (s : Bcache) (i : ℕ) (x : Buf) → (set_buf s i x).buf i ≡ x
unfolding set_buf
buf-set_buf_self s i x = ground arith

pub At-set_buf_self :
    (s : Bcache) (i : ℕ) (x : Buf) (d c : ℕ)
    → mem i s.order ≡ true
    → is_block x d c ≡ true
    → At (set_buf s i x) d c i
unfolding set_buf
At-set_buf_self s i x d c m k = record { listed = m; key = ground arith }

pub At-set_buf_ne :
    (s : Bcache) (i j : ℕ) (x : Buf) (d c : ℕ) → j ≢ i → At s d c j → At (set_buf s i x) d c j
unfolding set_buf
At-set_buf_ne s i j x d c ne at = record { listed = at.listed; key = ground (arith, at.key) }

-- Who holds a block after the write: the written buffer by its new key, any other as before.
pub At-set_buf :
    (s : Bcache) (i j : ℕ) (x : Buf) (d c : ℕ)
    → At (set_buf s i x) d c j
    → ((j ≡ i) × (is_block x d c ≡ true)) ⊎ ((j ≢ i) × At s d c j)
unfolding set_buf
At-set_buf s i j x d c at = elim (Bool-cases (j == i)) [
  | inl e ↦ inl ((==_iff j i).0 e, ground (arith, at.key))
  | inr ne ↦ inr (λ p. ground arith, record { listed = at.listed; key = ground (arith, at.key) })
]

-- A write that may go to buffer `i`: no other buffer has its key, and without a reference it is
-- clean.
pub record Fits (s : Bcache) (i : ℕ) (x : Buf) : Type 0 where
  pub listed : mem i s.order ≡ true
  pub alone : (d c j : ℕ) → d ≢ 0 → is_block x d c ≡ true → At s d c j → j ≡ i
  pub clean : x.refcnt ≡ 0 → x.valid ≡ true → x.bytes ≡ s.disk x.blockno

pub set_buf-Inv : {s : Bcache} → Inv s → (i : ℕ) (x : Buf) → Fits s i x → Inv (set_buf s i x)
set_buf-Inv {s} inv i x fits = record {
  unique = λ d c j k nz p q. elim (At-set_buf s i j x d c p) [
    | inl (ej, kx) ↦ elim (At-set_buf s i k x d c q) [
      | inl (ek, _) ↦ ej ∙ sym ek
      | inr (nk, at) ↦ absurd (nk (fits.alone d c k nz kx at))
    ]
    | inr (nj, at) ↦ elim (At-set_buf s i k x d c q) [
      | inl (_, kx) ↦ absurd (nj (fits.alone d c j nz kx at))
      | inr (_, at') ↦ inv.unique d c j k nz at at'
    ]
  ];
  clean = unfold set_buf in λ j m z v. ground (arith, fits.clean, inv.clean j);
}

-- A block that only the written buffer held, and holds no more, is read from the disk.
view-set_buf_gone :
    {s : Bcache} (i : ℕ) (x : Buf) (d c : ℕ)
    → is_block x d c ≡ false
    → ((j : ℕ) → At s d c j → j ≡ i)
    → view (set_buf s i x) d c ≡ s.disk c
view-set_buf_gone {s} i x d c k only =
    view_of_none (set_buf s i x) d c (none_of_no_At (set_buf s i x) d c no_At)
    ∙ unfold set_buf in refl
  where
    no_At : (j : ℕ) → ¬ At (set_buf s i x) d c j
    no_At j at = elim (At-set_buf s i j x d c at) [
      | inl (_, k') ↦ cc
      | inr (nj, at') ↦ nj (only j at')
    ]

-- The write keeps what a reader of a block sees.
pub view-set_buf :
    {s : Bcache}
    → Inv s
    → (i : ℕ) (x : Buf) → Fits s i x
    → (d c : ℕ) → d ≢ 0
    → (is_block x d c ≡ true → (if x.valid then x.bytes else s.disk c) ≡ view s d c)
    → (is_block x d c ≡ false → At s d c i → view s d c ≡ s.disk c)
    → view (set_buf s i x) d c ≡ view s d c
view-set_buf {s} inv i x fits d c nz now lost = elim (Bool-cases (is_block x d c)) [
  | inl k ↦
      view_of_At inv' d c i nz (At-set_buf_self s i x d c fits.listed k)
      ∙ unfold set_buf in simp (==_refl i) (now k)
  | inr k ↦ elim (Option-cases (find s d c)) [
    | inl e ↦
        view-set_buf_gone i x d c k (λ j at. cc (At→find inv d c j nz at))
        ∙ sym (view_of_none s d c e)
    | inr (j, e) ↦ elim (Bool-cases (j == i)) [
      | inl eq ↦
          let at : At s d c i = subst (λ m. At s d c m) ((==_iff j i).0 eq) (find→At d c j e) in
          view-set_buf_gone i x d c k (λ m at'. inv.unique d c m i nz at' at) ∙ sym (lost k at)
      | inr ne ↦
          view_of_At inv' d c j nz (At-set_buf_ne s i j x d c (λ p. ground arith) (find→At d c j e))
          ∙ unfold set_buf in simp ne (sym (view_of_At inv d c j nz (find→At d c j e)))
    ]
  ]
]
  where
    inv' : Inv (set_buf s i x)
    inv' = set_buf-Inv inv i x fits
