-- ===== src/Bio/Spec.antt =====
-- The cache as its callers see it: what each block reads as, what the disk holds, and the
-- references and locks of each buffer. One rule for each way to change a held buffer.
use mathlib.Core.Path.{subst}
use os.Prelude.{ℕ, ◌≡◌, ◌≢◌, inl, inr, sym, ◌∙◌, Bool, true, arith, ◌==◌, Bool-cases, ==_iff}
use os.Kernel.{Block, Disk}
use os.Bio.{Buf, Bcache, set_buf, is_block}
use os.Bio.Find.{mem}
use os.Bio.Cache.{At, Inv, view, view_of_At}
use os.Bio.Change.{Fits, view-set_buf, At-set_buf_self, At-set_buf_ne}

-- `V` is what a reader gets, `D` the disk, `r` the references, `l` the locks, `m` the members of
-- the list, `p` the writes before the power fails.
pub record Is (dev : ℕ) (V : ℕ → Block) (D : Disk) (r : ℕ → ℕ) (l : ℕ → Bool) (m : ℕ → Bool) (p : ℕ)
    (s : Bcache) : Type 0 where
  pub inv : Inv s
  pub reads : (c : ℕ) → view s dev c ≡ V c
  pub disk : (c : ℕ) → s.disk c ≡ D c
  pub refs : (i : ℕ) → (s.buf i).refcnt ≡ r i
  pub locks : (i : ℕ) → (s.buf i).locked ≡ l i
  pub members : (i : ℕ) → mem i s.order ≡ m i
  pub power : s.power ≡ p
  pub held_valid : (i : ℕ) → l i ≡ true → (s.buf i).valid ≡ true
  pub device : (i : ℕ) → m i ≡ true → (s.buf i).valid ≡ true → (s.buf i).dev ≡ dev

-- `t` keeps every buffer at its block
abbrev pub Keeps : Bcache → Bcache → Type 0
Keeps s t = (d c j : ℕ) → At s d c j → At t d c j

-- A write to buffer `i` that leaves its key.
module _ {s : Bcache} (inv : Inv s) (i : ℕ) (x : Buf) (listed : mem i s.order ≡ true)
    (same_dev : x.dev ≡ (s.buf i).dev) (same_block : x.blockno ≡ (s.buf i).blockno) where
  same_key : (d c : ℕ) → is_block x d c ≡ is_block (s.buf i) d c
  unfolding is_block
  same_key d c = rw (same_dev, same_block)

  pub rewrite-Keeps : Keeps s (set_buf s i x)
  rewrite-Keeps d c j at = elim (Bool-cases (j == i)) [
    | inl e ↦
        let e' : j ≡ i = (==_iff j i).0 e in
        rw e'
          (At-set_buf_self s i x d c listed (same_key d c ∙ (subst (λ k. At s d c k) e' at).key))
    | inr ne ↦ At-set_buf_ne s i j x d c (λ e. ground arith) at
  ]

  pub rewrite-Fits : (x.refcnt ≡ 0 → x.valid ≡ true → x.bytes ≡ s.disk x.blockno) → Fits s i x
  rewrite-Fits clean = record {
    listed = listed;
    alone = λ d c j nz k at.
        inv.unique d c j i nz at (record { listed = listed; key = sym (same_key d c) ∙ k });
    clean = clean;
  }

  -- the same bytes: readers see no change
  pub rewrite-view :
      Fits s i x
      → x.valid ≡ (s.buf i).valid
      → x.bytes ≡ (s.buf i).bytes
      → (d c : ℕ) → d ≢ 0
      → view (set_buf s i x) d c ≡ view s d c
  rewrite-view fits v b d c nz =
      view-set_buf inv i x fits d c nz
        (λ k.
          rw (v, b)
            (sym
              (view_of_At inv d c i nz (record { listed = listed; key = sym (same_key d c) ∙ k }))))
        (λ k at. cc (same_key d c, at.key))

-- The description may be changed to one with the same values.
pub Is-ext :
    {dev : ℕ} {V V' : ℕ → Block} {D D' : Disk} {r r' : ℕ → ℕ} {l l' m : ℕ → Bool} {p p' : ℕ}
    {s : Bcache}
    → Is dev V D r l m p s
    → ((c : ℕ) → V c ≡ V' c)
    → ((c : ℕ) → D c ≡ D' c)
    → ((i : ℕ) → r i ≡ r' i)
    → ((i : ℕ) → l i ≡ l' i)
    → p ≡ p'
    → Is dev V' D' r' l' m p' s
Is-ext is v d f h e = record {
  inv = is.inv;
  reads = λ c. is.reads c ∙ v c;
  disk = λ c. is.disk c ∙ d c;
  refs = λ i. is.refs i ∙ f i;
  locks = λ i. is.locks i ∙ h i;
  members = is.members;
  power = is.power ∙ e;
  held_valid = λ i e. is.held_valid i (h i ∙ e);
  device = is.device;
}
