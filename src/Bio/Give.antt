-- ===== src/Bio/Give.antt =====
-- bread() as its callers see it: a held buffer with the block, from the cache or from the disk.
use os.Prelude.{
  ℕ, ◌+◌, ◌^◌, ◌<◌, ◌≡◌, ◌≢◌, ◌⊎◌, inl, inr, sym, ap, ◌∙◌, Bool, true, false, none, arith, ◌==◌,
  update, Bool-cases, Option-cases, ==_iff,
}
use mathlib.Core.Path.{subst, subst₂}
use mathlib.Core.Bool.{false≢true}
use os.Kernel.{Block, Disk, ok}
use os.Kernel.Runs.{Runs, returns}
use os.Bio.{Buf, Bcache, set_buf, is_block, bread, find_unused}
use os.Bio.Find.{mem, find_unused-some, find_unused-ne-none}
use os.Bio.Cache.{At, Inv, find, find→At, At→find, view, view_of_unused, At-block}
use os.Bio.Change.{
  Fits, set_buf-Inv, view-set_buf, buf-set_buf_self, At-set_buf_self, At-set_buf_ne,
}
use os.Bio.Read.{held, bread_hit, bread_miss}
use os.Bio.Spec.{Is}

-- what the caller of bread() may use; `old` is the state before the call
pub record Given (dev b : ℕ) (V : ℕ → Block) (D : Disk) (r : ℕ → ℕ) (l m : ℕ → Bool) (p : ℕ)
    (old : Bcache) (i : ℕ) (t : Bcache) : Type 0 where
  pub is : Is dev V D (update r i (r i + 1)) (update l i true) m p t
  pub at : At t dev b i
  pub bytes : (t.buf i).bytes ≡ V b
  pub source : At old dev b i ⊎ (r i ≡ 0)
  pub unlocked : l i ≡ false
  pub keeps : (c j : ℕ) → At old dev c j → 0 < r j → At t dev c j

module _ (dev : ℕ) (nz : dev ≢ 0) {V : ℕ → Block} {D : Disk} {r : ℕ → ℕ} {l m : ℕ → Bool} {p : ℕ}
    {s : Bcache} (is : Is dev V D r l m p s) (b : ℕ) where
  -- Buffer `i` is handed out: it had the block, or it was unused and no buffer had the block.
  give :
      (i : ℕ)
      → mem i s.order ≡ true
      → l i ≡ false
      → At s dev b i ⊎ ((r i ≡ 0) × (find s dev b ≡ none))
      → Given dev b V D r l m p s i (set_buf s i (held dev b ((s.buf i).refcnt + 1) (view s dev b)))
  give i listed unlocked source = record {
    is = record {
      inv = inv';
      reads = λ c.
          view-set_buf is.inv i x fits dev c nz (λ k. ap (view s dev) (block_of dev c k).1)
            (λ k a. other_block c k a)
          ∙ is.reads c;
      disk = unfold set_buf in is.disk;
      refs = unfold set_buf in λ j. ground (arith, is.refs j, is.refs i);
      locks = unfold set_buf in λ j. ground (arith, is.locks j);
      members = unfold set_buf in is.members;
      power = unfold set_buf in is.power;
      held_valid = unfold set_buf in λ j. ground (arith, is.held_valid j);
      device = unfold set_buf in λ j. ground (arith, is.device j);
    };
    at = At-set_buf_self s i x dev b listed own;
    bytes = rw (buf-set_buf_self s i x) (is.reads b);
    source = elim source [ inl a ↦ inl a | inr (z, e) ↦ inr z ];
    unlocked = unlocked;
    keeps = λ c j a pos. kept c j a pos;
  }
    where
      x : Buf
      x = held dev b ((s.buf i).refcnt + 1) (view s dev b)

      own : is_block x dev b ≡ true
      own = unfold is_block in ground arith

      block_of : (d c : ℕ) → is_block x d c ≡ true → (dev ≡ d) × (b ≡ c)
      block_of d c k = unfold is_block in ground (arith, k)

      other_block : (c : ℕ) → is_block x dev c ≡ false → At s dev c i → view s dev c ≡ s.disk c
      other_block c k a = elim source [
        | inl a' ↦ absurd (
            false≢true (sym k ∙ subst (λ n. is_block x dev n ≡ true) (At-block dev b c i a' a) own))
        | inr (z, e) ↦ view_of_unused is.inv dev c i nz a (is.refs i ∙ z)
      ]

      only : (d c j : ℕ) → is_block x d c ≡ true → At s d c j → j ≡ i
      only d c j k a =
          let (ed, ec) = block_of d c k in
          let a' : At s dev b j = subst₂ (λ d c. At s d c j) (sym ed) (sym ec) a in
          elim source [
            | inl at ↦ is.inv.unique dev b j i nz a' at
            | inr (z, e) ↦ absurd (cc (At→find is.inv dev b j nz a'))
          ]

      kept : (c j : ℕ) → At s dev c j → 0 < r j → At (set_buf s i x) dev c j
      kept c j a pos = elim (Bool-cases (j == i)) [
        | inr ne ↦ At-set_buf_ne s i j x dev c (λ e. ground arith) a
        | inl e ↦
            let e' : j ≡ i = (==_iff j i).0 e in
            elim source [
              | inl at ↦ rw e' (
                  At-set_buf_self s i x dev c listed (
                    subst (λ n. is_block x dev n ≡ true)
                      (At-block dev b c i at (subst (λ k. At s dev c k) e' a)) own))
              | inr (z, _) ↦ absurd (ground arith)
            ]
      ]

      fits : Fits s i x
      fits = record {
        listed = listed;
        alone = λ d c j h k a. only d c j k a;
        clean = λ z v. absurd (omega arith);
      }

      inv' : Inv (set_buf s i x)
      inv' = set_buf-Inv is.inv i x fits

  no_room :
      find s dev b ≡ none
      → find_unused s.buf s.order ≡ none
      → ¬ ((i : ℕ) × (m i ≡ true) × ((r i ≡ 0) ⊎ At s dev b i))
  no_room e none_free (i, listed, inl z) =
      find_unused-ne-none s.buf s.order i (is.members i ∙ listed) (is.refs i ∙ z) none_free
  no_room e none_free (i, listed, inr a) = cc (At→find is.inv dev b i nz a)

  -- If no buffer of the block is locked and a buffer has no reference or has the block, bread()
  -- neither panics nor sleeps. It returns a locked buffer that holds the block with the bytes that
  -- the cache stood for and one more reference; what every block reads as, the disk, and the other
  -- references and locks stay, and a buffer with a reference keeps its block. (Only buffers with a
  -- reference are locked.)
  pub bread-Given :
      ((i : ℕ) → At s dev b i → (l i ≡ false) × (r i + 1 < 2 ^ 32))
      → ((i : ℕ) → r i ≡ 0 → l i ≡ false)
      → (i : ℕ) × (m i ≡ true) × ((r i ≡ 0) ⊎ At s dev b i)
      → Runs (λ i t. Given dev b V D r l m p s i t) (λ _. ⊥) (bread dev b s)
  bread-Given free idle room = elim (Option-cases (find s dev b)) [
    | inr (i, e) ↦
        let a : At s dev b i = find→At dev b i e in
        let (unlocked, small) = free i a in
        rw (bread_hit dev b nz s i e (is.locks i ∙ unlocked) (omega (arith, is.refs i)))
          (returns (give i a.listed unlocked (inl a)))
    | inl e ↦ elim (Option-cases (find_unused s.buf s.order)) [
      | inl none_free ↦ absurd (no_room e none_free room)
      | inr (k, found) ↦
          let (listed, z) = find_unused-some s.buf s.order k found in
          let free_k : r k ≡ 0 = sym (is.refs k) ∙ z in
          rw (bread_miss dev b nz s k e found (is.locks k ∙ idle k free_k)) (
            subst
              (λ n.
                Runs (λ i t. Given dev b V D r l m p s i t) (λ _. ⊥)
                  (ok (k, set_buf s k (held dev b n (view s dev b)))))
              (let e' : (s.buf k).refcnt + 1 ≡ 1 = omega (arith, z) in e')
              (returns (give k listed (idle k free_k) (inr (free_k, e)))))
    ]
  ]
