-- ===== src/Bio/Cache.antt =====
-- The invariant of the cache, and the block that it stands for.
use os.Prelude.{
  ℕ, ◌≡◌, ◌≢◌, inl, inr, sym, ap, ◌∙◌, true, Option, none, some, arith, if◌then◌else◌, Bool-cases,
  Option-cases,
}
use os.Kernel.{Block, Disk}
use os.Bio.{Bcache, is_block, find_block, binit}
use os.Bio.Find.{mem, find_block-some, find_block-none}

-- buffer `i` of the list holds block `b`
pub record At (s : Bcache) (dev b i : ℕ) : Type 0 where
  pub listed : mem i s.order ≡ true
  pub key : is_block (s.buf i) dev b ≡ true

-- Only unused buffers of device 0 may name the same block; a buffer with no reference is clean.
pub record Inv (s : Bcache) : Type 0 where
  pub unique : (dev b i j : ℕ) → dev ≢ 0 → At s dev b i → At s dev b j → i ≡ j
  pub clean :
      (i : ℕ)
      → mem i s.order ≡ true
      → (s.buf i).refcnt ≡ 0
      → (s.buf i).valid ≡ true
      → (s.buf i).bytes ≡ s.disk (s.buf i).blockno

abbrev pub find : Bcache → ℕ → ℕ → Option ℕ
find s dev b = find_block s.buf dev b s.order

-- what a reader of the block gets: the cached bytes, or those on the disk
abbrev pub view_at : Bcache → ℕ → Option ℕ → Block
view_at s b none = s.disk b
view_at s b (some i) = if (s.buf i).valid then (s.buf i).bytes else s.disk b

unfoldable pub view : Bcache → ℕ → ℕ → Block
view s dev b = view_at s b (find s dev b)

pub find→At : {s : Bcache} (dev b i : ℕ) → find s dev b ≡ some i → At s dev b i
find→At {s} dev b i e =
    let f = find_block-some s.buf dev b s.order i e in record { listed = f.0; key = f.1 }

pub At→find : {s : Bcache} → Inv s → (dev b i : ℕ) → dev ≢ 0 → At s dev b i → find s dev b ≡ some i
At→find {s} inv dev b i nz at = elim (Option-cases (find s dev b)) [
  | inl e ↦ cc (find_block-none s.buf dev b s.order i e at.listed, at.key)
  | inr (j, e) ↦ e ∙ ap some (inv.unique dev b j i nz (find→At dev b j e) at)
]

pub view_of_At :
    {s : Bcache}
    → Inv s
    → (dev b i : ℕ) → dev ≢ 0
    → At s dev b i
    → view s dev b ≡ (if (s.buf i).valid then (s.buf i).bytes else s.disk b)
unfolding view
view_of_At {s} inv dev b i nz at = rw (At→find inv dev b i nz at)

pub view_of_none : (s : Bcache) (dev b : ℕ) → find s dev b ≡ none → view s dev b ≡ s.disk b
unfolding view
view_of_none s dev b e = rw e

pub view_of_some :
    (s : Bcache) (dev b i : ℕ)
    → find s dev b ≡ some i
    → view s dev b ≡ (if (s.buf i).valid then (s.buf i).bytes else s.disk b)
unfolding view
view_of_some s dev b i e = rw e

pub none_of_no_At : (s : Bcache) (dev b : ℕ) → ((i : ℕ) → ¬ At s dev b i) → find s dev b ≡ none
none_of_no_At s dev b no_at = elim (Option-cases (find s dev b)) [
  | inl e ↦ e
  | inr (j, e) ↦ absurd (no_at j (find→At dev b j e))
]

pub blockno_of_At : {s : Bcache} (dev b i : ℕ) → At s dev b i → (s.buf i).blockno ≡ b
unfolding is_block
blockno_of_At dev b i at = ground (arith, at.key)

-- one buffer holds one block
pub At-block : {s : Bcache} (dev b c i : ℕ) → At s dev b i → At s dev c i → b ≡ c
At-block dev b c i p q = sym (blockno_of_At dev b i p) ∙ blockno_of_At dev c i q

-- A buffer with no reference shows what the disk holds.
pub view_of_unused :
    {s : Bcache}
    → Inv s
    → (dev b i : ℕ) → dev ≢ 0
    → At s dev b i
    → (s.buf i).refcnt ≡ 0
    → view s dev b ≡ s.disk b
view_of_unused {s} inv dev b i nz at z =
    view_of_At inv dev b i nz at ∙ elim (Bool-cases (s.buf i).valid) [
      | inl v ↦ simp v (inv.clean i at.listed z v ∙ ap s.disk (blockno_of_At dev b i at))
      | inr v ↦ simp v
    ]

pub binit-Inv : (disk : Disk) (power : ℕ) → Inv (binit disk power)
unfolding binit is_block
binit-Inv disk power = record {
  unique = λ dev b i j nz p q. ground (arith, p.key);
  clean = λ i m z v. cc;
}
