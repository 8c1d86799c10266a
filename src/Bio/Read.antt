-- ===== src/Bio/Read.antt =====
-- bread(): the buffer that it returns, and what it leaves alone.
use os.Prelude.{
  ℕ, ◌+◌, ◌^◌, ◌<◌, ◌≡◌, ◌≢◌, inl, inr, refl, ap, ◌∙◌, true, false, none, some, arith, update, u32,
  Bool-cases,
}
use mathlib.Core.Path.{fun_ext}
use os.Kernel.{Block, Disk, ok}
use os.Bio.{Buf, Bcache, set_buf, is_block, bget, bread, lock_buf, read_if_stale, find_unused}
use os.Bio.Cache.{find, find→At, view, view_of_none, view_of_some}

-- the buffer that bread() hands out
abbrev pub held : ℕ → ℕ → ℕ → Block → Buf
held dev b refcnt bytes = record {
  valid = true;
  dev = dev;
  blockno = b;
  locked = true;
  refcnt = refcnt;
  bytes = bytes;
}

is_block-keys :
    (b : Buf) (dev blockno : ℕ)
    → is_block b dev blockno ≡ true
    → (b.dev ≡ dev) × (b.blockno ≡ blockno)
unfolding is_block
is_block-keys b dev blockno e = ground arith

set_buf-set_buf : (s : Bcache) (i : ℕ) (a b : Buf) → set_buf (set_buf s i a) i b ≡ set_buf s i b
unfolding set_buf
set_buf-set_buf s i a b =
    let same : update (update s.buf i a) i b ≡ update s.buf i b = fun_ext (λ j. ground arith) in
    ap (λ (f : ℕ → Buf). record s { buf = f }) same

buf-set_buf_self : (s : Bcache) (i : ℕ) (a : Buf) → (set_buf s i a).buf i ≡ a
unfolding set_buf
buf-set_buf_self s i a = ground arith

disk-set_buf : (s : Bcache) (i : ℕ) (a : Buf) → (set_buf s i a).disk ≡ s.disk
unfolding set_buf
disk-set_buf s i a = refl

ruleset buf_laws = (set_buf-set_buf, buf-set_buf_self)

lock_buf-free :
    (i : ℕ) (s : Bcache)
    → (s.buf i).locked ≡ false
    → lock_buf i s ≡ ok (i, set_buf s i (record (s.buf i) { locked = true }))
unfolding lock_buf
lock_buf-free i s free = simp free

read_if_stale-valid :
    (i : ℕ) (s : Bcache) (x : Buf)
    → x.valid ≡ true
    → read_if_stale i (set_buf s i x) ≡ ok (i, set_buf s i x)
unfolding read_if_stale
read_if_stale-valid i s x v = simp buf_laws (simp v)

read_if_stale-stale :
    (i : ℕ) (s : Bcache) (x : Buf)
    → x.valid ≡ false
    → read_if_stale i (set_buf s i x)
      ≡ ok (i, set_buf s i (record x { valid = true; bytes = s.disk x.blockno }))
unfolding read_if_stale
read_if_stale-stale i s x v = simp buf_laws (
    simp v (
      ap (λ (d : Disk). ok (i, set_buf s i (record x { valid = true; bytes = d x.blockno })))
        (disk-set_buf s i x)))

module _ (dev b : ℕ) (nz : dev ≢ 0) (s : Bcache) where
  -- the block is cached, and nobody holds the buffer
  bget_hit :
      (i : ℕ)
      → find s dev b ≡ some i
      → (s.buf i).locked ≡ false
      → bget dev b s
        ≡ ok (
          i,
          set_buf s i (record (s.buf i) { locked = true; refcnt = u32 ((s.buf i).refcnt + 1) }),
        )
  unfolding bget
  bget_hit i e free = rw (e, bget) (lock_buf-free i _ (simp (buf_laws, free)) ∙ simp buf_laws)

  -- the block is not cached, and a buffer has no reference
  bget_miss :
      (i : ℕ)
      → find s dev b ≡ none
      → find_unused s.buf s.order ≡ some i
      → (s.buf i).locked ≡ false
      → bget dev b s
        ≡ ok (
          i,
          set_buf s i (record (s.buf i) {
            dev = dev;
            blockno = b;
            valid = false;
            locked = true;
            refcnt = 1;
          }),
        )
  unfolding bget
  bget_miss i e unused free =
      rw (e, bget) (rw unused (lock_buf-free i _ (simp (buf_laws, free)) ∙ simp buf_laws))

  pub bread_hit :
      (i : ℕ)
      → find s dev b ≡ some i
      → (s.buf i).locked ≡ false
      → (s.buf i).refcnt + 1 < 2 ^ 32
      → bread dev b s ≡ ok (i, set_buf s i (held dev b ((s.buf i).refcnt + 1) (view s dev b)))
  unfolding bread
  bread_hit i e free small =
      let keys = is_block-keys (s.buf i) dev b (find→At {s = s} dev b i e).key in
      rw (bget_hit i e free) (elim (Bool-cases (s.buf i).valid) [
        | inl v ↦
            read_if_stale-valid i s _ v
            ∙ ap (λ (x : Buf). ok (i, set_buf s i x)) (ground (arith, view_of_some s dev b i e))
        | inr v ↦
            read_if_stale-stale i s _ v
            ∙ ap (λ (x : Buf). ok (i, set_buf s i x)) (ground (arith, view_of_some s dev b i e))
      ])

  pub bread_miss :
      (i : ℕ)
      → find s dev b ≡ none
      → find_unused s.buf s.order ≡ some i
      → (s.buf i).locked ≡ false
      → bread dev b s ≡ ok (i, set_buf s i (held dev b 1 (view s dev b)))
  unfolding bread
  bread_miss i e unused free =
      rw (bget_miss i e unused free) (read_if_stale-stale i s _ refl ∙ rw (view_of_none s dev b e))
