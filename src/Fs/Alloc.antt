-- ===== src/Fs/Alloc.antt =====
-- balloc() and bfree() against the set of blocks in use.
use os.Prelude.{
  ℕ, ◌+◌, ◌-◌, ◌*◌, ◌/◌, ◌%◌, ◌^◌, ◌<◌, ◌≤◌, ◌≡◌, ◌≢◌, ◌⊎◌, inl, inr, refl, ap, ◌∙◌, Bool, true,
  false, Option, none, some, ◌==◌, if◌then◌else◌, update, arith, Bool-cases, ==_iff,
}
use native.Mathlib.Decide.{ℕ_discrete}
use os.Kernel.{Block}
use os.Kernel.Runs.{Runs, returns}
use os.Str.Move.{memset-filled}
use os.Fs.{
  Fs, bblock, bpb, bsize, store, test_bit, set_bit, clear_bit, bzero, take_block, balloc_found,
  balloc, bfree,
}
use os.Fs.Search.{FoundFree, find_free-FoundFree}
use os.Fs.Bits.{test_bit-set_bit, test_bit-clear_bit, in_use}

-- The bitmap marks block 0 and its own blocks.
pub record Ready (s : Fs) : Type 0 where
  pub room : s.sb.size < 2 ^ 31
  pub boot : in_use s 0 ≡ true
  pub bitmap : (j : ℕ) → j < s.sb.size → bblock j s.sb < s.sb.size → in_use s (bblock j s.sb) ≡ true

-- `n` was the first free block; it is marked and zero, and no other bit and no other block that is
-- not one of the bitmap has changed
pub record New (s : Fs) (n : ℕ) (t : Fs) : Type 0 where
  pub within : n < s.sb.size
  pub free : in_use s n ≡ false
  pub first : (j : ℕ) → j < n → in_use s j ≡ true
  pub sb : t.sb ≡ s.sb
  pub ip : t.ip ≡ s.ip
  pub bits : (j : ℕ) → j < s.sb.size → in_use t j ≡ (if j == n then true else in_use s j)
  pub zeroed : (o : ℕ) → o < bsize → t.disk n o ≡ 0
  pub others : (m : ℕ) → m ≢ n → ((j : ℕ) → j < s.sb.size → bblock j s.sb ≢ m) → t.disk m ≡ s.disk m

module _ (s : Fs) (b i : ℕ) (al : b % bpb ≡ 0) (lt : i < bpb) where
  same_bit :
      (j : ℕ)
      → bblock j s.sb ≡ bblock b s.sb
      → ((j == b + i) ≡ true) × (j % bpb / 8 ≡ i / 8) × (j % bpb % 8 ≡ i % 8)
        ⊎ ((j == b + i) ≡ false) × ((j % bpb / 8 ≢ i / 8) ⊎ (j % bpb % 8 ≢ i % 8))
  same_bit j e = elim (Bool-cases (j == b + i)) [
    | inl h ↦
        inl (
          h,
          ground (arith, al, (==_iff j (b + i)).0 h),
          ground (arith, al, (==_iff j (b + i)).0 h),
        )
    | inr h ↦ inr (
      h,
      elim (ℕ_discrete (j % bpb / 8) (i / 8)) [
        | no ne ↦ inl ne
        | yes p ↦ inr (λ q. ground (arith, p, q, e, al))
      ],
    )
  ]

  -- a change of the bit of block `b + i` alone
  module _ (f : ℕ → ℕ → ℕ) (v : Bool)
      (law : (x k j : ℕ) → test_bit (f x k) j ≡ (if j == k then v else test_bit x j)) where
    changed : Block → Block
    changed bp = update bp (i / 8) (f (bp (i / 8)) (i % 8))

    changed-bit :
        (j : ℕ)
        → bblock j s.sb ≡ bblock b s.sb
        → test_bit (changed (s.disk (bblock b s.sb)) (j % bpb / 8)) (j % bpb % 8) ≡ (
            if j == b + i then v else test_bit (s.disk (bblock b s.sb) (j % bpb / 8)) (j % bpb % 8))
    unfolding changed
    changed-bit j e =
        let l = law (s.disk (bblock b s.sb) (i / 8)) (i % 8) (j % bpb % 8) in
        elim (same_bit j e) [
          | inl q ↦
              rw (q.0, q.1, q.2)
                (ground (arith, law (s.disk (bblock b s.sb) (i / 8)) (i % 8) (i % 8)))
          | inr q ↦ elim (Bool-cases (j % bpb / 8 == i / 8)) [
            | inr g ↦ rw (q.0, g) refl
            | inl g ↦
                rw (q.0, g, l) (ground (arith, q.1, ap (s.disk (bblock b s.sb)) ((==_iff _ _).0 g)))
          ]
        ]

    change-in_use :
        (j : ℕ)
        → in_use (store (bblock b s.sb) (changed (s.disk (bblock b s.sb))) s) j
          ≡ (if j == b + i then v else in_use s j)
    unfolding in_use
    change-in_use j = elim (Bool-cases (bblock j s.sb == bblock b s.sb)) [
      | inl e ↦
          rw e (changed-bit j ((==_iff _ _).0 e) ∙ ground (arith, ap s.disk ((==_iff _ _).0 e)))
      | inr e ↦ rw e (ground arith)
    ]

-- zeroing a block that is none of the bitmap
module _ (s : Fs) (n : ℕ) where
  bzero-in_use : (j : ℕ) → bblock j s.sb ≢ n → in_use (bzero n s) j ≡ in_use s j
  unfolding in_use bzero
  bzero-in_use j apart = let e : (bblock j s.sb == n) ≡ false = ground arith in rw e refl

  bzero-zeroed : (o : ℕ) → o < bsize → (bzero n s).disk n o ≡ 0
  unfolding bzero
  bzero-zeroed o lt = ground (arith, memset-filled 0 0 bsize (s.disk n) o)

  bzero-others : (m : ℕ) → m ≢ n → (bzero n s).disk m ≡ s.disk m
  unfolding bzero
  bzero-others m ne = let e : (m == n) ≡ false = ground arith in rw e refl

-- what balloc() leaves
abbrev pub Allocated : Fs → ℕ → Fs → Type 0
Allocated s r t =
    ((r ≡ 0) × (t ≡ s) × ((j : ℕ) → j < s.sb.size → in_use s j ≡ true)) ⊎ (r ≢ 0) × New s r t

pub bitmap_apart :
    (s : Fs) (n : ℕ)
    → Ready s
    → n < s.sb.size
    → in_use s n ≡ false
    → (j : ℕ) → j < s.sb.size
    → bblock j s.sb ≢ n
bitmap_apart s n ready lt free j room e = ground (arith, ready.bitmap j room, ap (in_use s) e)

take_block-New :
    (s : Fs) (b i : ℕ)
    → Ready s
    → b % bpb ≡ 0
    → i < bpb
    → b + i < s.sb.size
    → in_use s (b + i) ≡ false
    → ((j : ℕ) → j < b + i → in_use s j ≡ true)
    → New s (b + i) (take_block b i s)
unfolding take_block changed
take_block-New s b i ready al lt room free first =
    let apart = bitmap_apart s (b + i) ready room free in
    let marked = changed s b i al lt set_bit true test_bit-set_bit (s.disk (bblock b s.sb)) in
    record {
      within = room;
      free = free;
      first = first;
      sb = bzero-sb;
      ip = bzero-ip;
      bits = λ j jlt.
          bzero-in_use (store (bblock b s.sb) marked s) (b + i) j (apart j jlt)
          ∙ change-in_use s b i al lt set_bit true test_bit-set_bit j;
      zeroed = λ o olt. bzero-zeroed (store (bblock b s.sb) marked s) (b + i) o olt;
      others = λ m ne not_map.
          bzero-others (store (bblock b s.sb) marked s) (b + i) m ne
          ∙ ground (arith, not_map b (omega arith));
    }
  where
    bzero-sb : (take_block b i s).sb ≡ s.sb
    bzero-sb = refl

    bzero-ip : (take_block b i s).ip ≡ s.ip
    bzero-ip = refl

balloc_found-Allocated :
    (s : Fs) (hi : ℕ) (o : Option (ℕ × ℕ))
    → Ready s
    → s.sb.size ≤ hi
    → FoundFree s 0 hi o
    → Runs (Allocated s) (λ d. ⊥) (balloc_found s o)
unfolding balloc_found
balloc_found-Allocated s hi none ready le q =
    returns (inl (refl, refl, λ j lt. q j (omega arith) (omega arith) lt))
balloc_found-Allocated s hi (some (b, i)) ready le q = returns (
    inr (
      λ e. ground (arith, ready.boot, q.3, ap (in_use s) e),
      take_block-New s b i ready q.0 q.1 q.2 q.3 (λ j lt. q.4 j (omega arith) lt),
    ))

-- Where the bitmap marks block 0 and its own blocks, balloc() returns. It returns 0 and changes
-- nothing only if every block is in use. Otherwise it returns the first free block, marked and
-- filled with zeros, and changes no other bit of the bitmap and no other block.
pub balloc-Allocated : (s : Fs) → Ready s → Runs (Allocated s) (λ d. ⊥) (balloc s)
unfolding balloc
balloc-Allocated s ready =
    balloc_found-Allocated s (0 + (s.sb.size + (bpb - 1)) / bpb * bpb) _ ready (omega arith)
      (find_free-FoundFree s ((s.sb.size + (bpb - 1)) / bpb) 0 refl)

-- the state without the mark of block `n`
pub record Freed (s : Fs) (n : ℕ) (t : Fs) : Type 0 where
  pub sb : t.sb ≡ s.sb
  pub ip : t.ip ≡ s.ip
  pub bits : (j : ℕ) → in_use t j ≡ (if j == n then false else in_use s j)
  pub others : (m : ℕ) → bblock n s.sb ≢ m → t.disk m ≡ s.disk m

split : (n : ℕ) → n / bpb * bpb + n % bpb ≡ n
split n = omega arith

-- bfree() of a block in use returns and clears its bit in the bitmap alone.
pub bfree-Freed :
    (s : Fs) (n : ℕ) → in_use s n ≡ true → Runs (λ _ t. Freed s n t) (λ d. ⊥) (bfree n s)
unfolding bfree in_use changed
bfree-Freed s n used = rw used (
    returns (record { sb = refl; ip = refl; bits = λ j. cleared j; others = λ m ne. ground arith }))
  where
    base : ℕ
    base = n / bpb * bpb

    al : base % bpb ≡ 0
    al = omega arith

    half : base / bpb ≡ n / bpb
    half = omega arith

    cleared :
        (j : ℕ)
        → in_use
            (store
              (bblock n s.sb)
              (update
                (s.disk (bblock n s.sb))
                (n % bpb / 8)
                (clear_bit (s.disk (bblock n s.sb) (n % bpb / 8)) (n % bpb % 8)))
              s)
            j
          ≡ (if j == n then false else in_use s j)
    cleared j =
        rw (half, split n) at
          (change-in_use s base (n % bpb) al (omega arith) clear_bit false test_bit-clear_bit j)
