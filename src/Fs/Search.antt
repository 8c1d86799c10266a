-- ===== src/Fs/Search.antt =====
-- What the loops of balloc() find in the bitmap.
use os.Prelude.{
  ℕ, zero, suc, ◌+◌, ◌-◌, ◌*◌, ◌/◌, ◌%◌, ◌<◌, ◌≤◌, ◌≡◌, inl, inr, refl, ap, ◌∙◌, true, false,
  Option, none, some, ltb, arith, Bool-cases,
}
use native.Mathlib.Decide.{ℕ_discrete}
use os.Kernel.{Block}
use os.Fs.{Fs, bblock, bpb, test_bit, find_bit, find_free}
use os.Fs.Bits.{in_use}

module _ (size b : ℕ) (bp : Block) where
  abbrev FoundBit : ℕ → ℕ → Option ℕ → Type 0
  FoundBit lo hi none =
      (k : ℕ) → lo ≤ k → k < hi → b + k < size → test_bit (bp (k / 8)) (k % 8) ≡ true
  FoundBit lo hi (some i) =
      (lo ≤ i)
      × (i < hi)
      × (b + i < size)
      × (test_bit (bp (i / 8)) (i % 8) ≡ false)
      × ((k : ℕ) → lo ≤ k → k < i → test_bit (bp (k / 8)) (k % 8) ≡ true)

  FoundBit-later :
      (left lo : ℕ) (o : Option ℕ)
      → test_bit (bp (lo / 8)) (lo % 8) ≡ true
      → FoundBit (lo + 1) (lo + 1 + left) o
      → FoundBit lo (lo + suc left) o
  FoundBit-later left lo none e q = λ k le lt room. elim (ℕ_discrete k lo) [
    | yes same ↦ rw same e
    | no ne ↦ q k (omega arith) (omega arith) room
  ]
  FoundBit-later left lo (some i) e q = (
    omega (arith, q.0),
    omega (arith, q.1),
    q.2,
    q.3,
    λ k le lt. elim (ℕ_discrete k lo) [ yes same ↦ rw same e | no ne ↦ q.4 k (omega arith) lt ],
  )

  find_bit-FoundBit : (left bi : ℕ) → FoundBit bi (bi + left) (find_bit left size bp b bi)
  unfolding find_bit
  find_bit-FoundBit zero bi = λ k le lt room. absurd (omega arith)
  find_bit-FoundBit (suc left) bi = elim (Bool-cases (ltb (b + bi) size)) [
    | inr e ↦ rw e (λ k le lt room. absurd (ground arith))
    | inl e ↦ elim (Bool-cases (test_bit (bp (bi / 8)) (bi % 8))) [
      | inr f ↦
          rw (e, f) (omega arith, omega arith, ground arith, f, λ k le lt. absurd (omega arith))
      | inl f ↦
          rw (e, f)
            (FoundBit-later left bi (find_bit left size bp b (bi + 1)) f
              (find_bit-FoundBit left (bi + 1)))
    ]
  ]

-- the bit of a block, from a block that begins a block of the bitmap on
in_use-at :
    (s : Fs) (b k : ℕ)
    → b % bpb ≡ 0
    → k < bpb
    → in_use s (b + k) ≡ test_bit (s.disk (bblock b s.sb) (k / 8)) (k % 8)
unfolding in_use
in_use-at s b k al lt = rw (same_block, same_bit) refl
  where
    same_block : (b + k) / bpb ≡ b / bpb
    same_block = omega arith

    same_bit : (b + k) % bpb ≡ k
    same_bit = omega arith

abbrev pub FoundFree : Fs → ℕ → ℕ → Option (ℕ × ℕ) → Type 0
FoundFree s lo hi none = (j : ℕ) → lo ≤ j → j < hi → j < s.sb.size → in_use s j ≡ true
FoundFree s lo hi (some (b, bi)) =
    (b % bpb ≡ 0)
    × (bi < bpb)
    × (b + bi < s.sb.size)
    × (in_use s (b + bi) ≡ false)
    × ((j : ℕ) → lo ≤ j → j < b + bi → in_use s j ≡ true)

FoundFree-later :
    (s : Fs) (b left : ℕ) (o : Option (ℕ × ℕ))
    → ((j : ℕ) → b ≤ j → j < b + bpb → j < s.sb.size → in_use s j ≡ true)
    → FoundFree s (b + bpb) (b + bpb + left * bpb) o
    → FoundFree s b (b + suc left * bpb) o
FoundFree-later s b left none h q = λ j lo hi room. elim (Bool-cases (ltb j (b + bpb))) [
  | inl e ↦ h j lo (ground arith) room
  | inr e ↦ q j (ground arith) (omega arith) room
]
FoundFree-later s b left (some (b', bi)) h q = (
  q.0,
  q.1,
  q.2,
  q.3,
  λ j lo hi. elim (Bool-cases (ltb j (b + bpb))) [
    | inl e ↦ h j lo (ground arith) (omega (arith, q.2))
    | inr e ↦ q.4 j (ground arith) hi
  ],
)

module _ (s : Fs) (b : ℕ) (al : b % bpb ≡ 0) where
  bit_at :
      (j : ℕ)
      → b ≤ j
      → j < b + bpb
      → in_use s j ≡ test_bit (s.disk (bblock b s.sb) ((j - b) / 8)) ((j - b) % 8)
  bit_at j lo hi =
      let e : j ≡ b + (j - b) = omega arith in
      ap (in_use s) e ∙ in_use-at s b (j - b) al (omega arith)

  block_full :
      FoundBit s.sb.size b (s.disk (bblock b s.sb)) 0 bpb none
      → (j : ℕ) → b ≤ j
      → j < b + bpb
      → j < s.sb.size
      → in_use s j ≡ true
  block_full q j lo hi room = bit_at j lo hi ∙ q (j - b) (omega arith) (omega arith) (omega arith)

  block_found :
      (i hi : ℕ)
      → FoundBit s.sb.size b (s.disk (bblock b s.sb)) 0 bpb (some i)
      → FoundFree s b hi (some (b, i))
  block_found i hi q = (
    al,
    q.1,
    q.2,
    in_use-at s b i al q.1 ∙ q.3,
    λ j lo lt. bit_at j lo (omega (arith, q.1)) ∙ q.4 (j - b) (omega arith) (omega arith),
  )

pub find_free-FoundFree :
    (s : Fs) (left b : ℕ) → b % bpb ≡ 0 → FoundFree s b (b + left * bpb) (find_free left b s)
unfolding find_free
find_free-FoundFree s zero b al = λ j lo hi room. absurd (omega arith)
find_free-FoundFree s (suc left) b al =
    step (find_bit bpb s.sb.size (s.disk (bblock b s.sb)) b 0)
      (find_bit-FoundBit s.sb.size b (s.disk (bblock b s.sb)) bpb 0)
      (find_free-FoundFree s left (b + bpb) (omega arith))
  where
    step :
        (o : Option ℕ)
        → FoundBit s.sb.size b (s.disk (bblock b s.sb)) 0 (0 + bpb) o
        → FoundFree s (b + bpb) (b + bpb + left * bpb) (find_free left (b + bpb) s)
        → FoundFree s b
            (b + suc left * bpb)
            (elim o [ some bi ↦ some (b, bi) | none ↦ find_free left (b + bpb) s ])
    step none q rest =
        FoundFree-later s b left (find_free left (b + bpb) s) (block_full s b al q) rest
    step (some i) q rest = block_found s b al i (b + suc left * bpb) q
