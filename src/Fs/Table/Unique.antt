-- ===== src/Fs/Table/Unique.antt =====
-- Each inode has one entry in the table.
use os.Prelude.{
  ℕ, zero, suc, ◌+◌, ◌^◌, ◌<◌, ◌≤◌, ◌≡◌, ◌≢◌, ◌⊎◌, inl, inr, refl, sym, ap, ◌∙◌, true, false,
  Option, none, some, ◌==◌, update, arith, Bool-cases, ==_iff, u32,
}
use mathlib.Core.Path.{subst}
use os.Kernel.{Result, ok, panic}
use os.Fs.{Inode}
use os.Fs.Table.{
  ninode, Itable, is_for, Scan, cached, missing, remember, scan, recycle, iget_scanned, iget,
}

-- two entries with references are for different inodes, and no count is near its bound
pub record Unique (t : Itable) : Type 0 where
  pub small : (k : ℕ) → k < ninode → (t k).ref + 1 < 2 ^ 31
  pub distinct :
      (j k : ℕ)
      → j < ninode
      → k < ninode
      → (t j).ref ≢ 0
      → (t k).ref ≢ 0
      → (t j).dev ≡ (t k).dev
      → (t j).inum ≡ (t k).inum
      → j ≡ k

-- what the loop finds from entry `k` on
data Scanned (dev inum k last : ℕ) (empty : Option ℕ) (t : Itable) : Scan → Type 0 where
  hit :
      (j : ℕ) → j < last → is_for dev inum (t j) ≡ true → Scanned dev inum k last empty t (cached j)
  free :
      (j : ℕ)
      → ((i : ℕ) → k ≤ i → i < last → is_for dev inum (t i) ≡ false)
      → (empty ≡ some j) ⊎ ((j < last) × ((t j).ref ≡ 0))
      → Scanned dev inum k last empty t (missing (some j))
  full :
      empty ≡ none
      → ((i : ℕ) → k ≤ i → i < last → (is_for dev inum (t i) ≡ false) × ((t i).ref ≢ 0))
      → Scanned dev inum k last empty t (missing none)

remembered :
    (empty : Option ℕ) (k : ℕ) (ip : Inode) (j : ℕ)
    → remember empty k ip ≡ some j
    → (empty ≡ some j) ⊎ ((k ≡ j) × (ip.ref ≡ 0))
remembered (some i) k ip j e = inl e
remembered none k ip j e = elim (Bool-cases (ip.ref == 0)) [
  | inl z ↦ inr (ground (arith, e), (==_iff _ _).0 z)
  | inr z ↦ absurd (ground (arith, e))
]

forgot :
    (empty : Option ℕ) (k : ℕ) (ip : Inode)
    → remember empty k ip ≡ none
    → (empty ≡ none) × (ip.ref ≢ 0)
forgot (some i) k ip e = absurd (ground (arith, e))
forgot none k ip e = (refl, λ z. ground (arith, e, z))

module _ (dev inum : ℕ) (t : Itable) where
  -- the entry before
  extend :
      (k last : ℕ) (empty : Option ℕ) (r : Scan)
      → k < last
      → is_for dev inum (t k) ≡ false
      → Scanned dev inum (k + 1) last (remember empty k (t k)) t r
      → Scanned dev inum k last empty t r
  extend k last empty r lt other (hit j jl is) = hit j jl is
  extend k last empty r lt other (free j others why) =
      free j
        (λ i ge il. elim (Bool-cases (i == k)) [
          | inl e ↦ ap (λ m. is_for dev inum (t m)) ((==_iff i k).0 e) ∙ other
          | inr e ↦ others i (ground (arith, ge)) il
        ])
        (elim why [
          | inl e ↦ elim (remembered empty k (t k) j e) [
            | inl f ↦ inl f
            | inr (same, z) ↦ inr (subst (λ i. (i < last) × ((t i).ref ≡ 0)) same (lt, z))
          ]
          | inr q ↦ inr q
        ])
  extend k last empty r lt other (full e others) = full (forgot empty k (t k) e).0 (λ i ge il.
      elim (Bool-cases (i == k)) [
        | inl f ↦
            subst (λ m. (is_for dev inum (t m) ≡ false) × ((t m).ref ≢ 0)) (sym ((==_iff i k).0 f))
              (other, (forgot empty k (t k) e).1)
        | inr f ↦ others i (ground (arith, ge)) il
      ])

  scan-Scanned :
      (left k : ℕ) (empty : Option ℕ)
      → Scanned dev inum k (k + left) empty t (scan dev inum left k empty t)
  unfolding scan
  scan-Scanned zero k none = full refl (λ i ge lt. absurd (omega (arith, ge, lt)))
  scan-Scanned zero k (some j) = free j (λ i ge lt. absurd (omega (arith, ge, lt))) (inl refl)
  scan-Scanned (suc left) k empty = elim (Bool-cases (is_for dev inum (t k))) [
    | inl e ↦ rw e (hit k (omega arith) e)
    | inr e ↦ rw e (
        subst
          (λ l.
            Scanned dev inum k l empty t (scan dev inum left (k + 1) (remember empty k (t k)) t))
          (omega arith)
          (extend k (k + 1 + left) empty _ (omega arith) e
            (scan-Scanned left (k + 1) (remember empty k (t k)))))
  ]

-- What iget() leaves: entry `k` is for the inode and has one reference more; or it was free, has
-- the device and the number of the inode, its first reference, and is not valid. No other entry
-- has changed. Or it panics, for every entry has a reference and none is for the inode.
pub data Gets (dev inum : ℕ) (t : Itable) : Result (ℕ × Itable) → Type 0 where
  again :
      (k : ℕ)
      → k < ninode
      → (t k).ref ≢ 0
      → (t k).dev ≡ dev
      → (t k).inum ≡ inum
      → Gets dev inum t (ok (k, update t k (record (t k) { ref = (t k).ref + 1 })))
  first :
      (k : ℕ)
      → k < ninode
      → (t k).ref ≡ 0
      → ((j : ℕ) → j < ninode → (t j).ref ≢ 0 → (t j).dev ≡ dev → (t j).inum ≢ inum)
      → Unique (update t k (record (t k) { dev = dev; inum = inum; ref = 1; valid = false }))
      → Gets dev inum t
          (ok (k, update t k (record (t k) { dev = dev; inum = inum; ref = 1; valid = false })))
  none_left :
      ((j : ℕ) → j < ninode → ((t j).ref ≢ 0) × ((t j).dev ≡ dev → (t j).inum ≢ inum))
      → Gets dev inum t (panic "iget: no inodes")

module _ (dev inum : ℕ) (t : Itable) (unique : Unique t) where
  other_inode :
      (j : ℕ)
      → j < ninode
      → is_for dev inum (t j) ≡ false
      → (t j).ref ≢ 0
      → (t j).dev ≡ dev
      → (t j).inum ≢ inum
  other_inode j lt no_match has same_dev same_inum =
      ground (arith, no_match, has, same_dev, same_inum, unique.small j lt)

  recycle-Unique :
      (k : ℕ)
      → k < ninode
      → ((j : ℕ) → j < ninode → (t j).ref ≢ 0 → (t j).dev ≡ dev → (t j).inum ≢ inum)
      → Unique (recycle dev inum k t)
  recycle-Unique k lt others = record {
    small = λ j jl. elim (Bool-cases (j == k)) [
      | inl e ↦ rw e (omega arith)
      | inr e ↦ rw e (unique.small j jl)
    ];
    distinct = λ i j il jl. elim (Bool-cases (i == k)) [
      | inl e ↦ rw e (elim (Bool-cases (j == k)) [
        | inl f ↦ λ _ _ _ _. ground arith
        | inr f ↦ rw f (λ _ has d n. absurd (others j jl has (sym d) (sym n)))
      ])
      | inr e ↦ rw e (elim (Bool-cases (j == k)) [
        | inl f ↦ rw f (λ has _ d n. absurd (others i il has d n))
        | inr f ↦ rw f (unique.distinct i j il jl)
      ])
    ];
  }

  found-Gets :
      (r : Scan) → Scanned dev inum 0 ninode none t r → Gets dev inum t (iget_scanned dev inum r t)
  unfolding iget_scanned
  found-Gets (cached k) (hit _ lt is) =
      let sum : u32 ((t k).ref + 1) ≡ (t k).ref + 1 = omega (arith, unique.small k lt) in
      rw sum (again k lt (ground (arith, is)) (ground (arith, is)) (ground (arith, is)))
  found-Gets (missing (some k)) (free _ others why) = elim why [
    | inl e ↦ absurd (ground (arith, e))
    | inr (lt, z) ↦
        let apart = λ (j : ℕ) (jl : j < ninode). other_inode j jl (others j (omega arith) jl) in
        first k lt z apart (recycle-Unique k lt apart)
  ]
  found-Gets (missing none) (full _ others) =
      none_left (λ j jl. let o = others j (omega arith) jl in (o.1, other_inode j jl o.0 o.1))

-- Where two entries with references are for different inodes and each has fewer than 2^31 - 1
-- references, iget() finds the entry of the inode if there is one, and else makes a free entry the
-- one of the inode, with one reference and not valid, after which two entries are still for
-- different inodes. It panics only if there is no free entry either.
pub iget-Gets : (dev inum : ℕ) (t : Itable) → Unique t → Gets dev inum t (iget dev inum t)
unfolding iget
iget-Gets dev inum t unique = found-Gets dev inum t unique (scan dev inum ninode 0 none t) (
    subst (λ l. Scanned dev inum 0 l none t (scan dev inum ninode 0 none t)) (omega arith)
      (scan-Scanned dev inum t ninode 0 none))
