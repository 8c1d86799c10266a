-- ===== src/Fs/Trunc.antt =====
-- itrunc(): all blocks of an inode are freed, and no other.
use os.Prelude.{
  ℕ, zero, suc, ◌+◌, ◌-◌, ◌*◌, ◌%◌, ◌^◌, ◌<◌, ◌≤◌, ◌≡◌, ◌≢◌, ◌↔◌, inl, inr, refl, sym, ap, ◌∙◌,
  Bool, true, false, ◌||◌, ◌==◌, ltb, if◌then◌else◌, update, arith, Bool-cases,
}
use mathlib.Core.Path.{subst}
use native.Mathlib.Decide.{ℕ_discrete}
use os.Kernel.Runs.{Runs, returns, Runs-bind}
use os.Log.{word}
use os.Fs.{
  Fs, Inode, bblock, iblock, ndirect, nindirect, get_dinode, iupdate, free_indirect, itrunc,
}
use os.Fs.Bits.{in_use}
use os.Fs.Alloc.{bfree-Freed}
use os.Fs.Slots.{slots, slot, Inv}
use os.Fs.Drop.{
  listed, Holds, Dropped, Dropped-trans, Good-Dropped, Freed-Dropped, same_gone,
  free_entries-Dropped,
}
use os.Fs.Clear.{
  Cleared, free_addrs-Dropped, set_addr-Dropped, store-in_use, addrs-Holds, entries, slot-entries,
  entries-Holds, Apart,
}
use os.Fs.Dinode.{Fits, Same, iupdate-Same}

-- whether a number is listed
listed-false :
    (f : ℕ → ℕ) (left i j : ℕ)
    → ((k : ℕ) → i ≤ k → k < i + left → f k ≢ 0 → f k ≢ j)
    → listed f left i j ≡ false
unfolding listed
listed-false f zero i j h = refl
listed-false f (suc left) i j h =
    ground (arith, h i, listed-false f left (i + 1) j (λ k le lt. h k (omega arith) (omega arith)))

listed-ne :
    (f : ℕ → ℕ) (left i j : ℕ)
    → listed f left i j ≡ false
    → (k : ℕ) → i ≤ k
    → k < i + left
    → f k ≢ 0
    → f k ≢ j
unfolding listed
listed-ne f zero i j h k le lt nz = absurd (omega arith)
listed-ne f (suc left) i j h k le lt nz = elim (ℕ_discrete k i) [
  | yes e ↦ ground (arith, e, ap f e)
  | no ne ↦ listed-ne f left (i + 1) j (ground arith) k (omega arith) (omega arith) nz
]

gone_all :
    (a b : Bool) (x i j : ℕ)
    → x ≡ i
    → i ≢ 0
    → ((a || b) || x == j) ≡ (a || (if i == 0 then false else b || i == j))
gone_all a b x i j e nz = ground arith

gone_direct : (a b : Bool) (i j : ℕ) → i ≡ 0 → a ≡ (a || (if i == 0 then false else b || i == j))
gone_direct a b i j e = ground arith

-- the blocks that itrunc() frees
module _ (s : Fs) (inv : Inv s) where
  ind : ℕ
  ind = s.ip.addrs ndirect

  gone : ℕ → Bool
  gone j =
      listed s.ip.addrs ndirect 0 j
      || (if ind == 0 then false else listed (entries s inv) nindirect 0 j || ind == j)

  slot-ind : slot s ndirect ≡ ind
  unfolding ind
  slot-ind = refl

  -- the entries of the indirect block, once the direct blocks are freed
  entries_left :
      (t : Fs)
      → ind ≢ 0
      → Dropped s (listed s.ip.addrs ndirect 0) t
      → Holds t (entries s inv) 0 nindirect
  unfolding ind
  entries_left t nz d =
      let h = entries-Holds s inv nz in
      record {
        good = λ k le lt kz.
            Good-Dropped (entries s inv k) d
              (listed-false s.ip.addrs ndirect 0 (entries s inv k) (λ l _ llt lz e. ground (
                arith,
                slot-entries s inv k nz,
                inv.distinct l (13 + k) (omega arith) (omega arith) (omega arith),
              )))
              (h.good k le lt kz);
        distinct = h.distinct;
      }

  -- the indirect block, once all others are freed
  ind_left :
      (t : Fs)
      → ind ≢ 0
      → Dropped s (λ j. listed s.ip.addrs ndirect 0 j || listed (entries s inv) nindirect 0 j) t
      → in_use t ind ≡ true
  unfolding ind
  ind_left t nz d = ground (
    arith,
    d.bits ind,
    (inv.good ndirect (omega arith) nz).used,
    listed-false s.ip.addrs ndirect 0 ind (λ l _ llt lz e.
        ground (arith, inv.distinct l ndirect (omega arith) (omega arith) (omega arith))),
    listed-false (entries s inv) nindirect 0 ind (λ l _ llt lz e. ground (
      arith,
      slot-entries s inv l nz,
      inv.distinct (13 + l) ndirect (omega arith) (omega arith) (omega arith),
    )),
  )

  free_indirect-Dropped :
      (t : Fs)
      → Dropped s (listed s.ip.addrs ndirect 0) t
      → Cleared 0 ndirect s t
      → Runs
          (λ _ u.
            Dropped s gone u
            × ((k : ℕ) → k ≤ ndirect → u.ip.addrs k ≡ 0)
            × (u.ip ≡ record s.ip { addrs = u.ip.addrs }))
          (λ d. ⊥)
          (free_indirect t)
  unfolding free_indirect gone ind entries
  free_indirect-Dropped t d c = elim (Bool-cases (t.ip.addrs ndirect == 0)) [
    | inl e ↦
        let z : s.ip.addrs ndirect ≡ 0 = ground (arith, c.others ndirect (inr (omega arith))) in
        rw e (
          returns (
            same_gone
                (λ j.
                  gone_direct (listed s.ip.addrs ndirect 0 j) (listed (entries s inv) nindirect 0 j)
                    (s.ip.addrs ndirect) j z)
                d,
            λ k le. elim (ℕ_discrete k ndirect) [
              | yes is ↦ ground (arith, is, ap t.ip.addrs is)
              | no ne ↦ c.zeros k (omega arith) (omega arith)
            ],
            c.same,
          ))
    | inr e ↦
        let same : t.ip.addrs ndirect ≡ s.ip.addrs ndirect = c.others ndirect (inr (omega arith)) in
        let nz : s.ip.addrs ndirect ≢ 0 = ground arith in
        let g = inv.good ndirect (omega arith) nz in
        let apart : Apart t (t.ip.addrs ndirect) =
          subst (λ m. Apart t m) (sym same)
            (λ j lt.
              subst (λ b. bblock j b ≢ s.ip.addrs ndirect) (sym d.sb)
                (g.apart j (subst (λ b. j < b.size) d.sb lt))) in
        rw e (
          Runs-bind
            (free_entries-Dropped (t.ip.addrs ndirect) (entries s inv) nindirect 0 t
              (entries_left t nz d)
              (λ k le lt.
                ap (λ m. word (t.disk m) k) same
                ∙ ap (λ b. word b k) (d.bytes (s.ip.addrs ndirect) g.apart))
              apart)
            λ _ u q.
              let both = Dropped-trans d q.0 in
              let within : t.ip.addrs ndirect < u.sb.size =
                subst (λ m. m < u.sb.size) (sym same)
                  (subst (λ b. s.ip.addrs ndirect < b.size) (sym both.sb) g.within) in
              Runs-bind
                (bfree-Freed u (t.ip.addrs ndirect) (ap (in_use u) same ∙ ind_left u nz both))
                λ _ v fr. returns (
                  set_addr-Dropped s v gone ndirect (
                      same_gone
                        (λ j.
                          gone_all (listed s.ip.addrs ndirect 0 j)
                            (listed (entries s inv) nindirect 0 j) _ _ j same nz)
                        (Dropped-trans both (Freed-Dropped (t.ip.addrs ndirect) within fr))),
                  λ k le. elim (ℕ_discrete k ndirect) [
                    | yes is ↦ ground arith
                    | no ne ↦ ground (
                      arith,
                      ap (λ i. i.addrs k) fr.ip,
                      ap (λ i. i.addrs k) q.1,
                      c.zeros k (omega arith) (omega arith),
                    )
                  ],
                  ap {A = Inode} {B = Inode} (λ i. record i { addrs = update v.ip.addrs ndirect 0 })
                      (fr.ip ∙ q.1 ∙ c.same),
                ))
  ]

  gone_iff : (j : ℕ) → (gone j ≡ false) ↔ ((k : ℕ) → k < slots → slot s k ≢ 0 → slot s k ≢ j)
  unfolding gone ind
  gone_iff j = (
    λ e k lt nz. elim (Bool-cases (ltb k ndirect)) [
      | inl f ↦
          ground
            (arith, listed-ne s.ip.addrs ndirect 0 j (ground arith) k (omega arith) (ground arith))
      | inr f ↦ elim (Bool-cases (k == ndirect)) [
        | inl g ↦ ground arith
        | inr g ↦
            let is : 13 + (k - 13) ≡ k = ground arith in
            let some_ind : s.ip.addrs ndirect ≢ 0 = ground arith in
            let at = slot-entries s inv (k - 13) some_ind in
            subst (λ l. slot s l ≢ j) is
              (λ h.
                listed-ne (entries s inv) nindirect 0 j (ground arith) (k - 13) (omega arith)
                  (ground arith) (λ z. subst (λ l. slot s l ≢ 0) (sym is) nz (at ∙ z)) (sym at ∙ h))
      ]
    ],
    λ all. ground (
      arith,
      listed-false s.ip.addrs ndirect 0 j (λ l _ lt nz. ground (arith, all l)),
      all ndirect,
      λ (nz : s.ip.addrs ndirect ≢ 0).
          listed-false (entries s inv) nindirect 0 j
            (λ l _ lt lz. ground (arith, slot-entries s inv l nz, all (13 + l))),
    ),
  )

-- what itrunc() leaves
pub record Truncated (s t : Fs) : Type 0 where
  pub sb : t.sb ≡ s.sb
  pub empty : (t.ip.size ≡ 0) × ((k : ℕ) → k ≤ ndirect → t.ip.addrs k ≡ 0)
  pub bits :
      (j : ℕ)
      → j < s.sb.size
      → (in_use t j ≡ true)
        ↔ ((in_use s j ≡ true) × ((k : ℕ) → k < slots → slot s k ≢ 0 → slot s k ≢ j))
  pub bytes : (m : ℕ) → Apart s m → m ≢ iblock s.ip.inum s.sb → t.disk m ≡ s.disk m
  pub saved :
      (old : Inode)
      → Same t.ip (get_dinode (t.disk (iblock s.ip.inum s.sb)) (16 * (s.ip.inum % 16)) old)

itrunc_end :
    (s u : Fs) (inv : Inv s)
    → Fits s.ip
    → Apart s (iblock s.ip.inum s.sb)
    → Dropped s (gone s inv) u
    → ((k : ℕ) → k ≤ ndirect → u.ip.addrs k ≡ 0)
    → u.ip ≡ record s.ip { addrs = u.ip.addrs }
    → Truncated s (iupdate (record u { ip = record u.ip { size = 0 } }))
unfolding iupdate in_use
itrunc_end s u inv fits apart d zeros same = record {
  sb = d.sb;
  empty = (refl, zeros);
  bits = λ j lt.
      let e =
        store-in_use u (iblock u.ip.inum u.sb) _ j
          (λ f. apart j lt (ap (bblock j) (sym d.sb) ∙ f ∙ at)) in
      (
        λ h. (ground (arith, e, d.bits j), (gone_iff s inv j).0 (ground (arith, e, d.bits j))),
        λ h. e ∙ d.bits j ∙ ground (arith, (gone_iff s inv j).1 h.1, h.0),
      );
  bytes = λ m out ne. ground (arith, d.bytes m out, at);
  saved = λ old.
      subst
        (λ b.
          Same (record u.ip { size = 0 })
            (get_dinode ((iupdate w).disk (iblock s.ip.inum b)) (16 * (s.ip.inum % 16)) old))
        d.sb (iupdate-Same w old s.ip.inum Fits-after (sym (ap (λ x. x.inum) same)));
}
  where
    w : Fs
    w = record u { ip = record u.ip { size = 0 } }

    at : iblock u.ip.inum u.sb ≡ iblock s.ip.inum s.sb
    at = ap (λ x. iblock x.inum u.sb) same ∙ ap (iblock s.ip.inum) d.sb

    Fits-after : Fits (record u.ip { size = 0 })
    Fits-after = record {
      type = subst (λ x. x.type < 2 ^ 16) (sym same) fits.type;
      major = subst (λ x. x.major < 2 ^ 16) (sym same) fits.major;
      minor = subst (λ x. x.minor < 2 ^ 16) (sym same) fits.minor;
      nlink = subst (λ x. x.nlink < 2 ^ 16) (sym same) fits.nlink;
      size = omega arith;
      addrs = λ k le. ground (arith, zeros k le);
    }

-- Where the blocks of the inode are in use, distinct and none of the bitmap, and its copy on disk
-- is in no block of the bitmap, itrunc() returns. The inode then has size 0 and no block, and so
-- has its copy on disk; exactly the blocks that it had are free now, and no other block has changed
-- but those of the bitmap and the one with the copy.
pub itrunc-Truncated :
    (s : Fs)
    → Inv s
    → Fits s.ip
    → Apart s (iblock s.ip.inum s.sb)
    → Runs (λ _ t. Truncated s t) (λ d. ⊥) (itrunc s)
unfolding itrunc
itrunc-Truncated s inv fits apart =
    Runs-bind (free_addrs-Dropped s.ip.addrs ndirect 0 s (addrs-Holds s inv) (λ k le lt. refl))
      λ _ t q.
        Runs-bind (free_indirect-Dropped s inv t q.0 q.1)
          λ _ u r. returns (itrunc_end s u inv fits apart r.0 r.1 r.2)
