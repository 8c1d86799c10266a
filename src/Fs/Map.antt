-- ===== src/Fs/Map.antt =====
-- bmap(): the block of a file, allocated if there is none.
use os.Prelude.{
  ℕ, ◌+◌, ◌-◌, ◌<◌, ◌≤◌, ◌≡◌, ◌≢◌, ◌⊎◌, inl, inr, refl, sym, ◌∙◌, true, ◌==◌, ltb, if◌then◌else◌,
  arith, Bool-cases, ==_iff,
}
use mathlib.Core.Path.{subst}
use os.Kernel.Runs.{Runs, returns, Runs-bind, Runs-mono}
use os.Fs.{Fs, bblock, bsize, ndirect, nindirect, entry_or_new, bmap}
use os.Fs.Bits.{in_use}
use os.Fs.Slots.{slots, slot, Inv, Grows, Grows-trans, Got, Avoids}
use os.Fs.Entries.{addr_or_new-Got, entry_or_new-Got}

-- the slot of block `bn` of the file, and this block, 0 if there is none
abbrev pub slot_of : ℕ → ℕ
slot_of bn = if ltb bn ndirect then bn else bn + 1

abbrev pub file_block : Fs → ℕ → ℕ
file_block s bn = slot s (slot_of bn)

-- what bmap() leaves
pub record Mapped (s : Fs) (bn r : ℕ) (t : Fs) : Type 0 where
  pub grows : Grows s t
  pub others : (k : ℕ) → k < 268 → k ≢ bn → file_block t k ≡ file_block s k
  pub found :
      ((r ≡ 0) × (file_block t bn ≡ 0) × ((j : ℕ) → j < s.sb.size → in_use t j ≡ true))
      ⊎ ((r ≢ 0)
          × (file_block t bn ≡ r)
          × (file_block s bn ≡ 0 → (o : ℕ) → o < bsize → t.disk r o ≡ 0))
  pub frame :
      (m : ℕ)
      → ((j : ℕ) → j < s.sb.size → bblock j s.sb ≢ m)
      → Avoids m (slot t ndirect)
      → Avoids m (file_block t bn)
      → t.disk m ≡ s.disk m

pub slot_of-bound : (k : ℕ) → k < 268 → (slot_of k < slots) × (slot_of k ≢ ndirect)
slot_of-bound k lt = ground arith

pub slot_of-injective : (k l : ℕ) → k ≢ l → slot_of k ≢ slot_of l
slot_of-injective k l ne = ground arith

direct-Mapped : (s t : Fs) (bn r : ℕ) → bn < ndirect → Got s bn r t → Mapped s bn r t
direct-Mapped s t bn r lt g =
    let e : slot_of bn ≡ bn = ground arith in
    record {
      grows = g.grows;
      others = λ k klt ne.
          g.others (slot_of k) (slot_of-bound k klt).0 (λ f. slot_of-injective k bn ne (f ∙ sym e));
      found =
          subst
            (λ k.
              ((r ≡ 0) × (slot t k ≡ 0) × ((j : ℕ) → j < s.sb.size → in_use t j ≡ true))
              ⊎ ((r ≢ 0) × (slot t k ≡ r) × (slot s k ≡ 0 → (o : ℕ) → o < bsize → t.disk r o ≡ 0)))
            (sym e) g.found;
      frame = λ m map ind at. g.frame m map ind (subst (λ k. Avoids m (slot t k)) e at);
    }

module _ (s t : Fs) (bn : ℕ) (lo : ndirect ≤ bn) (hi : bn < 268) where
  entry : slot_of bn ≡ 13 + (bn - ndirect)
  entry = ground arith

  no_indirect-Mapped : Got s ndirect 0 t → Mapped s bn 0 t
  no_indirect-Mapped g = record {
    grows = g.grows;
    others = λ k klt ne. g.others (slot_of k) (slot_of-bound k klt).0 (slot_of-bound k klt).1;
    found = elim g.found [
      | inl (z, empty, full) ↦ inl (refl, ground (arith, empty), full)
      | inr (pos, _, _) ↦ absurd (pos refl)
    ];
    frame = λ m map ind at. g.frame m map ind ind;
  }

  indirect-Mapped :
      (u : Fs) (ind r : ℕ) → Got s ndirect ind t → Got t (13 + (bn - ndirect)) r u → Mapped s bn r u
  indirect-Mapped u ind r g h = record {
    grows = Grows-trans g.grows h.grows;
    others = λ k klt ne.
        h.others (slot_of k) (slot_of-bound k klt).0
          (λ f. slot_of-injective k bn ne (f ∙ sym entry))
        ∙ g.others (slot_of k) (slot_of-bound k klt).0 (slot_of-bound k klt).1;
    found =
        subst
          (λ k.
            ((r ≡ 0) × (slot u k ≡ 0) × ((j : ℕ) → j < s.sb.size → in_use u j ≡ true))
            ⊎ ((r ≢ 0) × (slot u k ≡ r) × (slot s k ≡ 0 → (o : ℕ) → o < bsize → u.disk r o ≡ 0)))
          (sym entry)
          (elim h.found [
            | inl (z, empty, full) ↦
                inl (z, empty, λ j lt. full j (subst (λ b. j < b.size) (sym g.grows.sb) lt))
            | inr (pos, is, zeroed) ↦ inr (
              pos,
              is,
              λ z. zeroed (g.others (13 + (bn - ndirect)) (omega arith) (omega arith) ∙ z),
            )
          ]);
    frame = λ m map ind' at.
        let same : slot u ndirect ≡ slot t ndirect = h.others ndirect (omega arith) (omega arith) in
        let ind_t = subst (Avoids m) same ind' in
        h.frame m
          (λ j jlt.
            subst (λ b. bblock j b ≢ m) (sym g.grows.sb)
              (map j (subst (λ b. j < b.size) g.grows.sb jlt)))
          ind' (subst (λ k. Avoids m (slot u k)) entry at)
        ∙ g.frame m map ind_t ind_t;
  }

-- Where the blocks of the inode are in use, distinct and none of the bitmap, bmap() of a block of
-- a file of at most 268 returns, and this still holds. It returns the block of the file, which is
-- new and filled with zeros if there was none, or 0 if there is none and every block is in use.
-- The other blocks of the file, their bytes, and that of this one if it was there, stay, and no
-- block is freed.
pub bmap-Mapped : (s : Fs) (bn : ℕ) → Inv s → bn < 268 → Runs (Mapped s bn) (λ d. ⊥) (bmap bn s)
unfolding bmap
bmap-Mapped s bn inv lt = elim (Bool-cases (ltb bn ndirect)) [
  | inl e ↦ rw e (
      Runs-mono (addr_or_new-Got s bn inv (ground arith))
        (λ r t g. direct-Mapped s t bn r (ground arith) g) (λ d q. q))
  | inr e ↦
      let lo : ndirect ≤ bn = ground arith in
      let f : ltb (bn - ndirect) nindirect ≡ true = ground arith in
      rw (e, f)
        (Runs-bind (addr_or_new-Got s ndirect inv (omega arith)) λ ind t g.
          elim (Bool-cases (ind == 0)) [
            | inl z ↦ rw z (
                returns (
                  no_indirect-Mapped s t bn lo lt
                    (subst (λ i. Got s ndirect i t) ((==_iff ind 0).0 z) g)))
            | inr nz ↦ rw nz (elim g.found [
              | inl (z, _, _) ↦ absurd (ground arith)
              | inr (pos, is, _) ↦
                  Runs-mono
                    (subst
                      (λ i.
                        Runs (Got t (13 + (bn - ndirect))) (λ d. ⊥)
                          (entry_or_new i (bn - ndirect) t))
                      is
                      (entry_or_new-Got t (bn - ndirect) g.grows.inv (ground arith)
                        (λ z. pos (sym is ∙ z))))
                    (λ r u h. indirect-Mapped s t bn lo lt u ind r g h) (λ d q. q)
            ])
          ])
]
