-- ===== src/Fs/Content/Bytes.antt =====
-- The bytes of a file, and what bmap() and a write of one of its blocks do to them.
use os.Prelude.{
  ℕ, ◌/◌, ◌%◌, ◌<◌, ◌≡◌, ◌≢◌, inl, inr, refl, sym, ap, ◌∙◌, false, ◌==◌, if◌then◌else◌, arith,
  Bool-cases, ==_iff,
}
use mathlib.Core.Path.{subst}
use os.Kernel.{Block}
use os.Fs.{Fs, bsize, ndirect, store}
use os.Fs.Bits.{in_use}
use os.Fs.Slots.{slot, Good, Inv}
use os.Fs.Map.{slot_of, slot_of-bound, slot_of-injective, file_block, Mapped}
use os.Fs.Clear.{store-in_use}

-- byte `p` of the file; what has no block reads as 0
unfoldable pub file_byte : Fs → ℕ → ℕ
file_byte s p =
    if file_block s (p / bsize) == 0 then 0 else s.disk (file_block s (p / bsize)) (p % bsize)

abbrev pub max_size : ℕ
max_size = 274432

-- a call of bmap() leaves the bytes
pub bmap-file_byte :
    (s t : Fs) (bn r p : ℕ)
    → Inv s
    → bn < 268
    → Mapped s bn r t
    → p < max_size
    → file_byte t p ≡ file_byte s p
unfolding file_byte
bmap-file_byte s t bn r p inv lt m pl = elim (Bool-cases (file_block s (p / bsize) == 0)) [
  | inr e ↦
      let b = slot_of-bound (p / bsize) (omega arith) in
      let nz : file_block s (p / bsize) ≢ 0 = ground arith in
      let k = m.grows.kept (slot_of (p / bsize)) b.0 nz in
      let d = m.grows.bytes (slot_of (p / bsize)) b.0 b.1 nz in
      rw k (rw e (ap (λ x. x (p % bsize)) d))
  | inl e ↦ rw e (elim (Bool-cases (p / bsize == bn)) [
    | inr f ↦ let o = m.others (p / bsize) (omega arith) (ground arith) in rw (o, e) refl
    | inl f ↦
        let is : p / bsize ≡ bn = (==_iff _ _).0 f in
        let none_before : file_block s bn ≡ 0 = ap (file_block s) (sym is) ∙ (==_iff _ _).0 e in
        rw is (elim m.found [
          | inl (z, empty, full) ↦ rw empty refl
          | inr (pos, at, zeroed) ↦
              let q = zeroed none_before (p % bsize) (omega arith) in rw at (ground (arith, q))
        ])
  ])
]

-- what the block that bmap() returns holds
pub block_byte :
    (s t : Fs) (bn r : ℕ)
    → Inv s
    → bn < 268
    → Mapped s bn r t
    → file_block t bn ≡ r
    → r ≢ 0
    → (p : ℕ) → p < max_size
    → p / bsize ≡ bn
    → t.disk r (p % bsize) ≡ file_byte s p
unfolding file_byte
block_byte s t bn r inv lt map at pos p pl e =
    let here : file_block t (p / bsize) ≡ r = ap (file_block t) e ∙ at in
    let z : (file_block t (p / bsize) == 0) ≡ false = ground (arith, here) in
    let q : file_byte t p ≡ t.disk r (p % bsize) = rw z (ap (λ x. t.disk x (p % bsize)) here) in
    sym q ∙ bmap-file_byte s t bn r p inv lt map pl

-- a write of a block of the file
module _ (s : Fs) (bn r : ℕ) (b : Block) (inv : Inv s) (lt : bn < 268) (at : file_block s bn ≡ r)
    (pos : r ≢ 0) where
  unfoldable pub written : Fs
  written = store r b s

  Good-r : Good s r
  Good-r = subst (Good s) at (inv.good (slot_of bn) (slot_of-bound bn lt).0 (λ z. pos (sym at ∙ z)))

  not_indirect : s.ip.addrs ndirect ≢ r
  not_indirect e =
      inv.distinct (slot_of bn) ndirect (slot_of-bound bn lt).0 (omega arith)
        (slot_of-bound bn lt).1 (λ z. pos (sym at ∙ z)) (at ∙ sym e)

  pub written-slot : (k : ℕ) → slot written k ≡ slot s k
  unfolding written
  written-slot k =
      let e : (s.ip.addrs ndirect == r) ≡ false = ground (arith, not_indirect) in rw e refl

  pub written-in_use : (j : ℕ) → j < s.sb.size → in_use written j ≡ in_use s j
  unfolding written
  written-in_use j jlt = store-in_use s r b j (Good-r.apart j jlt)

  pub written-Inv : Inv written
  unfolding written
  written-Inv = record {
    ready = record {
      room = inv.ready.room;
      boot = written-in_use 0 (omega (arith, Good-r.within)) ∙ inv.ready.boot;
      bitmap = λ j jlt blt. written-in_use _ blt ∙ inv.ready.bitmap j jlt blt;
    };
    good = λ k klt nz.
        let g = inv.good k klt (λ z. nz (written-slot k ∙ z)) in
        subst (Good written) (sym (written-slot k)) (record {
          within = g.within;
          used = written-in_use _ g.within ∙ g.used;
          apart = g.apart;
        });
    distinct = λ k l klt llt ne nz e.
        inv.distinct k l klt llt ne (λ z. nz (written-slot k ∙ z))
          (sym (written-slot k) ∙ e ∙ written-slot l);
  }

  pub written-file_byte :
      (p : ℕ)
      → p < max_size
      → file_byte written p ≡ (if p / bsize == bn then b (p % bsize) else file_byte s p)
  unfolding written file_byte
  written-file_byte p pl =
      rw (written-slot (slot_of (p / bsize))) (elim (Bool-cases (p / bsize == bn)) [
        | inl f ↦ let is : p / bsize ≡ bn = (==_iff _ _).0 f in rw (f, is, at) (ground arith)
        | inr f ↦ rw f (elim (Bool-cases (file_block s (p / bsize) == 0)) [
          | inl z ↦ rw z refl
          | inr nz ↦
              let other : (file_block s (p / bsize) == r) ≡ false = ground (
                arith,
                inv.distinct (slot_of (p / bsize)) (slot_of bn)
                    (slot_of-bound (p / bsize) (omega arith)).0 (slot_of-bound bn lt).0
                    (slot_of-injective (p / bsize) bn (ground arith)),
                at,
              ) in
              rw (nz, other) refl
        ])
      ])
