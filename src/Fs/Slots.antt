-- ===== src/Fs/Slots.antt =====
-- The blocks that an inode holds: its direct blocks, its indirect block, and what this lists.
use os.Prelude.{
  ℕ, ◌-◌, ◌^◌, ◌<◌, ◌≡◌, ◌≢◌, ◌⊎◌, inl, inr, refl, sym, ap, ◌∙◌, true, false, ◌==◌, ltb,
  if◌then◌else◌, arith, Bool-cases, ==_iff,
}
use mathlib.Core.Path.{subst}
use os.Log.{word}
use os.Fs.{Fs, Inode, bblock, bsize, ndirect}
use os.Fs.Bits.{in_use}
use os.Fs.Alloc.{Ready, New, bitmap_apart}

-- the number of slots
abbrev pub slots : ℕ
slots = 269

-- 0 to 11 are the direct blocks, 12 is the indirect block, and from 13 on its entries, 0 without
-- an indirect block
abbrev pub slot : Fs → ℕ → ℕ
slot s k =
    if ltb k 13
    then s.ip.addrs k
    else if s.ip.addrs ndirect == 0
    then 0
    else word (s.disk (s.ip.addrs ndirect)) (k - 13)

-- a block of the file system that is in use and none of the bitmap
pub record Good (s : Fs) (a : ℕ) : Type 0 where
  pub within : a < s.sb.size
  pub used : in_use s a ≡ true
  pub apart : (j : ℕ) → j < s.sb.size → bblock j s.sb ≢ a

-- The blocks that the inode holds are in use, distinct, and none is one of the bitmap.
pub record Inv (s : Fs) : Type 0 where
  pub ready : Ready s
  pub good : (k : ℕ) → k < slots → slot s k ≢ 0 → Good s (slot s k)
  pub distinct : (k l : ℕ) → k < slots → l < slots → k ≢ l → slot s k ≢ 0 → slot s k ≢ slot s l

-- The blocks that the inode holds in `t` and not in `s` were free in `s`.
abbrev pub Fresh : Fs → Fs → Type 0
Fresh s t = (k : ℕ) → k < slots → (slot t k ≡ slot s k) ⊎ (in_use s (slot t k) ≡ false)

pub Fresh_trans :
    (s t u : Fs)
    → ((j : ℕ) → j < s.sb.size → in_use s j ≡ true → in_use t j ≡ true)
    → u.sb ≡ s.sb
    → t.sb ≡ s.sb
    → Ready t
    → Inv u
    → Fresh s t
    → Fresh t u
    → Fresh s u
Fresh_trans s t u used us ts ready inv f g k lt = elim (g k lt) [
  | inl e ↦ elim (f k lt) [ inl e' ↦ inl (e ∙ e') | inr free ↦ inr (ap (in_use s) e ∙ free) ]
  | inr free ↦
      let nz : slot u k ≢ 0 = λ z. ground (arith, ready.boot, ap (in_use t) z, free) in
      let w : slot u k < s.sb.size = subst (λ b. slot u k < b.size) us (inv.good k lt nz).within in
      inr (ground (arith, used (slot u k) w, free))
]

-- The inode has kept its blocks and their bytes, and no block has been freed.
pub record Grows (s t : Fs) : Type 0 where
  pub inv : Inv t
  pub sb : t.sb ≡ s.sb
  pub kept : (k : ℕ) → k < slots → slot s k ≢ 0 → slot t k ≡ slot s k
  pub bytes :
      (k : ℕ) → k < slots → k ≢ ndirect → slot s k ≢ 0 → t.disk (slot s k) ≡ s.disk (slot s k)
  pub used : (j : ℕ) → j < s.sb.size → in_use s j ≡ true → in_use t j ≡ true
  pub ip : t.ip ≡ record s.ip { addrs = t.ip.addrs }
  pub fresh : Fresh s t

pub Grows-refl : {s : Fs} → Inv s → Grows s s
Grows-refl inv = record {
  inv = inv;
  sb = refl;
  kept = λ k lt nz. refl;
  bytes = λ k lt ne nz. refl;
  used = λ j lt e. e;
  ip = refl;
  fresh = λ k lt. inl refl;
}

pub Grows-trans : {s t u : Fs} → Grows s t → Grows t u → Grows s u
Grows-trans {s} {t} {u} g h = record {
  inv = h.inv;
  sb = h.sb ∙ g.sb;
  kept = λ k lt nz. let e = g.kept k lt nz in h.kept k lt (λ z. nz (sym e ∙ z)) ∙ e;
  bytes = λ k lt ne nz.
      let e = g.kept k lt nz in
      subst (λ m. u.disk m ≡ t.disk m) e (h.bytes k lt ne (λ z. nz (sym e ∙ z)))
      ∙ g.bytes k lt ne nz;
  used = λ j lt e. h.used j (subst (λ b. j < b.size) (sym g.sb) lt) (g.used j lt e);
  ip = h.ip ∙ ap {A = Inode} {B = Inode} (λ x. record x { addrs = u.ip.addrs }) g.ip;
  fresh = Fresh_trans s t u g.used (h.sb ∙ g.sb) g.sb g.inv.ready h.inv g.fresh h.fresh;
}

-- not `b`, unless `b` is 0 for a missing block
abbrev pub Avoids : ℕ → ℕ → Type 0
Avoids m b = b ≢ 0 → m ≢ b

-- Slot `k` holds the block `r`, new and zero if it held none; or it still holds none and every
-- block is in use. No other slot has changed, and no block but those of the bitmap, the indirect
-- block and the one of the slot.
pub record Got (s : Fs) (k r : ℕ) (t : Fs) : Type 0 where
  pub grows : Grows s t
  pub others : (l : ℕ) → l < slots → l ≢ k → slot t l ≡ slot s l
  pub found :
      ((r ≡ 0) × (slot t k ≡ 0) × ((j : ℕ) → j < s.sb.size → in_use t j ≡ true))
      ⊎ ((r ≢ 0) × (slot t k ≡ r) × (slot s k ≡ 0 → (o : ℕ) → o < bsize → t.disk r o ≡ 0))
  pub frame :
      (m : ℕ)
      → ((j : ℕ) → j < s.sb.size → bblock j s.sb ≢ m)
      → Avoids m (slot t ndirect)
      → Avoids m (slot t k)
      → t.disk m ≡ s.disk m

-- `t` comes from `t'`, in which balloc() has taken `n`, by a change of slot `k` to `n`.
module _ (s t' t : Fs) (n k : ℕ) (inv : Inv s) (lt : k < slots) (empty : slot s k ≡ 0) (pos : n ≢ 0)
    (new : New s n t') (sb : t.sb ≡ s.sb) (ip : t.ip ≡ record s.ip { addrs = t.ip.addrs })
    (bits : (j : ℕ) → j < s.sb.size → in_use t j ≡ in_use t' j)
    (set : (l : ℕ) → l < slots → slot t l ≡ (if l == k then n else slot s l))
    (bytes : (m : ℕ) → m ≢ slot s ndirect → t.disk m ≡ t'.disk m)
    (bytes_after : (m : ℕ) → Avoids m (slot t ndirect) → t.disk m ≡ t'.disk m) where
  marked : (j : ℕ) → j < s.sb.size → in_use t j ≡ (if j == n then true else in_use s j)
  marked j jlt = bits j jlt ∙ new.bits j jlt

  used_before : (l : ℕ) → l < slots → slot s l ≢ 0 → slot s l ≢ n
  used_before l llt nz e = ground (arith, (inv.good l llt nz).used, new.free, ap (in_use s) e)

  Ready-after : Ready t
  Ready-after = record {
    room = subst (λ b. b.size < 2 ^ 31) (sym sb) inv.ready.room;
    boot = ground (arith, marked 0 (omega (arith, new.within)), inv.ready.boot);
    bitmap = λ j jlt blt.
        let jlt' : j < s.sb.size = subst (λ b. j < b.size) sb jlt in
        let blt' : bblock j s.sb < s.sb.size = subst (λ b. bblock j b < b.size) sb blt in
        subst (λ b. in_use t (bblock j b) ≡ true) (sym sb)
          (ground (arith, marked (bblock j s.sb) blt', inv.ready.bitmap j jlt' blt'));
  }

  Good-after : (a : ℕ) → Good s a ⊎ (a ≡ n) → Good t a
  Good-after a (inl g) = record {
    within = subst (λ b. a < b.size) (sym sb) g.within;
    used = ground (arith, marked a g.within, g.used);
    apart =
        λ j jlt. subst (λ b. bblock j b ≢ a) (sym sb) (g.apart j (subst (λ b. j < b.size) sb jlt));
  }
  Good-after a (inr e) = record {
    within = subst (λ b. a < b.size) (sym sb) (subst (λ x. x < s.sb.size) (sym e) new.within);
    used = ground (arith, marked n new.within, ap (in_use t) e);
    apart = λ j jlt.
        subst (λ b. bblock j b ≢ a) (sym sb)
          (subst (λ x. bblock j s.sb ≢ x) (sym e)
            (bitmap_apart s n inv.ready new.within new.free j (subst (λ b. j < b.size) sb jlt)));
  }

  Inv-after : Inv t
  Inv-after = record {
    ready = Ready-after;
    good = λ l llt nz. elim (Bool-cases (l == k)) [
      | inl e ↦ Good-after (slot t l) (inr (ground (arith, set l llt)))
      | inr e ↦
          let same : slot t l ≡ slot s l = ground (arith, set l llt) in
          Good-after (slot t l)
            (inl (subst (Good s) (sym same) (inv.good l llt (λ z. nz (same ∙ z)))))
    ];
    distinct = λ l m llt mlt ne nz. ground (
      arith,
      set l llt,
      set m mlt,
      inv.distinct l m llt mlt ne,
      used_before l llt,
      used_before m mlt,
    );
  }

  pub grown : Got s k n t
  grown = record {
    grows = record {
      inv = Inv-after;
      sb = sb;
      kept = λ l llt nz. ground (arith, set l llt, (==_iff l k).0);
      bytes = λ l llt ne nz.
          bytes (slot s l) (inv.distinct l ndirect llt (omega arith) ne nz)
          ∙ new.others (slot s l) (used_before l llt nz) (inv.good l llt nz).apart;
      used = λ j jlt e. ground (arith, marked j jlt);
      ip = ip;
      fresh = λ l llt. ground (arith, set l llt, new.free, ap (in_use s) {x = slot t l} {y = n});
    };
    others = λ l llt ne. ground (arith, set l llt);
    found = inr (
      pos,
      ground (arith, set k lt),
      λ _ o olt.
          ap (λ b. b o)
            (bytes n (λ e. used_before ndirect (omega arith) (λ z. pos (e ∙ z)) (sym e)))
          ∙ new.zeroed o olt,
    );
    frame = λ m map ind at.
        bytes_after m ind
        ∙ new.others m (λ e. at (ground (arith, set k lt)) (ground (arith, set k lt, e))) map;
  }
