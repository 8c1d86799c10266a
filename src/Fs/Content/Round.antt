-- ===== src/Fs/Content/Round.antt =====
-- Rounds of the loop of writei() over the bytes of a file.
use os.Prelude.{
  ℕ, ◌+◌, ◌-◌, ◌/◌, ◌%◌, ◌<◌, ◌≤◌, ◌≡◌, ◌≢◌, inl, inr, refl, sym, ap, ◌∙◌, true, false, ◌&&◌, ◌==◌,
  ltb, leb, if◌then◌else◌, arith, Bool-cases, ==_iff,
}
use mathlib.Core.Path.{subst}
use os.Kernel.{Block}
use os.Fs.{Fs, Inode, bblock, bsize, ndirect, store}
use os.Fs.Bits.{in_use}
use os.Fs.Slots.{slots, slot, Inv, Fresh, Fresh_trans, Avoids}
use os.Fs.Map.{slot_of, slot_of-bound, file_block, Mapped}
use os.Fs.Content.{CopyIn}
use os.Fs.Content.Bytes.{
  file_byte, max_size, bmap-file_byte, block_byte, written, written-Inv, written-in_use,
  written-slot, written-file_byte,
}

-- `k` bytes from `src` on are in the file from `off` on, and all else of the file is as before.
pub record Wrote (bytes : ℕ → ℕ) (s : Fs) (off src k : ℕ) (u : Fs) : Type 0 where
  pub inv : Inv u
  pub sb : u.sb ≡ s.sb
  pub ip : u.ip ≡ record s.ip { addrs = u.ip.addrs }
  pub used : (j : ℕ) → j < s.sb.size → in_use s j ≡ true → in_use u j ≡ true
  pub fresh : Fresh s u
  pub content :
      (p : ℕ)
      → p < max_size
      → file_byte u p
        ≡ (if leb off p && ltb p (off + k) then bytes (src + (p - off)) else file_byte s p)

-- a copy that does not fail
abbrev pub Copies : CopyIn → (ℕ → ℕ) → Type 0
Copies copyin bytes =
    (src o m : ℕ) (b : Block)
    → ((copyin src o m b).0 ≡ true)
      × ((a : ℕ)
          → (copyin src o m b).1 a
            ≡ (if leb o a && ltb a (o + m) then bytes (src + (a - o)) else b a))

abbrev pub IsFull : Fs → Type 0
IsFull s = (j : ℕ) → j < s.sb.size → in_use s j ≡ true

-- The blocks of before stay the file's, and only the bitmap, the indirect block and the blocks of
-- the bytes from `off` to `off + k` have been written to.
pub record Touched (s : Fs) (off k : ℕ) (u : Fs) : Type 0 where
  pub sb : u.sb ≡ s.sb
  pub kept : (l : ℕ) → l < slots → slot s l ≢ 0 → slot u l ≡ slot s l
  pub frame :
      (m : ℕ)
      → ((j : ℕ) → j < s.sb.size → bblock j s.sb ≢ m)
      → Avoids m (slot u ndirect)
      → ((q : ℕ) → off ≤ q → q < off + k → Avoids m (file_block u (q / bsize)))
      → u.disk m ≡ s.disk m

pub Touched-refl : (s : Fs) (off : ℕ) → Touched s off 0 s
Touched-refl s off = record { sb = refl; kept = λ l lt nz. refl; frame = λ m map ind at. refl }

pub Touched-none :
    (s t : Fs) (off bn r : ℕ) → Mapped s bn r t → file_block t bn ≡ 0 → Touched s off 0 t
Touched-none s t off bn r map z = record {
  sb = map.grows.sb;
  kept = map.grows.kept;
  frame = λ m nb ind at. map.frame m nb ind (λ nz. absurd (nz z));
}

pub Touched-trans :
    (s t u : Fs) (off m k : ℕ)
    → off + m ≤ max_size
    → Touched s off m t
    → Touched t (off + m) k u
    → Touched s off (m + k) u
Touched-trans s t u off m k room p q = record {
  sb = q.sb ∙ p.sb;
  kept = λ l lt nz. let e = p.kept l lt nz in q.kept l lt (λ z. nz (sym e ∙ z)) ∙ e;
  frame = λ x nb ind at.
      q.frame x
        (λ j jl. subst (λ b. bblock j b ≢ x) (sym p.sb) (nb j (subst (λ b. j < b.size) p.sb jl)))
        ind (λ y lo hi. at y (omega (arith, lo)) (omega (arith, hi)))
      ∙ p.frame x nb (earlier ndirect x (omega arith) ind) (λ y lo hi.
        earlier (slot_of (y / bsize)) x (slot_of-bound (y / bsize) (omega (arith, hi, room))).0
          (at y lo (omega (arith, hi))));
}
  where
    earlier : (l x : ℕ) → l < slots → Avoids x (slot u l) → Avoids x (slot t l)
    earlier l x lt a nz =
        subst (λ b. x ≢ b) (q.kept l lt nz) (a (λ z. nz (sym (q.kept l lt nz) ∙ z)))

pub Wrote-refl : (bytes : ℕ → ℕ) (s : Fs) (off src : ℕ) → Inv s → Wrote bytes s off src 0 s
Wrote-refl bytes s off src inv = record {
  inv = inv;
  sb = refl;
  ip = refl;
  used = λ j lt e. e;
  fresh = λ k lt. inl refl;
  content = λ p pl. ground arith;
}

pub Wrote-none :
    (bytes : ℕ → ℕ) (s t : Fs) (off src bn r : ℕ)
    → Inv s
    → bn < 268
    → Mapped s bn r t
    → Wrote bytes s off src 0 t
Wrote-none bytes s t off src bn r inv lt m = record {
  inv = m.grows.inv;
  sb = m.grows.sb;
  ip = m.grows.ip;
  used = m.grows.used;
  fresh = m.grows.fresh;
  content = λ p pl. ground (arith, bmap-file_byte s t bn r p inv lt m pl);
}

-- one round, and then the others
module _ (bytes : ℕ → ℕ) (s t : Fs) (off src r m : ℕ) (b : Block) (inv : Inv s)
    (room : off < max_size) (map : Mapped s (off / bsize) r t) (fits : off % bsize + m ≤ bsize)
    (pos : r ≢ 0) (at : file_block t (off / bsize) ≡ r)
    (copied : (a : ℕ)
      → b a ≡ (
          if leb (off % bsize) a && ltb a (off % bsize + m)
          then bytes (src + (a - off % bsize))
          else t.disk r a)) where
  lt : off / bsize < 268
  lt = omega (arith, room)

  pub round-Touched : 0 < m → Touched s off m (store r b t)
  unfolding written
  round-Touched some_bytes = record {
    sb = map.grows.sb;
    kept = λ l ll nz.
        written-slot t (off / bsize) r b map.grows.inv lt at pos l ∙ map.grows.kept l ll nz;
    frame = λ x nb ind a.
        let same = written-slot t (off / bsize) r b map.grows.inv lt at pos in
        let here : Avoids x (file_block t (off / bsize)) =
          subst (Avoids x) (same (slot_of (off / bsize)))
            (a off (omega arith) (omega (arith, some_bytes))) in
        let ne : (x == r) ≡ false = ground (arith, here, at, pos) in
        rw ne (map.frame x nb (subst (Avoids x) (same ndirect) ind) here);
  }

  pub round-Wrote : Wrote bytes s off src m (store r b t)
  unfolding written
  round-Wrote = record {
    inv = written-Inv t (off / bsize) r b map.grows.inv lt at pos;
    sb = map.grows.sb;
    ip = map.grows.ip;
    used = λ j jlt e.
        written-in_use t (off / bsize) r b map.grows.inv lt at pos j
          (subst (λ x. j < x.size) (sym map.grows.sb) jlt)
        ∙ map.grows.used j jlt e;
    fresh = λ k klt.
        rw (written-slot t (off / bsize) r b map.grows.inv lt at pos k) (map.grows.fresh k klt);
    content = λ p pl.
        written-file_byte t (off / bsize) r b map.grows.inv lt at pos p pl
        ∙ elim (Bool-cases (p / bsize == off / bsize)) [
          | inl e ↦
              let is : p / bsize ≡ off / bsize = (==_iff _ _).0 e in
              rw e (copied (p % bsize) ∙ inside p pl is)
          | inr e ↦
              rw e (bmap-file_byte s t (off / bsize) r p inv lt map pl ∙ outside p (ground arith))
        ];
  }
    where
      inside :
          (p : ℕ)
          → p < max_size
          → p / bsize ≡ off / bsize
          → (if leb (off % bsize) (p % bsize) && ltb (p % bsize) (off % bsize + m)
              then bytes (src + (p % bsize - off % bsize))
              else t.disk r (p % bsize))
            ≡ (if leb off p && ltb p (off + m) then bytes (src + (p - off)) else file_byte s p)
      inside p pl is =
          let l : leb (off % bsize) (p % bsize) ≡ leb off p = ground arith in
          let h : ltb (p % bsize) (off % bsize + m) ≡ ltb p (off + m) = ground arith in
          let d : p % bsize - off % bsize ≡ p - off = omega arith in
          rw (l, h, d, block_byte s t (off / bsize) r inv lt map at pos p pl is) refl

      outside :
          (p : ℕ)
          → p / bsize ≢ off / bsize
          → file_byte s p
            ≡ (if leb off p && ltb p (off + m) then bytes (src + (p - off)) else file_byte s p)
      outside p ne =
          let no : (leb off p && ltb p (off + m)) ≡ false = ground (arith, fits) in rw no refl

pub Wrote-trans :
    (bytes : ℕ → ℕ) (s t u : Fs) (off src m k : ℕ)
    → Wrote bytes s off src m t
    → Wrote bytes t (off + m) (src + m) k u
    → Wrote bytes s off src (m + k) u
Wrote-trans bytes s t u off src m k p q = record {
  inv = q.inv;
  sb = q.sb ∙ p.sb;
  ip = q.ip ∙ ap {A = Inode} {B = Inode} (λ x. record x { addrs = u.ip.addrs }) p.ip;
  used = λ j lt e. q.used j (subst (λ x. j < x.size) (sym p.sb) lt) (p.used j lt e);
  fresh = Fresh_trans s t u p.used (q.sb ∙ p.sb) p.sb p.inv.ready q.inv p.fresh q.fresh;
  content = λ x xl. q.content x xl ∙ join x (file_byte t x) (file_byte s x) (p.content x xl);
}
  where
    join :
        (x ft fs : ℕ)
        → ft ≡ (if leb off x && ltb x (off + m) then bytes (src + (x - off)) else fs)
        → (if leb (off + m) x && ltb x (off + m + k) then bytes (src + m + (x - (off + m))) else ft)
          ≡ (if leb off x && ltb x (off + (m + k)) then bytes (src + (x - off)) else fs)
    join x ft fs e = elim (Bool-cases (leb (off + m) x)) [
      | inl h ↦
          let d : src + m + (x - (off + m)) ≡ src + (x - off) = ground arith in rw d (ground arith)
      | inr h ↦ ground arith
    ]
