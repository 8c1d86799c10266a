-- ===== src/Fs/Content/Write.antt =====
-- writei(): the bytes that a file has afterwards.
use os.Prelude.{
  ℕ, suc, ◌+◌, ◌-◌, ◌*◌, ◌/◌, ◌%◌, ◌^◌, ◌<◌, ◌≤◌, ◌≡◌, ◌≢◌, ◌⊎◌, inl, inr, refl, sym, ap, ◌∙◌, true,
  false, Option, some, ◌&&◌, ◌||◌, ◌==◌, ltb, leb, if◌then◌else◌, arith, Bool-cases, u32,
}
use mathlib.Core.Path.{subst}
use os.Kernel.{Block, ok}
use os.Kernel.Runs.{Runs, returns, Runs-bind}
use os.Fs.{Fs, Inode, bblock, iblock, bsize, ndirect, store, iupdate, get_dinode}
use os.Fs.Bits.{in_use}
use os.Fs.Slots.{slots, slot, Good, Inv, Avoids}
use os.Fs.Map.{slot_of, slot_of-bound, file_block}
use os.Fs.Clear.{Apart, store-in_use}
use os.Fs.Content.{CopyIn, maxfile, write_end, writei}
use os.Fs.Content.Round.{Wrote, Copies, IsFull, Touched}
use os.Fs.Content.Bytes.{file_byte, max_size}
use os.Fs.Content.Loop.{write_loop-LoopEnds}
use os.Fs.Dinode.{Fits, Same, iupdate-Same}

-- A block that is neither of the bitmap nor of the file: a write of it changes nothing of these.
module _ (s : Fs) (m : ℕ) (b : Block) (inv : Inv s) (some_block : 0 < s.sb.size) (apart : Apart s m)
    (out : (k : ℕ) → k < slots → slot s k ≢ m) where
  outside-slot : (k : ℕ) → slot (store m b s) k ≡ slot s k
  outside-slot k =
      let e : (s.ip.addrs ndirect == m) ≡ false = ground (arith, out ndirect) in rw e refl

  outside-file_byte : (p : ℕ) → p < max_size → file_byte (store m b s) p ≡ file_byte s p
  unfolding file_byte
  outside-file_byte p pl =
      let e : (file_block s (p / bsize) == m) ≡ false =
        ground (arith, out (slot_of (p / bsize)) (slot_of-bound (p / bsize) (omega arith)).0) in
      rw (outside-slot (slot_of (p / bsize)), e) refl

  outside-Inv : Inv (store m b s)
  outside-Inv = record {
    ready = record {
      room = inv.ready.room;
      boot = store-in_use s m b 0 (apart 0 some_block) ∙ inv.ready.boot;
      bitmap = λ j jlt blt. store-in_use s m b _ (apart _ blt) ∙ inv.ready.bitmap j jlt blt;
    };
    good = λ k klt nz.
        let g = inv.good k klt (λ z. nz (outside-slot k ∙ z)) in
        subst (Good (store m b s)) (sym (outside-slot k)) (record {
          within = g.within;
          used = store-in_use s m b _ (apart _ g.within) ∙ g.used;
          apart = g.apart;
        });
    distinct = λ k l klt llt ne nz e.
        inv.distinct k l klt llt ne (λ z. nz (outside-slot k ∙ z))
          (sym (outside-slot k) ∙ e ∙ outside-slot l);
  }

-- the block with the inode's copy: in use, none of the bitmap and none of the file
pub record Outside (s : Fs) (m : ℕ) : Type 0 where
  pub within : m < s.sb.size
  pub used : in_use s m ≡ true
  pub apart : Apart s m
  pub out : (k : ℕ) → k < slots → slot s k ≢ m

-- what writei() leaves: `k` bytes were written, all of them or as many as there were blocks for
pub record Written (bytes : ℕ → ℕ) (s : Fs) (off src n : ℕ) (r : Option ℕ) (u : Fs) : Type 0 where
  pub k : ℕ
  pub result : r ≡ some k
  pub le : k ≤ n
  pub why : (k ≡ n) ⊎ IsFull u
  pub inv : Inv u
  pub size : u.ip.size ≡ (if ltb s.ip.size (off + k) then off + k else s.ip.size)
  pub content :
      (p : ℕ)
      → p < max_size
      → file_byte u p
        ≡ (if leb off p && ltb p (off + k) then bytes (src + (p - off)) else file_byte s p)
  pub saved :
      (old : Inode)
      → Same u.ip (get_dinode (u.disk (iblock s.ip.inum s.sb)) (16 * (s.ip.inum % 16)) old)
  pub frame :
      (m : ℕ)
      → m ≢ iblock s.ip.inum s.sb
      → ((j : ℕ) → j < s.sb.size → bblock j s.sb ≢ m)
      → Avoids m (slot u ndirect)
      → ((q : ℕ) → off ≤ q → q < off + k → Avoids m (file_block u (q / bsize)))
      → u.disk m ≡ s.disk m

-- a new size changes no block
module _ (v : Fs) (size : ℕ) where
  sized : Fs
  sized = record v { ip = record v.ip { size = size } }

  sized-Inv : Inv v → Inv sized
  unfolding sized in_use
  sized-Inv inv = record {
    ready = record { room = inv.ready.room; boot = inv.ready.boot; bitmap = inv.ready.bitmap };
    good = λ k lt nz.
        let g = inv.good k lt nz in record { within = g.within; used = g.used; apart = g.apart };
    distinct = inv.distinct;
  }

module _ (bytes : ℕ → ℕ) (s v : Fs) (off src n k size : ℕ) (fits : Fits s.ip)
    (o : Outside s (iblock s.ip.inum s.sb)) (w : Wrote bytes s off src k v)
    (small : size ≤ max_size) where
  at : iblock v.ip.inum v.sb ≡ iblock s.ip.inum s.sb
  at = ap (λ x. iblock x.inum v.sb) w.ip ∙ ap (iblock s.ip.inum) w.sb

  pub Apart-after : Apart v (iblock v.ip.inum v.sb)
  Apart-after j lt e =
      o.apart j (subst (λ b. j < b.size) w.sb lt) (ap (bblock j) (sym w.sb) ∙ e ∙ at)

  pub out_after : (l : ℕ) → l < slots → slot v l ≢ iblock v.ip.inum v.sb
  out_after l lt e = elim (w.fresh l lt) [
    | inl same ↦ o.out l lt (sym same ∙ e ∙ at)
    | inr free ↦ ground (arith, free, o.used, ap (in_use s) (e ∙ at))
  ]

  pub Fits-after : Fits (record v.ip { size = size })
  Fits-after = record {
    type = subst (λ x. x.type < 2 ^ 16) (sym w.ip) fits.type;
    major = subst (λ x. x.major < 2 ^ 16) (sym w.ip) fits.major;
    minor = subst (λ x. x.minor < 2 ^ 16) (sym w.ip) fits.minor;
    nlink = subst (λ x. x.nlink < 2 ^ 16) (sym w.ip) fits.nlink;
    size = omega (arith, small);
    addrs = λ l le. elim (Bool-cases (v.ip.addrs l == 0)) [
      | inl z ↦ ground arith
      | inr nz ↦
          let e : slot v l ≡ v.ip.addrs l = ground arith in
          omega
            (arith, e, (w.inv.good l (omega arith) (ground (arith, e))).within, w.inv.ready.room)
    ];
  }

  some_block : 0 < v.sb.size
  some_block = subst (λ b. 0 < b.size) (sym w.sb) (omega (arith, o.within))

  saved_after :
      (old : Inode)
      → Same
          (record v.ip { size = size })
          (get_dinode
            ((iupdate (sized v size)).disk (iblock s.ip.inum s.sb))
            (16 * (s.ip.inum % 16))
            old)
  unfolding sized
  saved_after old =
      subst
        (λ b.
          Same (record v.ip { size = size })
            (get_dinode
              ((iupdate (record v { ip = record v.ip { size = size } })).disk (iblock s.ip.inum b))
              (16 * (s.ip.inum % 16)) old))
        w.sb
        (iupdate-Same (record v { ip = record v.ip { size = size } }) old s.ip.inum Fits-after
          (sym (ap (λ x. x.inum) w.ip)))

  end-Written :
      Touched s off k v
      → k ≤ n
      → (k ≡ n) ⊎ IsFull v
      → size ≡ (if ltb s.ip.size (off + k) then off + k else s.ip.size)
      → Written bytes s off src n (some k) (iupdate (sized v size))
  unfolding iupdate sized in_use file_byte
  end-Written touched le why is = record {
    k = k;
    result = refl;
    le = le;
    why = elim why [
      | inl e ↦ inl e
      | inr full ↦
          inr (λ j lt. store-in_use v (iblock v.ip.inum v.sb) _ j (Apart-after j lt) ∙ full j lt)
    ];
    inv =
        outside-Inv (sized v size) (iblock v.ip.inum v.sb) _ (sized-Inv v size w.inv) some_block
          Apart-after out_after;
    size = is;
    content = λ p pl.
        outside-file_byte (sized v size) (iblock v.ip.inum v.sb) _ (sized-Inv v size w.inv)
          some_block Apart-after out_after p pl
        ∙ w.content p pl;
    saved = saved_after;
    frame = λ m ne nb ind own.
        let e : (m == iblock v.ip.inum v.sb) ≡ false = ground (arith, at, ne) in
        let same =
          outside-slot (sized v size) (iblock v.ip.inum v.sb) _ (sized-Inv v size w.inv) some_block
            Apart-after out_after in
        rw e (
          touched.frame m nb (subst (Avoids m) (same ndirect) ind)
            (λ q lo hi. subst (Avoids m) (same (slot_of (q / bsize))) (own q lo hi)));
  }

end_state :
    (v : Fs) (z : ℕ)
    → sized v (if ltb v.ip.size z then z else v.ip.size)
      ≡ (if ltb v.ip.size z then record v { ip = record v.ip { size = z } } else v)
unfolding sized
end_state v z = elim (Bool-cases (ltb v.ip.size z)) [ inl e ↦ rw e refl | inr e ↦ rw e refl ]

write_end-Written :
    (bytes : ℕ → ℕ) (s v : Fs) (off src n k : ℕ) (r : ℕ × ℕ)
    → Fits s.ip
    → Outside s (iblock s.ip.inum s.sb)
    → Wrote bytes s off src k v
    → Touched s off k v
    → off + n ≤ max_size
    → s.ip.size ≤ max_size
    → r.0 ≡ k
    → r.1 ≡ off + k
    → k ≤ n
    → (k ≡ n) ⊎ IsFull v
    → Runs (Written bytes s off src n) (λ d. ⊥) (write_end r v)
unfolding write_end
write_end-Written bytes s v off src n k r fits o w p room bounded e f le why =
    subst (Runs _ _) (λ i. ok (some (sym e i), iupdate (state i)))
      (returns (
        end-Written bytes s v off src n k (if ltb s.ip.size (off + k) then off + k else s.ip.size)
          fits o w (ground arith) p le why refl))
  where
    size :
        (if ltb s.ip.size (off + k) then off + k else s.ip.size)
        ≡ (if ltb v.ip.size r.1 then r.1 else v.ip.size)
    size = ground (arith, ap (λ x. x.size) w.ip)

    state :
        sized v (if ltb s.ip.size (off + k) then off + k else s.ip.size)
        ≡ (if ltb v.ip.size r.1 then record v { ip = record v.ip { size = r.1 } } else v)
    state = ap (sized v) size ∙ end_state v r.1

-- Where the copy does not fail, the blocks of the inode are in use, distinct and none of the
-- bitmap, its copy on disk is in another block in use, and the range begins in the file or at its
-- end and fits in the largest file, writei() returns a number of bytes: all of them, or fewer if
-- every block is in use. The file then has these bytes of the source from `off` on and all else as
-- before, its size has grown to hold them, and the copy of the inode on disk is the one in memory.
pub writei-Written :
    (copyin : CopyIn) (bytes : ℕ → ℕ) (src off n : ℕ) (s : Fs)
    → Copies copyin bytes
    → Inv s
    → Fits s.ip
    → Outside s (iblock s.ip.inum s.sb)
    → off ≤ s.ip.size
    → s.ip.size ≤ max_size
    → off + n ≤ max_size
    → Runs (Written bytes s off src n) (λ d. ⊥) (writei copyin src off n s)
unfolding writei
writei-Written copyin bytes src off n s copies inv fits o inside bounded room =
    let first : (ltb s.ip.size off || ltb (u32 (off + n)) off) ≡ false = ground (arith, room) in
    let second : ltb (maxfile * bsize) (u32 (off + n)) ≡ false = ground (arith, room) in
    rw (first, second)
      (Runs-bind
        (write_loop-LoopEnds copyin bytes copies (suc n) 0 off src n s inv (omega arith)
          (omega arith) (omega arith))
        λ r v ends.
          let (k, e, f, le, w, why, p) = ends in
          write_end-Written bytes s v off src n k r fits o w p room bounded (omega (arith, e)) f
            (omega (arith, le))
            (elim why [ inl all ↦ inl (omega (arith, all)) | inr full ↦ inr full ]))
