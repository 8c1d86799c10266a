-- ===== src/Fs/Content/Read.antt =====
-- readi(): what it reads of a file.
use Prim.Native.Nat.{min}
use os.Prelude.{
  ℕ, zero, suc, ◌+◌, ◌-◌, ◌/◌, ◌%◌, ◌^◌, ◌<◌, ◌≤◌, ◌≡◌, ◌≢◌, ◌⊎◌, inl, inr, refl, sym, ap, ◌∙◌,
  true, false, Option, some, ◌&&◌, ◌||◌, ◌==◌, ltb, leb, if◌then◌else◌, arith, Bool-cases, ==_iff,
  u32,
}
use mathlib.Core.Path.{subst}
use os.Kernel.{Block}
use os.Kernel.Runs.{Runs, returns, Runs-bind, Runs-mono}
use os.Str.{Memory}
use os.Fs.{Fs, bsize}
use os.Fs.Slots.{Inv, Grows, Grows-refl, Grows-trans}
use os.Fs.Map.{slot_of, slot_of-bound, file_block, Mapped, bmap-Mapped}
use os.Fs.Content.{CopyOut, read_loop, readi}
use os.Fs.Content.Round.{IsFull}
use os.Fs.Content.Bytes.{file_byte, max_size, bmap-file_byte, block_byte}

-- a copy that does not fail
abbrev pub Delivers : CopyOut → Type 0
Delivers copyout =
    (dst o m : ℕ) (b : Block) (mem : Memory)
    → ((copyout dst o m b mem).0 ≡ true)
      × ((a : ℕ)
          → (copyout dst o m b mem).1 a
            ≡ (if leb dst a && ltb a (dst + m) then b (o + (a - dst)) else mem a))

-- `k` bytes of the file from `off` on are in memory from `dst` on: all `n`, or those before a block
-- that the file does not have, and then every block is in use.
pub record IsRead (s : Fs) (off dst n : ℕ) (mem : Memory) (k : ℕ) (mem' : Memory) (u : Fs)
    : Type 0 where
  pub le : k ≤ n
  pub why : (k ≡ n) ⊎ ((file_block s ((off + k) / bsize) ≡ 0) × IsFull u)
  pub memory :
      (a : ℕ)
      → mem' a ≡ (if leb dst a && ltb a (dst + k) then file_byte s (off + (a - dst)) else mem a)
  pub grows : Grows s u
  pub content : (p : ℕ) → p < max_size → file_byte u p ≡ file_byte s p

empty_before :
    (s t : Fs) (bn : ℕ) → Grows s t → bn < 268 → file_block t bn ≡ 0 → file_block s bn ≡ 0
empty_before s t bn g lt z = elim (Bool-cases (file_block s bn == 0)) [
  | inl e ↦ (==_iff _ _).0 e
  | inr e ↦
      let nz : file_block s bn ≢ 0 = ground arith in
      sym (g.kept (slot_of bn) (slot_of-bound bn lt).0 nz) ∙ z
]

-- the bytes that a round copies
round_bytes :
    (s t : Fs) (off dst m r : ℕ) (mem : Memory)
    → Inv s
    → Mapped s (off / bsize) r t
    → file_block t (off / bsize) ≡ r
    → r ≢ 0
    → off < max_size
    → off % bsize + m ≤ bsize
    → (a : ℕ)
    → (if leb dst a && ltb a (dst + m) then t.disk r (off % bsize + (a - dst)) else mem a)
      ≡ (if leb dst a && ltb a (dst + m) then file_byte s (off + (a - dst)) else mem a)
round_bytes s t off dst m r mem inv map at pos lt fits a =
    elim (Bool-cases (leb dst a && ltb a (dst + m))) [
      | inr e ↦ rw e refl
      | inl e ↦
          let p = off + (a - dst) in
          let here : p / bsize ≡ off / bsize = ground (arith, fits) in
          let o : p % bsize ≡ off % bsize + (a - dst) = ground (arith, fits) in
          let pl : p < max_size = ground (arith, fits, lt) in
          rw e (
            ap (t.disk r) (sym o)
            ∙ block_byte s t (off / bsize) r inv (omega (arith, lt)) map at pos p pl here)
    ]

module _ (s t u : Fs) (off dst n m k : ℕ) (mem mem' mem'' : Memory) (inv : Inv s)
    (some_bytes : 0 < m) (fits : off + m ≤ max_size) (in_range : off + n ≤ max_size)
    (map : Grows s t) (content : (p : ℕ) → p < max_size → file_byte t p ≡ file_byte s p)
    (copied : (a : ℕ)
      → mem' a ≡ (if leb dst a && ltb a (dst + m) then file_byte s (off + (a - dst)) else mem a))
    (le : m ≤ n) (r : IsRead t (off + m) (dst + m) (n - m) mem' k mem'' u) where
  next-IsRead : IsRead s off dst n mem (m + k) mem'' u
  next-IsRead = record {
    le = omega (arith, r.le);
    why = elim (Bool-cases (m + k == n)) [
      | inl e ↦ inl ((==_iff _ _).0 e)
      | inr e ↦ elim r.why [
        | inl all ↦ inl (omega (arith, all))
        | inr (z, full) ↦
            let at : off + m + k ≡ off + (m + k) = omega arith in
            inr (
              empty_before s t ((off + (m + k)) / bsize) map (ground (arith, r.le))
                  (subst (λ p. file_block t (p / bsize) ≡ 0) at z),
              full,
            )
      ]
    ];
    memory = λ a. r.memory a ∙ elim (Bool-cases (leb (dst + m) a && ltb a (dst + m + k))) [
      | inl e ↦
          let i : (leb dst a && ltb a (dst + (m + k))) ≡ true = ground arith in
          let at : off + m + (a - (dst + m)) ≡ off + (a - dst) = ground arith in
          rw (e, i, at) (content (off + (a - dst)) (ground (arith, r.le)))
      | inr e ↦ rw e (
          copied a ∙ elim (Bool-cases (leb dst a && ltb a (dst + m))) [
            | inl f ↦
                let i : (leb dst a && ltb a (dst + (m + k))) ≡ true = ground arith in rw (f, i) refl
            | inr f ↦
                let i : (leb dst a && ltb a (dst + (m + k))) ≡ false = ground arith in
                rw (f, i) refl
          ])
    ];
    grows = Grows-trans map r.grows;
    content = λ p pl. r.content p pl ∙ content p pl;
  }

abbrev ReadEnds : Fs → ℕ → ℕ → ℕ → ℕ → Memory → Option ℕ × Memory → Fs → Type 0
ReadEnds s tot off dst n mem r u = (k : ℕ) × (r.0 ≡ some (tot + k)) × IsRead s off dst n mem k r.1 u

module _ (copyout : CopyOut) (delivers : Delivers copyout) where
  none-IsRead :
      (s : Fs) (off dst n : ℕ) (mem : Memory) (t : Fs)
      → Grows s t
      → ((p : ℕ) → p < max_size → file_byte t p ≡ file_byte s p)
      → (0 ≡ n) ⊎ ((file_block s (off / bsize) ≡ 0) × IsFull t)
      → IsRead s off dst n mem 0 mem t
  none-IsRead s off dst n mem t g c why = record {
    le = omega arith;
    why = elim why [
      | inl e ↦ inl e
      | inr (z, full) ↦ inr (subst (λ p. file_block s (p / bsize) ≡ 0) (omega arith) z, full)
    ];
    memory = λ a. ground arith;
    grows = g;
    content = c;
  }

  read_loop-ReadEnds :
      (fuel tot off dst n : ℕ) (mem : Memory) (s : Fs)
      → Inv s
      → tot ≤ n
      → off + (n - tot) ≤ max_size
      → n - tot < fuel
      → Runs
          (ReadEnds s tot off dst (n - tot) mem)
          (λ d. ⊥)
          (read_loop copyout fuel tot off dst n mem s)
  unfolding read_loop
  read_loop-ReadEnds zero tot off dst n mem s inv le room enough = absurd (omega (arith, enough))
  read_loop-ReadEnds (suc fuel) tot off dst n mem s inv le room enough =
      elim (Bool-cases (ltb tot n)) [
        | inr e ↦ rw e (
            returns (
              0,
              ap some (omega arith),
              none-IsRead s off dst (n - tot) mem s (Grows-refl inv) (λ p pl. refl)
                  (inl (ground arith)),
            ))
        | inl e ↦
            let lt : off / bsize < 268 = ground (arith, room) in
            rw e (
              Runs-bind (bmap-Mapped s (off / bsize) inv lt) λ r t map. elim map.found [
                | inl (z, empty, full) ↦ rw z (
                    returns (
                      0,
                      ap some (omega arith),
                      none-IsRead s off dst (n - tot) mem t map.grows
                          (λ p pl. bmap-file_byte s t (off / bsize) r p inv lt map pl)
                          (inr (
                            empty_before s t (off / bsize) map.grows lt empty,
                            (λ j jlt. full j (subst (λ b. j < b.size) map.grows.sb jlt)),
                          )),
                    ))
                | inr (pos, at, zeroed) ↦
                    let busy : (r == 0) ≡ false = ground arith in
                    let m = min (n - tot) (bsize - off % bsize) in
                    let c = delivers dst (off % bsize) m (t.disk r) mem in
                    let done = c.0 in
                    rw (busy, done)
                      (Runs-mono
                        (read_loop-ReadEnds fuel (tot + m) (off + m) (dst + m) n
                          (copyout dst (off % bsize) m (t.disk r) mem).1 t map.grows.inv
                          (ground arith) (ground (arith, room)) (ground (arith, enough)))
                        (λ q u (k, is, rest). (
                          m + k,
                          is ∙ ap some (omega arith),
                          next-IsRead s t u off dst (n - tot) m k mem _ q.1 inv (ground arith)
                              (ground (arith, room)) (ground (arith, room)) map.grows
                              (λ p pl. bmap-file_byte s t (off / bsize) r p inv lt map pl)
                              (λ a.
                                c.1 a
                                ∙ round_bytes s t off dst m r mem inv map at pos
                                    (ground (arith, room)) (omega arith) a)
                              (omega arith)
                              (subst
                                (λ l.
                                  IsRead t (off + m) (dst + m) l
                                    (copyout dst (off % bsize) m (t.disk r) mem).1 k q.1 u)
                                (omega arith) rest),
                        ))
                        (λ d q. q))
              ])
      ]

-- the bytes that a call of readi() is for
abbrev pub readable : Fs → ℕ → ℕ → ℕ
readable s off n = min n (s.ip.size - off)

-- Where the copy does not fail, the blocks of the inode are in use, distinct and none of the
-- bitmap, and the range begins in the file or at its end and does not wrap around, readi() returns
-- a number of bytes. These bytes of the file from `off` on are then in memory from `dst` on, and
-- no other byte of memory has changed. They are all that the file has of the range, or those
-- before a block that the file lacks, and then every block is in use. The bytes of the file and
-- the blocks that it had stay.
pub readi-IsRead :
    (copyout : CopyOut) (dst off n : ℕ) (mem : Memory) (s : Fs)
    → Delivers copyout
    → Inv s
    → off ≤ s.ip.size
    → s.ip.size ≤ max_size
    → off + n < 2 ^ 32
    → Runs
        (λ r t. (k : ℕ) × (r.0 ≡ some k) × IsRead s off dst (readable s off n) mem k r.1 t)
        (λ d. ⊥)
        (readi copyout dst off n mem s)
unfolding readi
readi-IsRead copyout dst off n mem s delivers inv inside bounded room =
    let first : (ltb s.ip.size off || ltb (u32 (off + n)) off) ≡ false = ground (arith, room) in
    let all : (if ltb s.ip.size (u32 (off + n)) then s.ip.size - off else n) ≡ readable s off n =
      ground (arith, room) in
    rw (first, all)
      (Runs-mono
        (read_loop-ReadEnds copyout delivers (suc (readable s off n)) 0 off dst (readable s off n)
          mem s inv (omega arith) (omega (arith, bounded, inside)) (omega arith))
        (λ r t (k, is, read). (
          k,
          is ∙ ap some (omega arith),
          subst (λ l. IsRead s off dst l mem k r.1 t) (omega arith) read,
        ))
        (λ d q. q))
