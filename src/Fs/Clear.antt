-- ===== src/Fs/Clear.antt =====
-- The loop of itrunc() over the addresses of an inode, and what these hold.
use os.Prelude.{
  ℕ, zero, suc, ◌+◌, ◌-◌, ◌<◌, ◌≤◌, ◌≡◌, ◌≢◌, ◌⊎◌, inl, inr, refl, sym, ap, ◌∙◌, Bool, false, ◌==◌,
  ltb, update, arith, Bool-cases,
}
use mathlib.Core.Path.{subst}
use native.Mathlib.Decide.{ℕ_discrete}
use os.Kernel.{Block}
use os.Kernel.Runs.{Runs, returns, Runs-bind, Runs-mono}
use os.Log.{word}
use os.Fs.{Fs, Inode, bblock, ndirect, nindirect, set_addr, free_addrs}
use os.Fs.Bits.{in_use}
use os.Fs.Alloc.{bfree-Freed}
use os.Fs.Slots.{slot, Good, Inv}
use os.Fs.Drop.{
  listed, Holds, Dropped, Dropped-refl, Freed-Dropped, Holds-next, Holds-skip, skip_one, drop_one,
}

-- the addresses from `i` on are cleared, and nothing else of the inode has changed
pub record Cleared (i left : ℕ) (s t : Fs) : Type 0 where
  pub zeros : (k : ℕ) → i ≤ k → k < i + left → t.ip.addrs k ≡ 0
  pub others : (k : ℕ) → (k < i) ⊎ (i + left ≤ k) → t.ip.addrs k ≡ s.ip.addrs k
  pub same : t.ip ≡ record s.ip { addrs = t.ip.addrs }

pub set_addr-Dropped :
    (s t : Fs) (gone : ℕ → Bool) (k : ℕ) → Dropped s gone t → Dropped s gone (set_addr k 0 t)
unfolding in_use
set_addr-Dropped s t gone k d = record { sb = d.sb; bits = d.bits; bytes = d.bytes }

Cleared-next :
    (left i : ℕ) (s t u : Fs)
    → t.ip ≡ s.ip
    → Cleared (i + 1) left (set_addr i 0 t) u
    → Cleared i (suc left) s u
Cleared-next left i s t u same c = record {
  zeros = λ k le lt. elim (ℕ_discrete k i) [
    | yes is ↦ c.others k (inl (omega arith)) ∙ ground arith
    | no ne ↦ c.zeros k (omega arith) (omega arith)
  ];
  others = λ k o. c.others k (omega arith) ∙ ground (arith, ap (λ x. x.addrs k) same);
  same = c.same ∙ ap {A = Inode} {B = Inode} (λ x. record x { addrs = u.ip.addrs }) same;
}

pub free_addrs-Dropped :
    (f : ℕ → ℕ) (left i : ℕ) (s : Fs)
    → Holds s f i left
    → ((k : ℕ) → i ≤ k → k < i + left → s.ip.addrs k ≡ f k)
    → Runs
        (λ _ t. Dropped s (listed f left i) t × Cleared i left s t)
        (λ d. ⊥)
        (free_addrs left i s)
unfolding free_addrs listed
free_addrs-Dropped f zero i s h same = returns (
  Dropped-refl s,
  record { zeros = λ k le lt. absurd (omega arith); others = λ k o. refl; same = refl },
)
free_addrs-Dropped f (suc left) i s h same = elim (Bool-cases (s.ip.addrs i == 0)) [
  | inl e ↦ rw e (
      Runs-mono
        (free_addrs-Dropped f left (i + 1) s (Holds-skip h)
          (λ k le lt. same k (omega arith) (omega arith)))
        (λ _ t q. (
          skip_one f i left (ground (arith, same i)) q.0,
          record {
            zeros = λ k le lt. elim (ℕ_discrete k i) [
              | yes is ↦ q.1.others k (inl (omega arith)) ∙ ground (arith, is, ap s.ip.addrs is)
              | no ne ↦ q.1.zeros k (omega arith) (omega arith)
            ];
            others = λ k o. q.1.others k (omega arith);
            same = q.1.same;
          },
        ))
        (λ d q. q))
  | inr e ↦
      let nz : f i ≢ 0 = ground (arith, same i) in
      let g = h.good i (omega arith) (omega arith) nz in
      let at = same i (omega arith) (omega arith) in
      rw (e, at)
        (Runs-bind (bfree-Freed s (f i) g.used) λ _ t fr.
          let d = set_addr-Dropped s t (λ j. f i == j) i (Freed-Dropped (f i) g.within fr) in
          Runs-mono
            (free_addrs-Dropped f left (i + 1) (set_addr i 0 t) (Holds-next nz h d)
              (λ k le klt. ground (arith, ap (λ x. x.addrs k) fr.ip, same k)))
            (λ _ u q. (drop_one f i left nz d q.0, Cleared-next left i s t u fr.ip q.1))
            (λ d' q. q))
]

-- the block of the inode's copy on disk is none of the bitmap
abbrev pub Apart : Fs → ℕ → Type 0
Apart s m = (j : ℕ) → j < s.sb.size → bblock j s.sb ≢ m

pub store-in_use :
    (s : Fs) (m : ℕ) (b : Block) (j : ℕ)
    → bblock j s.sb ≢ m
    → in_use (record s { disk = update s.disk m b }) j ≡ in_use s j
unfolding in_use
store-in_use s m b j ne = let e : (bblock j s.sb == m) ≡ false = ground arith in rw e refl

-- what the inode holds, as two arrays
module _ (s : Fs) (inv : Inv s) where
  pub addrs-Holds : Holds s s.ip.addrs 0 ndirect
  addrs-Holds = record {
    good = λ k le lt nz. rw (slot_addr k lt) at (inv.good k (omega arith) (ground arith));
    distinct = λ k l le kl lt nz.
        ground (arith, inv.distinct k l (omega arith) (omega arith) (omega arith));
  }
    where
      slot_addr : (k : ℕ) → k < ndirect → slot s k ≡ s.ip.addrs k
      slot_addr k lt = ground arith

  unfoldable pub entries : ℕ → ℕ
  entries = word (s.disk (s.ip.addrs ndirect))

  pub slot-entries : (k : ℕ) → s.ip.addrs ndirect ≢ 0 → slot s (13 + k) ≡ entries k
  unfolding entries
  slot-entries k nz =
      let e : ltb (13 + k) 13 ≡ false = ground arith in
      let f : (s.ip.addrs ndirect == 0) ≡ false = ground arith in
      let g : 13 + k - 13 ≡ k = omega arith in rw (e, f, g) refl

  pub entries-Holds : s.ip.addrs ndirect ≢ 0 → Holds s entries 0 nindirect
  entries-Holds nz = record {
    good = λ k le lt kz.
        subst (Good s) (slot-entries k nz)
          (inv.good (13 + k) (omega arith) (λ z. kz (sym (slot-entries k nz) ∙ z)));
    distinct = λ k l le kl lt kz. ground (
      arith,
      slot-entries k nz,
      slot-entries l nz,
      inv.distinct (13 + k) (13 + l) (omega arith) (omega arith) (omega arith),
    );
  }
