-- ===== src/Fs/Entries.antt =====
-- The two reads of a block number in bmap(), from the inode and from its indirect block.
use os.Prelude.{
  ℕ, ◌+◌, ◌-◌, ◌*◌, ◌^◌, ◌<◌, ◌≤◌, ◌≡◌, ◌≢◌, inl, inr, refl, sym, ap, ◌∙◌, true, false, ◌==◌, ltb,
  if◌then◌else◌, update, arith, Bool-cases, ==_iff,
}
use mathlib.Core.Path.{subst}
use os.Kernel.{Block}
use os.Kernel.Runs.{Runs, returns, Runs-bind}
use os.Log.{word, set_word}
use os.Log.Words.{word-set_word_self, word-set_word_ne}
use os.Fs.{Fs, Inode, bblock, bsize, ndirect, nindirect, store, set_addr, addr_or_new, entry_or_new}
use os.Fs.Bits.{in_use}
use os.Fs.Alloc.{New, balloc-Allocated}
use os.Fs.Slots.{slots, slot, Good, Inv, Grows-refl, Got, grown}

word-zero : (b : Block) (j : ℕ) → ((o : ℕ) → o < bsize → b o ≡ 0) → j < nindirect → word b j ≡ 0
unfolding word
word-zero b j z lt = omega (arith, z (4 * j), z (4 * j + 1), z (4 * j + 2), z (4 * j + 3))

-- a slot that holds a block, or none where every block is in use
has_block : (s : Fs) (k : ℕ) → Inv s → slot s k ≢ 0 → Got s k (slot s k) s
has_block s k inv nz = record {
  grows = Grows-refl inv;
  others = λ l lt ne. refl;
  found = inr (nz, refl, λ z. absurd (nz z));
  frame = λ m map ind at. refl;
}

no_block :
    (s : Fs) (k : ℕ)
    → Inv s
    → slot s k ≡ 0
    → ((j : ℕ) → j < s.sb.size → in_use s j ≡ true)
    → Got s k 0 s
no_block s k inv z full = record {
  grows = Grows-refl inv;
  others = λ l lt ne. refl;
  found = inl (refl, z, full);
  frame = λ m map ind at. refl;
}

module _ (s t : Fs) (n k : ℕ) (inv : Inv s) (le : k ≤ ndirect) (pos : n ≢ 0) (new : New s n t) where
  same_addrs : (l : ℕ) → t.ip.addrs l ≡ s.ip.addrs l
  same_addrs l = ap (λ i. i.addrs l) new.ip

  same_indirect : s.ip.addrs ndirect ≢ 0 → t.disk (s.ip.addrs ndirect) ≡ s.disk (s.ip.addrs ndirect)
  same_indirect nz =
      let g = inv.good ndirect (omega arith) nz in
      new.others (s.ip.addrs ndirect) (λ e. ground (arith, g.used, new.free, ap (in_use s) e))
        g.apart

  set_addr-slot :
      slot s k ≡ 0
      → (l : ℕ) → l < slots
      → slot (set_addr k n t) l ≡ (if l == k then n else slot s l)
  set_addr-slot empty l lt = elim (Bool-cases (ltb l 13)) [
    | inl e ↦ rw e (ground (arith, same_addrs l))
    | inr e ↦ elim (Bool-cases (ndirect == k)) [
      | inl f ↦
          let none_before : s.ip.addrs ndirect ≡ 0 = ground (arith, (==_iff ndirect k).0 f) in
          rw (e, f)
            (ground (
              arith,
              word-zero (t.disk n) (l - 13) new.zeroed (ground arith),
              none_before,
              (==_iff ndirect k).0 f,
            ))
      | inr f ↦ elim (Bool-cases (s.ip.addrs ndirect == 0)) [
        | inl g ↦ ground (arith, same_addrs ndirect)
        | inr g ↦ ground (
          arith,
          same_addrs ndirect,
          ap t.disk (same_addrs ndirect),
          ap (λ b. word b (l - 13)) (same_indirect (ground arith)),
        )
      ]
    ]
  ]

  set_addr-Got : slot s k ≡ 0 → Got s k n (set_addr k n t)
  unfolding in_use
  set_addr-Got empty =
      grown s t (set_addr k n t) n k inv (omega arith) empty pos new new.sb
        (ap {A = Inode} {B = Inode} (λ x. record x { addrs = update t.ip.addrs k n }) new.ip)
        (λ j lt. refl) (set_addr-slot empty) (λ m ne. refl) (λ m ne. refl)

pub addr_or_new-Got :
    (s : Fs) (k : ℕ) → Inv s → k ≤ ndirect → Runs (Got s k) (λ d. ⊥) (addr_or_new k s)
unfolding addr_or_new
addr_or_new-Got s k inv le = elim (Bool-cases (s.ip.addrs k == 0)) [
  | inr e ↦ rw e (returns (subst (λ a. Got s k a s) at (has_block s k inv (ground arith))))
  | inl e ↦ rw e (
      Runs-bind (balloc-Allocated s inv.ready) λ r t alloc. elim alloc [
        | inl (z, same, full) ↦
            rw z (returns (subst (Got s k 0) (sym same) (no_block s k inv (ground arith) full)))
        | inr (pos, new) ↦
            let busy : (r == 0) ≡ false = ground arith in
            rw busy (returns (set_addr-Got s t r k inv le pos new (ground arith)))
      ])
]
  where
    at : slot s k ≡ s.ip.addrs k
    at = ground arith

module _ (s t : Fs) (n j : ℕ) (inv : Inv s) (lt : j < nindirect) (some_ind : s.ip.addrs ndirect ≢ 0)
    (pos : n ≢ 0) (new : New s n t) where
  put_entry : Fs
  put_entry = store (s.ip.addrs ndirect) (set_word (t.disk (s.ip.addrs ndirect)) j n) t

  Good-ind : Good s (s.ip.addrs ndirect)
  Good-ind = inv.good ndirect (omega arith) some_ind

  entry-in_use : (i : ℕ) → i < s.sb.size → in_use put_entry i ≡ in_use t i
  unfolding in_use put_entry
  entry-in_use i ilt =
      let e : (bblock i t.sb == s.ip.addrs ndirect) ≡ false =
        ground (arith, Good-ind.apart i ilt, ap (λ b. bblock i b) new.sb) in
      rw e refl

  entry-slot : (l : ℕ) → l < slots → slot put_entry l ≡ (if l == 13 + j then n else slot s l)
  unfolding put_entry
  entry-slot l llt =
      let same = same_indirect s t n ndirect inv (omega arith) pos new some_ind in
      let small : n < 2 ^ 32 = omega (arith, new.within, inv.ready.room) in
      elim (Bool-cases (ltb l 13)) [
        | inl e ↦ rw e (ground (arith, same_addrs s t n ndirect inv (omega arith) pos new l))
        | inr e ↦
            let there : (t.ip.addrs ndirect == 0) ≡ false =
              ground (arith, same_addrs s t n ndirect inv (omega arith) pos new ndirect) in
            let here : (s.ip.addrs ndirect == 0) ≡ false = ground arith in
            let at : (t.ip.addrs ndirect == s.ip.addrs ndirect) ≡ true =
              ground (arith, same_addrs s t n ndirect inv (omega arith) pos new ndirect) in
            rw (e, there, at, here)
              (elim (Bool-cases (l == 13 + j)) [
                | inl f ↦ rw f (
                    ap (word (set_word (t.disk (s.ip.addrs ndirect)) j n)) (ground arith)
                    ∙ word-set_word_self _ j n small)
                | inr f ↦ rw f (
                    word-set_word_ne _ j (l - 13) n (ground arith) ∙ ap (λ b. word b (l - 13)) same)
              ])
      ]

  entry-Got : slot s (13 + j) ≡ 0 → Got s (13 + j) n put_entry
  unfolding put_entry
  entry-Got empty =
      grown s t put_entry n (13 + j) inv (omega arith) empty pos new new.sb
        (new.ip ∙ ap {A = Inode} {B = Inode} (λ x. record s.ip { addrs = x.addrs }) (sym new.ip))
        entry-in_use entry-slot (λ m ne. ground arith)
        (λ m ne.
          let at : t.ip.addrs ndirect ≡ s.ip.addrs ndirect =
            same_addrs s t n ndirect inv (omega arith) pos new ndirect in
          ground (arith, ne, at))

pub entry_or_new-Got :
    (s : Fs) (j : ℕ)
    → Inv s
    → j < nindirect
    → s.ip.addrs ndirect ≢ 0
    → Runs (Got s (13 + j)) (λ d. ⊥) (entry_or_new (s.ip.addrs ndirect) j s)
unfolding entry_or_new put_entry
entry_or_new-Got s j inv lt some_ind =
    elim (Bool-cases (word (s.disk (s.ip.addrs ndirect)) j == 0)) [
      | inr e ↦ rw e (
          returns (
            subst (λ a. Got s (13 + j) a s) at
              (has_block s (13 + j) inv (λ z. ground (arith, at)))))
      | inl e ↦ rw e (
          Runs-bind (balloc-Allocated s inv.ready) λ r t alloc. elim alloc [
            | inl (z, same, full) ↦ rw z (
                returns (
                  subst (Got s (13 + j) 0) (sym same)
                    (no_block s (13 + j) inv (at ∙ (==_iff _ _).0 e) full)))
            | inr (pos, new) ↦
                let busy : (r == 0) ≡ false = ground arith in
                rw busy
                  (returns (entry-Got s t r j inv lt some_ind pos new (at ∙ (==_iff _ _).0 e)))
          ])
    ]
  where
    at : slot s (13 + j) ≡ word (s.disk (s.ip.addrs ndirect)) j
    at =
        let e : ltb (13 + j) 13 ≡ false = ground arith in
        let f : (s.ip.addrs ndirect == 0) ≡ false = ground arith in
        let g : 13 + j - 13 ≡ j = omega arith in rw (e, f, g) refl
