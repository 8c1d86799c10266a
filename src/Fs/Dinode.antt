-- ===== src/Fs/Dinode.antt =====
-- The copy of an inode on disk: what iupdate() stores is what ilock() reads.
use os.Prelude.{
  ℕ, zero, suc, ◌+◌, ◌*◌, ◌%◌, ◌^◌, ◌<◌, ◌≤◌, ◌≡◌, ◌≢◌, ◌⊎◌, inl, inr, refl, sym, ap, ◌∙◌, Bool,
  true, false, ◌==◌, leb, if◌then◌else◌, arith, Bool-cases, ==_iff, ==_refl, ==_ne,
}
use mathlib.Core.Path.{subst}
use os.Kernel.{Block}
use os.Kernel.Runs.{Runs, returns}
use os.Log.{word, set_word}
use os.Log.Words.{word-set_word_self, word-set_word_ne}
use os.Fs.{Fs, Inode, ndirect, iblock, put_addrs, put_dinode, get_dinode, iupdate, ilock_read}

module _ (addrs : ℕ → ℕ) (at : ℕ) where
  put_addrs-other :
      (left k : ℕ) (b : Block) (j : ℕ)
      → (j < at + 3 + k) ⊎ (at + 3 + k + left ≤ j)
      → word (put_addrs addrs at left k b) j ≡ word b j
  unfolding put_addrs
  put_addrs-other zero k b j o = refl
  put_addrs-other (suc left) k b j o =
      put_addrs-other left (k + 1) (set_word b (at + 3 + k) (addrs k)) j (omega arith)
      ∙ word-set_word_ne b (at + 3 + k) j (addrs k) (omega arith)

  put_addrs-at :
      (left k : ℕ) (b : Block) (l : ℕ)
      → k ≤ l
      → l < k + left
      → addrs l < 2 ^ 32
      → word (put_addrs addrs at left k b) (at + 3 + l) ≡ addrs l
  unfolding put_addrs
  put_addrs-at zero k b l lo hi small = absurd (omega arith)
  put_addrs-at (suc left) k b l lo hi small = elim (Bool-cases (l == k)) [
    | inl e ↦
        let e' : l ≡ k = (==_iff l k).0 e in
        rw e' (
          put_addrs-other left (k + 1) _ (at + 3 + k) (inl (omega arith))
          ∙ word-set_word_self b (at + 3 + k) (addrs k) (omega (arith, ap addrs e')))
    | inr e ↦ put_addrs-at left (k + 1) _ l (ground arith) (omega arith) small
  ]

-- The fields fit in shorts and unsigned ints.
pub record Fits (ip : Inode) : Type 0 where
  pub type : ip.type < 2 ^ 16
  pub major : ip.major < 2 ^ 16
  pub minor : ip.minor < 2 ^ 16
  pub nlink : ip.nlink < 2 ^ 16
  pub size : ip.size < 2 ^ 32
  pub addrs : (k : ℕ) → k ≤ ndirect → ip.addrs k < 2 ^ 32

-- the fields that are on disk
pub record Same (ip ip' : Inode) : Type 0 where
  pub type : ip'.type ≡ ip.type
  pub major : ip'.major ≡ ip.major
  pub minor : ip'.minor ≡ ip.minor
  pub nlink : ip'.nlink ≡ ip.nlink
  pub size : ip'.size ≡ ip.size
  pub addrs : (k : ℕ) → k ≤ ndirect → ip'.addrs k ≡ ip.addrs k

module _ (ip : Inode) (at : ℕ) (b : Block) (fits : Fits ip) where
  head_word :
      (j v : ℕ)
      → j < at + 3
      → word
          (set_word
            (set_word
              (set_word b at (ip.type + 2 ^ 16 * ip.major))
              (at + 1)
              (ip.minor + 2 ^ 16 * ip.nlink))
            (at + 2)
            ip.size)
          j
        ≡ v
      → word (put_dinode ip at b) j ≡ v
  unfolding put_dinode
  head_word j v lt e = put_addrs-other ip.addrs at (ndirect + 1) 0 _ j (inl (omega arith)) ∙ e

  word_type : word (put_dinode ip at b) at ≡ ip.type + 2 ^ 16 * ip.major
  word_type = head_word at _ (omega arith) (
      word-set_word_ne _ (at + 2) at _ (omega arith)
      ∙ word-set_word_ne _ (at + 1) at _ (omega arith)
      ∙ word-set_word_self b at _ (omega (arith, fits.type, fits.major)))

  word_minor : word (put_dinode ip at b) (at + 1) ≡ ip.minor + 2 ^ 16 * ip.nlink
  word_minor = head_word (at + 1) _ (omega arith) (
      word-set_word_ne _ (at + 2) (at + 1) _ (omega arith)
      ∙ word-set_word_self _ (at + 1) _ (omega (arith, fits.minor, fits.nlink)))

  word_size : word (put_dinode ip at b) (at + 2) ≡ ip.size
  word_size = head_word (at + 2) _ (omega arith) (word-set_word_self _ (at + 2) _ fits.size)

  word_addr : (k : ℕ) → k ≤ ndirect → word (put_dinode ip at b) (at + 3 + k) ≡ ip.addrs k
  unfolding put_dinode
  word_addr k le =
      put_addrs-at ip.addrs at (ndirect + 1) 0 _ k (omega arith) (omega arith) (fits.addrs k le)

  -- the other dinodes of the block
  pub put_dinode-other : (j : ℕ) → (j < at) ⊎ (at + 16 ≤ j) → word (put_dinode ip at b) j ≡ word b j
  unfolding put_dinode
  put_dinode-other j o =
      put_addrs-other ip.addrs at (ndirect + 1) 0 _ j (omega arith)
      ∙ word-set_word_ne _ (at + 2) j _ (omega arith)
      ∙ word-set_word_ne _ (at + 1) j _ (omega arith)
      ∙ word-set_word_ne b at j _ (omega arith)

  pub get_dinode-put_dinode : (old : Inode) → Same ip (get_dinode (put_dinode ip at b) at old)
  unfolding get_dinode
  get_dinode-put_dinode old = record {
    type = rw word_type (omega (arith, fits.type));
    major = rw word_type (omega (arith, fits.type));
    minor = rw word_minor (omega (arith, fits.minor));
    nlink = rw word_minor (omega (arith, fits.minor));
    size = word_size;
    addrs = λ k le. let e : leb k ndirect ≡ true = ground arith in rw e (word_addr k le);
  }

pub iupdate-Same :
    (s : Fs) (cached : Inode) (inum : ℕ)
    → Fits s.ip
    → inum ≡ s.ip.inum
    → Same s.ip (get_dinode ((iupdate s).disk (iblock inum s.sb)) (16 * (inum % 16)) cached)
unfolding iupdate
iupdate-Same s cached inum fits e =
    rw (e, ==_refl (iblock s.ip.inum s.sb))
      (get_dinode-put_dinode s.ip (16 * (s.ip.inum % 16)) (s.disk (iblock s.ip.inum s.sb)) fits
        cached)

last_branch :
    {A : Type 0} (v z : Bool) (a b c : A)
    → v ≡ false
    → z ≡ false
    → c ≡ (if v then a else if z then b else c)
last_branch v z a b c e f = rw (e, f) refl

-- After iupdate() an ilock() of an entry of the inode table for the same inode, which is not valid,
-- reads the fields that were stored, where the inode has a type and the fields fit in their words.
pub iupdate-ilock_read :
    (s : Fs) (cached : Inode)
    → Fits s.ip
    → s.ip.type ≢ 0
    → cached.inum ≡ s.ip.inum
    → cached.valid ≡ false
    → Runs
        (λ _ t. Same s.ip t.ip × (t.ip.valid ≡ true) × (t.disk ≡ (iupdate s).disk))
        (λ d. ⊥)
        (ilock_read (record (iupdate s) { ip = cached }))
unfolding ilock_read iupdate
iupdate-ilock_read s cached fits typed same stale =
    let q = iupdate-Same s cached cached.inum fits same in
    subst (Runs _ _)
      (last_branch cached.valid _ _ _ _ stale (==_ne _ 0 (λ z. typed (sym q.type ∙ z))))
      (returns (
        record {
          type = q.type;
          major = q.major;
          minor = q.minor;
          nlink = q.nlink;
          size = q.size;
          addrs = q.addrs;
        },
        refl,
        refl,
      ))
