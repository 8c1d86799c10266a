-- ===== src/Log/Replay.antt =====
-- The whole of install_trans(): every block of the log reaches its home, and a crash on the way
-- leaves each home block old or new.
use os.Prelude.{
  ℕ, zero, suc, ◌+◌, ◌<◌, ◌≤◌, ◌≡◌, ◌≢◌, ◌⊎◌, inl, inr, refl, sym, ◌∙◌, Bool, true, false, arith,
  ◌==◌, update, Bool-cases,
}
use os.Kernel.{Block, Disk}
use os.Kernel.Runs.{Runs, returns, Runs-bind, Runs-mono}
use os.Bio.{Bcache}
use os.Bio.Spec.{Is}
use os.Log.Two.{no_lock, Room}
use os.Log.Copy.{Pinned}
use os.Log.Install.{Room2, Moved, install_one-recover, install_one-commit}
use os.Log.{Log, log_blocks, install_one, install_loop}
use os.Log.Area.{InLog}

module _ (log : Log) (T : ℕ → Block) where
  -- the log holds the target of each block from round `tail` on
  pub record Logged (left tail : ℕ) (V : ℕ → Block) (D : Disk) : Type 0 where
    pub fits : tail + left ≤ log_blocks
    pub home : (k : ℕ) → tail ≤ k → k < tail + left → ¬ InLog log.start (log.block k)
    pub copy :
        (k : ℕ)
        → tail ≤ k
        → k < tail + left
        → (V (log.start + k + 1) ≡ T (log.block k)) × (D (log.start + k + 1) ≡ T (log.block k))

  -- where a crash may leave the disk
  pub record Mixed (left tail : ℕ) (D d : Disk) : Type 0 where
    pub in_log : (c : ℕ) → InLog log.start c → d c ≡ D c
    pub homes :
        (c : ℕ)
        → ¬ InLog log.start c
        → (d c ≡ D c) ⊎ ((k : ℕ) × (tail ≤ k) × (k < tail + left) × (log.block k ≡ c) × (d c ≡ T c))

  pub record Installed (left tail : ℕ) (V : ℕ → Block) (D : Disk) (r : ℕ → ℕ) (m : ℕ → Bool)
      (t : Bcache) : Type 0 where
    pub reads : ℕ → Block
    pub disk : Disk
    pub refs : ℕ → ℕ
    pub power : ℕ
    pub state : Is log.dev reads disk refs no_lock m power t
    pub refs-le : (k : ℕ) → refs k ≤ r k
    pub in_log : (c : ℕ) → InLog log.start c → (reads c ≡ V c) × (disk c ≡ D c)
    pub done :
        (k : ℕ)
        → tail ≤ k
        → k < tail + left
        → (reads (log.block k) ≡ T (log.block k)) × (disk (log.block k) ≡ T (log.block k))
    pub kept :
        (c : ℕ) → ¬ InLog log.start c → (V c ≡ T c → reads c ≡ T c) × (D c ≡ T c → disk c ≡ T c)

  module _ {left tail : ℕ} {V : ℕ → Block} {D : Disk} (g : Logged (suc left) tail V D) where
    abbrev hb : ℕ
    hb = log.block tail

    abbrev new : Block
    new = V (log.start + tail + 1)

    new_lem : new ≡ T hb
    new_lem = (g.copy tail (omega arith) (omega arith)).0

    home : ¬ InLog log.start hb
    home = g.home tail (omega arith) (omega arith)

    pub apart : log.start + tail + 1 ≢ hb
    apart e = home (omega (arith, e, g.fits))

    pub clean : new ≡ D (log.start + tail + 1)
    clean = new_lem ∙ sym (g.copy tail (omega arith) (omega arith)).1

    not_home : (c : ℕ) → InLog log.start c → c ≢ hb
    not_home c h e = home (omega (arith, e, h))

    pub Logged-next : Logged left (tail + 1) (update V hb new) (update D hb new)
    Logged-next = record {
      fits = omega (arith, g.fits);
      home = λ k lo hi. g.home k (omega arith) (omega arith);
      copy = λ k lo hi. ground (arith, g.copy k, not_home (log.start + k + 1), g.fits);
    }

    pub Mixed-next :
        {d : Disk} → Mixed left (tail + 1) (update D hb new) d → Mixed (suc left) tail D d
    Mixed-next {d} x = record {
      in_log = λ c h. ground (arith, x.in_log c h, not_home c h);
      homes = λ c out. elim (x.homes c out) [
        | inr (k, lo, hi, e, at) ↦ inr (k, omega arith, omega arith, e, at)
        | inl e ↦ elim (Bool-cases (c == hb)) [
          | inl eq ↦ inr (tail, omega arith, omega arith, ground arith, ground (arith, new_lem))
          | inr ne ↦ inl (ground arith)
        ]
      ];
    }

    pub Mixed-start : {d : Disk} → ((c : ℕ) → d c ≡ D c) → Mixed (suc left) tail D d
    Mixed-start e = record { in_log = λ c h. e c; homes = λ c out. inl (e c) }

    pub Installed-next :
        {r r' : ℕ → ℕ} {m : ℕ → Bool} {t : Bcache}
        → ((k : ℕ) → r' k ≤ r k)
        → Installed left (tail + 1) (update V hb new) (update D hb new) r' m t
        → Installed (suc left) tail V D r m t
    Installed-next below x = record {
      reads = x.reads;
      disk = x.disk;
      refs = x.refs;
      power = x.power;
      state = x.state;
      refs-le = λ k. omega (arith, x.refs-le k, below k);
      in_log = λ c h. ground (arith, x.in_log c h, not_home c h);
      done = λ k lo hi. elim (Bool-cases (k == tail)) [
        | inl e ↦ ground (arith, x.kept hb home, new_lem)
        | inr ne ↦ x.done k (ground arith) (omega arith)
      ];
      kept = λ c out. ground (arith, x.kept c out, new_lem);
    }

-- In recovery there are two free buffers; in a commit one, and each block to come is pinned, once.
abbrev pub Supply : Bool → Log → ℕ → ℕ → (ℕ → ℕ) → (ℕ → Bool) → Bcache → Type 0
Supply true log left tail r m s = Room2 r m
Supply false log left tail r m s =
    Room r m
    × ((k : ℕ) → tail ≤ k → k < tail + left → Pinned log.dev r s (log.block k))
    × ((j k : ℕ) → tail ≤ j → j < k → k < tail + left → log.block j ≢ log.block k)

module _ (log : Log) (nz : log.dev ≢ 0) (T : ℕ → Block) where
  Supply-next :
      (recovering : Bool) (left tail : ℕ) {V : ℕ → Block} {D : Disk} {r : ℕ → ℕ} {m : ℕ → Bool}
      {p : ℕ} {s t : Bcache} {is : Is log.dev V D r no_lock m p s} {low : (i : ℕ) → r i ≤ 1}
      → Supply recovering log (suc left) tail r m s
      → (x : Moved log nz is low tail recovering t)
      → Supply recovering log left (tail + 1) x.refs m t
  Supply-next true left tail (f, g, ne, members, free) x =
      (f, g, ne, members, (omega (arith, x.refs-le f, free), omega (arith, x.refs-le g, free)))
  Supply-next false left tail {r = r} {s = s} {t = t} (room, pins, distinct) x = (
    (room.0, room.1, omega (arith, x.refs-le room.0, room.2)),
    λ k lo hi. still k (omega arith) (omega arith) (pins k (omega arith) (omega arith)),
    λ j k lo lt hi. distinct j k (omega arith) lt (omega arith),
  )
    where
      still :
          (k : ℕ)
          → tail < k
          → k < tail + suc left
          → Pinned log.dev r s (log.block k)
          → Pinned log.dev x.refs t (log.block k)
      still k lo hi (j, at, one) =
          let same : x.refs j ≡ r j =
            x.other_pins refl (log.block k) j (λ e. distinct tail k (omega arith) lo hi (sym e)) at
              (omega (arith, one)) in
          (j, x.keeps (log.block k) j at (omega (arith, one, same)), same ∙ one)

  install_one-Runs :
      (recovering : Bool) {left tail : ℕ} {V : ℕ → Block} {D : Disk} {r : ℕ → ℕ} {m : ℕ → Bool}
      {p : ℕ} {s : Bcache} (is : Is log.dev V D r no_lock m p s) (low : (i : ℕ) → r i ≤ 1)
      → Logged log T (suc left) tail V D
      → Supply recovering log (suc left) tail r m s
      → Runs
          (λ _ t. Moved log nz is low tail recovering t)
          (λ d. (c : ℕ) → d c ≡ D c)
          (install_one log recovering tail s)
  install_one-Runs true {tail = tail} is low g two =
      install_one-recover log nz is low tail two (apart log T g) (clean log T g)
  install_one-Runs false {tail = tail} is low g (room, pins, distinct) =
      install_one-commit log nz is low tail room (pins tail (omega arith) (omega arith))
        (apart log T g) (clean log T g)

  -- install_trans writes the target to the home of every block in the log, and keeps the log and
  -- every home block that agrees with the target; a crash leaves each home block old or new.
  pub install_loop-Runs :
      (recovering : Bool) (left tail : ℕ) {V : ℕ → Block} {D : Disk} {r : ℕ → ℕ} {m : ℕ → Bool}
      {p : ℕ} {s : Bcache}
      → Is log.dev V D r no_lock m p s
      → ((i : ℕ) → r i ≤ 1)
      → Logged log T left tail V D
      → Supply recovering log left tail r m s
      → Runs
          (λ _ t. Installed log T left tail V D r m t)
          (λ d. Mixed log T left tail D d)
          (install_loop log recovering left tail s)
  unfolding install_loop
  install_loop-Runs recovering zero tail {V} {D} {r} {p = p} is low g supply = returns (record {
    reads = V;
    disk = D;
    refs = r;
    power = p;
    state = is;
    refs-le = λ k. omega arith;
    in_log = λ c h. (refl, refl);
    done = λ k lo hi. absurd (omega arith);
    kept = λ c out. (λ e. e, λ e. e);
  })
  install_loop-Runs recovering (suc left) tail {V} {D} is low g supply =
      Runs-bind
        (Runs-mono (install_one-Runs recovering is low g supply) (λ a t q. q)
          (λ d e. Mixed-start log T g e))
        λ _ s₁ x.
          Runs-mono
            (install_loop-Runs recovering left (tail + 1) x.state
              (λ k. omega (arith, x.refs-le k, low k)) (Logged-next log T g)
              (Supply-next recovering left tail supply x))
            (λ _ t q. Installed-next log T g x.refs-le q) (λ d q. Mixed-next log T g q)
