-- ===== src/Log/Recover.antt =====
-- initlog() and recover_from_log(): what the disk stands for is on the disk when the file system
-- starts, and a power failure during recovery loses nothing.
use os.Prelude.{ℕ, ◌+◌, ◌<◌, ◌≡◌, ◌≢◌, ◌⊎◌, inl, inr, refl, sym, ap, ◌∙◌, Bool, true, arith, update}
use os.Kernel.{Block, Disk, ◌>>◌, pure}
use os.Kernel.Runs.{Runs, returns, Runs-bind, Runs-mono}
use os.Bio.{Bcache, binit, is_block}
use os.Bio.Cache.{binit-Inv, view_of_none, none_of_no_At}
use os.Bio.Find.{mem, mem-indices}
use os.Bio.Spec.{Is, Is-ext}
use os.Log.Two.{no_lock}
use os.Log.Head.{write_head-Runs, read_head-Runs}
use os.Log.Header.{rounds-eq, header_bytes-n, read_header-block}
use os.Log.Install.{Room2}
use os.Log.Replay.{Logged, Mixed, Installed, install_loop-Runs}
use os.Log.{
  Log, word, rounds, read_header, header_bytes, write_head, install_loop, install_trans,
  recover_from_log, initlog,
}
use os.Log.Area.{InLog, Stands}
use os.Log.Ready.{find_entry}

-- What recovery leaves when it returns.
pub record Recovered (log : Log) (T : ℕ → Block) (log' : Log) (t : Bcache) : Type 0 where
  pub start : log'.start ≡ log.start
  pub cleared : log'.n ≡ 0
  pub reads : ℕ → Block
  pub disk : Disk
  pub refs : ℕ → ℕ
  pub members : ℕ → Bool
  pub state : Is log.dev reads disk refs no_lock members t.power t
  pub unused : (i : ℕ) → refs i ≡ 0
  pub restored : (c : ℕ) → ¬ InLog log.start c → (disk c ≡ T c) × (reads c ≡ T c)
  pub empty : word (disk log.start) 0 ≡ 0

module _ (log : Log) (nz : log.dev ≢ 0) {V : ℕ → Block} {D : Disk} {r : ℕ → ℕ} {m : ℕ → Bool}
    {p : ℕ} {s : Bcache} (is : Is log.dev V D r no_lock m p s) (unused : (i : ℕ) → r i ≡ 0)
    (room : Room2 r m) (clean : (c : ℕ) → V c ≡ D c) {T : ℕ → Block}
    (st : Stands log.start D T) where
  abbrev log₁ : Log
  log₁ = read_header log (V log.start)

  n_lem : log₁.n ≡ word (D log.start) 0
  unfolding read_header
  n_lem = ap (λ b. word b 0) (clean log.start)

  count : rounds log₁.n ≡ log₁.n
  count = rounds-eq log₁.n (omega (arith, n_lem, st.few))

  block_lem : (k : ℕ) → k < log₁.n → log₁.block k ≡ word (D log.start) (k + 1)
  unfolding read_header
  block_lem k lt =
      read_header-block log (V log.start) k (omega (arith, lt, count))
      ∙ ap (λ b. word b (k + 1)) (clean log.start)

  entry : (k : ℕ) → k < log₁.n → D (log.start + k + 1) ≡ T (log₁.block k)
  entry k lt = st.entries k (omega (arith, n_lem, lt)) ∙ ap T (sym (block_lem k lt))

  Logged₁ : Logged log₁ T log₁.n 0 V D
  unfolding read_header
  Logged₁ = record {
    fits = omega (arith, n_lem, st.few);
    home =
        λ k lo hi. rw (block_lem k (omega (arith, hi))) (st.outside k (omega (arith, n_lem, hi)));
    copy = λ k lo hi. let e = entry k (omega (arith, hi)) in (clean (log.start + k + 1) ∙ e, e);
  }

  -- a disk with the log of `D`, whose other blocks are those of `D` or already the target
  still_Stands :
      {d : Disk}
      → ((c : ℕ) → InLog log.start c → d c ≡ D c)
      → ((c : ℕ) → ¬ InLog log.start c → (d c ≡ D c) ⊎ (d c ≡ T c))
      → Stands log.start d T
  still_Stands {d} in_log homes =
      let head : d log.start ≡ D log.start = in_log log.start (omega arith, omega arith) in
      record {
        few = rw head st.few;
        outside = λ k. rw head (st.outside k);
        entries = λ k.
            rw head (λ lt. in_log _ (omega arith, omega (arith, lt, st.few)) ∙ st.entries k lt);
        others = λ c out.
            rw head (λ free. elim (homes c out) [ inl e ↦ e ∙ st.others c out free | inr e ↦ e ]);
      }

  while_installing : {d : Disk} → Mixed log₁ T log₁.n 0 D d → Stands log.start d T
  unfolding read_header
  while_installing x =
      still_Stands x.in_log
        (λ c out. elim (x.homes c out) [ inl e ↦ inl e | inr (_, _, _, _, e) ↦ inr e ])

  module _ {t : Bcache} (x : Installed log₁ T log₁.n 0 V D r m t) where
    installed : (c : ℕ) → ¬ InLog log.start c → (x.disk c ≡ T c) × (x.reads c ≡ T c)
    unfolding read_header
    installed c out = elim (find_entry log₁.block log₁.n c) [
      | inl (k, lt, e) ↦
          let both = x.done k (omega arith) (omega (arith, lt)) in
          (ap x.disk (sym e) ∙ both.1 ∙ ap T e, ap x.reads (sym e) ∙ both.0 ∙ ap T e)
      | inr free ↦
          let old : D c ≡ T c = st.others c out (λ k lt e.
            free k (omega (arith, n_lem, lt)) (block_lem k (omega (arith, n_lem, lt)) ∙ e)) in
          ((x.kept c out).1 old, (x.kept c out).0 (clean c ∙ old))
    ]

    before_erasing : {d : Disk} → ((c : ℕ) → d c ≡ x.disk c) → Stands log.start d T
    unfolding read_header
    before_erasing e =
        still_Stands (λ c i. e c ∙ (x.in_log c i).1) (λ c out. inr (e c ∙ (installed c out).0))

  erase-Runs :
      {t : Bcache}
      → Installed log₁ T log₁.n 0 V D r m t
      → Runs
          (λ log' u. Recovered log T log' u)
          (λ d. Stands log.start d T)
          ((do write_head (record log₁ { n = 0 }); pure (record log₁ { n = 0 })) t)
  unfolding read_header
  erase-Runs x =
      Runs-bind
        (Runs-mono
          (write_head-Runs (record log₁ { n = 0 }) nz x.state
            (λ k. omega (arith, x.refs-le k, unused k))
            (room.0, room.3.0, omega (arith, x.refs-le room.0, unused room.0)))
          (λ a u p. p) (λ d e. before_erasing x e))
        λ _ u p. returns (record {
          start = refl;
          cleared = refl;
          reads =
              update x.reads log.start (header_bytes (record log₁ { n = 0 }) (x.reads log.start));
          disk = update x.disk log.start (header_bytes (record log₁ { n = 0 }) (x.reads log.start));
          refs = x.refs;
          members = m;
          state = Is-ext p.0 (λ c. refl) (λ c. refl) (λ k. refl) (λ k. refl) (sym p.0.power);
          unused = λ k. omega (arith, x.refs-le k, unused k);
          restored = λ c out. ground (arith, installed x c out);
          empty =
              ground
                (arith, header_bytes-n (record log₁ { n = 0 }) (x.reads log.start) (omega arith));
        })

  install_from :
      {t : Bcache}
      → Is log.dev V D r no_lock m p t
      → Runs
          (λ _ u. Installed log₁ T log₁.n 0 V D r m u)
          (λ d. Mixed log₁ T log₁.n 0 D d)
          (install_loop log₁ true log₁.n 0 t)
  unfolding read_header
  install_from is' =
      install_loop-Runs log₁ nz T true log₁.n 0 is' (λ i. omega (arith, unused i)) Logged₁ room

  install_lem : install_trans log₁ true ≡ install_loop log₁ true log₁.n 0
  unfolding install_trans
  install_lem = rw count

  recovering_from :
      {t : Bcache}
      → Is log.dev V D r no_lock m p t
      → Runs
          (λ log' u. Recovered log T log' u)
          (λ d. Stands log.start d T)
          ((do
            install_trans log₁ true
            write_head (record log₁ { n = 0 })
            pure (record log₁ { n = 0 }))
            t)
  recovering_from is' = rw install_lem (
      Runs-bind (Runs-mono (install_from is') (λ a u x. x) (λ d x. while_installing x))
        λ _ u x. Runs-mono (erase-Runs x) (λ a v q. q) (λ d q. q))

  -- Recovery from a disk that stands for the blocks T, with no buffer in use. It neither panics nor
  -- sleeps. If it returns, every block outside the log is that of T, on the disk and for a reader,
  -- the log is empty in memory and on the disk, and no buffer is in use. If the power fails in it,
  -- the disk still stands for T.
  pub recover_from_log-Runs :
      Runs (λ log' u. Recovered log T log' u) (λ d. Stands log.start d T) (recover_from_log log s)
  unfolding recover_from_log install_trans
  recover_from_log-Runs =
      Runs-bind
        (Runs-mono
          (read_head-Runs log nz is (λ i. omega (arith, unused i)) (room.0, room.3.0, unused room.0)
            (clean log.start))
          (λ a u p. p) (λ d e. absurd e))
        λ log' t p. rw p.0 (recovering_from p.1)

-- the cache as binit() leaves it
pub binit-Is :
    (dev : ℕ) (nz : dev ≢ 0) (d : Disk) (p : ℕ)
    → Is dev d d (λ _. 0) no_lock (λ i. mem i (binit d p).order) p (binit d p)
unfolding binit is_block
binit-Is dev nz d p = record {
  inv = binit-Inv d p;
  reads = λ c.
      view_of_none (binit d p) dev c
        (none_of_no_At (binit d p) dev c (λ i at. ground (arith, at.key)));
  disk = λ c. refl;
  refs = λ i. refl;
  locks = λ i. refl;
  members = λ i. refl;
  power = refl;
  held_valid = λ i e. cc e;
  device = λ i e v. cc v;
}

-- A machine that starts on a disk that stands for T has T outside the log when initlog returns,
-- however often the power failed in recovery before.
pub initlog-Runs :
    (dev start : ℕ) (log : Log) {T : ℕ → Block} (d : Disk) (p : ℕ)
    → dev ≢ 0
    → Stands start d T
    → Runs
        (λ log' u. Recovered (record log { start = start; dev = dev }) T log' u)
        (λ d'. Stands start d' T)
        (initlog dev start log (binit d p))
unfolding initlog binit
initlog-Runs dev start log d p nz st =
    recover_from_log-Runs (record log { start = start; dev = dev }) nz (binit-Is dev nz d p)
      (λ i. refl) (0, 1, (λ e. absurd (omega (arith, e))), mem-indices, (refl, refl)) (λ c. refl) st
