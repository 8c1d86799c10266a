-- ===== src/Log/Commit.antt =====
-- commit(): atomic with respect to crashes, and complete when it returns.
use os.Prelude.{
  ℕ, ◌+◌, ◌<◌, ◌≡◌, ◌≢◌, ◌⊎◌, inl, inr, refl, sym, ap, ◌∙◌, false, arith, ltb, update, Bool-cases,
}
use os.Kernel.{Block, Disk, ◌>>◌, pure}
use os.Kernel.Runs.{Runs, returns, Runs-bind, Runs-mono}
use os.Bio.{Bcache}
use os.Bio.Spec.{Is-ext}
use os.Log.Two.{KeepsHeld}
use os.Log.Copy.{Pinned, Copied, write_log_loop-Runs}
use os.Log.Head.{write_head-Runs}
use os.Log.Header.{header_bytes-n}
use os.Log.Replay.{Logged, Mixed, Installed, install_loop-Runs}
use os.Log.{Log, word, header_bytes, write_log, write_head, install_trans, commit, commit_all}
use os.Log.Area.{InLog, Stands}
use os.Log.Ready.{
  Ready, Done, find_entry, not-InLog, count, before_header, after_header, headed, headed_block,
}

module _ (log : Log) {V : ℕ → Block} {D : Disk} {s : Bcache} (ready : Ready log V D s) where
  open ready use {few, home, words, empty, logged, distinct}

  module _ {t : Bcache} (q : Copied log V D ready.refs ready.members log.n 0 s t) where
    abbrev h : Block
    h = header_bytes log (q.reads log.start)

    abbrev V₁ : ℕ → Block
    V₁ = update q.reads log.start h

    abbrev D₁ : Disk
    D₁ = update q.disk log.start h

    reads₁ : (c : ℕ) → ¬ InLog log.start c → (V₁ c ≡ V c) × (D₁ c ≡ D c)
    reads₁ c out = ground (arith, q.outside c, not-InLog out)

    settled : (c : ℕ) → ¬ InLog log.start c → ((k : ℕ) → k < log.n → log.block k ≢ c) → D₁ c ≡ V c
    settled c out free = (reads₁ c out).1 ∙ sym (logged c out free)

    Logged₁ : Logged log V log.n 0 V₁ D₁
    Logged₁ = record {
      fits = omega (arith, few);
      home = λ k lo hi. home k (omega (arith, hi));
      copy = λ k lo hi. ground (arith, q.entries k);
    }

    -- the disk d has the log of D₁, and at home what settled or installed
    after_log :
        {d : Disk}
        → ((c : ℕ) → InLog log.start c → d c ≡ D₁ c)
        → ((c : ℕ) → ¬ InLog log.start c → ((k : ℕ) → k < log.n → log.block k ≢ c) → d c ≡ V c)
        → Stands log.start d V
    after_log {d} in_log others =
        let head : d log.start ≡ h = in_log log.start (omega arith, omega arith) ∙ ground arith in
        (after_header log ready) (ap (λ b. word b 0) head ∙ (headed log ready) (q.reads log.start))
          (λ k lt.
            ap (λ b. word b (k + 1)) head ∙ (headed_block log ready) (q.reads log.start) k lt)
          (λ k lt.
            in_log (log.start + k + 1) (omega arith, omega (arith, few, lt))
            ∙ ground (arith, q.entries k))
          others

    while_installing : {d : Disk} → Mixed log V log.n 0 D₁ d → Stands log.start d V
    while_installing x = after_log x.in_log (λ c out free. elim (x.homes c out) [
      | inl e ↦ e ∙ settled c out free
      | inr (k, lo, hi, e, _) ↦ absurd (free k (omega (arith, hi)) e)
    ])

    module _ {t' : Bcache} (x : Installed log V log.n 0 V₁ D₁ ready.refs ready.members t') where
      installed : (c : ℕ) → ¬ InLog log.start c → (x.disk c ≡ V c) × (x.reads c ≡ V c)
      installed c out = elim (find_entry log.block log.n c) [
        | inl (k, lt, e) ↦ (
          ap x.disk (sym e) ∙ (x.done k (omega arith) (omega (arith, lt))).1 ∙ ap V e,
          ap x.reads (sym e) ∙ (x.done k (omega arith) (omega (arith, lt))).0 ∙ ap V e,
        )
        | inr free ↦ ((x.kept c out).1 (settled c out free), (x.kept c out).0 (reads₁ c out).0)
      ]

      before_erasing : {d : Disk} → ((c : ℕ) → d c ≡ x.disk c) → Stands log.start d V
      before_erasing e =
          after_log (λ c i. e c ∙ (x.in_log c i).1) (λ c out free. e c ∙ (installed c out).0)

    erase-Runs :
        {t' : Bcache}
        → Installed log V log.n 0 V₁ D₁ ready.refs ready.members t'
        → Runs
            (λ log' u. Done log V log' u)
            (λ d. Stands log.start d V)
            ((do write_head (record log { n = 0 }); pure (record log { n = 0 })) t')
    erase-Runs x =
        Runs-bind
          (Runs-mono
            (write_head-Runs (record log { n = 0 }) ready.device x.state
              (λ k. omega (arith, x.refs-le k, ready.low k))
              (ready.room.0, ready.room.1, omega (arith, x.refs-le ready.room.0, ready.room.2)))
            (λ a u p. p) (λ d e. before_erasing x e))
          λ _ u p. returns (record {
            cleared = refl;
            reads =
                update x.reads log.start (header_bytes (record log { n = 0 }) (x.reads log.start));
            disk =
                update x.disk log.start (header_bytes (record log { n = 0 }) (x.reads log.start));
            refs = x.refs;
            members = ready.members;
            state = Is-ext p.0 (λ c. refl) (λ c. refl) (λ k. refl) (λ k. refl) (sym p.0.power);
            written = λ c out. ground (arith, installed x c out);
            empty =
                ground
                  (arith, header_bytes-n (record log { n = 0 }) (x.reads log.start) (omega arith));
          })

    still :
        {u : Bcache}
        → KeepsHeld log.dev ready.refs t u
        → (k : ℕ) → k < log.n
        → Pinned log.dev ready.refs u (log.block k)
    still kept k lt =
        let pin = ready.pins k lt in
        let pos : 0 < ready.refs pin.0 = omega (arith, pin.2) in
        (pin.0, kept (log.block k) pin.0 (q.keeps (log.block k) pin.0 pin.1 pos) pos, pin.2)

    -- everything after write_log
    logged-Runs :
        Runs
          (λ log' u. Done log V log' u)
          (λ d. Stands log.start d D ⊎ Stands log.start d V)
          ((do
            write_head log
            install_trans log false
            write_head (record log { n = 0 })
            pure (record log { n = 0 }))
            t)
    unfolding install_trans
    logged-Runs =
        Runs-bind
          (Runs-mono (write_head-Runs log ready.device q.is ready.low ready.room) (λ a u p. p)
            (λ d e. inl (
              (before_header log ready)
                (λ c far. e c ∙ (q.outside c (ground (arith, far, few))).1))))
          λ _ t₁ p. rw (count log ready) (
            Runs-bind
              (Runs-mono
                (install_loop-Runs log ready.device V false log.n 0 p.0 ready.low Logged₁ (
                  ready.room,
                  λ k lo hi. still (p.1) k (omega (arith, hi)),
                  λ j k lo lt hi. distinct j k lt (omega (arith, hi)),
                ))
                (λ a u x. x) (λ d x. inr (while_installing x)))
              λ _ t₂ x. Runs-mono (erase-Runs x) (λ a u done. done) (λ d st. inr st))

  commit_all-Runs :
      Runs
        (λ log' u. Done log V log' u)
        (λ d. Stands log.start d D ⊎ Stands log.start d V)
        (commit_all log s)
  unfolding commit_all write_log
  commit_all-Runs = rw (count log ready) (
      Runs-bind
        (Runs-mono
          (write_log_loop-Runs log ready.device log.n 0 ready.state ready.low ready.room
            (λ k lo hi. (ready.pins k (omega (arith, hi)), home k (omega (arith, hi))))
            (omega (arith, few)))
          (λ a t q. q) (λ d e. inl ((before_header log ready) e)))
        λ _ t q. logged-Runs q)

  nothing_to_do : log.n ≡ 0 → Done log V log s
  nothing_to_do z = record {
    cleared = ap (λ n. record log { n = n }) z;
    reads = V;
    disk = D;
    refs = ready.refs;
    members = ready.members;
    state = ready.state;
    written = λ c out. (sym (logged c out (λ k lt. absurd (omega (arith, z)))), refl);
    empty = empty;
  }

  -- Where the header on the disk is empty, the log lists exactly what is pinned, no buffer is held
  -- and at least one buffer is not pinned (`Ready`), commit() neither panics nor sleeps. If it
  -- returns, every block outside the log is on the disk as the cache reads it, and the log is
  -- empty in memory and on the disk. If the power fails in it, the disk stands for the blocks of
  -- the disk before or for those of the cache, never a mix.
  pub commit-Runs :
      Runs
        (λ log' u. Done log V log' u)
        (λ d. Stands log.start d D ⊎ Stands log.start d V)
        (commit log s)
  unfolding commit
  commit-Runs = elim (Bool-cases (ltb 0 log.n)) [
    | inl e ↦ rw ((count log ready), e) commit_all-Runs
    | inr e ↦ rw ((count log ready), e) (returns (nothing_to_do (ground arith)))
  ]
