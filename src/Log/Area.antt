-- ===== src/Log/Area.antt =====
-- What a disk with a log stands for, and the states of the cache between two disk operations.
use os.Prelude.{ℕ, ◌+◌, ◌<◌, ◌≤◌, ◌≡◌, ◌≢◌, ◌∙◌, arith}
use os.Kernel.{Block, Disk}
use os.Log.{word, log_blocks}

-- the header block and the blocks of the log
abbrev pub InLog : ℕ → ℕ → Type 0
InLog start c = (start ≤ c) × (c ≤ start + log_blocks)

-- The header of disk `d` lists `n` blocks outside the log, whose contents in `T` stand in the log;
-- every other block outside the log is that of `T`. Recovery turns such a disk into `T`.
pub record Stands (start : ℕ) (d : Disk) (T : ℕ → Block) : Type 0 where
  pub few : word (d start) 0 ≤ log_blocks
  pub outside : (t : ℕ) → t < word (d start) 0 → ¬ InLog start (word (d start) (t + 1))
  pub entries : (t : ℕ) → t < word (d start) 0 → d (start + t + 1) ≡ T (word (d start) (t + 1))
  pub others :
      (c : ℕ)
      → ¬ InLog start c
      → ((t : ℕ) → t < word (d start) 0 → word (d start) (t + 1) ≢ c)
      → d c ≡ T c

-- `Stands` looks at the values of the disk and of the target outside the log.
pub Stands-ext :
    {start : ℕ} {d d' : Disk} {T T' : ℕ → Block}
    → Stands start d T
    → ((c : ℕ) → d' c ≡ d c)
    → ((c : ℕ) → ¬ InLog start c → T c ≡ T' c)
    → Stands start d' T'
Stands-ext {start} {d} {d'} st e f = record {
  few = rw (e start) st.few;
  outside = λ t. rw (e start) (st.outside t);
  entries = λ t. rw (e start) (λ h. e (start + t + 1) ∙ st.entries t h ∙ f _ (st.outside t h));
  others = λ c out. rw (e start) (λ h. e c ∙ st.others c out h ∙ f c out);
}

-- A disk whose log is empty stands for its own blocks.
pub Stands-empty :
    {start : ℕ} {d : Disk} {T : ℕ → Block}
    → word (d start) 0 ≡ 0
    → ((c : ℕ) → ¬ InLog start c → d c ≡ T c)
    → Stands start d T
Stands-empty z e = record {
  few = omega (arith, z);
  outside = λ t h. absurd (omega (arith, z));
  entries = λ t h. absurd (omega (arith, z));
  others = λ c out _. e c out;
}
