-- ===== src/Fs/Dir/Empty.antt =====
-- The second loop of dirlink(), which looks for an empty entry.
use os.Prelude.{
  ℕ, zero, suc, ◌+◌, ◌*◌, ◌%◌, ◌<◌, ◌≤◌, ◌≡◌, inl, inr, sym, ◌∙◌, ◌==◌, ltb, arith, Bool-cases,
  ==_iff,
}
use os.Kernel.Runs.{Runs, returns, Runs-bind, Runs-mono}
use os.Str.{Memory}
use os.Fs.{Fs}
use os.Fs.Content.Bytes.{max_size}
use os.Fs.Dir.{get_inum, empty_loop}
use os.Fs.Dir.Entry.{IsDir, Same, Same-trans, Same-size, Same-IsDir, read_entry-Loaded}
use os.Fs.Dir.Lookup.{entry_inum, Buffers, Loaded-Same, loaded-Buffers, loaded-inum}

-- what the second loop ends with: the offset of an entry that is not in use, or the end
pub record Emptied (s : Fs) (mem : Memory) (name de off : ℕ) (r : ℕ × Memory) (t : Fs)
    : Type 0 where
  pub from : off ≤ r.0
  pub within : r.0 ≤ s.ip.size
  pub aligned : r.0 % 16 ≡ 0
  pub empty : r.0 < s.ip.size → entry_inum s r.0 ≡ 0
  pub same : Same s t
  pub buffers : Buffers mem name de r.1

pub empty_loop-Emptied :
    (s : Fs) (mem : Memory) (name de : ℕ)
    → IsDir s
    → (fuel off : ℕ) (m : Memory) (t : Fs) → Same s t
    → Buffers mem name de m
    → off % 16 ≡ 0
    → s.ip.size < off + 16 * fuel
    → off ≤ s.ip.size
    → Runs (Emptied s mem name de off) (λ d. ⊥) (empty_loop fuel de off m t)
unfolding empty_loop
empty_loop-Emptied s mem name de d zero off m t same bufs al enough le =
    absurd (omega (arith, enough, le))
empty_loop-Emptied s mem name de d (suc fuel) off m t same bufs al enough le =
    let size = Same-size same in
    elim (Bool-cases (ltb off t.ip.size)) [
      | inr e ↦ rw e (
          returns (record {
            from = omega arith;
            within = le;
            aligned = al;
            empty = λ lt. absurd (ground (arith, e, size, lt));
            same = same;
            buffers = bufs;
          }))
      | inl e ↦
          let lt : off < s.ip.size = ground (arith, e, size) in
          let room : off + 16 ≤ max_size = omega (arith, lt, al, d.bounded) in
          let next : off + 16 ≤ s.ip.size = omega (arith, lt, al, d.whole) in
          rw e (
            Runs-bind
              (read_entry-Loaded "dirlink read" de off m t (Same-IsDir same d) al
                (ground (arith, e)))
              λ m' u (loaded, step).
                let here = Loaded-Same s t de off m m' same room loaded in
                let bufs' = loaded-Buffers s mem name de off d lt al m m' bufs here in
                let inum = loaded-inum s mem name de off d lt al m m' bufs here in
                elim (Bool-cases (get_inum m' de == 0)) [
                  | inl z ↦ rw z (
                      returns (record {
                        from = omega arith;
                        within = le;
                        aligned = al;
                        empty = λ l. sym inum ∙ (==_iff _ _).0 z;
                        same = Same-trans same step;
                        buffers = bufs';
                      }))
                  | inr nz ↦ rw nz (
                      Runs-mono {R = Emptied s mem name de off}
                        (empty_loop-Emptied s mem name de d fuel (off + 16) m' u
                          (Same-trans same step) bufs' (omega (arith, al)) (omega (arith, enough))
                          next)
                        (λ r v q. record {
                          from = omega (arith, q.from);
                          within = q.within;
                          aligned = q.aligned;
                          empty = q.empty;
                          same = q.same;
                          buffers = q.buffers;
                        })
                        (λ d q. q))
                ])
    ]
