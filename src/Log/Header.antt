-- ===== src/Log/Header.antt =====
-- The log header in a block: what write_head stores is what read_head loads.
use os.Prelude.{
  ℕ, zero, suc, ◌+◌, ◌^◌, ◌<◌, ◌≤◌, ◌≡◌, inl, inr, refl, ◌∙◌, ap, arith, Bool-cases, ◌==◌, ==_iff,
}
use os.Kernel.{Block}
use os.Log.{Log, word, set_word, rounds, put_blocks, get_blocks, header_bytes, read_header}
use os.Log.Words.{word-set_word_self, word-set_word_ne}

pub rounds-eq : (n : ℕ) → n < 2 ^ 31 → rounds n ≡ n
unfolding rounds
rounds-eq n h = ground arith

-- the words outside the ones that are written
put_blocks-before :
    (block : ℕ → ℕ) (left i : ℕ) (b : Block) (k : ℕ)
    → k < i + 1
    → word (put_blocks block left i b) k ≡ word b k
unfolding put_blocks
put_blocks-before block zero i b k h = refl
put_blocks-before block (suc left) i b k h =
    put_blocks-before block left (i + 1) (set_word b (i + 1) (block i)) k (omega arith)
    ∙ word-set_word_ne b (i + 1) k (block i) (omega arith)

put_blocks-at :
    (block : ℕ → ℕ) (left i : ℕ) (b : Block) (t : ℕ)
    → i ≤ t
    → t < i + left
    → block t < 2 ^ 32
    → word (put_blocks block left i b) (t + 1) ≡ block t
unfolding put_blocks
put_blocks-at block zero i b t lo hi small = absurd (omega arith)
put_blocks-at block (suc left) i b t lo hi small = elim (Bool-cases (t == i)) [
  | inl e ↦
      let e' : t ≡ i = (==_iff t i).0 e in
      rw e' (
        put_blocks-before block left (i + 1) _ (i + 1) (omega arith)
        ∙ word-set_word_self b (i + 1) (block i) (omega (arith, ap block e')))
  | inr ne ↦ put_blocks-at block left (i + 1) _ t (ground arith) (omega arith) small
]

pub header_bytes-n : (log : Log) (b : Block) → log.n < 2 ^ 31 → word (header_bytes log b) 0 ≡ log.n
unfolding header_bytes
header_bytes-n log b h =
    put_blocks-before log.block (rounds log.n) 0 (set_word b 0 log.n) 0 (omega arith)
    ∙ word-set_word_self b 0 log.n (omega arith)

pub header_bytes-block :
    (log : Log) (b : Block) (t : ℕ)
    → log.n < 2 ^ 31
    → t < log.n
    → log.block t < 2 ^ 32
    → word (header_bytes log b) (t + 1) ≡ log.block t
unfolding header_bytes
header_bytes-block log b t h lt small =
    put_blocks-at log.block (rounds log.n) 0 (set_word b 0 log.n) t (omega arith)
      (omega (arith, rounds-eq log.n h)) small

get_blocks-before :
    (b : Block) (left i : ℕ) (block : ℕ → ℕ) (t : ℕ) → t < i → get_blocks b left i block t ≡ block t
unfolding get_blocks
get_blocks-before b zero i block t h = refl
get_blocks-before b (suc left) i block t h =
    get_blocks-before b left (i + 1) _ t (omega arith) ∙ ground arith

get_blocks-at :
    (b : Block) (left i : ℕ) (block : ℕ → ℕ) (t : ℕ)
    → i ≤ t
    → t < i + left
    → get_blocks b left i block t ≡ word b (t + 1)
unfolding get_blocks
get_blocks-at b zero i block t lo hi = absurd (omega arith)
get_blocks-at b (suc left) i block t lo hi = elim (Bool-cases (t == i)) [
  | inl e ↦ get_blocks-before b left (i + 1) _ t (ground arith) ∙ ground arith
  | inr ne ↦ get_blocks-at b left (i + 1) _ t (ground arith) (omega arith)
]

pub read_header-n : (log : Log) (b : Block) → (read_header log b).n ≡ word b 0
unfolding read_header
read_header-n log b = refl

pub read_header-block :
    (log : Log) (b : Block) (t : ℕ)
    → t < rounds (word b 0)
    → (read_header log b).block t ≡ word b (t + 1)
unfolding read_header
read_header-block log b t h =
    get_blocks-at b (rounds (word b 0)) 0 log.block t (omega arith) (omega (arith, h))

-- Whatever log the reader starts from, read_head() finds in a block that write_head() filled the
-- count and the entries of the writer's log, if its count and entries are ints.
pub read_header-header_bytes :
    (log old : Log) (b : Block)
    → log.n < 2 ^ 31
    → ((t : ℕ) → t < log.n → log.block t < 2 ^ 32)
    → let got = read_header old (header_bytes log b) in
      (got.n ≡ log.n) × ((t : ℕ) → t < log.n → got.block t ≡ log.block t)
read_header-header_bytes log old b h small =
    let n = header_bytes-n log b h in
    (
      read_header-n old (header_bytes log b) ∙ n,
      λ t lt.
          read_header-block old (header_bytes log b) t
            (omega (arith, lt, rounds-eq log.n h, ap rounds n))
          ∙ header_bytes-block log b t h lt (small t lt),
    )
