-- ===== src/Log/Words.antt =====
-- Words of a block: what one write of a word leaves to read.
use os.Prelude.{ℕ, ◌^◌, ◌<◌, ◌≡◌, ◌≢◌, arith}
use os.Kernel.{Block}
use os.Log.{word, set_word}

pub word-set_word_self : (b : Block) (k v : ℕ) → v < 2 ^ 32 → word (set_word b k v) k ≡ v
unfolding word set_word
word-set_word_self b k v h = ground arith

pub word-set_word_ne : (b : Block) (k j v : ℕ) → j ≢ k → word (set_word b k v) j ≡ word b j
unfolding word set_word
word-set_word_ne b k j v h = ground arith
