-- ===== src/Str/Text.antt =====
-- strncmp() and strlen() on strings that end in a byte 0.
use os.Prelude.{
  ℕ, zero, suc, ◌+◌, ◌-◌, ◌<◌, ◌≤◌, ◌≡◌, ◌≢◌, ◌↔◌, inl, inr, refl, Bool, true, false, not, ◌||◌,
  some, ◌==◌, if◌then◌else◌, arith, Bool-cases,
}
use os.Str.{Memory, strncmp, strlen_from, strlen}

-- one of the first `k` bytes from `t` on is 0
unfoldable pub ended : Memory → ℕ → ℕ → Bool
ended m t zero = false
ended m t (suc k) = let rest = ended m (t + 1) k in if m t == 0 then true else rest

-- two memories with the same bytes before
pub ended-ext :
    (m m' : Memory) (t k : ℕ)
    → ((j : ℕ) → j < k → m' (t + j) ≡ m (t + j))
    → ended m' t k ≡ ended m t k
unfolding ended
ended-ext m m' t zero h = refl
ended-ext m m' t (suc k) h =
    ground (arith, h 0, ended-ext m m' (t + 1) k (λ j lt. ground (arith, h (j + 1))))

pub ended-zero : (m : Memory) (t k : ℕ) → k ≡ 0 → ended m t k ≡ false
unfolding ended
ended-zero m t k h = rw h

pub ended-cons : (m : Memory) (t k : ℕ) → ended m (t + 1) k ≡ true → ended m t (suc k) ≡ true
unfolding ended
ended-cons m t k h = ground arith

pub ended-pos :
    (m : Memory) (t k : ℕ)
    → (k == 0) ≡ false
    → ended m t k ≡ (if m t == 0 then true else ended m (t + 1) (k - 1))
unfolding ended
ended-pos m t zero h = cc h
ended-pos m t (suc k) h = ground arith

-- strncmp() of bytes is 0 exactly if the two strings agree, byte by byte, up to the `n`-th or to
-- the end of the first.
pub strncmp-zero :
    (p q n : ℕ) (m : Memory)
    → ((a : ℕ) → m a < 256)
    → (strncmp p q n m ≡ 0) ↔ ((k : ℕ) → k < n → ended m p k ≡ false → m (p + k) ≡ m (q + k))
unfolding strncmp ended
strncmp-zero p q zero m bytes = (λ e k lt go. absurd (omega arith), λ e. refl)
strncmp-zero p q (suc n) m bytes =
    let ih = strncmp-zero (p + 1) (q + 1) n m bytes in
    elim (Bool-cases (m p == 0 || not (m p == m q))) [
      | inl stop ↦ rw stop (
        λ z k lt go. ground (arith, bytes p, bytes q, ended-pos m p k),
        λ all. ground (arith, all 0),
      )
      | inr more ↦ rw more (
        λ z k lt go. elim (Bool-cases (k == 0)) [
          | inl first ↦ ground arith
          | inr later ↦ ground (arith, ended-pos m p k, ih.0 z (k - 1))
        ],
        λ all. ih.1 (λ k lt go. ground (arith, ended-pos m p (k + 1), all (k + 1))),
      )
    ]

strlen_from-some :
    (fuel n s k : ℕ) (m : Memory)
    → n ≤ k
    → k < n + fuel
    → ((j : ℕ) → j < k → m (s + j) ≢ 0)
    → m (s + k) ≡ 0
    → strlen_from fuel s n m ≡ some k
unfolding strlen_from
strlen_from-some zero n s k m le lt before end = absurd (omega arith)
strlen_from-some (suc fuel) n s k m le lt before end = elim (Bool-cases (n == k)) [
  | inl e ↦ ground arith
  | inr ne ↦
      let more : (m (s + n) == 0) ≡ false = ground (arith, before n) in
      rw more (strlen_from-some fuel (n + 1) s k m (ground arith) (omega arith) before end)
]

-- With fuel for more bytes than there are before the first 0, strlen() returns their number.
pub strlen-some :
    (fuel s k : ℕ) (m : Memory)
    → k < fuel
    → ((j : ℕ) → j < k → m (s + j) ≢ 0)
    → m (s + k) ≡ 0
    → strlen fuel s m ≡ some k
unfolding strlen
strlen-some fuel s k m enough before end =
    strlen_from-some fuel 0 s k m (omega arith) (omega (arith, enough)) before end
