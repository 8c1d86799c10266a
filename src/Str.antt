-- ===== src/Str.antt =====
-- kernel/string.c. Memory is a function of the address, a uchar a
-- number below 256; the ranges that are passed do not wrap around the address space, and
-- memset() and strlen() are for fewer than 2^31 bytes, which their index, an int, can count.
pub mod Move
pub mod Text
pub mod Copy
mod Tests
use os.Prelude.{
  ℕ, zero, suc, ◌+◌, ◌-◌, ◌%◌, ◌^◌, Bool, not, ◌&&◌, ◌||◌, Option, none, some, ◌==◌, ltb,
  if◌then◌else◌, update, u32,
}

abbrev pub Memory : Type 0
Memory = ℕ → ℕ

-- `left` rounds of cdst[i] = c from `i` on
unfoldable pub set_loop : ℕ → ℕ → ℕ → ℕ → Memory → Memory
set_loop dst c zero i m = m
set_loop dst c (suc left) i m = set_loop dst c left (i + 1) (update m (dst + i) (c % 256))

unfoldable pub memset : ℕ → ℕ → ℕ → Memory → Memory
memset dst c n m = set_loop dst c n 0 m

-- the difference of the first two bytes that differ, as a 32-bit word
unfoldable pub memcmp : ℕ → ℕ → ℕ → Memory → ℕ
memcmp s1 s2 zero m = 0
memcmp s1 s2 (suc n) m =
    let rest = memcmp (s1 + 1) (s2 + 1) n m in
    if m s1 == m s2 then rest else u32 (m s1 + 2 ^ 32 - m s2)

-- *--d = *--s, with s and d at the ends of what is left
unfoldable pub copy_down : ℕ → ℕ → ℕ → Memory → Memory
copy_down d s zero m = m
copy_down d s (suc n) m = copy_down d s n (update m (d + n) (m (s + n)))

-- *d++ = *s++
unfoldable pub copy_up : ℕ → ℕ → ℕ → Memory → Memory
copy_up d s zero m = m
copy_up d s (suc n) m = copy_up (d + 1) (s + 1) n (update m d (m s))

unfoldable pub memmove : ℕ → ℕ → ℕ → Memory → Memory
memmove dst src n m =
    if n == 0
    then m
    else if ltb src dst && ltb dst (src + n)
    then copy_down dst src n m
    else copy_up dst src n m

unfoldable pub strncmp : ℕ → ℕ → ℕ → Memory → ℕ
strncmp p q zero m = 0
strncmp p q (suc n) m =
    let rest = strncmp (p + 1) (q + 1) n m in
    if m p == 0 || not (m p == m q) then u32 (m p + 2 ^ 32 - m q) else rest

-- while(n-- > 0) *s++ = 0
unfoldable pub zero_fill : ℕ → ℕ → Memory → Memory
zero_fill s zero m = m
zero_fill s (suc n) m = zero_fill (s + 1) n (update m s 0)

-- n is the number of bytes, 0 for a negative int
unfoldable pub strncpy : ℕ → ℕ → ℕ → Memory → Memory
unfolding zero_fill
strncpy s t zero m = m
strncpy s t (suc n) m =
    let m' = update m s (m t) in
    let rest = strncpy (s + 1) (t + 1) n m' in if m t == 0 then zero_fill (s + 1) n m' else rest

-- the loop of safestrcpy() with `n` after its first decrement, and the last store
unfoldable pub safe_loop : ℕ → ℕ → ℕ → Memory → Memory
safe_loop s t zero m = update m s 0
safe_loop s t (suc n) m =
    let m' = update m s (m t) in
    let rest = safe_loop (s + 1) (t + 1) n m' in if m t == 0 then update m' (s + 1) 0 else rest

unfoldable pub safestrcpy : ℕ → ℕ → ℕ → Memory → Memory
safestrcpy s t zero m = m
safestrcpy s t (suc n) m = safe_loop s t n m

-- on fuel: `none` where no byte that was seen is 0
unfoldable pub strlen_from : ℕ → ℕ → ℕ → Memory → Option ℕ
strlen_from zero s n m = none
strlen_from (suc fuel) s n m =
    let rest = strlen_from fuel s (n + 1) m in if m (s + n) == 0 then some n else rest

unfoldable pub strlen : ℕ → ℕ → Memory → Option ℕ
strlen fuel s m = strlen_from fuel s 0 m
