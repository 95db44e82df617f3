-- ===== src/Misc/RawMemchr.antt =====
-- `__rawmemchr` (src/misc.cpp): a search with no end, by `memchr` with the largest count.
use mlibc_glibc_compat.Prelude.{
  ℕ, zero, suc, ◌+◌, ◌≤◌, ◌<◌, ◌≡◌, ◌≢◌, refl, arith, ℤ, low_bits, ◌==◌, Option, none, some,
  if◌then◌else◌,
}

-- `memchr`: the first of `n` bytes from `s` on that is `byte`; `none` is the null pointer.
unfoldable pub memchr : (n : ℕ) → (mem : ℕ → ℕ) → (s byte : ℕ) → Option ℕ
memchr zero mem s byte = none
memchr (suc n) mem s byte =
    let rest = memchr n mem (s + 1) byte in if mem s == byte then some s else rest

-- SSIZE_MAX
abbrev pub ssize_max : ℕ
ssize_max = 9_223_372_036_854_775_807

-- `memchr` looks for the low 8 bits of `c`.
unfoldable pub rawmemchr : (mem : ℕ → ℕ) → (s : ℕ) → (c : ℤ) → Option ℕ
unfolding low_bits
rawmemchr mem s c = memchr ssize_max mem s (low_bits 8 c)

-- What the bytes after the first are not.
later :
    (n : ℕ) (mem : ℕ → ℕ) (s byte : ℕ)
    → ((j : ℕ) → j < suc n → mem (s + j) ≢ byte)
    → (j : ℕ) → j < n
    → mem (s + 1 + j) ≢ byte
later n mem s byte f j b =
    let at : s + 1 + j ≡ s + suc j = omega arith in rw at (f (suc j) (omega arith))

memchr_first :
    (n k : ℕ) (mem : ℕ → ℕ) (s byte : ℕ)
    → k < n
    → mem (s + k) ≡ byte
    → ((j : ℕ) → j < k → mem (s + j) ≢ byte)
    → memchr n mem s byte ≡ some (s + k)
unfolding memchr
memchr_first zero k mem s byte b e f = absurd (omega arith)
memchr_first (suc n) zero mem s byte b e f = ground arith
memchr_first (suc n) (suc k) mem s byte b e f =
    let at : s + 1 + k ≡ s + suc k = omega arith in
    let rest : memchr n mem (s + 1) byte ≡ some (s + 1 + k) =
      memchr_first n k mem (s + 1) byte (omega arith) (rw at e) (later k mem s byte f) in
    ground (arith, f 0, rest)

memchr-none :
    (n : ℕ) (mem : ℕ → ℕ) (s byte : ℕ)
    → ((j : ℕ) → j < n → mem (s + j) ≢ byte)
    → memchr n mem s byte ≡ none
unfolding memchr
memchr-none zero mem s byte f = refl
memchr-none (suc n) mem s byte f =
    ground (arith, f 0, memchr-none n mem (s + 1) byte (later n mem s byte f))

-- The pointer to the first byte that is the low 8 bits of `c`, if there is one among the 2^63 - 1 bytes
-- that are searched; and the null pointer if there is none, where the search should have no end.
rawmemchr_first :
    (mem : ℕ → ℕ) (s k : ℕ) (c : ℤ)
    → ((j : ℕ) → j < k → mem (s + j) ≢ low_bits 8 c)
    → (k < ssize_max → mem (s + k) ≡ low_bits 8 c → rawmemchr mem s c ≡ some (s + k))
      × (ssize_max ≤ k → rawmemchr mem s c ≡ none)
unfolding rawmemchr
rawmemchr_first mem s k c f = (
  λ b e. memchr_first ssize_max k mem s (low_bits 8 c) b e f,
  λ b. memchr-none ssize_max mem s (low_bits 8 c) (λ j q. f j (omega arith)),
)
