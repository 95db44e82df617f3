-- ===== src/Iconv.antt =====
-- src/iconv.cpp: the conversion stubs. Memory is a function from addresses to bytes; Words has the
-- `size_t` objects and the pointers that it holds.
pub mod Words
mod Tests
use mlibc_glibc_compat.Prelude.{
  ℕ, ◌+◌, ◌-◌, ◌≤◌, ◌<◌, ◌≡◌, ◌⊎◌, inl, inr, refl, arith, true, ◌==◌, ltb, leb, ◌&&◌, if◌then◌else◌,
}
use mlibc_glibc_compat.Errno.{Errno, success, Outcome, returns, aborts}
use mlibc_glibc_compat.Iconv.Words.{
  IsBytes, load, store, values, load-cong, load-IsWord, load-store, store-outside,
}

-- `(iconv_t)1`, whatever the two codes are.
unfoldable pub iconv_open : (tocode fromcode : ℕ) → ℕ
iconv_open tocode fromcode = 1

-- `memcpy(dest, src, n)`
unfoldable pub memcpy : (dest src n : ℕ) → (ℕ → ℕ) → ℕ → ℕ
memcpy dest src n mem a = if leb dest a && ltb a (dest + n) then mem (src + (a - dest)) else mem a

-- What a call leaves.
pub record Converted : Type 0 where
  pub mem : ℕ → ℕ
  pub result : Outcome ℕ

-- All parameters but the descriptor are addresses: `inbuf` and `outbuf` of the caller's two pointers to
-- text (`char **`), `inbytesleft` and `outbytesleft` of its two counters, each of 8 bytes. So the copy
-- begins at the pointers themselves, and not at the text that they point to. The counter is read for
-- the copy, and again after it.
unfoldable pub iconv : (cd inbuf inbytesleft outbuf outbytesleft : ℕ) → (ℕ → ℕ) → Converted
unfolding memcpy
iconv cd inbuf inbytesleft outbuf outbytesleft mem =
    let copied = memcpy inbuf outbuf (load 8 mem inbytesleft) mem in
    let stored = store 8 outbytesleft (load 8 copied inbytesleft) copied in
    if cd == 1
    then record { mem = stored; result = returns (load 8 stored outbytesleft) }
    else record { mem = mem; result = aborts }

unfoldable pub iconv_close : ℕ → Errno
iconv_close cd = success

memcpy-outside :
    (dest src n : ℕ) (mem : ℕ → ℕ) (a : ℕ)
    → (a < dest) ⊎ (dest + n ≤ a)
    → memcpy dest src n mem a ≡ mem a
unfolding memcpy
memcpy-outside dest src n mem a h = ground arith

memcpy-inside :
    (dest src n : ℕ) (mem : ℕ → ℕ) (k : ℕ)
    → k < n
    → memcpy dest src n mem (dest + k) ≡ mem (src + k)
unfolding memcpy
memcpy-inside dest src n mem k h =
    let back : dest + k - dest ≡ k = omega arith in
    let within : (leb dest (dest + k) && ltb (dest + k) (dest + n)) ≡ true = ground arith in
    rw (within, back)

-- No address of the `n` from `a` is one of the `m` from `b`.
abbrev pub Apart : (a n b m : ℕ) → Type 0
Apart a n b m = (a + n ≤ b) ⊎ (b + m ≤ a)

load-memcpy_kept :
    (dest src n : ℕ) (mem : ℕ → ℕ) (a : ℕ)
    → Apart dest n a 8
    → load 8 (memcpy dest src n mem) a ≡ load 8 mem a
load-memcpy_kept dest src n mem a h =
    load-cong 8 (memcpy dest src n mem) mem a a
      (λ k p. memcpy-outside dest src n mem (k + a) (ground arith))

load-memcpy_over :
    (dest src n : ℕ) (mem : ℕ → ℕ) → 8 ≤ n → load 8 (memcpy dest src n mem) dest ≡ load 8 mem src
load-memcpy_over dest src n mem h = load-cong 8 (memcpy dest src n mem) mem dest src (λ k p.
    let copied = memcpy-inside dest src n mem k (omega arith) in
    let left : dest + k ≡ k + dest = omega arith in
    let right : src + k ≡ k + src = omega arith in cc (copied, left, right))

load-store_kept :
    (b v : ℕ) (mem : ℕ → ℕ) (a : ℕ) → Apart b 8 a 8 → load 8 (store 8 b v mem) a ≡ load 8 mem a
load-store_kept b v mem a h =
    load-cong 8 (store 8 b v mem) mem a a (λ k p. store-outside 8 b v mem (k + a) (ground arith))

-- With the descriptor that `iconv_open` gives, and a counter `*inbytesleft` of 8 bytes or more, where the
-- bytes of that number from the variable `inbuf` are apart from the two counters and from as many bytes from
-- the variable `outbuf`, and the output's counter from the variable `inbuf`: the input's pointer becomes the
-- output's pointer. Every address that is neither one of those from `inbuf` nor in the output's counter keeps
-- its byte, so no text is converted and none is copied, unless it lies there. The output's counter and the
-- result become the input's counter.
pub iconv_reversed :
    (to from inbuf inbytesleft outbuf outbytesleft : ℕ) (mem : ℕ → ℕ) (a : ℕ)
    → IsBytes mem
    → let n = load 8 mem inbytesleft in
      8 ≤ n
      → Apart inbuf n outbuf n
      → Apart inbuf n inbytesleft 8
      → Apart inbuf n outbytesleft 8
      → (a < inbuf) ⊎ (inbuf + n ≤ a)
      → (a < outbytesleft) ⊎ (outbytesleft + 8 ≤ a)
      → let r = iconv (iconv_open to from) inbuf inbytesleft outbuf outbytesleft mem in
        (load 8 r.mem inbuf ≡ load 8 mem outbuf)
        × (r.mem a ≡ mem a)
        × (load 8 r.mem outbytesleft ≡ n)
        × (r.result ≡ returns n)
unfolding iconv iconv_open
iconv_reversed to from inbuf inbytesleft outbuf outbytesleft mem a bytes long apart in_apart
      out_apart p q =
    let n = load 8 mem inbytesleft in
    let copied = memcpy inbuf outbuf n mem in
    let again = load-memcpy_kept inbuf outbuf n mem inbytesleft in_apart in
    let left = load 8 copied inbytesleft in
    let bound = load-IsWord 8 mem inbytesleft bytes in
    let small : left < values 8 = omega arith in
    let stored = load-store 8 outbytesleft left copied small in
    let pointer = load-store_kept outbytesleft left copied inbuf (ground arith) in
    let over = load-memcpy_over inbuf outbuf n mem long in
    let kept = store-outside 8 outbytesleft left copied a q in
    let outside = memcpy-outside inbuf outbuf n mem a p in
    (cc (pointer, over), cc (kept, outside), cc (stored, again), cc (stored, again))
