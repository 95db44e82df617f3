-- ===== src/Iconv/Words.antt =====
-- Numbers of some bytes in the memory of src/iconv.cpp, lowest byte first.
use mlibc_glibc_compat.Prelude.{
  ℕ, zero, suc, ◌+◌, ◌*◌, ◌/◌, ◌%◌, ◌≤◌, ◌<◌, ◌≡◌, ◌⊎◌, refl, arith, ◌==◌, if◌then◌else◌,
}

unfoldable pub load : (n : ℕ) → (ℕ → ℕ) → ℕ → ℕ
load zero mem a = 0
load (suc n) mem a = mem a + 256 * load n mem (suc a)

unfoldable pub store : (n a v : ℕ) → (ℕ → ℕ) → ℕ → ℕ
store zero a v mem x = mem x
store (suc n) a v mem x = if x == a then v % 256 else store n (suc a) (v / 256) mem x

-- The number of values of `n` bytes.
unfoldable pub values : ℕ → ℕ
values zero = 1
values (suc n) = 256 * values n

abbrev pub IsBytes : (ℕ → ℕ) → Type 0
IsBytes mem = (a : ℕ) → mem a < 256

pub load-cong :
    (n : ℕ) (m m' : ℕ → ℕ) (a b : ℕ)
    → ((k : ℕ) → k < n → m (k + a) ≡ m' (k + b))
    → load n m a ≡ load n m' b
unfolding load
load-cong zero m m' a b h = refl
load-cong (suc n) m m' a b h =
    let rest = load-cong n m m' (suc a) (suc b) (λ k p.
      let there = h (suc k) (omega arith) in
      let left : k + suc a ≡ suc k + a = omega arith in
      let right : k + suc b ≡ suc k + b = omega arith in cc (there, left, right)) in
    let here = h 0 (omega arith) in
    let left : 0 + a ≡ a = omega arith in
    let right : 0 + b ≡ b = omega arith in cc (here, left, right, rest)

pub load-IsWord : (n : ℕ) (mem : ℕ → ℕ) (a : ℕ) → IsBytes mem → load n mem a < values n
unfolding load values
load-IsWord zero mem a b = omega arith
load-IsWord (suc n) mem a b =
    let here = b a in let rest = load-IsWord n mem (suc a) b in omega arith

pub store-outside :
    (n a v : ℕ) (mem : ℕ → ℕ) (x : ℕ) → (x < a) ⊎ (a + n ≤ x) → store n a v mem x ≡ mem x
unfolding store
store-outside zero a v mem x h = refl
store-outside (suc n) a v mem x h =
    let rest = store-outside n (suc a) (v / 256) mem x (ground arith) in ground arith

-- What is loaded after the lowest byte of a number is the rest of it.
load-store_rest :
    (n a v : ℕ) (mem : ℕ → ℕ)
    → load n (store (suc n) a v mem) (suc a) ≡ load n (store n (suc a) (v / 256) mem) (suc a)
unfolding store
load-store_rest n a v mem =
    load-cong n (store (suc n) a v mem) (store n (suc a) (v / 256) mem) (suc a) (suc a)
      (λ k p. ground arith)

pub load-store : (n a v : ℕ) (mem : ℕ → ℕ) → v < values n → load n (store n a v mem) a ≡ v
unfolding load store values
load-store zero a v mem h = omega arith
load-store (suc n) a v mem h =
    let rest = load-store n (suc a) (v / 256) mem (omega arith) in
    let high = load-store_rest n a v mem in ground arith
