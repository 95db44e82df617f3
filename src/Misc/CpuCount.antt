-- ===== src/Misc/CpuCount.antt =====
-- `__sched_cpucount` (src/misc.cpp).
use mlibc_glibc_compat.Prelude.{
  ℕ, zero, suc, ◌+◌, ◌*◌, ◌/◌, ◌%◌, ◌<◌, ◌≡◌, refl, ap, ◌∙◌, arith, List, [], ◌∷◌, get_or, take,
  drop, length,
}

-- The bits among the low `n` of a word.
unfoldable pub bits_set : (n : ℕ) → ℕ → ℕ
bits_set zero w = 0
bits_set (suc n) w = w % 2 + bits_set n (w / 2)

-- `__builtin_popcountl`
unfoldable pub popcount : ℕ → ℕ
unfolding bits_set
popcount w = bits_set 64 w

-- `rounds` rounds of the loop, from the index `i` on.
unfoldable pub count_loop : (rounds i count : ℕ) → (bits : List ℕ) → ℕ
count_loop zero i count bits = count
count_loop (suc k) i count bits = count_loop k (suc i) (count + popcount (get_or bits i 0)) bits

-- `set_size` is in bytes; `ncpubits` is the header's `__NCPUBITS`, the bits of one word.
unfoldable pub sched_cpucount : (ncpubits set_size : ℕ) → (bits : List ℕ) → ℕ
unfolding count_loop
sched_cpucount ncpubits set_size bits = count_loop (set_size / ncpubits) 0 0 bits

-- The CPUs of a list of words.
abbrev pub cpus : List ℕ → ℕ
cpus [] = 0
cpus (w ∷ ws) = popcount w + cpus ws

popcount-zero : popcount 0 ≡ 0
unfolding popcount
popcount-zero = refl

cpus-take_nil : (k : ℕ) → cpus (take k []) ≡ 0
cpus-take_nil zero = refl
cpus-take_nil (suc k) = refl

cpus-take-drop :
    (k i : ℕ) (ws : List ℕ)
    → cpus (take (suc k) (drop i ws)) ≡ popcount (get_or ws i 0) + cpus (take k (drop (suc i) ws))
cpus-take-drop k zero [] = omega (arith, popcount-zero, cpus-take_nil k)
cpus-take-drop k zero (w ∷ ws) = refl
cpus-take-drop k (suc i) [] = omega (arith, popcount-zero, cpus-take_nil k)
cpus-take-drop k (suc i) (w ∷ ws) = cpus-take-drop k i ws

count_loop-eq :
    (k i count : ℕ) (ws : List ℕ) → count_loop k i count ws ≡ count + cpus (take k (drop i ws))
unfolding count_loop
count_loop-eq zero i count ws = omega arith
count_loop-eq (suc k) i count ws =
    omega
      (arith, count_loop-eq k (suc i) (count + popcount (get_or ws i 0)) ws, cpus-take-drop k i ws)

-- The count is that of the first set_size / __NCPUBITS words.
pub cpucount-eq :
    (ncpubits set_size : ℕ) (bits : List ℕ)
    → sched_cpucount ncpubits set_size bits ≡ cpus (take (set_size / ncpubits) bits)
unfolding sched_cpucount
cpucount-eq ncpubits set_size bits = omega (arith, count_loop-eq (set_size / ncpubits) 0 0 bits)

-- With words of 64 bits, the set of `n` words has 8 n bytes; the function counts the CPUs of the
-- first n / 8 words of it alone, and none at all for a set of fewer than 8 words.
pub cpucount_eighth :
    (bits : List ℕ)
    → (sched_cpucount 64 (8 * length bits) bits ≡ cpus (take (length bits / 8) bits))
      × (length bits < 8 → sched_cpucount 64 (8 * length bits) bits ≡ 0)
cpucount_eighth bits = (whole, few)
  where
    eighth : 8 * length bits / 64 ≡ length bits / 8
    eighth = omega arith

    whole : sched_cpucount 64 (8 * length bits) bits ≡ cpus (take (length bits / 8) bits)
    whole = cpucount-eq 64 (8 * length bits) bits ∙ ap (λ k. cpus (take k bits)) eighth

    few : length bits < 8 → sched_cpucount 64 (8 * length bits) bits ≡ 0
    few h = let none : length bits / 8 ≡ 0 = omega arith in rw none at whole
