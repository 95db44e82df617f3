-- ===== src/Threads/Schedule/Sums.antt =====
-- Sums over the threads.
use mlibc_glibc_compat.Prelude.{ℕ, zero, suc, ◌+◌, ◌*◌, ◌<◌, ◌≤◌, ◌≢◌, arith, ℕ_discrete}
use mlibc_glibc_compat.Threads.Schedule.{total}

pub total_bound : (n b : ℕ) (f : ℕ → ℕ) → ((i : ℕ) → f i ≤ b) → total n f ≤ n * b
total_bound zero b f h = omega arith
total_bound (suc n) b f h = grind (arith, h, total_bound n b f h)

pub total_mono : (n : ℕ) (f g : ℕ → ℕ) → ((j : ℕ) → g j ≤ f j) → total n g ≤ total n f
total_mono zero f g h = omega arith
total_mono (suc n) f g h = omega (arith, h (suc n), total_mono n f g h)

-- One summand changes, and the others do not grow.
module _ (f g : ℕ → ℕ) (i : ℕ) (kept : (j : ℕ) → j ≢ i → g j ≤ f j) where
  total_outside : (n : ℕ) → n < i → total n g ≤ total n f
  total_outside zero h = omega arith
  total_outside (suc n) h =
      let small : n < i = omega arith in
      omega (arith, kept (suc n) (λ e. omega (arith, e)), total_outside n small)

  pub total_inside : (n : ℕ) → 0 < i → i ≤ n → total n g + f i ≤ total n f + g i
  unfolding ℕ_discrete
  total_inside zero p h = absurd (omega arith)
  total_inside (suc n) p h = elim (ℕ_discrete (suc n) i) [
    | yes e ↦
        let small : n < i = omega (arith, e) in
        let rest = total_outside n small in rw (← e) (omega (arith, rest))
    | no e ↦ let rest = total_inside n p (omega (arith, e)) in omega (arith, kept (suc n) e, rest)
  ]
