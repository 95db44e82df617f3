-- ===== src/Prelude/Lists.antt =====
-- Lists over the native numbers, checks over a range, and functions changed at one point.
use mlibc_glibc_compat.Prelude.Tests.{◌==◌, if◌then◌else◌}
use Prim.Native.Nat.{ℕ, zero, suc, ◌+◌, ◌<◌, ◌≤◌}
use mathlib.Core.Path.{◌≡◌, sym, subst}
use mathlib.Core.Logic.{◌≢◌}
use native.Mathlib.Decide.{ℕ_discrete}
use mathlib.Core.Bool.{Bool, true, false}
use mathlib.Core.Option.{Option, none, some}
use mathlib.Core.List.{List, [], ◌∷◌}
use native.Mathlib.Omega.{arith}

module _ {ℓ} {A : Type ℓ} where
  abbrev pub length : List A → ℕ
  length [] = 0
  length (x ∷ xs) = suc (length xs)

  abbrev pub get_elem? : List A → ℕ → Option A
  get_elem? [] i = none
  get_elem? (x ∷ xs) zero = some x
  get_elem? (x ∷ xs) (suc i) = get_elem? xs i

  abbrev pub get_or : List A → ℕ → A → A
  get_or [] i d = d
  get_or (x ∷ xs) zero d = x
  get_or (x ∷ xs) (suc i) d = get_or xs i d

  abbrev pub replicate : ℕ → A → List A
  replicate zero a = []
  replicate (suc n) a = a ∷ replicate n a

  abbrev pub take : ℕ → List A → List A
  take zero xs = []
  take (suc n) [] = []
  take (suc n) (x ∷ xs) = x ∷ take n xs

  abbrev pub drop : ℕ → List A → List A
  drop zero xs = xs
  drop (suc n) [] = []
  drop (suc n) (x ∷ xs) = drop n xs

  -- A function changed at one point: an assignment through a pointer, or to one thread's state.
  abbrev pub update : (ℕ → A) → ℕ → A → ℕ → A
  update f i a j = if i == j then a else f j

  pub update_self : (f : ℕ → A) (i : ℕ) (a : A) → update f i a i ≡ a
  update_self f i a = ground arith

  pub update_other : (f : ℕ → A) (i : ℕ) (a : A) (j : ℕ) → j ≢ i → update f i a j ≡ f j
  update_other f i a j n = ground arith

  -- What holds of the new value and of every other point holds everywhere.
  pub update-all {κ} :
      (P : ℕ → A → Type κ) (f : ℕ → A) (i : ℕ) (a : A)
      → P i a
      → ((j : ℕ) → j ≢ i → P j (f j))
      → (j : ℕ) → P j (update f i a j)
  unfolding ℕ_discrete
  update-all P f i a new old j = elim (ℕ_discrete i j) [
    | yes e ↦ subst (λ k. P k (update f i a k)) e (rw (update_self f i a) new)
    | no n ↦ let same : update f i a j ≡ f j = ground arith in rw same (old j (λ e. n (sym e)))
  ]

-- Two functions that are changed at the same point.
module _ {ℓ μ} {A : Type ℓ} {B : Type μ} where
  pub update_both {κ} :
      (P : ℕ → A → B → Type κ) (f : ℕ → A) (g : ℕ → B) (i : ℕ) (a : A) (b : B)
      → P i a b
      → ((j : ℕ) → j ≢ i → P j (f j) (g j))
      → (j : ℕ) → P j (update f i a j) (update g i b j)
  unfolding ℕ_discrete
  update_both P f g i a b new old j = elim (ℕ_discrete i j) [
    | yes e ↦
        subst (λ k. P k (update f i a k) (update g i b k)) e
          (rw (update_self f i a, update_self g i b) new)
    | no n ↦
        let left : update f i a j ≡ f j = ground arith in
        let right : update g i b j ≡ g j = ground arith in rw (left, right) (old j (λ e. n (sym e)))
  ]

-- A table is compared with its meaning entry by entry: the test holds at `count` numbers from `start` on.
unfoldable pub holds_from : (count start : ℕ) → (ℕ → Bool) → Bool
holds_from zero start test = true
holds_from (suc count) start test =
    let later = holds_from count (start + 1) test in if test start then later else false

pub holds_from-entry :
    (count start entry : ℕ) (test : ℕ → Bool)
    → start ≤ entry
    → entry < start + count
    → holds_from count start test ≡ true
    → test entry ≡ true
unfolding holds_from ℕ_discrete
holds_from-entry zero start entry test lo hi all = absurd (omega arith)
holds_from-entry (suc count) start entry test lo hi all = elim (ℕ_discrete start entry) [
  | yes first ↦ subst (λ k. test k ≡ true) first (ground arith)
  | no later ↦
      holds_from-entry count (start + 1) entry test (ground arith) (omega arith) (ground arith)
]
