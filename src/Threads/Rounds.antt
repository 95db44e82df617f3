-- ===== src/Threads/Rounds.antt =====
-- Schedules, of threads that have a number of steps to make: a bound on the steps, and what fair rounds
-- lead to. A client gives its step, and a measure that falls.
use mlibc_glibc_compat.Prelude.{
  ℕ, zero, suc, ◌+◌, ◌<◌, ◌≤◌, ◌≡◌, ◌⊎◌, inl, inr, sym, ap, ◌∙◌, Bool, Bool-cases, true, false,
  List, [], ◌∷◌, length, arith, if◌then◌else◌, ℕ_discrete,
}
use mathlib.Core.Path.{subst}

-- Steps of the threads 1 to `n` only.
abbrev pub AllWithin : (n : ℕ) → List ℕ → Type 0
AllWithin n [] = Unit {0}
AllWithin n (i ∷ is) = ((0 < i) × (i ≤ n)) × AllWithin n is

abbrev pub Occurs : ℕ → List ℕ → Type 0
Occurs i [] = ⊥
Occurs i (j ∷ js) = (i ≡ j) ⊎ Occurs i js

-- Steps of the threads 1 to `n`, with one of each of them at least.
abbrev pub IsRound : (n : ℕ) → List ℕ → Type 0
IsRound n is = AllWithin n is × ((i : ℕ) → 0 < i → i ≤ n → Occurs i is)

abbrev pub AllRounds : (n : ℕ) → List (List ℕ) → Type 0
AllRounds n [] = Unit {0}
AllRounds n (r ∷ rs) = IsRound n r × AllRounds n rs

module _ {ℓ} {S : Type ℓ} (made : ℕ → S → S) where
  -- The state after the steps of a schedule.
  unfoldable pub follow : List ℕ → S → S
  follow [] s = s
  follow (i ∷ is) s = follow is (made i s)

  unfoldable pub follow_rounds : List (List ℕ) → S → S
  unfolding follow
  follow_rounds [] s = s
  follow_rounds (r ∷ rs) s = follow_rounds rs (follow r s)

  -- How many steps of a schedule are made by a thread that has one to make.
  unfoldable pub toil : (active : ℕ → S → Bool) → List ℕ → S → ℕ
  toil active [] s = 0
  toil active (i ∷ is) s = (if active i s then 1 else 0) + toil active is (made i s)

-- The steps of the threads 1 to `n` keep what is good, and get nearer to the end; a thread with no step
-- to make changes nothing.
pub record IsProgress {ℓ} {S : Type ℓ} (n : ℕ) (made : ℕ → S → S) (active : ℕ → S → Bool)
    (measure : S → ℕ) (Good : S → Type 0) : Type ℓ where
  pub kept : (i : ℕ) (s : S) → 0 < i → i ≤ n → Good s → Good (made i s)
  pub falls :
      (i : ℕ) (s : S) → 0 < i → i ≤ n → Good s → active i s ≡ true → measure (made i s) < measure s
  pub idles : (i : ℕ) (s : S) → active i s ≡ false → made i s ≡ s

module _ {ℓ} {S : Type ℓ} {n : ℕ} {made : ℕ → S → S} {active : ℕ → S → Bool} {measure : S → ℕ}
    {Good : S → Type 0} (p : IsProgress n made active measure Good) where
  pub follow-kept : (is : List ℕ) (s : S) → AllWithin n is → Good s → Good (follow made is s)
  unfolding follow
  follow-kept [] s w g = g
  follow-kept (i ∷ is) s ((low, high), w) g = follow-kept is (made i s) w (p.kept i s low high g)

  pub follow_rounds-kept :
      (rs : List (List ℕ)) (s : S) → AllRounds n rs → Good s → Good (follow_rounds made rs s)
  unfolding follow_rounds
  follow_rounds-kept [] s w g = g
  follow_rounds-kept (r ∷ rs) s (w, ws) g =
      follow_rounds-kept rs (follow made r s) ws (follow-kept r s w.0 g)

  -- A schedule has no more steps to make than the measure says.
  pub toil-measure :
      (is : List ℕ) (s : S)
      → AllWithin n is
      → Good s
      → toil made active is s + measure (follow made is s) ≤ measure s
  unfolding toil follow
  toil-measure [] s w g = omega arith
  toil-measure (i ∷ is) s ((low, high), w) g =
      let rest = toil-measure is (made i s) w (p.kept i s low high g) in
      elim (Bool-cases (active i s)) [
        | inl b ↦ rw (b, if◌then◌else◌) (omega (arith, rest, p.falls i s low high g b))
        | inr b ↦ rw (b, if◌then◌else◌) (omega (arith, rest, ap measure (p.idles i s b)))
      ]

  -- No thread has a step to make.
  abbrev pub Quiet : S → Type 0
  Quiet s = (i : ℕ) → 0 < i → i ≤ n → active i s ≡ false

  -- A thread with a step to make keeps it while the others have none.
  round_toils :
      (i : ℕ) (is : List ℕ) (s : S) → Occurs i is → active i s ≡ true → 0 < toil made active is s
  unfolding toil
  round_toils i [] s o b = absurd o
  round_toils i (j ∷ js) s o b = elim (Bool-cases (active j s)) [
    | inl c ↦ rw (c, if◌then◌else◌) (omega arith)
    | inr c ↦
        let later : Occurs i js = elim o [ inl e ↦ cc (ap (λ k. active k s) e) | inr o' ↦ o' ] in
        rw (c, if◌then◌else◌)
          (omega (arith, round_toils i js (made j s) later (ap (active i) (p.idles j s c) ∙ b)))
  ]

  follow-Quiet : (is : List ℕ) (s : S) → AllWithin n is → Quiet s → Quiet (follow made is s)
  unfolding follow
  follow-Quiet [] s w q = q
  follow-Quiet (i ∷ is) s ((low, high), w) q =
      follow-Quiet is (made i s) w (subst Quiet (sym (p.idles i s (q i low high))) q)

  rounds-Quiet :
      (rs : List (List ℕ)) (s : S) → AllRounds n rs → Quiet s → Quiet (follow_rounds made rs s)
  unfolding follow_rounds
  rounds-Quiet [] s w q = q
  rounds-Quiet (r ∷ rs) s (w, ws) q = rounds-Quiet rs (follow made r s) ws (follow-Quiet r s w.0 q)

active_or_none :
    (n : ℕ) (test : ℕ → Bool)
    → ((i : ℕ) × (0 < i) × (i ≤ n) × (test i ≡ true)) ⊎ ((i : ℕ) → 0 < i → i ≤ n → test i ≡ false)
unfolding ℕ_discrete
active_or_none zero test = inr (λ i p q. absurd (omega arith))
active_or_none (suc n) test = elim (Bool-cases (test (suc n))) [
  | inl b ↦ inl (suc n, omega arith, omega arith, b)
  | inr b ↦ elim (active_or_none n test) [
    | inl (i, p, q, c) ↦ inl (i, p, omega arith, c)
    | inr all ↦ inr (λ i p q. elim (ℕ_discrete i (suc n)) [
      | yes e ↦ subst (λ k. test k ≡ false) (sym e) b
      | no e ↦ all i p (omega (arith, e))
    ])
  ]
]

module _ {ℓ} {S : Type ℓ} {n : ℕ} {made : ℕ → S → S} {active : ℕ → S → Bool} {measure : S → ℕ}
    {Good : S → Type 0} (p : IsProgress n made active measure Good) where
  -- With as many rounds as the measure says, no thread has a step to make.
  pub rounds_end :
      (rs : List (List ℕ)) (s : S)
      → AllRounds n rs
      → Good s
      → measure s ≤ length rs
      → (i : ℕ) → 0 < i
      → i ≤ n
      → active i (follow_rounds made rs s) ≡ false
  unfolding follow_rounds
  rounds_end [] s w g m = elim (active_or_none n (λ i. active i s)) [
    | inl (i, low, high, b) ↦ absurd (omega (arith, p.falls i s low high g b))
    | inr all ↦ all
  ]
  rounds_end (r ∷ rs) s (w, ws) g m = elim (active_or_none n (λ i. active i s)) [
    | inl (i, low, high, b) ↦
        let made_some = round_toils p i r s (w.1 i low high) b in
        let falls = toil-measure p r s w.0 g in
        rounds_end rs (follow made r s) ws (follow-kept p r s w.0 g)
          (omega (arith, made_some, falls))
    | inr all ↦ rounds-Quiet p rs (follow made r s) ws (follow-Quiet p r s w.0 all)
  ]
