-- ===== src/Threads/Refinement.antt =====
-- The interleaved threads of Threads next to a lock that is acquired, locked again and released in
-- single steps (src/mlibc_thread.cpp).
use mlibc_glibc_compat.Prelude.{
  ◌==◌, ℕ_discrete, ℕ, ◌+◌, ◌-◌, ◌<◌, ◌≡◌, ◌≢◌, ◌⊎◌, inl, inr, refl, sym, ◌∙◌, arith, true, false,
  update-all, Bool-cases, if◌then◌else◌,
}
use mathlib.Core.Path.{subst}
use mlibc_glibc_compat.Mutex.{Mutex, recursive_np, kind_of}
use mlibc_glibc_compat.Mutex.Lock.{LockPc, lock_step}
use mlibc_glibc_compat.Mutex.Trylock.{try_step}
use mlibc_glibc_compat.Mutex.Unlock.{unlock_step, unlock_woken}
use mlibc_glibc_compat.Threads.{
  Activity, running, locking, asleep, trying, unlocking, crashed, Thread, System, IsTid, wakes,
  rouse, turn, called, turned, interrupt, Call, Step, calls, turns, interrupts, IsInitial, Reach,
  next,
}
use mlibc_glibc_compat.Threads.Invariant.{Shared, Local}
use mlibc_glibc_compat.Threads.Steps.{Reach-Inv}
use mlibc_glibc_compat.Threads.Safety.{mutual_exclusion}

-- How many levels each thread has: the state of the lock.
abbrev pub Levels : Type 0
Levels = ℕ → ℕ

abbrev pub levels : System → Levels
levels s i = (s.thread i).depth

-- Thread `i` alone changes, to `n` levels.
abbrev pub Becomes : (i n : ℕ) → Levels → Levels → Type 0
Becomes i n f g = (g i ≡ n) × ((j : ℕ) → j ≢ i → g j ≡ f j)

-- The type, to the callers of one library at least.
abbrev pub IsRecursive : Mutex → Type 0
IsRecursive m = (kind_of true m ≡ recursive_np) ⊎ (kind_of false m ≡ recursive_np)

-- What a lock does: it is acquired where no thread has a level, locked again by the thread that has it
-- and only if it is recursive, and released level by level.
pub data LockStep (m : Mutex) (f g : Levels) : Type 0 where
  idles : ((j : ℕ) → g j ≡ f j) → LockStep m f g
  acquires : (i : ℕ) → IsTid i → ((j : ℕ) → IsTid j → f j ≡ 0) → Becomes i 1 f g → LockStep m f g
  relocks : (i : ℕ) → IsTid i → 0 < f i → IsRecursive m → Becomes i (f i + 1) f g → LockStep m f g
  releases : (i : ℕ) → IsTid i → 0 < f i → Becomes i (f i - 1) f g → LockStep m f g

-- One step of a thread changes its level by one at most.
abbrev Moved : (d d' : ℕ) → Mutex → Type 0
Moved d d' m =
    (d' ≡ d)
    ⊎ (((d ≡ 0) × (d' ≡ 1)) ⊎ ((0 < d) × IsRecursive m × (d' ≡ d + 1)) ⊎ ((0 < d) × (d' ≡ d - 1)))

turn_moves :
    (i : ℕ) (m : Mutex) (d : ℕ) (a : Activity)
    → IsTid i
    → Shared m
    → Local i m d a
    → Moved d (turn i m d a).1.depth m
unfolding turn lock_step try_step unlock_step unlock_woken
turn_moves i m d running t s l = inl refl
turn_moves i m d crashed t s l = inl refl
turn_moves i m d (asleep k e) t s l = inl refl
turn_moves i m d (locking k (LockPc.waiting e)) t s l = ground arith
turn_moves i m d (locking k (LockPc.attempt e)) t s l = ground arith
turn_moves i m d (locking k LockPc.acquired) t s l = ground arith
turn_moves i m d (locking k (LockPc.finished r)) t s l = absurd l.local
turn_moves i m d (trying k p) t s l = ground arith
turn_moves i m d (unlocking k p) t s l = ground arith

-- A wake leaves every level alone.
levels-rouse :
    (i : ℕ) (s : System) (j : ℕ)
    → ((if wakes (s.thread i).pc then (λ k. rouse (s.thread k)) else s.thread) j).depth ≡ levels s j
levels-rouse i s j = elim (Bool-cases (wakes (s.thread i).pc)) [
  | inl y ↦ rw (y, if◌then◌else◌) refl
  | inr n ↦ rw (n, if◌then◌else◌) refl
]

levels-turned :
    (i : ℕ) (s : System)
    → Becomes i
        (turn i s.mem (s.thread i).depth (s.thread i).pc).1.depth
        (levels s)
        (levels (turned i s))
unfolding turned
levels-turned i s = (
  ground arith,
  update-all (λ j (t : Thread). j ≢ i → t.depth ≡ levels s j) _ i _ (λ n. absurd (n refl))
      (λ j n _. levels-rouse i s j),
)

levels-interrupt : (i : ℕ) (s : System) (j : ℕ) → levels (interrupt i s) j ≡ levels s j
unfolding interrupt
levels-interrupt i s = update-all (λ j t. t.depth ≡ levels s j) s.thread i _ refl (λ j n. refl)

levels-called : (i : ℕ) (c : Call) (s : System) (j : ℕ) → levels (called i c s) j ≡ levels s j
unfolding called
levels-called i c s = update-all (λ j t. t.depth ≡ levels s j) s.thread i _ refl (λ j n. refl)

unchanged : (i : ℕ) (f g : Levels) → Becomes i (f i) f g → (j : ℕ) → g j ≡ f j
unfolding ℕ_discrete
unchanged i f g (at, apart) j = elim (ℕ_discrete i j) [
  | yes same ↦ subst (λ k. g k ≡ f k) same at
  | no n ↦ apart j (λ e. n (sym e))
]

module _ {s t : System} (start : IsInitial s) (r : Reach s t) (i : ℕ) (u : IsTid i) where
  -- Where thread `i` gets its first level, no thread had one before.
  others_free : levels t i ≡ 0 → levels (turned i t) i ≡ 1 → (j : ℕ) → IsTid j → levels t j ≡ 0
  unfolding ℕ_discrete
  others_free none_yet one j v = elim (ℕ_discrete i j) [
    | yes same ↦ subst (λ k. levels t k ≡ 0) same none_yet
    | no apart ↦ elim (Bool-cases (levels t j == 0)) [
      | inl z ↦ ground (arith, z)
      | inr p ↦
          let kept = (levels-turned i t).1 j (λ e. apart (sym e)) in
          let has : 0 < levels (turned i t) j = ground (arith, p, kept) in
          absurd
            (apart (mutual_exclusion start (next r (turns i u)) i j u v (omega (arith, one)) has))
    ]
  ]

  turned_refines : LockStep t.mem (levels t) (levels (turned i t))
  turned_refines =
      let inv = Reach-Inv start r in
      let (at, apart) = levels-turned i t in
      elim (turn_moves i t.mem (levels t i) (t.thread i).pc u inv.shared (inv.each i u)) [
        | inl same ↦
            LockStep.idles (unchanged i (levels t) (levels (turned i t)) (at ∙ same, apart))
        | inr (inl (none_yet, one)) ↦
            LockStep.acquires i u (others_free none_yet (at ∙ one)) (at ∙ one, apart)
        | inr (inr (inl (p, rec', more))) ↦ LockStep.relocks i u p rec' (at ∙ more, apart)
        | inr (inr (inr (p, less))) ↦ LockStep.releases i u p (at ∙ less, apart)
      ]

-- In every state that threads reach from a free mutex by permitted calls, with any interleaving: a step
-- of the threads is a step of a lock, or changes no level. So the three calls, of several accesses
-- each, implement a lock whose steps are atomic: it is acquired only where no thread has it, locked
-- again only by the thread that has it and only if it is recursive, and released by the thread that
-- has it, one level at a time.
pub steps_refine :
    {s t u : System} → IsInitial s → Reach s t → Step t u → LockStep t.mem (levels t) (levels u)
steps_refine {t = t} start r (calls i c v e p) = LockStep.idles (levels-called i c t)
steps_refine start r (turns i v) = turned_refines start r i v
steps_refine {t = t} start r (interrupts i v) = LockStep.idles (levels-interrupt i t)
