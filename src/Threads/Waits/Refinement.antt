-- ===== src/Threads/Waits/Refinement.antt =====
-- The waits and broadcasts of Threads.Waits are the steps of the condition variable of Stages
-- (src/mlibc_thread.cpp).
use mlibc_glibc_compat.Prelude.{
  ℕ, ◌+◌, ◌%◌, ◌^◌, ◌<◌, ◌≡◌, ◌≢◌, inl, inr, refl, sym, ap, ◌∙◌, arith, Bool, true, false, update,
  update_self, update-all, Bool-cases, ℕ_discrete,
}
use mathlib.Core.Path.{subst}
use mlibc_glibc_compat.Errno.{Errno, success}
use mlibc_glibc_compat.Threads.{running, IsTid}
use mlibc_glibc_compat.Threads.Waits.{
  Phase, releasing, announcing, World, IsOutside, next_phase, stirred, late, announces, is_running,
  acted, waiting, announced, disturbed, overdue, Move, calls, turns, interrupts, waits, broadcasts,
  acts, disturbs, expires, IsStart, Run,
}
use mlibc_glibc_compat.Threads.Waits.Invariant.{Fits}
use mlibc_glibc_compat.Threads.Waits.Whole.{Whole}
use mlibc_glibc_compat.Threads.Waits.Steps.{RecursiveTo, Run-Whole}
use mlibc_glibc_compat.Threads.Waits.Acting.{others, is_running_eq, acted_runs}
use mlibc_glibc_compat.Threads.Waits.Stages.{
  Stage, pending, since, stage, Stages, stages, Goes, CondStep, Advances, outside_away,
  stage-stirred, stage-late, stage-counted, stage-next,
}

-- A change of one thread's phase.
goes :
    (now : ℕ) (f : ℕ → Phase) (i : ℕ) (p : Phase)
    → Goes i (stage now p) (λ j. stage now (f j)) (λ j. stage now (update f i p j))
goes now f i p = (
  ap (stage now) (update_self f i p),
  λ j t.
      update-all (λ k q. k ≢ i → stage now q ≡ stage now (f k)) f i p (λ n. absurd (n refl))
        (λ k n _. refl) j,
)

stays : (i : ℕ) (f g : Stages) → Goes i (f i) f g → (j : ℕ) → IsTid j → g j ≡ f j
unfolding ℕ_discrete
stays i f g (at, apart) j t = elim (ℕ_discrete i j) [
  | yes same ↦ subst (λ k. g k ≡ f k) same at
  | no n ↦ apart j t (λ e. n (sym e))
]

advance :
    (i : ℕ) (s : Stage) (f g : Stages) → IsTid i → Advances (f i) s → Goes i s f g → CondStep f g
advance i s f g t (inl same) (at, apart) = CondStep.idles (stays i f g (at ∙ same, apart))
advance i s f g t (inr (inl (b, e))) (at, apart) = CondStep.ends i t b (at ∙ e, apart)
advance i s f g t (inr (inr (inl (inl n, e)))) (at, apart) =
    CondStep.succeeds i true t n (at ∙ e, apart)
advance i s f g t (inr (inr (inl (inr n, e)))) (at, apart) =
    CondStep.succeeds i false t n (at ∙ e, apart)
advance i s f g t (inr (inr (inr (n, e)))) (at, apart) = CondStep.times_out i t n (at ∙ e, apart)

stage-others : (i : ℕ) (w : World) (j : ℕ) → stage w.cond.seq (others i w j) ≡ stages w j
stage-others i w j = elim (Bool-cases (announces (w.phase i))) [
  | inl y ↦ rw y (stage-stirred w.cond.seq success (w.phase j))
  | inr n ↦ rw n refl
]

module _ (Rec : Bool → Type 0) (i : ℕ) (w : World) (t : IsTid i) (inv : Whole Rec w) where
  phase_idles :
      (p : Phase)
      → stage w.cond.seq p ≡ stages w i
      → CondStep (stages w) (stages (record w { phase = update w.phase i p }))
  phase_idles p e =
      let (at, apart) = goes w.cond.seq w.phase i p in
      CondStep.idles (stays i (stages w) _ (at ∙ e, apart))

  waiting_begins :
      (k timed : Bool) → IsOutside (w.phase i) → CondStep (stages w) (stages (waiting i k timed w))
  unfolding waiting
  waiting_begins k timed o =
      let (last, e) = outside_away w.cond.seq (w.phase i) o in
      let fresh : since timed w.cond.seq w.cond.seq ≡ pending timed = ground arith in
      let (at, apart) =
        goes w.cond.seq w.phase i (releasing k timed (w.base.thread i).depth w.cond.seq) in
      CondStep.begins i last timed t e (at ∙ fresh, apart)

  announced_reaches :
      IsOutside (w.phase i) → w.cond.seq + 1 < 2 ^ 32 → CondStep (stages w) (stages (announced i w))
  unfolding announced
  announced_reaches o b =
      let (last, e) = outside_away w.cond.seq (w.phase i) o in
      let up : (w.cond.seq + 1) % 2 ^ 32 ≡ w.cond.seq + 1 = omega arith in
      let (at, apart) = goes (w.cond.seq + 1) w.phase i announcing in
      rw up (
        CondStep.reaches i last t e at
          (λ j u n. apart j u n ∙ stage-counted Rec w.cond.seq _ _ (w.phase j) (inv.each j u)))

  acted_advances : (w.base.thread i).pc ≡ running → CondStep (stages w) (stages (acted i w))
  acted_advances r =
      let (at, apart) =
        goes w.cond.seq (others i w) i
          (next_phase w.cond.seq (w.base.thread i).depth (w.phase i)).0 in
      let fits =
        subst (λ a. Fits Rec w.cond.seq (w.base.thread i).depth a (w.phase i)) r (inv.each i t) in
      subst (λ u. CondStep (stages w) (stages u)) (sym (acted_runs i w r))
        (advance i _ (stages w) _ t (stage-next Rec w.cond.seq _ (w.phase i) fits)
          (at, λ j u n. apart j u n ∙ stage-others i w j))

  acted_refines : CondStep (stages w) (stages (acted i w))
  unfolding acted
  acted_refines = elim (Bool-cases (is_running (w.base.thread i).pc)) [
    | inl y ↦ acted_advances (is_running_eq (w.base.thread i).pc y)
    | inr n ↦ rw n (CondStep.idles (λ j u. refl))
  ]

  overdue_idles : CondStep (stages w) (stages (overdue i w))
  unfolding overdue
  overdue_idles =
      phase_idles (late (w.base.thread i).depth (w.phase i))
        (stage-late w.cond.seq (w.base.thread i).depth (w.phase i))

  disturbed_idles : (e : Errno) → CondStep (stages w) (stages (disturbed i e w))
  unfolding disturbed
  disturbed_idles e = phase_idles (stirred e (w.phase i)) (stage-stirred w.cond.seq e (w.phase i))

-- In every state that a run of mutex calls, waits and broadcasts gets to from a free mutex, with any
-- number of threads: a move is a step of a condition variable whose operations are single steps, or
-- changes nothing of it. A wait is pending from the time that it is called, with the mutex still held;
-- a broadcast reaches every pending wait at once; only a wait that a broadcast has reached returns 0,
-- and only a wait with a deadline returns ETIMEDOUT; and wakeups of another cause are not seen.
pub moves_refine : {w v u : World} → IsStart w → Run w v → Move v u → CondStep (stages v) (stages u)
moves_refine begun r (calls i c t o e p) = CondStep.idles (λ j q. refl)
moves_refine begun r (turns i t) = CondStep.idles (λ j q. refl)
moves_refine begun r (interrupts i t) = CondStep.idles (λ j q. refl)
moves_refine {w} {v = v} begun r (waits i k timed t o e d rec' f) =
    waiting_begins (RecursiveTo w) i v t (Run-Whole begun r).0 k timed o
moves_refine {w} {v = v} begun r (broadcasts i t o e b) =
    announced_reaches (RecursiveTo w) i v t (Run-Whole begun r).0 o b
moves_refine {w} {v = v} begun r (acts i t) =
    acted_refines (RecursiveTo w) i v t (Run-Whole begun r).0
moves_refine {w} {v = v} begun r (disturbs i e t x) =
    disturbed_idles (RecursiveTo w) i v t (Run-Whole begun r).0 e
moves_refine {w} {v = v} begun r (expires i t e) =
    overdue_idles (RecursiveTo w) i v t (Run-Whole begun r).0
