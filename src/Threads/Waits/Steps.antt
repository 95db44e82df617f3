-- ===== src/Threads/Waits/Steps.antt =====
-- Every move keeps what holds of the threads, and is a step of the mutex's threads or leaves them
-- alone (src/mlibc_thread.cpp).
use mlibc_glibc_compat.Prelude.{
  ℕ, ◌+◌, ◌%◌, ◌^◌, ◌≤◌, ◌<◌, ◌≡◌, inl, inr, refl, arith, Bool, some, Bool-cases, update,
  update_self, update-all,
}
use mlibc_glibc_compat.Errno.{Errno}
use mlibc_glibc_compat.Mutex.{recursive_np, kind_of}
use mlibc_glibc_compat.Threads.{
  Activity, running, Thread, System, Call, IsTid, begin, turn, wakes, rouse, called, turned,
  interrupt, Step, Reach, here, next,
}
use mlibc_glibc_compat.Threads
use mlibc_glibc_compat.Threads.Steps.{Step-Inv, Reach-Inv}
use mlibc_glibc_compat.Threads.Waits.{
  Phase, outside, releasing, announcing, World, IsOutside, stirred, late, waiting, announced,
  Disturbs, disturbed, overdue, Move, calls, turns, interrupts, waits, broadcasts, acts, disturbs,
  expires, IsStart, Run, start, step,
}
use mlibc_glibc_compat.Threads.Waits.Invariant.{
  IsLevel, Fits, IsLatest, turn-Fits, roused-Fits, disturbed-Fits, stirred-IsLatest, late-Fits,
  late-IsLatest, Fits-mono, outside-Fits,
}
use mlibc_glibc_compat.Threads.Waits.Whole.{
  Whole, FitsAt, Next, IsHeard-update, entered_each, Step-IsTyped,
}
use mlibc_glibc_compat.Threads.Waits.Acting.{acted-Next}

outside_quiet : (p q : Phase) → IsOutside p → p ≡ announcing → q ≡ announcing
outside_quiet outside q o e = cc
outside_quiet p q o e = ground arith

Disturbs-quiet : (p q : Phase) (e : Errno) → Disturbs p e → p ≡ announcing → q ≡ announcing
Disturbs-quiet announcing q e x h = absurd x
Disturbs-quiet p q e x h = ground arith

late_quiet : (d : ℕ) (p : Phase) → p ≡ announcing → late d p ≡ announcing
late_quiet d announcing h = refl
late_quiet d p h = ground arith

module _ (Rec : Bool → Type 0) (i : ℕ) (w : World) (t : IsTid i) (inv : Whole Rec w) where
  -- A step of the mutex's threads alone.
  base-Step :
      (s : System)
      → Step w.base s
      → ((j : ℕ) → FitsAt Rec w.cond.seq j (s.thread j) (w.phase j))
      → Next Rec w (record w { base = s })
  base-Step s st fits = (
    record {
      base = Step-Inv st inv.base;
      typed = Step-IsTyped Rec st inv.base inv.typed;
      each = fits;
      heard = inv.heard;
    },
    next here st,
  )

  called_each :
      (c : Call)
      → IsOutside (w.phase i)
      → (j : ℕ) → FitsAt Rec w.cond.seq j ((called i c w.base).thread j) (w.phase j)
  unfolding called
  called_each c o =
      update-all (λ j u. FitsAt Rec w.cond.seq j u (w.phase j)) w.base.thread i _
        (λ _. (outside-Fits Rec w.cond.seq _ _ (w.phase i) o).0) (λ j n. inv.each j)

  others_each : (j : ℕ) → FitsAt Rec w.cond.seq j (rouse (w.base.thread j)) (w.phase j)
  others_each j u = roused-Fits Rec w.cond.seq _ _ (w.phase j) (inv.each j u)

  turned_each : (j : ℕ) → FitsAt Rec w.cond.seq j ((turned i w.base).thread j) (w.phase j)
  unfolding turned
  turned_each =
      update-all (λ j u. FitsAt Rec w.cond.seq j u (w.phase j)) _ i _
        (λ _.
          turn-Fits Rec i w.base.mem w.cond.seq _ _ (w.phase i) t inv.base.shared inv.typed
            (inv.base.each i t) (inv.each i t))
        (λ j n. elim (Bool-cases (wakes (w.base.thread i).pc)) [
          | inl y ↦ rw y (others_each j)
          | inr q ↦ rw q (inv.each j)
        ])

  interrupted_each : (j : ℕ) → FitsAt Rec w.cond.seq j ((interrupt i w.base).thread j) (w.phase j)
  unfolding interrupt
  interrupted_each =
      update-all (λ j u. FitsAt Rec w.cond.seq j u (w.phase j)) w.base.thread i _ (others_each i)
        (λ j n. inv.each j)

  -- A change of the phase alone.
  phase_step :
      (p : Phase)
      → (IsLatest w.cond.seq (w.phase i) → IsLatest w.cond.seq p)
      → (w.phase i ≡ announcing → p ≡ announcing)
      → Fits Rec w.cond.seq (w.base.thread i).depth (w.base.thread i).pc p
      → Next Rec w (record w { phase = update w.phase i p })
  phase_step p latest keep fits = (
    record {
      base = inv.base;
      typed = inv.typed;
      each =
          update-all (λ j q. FitsAt Rec w.cond.seq j (w.base.thread j) q) w.phase i p (λ _. fits)
            (λ j n. inv.each j);
      heard = IsHeard-update w.cond.seq w.phase i p keep latest inv.heard;
    },
    here,
  )

  waiting-Next :
      (k timed : Bool)
      → IsOutside (w.phase i)
      → (w.base.thread i).pc ≡ running
      → 0 < (w.base.thread i).depth
      → (1 < (w.base.thread i).depth → kind_of k w.base.mem ≡ recursive_np)
      → Next Rec w (waiting i k timed w)
  unfolding waiting
  waiting-Next k timed o r d rec' =
      let n = (w.base.thread i).depth in
      let p : Phase = releasing k timed n w.cond.seq in
      let st : Step w.base (called i (Call.unlock k) w.base) =
        Threads.calls i (Call.unlock k) t r d in
      let level : IsLevel Rec k n =
        (d, (inv.base.each i t).bounded, λ b. (inv.typed k).1 (rec' b)) in
      (
        record {
          base = Step-Inv st inv.base;
          typed = Step-IsTyped Rec st inv.base inv.typed;
          each =
              entered_each (FitsAt Rec w.cond.seq) w.base w.phase i (some (Call.unlock k)) p r
                (λ _. (omega arith, refl, level)) (λ j n. inv.each j);
          heard =
              IsHeard-update w.cond.seq w.phase i p (outside_quiet (w.phase i) p o) (λ _. tt)
                inv.heard;
        },
        next here st,
      )

  announced-Next :
      IsOutside (w.phase i)
      → (w.base.thread i).pc ≡ running
      → w.cond.seq + 1 < 2 ^ 32
      → Next Rec w (announced i w)
  unfolding announced
  announced-Next o r b =
      let up : w.cond.seq ≤ (w.cond.seq + 1) % 2 ^ 32 = omega arith in
      (
        record {
          base = inv.base;
          typed = inv.typed;
          each =
              update-all (λ j q. FitsAt Rec ((w.cond.seq + 1) % 2 ^ 32) j (w.base.thread j) q)
                w.phase i announcing (λ _. r)
                (λ j n u. Fits-mono Rec w.cond.seq _ _ _ (w.phase j) up (inv.each j u));
          heard = inl (i, t, update_self w.phase i announcing);
        },
        here,
      )

  disturbed-Next : (e : Errno) → Disturbs (w.phase i) e → Next Rec w (disturbed i e w)
  unfolding disturbed
  disturbed-Next e x =
      phase_step (stirred e (w.phase i)) (λ _. stirred-IsLatest w.cond.seq e (w.phase i))
        (Disturbs-quiet (w.phase i) _ e x)
        (disturbed-Fits Rec w.cond.seq _ _ (w.phase i) e x (inv.each i t))

  overdue-Next : (w.base.thread i).pc ≡ running → Next Rec w (overdue i w)
  unfolding overdue
  overdue-Next r =
      phase_step (late (w.base.thread i).depth (w.phase i))
        (late-IsLatest w.cond.seq (w.base.thread i).depth (w.phase i))
        (late_quiet (w.base.thread i).depth (w.phase i))
        (late-Fits Rec w.cond.seq _ _ (w.phase i) r (inv.each i t))

pub Move-Whole :
    {w v : World} (Rec : Bool → Type 0) → Move w v → Whole Rec w → Whole Rec v × Reach w.base v.base
Move-Whole {w} Rec (calls i c t o r p) inv =
    base-Step Rec i w t inv _ (Threads.calls i c t r p) (called_each Rec i w t inv c o)
Move-Whole {w} Rec (turns i t) inv =
    base-Step Rec i w t inv _ (Threads.turns i t) (turned_each Rec i w t inv)
Move-Whole {w} Rec (interrupts i t) inv =
    base-Step Rec i w t inv _ (Threads.interrupts i t) (interrupted_each Rec i w t inv)
Move-Whole {w} Rec (waits i k timed t o r d rec' f) inv =
    waiting-Next Rec i w t inv k timed o r d rec'
Move-Whole {w} Rec (broadcasts i t o r b) inv = announced-Next Rec i w t inv o r b
Move-Whole {w} Rec (acts i t) inv = acted-Next Rec i w t inv
Move-Whole {w} Rec (disturbs i e t x) inv = disturbed-Next Rec i w t inv e x
Move-Whole {w} Rec (expires i t r) inv = overdue-Next Rec i w t inv r

Reach-trans : {s t u : System} → Reach s t → Reach t u → Reach s u
Reach-trans r here = r
Reach-trans r (next q st) = next (Reach-trans r q) st

-- To which callers the mutex is recursive, which no run changes.
abbrev pub RecursiveTo : World → Bool → Type 0
RecursiveTo w k = kind_of k w.base.mem ≡ recursive_np

-- What holds in every state that a run gets to. The mutex's threads are in a state that they reach by
-- themselves.
pub Run-Whole : {w v : World} → IsStart w → Run w v → Whole (RecursiveTo w) v × Reach w.base v.base
Run-Whole {w} h start = (
  record {
    base = Reach-Inv h.initial here;
    typed = λ k. (λ y. y, λ y. y);
    each = λ i t. rw (h.idle i) tt;
    heard = inr (λ i. rw (h.idle i) tt);
  },
  here,
)
Run-Whole {w} h (step r m) =
    let before = Run-Whole h r in
    let after = Move-Whole (RecursiveTo w) m before.0 in (after.0, Reach-trans before.1 after.1)
