-- ===== src/Threads/Waits/Stages.antt =====
-- Where a thread stands with a condition variable whose operations are single steps, and how that
-- changes as the thread goes through the waits of Threads.Waits (src/mlibc_thread.cpp).
use mlibc_glibc_compat.Prelude.{
  ℕ, ◌+◌, ◌≡◌, ◌≢◌, ◌⊎◌, inl, refl, arith, Bool, true, false, ltb, Option, none, some,
  if◌then◌else◌,
}
use mlibc_glibc_compat.Errno.{Errno, success, etimedout, returns, aborts}
use mlibc_glibc_compat.Cond.Wait.{judge}
use mlibc_glibc_compat.Threads.{Activity, running, IsTid}
use mlibc_glibc_compat.Threads.Waits.{
  Phase, outside, releasing, sleeping, woken, relocking, announcing, finished, World, IsOutside,
  next_phase, stirred, late,
}
use mlibc_glibc_compat.Threads.Waits.Invariant.{Fits}

-- Where a thread stands with the condition variable: in no call, with the result of its last one; in
-- a wait, with a deadline or without, that no broadcast has reached, or that one has reached; or in a
-- broadcast.
pub data Stage : Type 0 where
  away : (last : Option Errno) → Stage
  pending notified : (timed : Bool) → Stage
  broadcasting : Stage

abbrev pub since : (timed : Bool) → (seq now : ℕ) → Stage
since timed seq now = if ltb seq now then notified timed else pending timed

abbrev pub stage : (now : ℕ) → Phase → Stage
stage now outside = away none
stage now (releasing k timed n seq) = since timed seq now
stage now (sleeping k timed n seq) = since timed seq now
stage now (woken k timed n seq e) = since timed seq now
stage now (relocking k timed n seq e) = since timed seq now
stage now announcing = broadcasting
stage now (finished (returns e)) = away (some e)
stage now (finished aborts) = away none

abbrev pub Stages : Type 0
Stages = ℕ → Stage

abbrev pub stages : World → Stages
stages w i = stage w.cond.seq (w.phase i)

abbrev pub reached : Stage → Stage
reached (pending timed) = notified timed
reached s = s

-- Thread `i` comes to `s`, and the others stay.
abbrev pub Goes : (i : ℕ) → Stage → Stages → Stages → Type 0
Goes i s f g = (g i ≡ s) × ((j : ℕ) → IsTid j → j ≢ i → g j ≡ f j)

-- What a condition variable does. A broadcast reaches all that wait, at once.
pub data CondStep (f g : Stages) : Type 0 where
  idles : ((j : ℕ) → IsTid j → g j ≡ f j) → CondStep f g
  begins :
      (i : ℕ) (last : Option Errno) (timed : Bool)
      → IsTid i
      → f i ≡ away last
      → Goes i (pending timed) f g
      → CondStep f g
  reaches :
      (i : ℕ) (last : Option Errno)
      → IsTid i
      → f i ≡ away last
      → g i ≡ broadcasting
      → ((j : ℕ) → IsTid j → j ≢ i → g j ≡ reached (f j))
      → CondStep f g
  ends : (i : ℕ) → IsTid i → f i ≡ broadcasting → Goes i (away (some success)) f g → CondStep f g
  succeeds :
      (i : ℕ) (timed : Bool)
      → IsTid i
      → f i ≡ notified timed
      → Goes i (away (some success)) f g
      → CondStep f g
  times_out :
      (i : ℕ)
      → IsTid i
      → (f i ≡ pending true) ⊎ (f i ≡ notified true)
      → Goes i (away (some etimedout)) f g
      → CondStep f g

pub outside_away :
    (now : ℕ) (p : Phase) → IsOutside p → (last : Option Errno) × (stage now p ≡ away last)
outside_away now outside o = (none, refl)
outside_away now (finished (returns e)) o = (some e, refl)
outside_away now p o = ground arith

pub stage-stirred : (now : ℕ) (e : Errno) (p : Phase) → stage now (stirred e p) ≡ stage now p
stage-stirred now e (sleeping k timed n seq) = refl
stage-stirred now e p = ground arith

pub stage-late : (now d : ℕ) (p : Phase) → stage now (late d p) ≡ stage now p
stage-late now d (releasing k true n seq) = ground arith
stage-late now d p = ground arith

-- The count of a broadcast.
pub stage-counted :
    (Rec : Bool → Type 0) (now d : ℕ) (a : Activity) (p : Phase)
    → Fits Rec now d a p
    → stage (now + 1) p ≡ reached (stage now p)
stage-counted Rec now d a outside f = refl
stage-counted Rec now d a (releasing k timed n seq) f = ground arith
stage-counted Rec now d a (sleeping k timed n seq) f = ground arith
stage-counted Rec now d a (woken k timed n seq e) f = ground arith
stage-counted Rec now d a (relocking k timed n seq e) f = ground arith
stage-counted Rec now d a announcing f = refl
stage-counted Rec now d a (finished r) f = ground arith

-- What a step of a thread in a call on the condition may be.
abbrev pub Advances : (s s' : Stage) → Type 0
Advances s s' =
    (s' ≡ s)
    ⊎ (((s ≡ broadcasting) × (s' ≡ away (some success)))
        ⊎ ((((s ≡ notified true) ⊎ (s ≡ notified false)) × (s' ≡ away (some success)))
            ⊎ (((s ≡ pending true) ⊎ (s ≡ notified true)) × (s' ≡ away (some etimedout)))))

pub stage-next :
    (Rec : Bool → Type 0) (now d : ℕ) (p : Phase)
    → Fits Rec now d running p
    → Advances (stage now p) (stage now (next_phase now d p).0)
unfolding next_phase judge
stage-next Rec now d outside f = inl refl
stage-next Rec now d (releasing k timed n seq) f = ground arith
stage-next Rec now d (sleeping k timed n seq) f = inl refl
stage-next Rec now d (woken k timed n seq e) f = inl refl
stage-next Rec now d (relocking k timed n seq e) f = ground arith
stage-next Rec now d announcing f = ground arith
stage-next Rec now d (finished r) f = inl refl
