-- ===== src/Threads/Waits.antt =====
-- Threads that share one mutex and one condition variable (src/mlibc_thread.cpp): the waits of
-- `__pthread_cond_timedwait_internal` and the broadcasts, interleaved with each other and with the
-- mutex calls of Threads, which the waits make.
mod Invariant
mod Whole
mod Acting
mod Steps
pub mod Safety
pub mod Progress
pub mod Stages
pub mod Refinement
pub mod Schedule
mod Tests
use mlibc_glibc_compat.Prelude.{
  ℕ, ◌+◌, ◌^◌, ◌<◌, ◌≡◌, ◌⊎◌, Bool, true, false, ◌==◌, Option, none, some, update, if◌then◌else◌,
}
use mlibc_glibc_compat.Errno.{Errno, success, eagain, eintr, etimedout, Outcome, returns, aborts}
use mlibc_glibc_compat.Cond.{Cond, cond_broadcast}
use mlibc_glibc_compat.Cond.Wait.{Verdict, judge}
use mlibc_glibc_compat.Mutex.{recursive_np, kind_of}
use mlibc_glibc_compat.Threads.{
  Activity, running, Thread, System, Call, IsTid, Permitted, called, turned, interrupt, IsInitial,
}

-- Where a thread stands in a call on the condition, with the locals of the wait: which library the
-- caller is from, whether there is a deadline, the level of the mutex at the call, the sequence number,
-- and what the futex has answered.
pub data Phase : Type 0 where
  outside : Phase
  releasing : (mlibc timed : Bool) → (level seq : ℕ) → Phase  -- the unlock, up to the futex wait
  sleeping : (mlibc timed : Bool) → (level seq : ℕ) → Phase
  woken : (mlibc timed : Bool) → (level seq : ℕ) → Errno → Phase  -- before the lock
  relocking : (mlibc timed : Bool) → (level seq : ℕ) → Errno → Phase  -- the lock, up to the tests
  announcing : Phase  -- a broadcast, between its two steps
  finished : Outcome Errno → Phase

pub record World : Type 0 where
  pub base : System
  pub cond : Cond
  pub phase : ℕ → Phase

-- A thread that may begin a call.
abbrev pub IsOutside : Phase → Type 0
IsOutside outside = Unit {0}
IsOutside (finished (returns e)) = Unit {0}
IsOutside _ = ⊥

abbrev pub concluded : (mlibc timed : Bool) → (level seq : ℕ) → Verdict → Phase × Option Call
concluded k timed n seq (Verdict.ended r) = (finished r, none)
concluded k timed n seq Verdict.again = (releasing k timed n seq, some (Call.unlock k))

-- The next step of a thread whose mutex call, if any, has returned, at level `d`. Whether the call has
-- returned 0 shows in the level, by the call's result: a lock that returns 0 is one level more, an unlock
-- that returns 0 one less, and any other result leaves the level that there was before the call
-- (`after_lock` and `after_unlock` of Threads). `now` is the condition's sequence number. With the new phase comes
-- the mutex call that the thread enters.
unfoldable pub next_phase : (now d : ℕ) → Phase → Phase × Option Call
unfolding judge
next_phase now d (releasing k timed n seq) =
    if d + 1 == n
    then if now == seq then (sleeping k timed n seq, none) else (woken k timed n seq eagain, none)
    else (finished aborts, none)
next_phase now d (woken k timed n seq e) = (relocking k timed n seq e, some (Call.lock k))
next_phase now d (relocking k timed n seq e) =
    if d == n then concluded k timed n seq (judge timed seq e now) else (finished aborts, none)
next_phase now d announcing = (finished (returns success), none)
next_phase now d p = (p, none)

-- A sleeper whose wait returns with `e`.
abbrev pub stirred : Errno → Phase → Phase
stirred e (sleeping k timed n seq) = woken k timed n seq e
stirred e p = p

abbrev pub announces : Phase → Bool
announces announcing = true
announces _ = false

abbrev pub is_running : Activity → Bool
is_running running = true
is_running _ = false

abbrev pub entered : ℕ → Option Call → System → System
entered i none s = s
entered i (some c) s = called i c s

-- One step of thread `i` in a call on the condition. The wake of a broadcast stirs every sleeper.
unfoldable pub acted : ℕ → World → World
unfolding next_phase
acted i w =
    let (p, c) = next_phase w.cond.seq (w.base.thread i).depth (w.phase i) in
    let others = if announces (w.phase i) then (λ j. stirred success (w.phase j)) else w.phase in
    if is_running (w.base.thread i).pc
    then record w { base = entered i c w.base; phase = update others i p }
    else w

-- A wait begins with the read of the sequence number.
unfoldable pub waiting : ℕ → (mlibc timed : Bool) → World → World
waiting i k timed w = record w {
  base = called i (Call.unlock k) w.base;
  phase = update w.phase i (releasing k timed (w.base.thread i).depth w.cond.seq);
}

-- A broadcast begins with the count.
unfoldable pub announced : ℕ → World → World
unfolding cond_broadcast
announced i w = record w {
  cond = (cond_broadcast success w.cond).1;
  phase = update w.phase i announcing;
}

-- What ends a wait other than a broadcast: nothing at all, a signal handler, or the deadline, which may
-- also have passed before the thread sleeps. These are the answers that a futex is documented to give. The
-- sysdeps change some of them (Sysdeps): Managarm's gives -1 for every error, and on Linux, with the
-- `syscall` of src/misc.cpp, an error reads as 0.
abbrev pub Disturbs : Phase → Errno → Type 0
Disturbs (sleeping k timed n seq) e =
    (e ≡ success) ⊎ ((e ≡ eintr) ⊎ ((e ≡ etimedout) × (timed ≡ true)))
Disturbs _ e = ⊥

abbrev pub late : (d : ℕ) → Phase → Phase
late d (releasing k true n seq) =
    if d + 1 == n then woken k true n seq etimedout else releasing k true n seq
late d p = p

unfoldable pub disturbed : ℕ → Errno → World → World
disturbed i e w = record w { phase = update w.phase i (stirred e (w.phase i)) }

-- The clock shows that the deadline has passed, once the unlock has succeeded.
unfoldable pub overdue : ℕ → World → World
overdue i w = record w { phase = update w.phase i (late (w.base.thread i).depth (w.phase i)) }

-- The program waits with the mutex locked, more than once only if it is recursive to the caller of the
-- wait, and counts fewer than 2^32 broadcasts.
pub data Move (w : World) : World → Type 0 where
  calls :
      (i : ℕ) (c : Call)
      → IsTid i
      → IsOutside (w.phase i)
      → (w.base.thread i).pc ≡ running
      → Permitted w.base.mem (w.base.thread i).depth c
      → Move w (record w { base = called i c w.base })
  turns : (i : ℕ) → IsTid i → Move w (record w { base = turned i w.base })
  interrupts : (i : ℕ) → IsTid i → Move w (record w { base = interrupt i w.base })
  waits :
      (i : ℕ) (k timed : Bool)
      → IsTid i
      → IsOutside (w.phase i)
      → (w.base.thread i).pc ≡ running
      → 0 < (w.base.thread i).depth
      → (1 < (w.base.thread i).depth → kind_of k w.base.mem ≡ recursive_np)
      → w.cond.flags ≡ 0
      → Move w (waiting i k timed w)
  broadcasts :
      (i : ℕ)
      → IsTid i
      → IsOutside (w.phase i)
      → (w.base.thread i).pc ≡ running
      → w.cond.seq + 1 < 2 ^ 32
      → Move w (announced i w)
  acts : (i : ℕ) → IsTid i → Move w (acted i w)
  disturbs : (i : ℕ) (e : Errno) → IsTid i → Disturbs (w.phase i) e → Move w (disturbed i e w)
  expires : (i : ℕ) → IsTid i → (w.base.thread i).pc ≡ running → Move w (overdue i w)

-- The mutex as Threads begins with it, and no thread in a call on the condition.
pub record IsStart (w : World) : Type 0 where
  pub initial : IsInitial w.base
  pub idle : (i : ℕ) → w.phase i ≡ outside

pub data Run (w : World) : World → Type 0 where
  start : Run w w
  step : {u v : World} → Run w u → Move u v → Run w v
