-- ===== src/Threads.antt =====
-- Threads that share one mutex (src/mlibc_thread.cpp), interleaved at their accesses of it. The
-- calls are those of Mutex.Lock, Mutex.Trylock and Mutex.Unlock; the kernel's part is that of a
-- futex: a wait sleeps only if the word still has the expected value, a wake rouses every sleeper,
-- and a sleeper may also be roused by nothing at all.
mod Invariant
mod Turn
mod Steps
pub mod Safety
pub mod Progress
pub mod Settling
pub mod Handover
pub mod Rounds
pub mod Schedule
pub mod WaitFree
pub mod Refinement
pub mod Waits
mod Tests
use mlibc_glibc_compat.Prelude.{
  ℕ, ◌+◌, ◌-◌, ◌^◌, ◌<◌, ◌≡◌, ◌⊎◌, Bool, true, false, ◌==◌, update, if◌then◌else◌,
}
use mlibc_glibc_compat.Errno.{success, returns, aborts}
use mlibc_glibc_compat.Mutex.{Mutex, recursive_np, errorcheck_np, kind_of}
use mlibc_glibc_compat.Mutex.Lock.{LockPc, lock_start, lock_step, lock_resume}
use mlibc_glibc_compat.Mutex.Trylock.{TryPc, try_step}
use mlibc_glibc_compat.Mutex.Unlock.{UnlockPc, unlock_step, unlock_woken}

-- The flag of a call says that its caller is an mlibc one.
pub data Activity : Type 0 where
  running : Activity  -- in the program's own code
  locking : Bool → LockPc → Activity
  asleep : Bool → (expected : ℕ) → Activity
  trying : Bool → TryPc → Activity
  unlocking : Bool → UnlockPc → Activity
  crashed : Activity

-- `depth` is the program's own count: the locks that have succeeded, less the unlocks.
pub record Thread : Type 0 where
  pub depth : ℕ
  pub pc : Activity

pub record System : Type 0 where
  pub mem : Mutex
  pub thread : ℕ → Thread

pub data Call : Type 0 where
  lock trylock unlock : Bool → Call

-- What a `gettid` gives.
abbrev pub IsTid : ℕ → Type 0
IsTid i = (0 < i) × (i < 2 ^ 30)

-- A call that has ended is back in the program.
abbrev pub after_lock : Bool → ℕ → LockPc → Thread
after_lock k d (LockPc.finished (returns success)) = record { depth = d + 1; pc = running }
after_lock k d (LockPc.finished (returns _)) = record { depth = d; pc = running }
after_lock k d (LockPc.finished aborts) = record { depth = d; pc = crashed }
after_lock k d p = record { depth = d; pc = locking k p }

abbrev pub after_try : Bool → ℕ → TryPc → Thread
after_try k d (TryPc.finished (returns success)) = record { depth = d + 1; pc = running }
after_try k d (TryPc.finished (returns _)) = record { depth = d; pc = running }
after_try k d (TryPc.finished aborts) = record { depth = d; pc = crashed }
after_try k d p = record { depth = d; pc = trying k p }

-- The exchange gives the mutex up, and the level is counted down there; an unlock that returns has given
-- one level up, or all. One that fails does so after the exchange, and gives the program nothing to
-- count: the level is back at what it was, so that it tells whether the unlock has returned 0.
abbrev pub after_unlock : Bool → ℕ → UnlockPc → Thread
after_unlock k d (UnlockPc.finished (returns success)) = record { depth = d - 1; pc = running }
after_unlock k d (UnlockPc.finished (returns _)) = record { depth = d + 1; pc = running }
after_unlock k d (UnlockPc.finished aborts) = record { depth = d; pc = crashed }
after_unlock k d (UnlockPc.check old) = record {
  depth = d - 1;
  pc = unlocking k (UnlockPc.check old);
}
after_unlock k d p = record { depth = d; pc = unlocking k p }

-- One step of thread `i`, which stands at `pc` with `d` levels.
unfoldable pub turn : (i : ℕ) → Mutex → (d : ℕ) → Activity → Mutex × Thread
turn i m d running = (m, record { depth = d; pc = running })
turn i m d crashed = (m, record { depth = d; pc = crashed })
turn i m d (asleep k e) = (m, record { depth = d; pc = asleep k e })
turn i m d (locking k (LockPc.waiting e)) = (
  m,
  record { depth = d; pc = if m.state == e then asleep k e else locking k (LockPc.attempt 0) },
)
turn i m d (locking k p) = let (m', p') = lock_step i k m p in (m', after_lock k d p')
turn i m d (trying k p) = let (m', p') = try_step i k m p in (m', after_try k d p')
turn i m d (unlocking k UnlockPc.wake) = (m, after_unlock k d (unlock_woken success))
turn i m d (unlocking k p) = let (m', p') = unlock_step i k m p in (m', after_unlock k d p')

-- The step that calls `sys_futex_wake`.
abbrev pub wakes : Activity → Bool
wakes (unlocking k UnlockPc.wake) = true
wakes _ = false

-- A sleeper whose wait returns.
abbrev pub roused : Activity → Activity
roused (asleep k e) = locking k (LockPc.attempt 0)
roused a = a

abbrev pub rouse : Thread → Thread
rouse t = record t { pc = roused t.pc }

abbrev pub begin : Call → Activity
begin (lock k) = locking k lock_start
begin (trylock k) = trying k TryPc.load
begin (unlock k) = unlocking k UnlockPc.release

-- What the program has to keep to: it unlocks what it has locked, it locks a mutex of its own again
-- only if the type allows for it, and fewer than 2^32 times.
abbrev pub Permitted : Mutex → ℕ → Call → Type 0
Permitted m d (lock k) =
    (0 < d → (kind_of k m ≡ recursive_np) ⊎ (kind_of k m ≡ errorcheck_np)) × (d + 1 < 2 ^ 32)
Permitted m d (trylock k) = d + 1 < 2 ^ 32
Permitted m d (unlock k) = 0 < d

-- Thread `i` enters a call, makes a step, or has its wait ended by nothing at all.
unfoldable pub called : ℕ → Call → System → System
called i c s = record s {
  thread = update s.thread i (record { depth = (s.thread i).depth; pc = begin c });
}

unfoldable pub turned : ℕ → System → System
turned i s =
    let (m, t) = turn i s.mem (s.thread i).depth (s.thread i).pc in
    let others = if wakes (s.thread i).pc then (λ j. rouse (s.thread j)) else s.thread in
    record { mem = m; thread = update others i t }

unfoldable pub interrupt : ℕ → System → System
interrupt i s = record s { thread = update s.thread i (rouse (s.thread i)) }

pub data Step (s : System) : System → Type 0 where
  calls :
      (i : ℕ) (c : Call)
      → IsTid i
      → (s.thread i).pc ≡ running
      → Permitted s.mem (s.thread i).depth c
      → Step s (called i c s)
  turns : (i : ℕ) → IsTid i → Step s (turned i s)
  interrupts : (i : ℕ) → IsTid i → Step s (interrupt i s)

-- A free mutex, as `pthread_mutex_init` leaves it, and threads that have not called yet.
pub record IsInitial (s : System) : Type 0 where
  pub free : (s.mem.state ≡ 0) × (s.mem.recursion ≡ 0)
  pub fresh : (i : ℕ) → s.thread i ≡ record { depth = 0; pc = running }

pub data Reach (s : System) : System → Type 0 where
  here : Reach s s
  next : {t u : System} → Reach s t → Step t u → Reach s u
