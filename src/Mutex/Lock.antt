-- ===== src/Mutex/Lock.antt =====
-- `__pthread_mutex_lock_internal` (src/mlibc_thread.cpp), one access of the shared state at a time.
use mlibc_glibc_compat.Prelude.{ℕ, ◌+◌, Bool, ◌==◌, ◌==ℤ◌, if◌then◌else◌}
use mlibc_glibc_compat.Errno.{Errno, success, edeadlk, Outcome, returns, aborts}
use mlibc_glibc_compat.Mutex.{
  Mutex, recursive_np, errorcheck_np, owner_of, has_waiters, with_waiters, u32, kind_of,
}

-- Where a call stands, with its local `expected`.
pub data LockPc : Type 0 where
  attempt : (expected : ℕ) → LockPc  -- head of the loop
  acquired : LockPc  -- the compare-exchange from 0 has succeeded
  waiting : (expected : ℕ) → LockPc  -- in `sys_futex_wait(&state, expected)`
  finished : Outcome Errno → LockPc

abbrev pub lock_start : LockPc
lock_start = LockPc.attempt 0

-- A mutex that the caller owns already: one more level, or what its type says.
unfoldable pub relock : Bool → Mutex → Mutex × LockPc
relock mlibc m =
    if kind_of mlibc m ==ℤ recursive_np
    then (record m { recursion = u32 (m.recursion + 1) }, LockPc.finished (returns success))
    else if kind_of mlibc m ==ℤ errorcheck_np
    then (m, LockPc.finished (returns edeadlk))
    else (m, LockPc.finished aborts)

-- One round of the loop. A compare-exchange that fails loads `expected` anew.
unfoldable pub lock_round : (tid : ℕ) → Bool → Mutex → (expected : ℕ) → Mutex × LockPc
unfolding relock
lock_round tid mlibc m expected =
    if expected == 0
    then if m.state == 0
      then (record m { state = tid }, LockPc.acquired)
      else (m, LockPc.attempt m.state)
    else if owner_of expected == tid
    then relock mlibc m
    else if has_waiters expected
    then (m, LockPc.waiting expected)
    else if m.state == expected
    then (record m { state = with_waiters expected }, LockPc.attempt (with_waiters expected))
    else (m, LockPc.attempt m.state)

-- One step of thread `tid`. A call that waits makes no step of its own: see `lock_resume`.
unfoldable pub lock_step : (tid : ℕ) → Bool → Mutex → LockPc → Mutex × LockPc
unfolding lock_round
lock_step tid mlibc m (LockPc.attempt expected) = lock_round tid mlibc m expected
lock_step tid mlibc m LockPc.acquired =
    if m.recursion == 0
    then (record m { recursion = 1 }, LockPc.finished (returns success))
    else (m, LockPc.finished aborts)
lock_step tid mlibc m (LockPc.waiting expected) = (m, LockPc.waiting expected)
lock_step tid mlibc m (LockPc.finished r) = (m, LockPc.finished r)

-- The wait returns, with any result at all: the code reports an unexpected one, and goes on with
-- `expected = 0` in every case.
unfoldable pub lock_resume : Errno → LockPc → LockPc
lock_resume e (LockPc.waiting _) = LockPc.attempt 0
lock_resume e p = p
