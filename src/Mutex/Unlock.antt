-- ===== src/Mutex/Unlock.antt =====
-- `__pthread_mutex_unlock_internal` (src/mlibc_thread.cpp), one access of the shared state at a
-- time.
use mlibc_glibc_compat.Prelude.{ℕ, ◌-◌, Bool, true, false, ◌==◌, ◌==ℤ◌, not, ◌&&◌, if◌then◌else◌}
use mlibc_glibc_compat.Errno.{Errno, success, eperm, einval, negative, Outcome, returns, aborts}
use mlibc_glibc_compat.Mutex.{Mutex, errorcheck_np, owner_of, has_waiters, kind_of}

pub data UnlockPc : Type 0 where
  release : UnlockPc  -- before the recursion level goes down
  exchange : UnlockPc  -- before the atomic exchange with 0
  check : (old : ℕ) → UnlockPc  -- the mutex is free; `old` is its former state
  wake : UnlockPc  -- before `sys_futex_wake`
  finished : Outcome Errno → UnlockPc

-- What follows the exchange. The type is read from the mutex, which is no longer owned.
unfoldable pub unlock_check : (tid : ℕ) → Bool → Mutex → (old : ℕ) → UnlockPc
unlock_check tid mlibc m old =
    if kind_of mlibc m ==ℤ errorcheck_np && not (owner_of old == tid)
    then UnlockPc.finished (returns eperm)
    else if kind_of mlibc m ==ℤ errorcheck_np && owner_of old == 0
    then UnlockPc.finished (returns einval)
    else if not (owner_of old == tid)
    then UnlockPc.finished aborts
    else if has_waiters old
    then UnlockPc.wake
    else UnlockPc.finished (returns success)

unfoldable pub unlock_step : (tid : ℕ) → Bool → Mutex → UnlockPc → Mutex × UnlockPc
unfolding unlock_check
unlock_step tid mlibc m UnlockPc.release =
    if m.recursion == 0
    then (m, UnlockPc.finished aborts)
    else if m.recursion - 1 == 0
    then (record m { recursion = 0 }, UnlockPc.exchange)
    else (record m { recursion = m.recursion - 1 }, UnlockPc.finished (returns success))
unlock_step tid mlibc m UnlockPc.exchange = (record m { state = 0 }, UnlockPc.check m.state)
unlock_step tid mlibc m (UnlockPc.check old) = (m, unlock_check tid mlibc m old)
unlock_step tid mlibc m UnlockPc.wake = (m, UnlockPc.wake)
unlock_step tid mlibc m (UnlockPc.finished r) = (m, UnlockPc.finished r)

-- `e >= 0 || e == EACCES || e == EINVAL`: of the named results only `negative` fails.
abbrev pub wake_accepted : Errno → Bool
wake_accepted negative = false
wake_accepted _ = true

-- The wake returns `e`.
unfoldable pub unlock_woken : Errno → UnlockPc
unlock_woken e = UnlockPc.finished (if wake_accepted e then returns success else aborts)
