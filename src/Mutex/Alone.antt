-- ===== src/Mutex/Alone.antt =====
-- The mutex calls of src/mlibc_thread.cpp run by one thread to their end, or to the system call
-- that they stop in, with no step of another thread in between.
pub mod Locking
pub mod Unlocking
pub mod Overflow
mod Tests
use mlibc_glibc_compat.Prelude.{
  ℕ, zero, suc, ◌+◌, ◌-◌, ◌%◌, ◌/◌, ◌^◌, ◌<◌, ◌≡◌, ◌≢◌, Bool, true, false, not, Option, none, some,
  ℤ, pos, arith, refl, ◌==◌, ◌==ℤ◌, ◌&&◌, if◌then◌else◌,
}
use mlibc_glibc_compat.Errno.{Errno, success, eperm, ebusy, edeadlk, Outcome, returns, aborts}
use mlibc_glibc_compat.Mutex.{
  Mutex, recursive_np, errorcheck_np, owner_of, has_waiters, with_waiters, u32, kind_of,
}
use mlibc_glibc_compat.Mutex.Lock.{LockPc, lock_start, lock_step}
use mlibc_glibc_compat.Mutex.Trylock.{TryPc, try_step}
use mlibc_glibc_compat.Mutex.Unlock.{UnlockPc, unlock_step}

-- The loop of `__pthread_mutex_lock_internal`, on fuel. It stops where the call returns, and where
-- it enters `sys_futex_wait`.
unfoldable pub lock_loop : ℕ → (tid : ℕ) → Bool → Mutex → LockPc → Mutex × LockPc
lock_loop zero tid k m p = (m, p)
lock_loop (suc f) tid k m (LockPc.waiting e) = (m, LockPc.waiting e)
lock_loop (suc f) tid k m (LockPc.finished r) = (m, LockPc.finished r)
lock_loop (suc f) tid k m p = let (m', p') = lock_step tid k m p in lock_loop f tid k m' p'

-- `__pthread_mutex_lock`: four rounds are enough.
unfoldable pub mutex_lock : (tid : ℕ) → (glibc : Bool) → Mutex → Mutex × LockPc
unfolding lock_loop
mutex_lock tid glibc m = lock_loop 4 tid (not glibc) m lock_start

unfoldable pub try_loop : ℕ → (tid : ℕ) → Bool → Mutex → TryPc → Mutex × TryPc
try_loop zero tid k m p = (m, p)
try_loop (suc f) tid k m (TryPc.finished r) = (m, TryPc.finished r)
try_loop (suc f) tid k m p = let (m', p') = try_step tid k m p in try_loop f tid k m' p'

-- `__pthread_mutex_trylock`: it has no loop, and three accesses at most.
unfoldable pub mutex_trylock : (tid : ℕ) → (glibc : Bool) → Mutex → Mutex × TryPc
unfolding try_loop
mutex_trylock tid glibc m = try_loop 3 tid (not glibc) m TryPc.load

-- Stops where the call returns, and where it enters `sys_futex_wake`.
unfoldable pub unlock_loop : ℕ → (tid : ℕ) → Bool → Mutex → UnlockPc → Mutex × UnlockPc
unlock_loop zero tid k m p = (m, p)
unlock_loop (suc f) tid k m UnlockPc.wake = (m, UnlockPc.wake)
unlock_loop (suc f) tid k m (UnlockPc.finished r) = (m, UnlockPc.finished r)
unlock_loop (suc f) tid k m p = let (m', p') = unlock_step tid k m p in unlock_loop f tid k m' p'

-- `__pthread_mutex_unlock`
unfoldable pub mutex_unlock : (tid : ℕ) → (glibc : Bool) → Mutex → Mutex × UnlockPc
unfolding unlock_loop
mutex_unlock tid glibc m = unlock_loop 3 tid (not glibc) m UnlockPc.release

-- What a lock of one's own mutex promises, by the type that the caller finds: 1 is recursive, 2 is
-- errorcheck, and a second lock of any other type is an error of the program.
abbrev pub again_promise : (kind : ℤ) → Outcome Errno
again_promise (pos (suc zero)) = returns success
again_promise (pos (suc (suc zero))) = returns edeadlk
again_promise _ = aborts

abbrev pub level_promise : Outcome Errno → (level : ℕ) → ℕ
level_promise (returns Errno.success) level = (level + 1) % 0x1_0000_0000
level_promise _ level = level

-- What a lock promises: a free mutex is taken, one's own goes by its type, and another's is marked
-- and waited for.
unfoldable pub lock_promise : (tid : ℕ) → (glibc : Bool) → Mutex → Mutex × LockPc
lock_promise tid glibc m =
    if m.state == 0
    then if m.recursion == 0
      then (record m { state = tid; recursion = 1 }, LockPc.finished (returns success))
      else (record m { state = tid }, LockPc.finished aborts)
    else if owner_of m.state == tid
    then (let result = again_promise (if glibc then m.kind else pos (m.flags / 2)) in
        (record m { recursion = level_promise result m.recursion }, LockPc.finished result))
    else (record m { state = with_waiters m.state }, LockPc.waiting (with_waiters m.state))

-- What a trylock promises. It never waits.
unfoldable pub trylock_promise : (tid : ℕ) → (glibc : Bool) → Mutex → Mutex × Outcome Errno
trylock_promise tid glibc m =
    if m.state == 0
    then if m.recursion == 0
      then (record m { state = tid; recursion = 1 }, returns success)
      else (record m { state = tid }, aborts)
    else if owner_of m.state == tid && kind_of (not glibc) m ==ℤ recursive_np
    then (record m { recursion = u32 (m.recursion + 1) }, returns success)
    else (m, returns ebusy)
