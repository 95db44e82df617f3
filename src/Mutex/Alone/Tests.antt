-- ===== src/Mutex/Alone/Tests.antt =====
-- The mutex calls of one thread at concrete mutexes.
use mlibc_glibc_compat.Prelude.{
  ◌-◌, ◌≡◌, refl, arith, pos, true, false, not, ◌==◌, ◌==ℤ◌, if◌then◌else◌,
}
use mlibc_glibc_compat.Errno.{success, ebusy, eperm, returns, aborts}
use mlibc_glibc_compat.Mutex.{Mutex, errorcheck_np, has_waiters, kind_of}
use mlibc_glibc_compat.Mutex.Lock.{LockPc, lock_step}
use mlibc_glibc_compat.Mutex.Unlock.{UnlockPc, unlock_step}
use mlibc_glibc_compat.Mutex.Alone.{
  mutex_lock, mutex_trylock, lock_promise, trylock_promise, mutex_unlock,
}
use mlibc_glibc_compat.Mutex.Alone.Locking.{lock-eq-promise}
use mlibc_glibc_compat.Mutex.Trylock.{TryPc}
use mlibc_glibc_compat.Mutex.Alone.Overflow.{level_overflow}
use mlibc_glibc_compat.Mutex.Alone.Unlocking.{unlock_own, unlock_foreign}

abbrev free : Mutex
free = record { state = 0; recursion = 0; flags = 2; prioceiling = pos 0; kind = pos 0 }

-- Owned by thread 7, recursive for mlibc callers.
abbrev owned : Mutex
owned = record { state = 7; recursion = 1; flags = 2; prioceiling = pos 0; kind = pos 0 }

-- The same with waiters, errorcheck for both callers.
abbrev checked : Mutex
checked = record {
  state = 0x8000_0007;
  recursion = 1;
  flags = 4;
  prioceiling = pos 0;
  kind = pos 2;
}

-- Thread 9 waits for the mutex of thread 7.
lock_waits : (lock_promise 9 false owned).1 ≡ LockPc.waiting 0x8000_0007
unfolding lock_promise
lock_waits = refl

lock-eq-promise_example : mutex_lock 7 true checked ≡ lock_promise 7 true checked
lock-eq-promise_example = lock-eq-promise 7 true checked (omega arith) (omega arith) (omega arith)

unlock_own_example : mutex_unlock 7 false checked ≡ (
    if checked.recursion == 1
    then (
      record checked { state = 0; recursion = 0 },
      if has_waiters checked.state then UnlockPc.wake else UnlockPc.finished (returns success),
    )
    else (
      record checked { recursion = checked.recursion - 1 },
      UnlockPc.finished (returns success),
    ))
unlock_own_example = unlock_own 7 false checked (omega arith) refl (omega arith)

unlock_foreign_example : mutex_unlock 9 false checked ≡ (
  record checked { state = 0; recursion = 0 },
  UnlockPc.finished
      (if kind_of (not false) checked ==ℤ errorcheck_np then returns eperm else aborts),
)
unlock_foreign_example = unlock_foreign 9 false checked (omega arith) refl

free_again :
    mutex_unlock 7 false (mutex_lock 7 true free).0 ≡ (free, UnlockPc.finished (returns success))
unfolding mutex_unlock mutex_lock lock_step unlock_step
free_again = refl

-- A trylock of the same mutex does not wait.
trylock_busy : trylock_promise 9 false owned ≡ (owned, returns ebusy)
unfolding trylock_promise
trylock_busy = refl

-- Thread 7 has locked it as often as the level can count.
abbrev full : Mutex
full = record owned { recursion = 0xffff_ffff }

level_overflow_example :
    let wrapped : Mutex = record full { recursion = 0 } in
    (mutex_lock 7 false full ≡ (wrapped, LockPc.finished (returns success)))
    × (mutex_trylock 7 false full ≡ (wrapped, TryPc.finished (returns success)))
    × (mutex_unlock 7 true wrapped ≡ (wrapped, UnlockPc.finished aborts))
level_overflow_example =
    level_overflow 7 false true full (omega arith) (omega arith) (omega arith) refl refl refl
