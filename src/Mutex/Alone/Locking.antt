-- ===== src/Mutex/Alone/Locking.antt =====
-- What `pthread_mutex_lock` and `pthread_mutex_trylock` do when they run alone.
use mlibc_glibc_compat.Prelude.{ℕ, ◌^◌, ◌<◌, ◌≡◌, Bool, arith}
use mlibc_glibc_compat.Mutex.{Mutex}
use mlibc_glibc_compat.Mutex.Lock.{lock_step}
use mlibc_glibc_compat.Mutex.Trylock.{TryPc, try_step}
use mlibc_glibc_compat.Mutex.Alone.{mutex_lock, lock_promise, mutex_trylock, trylock_promise}

-- For a thread id from 1 to 2^30 - 1 and a state of 32 bits, the loop of `lock` ends within four
-- rounds, in a return, in the end of the program or in the wait, as `lock_promise` says: a free
-- mutex is taken, at level 1 (one with a level left over ends the program); one's own goes one level
-- up, wrapping at 2^32, and returns 0, if the type is 1, "recursive", where the caller looks for it;
-- returns EDEADLK if that is 2, "errorcheck"; and ends the program for any other; of another's the
-- waiters bit is set, and the call waits for the word with that bit to change.
pub lock-eq-promise :
    (tid : ℕ) (glibc : Bool) (m : Mutex)
    → 0 < tid
    → tid < 2 ^ 30
    → m.state < 2 ^ 32
    → mutex_lock tid glibc m ≡ lock_promise tid glibc m
unfolding mutex_lock lock_promise lock_step
lock-eq-promise tid glibc m p q b = ground arith

-- `trylock` always returns or ends the program, as `trylock_promise` says: a free mutex is taken,
-- one's own recursive mutex goes one level up, and any other is busy and left as it is.
trylock-eq-promise :
    (tid : ℕ) (glibc : Bool) (m : Mutex)
    → let (m', r) = trylock_promise tid glibc m in
      mutex_trylock tid glibc m ≡ (m', TryPc.finished r)
unfolding mutex_trylock trylock_promise try_step
trylock-eq-promise tid glibc m = ground arith
