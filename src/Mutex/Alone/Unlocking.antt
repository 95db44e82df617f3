-- ===== src/Mutex/Alone/Unlocking.antt =====
-- What `pthread_mutex_unlock` does when it runs alone.
use mlibc_glibc_compat.Prelude.{
  ℕ, ◌+◌, ◌-◌, ◌^◌, ◌<◌, ◌≡◌, ◌≢◌, ◌⊎◌, inl, inr, Bool, not, arith, ◌==◌, ◌==ℤ◌, if◌then◌else◌,
}
use mlibc_glibc_compat.Errno.{success, eperm, returns, aborts}
use mlibc_glibc_compat.Mutex.{Mutex, recursive_np, errorcheck_np, owner_of, has_waiters, kind_of}
use mlibc_glibc_compat.Mutex.Lock.{lock_step}
use mlibc_glibc_compat.Mutex.Unlock.{UnlockPc, unlock_step}
use mlibc_glibc_compat.Mutex.Alone.{mutex_lock, mutex_unlock}

-- An unlock by the owner, of any type of mutex: it gives one level up, and with the last level the
-- mutex becomes free; then it calls the wake exactly if the waiters bit was set, and returns 0
-- otherwise.
pub unlock_own :
    (tid : ℕ) (glibc : Bool) (m : Mutex)
    → 0 < tid
    → owner_of m.state ≡ tid
    → 0 < m.recursion
    → mutex_unlock tid glibc m ≡ (
        if m.recursion == 1
        then (
          record m { state = 0; recursion = 0 },
          if has_waiters m.state then UnlockPc.wake else UnlockPc.finished (returns success),
        )
        else (record m { recursion = m.recursion - 1 }, UnlockPc.finished (returns success)))
unfolding mutex_unlock unlock_step
unlock_own tid glibc m p o r = ground arith

-- An unlock by a thread that does not own the mutex, at recursion level 1, takes the mutex from its
-- owner all the same: it is free afterwards, with no wake of its waiters. The call returns EPERM
-- for an errorcheck mutex, and ends the program for any other.
pub unlock_foreign :
    (tid : ℕ) (glibc : Bool) (m : Mutex)
    → owner_of m.state ≢ tid
    → m.recursion ≡ 1
    → mutex_unlock tid glibc m ≡ (
      record m { state = 0; recursion = 0 },
      UnlockPc.finished (if kind_of (not glibc) m ==ℤ errorcheck_np then returns eperm else aborts),
    )
unfolding mutex_unlock unlock_step
unlock_foreign tid glibc m o r = ground arith

-- Lock and unlock by one thread, with callers from either library: a free mutex is free again and
-- otherwise as it was, and the unlock returns 0 and wakes nobody.
unlock-lock_free :
    (tid : ℕ) (g h : Bool) (m : Mutex)
    → 0 < tid
    → tid < 2 ^ 30
    → m.state ≡ 0
    → m.recursion ≡ 0
    → mutex_unlock tid h (mutex_lock tid g m).0 ≡ (m, UnlockPc.finished (returns success))
unfolding mutex_unlock unlock_step mutex_lock lock_step
unlock-lock_free tid g h m p q s r = ground arith

-- The same within a recursive mutex that the thread has locked already, fewer than 2^32 - 1 times:
-- the inner pair leaves everything as it was.
unlock-lock_nested :
    (tid : ℕ) (g h : Bool) (m : Mutex)
    → 0 < tid
    → tid < 2 ^ 30
    → m.state < 2 ^ 32
    → owner_of m.state ≡ tid
    → kind_of (not g) m ≡ recursive_np
    → 0 < m.recursion
    → m.recursion + 1 < 2 ^ 32
    → mutex_unlock tid h (mutex_lock tid g m).0 ≡ (m, UnlockPc.finished (returns success))
unfolding mutex_unlock unlock_step mutex_lock lock_step
unlock-lock_nested tid g h m p q w o k r b = ground arith

-- A lock and then an unlock by one thread, with callers from either library, on a mutex that is free, or
-- that is recursive to the locking caller and has been locked by the thread, fewer than 2^32 - 1 times:
-- the mutex is as it was, and the unlock returns 0 and wakes nobody.
unlock-lock :
    (tid : ℕ) (g h : Bool) (m : Mutex)
    → 0 < tid
    → tid < 2 ^ 30
    → m.state < 2 ^ 32
    → ((m.state ≡ 0) × (m.recursion ≡ 0))
      ⊎ ((owner_of m.state ≡ tid)
          × (kind_of (not g) m ≡ recursive_np)
          × (0 < m.recursion)
          × (m.recursion + 1 < 2 ^ 32))
    → mutex_unlock tid h (mutex_lock tid g m).0 ≡ (m, UnlockPc.finished (returns success))
unlock-lock tid g h m p q w (inl f) = unlock-lock_free tid g h m p q f.0 f.1
unlock-lock tid g h m p q w (inr n) = unlock-lock_nested tid g h m p q w n.0 n.1 n.2 n.3
