-- ===== src/Mutex/Alone/Overflow.antt =====
-- The recursion level of a mutex at its upper end (src/mlibc_thread.cpp).
use mlibc_glibc_compat.Prelude.{ℕ, ◌+◌, ◌^◌, ◌<◌, ◌≡◌, Bool, not, arith}
use mlibc_glibc_compat.Errno.{success, returns, aborts}
use mlibc_glibc_compat.Mutex.{Mutex, recursive_np, owner_of, kind_of}
use mlibc_glibc_compat.Mutex.Lock.{LockPc, lock_step}
use mlibc_glibc_compat.Mutex.Trylock.{TryPc, try_step}
use mlibc_glibc_compat.Mutex.Unlock.{UnlockPc, unlock_step}
use mlibc_glibc_compat.Mutex.Alone.{mutex_lock, mutex_trylock, mutex_unlock}

-- For a mutex that is recursive to the caller, and that the thread has locked 2^32 - 1 times: one more
-- lock or trylock returns 0 and has wrapped the level to 0, where it should return EAGAIN; the next
-- unlock, by a caller from either library, ends the program, with the mutex still owned.
pub level_overflow :
    (tid : ℕ) (g h : Bool) (m : Mutex)
    → 0 < tid
    → tid < 2 ^ 30
    → m.state < 2 ^ 32
    → owner_of m.state ≡ tid
    → kind_of (not g) m ≡ recursive_np
    → m.recursion + 1 ≡ 2 ^ 32
    → let wrapped : Mutex = record m { recursion = 0 } in
      (mutex_lock tid g m ≡ (wrapped, LockPc.finished (returns success)))
      × (mutex_trylock tid g m ≡ (wrapped, TryPc.finished (returns success)))
      × (mutex_unlock tid h wrapped ≡ (wrapped, UnlockPc.finished aborts))
unfolding mutex_lock lock_step mutex_trylock try_step mutex_unlock unlock_step
level_overflow tid g h m p q b o k r = (ground arith, ground arith, ground arith)
