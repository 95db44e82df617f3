-- ===== src/Sysdeps/Tests.antt =====
-- A wait that Managarm reports as failed.
use mlibc_glibc_compat.Prelude.{ℤ, some, arith, pos, negsuc, ◌≡◌, refl, sym, none, [], ◌∷◌}
use mlibc_glibc_compat.Errno.{success, negative, eagain, eintr, etimedout, returns, aborts}
use mlibc_glibc_compat.Mutex.Lock.{LockPc, lock_start, lock_resume}
use mlibc_glibc_compat.Mutex.Unlock.{UnlockPc, unlock_woken}
use mlibc_glibc_compat.Cond.{Cond, cond_broadcast}
use mlibc_glibc_compat.Cond.Wait.{Timespec, Round, ended, cond_wait, cond_timedwait}
use mlibc_glibc_compat.Sysdeps.RawSyscall.{raw_syscall, syscall_errors_lost}
use mlibc_glibc_compat.Sysdeps.Recovery.{IsLost, timed_wait_recovers}
use mlibc_glibc_compat.Sysdeps.{
  linux_futex_wait, managarm_futex_wait, managarm_futex_wake, linux_futex_wake, futex_failures,
}

abbrev failed_wait : Round
failed_wait = record {
  unlocked = success;
  now = none;
  waited = negative;
  relocked = success;
  cur_seq = 1;
}

abbrev waited_on : Cond
waited_on = record { seq = 1; flags = 0; clock = pos 0 }

-- `helFutexWait` fails, with any time.
abbrev refuses : ℤ → ℤ
refuses time = pos 7

futex_failures_example :
    (cond_wait 0 1 (failed_wait ∷ []) ≡ ended aborts)
    × (lock_resume (managarm_futex_wait refuses none) (LockPc.waiting 3) ≡ lock_start)
    × ((cond_broadcast (managarm_futex_wake (pos 7)) waited_on).0 ≡ aborts)
    × (unlock_woken (managarm_futex_wake (pos 7)) ≡ UnlockPc.finished aborts)
    × (unlock_woken (linux_futex_wake (negsuc 0) eintr) ≡ UnlockPc.finished (returns success))
unfolding managarm_futex_wait
futex_failures_example =
    futex_failures refuses (pos 7) eintr 1 failed_wait [] waited_on 3 (λ e. cc) (λ e. cc) (λ e. cc)
      refl refused
  where
    refused : negative ≡ managarm_futex_wait refuses none
    refused = refl

-- The kernel's EAGAIN.
syscall_errors_lost_example :
    (raw_syscall 18_446_744_073_709_551_605 ≡ (pos 4_294_967_295, some 11))
    × (linux_futex_wait (raw_syscall 18_446_744_073_709_551_605).0 eagain ≡ success)
    × (linux_futex_wake (raw_syscall 18_446_744_073_709_551_605).0 eagain ≡ success)
syscall_errors_lost_example = syscall_errors_lost 11 eagain (omega arith) (omega arith)

-- A deadline at 7 s. At 5 s the kernel answers ETIMEDOUT too early, and it is lost; at 8 s the clock is
-- past the deadline.
abbrev at : ℤ → Timespec
at s = record { tv_sec = s; tv_nsec = pos 0 }

abbrev too_early : Round
too_early = record {
  unlocked = success;
  now = some (at (pos 5));
  waited = success;
  relocked = success;
  cur_seq = 1;
}

abbrev too_late : Round
too_late = record too_early { now = some (at (pos 8)) }

timed_wait_recovers_example :
    cond_timedwait 0 1 (some (at (pos 7))) (too_early ∷ too_late ∷ []) ≡ ended (returns etimedout)
timed_wait_recovers_example =
    timed_wait_recovers 1 (at (pos 7)) (at (pos 8)) (too_early ∷ []) [] too_late
      (ground arith, ground arith) (lost, tt) (refl, refl) (refl, (ground arith, ground arith))
      (omega arith)
  where
    lost : IsLost 1 (at (pos 7)) too_early
    lost = (
      (refl, refl),
      (at (pos 5), (refl, (ground arith, ground arith)), λ b. omega (arith, b)),
      (
        110,
        etimedout,
        omega arith,
        omega arith,
        sym (syscall_errors_lost 110 etimedout (omega arith) (omega arith)).1,
      ),
      omega arith,
    )
