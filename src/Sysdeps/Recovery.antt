-- ===== src/Sysdeps/Recovery.antt =====
-- The futex errors that the assembly of `syscall` loses (src/misc.cpp, sysdeps/linux/generic.cpp), and a
-- condition's wait with a deadline on top of them (src/mlibc_thread.cpp).
use mlibc_glibc_compat.Prelude.{ℕ, ◌-◌, ◌^◌, ◌≤◌, ◌<◌, ◌≡◌, inr, ◌∙◌, some, List, [], ◌∷◌, ◌++◌}
use mlibc_glibc_compat.Errno.{Errno, etimedout, returns}
use mlibc_glibc_compat.Cond.Wait.{Timespec, Round, ended, cond_timedwait}
use mlibc_glibc_compat.Cond.Deadline.{IsNormal, IsBefore}
use mlibc_glibc_compat.Cond.Signals.{IsOrderly}
use mlibc_glibc_compat.Cond.Expiry.{IsShown, AllIdleBefore, deadline_ends}
use mlibc_glibc_compat.Sysdeps.{linux_futex_wait}
use mlibc_glibc_compat.Sysdeps.RawSyscall.{raw_syscall, syscall_errors_lost}

-- The futex has failed with error `e`: the number has changed, a handler ran, or the time is up.
abbrev pub HasFailed : Round → Type 0
HasFailed r =
    (e : ℕ) × (errno : Errno) × (0 < e)
    × (e ≤ 4095)
    × (r.waited ≡ linux_futex_wait (raw_syscall (2 ^ 64 - e)).0 errno)

-- A round before the deadline, with no broadcast seen, in which the futex has failed.
abbrev pub IsLost : (seq : ℕ) → Timespec → Round → Type 0
IsLost seq abstime r =
    IsOrderly r
    × ((t : Timespec) × IsShown r t × ¬ (IsBefore abstime t))
    × HasFailed r
    × (r.cur_seq ≤ seq)

abbrev pub AllLost : (seq : ℕ) → Timespec → List Round → Type 0
AllLost seq abstime [] = Unit {0}
AllLost seq abstime (r ∷ rs) = IsLost seq abstime r × AllLost seq abstime rs

lost_idle :
    (seq : ℕ) (abstime : Timespec) (rs : List Round)
    → AllLost seq abstime rs
    → AllIdleBefore seq abstime rs
lost_idle seq abstime [] h = tt
lost_idle seq abstime (r ∷ rs) ((o, shown, (e, errno, p, q, w), b), hs) =
    ((o, shown, inr (w ∙ (syscall_errors_lost e errno p q).1, b)), lost_idle seq abstime rs hs)

-- On Linux, where every error of the futex is taken for success, a wait on a private condition with a
-- valid deadline recovers: after any number of rounds before the deadline in which the futex has failed,
-- with any error, and no broadcast is seen, the first round in which the clock is past the deadline ends
-- the wait with ETIMEDOUT.
pub timed_wait_recovers :
    (seq : ℕ) (abstime t : Timespec) (is rs : List Round) (r : Round)
    → IsNormal abstime
    → AllLost seq abstime is
    → IsOrderly r
    → IsShown r t
    → IsBefore abstime t
    → cond_timedwait 0 seq (some abstime) (is ++ r ∷ rs) ≡ ended (returns etimedout)
timed_wait_recovers seq abstime t is rs r p lost o shown b =
    deadline_ends seq abstime t is rs r p (lost_idle seq abstime is lost) o shown b
