-- ===== src/Sysdeps.antt =====
-- sysdeps/linux/generic.cpp and sysdeps/managarm/generic.cpp: `sys_futex_wait` and `sys_futex_wake`
-- on the two systems. The results of `syscall`, with the `errno` it leaves, and of the hel calls
-- are parameters.
pub mod RawSyscall
pub mod Recovery
mod Tests
use Prim.Native.String.{String}
use mlibc_glibc_compat.Prelude.{
  ℕ, times, ◌+ℤ◌, ◌+◌, ◌*◌, ◌≡◌, ◌≢◌, refl, arith, ℤ, pos, negsuc, ltb_ℤ, ◌==ℤ◌, Bool, true, false,
  Option, none, some, if◌then◌else◌, List, [], ◌∷◌,
}
use mlibc_glibc_compat.Errno.{Errno, success, negative, is_error, Outcome, returns, aborts}
use mlibc_glibc_compat.Mutex.{Mutex}
use mlibc_glibc_compat.Mutex.Lock.{LockPc, lock_start, lock_resume}
use mlibc_glibc_compat.Mutex.Unlock.{UnlockPc, unlock_woken}
use mlibc_glibc_compat.Cond.{Cond, cond_broadcast}
use mlibc_glibc_compat.Cond.Signals.{loop_head}
use mlibc_glibc_compat.Cond.Wait.{
  Timespec, Round, Verdict, ended, cond_wait, wait_round, sleep_round, judge,
}

-- Managarm: the constructor of `Guard`, which runs when the library is loaded. `o_wronly` is the flag of
-- <fcntl.h>, and `fd` what `open` gives, which is not tested.
pub data GuardCall : Type 0 where
  opens : (path : String) → (flags : ℕ) → GuardCall
  dup2 : (fd : ℤ) → (target : ℕ) → GuardCall

unfoldable pub guard : (o_wronly : ℕ) → (fd : ℤ) → List GuardCall
guard o_wronly fd =
    GuardCall.opens "/dev/helout" o_wronly ∷ GuardCall.dup2 fd 1 ∷ GuardCall.dup2 fd 2 ∷ []

-- Linux: `syscall(SYS_futex, ...) < 0 ? errno : 0`, for the wait and for the wake.
unfoldable pub linux_futex_wait : (result : ℤ) → (errno : Errno) → Errno
linux_futex_wait result errno = if ltb_ℤ result (pos 0) then errno else success

unfoldable pub linux_futex_wake : (result : ℤ) → (errno : Errno) → Errno
linux_futex_wake result errno = if ltb_ℤ result (pos 0) then errno else success

-- Managarm: any hel error becomes -1. `hel` is what `helFutexWait` answers to a time in
-- nanoseconds, -1 for none; the sum is a `long`, without overflow.
abbrev pub hel_time : Option Timespec → ℤ
hel_time none = negsuc 0
hel_time (some t) = t.tv_nsec +ℤ times t.tv_sec 1_000_000_000

unfoldable pub managarm_futex_wait : (hel : ℤ → ℤ) → Option Timespec → Errno
unfolding ◌+ℤ◌
managarm_futex_wait hel time = if hel (hel_time time) ==ℤ pos 0 then success else negative

unfoldable pub managarm_futex_wake : (hel_error : ℤ) → Errno
managarm_futex_wake hel_error = if hel_error ==ℤ pos 0 then success else negative

accepts_all : (e : Errno) → e ≢ negative → unlock_woken e ≡ UnlockPc.finished (returns success)
unfolding unlock_woken
accepts_all negative h = absurd (h refl)
accepts_all success h = refl
accepts_all _ h = refl

failed_round :
    (seq : ℕ) (r : Round)
    → r.unlocked ≡ success
    → r.waited ≡ negative
    → (wait_round seq none r).1 ≡ ended aborts
unfolding wait_round sleep_round judge
failed_round seq r u w = ground arith

-- What the two systems' failures do to the callers. On Managarm every error of a wait with no
-- deadline, whichever it is, ends the program in a condition's wait, also one that was interrupted,
-- whereas a mutex's lock goes on with its loop; and every error of a wake ends the program in a
-- broadcast and in an unlock. On Linux an unlock accepts any error number of a wake that fails.
pub futex_failures :
    (hel : ℤ → ℤ) (hel_error : ℤ) (errno : Errno) (seq : ℕ) (r : Round) (rs : List Round) (c : Cond)
    (e : ℕ)
    → hel (negsuc 0) ≢ pos 0
    → hel_error ≢ pos 0
    → errno ≢ negative
    → r.unlocked ≡ success
    → r.waited ≡ managarm_futex_wait hel none
    → (cond_wait 0 seq (r ∷ rs) ≡ ended aborts)
      × (lock_resume (managarm_futex_wait hel none) (LockPc.waiting e) ≡ lock_start)
      × ((cond_broadcast (managarm_futex_wake hel_error) c).0 ≡ aborts)
      × (unlock_woken (managarm_futex_wake hel_error) ≡ UnlockPc.finished aborts)
      × (unlock_woken (linux_futex_wake (negsuc 0) errno) ≡ UnlockPc.finished (returns success))
unfolding managarm_futex_wait managarm_futex_wake linux_futex_wake cond_wait sleep_round judge
    lock_resume cond_broadcast unlock_woken
futex_failures hel hel_error errno seq r rs c e g f n u w = (
  loop_head seq r rs aborts (failed_round seq r u (ground arith)),
  ground arith,
  ground arith,
  ground arith,
  accepts_all errno n,
)
