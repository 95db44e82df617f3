-- ===== src/Cond/Wait.antt =====
-- `__pthread_cond_timedwait_internal` (src/mlibc_thread.cpp). What the mutex, the clock and the
-- futex answer, and what other threads do to the sequence number meanwhile, enters round by round.
use mlibc_glibc_compat.Prelude.{
  ℕ, ℤ, pos, ◌+ℤ◌, ◌-ℤ◌, ltb_ℤ, leb_ℤ, ◌==ℤ◌, ltb, ◌==◌, Bool, true, false, ◌&&◌, ◌||◌, not, Option,
  none, some, List, [], ◌∷◌, if◌then◌else◌,
}
use mlibc_glibc_compat.Errno.{Errno, success, einval, etimedout, is_error, Outcome, returns, aborts}

-- struct timespec
pub record Timespec : Type 0 where
  pub tv_sec : ℤ
  pub tv_nsec : ℤ

abbrev pub nanos_per_second : ℤ
nanos_per_second = pos 1_000_000_000

pub data Timeout : Type 0 where
  expired : Timeout
  remaining : Timespec → Timeout
  broken : Timeout  -- an `__ensure` on the result fails

-- A second is carried where the nanoseconds are out of range.
unfoldable pub carry : (sec nsec : ℤ) → Timeout
unfolding ◌+ℤ◌ ◌-ℤ◌
carry sec nsec =
    if leb_ℤ nanos_per_second nsec
    then if ltb_ℤ (nsec -ℤ nanos_per_second) nanos_per_second
      then Timeout.remaining (record { tv_sec = sec +ℤ pos 1; tv_nsec = nsec -ℤ nanos_per_second })
      else Timeout.broken
    else if ltb_ℤ nsec (pos 0)
    then if leb_ℤ (pos 0) (nsec +ℤ nanos_per_second)
      then Timeout.remaining (record { tv_sec = sec -ℤ pos 1; tv_nsec = nsec +ℤ nanos_per_second })
      else Timeout.broken
    else Timeout.remaining (record { tv_sec = sec; tv_nsec = nsec })

-- From the absolute time to a timeout. The two differences are taken as integers without overflow.
unfoldable pub timeout_of : (abstime now : Timespec) → Timeout
unfolding carry
timeout_of abstime now =
    let sec = abstime.tv_sec -ℤ now.tv_sec in
    let nsec = abstime.tv_nsec -ℤ now.tv_nsec in
    if ltb_ℤ sec (pos 0) || (sec ==ℤ pos 0 && ltb_ℤ nsec (pos 0))
    then Timeout.expired
    else carry sec nsec

-- What one round of the loop meets.
pub record Round : Type 0 where
  pub unlocked : Errno  -- the result of the unlock
  pub now : Option Timespec  -- `clock_gettime`; `none` where it fails
  pub waited : Errno  -- the result of `sys_futex_wait`
  pub relocked : Errno  -- the result of the lock
  pub cur_seq : ℕ  -- the sequence number when the mutex is held again

-- A call `sys_futex_wait(&seq, expected, timeout)`.
pub record Request : Type 0 where
  pub expected : ℕ
  pub timeout : Option Timespec

pub data Verdict : Type 0 where
  ended : Outcome Errno → Verdict
  again : Verdict

-- The cases after the wait, with the mutex held again.
unfoldable pub judge : (timed : Bool) → (seq : ℕ) → (waited : Errno) → (cur_seq : ℕ) → Verdict
judge timed seq Errno.success cur =
    if ltb seq cur then Verdict.ended (returns success) else Verdict.again
judge timed seq Errno.eagain cur = Verdict.ended (if ltb seq cur then returns success else aborts)
judge timed seq Errno.eintr cur = Verdict.again
judge timed seq Errno.etimedout cur = Verdict.ended (if timed then returns etimedout else aborts)
judge timed seq _ cur = Verdict.ended aborts

-- The wait of one round, and what comes after it.
unfoldable pub sleep_round :
    (timed : Bool) → (seq : ℕ) → Option Timespec → Round → List Request × Verdict
unfolding judge
sleep_round timed seq timeout r = (
  record { expected = seq; timeout = timeout } ∷ [],
  if is_error r.relocked then Verdict.ended aborts else judge timed seq r.waited r.cur_seq,
)

-- The part of a round with a deadline, once the clock has been read.
unfoldable pub timed_round : (seq : ℕ) → Round → Timeout → List Request × Verdict
unfolding sleep_round
timed_round seq r Timeout.expired =
    ([], Verdict.ended (if is_error r.relocked then aborts else returns etimedout))
timed_round seq r Timeout.broken = ([], Verdict.ended aborts)
timed_round seq r (Timeout.remaining t) = sleep_round true seq (some t) r

abbrev pub at_deadline : (seq : ℕ) → Round → Timespec → Option Timespec → List Request × Verdict
at_deadline seq r abstime none = ([], Verdict.ended aborts)
at_deadline seq r abstime (some now) = timed_round seq r (timeout_of abstime now)

abbrev unlocked_round : (seq : ℕ) → Option Timespec → Round → List Request × Verdict
unlocked_round seq none r = sleep_round false seq none r
unlocked_round seq (some abstime) r = at_deadline seq r abstime r.now

-- One round of the loop: the waits that it asks for, and how it ends.
unfoldable pub wait_round : (seq : ℕ) → Option Timespec → Round → List Request × Verdict
unfolding timed_round timeout_of
wait_round seq abstime r =
    if is_error r.unlocked then ([], Verdict.ended aborts) else unlocked_round seq abstime r

-- The loop, over the rounds that it is given; `again` where they are used up.
unfoldable pub wait_loop : (seq : ℕ) → Option Timespec → List Round → Verdict
wait_loop seq abstime [] = Verdict.again
wait_loop seq abstime (r ∷ rs) = elim ((wait_round seq abstime r).1) [
  | Verdict.ended o ↦ Verdict.ended o
  | Verdict.again ↦ wait_loop seq abstime rs
]

abbrev pub is_invalid : Option Timespec → Bool
is_invalid none = false
is_invalid (some t) = ltb_ℤ t.tv_nsec (pos 0) || leb_ℤ nanos_per_second t.tv_nsec

-- The whole call. `flags` and `seq` are the condition's when it is made.
unfoldable pub cond_timedwait : (flags seq : ℕ) → Option Timespec → List Round → Verdict
unfolding wait_loop
cond_timedwait flags seq abstime rs =
    if not (flags == 0)
    then Verdict.ended aborts
    else if is_invalid abstime
    then Verdict.ended (returns einval)
    else wait_loop seq abstime rs

-- `pthread_cond_wait`
unfoldable pub cond_wait : (flags seq : ℕ) → List Round → Verdict
unfolding cond_timedwait
cond_wait flags seq rs = cond_timedwait flags seq none rs
