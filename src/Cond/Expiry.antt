-- ===== src/Cond/Expiry.antt =====
-- How a wait with a deadline ends when no broadcast comes (src/mlibc_thread.cpp).
use mlibc_glibc_compat.Prelude.{ℕ, ◌≤◌, ◌≡◌, ◌⊎◌, refl, arith, some, List, [], ◌∷◌, ◌++◌, false}
use mlibc_glibc_compat.Errno.{success, eintr, etimedout, returns}
use mlibc_glibc_compat.Cond.Wait.{
  Timespec, Timeout, expired, remaining, broken, timeout_of, Round, ended, again, judge,
  sleep_round, timed_round, wait_round, wait_loop, is_invalid, cond_timedwait,
}
use mlibc_glibc_compat.Cond.Deadline.{IsNormal, IsBefore, IsExact, timeout_of-IsExact}
use mlibc_glibc_compat.Cond.Signals.{IsOrderly}

-- The clock shows a time in this round.
abbrev pub IsShown : Round → Timespec → Type 0
IsShown r t = (r.now ≡ some t) × IsNormal t

-- A round before the deadline that ends the wait for nobody.
abbrev pub IsIdleBefore : (seq : ℕ) → Timespec → Round → Type 0
IsIdleBefore seq abstime r =
    IsOrderly r
    × ((t : Timespec) × IsShown r t × ¬ (IsBefore abstime t))
    × ((r.waited ≡ eintr) ⊎ ((r.waited ≡ success) × (r.cur_seq ≤ seq)))

abbrev pub AllIdleBefore : (seq : ℕ) → Timespec → List Round → Type 0
AllIdleBefore seq abstime [] = Unit {0}
AllIdleBefore seq abstime (r ∷ rs) = IsIdleBefore seq abstime r × AllIdleBefore seq abstime rs

late_expires :
    (abstime t : Timespec)
    → IsNormal abstime
    → IsNormal t
    → IsBefore abstime t
    → timeout_of abstime t ≡ expired
unfolding timeout_of
late_expires abstime t p q b = ground arith

idle_timeout :
    (seq : ℕ) (abstime t : Timespec) (r : Round) (o : Timeout)
    → IsExact abstime t o
    → ¬ (IsBefore abstime t)
    → IsOrderly r
    → (r.waited ≡ eintr) ⊎ ((r.waited ≡ success) × (r.cur_seq ≤ seq))
    → (timed_round seq r o).1 ≡ again
unfolding timed_round sleep_round judge
idle_timeout seq abstime t r expired x early o w = absurd (early x)
idle_timeout seq abstime t r broken x early o w = absurd x
idle_timeout seq abstime t r (remaining d) x early o w = ground arith

idle_again :
    (seq : ℕ) (abstime : Timespec) (r : Round)
    → IsNormal abstime
    → IsIdleBefore seq abstime r
    → (wait_round seq (some abstime) r).1 ≡ again
unfolding wait_round
idle_again seq abstime r p (o, (t, shown, early), w) =
    rw (o.0, shown.0)
      (idle_timeout seq abstime t r _ (timeout_of-IsExact abstime t p shown.1) early o w)

late_ends :
    (seq : ℕ) (abstime t : Timespec) (r : Round)
    → IsNormal abstime
    → IsOrderly r
    → IsShown r t
    → IsBefore abstime t
    → (wait_round seq (some abstime) r).1 ≡ ended (returns etimedout)
unfolding wait_round timed_round
late_ends seq abstime t r p o shown b =
    let e = late_expires abstime t p shown.1 b in rw (o.0, shown.0, e, o.1) refl

loop_expires :
    (seq : ℕ) (abstime t : Timespec) (is rs : List Round) (r : Round)
    → IsNormal abstime
    → AllIdleBefore seq abstime is
    → IsOrderly r
    → IsShown r t
    → IsBefore abstime t
    → wait_loop seq (some abstime) (is ++ r ∷ rs) ≡ ended (returns etimedout)
unfolding wait_loop
loop_expires seq abstime t [] rs r p idle o shown b =
    rw (late_ends seq abstime t r p o shown b, wait_loop) refl
loop_expires seq abstime t (i ∷ is) rs r p idle o shown b =
    rw (idle_again seq abstime i p idle.0, wait_loop)
      (loop_expires seq abstime t is rs r p idle.1 o shown b)

-- A wait on a private condition with a valid deadline, in rounds in which the mutex is released and taken
-- again: after any number of rounds before the deadline in which no broadcast is seen, the first round
-- in which the clock is past the deadline ends the wait with ETIMEDOUT, whatever rounds might follow;
-- also if the futex has never answered ETIMEDOUT.
pub deadline_ends :
    (seq : ℕ) (abstime t : Timespec) (is rs : List Round) (r : Round)
    → IsNormal abstime
    → AllIdleBefore seq abstime is
    → IsOrderly r
    → IsShown r t
    → IsBefore abstime t
    → cond_timedwait 0 seq (some abstime) (is ++ r ∷ rs) ≡ ended (returns etimedout)
unfolding cond_timedwait
deadline_ends seq abstime t is rs r p idle o shown b =
    let valid : is_invalid (some abstime) ≡ false = ground arith in
    rw valid (loop_expires seq abstime t is rs r p idle o shown b)
