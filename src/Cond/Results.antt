-- ===== src/Cond/Results.antt =====
-- Why `pthread_cond_timedwait` returns what it returns (src/mlibc_thread.cpp).
use mlibc_glibc_compat.Prelude.{
  ℕ, ◌<◌, ◌≡◌, ◌≢◌, ◌⊎◌, inl, inr, refl, sym, arith, Bool-cases, Bool, true, false, Option, none,
  some, List, [], ◌∷◌, ◌==◌, ◌∙◌, if◌then◌else◌,
}
use mathlib.Core.Path.{subst}
use mlibc_glibc_compat.Errno.{Errno, success, einval, etimedout, is_error, Outcome, returns}
use mlibc_glibc_compat.Cond.Wait.{
  Timespec, Timeout, expired, remaining, broken, timeout_of, Round, Verdict, ended, again, judge,
  sleep_round, timed_round, at_deadline, wait_round, wait_loop, is_invalid, cond_timedwait,
}

-- The deadline has passed when the clock is read.
abbrev pub IsLate : Option Timespec → Option Timespec → Type 0
IsLate (some abstime) (some now) = timeout_of abstime now ≡ expired
IsLate _ _ = ⊥

abbrev pub Signalled : ℕ → List Round → Type 0
Signalled seq [] = ⊥
Signalled seq (r ∷ rs) = (seq < r.cur_seq) ⊎ Signalled seq rs

abbrev pub TimedOut : Option Timespec → List Round → Type 0
TimedOut abstime [] = ⊥
TimedOut abstime (r ∷ rs) = ((r.waited ≡ etimedout) ⊎ IsLate abstime r.now) ⊎ TimedOut abstime rs

-- Why a wait may return a result.
abbrev pub Explained : ℕ → Option Timespec → List Round → Errno → Type 0
Explained seq abstime rs Errno.success = Signalled seq rs
Explained seq abstime rs Errno.etimedout = (abstime ≢ none) × TimedOut abstime rs
Explained seq abstime rs Errno.einval = is_invalid abstime ≡ true
Explained seq abstime rs _ = ⊥

judge_explained :
    (timed : Bool) (seq : ℕ) (waited : Errno) (cur : ℕ) (e : Errno)
    → judge timed seq waited cur ≡ ended (returns e)
    → ((e ≡ success) × (seq < cur)) ⊎ ((e ≡ etimedout) × (waited ≡ etimedout) × (timed ≡ true))
unfolding judge
judge_explained timed seq Errno.success cur e h = ground arith
judge_explained timed seq Errno.eagain cur e h = ground arith
judge_explained timed seq Errno.eintr cur e h = cc
judge_explained timed seq Errno.etimedout cur e h = ground arith
judge_explained timed seq _ cur e h = cc

-- Why one round may end the wait.
abbrev Reason : ℕ → Option Timespec → Round → Errno → Type 0
Reason seq abstime r e =
    ((e ≡ success) × (seq < r.cur_seq))
    ⊎ ((e ≡ etimedout) × (abstime ≢ none) × ((r.waited ≡ etimedout) ⊎ IsLate abstime r.now))

sleep_explained :
    (seq : ℕ) (abstime : Option Timespec) (timed : Bool) (t : Option Timespec) (r : Round)
    (e : Errno)
    → (timed ≡ true → abstime ≢ none)
    → (sleep_round timed seq t r).1 ≡ ended (returns e)
    → Reason seq abstime r e
unfolding sleep_round
sleep_explained seq abstime timed t r e h eq =
    ground (arith, judge_explained timed seq r.waited r.cur_seq e)

timed_explained :
    (seq : ℕ) (abstime now : Timespec) (r : Round) (e : Errno) (t : Timeout)
    → r.now ≡ some now
    → timeout_of abstime now ≡ t
    → (timed_round seq r t).1 ≡ ended (returns e)
    → Reason seq (some abstime) r e
unfolding timed_round
timed_explained seq abstime now r e expired n late eq =
    inr (ground arith, (λ h. cc), inr (subst (λ o. IsLate (some abstime) o) (sym n) late))
timed_explained seq abstime now r e broken n late eq = cc
timed_explained seq abstime now r e (remaining t) n late eq =
    sleep_explained seq (some abstime) true (some t) r e (λ x y. cc) eq

deadline_explained :
    (seq : ℕ) (abstime : Timespec) (r : Round) (e : Errno) (now : Option Timespec)
    → r.now ≡ now
    → (at_deadline seq r abstime now).1 ≡ ended (returns e)
    → Reason seq (some abstime) r e
deadline_explained seq abstime r e none n eq = cc
deadline_explained seq abstime r e (some now) n eq =
    timed_explained seq abstime now r e (timeout_of abstime now) n refl eq

round_explained :
    (seq : ℕ) (abstime : Option Timespec) (r : Round) (e : Errno)
    → (wait_round seq abstime r).1 ≡ ended (returns e)
    → Reason seq abstime r e
unfolding wait_round
round_explained seq none r e eq = elim (Bool-cases (is_error r.unlocked)) [
  | inl bad ↦ cc (rw bad at eq)
  | inr good ↦ sleep_explained seq none false none r e (λ x. cc) (rw good at eq)
]
round_explained seq (some abstime) r e eq = elim (Bool-cases (is_error r.unlocked)) [
  | inl bad ↦ cc (rw bad at eq)
  | inr good ↦ deadline_explained seq abstime r e r.now refl (rw good at eq)
]

Explained-cons :
    (seq : ℕ) (abstime : Option Timespec) (r : Round) (rs : List Round) (e : Errno)
    → Explained seq abstime rs e
    → Explained seq abstime (r ∷ rs) e
Explained-cons seq abstime r rs Errno.success h = inr h
Explained-cons seq abstime r rs Errno.etimedout h = (h.0, inr h.1)
Explained-cons seq abstime r rs Errno.einval h = h
Explained-cons seq abstime r rs _ h = absurd h

Explained-head :
    (seq : ℕ) (abstime : Option Timespec) (r : Round) (rs : List Round) (e : Errno)
    → Reason seq abstime r e
    → Explained seq abstime (r ∷ rs) e
Explained-head seq abstime r rs Errno.success (inl h) = inl h.1
Explained-head seq abstime r rs Errno.success (inr h) = cc h.0
Explained-head seq abstime r rs Errno.etimedout (inl h) = cc h.0
Explained-head seq abstime r rs Errno.etimedout (inr h) = (h.1, inl h.2)
Explained-head seq abstime r rs _ (inl h) = cc h.0
Explained-head seq abstime r rs _ (inr h) = cc h.0

Verdict-cases : (v : Verdict) → (v ≡ again) ⊎ ((o : Outcome Errno) × (v ≡ ended o))
Verdict-cases again = inl refl
Verdict-cases (ended o) = inr (o, refl)

wait_loop-Explained :
    (seq : ℕ) (abstime : Option Timespec) (rs : List Round) (e : Errno)
    → wait_loop seq abstime rs ≡ ended (returns e)
    → Explained seq abstime rs e
unfolding wait_loop
wait_loop-Explained seq abstime [] e h = cc
wait_loop-Explained seq abstime (r ∷ rs) e h = elim (Verdict-cases (wait_round seq abstime r).1) [
  | inl more ↦
      Explained-cons seq abstime r rs e
        (wait_loop-Explained seq abstime rs e (rw (more, wait_loop) at h))
  | inr (o, done) ↦
      let stop : ended o ≡ ended (returns e) = rw (done, wait_loop) at h in
      Explained-head seq abstime r rs e (round_explained seq abstime r e (done ∙ stop))
]

-- When a wait returns, it returns 0, ETIMEDOUT or EINVAL and nothing else, EINTR in particular not:
-- 0 only if after some round the sequence number was above the one of the call, so no spurious
-- wakeup is passed on; ETIMEDOUT only if there is a deadline, and the clock or the kernel's wait
-- has found it passed; EINVAL only if the deadline's nanoseconds are out of range.
pub cond_timedwait-Explained :
    (flags seq : ℕ) (abstime : Option Timespec) (rs : List Round) (e : Errno)
    → cond_timedwait flags seq abstime rs ≡ ended (returns e)
    → Explained seq abstime rs e
unfolding cond_timedwait
cond_timedwait-Explained flags seq abstime rs e h = elim (Bool-cases (flags == 0)) [
  | inl private ↦ checked (rw private at h)
  | inr shared ↦ cc (rw shared at h)
]
  where
    checked :
        (if is_invalid abstime then ended (returns einval) else wait_loop seq abstime rs)
          ≡ ended (returns e)
        → Explained seq abstime rs e
    checked q = elim (Bool-cases (is_invalid abstime)) [
      | inl bad ↦
          let same : einval ≡ e = cc (rw bad at q) in
          subst (λ x. Explained seq abstime rs x) same bad
      | inr good ↦ wait_loop-Explained seq abstime rs e (rw good at q)
    ]
