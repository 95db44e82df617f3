-- ===== src/Threads/Waits/Safety.antt =====
-- What a wait on a condition promises, with any number of threads (src/mlibc_thread.cpp).
use mlibc_glibc_compat.Prelude.{ℕ, ◌+◌, ◌<◌, ◌≡◌, ◌≢◌, ◌⊎◌, inl, inr, sym, ◌∙◌, arith, Bool, true}
use mathlib.Core.Path.{subst}
use mlibc_glibc_compat.Errno.{Errno, success, etimedout, returns, aborts}
use mlibc_glibc_compat.Cond.Wait.{judge}
use mlibc_glibc_compat.Mutex.{owner_of}
use mlibc_glibc_compat.Threads.{Activity, running, crashed, IsTid}
use mlibc_glibc_compat.Threads.Safety.{mutual_exclusion, recursion_counts, no_assertion_fails}
use mlibc_glibc_compat.Threads.Waits.{
  Phase, sleeping, relocking, finished, World, next_phase, acted, IsStart, Run,
}
use mlibc_glibc_compat.Threads.Waits.Invariant.{Fits, IsLatest, Answered}
use mlibc_glibc_compat.Threads.Waits.Whole.{Announcer}
use mlibc_glibc_compat.Threads.Waits.Acting.{acted_parts}
use mlibc_glibc_compat.Threads.Waits.Steps.{RecursiveTo, Run-Whole}

-- A result of a wait, and what it says of the sequence number.
abbrev pub IsResult : (timed : Bool) → (seq now : ℕ) → Errno → Type 0
IsResult timed seq now x = ((x ≡ success) × (seq < now)) ⊎ ((x ≡ etimedout) × (timed ≡ true))

unaborted :
    (Rec : Bool → Type 0) (now d : ℕ) (a : Activity) (p : Phase)
    → Fits Rec now d a p
    → p ≢ finished aborts
unaborted Rec now d a (finished aborts) f e = f
unaborted Rec now d a p f e = ground arith

judged :
    (k timed : Bool) (n seq now d : ℕ) (e x : Errno)
    → Answered timed seq now e
    → (next_phase now d (relocking k timed n seq e)).0 ≡ finished (returns x)
    → IsResult timed seq now x
unfolding next_phase judge
judged k timed n seq now d e x f h = ground arith

without_level : {d : ℕ} → ¬ (0 < d) → d ≡ 0
without_level h = omega (arith, h)

module _ {w v : World} (begun : IsStart w) (r : Run w v) where
  -- In every state that a run of mutex calls, waits and broadcasts gets to from a free mutex: two
  -- threads that both have a level of the mutex are the same thread, so a thread that waits has given
  -- the mutex up to the one that has it, and one that is back from a wait has it alone.
  pub wait_excludes :
      (i j : ℕ)
      → IsTid i
      → IsTid j
      → 0 < (v.base.thread i).depth
      → 0 < (v.base.thread j).depth
      → i ≡ j
  wait_excludes = mutual_exclusion begun.initial (Run-Whole begun r).1

  -- In every such state no assertion has failed, neither in a wait nor in a mutex call, where a sleep
  -- ends with 0, with EINTR, or with ETIMEDOUT if there is a deadline, and a refused one with EAGAIN: each
  -- unlock of a wait has returned 0, as has each lock, and a wait that the kernel refuses finds the
  -- sequence number above its own.
  pub no_wait_aborts :
      (i : ℕ) → IsTid i → (v.phase i ≢ finished aborts) × ((v.base.thread i).pc ≢ crashed)
  no_wait_aborts i t = (
    unaborted (RecursiveTo w) v.cond.seq _ _ (v.phase i) ((Run-Whole begun r).0.each i t),
    no_assertion_fails begun.initial (Run-Whole begun r).1 i t,
  )

  -- In every such state, a thread that sleeps on the condition has read the sequence number that the
  -- condition has now, or there is a thread that has counted a broadcast and is about to wake every
  -- sleeper: no broadcast is lost.
  pub no_lost_broadcast :
      (i : ℕ) (k timed : Bool) (n seq : ℕ)
      → v.phase i ≡ sleeping k timed n seq
      → (seq ≡ v.cond.seq) ⊎ Announcer v.phase
  no_lost_broadcast i k timed n seq e = elim (Run-Whole begun r).0.heard [
    | inl a ↦ inr a
    | inr all ↦ inl (subst (IsLatest v.cond.seq) e (all i))
  ]

  Fits-at :
      (i : ℕ) (q : Phase)
      → IsTid i
      → (v.base.thread i).pc ≡ running
      → v.phase i ≡ q
      → Fits (RecursiveTo w) v.cond.seq (v.base.thread i).depth running q
  Fits-at i q t e p =
      subst (λ a. Fits (RecursiveTo w) v.cond.seq (v.base.thread i).depth a q) e
        (subst (Fits (RecursiveTo w) v.cond.seq (v.base.thread i).depth (v.base.thread i).pc) p
          ((Run-Whole begun r).0.each i t))

  -- In every such state, where the last step of a wait returns: the thread has the mutex again, at the
  -- level that it began the wait with; and the result is 0, with a sequence number above the one that
  -- the wait began with, or ETIMEDOUT from a wait with a deadline.
  pub wait_returns_owner :
      (i : ℕ) (k timed : Bool) (n seq : ℕ) (e x : Errno)
      → IsTid i
      → (v.base.thread i).pc ≡ running
      → v.phase i ≡ relocking k timed n seq e
      → (acted i v).phase i ≡ finished (returns x)
      → ((v.base.thread i).depth ≡ n)
        × (owner_of v.base.mem.state ≡ i)
        × IsResult timed seq v.cond.seq x
  wait_returns_owner i k timed n seq e x t q p h =
      let fits : Fits (RecursiveTo w) v.cond.seq (v.base.thread i).depth running
          (relocking k timed n seq e) =
        Fits-at i (relocking k timed n seq e) t q p in
      let counts = recursion_counts begun.initial (Run-Whole begun r).1 i t q in
      let last : (next_phase v.cond.seq (v.base.thread i).depth (v.phase i)).0
          ≡ finished (returns x) =
        sym ((acted_parts i v q).1) ∙ h in
      (
        fits.1,
        counts.1 (omega (arith, fits.1, fits.3.0)),
        judged k timed n seq v.cond.seq (v.base.thread i).depth e x fits.2 (
            subst (λ p. (next_phase v.cond.seq (v.base.thread i).depth p).0 ≡ finished (returns x))
              p last),
      )

  -- In every such state, a thread that sleeps on the condition has one level less than it began the wait
  -- with. If that was the only one, it does not own the mutex; if there were more, it still does, and no
  -- other thread has a level: none can lock the mutex to make the change that the wait is for.
  pub sleeper_levels :
      (i : ℕ) (k timed : Bool) (n seq : ℕ)
      → IsTid i
      → v.phase i ≡ sleeping k timed n seq
      → ((v.base.thread i).depth + 1 ≡ n)
        × (n ≡ 1 → owner_of v.base.mem.state ≢ i)
        × (1 < n
            → (owner_of v.base.mem.state ≡ i)
              × ((j : ℕ) → IsTid j → j ≢ i → (v.base.thread j).depth ≡ 0))
  sleeper_levels i k timed n seq t p =
      let fits =
        subst (Fits (RecursiveTo w) v.cond.seq (v.base.thread i).depth (v.base.thread i).pc) p
          ((Run-Whole begun r).0.each i t) in
      let counts = recursion_counts begun.initial (Run-Whole begun r).1 i t fits.1 in
      (
        fits.2,
        λ one own. absurd (omega (arith, counts.2 own, fits.2, one)),
        λ more. (
          counts.1 (omega (arith, fits.2, more)),
          λ j u apart.
              without_level (λ b. apart (wait_excludes j i u t b (omega (arith, fits.2, more)))),
        ),
      )
