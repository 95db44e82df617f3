-- ===== src/Threads/Waits/Progress.antt =====
-- From a wake to the return of the wait, by the waiter's own steps (src/mlibc_thread.cpp).
use mlibc_glibc_compat.Prelude.{
  ℕ, ◌+◌, ◌<◌, ◌≡◌, ◌⊎◌, sym, ap, ◌∙◌, arith, Bool, true, none, some, update_self,
}
use mathlib.Core.Path.{subst}
use mlibc_glibc_compat.Errno.{Errno, success, eagain, etimedout, returns}
use mlibc_glibc_compat.Cond.Wait.{judge}
use mlibc_glibc_compat.Mutex.Lock.{LockPc}
use mlibc_glibc_compat.Threads.{
  Activity, running, locking, Thread, System, Call, IsTid, called, begin, Reach, next, IsInitial,
}
use mlibc_glibc_compat.Threads
use mlibc_glibc_compat.Threads.Safety.{recursion_counts}
use mlibc_glibc_compat.Threads.Progress.{solo, free_lock_returns}
use mlibc_glibc_compat.Threads.Waits.{
  Phase, woken, relocking, finished, World, next_phase, entered, acted, IsStart, Run,
}
use mlibc_glibc_compat.Threads.Waits.Invariant.{Fits}
use mlibc_glibc_compat.Threads.Waits.Acting.{acted_parts}
use mlibc_glibc_compat.Threads.Waits.Steps.{RecursiveTo, Run-Whole}

-- `n` steps of thread `i` in a mutex call.
abbrev pub relocked : (n i : ℕ) → World → World
relocked n i w = record w { base = solo n i w.base }

-- The lock of a woken waiter, of four steps, and the tests after it.
abbrev pub resumed : ℕ → World → World
resumed i w = acted i (relocked 4 i (acted i w))

-- An answer of the futex by which a broadcast shows.
abbrev pub IsSignal : Errno → Type 0
IsSignal e = (e ≡ success) ⊎ (e ≡ eagain)

-- What is due to a waiter that the futex has answered with `e`, at the sequence number `now`: 0 where a
-- broadcast has counted past its own, ETIMEDOUT where its deadline has passed.
abbrev pub IsDue : (timed : Bool) → (seq now : ℕ) → (e due : Errno) → Type 0
IsDue timed seq now e due =
    ((due ≡ success) × IsSignal e × (seq < now))
    ⊎ ((due ≡ etimedout) × (e ≡ etimedout) × (timed ≡ true))

due_concludes :
    (k timed : Bool) (seq now : ℕ) (e due : Errno)
    → IsDue timed seq now e due
    → next_phase now 1 (relocking k timed 1 seq e) ≡ (finished (returns due), none)
unfolding next_phase judge
due_concludes k timed seq now e due s = ground arith

module _ (i : ℕ) (k timed : Bool) (seq : ℕ) (e due : Errno) where
  enters :
      (w : World)
      → (w.base.thread i).pc ≡ running
      → w.phase i ≡ woken k timed 1 seq e
      → ((acted i w).base ≡ called i (Call.lock k) w.base)
        × ((acted i w).phase i ≡ relocking k timed 1 seq e)
        × ((acted i w).cond ≡ w.cond)
  unfolding next_phase
  enters w r p =
      let parts = acted_parts i w r in
      let chosen : next_phase w.cond.seq (w.base.thread i).depth (w.phase i)
          ≡ (relocking k timed 1 seq e, some (Call.lock k)) =
        ap (next_phase w.cond.seq (w.base.thread i).depth) p in
      (parts.0 ∙ ap (λ n. entered i n.1 w.base) chosen, parts.1 ∙ ap (λ n. n.0) chosen, parts.2)

  concludes :
      (w : World)
      → w.base.thread i ≡ record { depth = 1; pc = running }
      → w.phase i ≡ relocking k timed 1 seq e
      → IsDue timed seq w.cond.seq e due
      → ((acted i w).phase i ≡ finished (returns due)) × ((acted i w).base ≡ w.base)
  concludes w t p s =
      let parts = acted_parts i w (ap (λ u. u.pc) t) in
      let chosen : next_phase w.cond.seq (w.base.thread i).depth (w.phase i)
          ≡ (finished (returns due), none) =
        ap (λ u. next_phase w.cond.seq u.depth (w.phase i)) t
        ∙ ap (next_phase w.cond.seq 1) p
        ∙ due_concludes k timed seq w.cond.seq e due s in
      (parts.1 ∙ ap (λ n. n.0) chosen, parts.0 ∙ ap (λ n. entered i n.1 w.base) chosen)

woken-Fits :
    (Rec : Bool → Type 0) (k timed : Bool) (n seq now d : ℕ) (e : Errno) (a : Activity) (p : Phase)
    → p ≡ woken k timed n seq e
    → Fits Rec now d a p
    → (a ≡ running) × (d + 1 ≡ n)
woken-Fits Rec k timed n seq now d e a p q f =
    let g : Fits Rec now d a (woken k timed n seq e) = subst (Fits Rec now d a) q f in (g.1, g.2)

-- A thread with a level of the mutex owns it.
free_without :
    {s t : System} (i : ℕ)
    → IsInitial s
    → Reach s t
    → IsTid i
    → (t.thread i).pc ≡ running
    → t.mem.state ≡ 0
    → (t.thread i).depth ≡ 0
free_without i start r u e z = ground (arith, (recursion_counts start r i u e).1, z)

-- In every state that a run of mutex calls, waits and broadcasts gets to from a free mutex: where a
-- waiter has been woken, or refused by the kernel, after a broadcast has counted past its sequence
-- number, or its deadline has passed, and the mutex is free, the wait returns after six steps of its
-- own, with 0 in the first case and ETIMEDOUT in the second, and the waiter has the mutex at level 1.
woken_returns :
    {w v : World} (i : ℕ) (k timed : Bool) (n seq : ℕ) (e due : Errno)
    → IsStart w
    → Run w v
    → IsTid i
    → v.phase i ≡ woken k timed n seq e
    → IsDue timed seq v.cond.seq e due
    → v.base.mem.state ≡ 0
    → ((resumed i v).phase i ≡ finished (returns due))
      × ((resumed i v).base.thread i ≡ record { depth = 1; pc = running })
      × ((resumed i v).base.mem.state ≡ i)
unfolding called
woken_returns {w} {v = v} i k timed n seq e due begun r t p' s z =
    let whole = Run-Whole begun r in
    let (idle, level) =
      woken-Fits (RecursiveTo w) k timed n seq v.cond.seq _ e _ (v.phase i) p' (whole.0.each i t) in
    let none_left = free_without i begun.initial whole.1 t idle z in
    let one : n ≡ 1 = omega (arith, level, none_left) in
    let p : v.phase i ≡ woken k timed 1 seq e =
      subst (λ l. v.phase i ≡ woken k timed l seq e) one p' in
    let before = enters i k timed seq e due v idle p in
    let reach : Reach _ (called i (Call.lock k) v.base) = next whole.1 (
      Threads.calls i (Call.lock k) t idle
        (λ h. absurd (omega (arith, none_left)), omega (arith, none_left))) in
    let locked =
      free_lock_returns i k (LockPc.attempt 0) begun.initial reach t
        (ap (λ u. u.pc) (update_self v.base.thread i _)) z in
    let back : (relocked 4 i (acted i v)).base.thread i ≡ record { depth = 1; pc = running } =
      ap (λ b. (solo 4 i b).thread i) before.0 ∙ locked.0 in
    let done =
      concludes i k timed seq e due (relocked 4 i (acted i v)) back before.1
        (subst (λ c. IsDue timed seq c.seq e due) (sym before.2) s) in
    (
      done.0,
      ap (λ b. b.thread i) done.1 ∙ back,
      ap (λ b. b.mem.state) done.1 ∙ (ap (λ b. (solo 4 i b).mem.state) before.0 ∙ locked.1),
    )
