-- ===== src/Threads/Progress.antt =====
-- A thread in `pthread_mutex_lock` makes progress by its own steps where the mutex is free
-- (src/mlibc_thread.cpp).
use mlibc_glibc_compat.Prelude.{
  ℕ, zero, suc, ◌≡◌, ◌≢◌, refl, sym, arith, ◌∙◌, ap, Bool, Bool-cases, inl, inr, update_other,
  if◌then◌else◌,
}
use mathlib.Core.Path.{subst}
use mlibc_glibc_compat.Mutex.{Mutex}
use mlibc_glibc_compat.Mutex.Lock.{LockPc, lock_step}
use mlibc_glibc_compat.Threads.{
  running, locking, Thread, System, IsTid, IsInitial, Reach, turn, turned, wakes, rouse, roused,
  Activity,
}
use mlibc_glibc_compat.Threads.Invariant.{Shared, Local}
use mlibc_glibc_compat.Threads.Steps.{Reach-Inv}

-- `n` steps of thread `i`, with no step of another in between.
abbrev pub solo : (n i : ℕ) → System → System
solo zero i s = s
solo (suc n) i s = solo n i (turned i s)

-- The same, of the mutex and the thread's own state alone.
abbrev pub run : (n i : ℕ) → Mutex → Thread → Mutex × Thread
run zero i m t = (m, t)
run (suc n) i m t = let (m', t') = turn i m t.depth t.pc in run n i m' t'

pub turned_self :
    (i : ℕ) (s : System)
    → (turned i s).thread i ≡ (turn i s.mem (s.thread i).depth (s.thread i).pc).1
unfolding turned
turned_self i s = ground arith

pub turned_other :
    (i j : ℕ) (s : System)
    → i ≢ j
    → (turned j s).thread i ≡ (if wakes (s.thread j).pc then rouse (s.thread i) else s.thread i)
unfolding turned
turned_other i j s n = elim (Bool-cases (wakes (s.thread j).pc)) [
  | inl y ↦ rw (y, if◌then◌else◌) (update_other (λ k. rouse (s.thread k)) j _ i n)
  | inr f ↦ rw (f, if◌then◌else◌) (update_other s.thread j _ i n)
]

-- A number read of every thread, which no wake changes, is kept at the other threads.
pub turned_kept :
    (f : Activity → ℕ) (i j : ℕ) (s : System)
    → ((a : Activity) → f (roused a) ≡ f a)
    → j ≢ i
    → f ((turned i s).thread j).pc ≡ f (s.thread j).pc
turned_kept f i j s h n = elim (Bool-cases (wakes (s.thread i).pc)) [
  | inl w ↦
      ap (λ (t : Thread). f t.pc) (turned_other j i s n) ∙ rw (w, if◌then◌else◌) (h (s.thread j).pc)
  | inr w ↦ ap (λ (t : Thread). f t.pc) (turned_other j i s n) ∙ rw (w, if◌then◌else◌)
]

pub solo-run :
    (n i : ℕ) (s : System)
    → ((solo n i s).mem ≡ (run n i s.mem (s.thread i)).0)
      × ((solo n i s).thread i ≡ (run n i s.mem (s.thread i)).1)
unfolding turned
solo-run zero i s = (refl, refl)
solo-run (suc n) i s =
    let m' = (turn i s.mem (s.thread i).depth (s.thread i).pc).0 in
    subst
      (λ t.
        ((solo n i (turned i s)).mem ≡ (run n i m' t).0)
        × ((solo n i (turned i s)).thread i ≡ (run n i m' t).1))
      (turned_self i s) (solo-run n i (turned i s))

-- What the thread and the mutex are to be in the end.
abbrev Locked : ℕ → Mutex × Thread → Type 0
Locked i r = (r.1 ≡ record { depth = 1; pc = running }) × (r.0.state ≡ i) × (r.0.recursion ≡ 1)

run-Locked :
    (i : ℕ) (m : Mutex) (d : ℕ) (k : Bool) (p : LockPc)
    → IsTid i
    → Shared m
    → m.state ≡ 0
    → Local i m d (locking k p)
    → Locked i (run 4 i m (record { depth = d; pc = locking k p }))
unfolding turn lock_step
run-Locked i m d k (LockPc.attempt e) t s z l = ground arith
run-Locked i m d k LockPc.acquired t s z l = ground arith
run-Locked i m d k (LockPc.waiting e) t s z l = ground arith
run-Locked i m d k (LockPc.finished r) t s z l = absurd l.local

-- In every state that is reached from a free mutex by permitted calls, whatever the other threads were
-- doing: where the mutex is free and a thread is anywhere in a call of lock, but not asleep, at most
-- four steps of its own take it out of the call, with the mutex owned by it at level 1.
pub free_lock_returns :
    {s t : System} (i : ℕ) (k : Bool) (p : LockPc)
    → IsInitial s
    → Reach s t
    → IsTid i
    → (t.thread i).pc ≡ locking k p
    → t.mem.state ≡ 0
    → ((solo 4 i t).thread i ≡ record { depth = 1; pc = running })
      × ((solo 4 i t).mem.state ≡ i)
      × ((solo 4 i t).mem.recursion ≡ 1)
free_lock_returns {t = t} i k p start r u e z =
    let inv = Reach-Inv start r in
    let d = (t.thread i).depth in
    let local : Local i t.mem d (locking k p) = subst (λ a. Local i t.mem d a) e (inv.each i u) in
    let ends : Locked i (run 4 i t.mem (t.thread i)) =
      subst (λ a. Locked i (run 4 i t.mem (record { depth = d; pc = a }))) (sym e)
        (run-Locked i t.mem d k p u inv.shared z local) in
    let same = solo-run 4 i t in
    (same.1 ∙ ends.0, ap (λ m. m.state) same.0 ∙ ends.1, ap (λ m. m.recursion) same.0 ∙ ends.2)
