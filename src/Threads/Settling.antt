-- ===== src/Threads/Settling.antt =====
-- A thread in `pthread_mutex_lock` does not spin where another has the mutex (src/mlibc_thread.cpp).
use mlibc_glibc_compat.Prelude.{
  ℕ, zero, suc, Bool-cases, inl, inr, ℕ_discrete, ◌≡◌, ◌≢◌, refl, sym, arith, ◌∙◌, ap, Bool, true,
}
use mathlib.Core.Path.{subst}
use mlibc_glibc_compat.Mutex.{Mutex, owner_of, has_waiters, with_waiters}
use mlibc_glibc_compat.Mutex.Lock.{LockPc, lock_step}
use mlibc_glibc_compat.Threads.{locking, asleep, Thread, System, IsTid, IsInitial, Reach, turn}
use mlibc_glibc_compat.Threads.Invariant.{Shared, Local, sleeps, IsWord}
use mlibc_glibc_compat.Threads.Steps.{Reach-Inv}
use mlibc_glibc_compat.Threads.Progress.{solo, run, solo-run}

-- The thread sleeps at no level, and the mutex is `owner`'s, with the waiters bit.
abbrev Sleeps : (owner : ℕ) → Mutex × Thread → Type 0
Sleeps owner r =
    (sleeps r.1.pc ≡ true) × (owner_of r.0.state ≡ owner) × (has_waiters r.0.state ≡ true)

asleep_stays :
    (n i : ℕ) (m : Mutex) (d : ℕ) (k : Bool) (e : ℕ)
    → run n i m (record { depth = d; pc = asleep k e }) ≡ (m, record { depth = d; pc = asleep k e })
unfolding turn
asleep_stays zero i m d k e = refl
asleep_stays (suc n) i m d k e = asleep_stays n i m d k e

module _ (i d : ℕ) (k : Bool) where
  abbrev at : LockPc → Thread
  at p = record { depth = d; pc = locking k p }

  -- The mutex is another thread's.
  abbrev IsOthers : Mutex → Type 0
  IsOthers m = IsWord m.state × (owner_of m.state ≢ 0) × (owner_of m.state ≢ i)

  -- The first of several steps.
  first :
      (n owner : ℕ) (m m' : Mutex) (p : LockPc) (t : Thread)
      → turn i m d (locking k p) ≡ (m', t)
      → Sleeps owner (run n i m' t)
      → Sleeps owner (run (suc n) i m (at p))
  first n owner m m' p t e s = subst (Sleeps owner) (sym (ap (λ r. run n i r.0 r.1) e)) s

  from_waiting :
      (n : ℕ) (m : Mutex)
      → has_waiters m.state ≡ true
      → Sleeps (owner_of m.state) (run (suc n) i m (at (LockPc.waiting m.state)))
  unfolding turn
  from_waiting n m b =
      first n (owner_of m.state) m m (LockPc.waiting m.state)
        (record { depth = d; pc = asleep k m.state }) (ground arith)
        (rw (asleep_stays n i m d k m.state) (refl, refl, b))

  from_marked :
      (n : ℕ) (m : Mutex)
      → IsOthers m
      → has_waiters m.state ≡ true
      → Sleeps (owner_of m.state) (run (suc (suc n)) i m (at (LockPc.attempt m.state)))
  unfolding turn lock_step
  from_marked n m o b =
      first (suc n) (owner_of m.state) m m (LockPc.attempt m.state) (at (LockPc.waiting m.state))
        (ground arith) (from_waiting n m b)

  from_seen :
      (n : ℕ) (m : Mutex)
      → IsOthers m
      → Sleeps (owner_of m.state) (run (suc (suc (suc n))) i m (at (LockPc.attempt m.state)))
  unfolding turn lock_step
  from_seen n m o = elim (Bool-cases (has_waiters m.state)) [
    | inl b ↦ from_marked (suc n) m o b
    | inr f ↦
        let marked = with_waiters m.state in
        let same : owner_of marked ≡ owner_of m.state = ground (arith, f) in
        let set : has_waiters marked ≡ true = ground (arith, f) in
        let still : IsOthers (record m { state = marked }) = ground (arith, f) in
        first (suc (suc n)) (owner_of m.state) m (record m { state = marked })
          (LockPc.attempt m.state) (at (LockPc.attempt marked)) (ground (arith, f))
          (subst
            (λ o'.
              Sleeps o'
                (run (suc (suc n)) i (record m { state = marked }) (at (LockPc.attempt marked))))
            same (from_marked n (record m { state = marked }) still set))
  ]

  from_zero :
      (n : ℕ) (m : Mutex)
      → IsOthers m
      → Sleeps (owner_of m.state) (run (suc (suc (suc (suc n)))) i m (at (LockPc.attempt 0)))
  unfolding turn lock_step
  from_zero n m o =
      first (suc (suc (suc n))) (owner_of m.state) m m (LockPc.attempt 0)
        (at (LockPc.attempt m.state)) (ground arith) (from_seen n m o)

  from_stale :
      (m : Mutex) (e : ℕ)
      → IsOthers m
      → e ≢ 0
      → e ≢ m.state
      → owner_of e ≢ i
      → Sleeps (owner_of m.state) (run 6 i m (at (LockPc.attempt e)))
  unfolding turn lock_step
  from_stale m e o z s own = elim (Bool-cases (has_waiters e)) [
    | inl b ↦
        first 5 (owner_of m.state) m m (LockPc.attempt e) (at (LockPc.waiting e))
          (ground (arith, b))
          (first 4 (owner_of m.state) m m (LockPc.waiting e) (at (LockPc.attempt 0)) (ground arith)
            (from_zero 0 m o))
    | inr f ↦
        first 5 (owner_of m.state) m m (LockPc.attempt e) (at (LockPc.attempt m.state))
          (ground (arith, f)) (from_seen 2 m o)
  ]

  from_attempt :
      (m : Mutex) (e : ℕ)
      → IsOthers m
      → owner_of e ≢ i
      → Sleeps (owner_of m.state) (run 6 i m (at (LockPc.attempt e)))
  unfolding ℕ_discrete
  from_attempt m e o own = elim (ℕ_discrete e 0) [
    | yes z ↦
        subst (λ x. Sleeps (owner_of m.state) (run 6 i m (at (LockPc.attempt x)))) (sym z)
          (from_zero 2 m o)
    | no z ↦ elim (ℕ_discrete e m.state) [
      | yes s ↦
          subst (λ x. Sleeps (owner_of m.state) (run 6 i m (at (LockPc.attempt x)))) (sym s)
            (from_seen 3 m o)
      | no s ↦ from_stale m e o z s own
    ]
  ]

  from_wait :
      (m : Mutex) (e : ℕ)
      → IsOthers m
      → has_waiters e ≡ true
      → Sleeps (owner_of m.state) (run 6 i m (at (LockPc.waiting e)))
  unfolding ℕ_discrete turn
  from_wait m e o b = elim (ℕ_discrete e m.state) [
    | yes s ↦
        subst (λ x. Sleeps (owner_of m.state) (run 6 i m (at (LockPc.waiting x)))) (sym s)
          (from_waiting 5 m (subst (λ x. has_waiters x ≡ true) s b))
    | no s ↦
        first 5 (owner_of m.state) m m (LockPc.waiting e) (at (LockPc.attempt 0)) (ground arith)
          (from_zero 1 m o)
  ]

run-Sleeps :
    (i : ℕ) (m : Mutex) (d : ℕ) (k : Bool) (p : LockPc)
    → IsTid i
    → Shared m
    → owner_of m.state ≢ 0
    → owner_of m.state ≢ i
    → Local i m d (locking k p)
    → Sleeps (owner_of m.state) (run 6 i m (record { depth = d; pc = locking k p }))
run-Sleeps i m d k (LockPc.attempt e) t s z o l =
    from_attempt i d k m e (s.word, z, o) (λ own. ground (arith, l.local, l.owns, own))
run-Sleeps i m d k LockPc.acquired t s z o l = absurd (o (l.owns.0 refl))
run-Sleeps i m d k (LockPc.waiting e) t s z o l = from_wait i d k m e (s.word, z, o) l.local.1
run-Sleeps i m d k (LockPc.finished r) t s z o l = absurd l.local

-- In every state that is reached from a free mutex by permitted calls: where another thread has the
-- mutex, and a thread is anywhere in a call of lock, at most six steps of its own bring it to sleep, and
-- then the word has the waiters bit and the same owner. With `free_lock_returns`, a call of lock does not
-- spin: left alone, it returns or sleeps.
held_lock_sleeps :
    {s t : System} (i : ℕ) (k : Bool) (p : LockPc)
    → IsInitial s
    → Reach s t
    → IsTid i
    → (t.thread i).pc ≡ locking k p
    → owner_of t.mem.state ≢ 0
    → owner_of t.mem.state ≢ i
    → (sleeps ((solo 6 i t).thread i).pc ≡ true)
      × (owner_of (solo 6 i t).mem.state ≡ owner_of t.mem.state)
      × (has_waiters (solo 6 i t).mem.state ≡ true)
held_lock_sleeps {t = t} i k p start r u e z o =
    let inv = Reach-Inv start r in
    let d = (t.thread i).depth in
    let local : Local i t.mem d (locking k p) = subst (λ a. Local i t.mem d a) e (inv.each i u) in
    let owner = owner_of t.mem.state in
    let ends : Sleeps owner (run 6 i t.mem (t.thread i)) =
      subst (λ a. Sleeps owner (run 6 i t.mem (record { depth = d; pc = a }))) (sym e)
        (run-Sleeps i t.mem d k p u inv.shared z o local) in
    let same = solo-run 6 i t in
    (
      ap (λ (x : Thread). sleeps x.pc) same.1 ∙ ends.0,
      ap (λ (m : Mutex). owner_of m.state) same.0 ∙ ends.1,
      ap (λ (m : Mutex). has_waiters m.state) same.0 ∙ ends.2,
    )
