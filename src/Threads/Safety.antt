-- ===== src/Threads/Safety.antt =====
-- What holds in every state that threads reach by calls of lock, trylock and unlock on one mutex
-- (src/mlibc_thread.cpp), for any number of threads.
use mlibc_glibc_compat.Prelude.{ℕ, ◌<◌, ◌≡◌, ◌≢◌, ◌⊎◌, inl, inr, true, false, arith, refl, sym, ◌∙◌}
use mlibc_glibc_compat.Mutex.{Mutex, owner_of}
use mlibc_glibc_compat.Mutex.Lock.{LockPc}
use mlibc_glibc_compat.Mutex.Trylock.{TryPc}
use mlibc_glibc_compat.Threads.{
  Activity, running, locking, asleep, trying, crashed, System, IsTid, IsInitial, Reach,
}
use mlibc_glibc_compat.Threads.Invariant.{Local, holds, pending, sleeps}
use mlibc_glibc_compat.Threads.Steps.{Reach-Inv}

holds_of_depth : (d : ℕ) (a : Activity) → 0 < d → holds d a ≡ true
holds_of_depth d (locking k LockPc.acquired) h = refl
holds_of_depth d (locking k p) h = ground arith
holds_of_depth d (trying k TryPc.acquired) h = refl
holds_of_depth d (trying k p) h = ground arith
holds_of_depth d _ h = ground arith

not_crashed : (i : ℕ) (t : System) (a : Activity) (d : ℕ) → Local i t.mem d a → a ≢ crashed
not_crashed i t crashed d l e = l.local
not_crashed i t running d l e = cc
not_crashed i t _ d l e = cc

asleep_without :
    (i : ℕ) (m : Mutex) (d : ℕ) (a : Activity) → Local i m d a → sleeps a ≡ true → d ≡ 0
asleep_without i m d (asleep k e) l h = l.local.0
asleep_without i m d _ l h = cc

holder_awake :
    (i : ℕ) (m : Mutex) (d : ℕ) (a : Activity) → Local i m d a → holds d a ≡ true → sleeps a ≡ false
holder_awake i m d (asleep k e) l h = ground (arith, l.local.0)
holder_awake i m d (locking k p) l h = refl
holder_awake i m d _ l h = refl

pending_awake : (a : Activity) → pending a ≡ true → sleeps a ≡ false
pending_awake (asleep k e) h = cc
pending_awake _ h = refl

module _ {s t : System} (start : IsInitial s) (r : Reach s t) where
  -- In every state that threads reach from a free mutex by permitted calls, in any interleaving of
  -- their steps: two threads that both have a level of the mutex are the same thread.
  pub mutual_exclusion :
      (i j : ℕ) → IsTid i → IsTid j → 0 < (t.thread i).depth → 0 < (t.thread j).depth → i ≡ j
  mutual_exclusion i j u v p q =
      sym (((Reach-Inv start r).each i u).owns.0 (holds_of_depth _ (t.thread i).pc p))
      ∙ ((Reach-Inv start r).each j v).owns.0 (holds_of_depth _ (t.thread j).pc q)

  -- In every state that is reached from a free mutex, for a thread that is between two calls: if
  -- it has a level, its levels are exactly what the mutex counts, and it owns the mutex exactly if it has
  -- a level.
  pub recursion_counts :
      (i : ℕ)
      → IsTid i
      → (t.thread i).pc ≡ running
      → (0 < (t.thread i).depth → t.mem.recursion ≡ (t.thread i).depth)
        × (0 < (t.thread i).depth → owner_of t.mem.state ≡ i)
        × (owner_of t.mem.state ≡ i → 0 < (t.thread i).depth)
  recursion_counts i u e = ground (arith, rw e at ((Reach-Inv start r).each i u))

  -- In no state that is reached from a free mutex by permitted calls has an assertion of the three
  -- calls failed, for any thread.
  pub no_assertion_fails : (i : ℕ) → IsTid i → (t.thread i).pc ≢ crashed
  no_assertion_fails i u = not_crashed i t _ _ ((Reach-Inv start r).each i u)

  -- In every state that is reached from a free mutex, a thread that sleeps in a call has no level of the
  -- mutex, so no thread waits for itself; and while a thread sleeps, there is a thread, not asleep, that
  -- owns the mutex, or that has given it up and is about to wake every sleeper. So no wakeup is lost,
  -- and the threads are never all asleep.
  pub no_lost_wakeup :
      (i : ℕ)
      → IsTid i
      → sleeps (t.thread i).pc ≡ true
      → ((t.thread i).depth ≡ 0)
        × ((j : ℕ) × IsTid j
            × (sleeps (t.thread j).pc ≡ false)
            × ((holds (t.thread j).depth (t.thread j).pc ≡ true)
                ⊎ (pending (t.thread j).pc ≡ true)))
  no_lost_wakeup i v h = (
    asleep_without i t.mem _ _ ((Reach-Inv start r).each i v) h,
    elim ((Reach-Inv start r).awaited i h) [
      | inl bit ↦
          let u : IsTid (owner_of t.mem.state) = ground (arith, (Reach-Inv start r).shared.word) in
          let local = (Reach-Inv start r).each _ u in
          (_, u, holder_awake _ t.mem _ _ local (local.owns.1 refl), inl (local.owns.1 refl))
      | inr (j, u, p) ↦ (j, u, pending_awake (t.thread j).pc p, inr p)
    ],
  )
