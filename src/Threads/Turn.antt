-- ===== src/Threads/Turn.antt =====
-- One step of a thread keeps what the thread and the mutex promise.
use mlibc_glibc_compat.Prelude.{ℕ, ◌<◌, ◌≡◌, ◌≢◌, ◌⊎◌, inl, true, arith}
use mlibc_glibc_compat.Mutex.{Mutex, has_waiters}
use mlibc_glibc_compat.Mutex.Lock.{LockPc, lock_step}
use mlibc_glibc_compat.Mutex.Trylock.{try_step}
use mlibc_glibc_compat.Mutex.Unlock.{UnlockPc, unlock_step, unlock_woken}
use mlibc_glibc_compat.Threads.{
  Activity, running, locking, asleep, trying, unlocking, crashed, IsTid, Call, Permitted, begin,
  roused, turn, wakes,
}
use mlibc_glibc_compat.Threads.Invariant.{Shared, Local, Frame, pending, sleeps}

pub turn-Shared :
    (i : ℕ) (m : Mutex) (d : ℕ) (a : Activity)
    → IsTid i
    → Shared m
    → Local i m d a
    → Shared (turn i m d a).0
unfolding turn lock_step try_step unlock_step unlock_woken
turn-Shared i m d running t s l = s
turn-Shared i m d crashed t s l = s
turn-Shared i m d (asleep k e) t s l = s
turn-Shared i m d (locking k (LockPc.waiting e)) t s l = s
turn-Shared i m d (locking k (LockPc.attempt e)) t s l = ground arith
turn-Shared i m d (locking k LockPc.acquired) t s l = ground arith
turn-Shared i m d (locking k (LockPc.finished r)) t s l = s
turn-Shared i m d (trying k p) t s l = ground arith
turn-Shared i m d (unlocking k p) t s l = ground arith

pub turn-Frame :
    (i : ℕ) (m : Mutex) (d : ℕ) (a : Activity)
    → IsTid i
    → Shared m
    → Local i m d a
    → Frame i m (turn i m d a).0
unfolding turn lock_step try_step unlock_step unlock_woken
turn-Frame i m d running t s l = ground arith
turn-Frame i m d crashed t s l = ground arith
turn-Frame i m d (asleep k e) t s l = ground arith
turn-Frame i m d (locking k (LockPc.waiting e)) t s l = ground arith
turn-Frame i m d (locking k (LockPc.attempt e)) t s l = ground arith
turn-Frame i m d (locking k LockPc.acquired) t s l = ground arith
turn-Frame i m d (locking k (LockPc.finished r)) t s l = ground arith
turn-Frame i m d (trying k p) t s l = ground arith
turn-Frame i m d (unlocking k p) t s l = ground arith

pub turn-Local :
    (i : ℕ) (m : Mutex) (d : ℕ) (a : Activity)
    → IsTid i
    → Shared m
    → Local i m d a
    → let (m', t) = turn i m d a in Local i m' t.depth t.pc
unfolding turn lock_step try_step unlock_step unlock_woken
turn-Local i m d running t s l = ground arith
turn-Local i m d crashed t s l = ground arith
turn-Local i m d (asleep k e) t s l = ground arith
turn-Local i m d (locking k (LockPc.waiting e)) t s l = ground arith
turn-Local i m d (locking k (LockPc.attempt e)) t s l = ground arith
turn-Local i m d (locking k LockPc.acquired) t s l = ground arith
turn-Local i m d (locking k (LockPc.finished r)) t s l = ground arith
turn-Local i m d (trying k p) t s l = ground arith
turn-Local i m d (unlocking k p) t s l = ground arith

-- A step that takes the waiters bit away leaves its thread about to wake the sleepers.
pub turn-pending :
    (i : ℕ) (m : Mutex) (d : ℕ) (a : Activity)
    → has_waiters m.state ≡ true
    → let (m', t) = turn i m d a in (has_waiters m'.state ≡ true) ⊎ (pending t.pc ≡ true)
unfolding turn lock_step try_step unlock_step unlock_woken
turn-pending i m d running h = ground arith
turn-pending i m d crashed h = ground arith
turn-pending i m d (asleep k e) h = ground arith
turn-pending i m d (locking k (LockPc.waiting e)) h = ground arith
turn-pending i m d (locking k (LockPc.attempt e)) h = ground arith
turn-pending i m d (locking k LockPc.acquired) h = ground arith
turn-pending i m d (locking k (LockPc.finished r)) h = inl h
turn-pending i m d (trying k p) h = ground arith
turn-pending i m d (unlocking k p) h = ground arith

-- A thread that is about to wake the sleepers stays so until it does.
pub pending-turn :
    (i : ℕ) (m : Mutex) (d : ℕ) (a : Activity)
    → IsTid i
    → Local i m d a
    → pending a ≡ true
    → (wakes a ≡ true) ⊎ (pending (turn i m d a).1.pc ≡ true)
unfolding turn lock_step try_step unlock_step unlock_woken
pending-turn i m d (unlocking k (UnlockPc.check old)) t l h = ground arith
pending-turn i m d (unlocking k UnlockPc.wake) t l h = inl h
pending-turn i m d _ t l h = cc

-- A thread that goes to sleep has seen the waiters bit in the word.
pub turn-sleeps :
    (i : ℕ) (m : Mutex) (d : ℕ) (a : Activity)
    → Local i m d a
    → sleeps (turn i m d a).1.pc ≡ true
    → (sleeps a ≡ true) ⊎ (has_waiters (turn i m d a).0.state ≡ true)
unfolding turn lock_step try_step unlock_step unlock_woken
turn-sleeps i m d running l h = ground arith
turn-sleeps i m d crashed l h = ground arith
turn-sleeps i m d (asleep k e) l h = ground arith
turn-sleeps i m d (locking k (LockPc.waiting e)) l h = ground arith
turn-sleeps i m d (locking k (LockPc.attempt e)) l h = ground arith
turn-sleeps i m d (locking k LockPc.acquired) l h = ground arith
turn-sleeps i m d (locking k (LockPc.finished r)) l h = absurd l.local
turn-sleeps i m d (trying k p) l h = ground arith
turn-sleeps i m d (unlocking k p) l h = ground arith

-- What another thread's step leaves of a thread's promises.
pub Local-Frame :
    (i j : ℕ) (m m' : Mutex) (d : ℕ) (a : Activity)
    → 0 < j
    → j ≢ i
    → Frame i m m'
    → Local j m d a
    → Local j m' d a
Local-Frame i j m m' d a p n f l = ground (arith, f.owner_kept j p n, f.level_kept j p n)

pub Local-roused :
    (i : ℕ) (m : Mutex) (d : ℕ) (a : Activity) → IsTid i → Local i m d a → Local i m d (roused a)
Local-roused i m d (asleep k e) t l = ground arith
Local-roused i m d _ t l = l

pub Local-begin :
    (i : ℕ) (m : Mutex) (d : ℕ) (c : Call)
    → IsTid i
    → Permitted m d c
    → Local i m d running
    → Local i m d (begin c)
Local-begin i m d c t p l = ground arith
