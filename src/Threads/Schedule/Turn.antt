-- ===== src/Threads/Schedule/Turn.antt =====
-- What one step of a thread takes from the measure of a schedule.
use mlibc_glibc_compat.Prelude.{ℕ, ◌+◌, ◌<◌, ◌≤◌, ◌≡◌, ◌⊎◌, refl, true, false, arith}
use mlibc_glibc_compat.Mutex.{Mutex}
use mlibc_glibc_compat.Mutex.Lock.{LockPc, lock_step}
use mlibc_glibc_compat.Mutex.Trylock.{try_step}
use mlibc_glibc_compat.Mutex.Unlock.{unlock_step, unlock_woken}
use mlibc_glibc_compat.Threads.{
  Activity, running, locking, asleep, trying, unlocking, crashed, Thread, IsTid, roused, turn,
  wakes,
}
use mlibc_glibc_compat.Threads.Invariant.{Shared, Local}
use mlibc_glibc_compat.Threads.Schedule.{busy, changes_of_word, changes_by, steps_at}

-- A step changes the word or calls the wake, and then one such change less is left; or all stays, and
-- the thread has one step less.
abbrev pub Falls : Mutex → Activity → Mutex × Thread → Type 0
Falls m a r =
    (changes_by r.1.pc + changes_of_word r.0.state < changes_by a + changes_of_word m.state)
    ⊎ ((r.0.state ≡ m.state)
        × (wakes a ≡ false)
        × (changes_by r.1.pc ≤ changes_by a)
        × (steps_at m.state r.1.pc < steps_at m.state a))

pub turn-Falls :
    (i : ℕ) (m : Mutex) (d : ℕ) (a : Activity)
    → IsTid i
    → Shared m
    → Local i m d a
    → busy a ≡ true
    → Falls m a (turn i m d a)
unfolding turn lock_step try_step unlock_step unlock_woken
turn-Falls i m d running t s l b = cc
turn-Falls i m d crashed t s l b = cc
turn-Falls i m d (asleep k e) t s l b = cc
turn-Falls i m d (locking k (LockPc.waiting e)) t s l b = ground arith
turn-Falls i m d (locking k (LockPc.attempt e)) t s l b = ground arith
turn-Falls i m d (locking k LockPc.acquired) t s l b = ground arith
turn-Falls i m d (locking k (LockPc.finished r)) t s l b = absurd l.local
turn-Falls i m d (trying k p) t s l b = ground arith
turn-Falls i m d (unlocking k p) t s l b = ground arith

-- A thread with no step to make stays as it is.
pub idle-turn :
    (i : ℕ) (m : Mutex) (d : ℕ) (a : Activity)
    → busy a ≡ false
    → (turn i m d a ≡ (m, record { depth = d; pc = a })) × (wakes a ≡ false)
unfolding turn
idle-turn i m d running b = (refl, refl)
idle-turn i m d crashed b = (refl, refl)
idle-turn i m d (asleep k e) b = (refl, refl)
idle-turn i m d _ b = cc

pub steps_at_bound : (word : ℕ) (a : Activity) → steps_at word a ≤ 6
steps_at_bound word a = ground arith

pub changes_by_bound : (a : Activity) → changes_by a ≤ 4
changes_by_bound a = ground arith

pub changes_by-roused : (a : Activity) → changes_by (roused a) ≡ changes_by a
changes_by-roused (asleep k e) = refl
changes_by-roused a = ground arith
