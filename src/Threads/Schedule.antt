-- ===== src/Threads/Schedule.antt =====
-- Schedules: the steps of threads that are in calls of the mutex, in any order, with no new call in
-- between (src/mlibc_thread.cpp).
mod Turn
pub mod Sums
pub mod Measure
pub mod Fairness
use mlibc_glibc_compat.Prelude.{
  ℕ, zero, suc, ◌+◌, ◌*◌, ◌≤◌, ◌<◌, ◌≡◌, Bool, true, false, List, [], ◌∷◌, ◌==◌, if◌then◌else◌,
}
use mlibc_glibc_compat.Mutex.{has_waiters}
use mlibc_glibc_compat.Mutex.Lock.{LockPc}
use mlibc_glibc_compat.Mutex.Trylock.{TryPc}
use mlibc_glibc_compat.Mutex.Unlock.{UnlockPc}
use mlibc_glibc_compat.Threads.{
  Activity, running, locking, asleep, trying, unlocking, crashed, System, turned,
}

-- A thread with a step to make: it is in a call, and does not sleep.
abbrev pub busy : Activity → Bool
busy running = false
busy (asleep k e) = false
busy crashed = false
busy (locking k p) = true
busy (trying k p) = true
busy (unlocking k p) = true

-- How often the word can still change, or a wake be called: by the word itself, which is taken once it
-- is free and marked once it is taken, and by a thread that is to free it and to wake.
abbrev pub changes_of_word : (word : ℕ) → ℕ
changes_of_word word = if word == 0 then 2 else if has_waiters word then 0 else 1

abbrev pub changes_by : Activity → ℕ
changes_by (unlocking k UnlockPc.release) = 4
changes_by (unlocking k UnlockPc.exchange) = 4
changes_by (unlocking k (UnlockPc.check old)) = 1
changes_by (unlocking k UnlockPc.wake) = 1
changes_by _ = 0

-- The steps that a thread can make while the word stays as it is, and no wake is called.
abbrev pub steps_at : (word : ℕ) → Activity → ℕ
steps_at word (locking k (LockPc.attempt e)) = if e == word then 3 else if e == 0 then 4 else 6
steps_at word (locking k (LockPc.waiting e)) = if e == word then 1 else 5
steps_at word (locking k LockPc.acquired) = 1
steps_at word (trying k TryPc.load) = 2
steps_at word (trying k (TryPc.observed e)) = 1
steps_at word (trying k TryPc.acquired) = 1
steps_at word (unlocking k UnlockPc.release) = 3
steps_at word (unlocking k UnlockPc.exchange) = 2
steps_at word (unlocking k (UnlockPc.check old)) = 2
steps_at word (unlocking k UnlockPc.wake) = 1
steps_at word _ = 0

abbrev pub is_busy : ℕ → System → Bool
is_busy i s = busy (s.thread i).pc

-- The sum over the threads 1 to `n`.
abbrev pub total : (n : ℕ) → (ℕ → ℕ) → ℕ
total zero f = 0
total (suc n) f = f (suc n) + total n f

abbrev pub changes_left : (n : ℕ) → System → ℕ
changes_left n s = total n (λ i. changes_by (s.thread i).pc) + changes_of_word s.mem.state

abbrev pub steps_left : (n : ℕ) → System → ℕ
steps_left n s = total n (λ i. steps_at s.mem.state (s.thread i).pc)

abbrev pub measure : (n : ℕ) → System → ℕ
measure n s = (6 * n + 1) * changes_left n s + steps_left n s

-- Enough for any state of `n` threads.
abbrev pub most_steps : (n : ℕ) → ℕ
most_steps n = (6 * n + 1) * (4 * n + 2) + 6 * n
