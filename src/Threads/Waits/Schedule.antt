-- ===== src/Threads/Waits/Schedule.antt =====
-- Schedules of threads in calls of the mutex and of the condition, with no new call in between
-- (src/mlibc_thread.cpp).
mod Phases
mod Measure
pub mod Others
pub mod Fairness
use mlibc_glibc_compat.Prelude.{ℕ, ◌+◌, ◌*◌, Bool, true, false, not, ltb, if◌then◌else◌}
use mlibc_glibc_compat.Errno.{Errno}
use mlibc_glibc_compat.Threads.{Activity, running, turned}
use mlibc_glibc_compat.Threads.Schedule.{busy, total, measure, most_steps}
use mlibc_glibc_compat.Threads.Waits.{
  Phase, outside, releasing, sleeping, woken, relocking, announcing, finished, World, is_running,
  acted,
}

-- A phase from which a step leads on, once the mutex call, if any, has returned.
abbrev pub moves_on : Phase → Bool
moves_on outside = false
moves_on (sleeping k timed n seq) = false
moves_on (finished r) = false
moves_on (releasing k timed n seq) = true
moves_on (woken k timed n seq e) = true
moves_on (relocking k timed n seq e) = true
moves_on announcing = true

-- The next step of thread `i`: of its mutex call, if it is in one, and of its call on the condition
-- otherwise.
unfoldable pub moved : ℕ → World → World
unfolding turned acted
moved i w = if busy (w.base.thread i).pc then record w { base = turned i w.base } else acted i w

-- A thread with a step to make.
abbrev pub is_active : ℕ → World → Bool
is_active i w =
    if busy (w.base.thread i).pc
    then true
    else if is_running (w.base.thread i).pc
    then moves_on (w.phase i)
    else false

-- An answer of the futex after which the wait goes round once more.
abbrev pub goes_round : (seq now : ℕ) → Errno → Bool
goes_round seq now Errno.success = not (ltb seq now)
goes_round seq now Errno.eintr = true
goes_round seq now _ = false

-- The steps of a call on the condition that are left to a thread, where none of its sleeps ends but by a
-- broadcast's wake; that may lead each of `n` threads through five steps more.
abbrev pub phase_steps : (n now : ℕ) → Phase → ℕ
phase_steps n now (releasing k timed l seq) = 3
phase_steps n now (woken k timed l seq e) = if goes_round seq now e then 5 else 2
phase_steps n now (relocking k timed l seq e) = if goes_round seq now e then 4 else 1
phase_steps n now announcing = n * 5 + 1
phase_steps n now _ = 0

abbrev pub phases_left : (n : ℕ) → World → ℕ
phases_left n w = total n (λ i. phase_steps n w.cond.seq (w.phase i))

-- More than a new call of the mutex adds to the steps that are left in its calls.
abbrev pub call_cost : (n : ℕ) → ℕ
call_cost n = (6 * n + 1) * 4 + 7

abbrev pub world_measure : (n : ℕ) → World → ℕ
world_measure n w = call_cost n * phases_left n w + measure n w.base

-- Enough for any state of `n` threads.
abbrev pub most_moves : (n : ℕ) → ℕ
most_moves n = call_cost n * (n * (n * 5 + 5)) + most_steps n
