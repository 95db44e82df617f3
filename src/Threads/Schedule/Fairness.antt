-- ===== src/Threads/Schedule/Fairness.antt =====
-- Under a fair schedule every call returns or sleeps (src/mlibc_thread.cpp).
use mlibc_glibc_compat.Prelude.{
  ℕ, ◌+◌, ◌*◌, ◌^◌, ◌<◌, ◌≤◌, ◌≡◌, ◌≢◌, ◌⊎◌, inl, inr, refl, ap, ◌∙◌, if◌then◌else◌, Bool-cases,
  true, false, List, length, arith, dec_lt,
}
use mlibc_glibc_compat.Mutex.{owner_of}
use mlibc_glibc_compat.Threads.{
  Activity, running, crashed, Thread, System, IsTid, IsInitial, Reach, turned, wakes, roused,
}
use mlibc_glibc_compat.Threads.Invariant.{holds, pending, sleeps}
use mlibc_glibc_compat.Threads.Progress.{turned_other}
use mlibc_glibc_compat.Threads.Safety.{no_assertion_fails, no_lost_wakeup, recursion_counts}
use mlibc_glibc_compat.Threads.Rounds.{
  IsProgress, AllRounds, follow_rounds, follow_rounds-kept, rounds_end,
}
use mlibc_glibc_compat.Threads.Schedule.{busy, is_busy, measure}
use mlibc_glibc_compat.Threads.Schedule.Measure.{turned-IsProgress, measure_bound}

-- States that are reached from a free mutex, with the threads from `n + 1` on in the program.
abbrev pub OthersRunning : (n : ℕ) → System → Type 0
OthersRunning n s = (j : ℕ) → n < j → (s.thread j).pc ≡ running

abbrev Settles : (n : ℕ) → (start : System) → System → Type 0
Settles n s t = Reach s t × OthersRunning n t

turned-Others : (n i : ℕ) (s : System) → i ≤ n → OthersRunning n s → OthersRunning n (turned i s)
turned-Others n i s high o j more =
    let kept = turned_other j i s (λ e. omega (arith, e)) in
    elim (Bool-cases (wakes (s.thread i).pc)) [
      | inl b ↦ ap (λ (t : Thread). t.pc) kept ∙ rw (b, if◌then◌else◌) (ap roused (o j more))
      | inr b ↦ ap (λ (t : Thread). t.pc) kept ∙ rw (b, if◌then◌else◌) (o j more)
    ]

settling-IsProgress :
    (n : ℕ) (s : System)
    → IsInitial s
    → n < 2 ^ 30
    → IsProgress n turned is_busy (measure n) (Settles n s)
settling-IsProgress n s start small =
    let progress = turned-IsProgress n s start small in
    record {
      kept = λ i t low high g. (progress.kept i t low high g.0, turned-Others n i t high g.1);
      falls = λ i t low high g. progress.falls i t low high g.0;
      idles = progress.idles;
    }

pub settled : (a : Activity) → busy a ≡ false → sleeps a ≡ false → a ≢ crashed → a ≡ running
settled running b s c = refl
settled crashed b s c = absurd (c refl)
settled (Activity.asleep k e) b s c = cc
settled _ b s c = cc

-- A thread between two calls that is to free the mutex has a level of it.
pub has_level :
    (d : ℕ) (a : Activity) → a ≡ running → (holds d a ≡ true) ⊎ (pending a ≡ true) → 0 < d
has_level d running e h = ground arith
has_level d _ e h = cc

-- In every state that is reached from a free mutex by permitted calls, where the threads from `n + 1` on
-- are between two calls: let the threads 1 to `n` make steps in any order, with no new call and no wait
-- ended by nothing, but each a step in every round. After (6 n + 1)(4 n + 2) + 6 n rounds each of them has
-- returned from its call, or sleeps; and where one sleeps, a thread has the mutex that is between two
-- calls. So the calls neither block nor delay one another for ever: who waits does so for the program.
pub fair_schedules_settle :
    {s t : System} (n : ℕ) (rs : List (List ℕ))
    → IsInitial s
    → Reach s t
    → n < 2 ^ 30
    → OthersRunning n t
    → AllRounds n rs
    → (6 * n + 1) * (4 * n + 2) + 6 * n ≤ length rs
    → (i : ℕ) → 0 < i
    → i ≤ n
    → let u = follow_rounds turned rs t in
      ((u.thread i).pc ≡ running)
      ⊎ ((sleeps (u.thread i).pc ≡ true)
          × ((j : ℕ) × IsTid j
              × ((u.thread j).pc ≡ running)
              × (0 < (u.thread j).depth)
              × (owner_of u.mem.state ≡ j)))
fair_schedules_settle {s} {t} n rs start r small out w long i low high =
    let u = follow_rounds turned rs t in
    let progress = settling-IsProgress n s start small in
    let good = follow_rounds-kept progress rs t w (r, out) in
    let quiet = rounds_end progress rs t w (r, out) (omega (arith, measure_bound n t, long)) in
    let reach = good.0 in
    let back : (j : ℕ) → IsTid j → sleeps (u.thread j).pc ≡ false → (u.thread j).pc ≡ running =
      λ j v awake. elim (dec_lt n j) [
        | yes more ↦ good.1 j more
        | no few ↦
            settled (u.thread j).pc (quiet j v.0 (omega (arith, few))) awake
              (no_assertion_fails start reach j v)
      ] in
    elim (Bool-cases (sleeps (u.thread i).pc)) [
      | inr awake ↦ inl (back i (low, omega arith) awake)
      | inl asleep ↦
          let (j, v, awake, has) = (no_lost_wakeup start reach i (low, omega arith) asleep).1 in
          let home = back j v awake in
          let level = has_level (u.thread j).depth (u.thread j).pc home has in
          inr (asleep, (j, v, home, level, (recursion_counts start reach j v home).1 level))
    ]
