-- ===== src/Threads/Schedule/Measure.antt =====
-- A schedule makes only so many steps (src/mlibc_thread.cpp).
use mlibc_glibc_compat.Prelude.{
  ℕ, ◌+◌, ◌*◌, ◌^◌, ◌<◌, ◌≤◌, ◌≡◌, ◌≢◌, inl, inr, sym, ap, ◌∙◌, true, false, List, arith,
  if◌then◌else◌, ℕ_discrete, fun_ext,
}
use mathlib.Core.Path.{subst}
use native.Mathlib.Nat.{mul-le-mul_left}
use mlibc_glibc_compat.Threads.{
  next, Activity, running, Thread, System, IsTid, IsInitial, Reach, turn, turned, wakes, rouse,
  roused,
}
use mlibc_glibc_compat.Threads
use mlibc_glibc_compat.Threads.Invariant.{Inv}
use mlibc_glibc_compat.Threads.Steps.{Reach-Inv}
use mlibc_glibc_compat.Threads.Progress.{turned_self, turned_other, turned_kept}
use mlibc_glibc_compat.Threads.Rounds.{AllWithin, toil, IsProgress, toil-measure}
use mlibc_glibc_compat.Threads.Schedule.{
  busy, is_busy, changes_of_word, changes_by, steps_at, total, changes_left, steps_left, measure,
  most_steps,
}
use mlibc_glibc_compat.Threads.Schedule.Turn.{
  turn-Falls, idle-turn, steps_at_bound, changes_by_bound, changes_by-roused,
}
use mlibc_glibc_compat.Threads.Schedule.Sums.{total_bound, total_inside}

-- Where the step wakes nobody, all is kept at the other threads.
turned_quiet :
    (i j : ℕ) (s : System)
    → wakes (s.thread i).pc ≡ false
    → j ≢ i
    → (turned i s).thread j ≡ s.thread j
turned_quiet i j s w n = turned_other j i s n ∙ rw (w, if◌then◌else◌)

-- One change of the word outweighs the steps of all threads.
change_outweighs :
    (n c c' st st' : ℕ) → c' < c → st' ≤ n * 6 → (6 * n + 1) * c' + st' < (6 * n + 1) * c + st
change_outweighs n c c' st st' p q = grind arith

step_counts :
    (n c c' st st' : ℕ) → c' ≤ c → st' < st → (6 * n + 1) * c' + st' < (6 * n + 1) * c + st
step_counts n c c' st st' p q = grind arith

module _ (n i : ℕ) (s : System) (low : 0 < i) (high : i ≤ n) (small : n < 2 ^ 30)
    (inv : Inv s) where
  -- What a change at thread `i` makes of the sums.
  changes_sum :
      total n (λ j. changes_by ((turned i s).thread j).pc) + changes_by (s.thread i).pc
      ≤ total n (λ j. changes_by (s.thread j).pc) + changes_by ((turned i s).thread i).pc
  changes_sum =
      total_inside (λ j. changes_by (s.thread j).pc) (λ j. changes_by ((turned i s).thread j).pc) i
        (λ j m. omega (arith, turned_kept changes_by i j s changes_by-roused m)) n low high

  steps_sum :
      wakes (s.thread i).pc ≡ false
      → (turned i s).mem.state ≡ s.mem.state
      → steps_left n (turned i s) + steps_at s.mem.state (s.thread i).pc
        ≤ steps_left n s + steps_at s.mem.state ((turned i s).thread i).pc
  steps_sum w e =
      let sum =
        total_inside (λ j. steps_at s.mem.state (s.thread j).pc)
          (λ j. steps_at s.mem.state ((turned i s).thread j).pc) i
          (λ j m.
            omega (arith, ap (λ (t : Thread). steps_at s.mem.state t.pc) (turned_quiet i j s w m)))
          n low high in
      subst
        (λ word.
          total n (λ j. steps_at word ((turned i s).thread j).pc)
            + steps_at s.mem.state (s.thread i).pc
          ≤ steps_left n s + steps_at s.mem.state ((turned i s).thread i).pc)
        (sym e) sum

  pub busy_falls : busy (s.thread i).pc ≡ true → measure n (turned i s) < measure n s
  unfolding turned
  busy_falls b =
      let falls =
        turn-Falls i s.mem (s.thread i).depth (s.thread i).pc (low, omega arith) inv.shared
          (inv.each i (low, omega arith)) b in
      let self = ap (λ (t : Thread). changes_by t.pc) (turned_self i s) in
      elim falls [
        | inl less ↦
            change_outweighs n (changes_left n s) (changes_left n (turned i s)) (steps_left n s)
              (steps_left n (turned i s)) (omega (arith, less, changes_sum, self))
              (total_bound n 6 _
                (λ j. steps_at_bound (turned i s).mem.state ((turned i s).thread j).pc))
        | inr (e, w, c, l) ↦
            step_counts n (changes_left n s) (changes_left n (turned i s)) (steps_left n s)
              (steps_left n (turned i s))
              (omega (arith, c, changes_sum, self, ap changes_of_word e))
              (omega (
                arith,
                l,
                steps_sum w e,
                ap (λ (t : Thread). steps_at s.mem.state t.pc) (turned_self i s),
              ))
      ]

-- A thread with no step to make changes nothing.
pub idle_turned : (i : ℕ) (s : System) → busy (s.thread i).pc ≡ false → turned i s ≡ s
unfolding turned ℕ_discrete
idle_turned i s b =
    let idle = idle-turn i s.mem (s.thread i).depth (s.thread i).pc b in
    let same : (j : ℕ) → (turned i s).thread j ≡ s.thread j = λ j. elim (ℕ_discrete j i) [
      | yes e ↦
          subst (λ k. (turned i s).thread k ≡ s.thread k) (sym e)
            (turned_self i s ∙ ap (λ r. r.1) idle.0)
      | no m ↦ turned_quiet i j s idle.1 m
    ] in
    λ k. record { mem = (ap (λ r. r.0) idle.0) k; thread = (fun_ext same) k }

pub turned-IsProgress :
    (n : ℕ) (s : System)
    → IsInitial s
    → n < 2 ^ 30
    → IsProgress n turned is_busy (measure n) (Reach s)
turned-IsProgress n s start small = record {
  kept = λ i t low high r. next r (Threads.turns i (low, omega arith));
  falls = λ i t low high r b. busy_falls n i t low high small (Reach-Inv start r) b;
  idles = idle_turned;
}

scaled_bound :
    (n c st : ℕ)
    → c ≤ 4 * n + 2
    → st ≤ n * 6
    → (6 * n + 1) * c + st ≤ (6 * n + 1) * (4 * n + 2) + 6 * n
scaled_bound n c st p q = omega (arith, mul-le-mul_left (6 * n + 1) p)

pub measure_bound : (n : ℕ) (s : System) → measure n s ≤ most_steps n
measure_bound n s =
    let steps = total_bound n 6 _ (λ j. steps_at_bound s.mem.state (s.thread j).pc) in
    let changes = total_bound n 4 _ (λ j. changes_by_bound (s.thread j).pc) in
    let word : changes_of_word s.mem.state ≤ 2 = ground arith in
    scaled_bound n (changes_left n s) (steps_left n s) (omega (arith, changes, word)) steps

-- In every state that is reached from a free mutex by permitted calls: however steps of the threads 1 to
-- `n` are interleaved, with no new call and no wait ended by nothing in between, only so many of them, at
-- most (6 n + 1)(4 n + 2) + 6 n, are made by a thread that is in a call and awake. So the threads do
-- not keep one another from returning or sleeping, under any scheduler.
pub schedule_bounded :
    {s t : System} (n : ℕ) (is : List ℕ)
    → IsInitial s
    → Reach s t
    → n < 2 ^ 30
    → AllWithin n is
    → toil turned is_busy is t ≤ (6 * n + 1) * (4 * n + 2) + 6 * n
schedule_bounded {s} {t} n is start r small w =
    omega (arith, toil-measure (turned-IsProgress n s start small) is t w r, measure_bound n t)
