-- ===== src/Threads/Waits/Schedule/Measure.antt =====
-- A schedule of threads that wait, broadcast and lock makes only so many steps (src/mlibc_thread.cpp).
use mlibc_glibc_compat.Prelude.{
  ℕ, ◌+◌, ◌*◌, ◌^◌, ◌<◌, ◌≤◌, ◌≡◌, inl, inr, refl, sym, ap, ◌∙◌, fun_ext, Bool, Bool-cases, true,
  false, arith, update, update_self, update_other, update-all, if◌then◌else◌,
}
use native.Mathlib.Nat.{mul-le-mul_left}
use mathlib.Core.Path.{subst}
use mlibc_glibc_compat.Threads.{running, IsTid}
use mlibc_glibc_compat.Threads.Rounds.{IsProgress}
use mlibc_glibc_compat.Threads.Schedule.{busy, total, measure}
use mlibc_glibc_compat.Threads.Schedule.Sums.{total_inside, total_bound}
use mlibc_glibc_compat.Threads.Schedule.Measure.{busy_falls, measure_bound}
use mlibc_glibc_compat.Threads.Waits.{
  World, next_phase, announces, is_running, entered, acted, turns, acts, IsStart, Run, step,
}
use mlibc_glibc_compat.Threads.Waits.Acting.{is_running_eq, others, acted_runs}
use mlibc_glibc_compat.Threads.Waits.Steps.{Run-Whole}
use mlibc_glibc_compat.Threads.Waits.Schedule.{
  moves_on, moved, is_active, phase_steps, phases_left, call_cost, world_measure, most_moves,
}
use mlibc_glibc_compat.Threads.Waits.Schedule.Phases.{
  next_phase_falls, next_phase_idle, stirred_bound, phase_steps_bound, total_raised,
  measure-entered,
}

-- A step of a call on the condition outweighs the mutex call that it may enter.
phase_outweighs : (k p p' b b' : ℕ) → p' + 1 ≤ p → b' + 1 ≤ b + k → k * p' + b' < k * p + b
phase_outweighs k p p' b b' q r = grind (arith, mul-le-mul_left k q)

-- The phases of the others rise by five each at the most, and only at a wake.
others_steps :
    (n now i j : ℕ) (w : World)
    → phase_steps n now (others i w j)
      ≤ phase_steps n now (w.phase j) + (if announces (w.phase i) then 5 else 0)
others_steps n now i j w = elim (Bool-cases (announces (w.phase i))) [
  | inl y ↦ rw y (stirred_bound n now (w.phase j))
  | inr f ↦ rw f (omega arith)
]

module _ (n i : ℕ) (w : World) (low : 0 < i) (high : i ≤ n) where
  phases_fall :
      moves_on (w.phase i) ≡ true
      → total n (λ j.
        phase_steps n w.cond.seq
          (update (others i w) i (next_phase w.cond.seq (w.base.thread i).depth (w.phase i)).0 j))
          + 1
        ≤ phases_left n w
  phases_fall m =
      let now = w.cond.seq in
      let after = (next_phase now (w.base.thread i).depth (w.phase i)).0 in
      let raise : ℕ = if announces (w.phase i) then 5 else 0 in
      let f = λ (j : ℕ). phase_steps n now (w.phase j) in
      let sum =
        total_inside (λ j. f j + raise) (λ j. phase_steps n now (update (others i w) i after j)) i
          (λ j a. omega (
            arith,
            ap (phase_steps n now) (update_other (others i w) i after j a),
            others_steps n now i j w,
          ))
          n low high in
      let self = ap (phase_steps n now) (update_self (others i w) i after) in
      let own = next_phase_falls n now (w.base.thread i).depth (w.phase i) m in
      let all = total_raised n raise f in
      elim (Bool-cases (announces (w.phase i))) [
        | inl y ↦ ground (arith, sum, self, own, all, y)
        | inr x ↦ ground (arith, sum, self, own, all, x)
      ]

  acted_falls :
      (w.base.thread i).pc ≡ running
      → moves_on (w.phase i) ≡ true
      → world_measure n (acted i w) < world_measure n w
  acted_falls r m =
      let chosen = next_phase w.cond.seq (w.base.thread i).depth (w.phase i) in
      subst (λ u. world_measure n u < world_measure n w) (sym (acted_runs i w r))
        (phase_outweighs (call_cost n) (phases_left n w)
          (total n (λ j. phase_steps n w.cond.seq (update (others i w) i chosen.0 j)))
          (measure n w.base) (measure n (entered i chosen.1 w.base)) (phases_fall m)
          (measure-entered n i w.base chosen.1 low high r))

  moved_falls :
      {v : World}
      → n < 2 ^ 30
      → IsStart v
      → Run v w
      → is_active i w ≡ true
      → world_measure n (moved i w) < world_measure n w
  unfolding moved
  moved_falls small begun r a = elim (Bool-cases (busy (w.base.thread i).pc)) [
    | inl b ↦
        let inv = (Run-Whole begun r).0.base in
        rw (b, if◌then◌else◌) (omega (arith, busy_falls n i w.base low high small inv b))
    | inr b ↦
        let waits : (if is_running (w.base.thread i).pc then moves_on (w.phase i) else false)
            ≡ true =
          rw (b, if◌then◌else◌) at a in
        elim (Bool-cases (is_running (w.base.thread i).pc)) [
          | inl c ↦
              let m : moves_on (w.phase i) ≡ true = rw (c, if◌then◌else◌) at waits in
              rw (b, if◌then◌else◌) (acted_falls (is_running_eq (w.base.thread i).pc c) m)
          | inr c ↦ let no : ◌≡◌ {A = Bool} false true = rw (c, if◌then◌else◌) at waits in cc
        ]
  ]

-- A thread with no step to make on the condition changes nothing.
acted_idle :
    (i : ℕ) (w : World)
    → (w.base.thread i).pc ≡ running
    → moves_on (w.phase i) ≡ false
    → acted i w ≡ w
acted_idle i w r m =
    let idle = next_phase_idle w.cond.seq (w.base.thread i).depth (w.phase i) m in
    let same : (j : ℕ) → update (others i w) i (w.phase i) j ≡ w.phase j =
      update-all (λ j q. q ≡ w.phase j) (others i w) i (w.phase i) refl
        (λ j n. rw (idle.1, if◌then◌else◌) refl) in
    acted_runs i w r
    ∙ ap (λ c. record w { base = entered i c.1 w.base; phase = update (others i w) i c.0 }) idle.0
    ∙ ap (λ f. record w { phase = f }) (fun_ext same)

idle_moved : (i : ℕ) (w : World) → is_active i w ≡ false → moved i w ≡ w
unfolding moved acted
idle_moved i w a = elim (Bool-cases (busy (w.base.thread i).pc)) [
  | inl b ↦ let no : ◌≡◌ {A = Bool} true false = rw (b, if◌then◌else◌) at a in cc
  | inr b ↦
      let waits : (if is_running (w.base.thread i).pc then moves_on (w.phase i) else false)
          ≡ false =
        rw (b, if◌then◌else◌) at a in
      elim (Bool-cases (is_running (w.base.thread i).pc)) [
        | inl c ↦
            let m : moves_on (w.phase i) ≡ false = rw (c, if◌then◌else◌) at waits in
            let stays = acted_idle i w (is_running_eq (w.base.thread i).pc c) m in
            rw (b, if◌then◌else◌) stays
        | inr c ↦ rw (b, c, if◌then◌else◌) refl
      ]
]

moved-Run : {v : World} (i : ℕ) (w : World) → IsTid i → Run v w → Run v (moved i w)
unfolding moved
moved-Run i w t r = elim (Bool-cases (busy (w.base.thread i).pc)) [
  | inl b ↦ rw (b, if◌then◌else◌) (step r (turns i t))
  | inr b ↦ rw (b, if◌then◌else◌) (step r (acts i t))
]

pub moved-IsProgress :
    (n : ℕ) (v : World)
    → IsStart v
    → n < 2 ^ 30
    → IsProgress n moved is_active (world_measure n) (Run v)
moved-IsProgress n v begun small = record {
  kept = λ i w low high r. moved-Run i w (low, omega arith) r;
  falls = λ i w low high r a. moved_falls n i w low high small begun r a;
  idles = idle_moved;
}

pub world_measure_bound : (n : ℕ) (w : World) → world_measure n w ≤ most_moves n
world_measure_bound n w =
    let phases =
      total_bound n (n * 5 + 5) (λ j. phase_steps n w.cond.seq (w.phase j))
        (λ j. phase_steps_bound n w.cond.seq (w.phase j)) in
    omega (arith, measure_bound n w.base, mul-le-mul_left (call_cost n) phases)
