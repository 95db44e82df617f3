-- ===== src/Threads/Waits/Schedule/Phases.antt =====
-- What one step of a call on the condition takes from the steps that are left.
use mlibc_glibc_compat.Prelude.{
  ℕ, zero, suc, ◌+◌, ◌*◌, ◌<◌, ◌≤◌, ◌≡◌, ◌≢◌, refl, ap, true, false, Option, none, some, arith,
  update_self, update_other, if◌then◌else◌,
}
use native.Mathlib.Nat.{mul-le-mul_left}
use mlibc_glibc_compat.Errno.{success}
use mlibc_glibc_compat.Cond.Wait.{judge}
use mlibc_glibc_compat.Threads.{Activity, running, Call, System, Thread, begin, called}
use mlibc_glibc_compat.Threads.Schedule.{
  total, changes_by, steps_at, changes_left, steps_left, measure,
}
use mlibc_glibc_compat.Threads.Schedule.Sums.{total_inside}
use mlibc_glibc_compat.Threads.Waits.{
  Phase, outside, releasing, sleeping, woken, relocking, announcing, finished, next_phase, stirred,
  announces, entered,
}
use mlibc_glibc_compat.Threads.Waits.Schedule.{moves_on, phase_steps, call_cost}

pub next_phase_falls :
    (n now d : ℕ) (p : Phase)
    → moves_on p ≡ true
    → phase_steps n now (next_phase now d p).0 + (if announces p then n * 5 else 0) + 1
      ≤ phase_steps n now p
unfolding next_phase judge
next_phase_falls n now d (releasing k timed l seq) h = ground arith
next_phase_falls n now d (woken k timed l seq e) h = ground arith
next_phase_falls n now d (relocking k timed l seq e) h = ground arith
next_phase_falls n now d announcing h = omega arith
next_phase_falls n now d _ h = cc

-- A phase with no step to make stays, and enters no call.
pub next_phase_idle :
    (now d : ℕ) (p : Phase)
    → moves_on p ≡ false
    → (next_phase now d p ≡ (p, none)) × (announces p ≡ false)
unfolding next_phase
next_phase_idle now d outside h = (refl, refl)
next_phase_idle now d (sleeping k timed l seq) h = (refl, refl)
next_phase_idle now d (finished r) h = (refl, refl)
next_phase_idle now d _ h = cc

pub stirred_bound :
    (n now : ℕ) (p : Phase) → phase_steps n now (stirred success p) ≤ phase_steps n now p + 5
stirred_bound n now p = ground arith

pub phase_steps_bound : (n now : ℕ) (p : Phase) → phase_steps n now p ≤ n * 5 + 5
phase_steps_bound n now p = ground arith

pub total_raised : (n b : ℕ) (f : ℕ → ℕ) → total n (λ j. f j + b) ≡ total n f + n * b
total_raised zero b f = omega arith
total_raised (suc n) b f = grind (arith, total_raised n b f)

begin_cost : (word : ℕ) (c : Call) → (changes_by (begin c) ≤ 4) × (steps_at word (begin c) ≤ 6)
begin_cost word (Call.lock k) = ground arith
begin_cost word (Call.trylock k) = ground arith
begin_cost word (Call.unlock k) = ground arith

scaled_cost :
    (n c c' st st' : ℕ)
    → c' ≤ c + 4
    → st' ≤ st + 6
    → (6 * n + 1) * c' + st' + 1 ≤ (6 * n + 1) * c + st + call_cost n
scaled_cost n c c' st st' p q = grind (arith, mul-le-mul_left (6 * n + 1) p)

-- A thread between two calls has no steps left in a call.
idle_steps : (a : Activity) (word : ℕ) → a ≡ running → (changes_by a ≡ 0) × (steps_at word a ≡ 0)
idle_steps running word e = (refl, refl)
idle_steps a word e = ground arith

-- A new call adds no more than its cost.
pub measure-entered :
    (n i : ℕ) (s : System) (c : Option Call)
    → 0 < i
    → i ≤ n
    → (s.thread i).pc ≡ running
    → measure n (entered i c s) + 1 ≤ measure n s + call_cost n
unfolding called
measure-entered n i s none low high e = omega arith
measure-entered n i s (some c) low high e =
    let same = λ (f : Activity → ℕ) (j : ℕ) (m : j ≢ i).
      ap (λ (t : Thread). f t.pc)
        (update_other s.thread i (record { depth = (s.thread i).depth; pc = begin c }) j m) in
    let now =
      ap (λ (t : Thread). t.pc)
        (update_self s.thread i (record { depth = (s.thread i).depth; pc = begin c })) in
    let changes =
      total_inside (λ j. changes_by (s.thread j).pc) (λ j. changes_by ((called i c s).thread j).pc)
        i (λ j m. omega (arith, same changes_by j m)) n low high in
    let steps =
      total_inside (λ j. steps_at s.mem.state (s.thread j).pc)
        (λ j. steps_at s.mem.state ((called i c s).thread j).pc) i
        (λ j m. omega (arith, same (steps_at s.mem.state) j m)) n low high in
    let before = idle_steps (s.thread i).pc s.mem.state e in
    let after = begin_cost s.mem.state c in
    scaled_cost n (changes_left n s) (changes_left n (called i c s)) (steps_left n s)
      (steps_left n (called i c s)) (omega (arith, changes, before, after, ap changes_by now))
      (omega (arith, steps, before, after, ap (steps_at s.mem.state) now))
