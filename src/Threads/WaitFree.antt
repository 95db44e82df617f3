-- ===== src/Threads/WaitFree.antt =====
-- The calls that do not wait: unlock and trylock (src/mlibc_thread.cpp).
use mlibc_glibc_compat.Prelude.{
  ℕ, ◌+◌, ◌-◌, ◌≤◌, ◌≡◌, ◌≢◌, refl, sym, ap, ◌∙◌, arith, ◌==◌, if◌then◌else◌, ℕ_discrete,
  update_self, update_other,
}
use mathlib.Core.Path.{subst}
use mlibc_glibc_compat.Mutex.{Mutex}
use mlibc_glibc_compat.Mutex.Trylock.{TryPc, try_step}
use mlibc_glibc_compat.Mutex.Unlock.{UnlockPc, unlock_step, unlock_woken}
use mlibc_glibc_compat.Threads.{
  Activity, running, locking, asleep, trying, unlocking, crashed, Thread, System, Call, IsTid,
  begin, turn, roused, called, turned, interrupt, calls, turns, interrupts, IsInitial, Reach, here,
  next,
}
use mlibc_glibc_compat.Threads.Invariant.{Shared, Local, Inv}
use mlibc_glibc_compat.Threads.Steps.{Step-Inv, Reach-Inv}
use mlibc_glibc_compat.Threads.Progress.{turned_self, turned_kept}

-- The steps to the return of an unlock or a trylock; 5 for what is neither.
abbrev own_steps : Activity → ℕ
own_steps running = 0
own_steps (trying k TryPc.load) = 3
own_steps (trying k (TryPc.observed e)) = 2
own_steps (trying k p) = 1
own_steps (unlocking k UnlockPc.release) = 4
own_steps (unlocking k UnlockPc.exchange) = 3
own_steps (unlocking k (UnlockPc.check old)) = 2
own_steps (unlocking k p) = 1
own_steps _ = 5

own_steps-turn :
    (i : ℕ) (m : Mutex) (d : ℕ) (a : Activity)
    → IsTid i
    → Shared m
    → Local i m d a
    → own_steps a ≤ 4
    → own_steps (turn i m d a).1.pc ≤ own_steps a - 1
unfolding turn try_step unlock_step unlock_woken
own_steps-turn i m d running t s l h = omega arith
own_steps-turn i m d (trying k p) t s l h = ground arith
own_steps-turn i m d (unlocking k p) t s l h = ground arith
own_steps-turn i m d crashed t s l h = absurd (omega (arith, h))
own_steps-turn i m d (asleep k e) t s l h = absurd (omega (arith, h))
own_steps-turn i m d (locking k p) t s l h = absurd (omega (arith, h))

own_steps-roused : (a : Activity) → own_steps (roused a) ≡ own_steps a
own_steps-roused (asleep k e) = refl
own_steps-roused a = ground arith

running_of_steps : (a : Activity) → own_steps a ≡ 0 → a ≡ running
running_of_steps a h = ground arith

-- How many steps of a run are thread `i`'s.
abbrev pub turns_of : (i : ℕ) → {t u : System} → Reach t u → ℕ
turns_of i here = 0
turns_of i (next r (calls j c v e p)) = turns_of i r
turns_of i (next r (turns j v)) = (if j == i then 1 else 0) + turns_of i r
turns_of i (next r (interrupts j v)) = turns_of i r

-- In a run, thread `i` enters no call.
abbrev pub NoCallBy : (i : ℕ) → {t u : System} → Reach t u → Type 0
NoCallBy i here = Unit {0}
NoCallBy i (next r (calls j c v e p)) = (i ≢ j) × NoCallBy i r
NoCallBy i (next r (turns j v)) = NoCallBy i r
NoCallBy i (next r (interrupts j v)) = NoCallBy i r

Inv-along : {t u : System} → Reach t u → Inv t → Inv u
Inv-along here inv = inv
Inv-along (next r st) inv = Step-Inv st (Inv-along r inv)

-- What is left to thread `i` after a step of its own, or of another.
module _ (i j : ℕ) (s : System) where
  steps_apart : j ≢ i → own_steps ((turned j s).thread i).pc ≡ own_steps (s.thread i).pc
  steps_apart n = turned_kept own_steps j i s own_steps-roused (λ e. n (sym e))

  steps_interrupted : own_steps ((interrupt j s).thread i).pc ≡ own_steps (s.thread i).pc
  unfolding interrupt ℕ_discrete
  steps_interrupted = elim (ℕ_discrete i j) [
    | yes e ↦
        subst (λ k. own_steps ((interrupt j s).thread k).pc ≡ own_steps (s.thread k).pc) (sym e)
          (ap (λ (t : Thread). own_steps t.pc) (update_self s.thread j _)
            ∙ own_steps-roused (s.thread j).pc)
    | no n ↦ ap (λ (t : Thread). own_steps t.pc) (update_other s.thread j _ i n)
  ]

  steps_called :
      (c : Call) → i ≢ j → own_steps ((called j c s).thread i).pc ≡ own_steps (s.thread i).pc
  unfolding called
  steps_called c n = ap (λ (t : Thread). own_steps t.pc) (update_other s.thread j _ i n)

steps_self :
    (i : ℕ) (s : System)
    → IsTid i
    → Inv s
    → own_steps (s.thread i).pc ≤ 4
    → own_steps ((turned i s).thread i).pc ≤ own_steps (s.thread i).pc - 1
steps_self i s t inv h = omega (
  arith,
  ap (λ (u : Thread). own_steps u.pc) (turned_self i s),
  own_steps-turn i s.mem (s.thread i).depth (s.thread i).pc t inv.shared (inv.each i t) h,
)

own_steps-turns_of :
    {t u : System} (i : ℕ) (later : Reach t u)
    → IsTid i
    → Inv t
    → own_steps (t.thread i).pc ≤ 4
    → NoCallBy i later
    → own_steps (u.thread i).pc ≤ own_steps (t.thread i).pc - turns_of i later
unfolding ℕ_discrete
own_steps-turns_of i here v inv h n = omega arith
own_steps-turns_of i (next {t = s} r (calls j c w e p)) v inv h (m, n) =
    omega (arith, own_steps-turns_of i r v inv h n, steps_called i j s c m)
own_steps-turns_of i (next {t = s} r (interrupts j w)) v inv h n =
    omega (arith, own_steps-turns_of i r v inv h n, steps_interrupted i j s)
own_steps-turns_of i (next {t = s} r (turns j w)) v inv h n =
    let before = own_steps-turns_of i r v inv h n in
    elim (ℕ_discrete j i) [
      | yes e ↦
          let self =
            subst (λ k. own_steps ((turned k s).thread i).pc ≤ own_steps (s.thread i).pc - 1)
              (sym e) (steps_self i s v (Inv-along r inv) (omega (arith, before, h))) in
          ground (arith, before, self, e)
      | no m ↦ let apart = steps_apart i j s m in ground (arith, before, apart, m)
    ]

-- The calls with no wait.
abbrev pub IsBrief : Call → Type 0
IsBrief (Call.lock k) = ⊥
IsBrief (Call.trylock k) = Unit {0}
IsBrief (Call.unlock k) = Unit {0}

begin_steps : (c : Call) → IsBrief c → own_steps (begin c) ≤ 4
begin_steps (Call.lock k) b = absurd b
begin_steps (Call.trylock k) b = omega arith
begin_steps (Call.unlock k) b = omega arith

-- A call of trylock or of unlock is wait-free. In every state that is reached from a free mutex by
-- permitted calls, where a thread has just entered such a call: let the threads go on in any way, with
-- new calls of the others too. As soon as four of the steps have been the thread's own, it has returned.
pub brief_call_returns :
    {s t u : System} (i : ℕ) (c : Call) (later : Reach t u)
    → IsInitial s
    → Reach s t
    → IsTid i
    → IsBrief c
    → (t.thread i).pc ≡ begin c
    → NoCallBy i later
    → 4 ≤ turns_of i later
    → (u.thread i).pc ≡ running
brief_call_returns {s} {t} {u} i c later start r v b e n four =
    let few : own_steps (t.thread i).pc ≤ 4 = omega (arith, ap own_steps e, begin_steps c b) in
    let left = own_steps-turns_of i later v (Reach-Inv start r) few n in
    running_of_steps (u.thread i).pc (omega (arith, left, few, four))
