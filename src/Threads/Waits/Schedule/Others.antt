-- ===== src/Threads/Waits/Schedule/Others.antt =====
-- The threads that a schedule leaves alone (src/mlibc_thread.cpp).
use mlibc_glibc_compat.Prelude.{
  ℕ, ◌^◌, ◌<◌, ◌≤◌, ◌≡◌, ◌≢◌, inl, inr, refl, ap, ◌∙◌, Bool, Bool-cases, true, false, Option, none,
  some, arith, update_other, if◌then◌else◌,
}
use mlibc_glibc_compat.Errno.{success}
use mlibc_glibc_compat.Threads.{running, Thread, Call, turned, called, wakes, roused}
use mlibc_glibc_compat.Threads.Progress.{turned_other}
use mlibc_glibc_compat.Threads.Rounds.{IsProgress}
use mlibc_glibc_compat.Threads.Schedule.{busy}
use mlibc_glibc_compat.Threads.Waits.{
  Phase, outside, finished, World, next_phase, stirred, announces, is_running, entered, acted,
  IsStart, Run,
}
use mlibc_glibc_compat.Threads.Waits.Acting.{others}
use mlibc_glibc_compat.Threads.Waits.Schedule.{moved, is_active, world_measure}
use mlibc_glibc_compat.Threads.Waits.Schedule.Measure.{moved-IsProgress}

-- In the program, and in no call on the condition.
abbrev pub rests : Phase → Bool
rests outside = true
rests (finished r) = true
rests _ = false

abbrev pub IsAway : World → ℕ → Type 0
IsAway w j = ((w.base.thread j).pc ≡ running) × (rests (w.phase j) ≡ true)

abbrev pub OthersAway : (n : ℕ) → World → Type 0
OthersAway n w = (j : ℕ) → n < j → IsAway w j

rests-stirred : (p : Phase) → rests p ≡ true → rests (stirred success p) ≡ true
rests-stirred p h = ground arith

entered_other :
    (i j : ℕ) (c : Option Call) (w : World)
    → j ≢ i
    → (entered i c w.base).thread j ≡ w.base.thread j
unfolding called
entered_other i j none w n = refl
entered_other i j (some c) w n = update_other w.base.thread i _ j n

-- A step of one thread leaves another, that is in no call, there.
acted-IsAway : (i j : ℕ) (w : World) → j ≢ i → IsAway w j → IsAway (acted i w) j
unfolding acted
acted-IsAway i j w n (e, q) = elim (Bool-cases (is_running (w.base.thread i).pc)) [
  | inr b ↦ rw (b, if◌then◌else◌) (e, q)
  | inl b ↦
      let chosen = next_phase w.cond.seq (w.base.thread i).depth (w.phase i) in
      let still : rests (others i w j) ≡ true = elim (Bool-cases (announces (w.phase i))) [
        | inl y ↦ rw (y, if◌then◌else◌) (rests-stirred (w.phase j) q)
        | inr x ↦ rw (x, if◌then◌else◌) q
      ] in
      rw (b, if◌then◌else◌)
        (
          ap (λ (t : Thread). t.pc) (entered_other i j chosen.1 w n) ∙ e,
          ap rests (update_other (others i w) i chosen.0 j n) ∙ still,
        )
]

turned_away : (i j : ℕ) (w : World) → j ≢ i → IsAway w j → ((turned i w.base).thread j).pc ≡ running
turned_away i j w n (e, q) =
    let kept = ap (λ (t : Thread). t.pc) (turned_other j i w.base n) in
    elim (Bool-cases (wakes (w.base.thread i).pc)) [
      | inl b ↦ kept ∙ rw (b, if◌then◌else◌) (ap roused e)
      | inr b ↦ kept ∙ rw (b, if◌then◌else◌) e
    ]

moved-OthersAway : (n i : ℕ) (w : World) → i ≤ n → OthersAway n w → OthersAway n (moved i w)
unfolding moved
moved-OthersAway n i w high o j more =
    let apart : j ≢ i = λ e. omega (arith, e) in
    elim (Bool-cases (busy (w.base.thread i).pc)) [
      | inl b ↦ rw (b, if◌then◌else◌) (turned_away i j w apart (o j more), (o j more).1)
      | inr b ↦ rw (b, if◌then◌else◌) (acted-IsAway i j w apart (o j more))
    ]

abbrev pub Settles : (n : ℕ) → World → World → Type 0
Settles n v w = Run v w × OthersAway n w

pub settling-IsProgress :
    (n : ℕ) (v : World)
    → IsStart v
    → n < 2 ^ 30
    → IsProgress n moved is_active (world_measure n) (Settles n v)
settling-IsProgress n v begun small =
    let progress = moved-IsProgress n v begun small in
    record {
      kept = λ i w low high g. (progress.kept i w low high g.0, moved-OthersAway n i w high g.1);
      falls = λ i w low high g. progress.falls i w low high g.0;
      idles = progress.idles;
    }
