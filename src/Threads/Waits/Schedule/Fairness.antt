-- ===== src/Threads/Waits/Schedule/Fairness.antt =====
-- Under a fair schedule every wait, broadcast and lock returns or sleeps (src/mlibc_thread.cpp).
use mlibc_glibc_compat.Prelude.{
  ℕ, ◌^◌, ◌<◌, ◌≤◌, ◌≡◌, ◌≢◌, ◌⊎◌, inl, inr, refl, sym, ap, ◌∙◌, Bool, Bool-cases, true, false,
  List, length, arith, dec_lt,
}
use mathlib.Core.Path.{subst}
use mlibc_glibc_compat.Errno.{returns, aborts}
use mlibc_glibc_compat.Mutex.{owner_of}
use mlibc_glibc_compat.Threads.{running, IsTid}
use mlibc_glibc_compat.Threads.Invariant.{sleeps}
use mlibc_glibc_compat.Threads.Safety.{no_lost_wakeup, recursion_counts}
use mlibc_glibc_compat.Threads.Rounds.{AllRounds, follow_rounds, follow_rounds-kept, rounds_end}
use mlibc_glibc_compat.Threads.Schedule.{busy}
use mlibc_glibc_compat.Threads.Schedule.Fairness.{settled, has_level}
use mlibc_glibc_compat.Threads.Waits.{
  Phase, outside, sleeping, finished, World, IsOutside, IsStart, Run,
}
use mlibc_glibc_compat.Threads.Waits.Whole.{Announcer}
use mlibc_glibc_compat.Threads.Waits.Steps.{RecursiveTo, Run-Whole}
use mlibc_glibc_compat.Threads.Waits.Invariant.{Fits}
use mlibc_glibc_compat.Threads.Waits.Safety.{no_wait_aborts, no_lost_broadcast}
use mlibc_glibc_compat.Threads.Waits.Schedule.{moves_on, moved, is_active, most_moves}
use mlibc_glibc_compat.Threads.Waits.Schedule.Measure.{world_measure_bound}
use mlibc_glibc_compat.Threads.Waits.Schedule.Others.{rests, OthersAway, settling-IsProgress}

-- A phase from which no step leads on.
at_rest :
    (p : Phase)
    → moves_on p ≡ false
    → p ≢ finished aborts
    → IsOutside p
      ⊎ ((k : Bool) × (timed : Bool) × (l : ℕ) × (seq : ℕ) × (p ≡ sleeping k timed l seq))
at_rest outside h a = inl tt
at_rest (finished (returns e)) h a = inl tt
at_rest (finished aborts) h a = absurd (a refl)
at_rest (sleeping k timed l seq) h a = inr (k, timed, l, seq, refl)
at_rest _ h a = cc

moves_on_of_rests : (p : Phase) → rests p ≡ true → moves_on p ≡ false
moves_on_of_rests p h = ground arith

inactive_parts :
    (i : ℕ) (w : World)
    → is_active i w ≡ false
    → (busy (w.base.thread i).pc ≡ false)
      × ((w.base.thread i).pc ≡ running → moves_on (w.phase i) ≡ false)
inactive_parts i w h = ground arith

-- How a thread may stand at the end: it has returned from what it called; or it sleeps on the condition,
-- with the sequence number that the condition has; or it sleeps for the mutex, which a thread has that
-- has returned itself or that sleeps on the condition.
abbrev pub IsBack : World → ℕ → Type 0
IsBack u i = ((u.base.thread i).pc ≡ running) × IsOutside (u.phase i)

abbrev pub AwaitsBroadcast : World → ℕ → Type 0
AwaitsBroadcast u i =
    (k : Bool) × (timed : Bool) × (l : ℕ) × (u.phase i ≡ sleeping k timed l u.cond.seq)

abbrev pub AwaitsOwner : World → ℕ → Type 0
AwaitsOwner u i =
    (sleeps (u.base.thread i).pc ≡ true)
    × ((j : ℕ) × IsTid j
        × (IsBack u j ⊎ AwaitsBroadcast u j)
        × (0 < (u.base.thread j).depth)
        × (owner_of u.base.mem.state ≡ j))

module _ {v u : World} (n : ℕ) (begun : IsStart v) (r : Run v u)
    (quiet : (i : ℕ) → 0 < i → i ≤ n → is_active i u ≡ false) (away : OthersAway n u) where
  still :
      (j : ℕ)
      → IsTid j
      → sleeps (u.base.thread j).pc ≡ false
      → ((u.base.thread j).pc ≡ running) × (moves_on (u.phase j) ≡ false)
  still j t awake = elim (dec_lt n j) [
    | yes more ↦ ((away j more).0, moves_on_of_rests (u.phase j) (away j more).1)
    | no few ↦
        let parts = inactive_parts j u (quiet j t.0 (omega (arith, few))) in
        let home = settled (u.base.thread j).pc parts.0 awake (no_wait_aborts begun r j t).1 in
        (home, parts.1 home)
  ]

  no-Announcer : ¬ (Announcer u.phase)
  no-Announcer (j, t, e) =
      let fits =
        subst (Fits (RecursiveTo v) u.cond.seq (u.base.thread j).depth (u.base.thread j).pc) e
          ((Run-Whole begun r).0.each j t) in
      let awake : sleeps (u.base.thread j).pc ≡ false = ap sleeps fits in
      cc (sym (ap moves_on e) ∙ (still j t awake).1)

  rests_so :
      (j : ℕ) → IsTid j → sleeps (u.base.thread j).pc ≡ false → IsBack u j ⊎ AwaitsBroadcast u j
  rests_so j t awake =
      let (home, m) = still j t awake in
      elim (at_rest (u.phase j) m (no_wait_aborts begun r j t).0) [
        | inl o ↦ inl (home, o)
        | inr (k, timed, l, seq, e) ↦ elim (no_lost_broadcast begun r j k timed l seq e) [
          | inl same ↦ inr (k, timed, l, subst (λ q. u.phase j ≡ sleeping k timed l q) same e)
          | inr a ↦ absurd (no-Announcer a)
        ]
      ]

  settles_so : (i : ℕ) → IsTid i → IsBack u i ⊎ (AwaitsBroadcast u i ⊎ AwaitsOwner u i)
  settles_so i t = elim (Bool-cases (sleeps (u.base.thread i).pc)) [
    | inr awake ↦ elim (rests_so i t awake) [ inl b ↦ inl b | inr w ↦ inr (inl w) ]
    | inl asleep ↦
        let reach = (Run-Whole begun r).1 in
        let (j, x, awake, has) = (no_lost_wakeup begun.initial reach i t asleep).1 in
        let home = (still j x awake).0 in
        let level = has_level (u.base.thread j).depth (u.base.thread j).pc home has in
        inr (
          inr (
            asleep,
            (
              j,
              x,
              rests_so j x awake,
              level,
              (recursion_counts begun.initial reach j x home).1 level,
            ),
          ))
  ]

-- In every state that a run of mutex calls, waits and broadcasts gets to from a free mutex, where the
-- threads from `n + 1` on are in no call: let the threads 1 to `n` make steps in any order, with no new
-- call and no sleep ended but by a wake, but each a step in every round. After most_moves n rounds, a
-- number of the order of n^3, each of them has returned from its wait, broadcast, lock, trylock or unlock;
-- or sleeps on the condition, with the sequence number that it has now, so that no broadcast has come
-- since; or sleeps for the mutex, and then a thread has it that has itself returned or that sleeps on the
-- condition with a further level. So no call is kept from its end but by what the program still has to do.
pub fair_waits_settle :
    {v w : World} (n : ℕ) (rs : List (List ℕ))
    → IsStart v
    → Run v w
    → n < 2 ^ 30
    → OthersAway n w
    → AllRounds n rs
    → most_moves n ≤ length rs
    → (i : ℕ) → 0 < i
    → i ≤ n
    → let u = follow_rounds moved rs w in IsBack u i ⊎ (AwaitsBroadcast u i ⊎ AwaitsOwner u i)
fair_waits_settle {v} {w} n rs begun r small out ws long i low high =
    let progress = settling-IsProgress n v begun small in
    let good = follow_rounds-kept progress rs w ws (r, out) in
    let quiet =
      rounds_end progress rs w ws (r, out) (omega (arith, world_measure_bound n w, long)) in
    settles_so n begun good.0 quiet good.1 i (low, omega arith)
