-- ===== src/Threads/Tests.antt =====
-- A contended run: thread 1 has the mutex, thread 2 sleeps.
use mlibc_glibc_compat.Prelude.{
  ℕ, ◌<◌, ◌≡◌, ◌⊎◌, inl, pos, true, false, arith, refl, zero, suc, ◌≤◌, List, [], ◌∷◌, replicate,
}
use mlibc_glibc_compat.Mutex.{owner_of}
use mlibc_glibc_compat.Mutex.Lock.{lock_step}
use mlibc_glibc_compat.Mutex.Unlock.{unlock_step}
use mlibc_glibc_compat.Threads.{
  running, System, Call, IsTid, IsInitial, Reach, here, next, called, turned, calls, turns, turn,
  interrupt, interrupts,
}
use mlibc_glibc_compat.Threads.Invariant.{holds, pending, sleeps}
use mlibc_glibc_compat.Threads.Rounds.{AllWithin, AllRounds, toil, follow_rounds}
use mlibc_glibc_compat.Threads.Schedule.Measure.{schedule_bounded}
use mlibc_glibc_compat.Threads.Schedule.{is_busy}
use mlibc_glibc_compat.Threads.Schedule.Fairness.{OthersRunning, fair_schedules_settle}
use mlibc_glibc_compat.Threads.WaitFree.{brief_call_returns}
use mlibc_glibc_compat.Threads.Handover.{unlocked_by, unlock_hands_over}
use mlibc_glibc_compat.Threads.Refinement.{levels, LockStep, steps_refine}
use mlibc_glibc_compat.Threads.Progress.{solo}
use mlibc_glibc_compat.Threads.Safety.{recursion_counts, no_lost_wakeup}

abbrev idle : System
idle = record {
  mem = record { state = 0; recursion = 0; flags = 2; prioceiling = pos 0; kind = pos 0 };
  thread = λ i. record { depth = 0; pc = running };
}

idle-IsInitial : IsInitial idle
idle-IsInitial = record { free = (refl, refl); fresh = λ i. refl }

abbrev taken : System
taken = turned 1 (turned 1 (called 1 (Call.lock true) idle))

taken_reached : Reach idle taken
taken_reached =
    next
      (next (next here (calls 1 (Call.lock true) (omega arith) refl (λ _. inl refl, omega arith)))
        (turns 1 (omega arith)))
      (turns 1 (omega arith))

abbrev contended : System
contended = turned 2 (turned 2 (turned 2 (turned 2 (called 2 (Call.lock true) taken))))

contended_reached : Reach idle contended
unfolding turned called turn lock_step
contended_reached =
    next
      (next
        (next
          (next
            (next taken_reached
              (calls 2 (Call.lock true) (omega arith) refl (λ _. inl refl, omega arith)))
            (turns 2 (omega arith)))
          (turns 2 (omega arith)))
        (turns 2 (omega arith)))
      (turns 2 (omega arith))

contended_word : contended.mem.state ≡ 0x8000_0001
unfolding turned called turn lock_step
contended_word = refl

recursion_counts_example :
    (0 < (contended.thread 1).depth → contended.mem.recursion ≡ (contended.thread 1).depth)
    × (0 < (contended.thread 1).depth → owner_of contended.mem.state ≡ 1)
    × (owner_of contended.mem.state ≡ 1 → 0 < (contended.thread 1).depth)
unfolding turned called turn lock_step
recursion_counts_example = recursion_counts idle-IsInitial contended_reached 1 (omega arith) refl

no_lost_wakeup_example :
    ((contended.thread 2).depth ≡ 0)
    × ((j : ℕ) × IsTid j
        × (sleeps (contended.thread j).pc ≡ false)
        × ((holds (contended.thread j).depth (contended.thread j).pc ≡ true)
            ⊎ (pending (contended.thread j).pc ≡ true)))
unfolding turned called turn lock_step
no_lost_wakeup_example = no_lost_wakeup idle-IsInitial contended_reached 2 (omega arith) refl

-- Thread 2 has just entered its call.
abbrev calling : System
calling = called 2 (Call.lock true) taken

calling_reached : Reach idle calling
unfolding turned called turn lock_step
calling_reached =
    next taken_reached (calls 2 (Call.lock true) (omega arith) refl (λ _. inl refl, omega arith))

-- The two threads step in turn, while thread 1 keeps the mutex.
abbrev in_turn : List (List ℕ)
in_turn = replicate 142 (1 ∷ 2 ∷ [])

in_turn-AllWithin : AllWithin 2 (1 ∷ 2 ∷ [])
in_turn-AllWithin = omega arith

in_turn-AllRounds : (k : ℕ) → AllRounds 2 (replicate k (1 ∷ 2 ∷ []))
in_turn-AllRounds zero = tt
in_turn-AllRounds (suc k) = ((in_turn-AllWithin, λ i p q. omega arith), in_turn-AllRounds k)

calling-OthersRunning : OthersRunning 2 calling
unfolding turned called turn lock_step
calling-OthersRunning j h = ground arith

fair_schedules_settle_example :
    let u = follow_rounds turned in_turn calling in
    ((u.thread 2).pc ≡ running)
    ⊎ ((sleeps (u.thread 2).pc ≡ true)
        × ((j : ℕ) × IsTid j
            × ((u.thread j).pc ≡ running)
            × (0 < (u.thread j).depth)
            × (owner_of u.mem.state ≡ j)))
fair_schedules_settle_example =
    fair_schedules_settle 2 in_turn idle-IsInitial calling_reached (omega arith)
      calling-OthersRunning (in_turn-AllRounds 142) (omega arith) 2 (omega arith) (omega arith)

schedule_bounded_example : toil turned is_busy (2 ∷ 1 ∷ 2 ∷ []) calling ≤ 142
schedule_bounded_example =
    schedule_bounded 2 (2 ∷ 1 ∷ 2 ∷ []) idle-IsInitial calling_reached (omega arith) (omega arith)

-- Thread 1 begins to unlock, and thread 2 is woken by nothing meanwhile.
abbrev unlocking_world : System
unlocking_world = called 1 (Call.unlock true) contended

unlocking_reached : Reach idle unlocking_world
unfolding turned called turn lock_step
unlocking_reached =
    next contended_reached (calls 1 (Call.unlock true) (omega arith) refl (omega arith))

abbrev disturbed_unlock : System
disturbed_unlock =
    turned 1 (turned 2 (turned 1 (turned 1 (interrupt 2 (turned 1 unlocking_world)))))

abbrev while_disturbed : Reach unlocking_world disturbed_unlock
while_disturbed =
    next
      (next
        (next
          (next (next (next here (turns 1 (omega arith))) (interrupts 2 (omega arith)))
            (turns 1 (omega arith)))
          (turns 1 (omega arith)))
        (turns 2 (omega arith)))
      (turns 1 (omega arith))

brief_call_returns_example : (disturbed_unlock.thread 1).pc ≡ running
unfolding called
brief_call_returns_example =
    brief_call_returns 1 (Call.unlock true) while_disturbed idle-IsInitial unlocking_reached
      (omega arith) tt refl tt (omega arith)

unlock_hands_over_example :
    let u = unlocked_by 1 true contended in
    (u.thread 1 ≡ record { depth = 0; pc = running })
    × ((solo 4 2 u).thread 2 ≡ record { depth = 1; pc = running })
    × ((solo 4 2 u).mem.state ≡ 2)
unfolding turned called turn lock_step
unlock_hands_over_example =
    unlock_hands_over 2 1 true true 0x8000_0001 idle-IsInitial contended_reached (omega arith)
      (omega arith) refl refl refl refl

-- Thread 1 unlocks and wakes thread 2, which is still in its call.
abbrev unlocked : System
unlocked = turned 1 (called 1 (Call.unlock true) contended)

unlocked_reached : Reach idle unlocked
unfolding turned called turn lock_step unlock_step
unlocked_reached =
    next (next contended_reached (calls 1 (Call.unlock true) (omega arith) refl (omega arith)))
      (turns 1 (omega arith))

steps_refine_example : LockStep unlocked.mem (levels unlocked) (levels (turned 1 unlocked))
steps_refine_example = steps_refine idle-IsInitial unlocked_reached (turns 1 (omega arith))

abbrev released : System
released = turned 1 (turned 1 (turned 1 unlocked))

released_reached : Reach idle released
unfolding turned called turn lock_step unlock_step
released_reached =
    next (next (next unlocked_reached (turns 1 (omega arith))) (turns 1 (omega arith)))
      (turns 1 (omega arith))
