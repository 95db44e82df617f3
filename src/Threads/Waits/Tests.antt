-- ===== src/Threads/Waits/Tests.antt =====
-- Thread 1 waits, thread 2 broadcasts, and thread 1 returns.
use mlibc_glibc_compat.Prelude.{
  ℕ, ◌+◌, ◌<◌, ◌≡◌, ◌≢◌, ◌⊎◌, inl, pos, true, false, arith, refl, zero, suc, [], ◌∷◌, replicate,
}
use mlibc_glibc_compat.Errno.{success, etimedout, returns, aborts}
use mlibc_glibc_compat.Mutex.{owner_of}
use mlibc_glibc_compat.Mutex.Lock.{lock_step}
use mlibc_glibc_compat.Mutex.Unlock.{unlock_step}
use mlibc_glibc_compat.Threads.{IsTid, running, crashed, Call, called, turned, turn}
use mlibc_glibc_compat.Threads.Waits.{
  outside, finished, World, acted, waiting, announced, disturbed, calls, turns, waits, broadcasts,
  acts, IsStart, Run, start, step,
}
use mlibc_glibc_compat.Threads.Waits.Whole.{Announcer}
use mlibc_glibc_compat.Threads.Waits.Safety.{
  no_wait_aborts, no_lost_broadcast, wait_returns_owner, sleeper_levels, IsResult,
}
use mlibc_glibc_compat.Threads.Rounds.{AllRounds, follow, follow_rounds}
use mlibc_glibc_compat.Threads.Waits.Schedule.{moved}
use mlibc_glibc_compat.Threads.Waits.Schedule.Others.{OthersAway}
use mlibc_glibc_compat.Threads.Waits.Schedule.Fairness.{
  IsBack, AwaitsBroadcast, AwaitsOwner, fair_waits_settle,
}
use mlibc_glibc_compat.Threads.Waits.Stages.{stages, CondStep}
use mlibc_glibc_compat.Threads.Waits.Refinement.{moves_refine}
use mlibc_glibc_compat.Threads.Waits.Progress.{resumed}

abbrev quiet : World
quiet = record {
  base = record {
    mem = record { state = 0; recursion = 0; flags = 2; prioceiling = pos 0; kind = pos 0 };
    thread = λ i. record { depth = 0; pc = running };
  };
  cond = record { seq = 1; flags = 0; clock = pos 0 };
  phase = λ i. outside;
}

quiet-IsStart : IsStart quiet
quiet-IsStart = record {
  initial = record { free = (refl, refl); fresh = λ i. refl };
  idle = λ i. refl;
}

abbrev stepped : ℕ → World → World
stepped i w = record w { base = turned i w.base }

-- Thread 1 has the mutex.
abbrev holding : World
holding = stepped 1 (stepped 1 (record quiet { base = called 1 (Call.lock true) quiet.base }))

holding_reached : Run quiet holding
holding_reached =
    step
      (step
        (step start (calls 1 (Call.lock true) (omega arith) tt refl (λ _. inl refl, omega arith)))
        (turns 1 (omega arith)))
      (turns 1 (omega arith))

-- It waits, with no deadline, and sleeps.
abbrev dozing : World
dozing = acted 1 (stepped 1 (stepped 1 (stepped 1 (waiting 1 true false holding))))

dozing_reached : Run quiet dozing
unfolding turned called turn lock_step
dozing_reached =
    step
      (step
        (step
          (step
            (step holding_reached (
              waits 1 true false (omega arith) tt refl (omega arith)
                (λ b. absurd (omega (arith, b))) refl))
            (turns 1 (omega arith)))
          (turns 1 (omega arith)))
        (turns 1 (omega arith)))
      (acts 1 (omega arith))

-- Thread 2 broadcasts.
abbrev signalled : World
signalled = acted 2 (announced 2 dozing)

signalled_reached : Run quiet signalled
unfolding turned called turn lock_step unlock_step acted waiting
signalled_reached =
    step (step dozing_reached (broadcasts 2 (omega arith) tt refl (omega arith)))
      (acts 2 (omega arith))

-- Thread 1 has the mutex again, and is about to test the answer.
abbrev relocked_world : World
relocked_world = stepped 1 (stepped 1 (acted 1 signalled))

relocked_reached : Run quiet relocked_world
relocked_reached =
    step (step (step signalled_reached (acts 1 (omega arith))) (turns 1 (omega arith)))
      (turns 1 (omega arith))

no_wait_aborts_example :
    (relocked_world.phase 1 ≢ finished aborts) × ((relocked_world.base.thread 1).pc ≢ crashed)
no_wait_aborts_example = no_wait_aborts quiet-IsStart relocked_reached 1 (omega arith)

no_lost_broadcast_example : (1 ≡ dozing.cond.seq) ⊎ Announcer dozing.phase
unfolding turned called turn lock_step unlock_step acted waiting
no_lost_broadcast_example = no_lost_broadcast quiet-IsStart dozing_reached 1 true false 1 1 refl

wait_returns_owner_example :
    ((relocked_world.base.thread 1).depth ≡ 1)
    × (owner_of relocked_world.base.mem.state ≡ 1)
    × IsResult false 1 relocked_world.cond.seq success
unfolding turned called turn lock_step unlock_step acted waiting announced
wait_returns_owner_example =
    wait_returns_owner quiet-IsStart relocked_reached 1 true false 1 1 success success (omega arith)
      refl refl refl

-- Thread 1 goes on alone.
by_itself-AllRounds : (k : ℕ) → AllRounds 1 (replicate k (1 ∷ []))
by_itself-AllRounds zero = tt
by_itself-AllRounds (suc k) = ((omega arith, λ i p q. omega arith), by_itself-AllRounds k)

signalled-OthersAway : OthersAway 1 signalled
unfolding turned called turn lock_step unlock_step acted waiting announced
signalled-OthersAway j h = ground arith

fair_waits_settle_example :
    let u = follow_rounds moved (replicate 398 (1 ∷ [])) signalled in
    IsBack u 1 ⊎ (AwaitsBroadcast u 1 ⊎ AwaitsOwner u 1)
fair_waits_settle_example =
    fair_waits_settle 1 (replicate 398 (1 ∷ [])) quiet-IsStart signalled_reached (omega arith)
      signalled-OthersAway (by_itself-AllRounds 398) (omega arith) 1 (omega arith) (omega arith)

-- It returns within eight of these rounds.
signalled_returns : (follow moved (replicate 8 1) signalled).phase 1 ≡ finished (returns success)
unfolding follow moved turned called turn lock_step unlock_step acted waiting announced
signalled_returns = refl

-- The deadline of thread 1 passes while it sleeps.
abbrev missed : World
missed =
    disturbed 1 etimedout
      (acted 1 (stepped 1 (stepped 1 (stepped 1 (waiting 1 true true holding)))))

missed_returns : (resumed 1 missed).phase 1 ≡ finished (returns etimedout)
unfolding turned called turn lock_step unlock_step acted waiting disturbed
missed_returns = refl

sleeper_levels_example :
    ((dozing.base.thread 1).depth + 1 ≡ 1)
    × (◌≡◌ {A = ℕ} 1 1 → owner_of dozing.base.mem.state ≢ 1)
    × (1 < 1
        → (owner_of dozing.base.mem.state ≡ 1)
          × ((j : ℕ) → IsTid j → j ≢ 1 → (dozing.base.thread j).depth ≡ 0))
unfolding turned called turn lock_step unlock_step acted waiting
sleeper_levels_example =
    sleeper_levels quiet-IsStart dozing_reached 1 true false 1 1 (omega arith) refl

-- The broadcast of thread 2 reaches thread 1.
moves_refine_example : CondStep (stages dozing) (stages (announced 2 dozing))
unfolding turned called turn lock_step unlock_step acted waiting
moves_refine_example =
    moves_refine quiet-IsStart dozing_reached (broadcasts 2 (omega arith) tt refl (omega arith))
