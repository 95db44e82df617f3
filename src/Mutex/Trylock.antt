-- ===== src/Mutex/Trylock.antt =====
-- `__pthread_mutex_trylock` (src/mlibc_thread.cpp), one access of the shared state at a time.
use mlibc_glibc_compat.Prelude.{ℕ, ◌+◌, Bool, ◌==◌, ◌==ℤ◌, if◌then◌else◌}
use mlibc_glibc_compat.Errno.{Errno, success, ebusy, Outcome, returns, aborts}
use mlibc_glibc_compat.Mutex.{Mutex, recursive_np, owner_of, u32, kind_of}

pub data TryPc : Type 0 where
  load : TryPc
  observed : (expected : ℕ) → TryPc
  acquired : TryPc
  finished : Outcome Errno → TryPc

-- A mutex that the caller owns already, or that another thread owns.
unfoldable pub try_owned : (tid : ℕ) → Bool → Mutex → (expected : ℕ) → Mutex × TryPc
try_owned tid mlibc m expected =
    if owner_of expected == tid
    then if kind_of mlibc m ==ℤ recursive_np
      then (record m { recursion = u32 (m.recursion + 1) }, TryPc.finished (returns success))
      else (m, TryPc.finished (returns ebusy))
    else (m, TryPc.finished (returns ebusy))

unfoldable pub try_step : (tid : ℕ) → Bool → Mutex → TryPc → Mutex × TryPc
unfolding try_owned
try_step tid mlibc m TryPc.load = (m, TryPc.observed m.state)
try_step tid mlibc m (TryPc.observed expected) =
    if expected == 0
    then if m.state == 0
      then (record m { state = tid }, TryPc.acquired)
      else (m, TryPc.finished (returns ebusy))
    else try_owned tid mlibc m expected
try_step tid mlibc m TryPc.acquired =
    if m.recursion == 0
    then (record m { recursion = 1 }, TryPc.finished (returns success))
    else (m, TryPc.finished aborts)
try_step tid mlibc m (TryPc.finished r) = (m, TryPc.finished r)
