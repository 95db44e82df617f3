-- ===== src/Mutex/Init/Types.antt =====
-- Whether a mutex has the type that its attributes were given: `__pthread_mutexattr_settype`,
-- `__pthread_mutex_init` and `__pthread_mutex_lock` together.
use mlibc_glibc_compat.Prelude.{
  ℕ, ◌^◌, ◌<◌, ℤ, pos, Bool, true, false, not, Option, none, some, ◌≡◌, ◌≢◌, ◌↔◌, ◌⊎◌, ◌==ℤ◌,
  if◌then◌else◌, arith,
}
use mlibc_glibc_compat.Errno.{success, returns, aborts}
use mlibc_glibc_compat.Mutex.{Mutex, recursive_np, errorcheck_np, kind_of}
use mlibc_glibc_compat.Mutex.Attr.{Mutexattr, translate_type, mutexattr_init, mutexattr_settype}
use mlibc_glibc_compat.Mutex.Init.{attr_or_zero, mutex_init, mutex_destroy}
use mlibc_glibc_compat.Mutex.Lock.{LockPc, lock_step}
use mlibc_glibc_compat.Mutex.Alone.{mutex_lock}

-- `pthread_mutex_init` returns 0 if the attributes are neither robust nor shared, and ends the
-- program otherwise; in both cases the mutex is free, and `pthread_mutex_destroy` accepts it.
init_free :
    (g : Bool) (attr : Option Mutexattr) (m : Mutex)
    → let (r, m') = mutex_init g attr m in
      ((r ≡ returns success) ↔ (
        (attr_or_zero (λ a. a.robust) attr ≡ pos 0) × (attr_or_zero (λ a. a.pshared) attr ≡ pos 0)))
      × (m'.state ≡ 0)
      × (m'.recursion ≡ 0)
      × ((mutex_destroy m').0 ≡ returns success)
unfolding mutex_init mutex_destroy
init_free g none m = ground arith
init_free g (some a) m = ground arith

-- A program of one library: it initialises the attributes, sets a type, and initialises a mutex.
abbrev pub typed : (g : Bool) → ℤ → Mutexattr → Mutex → Mutex
typed g t a m = (mutex_init g (some (mutexattr_settype g t (mutexattr_init a).1).1) m).1

-- For a type that means "recursive" to the caller: the same thread locks the mutex twice, both
-- calls return 0, and the mutex counts two levels.
recursive_relocks :
    (tid : ℕ) (g : Bool) (t : ℤ) (a : Mutexattr) (m : Mutex)
    → 0 < tid
    → tid < 2 ^ 30
    → translate_type g t ≡ recursive_np
    → let m1 = (mutex_lock tid g (typed g t a m)).0 in
      ((mutex_lock tid g (typed g t a m)).1 ≡ LockPc.finished (returns success))
      × ((mutex_lock tid g m1).1 ≡ LockPc.finished (returns success))
      × ((mutex_lock tid g m1).0.recursion ≡ 2)
unfolding mutex_lock lock_step mutex_init mutexattr_settype mutexattr_init
recursive_relocks tid g t a m p q h = ground arith

-- For each type that `settype` accepts, 0, 1 and 2: the first lock returns 0; the second one by the same
-- thread returns 0, at level 2, if the type means "recursive" to the caller, and otherwise ends the
-- program at level 1, also for the errorcheck type.
relock_by_type :
    (tid : ℕ) (g : Bool) (t : ℤ) (a : Mutexattr) (m : Mutex)
    → 0 < tid
    → tid < 2 ^ 30
    → (t ≡ pos 0) ⊎ ((t ≡ pos 1) ⊎ (t ≡ pos 2))
    → let m1 = (mutex_lock tid g (typed g t a m)).0 in
      let recursive = translate_type g t ==ℤ recursive_np in
      ((mutex_lock tid g (typed g t a m)).1 ≡ LockPc.finished (returns success))
      × ((mutex_lock tid g m1).1 ≡ LockPc.finished (if recursive then returns success else aborts))
      × ((mutex_lock tid g m1).0.recursion ≡ (if recursive then 2 else 1))
unfolding mutex_lock lock_step mutex_init mutexattr_settype mutexattr_init
relock_by_type tid g t a m p q h = (ground arith, ground arith, ground arith)

-- For a type that means "errorcheck" to the caller: the mutex has no type that a lock knows of, and
-- the second lock by the same thread ends the program, where it should return EDEADLK.
errorcheck_lost :
    (tid : ℕ) (g : Bool) (t : ℤ) (a : Mutexattr) (m : Mutex)
    → 0 < tid
    → tid < 2 ^ 30
    → translate_type g t ≡ errorcheck_np
    → let m1 = (mutex_lock tid g (typed g t a m)).0 in
      (kind_of (not g) (typed g t a m) ≢ errorcheck_np)
      × ((mutex_lock tid g (typed g t a m)).1 ≡ LockPc.finished (returns success))
      × ((mutex_lock tid g m1).1 ≡ LockPc.finished aborts)
unfolding mutex_lock lock_step mutex_init mutexattr_settype mutexattr_init
errorcheck_lost tid g t a m p q h = ground arith

-- A type is known only to callers of the library that initialised the mutex. A recursive mutex that
-- a glibc caller has initialised ends the program when an mlibc caller locks it twice; a mutex that
-- an mlibc caller has initialised, of whatever type, is recursive to a glibc caller exactly if the
-- memory of its `kind`, which `pthread_mutex_init` leaves as it was, says so.
type_of_other_library :
    (tid : ℕ) (t : ℤ) (a : Mutexattr) (m : Mutex)
    → 0 < tid
    → tid < 2 ^ 30
    → let lock_twice = λ (g : Bool) (m0 : Mutex). (mutex_lock tid g (mutex_lock tid g m0).0).1 in
      (lock_twice false (typed true t a m) ≡ LockPc.finished aborts)
      × ((lock_twice true (typed false t a m) ≡ LockPc.finished (returns success))
          ↔ (m.kind ≡ recursive_np))
unfolding mutex_lock lock_step mutex_init mutexattr_settype mutexattr_init
type_of_other_library tid t a m p q = (ground arith, ground arith)
