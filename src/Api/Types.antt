-- ===== src/Api/Types.antt =====
-- A program that sets a mutex's type, initialises it and locks it twice, from addresses in its images
-- (src/mlibc_thread.cpp, src/caller.cpp).
use mlibc_glibc_compat.Prelude.{
  ℕ, ◌^◌, ◌<◌, ◌≡◌, ◌⊎◌, arith, ℤ, pos, Bool, true, false, ◌==ℤ◌, not, Option, List, [], ◌∷◌,
  if◌then◌else◌,
}
use mlibc_glibc_compat.Errno.{success, edeadlk}
use mlibc_glibc_compat.Caller.{Loaded, Cache, says}
use mlibc_glibc_compat.Caller.Transparent.{verdict, IsFaithful}
use mlibc_glibc_compat.Mutex.{Mutex, recursive_np, errorcheck_np}
use mlibc_glibc_compat.Mutex.Attr.{Mutexattr, mutexattr_init, mutexattr_settype}
use mlibc_glibc_compat.Mutex.Init.{mutex_init}
use mlibc_glibc_compat.Mutex.Lock.{lock_step}
use mlibc_glibc_compat.Mutex.Alone.{mutex_lock}
use mlibc_glibc_compat.Api.{
  Called, settype, init, lock, Objects, Reply, returned, aborted, program, perform,
}
use mlibc_glibc_compat.Api.Verdicts.{by_verdicts, program-by_verdicts}

-- The calls of thread `tid`: the type and the initialisation from `set_up`, the locks from `use`.
abbrev pub lock_twice : (tid set_up user : ℕ) → ℤ → List Called
lock_twice tid set_up user t =
    record { tid = tid; addr = set_up; function = settype t }
    ∷ record { tid = tid; addr = set_up; function = init }
    ∷ record { tid = tid; addr = user; function = lock }
    ∷ record { tid = tid; addr = user; function = lock }
    ∷ []

abbrev pub fresh_objects : Mutexattr → Mutex → Objects
fresh_objects a mx = record { attr = (mutexattr_init a).1; mutex = mx }

-- The first three calls return 0.
abbrev pub ending_with : Reply → List Reply
ending_with last = returned success ∷ returned success ∷ returned success ∷ last ∷ []

-- The second lock by a glibc caller, which goes by the mutex's `kind`.
abbrev pub by_kind : ℤ → Reply
by_kind kind =
    if kind ==ℤ recursive_np
    then returned success
    else if kind ==ℤ errorcheck_np
    then returned edeadlk
    else aborted

-- The number by which a program asks for a recursive mutex: 1 in a program for glibc, 2 in one for
-- mlibc.
abbrev pub recursive_number : (glibc : Bool) → ℤ
recursive_number true = pos 1
recursive_number false = pos 2

lock_twice_replies :
    (fuel : ℕ) (dladdr : ℕ → Option Loaded) (tid set_up user : ℕ) (g : Bool) (t : ℤ) (a : Mutexattr)
    (mx : Mutex)
    → 0 < tid
    → tid < 2 ^ 30
    → (t ≡ pos 0) ⊎ ((t ≡ pos 1) ⊎ (t ≡ pos 2))
    → verdict fuel (dladdr set_up) ≡ says g
    → verdict fuel (dladdr user) ≡ says g
    → (by_verdicts fuel dladdr (lock_twice tid set_up user t) (fresh_objects a mx)).0
      ≡ ending_with (if t ==ℤ recursive_number g then returned success else aborted)
unfolding perform mutexattr_settype mutexattr_init mutex_init mutex_lock lock_step
lock_twice_replies fuel dladdr tid set_up user g t a mx p q h v w = rw (v, w) (ground arith)

lock_twice_across :
    (fuel : ℕ) (dladdr : ℕ → Option Loaded) (tid set_up user : ℕ) (g : Bool) (t : ℤ) (a : Mutexattr)
    (mx : Mutex)
    → 0 < tid
    → tid < 2 ^ 30
    → (t ≡ pos 0) ⊎ ((t ≡ pos 1) ⊎ (t ≡ pos 2))
    → verdict fuel (dladdr set_up) ≡ says g
    → verdict fuel (dladdr user) ≡ says (not g)
    → let rs = (by_verdicts fuel dladdr (lock_twice tid set_up user t) (fresh_objects a mx)).0 in
      rs ≡ ending_with (if g then aborted else by_kind mx.kind)
unfolding perform mutexattr_settype mutexattr_init mutex_init mutex_lock lock_step
lock_twice_across fuel dladdr tid set_up user true t a mx p q h v w = rw (v, w) (ground arith)
lock_twice_across fuel dladdr tid set_up user false t a mx p q h v w = rw (v, w) (ground arith)

module _ (c : Cache) (fuel : ℕ) (dladdr : ℕ → Option Loaded) where
  open c use {Map}

  -- With any hash map that keeps its laws, and with nothing remembered but what the images say: where a
  -- program sets a type, 0, 1 or 2, initialises a mutex, and locks it twice by one thread, from images
  -- of which `is_glibc_caller` says the same, the first three calls return 0. The last returns 0 if the
  -- type is the number for "recursive" in the images' libc, 1 in glibc and 2 in mlibc, and ends the
  -- program otherwise, also where it is the number for "errorcheck", 2 in glibc and 1 in mlibc.
  pub program_types :
      (tid set_up user : ℕ) (g : Bool) (t : ℤ) (a : Mutexattr) (mx : Mutex) (m : Map)
      → IsFaithful c fuel dladdr m
      → 0 < tid
      → tid < 2 ^ 30
      → (t ≡ pos 0) ⊎ ((t ≡ pos 1) ⊎ (t ≡ pos 2))
      → verdict fuel (dladdr set_up) ≡ says g
      → verdict fuel (dladdr user) ≡ says g
      → (program c fuel dladdr (lock_twice tid set_up user t) m (fresh_objects a mx)).0
        ≡ ending_with (if t ==ℤ recursive_number g then returned success else aborted)
  program_types tid set_up user g t a mx m f p q h v w =
      rw (program-by_verdicts c fuel dladdr (lock_twice tid set_up user t) m (fresh_objects a mx) f)
        (lock_twice_replies fuel dladdr tid set_up user g t a mx p q h v w)

  -- The same calls, where `is_glibc_caller` tells the image that sets the mutex up from the one that
  -- locks it: the first three calls return 0. If the first is a glibc caller, the second lock ends the
  -- program, whatever the type. If the second is, it goes by the memory of the mutex's `kind`, which
  -- `pthread_mutex_init` leaves as it was, again whatever the type: 0 for "recursive", EDEADLK for
  -- "errorcheck", and the end of the program otherwise.
  pub types_across_images :
      (tid set_up user : ℕ) (g : Bool) (t : ℤ) (a : Mutexattr) (mx : Mutex) (m : Map)
      → IsFaithful c fuel dladdr m
      → 0 < tid
      → tid < 2 ^ 30
      → (t ≡ pos 0) ⊎ ((t ≡ pos 1) ⊎ (t ≡ pos 2))
      → verdict fuel (dladdr set_up) ≡ says g
      → verdict fuel (dladdr user) ≡ says (not g)
      → let rs = (program c fuel dladdr (lock_twice tid set_up user t) m (fresh_objects a mx)).0 in
        rs ≡ ending_with (if g then aborted else by_kind mx.kind)
  types_across_images tid set_up user g t a mx m f p q h v w =
      rw (program-by_verdicts c fuel dladdr (lock_twice tid set_up user t) m (fresh_objects a mx) f)
        (lock_twice_across fuel dladdr tid set_up user g t a mx p q h v w)
