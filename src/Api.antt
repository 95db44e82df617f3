-- ===== src/Api.antt =====
-- The mutex functions that a program calls (src/mlibc_thread.cpp): each asks `is_glibc_caller`
-- (src/caller.cpp), of its own return address, which library its caller was built for.
pub mod Verdicts
pub mod Types
mod Tests
use mlibc_glibc_compat.Prelude.{
  ℕ, ℤ, Bool, true, false, Option, some, List, [], ◌∷◌, if◌then◌else◌, ◌+ℤ◌,
}
use mlibc_glibc_compat.Errno.{Errno, Outcome, returns, aborts}
use mlibc_glibc_compat.Caller.{Loaded, Cache, Answer, says, asserts, unfinished, is_glibc_caller}
use mlibc_glibc_compat.Mutex.{Mutex}
use mlibc_glibc_compat.Mutex.Attr.{Mutexattr, mutexattr_settype}
use mlibc_glibc_compat.Mutex.Init.{mutex_init}
use mlibc_glibc_compat.Mutex.Lock.{LockPc}
use mlibc_glibc_compat.Mutex.Trylock.{TryPc}
use mlibc_glibc_compat.Mutex.Unlock.{UnlockPc}
use mlibc_glibc_compat.Mutex.Alone.{mutex_lock, mutex_trylock, mutex_unlock}

-- What a program calls, on one mutex and one object of attributes.
pub data Function : Type 0 where
  settype : ℤ → Function
  init lock trylock unlock : Function

-- A call: by which thread, and from which address.
pub record Called : Type 0 where
  pub tid : ℕ
  pub addr : ℕ
  pub function : Function

pub record Objects : Type 0 where
  pub attr : Mutexattr
  pub mutex : Mutex

-- How far a call gets by itself: to its return, to a futex call, or to the end of the program.
pub data Reply : Type 0 where
  returned : Errno → Reply
  in_futex : Reply
  aborted : Reply
  without_fuel : Reply

abbrev pub of_outcome : Outcome Errno → Reply
of_outcome (returns e) = returned e
of_outcome aborts = aborted

abbrev pub of_lock : LockPc → Reply
of_lock (LockPc.finished r) = of_outcome r
of_lock (LockPc.waiting e) = in_futex
of_lock _ = without_fuel

abbrev pub of_trylock : TryPc → Reply
of_trylock (TryPc.finished r) = of_outcome r
of_trylock _ = without_fuel

abbrev pub of_unlock : UnlockPc → Reply
of_unlock (UnlockPc.finished r) = of_outcome r
of_unlock UnlockPc.wake = in_futex
of_unlock _ = without_fuel

-- What each function does with its caller's library.
abbrev pub settype_as : (glibc : Bool) → ℤ → Objects → Reply × Objects
settype_as glibc t o =
    let (e, a) = mutexattr_settype glibc t o.attr in (returned e, record o { attr = a })

abbrev pub init_as : (glibc : Bool) → Objects → Reply × Objects
init_as glibc o =
    let (r, m) = mutex_init glibc (some o.attr) o.mutex in (of_outcome r, record o { mutex = m })

abbrev pub lock_as : (tid : ℕ) → (glibc : Bool) → Objects → Reply × Objects
lock_as tid glibc o =
    let (m, p) = mutex_lock tid glibc o.mutex in (of_lock p, record o { mutex = m })

abbrev pub trylock_as : (tid : ℕ) → (glibc : Bool) → Objects → Reply × Objects
trylock_as tid glibc o =
    let (m, p) = mutex_trylock tid glibc o.mutex in (of_trylock p, record o { mutex = m })

abbrev pub unlock_as : (tid : ℕ) → (glibc : Bool) → Objects → Reply × Objects
unlock_as tid glibc o =
    let (m, p) = mutex_unlock tid glibc o.mutex in (of_unlock p, record o { mutex = m })

unfoldable pub perform : (tid : ℕ) → (glibc : Bool) → Function → Objects → Reply × Objects
perform tid glibc (settype t) o = settype_as glibc t o
perform tid glibc init o = init_as glibc o
perform tid glibc lock o = lock_as tid glibc o
perform tid glibc trylock o = trylock_as tid glibc o
perform tid glibc unlock o = unlock_as tid glibc o

-- A failed assertion of `is_glibc_caller` ends the program too.
abbrev pub after : Answer → Called → Objects → Reply × Objects
after (says glibc) k o = perform k.tid glibc k.function o
after asserts k o = (aborted, o)
after unfinished k o = (without_fuel, o)

abbrev pub is_returned : Reply → Bool
is_returned (returned e) = true
is_returned _ = false

-- The replies up to the first call that does not return, and the objects then.
abbrev pub continued : (Reply × Objects) → (List Reply × Objects) → List Reply × Objects
continued (r, o) (rs, o') = if is_returned r then (r ∷ rs, o') else (r ∷ [], o)

module _ (c : Cache) (fuel : ℕ) (dladdr : ℕ → Option Loaded) where
  open c use {Map}

  unfoldable pub call : Called → Map → Objects → (Reply × Objects) × Map
  unfolding is_glibc_caller perform
  call k m o = let (answer, m') = is_glibc_caller c fuel dladdr k.addr m in (after answer k o, m')

  -- Calls one after the other.
  unfoldable pub program : List Called → Map → Objects → List Reply × Objects
  unfolding call
  program [] m o = ([], o)
  program (k ∷ ks) m o =
      let (now, m') = call k m o in let rest = program ks m' now.1 in continued now rest
