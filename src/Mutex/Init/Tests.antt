-- ===== src/Mutex/Init/Tests.antt =====
-- Mutexes of each type, from their attributes to a second lock.
use mlibc_glibc_compat.Prelude.{pos, true, ◌≡◌, refl}
use mlibc_glibc_compat.Errno.{aborts}
use mlibc_glibc_compat.Mutex.{Mutex}
use mlibc_glibc_compat.Mutex.Attr.{Mutexattr, mutexattr_init, mutexattr_settype}
use mlibc_glibc_compat.Mutex.Lock.{LockPc, lock_step}
use mlibc_glibc_compat.Mutex.Alone.{mutex_lock}
use mlibc_glibc_compat.Mutex.Init.Types.{typed}
use mlibc_glibc_compat.Mutex.Init.{mutex_init}

abbrev blank : Mutexattr
blank = record {
  type = pos 0;
  robust = pos 0;
  protocol = pos 0;
  pshared = pos 0;
  prioceiling = pos 0;
}

abbrev memory : Mutex
memory = record { state = 5; recursion = 5; flags = 5; prioceiling = pos 5; kind = pos 1 }

-- To a glibc caller 2 means errorcheck. A second lock ends the program.
errorcheck_relock :
    (mutex_lock 7 true (mutex_lock 7 true (typed true (pos 2) blank memory)).0).1
    ≡ LockPc.finished aborts
unfolding mutex_lock lock_step mutex_init mutexattr_settype mutexattr_init
errorcheck_relock = refl
