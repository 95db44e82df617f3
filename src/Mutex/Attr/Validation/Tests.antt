-- ===== src/Mutex/Attr/Validation/Tests.antt =====
-- The attributes at concrete values.
use mlibc_glibc_compat.Prelude.{pos, negsuc, ◌≡◌, refl}
use mlibc_glibc_compat.Errno.{success}
use mlibc_glibc_compat.Mutex.Attr.{
  Mutexattr, Constants, mutexattr_setrobust, mutexattr_getrobust, mutexattr_setpshared,
  mutexattr_getpshared, mutexattr_setprotocol, mutexattr_getprotocol,
}

abbrev blank : Mutexattr
blank = record {
  type = pos 0;
  robust = pos 0;
  protocol = pos 0;
  pshared = pos 0;
  prioceiling = pos 0;
}

abbrev header : Constants
header = record {
  mutex_stalled = pos 0;
  mutex_robust = pos 1;
  process_private = pos 0;
  process_shared = pos 1;
  prio_none = pos 0;
  prio_inherit = pos 1;
  prio_protect = pos 2;
}

-- What is set is 1, and what is got is -1.
robust_returned :
    mutexattr_getrobust (mutexattr_setrobust header (pos 1) blank).1 ≡ (success, negsuc 0)
unfolding mutexattr_getrobust mutexattr_setrobust
robust_returned = refl

pshared_returned :
    mutexattr_getpshared (mutexattr_setpshared header (pos 1) blank).1 ≡ (success, negsuc 0)
unfolding mutexattr_getpshared mutexattr_setpshared
pshared_returned = refl

protocol_returned :
    mutexattr_getprotocol (mutexattr_setprotocol header (pos 1) blank).1 ≡ (success, pos 1)
unfolding mutexattr_getprotocol mutexattr_setprotocol
protocol_returned = refl
