-- ===== src/Mutex/Attr/Validation.antt =====
-- Which values the setters of the mutex attributes accept, and what the getters give back.
mod Tests
use mlibc_glibc_compat.Prelude.{
  ℤ, pos, negsuc, bit_field, Bool, true, false, ◌≡◌, ◌≢◌, ◌⊎◌, ◌↔◌, inl, inr, arith, refl, not,
  ◌&&◌, ◌==ℤ◌, ◌≤ℤ◌, if◌then◌else◌,
}
use mlibc_glibc_compat.Errno.{success, einval}
use mlibc_glibc_compat.Mutex.{timed_np, recursive_np, errorcheck_np}
use mlibc_glibc_compat.Mutex.Attr.{
  Mutexattr, Constants, translate_type, mutexattr_init, mutexattr_destroy, mutexattr_settype,
  mutexattr_gettype, mutexattr_setrobust, mutexattr_getrobust, mutexattr_setpshared,
  mutexattr_getpshared, mutexattr_setprotocol, mutexattr_getprotocol, mutexattr_getprioceiling,
  mutexattr_setprioceiling,
}

-- `settype` accepts a type exactly if it is 0, 1 or 2, for a caller of either library; a refused
-- one leaves the attributes as they were. What `gettype` gives after an accepted one: a normal or
-- recursive type comes back as it was translated, and the errorcheck type comes back as -2, which
-- no caller has set.
gettype-settype :
    (g : Bool) (t : ℤ) (a : Mutexattr)
    → let (e, a') = mutexattr_settype g t a in
      ((e ≡ success) ↔ ((t ≡ pos 0) ⊎ ((t ≡ pos 1) ⊎ (t ≡ pos 2))))
      × (e ≢ success → (e ≡ einval) × (a' ≡ a))
      × (e ≡ success
          → mutexattr_gettype a' ≡ (
            success,
            if translate_type g t ==ℤ errorcheck_np then negsuc 1 else translate_type g t,
          ))
unfolding mutexattr_settype mutexattr_gettype
gettype-settype g t a = (ground arith, ground arith, ground arith)

-- The header's values, as mlibc's <pthread.h> gives them.
pub record IsStandard (c : Constants) : Type 0 where
  pub robust_values : (c.mutex_stalled ≡ pos 0) × (c.mutex_robust ≡ pos 1)
  pub pshared_values : (c.process_private ≡ pos 0) × (c.process_shared ≡ pos 1)
  pub protocol_values : (c.prio_none ≡ pos 0) × (c.prio_inherit ≡ pos 1) × (c.prio_protect ≡ pos 2)

-- Where the header's constants have the values 0, 1 and 2: each of the three setters accepts
-- exactly its constants and leaves the attributes alone otherwise, and the getter gives 0 back for
-- 0, but -1 for a robust or shared 1, and -2 for the protocol 2.
get-set_flags :
    (c : Constants) (v : ℤ) (a : Mutexattr)
    → IsStandard c
    → (mutexattr_getrobust (mutexattr_setrobust c v a).1
        ≡ (success, if v ==ℤ pos 0 then pos 0 else if v ==ℤ pos 1 then negsuc 0 else a.robust))
      × (mutexattr_getpshared (mutexattr_setpshared c v a).1
          ≡ (success, if v ==ℤ pos 0 then pos 0 else if v ==ℤ pos 1 then negsuc 0 else a.pshared))
      × (mutexattr_getprotocol (mutexattr_setprotocol c v a).1 ≡ (
        success,
        if v ==ℤ pos 0
            then pos 0
            else if v ==ℤ pos 1
            then pos 1
            else if v ==ℤ pos 2
            then negsuc 1
            else a.protocol,
      ))
      × (((mutexattr_setrobust c v a).0 ≡ success) ↔ ((v ≡ pos 0) ⊎ (v ≡ pos 1)))
      × (((mutexattr_setpshared c v a).0 ≡ success) ↔ ((v ≡ pos 0) ⊎ (v ≡ pos 1)))
      × (((mutexattr_setprotocol c v a).0 ≡ success) ↔ ((v ≡ pos 0) ⊎ ((v ≡ pos 1) ⊎ (v ≡ pos 2))))
unfolding mutexattr_setrobust mutexattr_getrobust mutexattr_setpshared mutexattr_getpshared
    mutexattr_setprotocol mutexattr_getprotocol
get-set_flags c v a h =
    (ground arith, ground arith, ground arith, ground arith, ground arith, ground arith)
