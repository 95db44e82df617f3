-- ===== src/Cond/Configured.antt =====
-- What the attributes of a condition do for the condition that is initialised with them
-- (src/mlibc_thread.cpp).
use mlibc_glibc_compat.Prelude.{ℕ, ℤ, pos, ◌≤ℤ◌, ◌≡◌, arith, refl, Option, some, List, true, false}
use mlibc_glibc_compat.Errno.{success, einval, returns, aborts}
use mlibc_glibc_compat.Mutex.Attr.{Constants}
use mlibc_glibc_compat.Cond.{Cond, cond_init}
use mlibc_glibc_compat.Cond.Attr.{
  Condattr, Clocks, is_known_clock, condattr_getclock, condattr_setclock, condattr_setpshared,
}
use mlibc_glibc_compat.Cond.Wait.{Timespec, Round, ended, cond_timedwait}

-- `setclock` accepts exactly the six clocks of its list, and changes nothing for another. An
-- accepted clock, of an id from 0 to 2^30 - 1, is what `getclock` gives back, and what a condition
-- that is initialised with the attributes waits on.
clock_reaches_cond :
    (k : Clocks) (v realtime : ℤ) (a : Condattr) (c : Cond)
    → pos 0 ≤ℤ v
    → v ≤ℤ pos 1_073_741_823
    → let (e, a') = condattr_setclock k v a in
      (is_known_clock k v ≡ true
        → (e ≡ success)
          × (condattr_getclock a' ≡ (success, v))
          × ((cond_init realtime (some a') c).1.clock ≡ v))
      × (is_known_clock k v ≡ false → (e ≡ einval) × (a' ≡ a))
unfolding condattr_setclock condattr_getclock cond_init
clock_reaches_cond k v realtime a c lo hi = ground arith

-- Where the header's "shared" is 1 and its "private" 0: a condition with the shared attribute is
-- initialised with no error, and every wait on it ends the program; a private one gets no flag.
shared_wait_aborts :
    (k : Constants) (realtime : ℤ) (a : Condattr) (c : Cond) (seq : ℕ) (abstime : Option Timespec)
    (rs : List Round)
    → k.process_private ≡ pos 0
    → k.process_shared ≡ pos 1
    → let shared = cond_init realtime (some (condattr_setpshared k (pos 1) a).1) c in
      let private = cond_init realtime (some (condattr_setpshared k (pos 0) a).1) c in
      (shared.0 ≡ returns success)
      × (cond_timedwait shared.1.flags seq abstime rs ≡ ended aborts)
      × (private.1.flags ≡ 0)
unfolding cond_init condattr_setpshared cond_timedwait
shared_wait_aborts k realtime a c seq abstime rs p s = (refl, ground arith, ground arith)
