-- ===== src/Mutex/Attr.antt =====
-- The mutex attributes of src/mlibc_thread.cpp: `struct Mutexattr`, whose fields are signed
-- bit-fields, with its getters and setters.
pub mod Validation
use mlibc_glibc_compat.Prelude.{ℤ, pos, bit_field, Bool, ◌==ℤ◌, not, ◌&&◌, if◌then◌else◌}
use mlibc_glibc_compat.Errno.{Errno, success, einval}
use mlibc_glibc_compat.Mutex.{timed_np, recursive_np, errorcheck_np}

-- struct Mutexattr. A field holds what a read of the bit-field gives.
pub record Mutexattr : Type 0 where
  pub type : ℤ  -- 2 bits
  pub robust : ℤ  -- 1 bit
  pub protocol : ℤ  -- 2 bits
  pub pshared : ℤ  -- 1 bit
  pub prioceiling : ℤ  -- 1 bit

-- The constants of <pthread.h>, which is the libc's.
pub record Constants : Type 0 where
  pub mutex_stalled : ℤ
  pub mutex_robust : ℤ
  pub process_private : ℤ
  pub process_shared : ℤ
  pub prio_none : ℤ
  pub prio_inherit : ℤ
  pub prio_protect : ℤ

unfoldable pub mutexattr_init : Mutexattr → Errno × Mutexattr
mutexattr_init a =
    (success, record a { type = pos 0; robust = pos 0; pshared = pos 0; protocol = pos 0 })

-- `memset` to 0
unfoldable pub mutexattr_destroy : Mutexattr → Errno × Mutexattr
mutexattr_destroy a = (
  success,
  record { type = pos 0; robust = pos 0; protocol = pos 0; pshared = pos 0; prioceiling = pos 0 },
)

-- A getter returns 0 and what it writes through its pointer.
unfoldable pub mutexattr_gettype : Mutexattr → Errno × ℤ
mutexattr_gettype a = (success, a.type)

-- glibc and mlibc number two of the types the other way round: the type is translated for a caller
-- that is not glibc's.
unfoldable pub translate_type : Bool → ℤ → ℤ
translate_type glibc t =
    if glibc
    then t
    else if t ==ℤ pos 1
    then errorcheck_np
    else if t ==ℤ pos 2
    then recursive_np
    else t

unfoldable pub mutexattr_settype : Bool → ℤ → Mutexattr → Errno × Mutexattr
unfolding translate_type bit_field
mutexattr_settype glibc t a =
    let t' = translate_type glibc t in
    if not (t' ==ℤ timed_np) && (not (t' ==ℤ errorcheck_np) && not (t' ==ℤ recursive_np))
    then (einval, a)
    else (success, record a { type = bit_field 2 t' })

unfoldable pub mutexattr_getrobust : Mutexattr → Errno × ℤ
mutexattr_getrobust a = (success, a.robust)

unfoldable pub mutexattr_setrobust : Constants → ℤ → Mutexattr → Errno × Mutexattr
unfolding bit_field
mutexattr_setrobust c r a =
    if not (r ==ℤ c.mutex_stalled) && not (r ==ℤ c.mutex_robust)
    then (einval, a)
    else (success, record a { robust = bit_field 1 r })

unfoldable pub mutexattr_getpshared : Mutexattr → Errno × ℤ
mutexattr_getpshared a = (success, a.pshared)

unfoldable pub mutexattr_setpshared : Constants → ℤ → Mutexattr → Errno × Mutexattr
unfolding bit_field
mutexattr_setpshared c p a =
    if not (p ==ℤ c.process_private) && not (p ==ℤ c.process_shared)
    then (einval, a)
    else (success, record a { pshared = bit_field 1 p })

unfoldable pub mutexattr_getprotocol : Mutexattr → Errno × ℤ
mutexattr_getprotocol a = (success, a.protocol)

unfoldable pub mutexattr_setprotocol : Constants → ℤ → Mutexattr → Errno × Mutexattr
unfolding bit_field
mutexattr_setprotocol c p a =
    if not (p ==ℤ c.prio_none) && (not (p ==ℤ c.prio_inherit) && not (p ==ℤ c.prio_protect))
    then (einval, a)
    else (success, record a { protocol = bit_field 2 p })

-- Neither reads nor writes anything but its result.
unfoldable pub mutexattr_getprioceiling : Mutexattr → Errno
mutexattr_getprioceiling a = einval

unfoldable pub mutexattr_setprioceiling : ℤ → Mutexattr → Errno × Mutexattr
mutexattr_setprioceiling p a = (einval, a)
