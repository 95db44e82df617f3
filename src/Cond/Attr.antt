-- ===== src/Cond/Attr.antt =====
-- The condition attributes of src/mlibc_thread.cpp: `struct Condattr`, whose fields are signed
-- bit-fields of one `int`.
use mlibc_glibc_compat.Prelude.{ℤ, pos, bit_field, Bool, ◌==ℤ◌, not, ◌&&◌, if◌then◌else◌}
use mlibc_glibc_compat.Errno.{Errno, success, einval}
use mlibc_glibc_compat.Mutex.Attr.{Constants}

-- struct Condattr
pub record Condattr : Type 0 where
  pub pshared : ℤ  -- 1 bit
  pub clock : ℤ  -- 31 bits

-- The clocks of <time.h> that `setclock` names.
pub record Clocks : Type 0 where
  pub realtime : ℤ
  pub monotonic : ℤ
  pub monotonic_raw : ℤ
  pub realtime_coarse : ℤ
  pub monotonic_coarse : ℤ
  pub boottime : ℤ

unfoldable pub condattr_init : Constants → Clocks → Condattr → Errno × Condattr
unfolding bit_field
condattr_init c k a =
    (success, record { pshared = bit_field 1 c.process_private; clock = bit_field 31 k.realtime })

unfoldable pub condattr_destroy : Condattr → Errno × Condattr
condattr_destroy a = (success, record { pshared = pos 0; clock = pos 0 })

unfoldable pub condattr_getclock : Condattr → Errno × ℤ
condattr_getclock a = (success, a.clock)

abbrev pub is_known_clock : Clocks → ℤ → Bool
is_known_clock k v = not (
    not (v ==ℤ k.realtime)
    && (not (v ==ℤ k.monotonic)
        && (not (v ==ℤ k.monotonic_raw)
            && (not (v ==ℤ k.realtime_coarse)
                && (not (v ==ℤ k.monotonic_coarse) && not (v ==ℤ k.boottime))))))

unfoldable pub condattr_setclock : Clocks → ℤ → Condattr → Errno × Condattr
unfolding bit_field
condattr_setclock k v a =
    if is_known_clock k v then (success, record a { clock = bit_field 31 v }) else (einval, a)

unfoldable pub condattr_getpshared : Condattr → Errno × ℤ
condattr_getpshared a = (success, a.pshared)

unfoldable pub condattr_setpshared : Constants → ℤ → Condattr → Errno × Condattr
unfolding bit_field
condattr_setpshared c v a =
    if not (v ==ℤ c.process_private) && not (v ==ℤ c.process_shared)
    then (einval, a)
    else (success, record a { pshared = bit_field 1 v })
