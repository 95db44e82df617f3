-- ===== src/Mutex/Init.antt =====
-- `__pthread_mutex_init`, `__pthread_mutex_destroy` and the calls that are not implemented
-- (src/mlibc_thread.cpp).
pub mod Types
mod Tests
use mlibc_glibc_compat.Prelude.{
  ℤ, pos, Bool, Option, none, some, ◌+ℤ◌, low_bits, ◌==◌, ◌==ℤ◌, ◌&&◌, if◌then◌else◌,
}
use mlibc_glibc_compat.Errno.{Errno, success, Outcome, returns, aborts}
use mlibc_glibc_compat.Mutex.{Mutex}
use mlibc_glibc_compat.Mutex.Attr.{Mutexattr}

-- `attr ? attr->field : 0`
abbrev pub attr_or_zero : (Mutexattr → ℤ) → Option Mutexattr → ℤ
attr_or_zero field none = pos 0
attr_or_zero field (some a) = field a

-- The fields are written before the two `__ensure`s. `glibc` is what `is_glibc_caller` says of the
-- return address. `type << 1` doubles; the assignment keeps the low 32 bits.
unfoldable pub mutex_init : Bool → Option Mutexattr → Mutex → Outcome Errno × Mutex
unfolding ◌+ℤ◌ low_bits
mutex_init glibc attr m =
    let type = attr_or_zero (λ a. a.type) attr in
    let robust = attr_or_zero (λ a. a.robust) attr in
    let pshared = attr_or_zero (λ a. a.pshared) attr in
    let cleared = record m { state = 0; recursion = 0; flags = 0; prioceiling = pos 0 } in
    let m' =
      if glibc
      then record cleared { flags = 1; kind = type }
      else record cleared { flags = low_bits 32 (type +ℤ type) } in
    (if robust ==ℤ pos 0 && pshared ==ℤ pos 0 then returns success else aborts, m')

unfoldable pub mutex_destroy : Mutex → Outcome Errno × Mutex
mutex_destroy m = (if m.state == 0 then returns success else aborts, m)

-- `__ensure(!"Not implemented")`
unfoldable pub mutex_timedlock : Mutex → Outcome Errno × Mutex
mutex_timedlock m = (aborts, m)

unfoldable pub mutex_consistent : Mutex → Outcome Errno × Mutex
mutex_consistent m = (aborts, m)
