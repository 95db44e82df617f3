-- ===== src/Cond.antt =====
-- The condition variables of src/mlibc_thread.cpp: `struct Cond`, its attributes, signalling. The
-- children hold the attributes, the wait and the proofs.
pub mod Attr
pub mod Wait
pub mod Deadline
pub mod Results
pub mod Signals
pub mod Expiry
pub mod Configured
mod Tests
use mlibc_glibc_compat.Prelude.{
  ℕ, ◌+◌, ◌%◌, ◌^◌, ℤ, pos, Option, none, some, low_bits, if◌then◌else◌,
}
use mlibc_glibc_compat.Errno.{Errno, success, is_error, Outcome, returns, aborts}
use mlibc_glibc_compat.Cond.Attr.{Condattr}

-- struct Cond
pub record Cond : Type 0 where
  pub seq : ℕ  -- unsigned int: the number of broadcasts, plus 1, modulo 2^32
  pub flags : ℕ  -- unsigned int
  pub clock : ℤ  -- clockid_t

-- `realtime` is the header's CLOCK_REALTIME.
unfoldable pub cond_init : (realtime : ℤ) → Option Condattr → Cond → Outcome Errno × Cond
unfolding low_bits
cond_init realtime none c = (returns success, record { seq = 1; flags = 0; clock = realtime })
cond_init realtime (some a) c =
    (returns success, record { seq = 1; flags = low_bits 32 a.pshared; clock = a.clock })

unfoldable pub cond_destroy : Cond → Outcome Errno × Cond
cond_destroy c = (returns success, c)

-- The atomic increment, and then the wake of every waiter, which gives `woken`.
unfoldable pub cond_broadcast : (woken : Errno) → Cond → Outcome Errno × Cond
cond_broadcast woken c =
    (if is_error woken then aborts else returns success, record c { seq = (c.seq + 1) % 2 ^ 32 })

-- A signal is a broadcast.
unfoldable pub cond_signal : (woken : Errno) → Cond → Outcome Errno × Cond
unfolding cond_broadcast
cond_signal woken c = cond_broadcast woken c
