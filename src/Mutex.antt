-- ===== src/Mutex.antt =====
-- The mutex of src/mlibc_thread.cpp: `struct Mutex`, its kinds, and the operations on one mutex.
-- The children hold the attributes, the calls as step functions, and the proofs about them.
pub mod Attr
pub mod Init
pub mod Lock
pub mod Trylock
pub mod Unlock
pub mod Alone
use mlibc_glibc_compat.Prelude.{
  ℕ, ◌+◌, ◌/◌, ◌%◌, ◌^◌, ◌≡◌, Bool, ℤ, pos, ◌==◌, ◌==ℤ◌, if◌then◌else◌,
}

-- struct Mutex
pub record Mutex : Type 0 where
  pub state : ℕ  -- unsigned int: the owner's thread id, and the waiters bit
  pub recursion : ℕ  -- unsigned int
  pub flags : ℕ  -- unsigned int: bit 0 says "initialised by a glibc caller", the type is above it
  pub prioceiling : ℤ
  pub kind : ℤ  -- the type, where a glibc caller looks for it

-- MLIBC_PTHREAD_MUTEX_*_NP
abbrev pub timed_np : ℤ
timed_np = pos 0

abbrev pub recursive_np : ℤ
recursive_np = pos 1

abbrev pub errorcheck_np : ℤ
errorcheck_np = pos 2

-- `state & mutex_owner_mask`
abbrev pub owner_of : ℕ → ℕ
owner_of s = s % 2 ^ 30

-- `state & mutex_waiters_bit`, as a condition
abbrev pub has_waiters : ℕ → Bool
has_waiters s = s / 2 ^ 31 % 2 == 1

-- `state | mutex_waiters_bit`
abbrev pub with_waiters : ℕ → ℕ
with_waiters s = if has_waiters s then s else s + 2 ^ 31

-- unsigned arithmetic
abbrev pub u32 : ℕ → ℕ
u32 n = n % 2 ^ 32

-- Where a caller of either library looks for the type: an mlibc caller in `flags >> 1`, a glibc
-- caller in `kind`.
abbrev pub kind_of : Bool → Mutex → ℤ
kind_of mlibc m = if mlibc then pos (m.flags / 2) else m.kind
