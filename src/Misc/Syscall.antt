-- ===== src/Misc/Syscall.antt =====
-- `syscall` as it is built with WRAP_SYSCALL (src/misc.cpp): the system calls that it knows.
use mlibc_glibc_compat.Prelude.{
  ◌≡◌, ◌≢◌, ◌⊎◌, ◌↔◌, arith, ℕ, ◌%◌, ◌^◌, ℤ, pos, negsuc, Option, none, some, ◌==◌, if◌then◌else◌,
}
use mlibc_glibc_compat.Errno.{Errno, enosys}

-- What the function calls: `gettid` and the two functions of sysdeps/sysdeps.hpp, each with the
-- result that it gives at these arguments.
pub record Sys : Type 0 where
  pub gettid : ℕ
  pub futex_wake : (pointer : ℕ) → Errno
  pub futex_wait : (pointer expected time : ℕ) → Errno

-- What a call of `syscall` does, and gives back with the `errno` that it leaves.
pub data Effect : Type 0 where
  thread_id : Effect
  woke : (pointer : ℕ) → Effect
  waited : (pointer expected time : ℕ) → Effect
  refused : Effect

-- -1 with `errno`, or 0.
abbrev pub reply : Errno → ℤ × Option Errno
reply Errno.success = (pos 0, none)
reply e = (negsuc 0, some e)

-- FUTEX_WAKE is 1, so `a1 & FUTEX_WAKE` is the lowest bit. The expected value is cast to `int`: its
-- 32 bits are passed on.
unfoldable pub wrapped_syscall : Sys → (num a0 a1 a2 a3 : ℕ) → Effect × (ℤ × Option Errno)
wrapped_syscall sys num a0 a1 a2 a3 =
    if num == 186
    then (Effect.thread_id, (pos sys.gettid, none))
    else if num == 202
    then if a1 % 2 == 0
      then (Effect.waited a0 (a2 % 2 ^ 32) a3, reply (sys.futex_wait a0 (a2 % 2 ^ 32) a3))
      else (Effect.woke a0, reply (sys.futex_wake a0))
    else (Effect.refused, (negsuc 0, some enosys))

-- What a futex call is for. The command is an operation without its flags, FUTEX_PRIVATE_FLAG (128) and
-- FUTEX_CLOCK_REALTIME (256).
pub data Purpose : Type 0 where
  to_sleep : Purpose  -- FUTEX_WAIT (0) and FUTEX_WAIT_BITSET (9)
  to_wake : Purpose  -- FUTEX_WAKE (1) and FUTEX_WAKE_BITSET (10)
  another : Purpose

abbrev pub purpose : (op : ℕ) → Purpose
purpose op =
    let command = op % 128 in
    if command == 0
    then to_sleep
    else if command == 9
    then to_sleep
    else if command == 1
    then to_wake
    else if command == 10
    then to_wake
    else another

abbrev pub carried_out : Effect → Purpose
carried_out (Effect.waited p e t) = to_sleep
carried_out (Effect.woke p) = to_wake
carried_out _ = another

-- A futex call is carried out as what it is for exactly if its command is FUTEX_WAIT or FUTEX_WAKE, with
-- any flags. Every other command is done as a wait or as a wake, and none is refused with ENOSYS.
pub futex_commands :
    (sys : Sys) (a0 op a2 a3 : ℕ)
    → let effect = (wrapped_syscall sys 202 a0 op a2 a3).0 in
      ((carried_out effect ≡ purpose op) ↔ ((op % 128 ≡ 0) ⊎ (op % 128 ≡ 1)))
      × (carried_out effect ≢ another)
unfolding wrapped_syscall
futex_commands sys a0 op a2 a3 = (ground arith, ground arith)
