-- ===== src/Sysdeps/RawSyscall.antt =====
-- `syscall` as it is built without WRAP_SYSCALL, on Linux (src/misc.cpp), and what the futex calls
-- of sysdeps/linux/generic.cpp make of its errors.
use mlibc_glibc_compat.Prelude.{
  ℕ, ◌-◌, ◌%◌, ◌^◌, ◌≤◌, ◌<◌, ◌≡◌, ℤ, pos, signed_of, leb, Option, none, some, arith, if◌then◌else◌,
}
use mlibc_glibc_compat.Errno.{Errno, success}
use mlibc_glibc_compat.Sysdeps.{linux_futex_wait, linux_futex_wake}

-- From `rax` as the kernel leaves it, to the `long` that the function returns, with the `errno`
-- that it stores. The error path ends with a move of -1 to `eax`, which clears the upper half of
-- `rax`.
unfoldable pub raw_syscall : (rax : ℕ) → ℤ × Option ℕ
unfolding signed_of
raw_syscall rax =
    if leb (2 ^ 64 - 4095) rax
    then (signed_of 64 (2 ^ 32 - 1), some ((2 ^ 32 - rax % 2 ^ 32) % 2 ^ 32))
    else (signed_of 64 rax, none)

-- For each error e of the kernel, from 1 to 4095, which it leaves as -e: `syscall` stores e in
-- `errno`, but returns 4294967295 and not -1. So `sys_futex_wait` and `sys_futex_wake`, where they
-- call it, report success for every error, whatever `errno` holds.
pub syscall_errors_lost :
    (e : ℕ) (errno : Errno)
    → 0 < e
    → e ≤ 4095
    → (raw_syscall (2 ^ 64 - e) ≡ (pos 4_294_967_295, some e))
      × (linux_futex_wait (raw_syscall (2 ^ 64 - e)).0 errno ≡ success)
      × (linux_futex_wake (raw_syscall (2 ^ 64 - e)).0 errno ≡ success)
unfolding raw_syscall linux_futex_wait linux_futex_wake
syscall_errors_lost e errno p q = (ground arith, ground arith, ground arith)
