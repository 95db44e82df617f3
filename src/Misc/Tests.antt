-- ===== src/Misc/Tests.antt =====
-- Concrete calls of the functions of src/misc.cpp.
use mlibc_glibc_compat.Prelude.{
  refl, ℤ, ◌==◌, if◌then◌else◌, ℕ, ◌+◌, ◌≤◌, ◌<◌, ◌≡◌, ◌≢◌, ◌⊎◌, ◌↔◌, ◌%◌, pos, none, some, [], ◌∷◌,
  take, arith,
}
use mlibc_glibc_compat.Misc.CloseRange.{close_range, close_range_outcome}
use mlibc_glibc_compat.Misc.CpuCount.{sched_cpucount, cpus, cpucount_eighth}
use mlibc_glibc_compat.Misc.SendFile.{
  Transfer, Ending, Sent, sendfile, sendfile_accounts, sendfile_ends, short_write_loses,
}
use mlibc_glibc_compat.Misc.Locale.{LocaleStruct, Locales, Current, newlocale}
use mlibc_glibc_compat.Misc.Syscall.{
  Sys, wrapped_syscall, purpose, carried_out, another, futex_commands,
}
use mlibc_glibc_compat.Errno.{success}
use mlibc_glibc_compat.Misc.Startup.{MainCall, libc_start_main}
use mlibc_glibc_compat.Misc.EpollTimeout.{epoll_timeout_ms}

close_range_outcome_example : close_range 4 3 5 0 ≡ some (3 ∷ 4 ∷ 5 ∷ [])
close_range_outcome_example =
    close_range_outcome 4 3 5 0 (omega arith) (omega arith) (omega arith) (omega arith)

cpucount_eighth_example :
    (sched_cpucount 64 16 (7 ∷ 1 ∷ []) ≡ cpus (take 0 (7 ∷ 1 ∷ [])))
    × (2 < 8 → sched_cpucount 64 16 (7 ∷ 1 ∷ []) ≡ 0)
cpucount_eighth_example = cpucount_eighth (7 ∷ 1 ∷ [])

-- 600 bytes in two rounds, the second of which is short.
abbrev whole_chunk : Transfer
whole_chunk = record { read_res = some 512; write_res = some 512 }

abbrev short_chunk : Transfer
short_chunk = record { read_res = some 88; write_res = some 40 }

sendfile_accounts_example :
    let (s, position') = sendfile 10 none 600 (whole_chunk ∷ short_chunk ∷ []) in
    (552 ≡ s.written)
    × (s.written ≤ 600)
    × (10 + s.written ≤ position')
    × (position' ≤ 10 + s.written + 512)
unfolding sendfile
sendfile_accounts_example =
    sendfile_accounts 10 600 (whole_chunk ∷ short_chunk ∷ [])
      ((omega arith, omega arith), ((omega arith, omega arith), tt))

sendfile_ends_example :
    (sendfile 10 (some 4) 600 (whole_chunk ∷ short_chunk ∷ [])).0.ending ≢ Ending.unfinished
sendfile_ends_example =
    sendfile_ends 10 600 (some 4) (whole_chunk ∷ short_chunk ∷ [])
      ((omega arith, omega arith), ((omega arith, omega arith), tt)) (omega arith)

short_write_loses_example :
    let s : Sent = record { ending = Ending.sent 40; moved = 88; written = 40 } in
    (sendfile 10 none 88 (short_chunk ∷ []) ≡ (s, 98))
    × (sendfile 10 (some 4) 88 (short_chunk ∷ []) ≡ (s, 4))
short_write_loses_example =
    short_write_loses 10 4 88 88 40 [] (omega arith) (omega arith) (omega arith)

-- 2.001999999 seconds.
rounded_down : epoll_timeout_ms (pos 2) (pos 1_999_999) ≡ pos 2001
unfolding epoll_timeout_ms
rounded_down = refl

-- Two locales in an empty heap.
abbrev no_locales : Locales
no_locales p = none

abbrev rubbish : LocaleStruct
rubbish = record {
  ctype_b = 0;
  ctype_tolower = 0;
  ctype_toupper = 0;
  locales = λ i. 0;
  names = λ i. 0;
}

abbrev thread_tables : Current
thread_tables = record { b = 100; tolower = 200; toupper = 300 }

fresh_locale :
    (newlocale thread_tables 16 rubbish 6 0 0 no_locales).1 16
    ≡ some (record rubbish { ctype_tolower = 200; ctype_toupper = 300; ctype_b = 100 })
unfolding newlocale
fresh_locale = refl

-- A stack at 4096 with two arguments.
abbrev entry_stack : ℕ → ℕ
entry_stack a = if a == 4096 then 2 else if a == 4104 then 500 else if a == 4112 then 600 else 0

abbrev count_arguments : MainCall → ℤ
count_arguments c = c.argc

main_counts : libc_start_main entry_stack 4096 9000 count_arguments ≡ pos 2
unfolding libc_start_main
main_counts = refl

abbrev quiet_system : Sys
quiet_system = record { gettid = 7; futex_wake = λ p. success; futex_wait = λ p e t. success }

-- FUTEX_WAIT_BITSET with FUTEX_PRIVATE_FLAG.
futex_commands_example :
    let effect = (wrapped_syscall quiet_system 202 64 137 1 0).0 in
    ((carried_out effect ≡ purpose 137) ↔ (◌≡◌ {A = ℕ} (137 % 128) 0 ⊎ ◌≡◌ {A = ℕ} (137 % 128) 1))
    × (carried_out effect ≢ another)
futex_commands_example = futex_commands quiet_system 64 137 1 0
