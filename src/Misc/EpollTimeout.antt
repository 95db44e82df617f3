-- ===== src/Misc/EpollTimeout.antt =====
-- The timeout of `epoll_pwait2` (src/misc.cpp): seconds and nanoseconds to an `int` of
-- milliseconds.
use mlibc_glibc_compat.Prelude.{
  ℕ, ◌+◌, ◌*◌, ◌/◌, ◌≤◌, ◌<◌, ◌≡◌, arith, ℤ, pos, times, over, ◌+ℤ◌, low_bits, signed_of,
}

-- The sum is a `long`, without overflow. It is assigned to an `int`, which keeps its low 32 bits.
unfoldable pub epoll_timeout_ms : (tv_sec tv_nsec : ℤ) → ℤ
unfolding ◌+ℤ◌ low_bits signed_of
epoll_timeout_ms tv_sec tv_nsec =
    signed_of 32 (low_bits 32 (times tv_sec 1000 +ℤ over tv_nsec 1_000_000))

-- For a valid time of at most 2,147,482 seconds: the timeout is the whole milliseconds of the time,
-- rounded down, so it is never too long, and too short by less than a millisecond.
timeout_rounds_down :
    (s n : ℕ)
    → s ≤ 2_147_482
    → n < 1_000_000_000
    → (ms : ℕ) × (epoll_timeout_ms (pos s) (pos n) ≡ pos ms)
      × (ms * 1_000_000 ≤ s * 1_000_000_000 + n)
      × (s * 1_000_000_000 + n < ms * 1_000_000 + 1_000_000)
unfolding epoll_timeout_ms
timeout_rounds_down s n p q = (s * 1000 + n / 1_000_000, ground arith, omega arith, omega arith)
