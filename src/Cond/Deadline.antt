-- ===== src/Cond/Deadline.antt =====
-- The conversion of the absolute time of `pthread_cond_timedwait` to a timeout.
use mlibc_glibc_compat.Prelude.{ℕ, ◌+◌, ◌*◌, ◌<◌, pos, pos_part, neg_part, ◌≤ℤ◌, ◌≡◌, arith}
use mlibc_glibc_compat.Cond.Wait.{Timespec, Timeout, expired, remaining, broken, timeout_of}

-- Nanoseconds that a time stands for, as a difference of two numbers.
abbrev pub nanos_pos : Timespec → ℕ
nanos_pos t = pos_part t.tv_sec * 1_000_000_000 + pos_part t.tv_nsec

abbrev pub nanos_neg : Timespec → ℕ
nanos_neg t = neg_part t.tv_sec * 1_000_000_000 + neg_part t.tv_nsec

abbrev pub IsNormal : Timespec → Type 0
IsNormal t = (pos 0 ≤ℤ t.tv_nsec) × (t.tv_nsec ≤ℤ pos 999_999_999)

-- The time `a` is before the time `b`.
abbrev pub IsBefore : Timespec → Timespec → Type 0
IsBefore a b = nanos_pos a + nanos_neg b < nanos_pos b + nanos_neg a

-- What a conversion owes its caller.
abbrev pub IsExact : (abstime now : Timespec) → Timeout → Type 0
IsExact abstime now expired = IsBefore abstime now
IsExact abstime now (remaining t) =
    IsNormal t
    × (pos 0 ≤ℤ t.tv_sec)
    × (nanos_pos t + nanos_pos now + nanos_neg abstime
        ≡ nanos_neg t + nanos_neg now + nanos_pos abstime)
IsExact abstime now broken = ⊥

-- For two times with nanoseconds from 0 to 999,999,999: the deadline counts as passed only if it is
-- before the present; otherwise the timeout is normal, not negative, and exactly the difference;
-- and no assertion of the conversion fails.
pub timeout_of-IsExact :
    (abstime now : Timespec)
    → IsNormal abstime
    → IsNormal now
    → IsExact abstime now (timeout_of abstime now)
unfolding timeout_of
timeout_of-IsExact abstime now p q = ground arith
