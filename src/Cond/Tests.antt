-- ===== src/Cond/Tests.antt =====
-- Waits on concrete conditions.
use mlibc_glibc_compat.Prelude.{ℤ, pos, ◌≡◌, refl, inl, some, [], ◌∷◌, arith}
use mlibc_glibc_compat.Errno.{success, eintr, eagain, etimedout, returns, aborts}
use mlibc_glibc_compat.Mutex.Attr.{Constants}
use mlibc_glibc_compat.Cond.{Cond, cond_broadcast, cond_init}
use mlibc_glibc_compat.Cond.Attr.{Condattr, Clocks}
use mlibc_glibc_compat.Cond.Wait.{Timespec, Round, ended, timeout_of, cond_timedwait, cond_wait}
use mlibc_glibc_compat.Cond.Deadline.{IsExact, timeout_of-IsExact}
use mlibc_glibc_compat.Cond.Results.{Explained, cond_timedwait-Explained}
use mlibc_glibc_compat.Cond.Signals.{broadcasts, broadcast_releases, wrapped_broadcast_lost}

abbrev at : ℤ → ℤ → Timespec
at s n = record { tv_sec = s; tv_nsec = n }

-- A deadline at 7.1 s, 1.2 s ahead.
timeout_of-IsExact_example :
    IsExact
      (at (pos 7) (pos 100_000_000))
      (at (pos 5) (pos 900_000_000))
      (timeout_of (at (pos 7) (pos 100_000_000)) (at (pos 5) (pos 900_000_000)))
timeout_of-IsExact_example =
    timeout_of-IsExact (at (pos 7) (pos 100_000_000)) (at (pos 5) (pos 900_000_000))
      (ground arith, ground arith) (ground arith, ground arith)

-- A signal handler runs, and then the wait times out.
abbrev interrupted : Round
interrupted = record {
  unlocked = success;
  now = some (at (pos 5) (pos 900_000_000));
  waited = eintr;
  relocked = success;
  cur_seq = 1;
}

abbrev too_late : Round
too_late = record interrupted { waited = etimedout }

cond_timedwait-Explained_example :
    Explained 1 (some (at (pos 7) (pos 100_000_000))) (interrupted ∷ too_late ∷ []) etimedout
unfolding cond_timedwait mlibc_glibc_compat.Cond.Wait.wait_round
cond_timedwait-Explained_example =
    cond_timedwait-Explained 0 1 (some (at (pos 7) (pos 100_000_000))) (interrupted ∷ too_late ∷ [])
      etimedout times_out
  where
    times_out :
        cond_timedwait 0 1 (some (at (pos 7) (pos 100_000_000))) (interrupted ∷ too_late ∷ [])
        ≡ ended (returns etimedout)
    times_out = refl

abbrev fresh : Cond
fresh = record { seq = 1; flags = 0; clock = pos 0 }

abbrev woken : Round
woken = record interrupted { waited = success; cur_seq = 3 }

broadcast_releases_example :
    cond_wait 0 1 (interrupted ∷ woken ∷ interrupted ∷ []) ≡ ended (returns success)
unfolding broadcasts cond_broadcast
broadcast_releases_example =
    broadcast_releases fresh 2 (interrupted ∷ []) (interrupted ∷ []) woken refl (omega arith)
      (omega arith) (((refl, refl), inl refl), tt) (refl, refl) (inl refl) counted
  where
    counted : 3 ≡ (broadcasts 2 fresh).seq
    counted = refl

-- The last sequence number before the wrap.
abbrev last : Cond
last = record { seq = 4_294_967_295; flags = 0; clock = pos 0 }

-- The waiter finds the number changed before it sleeps.
abbrev wrapped : Round
wrapped = record interrupted { waited = eagain; cur_seq = 0 }

wrapped_broadcast_lost_example :
    (eagain ≡ success
      → cond_wait 0 4_294_967_295 (wrapped ∷ woken ∷ []) ≡ cond_wait 0 4_294_967_295 (woken ∷ []))
    × (eagain ≡ eagain → cond_wait 0 4_294_967_295 (wrapped ∷ woken ∷ []) ≡ ended aborts)
unfolding broadcasts cond_broadcast
wrapped_broadcast_lost_example =
    wrapped_broadcast_lost last 1 [] (woken ∷ []) wrapped refl (omega arith) (omega arith)
      (omega arith) tt (refl, refl) refl

-- The ids of Linux.
abbrev linux_clocks : Clocks
linux_clocks = record {
  realtime = pos 0;
  monotonic = pos 1;
  monotonic_raw = pos 4;
  realtime_coarse = pos 5;
  monotonic_coarse = pos 6;
  boottime = pos 7;
}

abbrev defaults : Condattr
defaults = record { pshared = pos 0; clock = pos 0 }

abbrev conditions_header : Constants
conditions_header = record {
  mutex_stalled = pos 0;
  mutex_robust = pos 1;
  process_private = pos 0;
  process_shared = pos 1;
  prio_none = pos 0;
  prio_inherit = pos 1;
  prio_protect = pos 2;
}
