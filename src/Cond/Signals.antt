-- ===== src/Cond/Signals.antt =====
-- What broadcasts do for a thread in `pthread_cond_wait` (src/mlibc_thread.cpp).
use mlibc_glibc_compat.Prelude.{
  ℕ, zero, suc, ◌+◌, ◌%◌, ◌^◌, ◌≤◌, ◌<◌, ◌≡◌, ◌⊎◌, inr, refl, arith, none, List, [], ◌∷◌, ◌++◌, ◌∙◌,
}
use mlibc_glibc_compat.Errno.{Errno, success, eagain, eintr, Outcome, returns, aborts}
use mlibc_glibc_compat.Cond.{Cond, cond_broadcast}
use mlibc_glibc_compat.Cond.Wait.{
  Round, ended, again, judge, sleep_round, wait_round, wait_loop, cond_wait,
}

-- `n` broadcasts, each of which wakes the waiters with no error.
unfoldable pub broadcasts : ℕ → Cond → Cond
broadcasts zero c = c
broadcasts (suc n) c = broadcasts n (cond_broadcast success c).1

seq-broadcasts : (n : ℕ) (c : Cond) → c.seq < 2 ^ 32 → (broadcasts n c).seq ≡ (c.seq + n) % 2 ^ 32
unfolding broadcasts cond_broadcast
seq-broadcasts zero c h = omega arith
seq-broadcasts (suc n) c h =
    omega (arith, seq-broadcasts n (cond_broadcast success c).1 (omega arith))

-- A round of a wait with no deadline in which the mutex is released and taken again.
abbrev pub IsOrderly : Round → Type 0
IsOrderly r = (r.unlocked ≡ success) × (r.relocked ≡ success)

-- A round that ends the wait for nobody: a signal handler ran, or the wait returned for nothing.
abbrev pub IsIdle : ℕ → Round → Type 0
IsIdle seq r = IsOrderly r × ((r.waited ≡ eintr) ⊎ ((r.waited ≡ success) × (r.cur_seq ≤ seq)))

abbrev pub AllIdle : ℕ → List Round → Type 0
AllIdle seq [] = Unit {0}
AllIdle seq (r ∷ rs) = IsIdle seq r × AllIdle seq rs

idle_again : (seq : ℕ) (r : Round) → IsIdle seq r → (wait_round seq none r).1 ≡ again
unfolding wait_round sleep_round judge
idle_again seq r h = ground arith

skip_idle :
    (seq : ℕ) (is rs : List Round)
    → AllIdle seq is
    → wait_loop seq none (is ++ rs) ≡ wait_loop seq none rs
unfolding wait_loop
skip_idle seq [] rs h = refl
skip_idle seq (r ∷ is) rs h = rw (idle_again seq r h.0, wait_loop) (skip_idle seq is rs h.1)

-- The waiter sleeps until it is woken, or finds that the number has changed before it sleeps.
abbrev pub IsWoken : Round → Type 0
IsWoken r = (r.waited ≡ success) ⊎ (r.waited ≡ eagain)

woken_ends :
    (seq : ℕ) (r : Round)
    → IsOrderly r
    → IsWoken r
    → seq < r.cur_seq
    → (wait_round seq none r).1 ≡ ended (returns success)
unfolding wait_round sleep_round judge
woken_ends seq r o w h = ground arith

refused_aborts :
    (seq : ℕ) (r : Round)
    → IsOrderly r
    → r.waited ≡ eagain
    → r.cur_seq ≤ seq
    → (wait_round seq none r).1 ≡ ended aborts
unfolding wait_round sleep_round judge
refused_aborts seq r o w h = ground arith

pub loop_head :
    (seq : ℕ) (r : Round) (rs : List Round) (o : Outcome Errno)
    → (wait_round seq none r).1 ≡ ended o
    → wait_loop seq none (r ∷ rs) ≡ ended o
unfolding wait_loop
loop_head seq r rs o h = rw (h, wait_loop)

-- A waiter on a private condition, `n` broadcasts of which (at least one) leave the sequence number
-- below 2^32: after any number of idle rounds, the first round in which it is woken ends the wait
-- with 0, whatever rounds might follow.
pub broadcast_releases :
    (c : Cond) (n : ℕ) (is rs : List Round) (r : Round)
    → c.flags ≡ 0
    → 0 < n
    → c.seq + n < 2 ^ 32
    → AllIdle c.seq is
    → IsOrderly r
    → IsWoken r
    → r.cur_seq ≡ (broadcasts n c).seq
    → cond_wait c.flags c.seq (is ++ r ∷ rs) ≡ ended (returns success)
unfolding cond_wait
broadcast_releases c n is rs r f p b idle o w e = rw f (
    skip_idle c.seq is (r ∷ rs) idle
    ∙ loop_head c.seq r rs _
        (woken_ends c.seq r o w (omega (arith, seq-broadcasts n c (omega arith)))))

-- The same waiter when the broadcasts (fewer than 2^32) bring the number past 2^32 - 1 to 0 and on:
-- a wakeup is taken for a spurious one and the wait goes on, and a wait that the kernel refuses
-- because the number has changed ends the program.
pub wrapped_broadcast_lost :
    (c : Cond) (n : ℕ) (is rs : List Round) (r : Round)
    → c.flags ≡ 0
    → c.seq < 2 ^ 32
    → n < 2 ^ 32
    → 2 ^ 32 ≤ c.seq + n
    → AllIdle c.seq is
    → IsOrderly r
    → r.cur_seq ≡ (broadcasts n c).seq
    → (r.waited ≡ success → cond_wait c.flags c.seq (is ++ r ∷ rs) ≡ cond_wait c.flags c.seq rs)
      × (r.waited ≡ eagain → cond_wait c.flags c.seq (is ++ r ∷ rs) ≡ ended aborts)
unfolding cond_wait
wrapped_broadcast_lost c n is rs r f s m b idle o e =
    let fell : r.cur_seq ≤ c.seq = omega (arith, seq-broadcasts n c s) in
    (
      λ w.
          rw f (
            skip_idle c.seq is (r ∷ rs) idle
            ∙ skip_idle c.seq (r ∷ []) rs ((o, inr (w, fell)), tt)),
      λ w. rw f (
          skip_idle c.seq is (r ∷ rs) idle
          ∙ loop_head c.seq r rs _ (refused_aborts c.seq r o w fell)),
    )
