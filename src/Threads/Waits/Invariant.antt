-- ===== src/Threads/Waits/Invariant.antt =====
-- What holds of each thread in a call on the condition, between two steps, and what one thread's
-- step makes of it (src/mlibc_thread.cpp).
use mlibc_glibc_compat.Prelude.{
  ℕ, ◌+◌, ◌^◌, ◌≤◌, ◌<◌, ◌≡◌, ◌↔◌, Bool, true, Option, none, some, refl, arith,
}
use mlibc_glibc_compat.Errno.{Errno, success, returns, aborts}
use mlibc_glibc_compat.Cond.Wait.{judge}
use mlibc_glibc_compat.Mutex.{Mutex, recursive_np, kind_of}
use mlibc_glibc_compat.Mutex.Lock.{LockPc, lock_step}
use mlibc_glibc_compat.Mutex.Unlock.{UnlockPc, unlock_step, unlock_woken}
use mlibc_glibc_compat.Threads.{
  Activity, running, locking, asleep, unlocking, Call, Permitted, IsTid, begin, turn, roused,
}
use mlibc_glibc_compat.Threads.Invariant.{Local, Shared}
use mlibc_glibc_compat.Threads.Waits.{
  Phase, outside, releasing, sleeping, woken, relocking, announcing, finished, IsOutside,
  next_phase, stirred, late, Disturbs,
}

-- An unlock that the wait makes gives up one level of `n`.
abbrev pub Unlocks : (n d : ℕ) → Activity → Type 0
Unlocks n d running = d + 1 ≡ n
Unlocks n d (unlocking k UnlockPc.release) = d ≡ n
Unlocks n d (unlocking k UnlockPc.exchange) = d ≡ n
Unlocks n d (unlocking k p) = d + 1 ≡ n
Unlocks n d _ = ⊥

-- A lock that the wait makes takes the level back.
abbrev pub Locks : Bool → (n d : ℕ) → Activity → Type 0
Locks k n d running = d ≡ n
Locks k n d (locking k' p) = (d + 1 ≡ n) × (k' ≡ k)
Locks k n d (asleep k' e) = (d + 1 ≡ n) × (k' ≡ k)
Locks k n d _ = ⊥

-- What an answer of the futex, or of the clock, says of the sequence number.
abbrev pub Answered : (timed : Bool) → (seq now : ℕ) → Errno → Type 0
Answered timed seq now Errno.success = Unit {0}
Answered timed seq now Errno.eintr = Unit {0}
Answered timed seq now Errno.eagain = seq < now
Answered timed seq now Errno.etimedout = timed ≡ true
Answered timed seq now _ = ⊥

-- The level of a wait. `Rec k` says that the mutex is recursive to the caller `k`.
abbrev pub IsLevel : (Rec : Bool → Type 0) → (k : Bool) → (n : ℕ) → Type 0
IsLevel Rec k n = (0 < n) × (n < 2 ^ 32) × (1 < n → Rec k)

abbrev pub Fits : (Rec : Bool → Type 0) → (now d : ℕ) → Activity → Phase → Type 0
Fits Rec now d a outside = Unit {0}
Fits Rec now d a (releasing k timed n seq) = (seq ≤ now) × Unlocks n d a × IsLevel Rec k n
Fits Rec now d a (sleeping k timed n seq) =
    (seq ≤ now) × (a ≡ running) × (d + 1 ≡ n) × IsLevel Rec k n
Fits Rec now d a (woken k timed n seq e) =
    (seq ≤ now) × (a ≡ running) × (d + 1 ≡ n) × Answered timed seq now e × IsLevel Rec k n
Fits Rec now d a (relocking k timed n seq e) =
    (seq ≤ now) × Locks k n d a × Answered timed seq now e × IsLevel Rec k n
Fits Rec now d a announcing = a ≡ running
Fits Rec now d a (finished (returns e)) = Unit {0}
Fits Rec now d a (finished aborts) = ⊥

-- A sleeper has read the number that the condition has.
abbrev pub IsLatest : ℕ → Phase → Type 0
IsLatest now (sleeping k timed n seq) = seq ≡ now
IsLatest now _ = Unit {0}

turn-Unlocks :
    (i : ℕ) (m : Mutex) (n d : ℕ) (a : Activity)
    → IsTid i
    → Local i m d a
    → Unlocks n d a
    → let (m', t) = turn i m d a in Unlocks n t.depth t.pc
unfolding turn unlock_step unlock_woken
turn-Unlocks i m n d running u l h = h
turn-Unlocks i m n d (unlocking k UnlockPc.release) u l h = ground arith
turn-Unlocks i m n d (unlocking k UnlockPc.exchange) u l h = ground arith
turn-Unlocks i m n d (unlocking k (UnlockPc.check old)) u l h = ground arith
turn-Unlocks i m n d (unlocking k UnlockPc.wake) u l h = ground arith
turn-Unlocks i m n d (unlocking k (UnlockPc.finished r)) u l h = ground arith
turn-Unlocks i m n d _ u l h = absurd h

turn-Locks :
    (i : ℕ) (m : Mutex) (k : Bool) (n d : ℕ) (a : Activity)
    → IsTid i
    → Shared m
    → Local i m d a
    → (1 < n → kind_of k m ≡ recursive_np)
    → Locks k n d a
    → let (m', t) = turn i m d a in Locks k n t.depth t.pc
unfolding turn lock_step
turn-Locks i m k n d running u s l y h = h
turn-Locks i m k n d (asleep k' e) u s l y h = h
turn-Locks i m k n d (locking k' (LockPc.attempt e)) u s l y h = ground arith
turn-Locks i m k n d (locking k' LockPc.acquired) u s l y h = ground arith
turn-Locks i m k n d (locking k' (LockPc.waiting e)) u s l y h = ground arith
turn-Locks i m k n d (locking k' (LockPc.finished r)) u s l y h = ground arith
turn-Locks i m k n d _ u s l y h = absurd h

same_level : {d d' n : ℕ} → d' ≡ d → d + 1 ≡ n → d' + 1 ≡ n
same_level e h = omega (arith, e, h)

running_stays :
    (i : ℕ) (m : Mutex) (d : ℕ) (a : Activity)
    → a ≡ running
    → ((turn i m d a).1.pc ≡ running) × ((turn i m d a).1.depth ≡ d)
unfolding turn
running_stays i m d running h = (refl, refl)
running_stays i m d _ h = cc

-- `Rec` is to which callers the mutex `m` is recursive.
abbrev pub IsTyped : (Bool → Type 0) → Mutex → Type 0
IsTyped Rec m = (k : Bool) → Rec k ↔ (kind_of k m ≡ recursive_np)

module _ (Rec : Bool → Type 0) where
  -- A step in a mutex call.
  pub turn-Fits :
      (i : ℕ) (m : Mutex) (now d : ℕ) (a : Activity) (p : Phase)
      → IsTid i
      → Shared m
      → IsTyped Rec m
      → Local i m d a
      → Fits Rec now d a p
      → let (m', t) = turn i m d a in Fits Rec now t.depth t.pc p
  turn-Fits i m now d a outside u s y l f = f
  turn-Fits i m now d a (releasing k timed n seq) u s y l f =
      (f.0, turn-Unlocks i m n d a u l f.1, f.2)
  turn-Fits i m now d a (sleeping k timed n seq) u s y l f =
      let (r, same) = running_stays i m d a f.1 in (f.0, r, same_level same f.2, f.3)
  turn-Fits i m now d a (woken k timed n seq e) u s y l f =
      let (r, same) = running_stays i m d a f.1 in (f.0, r, same_level same f.2, f.3, f.4)
  turn-Fits i m now d a (relocking k timed n seq e) u s y l f =
      (f.0, turn-Locks i m k n d a u s l (λ b. (y k).0 (f.3.2 b)) f.1, f.2, f.3)
  turn-Fits i m now d a announcing u s y l f = (running_stays i m d a f).0
  turn-Fits i m now d a (finished (returns e)) u s y l f = f
  turn-Fits i m now d a (finished aborts) u s y l f = f

pub roused-Fits :
    (Rec : Bool → Type 0) (now d : ℕ) (a : Activity) (p : Phase)
    → Fits Rec now d a p
    → Fits Rec now d (roused a) p
roused-Fits Rec now d (asleep k e) p f = ground arith
roused-Fits Rec now d _ p f = f

-- What thread `i` is in after it has entered a call, or none.
abbrev pub activity : Option Call → Activity
activity none = running
activity (some c) = begin c

abbrev pub IsAllowed : Mutex → ℕ → Option Call → Type 0
IsAllowed m d none = Unit {0}
IsAllowed m d (some c) = Permitted m d c

-- A step in a call on the condition.
pub next-Fits :
    (Rec : Bool → Type 0) (m : Mutex) (now d : ℕ) (p : Phase)
    → IsTyped Rec m
    → Fits Rec now d running p
    → let (p', c) = next_phase now d p in Fits Rec now d (activity c) p' × IsAllowed m d c
unfolding next_phase judge
next-Fits Rec m now d outside y f = (tt, tt)
next-Fits Rec m now d (releasing k timed n seq) y f = ground arith
next-Fits Rec m now d (sleeping k timed n seq) y f = (f, tt)
next-Fits Rec m now d (woken k timed n seq e) y f = ground (arith, λ (b : 1 < n). (y k).0 (f.4.2 b))
next-Fits Rec m now d (relocking k timed n seq e) y f = ground arith
next-Fits Rec m now d announcing y f = (tt, tt)
next-Fits Rec m now d (finished r) y f = (f, tt)

pub next-IsLatest : (now d : ℕ) (p : Phase) → IsLatest now p → IsLatest now (next_phase now d p).0
unfolding next_phase judge
next-IsLatest now d (releasing k timed n seq) l = ground arith
next-IsLatest now d (relocking k timed n seq e) l = ground arith
next-IsLatest now d p l = ground arith

-- The wake of a broadcast.
pub stirred-Fits :
    (Rec : Bool → Type 0) (now d : ℕ) (a : Activity) (p : Phase)
    → Fits Rec now d a p
    → Fits Rec now d a (stirred success p)
stirred-Fits Rec now d a (sleeping k timed n seq) f = (f.0, f.1, f.2, tt, f.3)
stirred-Fits Rec now d a p f = ground arith

pub disturbed-Fits :
    (Rec : Bool → Type 0) (now d : ℕ) (a : Activity) (p : Phase) (e : Errno)
    → Disturbs p e
    → Fits Rec now d a p
    → Fits Rec now d a (stirred e p)
disturbed-Fits Rec now d a (sleeping k timed n seq) e x f = ground arith
disturbed-Fits Rec now d a p e x f = ground arith

pub stirred-IsLatest : (now : ℕ) (e : Errno) (p : Phase) → IsLatest now (stirred e p)
stirred-IsLatest now e (sleeping k timed n seq) = tt
stirred-IsLatest now e p = ground arith

pub late-Fits :
    (Rec : Bool → Type 0) (now d : ℕ) (a : Activity) (p : Phase)
    → a ≡ running
    → Fits Rec now d a p
    → Fits Rec now d a (late d p)
late-Fits Rec now d a (releasing k true n seq) e f = ground arith
late-Fits Rec now d a p e f = ground arith

pub late-IsLatest : (now d : ℕ) (p : Phase) → IsLatest now p → IsLatest now (late d p)
late-IsLatest now d (releasing k true n seq) l = ground arith
late-IsLatest now d p l = ground arith

-- A broadcast only counts up.
pub Fits-mono :
    (Rec : Bool → Type 0) (now later d : ℕ) (a : Activity) (p : Phase)
    → now ≤ later
    → Fits Rec now d a p
    → Fits Rec later d a p
Fits-mono Rec now later d a (woken k timed n seq Errno.eagain) b f = ground arith
Fits-mono Rec now later d a (woken k timed n seq e) b f = ground arith
Fits-mono Rec now later d a (relocking k timed n seq Errno.eagain) b f = ground arith
Fits-mono Rec now later d a (relocking k timed n seq e) b f = ground arith
Fits-mono Rec now later d a p b f = ground arith

-- A thread that is not in a call on the condition may have any activity.
pub outside-Fits :
    (Rec : Bool → Type 0) (now d : ℕ) (a : Activity) (p : Phase)
    → IsOutside p
    → Fits Rec now d a p × IsLatest now p
outside-Fits Rec now d a outside o = (tt, tt)
outside-Fits Rec now d a (finished (returns e)) o = (tt, tt)
outside-Fits Rec now d a p o = ground arith
