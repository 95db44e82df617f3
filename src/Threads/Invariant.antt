-- ===== src/Threads/Invariant.antt =====
-- What holds of the shared mutex and of each thread between two steps.
use mlibc_glibc_compat.Prelude.{ℕ, ◌+◌, ◌%◌, ◌^◌, ◌<◌, ◌≡◌, ◌≢◌, ◌↔◌, ◌⊎◌, Bool, true, false, ltb}
use mlibc_glibc_compat.Mutex.{Mutex, recursive_np, errorcheck_np, owner_of, has_waiters, kind_of}
use mlibc_glibc_compat.Mutex.Lock.{LockPc}
use mlibc_glibc_compat.Mutex.Trylock.{TryPc}
use mlibc_glibc_compat.Mutex.Unlock.{UnlockPc}
use mlibc_glibc_compat.Threads.{
  Activity, running, locking, asleep, trying, unlocking, crashed, System, IsTid,
}

-- A state word: an owner below 2^30, the waiters bit only beside an owner, and bit 30 never.
abbrev pub IsWord : ℕ → Type 0
IsWord s = (s < 2 ^ 32) × (s % 2 ^ 31 < 2 ^ 30) × (s % 2 ^ 30 ≡ 0 → s ≡ 0)

-- A thread owns the mutex from its compare-exchange on.
abbrev pub holds : ℕ → Activity → Bool
holds d (locking k LockPc.acquired) = true
holds d (trying k TryPc.acquired) = true
holds d _ = ltb 0 d

-- The recursion level that the owner has left in the mutex.
abbrev pub level : ℕ → Activity → ℕ
level d (locking k LockPc.acquired) = 0
level d (trying k TryPc.acquired) = 0
level d (unlocking k UnlockPc.exchange) = 0
level d _ = d

abbrev pub Relockable : Bool → Mutex → ℕ → Type 0
Relockable k m d =
    (0 < d → (kind_of k m ≡ recursive_np) ⊎ (kind_of k m ≡ errorcheck_np)) × (d + 1 < 2 ^ 32)

-- What the local variables of thread `i` say.
abbrev pub IsFresh : ℕ → Mutex → ℕ → Activity → Type 0
IsFresh i m d running = Unit {0}
IsFresh i m d (locking k (LockPc.attempt e)) =
    IsWord e × (owner_of e ≡ i → 0 < d) × (0 < d → (e ≡ 0) ⊎ (owner_of e ≡ i)) × Relockable k m d
IsFresh i m d (locking k LockPc.acquired) = (d ≡ 0) × Relockable k m d
IsFresh i m d (locking k (LockPc.waiting e)) =
    IsWord e × (has_waiters e ≡ true) × (d ≡ 0) × Relockable k m d
IsFresh i m d (locking k (LockPc.finished r)) = ⊥
IsFresh i m d (asleep k e) = (d ≡ 0) × Relockable k m d
IsFresh i m d (trying k TryPc.load) = d + 1 < 2 ^ 32
IsFresh i m d (trying k (TryPc.observed e)) = IsWord e × (owner_of e ≡ i → 0 < d) × (d + 1 < 2 ^ 32)
IsFresh i m d (trying k TryPc.acquired) = d ≡ 0
IsFresh i m d (trying k (TryPc.finished r)) = ⊥
IsFresh i m d (unlocking k UnlockPc.release) = 0 < d
IsFresh i m d (unlocking k UnlockPc.exchange) = d ≡ 1
IsFresh i m d (unlocking k (UnlockPc.check old)) = (d ≡ 0) × (owner_of old ≡ i)
IsFresh i m d (unlocking k UnlockPc.wake) = d ≡ 0
IsFresh i m d (unlocking k (UnlockPc.finished r)) = ⊥
IsFresh i m d crashed = ⊥

pub record Local (i : ℕ) (m : Mutex) (d : ℕ) (a : Activity) : Type 0 where
  pub owns : (holds d a ≡ true) ↔ (owner_of m.state ≡ i)
  pub counted : holds d a ≡ true → m.recursion ≡ level d a
  pub bounded : d < 2 ^ 32
  pub local : IsFresh i m d a

-- The word, and the level of a free mutex.
pub record Shared (m : Mutex) : Type 0 where
  pub word : IsWord m.state
  pub free : m.state ≡ 0 → m.recursion ≡ 0

-- What a step of thread `i` leaves alone.
pub record Frame (i : ℕ) (m m' : Mutex) : Type 0 where
  pub owner_kept : (j : ℕ) → 0 < j → j ≢ i → (owner_of m'.state ≡ j) ↔ (owner_of m.state ≡ j)
  pub level_kept : (j : ℕ) → 0 < j → j ≢ i → owner_of m.state ≡ j → m'.recursion ≡ m.recursion
  pub type_kept : (m'.flags ≡ m.flags) × (m'.kind ≡ m.kind)

-- A thread that has taken the waiters bit away and is about to wake the sleepers.
abbrev pub pending : Activity → Bool
pending (unlocking k (UnlockPc.check old)) = has_waiters old
pending (unlocking k UnlockPc.wake) = true
pending _ = false

abbrev pub sleeps : Activity → Bool
sleeps (asleep k e) = true
sleeps _ = false

abbrev pub Waker : System → Type 0
Waker s = (j : ℕ) × IsTid j × (pending (s.thread j).pc ≡ true)

-- No sleeper is forgotten.
abbrev pub IsAwaited : System → Type 0
IsAwaited s = (has_waiters s.mem.state ≡ true) ⊎ Waker s

pub record Inv (s : System) : Type 0 where
  pub shared : Shared s.mem
  pub each : (i : ℕ) → IsTid i → Local i s.mem (s.thread i).depth (s.thread i).pc
  pub awaited : (i : ℕ) → sleeps (s.thread i).pc ≡ true → IsAwaited s
