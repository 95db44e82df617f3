-- ===== src/Threads/Waits/Whole.antt =====
-- What holds of the threads between two moves, and how it passes to a world changed at one thread
-- (src/mlibc_thread.cpp).
use mlibc_glibc_compat.Prelude.{
  ℕ, ◌≡◌, ◌≢◌, ◌⊎◌, inl, inr, sym, arith, Bool, Option, none, some, update, update-all, update_both,
}
use mathlib.Core.Path.{subst}
use mlibc_glibc_compat.Mutex.{Mutex, kind_of}
use mlibc_glibc_compat.Threads.{
  running, Thread, System, Call, IsTid, turn, called, turned, interrupt, Step, calls, turns,
  interrupts, Reach,
}
use mlibc_glibc_compat.Threads.Turn.{turn-Frame}
use mlibc_glibc_compat.Threads.Invariant.{Inv}
use mlibc_glibc_compat.Threads.Waits.{Phase, announcing, World, entered}
use mlibc_glibc_compat.Threads.Waits.Invariant.{Fits, IsTyped, IsLatest, activity}

-- A thread that has counted a broadcast and is about to wake the sleepers, of any family of phases.
abbrev pub Announcer : (ℕ → Phase) → Type 0
Announcer f = (j : ℕ) × IsTid j × (f j ≡ announcing)

abbrev pub IsHeard : ℕ → (ℕ → Phase) → Type 0
IsHeard now f = Announcer f ⊎ ((i : ℕ) → IsLatest now (f i))

pub record Whole (Rec : Bool → Type 0) (w : World) : Type 0 where
  pub base : Inv w.base
  pub typed : IsTyped Rec w.base.mem
  pub each :
      (i : ℕ)
      → IsTid i
      → Fits Rec w.cond.seq (w.base.thread i).depth (w.base.thread i).pc (w.phase i)
  pub heard : IsHeard w.cond.seq w.phase

abbrev pub FitsAt : (Bool → Type 0) → ℕ → ℕ → Thread → Phase → Type 0
FitsAt Rec now j t p = IsTid j → Fits Rec now t.depth t.pc p

-- What a move keeps, and how it moves the mutex's threads.
abbrev pub Next : (Bool → Type 0) → World → World → Type 0
Next Rec w v = Whole Rec v × Reach w.base v.base

Announcer-kept :
    (f : ℕ → Phase) (i : ℕ) (p : Phase)
    → (f i ≡ announcing → p ≡ announcing)
    → Announcer f
    → Announcer (update f i p)
Announcer-kept f i p keep (j, t, e) =
    (j, t, update-all (λ k q. f k ≡ announcing → q ≡ announcing) f i p keep (λ k n h. h) j e)

pub IsHeard-update :
    (now : ℕ) (f : ℕ → Phase) (i : ℕ) (p : Phase)
    → (f i ≡ announcing → p ≡ announcing)
    → (IsLatest now (f i) → IsLatest now p)
    → IsHeard now f
    → IsHeard now (update f i p)
IsHeard-update now f i p keep latest (inl a) = inl (Announcer-kept f i p keep a)
IsHeard-update now f i p keep latest (inr all) =
    inr (update-all (λ k q. IsLatest now q) f i p (latest (all i)) (λ j n. all j))

-- The threads after one of them may have entered a mutex call.
pub entered_each :
    (P : ℕ → Thread → Phase → Type 0) (s : System) (g : ℕ → Phase) (i : ℕ) (c : Option Call)
    (p : Phase)
    → (s.thread i).pc ≡ running
    → P i (record { depth = (s.thread i).depth; pc = activity c }) p
    → ((j : ℕ) → j ≢ i → P j (s.thread j) (g j))
    → (j : ℕ) → P j ((entered i c s).thread j) (update g i p j)
unfolding called
entered_each P s g i none p r new old =
    update-all (λ k q. P k (s.thread k) q) g i p
      (subst (λ a. P i (record { depth = (s.thread i).depth; pc = a }) p) (sym r) new) old
entered_each P s g i (some c) p r new old = update_both P s.thread g i _ p new old

kind_kept :
    (k : Bool) (m m' : Mutex)
    → (m'.flags ≡ m.flags) × (m'.kind ≡ m.kind)
    → kind_of k m' ≡ kind_of k m
kind_kept k m m' e = ground arith

-- No step changes a mutex's type.
pub Step-IsTyped :
    {s t : System} (Rec : Bool → Type 0) → Step s t → Inv s → IsTyped Rec s.mem → IsTyped Rec t.mem
unfolding called turned interrupt
Step-IsTyped Rec (calls i c u r p) inv y k = y k
Step-IsTyped {s = s} Rec (turns i u) inv y k =
    let frame = turn-Frame i s.mem (s.thread i).depth (s.thread i).pc u inv.shared (inv.each i u) in
    let after = (turn i s.mem (s.thread i).depth (s.thread i).pc).0 in
    rw (kind_kept k s.mem after frame.type_kept) (y k)
Step-IsTyped Rec (interrupts i u) inv y k = y k
