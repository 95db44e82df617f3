-- ===== src/Threads/Steps.antt =====
-- Every step keeps the invariant.
use mlibc_glibc_compat.Prelude.{
  ℕ, ◌≡◌, inl, inr, refl, true, false, arith, update, update_self, update-all, Bool-cases,
  if◌then◌else◌,
}
use mlibc_glibc_compat.Mutex.{has_waiters}
use mlibc_glibc_compat.Threads.{
  Activity, running, Thread, System, Call, IsTid, Permitted, begin, turn, wakes, rouse, roused,
  called, turned, interrupt, Step, calls, turns, interrupts, IsInitial, Reach, here, next,
}
use mlibc_glibc_compat.Threads.Invariant.{Local, Inv, pending, sleeps, IsAwaited}
use mlibc_glibc_compat.Threads.Turn.{
  turn-Shared, turn-Frame, turn-Local, turn-pending, pending-turn, turn-sleeps, Local-Frame,
  Local-roused, Local-begin,
}

-- A thread that is about to wake the sleepers, of any family of threads.
abbrev WakerOf : (ℕ → Thread) → Type 0
WakerOf f = (j : ℕ) × IsTid j × (pending (f j).pc ≡ true)

-- A change that spares the threads about to wake the sleepers.
waker_kept :
    (f g : ℕ → Thread)
    → ((j : ℕ) → pending (f j).pc ≡ true → pending (g j).pc ≡ true)
    → WakerOf f
    → WakerOf g
waker_kept f g keep (j, t, p) = (j, t, keep j p)

pending-update :
    (f : ℕ → Thread) (i : ℕ) (t : Thread)
    → (pending (f i).pc ≡ true → pending t.pc ≡ true)
    → (j : ℕ) → pending (f j).pc ≡ true
    → pending (update f i t j).pc ≡ true
pending-update f i t keep =
    update-all (λ j u. pending (f j).pc ≡ true → pending u.pc ≡ true) f i t keep (λ j n p. p)

-- A change at one thread that makes no sleeper keeps every sleeper awaited.
IsAwaited-update :
    (s : System) (i : ℕ) (t : Thread)
    → Inv s
    → (sleeps t.pc ≡ true → sleeps (s.thread i).pc ≡ true)
    → (pending (s.thread i).pc ≡ true → pending t.pc ≡ true)
    → (j : ℕ) → sleeps (update s.thread i t j).pc ≡ true
    → IsAwaited (record s { thread = update s.thread i t })
IsAwaited-update s i t inv asleep keep j h = elim (inv.awaited j (before j h)) [
  | inl bit ↦ inl bit
  | inr w ↦ inr (waker_kept s.thread (update s.thread i t) (pending-update s.thread i t keep) w)
]
  where
    before : (k : ℕ) → sleeps (update s.thread i t k).pc ≡ true → sleeps (s.thread k).pc ≡ true
    before =
        update-all (λ k u. sleeps u.pc ≡ true → sleeps (s.thread k).pc ≡ true) s.thread i t asleep
          (λ k n q. q)

abbrev LocalOf : System → ℕ → Thread → Type 0
LocalOf s j t = IsTid j → Local j s.mem t.depth t.pc

begin_awake : (c : Call) → (sleeps (begin c) ≡ false) × (pending running ≡ false)
begin_awake (Call.lock k) = (refl, refl)
begin_awake (Call.trylock k) = (refl, refl)
begin_awake (Call.unlock k) = (refl, refl)

called-Inv :
    (i : ℕ) (c : Call) (s : System)
    → IsTid i
    → (s.thread i).pc ≡ running
    → Permitted s.mem (s.thread i).depth c
    → Inv s
    → Inv (called i c s)
unfolding called
called-Inv i c s t e p inv = record {
  shared = inv.shared;
  each =
      update-all (LocalOf s) s.thread i _
        (λ u. Local-begin i s.mem (s.thread i).depth c t p (rw e at (inv.each i t)))
        (λ j n. inv.each j);
  awaited = IsAwaited-update s i _ inv (λ h. cc (begin_awake c).0) (λ h. cc);
}

roused_awake : (a : Activity) → sleeps (roused a) ≡ false
roused_awake (Activity.asleep k e) = refl
roused_awake (Activity.locking k p) = refl
roused_awake _ = refl

pending-roused : (a : Activity) → pending a ≡ true → pending (roused a) ≡ true
pending-roused (Activity.asleep k e) h = h
pending-roused _ h = h

interrupt-Inv : (i : ℕ) (s : System) → IsTid i → Inv s → Inv (interrupt i s)
unfolding interrupt
interrupt-Inv i s t inv = record {
  shared = inv.shared;
  each =
      update-all (LocalOf s) s.thread i _
        (λ u. Local-roused i s.mem (s.thread i).depth (s.thread i).pc t (inv.each i t))
        (λ j n. inv.each j);
  awaited =
      IsAwaited-update s i _ inv (λ h. cc (roused_awake (s.thread i).pc))
        (pending-roused (s.thread i).pc);
}

asleep_not_waking : (a : Activity) → sleeps a ≡ true → wakes a ≡ false
asleep_not_waking (Activity.asleep k e) h = refl
asleep_not_waking _ h = cc

-- The other threads at a step of thread `i`.
abbrev others : ℕ → System → ℕ → Thread
others i s = if wakes (s.thread i).pc then (λ j. rouse (s.thread j)) else s.thread

others-Local :
    (i : ℕ) (s : System) (j : ℕ)
    → Inv s
    → IsTid j
    → Local j s.mem (others i s j).depth (others i s j).pc
others-Local i s j inv u = elim (Bool-cases (wakes (s.thread i).pc)) [
  | inl w ↦ rw w (Local-roused j s.mem (s.thread j).depth (s.thread j).pc u (inv.each j u))
  | inr q ↦ rw q (inv.each j u)
]

module _ (i : ℕ) (s : System) (t : IsTid i) (inv : Inv s) where
  abbrev Awaited : Type 0
  Awaited = IsAwaited (turned i s)

  -- The bit stays, or thread `i` has taken it away.
  awaited_bit : has_waiters s.mem.state ≡ true → Awaited
  unfolding turned
  awaited_bit bit = elim (turn-pending i s.mem (s.thread i).depth (s.thread i).pc bit) [
    | inl still ↦ inl still
    | inr p ↦ inr (i, t, rw (update_self (others i s) i _) p)
  ]

  abbrev next_thread : Thread
  next_thread = (turn i s.mem (s.thread i).depth (s.thread i).pc).1

  stays :
      wakes (s.thread i).pc ≡ false
      → pending (others i s i).pc ≡ true
      → pending next_thread.pc ≡ true
  stays q p =
      elim (pending-turn i s.mem (s.thread i).depth (s.thread i).pc t (inv.each i t) (rw q at p)) [
        | inl x ↦ cc
        | inr y ↦ y
      ]

  awaited_after : wakes (s.thread i).pc ≡ false → IsAwaited s → Awaited
  unfolding turned
  awaited_after q (inl bit) = awaited_bit bit
  awaited_after q (inr w) = inr (
      waker_kept (others i s) (update (others i s) i next_thread)
        (pending-update (others i s) i next_thread (stays q)) (rw q w))

  self_awaited : sleeps next_thread.pc ≡ true → Awaited
  unfolding turned
  self_awaited h = elim (turn-sleeps i s.mem (s.thread i).depth (s.thread i).pc (inv.each i t) h) [
    | inl old ↦ awaited_after (asleep_not_waking (s.thread i).pc old) (inv.awaited i old)
    | inr bit ↦ inl bit
  ]

  other_awaited : (j : ℕ) → sleeps (others i s j).pc ≡ true → Awaited
  other_awaited j h = elim (Bool-cases (wakes (s.thread i).pc)) [
    | inl w ↦
        let awake : sleeps (roused (s.thread j).pc) ≡ true = rw w at h in
        cc (roused_awake (s.thread j).pc)
    | inr q ↦ awaited_after q (inv.awaited j (rw q at h))
  ]

  turned_awaited : (j : ℕ) → sleeps ((turned i s).thread j).pc ≡ true → Awaited
  unfolding turned
  turned_awaited =
      update-all (λ j u. sleeps u.pc ≡ true → Awaited) (others i s) i next_thread self_awaited
        (λ j n. other_awaited j)

  turned-Inv : Inv (turned i s)
  unfolding turned
  turned-Inv = record {
    shared = turn-Shared i s.mem (s.thread i).depth (s.thread i).pc t inv.shared (inv.each i t);
    each =
        update-all (LocalOf (turned i s)) (others i s) i _
          (λ u. turn-Local i s.mem (s.thread i).depth (s.thread i).pc t inv.shared (inv.each i t))
          (λ j n u.
            Local-Frame i j s.mem _ _ _ u.0 n
              (turn-Frame i s.mem (s.thread i).depth (s.thread i).pc t inv.shared (inv.each i t))
              (others-Local i s j inv u));
    awaited = turned_awaited;
  }

initial-Inv : (s : System) → IsInitial s → Inv s
initial-Inv s h = record {
  shared = record { word = ground (arith, h.free); free = λ _. h.free.1 };
  each = λ i t. rw (h.fresh i) (ground (arith, h.free));
  awaited = λ i q. cc (h.fresh i);
}

pub Step-Inv : {s t : System} → Step s t → Inv s → Inv t
Step-Inv {s} (calls i c t e p) inv = called-Inv i c s t e p inv
Step-Inv {s} (turns i t) inv = turned-Inv i s t inv
Step-Inv {s} (interrupts i t) inv = interrupt-Inv i s t inv

pub Reach-Inv : {s t : System} → IsInitial s → Reach s t → Inv t
Reach-Inv {s} h here = initial-Inv s h
Reach-Inv h (next r st) = Step-Inv st (Reach-Inv h r)
