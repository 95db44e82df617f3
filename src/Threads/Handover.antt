-- ===== src/Threads/Handover.antt =====
-- From the owner's unlock to a sleeper's lock (src/mlibc_thread.cpp).
use mlibc_glibc_compat.Prelude.{
  ℕ, zero, suc, ◌<◌, ◌≡◌, ◌≢◌, refl, sym, arith, ◌∙◌, ap, Bool, true, update_self, update_other,
  if◌then◌else◌,
}
use mlibc_glibc_compat.Mutex.{Mutex, owner_of, has_waiters}
use mlibc_glibc_compat.Mutex.Lock.{LockPc}
use mlibc_glibc_compat.Mutex.Unlock.{UnlockPc, unlock_step, unlock_woken}
use mlibc_glibc_compat.Threads.{
  Activity, running, locking, asleep, unlocking, Thread, System, Call, IsTid, IsInitial, Reach,
  next, wakes, rouse, roused, turn, turned, called,
}
use mlibc_glibc_compat.Threads
use mlibc_glibc_compat.Threads.Progress.{solo, turned_self, turned_other, free_lock_returns}
use mlibc_glibc_compat.Threads.Safety.{recursion_counts}

-- A call of unlock by thread `j`, of four steps.
abbrev pub unlocked_by : (j : ℕ) → Bool → System → System
unlocked_by j k s = solo 4 j (called j (Call.unlock k) s)

-- What is known of the mutex, thread `j` and thread `i`.
abbrev Shows : (i j : ℕ) → System → Mutex → (d : ℕ) → Activity → Thread → Type 0
Shows i j s m d a u = (s.mem ≡ m) × (s.thread j ≡ record { depth = d; pc = a }) × (s.thread i ≡ u)

shown_turn :
    (i j : ℕ) (s : System) (m m' : Mutex) (d d' : ℕ) (a a' : Activity) (u : Thread)
    → i ≢ j
    → Shows i j s m d a u
    → turn j m d a ≡ (m', record { depth = d'; pc = a' })
    → Shows i j (turned j s) m' d' a' (if wakes a then rouse u else u)
unfolding turned
shown_turn i j s m m' d d' a a' u n (e, f, g) q =
    let step : turn j s.mem (s.thread j).depth (s.thread j).pc
        ≡ (m', record { depth = d'; pc = a' }) =
      ap (λ (x : Mutex). turn j x (s.thread j).depth (s.thread j).pc) e
      ∙ ap (λ (x : Thread). turn j m x.depth x.pc) f
      ∙ q in
    (
      ap (λ r. r.0) step,
      turned_self j s ∙ ap (λ r. r.1) step,
      turned_other i j s n
          ∙ ap (λ (x : Thread). if wakes x.pc then rouse (s.thread i) else s.thread i) f
          ∙ ap (λ (x : Thread). if wakes a then rouse x else x) g,
    )

-- The unlock by the owner at level 1, of a mutex with the waiters bit.
unlock_turns :
    (i j : ℕ) (s : System) (m : Mutex) (k : Bool) (u : Thread)
    → i ≢ j
    → 0 < j
    → owner_of m.state ≡ j
    → has_waiters m.state ≡ true
    → m.recursion ≡ 1
    → Shows i j s m 1 (unlocking k UnlockPc.release) u
    → Shows i j (solo 4 j s) (record m { state = 0; recursion = 0 }) 0 running (rouse u)
unfolding turn unlock_step unlock_woken
unlock_turns i j s m k u n p o b r h =
    let m1 : Mutex = record m { recursion = 0 } in
    let m2 : Mutex = record m { state = 0; recursion = 0 } in
    let s1 =
      shown_turn i j s m m1 1 1 (unlocking k UnlockPc.release) (unlocking k UnlockPc.exchange) u n h
        (ground arith) in
    let s2 =
      shown_turn i j (turned j s) m1 m2 1 0 (unlocking k UnlockPc.exchange)
        (unlocking k (UnlockPc.check m.state)) u n s1 (ground arith) in
    let s3 =
      shown_turn i j (turned j (turned j s)) m2 m2 0 0 (unlocking k (UnlockPc.check m.state))
        (unlocking k UnlockPc.wake) u n s2 (ground arith) in
    shown_turn i j (turned j (turned j (turned j s))) m2 m2 0 0 (unlocking k UnlockPc.wake) running
      u n s3 (ground arith)

solo_reached : (n j : ℕ) (s t : System) → IsTid j → Reach s t → Reach s (solo n j t)
solo_reached zero j s t u r = r
solo_reached (suc n) j s t u r = solo_reached n j s (turned j t) u (next r (Threads.turns j u))

-- In every state that is reached from a free mutex by permitted calls: where a thread sleeps in a call of
-- lock, another is between two calls with one level of the mutex, and the word has the waiters bit, the
-- other's unlock returns after four steps with no level left, and after four steps more, of its own,
-- the sleeper is back from its call and owns the mutex, at level 1.
pub unlock_hands_over :
    {s t : System} (i j : ℕ) (k k' : Bool) (e : ℕ)
    → IsInitial s
    → Reach s t
    → IsTid i
    → IsTid j
    → (t.thread i).pc ≡ asleep k e
    → (t.thread j).pc ≡ running
    → (t.thread j).depth ≡ 1
    → has_waiters t.mem.state ≡ true
    → let u = unlocked_by j k' t in
      (u.thread j ≡ record { depth = 0; pc = running })
      × ((solo 4 i u).thread i ≡ record { depth = 1; pc = running })
      × ((solo 4 i u).mem.state ≡ i)
unfolding called
unlock_hands_over {s} {t} i j k k' e start r x y p q l b =
    let apart : i ≢ j = λ same. cc (sym p ∙ ap (λ a. (t.thread a).pc) same ∙ q) in
    let counts = recursion_counts start r j y q in
    let has : 0 < (t.thread j).depth = omega (arith, l) in
    let reach = next r (Threads.calls j (Call.unlock k') y q has) in
    let before : Shows i j (called j (Call.unlock k') t) t.mem 1 (unlocking k' UnlockPc.release)
        (t.thread i) =
      (
        refl,
        update_self t.thread j _
            ∙ ap (λ d. record { depth = d; pc = unlocking k' UnlockPc.release }) l,
        update_other t.thread j _ i apart,
      ) in
    let after =
      unlock_turns i j (called j (Call.unlock k') t) t.mem k' (t.thread i) apart y.0 (counts.1 has)
        b (counts.0 has ∙ l) before in
    let awake : ((unlocked_by j k' t).thread i).pc ≡ locking k (LockPc.attempt 0) =
      ap (λ (a : Thread). a.pc) after.2 ∙ ap roused p in
    let locked =
      free_lock_returns i k (LockPc.attempt 0) start
        (solo_reached 4 j s (called j (Call.unlock k') t) y reach) x awake
        (ap (λ (m : Mutex). m.state) after.0) in
    (after.1, locked.0, locked.1)
