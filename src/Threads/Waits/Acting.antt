-- ===== src/Threads/Waits/Acting.antt =====
-- A step of a thread in a call on the condition keeps what holds (src/mlibc_thread.cpp).
use mlibc_glibc_compat.Prelude.{
  ℕ, ◌≡◌, inl, inr, refl, ap, ◌∙◌, arith, Bool, true, false, Option, none, some, Bool-cases, update,
  update_self, update-all, if◌then◌else◌,
}
use mathlib.Core.Path.{subst}
use mlibc_glibc_compat.Errno.{success}
use mlibc_glibc_compat.Threads.{
  Activity, running, Thread, System, Call, IsTid, begin, turn, wakes, rouse, called, turned,
  interrupt, Step, Reach, here, next,
}
use mlibc_glibc_compat.Threads
use mlibc_glibc_compat.Threads.Invariant.{Inv}
use mlibc_glibc_compat.Threads.Steps.{Step-Inv}
use mlibc_glibc_compat.Threads.Waits.{
  Phase, announcing, World, next_phase, stirred, announces, is_running, entered, acted,
}
use mlibc_glibc_compat.Threads.Waits.Invariant.{
  Fits, IsTyped, IsLatest, activity, IsAllowed, next-Fits, next-IsLatest, stirred-Fits,
  stirred-IsLatest,
}
use mlibc_glibc_compat.Threads.Waits.Whole.{
  IsHeard, Whole, FitsAt, Next, IsHeard-update, entered_each, Step-IsTyped,
}

entered-Reach :
    (s : System) (i : ℕ) (c : Option Call)
    → IsTid i
    → (s.thread i).pc ≡ running
    → IsAllowed s.mem (s.thread i).depth c
    → Reach s (entered i c s)
entered-Reach s i none t r a = here
entered-Reach s i (some c) t r a = next here (Threads.calls i c t r a)

pub is_running_eq : (a : Activity) → is_running a ≡ true → a ≡ running
is_running_eq running h = refl
is_running_eq a h = ground arith

-- The phases of the others when thread `i` acts.
abbrev pub others : ℕ → World → ℕ → Phase
others i w = if announces (w.phase i) then (λ j. stirred success (w.phase j)) else w.phase

others-Fits :
    (Rec : Bool → Type 0) (i j now d : ℕ) (a : Activity) (w : World)
    → Fits Rec now d a (w.phase j)
    → Fits Rec now d a (others i w j)
others-Fits Rec i j now d a w f = elim (Bool-cases (announces (w.phase i))) [
  | inl y ↦ rw y (stirred-Fits Rec now d a (w.phase j) f)
  | inr n ↦ rw n f
]

-- What a step does in a call on the condition whose mutex call has returned.
pub acted_runs :
    (i : ℕ) (w : World)
    → (w.base.thread i).pc ≡ running
    → let (p, c) = next_phase w.cond.seq (w.base.thread i).depth (w.phase i) in
      acted i w ≡ record w { base = entered i c w.base; phase = update (others i w) i p }
unfolding acted
acted_runs i w r =
    let y : is_running (w.base.thread i).pc ≡ true = rw r refl in rw (y, if◌then◌else◌)

pub acted_parts :
    (i : ℕ) (w : World)
    → (w.base.thread i).pc ≡ running
    → let (p, c) = next_phase w.cond.seq (w.base.thread i).depth (w.phase i) in
      ((acted i w).base ≡ entered i c w.base)
      × ((acted i w).phase i ≡ p)
      × ((acted i w).cond ≡ w.cond)
acted_parts i w r =
    let at = acted_runs i w r in
    (
      ap (λ u. u.base) at,
      ap (λ u. u.phase i) at ∙ update_self (others i w) i _,
      ap (λ u. u.cond) at,
    )

announcing-IsLatest : (now : ℕ) (p : Phase) → announces p ≡ true → IsLatest now p
announcing-IsLatest now announcing h = tt
announcing-IsLatest now p h = ground arith

not_announcing : (p q : Phase) → announces p ≡ false → p ≡ announcing → q ≡ announcing
not_announcing announcing q h e = cc
not_announcing p q h e = ground arith

Reach-keeps :
    {s u : System} (Rec : Bool → Type 0)
    → Reach s u
    → Inv s
    → IsTyped Rec s.mem
    → Inv u × IsTyped Rec u.mem
Reach-keeps Rec here inv y = (inv, y)
Reach-keeps Rec (next r st) inv y =
    let (before, typed) = Reach-keeps Rec r inv y in
    (Step-Inv st before, Step-IsTyped Rec st before typed)

module _ (Rec : Bool → Type 0) (i : ℕ) (w : World) (t : IsTid i) (inv : Whole Rec w) where
  module _ (r : (w.base.thread i).pc ≡ running) where
    abbrev now : ℕ
    now = w.cond.seq

    abbrev d : ℕ
    d = (w.base.thread i).depth

    abbrev chosen : Phase × Option Call
    chosen = next_phase now d (w.phase i)

    Fits-next : Fits Rec now d (activity chosen.1) chosen.0 × IsAllowed w.base.mem d chosen.1
    Fits-next =
        next-Fits Rec w.base.mem now d (w.phase i) inv.typed
          (subst (λ a. Fits Rec now d a (w.phase i)) r (inv.each i t))

    IsHeard-next : IsHeard now (update (others i w) i chosen.0)
    unfolding next_phase
    IsHeard-next = elim (Bool-cases (announces (w.phase i))) [
      | inl y ↦ rw y (
          inr (
            update-all (λ j q. IsLatest now q) (λ j. stirred success (w.phase j)) i chosen.0
              (next-IsLatest now d (w.phase i) (announcing-IsLatest now (w.phase i) y))
              (λ j n. stirred-IsLatest now success (w.phase j))))
      | inr n ↦ rw n (
          IsHeard-update now w.phase i chosen.0 (λ e. not_announcing (w.phase i) chosen.0 n e)
            (next-IsLatest now d (w.phase i)) inv.heard)
    ]

    acted_running :
        Next Rec w
          (record w { base = entered i chosen.1 w.base; phase = update (others i w) i chosen.0 })
    acted_running =
        let reach = entered-Reach w.base i chosen.1 t r Fits-next.1 in
        (
          record {
            base = (Reach-keeps Rec reach inv.base inv.typed).0;
            typed = (Reach-keeps Rec reach inv.base inv.typed).1;
            each =
                entered_each (FitsAt Rec now) w.base (others i w) i chosen.1 chosen.0 r
                  (λ _. Fits-next.0) (λ j n u. others-Fits Rec i j now _ _ w (inv.each j u));
            heard = IsHeard-next;
          },
          reach,
        )

  pub acted-Next : Next Rec w (acted i w)
  unfolding acted
  acted-Next = elim (Bool-cases (is_running (w.base.thread i).pc)) [
    | inl y ↦ rw y (acted_running (is_running_eq (w.base.thread i).pc y))
    | inr n ↦ rw n (inv, here)
  ]
