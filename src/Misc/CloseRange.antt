-- ===== src/Misc/CloseRange.antt =====
-- `close_range` (src/misc.cpp): a loop over an unsigned counter.
use mlibc_glibc_compat.Prelude.{
  ℕ, zero, suc, ◌+◌, ◌-◌, ◌%◌, ◌^◌, ◌≤◌, ◌<◌, ◌≡◌, refl, arith, Option, none, some, List, [], ◌∷◌,
  ◌++◌, leb, if◌then◌else◌, true, false, ap, ◌∙◌, sym, ◌==◌, Bool-cases, inl, inr,
}
use mathlib.Core.Path.{subst}
use mathlib.Core.List.{append_assoc, append-nil}

-- `closed` holds the descriptors that `close` has been called with, in order; what a `close`
-- returns is not looked at. `none` says that the fuel ran out.
unfoldable pub close_loop : ℕ → (i last : ℕ) → (closed : List ℕ) → Option (List ℕ)
close_loop zero i last closed = none
close_loop (suc fuel) i last closed =
    let rest = close_loop fuel ((i + 1) % 2 ^ 32) last (closed ++ i ∷ []) in
    if leb i last then rest else some closed

-- The flags are not looked at; the function returns 0 when the loop has ended.
unfoldable pub close_range : ℕ → (first last flags : ℕ) → Option (List ℕ)
unfolding close_loop
close_range fuel first last flags = close_loop fuel first last []

-- `n`, `n + 1`, ...: `k` descriptors in a row
abbrev pub from : ℕ → ℕ → List ℕ
from n zero = []
from n (suc k) = n ∷ from (n + 1) k

close_loop_ends :
    (k fuel i last : ℕ) (closed : List ℕ)
    → i + k ≡ last + 1
    → last + 1 < 2 ^ 32
    → k < fuel
    → close_loop fuel i last closed ≡ some (closed ++ from i k)
unfolding close_loop
close_loop_ends k zero i last closed e b f = absurd (omega arith)
close_loop_ends zero (suc fuel) i last closed e b f =
    let over : leb i last ≡ false = ground arith in rw (over, append-nil)
close_loop_ends (suc k) (suc fuel) i last closed e b f =
    let within : leb i last ≡ true = ground arith in
    let next : (i + 1) % 2 ^ 32 ≡ i + 1 = omega arith in
    rw within (
      rw next (
        close_loop_ends k fuel (i + 1) last (closed ++ i ∷ []) (omega arith) b (omega arith)
        ∙ ap some (append_assoc closed (i ∷ []) (from (i + 1) k))))

close_loop_runs :
    (fuel i : ℕ) (closed : List ℕ) → i < 2 ^ 32 → close_loop fuel i (2 ^ 32 - 1) closed ≡ none
unfolding close_loop
close_loop_runs zero i closed b = refl
close_loop_runs (suc fuel) i closed b =
    let within : leb i (2 ^ 32 - 1) ≡ true = ground arith in
    rw within (close_loop_runs fuel ((i + 1) % 2 ^ 32) (closed ++ i ∷ []) (omega arith))

-- For a last descriptor below 2^32 - 1, the loop ends, with last + 2 - first rounds of fuel, and
-- has called `close` once for each descriptor from the first to the last, in order, and for no
-- other; an empty range closes nothing.
close_range_closes :
    (fuel first last flags : ℕ)
    → first ≤ last + 1
    → last < 2 ^ 32 - 1
    → last + 1 - first < fuel
    → close_range fuel first last flags ≡ some (from first (last + 1 - first))
unfolding close_range
close_range_closes fuel first last flags p q f =
    close_loop_ends (last + 1 - first) fuel first last [] (omega arith) (omega arith) f

-- For the last descriptor 2^32 - 1, `~0U`, by which a caller closes all from the first on, the
-- counter wraps to 0 and the loop never ends.
close_range_diverges :
    (fuel first flags : ℕ) → first < 2 ^ 32 → close_range fuel first (2 ^ 32 - 1) flags ≡ none
unfolding close_range
close_range_diverges fuel first flags b = close_loop_runs fuel first [] b

-- For any two descriptors of 32 bits, the first at most one above the last, and with last + 2 - first
-- rounds of fuel: the loop ends, and has called `close` once for each descriptor from the first to the
-- last, in order, and for no other; except where the last is 2^32 - 1, `~0U`, by which a caller closes
-- all from the first on: there the counter wraps to 0 and the loop does not end, with any fuel.
pub close_range_outcome :
    (fuel first last flags : ℕ)
    → first < 2 ^ 32
    → last < 2 ^ 32
    → first ≤ last + 1
    → last + 1 - first < fuel
    → close_range fuel first last flags
      ≡ (if last == 4_294_967_295 then none else some (from first (last + 1 - first)))
close_range_outcome fuel first last flags p q o f = elim (Bool-cases (last == 4_294_967_295)) [
  | inl all ↦
      let e : last ≡ 4_294_967_295 = ground (arith, all) in
      rw (all, if◌then◌else◌)
        (subst (λ l. close_range fuel first l flags ≡ none) (sym e)
          (close_range_diverges fuel first flags p))
  | inr some' ↦
      rw (some', if◌then◌else◌)
        (close_range_closes fuel first last flags o (ground (arith, some')) f)
]
