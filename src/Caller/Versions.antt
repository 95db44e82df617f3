-- ===== src/Caller/Versions.antt =====
-- The walk over an image's version needs finds exactly the glibc names among them.
use mlibc_glibc_compat.Prelude.{
  ℕ, zero, suc, ◌<◌, ◌≡◌, ◌≢◌, refl, arith, ap, ◌∙◌, Bool, true, false, ◌||◌, some, List, [], ◌∷◌,
  length, ◌==◌,
}
use mlibc_glibc_compat.Caller.{Memory, plus, aux_loop, need_loop}

-- A chain of auxiliary entries at `a`, with the offsets of their names in order. It has one entry
-- at least, and only the last has `vna_next` 0.
abbrev pub IsAuxChain : Memory → (a : ℕ) → (name : ℕ) → List ℕ → Type 0
IsAuxChain mem a x [] = ((mem.aux a).vna_name ≡ x) × ((mem.aux a).vna_next ≡ 0)
IsAuxChain mem a x (y ∷ ys) =
    ((mem.aux a).vna_name ≡ x)
    × ((mem.aux a).vna_next ≢ 0)
    × IsAuxChain mem (plus a (mem.aux a).vna_next) y ys

-- An entry's names: the first and the others.
abbrev pub Names : Type 0
Names = ℕ × List ℕ

-- A chain of version needs at `p`, one for each file that the image needs.
abbrev pub IsNeedChain : Memory → (p : ℕ) → Names → List Names → Type 0
IsNeedChain mem p (x, xs) [] =
    IsAuxChain mem (plus p (mem.need p).vn_aux) x xs × ((mem.need p).vn_next ≡ 0)
IsNeedChain mem p (x, xs) (e ∷ es) =
    IsAuxChain mem (plus p (mem.need p).vn_aux) x xs
    × ((mem.need p).vn_next ≢ 0)
    × IsNeedChain mem (plus p (mem.need p).vn_next) e es

-- Whether one of the names is a glibc version.
abbrev pub any_glibc : Memory → (strtab : ℕ) → List ℕ → Bool
any_glibc mem strtab [] = false
any_glibc mem strtab (x ∷ xs) = mem.is_glibc_name (plus strtab x) || any_glibc mem strtab xs

abbrev pub any_entry : Memory → (strtab : ℕ) → List Names → Bool
any_entry mem strtab [] = false
any_entry mem strtab ((x, xs) ∷ es) = any_glibc mem strtab (x ∷ xs) || any_entry mem strtab es

-- The fuel that the entries need: more than the names of any one of them.
abbrev pub IsEnough : (fuel : ℕ) → List Names → Type 0
IsEnough fuel [] = Unit {0}
IsEnough fuel ((x, xs) ∷ es) = (length xs < fuel) × IsEnough fuel es

||_assoc : (a b c : Bool) → ((a || b) || c) ≡ (a || (b || c))
||_assoc true b c = refl
||_assoc false b c = refl

aux_loop-any :
    (fuel : ℕ) (mem : Memory) (strtab a x : ℕ) (xs : List ℕ)
    → IsAuxChain mem a x xs
    → length xs < fuel
    → aux_loop fuel mem strtab a ≡ some (any_glibc mem strtab (x ∷ xs))
unfolding aux_loop
aux_loop-any zero mem strtab a x xs h f = absurd (omega arith)
aux_loop-any (suc fuel) mem strtab a x [] h f = ground (arith, h.0, h.1)
aux_loop-any (suc fuel) mem strtab a x (y ∷ ys) h f = ground (
  arith,
  h.0,
  h.1,
  aux_loop-any fuel mem strtab (plus a (mem.aux a).vna_next) y ys h.2 (omega arith),
)

pub need_loop-any :
    (count fuel : ℕ) (mem : Memory) (strtab p : ℕ) (e : Names) (es : List Names) (b : Bool)
    → IsNeedChain mem p e es
    → IsEnough fuel (e ∷ es)
    → length es < count
    → need_loop count fuel mem strtab p b ≡ some (b || any_entry mem strtab (e ∷ es))
unfolding need_loop
need_loop-any zero fuel mem strtab p e es b h f c = absurd (omega arith)
need_loop-any (suc n) fuel mem strtab p (x, xs) [] b h f c =
    let first = aux_loop-any fuel mem strtab (plus p (mem.need p).vn_aux) x xs h.0 f.0 in
    rw (first, need_loop) (rw (h.1, need_loop) (ground arith))
need_loop-any (suc n) fuel mem strtab p (x, xs) (e ∷ es) b h f c =
    let first = aux_loop-any fuel mem strtab (plus p (mem.need p).vn_aux) x xs h.0 f.0 in
    let rest =
      need_loop-any n fuel mem strtab (plus p (mem.need p).vn_next) e es
        (b || any_glibc mem strtab (x ∷ xs)) h.2 f.1 (omega arith) in
    let more : ((mem.need p).vn_next == 0) ≡ false = ground (arith, h.1) in
    rw (first, need_loop)
      (rw (more, need_loop)
        (rest
          ∙ ap some (||_assoc b (any_glibc mem strtab (x ∷ xs)) (any_entry mem strtab (e ∷ es)))))
