-- ===== src/Ctype/Classes.antt =====
-- The class bits of `ctype_b_arr` (src/ctype.cpp) against the classes of the C locale.
use Prim.Native.Nat.{bit_and}
use mlibc_glibc_compat.Prelude.{
  ℕ, ◌<◌, ℤ, pos, Bool, true, false, not, ◌&&◌, ◌||◌, ltb, leb, ◌==◌, ◌≡◌, refl, arith, holds_from,
  holds_from-entry,
}
use mlibc_glibc_compat.Ctype.{
  blank, ctrl, punct, alnum, upper, lower, alpha, digit, xdigit, space, print, graph, ctype_b,
}

-- A program tests a class by its bit.
abbrev pub has : ℕ → ℤ → Bool
has flag c = not (bit_and (ctype_b c) flag == 0)

-- The classes of ISO C in the "C" locale, over ASCII.
abbrev between : ℕ → ℕ → ℕ → Bool
between a b c = leb a c && leb c b

abbrev pub is_upper : ℕ → Bool
is_upper = between b'A' b'Z'

abbrev pub is_lower : ℕ → Bool
is_lower = between b'a' b'z'

abbrev pub is_alpha : ℕ → Bool
is_alpha c = is_upper c || is_lower c

abbrev pub is_digit : ℕ → Bool
is_digit = between b'0' b'9'

abbrev pub is_xdigit : ℕ → Bool
is_xdigit c = is_digit c || (between b'A' b'F' c || between b'a' b'f' c)

abbrev pub is_alnum : ℕ → Bool
is_alnum c = is_alpha c || is_digit c

abbrev pub is_graph : ℕ → Bool
is_graph = between 33 126

abbrev pub is_punct : ℕ → Bool
is_punct c = is_graph c && not (is_alnum c)

abbrev pub is_print : ℕ → Bool
is_print = between 32 126

abbrev pub is_space : ℕ → Bool
is_space c = c == 32 || between 9 13 c

abbrev pub is_blank : ℕ → Bool
is_blank c = c == 32 || c == 9

abbrev pub is_cntrl : ℕ → Bool
is_cntrl c = ltb c 32 || c == 127

abbrev agree : Bool → Bool → Bool
agree true b = b
agree false b = not b

agree_eq : (a b : Bool) → agree a b ≡ true → a ≡ b
agree_eq true b h = ground arith
agree_eq false b h = ground arith

-- A check of every code by evaluation gives the equation at each.
table :
    (flag : ℕ) (class : ℕ → Bool)
    → holds_from 256 0 (λ c. agree (has flag (pos c)) (class c)) ≡ true
    → (c : ℕ) → c < 256
    → has flag (pos c) ≡ class c
table flag class h c b = agree_eq _ _ (holds_from-entry 256 0 c _ (omega arith) b h)

-- For every code from 0 to 255, eleven of the twelve class bits are set exactly for the characters
-- of their class in the C locale: upper, lower, alpha, digit, xdigit, space, print, graph, blank,
-- cntrl and punct, with codes from 128 on in no class. The twelfth, alnum, is set for no code at
-- all, not for the letters and digits either.
pub classes_exact :
    (c : ℕ)
    → c < 256
    → (has upper (pos c) ≡ is_upper c)
      × (has lower (pos c) ≡ is_lower c)
      × (has alpha (pos c) ≡ is_alpha c)
      × (has digit (pos c) ≡ is_digit c)
      × (has xdigit (pos c) ≡ is_xdigit c)
      × (has space (pos c) ≡ is_space c)
      × (has print (pos c) ≡ is_print c)
      × (has graph (pos c) ≡ is_graph c)
      × (has blank (pos c) ≡ is_blank c)
      × (has ctrl (pos c) ≡ is_cntrl c)
      × (has punct (pos c) ≡ is_punct c)
      × (has alnum (pos c) ≡ false)
unfolding ctype_b holds_from
classes_exact c b = (
  table upper is_upper refl c b,
  table lower is_lower refl c b,
  table alpha is_alpha refl c b,
  table digit is_digit refl c b,
  table xdigit is_xdigit refl c b,
  table space is_space refl c b,
  table print is_print refl c b,
  table graph is_graph refl c b,
  table blank is_blank refl c b,
  table ctrl is_cntrl refl c b,
  table punct is_punct refl c b,
  table alnum (λ _. false) refl c b,
)
