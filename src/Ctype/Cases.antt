-- ===== src/Ctype/Cases.antt =====
-- The case tables of src/ctype.cpp against the case mappings of the C locale.
use mlibc_glibc_compat.Prelude.{
  ℕ, ◌+◌, ◌-◌, ◌<◌, ℤ, pos, negsuc, ◌==ℤ◌, ==ℤ_iff, ◌≡◌, refl, arith, holds_from, holds_from-entry,
  if◌then◌else◌,
}
use mlibc_glibc_compat.Ctype.{ctype_tolower, ctype_toupper}
use mlibc_glibc_compat.Ctype.Classes.{is_upper, is_lower, is_print}

-- ISO C: the other case of a letter, and every other character itself.
abbrev pub to_lower : ℕ → ℕ
to_lower c = if is_upper c then c + 32 else c

abbrev pub to_upper : ℕ → ℕ
to_upper c = if is_lower c then c - 32 else c

-- What the tables hold at each code.
abbrev printed : (ℕ → ℕ) → ℕ → ℤ
printed f c = if is_print c then pos (f c) else pos 0

lower_table : (eof : ℤ) (c : ℕ) → c < 256 → ctype_tolower eof (pos c) ≡ printed to_lower c
unfolding ctype_tolower holds_from
lower_table eof c b = (==ℤ_iff _ _).0 (
    holds_from-entry 256 0 c (λ c. ctype_tolower eof (pos c) ==ℤ printed to_lower c) (omega arith) b
      refl)

upper_table : (eof : ℤ) (c : ℕ) → c < 256 → ctype_toupper eof (pos c) ≡ printed to_upper c
unfolding ctype_toupper holds_from
upper_table eof c b = (==ℤ_iff _ _).0 (
    holds_from-entry 256 0 c (λ c. ctype_toupper eof (pos c) ==ℤ printed to_upper c) (omega arith) b
      refl)

-- At a printing character, 32 to 126, both tables hold the mapping of the C locale; at every other
-- code from 0 to 255, the control characters among them, they hold 0 and not the code itself; and
-- at the index -1 they hold EOF.
pub case_tables :
    (eof : ℤ) (c : ℕ)
    → c < 256
    → (ctype_tolower eof (pos c) ≡ (if is_print c then pos (to_lower c) else pos 0))
      × (ctype_toupper eof (pos c) ≡ (if is_print c then pos (to_upper c) else pos 0))
      × (ctype_tolower eof (negsuc 0) ≡ eof)
      × (ctype_toupper eof (negsuc 0) ≡ eof)
unfolding ctype_tolower ctype_toupper
case_tables eof c b = (lower_table eof c b, upper_table eof c b, refl, refl)
