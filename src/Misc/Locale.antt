-- ===== src/Misc/Locale.antt =====
-- `newlocale`, `duplocale` and `freelocale` (src/misc.cpp), over a heap of `__locale_struct`s.
use mlibc_glibc_compat.Prelude.{
  ℕ, ◌≡◌, ◌≢◌, refl, arith, Option, none, some, ◌==◌, update, if◌then◌else◌,
}

-- __locale_struct: the three pointers to tables, and its two arrays of pointers.
pub record LocaleStruct : Type 0 where
  pub ctype_b : ℕ
  pub ctype_tolower : ℕ
  pub ctype_toupper : ℕ
  pub locales : ℕ → ℕ
  pub names : ℕ → ℕ

abbrev pub Locales : Type 0
Locales = ℕ → Option LocaleStruct

-- The tables of the thread, as `__ctype_b_loc`, `__ctype_tolower_loc` and `__ctype_toupper_loc` give
-- them.
pub record Current : Type 0 where
  pub b : ℕ
  pub tolower : ℕ
  pub toupper : ℕ

-- `fresh` is what `malloc` gives, 0 where it fails, and `old` what the block holds. The three parameters
-- are not looked at.
unfoldable pub newlocale :
    Current → (fresh : ℕ) → (old : LocaleStruct) → (category name base : ℕ) → Locales → ℕ × Locales
newlocale t fresh old category name base h = if fresh == 0 then (0, h) else (
  fresh,
  update h fresh
      (some (record old { ctype_tolower = t.tolower; ctype_toupper = t.toupper; ctype_b = t.b })),
)

-- `free`
unfoldable pub freelocale : ℕ → Locales → Locales
freelocale p h = if p == 0 then h else update h p none

-- The old locale is read only where the block has been allocated.
unfoldable pub duplocale : (fresh old : ℕ) → Locales → ℕ × Locales
duplocale fresh old h = if fresh == 0 then (0, h) else (fresh, update h fresh (h old))

-- Where `malloc` gives two different free blocks: a new locale has the tables of the thread, whatever
-- category, name and base are asked for; a copy of it is equal to it, and stays so when the first is
-- freed; and when both are freed the heap is as it was. Where `malloc` fails, both calls return null
-- and change nothing.
locale_lifecycle :
    (t : Current) (p q category name base : ℕ) (old : LocaleStruct) (h : Locales)
    → p ≢ 0
    → q ≢ 0
    → p ≢ q
    → h p ≡ none
    → h q ≡ none
    → let made : LocaleStruct = record old {
      ctype_tolower = t.tolower;
      ctype_toupper = t.toupper;
      ctype_b = t.b;
    } in
      let (r1, h1) = newlocale t p old category name base h in
      let (r2, h2) = duplocale q r1 h1 in
      (r1 ≡ p)
      × (r2 ≡ q)
      × (h2 p ≡ some made)
      × (freelocale p h2 q ≡ some made)
      × ((a : ℕ) → freelocale q (freelocale p h2) a ≡ h a)
      × (newlocale t 0 old category name base h ≡ (0, h))
      × (duplocale 0 p h ≡ (0, h))
unfolding newlocale duplocale freelocale
locale_lifecycle t p q category name base old h np nq ne hp hq =
    (ground arith, ground arith, ground arith, ground arith, λ a. ground arith, refl, refl)
