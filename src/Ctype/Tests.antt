-- ===== src/Ctype/Tests.antt =====
-- The tables at single characters.
use mlibc_glibc_compat.Prelude.{pos, negsuc, true, false, ◌≡◌, arith}
use mlibc_glibc_compat.Ctype.{
  blank, ctrl, punct, alnum, upper, lower, alpha, digit, xdigit, space, print, graph, ctype_tolower,
  ctype_toupper,
}
use mlibc_glibc_compat.Ctype.Classes.{has, classes_exact}
use mlibc_glibc_compat.Ctype.Cases.{case_tables}

classes_exact_example :
    (has upper (pos b'F') ≡ true)
    × (has lower (pos b'F') ≡ false)
    × (has alpha (pos b'F') ≡ true)
    × (has digit (pos b'F') ≡ false)
    × (has xdigit (pos b'F') ≡ true)
    × (has space (pos b'F') ≡ false)
    × (has print (pos b'F') ≡ true)
    × (has graph (pos b'F') ≡ true)
    × (has blank (pos b'F') ≡ false)
    × (has ctrl (pos b'F') ≡ false)
    × (has punct (pos b'F') ≡ false)
    × (has alnum (pos b'F') ≡ false)
classes_exact_example = classes_exact b'F' (omega arith)

case_tables_example :
    (ctype_tolower (negsuc 0) (pos b'Q') ≡ pos b'q')
    × (ctype_toupper (negsuc 0) (pos b'Q') ≡ pos b'Q')
    × (ctype_tolower (negsuc 0) (negsuc 0) ≡ negsuc 0)
    × (ctype_toupper (negsuc 0) (negsuc 0) ≡ negsuc 0)
case_tables_example = case_tables (negsuc 0) b'Q' (omega arith)
