-- ===== src/Ctype.antt =====
-- src/ctype.cpp: the character tables that a glibc program reads through `__ctype_b_loc`,
-- `__ctype_tolower_loc` and `__ctype_toupper_loc`.
pub mod Classes
pub mod Cases
mod Tests
use Prim.Native.Nat.{bit_or}
use mlibc_glibc_compat.Prelude.{
  ℕ, suc, ◌+◌, ◌-◌, ℤ, pos, negsuc, List, [], ◌∷◌, ◌++◌, map, replicate, get_or, zero,
}

-- 1 << 0 and so on
abbrev pub blank : ℕ
blank = 1

abbrev pub ctrl : ℕ
ctrl = 2

abbrev pub punct : ℕ
punct = 4

abbrev pub alnum : ℕ
alnum = 8

abbrev pub upper : ℕ
upper = 0x100

abbrev pub lower : ℕ
lower = 0x200

abbrev pub alpha : ℕ
alpha = 0x400

abbrev pub digit : ℕ
digit = 0x800

abbrev pub xdigit : ℕ
xdigit = 0x1000

abbrev pub space : ℕ
space = 0x2000

abbrev pub print : ℕ
print = 0x4000

abbrev pub graph : ℕ
graph = 0x8000

infixl 60 ◌or◌
abbrev ◌or◌ : ℕ → ℕ → ℕ
a or b = bit_or a b

-- The array by its runs of equal entries. It has 384 elements; those past the initialiser are 0.
unfoldable pub ctype_b_arr : List ℕ
ctype_b_arr =
    replicate 128 0
    ++ (replicate 9 ctrl
        ++ ((ctrl or space or blank) ∷ replicate 4 (ctrl or space)
            ++ (replicate 18 ctrl
                ++ ((space or print or blank) ∷ replicate 15 (punct or print or graph)
                    ++ (replicate 10 (digit or xdigit or print or graph)
                        ++ (replicate 7 (punct or print or graph)
                            ++ (replicate 6 (upper or xdigit or alpha or print or graph)
                                ++ (replicate 20 (upper or alpha or print or graph)
                                    ++ (replicate 6 (punct or print or graph)
                                        ++ (replicate 6 (lower or xdigit or alpha or print or graph)
                                            ++ (replicate 20 (lower or alpha or print or graph)
                                                ++ (replicate 4 (punct or print or graph)
                                                    ++ (ctrl ∷ [])))))))))))))

-- `arr + 128`, read at an index from -128 to 255.
abbrev pub read_at {ℓ} : {A : Type ℓ} → List A → A → ℤ → A
read_at arr z (pos n) = get_or arr (128 + n) z
read_at arr z (negsuc n) = get_or arr (128 - suc n) z

-- `(*__ctype_b_loc())[c]`
unfoldable pub ctype_b : ℤ → ℕ
unfolding ctype_b_arr
ctype_b = read_at ctype_b_arr 0

-- `n`, `n + 1`, ...: `k` characters in a row
abbrev pub from : ℕ → ℕ → List ℤ
from n zero = []
from n (suc k) = pos n ∷ from (n + 1) k

-- `eof` is the header's EOF. The initialiser ends with '~'.
unfoldable pub ctype_tolower_arr : (eof : ℤ) → List ℤ
ctype_tolower_arr eof =
    replicate 127 (pos 0)
    ++ (eof ∷ replicate 32 (pos 0)
        ++ (from b' ' 33 ++ (from b'a' 26 ++ (from b'[' 6 ++ (from b'a' 26 ++ from b'{' 4)))))

unfoldable pub ctype_toupper_arr : (eof : ℤ) → List ℤ
ctype_toupper_arr eof =
    replicate 127 (pos 0)
    ++ (eof ∷ replicate 32 (pos 0)
        ++ (from b' ' 33 ++ (from b'A' 26 ++ (from b'[' 6 ++ (from b'A' 26 ++ from b'{' 4)))))

-- `(*__ctype_tolower_loc())[c]`
unfoldable pub ctype_tolower : (eof : ℤ) → ℤ → ℤ
unfolding ctype_tolower_arr
ctype_tolower eof = read_at (ctype_tolower_arr eof) (pos 0)

unfoldable pub ctype_toupper : (eof : ℤ) → ℤ → ℤ
unfolding ctype_toupper_arr
ctype_toupper eof = read_at (ctype_toupper_arr eof) (pos 0)

unfoldable pub ctype_get_mb_cur_max : ℕ
ctype_get_mb_cur_max = 4
