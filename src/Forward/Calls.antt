-- ===== src/Forward/Calls.antt =====
-- What a forwarding function does (src/chk.cpp, src/alias.cpp, src/lfs64.cpp), and what it is given.
use Prim.Native.String.{String}
use mlibc_glibc_compat.Prelude.{ℕ, ℤ, List, [], ◌∷◌}

-- A call of a function of the libc, by name, with its arguments and those of its `va_list` or after its
-- `...`; or a result with no call. The function returns what the call returns.
pub data Forwarded : Type 0 where
  forwards : (callee : String) → (args va : List ℕ) → Forwarded
  gives : ℤ → Forwarded

-- A parameter, by what it is for: a value that the libc's function takes too, or one that only glibc's
-- function has.
pub data Param : Type 0 where
  kept chk_flag buffer_bound unused_locale stat_version shared_object : ℕ → Param

-- The parameters of a function in order, and those after `...` or of its `va_list`.
pub data Signature : Type 0 where
  signed_by : List Param → (va : List ℕ) → Signature

abbrev pub kept_values : List Param → List ℕ
kept_values [] = []
kept_values (Param.kept v ∷ ps) = v ∷ kept_values ps
kept_values (p ∷ ps) = kept_values ps
