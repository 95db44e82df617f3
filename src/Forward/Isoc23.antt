-- ===== src/Forward/Isoc23.antt =====
-- The names of the 2023 standard at the end of src/alias.cpp, second names of functions of the one of
-- 1999.
use mlibc_glibc_compat.Prelude.{ℕ, List, [], ◌∷◌}
use mlibc_glibc_compat.Forward.Calls.{kept, Signature, signed_by}
use mlibc_glibc_compat.Forward.Aliases.{Alias}

-- A call, by the declaration's parameters. The constructor's name is the function's without the
-- underscores.
pub data Isoc23 : Type 0 where
  isoc23_fscanf : (file format : ℕ) → List ℕ → Isoc23
  isoc23_vfscanf : (file format : ℕ) → List ℕ → Isoc23
  isoc23_scanf : (format : ℕ) → List ℕ → Isoc23
  isoc23_vsscanf : (str format : ℕ) → List ℕ → Isoc23
  isoc23_sscanf : (str format : ℕ) → List ℕ → Isoc23
  isoc23_strtol : (str end base : ℕ) → Isoc23
  isoc23_strtoll : (str end base : ℕ) → Isoc23
  isoc23_strtoul : (str end base : ℕ) → Isoc23
  isoc23_strtoull : (str end base : ℕ) → Isoc23
  isoc23_wcstol : (ptr end base : ℕ) → Isoc23

-- The call that is made in fact: the target's, with the arguments as they stand.
unfoldable pub isoc99_call : Isoc23 → Alias
isoc99_call (Isoc23.isoc23_fscanf file format va) = Alias.isoc99_fscanf file format va
isoc99_call (Isoc23.isoc23_vfscanf file format va) = Alias.isoc99_vfscanf file format va
isoc99_call (Isoc23.isoc23_scanf format va) = Alias.isoc99_scanf format va
isoc99_call (Isoc23.isoc23_vsscanf str format va) = Alias.isoc99_vsscanf str format va
isoc99_call (Isoc23.isoc23_sscanf str format va) = Alias.isoc99_sscanf str format va
isoc99_call (Isoc23.isoc23_strtol str end base) = Alias.isoc99_strtol str end base
isoc99_call (Isoc23.isoc23_strtoll str end base) = Alias.isoc99_strtoll str end base
isoc99_call (Isoc23.isoc23_strtoul str end base) = Alias.isoc99_strtoul str end base
isoc99_call (Isoc23.isoc23_strtoull str end base) = Alias.isoc99_strtoull str end base
isoc99_call (Isoc23.isoc23_wcstol ptr end base) = Alias.isoc99_wcstol ptr end base

abbrev pub isoc23_signature : Isoc23 → Signature
isoc23_signature (Isoc23.isoc23_fscanf file format va) = signed_by (kept file ∷ kept format ∷ []) va
isoc23_signature (Isoc23.isoc23_vfscanf file format va) =
    signed_by (kept file ∷ kept format ∷ []) va
isoc23_signature (Isoc23.isoc23_scanf format va) = signed_by (kept format ∷ []) va
isoc23_signature (Isoc23.isoc23_vsscanf str format va) = signed_by (kept str ∷ kept format ∷ []) va
isoc23_signature (Isoc23.isoc23_sscanf str format va) = signed_by (kept str ∷ kept format ∷ []) va
isoc23_signature (Isoc23.isoc23_strtol str end base) =
    signed_by (kept str ∷ kept end ∷ kept base ∷ []) []
isoc23_signature (Isoc23.isoc23_strtoll str end base) =
    signed_by (kept str ∷ kept end ∷ kept base ∷ []) []
isoc23_signature (Isoc23.isoc23_strtoul str end base) =
    signed_by (kept str ∷ kept end ∷ kept base ∷ []) []
isoc23_signature (Isoc23.isoc23_strtoull str end base) =
    signed_by (kept str ∷ kept end ∷ kept base ∷ []) []
isoc23_signature (Isoc23.isoc23_wcstol ptr end base) =
    signed_by (kept ptr ∷ kept end ∷ kept base ∷ []) []
