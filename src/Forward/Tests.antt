-- ===== src/Forward/Tests.antt =====
-- Single calls of the forwarding functions.
use mlibc_glibc_compat.Prelude.{◌≡◌, refl, [], ◌∷◌}
use mlibc_glibc_compat.Forward.Calls.{forwards}
use mlibc_glibc_compat.Forward.Checked.{Checked, checked}
use mlibc_glibc_compat.Forward.Aliases.{Alias, aliased}
use mlibc_glibc_compat.Forward.Parameters.{CallsItsFunction, in_chk, names_stand_for}

-- A copy of 100 bytes into a buffer of 8.
overlong_copy :
    checked (Checked.memcpy_chk 64 128 100 8) ≡ forwards "memcpy" (64 ∷ 128 ∷ 100 ∷ []) []
unfolding checked
overlong_copy = refl

uppercase : aliased (Alias.towupper_l 97 5) ≡ forwards "towupper_l" (97 ∷ 5 ∷ []) []
unfolding aliased
uppercase = refl

names_stand_for_example : CallsItsFunction (in_chk (Checked.snprintf_chk 64 8 2 16 200 (7 ∷ [])))
names_stand_for_example = names_stand_for (in_chk (Checked.snprintf_chk 64 8 2 16 200 (7 ∷ [])))
