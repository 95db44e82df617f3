-- ===== src/Forward/Jumps.antt =====
-- The assembly of src/alias.cpp: names at which there is only a jump, so that the arguments, the
-- variable ones too, are the callee's as they stand.
use mlibc_glibc_compat.Prelude.{ℕ, List, [], ◌∷◌}
use mlibc_glibc_compat.Forward.Calls.{Forwarded, forwards, kept, Signature, signed_by}

-- A call, by its label without the leading underscores, with the arguments that its caller gives.
pub data Jump : Type 0 where
  open64 open_2 open64_2 : (path flags : ℕ) → List ℕ → Jump
  fcntl64 : (fd cmd : ℕ) → List ℕ → Jump
  openat64 openat_2 openat64_2 : (dir path flags : ℕ) → List ℕ → Jump

unfoldable pub jumped : Jump → Forwarded
jumped (Jump.open64 path flags va) = forwards "open" (path ∷ flags ∷ []) va
jumped (Jump.open_2 path flags va) = forwards "open" (path ∷ flags ∷ []) va
jumped (Jump.open64_2 path flags va) = forwards "open" (path ∷ flags ∷ []) va
jumped (Jump.fcntl64 fd cmd va) = forwards "fcntl" (fd ∷ cmd ∷ []) va
jumped (Jump.openat64 dir path flags va) = forwards "openat" (dir ∷ path ∷ flags ∷ []) va
jumped (Jump.openat_2 dir path flags va) = forwards "openat" (dir ∷ path ∷ flags ∷ []) va
jumped (Jump.openat64_2 dir path flags va) = forwards "openat" (dir ∷ path ∷ flags ∷ []) va

abbrev pub jump_signature : Jump → Signature
jump_signature (Jump.open64 path flags va) = signed_by (kept path ∷ kept flags ∷ []) va
jump_signature (Jump.open_2 path flags va) = signed_by (kept path ∷ kept flags ∷ []) va
jump_signature (Jump.open64_2 path flags va) = signed_by (kept path ∷ kept flags ∷ []) va
jump_signature (Jump.fcntl64 fd cmd va) = signed_by (kept fd ∷ kept cmd ∷ []) va
jump_signature (Jump.openat64 dir path flags va) =
    signed_by (kept dir ∷ kept path ∷ kept flags ∷ []) va
jump_signature (Jump.openat_2 dir path flags va) =
    signed_by (kept dir ∷ kept path ∷ kept flags ∷ []) va
jump_signature (Jump.openat64_2 dir path flags va) =
    signed_by (kept dir ∷ kept path ∷ kept flags ∷ []) va
