-- ===== src/Forward/Resolver.antt =====
-- The resolver's functions of src/alias.cpp.
use mlibc_glibc_compat.Prelude.{ℕ, negsuc, [], ◌∷◌}
use mlibc_glibc_compat.Forward.Calls.{Forwarded, forwards, gives, kept, Signature, signed_by}

pub data Resolver : Type 0 where
  res_ninit : (state : ℕ) → Resolver
  res_nclose : (state : ℕ) → Resolver
  dn_expand : (msg eom_orig comp_dn exp_dn size : ℕ) → Resolver

unfoldable pub resolver_call : Resolver → Forwarded
resolver_call (Resolver.res_ninit state) = forwards "res_ninit" (state ∷ []) []
resolver_call (Resolver.res_nclose state) = forwards "res_nclose" (state ∷ []) []
resolver_call (Resolver.dn_expand msg eom_orig comp_dn exp_dn size) =
    forwards "dn_expand" (msg ∷ eom_orig ∷ comp_dn ∷ exp_dn ∷ size ∷ []) []

abbrev pub resolver_signature : Resolver → Signature
resolver_signature (Resolver.res_ninit state) = signed_by (kept state ∷ []) []
resolver_signature (Resolver.res_nclose state) = signed_by (kept state ∷ []) []
resolver_signature (Resolver.dn_expand msg eom_orig comp_dn exp_dn size) =
    signed_by (kept msg ∷ kept eom_orig ∷ kept comp_dn ∷ kept exp_dn ∷ kept size ∷ []) []

-- `__res_nquery` is not implemented.
unfoldable pub res_nquery : (state name class type answer answer_size : ℕ) → Forwarded
res_nquery state name class type answer answer_size = gives (negsuc 0)
