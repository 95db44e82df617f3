-- ===== src/Forward/Parameters.antt =====
-- What the functions of src/chk.cpp, src/alias.cpp and src/lfs64.cpp call, against the names that they are
-- exported by.
use Prim.Native.String.{String, ◌++◌}
use mlibc_glibc_compat.Prelude.{◌≡◌, refl, arith}
use mlibc_glibc_compat.Forward.Calls.{Forwarded, forwards, gives, Signature, signed_by, kept_values}
use mlibc_glibc_compat.Forward.Names.{
  Exported, fixed, variadic, checked_export, alias_export, resolver_export, jump_export,
  isoc23_export, large_file_export,
}
use mlibc_glibc_compat.Forward.Naming.{
  checked_name, isoc23_name, internal_name, alias_naming, jump_naming, large_file_naming,
}
use mlibc_glibc_compat.Forward.Checked.{Checked, checked, checked_signature}
use mlibc_glibc_compat.Forward.Aliases.{Alias, aliased, alias_signature}
use mlibc_glibc_compat.Forward.Resolver.{Resolver, resolver_call, resolver_signature}
use mlibc_glibc_compat.Forward.Jumps.{Jump, jumped, jump_signature}
use mlibc_glibc_compat.Forward.Isoc23.{Isoc23, isoc99_call, isoc23_signature}
use mlibc_glibc_compat.Forward.LargeFile.{LargeFile, large_file, large_file_signature}

-- The variant, under `naming`, of a function `f` of the C library calls `f`, or where it takes `...` the
-- one that takes a `va_list`, `f` with a v before it.
abbrev pub IsVariant : (naming : String → String) → Exported → (callee : String) → Type 0
IsVariant naming (fixed name) callee = name ≡ naming callee
IsVariant naming (variadic name) callee = (f : String) × (name ≡ naming f) × (callee ≡ "v" ++ f)

-- A call is made, of the function that the name asks for, with the parameters that it takes, in order,
-- and every one of those that follow.
abbrev pub StandsFor : (naming : String → String) → Exported → Signature → Forwarded → Type 0
StandsFor naming e (signed_by ps va) (forwards callee args va') =
    IsVariant naming e callee × (args ≡ kept_values ps) × (va' ≡ va)
StandsFor naming e s (gives r) = ⊥

checked-StandsFor :
    (c : Checked) → StandsFor checked_name (checked_export c) (checked_signature c) (checked c)
unfolding checked checked_export
checked-StandsFor (Checked.printf_chk flag format va) = (("printf", refl, refl), refl, refl)
checked-StandsFor (Checked.fprintf_chk file flag format va) = (("fprintf", refl, refl), refl, refl)
checked-StandsFor (Checked.sprintf_chk dest flag real_size format va) =
    (("sprintf", refl, refl), refl, refl)
checked-StandsFor (Checked.snprintf_chk dest max_size flag real_size format va) =
    (("snprintf", refl, refl), refl, refl)
checked-StandsFor (Checked.asprintf_chk dest flag format va) =
    (("asprintf", refl, refl), refl, refl)
checked-StandsFor (Checked.syslog_chk priority flag format va) =
    (("syslog", refl, refl), refl, refl)
checked-StandsFor c = ground arith

aliased-StandsFor :
    (c : Alias) → StandsFor (alias_naming c) (alias_export c) (alias_signature c) (aliased c)
unfolding aliased alias_export
aliased-StandsFor (Alias.isoc99_fscanf file format va) = (("fscanf", refl, refl), refl, refl)
aliased-StandsFor (Alias.isoc99_scanf format va) = (("scanf", refl, refl), refl, refl)
aliased-StandsFor (Alias.isoc99_sscanf str format va) = (("sscanf", refl, refl), refl, refl)
aliased-StandsFor c = ground arith

resolver_call-StandsFor :
    (c : Resolver)
    → StandsFor internal_name (resolver_export c) (resolver_signature c) (resolver_call c)
unfolding resolver_call resolver_export
resolver_call-StandsFor c = ground arith

jumped-StandsFor :
    (c : Jump) → StandsFor (jump_naming c) (jump_export c) (jump_signature c) (jumped c)
unfolding jumped jump_export
jumped-StandsFor c = ground arith

-- A second name stands for what the function of 1999 calls.
isoc99_call-StandsFor :
    (c : Isoc23)
    → StandsFor isoc23_name (isoc23_export c) (isoc23_signature c) (aliased (isoc99_call c))
unfolding isoc99_call aliased isoc23_export
isoc99_call-StandsFor (Isoc23.isoc23_fscanf file format va) = (("fscanf", refl, refl), refl, refl)
isoc99_call-StandsFor (Isoc23.isoc23_scanf format va) = (("scanf", refl, refl), refl, refl)
isoc99_call-StandsFor (Isoc23.isoc23_sscanf str format va) = (("sscanf", refl, refl), refl, refl)
isoc99_call-StandsFor c = ground arith

large_file-StandsFor :
    (c : LargeFile)
    → StandsFor (large_file_naming c) (large_file_export c) (large_file_signature c) (large_file c)
unfolding large_file large_file_export
large_file-StandsFor c = ground arith

-- A call of a forwarding function.
pub data Forwarder : Type 0 where
  in_chk : Checked → Forwarder
  in_alias : Alias → Forwarder
  in_resolver : Resolver → Forwarder
  in_jumps : Jump → Forwarder
  in_isoc23 : Isoc23 → Forwarder
  in_lfs64 : LargeFile → Forwarder

-- The function called is the one that the name asks for, and it is given what the signature keeps.
abbrev pub CallsItsFunction : Forwarder → Type 0
CallsItsFunction (in_chk c) =
    StandsFor checked_name (checked_export c) (checked_signature c) (checked c)
CallsItsFunction (in_alias c) =
    StandsFor (alias_naming c) (alias_export c) (alias_signature c) (aliased c)
CallsItsFunction (in_resolver c) =
    StandsFor internal_name (resolver_export c) (resolver_signature c) (resolver_call c)
CallsItsFunction (in_jumps c) =
    StandsFor (jump_naming c) (jump_export c) (jump_signature c) (jumped c)
CallsItsFunction (in_isoc23 c) =
    StandsFor isoc23_name (isoc23_export c) (isoc23_signature c) (aliased (isoc99_call c))
CallsItsFunction (in_lfs64 c) =
    StandsFor (large_file_naming c) (large_file_export c) (large_file_signature c) (large_file c)

-- For every call of a function of the three files, but `__fdelt_chk`, `__explicit_bzero_chk`,
-- `__res_nquery`, `alphasort64` and `versionsort64`: the function called is the one that the exported name
-- is made from, by adding the file's prefixes and suffixes to it (three names follow no rule and are
-- listed in `irregular_name`), or, where the exported function takes `...`, the one with a v before it. The
-- arguments are the caller's own in their order, with all of the variable ones, other than: in
-- src/chk.cpp, the flag and the size of the buffer, so that no size of a buffer is looked at; in
-- src/alias.cpp, the locale of the five functions that ignore it, and the shared object of
-- `__register_atfork`; in src/lfs64.cpp, the version of the four versioned calls of `stat`.
pub names_stand_for : (f : Forwarder) → CallsItsFunction f
names_stand_for (in_chk c) = checked-StandsFor c
names_stand_for (in_alias c) = aliased-StandsFor c
names_stand_for (in_resolver c) = resolver_call-StandsFor c
names_stand_for (in_jumps c) = jumped-StandsFor c
names_stand_for (in_isoc23 c) = isoc99_call-StandsFor c
names_stand_for (in_lfs64 c) = large_file-StandsFor c
