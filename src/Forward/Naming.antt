-- ===== src/Forward/Naming.antt =====
-- How glibc makes the name of a variant out of the name of the function (src/chk.cpp, src/alias.cpp,
-- src/lfs64.cpp).
use Prim.Native.String.{String, ◌++◌, len}
use text.Mathlib.Text.{◌==◌ as ◌=='◌}
use mlibc_glibc_compat.Prelude.{◌==◌, if◌then◌else◌}
use mlibc_glibc_compat.Forward.Aliases.{Alias}
use mlibc_glibc_compat.Forward.Jumps.{Jump}
use mlibc_glibc_compat.Forward.LargeFile.{LargeFile}

abbrev pub checked_name : String → String
checked_name f = "__" ++ f ++ "_chk"

abbrev pub isoc99_name : String → String
isoc99_name f = "__isoc99_" ++ f

abbrev pub isoc23_name : String → String
isoc23_name f = "__isoc23_" ++ f

abbrev pub internal_name : String → String
internal_name f = "__" ++ f

-- A function with a locale, for one without.
abbrev pub locale_name : String → String
locale_name f = "__" ++ f ++ "_l"

abbrev pub large_name : String → String
large_name f = f ++ "64"

-- Without a mode.
abbrev pub open_name : String → String
open_name f = "__" ++ f ++ "_2"

-- The versioned variants of `stat`, `fstat` and `lstat` have an x before their "stat".
abbrev pub versioned_name : String → String
versioned_name String.[] = "__x"
versioned_name (String.◌∷◌ c s) =
    if len s == 3 then "__x" ++ String.◌∷◌ c s else "__" ++ String.◌∷◌ c ("x" ++ s)

-- Three names that follow no rule.
abbrev pub irregular_name : String → String
irregular_name f =
    if f ==' "pthread_atfork"
    then "__register_atfork"
    else if f ==' "__cxa_atexit"
    then "__cxa_thread_atexit_impl"
    else if f ==' "__mlibc_gnu_basename_c"
    then "__xpg_basename"
    else f

abbrev pub alias_naming : Alias → String → String
alias_naming (Alias.isoc99_fscanf file format va) = isoc99_name
alias_naming (Alias.isoc99_vfscanf file format va) = isoc99_name
alias_naming (Alias.isoc99_scanf format va) = isoc99_name
alias_naming (Alias.isoc99_vsscanf str format va) = isoc99_name
alias_naming (Alias.isoc99_sscanf str format va) = isoc99_name
alias_naming (Alias.isoc99_strtol str end base) = isoc99_name
alias_naming (Alias.isoc99_strtoll str end base) = isoc99_name
alias_naming (Alias.isoc99_strtoul str end base) = isoc99_name
alias_naming (Alias.isoc99_strtoull str end base) = isoc99_name
alias_naming (Alias.isoc23_strtoumax str end base) = isoc23_name
alias_naming (Alias.isoc99_wcstol ptr end base) = isoc99_name
alias_naming (Alias.xpg_basename path) = irregular_name
alias_naming (Alias.cxa_thread_atexit_impl fn arg dso_handle) = irregular_name
alias_naming (Alias.wcscoll_l ws1 ws2 locale) = locale_name
alias_naming (Alias.wcsxfrm_l ws1 ws2 max_size locale) = locale_name
alias_naming (Alias.wcsftime_l dest max_size format value locale) = locale_name
alias_naming (Alias.strxfrm_l dest src max_size locale) = locale_name
alias_naming (Alias.strftime_l dest max_size format value locale) = locale_name
alias_naming (Alias.register_atfork prepare parent child dso_handle) = irregular_name
alias_naming a = internal_name

abbrev pub jump_naming : Jump → String → String
jump_naming (Jump.open64 path flags va) = large_name
jump_naming (Jump.open_2 path flags va) = open_name
jump_naming (Jump.open64_2 path flags va) = λ f. open_name (large_name f)
jump_naming (Jump.fcntl64 fd cmd va) = large_name
jump_naming (Jump.openat64 dir path flags va) = large_name
jump_naming (Jump.openat_2 dir path flags va) = open_name
jump_naming (Jump.openat64_2 dir path flags va) = λ f. open_name (large_name f)

abbrev pub large_file_naming : LargeFile → String → String
large_file_naming (LargeFile.xstat version filename s) = versioned_name
large_file_naming (LargeFile.fxstat version fd s) = versioned_name
large_file_naming (LargeFile.lxstat version filename s) = versioned_name
large_file_naming (LargeFile.fxstat64 version fd s) = λ f. large_name (versioned_name f)
large_file_naming l = large_name
