-- ===== src/Forward/Names.antt =====
-- The names under which src/chk.cpp, src/alias.cpp and src/lfs64.cpp export their functions.
use Prim.Native.String.{String}
use mlibc_glibc_compat.Forward.Checked.{Checked}
use mlibc_glibc_compat.Forward.Aliases.{Alias}
use mlibc_glibc_compat.Forward.Resolver.{Resolver}
use mlibc_glibc_compat.Forward.Jumps.{Jump}
use mlibc_glibc_compat.Forward.Isoc23.{Isoc23}
use mlibc_glibc_compat.Forward.LargeFile.{LargeFile}

-- A declaration, by its name: `variadic` with `...` at the end of its parameters.
pub data Exported : Type 0 where
  fixed variadic : (name : String) → Exported

unfoldable pub checked_export : Checked → Exported
checked_export (Checked.printf_chk flag format va) = variadic "__printf_chk"
checked_export (Checked.fprintf_chk file flag format va) = variadic "__fprintf_chk"
checked_export (Checked.vfprintf_chk file flag format va) = fixed "__vfprintf_chk"
checked_export (Checked.sprintf_chk dest flag real_size format va) = variadic "__sprintf_chk"
checked_export (Checked.snprintf_chk dest max_size flag real_size format va) =
    variadic "__snprintf_chk"
checked_export (Checked.vsnprintf_chk dest max_size flag real_size format va) =
    fixed "__vsnprintf_chk"
checked_export (Checked.vsprintf_chk dest flag real_size format va) = fixed "__vsprintf_chk"
checked_export (Checked.asprintf_chk dest flag format va) = variadic "__asprintf_chk"
checked_export (Checked.vasprintf_chk dest flag format va) = fixed "__vasprintf_chk"
checked_export (Checked.fread_chk dest size n file buf_size) = fixed "__fread_chk"
checked_export (Checked.memset_chk dest c size dest_size) = fixed "__memset_chk"
checked_export (Checked.strcpy_chk dest src dest_size) = fixed "__strcpy_chk"
checked_export (Checked.strncpy_chk dest src n dest_size) = fixed "__strncpy_chk"
checked_export (Checked.strcat_chk dest src dest_size) = fixed "__strcat_chk"
checked_export (Checked.strncat_chk dest src n dest_size) = fixed "__strncat_chk"
checked_export (Checked.wcsncpy_chk dest src n dest_size) = fixed "__wcsncpy_chk"
checked_export (Checked.wmemcpy_chk dest src n dest_size) = fixed "__wmemcpy_chk"
checked_export (Checked.wmemmove_chk dest src n dest_size) = fixed "__wmemmove_chk"
checked_export (Checked.memcpy_chk dest src n dest_size) = fixed "__memcpy_chk"
checked_export (Checked.memmove_chk dest src n dest_size) = fixed "__memmove_chk"
checked_export (Checked.mempcpy_chk dest src n dest_size) = fixed "__mempcpy_chk"
checked_export (Checked.mbsrtowcs_chk dest src size stp dest_size) = fixed "__mbsrtowcs_chk"
checked_export (Checked.read_chk fd buf size buf_size) = fixed "__read_chk"
checked_export (Checked.poll_chk fds count timeout fds_count) = fixed "__poll_chk"
checked_export (Checked.syslog_chk priority flag format va) = variadic "__syslog_chk"
checked_export (Checked.vsyslog_chk priority flag format va) = fixed "__vsyslog_chk"
checked_export (Checked.stpcpy_chk dest src dest_size) = fixed "__stpcpy_chk"
checked_export (Checked.readlinkat_chk fd path buf size buf_size) = fixed "__readlinkat_chk"
checked_export (Checked.realpath_chk path resolved resolved_size) = fixed "__realpath_chk"
checked_export (Checked.pread_chk fd buf n off buf_size) = fixed "__pread_chk"
checked_export (Checked.strlcpy_chk dest src n dest_size) = fixed "__strlcpy_chk"
checked_export (Checked.longjmp_chk env val) = fixed "__longjmp_chk"

unfoldable pub alias_export : Alias → Exported
alias_export (Alias.isoc99_fscanf file format va) = variadic "__isoc99_fscanf"
alias_export (Alias.isoc99_vfscanf file format va) = fixed "__isoc99_vfscanf"
alias_export (Alias.isoc99_scanf format va) = variadic "__isoc99_scanf"
alias_export (Alias.isoc99_vsscanf str format va) = fixed "__isoc99_vsscanf"
alias_export (Alias.isoc99_sscanf str format va) = variadic "__isoc99_sscanf"
alias_export (Alias.getdelim line n delim file) = fixed "__getdelim"
alias_export (Alias.isoc99_strtol str end base) = fixed "__isoc99_strtol"
alias_export (Alias.isoc99_strtoll str end base) = fixed "__isoc99_strtoll"
alias_export (Alias.isoc99_strtoul str end base) = fixed "__isoc99_strtoul"
alias_export (Alias.isoc99_strtoull str end base) = fixed "__isoc99_strtoull"
alias_export (Alias.isoc23_strtoumax str end base) = fixed "__isoc23_strtoumax"
alias_export (Alias.isoc99_wcstol ptr end base) = fixed "__isoc99_wcstol"
alias_export (Alias.strtok_r s delim m) = fixed "__strtok_r"
alias_export (Alias.xpg_basename path) = fixed "__xpg_basename"
alias_export (Alias.cxa_thread_atexit_impl fn arg dso_handle) = fixed "__cxa_thread_atexit_impl"
alias_export (Alias.uselocale locale) = fixed "__uselocale"
alias_export (Alias.nl_langinfo_l item locale) = fixed "__nl_langinfo_l"
alias_export (Alias.wctype_l name locale) = fixed "__wctype_l"
alias_export (Alias.towupper_l value locale) = fixed "__towupper_l"
alias_export (Alias.towlower_l value locale) = fixed "__towlower_l"
alias_export (Alias.iswctype_l value desc locale) = fixed "__iswctype_l"
alias_export (Alias.strtof_l str end locale) = fixed "__strtof_l"
alias_export (Alias.strtod_l str end locale) = fixed "__strtod_l"
alias_export (Alias.strcoll_l s1 s2 locale) = fixed "__strcoll_l"
alias_export (Alias.wcscoll_l ws1 ws2 locale) = fixed "__wcscoll_l"
alias_export (Alias.wcsxfrm_l ws1 ws2 max_size locale) = fixed "__wcsxfrm_l"
alias_export (Alias.wcsftime_l dest max_size format value locale) = fixed "__wcsftime_l"
alias_export (Alias.strxfrm_l dest src max_size locale) = fixed "__strxfrm_l"
alias_export (Alias.strftime_l dest max_size format value locale) = fixed "__strftime_l"
alias_export (Alias.newlocale category locale base) = fixed "__newlocale"
alias_export (Alias.freelocale locale) = fixed "__freelocale"
alias_export (Alias.duplocale locale) = fixed "__duplocale"
alias_export (Alias.register_atfork prepare parent child dso_handle) = fixed "__register_atfork"
alias_export (Alias.strdup str) = fixed "__strdup"

unfoldable pub resolver_export : Resolver → Exported
resolver_export (Resolver.res_ninit state) = fixed "__res_ninit"
resolver_export (Resolver.res_nclose state) = fixed "__res_nclose"
resolver_export (Resolver.dn_expand msg eom_orig comp_dn exp_dn size) = fixed "__dn_expand"

unfoldable pub isoc23_export : Isoc23 → Exported
isoc23_export (Isoc23.isoc23_fscanf file format va) = variadic "__isoc23_fscanf"
isoc23_export (Isoc23.isoc23_vfscanf file format va) = fixed "__isoc23_vfscanf"
isoc23_export (Isoc23.isoc23_scanf format va) = variadic "__isoc23_scanf"
isoc23_export (Isoc23.isoc23_vsscanf str format va) = fixed "__isoc23_vsscanf"
isoc23_export (Isoc23.isoc23_sscanf str format va) = variadic "__isoc23_sscanf"
isoc23_export (Isoc23.isoc23_strtol str end base) = fixed "__isoc23_strtol"
isoc23_export (Isoc23.isoc23_strtoll str end base) = fixed "__isoc23_strtoll"
isoc23_export (Isoc23.isoc23_strtoul str end base) = fixed "__isoc23_strtoul"
isoc23_export (Isoc23.isoc23_strtoull str end base) = fixed "__isoc23_strtoull"
isoc23_export (Isoc23.isoc23_wcstol ptr end base) = fixed "__isoc23_wcstol"

unfoldable pub large_file_export : LargeFile → Exported
large_file_export (LargeFile.fopen64 file mode) = fixed "fopen64"
large_file_export (LargeFile.fseeko64 file off whence) = fixed "fseeko64"
large_file_export (LargeFile.ftello64 file) = fixed "ftello64"
large_file_export (LargeFile.xstat version filename s) = fixed "__xstat"
large_file_export (LargeFile.fxstat64 version fd s) = fixed "__fxstat64"
large_file_export (LargeFile.fxstat version fd s) = fixed "__fxstat"
large_file_export (LargeFile.lxstat version filename s) = fixed "__lxstat"
large_file_export (LargeFile.stat64 filename s) = fixed "stat64"
large_file_export (LargeFile.scandir64 path res select compare) = fixed "scandir64"
large_file_export (LargeFile.fstat64 fd s) = fixed "fstat64"
large_file_export (LargeFile.lstat64 filename s) = fixed "lstat64"
large_file_export (LargeFile.setrlimit64 resource rlim) = fixed "setrlimit64"
large_file_export (LargeFile.getrlimit64 resource rlim) = fixed "getrlimit64"
large_file_export (LargeFile.mmap64 ptr size prot flags fd offset) = fixed "mmap64"
large_file_export (LargeFile.ftruncate64 fd size) = fixed "ftruncate64"
large_file_export (LargeFile.statfs64 path s) = fixed "statfs64"
large_file_export (LargeFile.mkostemp64 path flags) = fixed "mkostemp64"
large_file_export (LargeFile.fstatat64 fd path s flags) = fixed "fstatat64"
large_file_export (LargeFile.pread64 fd buf n off) = fixed "pread64"
large_file_export (LargeFile.pwrite64 fd buf n off) = fixed "pwrite64"
large_file_export (LargeFile.posix_fallocate64 fd offset size) = fixed "posix_fallocate64"
large_file_export (LargeFile.mkstemp64 path) = fixed "mkstemp64"

-- A label has no parameters of its own.
unfoldable pub jump_export : Jump → Exported
jump_export (Jump.open64 path flags va) = fixed "open64"
jump_export (Jump.open_2 path flags va) = fixed "__open_2"
jump_export (Jump.open64_2 path flags va) = fixed "__open64_2"
jump_export (Jump.fcntl64 fd cmd va) = fixed "fcntl64"
jump_export (Jump.openat64 dir path flags va) = fixed "openat64"
jump_export (Jump.openat_2 dir path flags va) = fixed "__openat_2"
jump_export (Jump.openat64_2 dir path flags va) = fixed "__openat64_2"
