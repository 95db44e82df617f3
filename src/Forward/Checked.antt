-- ===== src/Forward/Checked.antt =====
-- src/chk.cpp: the variants that glibc calls where it knows the size of a buffer.
use mlibc_glibc_compat.Prelude.{ℕ, ℤ, over, List, [], ◌∷◌}
use mlibc_glibc_compat.Forward.Calls.{
  Forwarded, forwards, kept, chk_flag, buffer_bound, Signature, signed_by,
}

-- A call, with its arguments. The constructor's name is the function's without the underscores.
pub data Checked : Type 0 where
  printf_chk : (flag format : ℕ) → List ℕ → Checked
  fprintf_chk : (file flag format : ℕ) → List ℕ → Checked
  vfprintf_chk : (file flag format : ℕ) → List ℕ → Checked
  sprintf_chk : (dest flag real_size format : ℕ) → List ℕ → Checked
  snprintf_chk : (dest max_size flag real_size format : ℕ) → List ℕ → Checked
  vsnprintf_chk : (dest max_size flag real_size format : ℕ) → List ℕ → Checked
  vsprintf_chk : (dest flag real_size format : ℕ) → List ℕ → Checked
  asprintf_chk : (dest flag format : ℕ) → List ℕ → Checked
  vasprintf_chk : (dest flag format : ℕ) → List ℕ → Checked
  fread_chk : (dest size n file buf_size : ℕ) → Checked
  memset_chk : (dest c size dest_size : ℕ) → Checked
  strcpy_chk : (dest src dest_size : ℕ) → Checked
  strncpy_chk : (dest src n dest_size : ℕ) → Checked
  strcat_chk : (dest src dest_size : ℕ) → Checked
  strncat_chk : (dest src n dest_size : ℕ) → Checked
  wcsncpy_chk : (dest src n dest_size : ℕ) → Checked
  wmemcpy_chk : (dest src n dest_size : ℕ) → Checked
  wmemmove_chk : (dest src n dest_size : ℕ) → Checked
  memcpy_chk : (dest src n dest_size : ℕ) → Checked
  memmove_chk : (dest src n dest_size : ℕ) → Checked
  mempcpy_chk : (dest src n dest_size : ℕ) → Checked
  mbsrtowcs_chk : (dest src size stp dest_size : ℕ) → Checked
  read_chk : (fd buf size buf_size : ℕ) → Checked
  poll_chk : (fds count timeout fds_count : ℕ) → Checked
  syslog_chk : (priority flag format : ℕ) → List ℕ → Checked
  vsyslog_chk : (priority flag format : ℕ) → List ℕ → Checked
  stpcpy_chk : (dest src dest_size : ℕ) → Checked
  readlinkat_chk : (fd path buf size buf_size : ℕ) → Checked
  realpath_chk : (path resolved resolved_size : ℕ) → Checked
  pread_chk : (fd buf n off buf_size : ℕ) → Checked
  strlcpy_chk : (dest src n dest_size : ℕ) → Checked
  longjmp_chk : (env val : ℕ) → Checked

unfoldable pub checked : Checked → Forwarded
checked (Checked.printf_chk flag format va) = forwards "vprintf" (format ∷ []) va
checked (Checked.fprintf_chk file flag format va) = forwards "vfprintf" (file ∷ format ∷ []) va
checked (Checked.vfprintf_chk file flag format va) = forwards "vfprintf" (file ∷ format ∷ []) va
checked (Checked.sprintf_chk dest flag real_size format va) =
    forwards "vsprintf" (dest ∷ format ∷ []) va
checked (Checked.snprintf_chk dest max_size flag real_size format va) =
    forwards "vsnprintf" (dest ∷ max_size ∷ format ∷ []) va
checked (Checked.vsnprintf_chk dest max_size flag real_size format va) =
    forwards "vsnprintf" (dest ∷ max_size ∷ format ∷ []) va
checked (Checked.vsprintf_chk dest flag real_size format va) =
    forwards "vsprintf" (dest ∷ format ∷ []) va
checked (Checked.asprintf_chk dest flag format va) = forwards "vasprintf" (dest ∷ format ∷ []) va
checked (Checked.vasprintf_chk dest flag format va) = forwards "vasprintf" (dest ∷ format ∷ []) va
checked (Checked.fread_chk dest size n file buf_size) =
    forwards "fread" (dest ∷ size ∷ n ∷ file ∷ []) []
checked (Checked.memset_chk dest c size dest_size) = forwards "memset" (dest ∷ c ∷ size ∷ []) []
checked (Checked.strcpy_chk dest src dest_size) = forwards "strcpy" (dest ∷ src ∷ []) []
checked (Checked.strncpy_chk dest src n dest_size) = forwards "strncpy" (dest ∷ src ∷ n ∷ []) []
checked (Checked.strcat_chk dest src dest_size) = forwards "strcat" (dest ∷ src ∷ []) []
checked (Checked.strncat_chk dest src n dest_size) = forwards "strncat" (dest ∷ src ∷ n ∷ []) []
checked (Checked.wcsncpy_chk dest src n dest_size) = forwards "wcsncpy" (dest ∷ src ∷ n ∷ []) []
checked (Checked.wmemcpy_chk dest src n dest_size) = forwards "wmemcpy" (dest ∷ src ∷ n ∷ []) []
checked (Checked.wmemmove_chk dest src n dest_size) = forwards "wmemmove" (dest ∷ src ∷ n ∷ []) []
checked (Checked.memcpy_chk dest src n dest_size) = forwards "memcpy" (dest ∷ src ∷ n ∷ []) []
checked (Checked.memmove_chk dest src n dest_size) = forwards "memmove" (dest ∷ src ∷ n ∷ []) []
checked (Checked.mempcpy_chk dest src n dest_size) = forwards "mempcpy" (dest ∷ src ∷ n ∷ []) []
checked (Checked.mbsrtowcs_chk dest src size stp dest_size) =
    forwards "mbsrtowcs" (dest ∷ src ∷ size ∷ stp ∷ []) []
checked (Checked.read_chk fd buf size buf_size) = forwards "read" (fd ∷ buf ∷ size ∷ []) []
checked (Checked.poll_chk fds count timeout fds_count) =
    forwards "poll" (fds ∷ count ∷ timeout ∷ []) []
checked (Checked.syslog_chk priority flag format va) =
    forwards "vsyslog" (priority ∷ format ∷ []) va
checked (Checked.vsyslog_chk priority flag format va) =
    forwards "vsyslog" (priority ∷ format ∷ []) va
checked (Checked.stpcpy_chk dest src dest_size) = forwards "stpcpy" (dest ∷ src ∷ []) []
checked (Checked.readlinkat_chk fd path buf size buf_size) =
    forwards "readlinkat" (fd ∷ path ∷ buf ∷ size ∷ []) []
checked (Checked.realpath_chk path resolved resolved_size) =
    forwards "realpath" (path ∷ resolved ∷ []) []
checked (Checked.pread_chk fd buf n off buf_size) = forwards "pread" (fd ∷ buf ∷ n ∷ off ∷ []) []
checked (Checked.strlcpy_chk dest src n dest_size) = forwards "strlcpy" (dest ∷ src ∷ n ∷ []) []
checked (Checked.longjmp_chk env val) = forwards "longjmp" (env ∷ val ∷ []) []

abbrev pub checked_signature : Checked → Signature
checked_signature (Checked.printf_chk flag format va) =
    signed_by (chk_flag flag ∷ kept format ∷ []) va
checked_signature (Checked.fprintf_chk file flag format va) =
    signed_by (kept file ∷ chk_flag flag ∷ kept format ∷ []) va
checked_signature (Checked.vfprintf_chk file flag format va) =
    signed_by (kept file ∷ chk_flag flag ∷ kept format ∷ []) va
checked_signature (Checked.sprintf_chk dest flag real_size format va) =
    signed_by (kept dest ∷ chk_flag flag ∷ buffer_bound real_size ∷ kept format ∷ []) va
checked_signature (Checked.snprintf_chk dest max_size flag real_size format va) =
    signed_by
      (kept dest ∷ kept max_size ∷ chk_flag flag ∷ buffer_bound real_size ∷ kept format ∷ []) va
checked_signature (Checked.vsnprintf_chk dest max_size flag real_size format va) =
    signed_by
      (kept dest ∷ kept max_size ∷ chk_flag flag ∷ buffer_bound real_size ∷ kept format ∷ []) va
checked_signature (Checked.vsprintf_chk dest flag real_size format va) =
    signed_by (kept dest ∷ chk_flag flag ∷ buffer_bound real_size ∷ kept format ∷ []) va
checked_signature (Checked.asprintf_chk dest flag format va) =
    signed_by (kept dest ∷ chk_flag flag ∷ kept format ∷ []) va
checked_signature (Checked.vasprintf_chk dest flag format va) =
    signed_by (kept dest ∷ chk_flag flag ∷ kept format ∷ []) va
checked_signature (Checked.fread_chk dest size n file buf_size) =
    signed_by (kept dest ∷ kept size ∷ kept n ∷ kept file ∷ buffer_bound buf_size ∷ []) []
checked_signature (Checked.memset_chk dest c size dest_size) =
    signed_by (kept dest ∷ kept c ∷ kept size ∷ buffer_bound dest_size ∷ []) []
checked_signature (Checked.strcpy_chk dest src dest_size) =
    signed_by (kept dest ∷ kept src ∷ buffer_bound dest_size ∷ []) []
checked_signature (Checked.strncpy_chk dest src n dest_size) =
    signed_by (kept dest ∷ kept src ∷ kept n ∷ buffer_bound dest_size ∷ []) []
checked_signature (Checked.strcat_chk dest src dest_size) =
    signed_by (kept dest ∷ kept src ∷ buffer_bound dest_size ∷ []) []
checked_signature (Checked.strncat_chk dest src n dest_size) =
    signed_by (kept dest ∷ kept src ∷ kept n ∷ buffer_bound dest_size ∷ []) []
checked_signature (Checked.wcsncpy_chk dest src n dest_size) =
    signed_by (kept dest ∷ kept src ∷ kept n ∷ buffer_bound dest_size ∷ []) []
checked_signature (Checked.wmemcpy_chk dest src n dest_size) =
    signed_by (kept dest ∷ kept src ∷ kept n ∷ buffer_bound dest_size ∷ []) []
checked_signature (Checked.wmemmove_chk dest src n dest_size) =
    signed_by (kept dest ∷ kept src ∷ kept n ∷ buffer_bound dest_size ∷ []) []
checked_signature (Checked.memcpy_chk dest src n dest_size) =
    signed_by (kept dest ∷ kept src ∷ kept n ∷ buffer_bound dest_size ∷ []) []
checked_signature (Checked.memmove_chk dest src n dest_size) =
    signed_by (kept dest ∷ kept src ∷ kept n ∷ buffer_bound dest_size ∷ []) []
checked_signature (Checked.mempcpy_chk dest src n dest_size) =
    signed_by (kept dest ∷ kept src ∷ kept n ∷ buffer_bound dest_size ∷ []) []
checked_signature (Checked.mbsrtowcs_chk dest src size stp dest_size) =
    signed_by (kept dest ∷ kept src ∷ kept size ∷ kept stp ∷ buffer_bound dest_size ∷ []) []
checked_signature (Checked.read_chk fd buf size buf_size) =
    signed_by (kept fd ∷ kept buf ∷ kept size ∷ buffer_bound buf_size ∷ []) []
checked_signature (Checked.poll_chk fds count timeout fds_count) =
    signed_by (kept fds ∷ kept count ∷ kept timeout ∷ buffer_bound fds_count ∷ []) []
checked_signature (Checked.syslog_chk priority flag format va) =
    signed_by (kept priority ∷ chk_flag flag ∷ kept format ∷ []) va
checked_signature (Checked.vsyslog_chk priority flag format va) =
    signed_by (kept priority ∷ chk_flag flag ∷ kept format ∷ []) va
checked_signature (Checked.stpcpy_chk dest src dest_size) =
    signed_by (kept dest ∷ kept src ∷ buffer_bound dest_size ∷ []) []
checked_signature (Checked.readlinkat_chk fd path buf size buf_size) =
    signed_by (kept fd ∷ kept path ∷ kept buf ∷ kept size ∷ buffer_bound buf_size ∷ []) []
checked_signature (Checked.realpath_chk path resolved resolved_size) =
    signed_by (kept path ∷ kept resolved ∷ buffer_bound resolved_size ∷ []) []
checked_signature (Checked.pread_chk fd buf n off buf_size) =
    signed_by (kept fd ∷ kept buf ∷ kept n ∷ kept off ∷ buffer_bound buf_size ∷ []) []
checked_signature (Checked.strlcpy_chk dest src n dest_size) =
    signed_by (kept dest ∷ kept src ∷ kept n ∷ buffer_bound dest_size ∷ []) []
checked_signature (Checked.longjmp_chk env val) = signed_by (kept env ∷ kept val ∷ []) []

-- The C library's `memset` with 0, and a barrier for the compiler.
unfoldable pub explicit_bzero_chk : (dest size dest_size : ℕ) → Forwarded
explicit_bzero_chk dest size dest_size = forwards "memset" (dest ∷ 0 ∷ size ∷ []) []

-- The word of an `fd_set`. `nfdbits` is the header's NFDBITS.
unfoldable pub fdelt_chk : (nfdbits : ℕ) → (fd : ℤ) → ℤ
fdelt_chk nfdbits fd = over fd nfdbits
