-- ===== src/Forward/LargeFile.antt =====
-- src/lfs64.cpp: the names of functions for files with 64-bit offsets, which mlibc's functions have
-- anyway, and the versioned calls of `stat`.
use mlibc_glibc_compat.Prelude.{ℕ, [], ◌∷◌}
use mlibc_glibc_compat.Forward.Calls.{Forwarded, forwards, kept, stat_version, Signature, signed_by}

-- A call, with its arguments. The constructor's name is the function's without the underscores.
pub data LargeFile : Type 0 where
  fopen64 : (file mode : ℕ) → LargeFile
  fseeko64 : (file off whence : ℕ) → LargeFile
  ftello64 : (file : ℕ) → LargeFile
  xstat : (version filename s : ℕ) → LargeFile
  fxstat64 : (version fd s : ℕ) → LargeFile
  fxstat : (version fd s : ℕ) → LargeFile
  lxstat : (version filename s : ℕ) → LargeFile
  stat64 : (filename s : ℕ) → LargeFile
  scandir64 : (path res select compare : ℕ) → LargeFile
  fstat64 : (fd s : ℕ) → LargeFile
  lstat64 : (filename s : ℕ) → LargeFile
  setrlimit64 : (resource rlim : ℕ) → LargeFile
  getrlimit64 : (resource rlim : ℕ) → LargeFile
  mmap64 : (ptr size prot flags fd offset : ℕ) → LargeFile
  ftruncate64 : (fd size : ℕ) → LargeFile
  statfs64 : (path s : ℕ) → LargeFile
  mkostemp64 : (path flags : ℕ) → LargeFile
  fstatat64 : (fd path s flags : ℕ) → LargeFile
  pread64 : (fd buf n off : ℕ) → LargeFile
  pwrite64 : (fd buf n off : ℕ) → LargeFile
  posix_fallocate64 : (fd offset size : ℕ) → LargeFile
  mkstemp64 : (path : ℕ) → LargeFile

unfoldable pub large_file : LargeFile → Forwarded
large_file (LargeFile.fopen64 file mode) = forwards "fopen" (file ∷ mode ∷ []) []
large_file (LargeFile.fseeko64 file off whence) = forwards "fseeko" (file ∷ off ∷ whence ∷ []) []
large_file (LargeFile.ftello64 file) = forwards "ftello" (file ∷ []) []
large_file (LargeFile.xstat version filename s) = forwards "stat" (filename ∷ s ∷ []) []
large_file (LargeFile.fxstat64 version fd s) = forwards "fstat" (fd ∷ s ∷ []) []
large_file (LargeFile.fxstat version fd s) = forwards "fstat" (fd ∷ s ∷ []) []
large_file (LargeFile.lxstat version filename s) = forwards "lstat" (filename ∷ s ∷ []) []
large_file (LargeFile.stat64 filename s) = forwards "stat" (filename ∷ s ∷ []) []
large_file (LargeFile.scandir64 path res select compare) =
    forwards "scandir" (path ∷ res ∷ select ∷ compare ∷ []) []
large_file (LargeFile.fstat64 fd s) = forwards "fstat" (fd ∷ s ∷ []) []
large_file (LargeFile.lstat64 filename s) = forwards "lstat" (filename ∷ s ∷ []) []
large_file (LargeFile.setrlimit64 resource rlim) = forwards "setrlimit" (resource ∷ rlim ∷ []) []
large_file (LargeFile.getrlimit64 resource rlim) = forwards "getrlimit" (resource ∷ rlim ∷ []) []
large_file (LargeFile.mmap64 ptr size prot flags fd offset) =
    forwards "mmap" (ptr ∷ size ∷ prot ∷ flags ∷ fd ∷ offset ∷ []) []
large_file (LargeFile.ftruncate64 fd size) = forwards "ftruncate" (fd ∷ size ∷ []) []
large_file (LargeFile.statfs64 path s) = forwards "statfs" (path ∷ s ∷ []) []
large_file (LargeFile.mkostemp64 path flags) = forwards "mkostemp" (path ∷ flags ∷ []) []
large_file (LargeFile.fstatat64 fd path s flags) =
    forwards "fstatat" (fd ∷ path ∷ s ∷ flags ∷ []) []
large_file (LargeFile.pread64 fd buf n off) = forwards "pread" (fd ∷ buf ∷ n ∷ off ∷ []) []
large_file (LargeFile.pwrite64 fd buf n off) = forwards "pwrite" (fd ∷ buf ∷ n ∷ off ∷ []) []
large_file (LargeFile.posix_fallocate64 fd offset size) =
    forwards "posix_fallocate" (fd ∷ offset ∷ size ∷ []) []
large_file (LargeFile.mkstemp64 path) = forwards "mkstemp" (path ∷ []) []

abbrev pub large_file_signature : LargeFile → Signature
large_file_signature (LargeFile.fopen64 file mode) = signed_by (kept file ∷ kept mode ∷ []) []
large_file_signature (LargeFile.fseeko64 file off whence) =
    signed_by (kept file ∷ kept off ∷ kept whence ∷ []) []
large_file_signature (LargeFile.ftello64 file) = signed_by (kept file ∷ []) []
large_file_signature (LargeFile.xstat version filename s) =
    signed_by (stat_version version ∷ kept filename ∷ kept s ∷ []) []
large_file_signature (LargeFile.fxstat64 version fd s) =
    signed_by (stat_version version ∷ kept fd ∷ kept s ∷ []) []
large_file_signature (LargeFile.fxstat version fd s) =
    signed_by (stat_version version ∷ kept fd ∷ kept s ∷ []) []
large_file_signature (LargeFile.lxstat version filename s) =
    signed_by (stat_version version ∷ kept filename ∷ kept s ∷ []) []
large_file_signature (LargeFile.stat64 filename s) = signed_by (kept filename ∷ kept s ∷ []) []
large_file_signature (LargeFile.scandir64 path res select compare) =
    signed_by (kept path ∷ kept res ∷ kept select ∷ kept compare ∷ []) []
large_file_signature (LargeFile.fstat64 fd s) = signed_by (kept fd ∷ kept s ∷ []) []
large_file_signature (LargeFile.lstat64 filename s) = signed_by (kept filename ∷ kept s ∷ []) []
large_file_signature (LargeFile.setrlimit64 resource rlim) =
    signed_by (kept resource ∷ kept rlim ∷ []) []
large_file_signature (LargeFile.getrlimit64 resource rlim) =
    signed_by (kept resource ∷ kept rlim ∷ []) []
large_file_signature (LargeFile.mmap64 ptr size prot flags fd offset) =
    signed_by (kept ptr ∷ kept size ∷ kept prot ∷ kept flags ∷ kept fd ∷ kept offset ∷ []) []
large_file_signature (LargeFile.ftruncate64 fd size) = signed_by (kept fd ∷ kept size ∷ []) []
large_file_signature (LargeFile.statfs64 path s) = signed_by (kept path ∷ kept s ∷ []) []
large_file_signature (LargeFile.mkostemp64 path flags) = signed_by (kept path ∷ kept flags ∷ []) []
large_file_signature (LargeFile.fstatat64 fd path s flags) =
    signed_by (kept fd ∷ kept path ∷ kept s ∷ kept flags ∷ []) []
large_file_signature (LargeFile.pread64 fd buf n off) =
    signed_by (kept fd ∷ kept buf ∷ kept n ∷ kept off ∷ []) []
large_file_signature (LargeFile.pwrite64 fd buf n off) =
    signed_by (kept fd ∷ kept buf ∷ kept n ∷ kept off ∷ []) []
large_file_signature (LargeFile.posix_fallocate64 fd offset size) =
    signed_by (kept fd ∷ kept offset ∷ kept size ∷ []) []
large_file_signature (LargeFile.mkstemp64 path) = signed_by (kept path ∷ []) []

-- The two orders of directory entries: `d_name` gives the name of the entry at a pointer to a pointer.
unfoldable pub alphasort64 : (d_name : ℕ → ℕ) → (a b : ℕ) → Forwarded
alphasort64 d_name a b = forwards "strcoll" (d_name a ∷ d_name b ∷ []) []

unfoldable pub versionsort64 : (d_name : ℕ → ℕ) → (a b : ℕ) → Forwarded
versionsort64 d_name a b = forwards "strverscmp" (d_name a ∷ d_name b ∷ []) []
