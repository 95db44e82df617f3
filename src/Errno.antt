-- ===== src/Errno.antt =====
-- What a call of the library returns: the `int` error codes of src/mlibc_thread.cpp, src/misc.cpp
-- and sysdeps, and the end of the program by `__ensure` (src/utils.hpp).
use mlibc_glibc_compat.Prelude.{ℕ, Bool, true, false}

-- The names that the sources compare with. The headers give each its own positive number; `success`
-- is 0, `code n` is any other positive number and `negative` a number below 0.
pub data Errno : Type 0 where
  success eperm eintr eagain eacces ebusy einval enosys edeadlk etimedout negative : Errno
  code : ℕ → Errno

-- `e` as a condition: anything but 0.
abbrev pub is_error : Errno → Bool
is_error Errno.success = false
is_error _ = true

-- `__ensure(false)` prints the assertion and leaves by `quick_exit(1)`.
pub data Outcome (A : Type 0) : Type 0 where
  returns : A → Outcome A
  aborts : Outcome A
