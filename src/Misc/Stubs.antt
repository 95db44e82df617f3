-- ===== src/Misc/Stubs.antt =====
-- The functions of src/misc.cpp that return a constant or an argument, or call one function. A text is
-- given as it stands in the source, or by its address where it is a parameter.
use Prim.Native.String.{String}
use mlibc_glibc_compat.Prelude.{
  ℕ, ℤ, pos, negsuc, List, replicate, [], ◌∷◌, ◌==◌, if◌then◌else◌, update,
}
use mlibc_glibc_compat.Errno.{Errno, enosys}
use mlibc_glibc_compat.Forward.Calls.{Forwarded, forwards, gives}

unfoldable pub malloc_trim : (pad : ℕ) → Forwarded
malloc_trim pad = gives (pos 0)

unfoldable pub mbrlen : (str n ps : ℕ) → Forwarded
mbrlen str n ps = forwards "mbrlen" (str ∷ n ∷ ps ∷ []) []

unfoldable pub eaccess : (path mode : ℕ) → Forwarded
eaccess path mode = forwards "access" (path ∷ mode ∷ []) []

-- The call, and then the buffer as the result, whatever the call returns.
unfoldable pub xpg_strerror_r : (num buf size : ℕ) → Forwarded × ℕ
xpg_strerror_r num buf size = (forwards "strerror_r" (num ∷ buf ∷ size ∷ []) [], buf)

unfoldable pub get_nprocs : ℤ
get_nprocs = pos 1

unfoldable pub current_sigrtmin : ℤ
current_sigrtmin = pos 34

unfoldable pub current_sigrtmax : ℤ
current_sigrtmax = pos 64

unfoldable pub res_search : (dname class type answer answer_size : ℕ) → ℤ × Errno
res_search dname class type answer answer_size = (negsuc 0, enosys)

unfoldable pub gettext : (msgid : ℕ) → ℕ
gettext msgid = msgid

unfoldable pub dgettext : (domainname msgid : ℕ) → ℕ
dgettext domainname msgid = msgid

unfoldable pub dcgettext : (domainname msgid category : ℕ) → ℕ
dcgettext domainname msgid category = msgid

unfoldable pub bindtextdomain : (domainname dirname : ℕ) → String
bindtextdomain domainname dirname = "UTF-8"

unfoldable pub bind_textdomain_codeset : (domainname codeset : ℕ) → String
bind_textdomain_codeset domainname codeset = "UTF-8"

unfoldable pub setlocale : (category locale : ℕ) → String
setlocale category locale = "C"

unfoldable pub initstate_r : (seed state n buf : ℕ) → ℤ
initstate_r seed state n buf = pos 0

unfoldable pub random_r : (buf result : ℕ) → ℤ
random_r buf result = pos 1

unfoldable pub arc4random : ℕ
arc4random = 0

-- Memory by address: nothing is written.
unfoldable pub arc4random_buf : (buf n : ℕ) → (ℕ → ℕ) → ℕ → ℕ
arc4random_buf buf n mem = mem

unfoldable pub strfromf128 : (s n format fp : ℕ) → ℤ
strfromf128 s n format fp = negsuc 0

-- 0.0, with nothing read: `end`, if it is not null, is set to the text's beginning.
unfoldable pub strtof128 : (str end : ℕ) → (ℕ → ℕ) → ℕ × (ℕ → ℕ)
strtof128 str end mem = (0, if end == 0 then mem else update mem end str)

-- struct mallinfo2, with the fields in order, all 0.
unfoldable pub mallinfo2 : List ℕ
mallinfo2 = replicate 10 0

-- The assembly: `_setjmp` jumps to the libc's function, and `_longjmp` to itself, which never ends.
pub data Jump : Type 0 where
  reaches : String → Jump
  spins : Jump

unfoldable pub setjmp : Jump
setjmp = Jump.reaches "setjmp"

unfoldable pub longjmp : Jump
longjmp = Jump.spins

-- `sendfile` without WRAP_SYSCALL. `sys_sendfile` is the number of the system call.
unfoldable pub raw_sendfile : (sys_sendfile out in_fd offset count : ℕ) → Forwarded
raw_sendfile sys_sendfile out in_fd offset count =
    forwards "syscall" (sys_sendfile ∷ out ∷ in_fd ∷ offset ∷ count ∷ []) []
