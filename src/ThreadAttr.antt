-- ===== src/ThreadAttr.antt =====
-- src/thread.cpp: the thread attributes of a glibc program, kept in `wrap_attr_t`. A `cpu_set_t` is
-- a number, the mask of its CPUs; the ones on the heap are a function from addresses.
pub mod Create
pub mod Affinity
pub mod Settings
mod Tests
use mlibc_glibc_compat.Prelude.{
  ℕ, ℤ, pos, bit_field, Option, none, some, Bool, ◌==◌, not, update, if◌then◌else◌,
}
use mlibc_glibc_compat.Errno.{Errno, success, Outcome, returns, aborts}

-- wrap_attr_t. The three enumerations are signed bit-fields of one bit.
pub record WrapAttr : Type 0 where
  pub stack : ℕ
  pub stack_size : ℕ
  pub guard_size : ℕ
  pub cpu_set : ℕ  -- a pointer; 0 is null
  pub param : ℤ  -- sched_param
  pub detach_state : ℤ
  pub scope : ℤ
  pub inherit_sched : ℤ
  pub sched_policy : ℤ

-- The `cpu_set_t`s that `malloc` has given out, by address.
abbrev pub Heap : Type 0
Heap = ℕ → Option ℕ

-- `*attr = {}` and two defaults
unfoldable pub attr_init : WrapAttr → Errno × WrapAttr
attr_init a = (
  success,
  record {
    stack = 0;
    stack_size = 0x200000;
    guard_size = 4096;
    cpu_set = 0;
    param = pos 0;
    detach_state = pos 0;
    scope = pos 0;
    inherit_sched = pos 0;
    sched_policy = pos 0;
  },
)

unfoldable pub attr_destroy : WrapAttr → Heap → Errno × Heap
attr_destroy a h = (success, if a.cpu_set == 0 then h else update h a.cpu_set none)

unfoldable pub attr_getdetachstate : WrapAttr → ℤ
attr_getdetachstate a = a.detach_state

unfoldable pub attr_setdetachstate : ℤ → WrapAttr → WrapAttr
unfolding bit_field
attr_setdetachstate v a = record a { detach_state = bit_field 1 v }

unfoldable pub attr_getstacksize : WrapAttr → ℕ
attr_getstacksize a = a.stack_size

unfoldable pub attr_setstacksize : ℕ → WrapAttr → WrapAttr
attr_setstacksize v a = record a { stack_size = v }

unfoldable pub attr_getstackaddr : WrapAttr → ℕ
attr_getstackaddr a = a.stack

unfoldable pub attr_setstackaddr : ℕ → WrapAttr → WrapAttr
attr_setstackaddr v a = record a { stack = v }

unfoldable pub attr_getstack : WrapAttr → ℕ × ℕ
attr_getstack a = (a.stack, a.stack_size)

unfoldable pub attr_setstack : (stack size : ℕ) → WrapAttr → WrapAttr
attr_setstack p n a = record a { stack = p; stack_size = n }

unfoldable pub attr_getguardsize : WrapAttr → ℕ
attr_getguardsize a = a.guard_size

unfoldable pub attr_setguardsize : ℕ → WrapAttr → WrapAttr
attr_setguardsize v a = record a { guard_size = v }

unfoldable pub attr_getscope : WrapAttr → ℤ
attr_getscope a = a.scope

unfoldable pub attr_setscope : ℤ → WrapAttr → WrapAttr
unfolding bit_field
attr_setscope v a = record a { scope = bit_field 1 v }

unfoldable pub attr_getschedparam : WrapAttr → ℤ
attr_getschedparam a = a.param

unfoldable pub attr_setschedparam : ℤ → WrapAttr → WrapAttr
attr_setschedparam v a = record a { param = v }

unfoldable pub attr_getschedpolicy : WrapAttr → ℤ
attr_getschedpolicy a = a.sched_policy

unfoldable pub attr_setschedpolicy : ℤ → WrapAttr → WrapAttr
attr_setschedpolicy v a = record a { sched_policy = v }

unfoldable pub attr_getinheritsched : WrapAttr → ℤ
attr_getinheritsched a = a.inherit_sched

unfoldable pub attr_setinheritsched : ℤ → WrapAttr → WrapAttr
unfolding bit_field
attr_setinheritsched v a = record a { inherit_sched = bit_field 1 v }

-- The set at a pointer: empty for a null one. `none` is a pointer to no set.
abbrev pub set_at : ℕ → Heap → Option ℕ
set_at p h = if p == 0 then some 0 else h p

-- `cpu_set_size` is `sizeof(cpu_set_t)`.
unfoldable pub attr_getaffinity_np : (cpu_set_size size : ℕ) → WrapAttr → Heap → Outcome (Option ℕ)
attr_getaffinity_np cpu_set_size size a h =
    if size == cpu_set_size then returns (set_at a.cpu_set h) else aborts

-- `fresh` is what `malloc` gives, where it is called; 0 where it fails.
unfoldable pub attr_setaffinity_np :
    (cpu_set_size fresh size set : ℕ) → WrapAttr → Heap → Outcome Errno × (WrapAttr × Heap)
attr_setaffinity_np cpu_set_size fresh size set a h =
    if not (size == cpu_set_size)
    then (aborts, (a, h))
    else if not (a.cpu_set == 0)
    then (returns success, (a, update h a.cpu_set (some set)))
    else if fresh == 0
    then (aborts, (a, h))
    else (returns success, (record a { cpu_set = fresh }, update h fresh (some set)))

-- `__ensure(!"Not implemented")`: the signal masks, and the attributes of a running thread.
unfoldable pub attr_getsigmask_np : WrapAttr → Outcome Errno
attr_getsigmask_np a = aborts

unfoldable pub attr_setsigmask_np : WrapAttr → Outcome Errno
attr_setsigmask_np a = aborts

unfoldable pub getattr_np : (thread : ℕ) → WrapAttr → Outcome Errno
getattr_np thread a = aborts
