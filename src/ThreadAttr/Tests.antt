-- ===== src/ThreadAttr/Tests.antt =====
-- Thread attributes of concrete programs.
use mlibc_glibc_compat.Prelude.{
  ℕ, pos, negsuc, ◌≡◌, refl, inl, inr, true, none, some, update, arith,
}
use mlibc_glibc_compat.Errno.{success, returns}
use mlibc_glibc_compat.ThreadAttr.{
  WrapAttr, Heap, attr_init, attr_destroy, attr_setdetachstate, attr_getdetachstate, attr_setscope,
  attr_getscope, attr_setinheritsched, attr_getinheritsched, attr_getaffinity_np,
  attr_setaffinity_np,
}
use mlibc_glibc_compat.ThreadAttr.Create.{ThreadConstants, pthread_create}
use mlibc_glibc_compat.ThreadAttr.Affinity.{affinity_lifecycle}
use mlibc_glibc_compat.ThreadAttr.Settings.{Settings, created_with, IsStandard, enums_applied}

abbrev no_sets : Heap
no_sets p = none

-- A detached thread with a stack of its own, bound to the CPUs 0 and 2.
abbrev detached : WrapAttr
detached = record {
  stack = 0x10000;
  stack_size = 0x8000;
  guard_size = 4096;
  cpu_set = 64;
  param = pos 3;
  detach_state = negsuc 0;
  scope = pos 0;
  inherit_sched = pos 0;
  sched_policy = pos 1;
}

abbrev one_set : Heap
one_set = update no_sets 64 (some 5)

abbrev threads_header : ThreadConstants
threads_header = record {
  create_joinable = pos 0;
  create_detached = pos 1;
  scope_system = pos 0;
  scope_process = pos 1;
  inherit_sched = pos 0;
  explicit_sched = pos 1;
}

abbrev system_defaults : Settings
system_defaults = record {
  stack = 0;
  stack_size = 0x800000;
  guard_size = 4096;
  affinity = none;
  param = pos 0;
  detach_state = pos 0;
  scope = pos 0;
  inherit_sched = pos 0;
  sched_policy = pos 0;
}

affinity_lifecycle_example :
    let a0 = (attr_init detached).1 in
    let (r1, (a1, h1)) = attr_setaffinity_np 128 64 128 5 a0 no_sets in
    let (r2, (a2, h2)) = attr_setaffinity_np 128 0 128 9 a1 h1 in
    (attr_getaffinity_np 128 128 a0 no_sets ≡ returns (some 0))
    × (r1 ≡ returns success)
    × (attr_getaffinity_np 128 128 a1 h1 ≡ returns (some 5))
    × (r2 ≡ returns success)
    × (a2 ≡ a1)
    × (attr_getaffinity_np 128 128 a2 h2 ≡ returns (some 9))
    × ((p : ℕ) → (attr_destroy a2 h2).1 p ≡ none)
affinity_lifecycle_example =
    affinity_lifecycle 128 64 0 5 9 detached no_sets (λ e. omega arith) refl

applied_settings :
    created_with system_defaults (pthread_create true threads_header (some detached) one_set 100 7)
    ≡ some (record {
      stack = 0x10000;
      stack_size = 0x8000;
      guard_size = 4096;
      affinity = some 5;
      param = pos 3;
      detach_state = pos 1;
      scope = pos 0;
      inherit_sched = pos 0;
      sched_policy = pos 1;
    })
unfolding pthread_create
applied_settings = refl

threads_header-IsStandard : IsStandard threads_header
threads_header-IsStandard = record {
  detach = (refl, refl);
  scope = (refl, refl);
  inherit = (refl, refl);
}

enums_applied_example :
    let a' =
      attr_setinheritsched (pos 0) (attr_setscope (pos 1) (attr_setdetachstate (pos 1) detached)) in
    ((s : Settings) × (created_with system_defaults
          (pthread_create true threads_header (some a') one_set 100 7)
        ≡ some s)
      × (s.detach_state ≡ pos 1)
      × (s.scope ≡ pos 1)
      × (s.inherit_sched ≡ pos 0))
    × (attr_getdetachstate a' ≡ negsuc 0)
    × (attr_getscope a' ≡ negsuc 0)
    × (attr_getinheritsched a' ≡ pos 0)
enums_applied_example =
    enums_applied true threads_header (pos 1) (pos 1) (pos 0) detached one_set 100 7 system_defaults
      threads_header-IsStandard (inr refl) (inr refl) (inl refl)
