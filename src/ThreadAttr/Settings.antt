-- ===== src/ThreadAttr/Settings.antt =====
-- What a thread is created with (src/thread.cpp): the attributes that the program has set, by way
-- of `wrap_attr_t` and the real library's attributes.
use mlibc_glibc_compat.Prelude.{
  ℕ, ℤ, pos, negsuc, ◌≡◌, refl, arith, Bool, true, false, Option, none, some, List, [], ◌∷◌, ◌==ℤ◌,
  if◌then◌else◌, ◌⊎◌,
}
use mlibc_glibc_compat.ThreadAttr.{
  WrapAttr, Heap, attr_setdetachstate, attr_getdetachstate, attr_setscope, attr_getscope,
  attr_setinheritsched, attr_getinheritsched,
}
use mlibc_glibc_compat.ThreadAttr.Create.{ThreadConstants, RealCall, pointee, pthread_create}

-- The real library's attributes, as its documentation has them: each call sets its own.
pub record Settings : Type 0 where
  pub stack : ℕ
  pub stack_size : ℕ
  pub guard_size : ℕ
  pub affinity : Option ℕ
  pub param : ℤ
  pub detach_state : ℤ
  pub scope : ℤ
  pub inherit_sched : ℤ
  pub sched_policy : ℤ

abbrev applied : RealCall → Settings → Settings
applied (RealCall.setstack p n) s = record s { stack = p; stack_size = n }
applied (RealCall.setguardsize n) s = record s { guard_size = n }
applied (RealCall.setaffinity_np o) s = record s { affinity = o }
applied (RealCall.setschedparam v) s = record s { param = v }
applied (RealCall.setdetachstate v) s = record s { detach_state = v }
applied (RealCall.setscope v) s = record s { scope = v }
applied (RealCall.setinheritsched v) s = record s { inherit_sched = v }
applied (RealCall.setschedpolicy v) s = record s { sched_policy = v }
applied _ s = s

-- The settings that the first `thread_create` with attributes sees; `none` if there is none.
abbrev pub created_with : Settings → List RealCall → Option Settings
created_with s [] = none
created_with s (RealCall.thread_create true fn arg ∷ cs) = some s
created_with s (c ∷ cs) = created_with (applied c s) cs

-- A thread that is created with an attribute has every setting of the attribute, whatever the real
-- library's defaults are: the set of CPUs on Linux alone, where a null pointer is passed on as it
-- is, and of the three enumerations the header's constant for 0 where the field is 0 and the other
-- one where it is not.
create_applies :
    (linux : Bool) (k : ThreadConstants) (a : WrapAttr) (h : Heap) (fn arg : ℕ)
    (defaults : Settings)
    → created_with defaults (pthread_create linux k (some a) h fn arg)
      ≡ some (record {
        stack = a.stack;
        stack_size = a.stack_size;
        guard_size = a.guard_size;
        affinity = if linux then pointee a.cpu_set h else defaults.affinity;
        param = a.param;
        detach_state = if a.detach_state ==ℤ pos 0 then k.create_joinable else k.create_detached;
        scope = if a.scope ==ℤ pos 0 then k.scope_system else k.scope_process;
        inherit_sched = if a.inherit_sched ==ℤ pos 0 then k.inherit_sched else k.explicit_sched;
        sched_policy = a.sched_policy;
      })
unfolding pthread_create
create_applies true k a h fn arg defaults = refl
create_applies false k a h fn arg defaults = refl

-- The header's constants, as mlibc's <pthread.h> gives them.
pub record IsStandard (k : ThreadConstants) : Type 0 where
  pub detach : (k.create_joinable ≡ pos 0) × (k.create_detached ≡ pos 1)
  pub scope : (k.scope_system ≡ pos 0) × (k.scope_process ≡ pos 1)
  pub inherit : (k.inherit_sched ≡ pos 0) × (k.explicit_sched ≡ pos 1)

abbrev pub IsBit : ℤ → Type 0
IsBit v = (v ≡ pos 0) ⊎ (v ≡ pos 1)

abbrev pub read_back : ℤ → ℤ
read_back v = if v ==ℤ pos 1 then negsuc 0 else v

-- The three enumerations of an attribute, where the header's constants are 0 and 1: a thread is
-- created with attributes, and each value of 0 or 1 that the program sets is the one that it is
-- created with; but the getter gives -1 back for 1.
pub enums_applied :
    (linux : Bool) (k : ThreadConstants) (v w x : ℤ) (a : WrapAttr) (h : Heap) (fn arg : ℕ)
    (defaults : Settings)
    → IsStandard k
    → IsBit v
    → IsBit w
    → IsBit x
    → let a' = attr_setinheritsched x (attr_setscope w (attr_setdetachstate v a)) in
      ((s : Settings) × (created_with defaults (pthread_create linux k (some a') h fn arg) ≡ some s)
        × (s.detach_state ≡ v)
        × (s.scope ≡ w)
        × (s.inherit_sched ≡ x))
      × (attr_getdetachstate a' ≡ read_back v)
      × (attr_getscope a' ≡ read_back w)
      × (attr_getinheritsched a' ≡ read_back x)
unfolding attr_setinheritsched attr_setscope attr_setdetachstate attr_getdetachstate attr_getscope
    attr_getinheritsched
enums_applied linux k v w x a h fn arg defaults std hv hw hx = (
  (
    _,
    create_applies linux k (attr_setinheritsched x (attr_setscope w (attr_setdetachstate v a))) h fn
        arg defaults,
    ground arith,
    ground arith,
    ground arith,
  ),
  ground arith,
  ground arith,
  ground arith,
)
