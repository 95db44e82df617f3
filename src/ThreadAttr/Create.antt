-- ===== src/ThreadAttr/Create.antt =====
-- `__pthread_create` (src/thread.cpp): the calls of the real library's functions that it makes.
use mlibc_glibc_compat.Prelude.{
  ℕ, ℤ, pos, Bool, true, false, Option, none, some, List, [], ◌∷◌, ◌++◌, ◌==◌, ◌==ℤ◌, if◌then◌else◌,
}
use mlibc_glibc_compat.Forward.Calls.{Forwarded, forwards}
use mlibc_glibc_compat.ThreadAttr.{WrapAttr, Heap}

-- The constants of the real library's <pthread.h>.
pub record ThreadConstants : Type 0 where
  pub create_joinable : ℤ
  pub create_detached : ℤ
  pub scope_system : ℤ
  pub scope_process : ℤ
  pub inherit_sched : ℤ
  pub explicit_sched : ℤ

-- A call of a function of `namespace real`, with its arguments. A set of CPUs is passed by pointer,
-- null for `none`.
pub data RealCall : Type 0 where
  init : RealCall
  setstack : (stack size : ℕ) → RealCall
  setguardsize : ℕ → RealCall
  setaffinity_np : Option ℕ → RealCall
  setschedparam setdetachstate setscope setinheritsched setschedpolicy : ℤ → RealCall
  thread_create : (with_attr : Bool) → (fn arg : ℕ) → RealCall
  destroy : RealCall

-- `linux` is __MLIBC_LINUX_OPTION.
abbrev affinity_calls : (linux : Bool) → Option ℕ → List RealCall
affinity_calls true s = RealCall.setaffinity_np s ∷ []
affinity_calls false s = []

abbrev pub pointee : ℕ → Heap → Option ℕ
pointee p h = if p == 0 then none else h p

-- The calls in order. The result is that of `thread_create`.
unfoldable pub pthread_create :
    (linux : Bool) → ThreadConstants → Option WrapAttr → Heap → (fn arg : ℕ) → List RealCall
pthread_create linux k none h fn arg = RealCall.thread_create false fn arg ∷ []
pthread_create linux k (some a) h fn arg =
    RealCall.init
    ∷ RealCall.setstack a.stack a.stack_size
    ∷ RealCall.setguardsize a.guard_size
    ∷ (affinity_calls linux (pointee a.cpu_set h)
        ++ (RealCall.setschedparam a.param
            ∷ RealCall.setdetachstate
                (if a.detach_state ==ℤ pos 0 then k.create_joinable else k.create_detached)
            ∷ RealCall.setscope (if a.scope ==ℤ pos 0 then k.scope_system else k.scope_process)
            ∷ RealCall.setinheritsched
                (if a.inherit_sched ==ℤ pos 0 then k.inherit_sched else k.explicit_sched)
            ∷ RealCall.setschedpolicy a.sched_policy
            ∷ RealCall.thread_create true fn arg
            ∷ RealCall.destroy
            ∷ []))

-- `__pthread_key_create`
unfoldable pub pthread_key_create : (out destructor : ℕ) → Forwarded
pthread_key_create out destructor = forwards "pthread_key_create" (out ∷ destructor ∷ []) []
