-- ===== src/Api/Tests.antt =====
-- Programs of mutex calls, with the images of two programs: one at the addresses below 0x8000, which
-- `mlibcify.sh` has marked, and one that the dynamic linker does not know.
use mlibc_glibc_compat.Prelude.{
  ℕ, ◌≡◌, refl, arith, inl, inr, pos, true, false, ltb, Option, none, some, [], ◌∷◌, if◌then◌else◌,
}
use mlibc_glibc_compat.Errno.{success}
use mlibc_glibc_compat.Caller.{Loaded, solaris}
use mlibc_glibc_compat.Caller.AssociationList.{assoc}
use mlibc_glibc_compat.Caller.Transparent.{IsFaithful}
use mlibc_glibc_compat.Mutex.{Mutex}
use mlibc_glibc_compat.Mutex.Attr.{Mutexattr}
use mlibc_glibc_compat.Api.{returned, aborted, program}
use mlibc_glibc_compat.Api.Verdicts.{by_verdicts, program-by_verdicts}
use mlibc_glibc_compat.Api.Types.{
  lock_twice, fresh_objects, ending_with, program_types, types_across_images,
}

abbrev marked : Loaded
marked = record {
  fbase = 0x4000;
  osabi = solaris;
  dyns = [];
  mem = record {
    need = λ a. record { vn_aux = 0; vn_next = 0 };
    aux = λ a. record { vna_name = 0; vna_next = 0 };
    is_glibc_name = λ a. false;
  };
}

abbrev linker : ℕ → Option Loaded
linker addr = if ltb addr 0x8000 then some marked else none

abbrev blank : Mutexattr
blank = record {
  type = pos 0;
  robust = pos 0;
  protocol = pos 0;
  pshared = pos 0;
  prioceiling = pos 0;
}

abbrev memory : Mutex
memory = record { state = 5; recursion = 5; flags = 5; prioceiling = pos 5; kind = pos 1 }

-- One answer is remembered.
seen : IsFaithful assoc 3 linker ((0x9000, false) ∷ [])
seen k b h = ground arith

-- The marked program's type 1 means "recursive".
program_types_example :
    (program assoc 3 linker
      (lock_twice 7 0x4100 0x4200 (pos 1))
      ((0x9000, false) ∷ [])
      (fresh_objects blank memory)).0
    ≡ ending_with (returned success)
program_types_example =
    program_types assoc 3 linker 7 0x4100 0x4200 true (pos 1) blank memory ((0x9000, false) ∷ [])
      seen (omega arith) (omega arith) (inr (inl refl)) refl refl

types_across_images_example :
    (program assoc 3 linker
      (lock_twice 7 0x4100 0x9000 (pos 1))
      ((0x9000, false) ∷ [])
      (fresh_objects blank memory)).0
    ≡ ending_with aborted
types_across_images_example =
    types_across_images assoc 3 linker 7 0x4100 0x9000 true (pos 1) blank memory
      ((0x9000, false) ∷ []) seen (omega arith) (omega arith) (inr (inl refl)) refl refl

program-by_verdicts_example :
    program assoc 3 linker
      (lock_twice 7 0x9000 0x4200 (pos 2))
      ((0x9000, false) ∷ [])
      (fresh_objects blank memory)
    ≡ by_verdicts 3 linker (lock_twice 7 0x9000 0x4200 (pos 2)) (fresh_objects blank memory)
program-by_verdicts_example =
    program-by_verdicts assoc 3 linker (lock_twice 7 0x9000 0x4200 (pos 2)) ((0x9000, false) ∷ [])
      (fresh_objects blank memory) seen
