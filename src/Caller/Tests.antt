-- ===== src/Caller/Tests.antt =====
-- A program of two version needs.
use mlibc_glibc_compat.Prelude.{
  ℕ, ◌<◌, ◌==◌, ◌≡◌, ◌≢◌, refl, arith, true, Option, none, some, [], ◌∷◌, if◌then◌else◌,
}
use mlibc_glibc_compat.Caller.{Tag, Verneed, Vernaux, Memory, Loaded, says, scan, is_glibc_caller}
use mlibc_glibc_compat.Caller.AssociationList.{assoc}
use mlibc_glibc_compat.Caller.Versions.{IsNeedChain}
use mlibc_glibc_compat.Caller.Remembered.{tables, answers_by_versions}

-- The needs at 16 and 32; the names at offsets 1, 2 and 3, of which the last is a glibc version.
abbrev needs : ℕ → Verneed
needs p =
    if p == 0x4010
    then record { vn_aux = 0x100; vn_next = 16 }
    else record { vn_aux = 0x200; vn_next = 0 }

abbrev names : ℕ → Vernaux
names a =
    if a == 0x4110
    then record { vna_name = 1; vna_next = 16 }
    else if a == 0x4120
    then record { vna_name = 2; vna_next = 0 }
    else record { vna_name = 3; vna_next = 0 }

abbrev image : Memory
image = record { need = needs; aux = names; is_glibc_name = λ a. a == 0x5003 }

abbrev program : Loaded
program = record {
  fbase = 0x4000;
  osabi = 0;
  dyns =
      record { d_tag = Tag.dt_strtab; d_un = 0x5000 }
      ∷ record { d_tag = Tag.dt_verneed; d_un = 16 }
      ∷ record { d_tag = Tag.dt_verneednum; d_un = 2 }
      ∷ record { d_tag = Tag.dt_null; d_un = 0 }
      ∷ [];
  mem = image;
}

abbrev linker : ℕ → Option Loaded
linker addr = some program

abbrev nothing_known : ℕ → Option Loaded
nothing_known addr = none

answers_by_versions_example :
    is_glibc_caller assoc 2 linker 0x4242 [] ≡ (says true, (0x4242, true) ∷ [])
unfolding scan
answers_by_versions_example =
    answers_by_versions assoc 2 linker 0x4242 [] program (1, 2 ∷ []) ((3, []) ∷ []) refl refl
      (λ e. omega arith) has_strtab chain (omega arith, (omega arith, tt)) counted
  where
    has_strtab : (tables program).strtab ≢ 0
    has_strtab e = omega arith

    chain : IsNeedChain image (tables program).ver_need (1, 2 ∷ []) ((3, []) ∷ [])
    chain = (((refl, (λ e. omega arith), (refl, refl)), (λ e. omega arith), ((refl, refl), refl)))

    counted : 1 < (tables program).ver_need_count
    counted = omega arith
