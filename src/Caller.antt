-- ===== src/Caller.antt =====
-- src/caller.cpp: whether a return address lies in a program or library that was linked against
-- glibc. The dynamic linker's answer, the memory of the image, the test of a version's name and the
-- hash map are parameters.
pub mod Versions
pub mod Remembered
pub mod Transparent
pub mod AssociationList
mod Tests
use mlibc_glibc_compat.Prelude.{
  ℕ, zero, suc, ◌+◌, ◌%◌, ◌^◌, ◌≡◌, ◌≢◌, Bool, true, false, ◌||◌, Option, none, some, List, [], ◌∷◌,
  ltb, ◌==◌, if◌then◌else◌,
}

-- The `d_tag`s that are named.
pub data Tag : Type 0 where
  dt_null dt_strtab dt_verneed dt_verneednum : Tag
  dt_other : ℕ → Tag

-- ElfW(Dyn)
pub record Dyn : Type 0 where
  pub d_tag : Tag
  pub d_un : ℕ

-- ElfW(Verneed) and ElfW(Vernaux), the fields that are read
pub record Verneed : Type 0 where
  pub vn_aux : ℕ
  pub vn_next : ℕ

pub record Vernaux : Type 0 where
  pub vna_name : ℕ
  pub vna_next : ℕ

-- What lies at an address of a loaded image. `is_glibc_name a` is
-- `frg::string_view{a}.starts_with("GLIBC_")`.
pub record Memory : Type 0 where
  pub need : ℕ → Verneed
  pub aux : ℕ → Vernaux
  pub is_glibc_name : ℕ → Bool

-- What `dladdr1` finds: the base of the image, its OS ABI, its dynamic section and its memory.
pub record Loaded : Type 0 where
  pub fbase : ℕ
  pub osabi : ℕ
  pub dyns : List Dyn
  pub mem : Memory

-- ELFOSABI_SOLARIS
abbrev pub solaris : ℕ
solaris = 6

-- Pointers have 64 bits.
abbrev pub plus : ℕ → ℕ → ℕ
plus a d = (a + d) % 2 ^ 64

-- An address below the base is an offset from it.
abbrev pub relocated : (fbase : ℕ) → ℕ → ℕ
relocated fbase p = if ltb p fbase then plus p fbase else p

-- The three variables of the scan of the dynamic section. A null `strtab` is 0.
pub record Tables : Type 0 where
  pub strtab : ℕ
  pub ver_need : ℕ
  pub ver_need_count : ℕ

abbrev pub note : (fbase : ℕ) → Tag → ℕ → Tables → Tables
note fbase Tag.dt_strtab v t = record t { strtab = relocated fbase v }
note fbase Tag.dt_verneed v t = record t { ver_need = relocated fbase v }
note fbase Tag.dt_verneednum v t = record t { ver_need_count = v }
note fbase _ v t = t

abbrev is_null : Tag → Bool
is_null Tag.dt_null = true
is_null _ = false

-- The entries up to DT_NULL.
unfoldable pub scan : (fbase : ℕ) → List Dyn → Tables → Tables
scan fbase [] t = t
scan fbase (d ∷ ds) t =
    let rest = scan fbase ds (note fbase d.d_tag d.d_un t) in if is_null d.d_tag then t else rest

-- The inner loop: the auxiliary entries from `a` on, until a glibc name or the end of the chain.
-- `none` says that the fuel ran out.
unfoldable pub aux_loop : ℕ → Memory → (strtab a : ℕ) → Option Bool
aux_loop zero mem strtab a = none
aux_loop (suc f) mem strtab a =
    let rest = aux_loop f mem strtab (plus a (mem.aux a).vna_next) in
    if mem.is_glibc_name (plus strtab (mem.aux a).vna_name)
    then some true
    else if (mem.aux a).vna_next == 0
    then some false
    else rest

-- The outer loop, of `count` rounds. A glibc name ends only the inner loop.
unfoldable pub need_loop :
    (count fuel : ℕ) → Memory → (strtab p : ℕ) → (is_glibc : Bool) → Option Bool
unfolding aux_loop
need_loop zero fuel mem strtab p is_glibc = some is_glibc
need_loop (suc n) fuel mem strtab p is_glibc =
    elim (aux_loop fuel mem strtab (plus p (mem.need p).vn_aux)) [
      | none ↦ none
      | some found ↦ elim ((mem.need p).vn_next == 0) [
        | true ↦ some (is_glibc || found)
        | false ↦ need_loop n fuel mem strtab (plus p (mem.need p).vn_next) (is_glibc || found)
      ]
    ]

-- `frg::hash_map<void *, bool>`, as far as the code relies on it: an insertion of a key that is not
-- there is found, and leaves the other keys alone.
pub record Cache : Type 1 where
  pub Map : Type 0
  pub find : ℕ → Map → Option Bool
  pub insert : ℕ → Bool → Map → Map
  pub find-insert : (k : ℕ) (v : Bool) (m : Map) → find k m ≡ none → find k (insert k v m) ≡ some v
  pub find-insert_ne : (j k : ℕ) (v : Bool) (m : Map) → j ≢ k → find j (insert k v m) ≡ find j m

pub data Answer : Type 0 where
  says : Bool → Answer
  asserts : Answer  -- `assert(strtab)` fails
  unfinished : Answer  -- the fuel ran out

abbrev pub empty_tables : Tables
empty_tables = record { strtab = 0; ver_need = 0; ver_need_count = 0 }

module _ (c : Cache) where
  open c use {Map, find, insert}

  -- The answer from the version needs, which is remembered.
  abbrev pub remember : (addr : ℕ) → Option Bool → Map → Answer × Map
  remember addr none m = (Answer.unfinished, m)
  remember addr (some b) m = (Answer.says b, insert addr b m)

  unfoldable pub from_versions : (fuel addr : ℕ) → Loaded → Map → Answer × Map
  unfolding scan need_loop
  from_versions fuel addr l m =
      let t = scan l.fbase l.dyns empty_tables in
      if t.strtab == 0
      then (Answer.asserts, m)
      else remember addr (need_loop t.ver_need_count fuel l.mem t.strtab t.ver_need false) m

  -- An address that `dladdr1` does not know is no glibc caller, and this is not remembered.
  unfoldable pub from_image : (fuel addr : ℕ) → Option Loaded → Map → Answer × Map
  unfolding from_versions
  from_image fuel addr none m = (Answer.says false, m)
  from_image fuel addr (some l) m =
      if l.osabi == solaris
      then (Answer.says true, insert addr true m)
      else from_versions fuel addr l m

  abbrev pub from_cache : Option Bool → (Answer × Map) → Map → Answer × Map
  from_cache (some b) miss m = (Answer.says b, m)
  from_cache none miss m = miss

  -- `dladdr` is what `dladdr1` answers.
  unfoldable pub is_glibc_caller :
      (fuel : ℕ) → (dladdr : ℕ → Option Loaded) → (addr : ℕ) → Map → Answer × Map
  unfolding from_image
  is_glibc_caller fuel dladdr addr m =
      let miss = from_image fuel addr (dladdr addr) m in from_cache (find addr m) miss m
