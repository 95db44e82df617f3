-- ===== src/Caller/Transparent.antt =====
-- `is_glibc_caller` (src/caller.cpp) next to a version of it that remembers nothing.
use mlibc_glibc_compat.Prelude.{
  ℕ, ◌≡◌, ◌≢◌, ◌⊎◌, inl, inr, refl, sym, ◌∙◌, arith, Bool, false, true, Option, none, some,
  Bool-cases, Option-cases, ◌==◌, if◌then◌else◌,
}
use mlibc_glibc_compat.Caller.{
  Loaded, solaris, need_loop, Cache, Answer, says, asserts, unfinished, from_versions, from_image,
  is_glibc_caller,
}
use mlibc_glibc_compat.Caller.Remembered.{tables, hit, missed}

abbrev from_walk : Option Bool → Answer
from_walk none = unfinished
from_walk (some b) = says b

-- What an image says by itself.
abbrev pub verdict : (fuel : ℕ) → Option Loaded → Answer
verdict fuel none = says false
verdict fuel (some l) =
    if l.osabi == solaris
    then says true
    else if (tables l).strtab == 0
    then asserts
    else from_walk
        (need_loop (tables l).ver_need_count fuel l.mem (tables l).strtab (tables l).ver_need false)

module _ (c : Cache) (fuel : ℕ) (dladdr : ℕ → Option Loaded) where
  open c use {Map, find, insert}

  -- Every answer that is remembered is the image's own.
  abbrev pub IsFaithful : Map → Type 0
  IsFaithful m = (k : ℕ) (b : Bool) → find k m ≡ some b → verdict fuel (dladdr k) ≡ says b

  Faithful-insert :
      (addr : ℕ) (b : Bool) (m : Map)
      → find addr m ≡ none
      → verdict fuel (dladdr addr) ≡ says b
      → IsFaithful m
      → IsFaithful (insert addr b m)
  Faithful-insert addr b m miss v f k b' h = elim (Bool-cases (k == addr)) [
    | inl y ↦
        let at : k ≡ addr = ground (arith, y) in
        let stored : find k (insert addr b m) ≡ some b = rw at (c.find-insert addr b m miss) in
        let same : b ≡ b' = cc in rw (at, ← same) v
    | inr n ↦
        let apart : k ≢ addr = ground (arith, n) in
        f k b' (sym (c.find-insert_ne k addr b m apart) ∙ h)
  ]

  image_verdict :
      (addr : ℕ) (o : Option Loaded) (m : Map) → (from_image c fuel addr o m).0 ≡ verdict fuel o
  unfolding from_image from_versions
  image_verdict addr none m = refl
  image_verdict addr (some l) m = ground arith

  -- What is remembered of an image is what it says.
  image_remembered :
      (addr : ℕ) (o : Option Loaded) (m : Map)
      → ((from_image c fuel addr o m).1 ≡ m)
        ⊎ ((b : Bool) × (verdict fuel o ≡ says b)
            × ((from_image c fuel addr o m).1 ≡ insert addr b m))
  unfolding from_image from_versions
  image_remembered addr none m = inl refl
  image_remembered addr (some l) m = elim (Bool-cases (l.osabi == solaris)) [
    | inl y ↦ inr (true, rw (y, if◌then◌else◌) refl, rw (y, if◌then◌else◌) refl)
    | inr n ↦ elim (Bool-cases ((tables l).strtab == 0)) [
      | inl z ↦ inl (rw (n, z, if◌then◌else◌) refl)
      | inr s ↦
          elim (Option-cases (
            need_loop (tables l).ver_need_count fuel l.mem (tables l).strtab (tables l).ver_need
              false)) [
                | inl w ↦ inl (rw (n, s, w, if◌then◌else◌) refl)
                | inr (b, w) ↦
                    inr (b, rw (n, s, w, if◌then◌else◌) refl, rw (n, s, w, if◌then◌else◌) refl)
              ]
    ]
  ]

  image-IsFaithful :
      (addr : ℕ) (m : Map)
      → find addr m ≡ none
      → IsFaithful m
      → IsFaithful (from_image c fuel addr (dladdr addr) m).1
  image-IsFaithful addr m miss f = elim (image_remembered addr (dladdr addr) m) [
    | inl same ↦ rw same f
    | inr (b, v, new) ↦ rw new (Faithful-insert addr b m miss v f)
  ]

  -- A call's answer is the image's own, and it leaves every answer that is remembered so.
  pub call-IsFaithful :
      (addr : ℕ) (m : Map)
      → IsFaithful m
      → ((is_glibc_caller c fuel dladdr addr m).0 ≡ verdict fuel (dladdr addr))
        × IsFaithful (is_glibc_caller c fuel dladdr addr m).1
  call-IsFaithful addr m f = elim (Option-cases (find addr m)) [
    | inl miss ↦
        let same = missed c fuel dladdr addr m miss in
        rw same (image_verdict addr (dladdr addr) m, image-IsFaithful addr m miss f)
    | inr (b, old) ↦ let same = hit c fuel dladdr addr m b old in rw same (sym (f addr b old), f)
  ]
