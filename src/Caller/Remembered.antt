-- ===== src/Caller/Remembered.antt =====
-- What `is_glibc_caller` answers (src/caller.cpp), and what it remembers.
use mlibc_glibc_compat.Prelude.{
  ℕ, ◌<◌, ◌≡◌, ◌≢◌, inl, inr, refl, arith, ◌∙◌, Bool, false, Option, none, some, List, ◌∷◌, length,
  Option-cases,
}
use mlibc_glibc_compat.Caller.{
  Loaded, Tables, solaris, scan, need_loop, Cache, says, empty_tables, from_cache, from_image,
  is_glibc_caller,
}
use mlibc_glibc_compat.Caller.Versions.{Names, IsNeedChain, IsEnough, any_entry, need_loop-any}

-- What the scan of an image's dynamic section finds.
abbrev pub tables : Loaded → Tables
tables l = scan l.fbase l.dyns empty_tables

module _ (c : Cache) where
  open c use {Map, find, insert}

  pub hit :
      (fuel : ℕ) (dladdr : ℕ → Option Loaded) (addr : ℕ) (m : Map) (b : Bool)
      → find addr m ≡ some b
      → is_glibc_caller c fuel dladdr addr m ≡ (says b, m)
  unfolding is_glibc_caller
  hit fuel dladdr addr m b h = rw (h, from_cache)

  pub missed :
      (fuel : ℕ) (dladdr : ℕ → Option Loaded) (addr : ℕ) (m : Map)
      → find addr m ≡ none
      → is_glibc_caller c fuel dladdr addr m ≡ from_image c fuel addr (dladdr addr) m
  unfolding is_glibc_caller
  missed fuel dladdr addr m h = rw (h, from_cache)

  -- An answer from an image is remembered.
  image_remembers :
      (fuel addr : ℕ) (o : Option Loaded) (m : Map) (b : Bool)
      → o ≢ none
      → (from_image c fuel addr o m).0 ≡ says b
      → (from_image c fuel addr o m).1 ≡ insert addr b m
  unfolding from_image
  image_remembers fuel addr none m b k h = absurd (k refl)
  image_remembers fuel addr (some l) m b k h = ground arith

  by_versions :
      (fuel addr : ℕ) (m : Map) (l : Loaded) (b : Bool)
      → l.osabi ≢ solaris
      → (tables l).strtab ≢ 0
      → need_loop (tables l).ver_need_count fuel l.mem (tables l).strtab (tables l).ver_need false
        ≡ some b
      → from_image c fuel addr (some l) m ≡ (says b, insert addr b m)
  unfolding from_image
  by_versions fuel addr m l b abi str walk = ground arith

  -- With any hash map that keeps its laws, for an address that is not remembered, in an image that
  -- is not marked as Solaris, with a string table, and with a chain of version needs, no longer
  -- than DT_VERNEEDNUM says, at the address that its dynamic section gives: with fuel for the
  -- longest entry, the answer is whether some version that the image needs has a glibc name, and
  -- this is remembered.
  pub answers_by_versions :
      (fuel : ℕ) (dladdr : ℕ → Option Loaded) (addr : ℕ) (m : Map) (l : Loaded) (e : Names)
      (es : List Names)
      → find addr m ≡ none
      → dladdr addr ≡ some l
      → l.osabi ≢ solaris
      → (tables l).strtab ≢ 0
      → IsNeedChain l.mem (tables l).ver_need e es
      → IsEnough fuel (e ∷ es)
      → length es < (tables l).ver_need_count
      → let b = any_entry l.mem (tables l).strtab (e ∷ es) in
        is_glibc_caller c fuel dladdr addr m ≡ (says b, insert addr b m)
  answers_by_versions fuel dladdr addr m l e es miss found abi str chain enough count =
      let walk =
        need_loop-any (tables l).ver_need_count fuel l.mem (tables l).strtab (tables l).ver_need e
          es false chain enough count in
      missed fuel dladdr addr m miss ∙ rw found (by_versions fuel addr m l _ abi str walk)

  -- With any hash map that keeps its laws, an answer is final: where a call has answered, from what
  -- was remembered or from an image that the dynamic linker knew, every later call for the address
  -- gives the same answer and remembers nothing new, whatever the dynamic linker says by then.
  answer_is_final :
      (fuel fuel' : ℕ) (dladdr dladdr' : ℕ → Option Loaded) (addr : ℕ) (m : Map) (b : Bool)
      → dladdr addr ≢ none
      → (is_glibc_caller c fuel dladdr addr m).0 ≡ says b
      → let m' = (is_glibc_caller c fuel dladdr addr m).1 in
        is_glibc_caller c fuel' dladdr' addr m' ≡ (says b, m')
  answer_is_final fuel fuel' dladdr dladdr' addr m b known h =
      hit fuel' dladdr' addr _ b (elim (Option-cases (find addr m)) [
        | inl miss ↦
            let same = missed fuel dladdr addr m miss in
            let stored = image_remembers fuel addr (dladdr addr) m b known (rw same at h) in
            rw (same, stored) (c.find-insert addr b m miss)
        | inr (b', old) ↦
            let same = hit fuel dladdr addr m b' old in
            let eq : b' ≡ b = cc (rw same at h) in rw (same, ← eq) old
      ])
