-- ===== src/Api/Verdicts.antt =====
-- What a program's mutex calls do depends on the images that they are made from, and not on what
-- `is_glibc_caller` remembers (src/mlibc_thread.cpp, src/caller.cpp).
use mlibc_glibc_compat.Prelude.{ℕ, ◌≡◌, refl, ap, Option, List, [], ◌∷◌}
use mlibc_glibc_compat.Caller.{Loaded, Cache}
use mlibc_glibc_compat.Caller.Transparent.{verdict, IsFaithful, call-IsFaithful}
use mlibc_glibc_compat.Api.{Called, Objects, Reply, after, continued, call, program}

-- The program with each call's image asked anew.
abbrev pub by_verdicts :
    (fuel : ℕ) → (dladdr : ℕ → Option Loaded) → List Called → Objects → List Reply × Objects
by_verdicts fuel dladdr [] o = ([], o)
by_verdicts fuel dladdr (k ∷ ks) o =
    let now = after (verdict fuel (dladdr k.addr)) k o in
    let rest = by_verdicts fuel dladdr ks now.1 in continued now rest

module _ (c : Cache) (fuel : ℕ) (dladdr : ℕ → Option Loaded) where
  open c use {Map}

  -- With any hash map that keeps its laws, where what is remembered at first is what the images say
  -- themselves, as where nothing is: any sequence of mutex calls, by any threads and from any
  -- addresses, gets the replies and leaves the mutex and the attributes that it would with every
  -- call's image read anew.
  pub program-by_verdicts :
      (ks : List Called) (m : Map) (o : Objects)
      → IsFaithful c fuel dladdr m
      → program c fuel dladdr ks m o ≡ by_verdicts fuel dladdr ks o
  unfolding program call
  program-by_verdicts [] m o f = refl
  program-by_verdicts (k ∷ ks) m o f =
      let fits = call-IsFaithful c fuel dladdr k.addr m f in
      rw (fits.0) (
        ap (continued (after (verdict fuel (dladdr k.addr)) k o))
          (program-by_verdicts ks (call c fuel dladdr k m o).1 _ fits.1))
