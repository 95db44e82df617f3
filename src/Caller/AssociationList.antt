-- ===== src/Caller/AssociationList.antt =====
-- An association list in the place of `frg::hash_map` (src/caller.cpp).
use mlibc_glibc_compat.Prelude.{
  ℕ, ◌==◌, ◌≡◌, ◌≢◌, arith, Bool, Option, none, some, List, [], ◌∷◌, if◌then◌else◌,
}
use mlibc_glibc_compat.Caller.{Cache}

abbrev pub find_in : ℕ → List (ℕ × Bool) → Option Bool
find_in k [] = none
find_in k ((j, v) ∷ es) = if j == k then some v else find_in k es

pub find_in-cons : (k : ℕ) (v : Bool) (m : List (ℕ × Bool)) → find_in k ((k, v) ∷ m) ≡ some v
find_in-cons k v m = ground arith

pub find_in-cons_ne :
    (j k : ℕ) (v : Bool) (m : List (ℕ × Bool)) → j ≢ k → find_in j ((k, v) ∷ m) ≡ find_in j m
find_in-cons_ne j k v m h = ground arith

-- The map, as a list.
abbrev pub assoc : Cache
assoc = record {
  Map = List (ℕ × Bool);
  find = find_in;
  insert = λ k v m. (k, v) ∷ m;
  find-insert = λ k v m h. find_in-cons k v m;
  find-insert_ne = find_in-cons_ne;
}
