-- ===== src/ThreadAttr/Affinity.antt =====
-- The set of CPUs of a thread attribute (src/thread.cpp), from its allocation to its release.
use mlibc_glibc_compat.Prelude.{ℕ, ◌≡◌, ◌≢◌, arith, none, some}
use mlibc_glibc_compat.Errno.{success, returns}
use mlibc_glibc_compat.ThreadAttr.{
  WrapAttr, Heap, attr_init, attr_destroy, attr_getaffinity_np, attr_setaffinity_np,
}

-- From `init` on: the set is empty; after one or two stores it is the one stored last, in the one
-- block that the first store has allocated; and `destroy` frees that block, so that the heap is as
-- it was. The block is a new one, and no null pointer.
pub affinity_lifecycle :
    (n fresh other s1 s2 : ℕ) (a : WrapAttr) (h : Heap)
    → fresh ≢ 0
    → h fresh ≡ none
    → let a0 = (attr_init a).1 in
      let (r1, (a1, h1)) = attr_setaffinity_np n fresh n s1 a0 h in
      let (r2, (a2, h2)) = attr_setaffinity_np n other n s2 a1 h1 in
      (attr_getaffinity_np n n a0 h ≡ returns (some 0))
      × (r1 ≡ returns success)
      × (attr_getaffinity_np n n a1 h1 ≡ returns (some s1))
      × (r2 ≡ returns success)
      × (a2 ≡ a1)
      × (attr_getaffinity_np n n a2 h2 ≡ returns (some s2))
      × ((p : ℕ) → (attr_destroy a2 h2).1 p ≡ h p)
unfolding attr_init attr_setaffinity_np attr_getaffinity_np attr_destroy
affinity_lifecycle n fresh other s1 s2 a h f e = (
  ground arith,
  ground arith,
  ground arith,
  ground arith,
  ground arith,
  ground arith,
  λ p. ground arith,
)
