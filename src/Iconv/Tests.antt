-- ===== src/Iconv/Tests.antt =====
-- A conversion with its objects at 100 to 200: the pointers at 100 and 140, the counters at 160 and 170.
use mlibc_glibc_compat.Prelude.{ℕ, ◌≡◌, inl, arith, ◌==◌, if◌then◌else◌}
use mlibc_glibc_compat.Errno.{returns}
use mlibc_glibc_compat.Iconv.{iconv_open, iconv, iconv_reversed}
use mlibc_glibc_compat.Iconv.Words.{load}

-- The input is text at 64, the output is to go to 80, and there are 12 bytes of input.
abbrev objects : ℕ → ℕ
objects a =
    if a == 100
    then 64
    else if a == 140
    then 80
    else if a == 160
    then 12
    else if a == 170
    then 32
    else 0

iconv_reversed_example :
    let r = iconv (iconv_open 0 0) 100 160 140 170 objects in
    (load 8 r.mem 100 ≡ load 8 objects 140)
    × (r.mem 80 ≡ 0)
    × (load 8 r.mem 170 ≡ load 8 objects 160)
    × (r.result ≡ returns (load 8 objects 160))
unfolding load
iconv_reversed_example =
    iconv_reversed 0 0 100 160 140 170 objects 80 (λ a. ground arith) (omega arith)
      (inl (omega arith)) (inl (omega arith)) (inl (omega arith)) (inl (omega arith))
      (inl (omega arith))
