-- ===== src/Misc/Startup.antt =====
-- `__libc_start_main` (src/misc.cpp): from the stack that the kernel leaves to `main`.
use mlibc_glibc_compat.Prelude.{
  ℕ, ◌+◌, ◌%◌, ◌^◌, ◌<◌, ◌≡◌, ap, arith, ℤ, pos, signed_of, List, [], ◌∷◌, length,
}

-- A call of `main`, by its arguments. The program exits with the result.
pub record MainCall : Type 0 where
  pub argc : ℤ
  pub argv : ℕ
  pub envp : ℕ

-- `stack` is what `__dlapi_entrystack` gives, and `mem` the 64-bit words at the addresses. The functions
-- `fini` and `rtdl_fini` are not called.
unfoldable pub libc_start_main : (mem : ℕ → ℕ) → (stack environ : ℕ) → (main : MainCall → ℤ) → ℤ
unfolding signed_of
libc_start_main mem stack environ main =
    main (record { argc = signed_of 32 (mem stack % 2 ^ 32); argv = stack + 8; envp = environ })

-- The pointers to the arguments, one word each, and a null pointer.
abbrev HasPointers : (ℕ → ℕ) → ℕ → List ℕ → Type 0
HasPointers mem p [] = mem p ≡ 0
HasPointers mem p (a ∷ as') = (mem p ≡ a) × HasPointers mem (p + 8) as'

-- On a stack as the System V ABI has it, with fewer than 2^31 arguments: `main` is called with their
-- number, with a null-terminated array of them, and with the environment; and its result is the
-- program's exit status.
start_passes_arguments :
    (mem : ℕ → ℕ) (stack environ : ℕ) (main : MainCall → ℤ) (args : List ℕ)
    → length args < 2 ^ 31
    → mem stack ≡ length args
    → HasPointers mem (stack + 8) args
    → (argv : ℕ) × HasPointers mem argv args
      × (libc_start_main mem stack environ main
          ≡ main (record { argc = pos (length args); argv = argv; envp = environ }))
unfolding libc_start_main signed_of
start_passes_arguments mem stack environ main args b e h =
    let number : signed_of 32 (mem stack % 2 ^ 32) ≡ pos (length args) = ground arith in
    (stack + 8, h, ap (λ n. main (record { argc = n; argv = stack + 8; envp = environ })) number)
