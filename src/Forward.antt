-- ===== src/Forward.antt =====
-- src/chk.cpp, src/alias.cpp and src/lfs64.cpp: glibc's second names of functions, each of which calls
-- the function of mlibc that it stands for. The children hold the three files;
-- Resolver, Jumps and Isoc23 are parts of src/alias.cpp. Names and Naming are about the exported names.
pub mod Calls
pub mod Checked
pub mod Aliases
pub mod Resolver
pub mod Jumps
pub mod Isoc23
pub mod LargeFile
pub mod Names
pub mod Naming
pub mod Parameters
mod Tests
