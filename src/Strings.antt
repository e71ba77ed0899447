-- ===== src/Strings.antt =====
-- helper/string/string.c: the kernel's text functions. A `const char *` that is only read is the
-- list of its bytes before the terminator; what is written through a pointer is a memory, indexed
-- from that pointer on. `Read`, `Write` and `Format` hold the functions, the others the proofs.
pub mod Read
pub mod Compare
pub mod Parse
pub mod Format
pub mod Reverse
pub mod Print
pub mod Write
pub mod Copying
pub mod Clean
pub mod Decimal
pub mod Itoa
