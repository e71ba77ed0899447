-- ===== src/Elf.antt =====
-- helper/core/execute/elf.c and arguments.h: loading a program. `Image` holds the file's structures
-- and their checks, `Arguments` the argument area of the user stack, `Notes` the search for the note
-- of the system, `Load` the loader.
pub mod Image
pub mod Machine
pub mod Arguments
pub mod Notes
pub mod Load
pub mod Kept
pub mod Regions
pub mod Paging
pub mod Sound
pub mod Safe
pub mod Vector
