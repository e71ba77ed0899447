-- ===== src/Vfs.antt =====
-- helper/drivers/filesystem/vfs.c: drives, paths and the file operations over the exFAT driver.
-- `Backend` is what the file calls, `Path` its text functions, `Drive` and `Ops` its operations.
pub mod Backend
pub mod Path
pub mod Drive
pub mod Ops
pub mod Mount
pub mod Split
pub mod Select
pub mod WorkingDir
