-- ===== src/Tests.antt =====
-- The theorems at concrete inputs, and runs of the functions that can be followed in the source.
mod Library
mod Kernel
mod Files
mod Storage
mod Moments
mod Texts
mod Packing
mod Programs
mod Days
