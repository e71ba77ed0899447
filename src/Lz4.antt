-- ===== src/Lz4.antt =====
-- kernel/kutil/lz4_pack.c: packing a file and unpacking an archive. `Write` and `Encode` hold the
-- functions of the packer, `Decode` those of the unpacker, `Archive` the two entry points.
pub mod Files
pub mod OnVfs
pub mod Write
pub mod Encode
pub mod Decode
pub mod Archive
pub mod Sequence
pub mod Blocks
pub mod Packed
pub mod Unpack
pub mod Header
pub mod Output
pub mod Lengths
pub mod Ring
pub mod Rounds
pub mod Streams
pub mod Filed
pub mod Blocked
pub mod Archived
pub mod Begun
pub mod Restored
pub mod RoundTrip
pub mod Ends
pub mod Bounded
pub mod Ended
pub mod Atomic
