-- ===== src/Lz4/RoundTrip.antt =====
-- kernel/kutil/lz4_pack.c: what is packed comes back.
use windoge_os.Lz4.Files.{Files}
use windoge_os.Lz4.Archived.{Archived}
