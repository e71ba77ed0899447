-- ===== src/Tests/Packing.antt =====
-- kernel/kutil/lz4_pack.c: the theorems over a disk that maps names to contents.
use windoge_os.Common.{
  ℕ, zero, suc, ◌+◌, ◌-◌, ◌*◌, ◌^◌, ◌≤◌, ◌≡◌, Bool, true, false, ◌&&◌, Option, none, some, List, [],
  ◌∷◌, ◌++◌, ◌==◌, if◌then◌else◌, length, take, drop, arith,
}
use windoge_os.Common.Step.{done}
use windoge_os.Vfs.Backend.{Backend}
use windoge_os.Vfs.Path.{root}
use windoge_os.Vfs.Drive.{Vfs}
use windoge_os.Vfs.Ops.{Junk}
use windoge_os.Lz4.OnVfs.{content_at, UsableName, DriveBroken}
use windoge_os.Lz4.Write.{Writer}
use windoge_os.Lz4.Decode.{Unpacking}
use windoge_os.Lz4.Blocks.{Spells}
use windoge_os.Lz4.Filed.{Filed, pack_block-Spells}
use windoge_os.Common.Int.{ℤ, pos, negsuc}
use windoge_os.Lz4.Files.{Files, vfs_files}
use windoge_os.Lz4.Archive.{pack_block}

abbrev Disk : Type 0
Disk = List ℕ → Option (List ℕ)

abbrev same_path : List ℕ → List ℕ → Bool
same_path [] [] = true
same_path [] (d ∷ q) = false
same_path (c ∷ p) [] = false
same_path (c ∷ p) (d ∷ q) = (c == d) && same_path p q

abbrev put_file : List ℕ → Option (List ℕ) → Disk → Disk
put_file p v w q = if same_path p q then v else w q

-- A disk that has room for so many changes.
record Room : Type 0 where
  files : Disk
  room : ℕ

abbrev slice : ℕ → ℕ → Option (List ℕ) → ℤ × List ℕ
slice offset n none = (negsuc 0, [])
slice offset n (some bs) = (pos (length (take n (drop offset bs))), take n (drop offset bs))

-- A change, while there is room.
abbrev change : ℕ → List ℕ → Option (List ℕ) → Room → ℤ × Room
change zero p new r = (negsuc 0, r)
change (suc k) p new r = (pos 0, record r { files = put_file p new r.files; room = k })

abbrev append_to : List ℕ → List ℕ → Option (List ℕ) → Room → ℤ × Room
append_to p bytes none r = (negsuc 0, r)
append_to p bytes (some bs) r = change r.room p (some (bs ++ bytes)) r

abbrev create_at : List ℕ → Option (List ℕ) → Room → ℤ × Room
create_at p none r = change r.room p (some []) r
create_at p (some bs) r = (negsuc 0, r)

-- A driver for this disk, in its root directory.
abbrev driver : Backend Room
driver = record {
  ata_probe_devices = λ w. w;
  ata_drive_present = λ d w. true;
  ata_select_drive = λ d w. (true, w);
  exfat_mount = λ w. (pos 1, w);
  exfat_wipe_and_format = λ w. (false, w);
  exfat_get_working_dir = λ w. some root;
  exfat_change_directory = λ p w. (false, w);
  exfat_resolve_entry = λ p w. false;
  exfat_get_info = λ p w. none;
  exfat_create_node = λ p d w. create_at p (w.files p) w;
  exfat_delete_node = λ p w. (pos 0, record w { files = put_file p none w.files });
  exfat_truncate_last_line = λ p w. (negsuc 0, w);
  exfat_read_file = λ p n w. slice 0 n (w.files p);
  exfat_read_file_at = λ p o n w. slice o n (w.files p);
  exfat_write_file = λ p b w. (negsuc 0, w);
  exfat_append_file = λ p b w. append_to p b (w.files p) w;
  exfat_print_directory = λ h w. (pos 0, w);
  exfat_list_entries = λ n w. (pos 0, []);
  exfat_list_files = λ n w. (pos 0, []);
}

abbrev junk : Junk
junk = record { clean = []; leaf = [] }

abbrev on_disk : List ℕ → Room → Option (List ℕ)
on_disk p w = w.files p

abbrev Full : Room → Type 0
Full w = w.room ≡ 0

abbrev AnyName : List ℕ → Type 0
AnyName p = Unit {0}

abbrev plain : List ℕ
plain = 1 ∷ 2 ∷ 3 ∷ 4 ∷ 1 ∷ 2 ∷ 3 ∷ 4 ∷ 1 ∷ 2 ∷ 3 ∷ 4 ∷ 1 ∷ 2 ∷ 3 ∷ 4 ∷ 1 ∷ 2 ∷ 3 ∷ 4 ∷ 9 ∷ []

abbrev fs : Files (Vfs Room)
fs = vfs_files driver junk

abbrev content : List ℕ → Vfs Room → Option (List ℕ)
content = content_at driver junk on_disk AnyName Full

abbrev Usable : List ℕ → Type 0
Usable = UsableName driver junk on_disk AnyName Full

abbrev Broken : Vfs Room → Type 0
Broken = DriveBroken driver junk on_disk AnyName Full

abbrev mounted_with : Disk → Vfs Room
mounted_with d = record {
  current_drive = 0;
  mounted = λ d. true;
  working_dirs = λ d. root;
  world = record { files = d; room = 9 };
}

abbrev with_file : Vfs Room
with_file = mounted_with (put_file (b'a' ∷ []) (some plain) (λ q. none))

abbrev source_path : List ℕ
source_path = b'a' ∷ []

abbrev archive_path : List ℕ
archive_path = b'b' ∷ []

abbrev target_path : List ℕ
target_path = b'c' ∷ []

abbrev empty_writer : Writer (Vfs Room)
empty_writer = record {
  path = some archive_path;
  bytes = [];
  capacity = 65536;
  world =
      mounted_with
        (put_file archive_path (some []) (put_file source_path (some plain) (λ q. none)));
}

pack_block-Spells_example :
    (bytes : List ℕ) × (pack_block fs plain empty_writer ≡ (done bytes, empty_writer))
    × Spells plain 0 bytes
    × (15 * length bytes ≤ 16 * length plain + 15)
pack_block-Spells_example = pack_block-Spells fs plain empty_writer (omega arith) (omega arith)

abbrev reader : Unpacking (Vfs Room)
reader = record {
  start = 2 ^ 64 - 1;
  buffer = [];
  index = 0;
  history = λ i. 0;
  pending = [];
  produced = 0;
  world =
      mounted_with (put_file target_path (some []) (put_file source_path (some plain) (λ q. none)));
}

-- An archive that breaks off in its first sequence.
abbrev broken : List ℕ
broken = 9 ∷ 0 ∷ 0 ∷ 0 ∷ 64 ∷ []

abbrev with_broken : Vfs Room
with_broken = mounted_with (put_file archive_path (some broken) (λ q. none))
