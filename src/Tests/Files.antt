-- ===== src/Tests/Files.antt =====
-- helper/drivers/filesystem/vfs.c: the theorems over a driver that keeps a directory and no files.
use windoge_os.Common.{
  ℕ, ◌==◌, if◌then◌else◌, length, ◌≢◌, ◌<◌, ◌≡◌, refl, inr, true, false, none, some, List, [], ◌∷◌,
}
use windoge_os.Common.Int.{ℤ, pos}
use windoge_os.Common.Mem.{chr}
use windoge_os.Access.Policy.{NoSlash}
use windoge_os.Vfs.Backend.{Backend}
use windoge_os.Vfs.Path.{
  root, fs_split_path, fs_sanitize_path, skip_spaces, trim_blanks, trim_slashes, split_clean,
  split_at, last_slash, copy_name, copy_or,
}
use windoge_os.Vfs.Drive.{
  Vfs, fs_select_drive_internal, fs_prepare_path, fs_mount_or_format_drive, mount_or_format,
  enter_drive, remember_dir, copy_path, after_drive,
}
use windoge_os.Vfs.Ops.{Junk, fail}
use windoge_os.Vfs.Split.{Parts, split_path-Parts}
use windoge_os.Vfs.Select.{Selected, select-Selected, prepare_path-Selected}

-- The state is the current directory; there is no directory whose path starts with x; every other function does nothing.
abbrev walker : Backend (List ℕ)
walker = record {
  ata_probe_devices = λ w. w;
  ata_drive_present = λ d w. true;
  ata_select_drive = λ d w. (true, w);
  exfat_mount = λ w. (pos 1, w);
  exfat_wipe_and_format = λ w. (true, root);
  exfat_get_working_dir = λ w. some w;
  exfat_change_directory = λ p w. if chr p == b'x' then (false, w) else (true, p);
  exfat_resolve_entry = λ p w. false;
  exfat_get_info = λ p w. none;
  exfat_create_node = λ p d w. (pos 0, w);
  exfat_delete_node = λ p w. (fail, w);
  exfat_truncate_last_line = λ p w. (fail, w);
  exfat_read_file = λ p n w. (fail, []);
  exfat_read_file_at = λ p o n w. (fail, []);
  exfat_write_file = λ p b w. (pos 0, w);
  exfat_append_file = λ p b w. (pos 0, w);
  exfat_print_directory = λ h w. (pos 0, w);
  exfat_list_entries = λ n w. (pos 0, []);
  exfat_list_files = λ n w. (pos 0, []);
}

abbrev junk : Junk
junk = record { clean = []; leaf = [] }

-- In "/u" on drive C:.
abbrev booted : Vfs (List ℕ)
booted = record {
  current_drive = 0;
  mounted = λ d. true;
  working_dirs = λ d. root;
  world = b'/' ∷ b'u' ∷ [];
}

-- "a/b"
abbrev a_b : List ℕ
a_b = b'a' ∷ b'/' ∷ b'b' ∷ []

-- "d:/b"
abbrev d_b : List ℕ
d_b = b'd' ∷ b':' ∷ b'/' ∷ b'b' ∷ []

abbrev create : List ℕ → List ℕ → ℤ × List ℕ
create leaf w = walker.exfat_create_node leaf false w

split_path-Parts_example :
    let s = fs_sanitize_path a_b [] 256 in
    (s ≡ [] → fs_split_path a_b [] [] ≡ none)
    × (s ≡ root → fs_split_path a_b [] [] ≡ some (root, b'.' ∷ []))
    × (s ≢ []
        → s ≢ root
        → length s < 255
        → (parent leaf : List ℕ) × (fs_split_path a_b [] [] ≡ some (parent, leaf))
          × Parts s parent leaf
          × NoSlash leaf)
split_path-Parts_example = split_path-Parts b'a' (b'/' ∷ b'b' ∷ []) [] []

a_split : fs_split_path a_b [] [] ≡ some (b'a' ∷ [], b'b' ∷ [])
unfolding fs_split_path fs_sanitize_path skip_spaces trim_blanks trim_slashes split_clean split_at
    last_slash copy_name copy_or
a_split = refl

selected_d : (fs_select_drive_internal walker 1 booted).0 ≡ true
unfolding fs_select_drive_internal fs_mount_or_format_drive mount_or_format enter_drive remember_dir
selected_d = refl

select-Selected_example : Selected 1 (fs_select_drive_internal walker 1 booted).1
select-Selected_example = select-Selected walker 1 booted selected_d

prepared_d : (fs_prepare_path walker d_b booted).0 ≡ some (b'/' ∷ b'b' ∷ [])
unfolding fs_prepare_path copy_path after_drive fs_select_drive_internal fs_mount_or_format_drive
    mount_or_format enter_drive remember_dir
prepared_d = refl

prepare_path-Selected_example : Selected 1 (fs_prepare_path walker d_b booted).1
prepare_path-Selected_example =
    prepare_path-Selected walker d_b (b'/' ∷ b'b' ∷ []) booted (inr refl) refl prepared_d
