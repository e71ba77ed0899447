-- ===== src/Vfs/Backend.antt =====
-- What helper/drivers/filesystem/vfs.c calls: the ATA driver and the exFAT driver, over a state `W`
-- of theirs. Texts are lists of bytes. A `Bool` tells whether an `int` result was 0.
use windoge_os.Common.{ℕ, Bool, Option, List}
use windoge_os.Common.Int.{ℤ}

pub record Backend (W : Type 0) : Type 0 where
  pub ata_probe_devices : W → W
  pub ata_drive_present : ℕ → W → Bool
  pub ata_select_drive : ℕ → W → Bool × W
  pub exfat_mount : W → ℤ × W
  pub exfat_wipe_and_format : W → Bool × W
  pub exfat_get_working_dir : W → Option (List ℕ)
  pub exfat_change_directory : List ℕ → W → Bool × W
  pub exfat_resolve_entry : List ℕ → W → Bool
  pub exfat_get_info : List ℕ → W → Option (ℕ × Bool)
  pub exfat_create_node : List ℕ → Bool → W → ℤ × W
  pub exfat_delete_node : List ℕ → W → ℤ × W
  pub exfat_truncate_last_line : List ℕ → W → ℤ × W
  pub exfat_read_file : List ℕ → ℕ → W → ℤ × List ℕ
  pub exfat_read_file_at : List ℕ → ℕ → ℕ → W → ℤ × List ℕ
  pub exfat_write_file : List ℕ → List ℕ → W → ℤ × W
  pub exfat_append_file : List ℕ → List ℕ → W → ℤ × W
  pub exfat_print_directory : ℕ → W → ℤ × W
  pub exfat_list_entries : ℕ → W → ℤ × List (List ℕ)
  pub exfat_list_files : ℕ → W → ℤ × List (List ℕ)
