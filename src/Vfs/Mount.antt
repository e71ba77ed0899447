-- ===== src/Vfs/Mount.antt =====
-- helper/drivers/filesystem/vfs.c: mounting, the current directory and listing by name.
use windoge_os.Common.{
  ℕ, zero, suc, ◌+◌, Bool, false, not, ◌||◌, Option, none, some, List, [], ◌∷◌, ◌==◌, if◌then◌else◌,
}
use windoge_os.Common.Int.{ℤ, pos}
use windoge_os.Common.Mem.{chr}
use windoge_os.Vfs.Backend.{Backend}
use windoge_os.Vfs.Path.{root, fs_sanitize_path}
use windoge_os.Vfs.Drive.{
  Vfs, update, is_one, fs_mount_or_format_drive, fs_select_drive_internal, fs_prepare_path,
}
use windoge_os.Vfs.Ops.{fail, same_text}

-- "--hidden"
abbrev pub hidden_flag : List ℕ
hidden_flag = b'-' ∷ b'-' ∷ b'h' ∷ b'i' ∷ b'd' ∷ b'd' ∷ b'e' ∷ b'n' ∷ []

module _ {W : Type 0} (be : Backend W) where
  unfoldable pub fs_select_drive : ℕ → Vfs W → Bool × Vfs W
  fs_select_drive drive v = fs_select_drive_internal be drive v

  unfoldable pub fs_drive_present : ℕ → Vfs W → Bool
  fs_drive_present drive v = be.ata_drive_present drive v.world

  unfoldable pub fs_current_drive : Vfs W → ℕ
  fs_current_drive v = v.current_drive

  -- The drive's letter, a colon and the directory.
  unfoldable pub fs_dirname : Vfs W → Option (List ℕ)
  fs_dirname v =
      if not (v.mounted v.current_drive) then none else elim (be.exfat_get_working_dir v.world) [
        | none ↦ none
        | some dir ↦ some ((b'c' + v.current_drive) ∷ b':' ∷ dir)
      ]

  unfoldable pub fs_current_dir : Vfs W → Option (List ℕ)
  fs_current_dir v = fs_dirname v

  -- The directory of the drive is the one that the driver is in now.
  unfoldable pub note_dir : Vfs W → Vfs W
  note_dir v = elim (be.exfat_get_working_dir v.world) [
    | none ↦ v
    | some dir ↦ record v { working_dirs = update v.working_dirs v.current_drive dir }
  ]

  -- Into a clean path; from a drive that has just been selected, back to the previous one on failure.
  unfoldable pub chdir_clean : ℕ → List ℕ → Vfs W → ℤ × Vfs W
  chdir_clean previous [] v = (fail, v)
  chdir_clean previous (c ∷ dir) v =
      let (there, w) = be.exfat_change_directory (c ∷ dir) v.world in
      let v1 : Vfs W = record v { world = w } in
      if there
      then (pos 0, note_dir v1)
      else if v1.current_drive == previous
      then (fail, v1)
      else (fail, (fs_select_drive_internal be previous v1).1)

  unfoldable pub fs_chdir : List ℕ → Vfs W → ℤ × Vfs W
  fs_chdir [] v = (fail, v)
  fs_chdir (c ∷ folder) v =
      let (resolved, v1) = fs_prepare_path be (c ∷ folder) v in
      elim resolved [
        | none ↦ (fail, v1)
        | some p ↦
            let clean : List ℕ = if chr p == 0 then root else p in
            chdir_clean v.current_drive (fs_sanitize_path clean clean 256) v1
      ]

  -- The drives left, and the drive: `for (drive = 0; drive < ATA_DRIVE_COUNT; drive++)`.
  unfoldable pub mount_drives : ℕ → ℕ → Vfs W → Vfs W
  mount_drives zero drive v = v
  mount_drives (suc n) drive v =
      mount_drives n (suc drive)
        (if be.ata_drive_present drive v.world then (fs_mount_or_format_drive be drive v).1 else v)

  -- True is the result 1: drive C: is mounted, and its root is the current directory.
  unfoldable pub fs_mount : Vfs W → Bool × Vfs W
  fs_mount v =
      let fresh : Vfs W = record v {
        current_drive = 0;
        mounted = update (update v.mounted 0 false) 1 false;
        working_dirs = update (update v.working_dirs 0 root) 1 root;
        world = be.ata_probe_devices v.world;
      } in
      let v1 : Vfs W = mount_drives 2 0 fresh in
      if not (v1.mounted 0)
      then (false, v1)
      else let (selected, w1) = be.ata_select_drive 0 v1.world in
        if not selected
        then (false, record v1 { world = w1 })
        else let (result, w2) = be.exfat_mount w1 in
          if not (is_one result)
          then (false, record v1 { world = w2 })
          else let (there, w3) = be.exfat_change_directory (v1.working_dirs 0) w2 in
            (there, record v1 { world = w3 })

  unfoldable pub print_here : ℕ → Vfs W → ℤ × Vfs W
  print_here hidden v =
      let (rc, w) = be.exfat_print_directory hidden v.world in (rc, record v { world = w })

  -- Into the directory, print it, and back.
  unfoldable pub print_in : List ℕ → ℕ → Vfs W → ℤ × Vfs W
  print_in dir hidden v =
      let saved : Option (List ℕ) = be.exfat_get_working_dir v.world in
      let (there, w1) = be.exfat_change_directory dir v.world in
      if not there
      then (fail, record v { world = w1 })
      else let (rc, w2) = be.exfat_print_directory hidden w1 in
        (
          rc,
          record v {
            world = elim saved [ none ↦ w2 | some s ↦ (be.exfat_change_directory s w2).1 ];
          },
        )

  unfoldable pub fs_list : List ℕ → ℕ → Vfs W → ℤ × Vfs W
  fs_list [] hidden v = if not (v.mounted v.current_drive) then (fail, v) else print_here hidden v
  fs_list (c ∷ directory) hidden v =
      let (resolved, v1) = fs_prepare_path be (c ∷ directory) v in
      elim resolved [
        | none ↦ (fail, v1)
        | some p ↦
            let clean : List ℕ = fs_sanitize_path p p 256 in
            if same_text clean hidden_flag || (chr clean == 0)
            then print_here hidden v1
            else print_in clean hidden v1
      ]
