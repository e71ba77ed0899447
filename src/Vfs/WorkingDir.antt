-- ===== src/Vfs/WorkingDir.antt =====
-- helper/drivers/filesystem/vfs.c: a file operation comes back to the directory that it started in.
use windoge_os.Common.{ℕ, ◌≡◌, ◌⊎◌, true, false, ◌&&◌, Option, none, some, List, leb, ◌==◌}
use windoge_os.Common.Mem.{chr, next}
use windoge_os.Vfs.Backend.{Backend}
use windoge_os.Vfs.Drive.{Vfs, Entered}

-- The path names no drive.
abbrev pub NoDrive : List ℕ → Type 0
NoDrive path = (leb b'a' (chr path) && leb (chr path) b'z' && (chr (next path) == b':')) ≡ false

-- What the directory functions of the exFAT driver promise: a failed change leaves the directory as
-- it was, and a change to a path that the driver once reported as its directory leads there, if it
-- succeeds.
pub record DirLaws {W : Type 0} (be : Backend W) : Type 0 where
  pub failed_stays :
      (p : List ℕ) (w : W)
      → (be.exfat_change_directory p w).0 ≡ false
      → be.exfat_get_working_dir (be.exfat_change_directory p w).1 ≡ be.exfat_get_working_dir w
  pub leads_there :
      (d : List ℕ) (w w' : W)
      → be.exfat_get_working_dir w ≡ some d
      → (be.exfat_change_directory d w').0 ≡ true
      → be.exfat_get_working_dir (be.exfat_change_directory d w').1 ≡ some d

module _ {W : Type 0} (be : Backend W) where
  -- The way back to `d` from a state: there already, or by the saved directory.
  abbrev Way : List ℕ → W → Option Entered → Type 0
  Way d w none = be.exfat_get_working_dir w ≡ some d
  Way d w (some e) = ((e.saved ≡ none) × (be.exfat_get_working_dir w ≡ some d)) ⊎ (e.saved ≡ some d)

  -- Where walking to the parent has led.
  record Walked (d : List ℕ) (v v' : Vfs W) (r : Option Entered) : Type 0 where
    drive : v'.current_drive ≡ v.current_drive
    way : Way d v'.world r

  -- The directory is `d`; or the last thing done was a change to `d`, which failed.
  abbrev pub Returned : List ℕ → W → Type 0
  Returned d w' =
      (be.exfat_get_working_dir w' ≡ some d)
      ⊎ ((w : W) × ((be.exfat_change_directory d w).0 ≡ false)
          × (w' ≡ (be.exfat_change_directory d w).1))
