-- ===== src/Vfs/Select.antt =====
-- helper/drivers/filesystem/vfs.c: what a selected drive is.
use windoge_os.Common.{
  ℕ, ◌-◌, ◌<◌, ◌≡◌, refl, ◌⊎◌, inl, inr, arith, true, false, not, ◌&&◌, ◌||◌, some, List, leb, ◌==◌,
  Bool-cases, ◌∙◌,
}
use windoge_os.Common.Mem.{chr, next}
use windoge_os.Vfs.Backend.{Backend}
use windoge_os.Vfs.Drive.{
  Vfs, fs_mount_or_format_drive, remember_dir, enter_drive, fs_select_drive_internal, after_drive,
  copy_path, fs_prepare_path,
}

-- The drive is the current one and is mounted.
pub record Selected {W : Type 0} (drive : ℕ) (v : Vfs W) : Type 0 where
  pub in_range : drive < 2
  pub current : v.current_drive ≡ drive
  pub is_mounted : v.mounted drive ≡ true

module _ {W : Type 0} (be : Backend W) where
  mount-sets :
      (drive : ℕ) (v : Vfs W)
      → (fs_mount_or_format_drive be drive v).0 ≡ true
      → (fs_mount_or_format_drive be drive v).1.mounted drive ≡ true
  unfolding fs_mount_or_format_drive
  mount-sets drive v h = ground arith

  enter-current :
      (drive : ℕ) (v : Vfs W) → (enter_drive be drive v).1.current_drive ≡ v.current_drive
  unfolding enter_drive
  enter-current drive v = ground arith

  enter-mounted :
      (drive : ℕ) (v : Vfs W)
      → (enter_drive be drive v).0 ≡ true
      → (enter_drive be drive v).1.mounted drive ≡ v.mounted drive
  unfolding enter_drive
  enter-mounted drive v h = ground arith

  -- Mount the drive, then enter it.
  mounted-Selected :
      (drive : ℕ) (v w : Vfs W)
      → drive < 2
      → v.current_drive ≡ drive
      → v.mounted drive ≡ true
      → (enter_drive be drive v).0 ≡ true
      → Selected drive (enter_drive be drive v).1
  mounted-Selected drive v w lt c m h = record {
    in_range = lt;
    current = enter-current drive v ∙ c;
    is_mounted = enter-mounted drive v h ∙ m;
  }

  -- A drive that `fs_select_drive_internal` reports as selected is one of the two, is mounted, and is
  -- the current drive from then on.
  pub select-Selected :
      (drive : ℕ) (v : Vfs W)
      → (fs_select_drive_internal be drive v).0 ≡ true
      → Selected drive (fs_select_drive_internal be drive v).1
  unfolding fs_select_drive_internal
  select-Selected drive v h =
      elim (Bool-cases (leb 2 drive || not (be.ata_drive_present drive v.world))) [
        | inl bad ↦ absurd (ground (arith, h))
        | inr good ↦ elim (Bool-cases ((drive == v.current_drive) && v.mounted drive)) [
          | inl here ↦
              rw (good, here)
                (record {
                  in_range = ground arith;
                  current = ground arith;
                  is_mounted = ground arith;
                })
          | inr away ↦ elim (Bool-cases (fs_mount_or_format_drive be drive (remember_dir be v)).0) [
            | inl m ↦
                rw (good, away, m)
                  (mounted-Selected drive _ v (ground arith) refl
                    (mount-sets drive (remember_dir be v) m) (rw (good, away, m) at h))
            | inr f ↦ absurd (ground (arith, rw (good, away, f) at h))
          ]
        ]
      ]

  copy_path-stays : (path : List ℕ) (v : Vfs W) → (copy_path be path v).1 ≡ v
  unfolding copy_path
  copy_path-stays path v = ground arith

  -- A path "c:..." or "d:..." that `fs_prepare_path` accepts leaves the drive that it names mounted and
  -- selected as the current one.
  pub prepare_path-Selected :
      (path p : List ℕ) (v : Vfs W)
      → (chr path ≡ b'c') ⊎ (chr path ≡ b'd')
      → chr (next path) ≡ b':'
      → (fs_prepare_path be path v).0 ≡ some p
      → Selected (chr path - b'c') (fs_prepare_path be path v).1
  unfolding fs_prepare_path
  prepare_path-Selected path p v letter colon h =
      let named : (leb b'a' (chr path) && leb (chr path) b'z' && (chr (next path) == b':')) ≡ true =
        ground arith in
      let known : (not (chr path == b'c') && not (chr path == b'd')) ≡ false = ground arith in
      elim (Bool-cases (fs_select_drive_internal be (chr path - b'c') v).0) [
        | inl done ↦
            rw
              (
                named,
                known,
                done,
                copy_path-stays (after_drive be path)
                    (fs_select_drive_internal be (chr path - b'c') v).1,
              )
              (select-Selected (chr path - b'c') v done)
        | inr refused ↦ absurd (ground (arith, rw (named, known, refused) at h))
      ]
