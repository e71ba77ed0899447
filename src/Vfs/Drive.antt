-- ===== src/Vfs/Drive.antt =====
-- helper/drivers/filesystem/vfs.c: the drives, and how an operation reaches the folder of its path.
use windoge_os.Common.{
  ℕ, ◌-◌, Bool, true, false, not, ◌&&◌, ◌||◌, Option, none, some, List, [], ◌∷◌, ltb, leb, ◌==◌,
  if◌then◌else◌, length,
}
use windoge_os.Common.Int.{ℤ, pos, negsuc}
use windoge_os.Common.Mem.{chr, next}
use windoge_os.Vfs.Backend.{Backend}
use windoge_os.Vfs.Path.{root, fs_split_path}

-- The globals of the file; drives are 0 for C: and 1 for D:.
pub record Vfs (W : Type 0) : Type 0 where
  pub current_drive : ℕ
  pub mounted : ℕ → Bool
  pub working_dirs : ℕ → List ℕ
  pub world : W

abbrev pub drive_count : ℕ
drive_count = 2

abbrev pub update {ℓ} : {A : Type ℓ} → (ℕ → A) → ℕ → A → ℕ → A
update f k v j = if k == j then v else f j

abbrev pub is_one : ℤ → Bool
is_one (pos n) = n == 1
is_one (negsuc n) = false

abbrev pub is_zero : ℤ → Bool
is_zero (pos n) = n == 0
is_zero (negsuc n) = false

-- Where an operation goes: the last name of the path, and the directory to come back to.
pub record Entered : Type 0 where
  pub leaf : List ℕ
  pub saved : Option (List ℕ)

module _ {W : Type 0} (be : Backend W) where
  -- Mount, and where the drive is unformatted, format and mount once more.
  unfoldable pub mount_or_format : W → ℤ × W
  mount_or_format w =
      let (result, w1) = be.exfat_mount w in
      if not (is_zero result)
      then (result, w1)
      else let (formatted, w2) = be.exfat_wipe_and_format w1 in
        if not formatted then (negsuc 0, w2) else be.exfat_mount w2

  -- True is the result 0.
  unfoldable pub fs_mount_or_format_drive : ℕ → Vfs W → Bool × Vfs W
  fs_mount_or_format_drive drive v =
      if not (be.ata_drive_present drive v.world)
      then (false, v)
      else let (selected, w1) = be.ata_select_drive drive v.world in
        if not selected
        then (false, record v { world = w1 })
        else let (result, w2) = mount_or_format w1 in
          if not (is_one result) then (false, record v { world = w2 }) else (
            true,
            record v {
              mounted = update v.mounted drive true;
              working_dirs =
                  if v.mounted drive then v.working_dirs else update v.working_dirs drive root;
              world = w2;
            },
          )

  -- `str_strcpy` of the current directory into the current drive's entry, where it fits.
  unfoldable pub remember_dir : Vfs W → Vfs W
  remember_dir v = elim (be.exfat_get_working_dir v.world) [
    | none ↦ v
    | some dir ↦
        if v.mounted v.current_drive && ltb (length dir) 256
        then record v { working_dirs = update v.working_dirs v.current_drive dir }
        else v
  ]

  -- Back to the previous drive after a failed mount.
  unfoldable pub go_back : ℕ → Vfs W → Vfs W
  go_back previous v =
      if not (ltb previous drive_count && be.ata_drive_present previous v.world)
      then v
      else let w1 : W = (be.ata_select_drive previous v.world).1 in
        let w2 : W =
          if v.mounted previous
          then (be.exfat_change_directory (v.working_dirs previous) (be.exfat_mount w1).1).1
          else w1 in
        record v { current_drive = previous; world = w2 }

  -- To the drive's own directory, or to its root.
  unfoldable pub enter_drive : ℕ → Vfs W → Bool × Vfs W
  enter_drive drive v =
      let (there, w1) = be.exfat_change_directory (v.working_dirs drive) v.world in
      if there
      then (true, record v { world = w1 })
      else let dirs : ℕ → List ℕ = update v.working_dirs drive root in
        let (at_root, w2) = be.exfat_change_directory root w1 in
        if at_root then (true, record v { working_dirs = dirs; world = w2 }) else (
          false,
          record v { working_dirs = dirs; mounted = update v.mounted drive false; world = w2 },
        )

  unfoldable pub fs_select_drive_internal : ℕ → Vfs W → Bool × Vfs W
  fs_select_drive_internal drive v =
      if leb drive_count drive || not (be.ata_drive_present drive v.world)
      then (false, v)
      else if (drive == v.current_drive) && v.mounted drive
      then (true, v)
      else let v1 : Vfs W = remember_dir v in
        let (mounted, v2) = fs_mount_or_format_drive drive v1 in
        if mounted
        then enter_drive drive (record v2 { current_drive = drive })
        else (false, go_back v1.current_drive v2)

  -- The path without its drive, "/" where nothing follows the drive.
  unfoldable pub after_drive : List ℕ → List ℕ
  after_drive path = if chr (next (next path)) == 0 then root else next (next path)

  unfoldable pub copy_path : List ℕ → Vfs W → Option (List ℕ) × Vfs W
  copy_path path v =
      if not (v.mounted v.current_drive) || leb 256 (length path) then (none, v) else (some path, v)

  -- The copy in the caller's 256 bytes. A path "c:..." or "d:..." selects its drive first.
  unfoldable pub fs_prepare_path : List ℕ → Vfs W → Option (List ℕ) × Vfs W
  fs_prepare_path path v =
      if leb b'a' (chr path) && leb (chr path) b'z' && (chr (next path) == b':')
      then (if not (chr path == b'c') && not (chr path == b'd')
          then (none, v)
          else let (selected, v1) = fs_select_drive_internal (chr path - b'c') v in
            if selected then copy_path (after_drive path) v1 else (none, v1))
      else copy_path path v

  -- Into the parent folder, unless the path has none.
  unfoldable pub walk : List ℕ → List ℕ → Vfs W → Option Entered × Vfs W
  walk [] leaf v = (some (record { leaf = leaf; saved = none }), v)
  walk (c ∷ parent) leaf v =
      let saved : Option (List ℕ) = be.exfat_get_working_dir v.world in
      let (there, w) = be.exfat_change_directory (c ∷ parent) v.world in
      (
        (if there then some (record { leaf = leaf; saved = saved }) else none),
        record v { world = w },
      )

  unfoldable pub enter_split : Option (List ℕ × List ℕ) → Vfs W → Option Entered × Vfs W
  enter_split none v = (none, v)
  enter_split (some (parent, leaf)) v = walk parent leaf v

  -- `junk` and `old` are what the local buffers held.
  unfoldable pub enter_resolved : List ℕ → List ℕ → Option (List ℕ) → Vfs W → Option Entered × Vfs W
  enter_resolved junk old none v = (none, v)
  enter_resolved junk old (some p) v = enter_split (fs_split_path p junk old) v

  unfoldable pub fs_enter_path : List ℕ → List ℕ → List ℕ → Vfs W → Option Entered × Vfs W
  fs_enter_path junk old [] v = (none, v)
  fs_enter_path junk old (c ∷ path) v =
      let (resolved, v1) = fs_prepare_path (c ∷ path) v in enter_resolved junk old resolved v1

  unfoldable pub fs_leave_path : Option (List ℕ) → W → W
  fs_leave_path none w = w
  fs_leave_path (some saved) w = (be.exfat_change_directory saved w).1
