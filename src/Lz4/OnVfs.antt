-- ===== src/Lz4/OnVfs.antt =====
-- helper/drivers/filesystem/vfs.c under kernel/kutil/lz4_pack.c: what the packer relies on, from what the
-- exFAT driver does on names. The paths are names of files in the current directory.
use windoge_os.Common.{
  ℕ, ◌≡◌, ◌⊎◌, refl, Bool, true, false, not, ◌&&◌, Option, none, some, List, [], ◌∷◌, ltb, leb,
  ◌==◌, if◌then◌else◌, length,
}
use windoge_os.Common.Mem.{chr, next}
use windoge_os.Vfs.Backend.{Backend}
use windoge_os.Vfs.Path.{fs_split_path}
use windoge_os.Vfs.Drive.{Vfs}
use windoge_os.Vfs.Ops.{Junk, read_result}
use windoge_os.Lz4.Files.{Files}

-- The driver's functions on names.
abbrev pub driver_files : {W : Type 0} → Backend W → Files W
driver_files be = record {
  read_raw_at = λ name offset n w. (read_result (be.exfat_read_file_at name offset n w), w);
  append_data = λ name bytes w. be.exfat_append_file name bytes w;
  create = λ name w. be.exfat_create_node name false w;
  delete = λ name w. be.exfat_delete_node name w;
}

abbrev same_name : List ℕ → List ℕ → Bool
same_name [] [] = true
same_name [] (d ∷ q) = false
same_name (c ∷ p) [] = false
same_name (c ∷ p) (d ∷ q) = (c == d) && same_name p q

-- The path splits into no parent and itself.
abbrev splits_whole : List ℕ → Option (List ℕ × List ℕ) → Bool
splits_whole p none = false
splits_whole p (some ([], leaf)) = same_name leaf p
splits_whole p (some (c ∷ parent, leaf)) = false

-- The path is a name: it has no drive, fits the buffers, and has no folder.
abbrev pub is_name : Junk → List ℕ → Bool
is_name junk p =
    not (leb b'a' (chr p) && leb (chr p) b'z' && (chr (next p) == b':'))
    && (ltb (length p) 256 && splits_whole p (fs_split_path p junk.clean junk.leaf))

module _ {W : Type 0} (be : Backend W) (junk : Junk) where
  -- The state with another one of the drivers.
  abbrev moved_to : Vfs W → W → Vfs W
  moved_to v w = record v { world = w }

  module _ (node : List ℕ → W → Option (List ℕ)) (Usable : List ℕ → Type 0)
      (Broken : W → Type 0) where
    -- The file at a name.
    abbrev pub content_at : List ℕ → Vfs W → Option (List ℕ)
    content_at p v = if is_name junk p then node p v.world else none

    abbrev pub UsableName : List ℕ → Type 0
    UsableName p = (is_name junk p ≡ true) × Usable p

    -- The drive is not mounted, or the driver's state is broken.
    abbrev pub DriveBroken : Vfs W → Type 0
    DriveBroken v = (v.mounted v.current_drive ≡ false) ⊎ Broken v.world

    pub content_is :
        (p : List ℕ) (v : Vfs W) → is_name junk p ≡ true → content_at p v ≡ node p v.world
    content_is p v e = rw e refl
