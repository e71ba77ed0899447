-- ===== src/Vfs/Ops.antt =====
-- helper/drivers/filesystem/vfs.c: the file operations. `J` stands for what the local buffers held.
-- Results that are `int` codes stay integers, -1 for the failures of this file.
use windoge_os.Common.{
  ℕ, zero, suc, ◌+◌, ◌-◌, ◌%◌, ◌^◌, Bool, true, false, not, ◌||◌, Option, none, some, List, [], ◌∷◌,
  ltb, leb, ◌==◌, if◌then◌else◌, length,
}
use windoge_os.Common.Int.{ℤ, pos, negsuc}
use windoge_os.Strings.Read.{str_strcmp}
use windoge_os.Vfs.Backend.{Backend}
use windoge_os.Vfs.Path.{root}
use windoge_os.Vfs.Drive.{
  Vfs, Entered, update, is_zero, is_one, fs_prepare_path, fs_enter_path, fs_leave_path,
}

-- What the local buffers of a call hold before it writes them.
pub record Junk : Type 0 where
  pub clean : List ℕ
  pub leaf : List ℕ

abbrev pub fail : ℤ
fail = negsuc 0

-- The conversion `(int)` of an `int64_t`, which keeps the low 32 bits.
abbrev pub int_of : ℤ → ℤ
int_of (pos n) =
    if ltb (n % 2 ^ 32) (2 ^ 31) then pos (n % 2 ^ 32) else negsuc (2 ^ 32 - 1 - n % 2 ^ 32)
int_of (negsuc n) =
    if ltb (n % 2 ^ 32) (2 ^ 31) then negsuc (n % 2 ^ 32) else pos (2 ^ 32 - 1 - n % 2 ^ 32)

abbrev pub read_result : ℤ × List ℕ → ℤ × List ℕ
read_result (count, bytes) = (int_of count, bytes)

-- `(size_t)count > capacity`, for a count that is not negative.
abbrev pub count_ok : ℤ → ℕ → Bool
count_ok (pos n) capacity = leb n capacity
count_ok (negsuc n) capacity = false

-- Two texts are the same to `str_strcmp`.
abbrev pub same_text : List ℕ → List ℕ → Bool
same_text s t = is_zero (str_strcmp s t)

module _ {W : Type 0} (be : Backend W) (junk : Junk) where
  unfoldable pub work_in :
      {A : Type 0} → A → (List ℕ → W → A × W) → Option Entered → Vfs W → A × Vfs W
  work_in failed work none v = (failed, v)
  work_in failed work (some e) v =
      let (result, w) = work e.leaf v.world in
      (result, record v { world = fs_leave_path be e.saved w })

  -- Enter the folder of the path, do the work on the last name, and leave.
  unfoldable pub on_leaf : {A : Type 0} → A → (List ℕ → W → A × W) → List ℕ → Vfs W → A × Vfs W
  on_leaf failed work path v =
      let (entered, v1) = fs_enter_path be junk.clean junk.leaf path v in
      work_in failed work entered v1

  unfoldable pub fs_format : Vfs W → ℤ × Vfs W
  fs_format v =
      let failed : Vfs W = record v { mounted = update v.mounted v.current_drive false } in
      if not (be.ata_drive_present v.current_drive v.world)
      then (fail, failed)
      else let (formatted, w1) = be.exfat_wipe_and_format v.world in
        if not formatted
        then (fail, record failed { world = w1 })
        else let (result, w2) = be.exfat_mount w1 in
          if not (is_one result) then (fail, record failed { world = w2 }) else (
            pos 0,
            record v {
              mounted = update v.mounted v.current_drive true;
              working_dirs = update v.working_dirs v.current_drive root;
              world = w2;
            },
          )

  unfoldable pub fs_create : List ℕ → Vfs W → ℤ × Vfs W
  fs_create = on_leaf fail (λ leaf. be.exfat_create_node leaf false)

  unfoldable pub fs_mkdir : List ℕ → Vfs W → ℤ × Vfs W
  fs_mkdir = on_leaf fail (λ leaf. be.exfat_create_node leaf true)

  unfoldable pub fs_exists : List ℕ → Vfs W → Bool × Vfs W
  fs_exists = on_leaf false (λ leaf w. (be.exfat_resolve_entry leaf w, w))

  -- `none` is a result other than 0. The path is prepared twice, as in the source.
  unfoldable pub fs_get_info : List ℕ → Vfs W → Option (ℕ × Bool) × Vfs W
  fs_get_info path v =
      let (resolved, v1) = fs_prepare_path be path v in
      elim resolved [
        | none ↦ (none, v1)
        | some p ↦
            if same_text p root || same_text p (b'.' ∷ [])
            then (some (0, true), v1)
            else on_leaf none (λ leaf w. (be.exfat_get_info leaf w, w)) p v1
      ]

  unfoldable pub fs_isdir : List ℕ → Vfs W → Bool × Vfs W
  fs_isdir path v =
      let (info, v1) = fs_get_info path v in
      (elim info [ none ↦ false | some (size, is_dir) ↦ is_dir ], v1)

  unfoldable pub fs_delete : List ℕ → Vfs W → ℤ × Vfs W
  fs_delete = on_leaf fail λ leaf w.
      let (rc, w') = be.exfat_delete_node leaf w in ((if is_zero rc then pos 1 else fail), w')

  unfoldable pub fs_delete_last_line : List ℕ → Vfs W → ℤ × Vfs W
  fs_delete_last_line = on_leaf fail (λ leaf. be.exfat_truncate_last_line leaf)

  unfoldable pub fs_read : List ℕ → ℕ → Vfs W → (ℤ × List ℕ) × Vfs W
  fs_read path size =
      on_leaf (fail, []) (λ leaf w. (read_result (be.exfat_read_file leaf size w), w)) path

  unfoldable pub fs_read_raw : List ℕ → ℕ → Vfs W → (ℤ × List ℕ) × Vfs W
  fs_read_raw path size =
      on_leaf (fail, []) (λ leaf w. (read_result (be.exfat_read_file leaf size w), w)) path

  unfoldable pub fs_read_raw_at : List ℕ → ℕ → ℕ → Vfs W → (ℤ × List ℕ) × Vfs W
  fs_read_raw_at path offset size =
      on_leaf (fail, []) (λ leaf w. (read_result (be.exfat_read_file_at leaf offset size w), w))
        path

  unfoldable pub fs_write_bytes : List ℕ → List ℕ → Vfs W → ℤ × Vfs W
  fs_write_bytes path bytes = on_leaf fail (λ leaf. be.exfat_write_file leaf bytes) path

  -- The whole text, without its terminator.
  unfoldable pub fs_write : List ℕ → Option (List ℕ) → Vfs W → ℤ × Vfs W
  fs_write path none v = (fail, v)
  fs_write path (some text) v = fs_write_bytes path text v

  unfoldable pub fs_append_data : List ℕ → List ℕ → Vfs W → ℤ × Vfs W
  fs_append_data path bytes = on_leaf fail (λ leaf. be.exfat_append_file leaf bytes) path

  unfoldable pub fs_list_dir : ℕ → Vfs W → ℤ × Vfs W
  fs_list_dir hidden v =
      if not (v.mounted v.current_drive)
      then (fail, v)
      else let (rc, w) = be.exfat_print_directory hidden v.world in (rc, record v { world = w })

  -- The names, and the way back to the directory; every failure is -1.
  unfoldable pub list_in : Bool → List ℕ → List ℕ → ℕ → Vfs W → (ℤ × List (List ℕ)) × Vfs W
  list_in directories dir saved capacity v =
      let (there, w1) = be.exfat_change_directory dir v.world in
      if not there
      then ((fail, []), record v { world = w1 })
      else let listed : ℤ × List (List ℕ) =
          if directories
          then be.exfat_list_entries capacity w1
          else be.exfat_list_files capacity w1 in
        let (back, w2) = be.exfat_change_directory saved w1 in
        if not back || not (count_ok listed.0 capacity)
        then ((fail, []), record v { world = w2 })
        else (listed, record v { world = w2 })

  unfoldable pub fs_list_entries_common : Bool → List ℕ → ℕ → Vfs W → (ℤ × List (List ℕ)) × Vfs W
  fs_list_entries_common directories [] capacity v = ((fail, []), v)
  fs_list_entries_common directories (c ∷ path) capacity v =
      let (resolved, v1) = fs_prepare_path be (c ∷ path) v in
      elim resolved [
        | none ↦ ((fail, []), v1)
        | some dir ↦ elim (be.exfat_get_working_dir v1.world) [
          | none ↦ ((fail, []), v1)
          | some saved ↦
              if leb 256 (length saved)
              then ((fail, []), v1)
              else list_in directories dir saved capacity v1
        ]
      ]

  unfoldable pub fs_list_files : List ℕ → ℕ → Vfs W → (ℤ × List (List ℕ)) × Vfs W
  fs_list_files = fs_list_entries_common false

  unfoldable pub fs_list_entries : List ℕ → ℕ → Vfs W → (ℤ × List (List ℕ)) × Vfs W
  fs_list_entries = fs_list_entries_common true

  -- The rounds left of `while (true)`, each of up to 4096 bytes; `none` means that they ran out.
  unfoldable pub copy_loop : ℕ → List ℕ → List ℕ → ℕ → Vfs W → Option ℤ × Vfs W
  copy_loop zero source dest offset v = (none, v)
  copy_loop (suc f) source dest offset v =
      let ((count, bytes), v1) = fs_read_raw_at source offset 4096 v in
      elim count [
        | negsuc n ↦ (some fail, (fs_delete dest v1).1)
        | pos n ↦
            let (rc, v2) = fs_append_data dest bytes v1 in
            let rest : Option ℤ × Vfs W = copy_loop f source dest (offset + n) v2 in
            if n == 0
            then (some (pos 0), v1)
            else if is_zero rc
            then rest
            else (some fail, (fs_delete dest v2).1)
      ]

  unfoldable pub fs_copy : ℕ → List ℕ → List ℕ → Vfs W → Option ℤ × Vfs W
  fs_copy fuel source dest v =
      let (there, v1) = fs_exists dest v in
      let deleted : ℤ × Vfs W = if there then fs_delete dest v1 else (pos 1, v1) in
      if not (is_one deleted.0)
      then (some fail, deleted.1)
      else let (created, v2) = fs_create dest deleted.1 in
        if not (is_zero created) then (some fail, v2) else copy_loop fuel source dest 0 v2

  -- The removal of the source behind a copy.
  unfoldable pub move_finish : List ℕ → List ℕ → Vfs W → ℤ × Vfs W
  move_finish source dest v =
      let (rc, v1) = fs_delete source v in
      if is_one rc then (pos 0, v1) else (fail, (fs_delete dest v1).1)

  unfoldable pub fs_move : ℕ → List ℕ → List ℕ → Vfs W → Option ℤ × Vfs W
  fs_move fuel [] dest v = (some fail, v)
  fs_move fuel (a ∷ source) [] v = (some fail, v)
  fs_move fuel (a ∷ source) (b ∷ dest) v =
      if same_text (a ∷ source) (b ∷ dest)
      then (some fail, v)
      else let (there, v1) = fs_exists (a ∷ source) v in
        if not there
        then (some fail, v1)
        else let (taken, v2) = fs_exists (b ∷ dest) v1 in
          if taken
          then (some fail, v2)
          else let (copied, v3) = fs_copy fuel (a ∷ source) (b ∷ dest) v2 in
            elim copied [
              | none ↦ (none, v3)
              | some rc ↦
                  if is_zero rc
                  then (let (done, v4) = move_finish (a ∷ source) (b ∷ dest) v3 in (some done, v4))
                  else (some fail, v3)
            ]

  -- True is the result 1.
  unfoldable pub fs_rename : ℕ → List ℕ → List ℕ → Vfs W → Option Bool × Vfs W
  fs_rename fuel [] new v = (some false, v)
  fs_rename fuel (a ∷ old) [] v = (some false, v)
  fs_rename fuel (a ∷ old) (b ∷ new) v =
      let (there, v1) = fs_exists (a ∷ old) v in
      if not there
      then (some false, v1)
      else let (taken, v2) = fs_exists (b ∷ new) v1 in
        if taken
        then (some false, v2)
        else let (copied, v3) = fs_copy fuel (a ∷ old) (b ∷ new) v2 in
          elim copied [
            | none ↦ (none, v3)
            | some rc ↦
                if is_zero rc then (some true, (fs_delete (a ∷ old) v3).1) else (some false, v3)
          ]
