-- ===== src/Lz4/Files.antt =====
-- What kernel/kutil/lz4_pack.c calls of the file system, over a state `W`, and what it relies on.
use windoge_os.Common.{
  ℕ, zero, suc, ◌+◌, ◌^◌, ◌≤◌, ◌<◌, ◌≡◌, ◌≢◌, ◌⊎◌, refl, false, arith, Option, none, some, List, [],
  ◌++◌, length, take, drop,
}
use windoge_os.Common.Int.{ℤ, pos, negsuc}
use windoge_os.Vfs.Backend.{Backend}
use windoge_os.Vfs.Drive.{Vfs, is_zero}
use windoge_os.Vfs.Ops.{Junk, fs_read_raw_at, fs_append_data, fs_create, fs_delete}

-- A read gives its count and the bytes that it has put into the buffer.
pub record Files (W : Type 0) : Type 0 where
  pub read_raw_at : List ℕ → ℕ → ℕ → W → (ℤ × List ℕ) × W
  pub append_data : List ℕ → List ℕ → W → ℤ × W
  pub create : List ℕ → W → ℤ × W
  pub delete : List ℕ → W → ℤ × W

-- The virtual file system is such a file system.
unfoldable pub vfs_files : {W : Type 0} → Backend W → Junk → Files (Vfs W)
vfs_files be junk = record {
  read_raw_at = fs_read_raw_at be junk;
  append_data = λ path bytes v. fs_append_data be junk path bytes v;
  create = λ path v. fs_create be junk path v;
  delete = λ path v. fs_delete be junk path v;
}

-- The state `w'` differs from `w` in no file but the one at `p`.
abbrev pub OnlyAt : {W : Type 0} → (List ℕ → W → Option (List ℕ)) → List ℕ → W → W → Type 0
OnlyAt content p w w' = (q : List ℕ) → q ≢ p → content q w' ≡ content q w

-- What is relied on. `content` is what the file at a path holds; `Usable` are the paths that name a file
-- to the file system, and `Broken` are the states in which an operation fails, or has failed.
-- * A read of a file, within it and of less than 2^31 bytes, gives the bytes that are there, or it gives
--   -1 and the state is broken; no file changes.
-- * Appending to a file and creating one at a usable path that is not there do so and give 0, or they give
--   another result and the state is broken; a file that is deleted is gone, or the state is broken.
--   None of them changes another file.
pub record FileLaws {W : Type 0} (fs : Files W) (content : List ℕ → W → Option (List ℕ))
    (Usable : List ℕ → Type 0) (Broken : W → Type 0) : Type 0 where
  pub read_gives :
      (p : List ℕ) (offset n : ℕ) (w : W) (bs : List ℕ)
      → content p w ≡ some bs
      → n < 2 ^ 31
      → offset + n ≤ length bs
      → ((fs.read_raw_at p offset n w).0 ≡ (pos n, take n (drop offset bs)))
        ⊎ (((fs.read_raw_at p offset n w).0.0 ≡ negsuc 0) × Broken (fs.read_raw_at p offset n w).1)
  pub read_keeps :
      (p : List ℕ) (offset n : ℕ) (w : W) (bs q : List ℕ)
      → content p w ≡ some bs
      → content q (fs.read_raw_at p offset n w).1 ≡ content q w
  pub append_done :
      (p bytes : List ℕ) (w : W) (bs : List ℕ)
      → content p w ≡ some bs
      → (((fs.append_data p bytes w).0 ≡ pos 0)
          × (content p (fs.append_data p bytes w).1 ≡ some (bs ++ bytes)))
        ⊎ (((fs.append_data p bytes w).0 ≢ pos 0) × Broken (fs.append_data p bytes w).1)
  pub append_others :
      (p bytes : List ℕ) (w : W) (bs : List ℕ)
      → content p w ≡ some bs
      → OnlyAt content p w (fs.append_data p bytes w).1
  pub create_done :
      (p : List ℕ) (w : W)
      → Usable p
      → content p w ≡ none
      → (((fs.create p w).0 ≡ pos 0) × (content p (fs.create p w).1 ≡ some []))
        ⊎ (((fs.create p w).0 ≢ pos 0) × Broken (fs.create p w).1)
  pub create_others : (p : List ℕ) (w : W) → Usable p → OnlyAt content p w (fs.create p w).1
  pub delete_done :
      (p : List ℕ) (w : W) (bs : List ℕ)
      → content p w ≡ some bs
      → (content p (fs.delete p w).1 ≡ none) ⊎ Broken (fs.delete p w).1
  pub delete_others :
      (p : List ℕ) (w : W) (bs : List ℕ)
      → content p w ≡ some bs
      → OnlyAt content p w (fs.delete p w).1

-- The state is broken, or it is what deleting a file makes of a broken state.
abbrev pub Spoilt : {W : Type 0} → Files W → (W → Type 0) → List ℕ → W → Type 0
Spoilt fs Broken p w' = Broken w' ⊎ ((w : _) × Broken w × (w' ≡ (fs.delete p w).1))

-- The result is -1 and the state bad; or something else holds.
abbrev pub FailsOr : {W : Type 0} → (W → Type 0) → Option ℤ × W → Type 0 → Type 0
FailsOr Bad (code, w) P = ((code ≡ some (negsuc 0)) × Bad w) ⊎ P

-- A result that is not 0.
pub not_zero : (rc : ℤ) → rc ≢ pos 0 → is_zero rc ≡ false
not_zero (pos zero) h = absurd (h refl)
not_zero (pos (suc n)) h = ground arith
not_zero (negsuc n) h = refl
