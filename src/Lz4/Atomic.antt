-- ===== src/Lz4/Atomic.antt =====
-- kernel/kutil/lz4_pack.c: `kernel_lz4_decompress` on any archive: all of the file, or none.
use windoge_os.Common.{ℕ, ◌≡◌, Option, none, some, List, length, ◌⊎◌}
use windoge_os.Common.Int.{ℤ, pos, negsuc}
use windoge_os.Lz4.Files.{Files, FailsOr}
use windoge_os.Lz4.Decode.{word}

-- The archive is still there, and either the result is 0, and the destination holds as many bytes as
-- the archive's first four say, or it is -1, and there is no destination. Or else the result is -1 and
-- the state is bad.
abbrev pub AllOrNothing :
    {W : Type 0}
    → (W → Type 0)
    → (List ℕ → W → Option (List ℕ))
    → List ℕ
    → List ℕ
    → List ℕ
    → Option ℤ × W
    → Type 0
AllOrNothing Bad content src dst bs (code, w) =
    FailsOr Bad (code, w)
      ((content src w ≡ some bs)
        × (((code ≡ some (pos 0))
              × ((out : List ℕ) × (content dst w ≡ some out) × (length out ≡ word bs 0)))
            ⊎ ((code ≡ some (negsuc 0)) × (content dst w ≡ none))))
