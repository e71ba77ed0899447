-- ===== src/Elf/Machine.antt =====
-- What helper/core/execute/elf.c calls of the other kernel parts, over a state `W`.
use windoge_os.Common.{ℕ, Bool, Option, List}
use windoge_os.Common.Int.{ℤ}
use windoge_os.Common.Mem.{Mem}

-- `hhdm` is the offset of the direct map, `none` where the boot loader has given no response. A read
-- gives its count and the bytes that it has put into the buffer. The kernel reaches memory through
-- `memory` and `put_memory`, the bytes by their addresses.
pub record Machine (W : Type 0) : Type 0 where
  pub hhdm : Option ℕ
  pub exists_file : List ℕ → W → Bool × W
  pub read_raw_at : List ℕ → ℕ → ℕ → W → (ℤ × List ℕ) × W
  pub alloc_zeroed_page : W → ℕ × W
  pub map_user_page : ℕ → ℕ → W → W
  pub memory : W → Mem
  pub put_memory : Mem → W → W
