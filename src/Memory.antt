-- ===== src/Memory.antt =====
-- helper/string/memory.c: memcpy, memset, memmove and memcmp over one byte memory. An object does
-- not go round the end of the address space, so addresses are plain numbers.
pub mod Copy
pub mod Compare
use windoge_os.Common.{ℕ, zero, suc, ◌+◌, ◌%◌, Bool, true, false, ltb, ◌==◌, if◌then◌else◌}
use windoge_os.Common.Int.{ℤ, pos, negsuc}
use windoge_os.Common.Mem.{Mem, write}

-- `for (i = i; n more rounds; i++) pdest[i] = psrc[i];`
unfoldable pub copy_up : ℕ → ℕ → Mem → ℕ → ℕ → Mem
copy_up zero i m dest src = m
copy_up (suc n) i m dest src = copy_up n (suc i) (write m (dest + i) (m (src + i))) dest src

-- `for (i = n; i > 0; i--) pdest[i-1] = psrc[i-1];`
unfoldable pub copy_down : ℕ → Mem → ℕ → ℕ → Mem
copy_down zero m dest src = m
copy_down (suc i) m dest src = copy_down i (write m (dest + i) (m (src + i))) dest src

unfoldable pub memcpy : Mem → ℕ → ℕ → ℕ → Mem
unfolding copy_up
memcpy m dest src n = copy_up n 0 m dest src

unfoldable pub fill_up : ℕ → ℕ → Mem → ℕ → ℕ → Mem
fill_up zero i m s c = m
fill_up (suc n) i m s c = fill_up n (suc i) (write m (s + i) (c % 256)) s c

unfoldable pub memset : Mem → ℕ → ℕ → ℕ → Mem
unfolding fill_up
memset m s c n = fill_up n 0 m s c

unfoldable pub memmove : Mem → ℕ → ℕ → ℕ → Mem
unfolding copy_up copy_down
memmove m dest src n =
    if ltb dest src
    then copy_up n 0 m dest src
    else if ltb src dest
    then copy_down n m dest src
    else m

-- The rounds left, and the index.
unfoldable pub compare_from : ℕ → ℕ → Mem → ℕ → ℕ → ℤ
compare_from zero i m s1 s2 = pos 0
compare_from (suc n) i m s1 s2 = elim (m (s1 + i) == m (s2 + i)) [
  | true ↦ compare_from n (suc i) m s1 s2
  | false ↦ if ltb (m (s1 + i)) (m (s2 + i)) then negsuc 0 else pos 1
]

unfoldable pub memcmp : Mem → ℕ → ℕ → ℕ → ℤ
unfolding compare_from
memcmp m s1 s2 n = compare_from n 0 m s1 s2
