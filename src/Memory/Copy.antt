-- ===== src/Memory/Copy.antt =====
-- helper/string/memory.c: what the copying functions leave in every byte of the memory.
use windoge_os.Common.{ℕ, zero, suc, ◌+◌, ◌-◌, ◌%◌, ◌≤◌, ◌<◌, ◌≡◌, refl, ◌⊎◌, arith, ◌∙◌}
use native.Mathlib.Decide.{dec_lt, ℕ_discrete}
use windoge_os.Common.Mem.{Mem, write}
use windoge_os.Memory.{copy_up, copy_down, fill_up, memcpy, memset, memmove}

-- Bytes outside the target range keep their value.
copy_up_outside :
    (n i : ℕ) (m : Mem) (d s q : ℕ) → (q < d + i) ⊎ (d + i + n ≤ q) → copy_up n i m d s q ≡ m q
unfolding copy_up
copy_up_outside zero i m d s q h = refl
copy_up_outside (suc n) i m d s q h =
    copy_up_outside n (suc i) (write m (d + i) (m (s + i))) d s q (omega arith) ∙ ground arith

copy_down_outside :
    (n : ℕ) (m : Mem) (d s q : ℕ) → (q < d) ⊎ (d + n ≤ q) → copy_down n m d s q ≡ m q
unfolding copy_down
copy_down_outside zero m d s q h = refl
copy_down_outside (suc n) m d s q h =
    copy_down_outside n (write m (d + n) (m (s + n))) d s q (omega arith) ∙ ground arith

-- Copying upwards is right where the source does not lie below the target within reach.
copy_up_inside :
    (n i : ℕ) (m : Mem) (d s j : ℕ)
    → (d < s) ⊎ (s + i + n ≤ d + i)
    → i ≤ j
    → j < i + n
    → copy_up n i m d s (d + j) ≡ m (s + j)
unfolding copy_up
copy_up_inside zero i m d s j apart lo hi = absurd (omega arith)
copy_up_inside (suc n) i m d s j apart lo hi = elim (ℕ_discrete i j) [
  | yes e ↦
      copy_up_outside n (suc i) (write m (d + i) (m (s + i))) d s (d + j) (omega arith)
      ∙ ground arith
  | no ne ↦
      copy_up_inside n (suc i) (write m (d + i) (m (s + i))) d s j (omega arith) (omega arith)
        (omega arith)
      ∙ ground arith
]

copy_down_inside :
    (n : ℕ) (m : Mem) (d s j : ℕ) → s < d → j < n → copy_down n m d s (d + j) ≡ m (s + j)
unfolding copy_down
copy_down_inside zero m d s j below hi = absurd (omega arith)
copy_down_inside (suc n) m d s j below hi = elim (ℕ_discrete n j) [
  | yes e ↦
      copy_down_outside n (write m (d + n) (m (s + n))) d s (d + j) (omega arith) ∙ ground arith
  | no ne ↦
      copy_down_inside n (write m (d + n) (m (s + n))) d s j below (omega arith) ∙ ground arith
]

fill_up_outside :
    (n i : ℕ) (m : Mem) (s c q : ℕ) → (q < s + i) ⊎ (s + i + n ≤ q) → fill_up n i m s c q ≡ m q
unfolding fill_up
fill_up_outside zero i m s c q h = refl
fill_up_outside (suc n) i m s c q h =
    fill_up_outside n (suc i) (write m (s + i) (c % 256)) s c q (omega arith) ∙ ground arith

fill_up_inside :
    (n i : ℕ) (m : Mem) (s c j : ℕ) → i ≤ j → j < i + n → fill_up n i m s c (s + j) ≡ c % 256
unfolding fill_up
fill_up_inside zero i m s c j lo hi = absurd (omega arith)
fill_up_inside (suc n) i m s c j lo hi = elim (ℕ_discrete i j) [
  | yes e ↦
      fill_up_outside n (suc i) (write m (s + i) (c % 256)) s c (s + j) (omega arith) ∙ ground arith
  | no ne ↦ fill_up_inside n (suc i) (write m (s + i) (c % 256)) s c j (omega arith) (omega arith)
]

-- `memmove` moves every byte of the source, as it was before the call, to its place, however the
-- two ranges overlap, and every byte outside the target keeps its value.
pub memmove_lem :
    (m : Mem) (d s n : ℕ)
    → ((j : ℕ) → j < n → memmove m d s n (d + j) ≡ m (s + j))
      × ((q : ℕ) → (q < d) ⊎ (d + n ≤ q) → memmove m d s n q ≡ m q)
unfolding memmove
memmove_lem m d s n = (inside, outside)
  where
    inside : (j : ℕ) → j < n → memmove m d s n (d + j) ≡ m (s + j)
    inside j h = ground (arith, copy_up_inside n 0 m d s j, copy_down_inside n m d s j)

    outside : (q : ℕ) → (q < d) ⊎ (d + n ≤ q) → memmove m d s n q ≡ m q
    outside q h = ground (arith, copy_up_outside n 0 m d s q, copy_down_outside n m d s q)

-- Where the ranges do not overlap, `memcpy` does to the memory exactly what `memmove` does.
pub memcpy-eq-memmove :
    (m : Mem) (d s n : ℕ)
    → (d + n ≤ s) ⊎ (s + n ≤ d)
    → (q : ℕ) → memcpy m d s n q ≡ memmove m d s n q
unfolding memcpy
memcpy-eq-memmove m d s n apart q = elim (dec_lt q d) [
  | yes low ↦ ground (arith, copy_up_outside n 0 m d s q, (memmove_lem m d s n).1 q)
  | no up ↦ elim (dec_lt q (d + n)) [
    | yes h ↦ inside q (q - d) (omega arith) (omega arith)
    | no h ↦ ground (arith, copy_up_outside n 0 m d s q, (memmove_lem m d s n).1 q)
  ]
]
  where
    inside : (q j : ℕ) → q ≡ d + j → j < n → memcpy m d s n q ≡ memmove m d s n q
    inside q j e h = ground (arith, copy_up_inside n 0 m d s j, (memmove_lem m d s n).0 j)

-- `memset` stores the low byte of its argument in the whole range and nowhere else.
pub memset_lem :
    (m : Mem) (s c n : ℕ)
    → ((j : ℕ) → j < n → memset m s c n (s + j) ≡ c % 256)
      × ((q : ℕ) → (q < s) ⊎ (s + n ≤ q) → memset m s c n q ≡ m q)
unfolding memset
memset_lem m s c n = (
  (λ j h. fill_up_inside n 0 m s c j (omega arith) (omega arith)),
  λ q h. fill_up_outside n 0 m s c q (omega arith),
)
