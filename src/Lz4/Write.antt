-- ===== src/Lz4/Write.antt =====
-- kernel/kutil/lz4_pack.c: the write buffer, and the bytes of one sequence.
use windoge_os.Common.{
  ℕ, zero, suc, ◌+◌, ◌-◌, ◌*◌, ◌/◌, ◌%◌, ◌^◌, Bool, false, not, Option, none, some, List, [], ◌∷◌,
  ◌++◌, ltb, leb, ◌==◌, if◌then◌else◌, length, take, drop,
}
use windoge_os.Common.Int.{ℤ, pos, negsuc}
use windoge_os.Common.Step.{Step, ◌>>=◌, ◌>>◌, pure, fail, out_of_fuel}
use windoge_os.Lz4.Files.{Files}

abbrev pub is_zero : ℤ → Bool
is_zero (pos n) = n == 0
is_zero (negsuc n) = false

abbrev pub less : ℕ → ℕ → ℕ
less a b = if ltb a b then a else b

-- `lz4_write_buffer_t`: the bytes so far are the first `length` ones of its array; `path` is `none`
-- for a buffer of no file.
pub record Writer (W : Type 0) : Type 0 where
  pub path : Option (List ℕ)
  pub bytes : List ℕ
  pub capacity : ℕ
  pub world : W

module _ {W : Type 0} (fs : Files W) where
  abbrev pub append_all : List ℕ → Step (Writer W) Unit
  append_all path w =
      let (rc, world) = fs.append_data path w.bytes w.world in
      if is_zero rc
      then pure tt (record w { bytes = []; world = world })
      else fail (record w { world = world })

  -- A call is made for a buffer with a path only.
  unfoldable pub lz4_write_flush : Step (Writer W) Unit
  lz4_write_flush w =
      if length w.bytes == 0
      then pure tt w
      else elim w.path [ none ↦ fail w | some path ↦ append_all path w ]

  -- `if (buffer->length == buffer->capacity)`, with the test for a path.
  unfoldable pub when_full : Step (Writer W) Unit
  when_full w = if length w.bytes == w.capacity then lz4_write_flush w else pure tt w

  -- `while (length > 0)`, a batch a round.
  unfoldable pub write_loop : ℕ → List ℕ → Step (Writer W) Unit
  write_loop zero input w = out_of_fuel w
  write_loop (suc f) [] w = pure tt w
  write_loop (suc f) (b ∷ input) w =
      let batch : ℕ = less (suc (length input)) (w.capacity - length w.bytes) in
      (when_full >>= λ _. write_loop f (drop batch (b ∷ input)))
        (record w { bytes = w.bytes ++ take batch (b ∷ input) })

  -- Fuel for one round more than there are bytes.
  unfoldable pub lz4_write : List ℕ → Step (Writer W) Unit
  lz4_write input = write_loop (suc (length input)) input

  -- `while (length >= 255U)`, then the rest.
  unfoldable pub length_loop : ℕ → ℕ → Step (Writer W) Unit
  length_loop zero n = out_of_fuel
  length_loop (suc f) n =
      let rest : Step (Writer W) Unit = length_loop f (n - 255) in
      if leb 255 n then (lz4_write (255 ∷ []) >> rest) else lz4_write (n ∷ [])

  unfoldable pub lz4_write_length : ℕ → Step (Writer W) Unit
  lz4_write_length n = length_loop (suc n) n

  abbrev pub when : Bool → Step (Writer W) Unit → Step (Writer W) Unit
  when test m = if test then m else pure tt

  -- The offset, low byte first, and the rest of the match length.
  unfoldable pub write_match : ℕ → ℕ → Step (Writer W) Unit
  write_match encoded match_offset = do
    lz4_write ((match_offset % 256) ∷ (match_offset / 256 % 256) ∷ [])
    when (leb 15 encoded) (lz4_write_length (encoded - 15))

  unfoldable pub lz4_write_sequence : List ℕ → ℕ → ℕ → Step (Writer W) Unit
  lz4_write_sequence literals match_length match_offset = do
    let encoded = if ltb 0 match_length then (match_length + 2 ^ 32 - 4) % 2 ^ 32 else 0
    lz4_write ((less (length literals) 15 * 16 + less encoded 15) ∷ [])
    when (leb 15 (length literals)) (lz4_write_length (length literals - 15))
    lz4_write literals
    when (not (match_length == 0)) (write_match encoded match_offset)
