-- ===== src/Lz4/Encode.antt =====
-- kernel/kutil/lz4_pack.c: the block encoder. A block is the list of its bytes.
use windoge_os.Common.{
  ℕ, zero, suc, ◌+◌, ◌-◌, ◌*◌, ◌/◌, ◌%◌, ◌^◌, Bool, false, not, ◌&&◌, Option, none, some, List, ltb,
  leb, ◌==◌, if◌then◌else◌, length, take, drop, get_or,
}
use windoge_os.Common.Step.{Step, ◌>>=◌, pure, out_of_fuel}
use windoge_os.Lz4.Files.{Files}
use windoge_os.Lz4.Write.{Writer, lz4_write_sequence}

abbrev pub byte_at : List ℕ → ℕ → ℕ
byte_at source i = get_or source i 0

-- The four bytes as a number, low byte first, times 2654435761, and of that the high 12 of 32 bits.
unfoldable pub lz4_hash : List ℕ → ℕ → ℕ
lz4_hash source offset =
    let value : ℕ =
      byte_at source offset
      + byte_at source (offset + 1) * 2 ^ 8
      + byte_at source (offset + 2) * 2 ^ 16
      + byte_at source (offset + 3) * 2 ^ 24 in
    value * 2654435761 % 2 ^ 32 / 2 ^ 20

-- The table gives a position, or `none` for UINT32_MAX.
abbrev pub HashTable : Type 0
HashTable = ℕ → Option ℕ

abbrev pub put_hash : HashTable → ℕ → ℕ → HashTable
put_hash table hash position h = if hash == h then some position else table h

abbrev pub same_byte : List ℕ → ℕ → ℕ → Bool
same_byte source i j = byte_at source i == byte_at source j

-- The candidate is near enough and has the same four bytes.
unfoldable pub is_match : List ℕ → ℕ → Option ℕ → Bool
is_match source index none = false
is_match source index (some candidate) =
    leb (index - candidate) 4096
    && (same_byte source candidate index
        && (same_byte source (candidate + 1) (index + 1)
            && (same_byte source (candidate + 2) (index + 2)
                && same_byte source (candidate + 3) (index + 3))))

-- The length grows while the bytes agree; the rounds left are those to the maximum.
unfoldable pub extend_match : ℕ → List ℕ → ℕ → ℕ → ℕ → ℕ
extend_match zero source candidate index match_length = match_length
extend_match (suc n) source candidate index match_length =
    let longer : ℕ = extend_match n source candidate index (suc match_length) in
    if same_byte source (candidate + match_length) (index + match_length)
    then longer
    else match_length

-- `for (pos = index + 1; pos < match_end && pos <= source_size - 4; pos++)`, by the rounds left.
unfoldable pub hash_positions : ℕ → List ℕ → ℕ → HashTable → HashTable
hash_positions zero source position table = table
hash_positions (suc n) source position table =
    let rest : HashTable =
      hash_positions n source (suc position) (put_hash table (lz4_hash source position) position) in
    if leb position (length source - 4) then rest else table

abbrev pub or_zero : Option ℕ → ℕ
or_zero none = 0
or_zero (some candidate) = candidate

module _ {W : Type 0} (fs : Files W) (source : List ℕ) where
  -- The literals from the anchor on, and the match.
  abbrev pub literals : ℕ → ℕ → List ℕ
  literals anchor index = take (index - anchor) (drop anchor source)

  -- `while (source_size >= 12U && index <= source_size - 12U)`; the value is the anchor.
  unfoldable pub compress_loop : ℕ → HashTable → ℕ → ℕ → Step (Writer W) ℕ
  compress_loop zero table anchor index = out_of_fuel
  compress_loop (suc f) table anchor index =
      if not (leb 12 (length source) && leb index (length source - 12))
      then pure anchor
      else let hash : ℕ = lz4_hash source index in
        let candidate : ℕ = or_zero (table hash) in
        let table1 : HashTable = put_hash table hash index in
        let skip : Step (Writer W) ℕ = compress_loop f table1 anchor (suc index) in
        let match_length : ℕ =
          extend_match (length source - 5 - index - 4) source candidate index 4 in
        let table2 : HashTable = hash_positions (match_length - 1) source (suc index) table1 in
        let follow : Step (Writer W) ℕ =
          compress_loop f table2 (index + match_length) (index + match_length) in
        if not (is_match source index (table hash))
        then skip
        else (lz4_write_sequence fs (literals anchor index) match_length (index - candidate)
            >>= λ _. follow)

  -- The literals behind the last match.
  unfoldable pub write_last : ℕ → Step (Writer W) (Unit {0})
  write_last anchor =
      if ltb 0 (length source)
      then lz4_write_sequence fs (literals anchor (length source)) 0 0
      else pure tt

  -- Fuel for one round more than there are bytes.
  unfoldable pub lz4_compress_block : Step (Writer W) (Unit {0})
  lz4_compress_block = compress_loop (suc (length source)) (λ h. none) 0 0 >>= write_last
