-- ===== src/Lz4/Decode.antt =====
-- kernel/kutil/lz4_pack.c: the unpacker. Its read buffer, its output and the index into the archive
-- are one state.
use windoge_os.Common.{
  ℕ, zero, suc, ◌+◌, ◌-◌, ◌*◌, ◌/◌, ◌%◌, ◌^◌, Bool, true, false, not, ◌&&◌, ◌||◌, List, [], ◌∷◌,
  ◌++◌, ltb, leb, ◌==◌, if◌then◌else◌, length, take, drop, get_or,
}
use windoge_os.Common.Int.{pos, negsuc}
use windoge_os.Common.Step.{Step, ◌>>=◌, ◌>>◌, pure, fail, out_of_fuel, reject_if}
use windoge_os.Lz4.Files.{Files}
use windoge_os.Lz4.Write.{is_zero, less}

-- `start` and `buffer` are the read buffer, `history`, `pending` and `produced` the output: `pending`
-- is what its array holds, and `history` the ring of 4096 bytes.
pub record Unpacking (W : Type 0) : Type 0 where
  pub start : ℕ
  pub buffer : List ℕ
  pub index : ℕ
  pub history : ℕ → ℕ
  pub pending : List ℕ
  pub produced : ℕ
  pub world : W

-- Four bytes, low byte first.
abbrev pub word : List ℕ → ℕ → ℕ
word bytes i =
    get_or bytes i 0
    + get_or bytes (i + 1) 0 * 2 ^ 8
    + get_or bytes (i + 2) 0 * 2 ^ 16
    + get_or bytes (i + 3) 0 * 2 ^ 24

module _ {W : Type 0} (fs : Files W) (src : List ℕ) (src_size : ℕ) (dst : List ℕ) where
  -- Read on from the offset, at most the size of the buffer.
  unfoldable pub refill : ℕ → Step (Unpacking W) (Unit {0})
  refill offset s =
      let ((count, bytes), world) =
        fs.read_raw_at src offset (less (src_size - offset) 4096) s.world in
      elim count [
        | negsuc n ↦ fail (record s { world = world })
        | pos n ↦
            if n == 0
            then fail (record s { world = world })
            else pure tt (record s { start = offset; buffer = take n bytes; world = world })
      ]

  abbrev pub outside : ℕ → Unpacking W → Bool
  outside offset s = ltb offset s.start || leb (length s.buffer) (offset - s.start)

  abbrev pub refill_if : Bool → ℕ → Step (Unpacking W) (Unit {0})
  refill_if true offset s = refill offset s
  refill_if false offset s = pure tt s

  -- `while (length > 0)`: the bytes, a batch a round.
  unfoldable pub read_loop : ℕ → ℕ → ℕ → Step (Unpacking W) (List ℕ)
  read_loop zero offset n s = out_of_fuel s
  read_loop (suc f) offset zero s = pure [] s
  read_loop (suc f) offset (suc n) s =
      let batch : Step (Unpacking W) (List ℕ) = λ t.
        let bytes : List ℕ = take (suc n) (drop (offset - t.start) t.buffer) in
        (read_loop f (offset + length bytes) (suc n - length bytes) >>= λ more.
        pure (bytes ++ more))
          t in
      if leb src_size offset then fail s else (refill_if (outside offset s) offset >> batch) s

  unfoldable pub lz4_read_at : ℕ → ℕ → Step (Unpacking W) (List ℕ)
  lz4_read_at offset n = read_loop (suc n) offset n

  abbrev pub index_of : Step (Unpacking W) ℕ
  index_of s = pure s.index s

  -- `*src_idx += n;`
  abbrev pub advance : ℕ → Step (Unpacking W) (Unit {0})
  advance n s = pure tt (record s { index = (s.index + n) % 2 ^ 64 })

  -- Read at the index and go past it.
  abbrev pub read_on : ℕ → Step (Unpacking W) (List ℕ)
  read_on n = do i ← index_of; bytes ← lz4_read_at i n; advance n; pure bytes

  abbrev pub flush_output : Step (Unpacking W) (Unit {0})
  flush_output s =
      let (rc, world) = fs.append_data dst s.pending s.world in
      if is_zero rc
      then pure tt (record s { pending = []; world = world })
      else fail (record s { world = world })

  unfoldable pub lz4_output_byte : ℕ → Step (Unpacking W) (Unit {0})
  lz4_output_byte value s =
      let t : Unpacking W = record s {
        history = λ i. if s.produced % 4096 == i then value else s.history i;
        pending = s.pending ++ (value ∷ []);
        produced = (s.produced + 1) % 2 ^ 32;
      } in
      if length t.pending == 65536 then flush_output t else pure tt t

  -- `do { ... } while (extension == 255U)`; the accumulator is `*length`.
  unfoldable pub lz4_read_length : ℕ → ℕ → ℕ → Step (Unpacking W) ℕ
  lz4_read_length zero limit total = out_of_fuel
  lz4_read_length (suc f) limit total = do
    i ← index_of
    reject_if (leb limit i)
    bytes ← read_on 1
    reject_if (ltb (2 ^ 64 - 1 - total) (get_or bytes 0 0))
    if get_or bytes 0 0 == 255
        then lz4_read_length f limit (total + get_or bytes 0 0)
        else pure (total + get_or bytes 0 0)

  -- Fuel for one round more than there are bytes to the limit.
  unfoldable pub extended_length : Bool → ℕ → ℕ → Step (Unpacking W) ℕ
  extended_length false limit total s = pure total s
  extended_length true limit total s = lz4_read_length (suc (limit - s.index)) limit total s

  unfoldable pub output_bytes : List ℕ → Step (Unpacking W) (Unit {0})
  output_bytes [] = pure tt
  output_bytes (b ∷ bytes) = lz4_output_byte b >> output_bytes bytes

  -- `while (literals_remaining > 0)`, 512 bytes a round.
  unfoldable pub copy_literals : ℕ → ℕ → Step (Unpacking W) (Unit {0})
  copy_literals zero n = out_of_fuel
  copy_literals (suc f) zero = pure tt
  copy_literals (suc f) (suc n) = do
    bytes ← read_on (less (suc n) 512)
    output_bytes bytes
    copy_literals f (suc n - less (suc n) 512)

  -- `for (i = 0; i < match_length; i++)`
  unfoldable pub copy_match : ℕ → ℕ → Step (Unpacking W) (Unit {0})
  copy_match zero match_offset = pure tt
  copy_match (suc n) match_offset =
      (λ s. lz4_output_byte (s.history ((s.produced + 2 ^ 32 - match_offset) % 2 ^ 32 % 4096)) s)
      >> copy_match n match_offset

  abbrev pub produced_of : Step (Unpacking W) ℕ
  produced_of s = pure s.produced s

  -- The offset, the length and the copy.
  unfoldable pub decode_match : ℕ → ℕ → ℕ → ℕ → Step (Unpacking W) (Unit {0})
  decode_match token block_start block_target block_end = do
    i ← index_of
    reject_if (ltb (block_end - i) 2)
    offset_bytes ← read_on 2
    let match_offset = get_or offset_bytes 0 0 + get_or offset_bytes 1 0 * 2 ^ 8
    produced ← produced_of
    reject_if
        ((match_offset == 0) || ltb 4096 match_offset || ltb (produced - block_start) match_offset)
    match_length ← extended_length (token % 16 == 15) block_end (token % 16 + 4)
    reject_if (ltb (block_target - produced) match_length)
    copy_match match_length match_offset

  -- One round of the inner loop; true is its last `break` that is no failure.
  unfoldable pub decode_sequence : ℕ → ℕ → ℕ → Step (Unpacking W) Bool
  decode_sequence block_start block_target block_end = do
    bytes ← read_on 1
    let token = get_or bytes 0 0
    literal_length ← extended_length (token / 16 == 15) block_end (token / 16)
    produced ← produced_of
    i ← index_of
    reject_if (ltb (block_target - produced) literal_length || ltb (block_end - i) literal_length)
    copy_literals (suc literal_length) literal_length
    produced' ← produced_of
    i' ← index_of
    if produced' == block_target
        then (reject_if (not (i' == block_end)) >> pure true)
        else (decode_match token block_start block_target block_end >> pure false)

  -- `while (!failed && src_idx < block_end && output.produced < block_target)`
  unfoldable pub decode_sequences : ℕ → ℕ → ℕ → ℕ → Step (Unpacking W) (Unit {0})
  decode_sequences zero block_start block_target block_end = out_of_fuel
  decode_sequences (suc f) block_start block_target block_end = do
    i ← index_of
    produced ← produced_of
    if not (ltb i block_end && ltb produced block_target)
        then pure tt
        else (decode_sequence block_start block_target block_end >>= λ last.
            if last then pure tt else decode_sequences f block_start block_target block_end)

  -- One block, and the tests behind it.
  unfoldable pub decode_block : ℕ → ℕ → Step (Unpacking W) (Unit {0})
  decode_block block_target block_end = do
    i ← index_of
    block_start ← produced_of
    decode_sequences (suc (block_end - i)) block_start block_target block_end
    i' ← index_of
    produced ← produced_of
    reject_if (not (produced == block_target) || not (i' == block_end))

  -- A framed block: its header, and its sequences.
  unfoldable pub framed_block : ℕ → Step (Unpacking W) (Unit {0})
  framed_block original_size = do
    i ← index_of
    reject_if (ltb (src_size - i) 8)
    header ← read_on 8
    i' ← index_of
    produced ← produced_of
    let block_original = word header 0
    let block_compressed = word header 4
    reject_if (
        (block_original == 0)
        || (block_compressed == 0)
        || ltb (original_size - produced) block_original
        || ltb (src_size - i') block_compressed)
    decode_block ((produced + block_original) % 2 ^ 32) ((i' + block_compressed) % 2 ^ 64)

  -- `while (!failed && output.produced < original_size)` over framed blocks.
  unfoldable pub decode_blocks : ℕ → ℕ → Step (Unpacking W) (Unit {0})
  decode_blocks zero original_size = out_of_fuel
  decode_blocks (suc f) original_size = do
    produced ← produced_of
    if not (ltb produced original_size)
        then pure tt
        else (framed_block original_size >> decode_blocks f original_size)

  -- The blocks, the last tests and the last bytes.
  unfoldable pub decode_all : Bool → ℕ → Step (Unpacking W) (Unit {0})
  decode_all framed original_size = do
    if framed
        then decode_blocks (suc original_size) original_size
        else decode_block original_size src_size
    produced ← produced_of
    i ← index_of
    reject_if (not (produced == original_size) || not (i == src_size))
    (λ s. if ltb 0 (length s.pending) then flush_output s else pure tt s)
