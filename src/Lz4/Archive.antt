-- ===== src/Lz4/Archive.antt =====
-- kernel/kutil/lz4_pack.c: kernel_lz4_compress and kernel_lz4_decompress. Log lines are left out.
use windoge_os.Common.{
  ℕ, zero, suc, ◌+◌, ◌-◌, ◌/◌, ◌%◌, ◌^◌, Bool, false, not, ◌&&◌, ◌||◌, Option, none, some, List, [],
  ◌∷◌, ◌++◌, ltb, leb, ◌==◌, if◌then◌else◌, length, take, get_or,
}
use windoge_os.Common.Int.{ℤ, pos, negsuc}
use windoge_os.Common.Step.{
  Outcome, done, failed, stuck, Step, ◌>>=◌, ◌>>◌, pure, fail, out_of_fuel,
}
use windoge_os.Lz4.Files.{Files}
use windoge_os.Lz4.Write.{Writer, is_zero, less, lz4_write, lz4_write_flush}
use windoge_os.Lz4.Encode.{lz4_compress_block}
use windoge_os.Lz4.Decode.{Unpacking, word, lz4_read_at, decode_all}

-- `value` as four bytes, low byte first.
abbrev pub word_bytes : ℕ → List ℕ
word_bytes value =
    (value % 256) ∷ (value / 2 ^ 8 % 256) ∷ (value / 2 ^ 16 % 256) ∷ (value / 2 ^ 24 % 256) ∷ []

-- "LZ4C"
abbrev pub marker : List ℕ
marker = b'L' ∷ b'Z' ∷ b'4' ∷ b'C' ∷ []

abbrev pub is_marker : List ℕ → Bool
is_marker bytes =
    (get_or bytes 0 0 == b'L')
    && ((get_or bytes 1 0 == b'Z') && ((get_or bytes 2 0 == b'4') && (get_or bytes 3 0 == b'C')))

-- The result code, and what is left of the outcome when the fuel ran out.
abbrev pub finish :
    {W : Type 0}
    → (List ℕ → W → ℤ × W)
    → List ℕ
    → {S : Type 0} → (S → W)
    → Outcome (Unit {0}) × S
    → Option ℤ × W
finish delete path world_of (done u, s) = (some (pos 0), world_of s)
finish delete path world_of (failed, s) = (some (negsuc 0), (delete path (world_of s)).1)
finish delete path world_of (stuck, s) = (none, world_of s)

module _ {W : Type 0} (fs : Files W) where
  -- What the block's own buffer holds, if it is neither empty nor full.
  unfoldable pub take_packed :
      Writer W → Outcome (Unit {0}) × Writer W → Outcome (List ℕ) × Writer W
  take_packed w (done u, b) =
      if (length b.bytes == 0) || leb 8192 (length b.bytes)
      then fail (record w { world = b.world })
      else pure b.bytes (record w { world = b.world })
  take_packed w (failed, b) = fail (record w { world = b.world })
  take_packed w (stuck, b) = out_of_fuel (record w { world = b.world })

  -- The bytes of one block, from a buffer of its own that has no file.
  unfoldable pub pack_block : List ℕ → Step (Writer W) (List ℕ)
  pack_block source w = take_packed w (
      lz4_compress_block fs source
        (record { path = none; bytes = []; capacity = 8192; world = w.world }))

  -- Read a block of the source.
  unfoldable pub read_block : List ℕ → ℕ → ℕ → Step (Writer W) (List ℕ)
  read_block src offset requested w =
      let ((count, bytes), world) = fs.read_raw_at src offset requested w.world in
      let w1 : Writer W = record w { world = world } in
      elim count [
        | negsuc n ↦ fail w1
        | pos n ↦ if (n == 0) || not (n == requested) then fail w1 else pure (take n bytes) w1
      ]

  -- `while (!failed && offset < source_size)`
  unfoldable pub pack_blocks : ℕ → List ℕ → ℕ → ℕ → Step (Writer W) (Unit {0})
  pack_blocks zero src source_size offset = out_of_fuel
  pack_blocks (suc f) src source_size offset =
      let requested : ℕ = less (source_size - offset) 4096 in
      let block : Step (Writer W) (Unit {0}) = do
        source ← read_block src offset requested
        bytes ← pack_block source
        lz4_write fs (word_bytes requested ++ word_bytes (length bytes))
        lz4_write fs bytes
        pack_blocks f src source_size ((offset + requested) % 2 ^ 32)
      in if ltb offset source_size then block else pure tt

  -- Fuel for one round more than the source has bytes.
  unfoldable pub pack_all : List ℕ → ℕ → Step (Writer W) (Unit {0})
  pack_all src source_size = do
    lz4_write fs (word_bytes source_size ++ marker)
    pack_blocks (suc source_size) src source_size 0
    lz4_write_flush fs

  -- The result code is `none` when the fuel ran out.
  unfoldable pub kernel_lz4_compress : List ℕ → ℕ → List ℕ → W → Option ℤ × W
  kernel_lz4_compress src src_size dst w =
      if leb (2 ^ 32) src_size
      then (some (negsuc 0), w)
      else let (created, w1) = fs.create dst w in
        if not (is_zero created)
        then (some (negsuc 0), w1)
        else finish fs.delete dst (λ b. b.world)
            (pack_all src src_size
              (record { path = some dst; bytes = []; capacity = 65536; world = w1 }))

  -- `framed`, and the marker that is read behind the size.
  unfoldable pub read_marker : List ℕ → ℕ → List ℕ → Unpacking W → Bool × Unpacking W
  read_marker src src_size dst s =
      if not (leb 8 src_size)
      then (false, s)
      else let (result, t) = lz4_read_at fs src src_size dst 4 4 s in
        elim result [ done bytes ↦ (is_marker bytes, t) | failed ↦ (false, t) | stuck ↦ (false, t) ]

  -- Behind the header: an empty archive, or the blocks.
  unfoldable pub unpack_body : List ℕ → ℕ → List ℕ → ℕ → Bool × Unpacking W → Option ℤ × W
  unpack_body src src_size dst original_size (framed, s) =
      let empty_ok : Bool = src_size == (if framed then 8 else 4) in
      let (created, w1) = fs.create dst s.world in
      if original_size == 0
      then (if not empty_ok
          then (some (negsuc 0), s.world)
          else if not (is_zero created)
          then (some (negsuc 0), w1)
          else (some (pos 0), w1))
      else if not (is_zero created)
      then (some (negsuc 0), w1)
      else finish fs.delete dst (λ t. t.world)
          (decode_all fs src src_size dst framed original_size
            (record s { index = if framed then 8 else 4; world = w1 }))

  unfoldable pub unpack_header : List ℕ → ℕ → List ℕ → Outcome (List ℕ) × Unpacking W → Option ℤ × W
  unpack_header src src_size dst (done header, s) =
      unpack_body src src_size dst (word header 0) (read_marker src src_size dst s)
  unpack_header src src_size dst (failed, s) = (some (negsuc 0), s.world)
  unpack_header src src_size dst (stuck, s) = (none, s.world)

  -- `history` is what the static ring holds from before.
  unfoldable pub kernel_lz4_decompress : (ℕ → ℕ) → List ℕ → ℕ → List ℕ → W → Option ℤ × W
  kernel_lz4_decompress history src src_size dst w =
      if ltb src_size 4
      then (some (negsuc 0), w)
      else unpack_header src src_size dst (
          lz4_read_at fs src src_size dst 0 4 (record {
            start = 2 ^ 64 - 1;
            buffer = [];
            index = 0;
            history = history;
            pending = [];
            produced = 0;
            world = w;
          }))
