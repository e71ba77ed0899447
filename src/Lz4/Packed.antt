-- ===== src/Lz4/Packed.antt =====
-- kernel/kutil/lz4_pack.c: `lz4_compress_block` succeeds, and its bytes spell the block.
use windoge_os.Common.{
  ℕ, zero, suc, ◌+◌, ◌-◌, ◌*◌, ◌/◌, ◌%◌, ◌≤◌, ◌<◌, ◌≡◌, refl, ap, ◌∙◌, true, ◌&&◌, none, some, List,
  [], ◌∷◌, ◌++◌, ltb, leb, leb→le, length, length-append, replicate, length-replicate, arith,
  Bool-cases, inl, inr,
}
use windoge_os.Common.Pieces.{length-slice}
use windoge_os.Common.Step.{Outcome, done, next}
use windoge_os.Lz4.Files.{Files}
use windoge_os.Lz4.Write.{Writer}
use windoge_os.Lz4.Encode.{
  byte_at, lz4_hash, HashTable, put_hash, is_match, extend_match, hash_positions, compress_loop,
  write_last, lz4_compress_block,
}
use windoge_os.Lz4.Sequence.{
  extension_if, sequence_bytes, match_bytes, last_bytes, push, push-push, write_sequence-room,
  write_last-room,
}
use windoge_os.Lz4.Blocks.{
  IsCopy, Spells, ends, goes_on, part, extend-repeats, Below, put_hash-Below, Below-mono,
  hash_positions-Below, is_match-some, is_match-four,
}

length-extension_if : (n : ℕ) → 15 * length (extension_if n) ≤ n
length-extension_if n = elim (Bool-cases (leb 15 n)) [
  | inl long ↦ rw long (
      omega (
        arith,
        leb→le 15 n long,
        length-append (replicate ((n - 15) / 255) 255) ((n - 15) % 255 ∷ []),
        length-replicate {A = ℕ} ((n - 15) / 255) 255,
      ))
  | inr short ↦ rw short (omega arith)
]

length-sequence_bytes :
    (lits : List ℕ) (ml off : ℕ)
    → 4 ≤ ml
    → 15 * length (sequence_bytes lits ml off) ≤ 16 * (length lits + ml)
length-sequence_bytes lits ml off h = omega (
  arith,
  length-append (extension_if (length lits)) (lits ++ match_bytes ml off),
  length-append lits (match_bytes ml off),
  length-extension_if (length lits),
  length-extension_if (ml - 4),
)

length-last_bytes : (lits : List ℕ) → 15 * length (last_bytes lits) ≤ 16 * length lits + 15
length-last_bytes lits =
    omega
      (arith, length-append (extension_if (length lits)) lits, length-extension_if (length lits))

module _ {W : Type 0} (fs : Files W) (source : List ℕ) where
  -- What the loop and the last sequence add to the buffer from an anchor on.
  pub record Rest (anchor : ℕ) (w : Writer W) (r : Outcome (Unit {0}) × Writer W) : Type 0 where
    pub bytes : List ℕ
    pub result : r ≡ (done tt, push w bytes)
    pub spells : Spells source anchor bytes
    pub short : 15 * length bytes ≤ 16 * (length source - anchor) + 15

  -- The buffer has room for the rest of the block.
  abbrev Spacious : ℕ → Writer W → Type 0
  Spacious anchor w = 15 * length w.bytes + 16 * (length source - anchor) + 15 < 15 * w.capacity

  last-Rest :
      (anchor : ℕ) (w : Writer W)
      → anchor < length source
      → Spacious anchor w
      → Rest anchor w (write_last fs source anchor w)
  unfolding write_last
  last-Rest anchor w lt room =
      let lits : List ℕ = part source anchor (length source) in
      let size : length lits ≡ length source - anchor =
        length-slice source anchor (length source - anchor) (omega arith) in
      let some_bytes : ltb 0 (length source) ≡ true = ground arith in
      rw some_bytes (record {
        bytes = last_bytes lits;
        result = write_last-room fs lits w (omega (arith, size, room, length-last_bytes lits));
        spells = ends lt refl;
        short = omega (arith, size, length-last_bytes lits);
      })

  -- A sequence in front of the rest.
  join-Rest :
      (anchor i ml off : ℕ) (w : Writer W) (r : Outcome (Unit {0}) × Writer W)
      → anchor ≤ i
      → IsCopy source i ml off
      → Rest (i + ml) (push w (sequence_bytes (part source anchor i) ml off)) r
      → Rest anchor w r
  join-Rest anchor i ml off w r le copy rest =
      let seq : List ℕ = sequence_bytes (part source anchor i) ml off in
      record {
        bytes = seq ++ rest.bytes;
        result = rest.result ∙ ap (λ x. (done tt, x)) (push-push w seq rest.bytes);
        spells = goes_on i ml off rest.bytes le copy rest.spells refl;
        short = omega (
          arith,
          rest.short,
          length-append seq rest.bytes,
          copy.leaves,
          length-sequence_bytes (part source anchor i) ml off copy.at_least,
          length-slice source anchor (i - anchor) (omega (arith, copy.leaves)),
        );
      }

  -- The length that the code finds for a candidate makes a match.
  found-IsCopy :
      (i c : ℕ)
      → i + 12 ≤ length source
      → c < i
      → is_match source i (some c) ≡ true
      → IsCopy source i (extend_match (length source - 5 - i - 4) source c i 4) (i - c)
  found-IsCopy i c room lt hit =
      let (near, four) = is_match-four source i c hit in
      let (lo, hi, all) = extend-repeats (length source - 5 - i - 4) source c i 4 four in
      record {
        at_least = lo;
        leaves = omega (arith, hi);
        back = omega arith;
        inside = omega arith;
        near = near;
        repeats = λ k lt'.
            ap (λ j. byte_at source j) {x = i - (i - c) + k} {y = c + k} (omega arith) ∙ all k lt';
      }

  sequence_room :
      (anchor i ml off : ℕ) (w : Writer W)
      → anchor ≤ i
      → IsCopy source i ml off
      → Spacious anchor w
      → (length w.bytes + length (sequence_bytes (part source anchor i) ml off) < w.capacity)
        × Spacious (i + ml) (push w (sequence_bytes (part source anchor i) ml off))
  sequence_room anchor i ml off w le copy room =
      let seq : List ℕ = sequence_bytes (part source anchor i) ml off in
      let size : length (part source anchor i) ≡ i - anchor =
        length-slice source anchor (i - anchor) (omega (arith, copy.leaves)) in
      let bound = length-sequence_bytes (part source anchor i) ml off copy.at_least in
      (
        omega (arith, room, size, bound, copy.leaves),
        omega (arith, room, size, bound, copy.leaves, length-append w.bytes seq),
      )

  loop-Rest :
      (f : ℕ) (table : HashTable) (anchor index : ℕ) (w : Writer W)
      → length source ≤ 4096
      → index ≤ length source
      → length source < index + f
      → anchor ≤ index
      → anchor < length source
      → Below table index
      → Spacious anchor w
      → Rest anchor w (next (compress_loop fs source f table anchor index w) (write_last fs source))
  unfolding compress_loop
  loop-Rest zero table anchor index w small in_range fuel le lt below room = absurd (omega arith)
  loop-Rest (suc f) table anchor index w small in_range fuel le lt below room =
      elim (Bool-cases (leb 12 (length source) && leb index (length source - 12))) [
        | inr over ↦ rw over (last-Rest anchor w lt room)
        | inl inside ↦ elim (Bool-cases (is_match source index (table hash))) [
          | inr miss ↦
              rw (inside, miss)
                (loop-Rest f table1 anchor (suc index) w small (ground arith) (omega arith)
                  (omega arith) lt below1 room)
          | inl hit ↦
              let (c, e) = is_match-some source index (table hash) hit in
              let hit' : is_match source index (some c) ≡ true = rw e at hit in
              let ml : ℕ = extend_match (length source - 5 - index - 4) source c index 4 in
              let copy = found-IsCopy index c (ground arith) (below hash c e) hit' in
              let (fits, room') = sequence_room anchor index ml (index - c) w le copy room in
              let written =
                write_sequence-room fs (part source anchor index) ml (index - c) w copy.at_least
                  (omega (arith, copy.leaves)) fits in
              rw (inside, e, hit', written)
                (join-Rest anchor index ml (index - c) w _ le copy (
                  loop-Rest f (hash_positions (ml - 1) source (suc index) table1) (index + ml)
                    (index + ml) (push w (sequence_bytes (part source anchor index) ml (index - c)))
                    small (omega (arith, copy.leaves)) (omega (arith, copy.at_least)) (omega arith)
                    (omega (arith, copy.leaves))
                    (hash_positions-Below (ml - 1) source (suc index) table1 (index + ml)
                      (omega (arith, copy.at_least))
                      (Below-mono table1 (suc index) (index + ml) (omega (arith, copy.at_least))
                        below1))
                    room'))
        ]
      ]
    where
      hash : ℕ
      hash = lz4_hash source index

      table1 : HashTable
      table1 = put_hash table hash index

      below1 : Below table1 (suc index)
      below1 =
          put_hash-Below table hash index (suc index)
            (Below-mono table index (suc index) (omega arith) below) (omega arith)

  -- For a block of 1 to 4096 bytes, `lz4_compress_block` into an empty buffer of 8192 bytes succeeds;
  -- it adds at most 16/15 of the block's size and one byte, and these bytes spell the block.
  pub compress_block-Rest :
      (w : Writer W)
      → 0 < length source
      → length source ≤ 4096
      → w.bytes ≡ []
      → w.capacity ≡ 8192
      → Rest 0 w (lz4_compress_block fs source w)
  unfolding lz4_compress_block
  compress_block-Rest w ge le empty cap =
      loop-Rest (suc (length source)) (λ h. none) 0 0 w le (omega arith) (omega arith) (omega arith)
        ge (λ h c e. absurd (cc)) (omega (arith, ap length empty))
