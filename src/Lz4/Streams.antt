-- ===== src/Lz4/Streams.antt =====
-- kernel/kutil/lz4_pack.c: the unpacker over the sequences of a block and the blocks of an archive.
use windoge_os.Common.{
  ℕ, zero, suc, ◌+◌, ◌-◌, ◌*◌, ◌%◌, ◌^◌, ◌≤◌, ◌<◌, ◌≡◌, ◌≢◌, refl, sym, ap, ◌∙◌, true, false, ◌&&◌,
  Option, List, [], ◌++◌, ltb, ◌==◌, length, length-append, take, arith, append_assoc, append-nil,
}
use mathlib.Core.Path.{subst}
use windoge_os.Common.Pieces.{At, At-left, At-right, take_all}
use windoge_os.Common.Step.{holds, Ensures-next, Ensures-weaken}
use windoge_os.Lz4.Unpack.{Decodes, Inv, read_on-piece}
use windoge_os.Lz4.Files.{Files, FileLaws}
use windoge_os.Lz4.Decode.{
  Unpacking, word, decode_sequences, decode_block, framed_block, decode_blocks,
}
use windoge_os.Lz4.Archive.{word_bytes}
use windoge_os.Lz4.Sequence.{sequence_bytes}
use windoge_os.Lz4.Blocks.{Spells, ends, goes_on, part}
use windoge_os.Lz4.Ring.{so_far, equal, not_equal, not_ltb}
use windoge_os.Lz4.Rounds.{length-so_far, decode_sequence-match, decode_sequence-last}

-- The blocks of an archive, each behind its two sizes: the bytes spell the text.
pub data Packs : List ℕ → List ℕ → Type 0 where
  no_more : Packs [] []
  one :
      {text packed : List ℕ} (block bytes rest more : List ℕ)
      → 0 < length block
      → length block ≤ 4096
      → Spells block 0 bytes
      → 15 * length bytes ≤ 16 * length block + 15
      → Packs rest more
      → text ≡ block ++ rest
      → packed ≡ (word_bytes (length block) ++ word_bytes (length bytes)) ++ (bytes ++ more)
      → Packs text packed

word-word_bytes : (v : ℕ) (l : List ℕ) → v < 2 ^ 32 → word (word_bytes v ++ l) 0 ≡ v
word-word_bytes v l h = omega arith

pub Spells-lt :
    {block bytes : List ℕ} {a : ℕ} → Spells block a bytes → (a < length block) × (0 < length bytes)
Spells-lt (ends lt e) = (lt, omega (arith, ap length e))
Spells-lt (goes_on i ml off rest le copy sp e) =
    (omega (arith, copy.leaves), omega (arith, ap length e))

module _ {W : Type 0} (fs : Files W) (content : List ℕ → W → Option (List ℕ))
    (Usable : List ℕ → Type 0) (Broken : W → Type 0) (laws : FileLaws fs content Usable Broken)
    (src dst bs : List ℕ) (apart : src ≢ dst) (small : length bs < 2 ^ 64) where
  sequences-Inv :
      (before block : List ℕ) (block_end : ℕ) (fits : length before + length block < 2 ^ 32)
      (f index : ℕ) (s : Unpacking W) {a : ℕ} {bytes : List ℕ}
      → Spells block a bytes
      → length bytes < f
      → index + length bytes ≡ block_end
      → At bs index bytes
      → Inv content src dst bs index (so_far before block a) s
      → Decodes Broken
          (λ u t. Inv content src dst bs block_end (so_far before block (length block)) t)
          (decode_sequences fs src
            (length bs)
            dst
            f
            (length before)
            (length before + length block)
            block_end
            s)
  unfolding decode_sequences
  sequences-Inv before block block_end fits zero index s sp fuel e at v = absurd (omega arith)
  sequences-Inv before block block_end fits (suc f) index s {a} {bytes} (ends lt eb) fuel e at v =
      let more = go_on s.index s.produced (omega (arith, v.index_is, e, ap length eb)) (
        omega (
          arith,
          v.produced_is,
          length-so_far fs content Usable Broken laws src dst bs apart small before block block_end
              fits a (omega arith),
        )) in
      rw more (
        Ensures-next
          (decode_sequence-last fs content Usable Broken laws src dst bs apart small before block
            block_end fits index a s lt (ap (λ x. index + length x) (sym eb) ∙ e)
            (subst (λ x. At bs index x) eb at) v)
          λ b t (is_last, v'). rw is_last (holds v'))
    where
      go_on :
          (i p : ℕ)
          → i < block_end
          → p < length before + length block
          → (ltb i block_end && ltb p (length before + length block)) ≡ true
      go_on i p h h' = ground arith
  sequences-Inv before block block_end fits (suc f) index s {a} {bytes}
        (goes_on i ml off rest le copy sp eb) fuel e at v =
      let seq : List ℕ = sequence_bytes (part block a i) ml off in
      let size = length-append seq rest in
      let more = go_on s.index s.produced (omega (arith, v.index_is, e, ap length eb)) (
        omega (
          arith,
          v.produced_is,
          copy.leaves,
          length-so_far fs content Usable Broken laws src dst bs apart small before block block_end
              fits a (omega (arith, copy.leaves)),
        )) in
      let at' = subst (λ x. At bs index x) eb at in
      rw more (
        Ensures-next
          (decode_sequence-match fs content Usable Broken laws src dst bs apart small before block
            block_end fits index a i ml off s le copy (omega (arith, e, ap length eb, size))
            (At-left seq rest at') v)
          λ b t (goes, v'). rw goes (
            sequences-Inv before block block_end fits f (index + length seq) t sp
              (omega (arith, ap length eb, size)) (omega (arith, e, ap length eb, size))
              (At-right seq rest at') v'))
    where
      go_on :
          (i p : ℕ)
          → i < block_end
          → p < length before + length block
          → (ltb i block_end && ltb p (length before + length block)) ≡ true
      go_on i p h h' = ground arith

  block-Inv :
      (before block bytes : List ℕ) (index : ℕ) (s : Unpacking W)
      → length before + length block < 2 ^ 32
      → Spells block 0 bytes
      → At bs index bytes
      → Inv content src dst bs index before s
      → Decodes Broken
          (λ u t. Inv content src dst bs (index + length bytes) (before ++ block) t)
          (decode_block fs src
            (length bs)
            dst
            (length before + length block)
            (index + length bytes)
            s)
  unfolding decode_block
  block-Inv before block bytes index s fits sp at v =
      let v0 = subst (λ x. Inv content src dst bs index x s) (sym (append-nil before)) v in
      let end_is : take (length block) block ≡ block =
        take_all (length block) block (omega arith) in
      let all =
        sequences-Inv before block (index + length bytes) fits
          (suc (index + length bytes - s.index)) index s sp (omega (arith, v.index_is)) refl at
          v0 in
      let from_here =
        subst
          (λ p.
            Decodes Broken
              (λ u t.
                Inv content src dst bs (index + length bytes) (so_far before block (length block))
                  t)
              (decode_sequences fs src (length bs) dst (suc (index + length bytes - s.index)) p
                (length before + length block) (index + length bytes) s))
          (sym v.produced_is) all in
      Ensures-next from_here λ u t v'.
        let v1 =
          subst (λ x. Inv content src dst bs (index + length bytes) (before ++ x) t) end_is v' in
        let e1 : (t.produced == (length before + length block)) ≡ true =
          equal t.produced (length before + length block)
            (omega (arith, v1.produced_is, length-append before block)) in
        let e2 : (t.index == (index + length bytes)) ≡ true =
          equal t.index (index + length bytes) v1.index_is in
        rw (e1, e2) (holds v1)

  framed-Inv :
      (original : ℕ) (before block bytes : List ℕ) (index : ℕ) (s : Unpacking W)
      → original < 2 ^ 32
      → length before + length block ≤ original
      → 0 < length block
      → Spells block 0 bytes
      → 15 * length bytes ≤ 16 * length block + 15
      → length block ≤ 4096
      → At bs index ((word_bytes (length block) ++ word_bytes (length bytes)) ++ bytes)
      → Inv content src dst bs index before s
      → Decodes Broken
          (λ u t. Inv content src dst bs (index + 8 + length bytes) (before ++ block) t)
          (framed_block fs src (length bs) dst original s)
  unfolding framed_block
  framed-Inv original before block bytes index s o_small fits ge sp short le at v =
      let header : List ℕ = word_bytes (length block) ++ word_bytes (length bytes) in
      let at_b : At bs (index + 8) bytes = At-right header bytes at in
      let room : ltb (length bs - s.index) 8 ≡ false =
        not_ltb (length bs - s.index) 8 (omega (arith, v.index_is, at_b.fits)) in
      let w0 : word header 0 ≡ length block = omega (arith, le) in
      let w4 : word header 4 ≡ length bytes = omega (arith, le, short) in
      rw room (
        Ensures-next
          (read_on-piece fs content Usable Broken laws src dst bs 8 index header before s small refl
            (At-left header bytes at) v)
          λ h t (e, v1).
            let z0 : (length block == 0) ≡ false = not_equal (length block) 0 (omega arith) in
            let z1 : (length bytes == 0) ≡ false =
              not_equal (length bytes) 0 (omega (arith, Spells-lt sp)) in
            let z2 : ltb (original - t.produced) (length block) ≡ false =
              not_ltb (original - t.produced) (length block) (omega (arith, v1.produced_is)) in
            let z3 : ltb (length bs - t.index) (length bytes) ≡ false =
              not_ltb (length bs - t.index) (length bytes)
                (omega (arith, v1.index_is, at_b.fits)) in
            let all = block-Inv before block bytes (index + 8) t (omega arith) sp at_b v1 in
            let p_is : length before + length block ≡ (t.produced + length block) % 2 ^ 32 =
              omega (arith, v1.produced_is) in
            let i_is : index + 8 + length bytes ≡ (t.index + length bytes) % 2 ^ 64 =
              omega (arith, v1.index_is, at_b.fits, small) in
            rw (e, w0, w4, z0, z1, z2, z3)
              (subst
                (λ p.
                  Decodes Broken
                    (λ u t'. Inv content src dst bs (index + 8 + length bytes) (before ++ block) t')
                    (decode_block fs src (length bs) dst p ((t.index + length bytes) % 2 ^ 64) t))
                p_is
                (subst
                  (λ j.
                    Decodes Broken
                      (λ u t'.
                        Inv content src dst bs (index + 8 + length bytes) (before ++ block) t')
                      (decode_block fs src (length bs) dst (length before + length block) j t))
                  i_is all)))

  -- The blocks give the text, one after the other.
  pub blocks-Inv :
      (original f : ℕ) (before text packed : List ℕ) (index : ℕ) (s : Unpacking W)
      → original < 2 ^ 32
      → length before + length text ≡ original
      → length text < f
      → Packs text packed
      → At bs index packed
      → Inv content src dst bs index before s
      → Decodes Broken
          (λ u t. Inv content src dst bs (index + length packed) (before ++ text) t)
          (decode_blocks fs src (length bs) dst f original s)
  unfolding decode_blocks
  blocks-Inv original zero before text packed index s o_small total fuel p at v =
      absurd (omega arith)
  blocks-Inv original (suc f) before text packed index s o_small total fuel no_more at v =
      let over : ltb s.produced original ≡ false =
        not_ltb s.produced original (omega (arith, v.produced_is, total)) in
      rw over (
        holds (
          subst (λ j. Inv content src dst bs j (before ++ []) s) {x = index} (omega arith)
            (subst (λ x. Inv content src dst bs index x s) (sym (append-nil before)) v)))
  blocks-Inv original (suc f) before text packed index s o_small total fuel
        (one block bytes rest more ge le sp short ps et ep) at v =
      let header : List ℕ = word_bytes (length block) ++ word_bytes (length bytes) in
      let whole = append_assoc header bytes more in
      let at1 : At bs index ((header ++ bytes) ++ more) =
        subst (λ x. At bs index x) (ep ∙ sym whole) at in
      let lt : length text ≡ length block + length rest =
        omega (arith, ap length et, length-append block rest) in
      let goes = is_less s.produced original (omega (arith, v.produced_is, total, lt, ge)) in
      rw goes (
        Ensures-next
          (framed-Inv original before block bytes index s o_small (omega (arith, total, lt)) ge sp
            short le (At-left (header ++ bytes) more at1) v)
          λ u t v1.
            let rest_at =
              subst (λ j. At bs j more) {y = index + 8 + length bytes} (omega arith)
                (At-right (header ++ bytes) more at1) in
            Ensures-weaken
              (blocks-Inv original f (before ++ block) rest more (index + 8 + length bytes) t
                o_small (omega (arith, total, lt, length-append before block))
                (omega (arith, lt, ge)) ps rest_at v1)
              (λ u' t' v2.
                subst (λ j. Inv content src dst bs j (before ++ text) t')
                  {x = index + 8 + length bytes + length more}
                  (omega (arith, ap length ep, length-append bytes more))
                  (subst (λ x. Inv content src dst bs (index + 8 + length bytes + length more) x t')
                    (append_assoc before block rest ∙ ap (λ x. before ++ x) (sym et)) v2)))
    where
      is_less : (a b : ℕ) → a < b → ltb a b ≡ true
      is_less a b h = ground arith
