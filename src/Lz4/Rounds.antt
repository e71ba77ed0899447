-- ===== src/Lz4/Rounds.antt =====
-- kernel/kutil/lz4_pack.c: the unpacker turns bytes that spell a block into the block.
use windoge_os.Common.{
  ℕ, zero, suc, ◌+◌, ◌-◌, ◌*◌, ◌/◌, ◌%◌, ◌^◌, ◌≤◌, ◌<◌, ◌≡◌, ◌≢◌, refl, sym, ap, ◌∙◌, Bool, true,
  false, not, ◌||◌, Option, List, [], ◌∷◌, ◌++◌, ltb, ◌==◌, if◌then◌else◌, length, length-append,
  length-take, take, arith, append_assoc, append-nil,
}
use mathlib.Core.Path.{subst}
use windoge_os.Common.Pieces.{At, At-left, At-right, length-slice}
use windoge_os.Common.Step.{holds, Ensures-next, pure, reject_if, ◌>>◌}
use windoge_os.Lz4.Unpack.{Decodes, Inv, read_on-piece}
use windoge_os.Lz4.Files.{Files, FileLaws}
use windoge_os.Lz4.Write.{less}
use windoge_os.Lz4.Encode.{byte_at}
use windoge_os.Lz4.Decode.{Unpacking, copy_match, decode_match, decode_sequence}
use windoge_os.Lz4.Sequence.{extension_if, token_of, match_bytes, sequence_bytes, last_bytes}
use windoge_os.Lz4.Blocks.{IsCopy, part}
use windoge_os.Lz4.Output.{output_byte-Inv}
use windoge_os.Lz4.Lengths.{extended_here, copy_literals-Inv}
use windoge_os.Lz4.Ring.{
  so_far, take-suc, take-part, not_ltb, equal, not_equal, good_offset, token_halves, ring_at,
}

module _ {W : Type 0} (fs : Files W) (content : List ℕ → W → Option (List ℕ))
    (Usable : List ℕ → Type 0) (Broken : W → Type 0) (laws : FileLaws fs content Usable Broken)
    (src dst bs : List ℕ) (apart : src ≢ dst) (small : length bs < 2 ^ 64) where
  copy_match-Inv :
      (n k ml index i off : ℕ) (before block : List ℕ) (s : Unpacking W)
      → n + k ≡ ml
      → IsCopy block i ml off
      → length before + length block < 2 ^ 32
      → Inv content src dst bs index (so_far before block (i + k)) s
      → Decodes Broken
          (λ u t. Inv content src dst bs index (so_far before block (i + ml)) t)
          (copy_match fs src (length bs) dst n off s)
  unfolding copy_match
  copy_match-Inv zero k ml index i off before block s e copy fits v = holds (
      subst (λ x. Inv content src dst bs index (so_far before block (i + x)) s) {x = k} {y = ml}
        (omega arith) v)
  copy_match-Inv (suc n) k ml index i off before block s e copy fits v =
      let byte : s.history ((s.produced + 2 ^ 32 - off) % 2 ^ 32 % 4096) ≡ byte_at block (i + k) =
        ring_at before block i k off s.history s.produced (omega (arith, copy.leaves)) fits
          v.produced_is v.ring copy.back copy.inside copy.near
        ∙ copy.repeats k (omega arith) in
      let longer : so_far before block (i + k) ++ (byte_at block (i + k) ∷ [])
          ≡ so_far before block (i + suc k) =
        append_assoc before (take (i + k) block) (byte_at block (i + k) ∷ [])
        ∙ ap (λ x. before ++ x) (take-suc (i + k) block (omega (arith, copy.leaves)))
        ∙ ap (λ m. so_far before block m) {x = suc (i + k)} {y = i + suc k} (omega arith) in
      let size = length-append before (take (i + k) block) in
      let size' = length-take (i + k) block in
      rw byte (
        Ensures-next
          (output_byte-Inv fs content Usable Broken laws src dst bs apart index
            (byte_at block (i + k)) (so_far before block (i + k)) s
            (omega (arith, size, size', fits, copy.leaves)) v)
          λ u t v'.
            copy_match-Inv n (suc k) ml index i off before block t (omega arith) copy fits
              (subst (λ x. Inv content src dst bs index x t) longer v'))

  -- A block that ends at a place of the archive.
  module _ (before block : List ℕ) (block_end : ℕ)
      (fits : length before + length block < 2 ^ 32) where
    abbrev pub target : ℕ
    target = length before + length block

    pub length-so_far :
        (a : ℕ) → a ≤ length block → length (so_far before block a) ≡ length before + a
    length-so_far a le = omega (arith, length-append before (take a block), length-take a block)

    decode_match-Inv :
        (token index i ml off : ℕ) (s : Unpacking W)
        → token % 16 ≡ less (ml - 4) 15
        → IsCopy block i ml off
        → index + length (match_bytes ml off) ≤ block_end
        → At bs index (match_bytes ml off)
        → Inv content src dst bs index (so_far before block i) s
        → Decodes Broken
            (λ u t.
              Inv content src dst bs
                (index + 2 + length (extension_if (ml - 4)))
                (so_far before block (i + ml))
                t)
            (decode_match fs src (length bs) dst token (length before) target block_end s)
    unfolding decode_match
    decode_match-Inv token index i ml off s tok copy lt at v =
        let two : List ℕ = (off % 256) ∷ (off / 256 % 256) ∷ [] in
        let ext : List ℕ = extension_if (ml - 4) in
        let room : ltb (block_end - s.index) 2 ≡ false =
          not_ltb (block_end - s.index) 2 (omega (arith, v.index_is, lt)) in
        let offset_is : off % 256 + off / 256 % 256 * 2 ^ 8 ≡ off = omega (arith, copy.near) in
        let produced_is = length-so_far i (omega (arith, copy.leaves)) in
        rw room (
          Ensures-next
            (read_on-piece fs content Usable Broken laws src dst bs 2 index two
              (so_far before block i) s small refl (At-left two ext at) v)
            λ bytes t (e, v1).
              let good : ((off == 0) || ltb 4096 off || ltb (t.produced - length before) off)
                  ≡ false =
                good_offset off (t.produced - length before) copy.back copy.near
                  (omega (arith, v1.produced_is, produced_is, copy.inside)) in
              rw (e, offset_is, good)
                (Ensures-next
                  (extended_here fs content Usable Broken laws src dst bs apart small (ml - 4) 4
                    (token % 16) (token % 16 + 4) (index + 2) block_end (so_far before block i) t
                    tok (ap (λ x. x + 4) tok) (omega (arith, copy.leaves, fits)) (omega (arith, lt))
                    (At-right two ext at) v1)
                  λ x u (ex, v2).
                    let x_is : x ≡ ml = omega (arith, ex, copy.at_least) in
                    let enough : ltb (target - t.produced) ml ≡ false =
                      not_ltb (target - t.produced) ml
                        (omega (arith, v1.produced_is, produced_is, copy.leaves)) in
                    rw (x_is, enough)
                      (copy_match-Inv ml 0 ml (index + 2 + length ext) i off before block u
                        (omega arith) copy fits
                        (subst
                          (λ m.
                            Inv content src dst bs (index + 2 + length ext) (so_far before block m)
                              u)
                          {x = i} {y = i + 0} (omega arith) v2))))

    -- The front of a sequence: its token, the literals' length and the literals.
    decode_sequence-front :
        (index a enc : ℕ) (lits behind : List ℕ) (s : Unpacking W) (Q : Bool → Unpacking W → Type 0)
        → a + length lits ≤ length block
        → take a block ++ lits ≡ take (a + length lits) block
        → index + suc (length (extension_if (length lits)) + length lits) ≤ block_end
        → At bs index
            (token_of (length lits) enc ∷ (extension_if (length lits) ++ (lits ++ behind)))
        → ((t : Unpacking W)
            → Inv content src dst bs
                (index + 1 + length (extension_if (length lits)) + length lits)
                (so_far before block (a + length lits))
                t
            → Decodes Broken Q (
                (if t.produced == target
                    then (reject_if (not (t.index == block_end)) >> pure true)
                    else (decode_match fs src
                          (length bs)
                          dst
                          (token_of (length lits) enc)
                          (length before)
                          target
                          block_end
                        >> pure false))
                  t))
        → Inv content src dst bs index (so_far before block a) s
        → Decodes Broken Q
            (decode_sequence fs src (length bs) dst (length before) target block_end s)
    unfolding decode_sequence
    decode_sequence-front index a enc lits behind s Q le whole lt at after v =
        let token : ℕ = token_of (length lits) enc in
        let ext : List ℕ = extension_if (length lits) in
        let high : token / 16 ≡ less (length lits) 15 = (token_halves (length lits) enc).0 in
        let at1 = At-right (token ∷ []) (ext ++ (lits ++ behind)) at in
        let at2 = At-right ext (lits ++ behind) at1 in
        let produced_is = length-so_far a (omega arith) in
        Ensures-next
          (read_on-piece fs content Usable Broken laws src dst bs 1 index (token ∷ [])
            (so_far before block a) s small refl (At-left (token ∷ []) (ext ++ (lits ++ behind)) at)
            v)
          λ bytes t (e, v1). rw e (
            Ensures-next
              (extended_here fs content Usable Broken laws src dst bs apart small (length lits) 0
                (token / 16) (token / 16) (index + 1) block_end (so_far before block a) t high
                (high ∙ plus_zero (less (length lits) 15)) (omega (arith, le, fits))
                (omega (arith, lt)) (At-left ext (lits ++ behind) at1) v1)
              λ x u (ex, v2).
                let x_is : x ≡ length lits = omega (arith, ex) in
                let ok1 : ltb (target - u.produced) (length lits) ≡ false =
                  not_ltb (target - u.produced) (length lits)
                    (omega (arith, v2.produced_is, produced_is, le)) in
                let ok2 : ltb (block_end - u.index) (length lits) ≡ false =
                  not_ltb (block_end - u.index) (length lits) (omega (arith, v2.index_is, lt)) in
                rw (x_is, ok1, ok2)
                  (Ensures-next
                    (copy_literals-Inv fs content Usable Broken laws src dst bs apart small
                      (suc (length lits)) (index + 1 + length ext) lits (so_far before block a) u
                      (omega arith) (omega (arith, produced_is, le, fits)) (At-left lits behind at2)
                      v2)
                    λ y t3 v3. after t3 (
                      subst
                        (λ z. Inv content src dst bs (index + 1 + length ext + length lits) z t3)
                        (append_assoc before (take a block) lits ∙ ap (λ z. before ++ z) whole)
                        v3)))
      where
        plus_zero : (n : ℕ) → n ≡ n + 0
        plus_zero n = omega arith

    -- A sequence with a match takes the block on behind the match.
    pub decode_sequence-match :
        (index a i ml off : ℕ) (s : Unpacking W)
        → a ≤ i
        → IsCopy block i ml off
        → index + length (sequence_bytes (part block a i) ml off) ≤ block_end
        → At bs index (sequence_bytes (part block a i) ml off)
        → Inv content src dst bs index (so_far before block a) s
        → Decodes Broken
            (λ b t.
              (b ≡ false)
              × Inv content src dst bs
                  (index + length (sequence_bytes (part block a i) ml off))
                  (so_far before block (i + ml))
                  t)
            (decode_sequence fs src (length bs) dst (length before) target block_end s)
    decode_sequence-match index a i ml off s le copy lt at v =
        let lits : List ℕ = part block a i in
        let ext : List ℕ = extension_if (length lits) in
        let behind : List ℕ = match_bytes ml off in
        let size : length lits ≡ i - a =
          length-slice block a (i - a) (omega (arith, copy.leaves)) in
        let i_is : a + length lits ≡ i = omega (arith, size) in
        let whole : take a block ++ lits ≡ take (a + length lits) block =
          take-part a i block le (omega (arith, copy.leaves)) ∙ ap (λ n. take n block) (sym i_is) in
        let total = length-append ext (lits ++ behind) in
        let total' = length-append lits behind in
        decode_sequence-front index a (ml - 4) lits behind s _ (omega (arith, i_is, copy.leaves))
          whole (omega (arith, lt, total, total')) at
          (λ t v'.
            let more : (t.produced == target) ≡ false = not_equal t.produced target (
              omega (
                arith,
                v'.produced_is,
                length-so_far (a + length lits) (omega (arith, i_is, copy.leaves)),
                i_is,
                copy.leaves,
              )) in
            let at' = At-right lits behind (
              At-right ext (lits ++ behind)
                (At-right (token_of (length lits) (ml - 4) ∷ []) (ext ++ (lits ++ behind)) at)) in
            rw more (
              Ensures-next
                (decode_match-Inv (token_of (length lits) (ml - 4))
                  (index + 1 + length ext + length lits) i ml off t
                  (token_halves (length lits) (ml - 4)).1 copy (omega (arith, lt, total, total'))
                  at'
                  (subst
                    (λ n.
                      Inv content src dst bs (index + 1 + length ext + length lits)
                        (so_far before block n) t)
                    i_is v'))
                λ u t2 v2. holds (
                  refl,
                  subst (λ n. Inv content src dst bs n (so_far before block (i + ml)) t2)
                      {x = index
                        + 1
                        + length ext
                        + length lits
                        + 2
                        + length (extension_if (ml - 4))}
                      (omega (arith, total, total')) v2,
                )))
          v

    -- The last sequence ends the block.
    pub decode_sequence-last :
        (index a : ℕ) (s : Unpacking W)
        → a < length block
        → index + length (last_bytes (part block a (length block))) ≡ block_end
        → At bs index (last_bytes (part block a (length block)))
        → Inv content src dst bs index (so_far before block a) s
        → Decodes Broken
            (λ b t.
              (b ≡ true) × Inv content src dst bs block_end (so_far before block (length block)) t)
            (decode_sequence fs src (length bs) dst (length before) target block_end s)
    decode_sequence-last index a s lt e at v =
        let lits : List ℕ = part block a (length block) in
        let ext : List ℕ = extension_if (length lits) in
        let size : length lits ≡ length block - a =
          length-slice block a (length block - a) (omega arith) in
        let i_is : a + length lits ≡ length block = omega (arith, size) in
        let whole : take a block ++ lits ≡ take (a + length lits) block =
          take-part a (length block) block (omega arith) (omega arith)
          ∙ ap (λ n. take n block) (sym i_is) in
        let total = length-append ext lits in
        let at' =
          subst (λ x. At bs index (token_of (length lits) 0 ∷ (ext ++ x))) (sym (append-nil lits))
            at in
        decode_sequence-front index a 0 lits [] s _ (omega (arith, i_is)) whole
          (omega (arith, e, total)) at'
          (λ t v'.
            let end : (t.produced == target) ≡ true = equal t.produced target (
              omega (
                arith,
                v'.produced_is,
                length-so_far (a + length lits) (omega (arith, i_is)),
                i_is,
              )) in
            let at_end : (t.index == block_end) ≡ true =
              equal t.index block_end (omega (arith, v'.index_is, e, total)) in
            rw (end, at_end)
              (holds (
                refl,
                subst (λ n. Inv content src dst bs n (so_far before block (length block)) t)
                    {x = index + 1 + length ext + length lits} (omega (arith, e, total))
                    (subst
                      (λ n.
                        Inv content src dst bs (index + 1 + length ext + length lits)
                          (so_far before block n) t)
                      i_is v'),
              )))
          v
