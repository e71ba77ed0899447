-- ===== src/Lz4/Ended.antt =====
-- kernel/kutil/lz4_pack.c: the unpacker on any archive: every block ends, and so do all of them.
use windoge_os.Common.{
  ℕ, zero, suc, ◌+◌, ◌-◌, ◌%◌, ◌^◌, ◌≤◌, ◌<◌, ◌≡◌, ◌≢◌, refl, ap, Bool, true, false, not, ◌||◌,
  Option, some, List, [], ltb, ◌==◌, if◌then◌else◌, length, length-append, arith, Bool-cases, inl,
  inr,
}
use windoge_os.Common.Step.{
  Ensures, holds, rejected, Ensures-next, Ensures-weaken, Ensures-reject, Ensures-choice, pure,
}
use windoge_os.Lz4.Files.{Files, FileLaws}
use windoge_os.Lz4.Decode.{
  Unpacking, word, decode_block, framed_block, decode_blocks, decode_all, flush_output,
}
use windoge_os.Lz4.Ends.{Live, Decodes-Ensures, Lost, LiveAt, Live-Left, read_on-ends}
use windoge_os.Lz4.Output.{flush-Inv}
use windoge_os.Lz4.Filed.{empty_list}
use windoge_os.Lz4.Bounded.{decode_sequences-ends}

module _ {W : Type 0} (fs : Files W) (content : List ℕ → W → Option (List ℕ))
    (Usable : List ℕ → Type 0) (Broken : W → Type 0) (laws : FileLaws fs content Usable Broken)
    (src dst bs : List ℕ) (apart : src ≢ dst) (small : length bs < 2 ^ 64) where
  -- A block ends exactly at its end, with its bytes produced.
  decode_block-ends :
      (target block_end : ℕ) (s : Unpacking W)
      → target < 2 ^ 32
      → s.index ≤ block_end
      → block_end ≤ length bs
      → s.produced ≤ target
      → Live content src dst bs s
      → Ensures
          (λ u t. LiveAt content src dst bs block_end target t)
          (Lost Broken content src dst bs)
          (decode_block fs src (length bs) dst target block_end s)
  unfolding decode_block
  decode_block-ends target block_end s t_small here le room v =
      Ensures-next
        (decode_sequences-ends fs content Usable Broken laws src dst bs apart small
          (suc (block_end - s.index)) s.produced target block_end s t_small (omega arith) here le
          room v)
        λ u t (lo, hi, from, to, v1).
          elim (Bool-cases (not (t.produced == target) || not (t.index == block_end))) [
            | inl wrong ↦ rw wrong (rejected (Live-Left v1))
            | inr good ↦
                let (p_is, i_is) = both t.produced target t.index block_end good in
                rw good (holds (i_is, p_is, v1))
          ]
    where
      both : (a b c d : ℕ) → (not (a == b) || not (c == d)) ≡ false → (a ≡ b) × (c ≡ d)
      both a b c d e = (ground (arith, e), ground (arith, e))

  -- A block with a header produces at least one byte.
  framed_block-ends :
      (original : ℕ) (s : Unpacking W)
      → original < 2 ^ 32
      → s.index ≤ length bs
      → s.produced ≤ original
      → Live content src dst bs s
      → Ensures
          (λ u t.
            (t.index ≤ length bs)
            × (s.produced < t.produced)
            × (t.produced ≤ original)
            × Live content src dst bs t)
          (Lost Broken content src dst bs)
          (framed_block fs src (length bs) dst original s)
  unfolding framed_block
  framed_block-ends original s o_small here room v =
      Ensures-reject (ltb (length bs - s.index) 8) _ (Live-Left v) λ eight.
        let fits : s.index + 8 ≤ length bs = ground arith in
        Ensures-next (read_on-ends fs content Usable Broken laws src dst bs apart small 8 s fits v)
          λ header t (len, (i1, p1, v1)).
            let tests : Bool =
              (word header 0 == 0)
              || (word header 4 == 0)
              || ltb (original - t.produced) (word header 0)
              || ltb (length bs - t.index) (word header 4) in
            Ensures-reject tests _ (Live-Left v1) λ good.
              let (some_bytes, short, packed) =
                bounds (word header 0) (word header 4) (original - t.produced) (length bs - t.index)
                  good in
              let target : ℕ = (t.produced + word header 0) % 2 ^ 32 in
              let block_end : ℕ = (t.index + word header 4) % 2 ^ 64 in
              let target_is : target ≡ t.produced + word header 0 =
                omega (arith, p1, room, short, o_small) in
              let end_is : block_end ≡ t.index + word header 4 =
                omega (arith, i1, fits, packed, small) in
              Ensures-weaken
                (decode_block-ends target block_end t
                  (omega (arith, target_is, p1, room, short, o_small)) (omega (arith, end_is))
                  (omega (arith, end_is, i1, fits, packed)) (omega (arith, target_is)) v1)
                (λ u t2 (i2, p2, v2). (
                  omega (arith, i2, end_is, i1, fits, packed),
                  omega (arith, p2, target_is, p1, some_bytes),
                  omega (arith, p2, target_is, p1, room, short),
                  v2,
                ))
    where
      bounds :
          (a b c d : ℕ)
          → ((a == 0) || (b == 0) || ltb c a || ltb d b) ≡ false
          → (0 < a) × (a ≤ c) × (b ≤ d)
      bounds a b c d e = (ground (arith, e), ground (arith, e), ground (arith, e))

  decode_blocks-ends :
      (f original : ℕ) (s : Unpacking W)
      → original < 2 ^ 32
      → original - s.produced < f
      → s.index ≤ length bs
      → s.produced ≤ original
      → Live content src dst bs s
      → Ensures
          (λ u t. Live content src dst bs t)
          (Lost Broken content src dst bs)
          (decode_blocks fs src (length bs) dst f original s)
  unfolding decode_blocks
  decode_blocks-ends zero original s o_small fuel here room v = absurd (omega arith)
  decode_blocks-ends (suc f) original s o_small fuel here room v =
      Ensures-choice (not (ltb s.produced original)) _ _ (λ over. holds v)
        (λ goes.
          Ensures-next (framed_block-ends original s o_small here room v) λ u t (i1, more, to, v1).
            decode_blocks-ends f original t o_small (omega (arith, more, to)) i1 to v1)

  -- The destination holds so many bytes.
  abbrev pub Sized : ℕ → Unpacking W → Type 0
  Sized n t =
      (content src t.world ≡ some bs)
      × ((out : List ℕ) × (content dst t.world ≡ some out) × (length out ≡ n))

  last-ends :
      (original : ℕ) (t : Unpacking W)
      → t.produced ≡ original
      → Live content src dst bs t
      → Ensures
          (λ u t'. Sized original t')
          (Lost Broken content src dst bs)
          ((if ltb 0 (length t.pending) then flush_output fs src (length bs) dst t else pure tt t))
  last-ends original t p_is v = elim (Bool-cases (ltb 0 (length t.pending))) [
    | inl some_left ↦ rw some_left (
        Decodes-Ensures (
          Ensures-weaken
            (flush-Inv fs content Usable Broken laws src dst bs apart t.index v.out v.inv.flushed t
              v.inv.source v.inv.buffered refl v.inv.produced_is v.inv.ring v.inv.written
              v.inv.in_all)
            (λ u t' (v2, e). (
              v2.source,
              (
                _,
                v2.written,
                omega (
                  arith,
                  ap length v2.in_all,
                  length-append v2.flushed t'.pending,
                  ap length e,
                  v.inv.produced_is,
                  p_is,
                ),
              ),
            ))))
    | inr nothing ↦
        let e : t.pending ≡ [] = empty_list t.pending (ground (arith, nothing)) in
        rw nothing (
          holds (
            v.inv.source,
            (
              _,
              v.inv.written,
              omega (
                arith,
                ap length v.inv.in_all,
                length-append v.inv.flushed t.pending,
                ap length e,
                v.inv.produced_is,
                p_is,
              ),
            ),
          ))
  ]

  pub decode_all-ends :
      (framed : Bool) (original : ℕ) (s : Unpacking W)
      → original < 2 ^ 32
      → s.index ≤ length bs
      → s.produced ≡ 0
      → Live content src dst bs s
      → Ensures
          (λ u t. Sized original t)
          (Lost Broken content src dst bs)
          (decode_all fs src (length bs) dst framed original s)
  unfolding decode_all
  decode_all-ends framed original s o_small here none_yet v = Ensures-next (blocks framed) λ u t v1.
      elim (Bool-cases (not (t.produced == original) || not (t.index == length bs))) [
        | inl wrong ↦ rw wrong (rejected (Live-Left v1))
        | inr good ↦ rw good (last-ends original t (first t.produced original _ good) v1)
      ]
    where
      first : (a b : ℕ) (c : Bool) → (not (a == b) || c) ≡ false → a ≡ b
      first a b c e = ground (arith, e)

      blocks :
          (framed : Bool)
          → Ensures
              (λ u t. Live content src dst bs t)
              (Lost Broken content src dst bs)
              ((if framed
                  then decode_blocks fs src (length bs) dst (suc original) original
                  else decode_block fs src (length bs) dst original (length bs))
                s)
      blocks true =
          decode_blocks-ends (suc original) original s o_small (omega arith) here (omega arith) v
      blocks false =
          Ensures-weaken
            (decode_block-ends original (length bs) s o_small here (omega arith) (omega arith) v)
            (λ u t (i, p, v1). v1)
