-- ===== src/Lz4/Bounded.antt =====
-- kernel/kutil/lz4_pack.c: the unpacker on any archive: sequences end within their bounds.
use windoge_os.Common.{
  ℕ, zero, suc, ◌+◌, ◌-◌, ◌*◌, ◌%◌, ◌^◌, ◌≤◌, ◌<◌, ◌≡◌, ◌≢◌, false, not, ◌||◌, ◌&&◌, Option, List,
  ltb, ◌==◌, length, get_or, arith,
}
use windoge_os.Common.Step.{
  Ensures, holds, Ensures-next, Ensures-weaken, Ensures-reject, Ensures-choice,
}
use windoge_os.Lz4.Files.{Files, FileLaws}
use windoge_os.Lz4.Decode.{Unpacking, decode_match, decode_sequence, decode_sequences}
use windoge_os.Lz4.Ends.{
  Live, Lost, Live-Left, read_on-ends, extended_length-ends, copy_literals-ends, copy_match-ends,
}

module _ {W : Type 0} (fs : Files W) (content : List ℕ → W → Option (List ℕ))
    (Usable : List ℕ → Type 0) (Broken : W → Type 0) (laws : FileLaws fs content Usable Broken)
    (src dst bs : List ℕ) (apart : src ≢ dst) (small : length bs < 2 ^ 64) where
  -- The index lies between two bounds, and at most `target` bytes are produced.
  abbrev pub Within : ℕ → ℕ → ℕ → ℕ → Unpacking W → Type 0
  Within lo hi from target t =
      (lo ≤ t.index)
      × (t.index ≤ hi)
      × (from ≤ t.produced)
      × (t.produced ≤ target)
      × Live content src dst bs t

  decode_match-ends :
      (token block_start target block_end : ℕ) (s : Unpacking W)
      → target < 2 ^ 32
      → s.index ≤ block_end
      → block_end ≤ length bs
      → s.produced ≤ target
      → Live content src dst bs s
      → Ensures
          (λ u t. Within s.index block_end s.produced target t)
          (Lost Broken content src dst bs)
          (decode_match fs src (length bs) dst token block_start target block_end s)
  unfolding decode_match
  decode_match-ends token block_start target block_end s t_small here le room v =
      Ensures-reject (ltb (block_end - s.index) 2) _ (Live-Left v) λ two.
        let fits : s.index + 2 ≤ block_end = ground arith in
        Ensures-next
          (read_on-ends fs content Usable Broken laws src dst bs apart small 2 s
            (omega (arith, fits, le)) v)
          λ bytes t (len, (i1, p1, v1)).
            let off : ℕ = get_or bytes 0 0 + get_or bytes 1 0 * 2 ^ 8 in
            Ensures-reject ((off == 0) || ltb 4096 off || ltb (t.produced - block_start) off) _
              (Live-Left v1)
              λ good.
                Ensures-next
                  (extended_length-ends fs content Usable Broken laws src dst bs apart small
                    (token % 16 == 15) block_end (token % 16 + 4) t (omega (arith, i1, fits)) le v1)
                  λ match_length u (lo, hi, p2, v2).
                    Ensures-reject (ltb (target - t.produced) match_length) _ (Live-Left v2)
                      λ enough.
                        let short : t.produced + match_length ≤ target = ground (arith, p1) in
                        Ensures-weaken
                          (copy_match-ends fs content Usable Broken laws src dst bs apart small
                            match_length off u (omega (arith, p2, short, t_small)) v2)
                          (λ x u' (i3, p3, v3). (
                            omega (arith, i3, lo, i1),
                            omega (arith, i3, hi),
                            omega (arith, p3, p2, p1),
                            omega (arith, p3, p2, short),
                            v3,
                          ))

  -- A sequence reads at least its token.
  decode_sequence-ends :
      (block_start target block_end : ℕ) (s : Unpacking W)
      → target < 2 ^ 32
      → s.index < block_end
      → block_end ≤ length bs
      → s.produced ≤ target
      → Live content src dst bs s
      → Ensures
          (λ last t. Within (suc s.index) block_end s.produced target t)
          (Lost Broken content src dst bs)
          (decode_sequence fs src (length bs) dst block_start target block_end s)
  unfolding decode_sequence
  decode_sequence-ends block_start target block_end s t_small here le room v =
      Ensures-next
        (read_on-ends fs content Usable Broken laws src dst bs apart small 1 s
          (omega (arith, here, le)) v)
        λ bytes t (len, (i1, p1, v1)).
          Ensures-next
            (extended_length-ends fs content Usable Broken laws src dst bs apart small _ block_end _
              t (omega (arith, i1, here)) le v1)
            λ lits u (lo, hi, p2, v2).
              Ensures-reject (ltb (target - u.produced) lits || ltb (block_end - u.index) lits) _
                (Live-Left v2)
                λ enough.
                  let (short, fits) = both lits target u.produced block_end u.index enough in
                  Ensures-next
                    (copy_literals-ends fs content Usable Broken laws src dst bs apart small
                      (suc lits) lits u (omega arith) (omega (arith, hi, fits, le))
                      (omega (arith, p2, p1, room, short, t_small)) v2)
                    λ x t3 (i3, p3, v3).
                      let p3_le : t3.produced ≤ target = omega (arith, p3, p2, p1, room, short) in
                      let i3_le : t3.index ≤ block_end = omega (arith, i3, hi, fits) in
                      let i3_ge : suc s.index ≤ t3.index = omega (arith, i3, lo, i1) in
                      let p3_ge : s.produced ≤ t3.produced = omega (arith, p3, p2, p1) in
                      Ensures-choice (t3.produced == target) _ _
                        (λ all.
                          Ensures-reject (not (t3.index == block_end)) _ (Live-Left v3)
                            λ at_end. holds (i3_ge, i3_le, p3_ge, p3_le, v3))
                        (λ more.
                          Ensures-next
                            (decode_match-ends (get_or bytes 0 0) block_start target block_end t3
                              t_small i3_le le p3_le v3)
                            λ y t4 (lo4, hi4, from4, to4, v4). holds (
                              omega (arith, i3_ge, lo4),
                              hi4,
                              omega (arith, p3_ge, from4),
                              to4,
                              v4,
                            ))
    where
      both :
          (lits a b c d : ℕ)
          → (ltb (a - b) lits || ltb (c - d) lits) ≡ false
          → (lits ≤ a - b) × (lits ≤ c - d)
      both lits a b c d e = (ground (arith, e), ground (arith, e))

  pub decode_sequences-ends :
      (f block_start target block_end : ℕ) (s : Unpacking W)
      → target < 2 ^ 32
      → block_end - s.index < f
      → s.index ≤ block_end
      → block_end ≤ length bs
      → s.produced ≤ target
      → Live content src dst bs s
      → Ensures
          (λ u t. Within s.index block_end s.produced target t)
          (Lost Broken content src dst bs)
          (decode_sequences fs src (length bs) dst f block_start target block_end s)
  unfolding decode_sequences
  decode_sequences-ends zero block_start target block_end s t_small fuel here le room v =
      absurd (omega arith)
  decode_sequences-ends (suc f) block_start target block_end s t_small fuel here le room v =
      Ensures-choice (not (ltb s.index block_end && ltb s.produced target)) _ _
        (λ over. holds (omega arith, here, omega arith, room, v))
        (λ goes.
          let inside : s.index < block_end = before_end s.index block_end s.produced target goes in
          Ensures-next
            (decode_sequence-ends block_start target block_end s t_small inside le room v)
            λ last t (lo, hi, from, to, v1).
              Ensures-choice last _ _ (λ end. holds (omega (arith, lo), hi, from, to, v1))
                (λ more.
                  Ensures-weaken
                    (decode_sequences-ends f block_start target block_end t t_small
                      (omega (arith, lo, inside)) hi le to v1)
                    (λ u t2 (lo2, hi2, from2, to2, v2).
                      (omega (arith, lo, lo2), hi2, omega (arith, from, from2), to2, v2))))
    where
      before_end : (a b c d : ℕ) → not (ltb a b && ltb c d) ≡ false → a < b
      before_end a b c d e = ground (arith, e)
