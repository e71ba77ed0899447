-- ===== src/Lz4/Restored.antt =====
-- kernel/kutil/lz4_pack.c: what `kernel_lz4_decompress` makes of an archive.
use windoge_os.Common.{
  ℕ, suc, ◌+◌, ◌-◌, ◌^◌, ◌<◌, ◌≡◌, ◌≢◌, refl, sym, ap, ◌∙◌, true, false, Option, none, some, List,
  [], ◌++◌, ltb, ◌==◌, if◌then◌else◌, length, take, drop, arith, Bool-cases, inl, inr, append-nil,
}
use windoge_os.Common.Int.{ℤ, pos}
use mathlib.Core.Path.{subst}
use windoge_os.Common.Pieces.{At, At-left, At-right, At-whole}
use windoge_os.Common.Step.{
  Outcome, done, rejected, Ensures-done, Ensures-both, holds, Ensures-next, Ensures-weaken, pure,
}
use windoge_os.Lz4.Unpack.{Decodes, Inv}
use windoge_os.Lz4.Files.{Files, FileLaws, FailsOr, Spoilt, not_zero}
use windoge_os.Lz4.Decode.{Unpacking, word, lz4_read_at, flush_output, decode_all}
use windoge_os.Lz4.Archive.{
  word_bytes, marker, is_marker, finish, unpack_body, unpack_header, kernel_lz4_decompress,
}
use windoge_os.Lz4.Filed.{empty_list}
use windoge_os.Lz4.Header.{AtStart, read_marker-buffered, read_first-AtStart}
use windoge_os.Lz4.Output.{flush-Inv}
use windoge_os.Lz4.Ring.{equal, not_equal, not_ltb}
use windoge_os.Lz4.Streams.{Packs, blocks-Inv}
use windoge_os.Lz4.Archived.{header_of, length-Packs}
use windoge_os.Lz4.Begun.{Fresh, read_first, start-Fresh, read_marker_done, start-Inv}

module _ {W : Type 0} (fs : Files W) (content : List ℕ → W → Option (List ℕ))
    (Usable : List ℕ → Type 0) (Broken : W → Type 0) (laws : FileLaws fs content Usable Broken)
    (src dst : List ℕ) (apart : src ≢ dst) where
  module _ (bs : List ℕ) where
    -- All blocks, and the bytes that are still pending.
    decode_all-Decodes :
        (text packed : List ℕ) (s : Unpacking W)
        → length text < 2 ^ 32
        → length bs < 2 ^ 64
        → 8 + length packed ≡ length bs
        → Packs text packed
        → At bs 8 packed
        → Inv content src dst bs 8 [] s
        → Decodes Broken
            (λ u t. content dst t.world ≡ some text)
            (decode_all fs src (length bs) dst true (length text) s)
    unfolding decode_all
    decode_all-Decodes text packed s t_small b_small size ps at v =
        Ensures-next
          (blocks-Inv fs content Usable Broken laws src dst bs apart b_small (length text)
            (suc (length text)) [] text packed 8 s t_small (omega arith) (omega arith) ps at v)
          λ u t v1.
            let e1 : (t.produced == length text) ≡ true =
              equal t.produced (length text) v1.produced_is in
            let e2 : (t.index == length bs) ≡ true =
              equal t.index (length bs) (v1.index_is ∙ size) in
            rw (e1, e2) (last t v1)
      where
        last :
            (t : Unpacking W)
            → Inv content src dst bs (8 + length packed) text t
            → Decodes Broken
                (λ u t'. content dst t'.world ≡ some text)
                (if ltb 0 (length t.pending)
                  then flush_output fs src (length bs) dst t
                  else pure tt t)
        last t v1 = elim (Bool-cases (ltb 0 (length t.pending))) [
          | inl some_left ↦ rw some_left (
              Ensures-weaken
                (flush-Inv fs content Usable Broken laws src dst bs apart (8 + length packed) text
                  v1.flushed t v1.source v1.buffered v1.index_is v1.produced_is v1.ring v1.written
                  v1.in_all)
                (λ u t' (v2, e).
                  v2.written
                  ∙ ap (λ x. some x)
                      (sym (append-nil v2.flushed)
                        ∙ ap (λ x. v2.flushed ++ x) (sym e)
                        ∙ v2.in_all)))
          | inr nothing ↦
              let e : t.pending ≡ [] = empty_list t.pending (ground (arith, nothing)) in
              rw nothing (
                holds (
                  v1.written
                  ∙ ap (λ x. some x)
                      (sym (append-nil v1.flushed)
                        ∙ ap (λ x. v1.flushed ++ x) (sym e)
                        ∙ v1.in_all)))
        ]

  -- What unpacking has done.
  pub record Unpacked (text : List ℕ) (r : Option ℤ × W) : Type 0 where
    pub code : r.0 ≡ some (pos 0)
    pub file : content dst r.1 ≡ some text

  finish-Unpacked :
      (text : List ℕ) (r : Outcome (Unit {0}) × Unpacking W)
      → Decodes Broken (λ u t. content dst t.world ≡ some text) r
      → FailsOr
          (Spoilt fs Broken dst)
          (finish fs.delete dst (λ t. t.world) r)
          (Unpacked text (finish fs.delete dst (λ t. t.world) r))
  finish-Unpacked text r (rejected {s} broken) = inl (refl, inr (s.world, broken, refl))
  finish-Unpacked text r (holds file) = inr (record { code = refl; file = file })

  -- The result of the body, -1 and a broken state included.
  abbrev pub Given : List ℕ → Option ℤ × W → Type 0
  Given text r = FailsOr (Spoilt fs Broken dst) r (Unpacked text r)

  -- The body for a text that is not empty.
  blocks-Unpacked :
      (bs text packed : List ℕ) (t : Unpacking W)
      → Usable dst
      → 0 < length text
      → length text < 2 ^ 32
      → 8 + length packed ≡ length bs
      → Packs text packed
      → At bs 8 packed
      → Fresh content src dst bs t
      → Given text (unpack_body fs src (length bs) dst (length text) (true, t))
  unfolding unpack_body
  blocks-Unpacked bs text packed t usable some_text small size ps at v =
      let is_long : (length text == 0) ≡ false = not_equal (length text) 0 (omega arith) in
      elim (laws.create_done dst t.world usable v.absent) [
        | inr (bad, broken) ↦ rw (is_long, not_zero _ bad) (inl (refl, inl broken))
        | inl (ok, empty) ↦
            rw (is_long, ok)
              (finish-Unpacked text _ (
                decode_all-Decodes bs text packed
                  (record t { index = 8; world = (fs.create dst t.world).1 }) small
                  (omega (arith, size, small, length-Packs ps)) size ps at
                  (start-Inv fs content Usable Broken laws src dst apart bs t 8 usable empty v)))
      ]

  empty-Unpacked :
      (bs text : List ℕ) (t : Unpacking W)
      → Usable dst
      → text ≡ []
      → length bs ≡ 8
      → Fresh content src dst bs t
      → Given text (unpack_body fs src (length bs) dst (length text) (true, t))
  unfolding unpack_body
  empty-Unpacked bs text t usable e size v = elim (laws.create_done dst t.world usable v.absent) [
    | inr (bad, broken) ↦ rw (e, size, not_zero _ bad) (inl (refl, inl broken))
    | inl (ok, empty) ↦ rw (e, size, ok) (inr (record { code = refl; file = empty }))
  ]

  body-Unpacked :
      (bs text packed : List ℕ) (t : Unpacking W)
      → Usable dst
      → length text < 2 ^ 32
      → 8 + length packed ≡ length bs
      → Packs text packed
      → At bs 8 packed
      → Fresh content src dst bs t
      → Given text (unpack_body fs src (length bs) dst (length text) (true, t))
  body-Unpacked bs text packed t usable small size ps at v = elim (Bool-cases (length text == 0)) [
    | inl is_empty ↦
        empty-Unpacked bs text t usable (empty_list text is_empty)
          (omega (arith, size, length-Packs ps, ap length (empty_list text is_empty))) v
    | inr more ↦ blocks-Unpacked bs text packed t usable (ground (arith, more)) small size ps at v
  ]

  -- Behind the first read.
  after_size-Unpacked :
      (bs text packed : List ℕ) (r : Outcome (List ℕ) × Unpacking W)
      → Usable dst
      → length text < 2 ^ 32
      → 8 + length packed ≡ length bs
      → Packs text packed
      → At bs 4 marker
      → At bs 8 packed
      → Decodes Broken
          (λ a s.
            ((a ≡ word_bytes (length text)) × Fresh content src dst bs s) × AtStart (length bs) s)
          r
      → Given text (unpack_header fs src (length bs) dst r)
  unfolding unpack_header
  after_size-Unpacked bs text packed r usable small size ps at4 at8 (rejected broken) =
      inl (refl, inl broken)
  after_size-Unpacked bs text packed r usable small size ps at4 at8
        (holds {a} {s} ((er, v), start)) =
      let m : List ℕ = take 4 (drop (4 - s.start) s.buffer) in
      let em : lz4_read_at fs src (length bs) dst 4 4 s ≡ (done m, s) =
        read_marker-buffered fs src dst (length bs) s (omega (arith, size)) start in
      let (ek, v') = Ensures-done (
        subst (Decodes Broken (λ r t. (r ≡ marker) × Fresh content src dst bs t)) em
          (read_first fs content Usable Broken laws src dst apart bs 4 marker s at4 v)) in
      let size_is : word (word_bytes (length text)) 0 ≡ length text = omega (arith, small) in
      let framed =
        read_marker_done fs content Usable Broken laws src dst apart bs s m s (omega (arith, size))
          em
        ∙ ap (λ x. (is_marker x, s)) ek in
      rw (er, size_is, framed) (body-Unpacked bs text packed s usable small size ps at8 v')

  header-Unpacked :
      (bs text packed : List ℕ) (history : ℕ → ℕ) (w : W)
      → Usable dst
      → content src w ≡ some bs
      → content dst w ≡ none
      → length text < 2 ^ 32
      → 8 + length packed ≡ length bs
      → Packs text packed
      → At bs 0 (word_bytes (length text))
      → At bs 4 marker
      → At bs 8 packed
      → Given text (kernel_lz4_decompress fs history src (length bs) dst w)
  unfolding kernel_lz4_decompress
  header-Unpacked bs text packed history w usable at free small size ps at0 at4 at8 =
      let enough : ltb (length bs) 4 ≡ false = not_ltb (length bs) 4 (omega (arith, size)) in
      rw enough (
        after_size-Unpacked bs text packed _ usable small size ps at4 at8 (
          Ensures-both
            (read_first fs content Usable Broken laws src dst apart bs 0 (word_bytes (length text))
              _ at0 (start-Fresh fs content Usable Broken laws src dst apart bs history w at free))
            (read_first-AtStart fs content Usable Broken laws src dst bs _ (omega (arith, size))
              refl at)))

  pub decompress-Unpacked :
      (text packed : List ℕ) (history : ℕ → ℕ) (w : W)
      → Usable dst
      → content src w ≡ some (header_of text ++ packed)
      → content dst w ≡ none
      → length text < 2 ^ 32
      → Packs text packed
      → Given text (kernel_lz4_decompress fs history src (length (header_of text ++ packed)) dst w)
  decompress-Unpacked text packed history w usable at free small ps =
      header-Unpacked (header_of text ++ packed) text packed history w usable at free small
        (omega arith) ps
        (At-left (word_bytes (length text)) (marker ++ packed)
          (At-whole [] (header_of text ++ packed)))
        (At-left marker packed (
          At-right (word_bytes (length text)) (marker ++ packed)
            (At-whole [] (header_of text ++ packed))))
        (At-right (header_of text) packed (At-whole [] (header_of text ++ packed)))
