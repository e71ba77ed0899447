-- ===== src/Lz4/Ends.antt =====
-- kernel/kutil/lz4_pack.c: the unpacker on any archive: reading, lengths, literals and matches end.
use windoge_os.Common.{
  ℕ, zero, suc, ◌+◌, ◌-◌, ◌%◌, ◌^◌, ◌≤◌, ◌<◌, ◌≡◌, ◌≢◌, refl, sym, ◌∙◌, Bool, true, false, Option,
  some, List, [], ◌∷◌, ltb, leb, ◌==◌, length, length-append, length-take, length-drop, take, drop,
  get_or, arith, Bool-cases, inl, inr,
}
use mathlib.Core.Path.{subst}
use windoge_os.Common.Step.{
  Outcome, Ensures, Ensures-fails, holds, rejected, Ensures-next, Ensures-weaken, Ensures-reject,
  Ensures-choice,
}
use windoge_os.Lz4.Files.{Files, FileLaws}
use windoge_os.Lz4.Write.{less}
use windoge_os.Lz4.Decode.{
  Unpacking, outside, read_loop, lz4_read_at, read_on, lz4_read_length, extended_length,
  copy_literals, copy_match,
}
use windoge_os.Lz4.Unpack.{Inv, Decodes, Inv-moved, refill_if-Ready, advance-Inv}
use windoge_os.Lz4.Output.{output_bytes-Inv, output_byte-Inv}

-- The unpacker has produced something, and the destination holds what is not pending of it.
pub record Live {W : Type 0} (content : List ℕ → W → Option (List ℕ)) (src dst bs : List ℕ)
    (s : Unpacking W) : Type 0 where
  pub out : List ℕ
  pub inv : Inv content src dst bs s.index out s

-- What is left behind by a failure: the archive, and a destination to be deleted.
pub record Left {W : Type 0} (content : List ℕ → W → Option (List ℕ)) (src dst bs : List ℕ)
    (s : Unpacking W) : Type 0 where
  pub source : content src s.world ≡ some bs
  pub partial : List ℕ
  pub begun : content dst s.world ≡ some partial

-- That, or a broken state.
pub data Lost {W : Type 0} (Broken : W → Type 0) (content : List ℕ → W → Option (List ℕ))
    (src dst bs : List ℕ) (s : Unpacking W) : Type 0 where
  kept : Left content src dst bs s → Lost Broken content src dst bs s
  spoilt : Broken s.world → Lost Broken content src dst bs s

module _ {W : Type 0} (content : List ℕ → W → Option (List ℕ)) (src dst bs : List ℕ) where
  -- Live, at this index and with so many bytes produced.
  abbrev pub LiveAt : ℕ → ℕ → Unpacking W → Type 0
  LiveAt i p s = (s.index ≡ i) × (s.produced ≡ p) × Live content src dst bs s

  -- Live, with the index between two bounds.
  abbrev pub Forward : ℕ → ℕ → ℕ → Unpacking W → Type 0
  Forward lo hi p t = (lo ≤ t.index) × (t.index ≤ hi) × (t.produced ≡ p) × Live content src dst bs t

module _ {W : Type 0} {content : List ℕ → W → Option (List ℕ)} {src dst bs : List ℕ}
    {s : Unpacking W} where
  Inv-LiveAt :
      {i p : ℕ} {out : List ℕ}
      → length out ≡ p
      → Inv content src dst bs i out s
      → LiveAt content src dst bs i p s
  Inv-LiveAt {i} {p} {out} e v = (
    v.index_is,
    v.produced_is ∙ e,
    record { out = out; inv = subst (λ j. Inv content src dst bs j out s) (sym v.index_is) v },
  )

module _ {W : Type 0} {Broken : W → Type 0} {content : List ℕ → W → Option (List ℕ)}
    {src dst bs : List ℕ} where
  Inv-Left :
      {i : ℕ} {out : List ℕ} {s : Unpacking W}
      → Inv content src dst bs i out s
      → Lost Broken content src dst bs s
  Inv-Left v = kept (record { source = v.source; partial = v.flushed; begun = v.written })

  -- A failure of the file system among the others.
  pub Decodes-Ensures :
      {A : Type 0} {P : A → Unpacking W → Type 0} {r : Outcome A × Unpacking W}
      → Decodes Broken P r
      → Ensures P (Lost Broken content src dst bs) r
  Decodes-Ensures h = Ensures-fails h (λ s b. spoilt b)

  pub Live-Left : {s : Unpacking W} → Live content src dst bs s → Lost Broken content src dst bs s
  Live-Left v = Inv-Left v.inv

module _ {W : Type 0} (fs : Files W) (content : List ℕ → W → Option (List ℕ))
    (Usable : List ℕ → Type 0) (Broken : W → Type 0) (laws : FileLaws fs content Usable Broken)
    (src dst bs : List ℕ) (apart : src ≢ dst) (small : length bs < 2 ^ 64) where
  read_loop-ends :
      (f offset n i : ℕ) (out : List ℕ) (s : Unpacking W)
      → n < f
      → Inv content src dst bs i out s
      → Ensures
          (λ r t. (length r ≡ n) × Inv content src dst bs i out t)
          (Lost Broken content src dst bs)
          (read_loop fs src (length bs) dst f offset n s)
  unfolding read_loop
  read_loop-ends zero offset n i out s fuel v = absurd (omega arith)
  read_loop-ends (suc f) offset zero i out s fuel v = holds (refl, v)
  read_loop-ends (suc f) offset (suc n) i out s fuel v =
      elim (Bool-cases (leb (length bs) offset)) [
        | inl beyond ↦ rw beyond (rejected (Inv-Left v))
        | inr inside ↦ rw inside (
            Ensures-next
              (Decodes-Ensures (
                refill_if-Ready fs content Usable Broken laws src dst bs
                  (Inv content src dst bs i out)
                  (Inv-moved fs content Usable Broken laws src dst bs i out) (λ s v. v.source)
                  (λ s v. v.buffered) (outside fs src (length bs) dst offset s) offset s refl
                  (ground arith) v))
              λ u t (v', r).
                let bytes : List ℕ = take (suc n) (drop (offset - t.start) t.buffer) in
                let size = length-take (suc n) (drop (offset - t.start) t.buffer) in
                let size' = length-drop (offset - t.start) t.buffer in
                Ensures-next
                  (read_loop-ends f (offset + length bytes) (suc n - length bytes) i out t
                    (omega (arith, size, size', r.0, r.1)) v')
                  λ more t' (len, v'').
                    holds (omega (arith, len, length-append bytes more, size), v''))
      ]

  -- A read at the index that stays within the archive.
  pub read_on-ends :
      (n : ℕ) (s : Unpacking W)
      → s.index + n ≤ length bs
      → Live content src dst bs s
      → Ensures
          (λ r t. (length r ≡ n) × LiveAt content src dst bs (s.index + n) s.produced t)
          (Lost Broken content src dst bs)
          (read_on fs src (length bs) dst n s)
  unfolding lz4_read_at
  read_on-ends n s fits v =
      Ensures-next (read_loop-ends (suc n) s.index n s.index v.out s (omega arith) v.inv)
        λ r t (len, v'). holds (
          len,
          Inv-LiveAt (sym v.inv.produced_is) (
              advance-Inv fs content Usable Broken laws src dst bs n s.index v.out t small fits v'),
        )

  read_length-ends :
      (f limit total : ℕ) (s : Unpacking W)
      → limit - s.index < f
      → limit ≤ length bs
      → Live content src dst bs s
      → Ensures
          (λ v t. Forward content src dst bs s.index limit s.produced t)
          (Lost Broken content src dst bs)
          (lz4_read_length fs src (length bs) dst f limit total s)
  unfolding lz4_read_length
  read_length-ends zero limit total s fuel le v = absurd (omega arith)
  read_length-ends (suc f) limit total s fuel le v =
      Ensures-reject (leb limit s.index) _ (Live-Left v) λ inside.
        let lt : s.index < limit = ground arith in
        Ensures-next (read_on-ends 1 s (omega (arith, lt, le)) v) λ bytes t (len, (i_is, p_is, v')).
          Ensures-reject (ltb (2 ^ 64 - 1 - total) (get_or bytes 0 0)) _ (Live-Left v') λ fits.
            Ensures-choice (get_or bytes 0 0 == 255) _ _
              (λ more.
                Ensures-weaken
                  (read_length-ends f limit (total + get_or bytes 0 0) t (omega (arith, i_is, lt))
                    le v')
                  (λ x u (lo, hi, e, v''). (omega (arith, lo, i_is), hi, e ∙ p_is, v'')))
              (λ last. holds (omega (arith, i_is), omega (arith, i_is, lt), p_is, v'))

  pub extended_length-ends :
      (b : Bool) (limit total : ℕ) (s : Unpacking W)
      → s.index ≤ limit
      → limit ≤ length bs
      → Live content src dst bs s
      → Ensures
          (λ v t. Forward content src dst bs s.index limit s.produced t)
          (Lost Broken content src dst bs)
          (extended_length fs src (length bs) dst b limit total s)
  unfolding extended_length
  extended_length-ends false limit total s here le v = holds (omega arith, here, refl, v)
  extended_length-ends true limit total s here le v =
      read_length-ends (suc (limit - s.index)) limit total s (omega arith) le v

  pub copy_literals-ends :
      (f n : ℕ) (s : Unpacking W)
      → n < f
      → s.index + n ≤ length bs
      → s.produced + n < 2 ^ 32
      → Live content src dst bs s
      → Ensures
          (λ u t. LiveAt content src dst bs (s.index + n) (s.produced + n) t)
          (Lost Broken content src dst bs)
          (copy_literals fs src (length bs) dst f n s)
  unfolding copy_literals
  copy_literals-ends zero n s fuel fits room v = absurd (omega arith)
  copy_literals-ends (suc f) zero s fuel fits room v = holds (omega arith, omega arith, v)
  copy_literals-ends (suc f) (suc n) s fuel fits room v =
      let k : ℕ = less (suc n) 512 in
      let k_le : k ≤ suc n = ground arith in
      let k_pos : 0 < k = ground arith in
      Ensures-next (read_on-ends k s (omega (arith, k_le)) v) λ bytes t (len, (i_is, p_is, v')).
        Ensures-next
          (Decodes-Ensures (
            output_bytes-Inv fs content Usable Broken laws src dst bs apart t.index bytes v'.out t
              (omega (arith, len, p_is, k_le, v'.inv.produced_is)) v'.inv))
          λ u t2 v2.
            let (i2, p2, live2) =
              Inv-LiveAt {p = s.produced + k}
                (omega (arith, length-append v'.out bytes, len, p_is, v'.inv.produced_is)) v2 in
            Ensures-weaken
              (copy_literals-ends f (suc n - k) t2 (omega (arith, k_pos))
                (omega (arith, i2, i_is, k_le)) (omega (arith, p2, k_le)) live2)
              (λ u' t3 (i3, p3, live3).
                (omega (arith, i3, i2, i_is, k_le), omega (arith, p3, p2, k_le), live3))

  pub copy_match-ends :
      (n match_offset : ℕ) (s : Unpacking W)
      → s.produced + n < 2 ^ 32
      → Live content src dst bs s
      → Ensures
          (λ u t. LiveAt content src dst bs s.index (s.produced + n) t)
          (Lost Broken content src dst bs)
          (copy_match fs src (length bs) dst n match_offset s)
  unfolding copy_match
  copy_match-ends zero match_offset s room v = holds (refl, omega arith, v)
  copy_match-ends (suc n) match_offset s room v =
      Ensures-next
        (Decodes-Ensures (
          output_byte-Inv fs content Usable Broken laws src dst bs apart s.index
            (s.history ((s.produced + 2 ^ 32 - match_offset) % 2 ^ 32 % 4096)) v.out s
            (omega (arith, v.inv.produced_is)) v.inv))
        λ u t v1.
          let (i1, p1, live1) =
            Inv-LiveAt {p = s.produced + 1}
              (omega (
                arith,
                length-append v.out
                    (s.history ((s.produced + 2 ^ 32 - match_offset) % 2 ^ 32 % 4096) ∷ []),
                v.inv.produced_is,
              ))
              v1 in
          Ensures-weaken (copy_match-ends n match_offset t (omega (arith, p1)) live1)
            (λ u' t2 (i2, p2, live2). (i2 ∙ i1, omega (arith, p2, p1), live2))
