-- ===== src/Lz4/Output.antt =====
-- kernel/kutil/lz4_pack.c: the writing half of the unpacker: bytes go to the ring, and to the
-- destination by way of the pending bytes.
use windoge_os.Common.{
  ℕ, ◌+◌, ◌%◌, ◌^◌, ◌≤◌, ◌<◌, ◌≡◌, ◌≢◌, refl, sym, ap, ◌∙◌, true, false, Option, some, List, [],
  ◌∷◌, ◌++◌, ◌==◌, if◌then◌else◌, length, length-append, get_or, arith, Bool-cases, inl, inr,
  append_assoc, append-nil,
}
use mathlib.Core.Path.{subst}
use native.Mathlib.Decide.{ℕ_discrete}
use windoge_os.Common.Pieces.{get_or-append_left, get_or-append_right}
use windoge_os.Common.Step.{holds, rejected, Ensures-next, Ensures-weaken}
use windoge_os.Lz4.Unpack.{Decodes, Inv}
use windoge_os.Lz4.Files.{Files, FileLaws, not_zero}
use windoge_os.Lz4.Decode.{Unpacking, flush_output, lz4_output_byte, output_bytes}

module _ {W : Type 0} (fs : Files W) (content : List ℕ → W → Option (List ℕ))
    (Usable : List ℕ → Type 0) (Broken : W → Type 0) (laws : FileLaws fs content Usable Broken)
    (src dst bs : List ℕ) (apart : src ≢ dst) where
  -- Bytes that are pending go to the destination.
  pub flush-Inv :
      (i : ℕ) (out flushed : List ℕ) (s : Unpacking W)
      → content src s.world ≡ some bs
      → ((j : ℕ) → j < length s.buffer → get_or s.buffer j 0 ≡ get_or bs (s.start + j) 0)
      → s.index ≡ i
      → s.produced ≡ length out
      → ((j : ℕ) → j < length out → length out ≤ j + 4096 → s.history (j % 4096) ≡ get_or out j 0)
      → content dst s.world ≡ some flushed
      → flushed ++ s.pending ≡ out
      → Decodes Broken
          (λ u t. Inv content src dst bs i out t × (t.pending ≡ []))
          (flush_output fs src (length bs) dst s)
  flush-Inv i out flushed s source buffered ei en ring written all =
      elim (laws.append_done dst s.pending s.world flushed written) [
        | inr (bad, broken) ↦ rw (not_zero _ bad) (rejected broken)
        | inl (ok, appended) ↦ rw ok (
            holds (
              record {
                source =
                    laws.append_others dst s.pending s.world flushed written src apart ∙ source;
                buffered = buffered;
                index_is = ei;
                produced_is = en;
                ring = ring;
                flushed = flushed ++ s.pending;
                written = appended;
                in_all = append-nil (flushed ++ s.pending) ∙ all;
                not_full = omega arith;
              },
              refl,
            ))
      ]

  ring_next :
      (out : List ℕ) (v : ℕ) (history : ℕ → ℕ) (produced j : ℕ)
      → produced ≡ length out
      → ((j : ℕ) → j < length out → length out ≤ j + 4096 → history (j % 4096) ≡ get_or out j 0)
      → j < length (out ++ (v ∷ []))
      → length (out ++ (v ∷ [])) ≤ j + 4096
      → (if produced % 4096 == j % 4096 then v else history (j % 4096))
        ≡ get_or (out ++ (v ∷ [])) j 0
  ring_next out v history produced j en ring lt near = elim (ℕ_discrete j (length out)) [
    | yes e ↦
        let here : (produced % 4096 == j % 4096) ≡ true =
          ground (arith, ap (λ k. k % 4096) (en ∙ sym e)) in
        rw here (
          sym (
            ap (λ k. get_or (out ++ (v ∷ [])) k 0) {x = j} {y = length out + 0} (omega arith)
            ∙ get_or-append_right out (v ∷ []) 0))
    | no ne ↦
        let before : j < length out = omega (arith, length-append out (v ∷ [])) in
        let other : (produced % 4096 == j % 4096) ≡ false =
          ground (arith, apart_in_ring (omega (arith, length-append out (v ∷ []))) before) in
        rw other (
          ring j before (omega (arith, length-append out (v ∷ [])))
          ∙ sym (get_or-append_left out (v ∷ []) j before))
  ]
    where
      apart_in_ring : length out < j + 4096 → j < length out → produced % 4096 ≢ j % 4096
      apart_in_ring h before e = omega arith

  pub output_byte-Inv :
      (i v : ℕ) (out : List ℕ) (s : Unpacking W)
      → length out + 1 < 2 ^ 32
      → Inv content src dst bs i out s
      → Decodes Broken
          (λ u t. Inv content src dst bs i (out ++ (v ∷ [])) t)
          (lz4_output_byte fs src (length bs) dst v s)
  unfolding lz4_output_byte
  output_byte-Inv i v out s small inv =
      let size : (s.produced + 1) % 2 ^ 32 ≡ length (out ++ (v ∷ [])) =
        omega (arith, inv.produced_is, length-append out (v ∷ [])) in
      let all : inv.flushed ++ (s.pending ++ (v ∷ [])) ≡ out ++ (v ∷ []) =
        sym (append_assoc inv.flushed s.pending (v ∷ [])) ∙ ap (λ x. x ++ (v ∷ [])) inv.in_all in
      let ring' = λ (j : ℕ). ring_next out v s.history s.produced j inv.produced_is inv.ring in
      elim (Bool-cases (length (s.pending ++ (v ∷ [])) == 65536)) [
        | inl full ↦ rw full (
            Ensures-weaken
              (flush-Inv i (out ++ (v ∷ [])) inv.flushed _ inv.source inv.buffered inv.index_is size
                ring' inv.written all)
              (λ u t h. h.0))
        | inr free ↦ rw free (
            holds (record {
              source = inv.source;
              buffered = inv.buffered;
              index_is = inv.index_is;
              produced_is = size;
              ring = ring';
              flushed = inv.flushed;
              written = inv.written;
              in_all = all;
              not_full = ground (arith, inv.not_full, length-append s.pending (v ∷ []));
            }))
      ]

  pub output_bytes-Inv :
      (i : ℕ) (bytes out : List ℕ) (s : Unpacking W)
      → length out + length bytes < 2 ^ 32
      → Inv content src dst bs i out s
      → Decodes Broken
          (λ u t. Inv content src dst bs i (out ++ bytes) t)
          (output_bytes fs src (length bs) dst bytes s)
  unfolding output_bytes
  output_bytes-Inv i [] out s small inv =
      holds (subst (λ x. Inv content src dst bs i x s) (sym (append-nil out)) inv)
  output_bytes-Inv i (b ∷ bytes) out s small inv =
      Ensures-next (output_byte-Inv i b out s (omega arith) inv) λ u t inv'.
        subst
          (λ x.
            Decodes Broken (λ u t. Inv content src dst bs i x t)
              (output_bytes fs src (length bs) dst bytes t))
          (append_assoc out (b ∷ []) bytes)
          (output_bytes-Inv i bytes (out ++ (b ∷ [])) t (omega (arith, length-append out (b ∷ [])))
            inv')
