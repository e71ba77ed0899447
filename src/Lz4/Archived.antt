-- ===== src/Lz4/Archived.antt =====
-- kernel/kutil/lz4_pack.c: what `kernel_lz4_compress` writes.
use windoge_os.Common.{
  ℕ, suc, ◌*◌, ◌^◌, ◌≤◌, ◌<◌, ◌≡◌, ◌≢◌, refl, sym, ap, ◌∙◌, false, inl, inr, Option, none, some,
  List, [], ◌++◌, leb, length, length-append, arith, append-nil,
}
use windoge_os.Common.Int.{ℤ, pos}
use windoge_os.Common.Step.{Outcome, holds, rejected, Ensures-next, Ensures-weaken}
use windoge_os.Lz4.Filed.{Writes, Filed, write-Filed, flush-Filed}
use windoge_os.Lz4.Files.{Files, FileLaws, OnlyAt, FailsOr, Spoilt, not_zero}
use windoge_os.Lz4.Write.{Writer}
use windoge_os.Lz4.Archive.{word_bytes, marker, finish, pack_all, kernel_lz4_compress}
use windoge_os.Lz4.Blocked.{pack_blocks-Filed}
use windoge_os.Lz4.Streams.{Packs, no_more, one}

-- The archive of a text: its size, the marker and the blocks.
abbrev pub header_of : List ℕ → List ℕ
header_of text = word_bytes (length text) ++ marker

pub length-Packs : {text packed : List ℕ} → Packs text packed → length packed ≤ 11 * length text
length-Packs no_more = omega arith
length-Packs (one block bytes rest more ge le sp short ps et ep) = omega (
  arith,
  length-Packs ps,
  short,
  ge,
  ap length et,
  ap length ep,
  length-append block rest,
  length-append bytes more,
)

module _ {W : Type 0} (fs : Files W) (content : List ℕ → W → Option (List ℕ))
    (Usable : List ℕ → Type 0) (Broken : W → Type 0) (laws : FileLaws fs content Usable Broken)
    (src dst : List ℕ) (apart : src ≢ dst) where
  -- `kernel_lz4_compress` of a file that is there, of less than 4 GB, into a new file.
  pub record Archived (text : List ℕ) (w : W) (r : Option ℤ × W) : Type 0 where
    pub code : r.0 ≡ some (pos 0)
    pub packed : List ℕ
    pub packs : Packs text packed
    pub archive : content dst r.1 ≡ some (header_of text ++ packed)
    pub others : OnlyAt content dst w r.1

  pack_all-Writes :
      (text : List ℕ) (w : W) (b : Writer W)
      → content src w ≡ some text
      → length text < 2 ^ 32
      → Filed content dst w [] b
      → Writes Broken
          (λ u t.
            (packed : List ℕ) × Packs text packed
            × Filed content dst w (header_of text ++ packed) t
            × (t.bytes ≡ []))
          (pack_all fs src (length text) b)
  unfolding pack_all
  pack_all-Writes text w b at small v =
      Ensures-next (write-Filed fs content Usable Broken laws dst w (header_of text) [] b v)
        λ u t v1.
          Ensures-next
            (pack_blocks-Filed fs content Usable Broken laws dst w (suc (length text)) src text
              (header_of text) 0 t apart at small (omega arith) (omega arith) v1)
            λ u2 t2 (packed, ps, v2).
              Ensures-weaken
                (flush-Filed fs content Usable Broken laws dst w (header_of text ++ packed)
                  v2.flushed t2 v2.path_is v2.capacity_is v2.written v2.in_all v2.keeps)
                (λ u3 t3 (v3, e). (packed, ps, v3, e))

  finish-Archived :
      (text : List ℕ) (w : W) (r : Outcome (Unit {0}) × Writer W)
      → Writes Broken
          (λ u t.
            (packed : List ℕ) × Packs text packed
            × Filed content dst w (header_of text ++ packed) t
            × (t.bytes ≡ []))
          r
      → FailsOr
          (Spoilt fs Broken dst)
          (finish fs.delete dst (λ b. b.world) r)
          (Archived text w (finish fs.delete dst (λ b. b.world) r))
  finish-Archived text w r (rejected {s} broken) = inl (refl, inr (s.world, broken, refl))
  finish-Archived text w r (holds (packed, ps, v, no_bytes)) = inr (record {
    code = refl;
    packed = packed;
    packs = ps;
    archive =
        v.written
        ∙ ap (λ x. some x)
            (sym (append-nil v.flushed) ∙ ap (λ x. v.flushed ++ x) (sym no_bytes) ∙ v.in_all);
    others = v.keeps;
  })

  pub compress-Archived :
      (text : List ℕ) (w : W)
      → Usable dst
      → content src w ≡ some text
      → content dst w ≡ none
      → length text < 2 ^ 32
      → FailsOr
          (Spoilt fs Broken dst)
          (kernel_lz4_compress fs src (length text) dst w)
          (Archived text w (kernel_lz4_compress fs src (length text) dst w))
  unfolding kernel_lz4_compress
  compress-Archived text w usable at free small =
      let fits : leb (2 ^ 32) (length text) ≡ false = ground arith in
      elim (laws.create_done dst w usable free) [
        | inr (bad, broken) ↦ rw (fits, not_zero _ bad) (inl (refl, inl broken))
        | inl (ok, empty) ↦
            let start : Filed content dst w [] (record {
              path = some dst;
              bytes = [];
              capacity = 65536;
              world = (fs.create dst w).1;
            }) =
              record {
                path_is = refl;
                capacity_is = refl;
                not_full = omega arith;
                flushed = [];
                written = empty;
                in_all = refl;
                keeps = laws.create_others dst w usable;
              } in
            rw (fits, ok) (finish-Archived text w _ (pack_all-Writes text w _ at small start))
      ]
