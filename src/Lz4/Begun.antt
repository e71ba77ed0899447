-- ===== src/Lz4/Begun.antt =====
-- kernel/kutil/lz4_pack.c: the unpacker in front of the blocks of an archive.
use windoge_os.Common.{
  ℕ, ◌+◌, ◌-◌, ◌^◌, ◌≤◌, ◌<◌, ◌≡◌, ◌≢◌, refl, ap, ◌∙◌, true, Option, none, some, List, [], leb,
  length, get_or, arith,
}
use windoge_os.Common.Pieces.{At}
use windoge_os.Common.Step.{done}
use windoge_os.Lz4.Unpack.{Decodes, Inv, read_bytes_kept}
use windoge_os.Lz4.Files.{Files, FileLaws}
use windoge_os.Lz4.Decode.{Unpacking, lz4_read_at}
use windoge_os.Lz4.Archive.{is_marker, read_marker}

-- The unpacker has read parts of the header, and the destination is not there yet.
pub record Fresh {W : Type 0} (content : List ℕ → W → Option (List ℕ)) (src dst bs : List ℕ)
    (s : Unpacking W) : Type 0 where
  pub source : content src s.world ≡ some bs
  pub absent : content dst s.world ≡ none
  pub buffered : (j : ℕ) → j < length s.buffer → get_or s.buffer j 0 ≡ get_or bs (s.start + j) 0
  pub no_output : s.produced ≡ 0
  pub no_pending : s.pending ≡ []

module _ {W : Type 0} (fs : Files W) (content : List ℕ → W → Option (List ℕ))
    (Usable : List ℕ → Type 0) (Broken : W → Type 0) (laws : FileLaws fs content Usable Broken)
    (src dst : List ℕ) (apart : src ≢ dst) where
  module _ (bs : List ℕ) where
    pub read_first :
        (offset : ℕ) (piece : List ℕ) (s : Unpacking W)
        → At bs offset piece
        → Fresh content src dst bs s
        → Decodes Broken
            (λ r t. (r ≡ piece) × Fresh content src dst bs t)
            (lz4_read_at fs src (length bs) dst offset (length piece) s)
    read_first offset piece s at v =
        read_bytes_kept fs content Usable Broken laws src dst bs (Fresh content src dst bs)
          (λ s t same buffered ei eh ep en v. record {
            source = same src ∙ v.source;
            absent = same dst ∙ v.absent;
            buffered = buffered;
            no_output = en ∙ v.no_output;
            no_pending = ep ∙ v.no_pending;
          })
          (λ s v. v.source) (λ s v. v.buffered) offset piece s at v

  -- The unpacker as it starts.
  pub start-Fresh :
      (bs : List ℕ) (history : ℕ → ℕ) (w : W)
      → content src w ≡ some bs
      → content dst w ≡ none
      → Fresh content src dst bs (record {
        start = 2 ^ 64 - 1;
        buffer = [];
        index = 0;
        history = history;
        pending = [];
        produced = 0;
        world = w;
      })
  start-Fresh bs history w at free = record {
    source = at;
    absent = free;
    buffered = λ j lt. absurd (omega arith);
    no_output = refl;
    no_pending = refl;
  }

  pub read_marker_done :
      (bs : List ℕ) (s : Unpacking W) (m : List ℕ) (t : Unpacking W)
      → 8 ≤ length bs
      → lz4_read_at fs src (length bs) dst 4 4 s ≡ (done m, t)
      → read_marker fs src (length bs) dst s ≡ (is_marker m, t)
  unfolding read_marker
  read_marker_done bs s m t long e =
      let eight : leb 8 (length bs) ≡ true = ground arith in
      rw (eight, ap (λ x. x.0) e) (ap (λ x. (is_marker m, x.1)) e)

  -- With the destination created, the unpacker is ready for the blocks.
  pub start-Inv :
      (bs : List ℕ) (t : Unpacking W) (i : ℕ)
      → Usable dst
      → content dst (fs.create dst t.world).1 ≡ some []
      → Fresh content src dst bs t
      → Inv content src dst bs i [] (record t { index = i; world = (fs.create dst t.world).1 })
  start-Inv bs t i usable made v = record {
    source = laws.create_others dst t.world usable src apart ∙ v.source;
    buffered = v.buffered;
    index_is = refl;
    produced_is = v.no_output;
    ring = λ j lt near. absurd (omega arith);
    flushed = [];
    written = made;
    in_all = v.no_pending;
    not_full = omega (arith, ap length v.no_pending);
  }
