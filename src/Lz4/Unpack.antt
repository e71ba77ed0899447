-- ===== src/Lz4/Unpack.antt =====
-- kernel/kutil/lz4_pack.c: the reading half of the unpacker. What `lz4_read_at` returns is what
-- stands in the archive, whatever the buffer held.
use windoge_os.Common.{
  ℕ, zero, suc, ◌+◌, ◌-◌, ◌%◌, ◌^◌, ◌≤◌, ◌<◌, ◌≡◌, refl, sym, ap, ◌∙◌, Bool, true, false, Option,
  some, List, ◌++◌, leb, ◌==◌, length, length-append, length-take, length-drop, take, drop, get_or,
  arith, inl, inr,
}
use mathlib.Core.Path.{subst}
use native.Mathlib.Decide.{dec_lt}
use windoge_os.Common.Pieces.{
  At, list_ext, get_or-append_left, get_or-append_right, get_or-take, get_or-drop, length-slice,
}
use windoge_os.Common.Step.{Outcome, Ensures, rejected, holds, Ensures-next, Ensures-weaken}
use windoge_os.Lz4.Files.{Files, FileLaws}
use windoge_os.Lz4.Write.{less}
use windoge_os.Lz4.Decode.{Unpacking, refill, refill_if, outside, read_loop, lz4_read_at, read_on}

-- The unpacker has read up to `i` and has produced `out`: part of it is in the destination, and part
-- is pending; the ring holds the last 4096 bytes.
pub record Inv {W : Type 0} (content : List ℕ → W → Option (List ℕ)) (src dst bs : List ℕ) (i : ℕ)
    (out : List ℕ) (s : Unpacking W) : Type 0 where
  pub source : content src s.world ≡ some bs
  pub buffered : (j : ℕ) → j < length s.buffer → get_or s.buffer j 0 ≡ get_or bs (s.start + j) 0
  pub index_is : s.index ≡ i
  pub produced_is : s.produced ≡ length out
  pub ring :
      (j : ℕ) → j < length out → length out ≤ j + 4096 → s.history (j % 4096) ≡ get_or out j 0
  pub flushed : List ℕ
  pub written : content dst s.world ≡ some flushed
  pub in_all : flushed ++ s.pending ≡ out
  pub not_full : length s.pending < 65536

-- The step of the unpacker succeeds, or it fails and the state is broken.
abbrev pub Decodes :
    {W A : Type 0} → (W → Type 0) → (A → Unpacking W → Type 0) → Outcome A × Unpacking W → Type 0
Decodes Broken P r = Ensures P (λ s. Broken s.world) r

module _ {W : Type 0} (fs : Files W) (content : List ℕ → W → Option (List ℕ))
    (Usable : List ℕ → Type 0) (Broken : W → Type 0) (laws : FileLaws fs content Usable Broken)
    (src dst bs : List ℕ) where
  abbrev pub Ready : ℕ → Unpacking W → Type 0
  Ready offset s = (s.start ≤ offset) × (offset - s.start < length s.buffer)

  -- Another buffer with the right bytes, and a world with the same files.
  pub Inv-moved :
      (i : ℕ) (out : List ℕ) (s t : Unpacking W)
      → ((q : List ℕ) → content q t.world ≡ content q s.world)
      → ((j : ℕ) → j < length t.buffer → get_or t.buffer j 0 ≡ get_or bs (t.start + j) 0)
      → t.index ≡ s.index
      → t.history ≡ s.history
      → t.pending ≡ s.pending
      → t.produced ≡ s.produced
      → Inv content src dst bs i out s
      → Inv content src dst bs i out t
  Inv-moved i out s t same buffered ei eh ep en v = record {
    source = same src ∙ v.source;
    buffered = buffered;
    index_is = ei ∙ v.index_is;
    produced_is = en ∙ v.produced_is;
    ring = λ j lt near. ap (λ h. h (j % 4096)) eh ∙ v.ring j lt near;
    flushed = v.flushed;
    written = same dst ∙ v.written;
    in_all = ap (λ x. v.flushed ++ x) ep ∙ v.in_all;
    not_full = rw ep v.not_full;
  }

  -- A property of the unpacker that a change of the read buffer leaves alone.
  module _ (K : Unpacking W → Type 0)
      (moved : (s t : Unpacking W)
        → ((q : List ℕ) → content q t.world ≡ content q s.world)
        → ((j : ℕ) → j < length t.buffer → get_or t.buffer j 0 ≡ get_or bs (t.start + j) 0)
        → t.index ≡ s.index
        → t.history ≡ s.history
        → t.pending ≡ s.pending
        → t.produced ≡ s.produced
        → K s
        → K t)
      (source : (s : Unpacking W) → K s → content src s.world ≡ some bs)
      (buffered : (s : Unpacking W)
        → K s
        → (j : ℕ) → j < length s.buffer
        → get_or s.buffer j 0 ≡ get_or bs (s.start + j) 0) where
    refill-Ready :
        (offset : ℕ) (s : Unpacking W)
        → offset < length bs
        → K s
        → Decodes Broken (λ u t. K t × Ready offset t) (refill fs src (length bs) dst offset s)
    unfolding refill
    refill-Ready offset s lt v =
        let n : ℕ = less (length bs - offset) 4096 in
        let pos_n : (n == 0) ≡ false = ground arith in
        let fits : offset + n ≤ length bs = ground arith in
        let size : length (take n (take n (drop offset bs))) ≡ n =
          omega (arith, length-take n (take n (drop offset bs)), length-slice bs offset n fits) in
        elim (laws.read_gives src offset n s.world bs (source s v) (ground arith) fits) [
          | inr (minus, broken) ↦ rw (minus, refill) (rejected broken)
          | inl got ↦
              rw (ap (λ x. x.0) got, ap (λ x. x.1) got, pos_n, refill)
                (holds (
                  moved s _ (λ q. laws.read_keeps src offset n s.world bs q (source s v))
                      (λ j lt.
                        get_or-take n (take n (drop offset bs)) j (omega (arith, size))
                        ∙ get_or-take n (drop offset bs) j (omega (arith, size))
                        ∙ get_or-drop offset bs j)
                      refl refl refl refl v,
                  (omega arith, ground (arith, size)),
                ))
        ]

    pub refill_if-Ready :
        (b : Bool) (offset : ℕ) (s : Unpacking W)
        → outside fs src (length bs) dst offset s ≡ b
        → offset < length bs
        → K s
        → Decodes Broken (λ u t. K t × Ready offset t) (refill_if fs src (length bs) dst b offset s)
    refill_if-Ready true offset s e lt v = refill-Ready offset s lt v
    refill_if-Ready false offset s e lt v = holds (v, (ground arith, ground arith))

    -- A batch from the buffer, and what is read behind it.
    two_parts :
        (offset n : ℕ) (t : Unpacking W) (a b : List ℕ)
        → Ready offset t
        → ((j : ℕ) → j < length t.buffer → get_or t.buffer j 0 ≡ get_or bs (t.start + j) 0)
        → a ≡ take n (drop (offset - t.start) t.buffer)
        → ((j : ℕ) → j < n - length a → get_or b j 0 ≡ get_or bs (offset + length a + j) 0)
        → (j : ℕ) → j < n
        → get_or (a ++ b) j 0 ≡ get_or bs (offset + j) 0
    two_parts offset n t a b (lo, hi) buffered ea same j lt = elim (dec_lt j (length a)) [
      | yes h ↦
          let inside : offset - t.start + j < length t.buffer = omega (
            arith,
            h,
            ap length ea,
            length-take n (drop (offset - t.start) t.buffer),
            length-drop (offset - t.start) t.buffer,
          ) in
          get_or-append_left a b j h
          ∙ ap (λ x. get_or x j 0) ea
          ∙ get_or-take n (drop (offset - t.start) t.buffer) j lt
          ∙ get_or-drop (offset - t.start) t.buffer j
          ∙ buffered (offset - t.start + j) inside
          ∙ ap (λ k. get_or bs k 0) {x = t.start + (offset - t.start + j)} {y = offset + j}
              (omega arith)
      | no h ↦
          ap (λ k. get_or (a ++ b) k 0) {x = j} {y = length a + (j - length a)} (omega arith)
          ∙ get_or-append_right a b (j - length a)
          ∙ same (j - length a) (omega arith)
          ∙ ap (λ k. get_or bs k 0) {x = offset + length a + (j - length a)} {y = offset + j}
              (omega arith)
    ]

    read_loop-Decodes :
        (f offset n : ℕ) (s : Unpacking W)
        → offset + n ≤ length bs
        → n < f
        → K s
        → Decodes Broken
            (λ r t.
              (length r ≡ n) × ((j : ℕ) → j < n → get_or r j 0 ≡ get_or bs (offset + j) 0) × K t)
            (read_loop fs src (length bs) dst f offset n s)
    unfolding read_loop
    read_loop-Decodes zero offset n s fits fuel v = absurd (omega arith)
    read_loop-Decodes (suc f) offset zero s fits fuel v =
        holds (refl, (λ j lt. absurd (omega arith)), v)
    read_loop-Decodes (suc f) offset (suc n) s fits fuel v =
        let inside : leb (length bs) offset ≡ false = ground arith in
        let ready =
          refill_if-Ready (outside fs src (length bs) dst offset s) offset s refl (omega arith) v in
        rw inside (
          Ensures-next ready λ u t (v', r).
            let bytes : List ℕ = take (suc n) (drop (offset - t.start) t.buffer) in
            let size = length-take (suc n) (drop (offset - t.start) t.buffer) in
            let size' = length-drop (offset - t.start) t.buffer in
            let rest =
              read_loop-Decodes f (offset + length bytes) (suc n - length bytes) t
                (omega (arith, size)) (omega (arith, size, size', r.0, r.1)) v' in
            Ensures-next rest λ more t' (len, same, v''). holds (
              omega (arith, len, length-append bytes more, size),
              two_parts offset (suc n) t bytes more r (buffered t v') refl same,
              v'',
            ))

    -- Where a piece stands in the archive, `lz4_read_at` returns it.
    pub read_bytes_kept :
        (offset : ℕ) (piece : List ℕ) (s : Unpacking W)
        → At bs offset piece
        → K s
        → Decodes Broken
            (λ r t. (r ≡ piece) × K t)
            (lz4_read_at fs src (length bs) dst offset (length piece) s)
    unfolding lz4_read_at
    read_bytes_kept offset piece s at v =
        Ensures-weaken
          (read_loop-Decodes (suc (length piece)) offset (length piece) s at.fits (omega arith) v)
          (λ r t (len, same, v'). (
            list_ext r piece len
                (λ j lt. same j (omega (arith, len)) ∙ at.same j (omega (arith, len))),
            v',
          ))

  pub read_bytes_piece :
      (offset i : ℕ) (piece out : List ℕ) (s : Unpacking W)
      → At bs offset piece
      → Inv content src dst bs i out s
      → Decodes Broken
          (λ r t. (r ≡ piece) × Inv content src dst bs i out t)
          (lz4_read_at fs src (length bs) dst offset (length piece) s)
  read_bytes_piece offset i piece out s at v =
      read_bytes_kept (Inv content src dst bs i out) (Inv-moved i out) (λ s v. v.source)
        (λ s v. v.buffered) offset piece s at v

  -- The index goes on within the archive.
  pub advance-Inv :
      (n i : ℕ) (out : List ℕ) (t : Unpacking W)
      → length bs < 2 ^ 64
      → i + n ≤ length bs
      → Inv content src dst bs i out t
      → Inv content src dst bs (i + n) out (record t { index = (t.index + n) % 2 ^ 64 })
  advance-Inv n i out t small fits v = record {
    source = v.source;
    buffered = v.buffered;
    index_is = omega (arith, v.index_is, fits, small);
    produced_is = v.produced_is;
    ring = v.ring;
    flushed = v.flushed;
    written = v.written;
    in_all = v.in_all;
    not_full = v.not_full;
  }

  -- The same at the index, which then goes past it.
  pub read_on-piece :
      (n i : ℕ) (piece out : List ℕ) (s : Unpacking W)
      → length bs < 2 ^ 64
      → length piece ≡ n
      → At bs i piece
      → Inv content src dst bs i out s
      → Decodes Broken
          (λ r t. (r ≡ piece) × Inv content src dst bs (i + n) out t)
          (read_on fs src (length bs) dst n s)
  read_on-piece n i piece out s small len at v =
      let here =
        read_bytes_piece s.index i piece out s (subst (λ k. At bs k piece) (sym v.index_is) at) v in
      let read =
        subst
          (λ k.
            Decodes Broken (λ r t. (r ≡ piece) × Inv content src dst bs i out t)
              (lz4_read_at fs src (length bs) dst s.index k s))
          len here in
      Ensures-next read
        λ r t (e, v'). holds (e, advance-Inv n i out t small (omega (arith, at.fits, len)) v')
