-- ===== src/Lz4/Header.antt =====
-- kernel/kutil/lz4_pack.c: the first read of the unpacker fills its buffer from the start of the archive,
-- and the marker behind the size is then read from the buffer alone.
use windoge_os.Common.{
  ℕ, zero, suc, ◌+◌, ◌-◌, ◌≤◌, ◌<◌, ◌≡◌, refl, ap, ◌∙◌, false, true, Option, some, List, leb, ◌==◌,
  length, length-take, length-drop, take, drop, arith, append-nil, inl, inr,
}
use windoge_os.Common.Step.{done, holds, rejected, Ensures-next}
use windoge_os.Common.Pieces.{length-slice}
use windoge_os.Lz4.Files.{Files, FileLaws}
use windoge_os.Lz4.Write.{less}
use windoge_os.Lz4.Decode.{Unpacking, refill, outside, read_loop, lz4_read_at}
use windoge_os.Lz4.Unpack.{Decodes}

-- The buffer holds the start of an archive of `size` bytes.
abbrev pub AtStart : {W : Type 0} → ℕ → Unpacking W → Type 0
AtStart size t = (t.start ≡ 0) × (length t.buffer ≡ less size 4096)

module _ {W : Type 0} (fs : Files W) (src dst : List ℕ) where
  -- What the buffer holds is read from there.
  read_loop-buffered :
      (size f offset n : ℕ) (s : Unpacking W)
      → n < f
      → s.start ≤ offset
      → offset + n ≤ s.start + length s.buffer
      → offset + n ≤ size
      → read_loop fs src size dst f offset n s
        ≡ (done (take n (drop (offset - s.start) s.buffer)), s)
  unfolding read_loop
  read_loop-buffered size zero offset n s fuel lo hi fits = absurd (omega arith)
  read_loop-buffered size (suc f) offset zero s fuel lo hi fits = refl
  read_loop-buffered size (suc zero) offset (suc n) s fuel lo hi fits = absurd (omega arith)
  read_loop-buffered size (suc (suc f)) offset (suc n) s fuel lo hi fits =
      let bytes : List ℕ = take (suc n) (drop (offset - s.start) s.buffer) in
      let inside : leb size offset ≡ false = ground arith in
      let near : outside fs src size dst offset s ≡ false = ground arith in
      let all : suc n - length bytes ≡ 0 = omega (
        arith,
        length-take (suc n) (drop (offset - s.start) s.buffer),
        length-drop (offset - s.start) s.buffer,
        lo,
        hi,
      ) in
      rw (inside, near, all) (ap (λ x. (done x, s)) (append-nil bytes))

  -- The marker is in the buffer.
  pub read_marker-buffered :
      (size : ℕ) (s : Unpacking W)
      → 8 ≤ size
      → AtStart size s
      → lz4_read_at fs src size dst 4 4 s ≡ (done (take 4 (drop (4 - s.start) s.buffer)), s)
  unfolding lz4_read_at
  read_marker-buffered size s long (start, full) =
      read_loop-buffered size 5 4 4 s (omega arith) (omega (arith, start))
        (ground (arith, start, full, long)) long

module _ {W : Type 0} (fs : Files W) (content : List ℕ → W → Option (List ℕ))
    (Usable : List ℕ → Type 0) (Broken : W → Type 0) (laws : FileLaws fs content Usable Broken)
    (src dst bs : List ℕ) where
  refill-AtStart :
      (s : Unpacking W)
      → 4 ≤ length bs
      → content src s.world ≡ some bs
      → Decodes Broken (λ u t. AtStart (length bs) t) (refill fs src (length bs) dst 0 s)
  unfolding refill
  refill-AtStart s four at =
      let n : ℕ = less (length bs - 0) 4096 in
      let pos_n : (n == 0) ≡ false = ground arith in
      let fits : 0 + n ≤ length bs = ground arith in
      let size : length (take n (take n (drop 0 bs))) ≡ n =
        omega (arith, length-take n (take n (drop 0 bs)), length-slice bs 0 n fits) in
      elim (laws.read_gives src 0 n s.world bs at (ground arith) fits) [
        | inr (minus, broken) ↦ rw (minus, refill) (rejected broken)
        | inl got ↦
            rw (ap (λ x. x.0) got, ap (λ x. x.1) got, pos_n, refill)
              (holds (
                refl,
                size ∙ ap (λ k. less k 4096) {x = length bs - 0} {y = length bs} (omega arith),
              ))
      ]

  -- The first four bytes, with an empty buffer.
  pub read_first-AtStart :
      (s : Unpacking W)
      → 4 ≤ length bs
      → length s.buffer ≡ 0
      → content src s.world ≡ some bs
      → Decodes Broken (λ r t. AtStart (length bs) t) (lz4_read_at fs src (length bs) dst 0 4 s)
  unfolding lz4_read_at read_loop
  read_first-AtStart s four empty at =
      let inside : leb (length bs) 0 ≡ false = ground arith in
      let far : outside fs src (length bs) dst 0 s ≡ true = ground (arith, empty) in
      rw (inside, far)
        (Ensures-next (refill-AtStart s four at) λ u t (start, full).
          let bytes : List ℕ = take 4 (drop (0 - t.start) t.buffer) in
          let four_long : length bytes ≡ 4 = ground (
            arith,
            length-take 4 (drop (0 - t.start) t.buffer),
            length-drop (0 - t.start) t.buffer,
            start,
            full,
            four,
          ) in
          let none_left : 4 - length bytes ≡ 0 = omega (arith, four_long) in
          rw none_left (holds (start, full)))
