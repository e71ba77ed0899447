-- ===== src/Lz4/Blocked.antt =====
-- kernel/kutil/lz4_pack.c: the packer writes the blocks of a file behind one another.
use windoge_os.Common.{
  ℕ, zero, suc, ◌+◌, ◌-◌, ◌*◌, ◌%◌, ◌^◌, ◌≤◌, ◌<◌, ◌≡◌, ◌≢◌, refl, sym, ap, ◌∙◌, true, false,
  Option, some, List, [], ◌∷◌, ◌++◌, ltb, ◌==◌, length, take, drop, arith, Bool-cases, inl, inr,
  append_assoc, append-nil, take-append-drop,
}
use mathlib.Core.Path.{subst}
use windoge_os.Common.Pieces.{take_all, drop_all, length-slice}
use windoge_os.Common.Step.{Step, holds, rejected, Ensures-next, Ensures-weaken, ◌>>◌}
use windoge_os.Lz4.Filed.{Writes, Filed, write-Filed, pack_block-Spells}
use windoge_os.Lz4.Files.{Files, FileLaws}
use windoge_os.Lz4.Write.{Writer, less, lz4_write}
use windoge_os.Lz4.Archive.{word_bytes, read_block, pack_blocks}
use windoge_os.Lz4.Blocks.{Spells}
use windoge_os.Lz4.Streams.{Packs, no_more, one}

drop-drop : (a b : ℕ) (l : List ℕ) → drop b (drop a l) ≡ drop (a + b) l
drop-drop zero b l = ap (λ n. drop n l) {x = b} {y = 0 + b} (omega arith)
drop-drop (suc a) b [] = drop_nil b ∙ sym (drop_nil (suc a + b))
  where
    drop_nil : (n : ℕ) → drop {A = ℕ} n [] ≡ []
    drop_nil zero = refl
    drop_nil (suc n) = refl
drop-drop (suc a) b (c ∷ l) =
    drop-drop a b l ∙ ap (λ n. drop n (c ∷ l)) {x = suc (a + b)} {y = suc a + b} (omega arith)

module _ {W : Type 0} (fs : Files W) (content : List ℕ → W → Option (List ℕ))
    (Usable : List ℕ → Type 0) (Broken : W → Type 0) (laws : FileLaws fs content Usable Broken)
    (dst : List ℕ) (w0 : W) where
  -- A block read from the source.
  read_block-Filed :
      (src file all : List ℕ) (offset n : ℕ) (w : Writer W)
      → content src w.world ≡ some file
      → 0 < n
      → n ≤ 4096
      → offset + n ≤ length file
      → Filed content dst w0 all w
      → Writes Broken
          (λ r t. (r ≡ take n (drop offset file)) × Filed content dst w0 all t)
          (read_block fs src offset n w)
  unfolding read_block
  read_block-Filed src file all offset n w at ge le fits v =
      let n0 : (n == 0) ≡ false = ground arith in
      let nn : (n == n) ≡ true = ground arith in
      elim (laws.read_gives src offset n w.world file at (omega arith) fits) [
        | inr (minus, broken) ↦ rw (minus, read_block) (rejected broken)
        | inl got ↦
            rw (ap (λ x. x.0) got, ap (λ x. x.1) got, n0, nn, read_block)
              (holds (
                take_all n (take n (drop offset file))
                    (omega (arith, length-slice file offset n fits)),
                record {
                  path_is = v.path_is;
                  capacity_is = v.capacity_is;
                  not_full = v.not_full;
                  flushed = v.flushed;
                  written = laws.read_keeps src offset n w.world file dst at ∙ v.written;
                  in_all = v.in_all;
                  keeps = λ q ne. laws.read_keeps src offset n w.world file q at ∙ v.keeps q ne;
                },
              ))
      ]

  -- What the packer has added, for the rest of a text.
  abbrev Adds : List ℕ → List ℕ → Writer W → Type 0
  Adds text all t = (packed : List ℕ) × Packs text packed × Filed content dst w0 (all ++ packed) t

  -- A block in front of the rest.
  write_block-Adds :
      (block bytes rest all : List ℕ) (m : Step (Writer W) (Unit {0})) (t : Writer W)
      → 0 < length block
      → length block ≤ 4096
      → Spells block 0 bytes
      → 15 * length bytes ≤ 16 * length block + 15
      → ((all' : List ℕ) (t' : Writer W)
          → Filed content dst w0 all' t'
          → Writes Broken (λ u t''. Adds rest all' t'') (m t'))
      → Filed content dst w0 all t
      → Writes Broken
          (λ u t'. Adds (block ++ rest) all t')
          ((lz4_write fs (word_bytes (length block) ++ word_bytes (length bytes))
              >> (lz4_write fs bytes >> m))
            t)
  write_block-Adds block bytes rest all m t ge le sp short go_on v =
      let header : List ℕ = word_bytes (length block) ++ word_bytes (length bytes) in
      Ensures-next (write-Filed fs content Usable Broken laws dst w0 header all t v) λ u t2 v2.
        Ensures-next (write-Filed fs content Usable Broken laws dst w0 bytes (all ++ header) t2 v2)
          λ u' t3 v3.
            Ensures-weaken (go_on ((all ++ header) ++ bytes) t3 v3) λ u'' t4 (more, ps, v4). (
              header ++ (bytes ++ more),
              one block bytes rest more ge le sp short ps refl refl,
              subst (λ x. Filed content dst w0 x t4)
                  (append_assoc (all ++ header) bytes more
                    ∙ append_assoc all header (bytes ++ more))
                  v4,
            )

  -- From an offset on, the packer adds bytes that stand for the rest of the source.
  pub pack_blocks-Filed :
      (f : ℕ) (src file all : List ℕ) (offset : ℕ) (w : Writer W)
      → src ≢ dst
      → content src w0 ≡ some file
      → length file < 2 ^ 32
      → offset ≤ length file
      → length file < offset + f
      → Filed content dst w0 all w
      → Writes Broken
          (λ u t. Adds (drop offset file) all t)
          (pack_blocks fs f src (length file) offset w)
  unfolding pack_blocks
  pack_blocks-Filed zero src file all offset w apart at small le fuel v = absurd (omega arith)
  pack_blocks-Filed (suc f) src file all offset w apart at small le fuel v =
      elim (Bool-cases (ltb offset (length file))) [
        | inr over ↦
            let end : drop offset file ≡ [] = drop_all offset file (ground arith) in
            rw over (
              holds (
                [],
                subst (λ x. Packs x []) (sym end) no_more,
                subst (λ x. Filed content dst w0 x w) (sym (append-nil all)) v,
              ))
        | inl inside ↦
            let n : ℕ = less (length file - offset) 4096 in
            let n_pos : 0 < n = ground arith in
            let n_le : n ≤ 4096 = ground arith in
            let n_fits : offset + n ≤ length file = ground arith in
            let block : List ℕ = take n (drop offset file) in
            let size : length block ≡ n = length-slice file offset n n_fits in
            rw inside (
              Ensures-next
                (read_block-Filed src file all offset n w (v.keeps src apart ∙ at) n_pos n_le n_fits
                  v)
                λ r t (er, v1).
                  let (bytes, packs, sp, short) =
                    pack_block-Spells fs block t (omega (arith, size, n_pos))
                      (omega (arith, size, n_le)) in
                  let text_is : block ++ drop (offset + n) file ≡ drop offset file =
                    ap (λ x. block ++ x) (sym (drop-drop offset n file))
                    ∙ take-append-drop n (drop offset file) in
                  let next_is : (offset + n) % 2 ^ 32 ≡ offset + n = omega (arith, n_fits) in
                  let go_on = λ (all' : List ℕ) (t' : Writer W) (v' : Filed content dst w0 all' t').
                    pack_blocks-Filed f src file all' (offset + n) t' apart at small n_fits
                      (omega (arith, n_pos)) v' in
                  rw (er, packs, next_is)
                    (subst
                      (λ m.
                        Writes Broken (λ u t'. Adds (drop offset file) all t')
                          ((lz4_write fs (word_bytes m ++ word_bytes (length bytes))
                              >> (lz4_write fs bytes
                                  >> pack_blocks fs f src (length file) (offset + n)))
                            t))
                      size
                      (subst
                        (λ x.
                          Writes Broken (λ u t'. Adds x all t')
                            ((lz4_write fs (word_bytes (length block) ++ word_bytes (length bytes))
                                >> (lz4_write fs bytes
                                    >> pack_blocks fs f src (length file) (offset + n)))
                              t))
                        text_is
                        (write_block-Adds block bytes (drop (offset + n) file) all
                          (pack_blocks fs f src (length file) (offset + n)) t
                          (omega (arith, size, n_pos)) (omega (arith, size, n_le)) sp short go_on
                          v1))))
      ]
