-- ===== src/Lz4/Filed.antt =====
-- kernel/kutil/lz4_pack.c: the packer's writer, and the packing of one block.
use windoge_os.Common.{
  ℕ, zero, suc, ◌+◌, ◌-◌, ◌*◌, ◌≤◌, ◌<◌, ◌≡◌, refl, sym, ap, ◌∙◌, true, false, ◌||◌, Option, none,
  some, List, [], ◌∷◌, ◌++◌, leb, ◌==◌, length, length-append, length-take, length-drop, take, drop,
  arith, Bool-cases, inl, inr, append_assoc, append-nil, take-append-drop,
}
use mathlib.Core.Path.{subst}
use windoge_os.Common.Step.{Outcome, Ensures, done, holds, rejected, Ensures-next, Ensures-weaken}
use windoge_os.Lz4.Files.{Files, FileLaws, OnlyAt, not_zero}
use windoge_os.Lz4.Write.{Writer, less, lz4_write_flush, when_full, write_loop, lz4_write}
use windoge_os.Lz4.Archive.{take_packed, pack_block}
use windoge_os.Lz4.Blocks.{Spells}
use windoge_os.Lz4.Packed.{compress_block-Rest}
use windoge_os.Lz4.Streams.{Spells-lt}

-- The writer of the file at `dst`: what is there and what the buffer holds make up `all`; no other
-- file differs from those of `w0`.
pub record Filed {W : Type 0} (content : List ℕ → W → Option (List ℕ)) (dst : List ℕ) (w0 : W)
    (all : List ℕ) (w : Writer W) : Type 0 where
  pub path_is : w.path ≡ some dst
  pub capacity_is : w.capacity ≡ 65536
  pub not_full : length w.bytes < 65536
  pub flushed : List ℕ
  pub written : content dst w.world ≡ some flushed
  pub in_all : flushed ++ w.bytes ≡ all
  pub keeps : OnlyAt content dst w0 w.world

pub empty_list : (l : List ℕ) → (length l == 0) ≡ true → l ≡ []
empty_list [] h = refl
empty_list (c ∷ l) h = absurd (ground (arith, h))

-- The step of the packer succeeds, or it fails and the state is broken.
abbrev pub Writes :
    {W A : Type 0} → (W → Type 0) → (A → Writer W → Type 0) → Outcome A × Writer W → Type 0
Writes Broken P r = Ensures P (λ s. Broken s.world) r

module _ {W : Type 0} (fs : Files W) (content : List ℕ → W → Option (List ℕ))
    (Usable : List ℕ → Type 0) (Broken : W → Type 0) (laws : FileLaws fs content Usable Broken)
    (dst : List ℕ) (w0 : W) where
  -- The buffer may be full here.
  pub flush-Filed :
      (all flushed : List ℕ) (w : Writer W)
      → w.path ≡ some dst
      → w.capacity ≡ 65536
      → content dst w.world ≡ some flushed
      → flushed ++ w.bytes ≡ all
      → OnlyAt content dst w0 w.world
      → Writes Broken (λ u t. Filed content dst w0 all t × (t.bytes ≡ [])) (lz4_write_flush fs w)
  unfolding lz4_write_flush
  flush-Filed all flushed w ep ec written e keeps = elim (Bool-cases (length w.bytes == 0)) [
    | inl nothing ↦
        let none_left : w.bytes ≡ [] = empty_list w.bytes nothing in
        rw nothing (
          holds (
            record {
              path_is = ep;
              capacity_is = ec;
              not_full = ground arith;
              flushed = flushed;
              written = written;
              in_all = e;
              keeps = keeps;
            },
            none_left,
          ))
    | inr some_left ↦ elim (laws.append_done dst w.bytes w.world flushed written) [
      | inr (bad, broken) ↦ rw (some_left, ep, not_zero _ bad) (rejected broken)
      | inl (ok, appended) ↦
          rw (some_left, ep, ok)
            (holds (
              record {
                path_is = ep;
                capacity_is = ec;
                not_full = omega arith;
                flushed = flushed ++ w.bytes;
                written = appended;
                in_all = append-nil (flushed ++ w.bytes) ∙ e;
                keeps = λ q ne.
                    laws.append_others dst w.bytes w.world flushed written q ne ∙ keeps q ne;
              },
              refl,
            ))
    ]
  ]

  write_loop-Filed :
      (f : ℕ) (input all : List ℕ) (w : Writer W)
      → length input < f
      → Filed content dst w0 all w
      → Writes Broken (λ u t. Filed content dst w0 (all ++ input) t) (write_loop fs f input w)
  unfolding write_loop when_full
  write_loop-Filed zero input all w fuel v = absurd (omega arith)
  write_loop-Filed (suc f) [] all w fuel v =
      holds (subst (λ x. Filed content dst w0 x w) (sym (append-nil all)) v)
  write_loop-Filed (suc f) (b ∷ bs) all w fuel v =
      let input : List ℕ = b ∷ bs in
      let k : ℕ = less (suc (length bs)) (w.capacity - length w.bytes) in
      let k_pos : 0 < k = ground (arith, v.capacity_is, v.not_full) in
      let k_le : k ≤ length input = ground arith in
      let k_fits : length w.bytes + k ≤ 65536 = ground (arith, v.capacity_is, v.not_full) in
      let w1 : Writer W = record w { bytes = w.bytes ++ take k input } in
      let size : length w1.bytes ≡ length w.bytes + k =
        omega (arith, length-append w.bytes (take k input), length-take k input, k_le) in
      let all1 : List ℕ = all ++ take k input in
      let e1 : v.flushed ++ (w.bytes ++ take k input) ≡ all1 =
        sym (append_assoc v.flushed w.bytes (take k input))
        ∙ ap (λ x. x ++ take k input) v.in_all in
      let full : Writes Broken (λ u t. Filed content dst w0 all1 t) (when_full fs w1) =
        elim (Bool-cases (length w1.bytes == w1.capacity)) [
          | inl yes_full ↦ rw yes_full (
              Ensures-weaken
                (flush-Filed all1 v.flushed w1 v.path_is v.capacity_is v.written e1 v.keeps)
                (λ u t h. h.0))
          | inr free ↦ rw free (
              holds (record {
                path_is = v.path_is;
                capacity_is = v.capacity_is;
                not_full = ground (arith, size, k_fits, v.capacity_is);
                flushed = v.flushed;
                written = v.written;
                in_all = e1;
                keeps = v.keeps;
              }))
        ] in
      Ensures-next full λ u t v1.
        subst
          (λ x. Writes Broken (λ u t. Filed content dst w0 x t) (write_loop fs f (drop k input) t))
          (append_assoc all (take k input) (drop k input)
            ∙ ap (λ x. all ++ x) (take-append-drop k input))
          (write_loop-Filed f (drop k input) all1 t (omega (arith, length-drop k input, k_pos)) v1)

  pub write-Filed :
      (input all : List ℕ) (w : Writer W)
      → Filed content dst w0 all w
      → Writes Broken (λ u t. Filed content dst w0 (all ++ input) t) (lz4_write fs input w)
  unfolding lz4_write
  write-Filed input all w v = write_loop-Filed (suc (length input)) input all w (omega arith) v

module _ {W : Type 0} (fs : Files W) where
  -- A block of 1 to 4096 bytes is always packed: at most 16/15 of its size and one byte, a spelling of
  -- the block by literals and by matches that lie within it; the archive's own writer is unchanged.
  pub pack_block-Spells :
      (block : List ℕ) (w : Writer W)
      → 0 < length block
      → length block ≤ 4096
      → (bytes : List ℕ) × (pack_block fs block w ≡ (done bytes, w))
        × Spells block 0 bytes
        × (15 * length bytes ≤ 16 * length block + 15)
  unfolding pack_block take_packed
  pack_block-Spells block w ge le =
      let r =
        compress_block-Rest fs block
          (record { path = none; bytes = []; capacity = 8192; world = w.world }) ge le refl refl in
      let short : 15 * length r.bytes ≤ 16 * length block + 15 = omega (arith, r.short) in
      (
        r.bytes,
        ap (take_packed fs w) r.result ∙ (rw (good_size r.bytes r.spells short) refl),
        r.spells,
        short,
      )
    where
      good_size :
          (bytes : List ℕ)
          → Spells block 0 bytes
          → 15 * length bytes ≤ 16 * length block + 15
          → ((length bytes == 0) || leb 8192 (length bytes)) ≡ false
      good_size bytes sp short = ground (arith, Spells-lt sp)
