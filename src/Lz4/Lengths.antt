-- ===== src/Lz4/Lengths.antt =====
-- kernel/kutil/lz4_pack.c: the unpacker reads back the lengths and the literals of a sequence.
use windoge_os.Common.{
  ℕ, zero, suc, ◌+◌, ◌-◌, ◌*◌, ◌/◌, ◌%◌, ◌^◌, ◌≤◌, ◌<◌, ◌≡◌, ◌≢◌, refl, sym, ap, ◌∙◌, false, Option,
  List, [], ◌∷◌, ◌++◌, ltb, leb, leb→le, ◌==◌, length, length-append, length-take, length-drop,
  length-replicate, replicate, take, drop, arith, Bool-cases, inl, inr, append_assoc, append-nil,
  take-append-drop,
}
use mathlib.Core.Path.{subst}
use windoge_os.Common.Pieces.{At, At-left, At-right}
use windoge_os.Common.Step.{holds, Ensures-next, Ensures-weaken}
use windoge_os.Lz4.Unpack.{Decodes, Inv, read_on-piece}
use windoge_os.Lz4.Files.{Files, FileLaws}
use windoge_os.Lz4.Write.{less}
use windoge_os.Lz4.Decode.{Unpacking, lz4_read_length, extended_length, copy_literals}
use windoge_os.Lz4.Sequence.{extension, extension_if}
use windoge_os.Lz4.Output.{output_bytes-Inv}

module _ {W : Type 0} (fs : Files W) (content : List ℕ → W → Option (List ℕ))
    (Usable : List ℕ → Type 0) (Broken : W → Type 0) (laws : FileLaws fs content Usable Broken)
    (src dst bs : List ℕ) (apart : src ≢ dst) (small : length bs < 2 ^ 64) where
  read_length-Decodes :
      (k f i r total limit : ℕ) (out : List ℕ) (s : Unpacking W)
      → k < f
      → r < 255
      → i + k < limit
      → total + 255 * k + r < 2 ^ 64
      → At bs i (replicate k 255 ++ (r ∷ []))
      → Inv content src dst bs i out s
      → Decodes Broken
          (λ v t. (v ≡ total + 255 * k + r) × Inv content src dst bs (i + suc k) out t)
          (lz4_read_length fs src (length bs) dst f limit total s)
  unfolding lz4_read_length
  read_length-Decodes k zero i r total limit out s fuel hr lt fits at v = absurd (omega arith)
  read_length-Decodes zero (suc f) i r total limit out s fuel hr lt fits at v =
      let inside : leb limit s.index ≡ false = ground (arith, v.index_is) in
      let room : ltb (2 ^ 64 - 1 - total) r ≡ false = ground arith in
      let last : (r == 255) ≡ false = ground arith in
      rw inside (
        Ensures-next
          (read_on-piece fs content Usable Broken laws src dst bs 1 i (r ∷ []) out s small refl at
            v)
          λ bytes t (e, v'). rw (e, room, last) (holds (omega arith, v')))
  read_length-Decodes (suc k) (suc f) i r total limit out s fuel hr lt fits at v =
      let inside : leb limit s.index ≡ false = ground (arith, v.index_is) in
      let room : ltb (2 ^ 64 - 1 - total) 255 ≡ false = ground arith in
      let tail : List ℕ = replicate k 255 ++ (r ∷ []) in
      rw inside (
        Ensures-next
          (read_on-piece fs content Usable Broken laws src dst bs 1 i (255 ∷ []) out s small refl
            (At-left (255 ∷ []) tail at) v)
          λ bytes t (e, v').
            rw (e, room)
              (Ensures-weaken
                (read_length-Decodes k f (i + 1) r (total + 255) limit out t (omega arith) hr
                  (omega arith) (omega arith) (At-right (255 ∷ []) tail at) v')
                (λ x u (ex, vx). (
                  ex ∙ sum_is total k r,
                  subst (λ j. Inv content src dst bs j out u) (next_is i k) vx,
                ))))
    where
      sum_is : (total k r : ℕ) → total + 255 + 255 * k + r ≡ total + 255 * suc k + r
      sum_is total k r = omega arith

      next_is : (i k : ℕ) → i + 1 + suc k ≡ i + suc (suc k)
      next_is i k = omega arith

  -- A length from its half of the token, `less n 15`, and what may stand behind.
  pub extended_length-Decodes :
      (n base i limit : ℕ) (out : List ℕ) (s : Unpacking W)
      → n + base < 2 ^ 32
      → i + length (extension_if n) ≤ limit
      → At bs i (extension_if n)
      → Inv content src dst bs i out s
      → Decodes Broken
          (λ v t. (v ≡ n + base) × Inv content src dst bs (i + length (extension_if n)) out t)
          (extended_length fs src (length bs) dst (less n 15 == 15) limit (less n 15 + base) s)
  unfolding extended_length
  extended_length-Decodes n base i limit out s fits lt at v = elim (Bool-cases (leb 15 n)) [
    | inr short ↦
        let half : less n 15 ≡ n = ground arith in
        let no_more : (n == 15) ≡ false = ground arith in
        let none_behind : length (extension_if n) ≡ 0 = rw short in
        rw (half, no_more)
          (holds (
            refl,
            subst (λ j. Inv content src dst bs j out s)
                (sym (ap (λ k. i + k) none_behind ∙ at_end i)) v,
          ))
    | inl long ↦
        let half : less n 15 ≡ 15 = ground arith in
        let q : ℕ = (n - 15) / 255 in
        let size : length (extension (n - 15)) ≡ suc q = omega (
          arith,
          length-append (replicate q 255) ((n - 15) % 255 ∷ []),
          length-replicate {A = ℕ} q 255,
        ) in
        let behind : extension_if n ≡ extension (n - 15) = rw long in
        let lt' : i + suc q ≤ limit = omega (arith, lt, ap length behind, size) in
        rw half (
          Ensures-weaken
            (read_length-Decodes q (suc (limit - s.index)) i ((n - 15) % 255) (15 + base) limit out
              s (omega (arith, lt', v.index_is)) (omega arith) (omega (arith, lt')) (omega arith)
              (subst (λ x. At bs i x) behind at) v)
            (λ x t (ex, vx). (
              ex ∙ value_is n base (leb→le 15 n long),
              subst (λ j. Inv content src dst bs j out t)
                  (sym (ap (λ x. i + length x) behind ∙ ap (λ k. i + k) size)) vx,
            )))
  ]
    where
      at_end : (i : ℕ) → i + 0 ≡ i
      at_end i = omega arith

      value_is :
          (n base : ℕ) → 15 ≤ n → 15 + base + 255 * ((n - 15) / 255) + (n - 15) % 255 ≡ n + base
      value_is n base h = omega arith

  -- The same with the half of the token, and the length so far, given by equations.
  pub extended_here :
      (n base half total i limit : ℕ) (out : List ℕ) (s : Unpacking W)
      → half ≡ less n 15
      → total ≡ less n 15 + base
      → n + base < 2 ^ 32
      → i + length (extension_if n) ≤ limit
      → At bs i (extension_if n)
      → Inv content src dst bs i out s
      → Decodes Broken
          (λ v t. (v ≡ n + base) × Inv content src dst bs (i + length (extension_if n)) out t)
          (extended_length fs src (length bs) dst (half == 15) limit total s)
  extended_here n base half total i limit out s e1 e2 fits lt at v =
      rw (e1, e2) (extended_length-Decodes n base i limit out s fits lt at v)

  pub copy_literals-Inv :
      (f i : ℕ) (lits out : List ℕ) (s : Unpacking W)
      → length lits < f
      → length out + length lits < 2 ^ 32
      → At bs i lits
      → Inv content src dst bs i out s
      → Decodes Broken
          (λ u t. Inv content src dst bs (i + length lits) (out ++ lits) t)
          (copy_literals fs src (length bs) dst f (length lits) s)
  unfolding copy_literals
  copy_literals-Inv zero i lits out s fuel fits at v = absurd (omega arith)
  copy_literals-Inv (suc f) i [] out s fuel fits at v = holds (
      subst (λ j. Inv content src dst bs j (out ++ []) s) (at_end i)
        (subst (λ x. Inv content src dst bs i x s) (sym (append-nil out)) v))
    where
      at_end : (i : ℕ) → i ≡ i + 0
      at_end i = omega arith
  copy_literals-Inv (suc f) i (c ∷ cs) out s fuel fits at v =
      let lits : List ℕ = c ∷ cs in
      let k : ℕ = less (length lits) 512 in
      let k_le : k ≤ length lits = ground arith in
      let k_pos : 0 < k = ground arith in
      let a : List ℕ = take k lits in
      let b : List ℕ = drop k lits in
      let size_a : length a ≡ k = omega (arith, length-take k lits, k_le) in
      let size_b : length b ≡ length lits - k = length-drop k lits in
      let at' : At bs i (a ++ b) = subst (λ x. At bs i x) (sym (take-append-drop k lits)) at in
      let at_b : At bs (i + k) b = subst (λ n. At bs (i + n) b) size_a (At-right a b at') in
      let whole : (out ++ a) ++ b ≡ out ++ lits =
        append_assoc out a b ∙ ap (λ x. out ++ x) (take-append-drop k lits) in
      Ensures-next
        (read_on-piece fs content Usable Broken laws src dst bs k i a out s small size_a
          (At-left a b at') v)
        λ bytes t (e, v'). rw e (
          Ensures-next
            (output_bytes-Inv fs content Usable Broken laws src dst bs apart (i + k) a out t
              (omega (arith, size_a, k_le)) v')
            λ u t2 v2.
              let rest =
                copy_literals-Inv f (i + k) b (out ++ a) t2 (omega (arith, size_b, k_pos))
                  (omega (arith, size_a, size_b, length-append out a, k_le)) at_b v2 in
              Ensures-weaken
                (subst
                  (λ n.
                    Decodes Broken
                      (λ u t. Inv content src dst bs (i + k + length b) ((out ++ a) ++ b) t)
                      (copy_literals fs src (length bs) dst f n t2))
                  size_b rest)
                (λ u' t3 v3.
                  subst (λ j. Inv content src dst bs j (out ++ lits) t3)
                    (ap (λ n. i + k + n) size_b ∙ indices i k (length lits) k_le)
                    (subst (λ x. Inv content src dst bs (i + k + length b) x t3) whole v3)))
    where
      indices : (i k n : ℕ) → k ≤ n → i + k + (n - k) ≡ i + n
      indices i k n h = omega arith
