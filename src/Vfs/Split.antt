-- ===== src/Vfs/Split.antt =====
-- helper/drivers/filesystem/vfs.c: the two parts of a split path make up the path.
use windoge_os.Common.{
  ℕ, zero, suc, ◌+◌, ◌<◌, ◌≡◌, refl, ◌≢◌, ◌⊎◌, inl, inr, arith, false, Option, none, some, List, [],
  ◌∷◌, ◌++◌, leb, ◌==◌, length, take, drop, get_or, length-drop, Bool-cases, ◌∙◌, sym, ap, ap₂,
}
use mathlib.Core.Path.{subst}
use native.Mathlib.Decide.{ℕ_discrete}
use windoge_os.Common.Pieces.{get_or-drop, take_all}
use windoge_os.Access.Policy.{NoSlash}
use windoge_os.Vfs.Path.{
  copy_or, last_slash, copy_name, root, is_root, split_at, split_clean, fs_sanitize_path,
  fs_split_path,
}

-- The last slash: behind it there is none.
last_slash-some :
    (n : ℕ) (s : List ℕ) (i : ℕ)
    → last_slash n s ≡ some i
    → (i < n) × (get_or s i 0 ≡ b'/') × ((j : ℕ) → i < j → j < n → get_or s j 0 ≢ b'/')
unfolding last_slash
last_slash-some zero s i e = absurd (cc)
last_slash-some (suc n) s i e = elim (Bool-cases (get_or s n 0 == b'/')) [
  | inl h ↦
      let q : n ≡ i = ground arith in
      (omega arith, ground (arith, ap (λ k. get_or s k 0) q), λ j lo hi. absurd (omega arith))
  | inr h ↦
      let (lt, at, behind) = last_slash-some n s i (ground arith) in
      (
        omega arith,
        at,
        λ j lo hi. elim (ℕ_discrete n j) [
          | yes q ↦ ground (arith, h, ap (λ k. get_or s k 0) q)
          | no q ↦ behind j lo (omega arith)
        ],
      )
]

last_slash-none :
    (n : ℕ) (s : List ℕ) → last_slash n s ≡ none → (j : ℕ) → j < n → get_or s j 0 ≢ b'/'
unfolding last_slash
last_slash-none zero s e j h = absurd (omega arith)
last_slash-none (suc n) s e j h = elim (ℕ_discrete n j) [
  | yes q ↦ ground (arith, ap (λ k. get_or s k 0) q)
  | no q ↦ last_slash-none n s (ground arith) j (omega arith)
]

no_slash : (s : List ℕ) → ((j : ℕ) → j < length s → get_or s j 0 ≢ b'/') → NoSlash s
no_slash [] h = tt
no_slash (c ∷ s) h = (h 0 (omega arith), no_slash s (λ j lt. h (suc j) (omega arith)))

-- The text around an index.
around : (s : List ℕ) (i : ℕ) → i < length s → s ≡ take i s ++ (get_or s i 0 ∷ drop (suc i) s)
around [] i h = absurd (omega arith)
around (c ∷ s) zero h = refl
around (c ∷ s) (suc i) h = ap (λ x. c ∷ x) (around s i (omega arith))

copy_name_small : (old s : List ℕ) → length s < 255 → copy_name old s ≡ s
unfolding copy_name copy_or
copy_name_small old s h =
    let fits : leb 255 (length s) ≡ false = ground arith in rw fits (take_all 255 s (omega arith))

-- The ways in which a path is made up of a parent and a name.
abbrev pub Parts : List ℕ → List ℕ → List ℕ → Type 0
Parts s parent leaf =
    ((parent ≡ []) × (s ≡ leaf))
    ⊎ (((parent ≡ root) × (s ≡ b'/' ∷ leaf)) ⊎ ((parent ≢ []) × (s ≡ parent ++ (b'/' ∷ leaf))))

-- What stands behind the last slash at `i`.
behind :
    (s old : List ℕ) (i : ℕ)
    → length s < 255
    → last_slash (length s) s ≡ some i
    → (copy_name old (drop (i + 1) s) ≡ drop (suc i) s)
      × (s ≡ take i s ++ (b'/' ∷ drop (suc i) s))
      × NoSlash (drop (suc i) s)
      × (i < length s)
behind s old i small e =
    let (lt, at, free) = last_slash-some (length s) s i e in
    (
      copy_name_small old (drop (i + 1) s) (omega (arith, length-drop (i + 1) s))
          ∙ ap (λ k. drop k s) {x = i + 1} {y = suc i} (omega arith),
      around s i lt ∙ ap (λ c. take i s ++ (c ∷ drop (suc i) s)) at,
      no_slash (drop (suc i) s) (λ j h q.
          free (suc i + j) (omega arith) (omega (arith, length-drop (suc i) s))
            (sym (get_or-drop (suc i) s j) ∙ q)),
      lt,
    )

-- The two fields of a result.
same_parts :
    (a b c d : List ℕ)
    → ◌≡◌ {A = Option (List ℕ × List ℕ)} (some (a, b)) (some (c, d))
    → (c ≡ a) × (d ≡ b)
same_parts a b c d e = (ground (arith, e), ground (arith, e))

take-ne-nil : (i : ℕ) (s : List ℕ) → 0 < i → i < length s → take i s ≢ []
take-ne-nil zero s p h e = omega arith
take-ne-nil (suc i) [] p h e = omega arith
take-ne-nil (suc i) (c ∷ s) p h e = cc

split_at-Parts :
    (s old parent leaf : List ℕ) (o : Option ℕ)
    → length s < 255
    → last_slash (length s) s ≡ o
    → split_at s old o ≡ some (parent, leaf)
    → Parts s parent leaf × NoSlash leaf
unfolding split_at
split_at-Parts s old parent leaf none small q e =
    let (p, l) = same_parts [] (copy_name old s) parent leaf e in
    let whole : leaf ≡ s = l ∙ copy_name_small old s small in
    (inl (p, sym whole), subst NoSlash (sym whole) (no_slash s (last_slash-none (length s) s q)))
split_at-Parts s old parent leaf (some i) small q e =
    let (name, whole, free, lt) = behind s old i small q in
    elim (ℕ_discrete i 0) [
      | yes z ↦
          let (p, l) =
            same_parts root (copy_name old (drop (i + 1) s)) parent leaf (ground (arith, e, z)) in
          let n : leaf ≡ drop (suc i) s = l ∙ name in
          (
            inr (inl (p, whole ∙ ap₂ (λ k x. take k s ++ (b'/' ∷ x)) z (sym n))),
            subst NoSlash (sym n) free,
          )
      | no nz ↦
          let (p, l) =
            same_parts (take i s) (copy_name old (drop (i + 1) s)) parent leaf
              (ground (arith, e)) in
          let n : leaf ≡ drop (suc i) s = l ∙ name in
          (
            inr (
                inr (
                  (λ z. take-ne-nil i s (omega arith) lt (sym p ∙ z)),
                  whole ∙ ap₂ (λ a x. a ++ (b'/' ∷ x)) (sym p) (sym n),
                )),
            subst NoSlash (sym n) free,
          )
    ]

-- The split of a path that fits the buffers has a result.
split_at-some :
    (s old : List ℕ) (o : Option ℕ)
    → length s < 255
    → last_slash (length s) s ≡ o
    → (parent leaf : List ℕ) × (split_at s old o ≡ some (parent, leaf))
unfolding split_at
split_at-some s old none small q = ([], copy_name old s, refl)
split_at-some s old (some i) small q =
    let fits : leb 256 i ≡ false = ground (arith, (last_slash-some (length s) s i q).0) in
    elim (Bool-cases (i == 0)) [
      | inl first ↦ (root, copy_name old (drop (i + 1) s), rw first refl)
      | inr later ↦ (take i s, copy_name old (drop (i + 1) s), rw (later, fits) refl)
    ]

not_root : (s : List ℕ) → s ≢ root → is_root s ≡ false
not_root [] h = refl
not_root (c ∷ []) h = elim (Bool-cases (c == b'/')) [
  | inl e ↦ absurd (h (ap (λ x. x ∷ []) (ground (arith, e))))
  | inr e ↦ e
]
not_root (c ∷ d ∷ s) h = refl

split_clean-Parts :
    (s old : List ℕ)
    → s ≢ []
    → s ≢ root
    → length s < 255
    → (parent leaf : List ℕ) × (split_clean s old ≡ some (parent, leaf))
      × Parts s parent leaf
      × NoSlash leaf
unfolding split_clean
split_clean-Parts [] old ne nr small = absurd (ne refl)
split_clean-Parts (c ∷ s) old ne nr small =
    let (parent, leaf, e) =
      split_at-some (c ∷ s) old (last_slash (length (c ∷ s)) (c ∷ s)) small refl in
    let (parts, free) =
      split_at-Parts (c ∷ s) old parent leaf (last_slash (length (c ∷ s)) (c ∷ s)) small refl e in
    (parent, leaf, rw (not_root (c ∷ s) nr, split_clean) e, parts, free)

-- `fs_split_path` on a path that is not empty, cleaned by `fs_sanitize_path`: where nothing is left it
-- fails; the root is split into the root and "."; and any other clean path of less than 255 bytes is
-- split without loss: it is the name alone, or a slash and the name, or the parent, a slash and the
-- name, and the name has no slash in it.
pub split_path-Parts :
    (c : ℕ) (path junk old : List ℕ)
    → let s = fs_sanitize_path (c ∷ path) junk 256 in
      (s ≡ [] → fs_split_path (c ∷ path) junk old ≡ none)
      × (s ≡ root → fs_split_path (c ∷ path) junk old ≡ some (root, b'.' ∷ []))
      × (s ≢ []
          → s ≢ root
          → length s < 255
          → (parent leaf : List ℕ) × (fs_split_path (c ∷ path) junk old ≡ some (parent, leaf))
            × Parts s parent leaf
            × NoSlash leaf)
unfolding fs_split_path split_clean
split_path-Parts c path junk old = (
  (λ e. ap (λ s. split_clean s old) e),
  (λ e. ap (λ s. split_clean s old) e),
  split_clean-Parts (fs_sanitize_path (c ∷ path) junk 256) old,
)
