-- ===== src/Common/Pieces.antt =====
-- Pieces of a list of bytes, by their place in it.
use Prim.Native.Nat.{ℕ, zero, suc, ◌+◌, ◌≤◌, ◌<◌}
use mathlib.Core.Path.{◌≡◌, refl, sym, ap, ap₂, ◌∙◌}
use mathlib.Core.List.{List, [], ◌∷◌, ◌++◌}
use native.Mathlib.Omega.{arith}
use windoge_os.Common.Lists.{length, length-append, get_or, take, drop, length-drop, length-take}

pub get_or-append_left : (a b : List ℕ) (j : ℕ) → j < length a → get_or (a ++ b) j 0 ≡ get_or a j 0
get_or-append_left [] b j h = absurd (omega arith)
get_or-append_left (x ∷ a) b zero h = refl
get_or-append_left (x ∷ a) b (suc j) h = get_or-append_left a b j (omega arith)

pub get_or-append_right : (a b : List ℕ) (j : ℕ) → get_or (a ++ b) (length a + j) 0 ≡ get_or b j 0
get_or-append_right [] b j = ap (λ k. get_or b k 0) {x = 0 + j} (omega arith)
get_or-append_right (x ∷ a) b j =
    ap (λ k. get_or (x ∷ (a ++ b)) k 0) {x = suc (length a) + j} {y = suc (length a + j)}
      (omega arith)
    ∙ get_or-append_right a b j

pub list_ext :
    (a b : List ℕ)
    → length a ≡ length b
    → ((j : ℕ) → j < length a → get_or a j 0 ≡ get_or b j 0)
    → a ≡ b
list_ext [] [] e h = refl
list_ext [] (y ∷ b) e h = absurd (omega arith)
list_ext (x ∷ a) [] e h = absurd (omega arith)
list_ext (x ∷ a) (y ∷ b) e h =
    ap₂ (λ u v. u ∷ v) (h 0 (omega arith))
      (list_ext a b (omega arith) (λ j lt. h (suc j) (omega arith)))

pub get_or-drop : (n : ℕ) (s : List ℕ) (j : ℕ) → get_or (drop n s) j 0 ≡ get_or s (n + j) 0
get_or-drop zero s j = ap (λ k. get_or s k 0) {x = j} {y = 0 + j} (omega arith)
get_or-drop (suc n) [] j = refl
get_or-drop (suc n) (c ∷ s) j =
    get_or-drop n s j ∙ ap (λ k. get_or (c ∷ s) k 0) {x = suc (n + j)} {y = suc n + j} (omega arith)

pub get_or-take : (n : ℕ) (s : List ℕ) (j : ℕ) → j < n → get_or (take n s) j 0 ≡ get_or s j 0
get_or-take zero s j h = absurd (omega arith)
get_or-take (suc n) [] j h = refl
get_or-take (suc n) (c ∷ s) zero h = refl
get_or-take (suc n) (c ∷ s) (suc j) h = get_or-take n s j (omega arith)

pub take_all : (n : ℕ) (s : List ℕ) → length s ≤ n → take n s ≡ s
take_all zero [] h = refl
take_all zero (c ∷ s) h = absurd (omega arith)
take_all (suc n) [] h = refl
take_all (suc n) (c ∷ s) h = ap (λ x. c ∷ x) (take_all n s (omega arith))

pub drop_all : (n : ℕ) (s : List ℕ) → length s ≤ n → drop n s ≡ []
drop_all zero [] h = refl
drop_all zero (c ∷ s) h = absurd (omega arith)
drop_all (suc n) [] h = refl
drop_all (suc n) (c ∷ s) h = drop_all n s (omega arith)

-- The piece stands in the list from the index on.
pub record At (bs : List ℕ) (i : ℕ) (piece : List ℕ) : Type 0 where
  pub fits : i + length piece ≤ length bs
  pub same : (j : ℕ) → j < length piece → get_or bs (i + j) 0 ≡ get_or piece j 0

pub At-left : {bs : List ℕ} {i : ℕ} (a b : List ℕ) → At bs i (a ++ b) → At bs i a
At-left a b h = record {
  fits = omega (arith, h.fits, length-append a b);
  same = λ j lt. h.same j (omega (arith, length-append a b)) ∙ get_or-append_left a b j lt;
}

pub At-right : {bs : List ℕ} {i : ℕ} (a b : List ℕ) → At bs i (a ++ b) → At bs (i + length a) b
At-right {bs} {i} a b h = record {
  fits = omega (arith, h.fits, length-append a b);
  same = λ j lt.
      ap (λ k. get_or bs k 0) {x = i + length a + j} {y = i + (length a + j)} (omega arith)
      ∙ h.same (length a + j) (omega (arith, length-append a b))
      ∙ get_or-append_right a b j;
}

pub At-whole : (a b : List ℕ) → At (a ++ b) (length a) b
At-whole a b = record {
  fits = omega (arith, length-append a b);
  same = λ j lt. get_or-append_right a b j;
}

-- What is read at a place is the piece that stands there.
pub At-unique :
    {bs : List ℕ} {i : ℕ} (a b : List ℕ) → At bs i a → At bs i b → length a ≡ length b → a ≡ b
At-unique a b ha hb e = list_ext a b e (λ j lt. sym (ha.same j lt) ∙ hb.same j (omega (arith, e)))

pub At-slice : (bs : List ℕ) (i n : ℕ) → i + n ≤ length bs → At bs i (take n (drop i bs))
At-slice bs i n h = record {
  fits = omega (arith, length-take n (drop i bs), length-drop i bs);
  same = λ j lt.
      sym (
        get_or-take n (drop i bs) j (omega (arith, length-take n (drop i bs)))
        ∙ get_or-drop i bs j);
}

pub length-slice : (bs : List ℕ) (i n : ℕ) → i + n ≤ length bs → length (take n (drop i bs)) ≡ n
length-slice bs i n h = omega (arith, length-take n (drop i bs), length-drop i bs)
